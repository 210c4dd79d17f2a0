-- ===== src/Auth/Account.antt =====
-- The account part of services/user_service.py.
use stock_invest_system.Prelude.{
  ℕ, ◌+◌, ◌-◌, ◌*◌, ◌/◌, Bool, true, false, not, ◌&&◌, List, [], ◌∷◌, Option, none, some, ◌==◌, leb,
  if◌then◌else◌, is_some,
}
use stock_invest_system.Auth.World.{
  User, UserSession, World, Result, ok, err, Reply, same_id, get_by_username, get_by_email,
  get_by_id, write_user, wrong_password, current_password_wrong, same_password, same_email,
  email_taken, already_deleted, not_deleted, grace_over,
}
use stock_invest_system.Auth.Sessions.{revoke_all_user_sessions}
use stock_invest_system.Auth.SignIn.{authentic, build_auth_result, clear_login_failures}
use stock_invest_system.Auth.Outside.{Outside, Settings, Fresh, Tokens, refuse}

-- ACCOUNT_GRACE_DAYS, and a day in seconds.
abbrev pub grace_days : ℕ
grace_days = 30

abbrev pub day : ℕ
day = 86400

module _ {S T : Type 0} (o : Outside S T) (c : Settings) where
  abbrev pub with_user : User → World S → World S
  with_user u w = record w { users = write_user u w.users }

  abbrev pub revoke_all : ℕ → ℕ → World S → World S
  revoke_all now user_id w =
      revoke_all_user_sessions o.keys o.hash_refresh_token c.refresh_days now user_id w

  abbrev pub done : World S → Reply S (Unit {0})
  done w = record { result = ok tt; world = w }

  unfoldable pub change_password : ℕ → Fresh → User → ℕ → ℕ → World S → Reply S (Unit {0})
  change_password now r user old_password new_password w =
      if o.verify_password old_password user.password_hash
      then (if old_password == new_password
          then refuse same_password w
          else done (
              revoke_all now user.id (
                with_user (record user { password_hash = o.hash_password r.salt new_password }) w)))
      else refuse current_password_wrong w

  abbrev taken_by_other : User → Option User → Bool
  taken_by_other user none = false
  taken_by_other user (some other) = not (other.id == user.id)

  -- The mail that follows is best-effort.
  unfoldable pub change_email : User → ℕ → ℕ → World S → Reply S (Unit {0})
  change_email user password new_email w =
      if o.verify_password password user.password_hash
      then (if same_id user.email (o.strip new_email)
          then refuse same_email w
          else (if taken_by_other user (get_by_email (o.strip new_email) w.users)
              then refuse email_taken w
              else done (
                  with_user
                    (record user { email = some (o.strip new_email); email_verified = false }) w)))
      else refuse current_password_wrong w

  unfoldable pub delete_account : ℕ → User → World S → Reply S (Unit {0})
  delete_account now user w =
      if user.is_deleted
      then refuse already_deleted w
      else done (
          revoke_all now user.id
            (with_user (record user { is_deleted = true; deleted_at = some now }) w))

  -- `elapsed.days >= ACCOUNT_GRACE_DAYS`
  abbrev pub is_grace_over : ℕ → Option ℕ → Bool
  is_grace_over now none = false
  is_grace_over now (some deleted_at) = leb grace_days ((now - deleted_at) / day)

  unfoldable pub restore_user : ℕ → ℕ → ℕ → World S → Reply S User
  restore_user now username password w =
      elim (authentic o c password (get_by_username (o.strip username) w.users)) [
        | none ↦ refuse wrong_password w
        | some u ↦
            if u.is_deleted
            then (if is_grace_over now u.deleted_at
                then refuse grace_over w
                else let restored = record u { is_deleted = false; deleted_at = none } in
                  record { result = ok restored; world = with_user restored w })
            else refuse not_deleted w
      ]

  -- `auth_service.restore_account`
  abbrev sign_in_restored : Bool → ℕ → Fresh → ℕ → Result User → World S → Reply S (Tokens T)
  sign_in_restored up now r username (err e) w = refuse e w
  sign_in_restored up now r username (ok u) w =
      build_auth_result o c now r u.id (clear_login_failures o c up (o.strip username) w)

  unfoldable pub restore_account : Bool → ℕ → Fresh → ℕ → ℕ → World S → Reply S (Tokens T)
  restore_account up now r username password w =
      let restored = restore_user now username password w in
      sign_in_restored up now r username restored.result restored.world

  abbrev pub without_user : ℕ → List User → List User
  without_user id [] = []
  without_user id (u ∷ us) = if u.id == id then us else u ∷ without_user id us

  abbrev pub without_sessions : ℕ → List UserSession → List UserSession
  without_sessions user_id [] = []
  without_sessions user_id (s ∷ ss) =
      let rest = without_sessions user_id ss in if s.user_id == user_id then rest else s ∷ rest

  -- The row and, by the cascade, the sessions; the other tables and the files are not modelled.
  unfoldable pub hard_delete_account : ℕ → World S → World S
  hard_delete_account user_id w =
      if is_some (get_by_id user_id w.users)
      then record w {
        users = without_user user_id w.users;
        sessions = without_sessions user_id w.sessions;
      }
      else w

  -- `deleted_at <= now - 30 days`, for a deleted user with a date.
  abbrev pub is_expired : ℕ → User → Bool
  is_expired now u =
      u.is_deleted && elim u.deleted_at [ none ↦ false | some t ↦ leb (t + grace_days * day) now ]

  abbrev pub purge_from : ℕ → List User → World S → World S
  purge_from now [] w = w
  purge_from now (u ∷ us) w =
      purge_from now us (if is_expired now u then hard_delete_account u.id w else w)

  unfoldable pub purge_expired_deleted_accounts : ℕ → World S → World S
  purge_expired_deleted_accounts now w = purge_from now w.users w

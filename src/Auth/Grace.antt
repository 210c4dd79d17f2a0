-- ===== src/Auth/Grace.antt =====
-- Deleted accounts, and the time in which they come back.
use stock_invest_system.Prelude.{
  ℕ, ◌+◌, ◌*◌, ◌≤◌, ◌<◌, ◌≡◌, true, false, List, [], ◌∷◌, none, some, arith, if◌then◌else◌,
}
use stock_invest_system.Auth.World.{
  User, World, ok, err, grace_over, get_by_username, get_by_id, write_user,
}
use stock_invest_system.Auth.Outside.{Outside, Settings}
use stock_invest_system.Auth.SignIn.{authentic}
use stock_invest_system.Auth.Account.{delete_account, restore_user, is_expired}
use stock_invest_system.Auth.Sessions.{revoke_all_user_sessions}

-- A row of an identity, written twice: the second time as it was, nothing is left of the first.
write_user-get_by_id :
    (u v : User) (us : List User)
    → v.id ≡ u.id
    → get_by_id u.id us ≡ some u
    → write_user u (write_user v us) ≡ us
write_user-get_by_id u v [] e h = ground arith
write_user-get_by_id u v (x ∷ us) e h = ground (arith, write_user-get_by_id u v us)

get_by_username-write_user :
    (u v : User) (us : List User)
    → v.id ≡ u.id
    → v.username ≡ u.username
    → get_by_id u.id us ≡ some u
    → get_by_username u.username us ≡ some u
    → get_by_username u.username (write_user v us) ≡ some v
get_by_username-write_user u v [] e n h k = ground arith
get_by_username-write_user u v (x ∷ us) e n h k = ground (arith, get_by_username-write_user u v us)

module _ {S T : Type 0} (o : Outside S T) (c : Settings) where
  -- An account that is deleted and then restored by its password within 30 days is as it was. Its
  -- name and its identity lead to its row.
  pub restore-delete :
      (now later password name : ℕ) (u : User) (w : World S)
      → o.strip name ≡ u.username
      → get_by_username u.username w.users ≡ some u
      → get_by_id u.id w.users ≡ some u
      → o.verify_password password u.password_hash ≡ true
      → u.is_deleted ≡ false
      → u.deleted_at ≡ none
      → later < now + 30 * 86400
      → let back = restore_user o c later name password (delete_account o c now u w).world in
        (back.result ≡ ok u) × (back.world.users ≡ w.users)
  unfolding restore_user delete_account revoke_all_user_sessions
  restore-delete now later password name u w sn n i p k dt lt =
      let gone = record u { is_deleted = true; deleted_at = some now } in
      ground (arith, get_by_username-write_user u gone w.users, write_user-get_by_id u gone w.users)

  -- An account that is deleted can be restored by its password exactly as long as the purge would
  -- leave it: from then on the request is refused.
  pub restores_until_purge :
      (now t password name : ℕ) (u : User) (w : World S)
      → authentic o c password (get_by_username (o.strip name) w.users) ≡ some u
      → u.is_deleted ≡ true
      → u.deleted_at ≡ some t
      → t ≤ now
      → (restore_user o c now name password w).result ≡ (
          if is_expired o c now u
          then err grace_over
          else ok (record u { is_deleted = false; deleted_at = none }))
  unfolding restore_user
  restores_until_purge now t password name u w a k dt le = ground arith

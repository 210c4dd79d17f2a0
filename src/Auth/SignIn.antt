-- ===== src/Auth/SignIn.antt =====
-- services/auth_service.py and the current user of api/deps.py. A call has the clock's reading,
-- whether Redis is in reach, whether the reading's fraction of a second is later than that of the
-- end it is compared with, and the random values that it draws.
use stock_invest_system.Prelude.{
  ℕ, suc, ◌-◌, Bool, false, ◌&&◌, List, [], ◌∷◌, ◌++◌, Option, none, some, ◌==◌, leb, if◌then◌else◌,
  is_some,
}
use stock_invest_system.Redis.{or_zero}
use stock_invest_system.Auth.Tokens.{Payload, create_access_token, decode_access_token_full}
use stock_invest_system.Auth.World.{
  User, UserSession, World, ok, Reply, get_by_username, get_by_email, is_unrevoked, username_taken,
  email_taken, wrong_password, account_deleted, login_locked, sessions_revoked, refresh_refused,
  session_missing,
}
use stock_invest_system.Auth.Sessions.{
  whole_seconds, rotated, valid, refused, blacklist_access_token, blacklist_refresh_token,
  create_session, find_session_by_token, revoke_session, revoke_all_user_sessions,
  validate_refresh_token, rotate_refresh_token,
}
use stock_invest_system.Auth.Outside.{Outside, Settings, Fresh, Tokens, refuse}

abbrev pub login_fail_max : ℕ
login_fail_max = 5

abbrev pub login_lock_seconds : ℕ
login_lock_seconds = 900

module _ {S T : Type 0} (o : Outside S T) (c : Settings) where
  -- `_build_auth_result`
  unfoldable pub build_auth_result : ℕ → Fresh → ℕ → World S → Reply S (Tokens T)
  build_auth_result now r user_id w = record {
    result = ok (record {
      token = create_access_token o.jwt c.access_minutes now r.jti user_id;
      refresh_token = r.refresh_token;
      user_id = user_id;
    });
    world = create_session o.keys o.hash_refresh_token c.refresh_days now user_id r.refresh_token w;
  }

  -- The mail that follows is best-effort and changes nothing here.
  unfoldable pub register : ℕ → Fresh → ℕ → ℕ → ℕ → World S → Reply S (Tokens T)
  register now r username password email w =
      if is_some (get_by_username (o.strip username) w.users)
      then refuse username_taken w
      else (if is_some (get_by_email email w.users)
          then refuse email_taken w
          else build_auth_result now r w.next_user (record w {
            users =
                w.users
                ++ record {
                  id = w.next_user;
                  username = o.strip username;
                  password_hash = o.hash_password r.salt password;
                  email = some email;
                  email_verified = false;
                  is_deleted = false;
                  deleted_at = none;
                }
                  ∷ [];
            next_user = suc w.next_user;
          }))

  -- `_check_login_lock`, `_record_login_failure` and `_clear_login_failures`
  unfoldable pub is_login_locked : Bool → ℕ → ℕ → World S → Bool
  is_login_locked up now username w =
      up && leb login_fail_max (or_zero (o.keys.value w.login_fail now username))

  unfoldable pub record_login_failure : Bool → ℕ → ℕ → World S → World S
  record_login_failure up now username w =
      if up
      then record w { login_fail = o.keys.incr_ex now login_lock_seconds username w.login_fail }
      else w

  unfoldable pub clear_login_failures : Bool → ℕ → World S → World S
  clear_login_failures up username w =
      if up then record w { login_fail = o.keys.delete username w.login_fail } else w

  -- `user is None or not verify_password(...)`
  abbrev pub authentic : ℕ → Option User → Option User
  authentic password none = none
  authentic password (some u) = if o.verify_password password u.password_hash then some u else none

  unfoldable pub login : Bool → ℕ → Fresh → ℕ → ℕ → World S → Reply S (Tokens T)
  login up now r username password w =
      if is_login_locked up now (o.strip username) w
      then refuse login_locked w
      else elim (authentic password (get_by_username (o.strip username) w.users)) [
        | none ↦ refuse wrong_password (record_login_failure up now (o.strip username) w)
        | some u ↦
            if u.is_deleted
            then refuse account_deleted w
            else build_auth_result now r u.id (clear_login_failures up (o.strip username) w)
      ]

  abbrev revoke_owner : ℕ → Option UserSession → World S → World S
  revoke_owner now none w = w
  revoke_owner now (some s) w =
      revoke_all_user_sessions o.keys o.hash_refresh_token c.refresh_days now s.user_id w

  -- A token that was rotated or kicked revokes all sessions of its user, and this is committed.
  unfoldable pub refresh : Bool → ℕ → Bool → Fresh → ℕ → World S → Reply S (Tokens T)
  refresh up now late r refresh_token w =
      elim (validate_refresh_token o.keys o.hash_refresh_token c.refresh_days up now refresh_token
        w) [
          | refused rotated ↦ refuse sessions_revoked (
              revoke_owner now
                (find_session_by_token o.keys o.hash_refresh_token c.refresh_days refresh_token w)
                w)
          | refused other ↦ refuse refresh_refused w
          | valid session ↦ record {
            result = ok (record {
              token = create_access_token o.jwt c.access_minutes now r.jti session.user_id;
              refresh_token = r.refresh_token;
              user_id = session.user_id;
            });
            world =
                rotate_refresh_token o.keys o.hash_refresh_token c.refresh_days up now late session
                  r.refresh_token w;
          }
        ]

  abbrev pub blacklist_payload : Bool → ℕ → Bool → Option Payload → World S → World S
  blacklist_payload up now late none w = w
  blacklist_payload up now late (some p) w = elim p.jti [
    | none ↦ w
    | some jti ↦
        blacklist_access_token o.keys o.hash_refresh_token c.refresh_days up now jti
          (whole_seconds late (p.exp - now)) w
  ]

  abbrev pub revoke_if_unrevoked : ℕ → Option UserSession → World S → World S
  revoke_if_unrevoked now none w = w
  revoke_if_unrevoked now (some s) w =
      if is_unrevoked s
      then revoke_session o.keys o.hash_refresh_token c.refresh_days now s w
      else w

  abbrev pub revoke_by_token : ℕ → Option ℕ → World S → World S
  revoke_by_token now none w = w
  revoke_by_token now (some refresh_token) w =
      revoke_if_unrevoked now
        (find_session_by_token o.keys o.hash_refresh_token c.refresh_days refresh_token w) w

  unfoldable pub logout : Bool → ℕ → Bool → T → Option ℕ → World S → World S
  logout up now late access_token refresh_token w =
      revoke_by_token now refresh_token
        (blacklist_payload up now late (decode_access_token_full o.jwt now access_token) w)

  abbrev pub find_owned : ℕ → ℕ → List UserSession → Option UserSession
  find_owned user_id id [] = none
  find_owned user_id id (s ∷ ss) =
      if s.id == id && s.user_id == user_id then some s else find_owned user_id id ss

  -- A device is kicked: its hash is put on the black list and its session revoked.
  unfoldable pub revoke_session_by_id : Bool → ℕ → Bool → ℕ → ℕ → World S → Reply S (Unit {0})
  revoke_session_by_id up now late user_id session_id w =
      elim (find_owned user_id session_id w.sessions) [
        | none ↦ refuse session_missing w
        | some s ↦ record {
          result = ok tt;
          world = revoke_session o.keys o.hash_refresh_token c.refresh_days now s (
              blacklist_refresh_token o.keys o.hash_refresh_token c.refresh_days up now
                s.refresh_token_hash (whole_seconds late (s.expires_at - now)) w);
        }
      ]

-- ===== src/Auth/Tests.antt =====
-- Two devices of one user.
use stock_invest_system.Prelude.{
  ℕ, ◌+◌, ◌≡◌, refl, inl, true, false, List, [], ◌∷◌, arith, Option, none, some, if◌then◌else◌, leb,
  ltb, ◌&&◌,
}
use stock_invest_system.Auth.Tokens.{
  password_reset, reset_password, create_access_token, decode_access_token_full,
  create_verify_token, create_reset_token, verify_email_token, verify_reset_token,
  email_tokens_roundtrip,
}
use stock_invest_system.Auth.World.{
  User, UserSession, World, ok, err, sessions_revoked, token_refused, grace_over, count_unrevoked,
}
use stock_invest_system.Auth.Outside.{Settings, Fresh}
use stock_invest_system.Auth.Simple.{Writes, Token, simple, tokens}
use stock_invest_system.Auth.Sessions.{
  validate_refresh_token, find_session_by_token, is_refresh_token_blacklisted,
  blacklist_access_token, is_access_token_blacklisted, revoke_session,
}
use stock_invest_system.Auth.SignIn.{
  login, refresh, logout, revoke_session_by_id, is_login_locked, build_auth_result,
}
use stock_invest_system.Auth.Account.{delete_account, change_password, restore_user, is_expired}
use stock_invest_system.Auth.MailLinks
use stock_invest_system.Auth.CurrentUser.{resolve_user_id, get_current_user}
use stock_invest_system.Auth.Rotation.{has_tokens, refresh_once, kick_signs_out_all}
use stock_invest_system.Auth.Revoked.{refresh_request, login_request, serve_all, revoked_is_final}
use stock_invest_system.Auth.Lock.{logins, locks_at_five}
use stock_invest_system.Auth.Grace.{restores_until_purge}
use stock_invest_system.Auth.SignOut.{is_done, signs_out_everywhere, logout_refuses}

abbrev settings : Settings
settings = record { access_minutes = 15; refresh_days = 7 }

abbrev fresh : ℕ → Fresh
fresh n = record { jti = n; refresh_token = n; salt = n }

abbrev user : User
user = record {
  id = 1;
  username = 50;
  password_hash = 60;
  email = some 70;
  email_verified = true;
  is_deleted = false;
  deleted_at = none;
}

abbrev session : ℕ → ℕ → Option ℕ → UserSession
session n token revoked_at = record {
  id = n;
  user_id = 1;
  refresh_token_hash = token + 1000;
  expires_at = 604800;
  revoked_at = revoked_at;
}

abbrev world_of : List User → List UserSession → World Writes
world_of users sessions = record {
  users = users;
  next_user = 2;
  sessions = sessions;
  next_session = 9;
  refresh_blacklist = [];
  token_blacklist = [];
  login_fail = [];
}

-- A desktop with token 7 and a phone with token 8.
abbrev world : World Writes
world = world_of (user ∷ []) (session 1 7 none ∷ session 2 8 none ∷ [])

rotates :
    has_tokens simple settings (refresh simple settings true 100 true (fresh 9) 7 world).result
    ≡ true
unfolding refresh validate_refresh_token find_session_by_token is_refresh_token_blacklisted
rotates = refl

signs_in :
    has_tokens simple settings (login simple settings true 100 (fresh 9) 50 60 world).result ≡ true
unfolding login is_login_locked build_auth_result
signs_in = refl

refresh_once_example :
    let again =
      refresh simple settings true 200 true
        (fresh 11)
        7
        (refresh simple settings true 100 true (fresh 9) 7 world).world in
    (again.result ≡ err sessions_revoked) × (count_unrevoked 1 again.world.sessions ≡ 0)
refresh_once_example =
    refresh_once simple settings 100 200 true true (fresh 9) (fresh 11) 7 world (session 1 7 none)
      refl rotates (omega arith) (omega arith)

kick_signs_out_all_example :
    let asked =
      refresh simple settings true 200 true
        (fresh 11)
        8
        (revoke_session_by_id simple settings true 100 true 1 2 world).world in
    (asked.result ≡ err sessions_revoked) × (count_unrevoked 1 asked.world.sessions ≡ 0)
kick_signs_out_all_example =
    kick_signs_out_all simple settings 100 200 1 2 8 true true (fresh 11) world (session 2 8 none)
      refl refl refl (omega arith) (omega arith)

revoked_is_final_example :
    has_tokens simple settings
      (refresh simple settings true 300 true (fresh 12) 7 (
        serve_all simple settings
          (refresh_request true 150 false (fresh 13) 8
            ∷ login_request false 200 (fresh 14) 50 60
            ∷ [])
          (world_of (user ∷ []) (session 1 7 (some 90) ∷ session 2 8 none ∷ [])))).result
    ≡ false
revoked_is_final_example =
    revoked_is_final simple settings 7
      (refresh_request true 150 false (fresh 13) 8 ∷ login_request false 200 (fresh 14) 50 60 ∷ [])
      (world_of (user ∷ []) (session 1 7 (some 90) ∷ session 2 8 none ∷ [])) true 300 true
      (fresh 12) refl (omega arith)

locks_at_five_example :
    has_tokens simple settings
      (login simple settings true 900
        (fresh 9)
        50
        60
        (logins simple settings (10 ∷ 20 ∷ 30 ∷ 40 ∷ 50 ∷ []) (fresh 9) 50 61 world)).result
    ≡ false
locks_at_five_example =
    locks_at_five simple settings 10 (20 ∷ 30 ∷ 40 ∷ 50 ∷ []) 900 (fresh 9) (fresh 9) 50 61 60 user
      world refl refl refl refl (omega arith) (omega arith) (omega arith) (omega arith)

abbrev deleted : User
deleted = record user { is_deleted = true; deleted_at = some 100 }

restores_until_purge_example :
    (restore_user simple settings 2592100 50 60 (world_of (deleted ∷ []) [])).result
    ≡ (if is_expired simple settings 2592100 deleted then err grace_over else ok user)
restores_until_purge_example =
    restores_until_purge simple settings 2592100 100 60 50 deleted (world_of (deleted ∷ []) []) refl
      refl refl (omega arith)

abbrev link : Token
link = tokens.encode password_reset (record {
  sub = 1;
  email = some 70;
  kind = some reset_password;
  jti = none;
  exp = 3700;
  iat = 100;
})

link_reads : verify_reset_token tokens 200 link ≡ some (1, 70)
unfolding verify_reset_token
link_reads = refl

signs_out_everywhere_example :
    let changed = change_password simple settings 200 (fresh 9) user 60 61 world in
    let deleted = delete_account simple settings 200 user world in
    let reset = MailLinks.reset_password simple settings 200 (fresh 9) link 61 world in
    (count_unrevoked 1 changed.world.sessions ≡ (if is_done changed.result then 0 else 2))
    × (count_unrevoked 1 deleted.world.sessions ≡ (if is_done deleted.result then 0 else 2))
    × (count_unrevoked 1 reset.world.sessions ≡ (if is_done reset.result then 0 else 2))
signs_out_everywhere_example =
    signs_out_everywhere simple settings 200 (fresh 9) user 60 61 1 70 link world link_reads

logout_refuses_example :
    let token = create_access_token tokens 15 100 3 1 in
    get_current_user simple settings true 300 token
      (logout simple settings true 200 true token (some 7) world)
    ≡ err token_refused
logout_refuses_example =
    logout_refuses simple settings 100 3 1 200 300 true (some 7) world (omega arith) (omega arith)
      (inl (omega arith))

-- In the last second before its expiry the token is accepted again.
works_again :
    let token = create_access_token tokens 15 100 3 1 in
    get_current_user simple settings true 999 token
      (logout simple settings true 200 true token (some 7) world)
    ≡ ok user
unfolding get_current_user resolve_user_id logout decode_access_token_full create_access_token
    blacklist_access_token is_access_token_blacklisted find_session_by_token revoke_session
works_again = refl

email_tokens_roundtrip_example :
    (verify_email_token tokens 500 (create_verify_token tokens 100 1 70)
      ≡ (if leb 100 500 && ltb 500 700 then some (1, 70) else none))
    × (verify_reset_token tokens 500 (create_reset_token tokens 100 1 70)
        ≡ (if leb 100 500 && ltb 500 3700 then some (1, 70) else none))
    × (verify_reset_token tokens 500 (create_verify_token tokens 100 1 70) ≡ none)
    × (verify_email_token tokens 500 (create_reset_token tokens 100 1 70) ≡ none)
    × (verify_email_token tokens 500 (create_access_token tokens 15 100 3 1) ≡ none)
    × (verify_reset_token tokens 500 (create_access_token tokens 15 100 3 1) ≡ none)
    × (decode_access_token_full tokens 500 (create_verify_token tokens 100 1 70) ≡ none)
    × (decode_access_token_full tokens 500 (create_reset_token tokens 100 1 70) ≡ none)
email_tokens_roundtrip_example = email_tokens_roundtrip tokens 100 500 1 70 15 3

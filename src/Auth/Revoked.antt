-- ===== src/Auth/Revoked.antt =====
-- A token whose session is revoked never works again.
use stock_invest_system.Prelude.{
  ℕ, ◌-◌, max, ltb, ◌≡◌, ◌≢◌, refl, Bool, false, ◌&&◌, ◌||◌, List, [], ◌∷◌, ◌++◌, Option, some,
  arith, ◌==◌, if◌then◌else◌, by_test, All, Option-cases, inl, inr,
}
use stock_invest_system.Auth.World.{
  User, UserSession, World, find_by_hash, revoke_id, revoke_user, is_unrevoked,
}
use stock_invest_system.Auth.Rotation.{has_tokens}
use stock_invest_system.Auth.Outside.{Outside, Settings, Fresh}
use stock_invest_system.Auth.Sessions.{
  whole_seconds, blacklist_access_token, blacklist_refresh_token, create_session,
  find_session_by_token, revoke_session, revoke_all_user_sessions, validate_refresh_token,
  rotate_refresh_token,
}
use stock_invest_system.Auth.SignIn.{
  build_auth_result, register, login, record_login_failure, clear_login_failures, refresh, logout,
  revoke_session_by_id,
}
use stock_invest_system.Auth.Account.{
  change_password, change_email, delete_account, restore_user, restore_account, hard_delete_account,
  purge_expired_deleted_accounts, without_sessions, purge_from, is_expired,
}
use stock_invest_system.Auth.MailLinks.{verify_email, reset_password}

-- Whether a session with a hash is unrevoked.
abbrev pub any_live : ℕ → List UserSession → Bool
any_live hash [] = false
any_live hash (s ∷ ss) = (s.refresh_token_hash == hash && is_unrevoked s) || any_live hash ss

any_live-append :
    (hash : ℕ) (ss : List UserSession) (s : UserSession)
    → any_live hash ss ≡ false
    → s.refresh_token_hash ≢ hash
    → any_live hash (ss ++ s ∷ []) ≡ false
any_live-append hash [] s h ne = ground arith
any_live-append hash (x ∷ ss) s h ne = ground (arith, any_live-append hash ss s)

any_live-revoke_id :
    (hash now id : ℕ) (ss : List UserSession)
    → any_live hash ss ≡ false
    → any_live hash (revoke_id now id ss) ≡ false
any_live-revoke_id hash now id [] h = refl
any_live-revoke_id hash now id (x ∷ ss) h = ground (arith, any_live-revoke_id hash now id ss)

any_live-revoke_user :
    (hash now user_id : ℕ) (ss : List UserSession)
    → any_live hash ss ≡ false
    → any_live hash (revoke_user now user_id ss) ≡ false
any_live-revoke_user hash now user_id [] h = refl
any_live-revoke_user hash now user_id (x ∷ ss) h =
    ground (arith, any_live-revoke_user hash now user_id ss)

-- What a request may be; tokens that are drawn stand in `Fresh`.
pub data Request (T : Type 0) : Type 0 where
  register_request : ℕ → Fresh → ℕ → ℕ → ℕ → Request T
  login_request : Bool → ℕ → Fresh → ℕ → ℕ → Request T
  refresh_request : Bool → ℕ → Bool → Fresh → ℕ → Request T
  logout_request : Bool → ℕ → Bool → T → Option ℕ → Request T
  kick_request : Bool → ℕ → Bool → ℕ → ℕ → Request T
  password_request : ℕ → Fresh → User → ℕ → ℕ → Request T
  email_request : User → ℕ → ℕ → Request T
  delete_request : ℕ → User → Request T
  restore_request : Bool → ℕ → Fresh → ℕ → ℕ → Request T
  purge_request : ℕ → Request T
  verify_request : ℕ → T → Request T
  reset_request : ℕ → Fresh → T → ℕ → Request T

module _ {S T : Type 0} (o : Outside S T) (c : Settings) where
  unfoldable pub serve : Request T → World S → World S
  serve (register_request now r name password email) w =
      (register o c now r name password email w).world
  serve (login_request up now r name password) w = (login o c up now r name password w).world
  serve (refresh_request up now late r token) w = (refresh o c up now late r token w).world
  serve (logout_request up now late access token) w = logout o c up now late access token w
  serve (kick_request up now late user_id id) w =
      (revoke_session_by_id o c up now late user_id id w).world
  serve (password_request now r user old new) w = (change_password o c now r user old new w).world
  serve (email_request user password email) w = (change_email o c user password email w).world
  serve (delete_request now user) w = (delete_account o c now user w).world
  serve (restore_request up now r name password) w =
      (restore_account o c up now r name password w).world
  serve (purge_request now) w = purge_expired_deleted_accounts o c now w
  serve (verify_request now token) w = (verify_email o c now token w).world
  serve (reset_request now r token password) w = (reset_password o c now r token password w).world

  unfoldable pub serve_all : List (Request T) → World S → World S
  serve_all [] w = w
  serve_all (q ∷ qs) w = serve_all qs (serve q w)

  -- The request does not draw a refresh token with the hash.
  abbrev pub Draws : ℕ → Request T → Type 0
  Draws hash (register_request now r name password email) =
      o.hash_refresh_token r.refresh_token ≢ hash
  Draws hash (login_request up now r name password) = o.hash_refresh_token r.refresh_token ≢ hash
  Draws hash (refresh_request up now late r token) = o.hash_refresh_token r.refresh_token ≢ hash
  Draws hash (restore_request up now r name password) = o.hash_refresh_token r.refresh_token ≢ hash
  Draws hash _ = Unit

  any_live-without_sessions :
      (hash user_id : ℕ) (ss : List UserSession)
      → any_live hash ss ≡ false
      → any_live hash (without_sessions o c user_id ss) ≡ false
  any_live-without_sessions hash user_id [] h = refl
  any_live-without_sessions hash user_id (x ∷ ss) h =
      ground (arith, any_live-without_sessions hash user_id ss)

  any_live-create_session :
      (hash now user_id token : ℕ) (w : World S)
      → any_live hash w.sessions ≡ false
      → o.hash_refresh_token token ≢ hash
      → any_live hash
          (create_session o.keys o.hash_refresh_token c.refresh_days now user_id token w).sessions
        ≡ false
  unfolding create_session
  any_live-create_session hash now user_id token w h ne = any_live-append hash w.sessions _ h ne

  hard_delete-any_live :
      (hash user_id : ℕ) (w : World S)
      → any_live hash w.sessions ≡ false
      → any_live hash (hard_delete_account o c user_id w).sessions ≡ false
  unfolding hard_delete_account
  hard_delete-any_live hash user_id w h =
      ground (arith, any_live-without_sessions hash user_id w.sessions)

  purge-any_live :
      (hash now : ℕ) (us : List User) (w : World S)
      → any_live hash w.sessions ≡ false
      → any_live hash (purge_from o c now us w).sessions ≡ false
  purge-any_live hash now [] w h = h
  purge-any_live hash now (u ∷ us) w h =
      purge-any_live hash now us
        (if is_expired o c now u then hard_delete_account o c u.id w else w)
        (by_test (λ (v : World S). any_live hash v.sessions ≡ false) (is_expired o c now u)
          (λ t. hard_delete-any_live hash u.id w h) (λ t. h))

  rotate-any_live :
      (hash : ℕ) (up : Bool) (now : ℕ) (late : Bool) (s : UserSession) (token : ℕ) (w : World S)
      → any_live hash w.sessions ≡ false
      → o.hash_refresh_token token ≢ hash
      → any_live hash
          (rotate_refresh_token o.keys o.hash_refresh_token c.refresh_days up now late s token
            w).sessions
        ≡ false
  unfolding rotate_refresh_token create_session revoke_session blacklist_refresh_token
  rotate-any_live hash up now late s token w h ne =
      any_live-append hash _ _
        (by_test (λ (v : World S). any_live hash (revoke_id now s.id v.sessions) ≡ false)
          (up && ltb 0 (max (whole_seconds late (s.expires_at - now)) 60))
          (λ t. any_live-revoke_id hash now s.id w.sessions h)
          (λ t. any_live-revoke_id hash now s.id w.sessions h))
        ne

  revoke_session-any_live :
      (hash now : ℕ) (s : UserSession) (w : World S)
      → any_live hash w.sessions ≡ false
      → any_live hash (revoke_session o.keys o.hash_refresh_token c.refresh_days now s w).sessions
        ≡ false
  unfolding revoke_session
  revoke_session-any_live hash now s w h = any_live-revoke_id hash now s.id w.sessions h

  revoke_all-any_live :
      (hash now user_id : ℕ) (w : World S)
      → any_live hash w.sessions ≡ false
      → any_live hash
          (revoke_all_user_sessions o.keys o.hash_refresh_token c.refresh_days now user_id
            w).sessions
        ≡ false
  unfolding revoke_all_user_sessions
  revoke_all-any_live hash now user_id w h = any_live-revoke_user hash now user_id w.sessions h

  record_login_failure-sessions :
      (up : Bool) (now name : ℕ) (w : World S)
      → (record_login_failure o c up now name w).sessions ≡ w.sessions
  unfolding record_login_failure
  record_login_failure-sessions up now name w = ground arith

  clear_login_failures-sessions :
      (up : Bool) (name : ℕ) (w : World S)
      → (clear_login_failures o c up name w).sessions ≡ w.sessions
  unfolding clear_login_failures
  clear_login_failures-sessions up name w = ground arith

  blacklist_refresh_token-sessions :
      (up : Bool) (now hash remaining : ℕ) (w : World S)
      → (blacklist_refresh_token o.keys o.hash_refresh_token c.refresh_days up now hash remaining
          w).sessions
        ≡ w.sessions
  unfolding blacklist_refresh_token
  blacklist_refresh_token-sessions up now hash remaining w = ground arith

  blacklist_access_token-sessions :
      (up : Bool) (now jti remaining : ℕ) (w : World S)
      → (blacklist_access_token o.keys o.hash_refresh_token c.refresh_days up now jti remaining
          w).sessions
        ≡ w.sessions
  unfolding blacklist_access_token
  blacklist_access_token-sessions up now jti remaining w = ground arith

  ruleset dead = (
    arith, any_live-create_session, rotate-any_live, revoke_session-any_live, revoke_all-any_live,
    purge-any_live, record_login_failure-sessions, clear_login_failures-sessions,
    blacklist_refresh_token-sessions, blacklist_access_token-sessions,
  )

  serve-any_live :
      (hash : ℕ) (q : Request T) (w : World S)
      → Draws hash q
      → any_live hash w.sessions ≡ false
      → any_live hash (serve q w).sessions ≡ false
  unfolding serve register login build_auth_result refresh logout revoke_session_by_id
      change_password change_email delete_account restore_account restore_user
      purge_expired_deleted_accounts verify_email reset_password
  serve-any_live hash (register_request now r name password email) w ne h = grind dead
  serve-any_live hash (login_request up now r name password) w ne h = grind dead
  serve-any_live hash (refresh_request up now late r token) w ne h = grind dead
  serve-any_live hash (logout_request up now late access token) w ne h = grind dead
  serve-any_live hash (kick_request up now late user_id id) w ne h = grind dead
  serve-any_live hash (password_request now r user old new) w ne h = grind dead
  serve-any_live hash (email_request user password email) w ne h = grind dead
  serve-any_live hash (delete_request now user) w ne h = grind dead
  serve-any_live hash (restore_request up now r name password) w ne h = grind dead
  serve-any_live hash (purge_request now) w ne h = grind dead
  serve-any_live hash (verify_request now token) w ne h = grind dead
  serve-any_live hash (reset_request now r token password) w ne h = grind dead

  serve_all-any_live :
      (hash : ℕ) (qs : List (Request T)) (w : World S)
      → All (Draws hash) qs
      → any_live hash w.sessions ≡ false
      → any_live hash (serve_all qs w).sessions ≡ false
  unfolding serve_all
  serve_all-any_live hash [] w ne h = h
  serve_all-any_live hash (q ∷ qs) w ne h =
      serve_all-any_live hash qs (serve q w) ne.1 (serve-any_live hash q w ne.0 h)

  find-any_live :
      (hash : ℕ) (ss : List UserSession) (s : UserSession)
      → find_by_hash hash ss ≡ some s
      → any_live hash ss ≡ false
      → is_unrevoked s ≡ false
  find-any_live hash [] s e h = ground arith
  find-any_live hash (x ∷ ss) s e h = ground (arith, find-any_live hash ss s)

  refresh_dead :
      (up : Bool) (now : ℕ) (late : Bool) (r : Fresh) (token : ℕ) (w : World S)
      → any_live (o.hash_refresh_token token) w.sessions ≡ false
      → has_tokens o c (refresh o c up now late r token w).result ≡ false
  unfolding refresh validate_refresh_token find_session_by_token
  refresh_dead up now late r token w h =
      elim (Option-cases (find_by_hash (o.hash_refresh_token token) w.sessions)) [
        | inl e ↦ ground (arith, e)
        | inr (s, e) ↦ ground (arith, find-any_live (o.hash_refresh_token token) w.sessions s e h)
      ]

  -- Once no session with a token's hash is unrevoked, the token is never accepted again, whatever is
  -- asked for in between, by anyone and with Redis in reach or not, as long as no token with the
  -- same hash is drawn.
  pub revoked_is_final :
      (token : ℕ) (qs : List (Request T)) (w : World S) (up : Bool) (now : ℕ) (late : Bool)
      (r : Fresh)
      → any_live (o.hash_refresh_token token) w.sessions ≡ false
      → All (Draws (o.hash_refresh_token token)) qs
      → has_tokens o c (refresh o c up now late r token (serve_all qs w)).result ≡ false
  revoked_is_final token qs w up now late r h ne =
      refresh_dead up now late r token (serve_all qs w)
        (serve_all-any_live (o.hash_refresh_token token) qs w ne h)

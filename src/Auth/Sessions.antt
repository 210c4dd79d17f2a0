-- ===== src/Auth/Sessions.antt =====
-- services/session_service.py. Each call has the clock's reading and whether Redis is in reach.
use stock_invest_system.Prelude.{
  ℕ, suc, ◌+◌, ◌-◌, ◌*◌, Bool, ◌&&◌, List, [], ◌∷◌, ◌++◌, Option, none, some, ◌==◌, leb, ltb, max,
  if◌then◌else◌, is_some,
}
use stock_invest_system.Redis.{ExpiringKeys}
use stock_invest_system.Auth.World.{
  UserSession, World, is_unrevoked, find_by_hash, revoke_id, revoke_user,
}

-- `int` of the time that is left: when the reading's fraction of a second is later than that of the
-- end, the difference of the rounded times is one too much.
abbrev pub whole_seconds : Bool → ℕ → ℕ
whole_seconds late left = if late then left - 1 else left

-- The answers of `validate_refresh_token`.
pub data Refusal : Type 0 where
  invalid : Refusal
  rotated : Refusal
  revoked : Refusal
  expired : Refusal

pub data Validation : Type 0 where
  valid : UserSession → Validation
  refused : Refusal → Validation

-- What is not under this repository: the commands of Redis, and the hash of a token.
module _ {S : Type 0} (d : ExpiringKeys S) (hash_refresh_token : ℕ → ℕ) (expire_days : ℕ) where
  -- core/security.py
  unfoldable pub blacklist_access_token : Bool → ℕ → ℕ → ℕ → World S → World S
  blacklist_access_token up now jti remaining w =
      if up && ltb 0 remaining
      then record w { token_blacklist = d.set_ex now remaining jti 1 w.token_blacklist }
      else w

  unfoldable pub is_access_token_blacklisted : Bool → ℕ → ℕ → World S → Bool
  is_access_token_blacklisted up now jti w = up && is_some (d.value w.token_blacklist now jti)

  unfoldable pub blacklist_refresh_token : Bool → ℕ → ℕ → ℕ → World S → World S
  blacklist_refresh_token up now hash remaining w =
      if up && ltb 0 remaining
      then record w { refresh_blacklist = d.set_ex now remaining hash 1 w.refresh_blacklist }
      else w

  unfoldable pub is_refresh_token_blacklisted : Bool → ℕ → ℕ → World S → Bool
  is_refresh_token_blacklisted up now hash w = up && is_some (d.value w.refresh_blacklist now hash)

  unfoldable pub create_session : ℕ → ℕ → ℕ → World S → World S
  create_session now user_id refresh_token w = record w {
    sessions =
        w.sessions
        ++ record {
          id = w.next_session;
          user_id = user_id;
          refresh_token_hash = hash_refresh_token refresh_token;
          expires_at = now + expire_days * 86400;
          revoked_at = none;
        }
          ∷ [];
    next_session = suc w.next_session;
  }

  -- Newest first: the table is in the order of creation.
  abbrev active_onto : List UserSession → ℕ → ℕ → List UserSession → List UserSession
  active_onto acc now user_id [] = acc
  active_onto acc now user_id (s ∷ ss) =
      active_onto
        (if s.user_id == user_id && (is_unrevoked s && ltb now s.expires_at) then s ∷ acc else acc)
        now user_id ss

  unfoldable pub get_active_sessions : ℕ → ℕ → World S → List UserSession
  get_active_sessions now user_id w = active_onto [] now user_id w.sessions

  unfoldable pub find_session_by_token : ℕ → World S → Option UserSession
  find_session_by_token refresh_token w = find_by_hash (hash_refresh_token refresh_token) w.sessions

  unfoldable pub revoke_session : ℕ → UserSession → World S → World S
  revoke_session now session w = record w { sessions = revoke_id now session.id w.sessions }

  unfoldable pub revoke_all_user_sessions : ℕ → ℕ → World S → World S
  revoke_all_user_sessions now user_id w = record w {
    sessions = revoke_user now user_id w.sessions;
  }

  -- The black list is asked first, then the session itself.
  abbrev pub validated : Bool → ℕ → UserSession → Validation
  validated blacklisted now session =
      if blacklisted
      then refused rotated
      else (if is_unrevoked session
          then (if leb session.expires_at now then refused expired else valid session)
          else refused revoked)

  unfoldable pub validate_refresh_token : Bool → ℕ → ℕ → World S → Validation
  validate_refresh_token up now refresh_token w = elim (find_session_by_token refresh_token w) [
    | none ↦ refused invalid
    | some session ↦
        validated (is_refresh_token_blacklisted up now (hash_refresh_token refresh_token) w) now
          session
  ]

  -- The old session is put on the black list and revoked, and a new one is made.
  unfoldable pub rotate_refresh_token : Bool → ℕ → Bool → UserSession → ℕ → World S → World S
  rotate_refresh_token up now late old new_token w =
      let listed =
        blacklist_refresh_token up now old.refresh_token_hash
          (max (whole_seconds late (old.expires_at - now)) 60) w in
      create_session now old.user_id new_token (revoke_session now old listed)

-- ===== src/Auth/Rotation.antt =====
-- A token that is on the black list: what happens to the sessions of its user.
use stock_invest_system.Prelude.{
  ℕ, ◌+◌, ◌-◌, ◌*◌, ◌≤◌, ◌<◌, ◌≡◌, refl, sym, Bool, true, false, List, [], ◌∷◌, ◌++◌, Option, none,
  some, arith, max, is_some, append-nil, Option-cases, inl, inr,
}
use stock_invest_system.Auth.World.{
  UserSession, World, Result, ok, err, sessions_revoked, find_by_hash, revoke_id, revoke_user,
  count_unrevoked,
}
use stock_invest_system.Auth.Outside.{Outside, Settings, Fresh, Tokens}
use stock_invest_system.Auth.Sessions.{
  whole_seconds, rotated, refused, blacklist_refresh_token, is_refresh_token_blacklisted,
  create_session, find_session_by_token, revoke_session, revoke_all_user_sessions,
  validate_refresh_token, rotate_refresh_token,
}
use stock_invest_system.Auth.SignIn.{refresh, revoke_session_by_id, find_owned}

pub count_unrevoked-revoke_user :
    (now user_id : ℕ) (ss : List UserSession)
    → count_unrevoked user_id (revoke_user now user_id ss) ≡ 0
count_unrevoked-revoke_user now user_id [] = refl
count_unrevoked-revoke_user now user_id (s ∷ ss) =
    ground (arith, count_unrevoked-revoke_user now user_id ss)

abbrev pub owner_of : Option UserSession → Option ℕ
owner_of none = none
owner_of (some s) = some s.user_id

-- The first session with a hash stays its user's when one is revoked and others are put after it.
owner_of-revoke_id :
    (hash now id user_id : ℕ) (ss more : List UserSession)
    → owner_of (find_by_hash hash ss) ≡ some user_id
    → owner_of (find_by_hash hash (revoke_id now id ss ++ more)) ≡ some user_id
owner_of-revoke_id hash now id user_id [] more h = ground arith
owner_of-revoke_id hash now id user_id (x ∷ ss) more h =
    ground (arith, owner_of-revoke_id hash now id user_id ss more)

find-hash :
    (hash : ℕ) (ss : List UserSession) (s : UserSession)
    → find_by_hash hash ss ≡ some s
    → s.refresh_token_hash ≡ hash
find-hash hash [] s h = ground arith
find-hash hash (x ∷ ss) s h = ground (arith, find-hash hash ss s)

module _ {S T : Type 0} (o : Outside S T) (c : Settings) where
  abbrev listed : ℕ → ℕ → World S → Bool
  listed now token w = is_some (o.keys.value w.refresh_blacklist now (o.hash_refresh_token token))

  validate-listed :
      (now token : ℕ) (w : World S) (s : UserSession)
      → find_by_hash (o.hash_refresh_token token) w.sessions ≡ some s
      → listed now token w ≡ true
      → validate_refresh_token o.keys o.hash_refresh_token c.refresh_days true now token w
        ≡ refused rotated
  unfolding validate_refresh_token find_session_by_token is_refresh_token_blacklisted
  validate-listed now token w s found on = rw (found, validate_refresh_token) (rw on refl)

  -- A token on the black list, whose session is found.
  refresh_blacklisted :
      (now : ℕ) (late : Bool) (r : Fresh) (token user_id : ℕ) (w : World S)
      → owner_of (find_by_hash (o.hash_refresh_token token) w.sessions) ≡ some user_id
      → listed now token w ≡ true
      → ((refresh o c true now late r token w).result ≡ err sessions_revoked)
        × (count_unrevoked user_id (refresh o c true now late r token w).world.sessions ≡ 0)
  unfolding refresh find_session_by_token revoke_all_user_sessions
  refresh_blacklisted now late r token user_id w owner on =
      elim (Option-cases (find_by_hash (o.hash_refresh_token token) w.sessions)) [
        | inl e ↦ ground (arith, e)
        | inr (s, e) ↦
            let same : s.user_id ≡ user_id = ground arith in
            rw (validate-listed now token w s e on, e, refresh)
              (refl, rw (sym same) (count_unrevoked-revoke_user now s.user_id w.sessions))
      ]

  abbrev pub has_tokens : Result (Tokens T) → Bool
  has_tokens (ok pair) = true
  has_tokens (err e) = false

  refresh_ok :
      (now : ℕ) (late : Bool) (r : Fresh) (token : ℕ) (w : World S) (s : UserSession)
      → find_by_hash (o.hash_refresh_token token) w.sessions ≡ some s
      → has_tokens (refresh o c true now late r token w).result ≡ true
      → (refresh o c true now late r token w).world
        ≡ rotate_refresh_token o.keys o.hash_refresh_token c.refresh_days true now late s
            r.refresh_token w
  unfolding refresh validate_refresh_token find_session_by_token is_refresh_token_blacklisted
  refresh_ok now late r token w s found granted = ground arith

  -- After a rotation the old token's hash is on the black list and its session's owner is found.
  rotated_listed :
      (now later token new_token : ℕ) (late : Bool) (w : World S) (s : UserSession)
      → find_by_hash (o.hash_refresh_token token) w.sessions ≡ some s
      → now ≤ later
      → later < now + max (whole_seconds late (s.expires_at - now)) 60
      → let after =
          rotate_refresh_token o.keys o.hash_refresh_token c.refresh_days true now late s new_token
            w in
        (owner_of (find_by_hash (o.hash_refresh_token token) after.sessions) ≡ some s.user_id)
        × (listed later token after ≡ true)
  unfolding rotate_refresh_token create_session revoke_session blacklist_refresh_token
  rotated_listed now later token new_token late w s found le lt =
      let same = find-hash (o.hash_refresh_token token) w.sessions s found in
      (
        ground (
          arith,
          owner_of-revoke_id (o.hash_refresh_token token) now s.id s.user_id w.sessions (
              record {
                id = w.next_session;
                user_id = s.user_id;
                refresh_token_hash = o.hash_refresh_token new_token;
                expires_at = now + c.refresh_days * 86400;
                revoked_at = none;
              }
              ∷ []),
        ),
        ground (
          arith,
          o.keys.value-set_ex now (max (whole_seconds late (s.expires_at - now)) 60)
              s.refresh_token_hash 1 w.refresh_blacklist later (o.hash_refresh_token token),
        ),
      )

  -- A refresh token works once. When a refresh with it has been granted, a second one with it is
  -- refused and leaves no session of the user unrevoked, the new one included, for as many whole
  -- seconds as the first one's session had left, and a minute at least. Redis is in reach both times.
  pub refresh_once :
      (now later : ℕ) (late again_late : Bool) (r q : Fresh) (token : ℕ) (w : World S)
      (s : UserSession)
      → find_by_hash (o.hash_refresh_token token) w.sessions ≡ some s
      → has_tokens (refresh o c true now late r token w).result ≡ true
      → now ≤ later
      → later < now + max (whole_seconds late (s.expires_at - now)) 60
      → let again =
          refresh o c true later again_late q token (refresh o c true now late r token w).world in
        (again.result ≡ err sessions_revoked) × (count_unrevoked s.user_id again.world.sessions ≡ 0)
  refresh_once now later late again_late r q token w s found granted le lt =
      let after = rotated_listed now later token r.refresh_token late w s found le lt in
      rw (refresh_ok now late r token w s found granted)
        (refresh_blacklisted later again_late q token s.user_id _ after.0 after.1)

  kicked_listed :
      (now later user_id session_id token : ℕ) (late : Bool) (w : World S) (s : UserSession)
      → find_owned o c user_id session_id w.sessions ≡ some s
      → s.refresh_token_hash ≡ o.hash_refresh_token token
      → owner_of (find_by_hash (o.hash_refresh_token token) w.sessions) ≡ some user_id
      → now ≤ later
      → later < now + whole_seconds late (s.expires_at - now)
      → let after = (revoke_session_by_id o c true now late user_id session_id w).world in
        (owner_of (find_by_hash (o.hash_refresh_token token) after.sessions) ≡ some user_id)
        × (listed later token after ≡ true)
  unfolding revoke_session_by_id revoke_session blacklist_refresh_token
  kicked_listed now later user_id session_id token late w s owned same owner le lt =
      rw (owned, revoke_session_by_id)
        (
          ground (
            arith,
            append-nil (revoke_id now s.id w.sessions),
            owner_of-revoke_id (o.hash_refresh_token token) now s.id user_id w.sessions [],
          ),
          ground (
            arith,
            o.keys.value-set_ex now (whole_seconds late (s.expires_at - now)) s.refresh_token_hash 1
                w.refresh_blacklist later (o.hash_refresh_token token),
          ),
        )

  -- A device that was kicked and asks for a new token within as many whole seconds as its own had left
  -- signs out all devices: no session of the user is left unrevoked, not even the one that did the
  -- kicking. Redis is in reach both times.
  pub kick_signs_out_all :
      (now later user_id session_id token : ℕ) (late again_late : Bool) (q : Fresh) (w : World S)
      (s : UserSession)
      → find_owned o c user_id session_id w.sessions ≡ some s
      → s.refresh_token_hash ≡ o.hash_refresh_token token
      → owner_of (find_by_hash (o.hash_refresh_token token) w.sessions) ≡ some user_id
      → now ≤ later
      → later < now + whole_seconds late (s.expires_at - now)
      → let asked =
          refresh o c true later again_late q token
            (revoke_session_by_id o c true now late user_id session_id w).world in
        (asked.result ≡ err sessions_revoked) × (count_unrevoked user_id asked.world.sessions ≡ 0)
  kick_signs_out_all now later user_id session_id token late again_late q w s owned same owner le
        lt =
      let after =
        kicked_listed now later user_id session_id token late w s owned same owner le lt in
      refresh_blacklisted later again_late q token user_id _ after.0 after.1

-- ===== src/Auth/SignOut.antt =====
-- What a signing out reaches: the token of the request, and all sessions of a user.
use stock_invest_system.Prelude.{
  ℕ, ◌+◌, ◌-◌, ◌*◌, ◌≤◌, ◌<◌, ◌≡◌, ◌⊎◌, refl, ap, ◌∙◌, Bool, true, false, Option, none, some, arith,
  leb, ltb, ◌&&◌, if◌then◌else◌, Option-cases, inl, inr,
}
use stock_invest_system.Auth.Tokens.{
  create_access_token, decode_access_token_full, verify_reset_token,
}
use stock_invest_system.Auth.World.{
  User, World, Result, ok, err, count_unrevoked, token_refused, find_by_hash,
}
use stock_invest_system.Auth.Outside.{Outside, Settings, Fresh}
use stock_invest_system.Auth.SignIn.{logout, revoke_by_token}
use stock_invest_system.Auth.Account.{delete_account, change_password}
use stock_invest_system.Auth.MailLinks.{reset_password}
use stock_invest_system.Auth.CurrentUser.{resolve_user_id, get_current_user}
use stock_invest_system.Auth.Sessions.{
  whole_seconds, revoke_all_user_sessions, revoke_session, blacklist_access_token,
  is_access_token_blacklisted, find_session_by_token,
}
use stock_invest_system.Auth.Rotation.{count_unrevoked-revoke_user}

abbrev pub is_done : Result (Unit {0}) → Bool
is_done (ok r) = true
is_done (err e) = false

abbrev pub is_user : Result User → Bool
is_user (ok u) = true
is_user (err e) = false

module _ {S T : Type 0} (o : Outside S T) (c : Settings) where
  -- A change of the password, its reset through a mail's link, and the deletion of the account leave
  -- no session of the user unrevoked when they succeed, and revoke none when they are refused.
  pub signs_out_everywhere :
      (now : ℕ) (r : Fresh) (user : User) (old new user_id email : ℕ) (link : T) (w : World S)
      → verify_reset_token o.jwt now link ≡ some (user_id, email)
      → let changed = change_password o c now r user old new w in
        let deleted = delete_account o c now user w in
        let reset = reset_password o c now r link new w in
        (count_unrevoked user.id changed.world.sessions
          ≡ (if is_done changed.result then 0 else count_unrevoked user.id w.sessions))
        × (count_unrevoked user.id deleted.world.sessions
            ≡ (if is_done deleted.result then 0 else count_unrevoked user.id w.sessions))
        × (count_unrevoked user_id reset.world.sessions
            ≡ (if is_done reset.result then 0 else count_unrevoked user_id w.sessions))
  unfolding change_password delete_account reset_password revoke_all_user_sessions
  signs_out_everywhere now r user old new user_id email link w e = ground (
    arith,
    e,
    count_unrevoked-revoke_user now user.id w.sessions,
    count_unrevoked-revoke_user now user_id w.sessions,
  )

  decode-create :
      (minutes made jti user_id now : ℕ)
      → decode_access_token_full o.jwt now (create_access_token o.jwt minutes made jti user_id) ≡ (
          if leb made now && ltb now (made + minutes * 60)
          then some (record {
            sub = user_id;
            email = none;
            kind = none;
            jti = some jti;
            exp = made + minutes * 60;
            iat = made;
          })
          else none)
  unfolding decode_access_token_full create_access_token
  decode-create minutes made jti user_id now = rw (o.jwt.decode-encode)

  revoke_by_token-token_blacklist :
      (now : ℕ) (refresh_token : Option ℕ) (w : World S)
      → (revoke_by_token o c now refresh_token w).token_blacklist ≡ w.token_blacklist
  unfolding revoke_session find_session_by_token
  revoke_by_token-token_blacklist now none w = refl
  revoke_by_token-token_blacklist now (some token) w =
      elim (Option-cases (find_by_hash (o.hash_refresh_token token) w.sessions)) [
        | inl e ↦ rw e refl
        | inr (s, e) ↦ rw e (ground arith)
      ]

  logout-value :
      (made jti user_id now later : ℕ) (late : Bool) (refresh_token : Option ℕ) (w : World S)
      → made ≤ now
      → now ≤ later
      → later < now + whole_seconds late (made + c.access_minutes * 60 - now)
      → o.keys.value
          (logout o c true now late
            (create_access_token o.jwt c.access_minutes made jti user_id)
            refresh_token
            w).token_blacklist
          later
          jti
        ≡ some 1
  unfolding logout blacklist_access_token
  logout-value made jti user_id now later late refresh_token w from le lt =
      ap (λ b. o.keys.value b later jti) (revoke_by_token-token_blacklist now refresh_token _)
      ∙ rw (decode-create c.access_minutes made jti user_id now) (
          ground (
            arith,
            o.keys.value-set_ex now (whole_seconds late (made + c.access_minutes * 60 - now)) jti 1
                w.token_blacklist later jti,
          ))

  -- An access token that was used to sign out, after its creation, is refused for as many whole seconds as it had left then,
  -- and again from its expiry on. Redis is in reach both times.
  pub logout_refuses :
      (made jti user_id now later : ℕ) (late : Bool) (refresh_token : Option ℕ) (w : World S)
      → made ≤ now
      → now ≤ later
      → (later < now + whole_seconds late (made + c.access_minutes * 60 - now))
        ⊎ (made + c.access_minutes * 60 ≤ later)
      → let token = create_access_token o.jwt c.access_minutes made jti user_id in
        get_current_user o c true later token (logout o c true now late token refresh_token w)
        ≡ err token_refused
  unfolding get_current_user resolve_user_id is_access_token_blacklisted
  logout_refuses made jti user_id now later late refresh_token w from le (inl lt) = ground (
    arith,
    decode-create c.access_minutes made jti user_id later,
    logout-value made jti user_id now later late refresh_token w from le lt,
  )
  logout_refuses made jti user_id now later late refresh_token w from le (inr over) =
      ground (arith, decode-create c.access_minutes made jti user_id later)

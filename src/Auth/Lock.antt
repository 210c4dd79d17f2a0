-- ===== src/Auth/Lock.antt =====
-- The lock after failed sign-ins.
use stock_invest_system.Prelude.{
  ℕ, ◌+◌, ◌≤◌, ◌<◌, ◌≡◌, refl, ap, ◌∙◌, true, false, List, [], ◌∷◌, none, some, arith, ltb, length,
}
use stock_invest_system.Redis.{or_zero}
use stock_invest_system.Auth.World.{User, World, err, wrong_password, get_by_username}
use stock_invest_system.Auth.Rotation.{has_tokens}
use stock_invest_system.Auth.Outside.{Outside, Settings, Fresh}
use stock_invest_system.Auth.SignIn.{
  build_auth_result, login, is_login_locked, record_login_failure, authentic, login_lock_seconds,
}

-- Times in order, each less than 15 minutes after the one before.
abbrev pub Close : ℕ → List ℕ → Type 0
Close before [] = Unit
Close before (t ∷ ts) = (before ≤ t) × (t < before + 900) × Close t ts

abbrev pub last : ℕ → List ℕ → ℕ
last t [] = t
last t (u ∷ ts) = last u ts

module _ {S T : Type 0} (o : Outside S T) (c : Settings) where
  -- Sign-ins at the given times, with the same name and password.
  unfoldable pub logins : List ℕ → Fresh → ℕ → ℕ → World S → World S
  logins [] r name password w = w
  logins (t ∷ ts) r name password w =
      logins ts r name password (login o c true t r name password w).world

  abbrev failures : ℕ → ℕ → World S → ℕ
  failures now name w = or_zero (o.keys.value w.login_fail now (o.strip name))

  -- The count of failures stands at n from a time on, for 15 minutes.
  abbrev Counted : ℕ → ℕ → ℕ → World S → Type 0
  Counted t n name w = (now : ℕ) → t ≤ now → now < t + 900 → failures now name w ≡ n

  login_fails :
      (t n : ℕ) (r : Fresh) (name password : ℕ) (w : World S)
      → authentic o c password (get_by_username (o.strip name) w.users) ≡ none
      → failures t name w ≡ n
      → n < 5
      → ((login o c true t r name password w).result ≡ err wrong_password)
        × ((login o c true t r name password w).world
            ≡ record_login_failure o c true t (o.strip name) w)
  unfolding login is_login_locked
  login_fails t n r name password w bad f h = ground arith

  record_login_failure-Counted :
      (t n name : ℕ) (w : World S)
      → failures t name w ≡ n
      → Counted t (n + 1) name (record_login_failure o c true t (o.strip name) w)
  unfolding record_login_failure
  record_login_failure-Counted t n name w f now le lt = ground (
    arith,
    o.keys.value-incr_ex t login_lock_seconds (o.strip name) w.login_fail now (o.strip name),
  )

  logins-Counted :
      (ts : List ℕ) (t n : ℕ) (r : Fresh) (name password : ℕ) (w : World S)
      → Close t ts
      → authentic o c password (get_by_username (o.strip name) w.users) ≡ none
      → n + length ts ≤ 5
      → Counted t n name w
      → Counted (last t ts) (n + length ts) name (logins ts r name password w)
        × ((logins ts r name password w).users ≡ w.users)
  unfolding logins record_login_failure
  logins-Counted [] t n r name password w near bad le f =
      ((λ now a b. omega (arith, f now a b)), refl)
  logins-Counted (u ∷ ts) t n r name password w near bad le f =
      let here = f u near.0 near.1 in
      let after = (login_fails u n r name password w bad here (omega (arith, le))).1 in
      let rest =
        logins-Counted ts u (n + 1) r name password
          (record_login_failure o c true u (o.strip name) w) near.2 bad (omega (arith, le))
          (record_login_failure-Counted u n name w here) in
      rw (after, logins) ((λ now a b. omega (arith, rest.0 now a b)), rest.1)

  login_counted :
      (now n : ℕ) (q : Fresh) (name right : ℕ) (u : User) (w : World S)
      → authentic o c right (get_by_username (o.strip name) w.users) ≡ some u
      → u.is_deleted ≡ false
      → failures now name w ≡ n
      → has_tokens o c (login o c true now q name right w).result ≡ ltb n 5
  unfolding login is_login_locked build_auth_result
  login_counted now n q name right u w good kept f = ground arith

  -- After one to five sign-ins with a wrong password, each less than 15 minutes after the one before
  -- and the first with no failure counted, a sign-in with the right password less than 15 minutes
  -- after the last is granted exactly if there were fewer than five of them. The account is not
  -- deleted and Redis is in reach.
  pub locks_at_five :
      (t : ℕ) (ts : List ℕ) (now : ℕ) (r q : Fresh) (name wrong right : ℕ) (u : User) (w : World S)
      → authentic o c wrong (get_by_username (o.strip name) w.users) ≡ none
      → authentic o c right (get_by_username (o.strip name) w.users) ≡ some u
      → u.is_deleted ≡ false
      → o.keys.value w.login_fail t (o.strip name) ≡ none
      → Close t ts
      → length ts < 5
      → last t ts ≤ now
      → now < last t ts + 900
      → has_tokens o c (login o c true now q name right (logins (t ∷ ts) r name wrong w)).result
        ≡ ltb (length ts) 4
  unfolding logins record_login_failure
  locks_at_five t ts now r q name wrong right u w bad good kept clear near few le lt =
      let none_yet : failures t name w ≡ 0 = ap or_zero clear in
      let first = (login_fails t 0 r name wrong w bad none_yet (omega arith)).1 in
      let rest =
        logins-Counted ts t 1 r name wrong (record_login_failure o c true t (o.strip name) w) near
          bad (omega (arith, few)) (record_login_failure-Counted t 0 name w none_yet) in
      rw (first, logins)
        (login_counted now (1 + length ts) q name right u
            (logins ts r name wrong (record_login_failure o c true t (o.strip name) w))
            (ap (λ us. authentic o c right (get_by_username (o.strip name) us)) rest.1 ∙ good) kept
            (rest.0 now le lt)
          ∙ (ground arith))

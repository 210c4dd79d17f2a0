-- ===== src/Sse/Slices.antt =====
-- Ends of lists, and deltas numbered in order.
use stock_invest_system.Prelude.{
  ℕ, zero, suc, ◌+◌, ◌-◌, ◌≤◌, ◌<◌, ◌≡◌, refl, sym, ap, ◌∙◌, arith, List, [], ◌∷◌, ◌++◌, ◌==◌, ltb,
  max, drop, take_last, length, length-append, length-drop, length-take_last, subst, Bool-cases,
  inl, inr,
}
use stock_invest_system.Sse.Cache.{Delta, is_empty, after}

shift : (a j : ℕ) → suc (a + j) ≡ suc a + j
shift a j = omega arith

module _ {A : Type 0} where
  append-drop : (a : ℕ) (xs ys : List A) → a ≤ length xs → drop a xs ++ ys ≡ drop a (xs ++ ys)
  append-drop zero xs ys h = refl
  append-drop (suc a) [] ys h = ground arith
  append-drop (suc a) (x ∷ xs) ys h = append-drop a xs ys (omega (arith, h))

  drop-nil : (n : ℕ) → drop {A = A} n [] ≡ []
  drop-nil zero = refl
  drop-nil (suc n) = refl

  drop-drop : (j a : ℕ) (xs : List A) → drop j (drop a xs) ≡ drop (a + j) xs
  drop-drop j zero xs = ap (λ n. drop n xs) (omega arith)
  drop-drop j (suc a) [] = drop-nil j ∙ sym (drop-nil (suc a + j))
  drop-drop j (suc a) (x ∷ xs) = drop-drop j a xs ∙ ap (λ n. drop n (x ∷ xs)) (shift a j)

  pub take_last-nil : (n : ℕ) → take_last {A = A} n [] ≡ []
  take_last-nil n = drop-nil (0 - n)

  -- To keep the last n, push and keep the last n again is to keep the last n once.
  pub take_last-append :
      (n : ℕ) (xs : List A) (x : A)
      → take_last n (take_last n xs ++ x ∷ []) ≡ take_last n (xs ++ x ∷ [])
  take_last-append n xs x =
      let a = length xs - n in
      let kept = append-drop a xs (x ∷ []) (omega arith) in
      ap (take_last n) kept
      ∙ drop-drop (length (drop a (xs ++ x ∷ [])) - n) a (xs ++ x ∷ [])
      ∙ ap (λ m. drop m (xs ++ x ∷ []))
          (omega (arith, length-drop a (xs ++ x ∷ []), length-append xs (x ∷ [])))

-- The numbers go on from one.
abbrev pub Numbered : ℕ → List Delta → Type 0
Numbered n [] = Unit
Numbered n (d ∷ ds) = (d.seq ≡ suc n) × Numbered (suc n) ds

after-drop : (last n : ℕ) (ds : List Delta) → Numbered n ds → after last ds ≡ drop (last - n) ds
after-drop last n [] h = sym (drop-nil (last - n))
after-drop last n (d ∷ ds) h =
    let rest = after-drop last (suc n) ds h.1 in
    let seq = h.0 in
    elim (Bool-cases (ltb last d.seq)) [
      | inl new ↦
          let all : last - n ≡ 0 = ground arith in
          let none_left : last - suc n ≡ 0 = ground arith in
          rw (new, all) (ap (λ es. d ∷ es) (rest ∙ ap (λ m. drop m ds) none_left))
      | inr old ↦ let more : last - n ≡ suc (last - suc n) = ground arith in rw (old, more) rest
    ]

Numbered-drop : (a n : ℕ) (ds : List Delta) → Numbered n ds → Numbered (n + a) (drop a ds)
Numbered-drop zero n ds h = subst (λ m. Numbered m ds) (omega arith) h
Numbered-drop (suc a) n [] h = tt
Numbered-drop (suc a) n (d ∷ ds) h =
    subst (λ m. Numbered m (drop a ds)) (omega arith) (Numbered-drop a (suc n) ds h.1)

pub after-take_last :
    (last n : ℕ) (ds : List Delta)
    → Numbered 0 ds
    → after last (take_last n ds) ≡ drop (max last (length ds - n)) ds
after-take_last last n ds h =
    let a = length ds - n in
    after-drop last a (drop a ds)
      (subst (λ m. Numbered m (drop a ds)) (omega arith) (Numbered-drop a 0 ds h))
    ∙ drop-drop (last - a) a ds
    ∙ ap (λ m. drop m ds) (omega arith)

is_empty-length : (ds : List Delta) → is_empty ds ≡ (length ds == 0)
is_empty-length [] = refl
is_empty-length (d ∷ ds) = ground arith

pub is_empty-take_last : (n : ℕ) (ds : List Delta) → 0 < n → is_empty (take_last n ds) ≡ is_empty ds
is_empty-take_last n ds h =
    is_empty-length (take_last n ds)
    ∙ ground (arith, length-take_last n ds)
    ∙ sym (is_empty-length ds)

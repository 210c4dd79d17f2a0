-- ===== src/Quota/Table.antt =====
-- A sorted set of the kind that the slots rely on: a table of the members' scores.
use stock_invest_system.Prelude.{
  ℕ, zero, suc, ◌≤◌, ◌≡◌, refl, List, [], ◌∷◌, arith, ◌==◌, Option, none, some, if◌then◌else◌, map,
}
use stock_invest_system.Quota.Zset.{SortedSet, keep_above}

abbrev pub Table : Type 0
Table = List (Option ℕ)

abbrev score : Table → ℕ → Option ℕ
score [] k = none
score (x ∷ z) zero = x
score (x ∷ z) (suc k) = score z k

abbrev add_one : Option ℕ → ℕ → ℕ
add_one none n = n
add_one (some t) n = suc n

abbrev zcard : Table → ℕ
zcard [] = 0
zcard (x ∷ z) = add_one x (zcard z)

abbrev zadd : ℕ → ℕ → Table → Table
zadd t zero [] = some t ∷ []
zadd t (suc m) [] = none ∷ zadd t m []
zadd t zero (x ∷ z) = some t ∷ z
zadd t (suc m) (x ∷ z) = x ∷ zadd t m z

abbrev zrem : ℕ → Table → Table
zrem m [] = []
zrem zero (x ∷ z) = none ∷ z
zrem (suc m) (x ∷ z) = x ∷ zrem m z

abbrev zremrangebyscore : ℕ → Table → Table
zremrangebyscore bound z = map (keep_above bound) z

pub score-zadd :
    (t m : ℕ) (z : Table) (k : ℕ) → score (zadd t m z) k ≡ (if k == m then some t else score z k)
score-zadd t zero [] zero = ground arith
score-zadd t zero [] (suc k) = ground arith
score-zadd t (suc m) [] zero = ground arith
score-zadd t (suc m) [] (suc k) = ground (arith, score-zadd t m [] k)
score-zadd t zero (x ∷ z) zero = ground arith
score-zadd t zero (x ∷ z) (suc k) = ground arith
score-zadd t (suc m) (x ∷ z) zero = ground arith
score-zadd t (suc m) (x ∷ z) (suc k) = ground (arith, score-zadd t m z k)

pub score-zrem :
    (m : ℕ) (z : Table) (k : ℕ) → score (zrem m z) k ≡ (if k == m then none else score z k)
score-zrem m [] k = ground arith
score-zrem zero (x ∷ z) zero = ground arith
score-zrem zero (x ∷ z) (suc k) = ground arith
score-zrem (suc m) (x ∷ z) zero = ground arith
score-zrem (suc m) (x ∷ z) (suc k) = ground (arith, score-zrem m z k)

pub score-zremrangebyscore :
    (bound : ℕ) (z : Table) (k : ℕ)
    → score (zremrangebyscore bound z) k ≡ keep_above bound (score z k)
score-zremrangebyscore bound [] k = refl
score-zremrangebyscore bound (x ∷ z) zero = refl
score-zremrangebyscore bound (x ∷ z) (suc k) = score-zremrangebyscore bound z k

pub zcard-none : (z : Table) → ((k : ℕ) → score z k ≡ none) → zcard z ≡ 0
zcard-none [] h = refl
zcard-none (none ∷ z) h = zcard-none z (λ k. h (suc k))
zcard-none (some t ∷ z) h = ground (arith, h 0)

pub zcard-zadd : (t m : ℕ) (z : Table) → score z m ≡ none → zcard (zadd t m z) ≡ suc (zcard z)
zcard-zadd t zero [] h = refl
zcard-zadd t (suc m) [] h = zcard-zadd t m [] h
zcard-zadd t zero (x ∷ z) h = ground arith
zcard-zadd t (suc m) (none ∷ z) h = zcard-zadd t m z h
zcard-zadd t (suc m) (some u ∷ z) h = omega (arith, zcard-zadd t m z h)

pub zcard-zadd_again : (t m u : ℕ) (z : Table) → score z m ≡ some u → zcard (zadd t m z) ≡ zcard z
zcard-zadd_again t m u [] h = ground arith
zcard-zadd_again t zero u (x ∷ z) h = ground arith
zcard-zadd_again t (suc m) u (none ∷ z) h = zcard-zadd_again t m u z h
zcard-zadd_again t (suc m) u (some v ∷ z) h = omega (arith, zcard-zadd_again t m u z h)

pub zcard-zrem : (m u : ℕ) (z : Table) → score z m ≡ some u → zcard z ≡ suc (zcard (zrem m z))
zcard-zrem m u [] h = ground arith
zcard-zrem zero u (x ∷ z) h = ground arith
zcard-zrem (suc m) u (none ∷ z) h = zcard-zrem m u z h
zcard-zrem (suc m) u (some v ∷ z) h = omega (arith, zcard-zrem m u z h)

pub zcard-zrem_none : (m : ℕ) (z : Table) → score z m ≡ none → zcard (zrem m z) ≡ zcard z
zcard-zrem_none m [] h = refl
zcard-zrem_none zero (x ∷ z) h = ground arith
zcard-zrem_none (suc m) (none ∷ z) h = zcard-zrem_none m z h
zcard-zrem_none (suc m) (some v ∷ z) h = omega (arith, zcard-zrem_none m z h)

pub zcard-zremrangebyscore : (bound : ℕ) (z : Table) → zcard (zremrangebyscore bound z) ≤ zcard z
zcard-zremrangebyscore bound [] = omega arith
zcard-zremrangebyscore bound (none ∷ z) = zcard-zremrangebyscore bound z
zcard-zremrangebyscore bound (some t ∷ z) = ground (arith, zcard-zremrangebyscore bound z)

abbrev pub table : SortedSet Table
table = record {
  empty = [];
  score = score;
  zcard = zcard;
  zadd = zadd;
  zrem = zrem;
  zremrangebyscore = zremrangebyscore;
  score_empty = λ k. refl;
  score_zadd = score-zadd;
  score_zrem = score-zrem;
  score_zremrangebyscore = score-zremrangebyscore;
  zcard_none = zcard-none;
  zcard_zadd = zcard-zadd;
  zcard_zadd_again = zcard-zadd_again;
  zcard_zrem = zcard-zrem;
  zcard_zrem_none = zcard-zrem_none;
  zcard_zremrangebyscore = zcard-zremrangebyscore;
}

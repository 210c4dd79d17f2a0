-- ===== src/Backup/Passed.antt =====
-- What a drill that has passed has shown, and what every drill leaves.
use stock_invest_system.Prelude.{
  ℕ, ◌≡◌, ◌↔◌, ◌≤◌, ◌<◌, ◌⊎◌, inl, inr, refl, sym, ap, subst, arith, Bool, true, false, List, [],
  ◌∷◌, Option, none, some, All, Bool-cases, ◌&&◌,
}
use stock_invest_system.Backup.Client.{Result, returns, raises, Client, Archive}
use stock_invest_system.Backup.Drill.{
  Psql, works, psql_raises, Rows, consistent, complete, schema_match, Restored, Drill, all_checks,
  is_verified, judge, drop_after, create_after, drop_before, with_client, with_archive, with_dump,
  verify_restore,
}

-- A table of which no row is there that the source lacks, and some if the source has some.
abbrev pub IsSampled : Option ℕ → Option ℕ → Type 0
IsSampled (some source) (some restored) = (restored ≤ source) × (0 < source → 0 < restored)
IsSampled source restored = ⊥

abbrev pub Passes : Restored → Type 0
Passes r =
    (r.exit_code ≡ 0)
    × (r.error_lines ≡ 0)
    × ((n : ℕ) × (r.source_tables ≡ some n) × (r.restored_tables ≡ some n) × (0 < n))
    × All (λ (t : Rows). IsSampled t.source t.restored) r.rows

-- What a passed drill has found.
abbrev pub Found : Drill → Type 0
Found d =
    (d.has_dump ≡ true)
    × ((a : Archive) × (d.archive ≡ returns a) × (a.is_ok ≡ true))
    × ((c : Client) × (d.client ≡ returns c))
    × (d.drop_first ≡ works)
    × (d.create ≡ works)
    × (d.drop_last ≡ works)
    × ((r : Restored) × (d.restore ≡ returns r) × Passes r)

check_rows_iff :
    (source restored : Option ℕ)
    → ((consistent source restored && complete source restored) ≡ true) ↔ IsSampled source restored
check_rows_iff none none = ground arith
check_rows_iff none (some r) = ground arith
check_rows_iff (some s) none = ground arith
check_rows_iff (some s) (some r) = ground arith

all_checks_iff :
    (rows : List Rows)
    → (all_checks rows ≡ true) ↔ All (λ (t : Rows). IsSampled t.source t.restored) rows
all_checks_iff [] = ground arith
all_checks_iff (t ∷ rows) = ground (arith, check_rows_iff t.source t.restored, all_checks_iff rows)

schema_iff :
    (source restored : Option ℕ)
    → (schema_match source restored ≡ true)
      ↔ ((n : ℕ) × (source ≡ some n) × (restored ≡ some n) × (0 < n))
schema_iff none restored = ground arith
schema_iff (some s) none = ground arith
schema_iff (some s) (some r) = (
  (λ h. (s, refl, ground (arith, h), ground (arith, h))),
  λ (n, a, b, p). ground (arith, a, b, p),
)

is_verified_iff :
    (a : Archive) (r : Restored) → (is_verified a r ≡ true) ↔ ((a.is_ok ≡ true) × Passes r)
unfolding is_verified
is_verified_iff a r =
    ground (arith, schema_iff r.source_tables r.restored_tables, all_checks_iff r.rows)

abbrev pub IsTrue : Result Bool → Type 0
IsTrue r = r ≡ returns true

eq_of_returns : {A : Type 0} {a b : A} → returns a ≡ returns b → a ≡ b
eq_of_returns h = cc

judge_iff :
    (a : Archive) (o : Result Restored)
    → IsTrue (judge a o) ↔ ((a.is_ok ≡ true) × ((r : Restored) × (o ≡ returns r) × Passes r))
judge_iff a (raises e) = ground arith
judge_iff a (returns r) = (
  (λ h. let v = (is_verified_iff a r).0 (eq_of_returns h) in (v.0, (r, refl, v.1))),
  λ (k, (x, e, p)).
      ap returns ((is_verified_iff a r).1 (k, subst Passes (sym (eq_of_returns e)) p)),
)

drop_after_iff :
    (p : Psql) (result : Result Bool)
    → IsTrue (drop_after p result).result ↔ ((p ≡ works) × IsTrue result)
drop_after_iff works result = ground arith
drop_after_iff (psql_raises e) result = ground arith

create_after_iff :
    (d : Drill) (a : Archive) (p : Psql)
    → IsTrue (create_after d a p).result
      ↔ ((p ≡ works) × (d.drop_last ≡ works) × IsTrue (judge a d.restore))
create_after_iff d a works = ground (arith, drop_after_iff d.drop_last (judge a d.restore))
create_after_iff d a (psql_raises e) = ground arith

drop_before_iff :
    (d : Drill) (a : Archive) (t : Bool) (p : Psql)
    → IsTrue (drop_before d a t p).result
      ↔ ((p ≡ works) × IsTrue (create_after d a d.create).result)
drop_before_iff d a t works = ground arith
drop_before_iff d a t (psql_raises e) = ground arith

with_client_iff :
    (d : Drill) (a : Archive) (t : Bool) (r : Result Client)
    → IsTrue (with_client d a t r).result
      ↔ (((c : Client) × (r ≡ returns c)) × IsTrue (drop_before d a t d.drop_first).result)
with_client_iff d a t (raises e) = ground arith
with_client_iff d a t (returns c) = ((λ h. ((c, refl), h)), λ (e, h). h)

with_archive_iff :
    (d : Drill) (t : Bool) (r : Result Archive)
    → IsTrue (with_archive d t r).result
      ↔ ((a : Archive) × (r ≡ returns a) × IsTrue (with_client d a t d.client).result)
with_archive_iff d t (raises e) = ground arith
with_archive_iff d t (returns a) = (
  (λ h. (a, refl, h)),
  λ (x, e, h). subst (λ y. IsTrue (with_client d y t d.client).result) (sym (eq_of_returns e)) h,
)

with_dump_iff :
    (d : Drill) (t b : Bool)
    → IsTrue (with_dump d t b).result ↔ ((b ≡ true) × IsTrue (with_archive d t d.archive).result)
with_dump_iff d t true = ground arith
with_dump_iff d t false = ground arith

verify_restore_iff : (d : Drill) → IsTrue (verify_restore d false).result ↔ Found d
unfolding verify_restore
verify_restore_iff d = (to, from)
  where
    to : IsTrue (with_dump d false d.has_dump).result → Found d
    to h =
        let (b, h1) = (with_dump_iff d false d.has_dump).0 h in
        let (a, archive, h2) = (with_archive_iff d false d.archive).0 h1 in
        let (client, h3) = (with_client_iff d a false d.client).0 h2 in
        let (first, h4) = (drop_before_iff d a false d.drop_first).0 h3 in
        let (create, last, h5) = (create_after_iff d a d.create).0 h4 in
        let (entries, rest) = (judge_iff a d.restore).0 h5 in
        (b, (a, archive, entries), client, first, create, last, rest)

    from : Found d → IsTrue (with_dump d false d.has_dump).result
    from (b, (a, archive, entries), client, first, create, last, rest) =
        let h5 = (judge_iff a d.restore).1 (entries, rest) in
        let h4 = (create_after_iff d a d.create).1 (create, last, h5) in
        let h3 = (drop_before_iff d a false d.drop_first).1 (first, h4) in
        let h2 = (with_client_iff d a false d.client).1 (client, h3) in
        let h1 = (with_archive_iff d false d.archive).1 (a, archive, h2) in
        (with_dump_iff d false d.has_dump).1 (b, h1)

Psql-cases : (p : Psql) → (p ≡ works) ⊎ ((e : ℕ) × (p ≡ psql_raises e))
Psql-cases works = inl refl
Psql-cases (psql_raises e) = inr (e, refl)

Result-cases :
    {A : Type 0} (r : Result A) → ((a : A) × (r ≡ returns a)) ⊎ ((e : ℕ) × (r ≡ raises e))
Result-cases (returns a) = inl (a, refl)
Result-cases (raises e) = inr (e, refl)

verify_restore_clean :
    (d : Drill) → d.drop_last ≡ works → (verify_restore d false).temporary ≡ false
unfolding verify_restore
verify_restore_clean d h = ground (
  arith,
  h,
  Bool-cases d.has_dump,
  Psql-cases d.drop_first,
  Psql-cases d.create,
  Result-cases d.client,
  Result-cases d.archive,
)

-- A drill passes exactly when there is a dump with entries, every command has worked, pg_restore has
-- ended with 0 and without a line of an error, both databases have the same number of tables, not 0,
-- and of each sampled table the restored one has at most the rows of the source and, when the source
-- has any, some. However it ends, it leaves no temporary database if there was none before and
-- the last command works.
pub verify_restore_lem :
    (d : Drill)
    → (IsTrue (verify_restore d false).result ↔ Found d)
      × (d.drop_last ≡ works → (verify_restore d false).temporary ≡ false)
unfolding verify_restore
verify_restore_lem d = (verify_restore_iff d, verify_restore_clean d)

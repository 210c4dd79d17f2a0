-- ===== src/Providers/Chain.antt =====
-- `DataProviderFactory._iter_chain`, `fetch_kline` and `fetch_kline_checked`. A provider stands in
-- the chain with its own circuit; what it answers is a parameter.
use stock_invest_system.Prelude.{
  ℕ, Bool, true, false, not, ◌&&◌, ◌||◌, List, [], ◌∷◌, Option, none, some, if◌then◌else◌,
}
use stock_invest_system.Providers.Circuit.{ProviderCircuit, allow, record_success, record_failure}

-- An exception, or what the method returned.
pub data Answer {ℓ} (R : Type ℓ) : Type ℓ where
  failed : Answer R
  gave : R → Answer R

-- A provider at the moment of a call: whether it is the local one, whether it serves what is asked
-- for, the clock's reading when `fetch_kline_checked` comes to it, its circuit and its answer.
pub record Source {ℓ} (R : Type ℓ) : Type ℓ where
  pub is_stockdb : Bool
  pub in_scope : Bool
  pub asked_at : ℕ
  pub circuit : ProviderCircuit
  pub answer : Answer R

pub data Origin : Type 0 where
  stockdb : Origin
  akshare : Origin

pub record KlineBar {ℓ} (X : Type ℓ) : Type ℓ where
  pub content : X
  pub source : Origin

abbrev pub Bars {ℓ} : Type ℓ → Type ℓ
Bars X = List (KlineBar X)

abbrev pub label_bars {ℓ} : {X : Type ℓ} → Bool → Bars X → Bars X
label_bars is_stockdb [] = []
label_bars is_stockdb (bar ∷ bars) =
    record bar { source = if is_stockdb then stockdb else akshare } ∷ label_bars is_stockdb bars

-- `not bars`
abbrev pub is_nil {ℓ} : {A : Type ℓ} → List A → Bool
is_nil [] = true
is_nil (x ∷ xs) = false

-- The result of a call, and what the providers are after it.
pub record Chained {ℓ} (R : Type ℓ) : Type ℓ where
  pub result : Option R
  pub sources : List (Source R)

-- The bars found, and whether an empty answer is confirmed.
pub record Checked {ℓ} (X : Type ℓ) : Type ℓ where
  pub bars : Bars X
  pub confirmed : Bool
  pub sources : List (Source (Bars X))

module _ {ℓ} {R : Type ℓ} where
  abbrev pub with_circuit : Source R → ProviderCircuit → Source R
  with_circuit p c = record p { circuit = c }

  -- `_active_providers`
  abbrev pub is_active : Bool → Source R → Bool
  is_active enabled p = p.is_stockdb || enabled

  abbrev pub then_chained : Source R → Chained R → Chained R
  then_chained p r = record r { sources = p ∷ r.sources }

  -- `is_none` is `not result`, and `label` is `_label_bars` for bars.
  module _ (enabled : Bool) (is_none : R → Bool) (label : Bool → R → R) where
    -- After a provider was asked: an error and an answer with something end in its circuit.
    abbrev pub answered : ℕ → Source R → List (Source R) → Chained R → Answer R → Chained R
    answered now p ps rest failed =
        then_chained (with_circuit p (record_failure now (allow now p.circuit).circuit)) rest
    answered now p ps rest (gave r) =
        if is_none r
        then then_chained (with_circuit p (allow now p.circuit).circuit) rest
        else record {
          result = some (label p.is_stockdb r);
          sources = with_circuit p (record_success (allow now p.circuit).circuit) ∷ ps;
        }

    unfoldable pub iter_chain : ℕ → List (Source R) → Chained R
    iter_chain now [] = record { result = none; sources = [] }
    iter_chain now (p ∷ ps) =
        let rest = iter_chain now ps in
        let allowed = allow now p.circuit in
        if is_active enabled p && p.in_scope
        then (if allowed.granted
            then answered now p ps rest p.answer
            else then_chained (with_circuit p allowed.circuit) rest)
        else then_chained p rest

module _ {ℓ} {X : Type ℓ} where
  -- `result or []`
  abbrev or_empty : Option (Bars X) → Bars X
  or_empty none = []
  or_empty (some bars) = bars

  unfoldable pub fetch_kline : Bool → ℕ → List (Source (Bars X)) → Bars X
  fetch_kline enabled now ps = or_empty (iter_chain enabled is_nil label_bars now ps).result

  abbrev pub then_checked : Source (Bars X) → Checked X → Checked X
  then_checked p r = record r { sources = p ∷ r.sources }

  module _ (enabled external_only : Bool) where
    abbrev pub is_asked : Source (Bars X) → Bool
    is_asked p = is_active enabled p && (not (external_only && p.is_stockdb) && p.in_scope)

    -- The loop, with `confirmed` and `attempted` as they stand.
    unfoldable pub check_chain : Bool → Bool → List (Source (Bars X)) → Checked X
    check_chain confirmed attempted [] = record {
      bars = [];
      confirmed = confirmed && attempted;
      sources = [];
    }
    check_chain confirmed attempted (p ∷ ps) =
        let allowed = allow p.asked_at p.circuit in
        let skipped = check_chain confirmed attempted ps in
        let refused = check_chain false attempted ps in
        let broken = check_chain false true ps in
        let tried = check_chain confirmed true ps in
        if is_asked p
        then (if allowed.granted
            then elim p.answer [
              | failed ↦
                  then_checked (with_circuit p (record_failure p.asked_at allowed.circuit)) broken
              | gave bars ↦
                  if is_nil bars
                  then then_checked (with_circuit p allowed.circuit) tried
                  else record {
                    bars = label_bars p.is_stockdb bars;
                    confirmed = true;
                    sources = with_circuit p (record_success allowed.circuit) ∷ ps;
                  }
            ]
            else then_checked (with_circuit p allowed.circuit) refused)
        else then_checked p skipped

    unfoldable pub fetch_kline_checked : List (Source (Bars X)) → Checked X
    fetch_kline_checked ps = check_chain true false ps

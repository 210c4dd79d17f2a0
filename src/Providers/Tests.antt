-- ===== src/Providers/Tests.antt =====
-- A chain of a local provider with no bars and two others, one of them cut off.
use stock_invest_system.Prelude.{ℕ, ◌≡◌, refl, Bool, true, false, List, [], ◌∷◌, arith, All}
use stock_invest_system.Providers.Circuit.{open_state, ProviderCircuit, new_circuit, allow}
use stock_invest_system.Providers.Chain.{
  Answer, gave, Source, KlineBar, Bars, stockdb, akshare, label_bars, is_nil, iter_chain,
  fetch_kline, fetch_kline_checked, check_chain,
}
use stock_invest_system.Providers.Order.{IsFirst, iter_chain_lem}
use stock_invest_system.Providers.Checked.{agrees}

abbrev cut_off : ProviderCircuit
cut_off = record (new_circuit 3 600) { failures = 3; state = open_state; cooldown_until = 700 }

abbrev source_of : Bool → ProviderCircuit → Answer (Bars ℕ) → Source (Bars ℕ)
source_of is_stockdb circuit answer = record {
  is_stockdb = is_stockdb;
  in_scope = true;
  asked_at = 100;
  circuit = circuit;
  answer = answer;
}

abbrev one_bar : KlineBar ℕ
one_bar = record { content = 9; source = stockdb }

abbrev chain : List (Source (Bars ℕ))
chain =
    source_of true (new_circuit 3 600) (gave [])
    ∷ source_of false cut_off (gave (one_bar ∷ []))
    ∷ source_of false (new_circuit 3 600) (gave (one_bar ∷ []))
    ∷ []

abbrev quiet : List (Source (Bars ℕ))
quiet =
    source_of true (new_circuit 3 600) (gave [])
    ∷ source_of false (new_circuit 3 600) (gave [])
    ∷ []

third_answers : fetch_kline true 100 chain ≡ record { content = 9; source = akshare } ∷ []
unfolding fetch_kline iter_chain allow
third_answers = refl

iter_chain_lem_example :
    IsFirst true is_nil label_bars 100 chain (iter_chain true is_nil label_bars 100 chain).result
iter_chain_lem_example = iter_chain_lem true is_nil label_bars 100 chain

is_empty : (fetch_kline_checked true false quiet).bars ≡ []
unfolding fetch_kline_checked check_chain allow
is_empty = refl

is_confirmed : (fetch_kline_checked true false quiet).confirmed ≡ true
unfolding fetch_kline_checked check_chain allow
is_confirmed = refl

no_bars_here : All (λ p. agrees true false p ≡ true) quiet
unfolding allow
no_bars_here = ground arith

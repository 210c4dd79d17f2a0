-- ===== src/Tokens/Tests.antt =====
-- Short texts, with a budget that keeps none but the smallest window.
use stock_invest_system.Prelude.{◌≤◌, ◌≡◌, refl, true, List, [], ◌∷◌, ◌++◌, none, some, inr}
use stock_invest_system.Tokens.Estimate.{Text, estimate_tokens, estimate_messages_tokens}
use stock_invest_system.Tokens.Window.{
  Prompt, fits, fit_window_to_budget, fixed_tokens, fit_window_lem,
}

-- Two Chinese characters and five others.
abbrev mixed : Text
mixed = 20043 ∷ 21069 ∷ 97 ∷ 98 ∷ 99 ∷ 100 ∷ 101 ∷ []

abbrev prompt : Prompt
prompt = record {
  system_prompt = mixed;
  summary = some mixed;
  user_content = mixed;
  memory_context = none;
  tools_tokens = 3;
}

abbrev double : List Text → List Text
double xs = xs ++ xs

-- Sixteen messages.
abbrev history : List Text
history = double (double (double (double (mixed ∷ []))))

mixed_tokens : estimate_tokens mixed ≡ 4
unfolding estimate_tokens
mixed_tokens = refl

prompt_tokens : fixed_tokens prompt ≡ 26
unfolding fixed_tokens estimate_tokens
prompt_tokens = refl

smallest_window : fit_window_to_budget 130 prompt history ≡ 12
unfolding fit_window_to_budget fixed_tokens estimate_messages_tokens estimate_tokens
smallest_window = refl

smallest_fits : fits 130 prompt history 12 ≡ true
unfolding fixed_tokens estimate_messages_tokens estimate_tokens
smallest_fits = refl

fit_window_lem_example :
    (12 ≤ fit_window_to_budget 130 prompt history)
    × (fits 130 prompt history (fit_window_to_budget 130 prompt history) ≡ true)
fit_window_lem_example = fit_window_lem 130 prompt history 12 (inr (inr refl)) smallest_fits

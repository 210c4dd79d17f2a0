-- ===== src/Tokens/Window.antt =====
-- `fit_window_to_budget`. The budget, int(LLM_MAX_TOKENS * TOKEN_BUDGET_RATIO), is an argument.
use stock_invest_system.Prelude.{
  ℕ, ◌+◌, ◌≤◌, ◌≡◌, Bool, true, List, [], ◌∷◌, ◌++◌, Option, none, some, arith, leb, if◌then◌else◌,
  take_last, ◌⊎◌,
}
use stock_invest_system.Tokens.Estimate.{Text, estimate_tokens, estimate_messages_tokens}

-- What fills the prompt besides the history.
pub record Prompt : Type 0 where
  pub system_prompt : Text
  pub summary : Option Text
  pub user_content : Text
  pub memory_context : Option Text
  pub tools_tokens : ℕ

-- FULL_ROUND_WINDOWS
abbrev pub windows : List ℕ
windows = 20 ∷ 16 ∷ 12 ∷ []

-- The words before the summary.
abbrev summary_words : Text
summary_words = 20043 ∷ 21069 ∷ 23545 ∷ 35805 ∷ 25688 ∷ 35201 ∷ 65306 ∷ []

-- A text that may be missing, or be empty, after other words.
abbrev optional_tokens : Text → Option Text → ℕ
optional_tokens before none = 0
optional_tokens before (some []) = 0
optional_tokens before (some (c ∷ text)) = estimate_tokens (before ++ c ∷ text) + 4

unfoldable pub fixed_tokens : Prompt → ℕ
fixed_tokens p =
    estimate_tokens p.system_prompt
    + p.tools_tokens
    + estimate_tokens p.user_content
    + optional_tokens [] p.memory_context
    + optional_tokens summary_words p.summary

-- Whether the prompt with the last messages of the history is within the budget.
abbrev pub fits : ℕ → Prompt → List Text → ℕ → Bool
fits budget p history window =
    leb (fixed_tokens p + estimate_messages_tokens (take_last window history)) budget

abbrev pub first_fitting : ℕ → Prompt → List Text → List ℕ → ℕ
first_fitting budget p history [] = 12
first_fitting budget p history (w ∷ ws) =
    if fits budget p history w then w else first_fitting budget p history ws

unfoldable pub fit_window_to_budget : ℕ → Prompt → List Text → ℕ
fit_window_to_budget budget p history = first_fitting budget p history windows

abbrev pub IsWindow : ℕ → Type 0
IsWindow w = (w ≡ 20) ⊎ (w ≡ 16) ⊎ (w ≡ 12)

-- If one of the windows keeps the prompt within the budget, so does the one returned, and it is no
-- smaller than that one.
pub fit_window_lem :
    (budget : ℕ) (p : Prompt) (history : List Text) (w : ℕ)
    → IsWindow w
    → fits budget p history w ≡ true
    → (w ≤ fit_window_to_budget budget p history)
      × (fits budget p history (fit_window_to_budget budget p history) ≡ true)
unfolding fit_window_to_budget
fit_window_lem budget p history w i h = ground arith

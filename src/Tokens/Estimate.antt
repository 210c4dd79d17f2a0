-- ===== src/Tokens/Estimate.antt =====
-- The estimate of a text's tokens. A text is the list of its code points.
use stock_invest_system.Prelude.{
  ℕ, ◌+◌, ◌-◌, ◌*◌, ◌/◌, ◌≤◌, ◌≡◌, refl, Bool, ◌&&◌, ◌||◌, List, [], ◌∷◌, ◌++◌, arith, leb, length,
  length-append, if◌then◌else◌,
}

abbrev pub Text : Type 0
Text = List ℕ

abbrev within : ℕ → ℕ → ℕ → Bool
within low high c = leb low c && leb c high

-- _CJK_RE: U+4E00 to U+9FFF, U+3000 to U+303F and U+FF00 to U+FFEF.
abbrev is_cjk : ℕ → Bool
is_cjk c = within 19968 40959 c || within 12288 12351 c || within 65280 65519 c

abbrev pub cjk_count : Text → ℕ
cjk_count [] = 0
cjk_count (c ∷ text) = (if is_cjk c then 1 else 0) + cjk_count text

unfoldable pub estimate_tokens : Text → ℕ
estimate_tokens [] = 0
estimate_tokens (c ∷ text) =
    let cjk = cjk_count (c ∷ text) in cjk + ((length (c ∷ text) - cjk) + 3) / 4

-- The contents of the messages, with 4 tokens more for each.
unfoldable pub estimate_messages_tokens : List Text → ℕ
estimate_messages_tokens [] = 0
estimate_messages_tokens (m ∷ messages) = estimate_tokens m + 4 + estimate_messages_tokens messages

cjk_count_le : (text : Text) → cjk_count text ≤ length text
cjk_count_le [] = omega arith
cjk_count_le (c ∷ text) = ground (arith, cjk_count_le text)

cjk_count-append : (a b : Text) → cjk_count (a ++ b) ≡ cjk_count a + cjk_count b
cjk_count-append [] b = omega arith
cjk_count-append (c ∷ a) b = omega (arith, cjk_count-append a b)

estimate_tokens-eq :
    (text : Text) → estimate_tokens text ≡ cjk_count text + ((length text - cjk_count text) + 3) / 4
unfolding estimate_tokens
estimate_tokens-eq [] = omega arith
estimate_tokens-eq (c ∷ text) = refl

-- The estimate is at most the number of characters and at least a quarter of it; and texts put
-- together are never estimated at more than their estimates together, nor at less by more than one.
pub estimate_tokens_bounds :
    (a b : Text)
    → (estimate_tokens a ≤ length a)
      × (length a ≤ 4 * estimate_tokens a)
      × (estimate_tokens (a ++ b) ≤ estimate_tokens a + estimate_tokens b)
      × (estimate_tokens a + estimate_tokens b ≤ estimate_tokens (a ++ b) + 1)
estimate_tokens_bounds a b = omega (
  arith,
  estimate_tokens-eq a,
  estimate_tokens-eq b,
  estimate_tokens-eq (a ++ b),
  cjk_count_le a,
  cjk_count_le b,
  cjk_count-append a b,
  length-append a b,
)

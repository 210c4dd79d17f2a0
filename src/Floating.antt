-- ===== src/Floating.antt =====
-- Python's `float` as the program uses it: an interface of operations, so that the code is the same
-- whatever the rounding. `trunc` is `int(x)`, which raises on infinities and NaN; `round n x` is
-- `round(x, n)`; a division first tests its divisor, as Python raises on zero.
pub mod Whole
use stock_invest_system.Prelude.{ℕ, Bool, Option}
use stock_invest_system.Prelude.Int.{ℤ}

pub record Floating {ℓ} (F : Type ℓ) : Type ℓ where
  pub nought : F
  pub unit : F
  pub add : F → F → F
  pub sub : F → F → F
  pub mul : F → F → F
  pub div : F → F → F
  pub eqb : F → F → Bool
  pub ltb : F → F → Bool
  pub leb : F → F → Bool
  pub of_nat : ℕ → F
  pub trunc : F → Option ℤ
  pub round : ℕ → F → F

-- `not x` on a float: zero is false.
abbrev pub is_zero {ℓ} : {F : Type ℓ} ⦃d : Floating F⦄ → F → Bool
is_zero ⦃d⦄ x = d.eqb x d.nought

-- ===== src/Engine/Types.antt =====
-- The data of the back-test engine (stock_backend/app/backtest/engine.py): bars, the configuration,
-- the context and the engine's own fields, and the strategy as the program that it runs.
use stock_invest_system.Prelude.{ℕ, Bool, List, Option, none, some, ◌≡◌, refl}
use stock_invest_system.Prelude.Int.{ℤ}

-- A bar dict; the keys that `bar.get` reads are options.
pub record Bar {ℓ} (F : Type ℓ) : Type ℓ where
  pub ts : ℕ
  pub open_price : F
  pub high : F
  pub low : F
  pub close : F
  pub volume : Option F
  pub limit_up : Option Bool
  pub limit_down : Option Bool

-- `fill_on`
pub data FillOn : Type 0 where
  on_close on_open : FillOn

pub record BacktestConfig {ℓ} (F : Type ℓ) : Type ℓ where
  pub initial_cash : F
  pub commission_rate : F
  pub stamp_duty_rate : F
  pub fill_on : FillOn
  pub slippage_pct : F
  pub time_budget : F
  pub max_volume_pct : F

-- The entries of `params` that the engine reads.
pub record Params {ℓ} (F : Type ℓ) : Type ℓ where
  pub position_max_pct : Option F
  pub stop_loss_pct : Option F
  pub take_profit_pct : Option F

-- An entry of `_fifo_cost`.
pub record Lot {ℓ} (F : Type ℓ) : Type ℓ where
  pub price : F
  pub shares : ℕ

pub data Side : Type 0 where
  buy_side sell_side : Side

pub data Reason : Type 0 where
  signal stop_loss take_profit : Reason

-- An entry of `trades`.
pub record Trade {ℓ} (F : Type ℓ) : Type ℓ where
  pub ts : ℕ
  pub side : Side
  pub price : F
  pub shares : ℕ
  pub amount : F
  pub fee : F
  pub reason : Reason

-- An entry of `equity_curve`.
pub record Point {ℓ} (F : Type ℓ) : Type ℓ where
  pub ts : ℕ
  pub equity : F
  pub cash : F
  pub held : ℕ
  pub price : F

-- What a run raises: `BacktestError` in its four places, `BacktestTimeout`, and the exceptions of
-- the arithmetic and of the missing bar, which `run` passes on where no strategy code is running.
pub data Error : Type 0 where
  no_bars init_failed on_bar_failed bad_strategy timeout : Error
  zero_division bad_int no_current_bar : Error

pub data Result {ℓ} (A : Type ℓ) : Type ℓ where
  ok : A → Result A
  err : Error → Result A

infixl 5 ◌>>=◌
abbrev pub ◌>>=◌ {ℓ κ} : {A : Type ℓ} {B : Type κ} → Result A → (A → Result B) → Result B
ok a >>= f = f a
err e >>= f = err e

abbrev pub or_raise {ℓ} : {A : Type ℓ} → Option A → Error → Result A
or_raise none e = err e
or_raise (some a) e = ok a

-- The fields of `BacktestContext` and those of `BacktestEngine` that change in a run; each of the
-- two objects holds the other. `shares_held` is `pos`.
pub record State {ℓ} (F : Type ℓ) : Type ℓ where
  pub cash : F
  pub shares_held : ℕ
  pub entry_price : Option F
  pub price : F
  pub bar_index : ℕ
  pub history : List (Bar F)
  pub sellable : ℕ
  pub pending : ℕ
  pub current_bar : Option (Bar F)
  pub fifo_cost : List (Lot F)
  pub auto_exited_this_bar : Bool
  pub trades : List (Trade F)
  pub equity_curve : List (Point F)
  pub pending_buy : Option ℕ
  pub pending_sell : Option ℕ

-- One run of the strategy's code: it returns, raises, or calls `buy` or `sell` of the context and
-- goes on, having seen whether the call raised and what the context then holds. `T` is what the
-- strategy keeps for itself from one bar to the next.
pub data Program {ℓ κ} (F : Type ℓ) (T : Type κ) : Type (ℓ ⊔ κ) where
  finish : T → Program F T
  fail : Program F T
  buy : Option ℤ → (Option Error → State F → Program F T) → Program F T
  sell : Option ℤ → (Option Error → State F → Program F T) → Program F T

-- What `compile_strategy` returns: `on_bar`, and `initialize` if the code defines it.
pub record Strategy {ℓ κ} (F : Type ℓ) (T : Type κ) : Type (ℓ ⊔ κ) where
  pub start : T
  pub initialize : Option (State F → Program F T)
  pub on_bar : T → Bar F → State F → Program F T

-- A bind has a property when both ends of its first part give it.
pub by_result {ℓ κ μ} :
    {A : Type ℓ} {B : Type κ} (P : Result B → Type μ) (m : Result A) {f : A → Result B}
    → ((a : A) → m ≡ ok a → P (f a))
    → ((e : Error) → P (err e))
    → P (m >>= f)
by_result P (ok a) h k = h a refl
by_result P (err e) h k = k e

pub ok-injective {ℓ} : {A : Type ℓ} {a b : A} → ok a ≡ ok b → a ≡ b
ok-injective h = cc

pub some_of_raise {ℓ} :
    {A : Type ℓ} (o : Option A) (e : Error) {a : A} → or_raise o e ≡ ok a → o ≡ some a
some_of_raise none e h = cc
some_of_raise (some x) e h = cc

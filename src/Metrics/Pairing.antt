-- ===== src/Metrics/Pairing.antt =====
-- `_pair_trades`: sales paired with the purchases they use up, oldest first.
use stock_invest_system.Prelude.{
  ℕ, ◌+◌, ◌-◌, min, Bool, ◌&&◌, List, [], ◌∷◌, ◌++◌, ltb, leb, ◌==◌, if◌then◌else◌,
}
use stock_invest_system.Floating.{Floating}
use stock_invest_system.Engine.Types.{Side, buy_side, sell_side, Trade}

-- An entry of the queue `buys`.
pub record Purchase {ℓ} (F : Type ℓ) : Type ℓ where
  pub price : F
  pub shares : ℕ
  pub ts : ℕ
  pub fee : F
  pub orig_shares : ℕ

-- An entry of `pairs`.
pub record Pair {ℓ} (F : Type ℓ) : Type ℓ where
  pub pnl : F
  pub net_pnl : F
  pub buy_ts : ℕ
  pub sell_ts : ℕ
  pub shares : ℕ
  pub round_close : Bool

-- The variables of the loop.
pub record Pairing {ℓ} (F : Type ℓ) : Type ℓ where
  pub buys : List (Purchase F)
  pub round_buy_shares : ℕ
  pub round_sell_shares : ℕ
  pub pairs : List (Pair F)

-- Whether the pair that brings the round's sales to `sold` closes the round.
abbrev pub closes_round : ℕ → ℕ → Bool
closes_round bought sold = leb bought sold && ltb 0 bought

module _ {ℓ} {F : Type ℓ} ⦃d : Floating F⦄ where
  -- The part of a fee that falls on `closed` of `all_shares`.
  abbrev share_of_fee : F → ℕ → ℕ → F
  share_of_fee fee closed all_shares =
      if ltb 0 all_shares
      then d.mul fee (d.div (d.of_nat closed) (d.of_nat all_shares))
      else d.nought

  unfoldable pub make_pair : Trade F → Purchase F → ℕ → Bool → Pair F
  make_pair t b closed is_close =
      let pnl = d.mul (d.sub t.price b.price) (d.of_nat closed) in
      record {
        pnl = d.round 6 pnl;
        net_pnl = d.round 6 (
            d.sub (d.sub pnl (share_of_fee b.fee closed b.orig_shares))
              (share_of_fee t.fee closed t.shares));
        buy_ts = b.ts;
        sell_ts = t.ts;
        shares = closed;
        round_close = is_close;
      }

  -- The `while` loop over one sale, with `left` shares of it still to pair.
  unfoldable pub pair_sale : Trade F → ℕ → ℕ → ℕ → List (Purchase F) → Pairing F
  unfolding make_pair
  pair_sale t left bought sold [] = record {
    buys = [];
    round_buy_shares = bought;
    round_sell_shares = sold;
    pairs = [];
  }
  pair_sale t left bought sold (b ∷ buys) =
      let closed = min left b.shares in
      let is_close = closes_round bought (sold + closed) in
      let bought' = if is_close then 0 else bought in
      let sold' = if is_close then 0 else sold + closed in
      let pair = make_pair t b closed is_close in
      let rest = pair_sale t (left - closed) bought' sold' buys in
      if left == 0
      then record {
        buys = b ∷ buys;
        round_buy_shares = bought;
        round_sell_shares = sold;
        pairs = [];
      }
      else if b.shares - closed == 0
      then record rest { pairs = pair ∷ rest.pairs }
      else record {
        buys =
            record b {
              shares = b.shares - closed;
              fee = d.sub b.fee (share_of_fee b.fee closed b.orig_shares);
            }
            ∷ buys;
        round_buy_shares = bought';
        round_sell_shares = sold';
        pairs = pair ∷ [];
      }

  abbrev pub add_pairs : List (Pair F) → Pairing F → Pairing F
  add_pairs earlier r = record r { pairs = earlier ++ r.pairs }

  -- One trade of the log.
  abbrev pub pair_on : Side → Pairing F → Trade F → Pairing F
  pair_on buy_side r t = record r {
    buys =
        r.buys
        ++ record {
          price = t.price;
          shares = t.shares;
          ts = t.ts;
          fee = t.fee;
          orig_shares = t.shares;
        }
          ∷ [];
    round_buy_shares = r.round_buy_shares + t.shares;
  }
  pair_on sell_side r t =
      add_pairs r.pairs (pair_sale t t.shares r.round_buy_shares r.round_sell_shares r.buys)

  unfoldable pub pair_from : Pairing F → List (Trade F) → Pairing F
  pair_from r [] = r
  pair_from r (t ∷ ts) = pair_from (pair_on t.side r t) ts

  abbrev pub no_pairs : Pairing F
  no_pairs = record { buys = []; round_buy_shares = 0; round_sell_shares = 0; pairs = [] }

  unfoldable pub pair_trades : List (Trade F) → List (Pair F)
  unfolding pair_from
  pair_trades trades = (pair_from no_pairs trades).pairs

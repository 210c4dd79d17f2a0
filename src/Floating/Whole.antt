-- ===== src/Floating/Whole.antt =====
-- Whole numbers of the smallest unit in place of floats, for runs at concrete inputs: rates are
-- whole multiples, division goes towards 0, and nothing is rounded.
use stock_invest_system.Prelude.{◌/◌, some, ◌==◌, ◌&&◌}
use stock_invest_system.Prelude.Int.{
  ℤ, pos, negsuc, pos_part, neg_part, ◌+ℤ◌, ◌-ℤ◌, ◌*ℤ◌, ltb_ℤ, leb_ℤ,
}
use stock_invest_system.Floating.{Floating}

abbrev pub quotient : ℤ → ℤ → ℤ
quotient (pos a) (pos b) = pos (a / b)
quotient (pos a) (negsuc b) = pos 0 -ℤ pos (a / neg_part (negsuc b))
quotient (negsuc a) (pos b) = pos 0 -ℤ pos (neg_part (negsuc a) / b)
quotient (negsuc a) (negsuc b) = pos (neg_part (negsuc a) / neg_part (negsuc b))

instance abbrev pub whole : Floating ℤ
whole = record {
  nought = pos 0;
  unit = pos 1;
  add = ◌+ℤ◌;
  sub = ◌-ℤ◌;
  mul = ◌*ℤ◌;
  div = quotient;
  eqb = λ a b. (pos_part a == pos_part b) && (neg_part a == neg_part b);
  ltb = ltb_ℤ;
  leb = leb_ℤ;
  of_nat = pos;
  trunc = some;
  round = λ n x. x;
}

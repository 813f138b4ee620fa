-- ===== src/Ledger/Tests.antt =====
-- A small exact engine, and trades, fills and a void priced with it.
mod Examples
mod Money
pub mod Rows
pub mod Trades
mod Placements
use cs.Base.{
  ℕ, ◌+◌, ◌≡◌, refl, List, [], ◌∷◌, Option, none, some, Outcome, ok, err, arith, raise_if,
}
use cs.Base.Int.{ℤ, pos, pos_part, neg_part, ◌+ℤ◌, ◌-ℤ◌, ◌*ℤ◌, floor_div, ltb_ℤ, neg}
use cs.Ledger.Lmsr.{Engine, IsDecimal, PricingError, add_each, cost_to_trade}
use cs.Ledger.Pricing.{
  Side, buy, sell, TradeCost, trade_cost_of, at, refuse_oversold, signed, quantize_cost, total_of,
}
use cs.Ledger.Orders.{
  RestingOrder, PlannedFill, cascade_of, cascade_from, sort_orders, is_before, is_up_pusher,
  threshold_of, next_fill, executable_fill_of, fill_quantity_of, capped, is_within_limit,
}
use cs.Ledger.Voiding.{
  refuse_if_versions_not_from, key_eq, refuse_if_replay_disagrees,
  refuse_if_versions_not_consecutive, last_version, held_of, is_within, quantity_at, same_q,
  Holdings, VoidTrade, VoidError, LotReplay, lot_replay_of, replay_trades, replay_trade, lots_after,
  moved_at, sell_newest_first, stack_of, put, owed_of, refunds_of, refund_of, sale_price,
  change_of_q, shares_left_of, traders_of,
}

-- Numbers are whole ticks and every rounding is exact. The first terms of the two series stand for
-- `exp` and `ln`, the second halved, so with two outcomes each share costs a half.
abbrev pub whole_ticks : Engine
whole_ticks = record {
  Num = ℤ;
  of_ticks = λ n. n;
  add = λ x y. x +ℤ y;
  sub = λ x y. x -ℤ y;
  mul = λ x y. floor_div (pos_part x *ℤ y) 10000;
  div = λ x y. floor_div (10000 *ℤ x) (pos_part y);
  exp = λ x. pos 10000 +ℤ x;
  ln = λ x. floor_div (x -ℤ pos 10000) 2;
  copy_abs = λ x. pos (pos_part x + neg_part x);
  less = ltb_ℤ;
  ceil_ticks = λ x. x;
  floor_ticks = λ x. x;
  half_up_ticks = λ x. x;
}

pub whole_ticks-IsDecimal : IsDecimal whole_ticks
whole_ticks-IsDecimal = record {
  abs_nonneg = λ x. ground arith;
  ceil_above = λ x. ground arith;
  ceil_least = λ x n h. ground arith;
  ceil_nonneg = λ x h. ground arith;
  floor_below = λ x. ground arith;
  floor_least = λ x n h. ground arith;
  floor_nonneg = λ x h. ground arith;
}

abbrev pub empty_q : List ℤ
empty_q = pos 0 ∷ pos 0 ∷ []

abbrev pub half_share : TradeCost
half_share = record {
  after_q = pos 5000 ∷ pos 0 ∷ [];
  magnitude = pos 2500;
  total = neg (pos 2500);
}

pub half_share-priced : trade_cost_of whole_ticks empty_q (pos 10000) 0 buy 5000 ≡ ok half_share
unfolding trade_cost_of at refuse_oversold add_each raise_if ◌+ℤ◌ signed cost_to_trade ◌-ℤ◌
    floor_div ◌*ℤ◌ quantize_cost neg total_of
half_share-priced = refl

abbrev pub generous : RestingOrder
generous = record { seq = 1; outcome_index = 0; side = buy; limit_price = 7500; remaining = 5000 }

abbrev pub stingy : RestingOrder
stingy = record { seq = 2; outcome_index = 0; side = buy; limit_price = 1000; remaining = 5000 }

abbrev pub one_fill : PlannedFill
one_fill = record { order = generous; quantity = 5000; cost = half_share }

pub one_fill-cascade :
    cascade_of whole_ticks empty_q (pos 10000) (stingy ∷ generous ∷ []) ≡ ok (one_fill ∷ [])
unfolding cascade_of cascade_from sort_orders is_before is_up_pusher threshold_of next_fill
    executable_fill_of fill_quantity_of capped is_within_limit trade_cost_of at refuse_oversold
    add_each raise_if ◌+ℤ◌ signed cost_to_trade ◌-ℤ◌ floor_div ◌*ℤ◌ quantize_cost neg total_of
one_fill-cascade = refl

-- One holder buys twice and sells part of the second lot.
abbrev pub three_trades : List VoidTrade
three_trades =
    record {
      user_id = 7;
      position = 0;
      side = buy;
      quantity = 5000;
      total = 2500;
      state_version = 1;
    }
    ∷ record {
      user_id = 7;
      position = 0;
      side = buy;
      quantity = 4000;
      total = 2000;
      state_version = 2;
    }
    ∷ record {
      user_id = 7;
      position = 0;
      side = sell;
      quantity = 1000;
      total = 500;
      state_version = 3;
    }
    ∷ []

abbrev pub three_replayed : LotReplay
three_replayed = record {
  owed = ((7, 0), 4000) ∷ [];
  shares_left = ((7, 0), 8000) ∷ [];
  q = pos 8000 ∷ pos 0 ∷ [];
  traders = 7 ∷ [];
}

pub three_trades-replayed : lot_replay_of whole_ticks three_trades 2 (pos 10000) ≡ ok three_replayed
unfolding lot_replay_of replay_trades replay_trade lots_after moved_at sell_newest_first stack_of
    put owed_of refunds_of refund_of sale_price change_of_q shares_left_of traders_of trade_cost_of
    at refuse_oversold add_each raise_if ◌+ℤ◌ signed cost_to_trade ◌-ℤ◌ floor_div ◌*ℤ◌ quantize_cost
    neg total_of
three_trades-replayed = refl

abbrev pub positions_held : Holdings ℕ
positions_held = ((8, 1), 0) ∷ ((7, 0), 8000) ∷ []

pub three_trades-explained :
    refuse_if_replay_disagrees three_replayed three_trades positions_held (pos 8000 ∷ pos 0 ∷ []) 3
    ≡ ok tt
unfolding refuse_if_replay_disagrees refuse_if_versions_not_consecutive last_version held_of
    is_within quantity_at same_q raise_if refuse_if_versions_not_from key_eq
three_trades-explained = refl

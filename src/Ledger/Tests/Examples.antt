-- ===== src/Ledger/Tests/Examples.antt =====
-- The theorems on the ledger's core, each at the values of the tests.
use mathlib.Core.List.{Perm}
use cs.Base.{ℕ, ◌+◌, ◌-◌, ◌*◌, ◌≤◌, ◌≡◌, ◌↔◌, List, [], ◌∷◌, All, some, arith, get_elem?, ok}
use cs.Base.Int.{pos, int_laws}
use cs.Ledger.Pricing.{buy, sell, release_basis}
use cs.Ledger.Pricing.Rounding.{IsPriced, trade_cost_of-IsPriced}
use cs.Ledger.Pricing.Basis.{release_basis_split}
use cs.Ledger.Orders.{RestingOrder, is_up_pusher, threshold_of, refuse_if_crosses_book}
use cs.Ledger.Orders.Crossing.{IsUncrossed, refuse_if_crosses_book-IsUncrossed}
use cs.Ledger.Orders.Priority.{IsSorted}
use cs.Ledger.Orders.Cascade.{Cascaded, cascade_of-Cascaded}
use cs.Ledger.Voiding.Cut.{Cut, cut_of}
use cs.Ledger.Voiding.Cap.{IsCapped, cut_of-IsCapped}
use cs.Ledger.Voiding.Shares.{shares_at, lot_replay_of-shares}
use cs.Ledger.Voiding.Guard.{IsExplained, refuse_if_replay_disagrees-IsExplained}
use cs.Ledger.Tests.{
  positions_held, three_trades-explained, whole_ticks, whole_ticks-IsDecimal, empty_q, half_share,
  half_share-priced, generous, stingy, one_fill, one_fill-cascade, three_trades, three_replayed,
  three_trades-replayed,
}

-- A pool of 1000 ticks and a seed of 500 against refunds of 4000 and 2000.
cut_of-IsCapped_example :
    (c : Cut) × (cut_of (((7, 0), 4000) ∷ ((8, 1), 2000) ∷ []) (pos 1000) (pos 500) ≡ ok c)
    × IsCapped (((7, 0), 4000) ∷ ((8, 1), 2000) ∷ []) (pos 1000) (pos 500) c
cut_of-IsCapped_example =
    cut_of-IsCapped (((7, 0), 4000) ∷ ((8, 1), 2000) ∷ []) (pos 1000) (pos 500) (omega int_laws)

cascade_of-Cascaded_example :
    (sorted : List RestingOrder) × Perm sorted (stingy ∷ generous ∷ [])
    × IsSorted sorted
    × Cascaded whole_ticks (pos 10000) empty_q sorted (one_fill ∷ [])
cascade_of-Cascaded_example =
    cascade_of-Cascaded whole_ticks empty_q (pos 10000) (stingy ∷ generous ∷ []) one_fill-cascade

lot_replay_of-shares_example :
    get_elem? three_replayed.q 0 ≡ some (pos (shares_at 0 three_replayed.shares_left))
lot_replay_of-shares_example =
    lot_replay_of-shares whole_ticks three_trades 2 (pos 10000) three_trades-replayed 0
      (omega arith)

trade_cost_of-IsPriced_example : IsPriced whole_ticks empty_q (pos 10000) 0 buy 5000 half_share
trade_cost_of-IsPriced_example =
    trade_cost_of-IsPriced whole_ticks whole_ticks-IsDecimal empty_q (pos 10000) 0 buy 5000
      half_share half_share-priced

refuse_if_crosses_book-IsUncrossed_example :
    (refuse_if_crosses_book (stingy ∷ generous ∷ []) 0 sell 8000 ≡ ok tt)
    ↔ All (IsUncrossed (is_up_pusher 0 sell) (threshold_of 0 (pos 8000))) (stingy ∷ generous ∷ [])
refuse_if_crosses_book-IsUncrossed_example =
    refuse_if_crosses_book-IsUncrossed (stingy ∷ generous ∷ []) 0 sell 8000

release_basis_split_example :
    (released : ℕ) × (remaining : ℕ) × (release_basis 1000 3 1 ≡ ok (released, remaining))
    × (released + remaining ≡ 1000)
    × (◌≡◌ {A = ℕ} 1 3 → remaining ≡ 0)
    × (2 * 3 * remaining ≤ 2 * (1000 * (3 - 1)) + 3)
    × (2 * (1000 * (3 - 1)) ≤ 2 * 3 * remaining + 3)
release_basis_split_example = release_basis_split 1000 3 1 (omega arith) (omega arith)

refuse_if_replay_disagrees-IsExplained_example :
    IsExplained three_replayed three_trades positions_held (pos 8000 ∷ pos 0 ∷ []) 3
refuse_if_replay_disagrees-IsExplained_example =
    refuse_if_replay_disagrees-IsExplained three_replayed three_trades positions_held
      (pos 8000 ∷ pos 0 ∷ []) 3 three_trades-explained

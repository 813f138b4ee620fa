-- ===== src/Ledger/Tests/Placements.antt =====
-- Limit orders on the market of Tests/Trades: one that rests, and one that fills on arrival.
use cs.Base.{Outcome, ◌≡◌, false, none, List, [], ◌∷◌, ◌+◌, arith, ℕ, suc, ◌==◌, All, subst}
use cs.Ledger.Pricing.{buy}
use cs.Base.Int.{pos}
use cs.Ledger.Rows.{Tables, Order, LedgerError}
use cs.Ledger.Tests.{whole_ticks}
use cs.Ledger.Tests.Rows.{small_world, from_ok}
use cs.Ledger.Placing.{PlaceRequest, NewRow}
use cs.Ledger.Placing.Committing.{Placed, placed_before}
use cs.Ledger.Placing.Place.{place}
use cs.Ledger.Placing.Planned.{IsFresh}
use cs.Ledger.Placing.Invariant.{place-IsBacked}
use cs.Ledger.Trading.Backed.{IsBacked}
use cs.Ledger.Tests.Trades.{patient, trade_tables, trade_tables-IsBacked, calm}

abbrev next_seq : List Order → ℕ
next_seq [] = 1
next_seq (o ∷ rest) = suc (o.seq + next_seq rest)

abbrev next_row : NewRow
next_row = record { order_id = 95; seq_after = next_seq }

abbrev hopeful : PlaceRequest
hopeful = record {
  user_id = 7;
  market_id = 4;
  outcome_id = 1;
  side = buy;
  limit_price = pos 9500;
  quantity = pos 1000;
  idempotency_key = 66 ∷ [];
}

abbrev placed : Outcome LedgerError Placed × Tables
placed = place whole_ticks small_world calm next_row hopeful trade_tables

abbrev not_placed_yet : Placed
not_placed_yet = placed_before (record {
  view = record {
    order = patient;
    released = false;
    reserved_credits = none;
    reserved_shares = none;
    average_fill_price = none;
  };
  outcome_position = pos 0;
  fills = [];
  book_state_version = 0;
})

abbrev placed_answer : Placed
placed_answer = from_ok placed.0 not_placed_yet

-- A `seq` past the sum of the others is none of them.
next_seq_apart :
    (orders : List Order) (k : ℕ)
    → All (λ (o : Order). (o.seq == next_seq orders + k) ≡ false) orders
next_seq_apart [] k = tt
next_seq_apart (o ∷ rest) k = (
  ground arith,
  subst (λ n. All (λ (x : Order). (x.seq == n) ≡ false) rest)
      (let moved : next_seq rest + (suc o.seq + k) ≡ suc (o.seq + next_seq rest) + k =
          omega arith in
        moved)
      (next_seq_apart rest (suc o.seq + k)),
)

next_row-IsFresh : IsFresh next_row
next_row-IsFresh orders =
    subst (λ n. All (λ (x : Order). (x.seq == n) ≡ false) orders) (omega arith)
      (next_seq_apart orders 0)

place-IsBacked_example : IsBacked placed.1
place-IsBacked_example =
    place-IsBacked whole_ticks small_world calm next_row hopeful trade_tables next_row-IsFresh
      (λ t kept. kept) trade_tables-IsBacked

-- ===== src/Ledger/Placing/Committing.antt =====
-- backend/ledger_service/service/orders.py: the commit of a placed order, with the fills that it sets off, and its
-- answer.
use cs.Base.{ℕ, true, Option, List, [], ◌∷◌, ◌++◌, ◌==◌, if◌then◌else◌, Outcome, ok, ◌>>=◌}
use cs.Base.Int.{ℤ}
use cs.Ledger.Lmsr.{Engine}
use cs.Ledger.Rows.{
  Transaction, Order, Tables, LedgerError, insufficient_funds, cascade_fill_refused,
}
use cs.Ledger.Reservations.{is_open}
use cs.Ledger.Posting.{post_all}
use cs.Ledger.Accounts.{World}
use cs.Ledger.Cancellation.{order_view_of}
use cs.Ledger.Trading.{flushed}
use cs.Ledger.Trading.Frames.{
  PriceEvent, OrderEvent, movements_of_fills, refused_as, order_events_of, price_event_of, first_of,
}
use cs.Ledger.Placing.{Fill, Placement, placement_refusal_of}
use cs.Ledger.Placing.Stored.{fill_of}
use cs.Ledger.Placing.Planning.{Planned, resting, filling}

-- A placement's answer, with the frames that it publishes
pub record Placed : Type 0 where
  pub placement : Placement
  pub price_frames : List PriceEvent
  pub order_frames : List OrderEvent

abbrev pub placed_before : Placement → Placed
placed_before placement = record { placement = placement; price_frames = []; order_frames = [] }

-- What `_commit_fill` makes of a refusal of the batch
unfoldable pub fill_refusal_of : ℕ → Option ℕ → LedgerError → LedgerError
unfolding placement_refusal_of
fill_refusal_of account_id budget (insufficient_funds refusal) =
    if refusal.account_id == account_id
    then insufficient_funds (placement_refusal_of refusal budget)
    else cascade_fill_refused
fill_refusal_of account_id budget other = other

-- The commit of an order that nothing filled, and of one with its fill and the cascade's
unfoldable pub commit_planned :
    World → (ℕ → ℕ) → ℕ → ℕ → Planned → Tables → Outcome LedgerError (List Transaction × Tables)
unfolding fill_refusal_of movements_of_fills flushed post_all
commit_planned world new_ids now account_id (resting order position) s =
    ok ([], record s { orders = s.orders ++ (order ∷ []) })
commit_planned world new_ids now account_id (filling order position plan) s =
    refused_as (fill_refusal_of account_id order.budget) (
      post_all world.hashing world.account new_ids true now
        (plan.movement ∷ movements_of_fills plan.fills) (flushed s plan.pending))

unfoldable pub placement_of : Engine → Order → ℤ → List Fill → Placement
unfolding order_view_of is_open
placement_of engine order position fills = record {
  view = order_view_of engine order (is_open order.status);
  outcome_position = position;
  fills = fills;
  book_state_version = order.book_state_version;
}

-- The answer and the frames, from what was committed: the placed order's own fill is the first.
unfoldable pub placed_of : Engine → ℕ → Planned → List Transaction → Outcome LedgerError Placed
unfolding placement_of price_event_of order_events_of fill_of
placed_of engine now (resting order position) transactions =
    ok (placed_before (placement_of engine order position []))
placed_of engine now (filling order position plan) transactions = do
  frame ← price_event_of engine now plan.pending order.book_state_version
  frames ←
      order_events_of now (record { order = order; movement = plan.movement } ∷ plan.fills)
        transactions
  first ← first_of transactions
  fill ← fill_of first
  ok (record {
    placement = placement_of engine order position (fill ∷ []);
    price_frames = frame ∷ [];
    order_frames = frames;
  })

-- ===== src/Ledger/Placing/Planned.antt =====
-- backend/ledger_service/service/orders.py: what the plan of a placement under the lock has checked, and the rows that
-- it leaves.
use cs.Base.{
  ℕ, suc, ◌+◌, ◌≡◌, refl, false, Option, none, some, List, [], ◌∷◌, ◌++◌, length, sym, ok,
  >>=-eq-ok, ok_injective, subst, ◌==◌, All, All-append,
}
use cs.Base.Int.{ℤ, ◌≤ℤ◌}
use cs.Base.Text.{Text}
use cs.Ledger.Lmsr.{Engine}
use cs.Ledger.Pricing.{buy, trade_cost_of}
use cs.Ledger.Orders.{RestingOrder, PlannedFill, executable_fill_of}
use cs.Ledger.Orders.Pass.{IsFill, executable_fill_of-IsFill}
use cs.Ledger.Rows.{Book, Order, Tables, user}
use cs.Ledger.Reservations.{balance_of, reserved_of}
use cs.Ledger.Accounts.{World}
use cs.Ledger.BookPrices.{q_of, b_of, index_of, outcome_ids_of}
use cs.Ledger.Trading.{Pending, find_position, write_trade}
use cs.Ledger.Trading.Filling.{write_cascade}
use cs.Ledger.Trading.Planning.{PlannedTrade, pending_of}
use cs.Ledger.Trading.Follows.{write_trade-Wrote}
use cs.Ledger.Trading.Fills.{HasOwnSeqs}
use cs.Ledger.Trading.Cascading.{Filled, Filled-then, write_cascade-Filled}
use cs.Ledger.Placing.{PlaceRequest, NewRow, new_order, inserted}
use cs.Ledger.Placing.Planning.{
  Planned, resting, filling, arriving_of, trade_on_arrival, movement_on_arrival, check_budget,
  plan_rest, plan_fill, plan_order,
}
use cs.Ledger.Placing.Budgeted.{IsNew, new_order-IsNew, rests_within}

-- No other row has the new row's `seq`.
abbrev pub IsFresh : NewRow → Type 0
IsFresh row =
    (orders : List Order) → All (λ (o : Order). (o.seq == row.seq_after orders) ≡ false) orders

pub inserted-HasOwnSeqs :
    (order : Order) (orders : List Order)
    → All (λ (o : Order). (o.seq == order.seq) ≡ false) orders
    → HasOwnSeqs orders
    → HasOwnSeqs (orders ++ (order ∷ []))
inserted-HasOwnSeqs order [] fresh own = (tt, tt)
inserted-HasOwnSeqs order (o ∷ rest) fresh own = (
  All-append _ rest (order ∷ []) own.0 (fresh.0, tt),
  inserted-HasOwnSeqs order rest fresh.1 own.1,
)

module _ (e : Engine) (world : World) (row : NewRow) (request : PlaceRequest) (s : Tables) where
  -- An order that rests: nothing of it is filled, and a buy's budget is available.
  pub record Rests (book : Book) (order : Order) : Type 0 where
    pub own_seq : order.seq ≡ row.seq_after s.orders
    pub own_version : order.book_state_version ≡ book.state_version
    pub unfilled : order.filled_quantity ≡ 0
    pub fits :
        request.side ≡ buy
        → reserved_of s.results (s.orders ++ (order ∷ [])) request.user_id
          ≤ℤ balance_of s.entries (world.id_of user request.user_id)

  -- An order that fills on arrival, at the price that the book has for it, and the trades that follow
  pub record Fills (book : Book) (order : Order) (plan : PlannedTrade) : Type 0 where
    pub own_fill : PlannedFill
    pub is_fill :
        IsFill e (q_of (pending_of s book).book.outcomes) (b_of (pending_of s book).book) own_fill
    pub index : ℕ
    pub own_place :
        index_of request.outcome_id (outcome_ids_of (pending_of s book).book.outcomes) ≡ some index
    pub arrived : own_fill.order ≡ arriving_of request index
    pub filled_by : order.filled_quantity ≡ own_fill.quantity
    pub traded_rows : Pending
    pub first_version : traded_rows.book.state_version ≡ book.state_version + 1
    pub rows : Pending
    pub own_movement :
        plan.movement ≡ movement_on_arrival world request own_fill order traded_rows rows
    pub own_seq : order.seq ≡ row.seq_after rows.orders
    pub own_version : order.book_state_version ≡ book.state_version + suc (length plan.fills)
    pub filled_rows : Filled (suc (length plan.fills)) (pending_of s book) rows
    pub with_order : plan.pending ≡ record rows { orders = rows.orders ++ (order ∷ []) }

  abbrev pub IsPlannedOrder : Book → Planned → Type 0
  IsPlannedOrder book (resting order position) = Rests book order
  IsPlannedOrder book (filling order position plan) = Fills book order plan

  plan_rest-Rests :
      (book : Book) (position : ℤ) (order : Order) {planned : Planned}
      → IsNew e world row request s order none
      → plan_rest e world row request s (pending_of s book) position order ≡ ok planned
      → IsPlannedOrder book planned
  unfolding plan_rest pending_of inserted
  plan_rest-Rests book position order new h =
      let (u, fits, h₁) = >>=-eq-ok (check_budget s _ _ order.budget) _ h in
      subst (IsPlannedOrder book) (ok_injective h₁) (record {
        own_seq = refl;
        own_version = refl;
        unfilled = new.own_quantity;
        fits =
            λ buying. rests_within e world row request s order new fits buying book.state_version;
      })

  module _ (now : ℕ) (key : Text) (book : Book) (own_market : book.market_id ≡ request.market_id)
      (own_seqs : HasOwnSeqs s.orders) where
    plan_fill-Fills :
        (index : ℕ) (fill : PlannedFill) (order : Order) (position : ℤ) {planned : Planned}
        → index_of request.outcome_id (outcome_ids_of (pending_of s book).book.outcomes)
          ≡ some index
        → executable_fill_of e
            (q_of (pending_of s book).book.outcomes)
            (b_of (pending_of s book).book)
            (arriving_of request index)
          ≡ ok (some fill)
        → order.filled_quantity ≡ fill.quantity
        → plan_fill e world row now request index
            (find_position
              (pending_of s book).positions
              request.user_id
              request.market_id
              request.outcome_id)
            fill
            order
            position
            (pending_of s book)
          ≡ ok planned
        → IsPlannedOrder book planned
    unfolding plan_fill trade_on_arrival arriving_of pending_of inserted
    plan_fill-Fills index fill order position place priced filled_by h =
        let read = pending_of s book in
        let trade = trade_on_arrival request fill in
        let (rows, traded, h₁) = >>=-eq-ok (write_trade read index _ trade now) _ h in
        let (cascade, filled, h₂) = >>=-eq-ok (write_cascade e world now rows) _ h₁ in
        let (made, arrived) =
          executable_fill_of-IsFill e (q_of read.book.outcomes) (b_of read.book)
            (arriving_of request index) priced in
        let wrote =
          write_trade-Wrote e (b_of read.book) read index trade now
            (record {
              own_market = sym own_market;
              own_place = place;
              own_price =
                  subst
                    (λ (o : RestingOrder).
                      trade_cost_of e (q_of read.book.outcomes) (b_of read.book) o.outcome_index
                        o.side fill.quantity
                      ≡ ok fill.cost)
                    arrived made.priced;
            })
            traded in
        let first : Filled 1 read rows = record {
          follows = wrote.follows;
          own_seqs = λ seqs. rw wrote.same_orders seqs;
        } in
        let later = write_cascade-Filled e world now rows (rw wrote.same_orders own_seqs) filled in
        let all_filled = Filled-then first later in
        subst (IsPlannedOrder book) (ok_injective h₂) (record {
          own_fill = fill;
          is_fill = made;
          index = index;
          own_place = place;
          arrived = arrived;
          filled_by = filled_by;
          traded_rows = rows;
          first_version = wrote.follows.version;
          rows = cascade.1;
          own_movement = refl;
          own_seq = refl;
          own_version = all_filled.follows.version;
          filled_rows = all_filled;
          with_order = refl;
        })

    pub plan_order-IsPlannedOrder :
        (index : ℕ) (position : ℤ) (fill : Option PlannedFill) {planned : Planned}
        → index_of request.outcome_id (outcome_ids_of (pending_of s book).book.outcomes)
          ≡ some index
        → executable_fill_of e
            (q_of (pending_of s book).book.outcomes)
            (b_of (pending_of s book).book)
            (arriving_of request index)
          ≡ ok fill
        → plan_order e world row now request key s (pending_of s book) index position fill
          ≡ ok planned
        → IsPlannedOrder book planned
    unfolding plan_order
    plan_order-IsPlannedOrder index position none place priced h =
        let (order, made, h₁) = >>=-eq-ok (new_order e row request key none) _ h in
        plan_rest-Rests book position order (new_order-IsNew e world row request s key none made) h₁
    plan_order-IsPlannedOrder index position (some fill) place priced h =
        let (order, made, h₁) = >>=-eq-ok (new_order e row request key (some fill)) _ h in
        plan_fill-Fills index fill order position place priced
          (new_order-IsNew e world row request s key (some fill) made).own_quantity h₁

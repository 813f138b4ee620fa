-- ===== src/Ledger/Placing/Commits.antt =====
-- backend/ledger_service/service/orders.py: what the commit of a placed order leaves, and what it answers.
use cs.Base.{
  ℕ, ◌+◌, ◌≡◌, refl, true, some, List, [], ◌∷◌, ◌++◌, length, ok, sym, ◌∙◌, ap, ok_injective, map,
  eq→==, subst, >>=-eq-ok,
}
use cs.Base.Int.{ℤ, ◌≤ℤ◌}
use cs.Ledger.Lmsr.{Engine}
use cs.Ledger.Pricing.{buy}
use cs.Ledger.Orders.{PlannedFill}
use cs.Ledger.Orders.Pass.{IsFill}
use cs.Ledger.Rows.{Book, Order, Tables, Transaction, user}
use cs.Ledger.Reservations.{balance_of, reserved_of}
use cs.Ledger.Accounts.{World}
use cs.Ledger.Books.{find_book}
use cs.Ledger.Posting.Moves.{post_all-others}
use cs.Ledger.Cancellation.{order_view_of}
use cs.Ledger.BookPrices.{index_of, outcome_ids_of, q_of, b_of}
use cs.Ledger.Trading.{flushed}
use cs.Ledger.Trading.Filling.{trade_movement_of}
use cs.Ledger.Trading.Planning.{PlannedTrade, pending_of}
use cs.Ledger.Trading.Frames.{
  PriceEvent, movements_of_fills, first_of, order_events_of, price_event_of,
}
use cs.Ledger.Trading.Execute.{Environment}
use cs.Ledger.Trading.Planned.{find_book-market}
use cs.Ledger.Trading.Backed.{find_book-write, refused_as-ok}
use cs.Ledger.Trading.Answers.{post_all-IsFirstRow, order_events_of-length, price_event_of-version}
use cs.Ledger.Placing.{PlaceRequest, NewRow, Fill}
use cs.Ledger.Placing.Stored.{fill_of, fill_from}
use cs.Ledger.Placing.Planning.{
  arriving_of, resting, filling, movement_on_arrival, trade_on_arrival,
}
use cs.Ledger.Placing.Committing.{
  Placed, placed_before, placement_of, placed_of, commit_planned, fill_refusal_of,
}
use cs.Ledger.Placing.Planned.{Rests, Fills}

-- What a fill states: its shares, its total and its number
abbrev pub figures_of : List Fill → List (ℕ × ℤ × ℕ)
figures_of fills = map (λ f. (f.quantity, f.total, f.state_version)) fills

module _ (engine : Engine) (world : World) (request : PlaceRequest) where
  -- The order rests: its row is all that is written, nothing is published, and what the placer's live buys
  -- reserve is within their balance when it is a buy.
  pub record IsResting (locked : Tables) (book : Book) (x : Placed) (after : Tables) : Type 0 where
    pub no_fills : x.placement.fills ≡ []
    pub unfilled : x.placement.view.order.filled_quantity ≡ 0
    pub same_version : x.placement.book_state_version ≡ book.state_version
    pub order_only :
        after ≡ record locked { orders = locked.orders ++ (x.placement.view.order ∷ []) }
    pub within :
        request.side ≡ buy
        → reserved_of after.results after.orders request.user_id
          ≤ℤ balance_of after.entries (world.id_of user request.user_id)
    pub no_price_frame : x.price_frames ≡ []
    pub no_order_frame : x.order_frames ≡ []

  -- The order filled on arrival: the fill is priced at the book that was locked and within the limit, it is the
  -- counter's next number and each fill that follows one more, and the one price frame is at the last.
  pub record IsFilledNow (locked : Tables) (book : Book) (x : Placed) (after : Tables)
      : Type 0 where
    pub own_fill : PlannedFill
    pub is_fill :
        IsFill engine
          (q_of (pending_of locked book).book.outcomes)
          (b_of (pending_of locked book).book)
          own_fill
    pub index : ℕ
    pub own_place :
        index_of request.outcome_id (outcome_ids_of (pending_of locked book).book.outcomes)
        ≡ some index
    pub arrived : own_fill.order ≡ arriving_of request index
    pub filled_by : x.placement.view.order.filled_quantity ≡ own_fill.quantity
    pub own_figures :
        figures_of x.placement.fills
        ≡ (own_fill.quantity, own_fill.cost.total, book.state_version + 1) ∷ []
    pub last_version : x.placement.book_state_version ≡ book.state_version + length x.order_frames
    pub book_after : Book
    pub found_after : find_book after.books request.market_id ≡ some book_after
    pub counter_after : book_after.state_version ≡ x.placement.book_state_version
    pub others_after : List Order
    pub order_after : after.orders ≡ others_after ++ (x.placement.view.order ∷ [])
    pub one_price_frame :
        map (λ (f : PriceEvent). f.state_version) x.price_frames
        ≡ x.placement.book_state_version ∷ []

module _ (engine : Engine) (world : World) (env : Environment) (row : NewRow)
    (request : PlaceRequest) (locked : Tables) (book : Book) (x : Placed)
    (transactions : List Transaction) (after : Tables) where
  pub rested :
      (order : Order) (position : ℤ)
      → Rests engine world row request locked book order
      → commit_planned world env.new_ids env.now
          (world.id_of user request.user_id)
          (resting order position)
          locked
        ≡ ok (transactions, after)
      → placed_of engine env.now (resting order position) transactions ≡ ok x
      → IsResting engine world request locked book x after
  unfolding commit_planned placed_of placement_of order_view_of
  rested order position rests committed answered =
      let there = ap (λ p. p.1) (ok_injective committed) in
      subst (λ y. IsResting engine world request locked book y after) (ok_injective answered)
        (subst
          (λ t.
            IsResting engine world request locked book
              (placed_before (placement_of engine order position [])) t)
          there
          (record {
            no_fills = refl;
            unfilled = rests.unfilled;
            same_version = rests.own_version;
            order_only = refl;
            within = rests.fits;
            no_price_frame = refl;
            no_order_frame = refl;
          }))

  -- The first transaction of the batch is the order's own fill.
  own_figures_of :
      (order : Order) (plan : PlannedTrade) (fill : Fill) (first : Transaction)
      (fills : Fills engine world row request locked book order plan)
      → first.context ≡ plan.movement.context
      → fill_of first ≡ ok fill
      → figures_of (fill ∷ [])
        ≡ (fills.own_fill.quantity, fills.own_fill.cost.total, book.state_version + 1) ∷ []
  unfolding fill_of fill_from movement_on_arrival trade_on_arrival trade_movement_of
  own_figures_of order plan fill first fills own read =
      let context = own ∙ ap (λ m. m.context) fills.own_movement in
      let same = ok_injective (sym (ap (fill_from first.id) context) ∙ read) in
      rw (sym same, fills.first_version) refl

  pub filled_now :
      (order : Order) (position : ℤ) (plan : PlannedTrade)
      → find_book locked.books request.market_id ≡ some book
      → Fills engine world row request locked book order plan
      → commit_planned world env.new_ids env.now
          (world.id_of user request.user_id)
          (filling order position plan)
          locked
        ≡ ok (transactions, after)
      → placed_of engine env.now (filling order position plan) transactions ≡ ok x
      → IsFilledNow engine world request locked book x after
  unfolding commit_planned placed_of placement_of order_view_of flushed pending_of
  filled_now order position plan found fills committed answered =
      let batch = plan.movement ∷ movements_of_fills plan.fills in
      let posted =
        refused_as-ok (fill_refusal_of (world.id_of user request.user_id) order.budget) _
          committed in
      let others =
        post_all-others world.hashing world.account env.new_ids true env.now batch
          (flushed locked plan.pending) posted in
      let own =
        post_all-IsFirstRow world.hashing world.account env.new_ids env.now plan.movement
          (movements_of_fills plan.fills) (flushed locked plan.pending) posted in
      let (frame, priced, h₁) =
        >>=-eq-ok (price_event_of engine env.now plan.pending order.book_state_version) _
          answered in
      let all_fills = record { order = order; movement = plan.movement } ∷ plan.fills in
      let (frames, made, h₂) = >>=-eq-ok (order_events_of env.now all_fills transactions) _ h₁ in
      let (first, is_first, h₃) = >>=-eq-ok (first_of transactions) _ h₂ in
      let (fill, read, h₄) = >>=-eq-ok (fill_of first) _ h₃ in
      let same_row : own.row ≡ first = ok_injective (sym own.is_first ∙ is_first) in
      let pending_book = ap (λ p. p.book) fills.with_order in
      let counted = fills.filled_rows.follows.version in
      let whole : plan.pending.book.market_id ≡ request.market_id =
        ap (λ b. b.market_id) pending_book
        ∙ (fills.filled_rows.follows.market
            ∙ find_book-market locked.books request.market_id found) in
      subst (λ y. IsFilledNow engine world request locked book y after) (ok_injective h₄)
        (record {
          own_fill = fills.own_fill;
          is_fill = fills.is_fill;
          index = fills.index;
          own_place = fills.own_place;
          arrived = fills.arrived;
          filled_by = fills.filled_by;
          own_figures =
              own_figures_of order plan fill first fills
                (ap (λ t. t.context) (sym same_row) ∙ own.own_context) read;
          last_version =
              fills.own_version
              ∙ ap (λ n. book.state_version + n)
                  (sym (order_events_of-length env.now all_fills transactions made));
          book_after = plan.pending.book;
          found_after =
              ap (λ b. find_book b request.market_id) others.1
              ∙ (find_book-write plan.pending.book locked.books request.market_id {old = book}
                    (ap (find_book locked.books) whole ∙ found)
                  ∙ rw (eq→== _ _ whole) refl);
          counter_after =
              ap (λ b. b.state_version) pending_book ∙ (counted ∙ sym fills.own_version);
          others_after = fills.rows.orders;
          order_after = others.2 ∙ ap (λ p. p.orders) fills.with_order;
          one_price_frame =
              ap (λ v. v ∷ []) (price_event_of-version engine env.now plan.pending _ priced);
        })

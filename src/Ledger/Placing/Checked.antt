-- ===== src/Ledger/Placing/Checked.antt =====
-- backend/ledger_service/service/orders.py: what `place` has checked under the lock when it has a plan.
use cs.Base.{
  All, ℕ, ◌≡◌, true, not, none, some, length, ok, >>=-eq-ok, is_some, raise_if, raise_if-ok, ==→eq,
  ◌==◌, List,
}
use cs.Base.Int.{pos, pos_part, ◌-ℤ◌, ◌≤ℤ◌}
use cs.Base.Text.{Text}
use cs.Ledger.Lmsr.{Engine}
use cs.Ledger.Pricing.{sell}
use cs.Ledger.Orders.Crossing.{IsUncrossed, refuse_if_crosses_book-IsUncrossed}
use cs.Ledger.Orders.{
  is_up_pusher, threshold_of, RestingOrder, binary_outcomes, refuse_if_crosses_book,
  executable_fill_of,
}
use cs.Ledger.Rows.{Book, Tables, market_closed, market_not_binary}
use cs.Ledger.Reservations.{reserved_shares_of}
use cs.Ledger.Accounts.{World}
use cs.Ledger.Books.{find_book, find_result}
use cs.Ledger.BookPrices.{
  priced_by, q_of, b_of, refuse_unpriceable_book, index_in, index_of, outcome_ids_of,
}
use cs.Ledger.Trading.{find_position}
use cs.Ledger.Trading.Filling.{list_open_orders, resting_orders_of}
use cs.Ledger.Trading.Planning.{lock_book, held_in, check_holding, pending_of}
use cs.Ledger.Trading.Held.{priced_by-ok}
use cs.Ledger.Trading.Fills.{HasOwnSeqs}
use cs.Ledger.Trading.Planned.{
  lock_book-found, index_in-found, check_holding-covered, find_book-market, none_of, true_of_not,
}
use cs.Ledger.Placing.{PlaceRequest, NewRow}
use cs.Ledger.Placing.Planning.{
  Planned, arriving_of, row_at, plan_placed_at, plan_placed_on, plan_placement,
}
use cs.Ledger.Placing.Planned.{IsPlannedOrder, plan_order-IsPlannedOrder}

module _ (e : Engine) (world : World) (row : NewRow) (now : ℕ) (request : PlaceRequest) (key : Text)
    (s : Tables) where
  -- The steps from the crossing check on, on a book of two outcomes
  pub record IsCheckedAt (book : Book) (planned : Planned) : Type 0 where
    pub open_orders : List RestingOrder
    pub read_orders :
        resting_orders_of
          (list_open_orders s.orders request.market_id)
          (outcome_ids_of (pending_of s book).book.outcomes)
        ≡ ok open_orders
    pub index : ℕ
    pub place_of_outcome :
        index_of request.outcome_id (outcome_ids_of (pending_of s book).book.outcomes) ≡ some index
    pub uncrossed :
        All
          (IsUncrossed
            (is_up_pusher index request.side)
            (threshold_of index (pos (pos_part request.limit_price))))
          open_orders
    pub covered :
        request.side ≡ sell
        → pos (pos_part request.quantity)
          ≤ℤ pos (
              held_in
                (find_position s.positions request.user_id request.market_id request.outcome_id))
            -ℤ reserved_shares_of s.results s.orders request.user_id request.market_id
                request.outcome_id
    pub as_planned : IsPlannedOrder e world row request s book planned

  plan_placed_at-IsCheckedAt :
      (book : Book) (index : ℕ) {planned : Planned}
      → book.market_id ≡ request.market_id
      → HasOwnSeqs s.orders
      → index_of request.outcome_id (outcome_ids_of (pending_of s book).book.outcomes) ≡ some index
      → plan_placed_at e world row now request key s (pending_of s book) index ≡ ok planned
      → IsCheckedAt book planned
  unfolding plan_placed_at
  plan_placed_at-IsCheckedAt book index market own_seqs place h =
      let read = pending_of s book in
      let (own_row, there, h₁) = >>=-eq-ok (row_at read.book.outcomes index) _ h in
      let (open_orders, orders, h₂) =
        >>=-eq-ok
          (resting_orders_of (list_open_orders s.orders request.market_id)
            (outcome_ids_of read.book.outcomes))
          _ h₁ in
      let (u, crossing, h₃) =
        >>=-eq-ok
          (priced_by
            (refuse_if_crosses_book open_orders index request.side (pos_part request.limit_price)))
          _ h₂ in
      let (v, held, h₄) = >>=-eq-ok (check_holding request.side s _ _ _ _ _) _ h₃ in
      let (fill, priced, h₅) =
        >>=-eq-ok
          (priced_by (
            executable_fill_of e (q_of read.book.outcomes) (b_of read.book)
              (arriving_of request index)))
          _ h₄ in
      record {
        open_orders = open_orders;
        read_orders = orders;
        index = index;
        place_of_outcome = place;
        uncrossed =
            (refuse_if_crosses_book-IsUncrossed open_orders index request.side
                (pos_part request.limit_price)).0
              (priced_by-ok _ crossing);
        covered = check_holding-covered request.side s _ _ _ _ _ held;
        as_planned =
            plan_order-IsPlannedOrder e world row request s now key book market own_seqs index
              own_row.position fill place (priced_by-ok _ priced) h₅;
      }

  -- All the checks under the lock, with the book that was locked
  pub record IsChecked (planned : Planned) : Type 0 where
    pub book : Book
    pub found : find_book s.books request.market_id ≡ some book
    pub unresolved : find_result s.results request.market_id ≡ none
    pub binary : length (pending_of s book).book.outcomes ≡ binary_outcomes
    pub rest : IsCheckedAt book planned

  plan_placed_on-IsChecked :
      (book : Book) {planned : Planned}
      → HasOwnSeqs s.orders
      → find_book s.books request.market_id ≡ some book
      → plan_placed_on e world row now request key s book ≡ ok planned
      → IsChecked planned
  unfolding plan_placed_on
  plan_placed_on-IsChecked book own_seqs found h =
      let rows = (pending_of s book).book.outcomes in
      let (u, unresolved, h₂) =
        >>=-eq-ok (raise_if (is_some (find_result s.results request.market_id)) market_closed) _
          h in
      let (v, priceable, h₃) =
        >>=-eq-ok (refuse_unpriceable_book (length rows) book.liquidity_b) _ h₂ in
      let (w, binary, h₄) =
        >>=-eq-ok (raise_if (not (length rows == binary_outcomes)) market_not_binary) _ h₃ in
      let (index, place, h₅) = >>=-eq-ok (index_in request.outcome_id rows) _ h₄ in
      let two : (length rows == binary_outcomes) ≡ true =
        true_of_not _ (raise_if-ok (not (length rows == binary_outcomes)) _ binary) in
      record {
        book = book;
        found = found;
        unresolved =
            none_of _
              (raise_if-ok (is_some (find_result s.results request.market_id)) _ unresolved);
        binary = ==→eq _ _ two;
        rest =
            plan_placed_at-IsCheckedAt book index (find_book-market s.books request.market_id found)
              own_seqs (index_in-found request.outcome_id rows place) h₅;
      }

  pub plan_placement-IsChecked :
      {planned : Planned}
      → HasOwnSeqs s.orders
      → plan_placement e world row now request key s ≡ ok planned
      → IsChecked planned
  unfolding plan_placement
  plan_placement-IsChecked own_seqs h =
      let (book, locked, h₁) = >>=-eq-ok (lock_book s request.market_id) _ h in
      plan_placed_on-IsChecked book own_seqs (lock_book-found s request.market_id locked) h₁

-- ===== src/Ledger/Trading/Planned.antt =====
-- backend/ledger_service/service/trading.py: what a trade's plan under the lock has checked, and the rows that it leaves.
use cs.Base.{
  ℕ, suc, ◌+◌, ◌≡◌, refl, Bool, true, false, not, Option, none, some, List, [], ◌∷◌, some_injective,
  length, sym, ◌∙◌, ap, arith, ok, >>=-eq-ok, ok_injective, subst, is_some, raise_if, raise_if-ok,
  Option-cases, Bool-cases, inl, inr, ==→eq, ◌==◌,
}
use cs.Base.Int.{ℤ, pos, pos_part, ◌-ℤ◌, ◌≤ℤ◌}
use cs.Ledger.Lmsr.{Engine}
use cs.Ledger.Pricing.{Side, buy, sell, trade_cost_of, TradeCost}
use cs.Ledger.Rows.{OutcomeRow, Book, Position, Tables, market_closed, quote_stale}
use cs.Ledger.Reservations.{reserved_shares_of}
use cs.Ledger.Accounts.{World}
use cs.Ledger.Books.{find_book, find_result}
use cs.Ledger.BookPrices.{
  priced_by, q_of, b_of, refuse_unpriceable_book, index_in, index_of, outcome_ids_of,
}
use cs.Ledger.Trading.{TradeRequest, Pending, find_position, write_trade}
use cs.Ledger.Trading.Filling.{write_cascade}
use cs.Ledger.Trading.Planning.{
  PlannedTrade, lock_book, held_in, refuse_if_short_of_shares, check_holding, pending_of,
  movement_of_trade, trade_of, write_trade_and_cascade, plan_at, plan_on, plan_trade,
}
use cs.Ledger.Trading.Held.{priced_by-ok}
use cs.Ledger.Trading.Follows.{write_trade-Wrote}
use cs.Ledger.Trading.Fills.{HasOwnSeqs}
use cs.Ledger.Trading.Cascading.{Filled, Filled-then, write_cascade-Filled}

-- What the trader holds of the outcome, and what their live sell orders reserve of it
abbrev pub held_by : TradeRequest → Tables → ℤ
held_by r s = pos (held_in (find_position s.positions r.user_id r.market_id r.outcome_id))

abbrev pub reserved_by : TradeRequest → Tables → ℤ
reserved_by r s = reserved_shares_of s.results s.orders r.user_id r.market_id r.outcome_id

pub record IsPlanned (engine : Engine) (world : World) (request : TradeRequest) (s : Tables)
    (plan : PlannedTrade) : Type 0 where
  pub book : Book
  pub found : find_book s.books request.market_id ≡ some book
  pub unresolved : find_result s.results request.market_id ≡ none
  pub current : request.state_version ≡ book.state_version
  pub covered :
      request.side ≡ sell
      → pos (pos_part request.quantity) ≤ℤ held_by request s -ℤ reserved_by request s
  pub cost : TradeCost
  pub index : ℕ
  pub own_place :
      index_of request.outcome_id (outcome_ids_of (pending_of s book).book.outcomes) ≡ some index
  pub priced :
      trade_cost_of engine
        (q_of (pending_of s book).book.outcomes)
        (b_of (pending_of s book).book)
        index
        request.side
        (pos_part request.quantity)
      ≡ ok cost
  pub traded_rows : Pending
  pub first_version : traded_rows.book.state_version ≡ book.state_version + 1
  pub filled : Filled (suc (length plan.fills)) (pending_of s book) plan.pending
  pub own_movement :
      plan.movement
      ≡ movement_of_trade world request
          (trade_of request (pos_part request.quantity) cost)
          traded_rows
          plan.pending

pub lock_book-found :
    (s : Tables) (m : ℕ) {book : Book} → lock_book s m ≡ ok book → find_book s.books m ≡ some book
unfolding lock_book
lock_book-found s m h = elim (Option-cases (find_book s.books m)) [
  | inl e ↦ absurd (let refused = rw (e, lock_book) at h in cc)
  | inr (b, e) ↦ e ∙ ap some (ok_injective (rw (e, lock_book) at h))
]

pub index_in-found :
    (id : ℕ) (rows : List OutcomeRow) {i : ℕ}
    → index_in id rows ≡ ok i
    → index_of id (outcome_ids_of rows) ≡ some i
unfolding index_in
index_in-found id rows h = elim (Option-cases (index_of id (outcome_ids_of rows))) [
  | inl e ↦ absurd (let refused = rw (e, index_in) at h in cc)
  | inr (b, e) ↦ e ∙ ap some (ok_injective (rw (e, index_in) at h))
]

pub check_holding-covered :
    (side : Side) (s : Tables) (position : Option Position) (u m o n : ℕ)
    → check_holding side s position u m o n ≡ ok tt
    → side ≡ sell
    → pos n ≤ℤ pos (held_in position) -ℤ reserved_shares_of s.results s.orders u m o
unfolding check_holding refuse_if_short_of_shares
check_holding-covered buy s position u m o n h e = absurd cc
check_holding-covered sell s position u m o n h e = let fits = raise_if-ok _ _ h in ground arith

pub none_of : {A : Type 0} (o : Option A) → is_some o ≡ false → o ≡ none
none_of none h = refl
none_of (some a) h = absurd cc

pub true_of_not : (b : Bool) → not b ≡ false → b ≡ true
true_of_not true h = refl
true_of_not false h = cc

module _ (e : Engine) (world : World) (now : ℕ) (request : TradeRequest) (s : Tables) where
  -- What the steps from the outcome to the cascade leave
  record IsPlannedAt (read : Pending) (index : ℕ) (plan : PlannedTrade) : Type 0 where
    covered :
        request.side ≡ sell
        → pos (pos_part request.quantity) ≤ℤ held_by request s -ℤ reserved_by request s
    cost : TradeCost
    priced :
        trade_cost_of e
          (q_of read.book.outcomes)
          (b_of read.book)
          index
          request.side
          (pos_part request.quantity)
        ≡ ok cost
    traded_rows : Pending
    first_version : traded_rows.book.state_version ≡ read.book.state_version + 1
    filled : Filled (suc (length plan.fills)) read plan.pending
    own_movement :
        plan.movement
        ≡ movement_of_trade world request
            (trade_of request (pos_part request.quantity) cost)
            traded_rows
            plan.pending

  plan_at-IsPlanned :
      (read : Pending) (index : ℕ) {plan : PlannedTrade}
      → read.positions ≡ s.positions
      → HasOwnSeqs read.orders
      → read.book.market_id ≡ request.market_id
      → index_of request.outcome_id (outcome_ids_of read.book.outcomes) ≡ some index
      → plan_at e world now request s read index (pos_part request.quantity) ≡ ok plan
      → IsPlannedAt read index plan
  unfolding plan_at write_trade_and_cascade trade_of
  plan_at-IsPlanned read index same_positions own_seqs own_market place h =
      let quantity = pos_part request.quantity in
      let (u, held, h₁) = >>=-eq-ok (check_holding request.side s _ _ _ _ quantity) _ h in
      let (cost, priced, h₂) =
        >>=-eq-ok
          (priced_by (
            trade_cost_of e (q_of read.book.outcomes) (b_of read.book) index request.side quantity))
          _ h₁ in
      let trade = trade_of request quantity cost in
      let (rows, traded, h₃) = >>=-eq-ok (write_trade read index _ trade now) _ h₂ in
      let (cascade, filled, h₄) = >>=-eq-ok (write_cascade e world now rows) _ h₃ in
      let wrote =
        write_trade-Wrote e (b_of read.book) read index trade now
          (record {
            own_market = sym own_market;
            own_place = place;
            own_price = priced_by-ok _ priced;
          })
          (subst
            (λ ps.
              write_trade read index
                (find_position ps request.user_id request.market_id request.outcome_id) trade now
              ≡ ok rows)
            (sym same_positions) traded) in
      let first : Filled 1 read rows = record {
        follows = wrote.follows;
        own_seqs = λ seqs. rw wrote.same_orders seqs;
      } in
      let later = write_cascade-Filled e world now rows (rw wrote.same_orders own_seqs) filled in
      subst (IsPlannedAt read index) (ok_injective h₄) (record {
        covered = check_holding-covered request.side s _ _ _ _ quantity held;
        cost = cost;
        priced = priced_by-ok _ priced;
        traded_rows = rows;
        first_version = wrote.follows.version;
        filled = Filled-then first later;
        own_movement = refl;
      })

pub find_book-market :
    (books : List Book) (m : ℕ) {book : Book} → find_book books m ≡ some book → book.market_id ≡ m
unfolding find_book
find_book-market [] m h = absurd cc
find_book-market (b ∷ rest) m h = elim (Bool-cases (b.market_id == m)) [
  | inl e ↦
      ap (λ (x : Book). x.market_id) (sym (some_injective (rw e at h))) ∙ ==→eq b.market_id m e
  | inr e ↦ find_book-market rest m (rw e at h)
]

plan_on-IsPlanned :
    (e : Engine) (world : World) (now : ℕ) (request : TradeRequest) (s : Tables) (book : Book)
    {plan : PlannedTrade}
    → HasOwnSeqs s.orders
    → find_book s.books request.market_id ≡ some book
    → plan_on e world now request s book ≡ ok plan
    → IsPlanned e world request s plan
unfolding plan_on pending_of
plan_on-IsPlanned e world now request s book own_seqs found h =
    let rows = (pending_of s book).book.outcomes in
    let (u, unresolved, h₂) =
      >>=-eq-ok (raise_if (is_some (find_result s.results request.market_id)) market_closed) _ h in
    let (v, priceable, h₃) =
      >>=-eq-ok (refuse_unpriceable_book (length rows) book.liquidity_b) _ h₂ in
    let (w, current, h₄) =
      >>=-eq-ok
        (raise_if (not (request.state_version == book.state_version))
          (quote_stale request.state_version book.state_version))
        _ h₃ in
    let (index, place, h₅) = >>=-eq-ok (index_in request.outcome_id rows) _ h₄ in
    let version : (request.state_version == book.state_version) ≡ true =
      true_of_not _ (raise_if-ok (not (request.state_version == book.state_version)) _ current) in
    let planned =
      plan_at-IsPlanned e world now request s (pending_of s book) index refl own_seqs
        (find_book-market s.books request.market_id found)
        (index_in-found request.outcome_id rows place) h₅ in
    record {
      book = book;
      found = found;
      unresolved =
          none_of _ (raise_if-ok (is_some (find_result s.results request.market_id)) _ unresolved);
      current = ==→eq _ _ version;
      covered = planned.covered;
      cost = planned.cost;
      index = index;
      own_place = index_in-found request.outcome_id rows place;
      priced = planned.priced;
      traded_rows = planned.traded_rows;
      first_version = planned.first_version;
      filled = planned.filled;
      own_movement = planned.own_movement;
    }

-- What `execute` has checked under the lock when it commits, and the rows that it commits
pub plan_trade-IsPlanned :
    (e : Engine) (world : World) (now : ℕ) (request : TradeRequest) (s : Tables)
    {plan : PlannedTrade}
    → HasOwnSeqs s.orders
    → plan_trade e world now request s ≡ ok plan
    → IsPlanned e world request s plan
unfolding plan_trade
plan_trade-IsPlanned e world now request s own_seqs h =
    let (book, locked, h₁) = >>=-eq-ok (lock_book s request.market_id) _ h in
    plan_on-IsPlanned e world now request s book own_seqs
      (lock_book-found s request.market_id locked) h₁

-- ===== src/Ledger/Trading/Quoted.antt =====
-- backend/ledger_service/service/preview.py beside service/trading.py: a trade costs what was quoted for it.
use cs.Base.{
  ℕ, ◌≡◌, some, List, [], ◌∷◌, length, sym, ◌∙◌, ap, ok, >>=-eq-ok, ok_injective, some_injective,
  subst,
}
use cs.Base.Int.{ℤ, neg, pos_part}
use cs.Base.Decimal.{Decimal, of_ticks}
use cs.Ledger.Lmsr.{Engine}
use cs.Ledger.Pricing.{Side, TradeCost, trade_cost_of, per_share}
use cs.Ledger.Rows.{Book, Tables, user}
use cs.Ledger.Accounts.{World}
use cs.Ledger.Books.{find_book}
use cs.Ledger.BookPrices.{
  Quote, quote, in_position_order, refuse_unpriceable_book, index_in, index_of, outcome_ids_of,
  priced_by, prices_at, q_of, b_of,
}
use cs.Ledger.Posting.Legs.{Leg}
use cs.Ledger.Trading.{TradeRequest}
use cs.Ledger.Trading.Filling.{trade_movement_of}
use cs.Ledger.Trading.Planning.{PlannedTrade, plan_trade, pending_of, movement_of_trade, trade_of}
use cs.Ledger.Trading.Held.{priced_by-ok}
use cs.Ledger.Trading.Fills.{HasOwnSeqs}
use cs.Ledger.Trading.Planned.{index_in-found, plan_trade-IsPlanned}

-- What a quote is computed from
record IsQuoted (e : Engine) (book : Book) (outcome_id : ℕ) (side : Side) (quantity : ℕ) (q : Quote)
    : Type 0 where
  index : ℕ
  own_place : index_of outcome_id (outcome_ids_of (in_position_order book.outcomes)) ≡ some index
  cost : TradeCost
  priced :
      trade_cost_of e (q_of (in_position_order book.outcomes)) (b_of book) index side quantity
      ≡ ok cost
  own_total : q.total ≡ cost.total
  own_version : q.state_version ≡ book.state_version

quote-IsQuoted :
    (e : Engine) (book : Book) (outcome_id : ℕ) (side : Side) (quantity : ℕ) {q : Quote}
    → quote e book outcome_id side quantity ≡ ok q
    → IsQuoted e book outcome_id side quantity q
unfolding quote
quote-IsQuoted e book outcome_id side quantity h =
    let rows = in_position_order book.outcomes in
    let (u, priceable, h₁) =
      >>=-eq-ok (refuse_unpriceable_book (length rows) book.liquidity_b) _ h in
    let (index, place, h₂) = >>=-eq-ok (index_in outcome_id rows) _ h₁ in
    let (cost, priced, h₃) =
      >>=-eq-ok (priced_by (trade_cost_of e (q_of rows) (b_of book) index side quantity)) _ h₂ in
    let (average, averaged, h₄) =
      >>=-eq-ok (priced_by (per_share e cost.magnitude quantity)) _ h₃ in
    let (before, shown, h₅) = >>=-eq-ok (prices_at e rows (q_of rows) (b_of book)) _ h₄ in
    let (after, shown_after, h₆) = >>=-eq-ok (prices_at e rows cost.after_q (b_of book)) _ h₅ in
    record {
      index = index;
      own_place = index_in-found outcome_id rows place;
      cost = cost;
      priced = priced_by-ok _ priced;
      own_total = ap (λ (x : Quote). x.total) (sym (ok_injective h₆));
      own_version = ap (λ (x : Quote). x.state_version) (sym (ok_injective h₆));
    }

-- The two legs of a trade of a total
abbrev pub legs_at : World → TradeRequest → ℕ → ℤ → List (Leg Decimal)
legs_at world request pool_account total =
    record { account_id = world.id_of user request.user_id; amount = of_ticks total }
    ∷ record { account_id = pool_account; amount = of_ticks (neg total) }
    ∷ []

-- A trade that `execute` plans under the lock moves exactly the total that `quote` gives for it on the same book,
-- between the trader's account and the book's pool, and the quote was at the counter that the request
-- names. It holds where the orders' numbers are unique.
pub quote-charged :
    (e : Engine) (world : World) (now : ℕ) (request : TradeRequest) (s : Tables) (book : Book)
    (plan : PlannedTrade) (q : Quote)
    → HasOwnSeqs s.orders
    → find_book s.books request.market_id ≡ some book
    → quote e book request.outcome_id request.side (pos_part request.quantity) ≡ ok q
    → plan_trade e world now request s ≡ ok plan
    → (plan.movement.legs ≡ legs_at world request book.pool_account_id q.total)
      × (q.state_version ≡ request.state_version)
unfolding pending_of movement_of_trade trade_movement_of trade_of
quote-charged e world now request s book plan q own_seqs found quoted_h planned_h =
    let planned = plan_trade-IsPlanned e world now request s own_seqs planned_h in
    let same_book : planned.book ≡ book = some_injective (sym planned.found ∙ found) in
    let on_book =
      quote-IsQuoted e book request.outcome_id request.side (pos_part request.quantity) quoted_h in
    let quoted =
      subst (λ b. IsQuoted e b request.outcome_id request.side (pos_part request.quantity) q)
        (sym same_book) on_book in
    let same_index : planned.index ≡ quoted.index =
      some_injective (sym planned.own_place ∙ quoted.own_place) in
    let rows = in_position_order planned.book.outcomes in
    let at_index = λ (i : ℕ).
      trade_cost_of e (q_of rows) (b_of planned.book) i request.side (pos_part request.quantity) in
    let same_cost : planned.cost ≡ quoted.cost =
      ok_injective (sym planned.priced ∙ (ap at_index same_index ∙ quoted.priced)) in
    let total : planned.cost.total ≡ q.total =
      ap (λ (c : TradeCost). c.total) same_cost ∙ sym quoted.own_total in
    let pool : plan.pending.book.pool_account_id ≡ book.pool_account_id =
      planned.filled.follows.pool ∙ ap (λ b. b.pool_account_id) same_book in
    (
      ap (λ m. m.legs) planned.own_movement
          ∙ (ap (legs_at world request plan.pending.book.pool_account_id) total
              ∙ ap (λ a. legs_at world request a q.total) pool),
      quoted.own_version ∙ sym planned.current,
    )

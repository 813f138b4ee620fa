-- ===== src/Ledger/Trading/Cascading.antt =====
-- backend/ledger_service/service/trading.py: the rows that a whole cascade leaves.
use cs.Base.{
  ℕ, suc, ◌≡◌, refl, List, [], ◌∷◌, ◌++◌, length, sym, ◌∙◌, ap, arith, ok, All, >>=-eq-ok,
  ok_injective, subst,
}
use cs.Base.Int.{ℤ}
use cs.Ledger.Lmsr.{Engine}
use cs.Ledger.Orders.{RestingOrder, PlannedFill, cascade_of}
use cs.Ledger.Orders.Priority.{sort_orders-All}
use cs.Ledger.Orders.Pass.{IsFill}
use cs.Ledger.Orders.Cascade.{Cascaded, idle, fill_first, cascade_of-sorted}
use cs.Ledger.Rows.{Order}
use cs.Ledger.Accounts.{World}
use cs.Ledger.BookPrices.{priced_by, outcome_ids_of, q_of, b_of}
use cs.Ledger.Trading.{WrittenFill, Pending, write_trade}
use cs.Ledger.Trading.Filling.{
  list_open_orders, resting_orders_of, order_by_seq, trade_of_fill, write_fill, write_fills,
  write_cascade,
}
use cs.Ledger.Trading.Held.{priced_by-ok}
use cs.Ledger.Trading.Follows.{Follows, Follows-none, Follows-trans, IsOf, write_trade-Wrote}
use cs.Ledger.Trading.Fills.{
  HasOwnSeqs, IsResting, open_orders-HasOwnSeqs, open_orders-market, resting_orders_of-IsResting,
  write_by_seq-HasOwnSeqs,
}

All-split :
    (P : RestingOrder → Type 0) (xs : List RestingOrder) (y : RestingOrder) (ys : List RestingOrder)
    → All P (xs ++ y ∷ ys)
    → P y × All P (xs ++ ys)
All-split P [] y ys h = h
All-split P (x ∷ xs) y ys h = let (own, others) = All-split P xs y ys h.1 in (own, (h.0, others))

-- The rows after `n` fills, and the orders' own numbers
pub record Filled (n : ℕ) (before after : Pending) : Type 0 where
  pub follows : Follows n before after
  pub own_seqs : HasOwnSeqs before.orders → HasOwnSeqs after.orders

pub Filled-then : {n : ℕ} {p q r : Pending} → Filled 1 p q → Filled n q r → Filled (suc n) p r
Filled-then {n} {p} {q} {r} first later =
    let follows = Follows-trans first.follows later.follows in
    record {
      follows = subst (λ k. Follows k p r) (omega arith) follows;
      own_seqs = λ h. later.own_seqs (first.own_seqs h);
    }

module _ (e : Engine) (world : World) (now : ℕ) (b : ℤ) (open_orders : List Order) where
  record FilledAt (fill : PlannedFill) (before after : Pending) : Type 0 where
    filled_one : Filled 1 before after
    q_left : q_of after.book.outcomes ≡ fill.cost.after_q

  write_fill-Filled :
      (fill : PlannedFill) (p : Pending) (row : Order) {w : WrittenFill} {after : Pending}
      → IsOf e b (trade_of_fill row fill) fill.order.outcome_index p
      → write_fill world now row fill p ≡ ok (w, after)
      → FilledAt fill p after
  unfolding write_fill trade_of_fill
  write_fill-Filled fill p row own h =
      let (q, traded, h₁) =
        >>=-eq-ok (write_trade p fill.order.outcome_index _ (trade_of_fill row fill) now) _ h in
      let wrote =
        write_trade-Wrote e b p fill.order.outcome_index (trade_of_fill row fill) now own traded in
      let same = ap (λ x. x.1) (ok_injective h₁) in
      subst (FilledAt fill p) same (record {
        filled_one = record {
          follows = record {
            market = wrote.follows.market;
            pool = wrote.follows.pool;
            liquidity = wrote.follows.liquidity;
            version = wrote.follows.version;
            ids = wrote.follows.ids;
            ordered = wrote.follows.ordered;
            counted = wrote.follows.counted;
            elsewhere = wrote.follows.elsewhere;
          };
          own_seqs = λ seqs. write_by_seq-HasOwnSeqs _ q.orders (rw wrote.same_orders seqs);
        };
        q_left = wrote.q_left;
      })

  -- The trade that a planned fill of a row is, at the `q` that it was planned at
  IsOf-fill :
      (fill : PlannedFill) (p : Pending) (ids : List ℕ) (m : ℕ) (q : List ℤ)
      (resting : IsResting open_orders ids m fill.order)
      → p.book.market_id ≡ m
      → IsFill e q b fill
      → q_of p.book.outcomes ≡ q
      → outcome_ids_of p.book.outcomes ≡ ids
      → IsOf e b (trade_of_fill resting.row fill) fill.order.outcome_index p
  unfolding trade_of_fill
  IsOf-fill fill p ids m q resting market made at_q same_ids = record {
    own_market = resting.market ∙ sym market;
    own_place = rw same_ids resting.place;
    own_price = rw (at_q, resting.side) made.priced;
  }

  write_fills-Filled :
      (ids : List ℕ) (m : ℕ) {q : List ℤ} {waiting : List RestingOrder} {plan : List PlannedFill}
      (p : Pending) {fills : List WrittenFill} {after : Pending}
      → Cascaded e b q waiting plan
      → All (IsResting open_orders ids m) waiting
      → q_of p.book.outcomes ≡ q
      → outcome_ids_of p.book.outcomes ≡ ids
      → p.book.market_id ≡ m
      → write_fills world now open_orders plan p ≡ ok (fills, after)
      → Filled (length fills) p after
  unfolding write_fills
  write_fills-Filled ids m p (idle _) resting at_q same_ids market h =
      let same = ok_injective h in
      subst (λ (x : List WrittenFill × Pending). Filled (length x.0) p x.1) same
        (record { follows = Follows-none p; own_seqs = λ h. h })
  write_fills-Filled ids m {q} p
        (fill_first before later {f} {fills = plan} idle_before made cascaded) resting at_q same_ids
        market h =
      let (own, others) = All-split (IsResting open_orders ids m) before f.order later resting in
      let (row, found, h₁) = >>=-eq-ok (order_by_seq open_orders f.order.seq) _ h in
      let (w, written, h₂) = >>=-eq-ok (write_fill world now row f p) _ h₁ in
      let (rest, filled, h₃) = >>=-eq-ok (write_fills world now open_orders plan w.1) _ h₂ in
      let same_row : own.row ≡ row = ok_injective (sym own.by_seq ∙ found) in
      let one =
        write_fill-Filled f p row
          (subst (λ r. IsOf e b (trade_of_fill r f) f.order.outcome_index p) same_row
            (IsOf-fill f p ids m q own market made at_q same_ids))
          written in
      let follows = one.filled_one.follows in
      let others_filled =
        write_fills-Filled ids m w.1 cascaded others one.q_left (follows.ids ∙ same_ids)
          (follows.market ∙ market) filled in
      subst (λ (x : List WrittenFill × Pending). Filled (length x.0) p x.1) (ok_injective h₃)
        (Filled-then one.filled_one others_filled)

-- `write_cascade`, from rows whose orders have their own numbers
pub write_cascade-Filled :
    (e : Engine) (world : World) (now : ℕ) (p : Pending) {fills : List WrittenFill}
    {after : Pending}
    → HasOwnSeqs p.orders
    → write_cascade e world now p ≡ ok (fills, after)
    → Filled (length fills) p after
unfolding write_cascade
write_cascade-Filled e world now p own h =
    let ids = outcome_ids_of p.book.outcomes in
    let open_orders = list_open_orders p.orders p.book.market_id in
    let (resting, read, h₁) = >>=-eq-ok (resting_orders_of open_orders ids) _ h in
    let (plan, planned, h₂) = >>=-eq-ok (priced_by (cascade_of e _ (b_of p.book) resting)) _ h₁ in
    let rows =
      resting_orders_of-IsResting open_orders ids p.book.market_id
        (open_orders-HasOwnSeqs p.orders p.book.market_id own)
        (open_orders-market p.orders p.book.market_id) read in
    write_fills-Filled e world now (b_of p.book) open_orders ids p.book.market_id p
      (cascade_of-sorted e (q_of p.book.outcomes) (b_of p.book) resting (priced_by-ok _ planned))
      (sort_orders-All _ resting rows) refl refl refl h₂

-- ===== src/Ledger/Trading/Follows.antt =====
-- backend/ledger_service/service/trading.py: the rows that a trade's writes leave, and those that its cascade leaves.
use cs.Base.{
  ℕ, ◌+◌, ◌≡◌, refl, true, false, some, List, ◌==◌, get_elem?, set, Option-cases, Bool-cases, inl,
  inr, sym, ◌∙◌, ap, arith, ok, >>=-eq-ok, ok_injective, eq→==, ==→eq, some_injective, subst,
  raise_if,
}
use cs.Base.Int.{ℤ, pos, ◌+ℤ◌}
use cs.Ledger.Lmsr.{Engine, cost_to_trade}
use cs.Ledger.Pricing.{Side, TradeCost, signed, at, trade_cost_of, refuse_oversold, quantize_cost}
use cs.Ledger.Rows.{Position}
use cs.Ledger.BookPrices.{priced_by, outcome_ids_of, q_of, index_of}
use cs.Ledger.Trading.{
  PricedTrade, Pending, find_position, positions_after, set_q, traded_book, write_trade,
}
use cs.Ledger.Trading.Shares.{
  shares_in, q_at, outcome_ids_of-set_q, q_of-set_q, q_at-index, q_at-set_q, add_each-one,
  get_elem?-set_self, IsOrdered, set_q-IsOrdered,
}
use cs.Ledger.Trading.Held.{priced_by-ok, positions_after-shares}

pub at-ok : (q : List ℤ) (i : ℕ) {x : ℤ} → at q i ≡ ok x → get_elem? q i ≡ some x
unfolding at
at-ok q i h = elim (Option-cases (get_elem? q i)) [
  | inl e ↦ absurd (let refused = rw (e, at) at h in cc)
  | inr (y, e) ↦ e ∙ ap some (ok_injective (rw (e, at) at h))
]

pos_injective : {a b : ℕ} → pos a ≡ pos b → a ≡ b
pos_injective h = cc

-- A priced trade moves the vector at its own place, by its quantity.
pub trade_cost_of-moved :
    (e : Engine) (q : List ℤ) (b : ℤ) (index : ℕ) (side : Side) (quantity : ℕ) {cost : TradeCost}
    → trade_cost_of e q b index side quantity ≡ ok cost
    → (x : ℤ) × (get_elem? q index ≡ some x)
      × (cost.after_q ≡ set q index (x +ℤ signed side quantity))
unfolding trade_cost_of
trade_cost_of-moved e q b index side quantity h =
    let (x, known, h₁) = >>=-eq-ok (at q index) _ h in
    let (u, allowed, h₂) = >>=-eq-ok (refuse_oversold side quantity x) _ h₁ in
    let (y, moved, h₃) = >>=-eq-ok (at _ index) _ h₂ in
    let (v, small, h₄) = >>=-eq-ok (raise_if _ _) _ h₃ in
    let (change, costed, h₅) = >>=-eq-ok (cost_to_trade e q b _) _ h₄ in
    let (w, fits, h₆) = >>=-eq-ok (raise_if _ _) _ h₅ in
    let (m, rounded, h₇) = >>=-eq-ok (quantize_cost e _ side) _ h₆ in
    let found = at-ok q index known in
    (
      x,
      found,
      ap (λ (c : TradeCost). c.after_q) (sym (ok_injective h₇))
          ∙ add_each-one q index (signed side quantity) x found,
    )

-- The book's outcomes have out what users hold of them.
abbrev pub IsCounted : Pending → Type 0
IsCounted p = (o : ℕ) → q_at p.book.outcomes o ≡ pos (shares_in p.positions p.book.market_id o)

-- What `n` trades leave of the rows that a session holds: the counter is up by `n`, the outcomes are the same
-- in the same order, what is out stays what is held, and no other market's shares move.
pub record Follows (n : ℕ) (before after : Pending) : Type 0 where
  pub market : after.book.market_id ≡ before.book.market_id
  pub pool : after.book.pool_account_id ≡ before.book.pool_account_id
  pub liquidity : after.book.liquidity_b ≡ before.book.liquidity_b
  pub version : after.book.state_version ≡ before.book.state_version + n
  pub ids : outcome_ids_of after.book.outcomes ≡ outcome_ids_of before.book.outcomes
  pub ordered : IsOrdered before.book.outcomes → IsOrdered after.book.outcomes
  pub counted : IsCounted before → IsCounted after
  pub elsewhere :
      (m o : ℕ)
      → (before.book.market_id == m) ≡ false
      → shares_in after.positions m o ≡ shares_in before.positions m o

pub Follows-none : (p : Pending) → Follows 0 p p
Follows-none p = record {
  market = refl;
  pool = refl;
  liquidity = refl;
  version = omega arith;
  ids = refl;
  ordered = λ h. h;
  counted = λ h. h;
  elsewhere = λ m o h. refl;
}

pub Follows-trans :
    {m n : ℕ} {p q r : Pending} → Follows m p q → Follows n q r → Follows (m + n) p r
Follows-trans first later = record {
  market = later.market ∙ first.market;
  pool = later.pool ∙ first.pool;
  liquidity = later.liquidity ∙ first.liquidity;
  version = omega (arith, first.version, later.version);
  ids = later.ids ∙ first.ids;
  ordered = λ h. later.ordered (first.ordered h);
  counted = λ h. later.counted (first.counted h);
  elsewhere = λ k o h. later.elsewhere k o (rw first.market h) ∙ first.elsewhere k o h;
}

-- A trade of the pending book on the outcome at `index`, priced at the book's `q`
pub record IsOf (e : Engine) (b : ℤ) (trade : PricedTrade) (index : ℕ) (p : Pending) : Type 0 where
  pub own_market : trade.market_id ≡ p.book.market_id
  pub own_place : index_of trade.outcome_id (outcome_ids_of p.book.outcomes) ≡ some index
  pub own_price :
      trade_cost_of e (q_of p.book.outcomes) b index trade.side trade.quantity ≡ ok trade.cost

pub record Wrote (trade : PricedTrade) (before after : Pending) : Type 0 where
  pub follows : Follows 1 before after
  pub q_left : q_of after.book.outcomes ≡ trade.cost.after_q
  pub same_orders : after.orders ≡ before.orders

module _ (e : Engine) (b : ℤ) (p : Pending) (index : ℕ) (trade : PricedTrade) (now : ℕ)
    (own : IsOf e b trade index p) where
  -- What the trade writes, with the parts that it computes
  abbrev written_pending : ℤ → List Position → Pending
  written_pending q positions = record p {
    book = traded_book p.book index q trade now;
    positions = positions;
  }

  -- The trade's own outcome has the same shares more out and held, and every other one the same.
  counted_after :
      (q : ℤ) (positions : List Position) (o : ℕ)
      → q ≡ q_at p.book.outcomes trade.outcome_id +ℤ signed trade.side trade.quantity
      → positions_after trade.side p.positions
          (find_position p.positions trade.user_id trade.market_id trade.outcome_id)
          trade
        ≡ ok positions
      → IsCounted p
      → q_at (set_q p.book.outcomes index q) o ≡ pos (shares_in positions p.book.market_id o)
  counted_after q positions o q_is placed h =
      let held = positions_after-shares p.positions trade p.book.market_id o placed in
      let market : (trade.market_id == p.book.market_id) ≡ true = eq→== _ _ own.own_market in
      let out = q_at-set_q p.book.outcomes trade.outcome_id o q index own.own_place in
      elim (Bool-cases (trade.outcome_id == o)) [
        | inl e ↦
            let same = ==→eq trade.outcome_id o e in
            out ∙ rw e (q_is ∙ rw (h trade.outcome_id, same) (sym (rw (market, e) at held)))
        | inr e ↦ out ∙ rw e (h o ∙ sym (rw (market, e) at held))
      ]

  elsewhere_after :
      (positions : List Position) (m o : ℕ)
      → positions_after trade.side p.positions
          (find_position p.positions trade.user_id trade.market_id trade.outcome_id)
          trade
        ≡ ok positions
      → (p.book.market_id == m) ≡ false
      → shares_in positions m o ≡ shares_in p.positions m o
  elsewhere_after positions m o placed other =
      let held = positions_after-shares p.positions trade m o placed in
      let apart : (trade.market_id == m) ≡ false = rw own.own_market other in
      pos_injective (rw apart at held)

  written_pending-Wrote :
      (q : ℤ) (positions : List Position)
      → get_elem? trade.cost.after_q index ≡ some q
      → positions_after trade.side p.positions
          (find_position p.positions trade.user_id trade.market_id trade.outcome_id)
          trade
        ≡ ok positions
      → Wrote trade p (written_pending q positions)
  unfolding traded_book
  written_pending-Wrote q positions moved placed =
      let (x, found, after) =
        trade_cost_of-moved e (q_of p.book.outcomes) b index trade.side trade.quantity
          own.own_price in
      let there = q_at-index p.book.outcomes trade.outcome_id index own.own_place in
      let x_is : x ≡ q_at p.book.outcomes trade.outcome_id = some_injective (sym found ∙ there) in
      let q_is : q ≡ x +ℤ signed trade.side trade.quantity = some_injective (
        sym moved
        ∙ (ap (λ l. get_elem? l index) after
            ∙ get_elem?-set_self (q_of p.book.outcomes) index
                (x +ℤ signed trade.side trade.quantity) x found)) in
      record {
        follows = record {
          market = refl;
          pool = refl;
          liquidity = refl;
          version = refl;
          ids = outcome_ids_of-set_q p.book.outcomes index q;
          ordered = set_q-IsOrdered p.book.outcomes index q;
          counted = λ h o. counted_after q positions o (q_is ∙ rw x_is refl) placed h;
          elsewhere = λ m o h. elsewhere_after positions m o placed h;
        };
        q_left = q_of-set_q p.book.outcomes index q ∙ (rw q_is (sym after));
        same_orders = refl;
      }

  pub write_trade-Wrote :
      {after : Pending}
      → write_trade p index
          (find_position p.positions trade.user_id trade.market_id trade.outcome_id)
          trade
          now
        ≡ ok after
      → Wrote trade p after
  unfolding write_trade
  write_trade-Wrote h =
      let (q, moved, h₁) = >>=-eq-ok (priced_by (at trade.cost.after_q index)) _ h in
      let (positions, placed, h₂) =
        >>=-eq-ok (positions_after trade.side p.positions _ trade) _ h₁ in
      subst (Wrote trade p) (ok_injective h₂)
        (written_pending-Wrote q positions (at-ok _ index (priced_by-ok _ moved)) placed)

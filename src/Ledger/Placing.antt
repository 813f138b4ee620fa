-- ===== src/Ledger/Placing.antt =====
-- backend/ledger_service/service/orders.py: a limit order's row, its budget and the refusals of `place`. The answer
-- that a stored order gives is in Placing/Stored, the plan under the book's lock in Placing/Planning and the
-- order of the steps in Placing/Place. Prices and quantities are in ticks, as their columns keep them.
pub mod Stored
pub mod Planning
pub mod Committing
pub mod Place
pub mod Reserved
pub mod Budgeted
pub mod Planned
pub mod Checked
pub mod Invariant
pub mod Cases
pub mod Commits
pub mod Answered
use cs.Base.{
  ℕ, ◌+◌, Bool, true, false, not, Option, none, some, List, [], ◌∷◌, ◌++◌, ◌==◌, leb, ◌&&◌,
  if◌then◌else◌, Outcome, ok, err, ◌>>=◌, ◌>>◌, raise_if,
}
use cs.Base.Int.{ℤ, pos, pos_part, ◌-ℤ◌, leb_ℤ, ltb_ℤ, eqb_ℤ}
use cs.Base.Text.{Text, text_eq}
use cs.Ledger.Lmsr.{Engine}
use cs.Ledger.Pricing.{Side, buy, sell, is_buy, quantize_cost}
use cs.Ledger.Orders.{PlannedFill}
use cs.Ledger.Rows.{
  TransactionKind, TransactionContext, no_context, granted, paid, of_market, traded, Transaction,
  trade_buy, trade_sell, OutcomeRow, Book, Order, OrderStatus, opened, filled, Tables, LedgerError,
  insufficient_funds, Shortage, lookup_failed, idempotency_key_reused,
}
use cs.Ledger.Reservations.{balance_of, is_live, reserved_of}
use cs.Ledger.Accounts.{World}
use cs.Ledger.Books.{find_book}
use cs.Ledger.Cancellation.{OrderView, order_view_of}
use cs.Ledger.BookPrices.{priced_by}
use cs.Ledger.Trading.{same_side}

pub record PlaceRequest : Type 0 where
  pub user_id : ℕ
  pub market_id : ℕ
  pub outcome_id : ℕ
  pub side : Side
  pub limit_price : ℤ
  pub quantity : ℤ
  pub idempotency_key : Text

pub record Fill : Type 0 where
  pub transaction_id : ℕ
  pub quantity : ℕ
  pub total : ℤ
  pub state_version : ℕ

-- The order's view with its outcome's position, the fills on arrival and the book's counter
pub record Placement : Type 0 where
  pub view : OrderView
  pub outcome_position : ℤ
  pub fills : List Fill
  pub book_state_version : ℕ

-- "order:"
abbrev order_key_prefix : Text
order_key_prefix = 111 ∷ 114 ∷ 100 ∷ 101 ∷ 114 ∷ 58 ∷ []

unfoldable pub order_key : World → ℕ → ℕ → Text → Text
order_key world user_id market_id client_key =
    order_key_prefix
    ++ (world.str_uuid user_id ++ (58 ∷ (world.str_uuid market_id ++ (58 ∷ client_key))))

-- `_budget_of`
unfoldable pub budget_of : Engine → Side → ℕ → ℕ → Outcome LedgerError (Option ℕ)
unfolding priced_by quantize_cost
budget_of engine sell limit_price quantity = ok none
budget_of engine buy limit_price quantity = do
  let product = engine.mul (engine.of_ticks (pos limit_price)) (engine.of_ticks (pos quantity))
  budget ← priced_by (quantize_cost engine product buy)
  ok (some (pos_part budget))

-- `_refuse_if_budget_does_not_fit`, of the account's figures
unfoldable pub refuse_if_budget_does_not_fit :
    Tables → (account_id user_id budget : ℕ) → Outcome LedgerError Unit
unfolding balance_of reserved_of
refuse_if_budget_does_not_fit s account_id user_id budget =
    let balance = balance_of s.entries account_id in
    let reserved = reserved_of s.results s.orders user_id in
    let available = balance -ℤ reserved in
    raise_if (ltb_ℤ available (pos budget)) (
      insufficient_funds (record {
        account_id = account_id;
        balance = balance;
        reserved = reserved;
        required = none;
        shortfall = some (pos budget -ℤ available);
        movement_key = none;
      }))

-- `_placement_refusal_of`
abbrev pub without_budget : Shortage → Option ℤ → Option ℕ → Shortage
without_budget refusal none budget = refusal
without_budget refusal (some shortfall) none = refusal
without_budget refusal (some shortfall) (some budget) = record {
  account_id = refusal.account_id;
  balance = refusal.balance;
  reserved = refusal.reserved -ℤ pos budget;
  required = none;
  shortfall = some shortfall;
  movement_key = none;
}

unfoldable pub placement_refusal_of : Shortage → Option ℕ → Shortage
placement_refusal_of refusal budget = without_budget refusal refusal.shortfall budget

-- What the database gives the row: its id, and its `seq`, which no other row has
pub record NewRow : Type 0 where
  pub order_id : ℕ
  pub seq_after : List Order → ℕ

abbrev pub filled_quantity_of : Option PlannedFill → ℕ
filled_quantity_of none = 0
filled_quantity_of (some fill) = fill.quantity

abbrev pub filled_value_of : Option PlannedFill → ℕ
filled_value_of none = 0
filled_value_of (some fill) = pos_part fill.cost.magnitude

-- `_new_order`; its `seq` and the counter are set where it is inserted.
unfoldable pub new_order :
    Engine → NewRow → PlaceRequest → Text → Option PlannedFill → Outcome LedgerError Order
unfolding budget_of
new_order engine row request key fill = do
  let quantity = pos_part request.quantity
  budget ← budget_of engine request.side (pos_part request.limit_price) quantity
  ok (record {
    id = row.order_id;
    seq = 0;
    user_id = request.user_id;
    market_id = request.market_id;
    outcome_id = request.outcome_id;
    side = request.side;
    limit_price = pos_part request.limit_price;
    quantity = quantity;
    filled_quantity = filled_quantity_of fill;
    budget = budget;
    filled_value = filled_value_of fill;
    status = if filled_quantity_of fill == quantity then filled else opened;
    cancelled_at = none;
    idempotency_key = key;
    book_state_version = 0;
  })

-- The INSERT
unfoldable pub inserted : NewRow → ℕ → Order → List Order → Order
inserted row version order orders = record order {
  seq = row.seq_after orders;
  book_state_version = version;
}

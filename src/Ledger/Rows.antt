-- ===== src/Ledger/Rows.antt =====
-- backend/ledger_service/model/entities.py: the tables of the ledger, and the errors of its services
-- (core/errors.py). An amount is a whole number of ticks of 0.0001 and a time its microsecond.
use cs.Base.{ℕ, Option, List}
use cs.Base.Int.{ℤ}
use cs.Base.Decimal.{Decimal}
use cs.Base.Text.{Text}
use cs.Ledger.Lmsr.{PricingError}
use cs.Ledger.Pricing.{Side}

pub data AccountKind : Type 0 where
  user platform market_pool : AccountKind

pub record Account : Type 0 where
  pub kind : AccountKind
  pub owner_id : ℕ

pub data TransactionKind : Type 0 where
  signup_grant market_seed trade_buy trade_sell : TransactionKind
  settlement settlement_residue void_refund void_residue : TransactionKind

pub data ResultKind : Type 0 where
  settled voided : ResultKind

pub data OrderStatus : Type 0 where
  opened filled cancelled : OrderStatus

-- The `context` of a trade or a fill
pub record TradeContext : Type 0 where
  pub user_id : ℕ
  pub market_id : ℕ
  pub outcome_id : ℕ
  pub side : Side
  pub quantity : ℕ
  pub total : ℤ
  pub state_version : ℕ
  pub book_state_version : Option ℕ
  pub order_id : Option ℕ

-- `Transaction.context`: what the writer of a movement stores beside it.
pub data TransactionContext : Type 0 where
  no_context : TransactionContext
  granted : ℕ → TransactionContext
  paid : (user_id market_id outcome_id quantity : ℕ) → TransactionContext
  of_market : (market_id : ℕ) → TransactionContext
  traded : TradeContext → TransactionContext

pub record Transaction : Type 0 where
  pub id : ℕ
  pub kind : TransactionKind
  pub idempotency_key : Text
  pub request_fingerprint : Text
  pub occurred_at : ℕ
  pub context : TransactionContext

pub record Entry : Type 0 where
  pub transaction_id : ℕ
  pub account_id : ℕ
  pub amount : ℤ
  pub created_at : ℕ

pub record Position : Type 0 where
  pub user_id : ℕ
  pub market_id : ℕ
  pub outcome_id : ℕ
  pub quantity : ℕ
  pub cost_basis : ℕ

pub record Order : Type 0 where
  pub id : ℕ
  pub seq : ℕ
  pub user_id : ℕ
  pub market_id : ℕ
  pub outcome_id : ℕ
  pub side : Side
  pub limit_price : ℕ
  pub quantity : ℕ
  pub filled_quantity : ℕ
  pub budget : Option ℕ
  pub filled_value : ℕ
  pub status : OrderStatus
  pub cancelled_at : Option ℕ
  pub idempotency_key : Text
  pub book_state_version : ℕ

pub record MarketResult : Type 0 where
  pub market_id : ℕ
  pub kind : ResultKind
  pub outcome_id : Option ℕ
  pub recorded_at : ℕ

-- `MarketOutcome`, a row of its book: the shares outstanding are signed, as the engine's are.
pub record OutcomeRow : Type 0 where
  pub outcome_id : ℕ
  pub position : ℤ
  pub q : ℤ

-- `MarketBook`, with its `MarketOutcome` rows
pub record Book : Type 0 where
  pub market_id : ℕ
  pub liquidity_b : Decimal
  pub seed_subsidy : Decimal
  pub pool_account_id : ℕ
  pub state_version : ℕ
  pub credits_traded : ℕ
  pub state_changed_at : ℕ
  pub opened_at : ℕ
  pub outcomes : List OutcomeRow

-- What the service records of an administrator's action.
pub data LedgerAction : Type 0 where
  market_settled : (outcome_id holders_paid : ℕ) → (total_paid residue : ℤ) → LedgerAction
  order_cancelled_by_admin : (user_id market_id : ℕ) → (reason : Text) → LedgerAction

pub record AdminEntry : Type 0 where
  pub actor_id : ℕ
  pub target_id : ℕ
  pub action : LedgerAction
  pub occurred_at : ℕ

-- The tables that money and orders are in.
pub record Tables : Type 0 where
  pub transactions : List Transaction
  pub entries : List Entry
  pub orders : List Order
  pub results : List MarketResult
  pub positions : List Position
  pub books : List Book
  pub admin_entries : List AdminEntry

-- What `InsufficientFunds` carries: the account's figures, and either what the account lacked at the
-- start or what the batch had taken, with the movement that was refused.
pub record Shortage : Type 0 where
  pub account_id : ℕ
  pub balance : ℤ
  pub reserved : ℤ
  pub required : Option ℤ
  pub shortfall : Option ℤ
  pub movement_key : Option Text

pub data LedgerError : Type 0 where
  malformed_batch unbalanced_transaction idempotency_key_reused pending_writes_on_replay :
      LedgerError
  insufficient_funds : Shortage → LedgerError
  market_already_voided market_not_approved dispute_window_open : LedgerError
  market_terms_unavailable settlement_unconfirmed market_not_published market_not_found :
      LedgerError
  cancellation_incomplete order_not_found order_already_filled : LedgerError
  order_already_cancelled order_released : LedgerError
  market_closed unknown_outcome market_book_incomplete market_not_binary : LedgerError
  account_suspended not_authenticated auth_unavailable cascade_fill_refused : LedgerError
  quote_stale : (quoted current : ℕ) → LedgerError
  insufficient_shares_held : (held reserved requested : ℤ) → LedgerError
  not_priced : PricingError → LedgerError
  -- Python's `ValueError`, and a read of what is not there
  bad_value lookup_failed : LedgerError

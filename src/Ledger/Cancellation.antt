-- ===== src/Ledger/Cancellation.antt =====
-- backend/ledger_service/service/cancellation.py, and `order_view_of` of service/orders.py: an order's owner
-- or an administrator cancels it. `meanwhile` is what other sessions commit between the unlocked read of the
-- order's market and the book's lock; no session changes an order's market or owner.
pub mod Release
pub mod Twice
use cs.Base.{
  ℕ, ◌+◌, ◌≡◌, Bool, true, false, not, Option, none, some, List, [], ◌∷◌, ◌++◌, length, ltb, ◌==◌,
  ◌&&◌, ◌||◌, if◌then◌else◌, Outcome, ok, err, ◌>>=◌, ◌>>◌, raise_if,
}
use cs.Base.Int.{ℤ, pos, ◌-ℤ◌}
use cs.Base.Text.{Text, strip}
use cs.Ledger.Lmsr.{Engine, PricingError}
use cs.Ledger.Pricing.{is_buy, per_share}
use cs.Ledger.Rows.{
  Order, OrderStatus, opened, filled, cancelled, Tables, LedgerError, AdminEntry,
  order_cancelled_by_admin, cancellation_incomplete, order_not_found, order_already_filled,
  order_already_cancelled, order_released,
}
use cs.Ledger.Reservations.{is_open, is_live, held_credits}

pub record AdminCancel : Type 0 where
  pub actor_id : ℕ
  pub reason : Text

-- `OrderView`: the row, and what is derived from it
pub record OrderView : Type 0 where
  pub order : Order
  pub released : Bool
  pub reserved_credits : Option ℤ
  pub reserved_shares : Option ℤ
  pub average_fill_price : Option (Outcome PricingError ℤ)

pub record Cancellation : Type 0 where
  pub view : OrderView
  pub released_credits : Option ℤ
  pub released_shares : Option ℤ

unfoldable pub order_view_of : Engine → Order → Bool → OrderView
unfolding is_open is_buy held_credits
order_view_of engine order live = record {
  order = order;
  released = is_open order.status && not live;
  reserved_credits =
      if is_buy order.side then some (if live then held_credits order else pos 0) else none;
  reserved_shares =
      if is_buy order.side
      then none
      else some (if live then pos order.quantity -ℤ pos order.filled_quantity else pos 0);
  average_fill_price =
      if ltb 0 order.filled_quantity
      then some (per_share engine (pos order.filled_value) order.filled_quantity)
      else none;
}

-- `_refuse_if_reason_unusable`
unfoldable pub refuse_if_reason_unusable : Text → Outcome LedgerError Unit
refuse_if_reason_unusable reason = raise_if (ltb (length (strip reason)) 10) cancellation_incomplete

unfoldable pub find_order : List Order → ℕ → Option Order
find_order [] order_id = none
find_order (order ∷ rest) order_id =
    if order.id == order_id then some order else find_order rest order_id

-- The caller reaches the order: it is theirs, or an administrator cancels.
unfoldable pub reaches : Option ℕ → Option AdminCancel → Order → Bool
reaches user_id (some admin) order = true
reaches none none order = false
reaches (some user_id) none order = order.user_id == user_id

-- `_get_order_market`
unfoldable pub get_order_market : Option ℕ → Option AdminCancel → ℕ → Tables → Outcome LedgerError ℕ
unfolding find_order reaches
get_order_market user_id admin order_id s = elim (find_order s.orders order_id) [
  | none ↦ err order_not_found
  | some order ↦ if reaches user_id admin order then ok order.market_id else err order_not_found
]

-- `_refuse_if_ended`
unfoldable pub refuse_if_ended : OrderStatus → Bool → Outcome LedgerError Unit
refuse_if_ended filled live = err order_already_filled
refuse_if_ended cancelled live = err order_already_cancelled
refuse_if_ended opened live = raise_if (not live) order_released

unfoldable pub cancelled_order : ℕ → Order → Order
cancelled_order now order = record order { status = cancelled; cancelled_at = some now }

-- The row's write
unfoldable pub write_order : ℕ → Order → List Order → List Order
write_order order_id written [] = []
write_order order_id written (order ∷ rest) =
    if order.id == order_id then written ∷ rest else order ∷ write_order order_id written rest

-- `_record_admin_cancel`
unfoldable pub admin_entries_of : Option AdminCancel → ℕ → Order → List AdminEntry
admin_entries_of none now order = []
admin_entries_of (some admin) now order =
    record {
      actor_id = admin.actor_id;
      target_id = order.id;
      action = order_cancelled_by_admin order.user_id order.market_id (strip admin.reason);
      occurred_at = now;
    }
    ∷ []

abbrev pub usable_reason : Option AdminCancel → Outcome LedgerError Unit
usable_reason none = ok tt
usable_reason (some admin) = refuse_if_reason_unusable admin.reason

-- `cancel` under the book's lock
unfoldable pub cancel_locked :
    Engine → Option AdminCancel → ℕ → ℕ → Tables → Outcome LedgerError (Cancellation × Tables)
unfolding find_order is_live refuse_if_ended order_view_of cancelled_order write_order
    admin_entries_of
cancel_locked engine admin now order_id s = elim (find_order s.orders order_id) [
  | none ↦ err order_not_found
  | some order ↦ (do
    refuse_if_ended order.status (is_live s.results order)
    let before = order_view_of engine order true
    let written = cancelled_order now order
    ok (
      record {
        view = order_view_of engine written false;
        released_credits = before.reserved_credits;
        released_shares = before.reserved_shares;
      },
      record s {
        orders = write_order order_id written s.orders;
        admin_entries = s.admin_entries ++ admin_entries_of admin now written;
      },
    ))
]

unfoldable pub cancel :
    Engine
    → Option ℕ
    → Option AdminCancel
    → (Tables → Tables)
    → ℕ
    → ℕ
    → Tables
    → Outcome LedgerError (Cancellation × Tables)
unfolding get_order_market cancel_locked
cancel engine user_id admin meanwhile now order_id s = do
  usable_reason admin
  get_order_market user_id admin order_id s
  cancel_locked engine admin now order_id (meanwhile s)

-- ===== src/Market/Settling.antt =====
-- backend/market_service/core/settling.py, core/closing.py, service/settling.py and
-- `is_open_for_trading` of service/closing.py: the edges in time that the lifecycle tests.
use cs.Base.{ℕ, ◌+◌, ◌*◌, Bool, true, false, Option, none, some, ◌||◌, ltb, leb, if◌then◌else◌}
use cs.Market.{
  MarketStatus, opened, closed, pending_resolution, approved, settled, voided, status_is, Market,
}

-- Five minutes, in microseconds.
abbrev pub settlement_gap : ℕ
settlement_gap = 300 * 1000000

unfoldable pub is_in_dispute_window : Option ℕ → ℕ → Bool
is_in_dispute_window none now = false
is_in_dispute_window (some ends_at) now = ltb now ends_at

unfoldable pub is_before_settlement_opens : Option ℕ → ℕ → Bool
is_before_settlement_opens none now = false
is_before_settlement_opens (some ends_at) now = ltb now (ends_at + settlement_gap)

-- `approved` and `settled` are the caller's two booleans.
unfoldable pub is_settleable : Bool → Bool → Option ℕ → ℕ → Bool
is_settleable _ true ends_at now = true
is_settleable false false ends_at now = false
is_settleable true false none now = false
is_settleable true false (some ends_at) now = leb (ends_at + settlement_gap) now

unfoldable pub is_voidable : Bool → Bool → Bool → Option ℕ → ℕ → Bool
unfolding is_in_dispute_window
is_voidable awaiting_outcome was_approved was_voided ends_at now =
    if awaiting_outcome || was_voided
    then true
    else if was_approved
    then is_in_dispute_window ends_at now
    else false

-- `status in AWAITING_OUTCOME_STATUSES`
unfoldable pub is_awaiting_outcome : MarketStatus → Bool
unfolding status_is
is_awaiting_outcome status = status_is status closed || status_is status pending_resolution

unfoldable pub settleable : MarketStatus → Option ℕ → ℕ → Bool
unfolding status_is is_settleable
settleable status ends_at now =
    is_settleable (status_is status approved) (status_is status settled) ends_at now

unfoldable pub voidable : MarketStatus → Option ℕ → ℕ → Bool
unfolding is_awaiting_outcome is_voidable
voidable status ends_at now =
    is_voidable (is_awaiting_outcome status) (status_is status approved) (status_is status voided)
      ends_at now

-- `approved_at` plus `dispute_window_seconds`, a setting.
unfoldable pub dispute_window_ends_at : ℕ → ℕ → ℕ
dispute_window_ends_at dispute_window_seconds approved_at =
    approved_at + dispute_window_seconds * 1000000

unfoldable pub trading_is_open : Bool → Option ℕ → ℕ → Bool
trading_is_open false close_time now = false
trading_is_open true none now = false
trading_is_open true (some close_time) now = ltb now close_time

unfoldable pub is_open_for_trading : Market → ℕ → Bool
unfolding status_is trading_is_open
is_open_for_trading market now =
    trading_is_open (status_is market.status opened) market.close_time now

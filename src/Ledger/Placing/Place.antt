-- ===== src/Ledger/Placing/Place.antt =====
-- backend/ledger_service/service/orders.py: `place`, with its steps in the order that it takes them, and
-- `list_live`. An `Environment` is as for a trade.
use cs.Base.{
  ℕ, true, not, Option, none, some, List, [], ◌∷◌, ◌==◌, ltb, ◌&&◌, if◌then◌else◌, raise_if,
}
use cs.Base.Int.{ℤ, pos, leb_ℤ, ltb_ℤ}
use cs.Base.Text.{Text}
use cs.Ledger.Lmsr.{Engine}
use cs.Ledger.Orders.{one_price}
use cs.Ledger.Rows.{Order, Tables, user, bad_value}
use cs.Ledger.Reservations.{is_live}
use cs.Ledger.Accounts.{World, ensure_granted}
use cs.Ledger.Books.{ensure_open}
use cs.Ledger.Gates.{refuse_if_suspended, ensure_trading}
use cs.Ledger.Session.{Session, ◌>>=◌, ◌>>◌, return, reading, committing, meanwhile_commits}
use cs.Ledger.Cancellation.{OrderView, order_view_of}
use cs.Ledger.Trading.Execute.{Environment, opening, granting}
use cs.Ledger.Placing.{PlaceRequest, NewRow, Placement, order_key}
use cs.Ledger.Placing.Stored.{placement_if_present, outcome_position_of}
use cs.Ledger.Placing.Planning.{plan_placement}
use cs.Ledger.Placing.Committing.{Placed, placed_before, commit_planned, placed_of}

-- A hit of the lookup is answered, and a miss goes on.
abbrev pub unless_placed : Option Placement → Session Placed → Session Placed
unless_placed (some placement) go_on = return (placed_before placement)
unless_placed none go_on = go_on

module _ (engine : Engine) (world : World) (env : Environment) (row : NewRow)
    (request : PlaceRequest) where
  abbrev pub place_key : Text
  place_key = order_key world request.user_id request.market_id request.idempotency_key

  -- The latch and all that follows it
  unfoldable pub place_under_lock : Session Placed
  unfolding plan_placement commit_planned placed_of
  place_under_lock = do
    planned ← reading (λ s. plan_placement engine world row env.now request place_key s)
    transactions ←
        committing (λ s.
          commit_planned world env.new_ids env.now (world.id_of user request.user_id) planned s)
    reading (λ s. placed_of engine env.now planned transactions)

  -- The gates, the book's first touch and the grant, and the lookup again under the lock
  unfoldable pub place_anew : Session Placed
  unfolding refuse_if_suspended ensure_trading ensure_open ensure_granted placement_if_present
      place_under_lock
  place_anew = do
    reading (λ s. refuse_if_suspended env.auth_answer)
    reading (λ s. ensure_trading s request.market_id env.gate_terms)
    opening world env request.market_id
    granting world env request.user_id
    meanwhile_commits env.meanwhile
    present ← reading (λ s. placement_if_present engine place_key request s)
    unless_placed present place_under_lock

  unfoldable pub place : Session Placed
  unfolding placement_if_present place_anew
  place = do
    reading (λ s. raise_if (leb_ℤ request.quantity (pos 0)) bad_value)
    reading (λ s.
        raise_if (not (ltb_ℤ (pos 0) request.limit_price && ltb_ℤ request.limit_price one_price))
          bad_value)
    present ← reading (λ s. placement_if_present engine place_key request s)
    unless_placed present place_anew

-- Newest first
unfoldable pub insert_newest : Order → List Order → List Order
insert_newest o [] = o ∷ []
insert_newest o (x ∷ rest) = if ltb x.seq o.seq then o ∷ x ∷ rest else x ∷ insert_newest o rest

unfoldable pub live_orders_of : Tables → ℕ → List Order → List Order
unfolding is_live insert_newest
live_orders_of s user_id [] = []
live_orders_of s user_id (order ∷ rest) =
    let others = live_orders_of s user_id rest in
    if order.user_id == user_id && is_live s.results order
    then insert_newest order others
    else others

abbrev pub with_position : Engine → Order → Option ℤ → List (OrderView × ℤ) → List (OrderView × ℤ)
with_position engine order none others = others
with_position engine order (some position) others =
    (order_view_of engine order true, position) ∷ others

-- `list_live`, with each order's outcome position; `views_query` joins on it.
unfoldable pub views_of : Engine → Tables → List Order → List (OrderView × ℤ)
unfolding outcome_position_of
views_of engine s [] = []
views_of engine s (order ∷ rest) =
    with_position engine order (outcome_position_of s order) (views_of engine s rest)

unfoldable pub list_live : Engine → ℕ → Tables → List (OrderView × ℤ)
unfolding views_of live_orders_of
list_live engine user_id s = views_of engine s (live_orders_of s user_id s.orders)

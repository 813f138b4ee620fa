-- ===== src/Ledger/Placing/Answered.antt =====
-- backend/ledger_service/service/orders.py: what an order that `place` commits has passed, and what it is answered.
use cs.Base.{◌≡◌, ok}
use cs.Ledger.Lmsr.{Engine}
use cs.Ledger.Rows.{Book, Tables}
use cs.Ledger.Accounts.{World}
use cs.Ledger.Gates.{IsAllowed, IsTrading}
use cs.Ledger.Trading.Execute.{Environment, tables_at_lock}
use cs.Ledger.Placing.{PlaceRequest, NewRow}
use cs.Ledger.Placing.Planning.{plan_placement, Planned, resting, filling}
use cs.Ledger.Placing.Committing.{Placed}
use cs.Ledger.Placing.Place.{place_key}
use cs.Ledger.Placing.Checked.{IsChecked}
use cs.Ledger.Placing.Commits.{IsResting, IsFilledNow}

-- How a plan ends: with the order resting or with its fill
abbrev pub IsPlacedAs :
    Engine → World → PlaceRequest → Tables → Book → Placed → Tables → Planned → Type 0
IsPlacedAs engine world request locked book x after (resting order position) =
    IsResting engine world request locked book x after
IsPlacedAs engine world request locked book x after (filling order position plan) =
    IsFilledNow engine world request locked book x after

-- What a placement that is not a retry has passed, and the order that it made
pub record IsPlaced (engine : Engine) (world : World) (env : Environment) (row : NewRow)
    (request : PlaceRequest) (s : Tables) (x : Placed) (after : Tables) : Type 0 where
  pub allowed : IsAllowed env.auth_answer
  pub trading : IsTrading env.gate_terms
  pub locked : Tables
  pub at_lock : locked ≡ tables_at_lock world env request.market_id request.user_id s
  pub planned : Planned
  pub as_planned :
      plan_placement engine world row env.now request
        (place_key engine world env row request)
        locked
      ≡ ok planned
  pub checked :
      IsChecked engine world row env.now request
        (place_key engine world env row request)
        locked
        planned
  pub placed : IsPlacedAs engine world request locked checked.book x after planned

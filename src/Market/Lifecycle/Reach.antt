-- ===== src/Market/Lifecycle/Reach.antt =====
-- The service as a transition system: a request on a row, a save, or a sweep, each one commit.
pub mod Rowwise
use cs.Base.{ℕ, ◌≡◌, Bool, Option, none, some, List, [], ok, All, ◌≢◌}
use cs.Base.Text.{Text}
use cs.Market.{Market, Actor}
use cs.Market.Validation.{Problem, OutcomeProposalRequest}
use cs.Market.Lifecycle.Rows.{Store}
use cs.Market.Lifecycle.Steps.{
  Settings, Written, publish, close_early, propose_outcome, approve_outcome, reject_outcome,
  send_back_outcome, settle, void,
}
use cs.Market.Lifecycle.Saves.{DraftRequest, save_once, close_due_markets}

-- The routes that write an existing market, with what each request carries.
pub data Request : Type 0 where
  publishing settling : ℕ → Request
  closing voiding : ℕ → Text → Request
  proposing : ℕ → OutcomeProposalRequest → ℕ → Request
  approving : ℕ → Option ℕ → Request
  rejecting sending_back : ℕ → Option ℕ → Text → Request

unfoldable pub handle : Settings → Actor → Request → ℕ → Store → Written
handle settings actor (publishing id) now s = publish settings actor id now s
handle settings actor (settling id) now s = settle actor id now s
handle settings actor (closing id reason) now s = close_early actor id reason now s
handle settings actor (voiding id reason) now s = void actor id reason now s
handle settings actor (proposing id request fresh) now s =
    propose_outcome settings actor id request fresh now s
handle settings actor (approving id proposal_id) now s =
    approve_outcome settings actor id proposal_id now s
handle settings actor (rejecting id proposal_id reason) now s =
    reject_outcome actor id proposal_id reason now s
handle settings actor (sending_back id proposal_id reason) now s =
    send_back_outcome actor id proposal_id reason now s

-- No row has this id.
abbrev pub IsUnused : ℕ → List Market → Type 0
IsUnused id ms = All (λ (m : Market). m.id ≢ id) ms

-- One commit. A new row's id is a fresh uuid, which no row has.
pub data Step (settings : Settings) (s t : Store) : Type 0 where
  handled :
      (actor : Actor) (request : Request) (now : ℕ) {m : Market}
      → handle settings actor request now s ≡ ok (m, t)
      → Step settings s t
  saved :
      (fresh : ℕ → ℕ) (new_id : ℕ) (actor : Actor) (form : DraftRequest) (now : ℕ) {m : Market}
      {problems : List Problem} {created : Bool}
      → IsUnused new_id s.markets
      → save_once settings fresh new_id actor form now s ≡ ok (m, problems, created, t)
      → Step settings s t
  swept : (limit now : ℕ) → t ≡ (close_due_markets limit now s).1 → Step settings s t

abbrev pub init : Store
init = record { markets = []; log = [] }

pub data Reach (settings : Settings) : Store → Type 0 where
  started : Reach settings init
  next : {s t : Store} → Reach settings s → Step settings s t → Reach settings t

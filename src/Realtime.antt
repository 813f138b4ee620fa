-- ===== src/Realtime.antt =====
-- backend/realtime_service/service/ordering.py: the staleness guard of one process, and the events of
-- the bus that it lets through.
pub mod Rising
mod Tests
use cs.Base.{ℕ, Bool, true, false, Option, none, some, List, [], ◌∷◌, leb, ◌==◌, if◌then◌else◌}

-- `_latest`: each market's newest version forwarded.
abbrev pub VersionGate : Type 0
VersionGate = List (ℕ × ℕ)

-- A market and its `state_version`.
abbrev pub Event : Type 0
Event = ℕ × ℕ

unfoldable pub latest : VersionGate → ℕ → Option ℕ
latest [] market_id = none
latest ((id, version) ∷ rest) market_id =
    if id == market_id then some version else latest rest market_id

-- `self._latest[market_id] = state_version`
unfoldable pub record_version : VersionGate → ℕ → ℕ → VersionGate
record_version [] market_id state_version = (market_id, state_version) ∷ []
record_version ((id, version) ∷ rest) market_id state_version =
    if id == market_id
    then (id, state_version) ∷ rest
    else (id, version) ∷ record_version rest market_id state_version

unfoldable pub is_stale : Option ℕ → ℕ → Bool
is_stale none state_version = false
is_stale (some newest) state_version = leb state_version newest

unfoldable pub accept : VersionGate → ℕ → ℕ → Bool × VersionGate
accept gate market_id state_version =
    if is_stale (latest gate market_id) state_version
    then (false, gate)
    else (true, record_version gate market_id state_version)

-- The events forwarded, in order, and the gate after the last.
unfoldable pub forward : VersionGate → List Event → List Event × VersionGate
forward gate [] = ([], gate)
forward gate ((market_id, state_version) ∷ rest) =
    let (accepted, after) = accept gate market_id state_version in
    let (forwarded, last) = forward after rest in
    if accepted then ((market_id, state_version) ∷ forwarded, last) else (forwarded, last)

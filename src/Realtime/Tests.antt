-- ===== src/Realtime/Tests.antt =====
-- The events of two markets, some of them late or twice, through one gate.
use cs.Base.{List, [], ◌∷◌, ◌≡◌, refl}
use cs.Realtime.{Event, latest, record_version, is_stale, accept, forward}
use cs.Realtime.Rising.{IsGated, forward-IsGated}

abbrev events : List Event
events = (1, 4) ∷ (2, 1) ∷ (1, 3) ∷ (1, 5) ∷ (1, 5) ∷ []

forwarded_once : (forward [] events).0 ≡ (1, 4) ∷ (2, 1) ∷ (1, 5) ∷ []
unfolding forward accept latest is_stale record_version
forwarded_once = refl

forward-IsGated_example :
    IsGated 1 (latest [] 1) (latest (forward [] events).1 1) (forward [] events).0 events
forward-IsGated_example = forward-IsGated [] events 1

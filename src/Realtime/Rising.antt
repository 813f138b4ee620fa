-- ===== src/Realtime/Rising.antt =====
-- backend/realtime_service/service/ordering.py: the order in which a market's versions are forwarded.
use cs.Base.{
  ℕ, ◌≤◌, ◌<◌, ◌≡◌, refl, sym, ◌≢◌, ◌⊎◌, inl, inr, true, false, Option, none, some, List, [], ◌∷◌,
  All, arith, Bool-cases, ==→eq, ==-refl, eq→==, leb, ◌==◌, ◌∙◌, subst,
}
use cs.Realtime.{VersionGate, Event, latest, record_version, is_stale, accept, forward}

abbrev pub IsNewer : Option ℕ → ℕ → Type 0
IsNewer none version = Unit
IsNewer (some newest) version = newest < version

-- One market's versions in a list of events, each above the one before and the first above `newest`.
pub data IsRising (market : ℕ) : Option ℕ → List Event → Type 0 where
  nothing : {newest : Option ℕ} → IsRising market newest []
  other :
      {newest : Option ℕ} {id version : ℕ} {rest : List Event}
      → id ≢ market
      → IsRising market newest rest
      → IsRising market newest ((id, version) ∷ rest)
  newer :
      {newest : Option ℕ} {version : ℕ} {rest : List Event}
      → IsNewer newest version
      → IsRising market (some version) rest
      → IsRising market newest ((market, version) ∷ rest)

-- `newest` is no older than any of the market's versions.
abbrev pub IsNewest : ℕ → Option ℕ → List Event → Type 0
IsNewest market newest events =
    All (λ (e : Event). e.0 ≡ market → (v : ℕ) × (newest ≡ some v) × (e.1 ≤ v)) events

latest-record_version :
    (gate : VersionGate) (id version : ℕ)
    → latest (record_version gate id version) id ≡ some version
unfolding latest record_version
latest-record_version [] id version = rw (==-refl id) refl
latest-record_version ((k, v) ∷ rest) id version = elim (Bool-cases (k == id)) [
  | inl here ↦ rw (here, here) refl
  | inr elsewhere ↦ rw (elsewhere, elsewhere) (latest-record_version rest id version)
]

ne_false : (a b : ℕ) → a ≢ b → (a == b) ≡ false
ne_false a b apart = elim (Bool-cases (a == b)) [
  | inl same ↦ absurd (apart (==→eq a b same))
  | inr different ↦ different
]

different_not_same : (a b : ℕ) → (a == b) ≡ false → (a == b) ≡ true → ⊥
different_not_same a b differs equals = cc

latest-record_version_ne :
    (gate : VersionGate) (id version market : ℕ)
    → id ≢ market
    → latest (record_version gate id version) market ≡ latest gate market
unfolding latest record_version
latest-record_version_ne [] id version market apart = rw (ne_false id market apart) refl
latest-record_version_ne ((k, v) ∷ rest) id version market apart = elim (Bool-cases (k == id)) [
  | inl here ↦
      let other_market = ne_false k market (λ e. apart (sym (==→eq k id here) ∙ e)) in
      rw (here, other_market) refl
  | inr elsewhere ↦ elim (Bool-cases (k == market)) [
    | inl wanted ↦ rw (elsewhere, wanted) refl
    | inr passed ↦ rw (elsewhere, passed) (latest-record_version_ne rest id version market apart)
  ]
]

stale_or_IsNewer :
    (newest : Option ℕ) (version : ℕ)
    → ((v : ℕ) × (is_stale newest version ≡ true) × (newest ≡ some v) × (version ≤ v))
      ⊎ ((is_stale newest version ≡ false) × IsNewer newest version)
unfolding is_stale
stale_or_IsNewer none version = inr (refl, tt)
stale_or_IsNewer (some v) version = elim (Bool-cases (leb version v)) [
  | inl stale ↦ inl (v, stale, refl, ground arith)
  | inr fresh ↦ inr (fresh, ground arith)
]

-- What a gate whose newest version of `market` goes from `newest` to `final` forwards of `events`: a version
-- of the market exactly when it is above the newest at that point, which it then is.
pub data IsChosen (market : ℕ) : Option ℕ → Option ℕ → List Event → List Event → Type 0 where
  done : {newest : Option ℕ} → IsChosen market newest newest [] []
  sent :
      {newest final : Option ℕ} {version : ℕ} {forwarded events : List Event}
      → IsNewer newest version
      → IsChosen market (some version) final forwarded events
      → IsChosen market newest final ((market, version) ∷ forwarded) ((market, version) ∷ events)
  dropped :
      {final : Option ℕ} {version v : ℕ} {forwarded events : List Event}
      → version ≤ v
      → IsChosen market (some v) final forwarded events
      → IsChosen market (some v) final forwarded ((market, version) ∷ events)
  other_sent :
      {newest final : Option ℕ} {id version : ℕ} {forwarded events : List Event}
      → id ≢ market
      → IsChosen market newest final forwarded events
      → IsChosen market newest final ((id, version) ∷ forwarded) ((id, version) ∷ events)
  other_dropped :
      {newest final : Option ℕ} {id version : ℕ} {forwarded events : List Event}
      → id ≢ market
      → IsChosen market newest final forwarded events
      → IsChosen market newest final forwarded ((id, version) ∷ events)

pub record IsGated (market : ℕ) (newest final : Option ℕ) (forwarded events : List Event)
    : Type 0 where
  pub chosen : IsChosen market newest final forwarded events
  pub rising : IsRising market newest forwarded
  pub kept : (v : ℕ) → newest ≡ some v → (w : ℕ) × (final ≡ some w) × (v ≤ w)
  pub covered : IsNewest market final events

chosen-IsGated :
    (market : ℕ) {newest final : Option ℕ} {forwarded events : List Event}
    → IsChosen market newest final forwarded events
    → IsGated market newest final forwarded events
chosen-IsGated market done = record {
  chosen = done;
  rising = nothing;
  kept = λ v e. (v, e, omega arith);
  covered = tt;
}
chosen-IsGated market (sent {newest} {final} {version} fresh later) =
    let g = chosen-IsGated market later in
    record {
      chosen = sent fresh later;
      rising = newer fresh g.rising;
      kept = λ v was.
          let (w, is_final, up) = g.kept version refl in
          let below : IsNewer (some v) version = subst (λ n. IsNewer n version) was fresh in
          (w, is_final, omega arith);
      covered = ((λ _. g.kept version refl), g.covered);
    }
chosen-IsGated market (dropped {version = version} {v = v} older later) =
    let g = chosen-IsGated market later in
    record {
      chosen = dropped older later;
      rising = g.rising;
      kept = g.kept;
      covered =
          ((λ _. let (w, is_final, up) = g.kept v refl in (w, is_final, omega arith)), g.covered);
    }
chosen-IsGated market (other_sent apart later) =
    let g = chosen-IsGated market later in
    record {
      chosen = other_sent apart later;
      rising = other apart g.rising;
      kept = g.kept;
      covered = ((λ same. absurd (apart same)), g.covered);
    }
chosen-IsGated market (other_dropped apart later) =
    let g = chosen-IsGated market later in
    record {
      chosen = other_dropped apart later;
      rising = g.rising;
      kept = g.kept;
      covered = ((λ same. absurd (apart same)), g.covered);
    }

-- The next event, of the market itself
IsChosen-stale :
    (market id version v : ℕ) {newest final : Option ℕ} {forwarded events : List Event}
    → id ≡ market
    → newest ≡ some v
    → version ≤ v
    → IsChosen market newest final forwarded events
    → IsChosen market newest final forwarded ((id, version) ∷ events)
IsChosen-stale market id version v {newest} {final} {forwarded} {events} here was older later =
    subst (λ i. IsChosen market newest final forwarded ((i, version) ∷ events)) (sym here)
      (subst (λ n. IsChosen market n final forwarded ((market, version) ∷ events)) (sym was)
        (dropped older (subst (λ n. IsChosen market n final forwarded events) was later)))

IsChosen-newer :
    (market id version : ℕ) {newest next final : Option ℕ} {forwarded events : List Event}
    → id ≡ market
    → next ≡ some version
    → IsNewer newest version
    → IsChosen market next final forwarded events
    → IsChosen market newest final ((id, version) ∷ forwarded) ((id, version) ∷ events)
IsChosen-newer market id version {newest} {final = final} {forwarded} {events} here reached fresh
      later =
    subst (λ i. IsChosen market newest final ((i, version) ∷ forwarded) ((i, version) ∷ events))
      (sym here) (sent fresh (subst (λ n. IsChosen market n final forwarded events) reached later))

forward-IsChosen :
    (gate : VersionGate) (events : List Event) (market : ℕ)
    → IsChosen market
        (latest gate market)
        (latest (forward gate events).1 market)
        (forward gate events).0
        events
unfolding forward accept
forward-IsChosen gate [] market = done
forward-IsChosen gate ((id, version) ∷ rest) market =
    elim (stale_or_IsNewer (latest gate id) version) [
      | inl (v, stale, was, older) ↦
          let later = forward-IsChosen gate rest market in
          elim (Bool-cases (id == market)) [
            | inl same ↦
                let here = ==→eq id market same in
                rw stale (
                  IsChosen-stale market id version v here
                    (subst (λ m. latest gate m ≡ some v) here was) older later)
            | inr apart ↦
                let other_market : id ≢ market =
                  λ e. different_not_same id market apart (eq→== id market e) in
                rw stale (other_dropped other_market later)
          ]
      | inr (fresh, above) ↦
          let after = record_version gate id version in
          let later = forward-IsChosen after rest market in
          elim (Bool-cases (id == market)) [
            | inl same ↦
                let here = ==→eq id market same in
                let reached = latest-record_version gate id version in
                rw fresh (
                  IsChosen-newer market id version here
                    (subst (λ m. latest after m ≡ some version) here reached)
                    (subst (λ m. IsNewer (latest gate m) version) here above) later)
            | inr apart ↦
                let other_market : id ≢ market =
                  λ e. different_not_same id market apart (eq→== id market e) in
                let same_newest = latest-record_version_ne gate id version market other_market in
                rw fresh (
                  other_sent other_market (
                    subst
                      (λ n.
                        IsChosen market n (latest (forward after rest).1 market)
                          (forward after rest).0 rest)
                      same_newest later))
          ]
    ]

-- Of any events, in any order, a gate forwards an event of a market exactly when its version is above the newest
-- that the gate has forwarded of that market, and keeps the events' order. So each market's versions go out
-- strictly rising, the first above the newest it had forwarded before, and the newest it has at the end is no
-- older than that one or than the version of any event.
pub forward-IsGated :
    (gate : VersionGate) (events : List Event) (market : ℕ)
    → IsGated market
        (latest gate market)
        (latest (forward gate events).1 market)
        (forward gate events).0
        events
forward-IsGated gate events market = chosen-IsGated market (forward-IsChosen gate events market)

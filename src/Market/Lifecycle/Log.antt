-- ===== src/Market/Lifecycle/Log.antt =====
-- A settled or a voided market is final, and each commit on an existing row appends one entry.
use cs.Base.{
  ℕ, ◌≡◌, refl, sym, ◌∙◌, ◌≢◌, ◌⊎◌, inl, inr, subst, Bool, true, false, Option, none, some, List,
  [], ◌∷◌, ◌++◌, arith, ok, Bool-cases, ◌==◌, ==→eq, eq→==,
}
use cs.Market.{MarketStatus, settled, voided, Market, Actor}
use cs.Market.Audit.{AdminAction, AuditEntry}
use cs.Market.Lifecycle.Rows.{Store, load, put, commit, is_wanted}
use cs.Market.Lifecycle.Steps.{Settings}
use cs.Market.Lifecycle.Diagram.{
  IsFinal, Edge, publishes, stops, proposes, agrees, rejects, sends_back, settles, voids_closed,
  voids_pending, voids_approved, Changes,
}
use cs.Market.Lifecycle.Effects.{
  publish-Change, close_early-Change, propose_outcome-Change, approve_outcome-Change,
  reject_outcome-Change, send_back_outcome-Change,
}
use cs.Market.Lifecycle.Endings.{settle-Change, void-Change}
use cs.Market.Lifecycle.Reach.{
  Request, publishing, settling, closing, voiding, proposing, approving, rejecting, sending_back,
  handle, IsUnused,
}

-- No two rows share an id.
abbrev pub IsKeyed : List Market → Type 0
IsKeyed [] = Unit
IsKeyed (m ∷ ms) = IsUnused m.id ms × IsKeyed ms

-- The row that a request names.
abbrev pub target_of : Request → ℕ
target_of (publishing id) = id
target_of (settling id) = id
target_of (closing id reason) = id
target_of (voiding id reason) = id
target_of (proposing id request fresh) = id
target_of (approving id proposal_id) = id
target_of (rejecting id proposal_id reason) = id
target_of (sending_back id proposal_id reason) = id

wanted-id :
    (creator_id : Option ℕ) (id : ℕ) (x : Market) → is_wanted creator_id id x ≡ true → x.id ≡ id
unfolding is_wanted
wanted-id none id x h = ground arith
wanted-id (some c) id x h = ground arith

load-unused :
    (creator_id : Option ℕ) (id : ℕ) (ms : List Market) {m : Market}
    → IsUnused id ms
    → load creator_id id ms ≢ ok m
unfolding load
load-unused creator_id id [] u h = cc
load-unused creator_id id (x ∷ ms) u h = elim (Bool-cases (is_wanted creator_id id x)) [
  | inl wanted ↦ u.0 (wanted-id creator_id id x wanted)
  | inr other ↦ load-unused creator_id id ms u.1 (rw other at h)
]

-- The creator's read of a row is the unscoped read of it.
load-creator :
    (creator_id : Option ℕ) (id : ℕ) (ms : List Market) {m : Market}
    → IsKeyed ms
    → load creator_id id ms ≡ ok m
    → load none id ms ≡ ok m
unfolding load
load-creator creator_id id [] k h = cc
load-creator creator_id id (x ∷ ms) {m} k h = elim (Bool-cases (is_wanted creator_id id x)) [
  | inl wanted ↦
      let here : is_wanted none id x ≡ true =
        unfold is_wanted in eq→== x.id id (wanted-id creator_id id x wanted) in
      rw here (rw wanted at h)
  | inr other ↦ elim (Bool-cases (is_wanted none id x)) [
    | inl here ↦
        let unused : IsUnused id ms = subst (λ i. IsUnused i ms) (wanted-id none id x here) k.0 in
        absurd (load-unused creator_id id ms unused (rw other at h))
    | inr there ↦ rw there (load-creator creator_id id ms k.1 (rw other at h))
  ]
]

load-id : (id : ℕ) (ms : List Market) {m : Market} → load none id ms ≡ ok m → m.id ≡ id
unfolding load is_wanted
load-id id [] h = cc
load-id id (x ∷ ms) {m} h = elim (Bool-cases (x.id == id)) [
  | inl here ↦
      let same : x ≡ m = cc (rw here at h) in subst (λ y. y.id ≡ id) same (==→eq x.id id here)
  | inr there ↦ load-id id ms (rw there at h)
]

load-put_ne :
    (id : ℕ) (m : Market) (ms : List Market) → m.id ≢ id → load none id (put m ms) ≡ load none id ms
unfolding load put is_wanted
load-put_ne id m [] ne = refl
load-put_ne id m (x ∷ ms) ne = ground (arith, load-put_ne id m ms ne)

load-put :
    (id : ℕ) (m : Market) (ms : List Market) {x : Market}
    → m.id ≡ id
    → load none id ms ≡ ok x
    → load none id (put m ms) ≡ ok m
unfolding load put is_wanted
load-put id m [] own found = absurd cc
load-put id m (x ∷ ms) own found = elim (Bool-cases (x.id == id)) [
  | inl here ↦
      let kept : (x.id == m.id) ≡ true = rw own here in
      let itself : (m.id == id) ≡ true = eq→== m.id id own in rw (kept, itself) refl
  | inr there ↦
      let passed : (x.id == m.id) ≡ false = rw own there in
      rw (passed, there) (load-put id m ms own (rw there at found))
]

-- What a request that returned did to the row it names, read without the creator's scope.
pub handle-Changes :
    (settings : Settings) (actor : Actor) (r : Request) (now : ℕ) (s t : Store) {m' : Market}
    → IsKeyed s.markets
    → handle settings actor r now s ≡ ok (m', t)
    → Changes none (target_of r) s m' t
unfolding handle
handle-Changes settings actor (publishing id) now s t k h =
    let (m, found, rest) = publish-Change settings actor id now s h in
    (m, load-creator (some actor.id) id s.markets k found, rest)
handle-Changes settings actor (settling id) now s t k h = settle-Change actor id now s h
handle-Changes settings actor (closing id reason) now s t k h =
    close_early-Change actor id reason now s h
handle-Changes settings actor (voiding id reason) now s t k h = void-Change actor id reason now s h
handle-Changes settings actor (proposing id request fresh) now s t k h =
    let (m, found, rest) = propose_outcome-Change settings actor id request fresh now s h in
    (m, load-creator (some actor.id) id s.markets k found, rest)
handle-Changes settings actor (approving id pid) now s t k h =
    approve_outcome-Change settings actor id pid now s h
handle-Changes settings actor (rejecting id pid reason) now s t k h =
    reject_outcome-Change actor id pid reason now s h
handle-Changes settings actor (sending_back id pid reason) now s t k h =
    send_back_outcome-Change actor id pid reason now s h

abbrev final_status : MarketStatus → Bool
final_status settled = true
final_status voided = true
final_status _ = false

Edge-live : {action : AdminAction} {a b : MarketStatus} → Edge action a b → final_status a ≡ false
Edge-live publishes = refl
Edge-live stops = refl
Edge-live proposes = refl
Edge-live agrees = refl
Edge-live rejects = refl
Edge-live sends_back = refl
Edge-live settles = refl
Edge-live voids_closed = refl
Edge-live voids_pending = refl
Edge-live voids_approved = refl

final-not-live : (m : Market) → IsFinal m → final_status m.status ≢ false
final-not-live m (inl e) h = cc (rw e at h)
final-not-live m (inr e) h = cc (rw e at h)

-- The row written is another one: a final row takes no edge.
final_of :
    (target id : ℕ) (s t : Store) (m m' : Market)
    → load none id s.markets ≡ ok m
    → IsFinal m
    → Changes none target s m' t
    → load none id t.markets ≡ ok m
unfolding commit
final_of target id s t m m' found final (x, found_x, inr (_, same, ended)) =
    subst (λ (y : Store). load none id y.markets ≡ ok m) (sym same) found
final_of target id s t m m' found final (x, found_x, inl (entry, change, e)) =
    subst (λ (y : Store). load none id y.markets ≡ ok m) (sym e)
      (load-put_ne id m' s.markets other ∙ found)
  where
    other : m'.id ≢ id
    other same =
        let here : target ≡ id =
          sym (load-id target s.markets found_x) ∙ (sym change.same_id ∙ same) in
        let loaded : load none id s.markets ≡ ok x =
          subst (λ i. load none i s.markets ≡ ok x) here found_x in
        let found_again : m ≡ x = cc in
        final-not-live m final (
          subst (λ (y : Market). final_status y.status ≡ false) (sym found_again)
            (Edge-live change.edge))

-- Where no two rows share an id, a request that returns leaves every settled and every voided
-- market's row as it was.
pub handle-final :
    (settings : Settings) (actor : Actor) (r : Request) (now id : ℕ) (s t : Store) (m m' : Market)
    → IsKeyed s.markets
    → load none id s.markets ≡ ok m
    → IsFinal m
    → handle settings actor r now s ≡ ok (m', t)
    → load none id t.markets ≡ ok m
handle-final settings actor r now id s t m m' k found final h =
    final_of (target_of r) id s t m m' found final (handle-Changes settings actor r now s t k h)

-- What a request leaves: the row that it returns, stored under the id that it names, with every other id's row
-- as it was, and one more entry in the log, under that id and of the edge that the row took; or, for a
-- market that has ended, its row returned and the rows and the log as they were.
abbrev pub IsLogged : ℕ → Store → Market → Store → Type 0
IsLogged id s m' t =
    ((before : Market) × (entry : AuditEntry) × (load none id s.markets ≡ ok before)
      × Edge entry.action_type before.status m'.status
      × (t.log ≡ s.log ++ (entry ∷ []))
      × (entry.target_id ≡ id)
      × (load none id t.markets ≡ ok m')
      × ((other : ℕ) → other ≢ id → load none other t.markets ≡ load none other s.markets))
    ⊎ ((load none id s.markets ≡ ok m') × IsFinal m' × (t ≡ s))

Changes-IsLogged :
    (id : ℕ) (s t : Store) (m' : Market) → Changes none id s m' t → IsLogged id s m' t
unfolding commit
Changes-IsLogged id s t m' (x, found, inr (as_found, same, ended)) =
    inr (rw as_found found, rw as_found ended, same)
Changes-IsLogged id s t m' (x, found, inl (entry, change, e)) =
    let here : m'.id ≡ id = change.same_id ∙ load-id id s.markets found in
    inl (
      x,
      entry,
      found,
      change.edge,
      rw e refl,
      change.target ∙ load-id id s.markets found,
      rw e (load-put id m' s.markets here found),
      (λ other apart. rw e (load-put_ne other m' s.markets (λ same. apart (sym same ∙ here)))),
    )

-- Where no two rows share an id, a request that returns stores the row that it returns under the id that it names, leaves
-- every other id's row as it was, and appends to the log one entry, under that id and for an edge of the status
-- diagram from the status that the stored row had to the status it has then; or it changes
-- neither the log nor a row, which it does only for a market that is settled or voided, and returns its row.
pub handle-log :
    (settings : Settings) (actor : Actor) (r : Request) (now : ℕ) (s t : Store) (m' : Market)
    → IsKeyed s.markets
    → handle settings actor r now s ≡ ok (m', t)
    → IsLogged (target_of r) s m' t
handle-log settings actor r now s t m' k h =
    Changes-IsLogged (target_of r) s t m' (handle-Changes settings actor r now s t k h)

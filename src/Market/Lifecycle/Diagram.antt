-- ===== src/Market/Lifecycle/Diagram.antt =====
-- The status diagram with the actions that its edges are logged under, the shape of the proposal
-- and approval columns in each status, and what a write may do to the row that it locked.
use cs.Base.{ℕ, ◌≡◌, ◌≢◌, ◌⊎◌, sym, subst, inl, inr, Option, some, ok}
use cs.Market.{
  MarketStatus, draft, submitted, opened, closed, pending_resolution, approved, settled, voided,
  Market,
}
use cs.Market.Audit.{
  AdminAction, AuditEntry, market_published, market_closed_early, market_outcome_proposed,
  market_outcome_approved, market_outcome_rejected, market_outcome_sent_back, market_marked_settled,
  market_marked_voided,
}
use cs.Market.Lifecycle.Rows.{Store, load, commit, no_proposal, no_approval}
use cs.Market.Lifecycle.Steps.{Written}

-- The status diagram: one constructor for each edge that an operation on a row takes, with the
-- action that it is logged under.
pub data Edge : AdminAction → MarketStatus → MarketStatus → Type 0 where
  publishes : Edge market_published submitted opened
  stops : Edge market_closed_early opened closed
  proposes : Edge market_outcome_proposed closed pending_resolution
  agrees : Edge market_outcome_approved pending_resolution approved
  rejects : Edge market_outcome_rejected pending_resolution closed
  sends_back : Edge market_outcome_sent_back approved closed
  settles : Edge market_marked_settled approved settled
  voids_closed : Edge market_marked_voided closed voided
  voids_pending : Edge market_marked_voided pending_resolution voided
  voids_approved : Edge market_marked_voided approved voided

-- No outcome is proposed, and none approved.
abbrev pub IsUndecided : Market → Type 0
IsUndecided m = (m.proposal ≡ no_proposal) × (m.approval ≡ no_approval)

-- An outcome is proposed by one administrator, and nobody has approved it.
abbrev pub IsProposed : Market → Type 0
IsProposed m =
    (p : ℕ) × (o : ℕ) × (m.proposed_by_id ≡ some p)
    × (m.proposed_outcome_id ≡ some o)
    × (m.approval ≡ no_approval)

-- An outcome is proposed by one administrator and approved by another, and a window was stored.
abbrev pub IsApproved : Market → Type 0
IsApproved m =
    (p : ℕ) × (a : ℕ) × (o : ℕ) × (e : ℕ) × (m.proposed_by_id ≡ some p)
    × (m.approved_by_id ≡ some a)
    × (p ≢ a)
    × (m.proposed_outcome_id ≡ some o)
    × (m.dispute_window_ends_at ≡ some e)

abbrev pub HasShape : MarketStatus → Market → Type 0
HasShape draft m = IsUndecided m
HasShape submitted m = IsUndecided m
HasShape opened m = IsUndecided m
HasShape closed m = IsUndecided m
HasShape pending_resolution m = IsProposed m
HasShape approved m = IsApproved m
HasShape settled m = IsApproved m
HasShape voided m = IsUndecided m ⊎ IsApproved m

abbrev pub IsWellFormed : Market → Type 0
IsWellFormed m = HasShape m.status m

-- What a write did to a row, and the entry that it logged.
pub record Change (m m' : Market) (entry : AuditEntry) : Type 0 where
  pub same_id : m'.id ≡ m.id
  pub same_creator : m'.creator_id ≡ m.creator_id
  pub target : entry.target_id ≡ m.id
  pub edge : Edge entry.action_type m.status m'.status
  pub shape : IsWellFormed m → IsWellFormed m'

abbrev pub IsFinal : Market → Type 0
IsFinal m = (m.status ≡ settled) ⊎ (m.status ≡ voided)

-- The row that an operation found, and either the one row and one entry that it committed, or,
-- for a repeat on a market that has ended, nothing.
abbrev pub Changes : Option ℕ → ℕ → Store → Market → Store → Type 0
Changes creator_id market_id s m' t =
    (m : Market) × (load creator_id market_id s.markets ≡ ok m)
    × (((entry : AuditEntry) × Change m m' entry × (t ≡ commit s m' entry))
        ⊎ ((m' ≡ m) × (t ≡ s) × IsFinal m))

Edge-along :
    {a b c d : MarketStatus} {x y : AdminAction} → a ≡ c → b ≡ d → x ≡ y → Edge y c d → Edge x a b
Edge-along p q r e = rw p (rw q (rw r e))

-- An operation whose source and target statuses are one each.
pub Change-of :
    {m m' : Market} {entry : AuditEntry} {a b : MarketStatus} {action : AdminAction}
    → m.status ≡ a
    → m'.status ≡ b
    → entry.action_type ≡ action
    → Edge action a b
    → (m'.id ≡ m.id) × (m'.creator_id ≡ m.creator_id) × (entry.target_id ≡ m.id)
    → (HasShape a m → HasShape b m')
    → Change m m' entry
Change-of {m} {m'} p q r e same shape = record {
  same_id = same.0;
  same_creator = same.1;
  target = same.2;
  edge = Edge-along p q r e;
  shape = λ w. subst (λ x. HasShape x m') (sym q) (shape (subst (λ x. HasShape x m) p w));
}

row_eq : {r m' : Market} {s t : Store} → ◌≡◌ {A = Written} (ok (r, s)) (ok (m', t)) → r ≡ m'
row_eq e = cc

store_eq :
    (s : Store) (entry : AuditEntry) {r m' : Market} {t : Store}
    → ◌≡◌ {A = Written} (ok (r, commit s r entry)) (ok (m', t))
    → t ≡ commit s m' entry
store_eq s entry e = cc

-- An operation that ends by committing the row `r` and an entry, or by repeating itself.
pub committed :
    (creator_id : Option ℕ) (id : ℕ) {s t : Store} {m r m' : Market} {entry : AuditEntry}
    → load creator_id id s.markets ≡ ok m
    → Change m r entry
    → ◌≡◌ {A = Written} (ok (r, commit s r entry)) (ok (m', t))
    → Changes creator_id id s m' t
committed creator_id id {s} {m = m} {r = r} {entry = entry} found change e =
    (m, found, inl (entry, subst (λ x. Change m x entry) (row_eq e) change, store_eq s entry e))

pub repeated :
    (creator_id : Option ℕ) (id : ℕ) {s t : Store} {m m' : Market}
    → load creator_id id s.markets ≡ ok m
    → IsFinal m
    → ◌≡◌ {A = Written} (ok (m, s)) (ok (m', t))
    → Changes creator_id id s m' t
repeated creator_id id {m = m} found ended e = (m, found, inr (cc, cc, ended))

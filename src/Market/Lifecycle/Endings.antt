-- ===== src/Market/Lifecycle/Endings.antt =====
-- market_service.py, `settle` and `void`: what each may do to the row that it locked.
use cs.Base.{
  true, ℕ, ◌≡◌, refl, ◌⊎◌, inl, inr, subst, not, Option, none, arith, ok, >>=-eq-ok, raise_if,
  Bool-cases,
}
use cs.Base.Text.{Text}
use cs.Market.{closed, pending_resolution, approved, settled, voided, status_is, Market, Actor}
use cs.Market.Settling.{is_awaiting_outcome}
use cs.Market.Audit.{
  DecisionSnapshot, market_marked_voided, record_marked_settled, record_marked_voided,
}
use cs.Market.Lifecycle.Rows.{
  Store, load, clear_proposal, market_not_approved, market_already_voided,
}
use cs.Market.Lifecycle.Steps.{settle, voided_row, void, refuse_if_not_voidable}
use cs.Market.Lifecycle.Diagram.{
  settles, voids_closed, voids_pending, voids_approved, IsApproved, HasShape, IsWellFormed, Edge,
  Change, Changes, Change-of, committed, repeated,
}

payable :
    (m : Market)
    → raise_if (not (status_is m.status approved)) market_not_approved ≡ ok tt
    → m.status ≡ approved
unfolding status_is raise_if
payable m h = ground arith

status_is-settled : (m : Market) → status_is m.status settled ≡ true → m.status ≡ settled
unfolding status_is
status_is-settled m h = ground arith

status_is-voided : (m : Market) → status_is m.status voided ≡ true → m.status ≡ voided
unfolding status_is
status_is-voided m h = ground arith

pub settle-Change :
    (actor : Actor) (id now : ℕ) (s : Store) {m' : Market} {t : Store}
    → settle actor id now s ≡ ok (m', t)
    → Changes none id s m' t
unfolding settle record_marked_settled
settle-Change actor id now s h =
    let (m, found, h₁) = >>=-eq-ok (load none id s.markets) _ h in
    elim (Bool-cases (status_is m.status settled)) [
      | inl again ↦ repeated none id found (inl (status_is-settled m again)) (rw again at h₁)
      | inr first ↦
          let (_, _, h₂) = >>=-eq-ok (raise_if _ market_already_voided) _ (rw first at h₁) in
          let (_, agreed, h₃) = >>=-eq-ok (raise_if _ market_not_approved) _ h₂ in
          let (_, _, h₄) = >>=-eq-ok (raise_if _ _) _ h₃ in
          committed none id found
            (Change-of (payable m agreed) refl refl settles (refl, refl, refl) (λ w. w)) h₄
    ]

-- A void moves a market that awaits its outcome, or an approved one.
abbrev IsEndable : Market → Type 0
IsEndable m = (m.status ≡ closed) ⊎ ((m.status ≡ pending_resolution) ⊎ (m.status ≡ approved))

refuse_if_not_voidable-ok :
    (m : Market) (now : ℕ) → refuse_if_not_voidable m now ≡ ok tt → IsEndable m
unfolding refuse_if_not_voidable is_awaiting_outcome status_is raise_if
refuse_if_not_voidable-ok m now h = ground arith

voided_row-HasShape :
    (m : Market) (reason : Text) (now : ℕ)
    → IsEndable m
    → IsWellFormed m
    → HasShape voided (voided_row m reason now)
unfolding voided_row clear_proposal status_is
voided_row-HasShape m reason now (inl e) w = inl (ground arith)
voided_row-HasShape m reason now (inr (inl e)) w = inl (ground arith)
voided_row-HasShape m reason now (inr (inr e)) w =
    let kept : IsApproved m = subst (λ x. HasShape x m) e w in rw e (inr kept)

voided_row-Change :
    (actor : Actor) (m : Market) (reason : Text) (now : ℕ) (cleared : Option DecisionSnapshot)
    → IsEndable m
    → let r = voided_row m reason now in
      Change m r (record_marked_voided actor r reason m.status cleared now)
unfolding voided_row record_marked_voided clear_proposal
voided_row-Change actor m reason now cleared h = record {
  same_id = ground arith;
  same_creator = ground arith;
  target = ground arith;
  edge = voids h;
  shape = voided_row-HasShape m reason now h;
}
  where
    voids : IsEndable m → Edge market_marked_voided m.status voided
    voids (inl e) = rw e voids_closed
    voids (inr (inl e)) = rw e voids_pending
    voids (inr (inr e)) = rw e voids_approved

pub void-Change :
    (actor : Actor) (id : ℕ) (reason : Text) (now : ℕ) (s : Store) {m' : Market} {t : Store}
    → void actor id reason now s ≡ ok (m', t)
    → Changes none id s m' t
unfolding void
void-Change actor id reason now s h =
    let (m, found, h₁) = >>=-eq-ok (load none id s.markets) _ h in
    elim (Bool-cases (status_is m.status voided)) [
      | inl again ↦ repeated none id found (inr (status_is-voided m again)) (rw again at h₁)
      | inr first ↦
          let (_, allowed, h₂) = >>=-eq-ok (refuse_if_not_voidable m now) _ (rw first at h₁) in
          committed none id found
            (voided_row-Change actor m reason now _ (refuse_if_not_voidable-ok m now allowed)) h₂
    ]

-- ===== src/Market/Lifecycle/Edges.antt =====
-- The edges in time at which settling, voiding and sending back are accepted on one row.
use cs.Base.{
  ℕ, ◌+◌, ◌≤◌, ◌≡◌, refl, inl, inr, true, false, not, ◌||◌, Option, none, some, arith, ok,
  >>=-eq-ok, raise_if, is_ok, is_ok-ok, Bool-cases,
}
use cs.Base.Text.{Text}
use cs.Market.{approved, voided, status_is, Market, Actor}
use cs.Market.Settling.{
  settlement_gap, is_in_dispute_window, is_before_settlement_opens, is_awaiting_outcome, settleable,
  voidable,
}
use cs.Market.Lifecycle.Rows.{Store, load}
use cs.Market.Lifecycle.Steps.{
  settle, void, refuse_if_not_voidable, refuse_if_not_returnable, send_back_outcome,
}
use cs.Market.Lifecycle.Effects.{refuse_if_not_returnable-ok}

module _ (actor : Actor) (id : ℕ) (s : Store) (m : Market)
    (found : load none id s.markets ≡ ok m) where
  -- The settle step accepts exactly when the `settleable` flag is true.
  pub settle_accepts :
      (now : ℕ) → is_ok (settle actor id now s) ≡ settleable m.status m.dispute_window_ends_at now
  unfolding settle settleable status_is raise_if
  settle_accepts now = rw found (ground arith)

  pub void_accepts :
      (reason : Text) (now : ℕ)
      → is_ok (void actor id reason now s)
        ≡ (status_is m.status voided || is_ok (refuse_if_not_voidable m now))
  unfolding void
  void_accepts reason now = rw found (elim (Bool-cases (status_is m.status voided)) [
    | inl e ↦ rw e refl
    | inr e ↦ rw e (ground arith)
  ])

-- At every instant, of the settle step and the void step of one approved market with a stored
-- window end exactly one is accepted, whoever asks.
pub settle-void_exclusive :
    (actor other : Actor) (id : ℕ) (reason : Text) (now : ℕ) (s : Store) (m : Market) (e : ℕ)
    → load none id s.markets ≡ ok m
    → m.status ≡ approved
    → m.dispute_window_ends_at ≡ some e
    → is_ok (settle actor id now s) ≡ not (is_ok (void other id reason now s))
unfolding settleable status_is refuse_if_not_voidable is_awaiting_outcome raise_if
    is_before_settlement_opens
settle-void_exclusive actor other id reason now s m e found was_approved window =
    rw (settle_accepts actor id s m found now)
      (rw (void_accepts other id s m found reason now) (ground arith))

window_then_gap :
    (m : Market) (now later : ℕ)
    → m.status ≡ approved
    → is_in_dispute_window m.dispute_window_ends_at now ≡ true
    → later ≤ now + settlement_gap
    → settleable m.status m.dispute_window_ends_at later ≡ false
unfolding settleable status_is is_in_dispute_window
window_then_gap m now later was_approved inside soon = ground arith

-- When a send-back is accepted at one instant, no settle step that reads the same row is accepted
-- until five minutes after that instant.
pub send_back_before_settle :
    (actor other : Actor) (id : ℕ) (proposal_id : Option ℕ) (reason : Text) (now later : ℕ)
    (s : Store)
    → is_ok (send_back_outcome actor id proposal_id reason now s) ≡ true
    → later ≤ now + settlement_gap
    → is_ok (settle other id later s) ≡ false
unfolding send_back_outcome
send_back_before_settle actor other id proposal_id reason now later s accepted soon =
    let (written, returned) =
      is_ok-ok (send_back_outcome actor id proposal_id reason now s) accepted in
    let (m, found, after) = >>=-eq-ok (load none id s.markets) _ returned in
    let (_, allowed, _) = >>=-eq-ok (refuse_if_not_returnable m proposal_id now) _ after in
    let (was_approved, inside, _) = refuse_if_not_returnable-ok m proposal_id now allowed in
    rw (settle_accepts other id s m found later)
      (window_then_gap m now later was_approved inside soon)

-- A void that the ledger starts while the `voidable` flag is true is still accepted by the void
-- step up to five minutes later, if the row has not changed.
pub voidable-void :
    (actor : Actor) (id : ℕ) (reason : Text) (now later : ℕ) (s : Store) (m : Market)
    → load none id s.markets ≡ ok m
    → voidable m.status m.dispute_window_ends_at now ≡ true
    → later ≤ now + settlement_gap
    → is_ok (void actor id reason later s) ≡ true
unfolding voidable refuse_if_not_voidable is_awaiting_outcome status_is raise_if
    is_before_settlement_opens is_in_dispute_window
voidable-void actor id reason now later s m found flagged soon =
    rw (void_accepts actor id s m found reason later) (ground arith)

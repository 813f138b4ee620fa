-- ===== src/Ledger/Placing/Cases.antt =====
-- backend/ledger_service/service/orders.py: the two ways that `place` returns.
use cs.Base.{
  refl, ◌≡◌, false, Option, none, some, List, ok, ok_injective, ◌⊎◌, inl, inr, sym, ◌∙◌, ap, subst,
}
use cs.Ledger.Lmsr.{Engine}
use cs.Ledger.Rows.{Tables, Transaction, user}
use cs.Ledger.Accounts.{World}
use cs.Ledger.Gates.{refuse_if_suspended, ensure_trading}
use cs.Ledger.Session.{committed_by-ok, Session, committing-Keeps, >>=-returned}
use cs.Ledger.Trading.Execute.{Environment, tables_at_lock}
use cs.Ledger.Trading.Backed.{IsBacked, ensure_open-IsBacked, ensure_granted-IsBacked}
use cs.Ledger.Placing.{PlaceRequest, NewRow, Placement}
use cs.Ledger.Placing.Stored.{placement_if_present}
use cs.Ledger.Placing.Planning.{Planned, plan_placement}
use cs.Ledger.Placing.Committing.{Placed, placed_before, commit_planned, placed_of}
use cs.Ledger.Placing.Place.{unless_placed, place_key, place_under_lock, place_anew, place}

module _ (engine : Engine) (world : World) (env : Environment) (row : NewRow)
    (request : PlaceRequest) (x : Placed) (after : Tables) where
  -- An order had the key: it is answered, and nothing is published.
  pub record Repeated : Type 0 where
    pub placement : Placement
    pub answer : x ≡ placed_before placement
    pub kept :
        placement_if_present engine (place_key engine world env row request) request after
        ≡ ok (some placement)

  -- The tables that the request locked, and the plan that it committed on them
  pub record Reached (s : Tables) : Type 0 where
    pub allowed : refuse_if_suspended env.auth_answer ≡ ok tt
    pub trading : ensure_trading s request.market_id env.gate_terms ≡ ok tt
    pub locked : Tables
    pub at_lock : locked ≡ tables_at_lock world env request.market_id request.user_id s
    pub planned : Planned
    pub as_planned :
        plan_placement engine world row env.now request
          (place_key engine world env row request)
          locked
        ≡ ok planned
    pub transactions : List Transaction
    pub committed :
        commit_planned world env.new_ids env.now (world.id_of user request.user_id) planned locked
        ≡ ok (transactions, after)
    pub answered : placed_of engine env.now planned transactions ≡ ok x
    pub still_backed :
        ((t : Tables) → IsBacked t → IsBacked (env.meanwhile t)) → IsBacked s → IsBacked locked

  unless_placed-cases :
      (t : Tables) (found : Option Placement) (go_on : Session Placed)
      → placement_if_present engine (place_key engine world env row request) request t ≡ ok found
      → unless_placed found go_on t ≡ (ok x, after)
      → Repeated ⊎ (go_on t ≡ (ok x, after))
  unless_placed-cases t none go_on looked h = inr h
  unless_placed-cases t (some placement) go_on looked h = inl (record {
    placement = placement;
    answer = sym (ok_injective (ap (λ p. p.0) h));
    kept =
        subst
          (λ a.
            placement_if_present engine (place_key engine world env row request) request a
            ≡ ok (some placement))
          (ap (λ p. p.1) h) looked;
  })

  under_lock_returned :
      (s locked : Tables)
      → refuse_if_suspended env.auth_answer ≡ ok tt
      → ensure_trading s request.market_id env.gate_terms ≡ ok tt
      → locked ≡ tables_at_lock world env request.market_id request.user_id s
      → (((t : Tables) → IsBacked t → IsBacked (env.meanwhile t)) → IsBacked s → IsBacked locked)
      → place_under_lock engine world env row request locked ≡ (ok x, after)
      → Reached s
  unfolding place_under_lock
  under_lock_returned s locked allowed trading at_lock still_backed h =
      let (planned, as_planned, h₁) = >>=-returned _ _ locked h in
      let (transactions, posted, h₂) = >>=-returned _ _ locked h₁ in
      let commit =
        commit_planned world env.new_ids env.now (world.id_of user request.user_id) planned
          locked in
      record {
        allowed = allowed;
        trading = trading;
        locked = locked;
        at_lock = at_lock;
        planned = planned;
        as_planned = as_planned;
        transactions = transactions;
        committed =
            committed_by-ok locked commit posted
            ∙ ap (λ t. ok (transactions, t)) (ap (λ p. p.1) h₂);
        answered = ap (λ p. p.0) h₂;
        still_backed = still_backed;
      }

  place_anew-cases :
      (s : Tables)
      → place_anew engine world env row request s ≡ (ok x, after)
      → Repeated ⊎ Reached s
  unfolding place_anew
  place_anew-cases s h =
      let (u, allowed, h₁) = >>=-returned _ _ s h in
      let (v, trading, h₂) = >>=-returned _ _ s h₁ in
      let (book, opened, h₃) = >>=-returned _ _ s h₂ in
      let (id, granted, h₄) = >>=-returned _ _ _ h₃ in
      let (w, others, h₅) = >>=-returned _ _ _ h₄ in
      let (found, looked, h₆) = >>=-returned _ _ _ h₅ in
      let locked = tables_at_lock world env request.market_id request.user_id s in
      elim (unless_placed-cases locked found _ looked h₆) [
        | inl repeated ↦ inl repeated
        | inr anew ↦ inr (
            under_lock_returned s locked allowed trading refl
              (λ others_keep backed. others_keep _ (
                committing-Keeps IsBacked _
                  (λ t i a.
                    ensure_granted-IsBacked world env.grant_ids false env.grant_time
                      env.starting_credits request.user_id t i a)
                  _
                  (committing-Keeps IsBacked _
                    (λ t b a.
                      ensure_open-IsBacked world env.opening_ids env.opening_time request.market_id
                        env.opening_terms t b a)
                    s backed)))
              anew)
      ]

  pub place-cases :
      (s : Tables) → place engine world env row request s ≡ (ok x, after) → Repeated ⊎ Reached s
  unfolding place
  place-cases s h =
      let (u, positive, h₁) = >>=-returned _ _ s h in
      let (v, within, h₂) = >>=-returned _ _ s h₁ in
      let (found, looked, h₃) = >>=-returned _ _ s h₂ in
      elim (unless_placed-cases s found _ looked h₃) [
        | inl repeated ↦ inl repeated
        | inr anew ↦ place_anew-cases s anew
      ]

-- ===== src/Ledger/Orders/Pass.antt =====
-- backend/ledger_service/core/limit_orders.py: one pass over the waiting orders, and what a fill is.
use cs.Base.{
  ap, ℕ, suc, ◌≤◌, ◌<◌, ◌≡◌, refl, inl, inr, sym, subst, true, List, [], ◌∷◌, ◌++◌, length,
  length-append, All, Option, none, some, arith, Outcome, ok, err, >>=-eq-ok, Bool-cases,
  Option-cases, ◌==◌, raise_if,
}
use cs.Base.Int.{ℤ}
use cs.Ledger.Lmsr.{Engine, PricingError}
use cs.Ledger.Pricing.{TradeCost, at, trade_cost_of}
use cs.Ledger.Orders.{
  RestingOrder, PlannedFill, is_within_limit, capped, fill_quantity_of, fill_or_none,
  executable_fill_of, next_fill,
}

capped-le : (floored : ℤ) (remaining : ℕ) → capped floored remaining ≤ remaining
unfolding capped
capped-le floored remaining = ground arith

capped_at :
    (x : ℤ) (remaining : ℕ) {n : ℕ}
    → ◌≡◌ {A = Outcome PricingError ℕ} (ok (capped x remaining)) (ok n)
    → n ≤ remaining
capped_at x remaining h = ground (arith, capped-le x remaining)

ok_none :
    {A : Type 0} {a : A} → ◌≡◌ {A = Outcome PricingError (Option A)} (ok none) (ok (some a)) → ⊥
ok_none h = cc

-- A fill that was made: it is priced, and within the limit.
filled :
    (o : RestingOrder) (n : ℕ) (r : Outcome PricingError TradeCost) {f : PlannedFill}
    → fill_or_none o n r ≡ ok (some f)
    → (c : TradeCost) × (r ≡ ok c)
      × (is_within_limit o n c ≡ true)
      × (f ≡ record { order = o; quantity = n; cost = c })
filled o n (ok c) h = (c, refl, ground arith, ground arith)
filled o n (err x) h = absurd (ground arith)

module _ (e : Engine) where
  fill_quantity_of-le :
      (q : List ℤ) (b : ℤ) (o : RestingOrder) {n : ℕ}
      → fill_quantity_of e q b o ≡ ok n
      → n ≤ o.remaining
  unfolding fill_quantity_of
  fill_quantity_of-le q b o {n} h =
      let (_, _, h₁) = >>=-eq-ok (raise_if _ _) _ h in
      let (_, _, h₂) = >>=-eq-ok (at q o.outcome_index) _ h₁ in
      let (_, _, h₃) = >>=-eq-ok (at q _) _ h₂ in capped_at _ o.remaining h₃

  -- A fill of `order` at `q`: of some shares, no more than the order has left, priced as a trade of
  -- that size at that `q`, and within the order's limit.
  pub record IsFill (q : List ℤ) (b : ℤ) (f : PlannedFill) : Type 0 where
    pub some_shares : 0 < f.quantity
    pub within_order : f.quantity ≤ f.order.remaining
    pub priced : trade_cost_of e q b f.order.outcome_index f.order.side f.quantity ≡ ok f.cost
    pub within_limit : is_within_limit f.order f.quantity f.cost ≡ true

  pub executable_fill_of-IsFill :
      (q : List ℤ) (b : ℤ) (o : RestingOrder) {f : PlannedFill}
      → executable_fill_of e q b o ≡ ok (some f)
      → IsFill q b f × (f.order ≡ o)
  unfolding executable_fill_of
  executable_fill_of-IsFill q b o {f} h =
      let (n, quantity, h₁) = >>=-eq-ok (fill_quantity_of e q b o) _ h in
      elim (Bool-cases (n == 0)) [
        | inl none_left ↦ absurd (ok_none (rw none_left at h₁))
        | inr some_left ↦
            let (cost, priced, within, made) =
              filled o n (trade_cost_of e q b o.outcome_index o.side n) (rw some_left at h₁) in
            (
              subst (IsFill q b) (sym made) (record {
                some_shares = ground arith;
                within_order = fill_quantity_of-le q b o quantity;
                priced = priced;
                within_limit = within;
              }),
              rw made refl,
            )
      ]

  -- An order that cannot fill at `q`: no share is within its limit, or its fill costs less than a
  -- tick, or more than the limit.
  abbrev pub IsIdle : List ℤ → ℤ → RestingOrder → Type 0
  IsIdle q b o = executable_fill_of e q b o ≡ ok none

  pub record IsFirst (q : List ℤ) (b : ℤ) (waiting : List RestingOrder) (f : PlannedFill)
      (others : List RestingOrder) : Type 0 where
    pub before : List RestingOrder
    pub after : List RestingOrder
    pub all_waiting : waiting ≡ before ++ f.order ∷ after
    pub all_others : others ≡ before ++ after
    pub idle_before : All (IsIdle q b) before
    pub made : IsFill q b f

  pass_none :
      (o : RestingOrder) (r : Option (PlannedFill × List RestingOrder))
      → ◌≡◌ {A = Outcome PricingError (Option (PlannedFill × List RestingOrder))}
          (elim r [ none ↦ ok none | some (fill, others) ↦ ok (some (fill, o ∷ others)) ])
          (ok none)
      → r ≡ none
  pass_none o none h = refl
  pass_none o (some x) h = cc

  pub next_fill-none :
      (q : List ℤ) (b : ℤ) (waiting : List RestingOrder)
      → next_fill e q b waiting ≡ ok none
      → All (IsIdle q b) waiting
  unfolding next_fill
  next_fill-none q b [] h = tt
  next_fill-none q b (o ∷ rest) h =
      let (r, executed, h₁) = >>=-eq-ok (executable_fill_of e q b o) _ h in
      elim (Option-cases r) [
        | inl none_here ↦
            let (s, passed, h₂) = >>=-eq-ok (next_fill e q b rest) _ (rw none_here at h₁) in
            (rw none_here at executed, next_fill-none q b rest (rw (pass_none o s h₂) at passed))
        | inr (f, some_here) ↦ absurd (ok_none (sym (rw some_here at h₁)))
      ]

  pass_some :
      (o : RestingOrder) (r : Option (PlannedFill × List RestingOrder)) {f : PlannedFill}
      {others : List RestingOrder}
      → ◌≡◌ {A = Outcome PricingError (Option (PlannedFill × List RestingOrder))}
          (elim r [ none ↦ ok none | some (fill, others) ↦ ok (some (fill, o ∷ others)) ])
          (ok (some (f, others)))
      → (rest : List RestingOrder) × (r ≡ some (f, rest)) × (others ≡ o ∷ rest)
  pass_some o none h = absurd (ok_none h)
  pass_some o (some (f, rest)) h = (rest, cc, cc)

  found :
      {f g : PlannedFill} {rest others : List RestingOrder}
      → ◌≡◌ {A = Outcome PricingError (Option (PlannedFill × List RestingOrder))}
          (ok (some (f, rest)))
          (ok (some (g, others)))
      → (f ≡ g) × (others ≡ rest)
  found h = (cc, cc)

  skip_idle :
      {q : List ℤ} {b : ℤ} {o : RestingOrder} {rest left others : List RestingOrder}
      {f : PlannedFill}
      → IsIdle q b o
      → IsFirst q b rest f left
      → others ≡ o ∷ left
      → IsFirst q b (o ∷ rest) f others
  skip_idle {o} no_fill first others_eq = record {
    before = o ∷ first.before;
    after = first.after;
    all_waiting = ap (λ l. o ∷ l) first.all_waiting;
    all_others = rw (others_eq, first.all_others) refl;
    idle_before = (no_fill, first.idle_before);
    made = first.made;
  }

  take_here :
      {q : List ℤ} {b : ℤ} {o : RestingOrder} {rest others : List RestingOrder} {f g : PlannedFill}
      → IsFill q b f × (f.order ≡ o)
      → f ≡ g
      → others ≡ rest
      → IsFirst q b (o ∷ rest) g others
  take_here {q} {b} {o} {rest} (made, order_eq) same others_eq = record {
    before = [];
    after = rest;
    all_waiting = rw⁻¹ (same, order_eq) refl;
    all_others = others_eq;
    idle_before = tt;
    made = subst (IsFill q b) same made;
  }

  -- A pass that fills takes the first executable order and keeps the others as they waited.
  pub next_fill-IsFirst :
      (q : List ℤ) (b : ℤ) (waiting : List RestingOrder) {f : PlannedFill}
      {others : List RestingOrder}
      → next_fill e q b waiting ≡ ok (some (f, others))
      → IsFirst q b waiting f others
  unfolding next_fill
  next_fill-IsFirst q b [] h = absurd (ok_none h)
  next_fill-IsFirst q b (o ∷ rest) {f} {others} h =
      let (r, executed, h₁) = >>=-eq-ok (executable_fill_of e q b o) _ h in
      elim (Option-cases r) [
        | inl none_here ↦
            let (s, passed, h₂) = >>=-eq-ok (next_fill e q b rest) _ (rw none_here at h₁) in
            let (left, at_rest, others_eq) = pass_some o s h₂ in
            skip_idle (rw none_here at executed) (next_fill-IsFirst q b rest (rw at_rest at passed))
              others_eq
        | inr (g, some_here) ↦
            let (same, others_eq) = found (rw some_here at h₁) in
            take_here (executable_fill_of-IsFill q b o (rw some_here at executed)) same others_eq
      ]

  pub length_others :
      {q : List ℤ} {b : ℤ} {waiting : List RestingOrder} {f : PlannedFill}
      {others : List RestingOrder}
      → IsFirst q b waiting f others
      → length waiting ≡ suc (length others)
  length_others {f} first =
      rw
        (
          first.all_waiting,
          first.all_others,
          length-append first.before (f.order ∷ first.after),
          length-append first.before first.after,
        )
        (omega arith)

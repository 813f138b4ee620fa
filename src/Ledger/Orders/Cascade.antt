-- ===== src/Ledger/Orders/Cascade.antt =====
-- backend/ledger_service/core/limit_orders.py: the fills that a cascade plans.
use mathlib.Core.List.{Perm}
use cs.Base.{
  ok_injective, ℕ, zero, suc, ◌≡◌, refl, inl, inr, sym, subst, List, [], ◌∷◌, ◌++◌, length, All,
  arith, ok, >>=-eq-ok, Option-cases,
}
use cs.Base.Int.{ℤ}
use cs.Ledger.Lmsr.{Engine}
use cs.Ledger.Orders.{RestingOrder, PlannedFill, sort_orders, next_fill, cascade_from, cascade_of}
use cs.Ledger.Orders.Pass.{IsFill, IsIdle, next_fill-none, next_fill-IsFirst, length_others}
use cs.Ledger.Orders.Priority.{IsSorted, sort_orders-Perm, sort_orders-IsSorted}

module _ (e : Engine) where
  -- The fills that a cascade owes to `waiting`, best priority first: each time the first executable
  -- order fills at the `q` the fill before it left, and nothing executable is left waiting.
  pub data Cascaded (b : ℤ) : List ℤ → List RestingOrder → List PlannedFill → Type 0 where
    idle :
        {q : List ℤ} {waiting : List RestingOrder}
        → All (IsIdle e q b) waiting
        → Cascaded b q waiting []
    fill_first :
        {q : List ℤ} (before after : List RestingOrder) {f : PlannedFill} {fills : List PlannedFill}
        → All (IsIdle e q b) before
        → IsFill e q b f
        → Cascaded b f.cost.after_q (before ++ after) fills
        → Cascaded b q (before ++ f.order ∷ after) (f ∷ fills)

  cascade_from-Cascaded :
      (rounds : ℕ) (q : List ℤ) (b : ℤ) (waiting : List RestingOrder) {fills : List PlannedFill}
      → length waiting ≡ rounds
      → cascade_from e rounds q b waiting ≡ ok fills
      → Cascaded b q waiting fills
  unfolding cascade_from
  cascade_from-Cascaded zero q b [] {fills} len h =
      subst (Cascaded b q []) (ok_injective h) (idle tt)
  cascade_from-Cascaded zero q b (o ∷ rest) len h = absurd (omega arith)
  cascade_from-Cascaded (suc rounds) q b waiting {fills} len h =
      let (r, passed, h₁) = >>=-eq-ok (next_fill e q b waiting) _ h in
      elim (Option-cases r) [
        | inl nothing ↦
            subst (Cascaded b q waiting) (ok_injective (rw nothing at h₁))
              (idle (next_fill-none e q b waiting (rw nothing at passed)))
        | inr ((f, others), some_fill) ↦
            let first = next_fill-IsFirst e q b waiting (rw some_fill at passed) in
            let (later, cascaded, h₂) =
              >>=-eq-ok (cascade_from e rounds f.cost.after_q b others) _ (rw some_fill at h₁) in
            let rest_cascaded =
              cascade_from-Cascaded rounds f.cost.after_q b others
                (omega (arith, length_others e first)) cascaded in
            subst (Cascaded b q waiting) (ok_injective h₂) (
              subst (λ w. Cascaded b q w (f ∷ later)) (sym first.all_waiting)
                (fill_first first.before first.after first.idle_before first.made
                  (subst (λ w. Cascaded b f.cost.after_q w later) first.all_others rest_cascaded)))
      ]

pub cascade_of-sorted :
    (e : Engine) (q : List ℤ) (b : ℤ) (orders : List RestingOrder) {fills : List PlannedFill}
    → cascade_of e q b orders ≡ ok fills
    → Cascaded e b q (sort_orders orders) fills
unfolding cascade_of
cascade_of-sorted e q b orders h =
    cascade_from-Cascaded e (length (sort_orders orders)) q b (sort_orders orders) refl h

-- When `cascade_of` returns fills, they are what price-time priority owes: the orders sorted by their
-- key, best first; then, again and again, the first executable order filling with at most the shares
-- it has left, priced at the `q` that the fill before it left and within its limit, every order ahead
-- of it idle at that `q`; until each order still waiting is idle.
pub cascade_of-Cascaded :
    (e : Engine) (q : List ℤ) (b : ℤ) (orders : List RestingOrder) {fills : List PlannedFill}
    → cascade_of e q b orders ≡ ok fills
    → (sorted : List RestingOrder) × Perm sorted orders
      × IsSorted sorted
      × Cascaded e b q sorted fills
cascade_of-Cascaded e q b orders h = (
  sort_orders orders,
  sort_orders-Perm orders,
  sort_orders-IsSorted orders,
  cascade_of-sorted e q b orders h,
)

-- ===== src/Ledger/Cancellation/Twice.antt =====
-- An order of backend/ledger_service/service/cancellation.py is cancelled at most once.
use cs.Base.{
  ℕ, ◌≡◌, refl, true, false, Option, some, List, [], ◌∷◌, ◌==◌, Outcome, ok, err, ◌>>=◌, is_ok,
  >>=-eq-ok, ok_injective, sym, ap, Bool-cases, Option-cases, inl, inr, some_injective,
  none_not_some,
}
use cs.Ledger.Lmsr.{Engine}
use cs.Ledger.Rows.{Order, Tables, order_already_cancelled}
use cs.Ledger.Reservations.{is_live}
use cs.Ledger.Cancellation.{
  AdminCancel, Cancellation, find_order, usable_reason, get_order_market, cancel, cancelled_order,
  write_order, cancel_locked, refuse_if_ended,
}

find_order-id :
    (orders : List Order) (order_id : ℕ) {order : Order}
    → find_order orders order_id ≡ some order
    → (order.id == order_id) ≡ true
unfolding find_order
find_order-id [] order_id found = none_not_some found
find_order-id (x ∷ rest) order_id found = elim (Bool-cases (x.id == order_id)) [
  | inl e ↦ rw (sym (some_injective (rw e at found))) e
  | inr e ↦ find_order-id rest order_id (rw e at found)
]

find_order-write :
    (orders : List Order) (order_id : ℕ) (order written : Order)
    → find_order orders order_id ≡ some order
    → (written.id == order_id) ≡ true
    → find_order (write_order order_id written orders) order_id ≡ some written
unfolding find_order write_order
find_order-write [] order_id order written found own = none_not_some found
find_order-write (x ∷ rest) order_id order written found own =
    elim (Bool-cases (x.id == order_id)) [
      | inl e ↦ rw (e, own) refl
      | inr e ↦ rw (e, e) (find_order-write rest order_id order written (rw e at found) own)
    ]

again_locked :
    (engine : Engine) (admin admin' : Option AdminCancel) (now now' order_id : ℕ) (s : Tables)
    {result : Cancellation} {after : Tables}
    → cancel_locked engine admin now order_id s ≡ ok (result, after)
    → cancel_locked engine admin' now' order_id after ≡ err order_already_cancelled
unfolding cancel_locked cancelled_order refuse_if_ended
again_locked engine admin admin' now now' order_id s {result} {after} h =
    elim (Option-cases (find_order s.orders order_id)) [
      | inl e ↦ absurd (let refused = rw (e, cancel_locked) at h in cc)
      | inr (order, e) ↦
          let (u, unended, h₁) =
            >>=-eq-ok (refuse_if_ended order.status (is_live s.results order)) _
              (rw (e, cancel_locked) at h) in
          let orders_eq : after.orders ≡ write_order order_id (cancelled_order now order) s.orders =
            sym (ap (λ p. p.1.orders) (ok_injective h₁)) in
          let found : find_order after.orders order_id ≡ some (cancelled_order now order) =
            rw orders_eq (
              find_order-write s.orders order_id order (cancelled_order now order) e
                (find_order-id s.orders order_id e)) in
          rw (found, cancel_locked) refl
    ]

never_ok :
    {E X Y : Type 0} (m : Outcome E X) (next : X → Outcome E Y)
    → ((x : X) → is_ok (next x) ≡ false)
    → is_ok (m >>= next) ≡ false
never_ok (err e) next h = refl
never_ok (ok x) next h = h x

-- After a cancel that returned, no cancel of the same order returns, by its owner or an administrator, while
-- no other session has written the tables since.
pub cancel-twice :
    (engine : Engine) (user_id user_id' : Option ℕ) (admin admin' : Option AdminCancel)
    (meanwhile : Tables → Tables) (now now' order_id : ℕ) (s : Tables) (result : Cancellation)
    (after : Tables)
    → cancel engine user_id admin meanwhile now order_id s ≡ ok (result, after)
    → is_ok (cancel engine user_id' admin' (λ t. t) now' order_id after) ≡ false
unfolding cancel
cancel-twice engine user_id user_id' admin admin' meanwhile now now' order_id s result after h =
    let (u, usable, h₁) = >>=-eq-ok (usable_reason admin) _ h in
    let (market_id, reached, h₂) = >>=-eq-ok (get_order_market user_id admin order_id s) _ h₁ in
    let refused = again_locked engine admin admin' now now' order_id (meanwhile s) h₂ in
    never_ok (usable_reason admin') _
      (λ v. never_ok (get_order_market user_id' admin' order_id after) _ (λ m. ap is_ok refused))

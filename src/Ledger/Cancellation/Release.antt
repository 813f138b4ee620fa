-- ===== src/Ledger/Cancellation/Release.antt =====
-- What a cancel of backend/ledger_service/service/cancellation.py gives back.
use cs.Base.{
  ℕ, ◌≡◌, refl, Bool, true, Option, none, some, List, [], ◌∷◌, ◌==◌, ◌&&◌, if◌then◌else◌, ok,
  raise_if, >>=-eq-ok, ok_injective, sym, ◌∙◌, ap, arith, Bool-cases, Option-cases, inl, inr,
  some_injective, none_not_some,
}
use cs.Base.Int.{ℤ, pos, ◌+ℤ◌, int_laws}
use cs.Ledger.Lmsr.{Engine}
use cs.Ledger.Pricing.{is_buy}
use cs.Ledger.Rows.{Order, OrderStatus, opened, filled, cancelled, Tables, MarketResult}
use cs.Ledger.Reservations.{is_open, is_live, held_credits, reserved_of}
use cs.Ledger.Cancellation.{
  AdminCancel, Cancellation, order_view_of, find_order, usable_reason, get_order_market, cancel,
  cancelled_order, write_order, cancel_locked, refuse_if_ended,
}

-- What the row holds of the user's credits
abbrev share_of : List MarketResult → ℕ → Order → ℤ
share_of results user_id order =
    if order.user_id == user_id && (is_buy order.side && is_live results order)
    then held_credits order
    else pos 0

abbrev or_none : Option ℤ → ℤ
or_none none = pos 0
or_none (some n) = n

cancelled_order-share :
    (results : List MarketResult) (user_id now : ℕ) (order : Order)
    → share_of results user_id (cancelled_order now order) ≡ pos 0
unfolding cancelled_order is_live is_open
cancelled_order-share results user_id now order = ground arith

swapped : (a b : ℤ) → a +ℤ b ≡ (pos 0 +ℤ b) +ℤ a
swapped a b = grind int_laws

reserved_of-write :
    (results : List MarketResult) (orders : List Order) (user_id order_id : ℕ)
    (order written : Order)
    → find_order orders order_id ≡ some order
    → share_of results user_id written ≡ pos 0
    → reserved_of results orders user_id
      ≡ reserved_of results (write_order order_id written orders) user_id
        +ℤ share_of results user_id order
unfolding reserved_of write_order find_order
reserved_of-write results [] user_id order_id order written found empty = none_not_some found
reserved_of-write results (x ∷ rest) user_id order_id order written found empty =
    elim (Bool-cases (x.id == order_id)) [
      | inl e ↦
          let same = some_injective (rw e at found) in
          rw (e, empty, sym same)
            (swapped (share_of results user_id x) (reserved_of results rest user_id))
      | inr e ↦
          rw
            (e, reserved_of-write results rest user_id order_id order written (rw e at found) empty)
            (grind int_laws)
    ]

-- What an open order on a market without a result holds is what the view before the cancel shows.
share_of-view :
    (engine : Engine) (results : List MarketResult) (u : ℕ) (order : Order)
    → is_live results order ≡ true
    → share_of results u order ≡ (
        if order.user_id == u
        then or_none (order_view_of engine order true).reserved_credits
        else pos 0)
unfolding order_view_of
share_of-view engine results u order live = rw live (ground arith)

refuse_if_ended-live :
    (status : OrderStatus) (live : Bool) → refuse_if_ended status live ≡ ok tt → live ≡ true
unfolding refuse_if_ended raise_if
refuse_if_ended-live opened live h = ground arith
refuse_if_ended-live filled live h = absurd cc
refuse_if_ended-live cancelled live h = absurd cc

-- A cancel that returned, on the tables that it found under the lock
pub record IsCancelled (locked after : Tables) (order_id : ℕ) (result : Cancellation) : Type 0 where
  pub order : Order
  pub found : find_order locked.orders order_id ≡ some order
  pub released :
      (u : ℕ)
      → reserved_of locked.results locked.orders u
        ≡ reserved_of after.results after.orders u
          +ℤ (if order.user_id == u then or_none result.released_credits else pos 0)
  pub unmoved : (after.entries ≡ locked.entries) × (after.positions ≡ locked.positions)

cancel_locked-IsCancelled :
    (engine : Engine) (admin : Option AdminCancel) (now order_id : ℕ) (s : Tables)
    {result : Cancellation} {after : Tables}
    → cancel_locked engine admin now order_id s ≡ ok (result, after)
    → IsCancelled s after order_id result
unfolding cancel_locked
cancel_locked-IsCancelled engine admin now order_id s {result} {after} h =
    elim (Option-cases (find_order s.orders order_id)) [
      | inl e ↦ absurd (let refused = rw (e, cancel_locked) at h in cc)
      | inr (order, e) ↦
          let (u, unended, h₁) =
            >>=-eq-ok (refuse_if_ended order.status (is_live s.results order)) _
              (rw (e, cancel_locked) at h) in
          let live = refuse_if_ended-live order.status _ unended in
          let pair = ok_injective h₁ in
          record {
            order = order;
            found = e;
            released = λ u.
                reserved_of-write s.results s.orders u order_id order (cancelled_order now order) e
                  (cancelled_order-share s.results u now order)
                ∙ rw
                    (
                      sym (ap (λ p. p.0) pair),
                      sym (ap (λ p. p.1) pair),
                      share_of-view engine s.results u order live,
                    )
                    refl;
            unmoved = rw (sym (ap (λ p. p.1) pair)) (refl, refl);
          }
    ]

-- A cancel that returns leaves every user's reserved credits as they were under the lock, less, for the
-- order's owner alone, exactly the credits that it says it released. It moves no entry and no position.
pub cancel-IsCancelled :
    (engine : Engine) (user_id : Option ℕ) (admin : Option AdminCancel)
    (meanwhile : Tables → Tables) (now order_id : ℕ) (s : Tables) (result : Cancellation)
    (after : Tables)
    → cancel engine user_id admin meanwhile now order_id s ≡ ok (result, after)
    → IsCancelled (meanwhile s) after order_id result
unfolding cancel
cancel-IsCancelled engine user_id admin meanwhile now order_id s result after h =
    let (u, usable, h₁) = >>=-eq-ok (usable_reason admin) _ h in
    let (market_id, reached, h₂) = >>=-eq-ok (get_order_market user_id admin order_id s) _ h₁ in
    cancel_locked-IsCancelled engine admin now order_id (meanwhile s) h₂

-- ===== src/Ledger/Placing/Budgeted.antt =====
-- backend/ledger_service/service/orders.py: the budget of a new order that rests is within its owner's balance.
use cs.Base.{
  ℕ, ◌≡◌, refl, Option, none, some, [], ◌∷◌, ◌++◌, sym, arith, ok, >>=-eq-ok, ok_injective, subst,
  raise_if-ok, some_injective,
}
use cs.Base.Int.{pos, pos_part, ◌+ℤ◌, ◌-ℤ◌, ◌≤ℤ◌}
use cs.Base.Text.{Text}
use cs.Ledger.Lmsr.{Engine}
use cs.Ledger.Pricing.{Side, buy, sell, quantize_cost}
use cs.Ledger.Orders.{PlannedFill}
use cs.Ledger.Rows.{Order, Tables, user}
use cs.Ledger.Reservations.{balance_of, reserved_of, held_credits}
use cs.Ledger.Accounts.{World}
use cs.Ledger.BookPrices.{priced_by}
use cs.Ledger.Placing.{
  PlaceRequest, NewRow, new_order, inserted, filled_quantity_of, filled_value_of, budget_of,
  refuse_if_budget_does_not_fit,
}
use cs.Ledger.Placing.Reserved.{trans_ℤ, le_of_available, reserved_of-inserted}
use cs.Ledger.Placing.Planning.{check_budget}

module _ (e : Engine) (world : World) (row : NewRow) (request : PlaceRequest) (s : Tables) where
  check_budget-fits :
      (budget : Option ℕ)
      → check_budget s (world.id_of user request.user_id) request.user_id budget ≡ ok tt
      → (n : ℕ) → budget ≡ some n
      → pos n
        ≤ℤ balance_of s.entries (world.id_of user request.user_id)
          -ℤ reserved_of s.results s.orders request.user_id
  unfolding check_budget refuse_if_budget_does_not_fit
  check_budget-fits none h n e = absurd cc
  check_budget-fits (some m) h n e =
      let fits = raise_if-ok _ _ h in let same = some_injective e in ground arith

  -- A new order of the request's side, with what its fill on arrival filled
  pub record IsNew (order : Order) (fill : Option PlannedFill) : Type 0 where
    pub own_quantity : order.filled_quantity ≡ filled_quantity_of fill
    pub own_value : order.filled_value ≡ filled_value_of fill
    pub own_budget : request.side ≡ buy → (n : ℕ) × (order.budget ≡ some n)

  budget_of-buy :
      (side : Side) (limit_price quantity : ℕ) {budget : Option ℕ}
      → budget_of e side limit_price quantity ≡ ok budget
      → side ≡ buy
      → (n : ℕ) × (budget ≡ some n)
  unfolding budget_of
  budget_of-buy sell limit_price quantity h is_buy = absurd cc
  budget_of-buy buy limit_price quantity h is_buy =
      let product = e.mul (e.of_ticks (pos limit_price)) (e.of_ticks (pos quantity)) in
      let (n, costed, h₁) = >>=-eq-ok (priced_by (quantize_cost e product buy)) _ h in
      (pos_part n, sym (ok_injective h₁))

  pub new_order-IsNew :
      (key : Text) (fill : Option PlannedFill) {order : Order}
      → new_order e row request key fill ≡ ok order
      → IsNew order fill
  unfolding new_order
  new_order-IsNew key fill h =
      let quantity = pos_part request.quantity in
      let (budget, budgeted, h₁) =
        >>=-eq-ok (budget_of e request.side (pos_part request.limit_price) quantity) _ h in
      subst (λ o. IsNew o fill) (ok_injective h₁)
        (record {
          own_quantity = refl;
          own_value = refl;
          own_budget = budget_of-buy request.side (pos_part request.limit_price) quantity budgeted;
        })

  held_in_full :
      (order : Order) (n : ℕ)
      → order.budget ≡ some n
      → order.filled_value ≡ 0
      → held_credits order ≡ pos n
  unfolding held_credits ◌-ℤ◌
  held_in_full order n budget nothing = rw (budget, nothing) (ground arith)

  -- With the new order, what the placer's buys reserve is within the balance.
  pub rests_within :
      (order : Order)
      → IsNew order none
      → check_budget s (world.id_of user request.user_id) request.user_id order.budget ≡ ok tt
      → request.side ≡ buy
      → (version : ℕ)
      → reserved_of s.results
          (s.orders ++ (inserted row version order s.orders ∷ []))
          request.user_id
        ≤ℤ balance_of s.entries (world.id_of user request.user_id)
  unfolding inserted
  rests_within order new fits buying version =
      let (n, budget) = new.own_budget buying in
      let reserved = reserved_of s.results s.orders request.user_id in
      let placed = inserted row version order s.orders in
      trans_ℤ _ (reserved +ℤ pos n) _
        (reserved_of-inserted s.results s.orders placed request.user_id n
          (held_in_full placed n budget new.own_value))
        (le_of_available (pos n) reserved _ (check_budget-fits order.budget fits n budget))

-- ===== src/Ledger/Placing/Reserved.antt =====
-- backend/ledger_service/service/reservations.py: what a placed order adds to its owner's reservation.
use cs.Base.{ℕ, ◌≡◌, List, [], ◌∷◌, ◌++◌, arith, if◌then◌else◌, Bool, true, false}
use cs.Base.Int.{ℤ, pos, ◌+ℤ◌, ◌≤ℤ◌, int_laws, ◌-ℤ◌}
use cs.Ledger.Rows.{Order, MarketResult}
use cs.Ledger.Reservations.{reserved_of, held_credits}

pub trans_ℤ : (a b c : ℤ) → a ≤ℤ b → b ≤ℤ c → a ≤ℤ c
trans_ℤ a b c h k = ground arith

pub le_of_available : (n r b : ℤ) → n ≤ℤ b -ℤ r → r +ℤ n ≤ℤ b
le_of_available n r b h = grind (int_laws)

first_share : (b : Bool) (n : ℕ) → (if b then pos n else pos 0) +ℤ pos 0 ≤ℤ pos 0 +ℤ pos n
unfolding ◌+ℤ◌
first_share true n = ground arith
first_share false n = ground arith

more_shares : (a r r' n : ℤ) → r' ≤ℤ r +ℤ n → a +ℤ r' ≤ℤ a +ℤ r +ℤ n
more_shares a r r' n h = grind (int_laws)

pub reserved_of-inserted :
    (results : List MarketResult) (orders : List Order) (order : Order) (user_id n : ℕ)
    → held_credits order ≡ pos n
    → reserved_of results (orders ++ (order ∷ [])) user_id
      ≤ℤ reserved_of results orders user_id +ℤ pos n
unfolding reserved_of
reserved_of-inserted results [] order user_id n held = rw held (first_share _ n)
reserved_of-inserted results (o ∷ rest) order user_id n held =
    more_shares _ (reserved_of results rest user_id)
      (reserved_of results (rest ++ (order ∷ [])) user_id) (pos n)
      (reserved_of-inserted results rest order user_id n held)

-- ===== src/Ledger/Settlement/Pool.antt =====
-- The money of backend/ledger_service/service/settlement.py: what a settlement moves on the pool and on
-- the winners' accounts.
use cs.Base.{
  ℕ, ◌≡◌, refl, List, [], ◌∷◌, ltb, leb, ◌==◌, ◌&&◌, if◌then◌else◌, ap, arith, Bool-cases, inl, inr,
  ==-refl,
}
use cs.Base.Int.{ℤ, pos, neg, ◌+ℤ◌, eqb_ℤ, eqb_ℤ→eq, int_laws}
use cs.Base.Decimal.{of_ticks}
use cs.Ledger.Rows.{Position, user, market_pool, platform}
use cs.Ledger.Posting.Legs.{quantized_legs}
use cs.Ledger.Posting.Nets.{net_of, net_of_batch}
use cs.Ledger.Posting.Moves.{quantize-of_ticks}
use cs.Ledger.Posting.{batch_legs}
use cs.Ledger.Accounts.{World, IsWorld, platform_id, transfer}
use cs.Ledger.Accounts.Ids.{ids_differ, users_eq}
use cs.Ledger.Settlement.{
  Winner, list_winners, insert_winner, total_of_winners, payout_of, payouts_of, residue_of,
  residue_movements,
}

abbrev pub ticks_at : ℕ → ℕ → ℤ → ℤ
ticks_at k j n = if k == j then n else pos 0

net_of-transfer :
    (j source target : ℕ) (n : ℤ)
    → net_of j (quantized_legs (transfer source target (of_ticks n)))
      ≡ ticks_at source j (neg n) +ℤ ticks_at target j n
unfolding net_of quantized_legs transfer
net_of-transfer j source target n =
    rw (quantize-of_ticks (neg n), quantize-of_ticks n) (grind int_laws)

-- What the winners of one user id are paid
abbrev pub paid_to : ℕ → List Winner → ℤ
paid_to u [] = pos 0
paid_to u (w ∷ rest) = ticks_at w.user_id u (pos w.quantity) +ℤ paid_to u rest

-- The user's shares of the winning outcome
unfoldable pub shares_of : ℕ → ℕ → ℕ → List Position → ℤ
shares_of u market_id outcome_id [] = pos 0
shares_of u market_id outcome_id (p ∷ rest) =
    (if p.user_id == u && (p.market_id == market_id && p.outcome_id == outcome_id)
      then pos p.quantity
      else pos 0)
    +ℤ shares_of u market_id outcome_id rest

paid_to-insert :
    (u : ℕ) (w : Winner) (ws : List Winner)
    → paid_to u (insert_winner w ws) ≡ ticks_at w.user_id u (pos w.quantity) +ℤ paid_to u ws
unfolding insert_winner
paid_to-insert u w [] = refl
paid_to-insert u w (x ∷ rest) = elim (Bool-cases (leb w.user_id x.user_id)) [
  | inl e ↦ rw e refl
  | inr e ↦ rw (e, paid_to-insert u w rest) (grind int_laws)
]

pub paid_to-list_winners :
    (u market_id outcome_id : ℕ) (positions : List Position)
    → paid_to u (list_winners positions market_id outcome_id)
      ≡ shares_of u market_id outcome_id positions
unfolding list_winners shares_of
paid_to-list_winners u market_id outcome_id [] = refl
paid_to-list_winners u market_id outcome_id (p ∷ rest) =
    let others = paid_to-list_winners u market_id outcome_id rest in
    elim (Bool-cases
      (p.market_id == market_id && (p.outcome_id == outcome_id && ltb 0 p.quantity))) [
        | inl e ↦
            rw
              (
                e,
                paid_to-insert u (record { user_id = p.user_id; quantity = p.quantity })
                    (list_winners rest market_id outcome_id),
                others,
              )
              (ap (λ n. n +ℤ shares_of u market_id outcome_id rest) (ground (arith, e)))
        | inr e ↦ rw (e, others) (grind (int_laws, e))
      ]

module _ (world : World) (lawful : IsWorld world) (market_id outcome_id : ℕ) where
  abbrev pub pool : ℕ
  pool = world.id_of market_pool market_id

  pub payouts-user :
      (u : ℕ) (ws : List Winner)
      → net_of_batch
          (world.id_of user u)
          (batch_legs (payouts_of world market_id outcome_id pool ws))
        ≡ paid_to u ws
  unfolding net_of_batch batch_legs payouts_of payout_of
  payouts-user u [] = refl
  payouts-user u (w ∷ rest) =
      rw
        (
          net_of-transfer (world.id_of user u) pool (world.id_of user w.user_id) (pos w.quantity),
          ids_differ world lawful market_pool user market_id u cc,
          users_eq world lawful w.user_id u,
          payouts-user u rest,
        )
        (grind int_laws)

  pub payouts-pool :
      (ws : List Winner)
      → net_of_batch pool (batch_legs (payouts_of world market_id outcome_id pool ws))
        ≡ neg (total_of_winners ws)
  unfolding net_of_batch batch_legs payouts_of payout_of total_of_winners
  payouts-pool [] = grind int_laws
  payouts-pool (w ∷ rest) =
      rw
        (
          net_of-transfer pool pool (world.id_of user w.user_id) (pos w.quantity),
          ids_differ world lawful user market_pool w.user_id market_id cc,
          ==-refl pool,
          payouts-pool rest,
        )
        (grind int_laws)

  pub payouts-platform :
      (ws : List Winner)
      → net_of_batch
          (platform_id world)
          (batch_legs (payouts_of world market_id outcome_id pool ws))
        ≡ pos 0
  unfolding net_of_batch batch_legs payouts_of payout_of
  payouts-platform [] = refl
  payouts-platform (w ∷ rest) =
      rw
        (
          net_of-transfer (platform_id world) pool (world.id_of user w.user_id) (pos w.quantity),
          ids_differ world lawful user platform w.user_id 0 cc,
          ids_differ world lawful market_pool platform market_id 0 cc,
          payouts-platform rest,
        )
        (grind int_laws)

  pub residue-net :
      (j : ℕ) (r : ℤ)
      → net_of_batch j (batch_legs (residue_movements world market_id r pool))
        ≡ ticks_at pool j (neg r) +ℤ ticks_at (platform_id world) j r
  unfolding net_of_batch batch_legs residue_movements residue_of
  residue-net j r = elim (Bool-cases (eqb_ℤ r (pos 0))) [
    | inl e ↦ rw (e, eqb_ℤ→eq r (pos 0) e) (grind int_laws)
    | inr e ↦ rw (e, net_of-transfer j pool (platform_id world) r) (grind int_laws)
  ]

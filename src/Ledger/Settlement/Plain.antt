-- ===== src/Ledger/Settlement/Plain.antt =====
-- The movements of backend/ledger_service/service/settlement.py: each is balanced and takes nothing from a
-- user, so `post_all` has no floor to keep for them.
use cs.Base.{
  ℕ, ◌≡◌, refl, true, false, List, [], ◌∷◌, any, length, ltb, ◌==◌, ◌&&◌, ◌||◌, ◌∙◌, arith,
  Bool-cases, inl, inr, ok, raise_if, All,
}
use cs.Base.Int.{ℤ, pos, neg, ◌+ℤ◌, eqb_ℤ, ltb_ℤ, int_laws}
use cs.Base.Dict.{Dict, lookup, insert}
use cs.Base.Decimal.{is_zero, of_ticks}
use cs.Ledger.Rows.{Tables, Account, user, market_pool, platform}
use cs.Ledger.Posting.Legs.{
  Movement, Leg, quantized_legs, require_balanced, has_malformed_drop, sum_legs, net_by_account,
  net_from, running_of, is_user,
}
use cs.Ledger.Posting.Floors.{
  debited_in, debited_users_of, refuse_overdrafts, floors_before_batch, floors_for, walk, walk_nets,
}
use cs.Ledger.Posting.Moves.{quantize-of_ticks}
use cs.Ledger.Posting.{Batch, batch_legs, require_all_balanced}
use cs.Ledger.Accounts.{World, IsWorld, transfer}
use cs.Ledger.Accounts.Ids.{ids_differ}
use cs.Ledger.Settlement.{Winner, payout_of, payouts_of, residue_of, residue_movements}

-- A movement that lowers no reservation, has two legs that are not zero and sum to zero, and debits no user.
pub record IsPlain (account : ℕ → Account) (m : Movement) : Type 0 where
  pub undropped : is_zero m.reservation_drop ≡ true
  pub balanced : require_balanced (quantized_legs m.legs) ≡ ok tt
  pub undebited :
      (debited : List ℕ)
      → debited_in account debited (net_by_account ◌+ℤ◌ (quantized_legs m.legs)) ≡ debited

module _ (account : ℕ → Account) where
  pub plain-formed :
      (movements : List Movement)
      → All (IsPlain account) movements
      → any (has_malformed_drop account) movements ≡ false
  unfolding has_malformed_drop
  plain-formed [] h = refl
  plain-formed (m ∷ rest) h = rw (h.0.undropped, plain-formed rest h.1) refl

  pub plain-balanced :
      (movements : List Movement)
      → All (IsPlain account) movements
      → require_all_balanced (batch_legs movements) ≡ ok tt
  unfolding require_all_balanced batch_legs
  plain-balanced [] h = refl
  plain-balanced (m ∷ rest) h = rw h.0.balanced (plain-balanced rest h.1)

  plain-undebited :
      (movements : List Movement) (debited : List ℕ)
      → All (IsPlain account) movements
      → debited_users_of account debited (batch_legs movements) ≡ debited
  unfolding debited_users_of batch_legs
  plain-undebited [] debited h = refl
  plain-undebited (m ∷ rest) debited h =
      rw (debited_users_of, h.0.undebited debited) (plain-undebited rest debited h.1)

walk_nets-free : (m : Movement) (nets : Dict ℤ) → walk_nets m nets [] ≡ ok []
unfolding walk_nets lookup
walk_nets-free m [] = refl
walk_nets-free m ((k, net) ∷ rest) = walk_nets-free m rest

walk-free : (batch : Batch) → walk batch [] ≡ ok []
unfolding walk
walk-free [] = refl
walk-free ((m, legs) ∷ rest) = rw (walk_nets-free m (net_by_account ◌+ℤ◌ legs)) (walk-free rest)

pub plain-covered :
    (account : ℕ → Account) (s : Tables) (movements : List Movement)
    → All (IsPlain account) movements
    → refuse_overdrafts account s (batch_legs movements) ≡ ok []
unfolding refuse_overdrafts floors_before_batch floors_for
plain-covered account s movements h =
    rw (plain-undebited account movements [] h) (walk-free (batch_legs movements))

balanced_of :
    (legs : List (Leg ℤ))
    → (ltb (length legs) 2 || any (λ (leg : Leg ℤ). eqb_ℤ leg.amount (pos 0)) legs) ≡ false
    → sum_legs legs ≡ pos 0
    → require_balanced legs ≡ ok tt
unfolding require_balanced raise_if
balanced_of legs enough zero_sum = rw (enough, zero_sum) refl

transfer-legs :
    (source target : ℕ) (n : ℤ)
    → quantized_legs (transfer source target (of_ticks n))
      ≡ record { account_id = source; amount = neg n }
        ∷ record { account_id = target; amount = n }
        ∷ []
unfolding quantized_legs transfer
transfer-legs source target n = rw (quantize-of_ticks (neg n), quantize-of_ticks n) refl

transfer-balanced :
    (source target : ℕ) (n : ℤ)
    → eqb_ℤ n (pos 0) ≡ false
    → require_balanced (quantized_legs (transfer source target (of_ticks n))) ≡ ok tt
unfolding sum_legs
transfer-balanced source target n real =
    rw (transfer-legs source target n) (balanced_of _ (grind (int_laws, real)) (grind int_laws))

transfer-nets :
    (source target : ℕ) (n : ℤ)
    → (source == target) ≡ false
    → net_by_account ◌+ℤ◌ (quantized_legs (transfer source target (of_ticks n)))
      ≡ (source, neg n) ∷ (target, n) ∷ []
unfolding net_by_account net_from running_of lookup insert
transfer-nets source target n apart = rw (transfer-legs source target n, running_of, apart) refl

debited_in-skip :
    (account : ℕ → Account) (debited : List ℕ) (k : ℕ) (net : ℤ) (rest : Dict ℤ)
    → (ltb_ℤ net (pos 0) && is_user (account k).kind) ≡ false
    → debited_in account debited ((k, net) ∷ rest) ≡ debited_in account debited rest
unfolding debited_in
debited_in-skip account debited k net rest h = rw h refl

transfer-undebited :
    (account : ℕ → Account) (source target : ℕ) (n : ℤ) (debited : List ℕ)
    → (source == target) ≡ false
    → is_user (account source).kind ≡ false
    → (ltb_ℤ n (pos 0) && is_user (account target).kind) ≡ false
    → debited_in account debited
        (net_by_account ◌+ℤ◌ (quantized_legs (transfer source target (of_ticks n))))
      ≡ debited
unfolding debited_in
transfer-undebited account source target n debited apart unheld gained =
    rw (transfer-nets source target n apart) (
      debited_in-skip account debited source (neg n) ((target, n) ∷ []) (ground (arith, unheld))
      ∙ debited_in-skip account debited target n [] gained)

module _ (world : World) (lawful : IsWorld world) (market_id outcome_id : ℕ) where
  payout-IsPlain :
      (w : Winner)
      → ltb 0 w.quantity ≡ true
      → IsPlain world.account
          (payout_of world market_id outcome_id (world.id_of market_pool market_id) w)
  unfolding payout_of is_user
  payout-IsPlain w real = record {
    undropped = refl;
    balanced = transfer-balanced _ _ (pos w.quantity) (ground (arith, real));
    undebited = λ debited.
        transfer-undebited world.account _ _ (pos w.quantity) debited
          (ids_differ world lawful market_pool user market_id w.user_id cc)
          (rw (lawful.account_at market_pool market_id) refl) (ground arith);
  }

  pub residue-IsPlain :
      (r : ℤ)
      → All
          (IsPlain world.account)
          (residue_movements world market_id r (world.id_of market_pool market_id))
  unfolding residue_movements residue_of is_user
  residue-IsPlain r = elim (Bool-cases (eqb_ℤ r (pos 0))) [
    | inl e ↦ rw e tt
    | inr e ↦ rw e (
      record {
        undropped = refl;
        balanced = transfer-balanced _ _ r e;
        undebited = λ debited.
            transfer-undebited world.account _ _ r debited
              (ids_differ world lawful market_pool platform market_id 0 cc)
              (rw (lawful.account_at market_pool market_id) refl)
              (rw (lawful.account_at platform 0) (ground arith));
      },
      tt,
    )
  ]

  pub payouts-IsPlain :
      (ws : List Winner)
      → All (λ (w : Winner). ltb 0 w.quantity ≡ true) ws
      → All
          (IsPlain world.account)
          (payouts_of world market_id outcome_id (world.id_of market_pool market_id) ws)
  unfolding payouts_of
  payouts-IsPlain [] h = tt
  payouts-IsPlain (w ∷ rest) h = (payout-IsPlain w h.0, payouts-IsPlain rest h.1)

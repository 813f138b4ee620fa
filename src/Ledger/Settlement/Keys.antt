-- ===== src/Ledger/Settlement/Keys.antt =====
-- The keys of backend/ledger_service/service/settlement.py: one for each user and market, and one for the
-- residue.
use cs.Base.{
  ℕ, ◌≡◌, refl, Bool, true, false, List, [], ◌∷◌, ◌++◌, any, ltb, leb, ◌==◌, ◌&&◌, ◌||◌, sym, ◌∙◌,
  arith, Bool-cases, inl, inr, eq→==, ==-refl,
}
use cs.Base.Int.{ℤ, pos, eqb_ℤ}
use cs.Base.Text.{Text, text_eq, text_eq→eq}
use cs.Ledger.Rows.{Position}
use cs.Ledger.Posting.Legs.{Movement}
use cs.Ledger.Posting.{is_repeated, has_repeated_key}
use cs.Ledger.Accounts.{World, IsWorld}
use cs.Ledger.Settlement.{
  Winner, list_winners, insert_winner, payout_of, payouts_of, residue_of, residue_movements,
  payout_key,
}

-- No two of the winners are one user.
abbrev pub is_winner : ℕ → List Winner → Bool
is_winner u ws = any (λ (w : Winner). u == w.user_id) ws

abbrev pub IsDistinct : List Winner → Type 0
IsDistinct [] = Unit
IsDistinct (w ∷ rest) = (is_winner w.user_id rest ≡ false) × IsDistinct rest

text_eq-cancel : (p t u : Text) → text_eq (p ++ t) (p ++ u) ≡ text_eq t u
unfolding text_eq
text_eq-cancel [] t u = refl
text_eq-cancel (c ∷ p) t u = rw (==-refl c) (text_eq-cancel p t u)

module _ (world : World) (lawful : IsWorld world) (market_id outcome_id pool : ℕ) where
  payout_key-eq :
      (u v : ℕ)
      → text_eq (payout_key world market_id u) (payout_key world market_id v) ≡ true
      → u ≡ v
  unfolding payout_key text_eq
  payout_key-eq u v h =
      let tails =
        sym (
          text_eq-cancel (world.str_uuid market_id) (58 ∷ world.str_uuid u) (58 ∷ world.str_uuid v))
        ∙ h in
      lawful.str_injective u v (text_eq→eq _ _ tails)

  payouts-unrepeated :
      (u : ℕ) (ws : List Winner) (others : List Movement)
      → is_winner u ws ≡ false
      → is_repeated (payout_key world market_id u) others ≡ false
      → is_repeated
          (payout_key world market_id u)
          (payouts_of world market_id outcome_id pool ws ++ others)
        ≡ false
  unfolding is_repeated payouts_of payout_of
  payouts-unrepeated u [] others absent later = later
  payouts-unrepeated u (w ∷ rest) others absent later =
      elim (Bool-cases
        (text_eq (payout_key world market_id u) (payout_key world market_id w.user_id))) [
          | inl e ↦
              let same = eq→== u w.user_id (payout_key-eq u w.user_id e) in
              absurd (let listed = rw same at absent in cc)
          | inr e ↦ rw e (payouts-unrepeated u rest others (ground (arith, absent)) later)
        ]

  residue-unrepeated :
      (u : ℕ) (r : ℤ)
      → is_repeated (payout_key world market_id u) (residue_movements world market_id r pool)
        ≡ false
  unfolding is_repeated residue_movements residue_of payout_key text_eq
  residue-unrepeated u r = elim (Bool-cases (eqb_ℤ r (pos 0))) [
    | inl e ↦ rw e refl
    | inr e ↦ rw e refl
  ]

  pub payouts-single :
      (ws : List Winner) (r : ℤ)
      → IsDistinct ws
      → has_repeated_key (
          payouts_of world market_id outcome_id pool ws ++ residue_movements world market_id r pool)
        ≡ false
  unfolding has_repeated_key payouts_of payout_of is_repeated residue_movements
  payouts-single [] r h = elim (Bool-cases (eqb_ℤ r (pos 0))) [
    | inl e ↦ rw e refl
    | inr e ↦ rw e refl
  ]
  payouts-single (w ∷ rest) r (once, others) =
      rw
        (payouts-unrepeated w.user_id rest (residue_movements world market_id r pool) once
          (residue-unrepeated w.user_id r))
        (payouts-single rest r others)

-- One position for a user, a market and an outcome, as the table's key has it
abbrev pub holds : ℕ → ℕ → ℕ → List Position → Bool
holds u market_id outcome_id positions =
    any
      (λ (p : Position). p.user_id == u && (p.market_id == market_id && p.outcome_id == outcome_id))
      positions

abbrev pub IsKeyed : List Position → Type 0
IsKeyed [] = Unit
IsKeyed (p ∷ rest) = (holds p.user_id p.market_id p.outcome_id rest ≡ false) × IsKeyed rest

is_winner-insert :
    (u : ℕ) (w : Winner) (ws : List Winner)
    → is_winner u (insert_winner w ws) ≡ ((u == w.user_id) || is_winner u ws)
unfolding insert_winner
is_winner-insert u w [] = refl
is_winner-insert u w (x ∷ rest) = elim (Bool-cases (leb w.user_id x.user_id)) [
  | inl e ↦ rw e refl
  | inr e ↦ rw (e, is_winner-insert u w rest) (ground arith)
]

IsDistinct-insert :
    (w : Winner) (ws : List Winner)
    → is_winner w.user_id ws ≡ false
    → IsDistinct ws
    → IsDistinct (insert_winner w ws)
unfolding insert_winner
IsDistinct-insert w [] absent h = (refl, tt)
IsDistinct-insert w (x ∷ rest) absent h = elim (Bool-cases (leb w.user_id x.user_id)) [
  | inl e ↦ rw e (absent, h)
  | inr e ↦ rw e (
    is_winner-insert x.user_id w rest ∙ ground (arith, absent, h.0),
    IsDistinct-insert w rest (ground (arith, absent)) h.1,
  )
]

is_winner-list :
    (u market_id outcome_id : ℕ) (positions : List Position)
    → holds u market_id outcome_id positions ≡ false
    → is_winner u (list_winners positions market_id outcome_id) ≡ false
unfolding list_winners
is_winner-list u market_id outcome_id [] h = refl
is_winner-list u market_id outcome_id (p ∷ rest) h =
    let others = is_winner-list u market_id outcome_id rest (ground (arith, h)) in
    elim (Bool-cases
      (p.market_id == market_id && (p.outcome_id == outcome_id && ltb 0 p.quantity))) [
        | inl e ↦ rw e (
            is_winner-insert u _ (list_winners rest market_id outcome_id)
            ∙ ground (arith, others, h, e))
        | inr e ↦ rw e others
      ]

pub list_winners-IsDistinct :
    (market_id outcome_id : ℕ) (positions : List Position)
    → IsKeyed positions
    → IsDistinct (list_winners positions market_id outcome_id)
unfolding list_winners
list_winners-IsDistinct market_id outcome_id [] h = tt
list_winners-IsDistinct market_id outcome_id (p ∷ rest) h =
    elim (Bool-cases
      (p.market_id == market_id && (p.outcome_id == outcome_id && ltb 0 p.quantity))) [
        | inl e ↦
            let in_market : p.market_id ≡ market_id = ground (arith, e) in
            let on_outcome : p.outcome_id ≡ outcome_id = ground (arith, e) in
            rw e (
              IsDistinct-insert _ _
                (is_winner-list p.user_id market_id outcome_id rest
                  (rw (in_market, on_outcome) at h.0))
                (list_winners-IsDistinct market_id outcome_id rest h.1))
        | inr e ↦ rw e (list_winners-IsDistinct market_id outcome_id rest h.1)
      ]

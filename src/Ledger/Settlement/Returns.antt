-- ===== src/Ledger/Settlement/Returns.antt =====
-- A settlement of backend/ledger_service/service/settlement.py returns: its batch is well formed, balanced
-- and takes nothing from a user.
use cs.Base.{
  ℕ, ◌≡◌, refl, true, false, some, List, [], ◌∷◌, any, length, ltb, leb, ◌==◌, ◌&&◌, arith,
  Bool-cases, inl, inr, ok, raise_if, is_ok, is_ok-ok, is_ok-mapped, not, sym, ◌∙◌, ap, ◌++◌,
  >>=-eq-ok, ok_injective, All, All-append,
}
use cs.Base.Int.{ℤ, pos, ◌-ℤ◌, eqb_ℤ, int_laws}
use cs.Ledger.Rows.{Book, Tables, Position, Account, market_pool, MarketResult, settled}
use cs.Ledger.Posting.Moves.{post_all-others}
use cs.Ledger.Settlement.Paid.{IsSettled, settle_book-IsSettled}
use cs.Ledger.Reservations.{balance_of}
use cs.Ledger.Posting.Legs.{Movement, has_malformed_drop}
use cs.Ledger.Posting.{
  batch_legs, refuse_if_malformed_batch, has_repeated_key, any_key_taken, post_all,
}
use cs.Ledger.Accounts.{World, IsWorld}
use cs.Ledger.Books.{MarketTerms}
use cs.Ledger.Settlement.{
  SettlementResult, Winner, list_winners, insert_winner, total_of_winners, payouts_of,
  residue_movements, movements_of, settle_winner, settle_book, winner_of, listed_in, recorded,
  result_of,
}
use cs.Ledger.Settlement.Keys.{IsDistinct, IsKeyed, payouts-single, list_winners-IsDistinct}
use cs.Ledger.Posting.Steps.{post_all-is_ok}
use cs.Ledger.Settlement.Plain.{
  IsPlain, plain-formed, plain-balanced, plain-covered, residue-IsPlain, payouts-IsPlain,
}

insert_winner-real :
    (w : Winner) (ws : List Winner)
    → ltb 0 w.quantity ≡ true
    → All (λ (x : Winner). ltb 0 x.quantity ≡ true) ws
    → All (λ (x : Winner). ltb 0 x.quantity ≡ true) (insert_winner w ws)
unfolding insert_winner
insert_winner-real w [] real h = (real, tt)
insert_winner-real w (x ∷ rest) real h = elim (Bool-cases (leb w.user_id x.user_id)) [
  | inl e ↦ rw e (real, h)
  | inr e ↦ rw e (h.0, insert_winner-real w rest real h.1)
]

list_winners-real :
    (market_id outcome_id : ℕ) (positions : List Position)
    → All (λ (w : Winner). ltb 0 w.quantity ≡ true) (list_winners positions market_id outcome_id)
unfolding list_winners
list_winners-real market_id outcome_id [] = tt
list_winners-real market_id outcome_id (p ∷ rest) =
    elim (Bool-cases
      (p.market_id == market_id && (p.outcome_id == outcome_id && ltb 0 p.quantity))) [
        | inl e ↦ rw e (
            insert_winner-real _ _ (ground (arith, e))
              (list_winners-real market_id outcome_id rest))
        | inr e ↦ rw e (list_winners-real market_id outcome_id rest)
      ]

module _ (world : World) (lawful : IsWorld world) (market_id outcome_id : ℕ) where
  movements-IsPlain :
      (positions : List Position) (r : ℤ)
      → All (IsPlain world.account) (
          movements_of world market_id outcome_id
            (world.id_of market_pool market_id)
            (list_winners positions market_id outcome_id)
            r)
  unfolding movements_of
  movements-IsPlain positions r =
      All-append _ _ _
        (payouts-IsPlain world lawful market_id outcome_id _
          (list_winners-real market_id outcome_id positions))
        (residue-IsPlain world lawful market_id outcome_id r)

  -- With no winner the residue is what the pool held.
  movements-some :
      (pool : ℕ) (ws : List Winner) (balance : ℤ)
      → eqb_ℤ balance (pos 0) ≡ false
      → ltb 0 (
          length (movements_of world market_id outcome_id pool ws (balance -ℤ total_of_winners ws)))
        ≡ true
  unfolding movements_of payouts_of residue_movements total_of_winners
  movements-some pool [] balance real =
      let unpaid : eqb_ℤ (balance -ℤ pos 0) (pos 0) ≡ false = grind (int_laws, real) in
      rw unpaid refl
  movements-some pool (w ∷ rest) balance real = ground arith

movements-at_pool :
    (world : World) (lawful : IsWorld world) (market_id outcome_id pool : ℕ)
    (positions : List Position) (r : ℤ)
    → pool ≡ world.id_of market_pool market_id
    → All (IsPlain world.account) (
        movements_of world market_id outcome_id pool
          (list_winners positions market_id outcome_id)
          r)
movements-at_pool world lawful market_id outcome_id pool positions r own =
    rw own (movements-IsPlain world lawful market_id outcome_id positions r)

movements-single :
    (world : World) (lawful : IsWorld world) (market_id outcome_id pool : ℕ) (ws : List Winner)
    (r : ℤ)
    → IsDistinct ws
    → has_repeated_key (movements_of world market_id outcome_id pool ws r) ≡ false
unfolding movements_of
movements-single world lawful market_id outcome_id pool ws r h =
    payouts-single world lawful market_id outcome_id pool ws r h

refuse_if_malformed_batch-ok :
    (account : ℕ → Account) (movements : List Movement)
    → ltb 0 (length movements) ≡ true
    → has_repeated_key movements ≡ false
    → any (has_malformed_drop account) movements ≡ false
    → refuse_if_malformed_batch account movements ≡ ok tt
unfolding refuse_if_malformed_batch raise_if
refuse_if_malformed_batch-ok account [] some_of single formed = absurd cc
refuse_if_malformed_batch-ok account (m ∷ rest) some_of single formed = rw (single, formed) refl

-- The row of results that a settlement adds
abbrev pub result_row : ℕ → ℕ → ℕ → MarketResult
result_row market_id outcome_id now = record {
  market_id = market_id;
  kind = settled;
  outcome_id = some outcome_id;
  recorded_at = now;
}

settles_ok :
    (world : World) (new_id : ℕ → ℕ) (now actor_id market_id outcome_id : ℕ) (terms : MarketTerms)
    (book : Book) (s : Tables)
    → IsWorld world
    → book.pool_account_id ≡ world.id_of market_pool market_id
    → IsKeyed s.positions
    → terms.proposed_outcome_id ≡ some outcome_id
    → listed_in outcome_id book.outcomes ≡ true
    → eqb_ℤ (balance_of s.entries book.pool_account_id) (pos 0) ≡ false
    → any_key_taken s.transactions (
        batch_legs (
          movements_of world market_id outcome_id book.pool_account_id
            (list_winners s.positions market_id outcome_id)
            (balance_of s.entries book.pool_account_id
              -ℤ total_of_winners (list_winners s.positions market_id outcome_id))))
      ≡ false
    → is_ok (settle_book world new_id now actor_id market_id terms book s) ≡ true
unfolding settle_book settle_winner recorded result_of winner_of raise_if
settles_ok world new_id now actor_id market_id outcome_id terms book s lawful own keyed chosen
      listed held fresh =
    let ws = list_winners s.positions market_id outcome_id in
    let r = balance_of s.entries book.pool_account_id -ℤ total_of_winners ws in
    let movements = movements_of world market_id outcome_id book.pool_account_id ws r in
    let plain : All (IsPlain world.account) movements =
      movements-at_pool world lawful market_id outcome_id book.pool_account_id s.positions r own in
    let single : has_repeated_key movements ≡ false =
      movements-single world lawful market_id outcome_id book.pool_account_id ws r
        (list_winners-IsDistinct market_id outcome_id s.positions keyed) in
    let formed =
      refuse_if_malformed_batch-ok world.account movements
        (movements-some world lawful market_id outcome_id book.pool_account_id ws
          (balance_of s.entries book.pool_account_id) held)
        single (plain-formed world.account movements plain) in
    rw (chosen, listed)
      (is_ok-mapped (post_all world.hashing world.account new_id true now movements _) _ (
        post_all-is_ok world.hashing world.account new_id true now movements _ formed
          (plain-balanced world.account movements plain) fresh
          (plain-covered world.account _ movements plain)))

recorded_results :
    (world : World) (new_id : ℕ → ℕ) (now actor_id market_id outcome_id : ℕ) (terms : MarketTerms)
    (book : Book) (s : Tables) {result : SettlementResult} {after : Tables}
    → terms.proposed_outcome_id ≡ some outcome_id
    → settle_book world new_id now actor_id market_id terms book s ≡ ok (result, after)
    → (result.outcome_id ≡ outcome_id)
      × (after.results ≡ s.results ++ (result_row market_id outcome_id now ∷ []))
unfolding settle_book settle_winner recorded result_of winner_of
recorded_results world new_id now actor_id market_id outcome_id terms book s chosen h =
    let (picked, listed, h₁) = >>=-eq-ok (winner_of book (some outcome_id)) _ (rw chosen at h) in
    let (u, foreign, picked_eq) =
      >>=-eq-ok (raise_if (not (listed_in outcome_id book.outcomes)) _) _ listed in
    let same : outcome_id ≡ picked = ok_injective picked_eq in
    let (posted, written, h₂) =
      >>=-eq-ok (post_all world.hashing world.account new_id true now _ _) _ h₁ in
    let kept = (post_all-others world.hashing world.account new_id true now _ _ written).0 in
    (
      ap (λ (p : SettlementResult × Tables). p.0.outcome_id) (sym (ok_injective h₂)) ∙ sym same,
      ap (λ (p : SettlementResult × Tables). p.1.results) (sym (ok_injective h₂))
          ∙ (kept ∙ ap (λ o. s.results ++ (result_row market_id o now ∷ [])) (sym same)),
    )

-- A settlement of a market whose proposed winner is an outcome of its book, and whose pool holds credits or
-- lacks them, returns and writes, where no two positions have the same user, market and outcome and none of
-- its keys is taken: the result names the proposed winner and is the market's next row of results, and in
-- the tables that are left the pool is empty, each user has their shares of that outcome more and the
-- platform the rest.
pub settle_book-settles :
    (world : World) (new_id : ℕ → ℕ) (now actor_id market_id outcome_id : ℕ) (terms : MarketTerms)
    (book : Book) (s : Tables)
    → IsWorld world
    → book.pool_account_id ≡ world.id_of market_pool market_id
    → IsKeyed s.positions
    → terms.proposed_outcome_id ≡ some outcome_id
    → listed_in outcome_id book.outcomes ≡ true
    → eqb_ℤ (balance_of s.entries book.pool_account_id) (pos 0) ≡ false
    → any_key_taken s.transactions (
        batch_legs (
          movements_of world market_id outcome_id book.pool_account_id
            (list_winners s.positions market_id outcome_id)
            (balance_of s.entries book.pool_account_id
              -ℤ total_of_winners (list_winners s.positions market_id outcome_id))))
      ≡ false
    → (result : SettlementResult) × (after : Tables) × (settle_book world new_id now actor_id
          market_id terms book s
        ≡ ok (result, after))
      × (result.outcome_id ≡ outcome_id)
      × (after.results ≡ s.results ++ (result_row market_id outcome_id now ∷ []))
      × IsSettled world market_id s after result
settle_book-settles world new_id now actor_id market_id outcome_id terms book s lawful own keyed
      chosen listed held fresh =
    let ((result, after), returned) =
      is_ok-ok (settle_book world new_id now actor_id market_id terms book s) (
        settles_ok world new_id now actor_id market_id outcome_id terms book s lawful own keyed
          chosen listed held fresh) in
    let (named, row) =
      recorded_results world new_id now actor_id market_id outcome_id terms book s chosen
        returned in
    (
      result,
      after,
      returned,
      named,
      row,
      settle_book-IsSettled world new_id now actor_id market_id terms book s result after lawful own
          returned,
    )

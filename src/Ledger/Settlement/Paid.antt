-- ===== src/Ledger/Settlement/Paid.antt =====
-- What a settlement of backend/ledger_service/service/settlement.py leaves on each account.
use cs.Base.{ℕ, ◌≡◌, refl, true, List, ok, >>=-eq-ok, ok_injective, sym, ◌∙◌, ap, ==-refl}
use cs.Base.Int.{ℤ, pos, neg, ◌+ℤ◌, int_laws}
use cs.Ledger.Rows.{Book, Tables, user, market_pool, platform}
use cs.Ledger.Reservations.{balance_of}
use cs.Ledger.Posting.Nets.{net_of_batch}
use cs.Ledger.Posting.Moves.{net_of_batch-append, post_all-moves}
use cs.Ledger.Posting.{batch_legs, post_all}
use cs.Ledger.Accounts.{World, IsWorld, platform_id}
use cs.Ledger.Accounts.Ids.{ids_differ}
use cs.Ledger.Books.{MarketTerms}
use cs.Ledger.Settlement.{
  SettlementResult, Winner, list_winners, total_of_winners, payouts_of, residue_movements,
  winner_of, recorded, result_of, movements_of, settle_winner, settle_book,
}
use cs.Ledger.Settlement.Pool.{
  shares_of, paid_to, ticks_at, paid_to-list_winners, payouts-user, payouts-pool, payouts-platform,
  residue-net,
}

-- The accounts after a settlement: the pool holds nothing, each user has their shares of the winning
-- outcome more, and the platform the residue.
pub record IsSettled (world : World) (market_id : ℕ) (before after : Tables)
    (result : SettlementResult) : Type 0 where
  pub pool_emptied : balance_of after.entries (world.id_of market_pool market_id) ≡ pos 0
  pub users_paid :
      (u : ℕ)
      → balance_of after.entries (world.id_of user u)
        ≡ balance_of before.entries (world.id_of user u)
          +ℤ shares_of u market_id result.outcome_id before.positions
  pub platform_swept :
      balance_of after.entries (platform_id world)
      ≡ balance_of before.entries (platform_id world) +ℤ result.residue
  pub paid_from_pool :
      result.total_paid +ℤ result.residue
      ≡ balance_of before.entries (world.id_of market_pool market_id)

module _ (world : World) (lawful : IsWorld world) (market_id outcome_id : ℕ) (ws : List Winner)
    (r : ℤ) where
  abbrev moved_on : ℕ → ℤ
  moved_on j = net_of_batch j (
      batch_legs (movements_of world market_id outcome_id (world.id_of market_pool market_id) ws r))

  moved_parts :
      (j : ℕ)
      → moved_on j
        ≡ net_of_batch j (
            batch_legs
              (payouts_of world market_id outcome_id (world.id_of market_pool market_id) ws))
          +ℤ (ticks_at (world.id_of market_pool market_id) j (neg r)
              +ℤ ticks_at (platform_id world) j r)
  unfolding movements_of
  moved_parts j =
      net_of_batch-append j
        (payouts_of world market_id outcome_id (world.id_of market_pool market_id) ws)
        (residue_movements world market_id r (world.id_of market_pool market_id))
      ∙ rw (residue-net world lawful market_id outcome_id j r) refl

  moved-pool : moved_on (world.id_of market_pool market_id) ≡ neg (total_of_winners ws) +ℤ neg r
  moved-pool =
      moved_parts (world.id_of market_pool market_id)
      ∙ rw
          (
            payouts-pool world lawful market_id outcome_id ws,
            ==-refl (world.id_of market_pool market_id),
            ids_differ world lawful platform market_pool 0 market_id cc,
          )
          (grind int_laws)

  moved-user : (u : ℕ) → moved_on (world.id_of user u) ≡ paid_to u ws
  moved-user u =
      moved_parts (world.id_of user u)
      ∙ rw
          (
            payouts-user world lawful market_id outcome_id u ws,
            ids_differ world lawful market_pool user market_id u cc,
            ids_differ world lawful platform user 0 u cc,
          )
          (grind int_laws)

  moved-platform : moved_on (platform_id world) ≡ r
  moved-platform =
      moved_parts (platform_id world)
      ∙ rw
          (
            payouts-platform world lawful market_id outcome_id ws,
            ids_differ world lawful market_pool platform market_id 0 cc,
            ==-refl (platform_id world),
          )
          (grind int_laws)

pub settle_winner-moves :
    (world : World) (new_id : ℕ → ℕ) (now actor_id market_id : ℕ) (book : Book) (outcome_id : ℕ)
    (s : Tables) (result : SettlementResult) (after : Tables)
    → settle_winner world new_id now actor_id market_id book outcome_id s ≡ ok (result, after)
    → (result
        ≡ result_of market_id outcome_id now
            (list_winners s.positions market_id outcome_id)
            (balance_of s.entries book.pool_account_id))
      × ((j : ℕ)
          → balance_of after.entries j
            ≡ balance_of s.entries j
              +ℤ net_of_batch j (
                  batch_legs (
                    movements_of world market_id outcome_id book.pool_account_id
                      (list_winners s.positions market_id outcome_id)
                      result.residue)))
unfolding settle_winner recorded
settle_winner-moves world new_id now actor_id market_id book outcome_id s result after h =
    let (posted, written, h₁) =
      >>=-eq-ok (post_all world.hashing world.account new_id true now _ _) _ h in
    let pair = ok_injective h₁ in
    let moves = post_all-moves world.hashing world.account new_id now _ _ written in
    let same = ap (λ p. p.0) pair in
    (sym same, λ j. rw (sym (ap (λ p. p.1) pair), sym same) (moves j))

settle_winner-IsSettled :
    (world : World) (new_id : ℕ → ℕ) (now actor_id market_id : ℕ) (book : Book) (outcome_id : ℕ)
    (s : Tables) (result : SettlementResult) (after : Tables)
    → IsWorld world
    → book.pool_account_id ≡ world.id_of market_pool market_id
    → settle_winner world new_id now actor_id market_id book outcome_id s ≡ ok (result, after)
    → IsSettled world market_id s after result
unfolding result_of
settle_winner-IsSettled world new_id now actor_id market_id book outcome_id s result after lawful
      own h =
    let (same, moves) =
      settle_winner-moves world new_id now actor_id market_id book outcome_id s result after h in
    let winners = list_winners s.positions market_id outcome_id in
    let figures = rw own at same in
    let moved = rw own at moves in
    record {
      pool_emptied =
          moved (world.id_of market_pool market_id)
          ∙ rw (moved-pool world lawful market_id outcome_id winners result.residue, figures)
              (grind int_laws);
      users_paid = λ u.
          moved (world.id_of user u)
          ∙ rw
              (
                moved-user world lawful market_id outcome_id winners result.residue u,
                paid_to-list_winners u market_id outcome_id s.positions,
                figures,
              )
              refl;
      platform_swept =
          moved (platform_id world)
          ∙ rw (moved-platform world lawful market_id outcome_id winners result.residue) refl;
      paid_from_pool = rw figures (grind int_laws);
    }

-- A settlement that returns, of a book whose pool is the market's pool account, empties the pool: it pays
-- each user one credit for each share of the winning outcome, and gives the platform the rest of what the
-- pool held, or takes from it what the pool lacked.
pub settle_book-IsSettled :
    (world : World) (new_id : ℕ → ℕ) (now actor_id market_id : ℕ) (terms : MarketTerms)
    (book : Book) (s : Tables) (result : SettlementResult) (after : Tables)
    → IsWorld world
    → book.pool_account_id ≡ world.id_of market_pool market_id
    → settle_book world new_id now actor_id market_id terms book s ≡ ok (result, after)
    → IsSettled world market_id s after result
unfolding settle_book
settle_book-IsSettled world new_id now actor_id market_id terms book s result after lawful own h =
    let (outcome_id, chosen, h₁) = >>=-eq-ok (winner_of book terms.proposed_outcome_id) _ h in
    settle_winner-IsSettled world new_id now actor_id market_id book outcome_id s result after
      lawful own h₁

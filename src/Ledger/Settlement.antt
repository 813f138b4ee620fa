-- ===== src/Ledger/Settlement.antt =====
-- backend/ledger_service/service/settlement.py: every winning share is paid once, from the market's pool.
-- The calls of the market service are arguments, the answer or the error that each gives.
mod Pool
pub mod Paid
mod Keys
mod Plain
pub mod Returns
pub mod Payout
pub mod Once
use cs.Base.{
  ℕ, ◌+◌, ◌≡◌, Bool, true, false, not, Option, none, some, List, [], ◌∷◌, ◌++◌, length, ltb, leb,
  ◌==◌, ◌&&◌, ◌||◌, if◌then◌else◌, Outcome, ok, err, ◌>>=◌, ◌>>◌, raise_if, is_some,
}
use cs.Base.Int.{ℤ, pos, neg, ◌+ℤ◌, ◌-ℤ◌, eqb_ℤ}
use cs.Base.Text.{Text, text_eq}
use cs.Base.Dict.{member}
use cs.Base.Decimal.{of_ticks}
use cs.Ledger.Rows.{
  Book, OutcomeRow, Tables, LedgerError, Position, Entry, Transaction, TransactionKind, settlement,
  settlement_residue, paid, of_market, user, MarketResult, ResultKind, settled, voided, AdminEntry,
  market_settled, market_already_voided, market_not_approved, dispute_window_open,
  market_terms_unavailable, market_not_found,
}
use cs.Ledger.Reservations.{balance_of}
use cs.Ledger.Posting.Legs.{Movement}
use cs.Ledger.Posting.{post_all}
use cs.Ledger.Accounts.{World, platform_id, transfer, no_drop}
use cs.Ledger.Books.{MarketTerms, find_book, find_result, ensure_open}

pub record SettlementResult : Type 0 where
  pub market_id : ℕ
  pub outcome_id : ℕ
  pub recorded_at : ℕ
  pub holders_paid : ℕ
  pub total_paid : ℤ
  pub residue : ℤ

pub record Winner : Type 0 where
  pub user_id : ℕ
  pub quantity : ℕ

-- "approved", "settled" and "voided"
abbrev pub approved_text : Text
approved_text = 97 ∷ 112 ∷ 112 ∷ 114 ∷ 111 ∷ 118 ∷ 101 ∷ 100 ∷ []

abbrev pub settled_text : Text
settled_text = 115 ∷ 101 ∷ 116 ∷ 116 ∷ 108 ∷ 101 ∷ 100 ∷ []

abbrev pub voided_text : Text
voided_text = 118 ∷ 111 ∷ 105 ∷ 100 ∷ 101 ∷ 100 ∷ []

-- "settlement:" and "settlement_residue"
abbrev pub settlement_prefix : Text
settlement_prefix = 115 ∷ 101 ∷ 116 ∷ 116 ∷ 108 ∷ 101 ∷ 109 ∷ 101 ∷ 110 ∷ 116 ∷ 58 ∷ []

abbrev pub residue_prefix : Text
residue_prefix =
    115 ∷ 101 ∷ 116 ∷ 116 ∷ 108 ∷ 101 ∷ 109 ∷ 101 ∷ 110 ∷ 116 ∷ 95 ∷ 114 ∷ 101 ∷ 115 ∷ 105 ∷ 100
    ∷ 117 ∷ 101 ∷ []

-- `_payout_key`
unfoldable pub payout_key : World → ℕ → ℕ → Text
payout_key world market_id user_id =
    settlement_prefix ++ (world.str_uuid market_id ++ (58 ∷ world.str_uuid user_id))

-- `_refuse_if_not_settleable`
unfoldable pub refuse_if_not_settleable : MarketTerms → Outcome LedgerError Unit
refuse_if_not_settleable terms = do
  raise_if (text_eq terms.status voided_text) market_already_voided
  raise_if (text_eq terms.status approved_text && not terms.settleable) dispute_window_open
  raise_if (not (text_eq terms.status approved_text || text_eq terms.status settled_text))
      market_not_approved

unfoldable pub listed_in : ℕ → List OutcomeRow → Bool
listed_in outcome_id [] = false
listed_in outcome_id (o ∷ rest) = outcome_id == o.outcome_id || listed_in outcome_id rest

-- `_refuse_if_foreign_winner`, and the winner that it lets through
unfoldable pub winner_of : Book → Option ℕ → Outcome LedgerError ℕ
unfolding listed_in
winner_of book none = err market_terms_unavailable
winner_of book (some winner) =
    raise_if (not (listed_in winner book.outcomes)) market_terms_unavailable >> ok winner

-- `ORDER BY user_id`
unfoldable pub insert_winner : Winner → List Winner → List Winner
insert_winner w [] = w ∷ []
insert_winner w (x ∷ rest) =
    if leb w.user_id x.user_id then w ∷ x ∷ rest else x ∷ insert_winner w rest

-- `_list_winners`
unfoldable pub list_winners : List Position → ℕ → ℕ → List Winner
unfolding insert_winner
list_winners [] market_id outcome_id = []
list_winners (p ∷ rest) market_id outcome_id =
    let others = list_winners rest market_id outcome_id in
    if p.market_id == market_id && (p.outcome_id == outcome_id && ltb 0 p.quantity)
    then insert_winner (record { user_id = p.user_id; quantity = p.quantity }) others
    else others

-- `sum((winner.quantity for winner in winners), ZERO)`
unfoldable pub total_of_winners : List Winner → ℤ
total_of_winners [] = pos 0
total_of_winners (w ∷ rest) = pos w.quantity +ℤ total_of_winners rest

-- `_payout_of`
unfoldable pub payout_of : World → ℕ → ℕ → ℕ → Winner → Movement
unfolding payout_key transfer
payout_of world market_id outcome_id pool winner = record {
  idempotency_key = payout_key world market_id winner.user_id;
  kind = settlement;
  legs = transfer pool (world.id_of user winner.user_id) (of_ticks (pos winner.quantity));
  context = paid winner.user_id market_id outcome_id winner.quantity;
  reservation_drop = no_drop;
}

unfoldable pub payouts_of : World → ℕ → ℕ → ℕ → List Winner → List Movement
payouts_of world market_id outcome_id pool [] = []
payouts_of world market_id outcome_id pool (w ∷ rest) =
    payout_of world market_id outcome_id pool w ∷ payouts_of world market_id outcome_id pool rest

unfoldable pub residue_of : World → ℕ → ℤ → ℕ → TransactionKind → Text → Movement
unfolding transfer
residue_of world market_id residue pool kind key_prefix = record {
  idempotency_key = key_prefix ++ (58 ∷ world.str_uuid market_id);
  kind = kind;
  legs = transfer pool (platform_id world) (of_ticks residue);
  context = of_market market_id;
  reservation_drop = no_drop;
}

-- `if residue != ZERO: movements.append(...)`
unfoldable pub residue_movements : World → ℕ → ℤ → ℕ → List Movement
unfolding residue_of
residue_movements world market_id residue pool =
    if eqb_ℤ residue (pos 0)
    then []
    else residue_of world market_id residue pool settlement_residue residue_prefix ∷ []

-- The record and the administrator's entry are pending when `post_all` is entered, and its commit makes
-- them lasting.
unfoldable pub recorded : ℕ → ℕ → SettlementResult → Tables → Tables
recorded now actor_id result s = record s {
  results =
      s.results
      ++ (record {
        market_id = result.market_id;
        kind = settled;
        outcome_id = some result.outcome_id;
        recorded_at = now;
      }
          ∷ []);
  admin_entries =
      s.admin_entries
      ++ (record {
        actor_id = actor_id;
        target_id = result.market_id;
        action =
            market_settled result.outcome_id result.holders_paid result.total_paid result.residue;
        occurred_at = now;
      }
          ∷ []);
}

-- `_result_of` over the winners and what the pool holds
unfoldable pub result_of : ℕ → ℕ → ℕ → List Winner → ℤ → SettlementResult
unfolding total_of_winners
result_of market_id outcome_id now winners pool_balance = record {
  market_id = market_id;
  outcome_id = outcome_id;
  recorded_at = now;
  holders_paid = length winners;
  total_paid = total_of_winners winners;
  residue = pool_balance -ℤ total_of_winners winners;
}

unfoldable pub movements_of : World → ℕ → ℕ → ℕ → List Winner → ℤ → List Movement
unfolding payouts_of residue_movements
movements_of world market_id outcome_id pool winners residue =
    payouts_of world market_id outcome_id pool winners
    ++ residue_movements world market_id residue pool

-- Step 6 of `pay_out`
unfoldable pub settle_winner :
    World
    → (ℕ → ℕ)
    → ℕ
    → ℕ
    → ℕ
    → Book
    → ℕ
    → Tables
    → Outcome LedgerError (SettlementResult × Tables)
unfolding recorded result_of movements_of
settle_winner world new_id now actor_id market_id book outcome_id s =
    let winners = list_winners s.positions market_id outcome_id in
    let result =
      result_of market_id outcome_id now winners (balance_of s.entries book.pool_account_id) in
    post_all world.hashing world.account new_id true now
      (movements_of world market_id outcome_id book.pool_account_id winners result.residue)
      (recorded now actor_id result s)
    >>= (λ posted. ok (result, posted.1))

-- Steps 5 and 6, on the tables under the book's lock
unfoldable pub settle_book :
    World
    → (ℕ → ℕ)
    → ℕ
    → ℕ
    → ℕ
    → MarketTerms
    → Book
    → Tables
    → Outcome LedgerError (SettlementResult × Tables)
unfolding settle_winner
settle_book world new_id now actor_id market_id terms book s =
    winner_of book terms.proposed_outcome_id
    >>= (λ outcome_id. settle_winner world new_id now actor_id market_id book outcome_id s)

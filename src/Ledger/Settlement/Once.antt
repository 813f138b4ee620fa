-- ===== src/Ledger/Settlement/Once.antt =====
-- A settled market of backend/ledger_service/service/settlement.py is never paid again.
use cs.Base.{
  ℕ, ◌≡◌, refl, true, none, some, List, [], ◌∷◌, ◌++◌, ◌==◌, Outcome, ok, err, >>=-eq-ok,
  ok_injective, sym, ◌∙◌, ap, ==-refl, Bool-cases, inl, inr,
}
use cs.Ledger.Rows.{Book, Tables, LedgerError, MarketResult, settled}
use cs.Ledger.Posting.Moves.{post_all-others}
use cs.Ledger.Posting.{post_all}
use cs.Ledger.Accounts.{World}
use cs.Ledger.Books.{MarketTerms, find_result}
use cs.Ledger.Settlement.Payout.{answer_recorded, answered_by, pay_out}
use cs.Ledger.Settlement.{SettlementResult, winner_of, recorded, settle_winner, settle_book}

find_result-append :
    (results : List MarketResult) (r : MarketResult)
    → find_result results r.market_id ≡ none
    → find_result (results ++ (r ∷ [])) r.market_id ≡ some r
unfolding find_result
find_result-append [] r missing = rw (==-refl r.market_id) refl
find_result-append (x ∷ rest) r missing = elim (Bool-cases (x.market_id == r.market_id)) [
  | inl e ↦ absurd (let found = rw e at missing in cc)
  | inr e ↦ rw e (find_result-append rest r (rw e at missing))
]

settle_book-recorded :
    (world : World) (new_id : ℕ → ℕ) (now actor_id market_id : ℕ) (terms : MarketTerms)
    (book : Book) (s : Tables) {result : SettlementResult} {after : Tables}
    → find_result s.results market_id ≡ none
    → settle_book world new_id now actor_id market_id terms book s ≡ ok (result, after)
    → (r : MarketResult) × (find_result after.results market_id ≡ some r)
unfolding settle_book settle_winner recorded
settle_book-recorded world new_id now actor_id market_id terms book s missing h =
    let (outcome_id, chosen, h₁) = >>=-eq-ok (winner_of book terms.proposed_outcome_id) _ h in
    let (posted, written, h₂) =
      >>=-eq-ok (post_all world.hashing world.account new_id true now _ _) _ h₁ in
    let kept = (post_all-others world.hashing world.account new_id true now _ _ written).0 in
    let same = ap (λ p. p.1) (ok_injective h₂) in
    let r : MarketResult = record {
      market_id = market_id;
      kind = settled;
      outcome_id = some outcome_id;
      recorded_at = now;
    } in
    (r, rw (sym same, kept) (find_result-append s.results r missing))

-- A call on a market with a record changes no table, whatever it answers.
answered-unchanged :
    (answer : Outcome LedgerError SettlementResult) (confirmed : Outcome LedgerError Unit)
    (s : Tables)
    → (answered_by confirmed answer s).1 ≡ s
answered-unchanged (err e) confirmed s = refl
answered-unchanged (ok result) confirmed s = refl

-- Once a market without a result is settled, and whatever other sessions have committed since, short of the
-- market's result, the next `pay_out` of it leaves all the tables as they are: whatever terms it reads or fails
-- to read, and whether or not the market service confirms.
pub pay_out-settled :
    (world : World) (new_id new_id' : ℕ → ℕ) (now now' actor_id actor_id' market_id : ℕ)
    (terms : MarketTerms) (book : Book) (s : Tables) (result : SettlementResult)
    (after later : Tables)
    → find_result s.results market_id ≡ none
    → settle_book world new_id now actor_id market_id terms book s ≡ ok (result, after)
    → find_result later.results market_id ≡ find_result after.results market_id
    → (reread fetched : Outcome LedgerError MarketTerms) (meanwhile : Tables → Tables)
      (confirmed : Outcome LedgerError Unit)
    → (pay_out world new_id' now' actor_id' market_id reread fetched meanwhile confirmed later).1
      ≡ later
unfolding pay_out
pay_out-settled world new_id new_id' now now' actor_id actor_id' market_id terms book s result after
      later missing h kept (err e) fetched meanwhile confirmed =
    refl
pay_out-settled world new_id new_id' now now' actor_id actor_id' market_id terms book s result after
      later missing h kept (ok read) fetched meanwhile confirmed =
    let (r, found) =
      settle_book-recorded world new_id now actor_id market_id terms book s missing h in
    let there : find_result later.results market_id ≡ some r = kept ∙ found in
    rw (there, pay_out) (answered-unchanged (answer_recorded market_id r later) confirmed later)

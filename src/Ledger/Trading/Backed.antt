-- ===== src/Ledger/Trading/Backed.antt =====
-- backend/ledger_service/service/trading.py: the shares that every book has out are those that users hold, before and
-- after every request.
use cs.Base.{
  ℕ, ◌≡◌, refl, Bool, true, Option, none, some, List, [], ◌∷◌, ◌++◌, ◌==◌, if◌then◌else◌, sym, ◌∙◌,
  ap, arith, ok, err, Outcome, All, >>=-eq-ok, ok_injective, subst, Option-cases, Bool-cases, inl,
  inr, ==→eq,
}
use cs.Base.Int.{ℤ, pos, leb_ℤ}
use cs.Base.Decimal.{Decimal}
use cs.Base.Text.{Text}
use cs.Ledger.Rows.{Book, OutcomeRow, Tables, LedgerError, Transaction}
use cs.Ledger.Posting.{post, find_by_idempotency_key}
use cs.Ledger.Posting.Moves.{post-batch, post_all-others}
use cs.Ledger.Accounts.{World, ensure_granted, grant_key}
use cs.Ledger.Books.{MarketTerms, find_book, ensure_open}
use cs.Ledger.Books.Reopening.{open_book-IsOpening}
use cs.Ledger.BookPrices.{in_position_order, insert_row}
use cs.Ledger.Trading.{Pending, flushed, write_book}
use cs.Ledger.Trading.Planning.{PlannedTrade, pending_of}
use cs.Ledger.Trading.Frames.{post_trade_batch, refused_as, movements_of_fills, batch_refusal_of}
use cs.Ledger.Trading.Shares.{shares_in, q_at, in_position_order-same, in_position_order-IsOrdered}
use cs.Ledger.Trading.Follows.{IsCounted}
use cs.Ledger.Trading.Fills.{HasOwnSeqs}
use cs.Ledger.Trading.Cascading.{Filled}

-- `q` of a market's outcome, and nothing where no book is open
abbrev pub q_in_book : Option Book → ℕ → ℤ
q_in_book none outcome_id = pos 0
q_in_book (some book) outcome_id = q_at (in_position_order book.outcomes) outcome_id

abbrev pub q_in : List Book → ℕ → ℕ → ℤ
q_in books market_id outcome_id = q_in_book (find_book books market_id) outcome_id

-- "`q` equals the sum of positions", for every market, and the orders' `seq` is unique.
pub record IsBacked (s : Tables) : Type 0 where
  pub shares : (m o : ℕ) → q_in s.books m o ≡ pos (shares_in s.positions m o)
  pub own_seqs : HasOwnSeqs s.orders

pub IsBacked-same :
    (s after : Tables)
    → after.books ≡ s.books
    → after.positions ≡ s.positions
    → after.orders ≡ s.orders
    → IsBacked s
    → IsBacked after
IsBacked-same s after books positions orders h = record {
  shares = λ m o.
      ap (λ b. q_in b m o) books
      ∙ (h.shares m o ∙ ap (λ ps. pos (shares_in ps m o)) (sym positions));
  own_seqs = subst HasOwnSeqs (sym orders) h.own_seqs;
}

pub find_book-write :
    (w : Book) (books : List Book) (m : ℕ) {old : Book}
    → find_book books w.market_id ≡ some old
    → find_book (write_book w books) m ≡ (if w.market_id == m then some w else find_book books m)
unfolding find_book write_book
find_book-write w [] m h = absurd cc
find_book-write w (b ∷ rest) m h = elim (Bool-cases (b.market_id == w.market_id)) [
  | inl e ↦ rw (e, ==→eq b.market_id w.market_id e) (ground arith)
  | inr e ↦ rw e (ground (arith, find_book-write w rest m (rw e at h)))
]

-- The tables with a trade's rows, and its cascade's
pub flushed-IsBacked :
    (s : Tables) (book : Book) (n : ℕ) (p : Pending)
    → find_book s.books book.market_id ≡ some book
    → Filled n (pending_of s book) p
    → IsBacked s
    → IsBacked (flushed s p)
unfolding flushed pending_of
flushed-IsBacked s book n p found filled h =
    let own : p.book.market_id ≡ book.market_id = filled.follows.market in
    let ordered = filled.follows.ordered (in_position_order-IsOrdered book.outcomes) in
    let start : IsCounted (pending_of s book) =
      λ o. ap (λ b. q_in_book b o) (sym found) ∙ h.shares book.market_id o in
    record {
      shares = λ m o.
          let written = find_book-write p.book s.books m {old = book} (rw own found) in
          ap (λ b. q_in_book b o) written ∙ elim (Bool-cases (p.book.market_id == m)) [
            | inl e ↦
                rw (e, in_position_order-same p.book.outcomes ordered)
                  (filled.follows.counted start o
                    ∙ ap (λ k. pos (shares_in p.positions k o)) (==→eq p.book.market_id m e))
            | inr e ↦
                rw e (h.shares m o ∙ ap pos (sym (filled.follows.elsewhere m o (rw (sym own) e))))
          ];
      own_seqs = filled.own_seqs h.own_seqs;
    }

-- A new book has nothing out, and nothing is held in its market.
insert_row-unsold :
    (o : OutcomeRow) (rows : List OutcomeRow)
    → o.q ≡ pos 0
    → All (λ (x : OutcomeRow). x.q ≡ pos 0) rows
    → All (λ (x : OutcomeRow). x.q ≡ pos 0) (insert_row o rows)
unfolding insert_row
insert_row-unsold o [] h hs = (h, tt)
insert_row-unsold o (x ∷ rest) h hs = elim (Bool-cases (leb_ℤ o.position x.position)) [
  | inl e ↦ rw e (h, hs)
  | inr e ↦ rw e (hs.0, insert_row-unsold o rest h hs.1)
]

in_position_order-unsold :
    (rows : List OutcomeRow)
    → All (λ (x : OutcomeRow). x.q ≡ pos 0) rows
    → All (λ (x : OutcomeRow). x.q ≡ pos 0) (in_position_order rows)
unfolding in_position_order
in_position_order-unsold [] h = tt
in_position_order-unsold (o ∷ rest) h =
    insert_row-unsold o (in_position_order rest) h.0 (in_position_order-unsold rest h.1)

q_at-unsold :
    (rows : List OutcomeRow) (id : ℕ)
    → All (λ (x : OutcomeRow). x.q ≡ pos 0) rows
    → q_at rows id ≡ pos 0
unfolding q_at
q_at-unsold [] id h = refl
q_at-unsold (o ∷ rest) id h = elim (Bool-cases (o.outcome_id == id)) [
  | inl e ↦ rw e h.0
  | inr e ↦ rw e (q_at-unsold rest id h.1)
]

q_in-opened :
    (books : List Book) (book : Book) (m o : ℕ)
    → find_book books book.market_id ≡ none
    → All (λ (x : OutcomeRow). x.q ≡ pos 0) book.outcomes
    → q_in (books ++ (book ∷ [])) m o ≡ q_in books m o
unfolding find_book
q_in-opened [] book m o missing unsold = elim (Bool-cases (book.market_id == m)) [
  | inl e ↦ rw e (
      q_at-unsold (in_position_order book.outcomes) o
        (in_position_order-unsold book.outcomes unsold))
  | inr e ↦ rw e refl
]
q_in-opened (b ∷ rest) book m o missing unsold = elim (Bool-cases (b.market_id == book.market_id)) [
  | inl e ↦ absurd (let found = rw e at missing in cc)
  | inr e ↦ elim (Bool-cases (b.market_id == m)) [
    | inl same ↦ rw same refl
    | inr other ↦ rw other (q_in-opened rest book m o (rw e at missing) unsold)
  ]
]

pub ensure_open-IsBacked :
    (world : World) (new_id : ℕ → ℕ) (now market_id : ℕ) (fetched : Outcome LedgerError MarketTerms)
    (s : Tables) (book : Book) (after : Tables)
    → IsBacked s
    → ensure_open world new_id now market_id fetched s ≡ ok (book, after)
    → IsBacked after
unfolding ensure_open
ensure_open-IsBacked world new_id now market_id fetched s book after h opened =
    elim (Option-cases (find_book s.books market_id)) [
      | inr (b, e) ↦ subst IsBacked (ap (λ p. p.1) (ok_injective (rw (e, ensure_open) at opened))) h
      | inl e ↦
          let (terms, read, h₁) = >>=-eq-ok fetched _ (rw (e, ensure_open) at opened) in
          let opening = open_book-IsOpening world new_id now market_id terms s h₁ in
          let (transactions, batch) =
            post-batch world.hashing world.account new_id true now _ _ opening.seeded in
          let others = post_all-others world.hashing world.account new_id true now _ _ batch in
          IsBacked-same (record s { books = s.books ++ (book ∷ []) }) after others.1 others.3
            others.2
            (record {
              shares = λ m o.
                  q_in-opened s.books book m o (rw opening.own.0 e) opening.unsold ∙ h.shares m o;
              own_seqs = h.own_seqs;
            })
    ]

pub ensure_granted-IsBacked :
    (world : World) (new_id : ℕ → ℕ) (pending : Bool) (now : ℕ) (amount : Decimal) (user_id : ℕ)
    (s : Tables) (id : ℕ) (after : Tables)
    → IsBacked s
    → ensure_granted world new_id pending now amount user_id s ≡ ok (id, after)
    → IsBacked after
unfolding ensure_granted
ensure_granted-IsBacked world new_id pending now amount user_id s id after h granted =
    elim (Option-cases (find_by_idempotency_key s.transactions (grant_key world user_id))) [
      | inr (t, e) ↦
          subst IsBacked (ap (λ p. p.1) (ok_injective (rw (e, ensure_granted) at granted))) h
      | inl e ↦
          let (posted, wrote, h₁) =
            >>=-eq-ok (post world.hashing world.account new_id pending now _ s) _
              (rw (e, ensure_granted) at granted) in
          let (transactions, batch) =
            post-batch world.hashing world.account new_id pending now _ s wrote in
          let others = post_all-others world.hashing world.account new_id pending now _ s batch in
          subst IsBacked (ap (λ p. p.1) (ok_injective h₁))
            (IsBacked-same s posted.1 others.1 others.3 others.2 h)
    ]

pub refused_as-ok :
    {A : Type 0} (f : LedgerError → LedgerError) (m : Outcome LedgerError A) {a : A}
    → refused_as f m ≡ ok a
    → m ≡ ok a
refused_as-ok f (ok x) h = h
refused_as-ok f (err e) h = absurd cc

-- The commit of a trade's batch leaves the rows that it flushed.
pub post_trade_batch-IsBacked :
    (world : World) (new_ids : ℕ → ℕ) (now : ℕ) (key : Text) (plan : PlannedTrade) (s : Tables)
    (transactions : List Transaction) (after : Tables)
    → IsBacked (flushed s plan.pending)
    → post_trade_batch world new_ids now key plan s ≡ ok (transactions, after)
    → IsBacked after
unfolding post_trade_batch
post_trade_batch-IsBacked world new_ids now key plan s transactions after h posted =
    let batch = plan.movement ∷ movements_of_fills plan.fills in
    let others =
      post_all-others world.hashing world.account new_ids true now batch (flushed s plan.pending)
        (refused_as-ok (batch_refusal_of key) _ posted) in
    IsBacked-same (flushed s plan.pending) after others.1 others.3 others.2 h

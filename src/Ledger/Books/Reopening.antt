-- ===== src/Ledger/Books/Reopening.antt =====
-- backend/ledger_service/service/books.py: a book is opened once, and funded with its seed.
use cs.Base.{
  ℕ, ◌≡◌, refl, true, false, none, some, List, [], ◌∷◌, ◌++◌, ◌==◌, Outcome, ok, raise_if,
  >>=-eq-ok, ok_injective, All, sym, ◌∙◌, ap, subst, Option-cases, Bool-cases, inl, inr, ==-refl,
}
use cs.Base.Int.{pos, ◌+ℤ◌, int_laws}
use cs.Base.Decimal.{quantize}
use cs.Ledger.Rows.{Book, OutcomeRow, Tables, market_pool, platform, LedgerError, Transaction}
use cs.Ledger.Reservations.{balance_of}
use cs.Ledger.Posting.Legs.{quantized_legs}
use cs.Ledger.Posting.Nets.{net_of, net_of_batch}
use cs.Ledger.Posting.Moves.{post-batch, post_all-others, post_all-moves}
use cs.Ledger.Posting.{post, batch_legs}
use cs.Ledger.Accounts.{World, IsWorld, transfer, platform_id}
use cs.Ledger.Accounts.Ids.{ids_differ}
use cs.Ledger.Books.{
  MarketTerms, OutcomeTerms, opened_rows, find_book, figure_of, refuse_unpriceable, opened_book,
  seed_of, open_book, ensure_open,
}

find_book-append :
    (books : List Book) (book : Book)
    → find_book books book.market_id ≡ none
    → find_book (books ++ (book ∷ [])) book.market_id ≡ some book
unfolding find_book
find_book-append [] book missing = rw (==-refl book.market_id) refl
find_book-append (x ∷ rest) book missing = elim (Bool-cases (x.market_id == book.market_id)) [
  | inl e ↦ absurd (let found = rw e at missing in cc)
  | inr e ↦ rw e (find_book-append rest book (rw e at missing))
]

opened_rows-unsold :
    (outcomes : List OutcomeTerms) → All (λ (o : OutcomeRow). o.q ≡ pos 0) (opened_rows outcomes)
unfolding opened_rows
opened_rows-unsold [] = tt
opened_rows-unsold (o ∷ rest) = (refl, opened_rows-unsold rest)

-- The post of the seed, with the book pending
abbrev pub seeding :
    World → (ℕ → ℕ) → ℕ → Tables → Book → Outcome LedgerError (Transaction × Tables)
seeding world new_id now s book =
    post world.hashing world.account new_id true now (seed_of world book)
      (record s { books = s.books ++ (book ∷ []) })

-- What an opening that returned did: it added the book and posted the seed.
pub record IsOpening (world : World) (new_id : ℕ → ℕ) (now market_id : ℕ) (s : Tables) (book : Book)
    (after : Tables) : Type 0 where
  pub own :
      (book.market_id ≡ market_id) × (book.pool_account_id ≡ world.id_of market_pool market_id)
  pub unsold : All (λ (o : OutcomeRow). o.q ≡ pos 0) book.outcomes
  pub transaction : Transaction
  pub seeded : seeding world new_id now s book ≡ ok (transaction, after)

pub open_book-IsOpening :
    (world : World) (new_id : ℕ → ℕ) (now market_id : ℕ) (terms : MarketTerms) (s : Tables)
    {book : Book} {after : Tables}
    → open_book world new_id now market_id terms s ≡ ok (book, after)
    → IsOpening world new_id now market_id s book after
unfolding open_book opened_book
open_book-IsOpening world new_id now market_id terms s {book} {after} h =
    let (u, published, h₁) = >>=-eq-ok (raise_if _ _) _ h in
    let (liquidity, priced, h₂) = >>=-eq-ok (figure_of terms.liquidity_b) _ h₁ in
    let (seed, funded, h₃) = >>=-eq-ok (figure_of terms.seed_subsidy) _ h₂ in
    let (v, priceable, h₄) = >>=-eq-ok (refuse_unpriceable terms.outcomes) _ h₃ in
    let (posted, written, h₅) =
      >>=-eq-ok (post world.hashing world.account new_id true now _ _) _ h₄ in
    let pair = ok_injective h₅ in
    let same : opened_book world market_id now liquidity seed terms.outcomes ≡ book =
      ap (λ p. p.0) pair in
    record {
      own = rw (sym same) (refl, refl);
      unsold =
          subst (λ (b : Book). All (λ (o : OutcomeRow). o.q ≡ pos 0) b.outcomes) same
            (opened_rows-unsold terms.outcomes);
      transaction = posted.0;
      seeded =
          ap (seeding world new_id now s) (sym same)
          ∙ (written ∙ ap (λ a. ok (posted.0, a)) (ap (λ p. p.1) pair));
    }

opening-found :
    (world : World) (new_id : ℕ → ℕ) (now market_id : ℕ) (s : Tables) (book : Book) (after : Tables)
    → find_book s.books market_id ≡ none
    → IsOpening world new_id now market_id s book after
    → find_book after.books market_id ≡ some book
opening-found world new_id now market_id s book after missing opening =
    let (transactions, batch) =
      post-batch world.hashing world.account new_id true now _ _ opening.seeded in
    let kept = (post_all-others world.hashing world.account new_id true now _ _ batch).1 in
    rw (kept, sym opening.own.0) (find_book-append s.books book (rw opening.own.0 missing))

ensure_open-stored :
    (world : World) (new_id : ℕ → ℕ) (now market_id : ℕ) (fetched : Outcome LedgerError MarketTerms)
    (s : Tables) (book : Book) (after : Tables)
    → ensure_open world new_id now market_id fetched s ≡ ok (book, after)
    → find_book after.books market_id ≡ some book
unfolding ensure_open
ensure_open-stored world new_id now market_id fetched s book after h =
    elim (Option-cases (find_book s.books market_id)) [
      | inr (found, e) ↦
          let pair = ok_injective (rw (e, ensure_open) at h) in
          ap (λ (t : Tables). find_book t.books market_id) (sym (ap (λ p. p.1) pair))
          ∙ (e ∙ ap some (ap (λ p. p.0) pair))
      | inl e ↦
          let (terms, read, h₁) = >>=-eq-ok fetched _ (rw (e, ensure_open) at h) in
          let opening = open_book-IsOpening world new_id now market_id terms s h₁ in
          opening-found world new_id now market_id s book after e opening
    ]

-- Other sessions may trade on a market's book: they do not delete it or give it another pool.
abbrev pub KeepsBook : ℕ → (Tables → Tables) → Type 0
KeepsBook market_id others =
    (t : Tables) (b : Book)
    → find_book t.books market_id ≡ some b
    → (b' : Book) × (find_book (others t).books market_id ≡ some b')
      × (b'.pool_account_id ≡ b.pool_account_id)

-- The book that `ensure_open` returns is the market's row in the tables that it leaves. Once other sessions have
-- committed what they will, short of deleting the row or giving it another pool, the next call changes no table,
-- whatever the market service answers by then, and returns the row as it stands, with the pool that it was
-- opened with.
pub ensure_open-once :
    (world : World) (new_id new_id' : ℕ → ℕ) (now now' market_id : ℕ)
    (fetched fetched' : Outcome LedgerError MarketTerms) (others : Tables → Tables) (s : Tables)
    (book : Book) (after : Tables)
    → KeepsBook market_id others
    → ensure_open world new_id now market_id fetched s ≡ ok (book, after)
    → (find_book after.books market_id ≡ some book)
      × (current : Book) × (find_book (others after).books market_id ≡ some current)
      × (current.pool_account_id ≡ book.pool_account_id)
      × (ensure_open world new_id' now' market_id fetched' (others after)
          ≡ ok (current, others after))
unfolding ensure_open
ensure_open-once world new_id new_id' now now' market_id fetched fetched' others s book after keeps
      h =
    let stored = ensure_open-stored world new_id now market_id fetched s book after h in
    let (current, found, pool) = keeps after book stored in
    (stored, current, found, pool, rw (found, ensure_open) refl)

seed-net :
    (world : World) (lawful : IsWorld world) (market_id : ℕ) (book : Book)
    → book.pool_account_id ≡ world.id_of market_pool market_id
    → net_of_batch book.pool_account_id (batch_legs (seed_of world book ∷ []))
      ≡ quantize book.seed_subsidy
unfolding net_of_batch batch_legs seed_of net_of quantized_legs transfer
seed-net world lawful market_id book own =
    let apart : (platform_id world == book.pool_account_id) ≡ false =
      rw own (ids_differ world lawful platform market_pool 0 market_id cc) in
    rw (apart, ==-refl book.pool_account_id) (grind int_laws)

-- A book that `ensure_open` opens has its market's pool account as its pool, which then holds the rounded
-- seed more than before.
pub ensure_open-funded :
    (world : World) (new_id : ℕ → ℕ) (now market_id : ℕ) (fetched : Outcome LedgerError MarketTerms)
    (s : Tables) (book : Book) (after : Tables)
    → IsWorld world
    → find_book s.books market_id ≡ none
    → ensure_open world new_id now market_id fetched s ≡ ok (book, after)
    → (book.pool_account_id ≡ world.id_of market_pool market_id)
      × (balance_of after.entries book.pool_account_id
          ≡ balance_of s.entries book.pool_account_id +ℤ quantize book.seed_subsidy)
unfolding ensure_open
ensure_open-funded world new_id now market_id fetched s book after lawful missing h =
    let (terms, read, h₁) = >>=-eq-ok fetched _ (rw (missing, ensure_open) at h) in
    let opening = open_book-IsOpening world new_id now market_id terms s h₁ in
    let (transactions, batch) =
      post-batch world.hashing world.account new_id true now _ _ opening.seeded in
    let moved =
      post_all-moves world.hashing world.account new_id now _ _ batch book.pool_account_id in
    (
      opening.own.1,
      moved
          ∙ ap (λ n. balance_of s.entries book.pool_account_id +ℤ n)
              (seed-net world lawful market_id book opening.own.1),
    )

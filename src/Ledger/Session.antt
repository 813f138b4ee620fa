-- ===== src/Ledger/Session.antt =====
-- A request's database session: what it has committed is there whether the request returns or raises, and
-- what it has only written is gone when it raises.
use cs.Base.{Outcome, ok, err, ok_injective, ap, ◌≡◌, refl}
use cs.Ledger.Rows.{Tables, LedgerError}

abbrev pub Session : Type 0 → Type 0
Session A = Tables → Outcome LedgerError A × Tables

abbrev pub then_with :
    {A B : Type 0}
    → Outcome LedgerError A × Tables
    → (A → Session B)
    → Outcome LedgerError B × Tables
then_with (ok a, s) f = f a s
then_with (err e, s) f = (err e, s)

infixl 5 ◌>>=◌ ◌>>◌
unfoldable pub ◌>>=◌ : {A B : Type 0} → Session A → (A → Session B) → Session B
◌>>=◌ m f s = then_with (m s) f

abbrev pub ◌>>◌ : {A B : Type 0} → Session A → Session B → Session B
m >> k = m >>= λ _. k

abbrev pub return : {A : Type 0} → A → Session A
return a s = (ok a, s)

-- A step that reads the tables, or raises
abbrev pub reading : {A : Type 0} → (Tables → Outcome LedgerError A) → Session A
reading f s = (f s, s)

abbrev pub committed_by :
    {A : Type 0} → Tables → Outcome LedgerError (A × Tables) → Outcome LedgerError A × Tables
committed_by s (ok (a, after)) = (ok a, after)
committed_by s (err e) = (err e, s)

-- A step that ends in a commit: when it raises, its pending writes are rolled back.
abbrev pub committing : {A : Type 0} → (Tables → Outcome LedgerError (A × Tables)) → Session A
committing f s = committed_by s (f s)

-- What other sessions commit at this point
abbrev pub meanwhile_commits : (Tables → Tables) → Session (Unit {0})
meanwhile_commits f s = (ok tt, f s)

-- Every step of a session leaves a property of the committed tables as it found it.
abbrev pub Keeps : {A : Type 0} → (Tables → Type 0) → Session A → Type 0
Keeps I m = (s : Tables) → I s → I (m s).1

pub reading-Keeps :
    {A : Type 0} (I : Tables → Type 0) (f : Tables → Outcome LedgerError A) → Keeps I (reading f)
reading-Keeps I f s held = held

pub return-Keeps : {A : Type 0} (I : Tables → Type 0) (a : A) → Keeps I (return a)
return-Keeps I a s held = held

then_with-held :
    {A B : Type 0} (I : Tables → Type 0) (r : Outcome LedgerError A × Tables) (f : A → Session B)
    → I r.1
    → ((a : A) → Keeps I (f a))
    → I (then_with r f).1
then_with-held I (ok a, s) f held later = later a s held
then_with-held I (err e, s) f held later = held

pub >>=-Keeps :
    {A B : Type 0} (I : Tables → Type 0) (m : Session A) (f : A → Session B)
    → Keeps I m
    → ((a : A) → Keeps I (f a))
    → Keeps I (m >>= f)
unfolding ◌>>=◌
>>=-Keeps I m f first later s held = then_with-held I (m s) f (first s held) later

committed_by-held :
    {A : Type 0} (I : Tables → Type 0) (s : Tables) (r : Outcome LedgerError (A × Tables))
    → I s
    → ((a : A) (after : Tables) → r ≡ ok (a, after) → I after)
    → I (committed_by s r).1
committed_by-held I s (ok (a, after)) held commits = commits a after refl
committed_by-held I s (err e) held commits = held

pub committing-Keeps :
    {A : Type 0} (I : Tables → Type 0) (f : Tables → Outcome LedgerError (A × Tables))
    → ((s : Tables) (a : A) (after : Tables) → I s → f s ≡ ok (a, after) → I after)
    → Keeps I (committing f)
committing-Keeps I f commits s held =
    committed_by-held I s (f s) held (λ a after. commits s a after held)

read-held :
    {A B : Type 0} (I : Tables → Type 0) (s : Tables) (r : Outcome LedgerError A)
    (next : A → Session B)
    → I s
    → ((a : A) → r ≡ ok a → I (next a s).1)
    → I (then_with (r, s) next).1
read-held I s (ok a) next held later = later a refl
read-held I s (err e) next held later = held

-- A step that reads, where the next one relies on what was read
pub reading-then-Keeps :
    {A B : Type 0} (I : Tables → Type 0) (f : Tables → Outcome LedgerError A) (next : A → Session B)
    → ((s : Tables) (a : A) → I s → f s ≡ ok a → I (next a s).1)
    → Keeps I (reading f >>= next)
unfolding ◌>>=◌
reading-then-Keeps I f next later s held = read-held I s (f s) next held (λ a. later s a held)

-- The same, at the tables of one commit
pub commit-held :
    {A B : Type 0} (I : Tables → Type 0) (s : Tables)
    (f : Tables → Outcome LedgerError (A × Tables)) (next : A → Session B)
    → I s
    → ((a : A) (after : Tables) → f s ≡ ok (a, after) → I after)
    → ((a : A) → Keeps I (next a))
    → I ((committing f >>= next) s).1
unfolding ◌>>=◌
commit-held I s f next held commits later =
    then_with-held I (committed_by s (f s)) next (committed_by-held I s (f s) held commits) later

-- Inversion of a bind, a read and a commit that returned
then_with-returned :
    {A B : Type 0} (r : Outcome LedgerError A × Tables) (f : A → Session B) {b : B} {after : Tables}
    → then_with r f ≡ (ok b, after)
    → (a : A) × (r.0 ≡ ok a) × (f a r.1 ≡ (ok b, after))
then_with-returned (ok a, s) f h = (a, refl, h)
then_with-returned (err e, s) f h = absurd (let refused : err e ≡ ok _ = ap (λ p. p.0) h in cc)

pub >>=-returned :
    {A B : Type 0} (m : Session A) (f : A → Session B) (s : Tables) {b : B} {after : Tables}
    → (m >>= f) s ≡ (ok b, after)
    → (a : A) × ((m s).0 ≡ ok a) × (f a (m s).1 ≡ (ok b, after))
unfolding ◌>>=◌
>>=-returned m f s h = then_with-returned (m s) f h

pub committed_by-ok :
    {A : Type 0} (s : Tables) (r : Outcome LedgerError (A × Tables)) {a : A}
    → (committed_by s r).0 ≡ ok a
    → r ≡ ok (a, (committed_by s r).1)
committed_by-ok s (ok (x, t)) h = ap (λ y. ok (y, t)) (ok_injective h)
committed_by-ok s (err e) h = absurd cc

-- ===== src/Base/Results.antt =====
-- A call that returns, or raises an error of its service's own hierarchy.
use mathlib.Core.Bool.{Bool, true, false}
use mathlib.Core.Path.{◌≡◌, refl}

pub data Outcome {ℓ} (E A : Type ℓ) : Type ℓ where
  ok : A → Outcome E A
  err : E → Outcome E A

infixl 5 ◌>>=◌ ◌>>◌
abbrev pub ◌>>=◌ {ℓ} : {E A B : Type ℓ} → Outcome E A → (A → Outcome E B) → Outcome E B
ok a >>= f = f a
err e >>= f = err e

abbrev pub ◌>>◌ {ℓ} : {E A B : Type ℓ} → Outcome E A → Outcome E B → Outcome E B
m >> k = m >>= λ _. k

-- `if test: raise e`
unfoldable pub raise_if : {E : Type 0} → Bool → E → Outcome E (Unit {0})
raise_if true e = err e
raise_if false e = ok tt

pub raise_if-ok :
    {E : Type 0} (test : Bool) (e : E) {u : Unit {0}} → raise_if test e ≡ ok u → test ≡ false
unfolding raise_if
raise_if-ok true e h = absurd cc
raise_if-ok false e h = refl

-- Inversion of a bind that returned.
pub >>=-eq-ok {ℓ} :
    {E X Y : Type ℓ} (call : Outcome E X) (next : X → Outcome E Y) {y : Y}
    → (call >>= next) ≡ ok y
    → (x : X) × (call ≡ ok x) × (next x ≡ ok y)
>>=-eq-ok (err e) next returned = cc
>>=-eq-ok (ok x) next returned = (x, refl, returned)

abbrev pub is_ok {ℓ} : {E A : Type ℓ} → Outcome E A → Bool
is_ok (ok a) = true
is_ok (err e) = false

pub is_ok-ok {ℓ} : {E A : Type ℓ} (m : Outcome E A) → is_ok m ≡ true → (a : A) × (m ≡ ok a)
is_ok-ok (ok a) h = (a, refl)
is_ok-ok (err e) h = cc

pub ok_injective {ℓ} : {E A : Type ℓ} {x y : A} → ◌≡◌ {A = Outcome E A} (ok x) (ok y) → x ≡ y
ok_injective h = cc

pub is_ok-mapped {ℓ} :
    {E A B : Type ℓ} (m : Outcome E A) (f : A → B)
    → is_ok m ≡ true
    → is_ok (m >>= (λ a. ok (f a))) ≡ true
is_ok-mapped (ok a) f h = refl
is_ok-mapped (err e) f h = absurd cc

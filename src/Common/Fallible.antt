-- ===== src/Common/Fallible.antt =====
-- Fallible code: `Result<A, E>` of the sources, with `?` as the bind of a `do` block.
use mathlib.Core.Path.{◌≡◌, refl}
use mathlib.Core.Bool.{Bool, true, false}
use mathlib.Core.Option.{Option, none, some}

pub data Result {ℓ κ} (E : Type κ) (A : Type ℓ) : Type (ℓ ⊔ κ) where
  ok : A → Result E A
  err : E → Result E A

-- An early return of an error when the test fails.
abbrev pub guard {ν} : {E : Type ν} → Bool → E → Result E (Unit {0})
guard false failure = err failure
guard true failure = ok tt

-- `Option::ok_or_else`
abbrev pub ok_or {ℓ ν} : {E : Type ν} {A : Type ℓ} → Option A → E → Result E A
ok_or none failure = err failure
ok_or (some a) failure = ok a

infixl 5 ◌>>=◌ ◌>>◌
-- `?`
abbrev pub ◌>>=◌ {ℓ κ ν} :
    {E : Type ν} {A : Type ℓ} {B : Type κ} → Result E A → (A → Result E B) → Result E B
err failure >>= next = err failure
ok a >>= next = next a

abbrev pub ◌>>◌ {κ ν} : {E : Type ν} {B : Type κ} → Result E (Unit {0}) → Result E B → Result E B
checked >> rest = checked >>= λ _. rest

pub ok-injective {ℓ ν} :
    {E : Type ν} {A : Type ℓ} {a b : A} → ◌≡◌ {A = Result E A} (ok a) (ok b) → a ≡ b
ok-injective h = cc

-- What a successful bind has gone through, given to a continuation: its arguments stay variables in
-- a long chain.
pub >>=-inv {ℓ κ ν μ} :
    {E : Type ν} {A : Type ℓ} {B : Type κ} {P : Type μ} (m : Result E A) (f : A → Result E B)
    {b : B}
    → (m >>= f) ≡ ok b
    → ((a : A) → m ≡ ok a → f a ≡ ok b → P)
    → P
>>=-inv (ok a) f h k = k a refl h
>>=-inv (err e) f h k = cc

-- The same as a triple.
pub >>=-parts {ℓ κ ν} :
    {E : Type ν} {First : Type ℓ} {Next : Type κ} (first : Result E First)
    (next : First → Result E Next) {out : Next}
    → (first >>= next) ≡ ok out
    → (value : First) × (first ≡ ok value) × (next value ≡ ok out)
>>=-parts first next h = >>=-inv first next h λ value e k. (value, e, k)

-- `Result::map_err`
abbrev pub map_err {ℓ ν} : {E : Type ν} {A : Type ℓ} → (E → E) → Result E A → Result E A
map_err f (ok a) = ok a
map_err f (err e) = err (f e)

-- ===== src/Base/Results.antt =====
-- Code that raises: `AppError` with its HTTP status, or Python's own exceptions.
use Prim.Native.Nat.{ℕ}
use mathlib.Core.Bool.{Bool, true, false}
use mathlib.Core.Path.{◌≡◌, refl}
use mathlib.Core.Logic.{◌⊎◌, inl, inr}
use mathlib.Core.Option.{Option, none, some}

-- The categories of `domain/types.py:ErrorCategory`, and the two that the services add.
pub data Category : Type 0 where
  invalid_request unauthenticated forbidden not_found conflict rate_limited : Category
  dependency_unavailable internal_error tenant_not_active quota_exceeded : Category

pub data Error : Type 0 where
  app_error : Category → ℕ → Error
  value_error : Error
  runtime_error : Error
  permission_error : Error

pub data Result {ℓ} (A : Type ℓ) : Type ℓ where
  err : Error → Result A
  ok : A → Result A

infixl 5 ◌>>=◌ ◌>>◌
-- An exception skips what follows.
abbrev pub ◌>>=◌ {ℓ κ} : {A : Type ℓ} {B : Type κ} → Result A → (A → Result B) → Result B
err raised >>= next = err raised
ok value >>= next = next value

abbrev pub ◌>>◌ {ℓ} : {B : Type ℓ} → Result (Unit {0}) → Result B → Result B
err raised >> next = err raised
ok _ >> next = next

-- `if not test: raise error`.
abbrev pub require : Bool → Error → Result (Unit {0})
require true e = ok tt
require false e = err e

-- `if test: raise error`.
abbrev pub raise_if : Bool → Error → Result (Unit {0})
raise_if true e = err e
raise_if false e = ok tt

-- `if x is None: raise error`.
abbrev pub or_raise {ℓ} : {A : Type ℓ} → Option A → Error → Result A
or_raise none e = err e
or_raise (some a) e = ok a

-- `except ...: raise error`: any failure becomes the given one.
abbrev pub as_error {ℓ} : {A : Type ℓ} → Error → Result A → Result A
as_error e (ok a) = ok a
as_error e (err _) = err e

-- A computed result is a value or an error.
pub Result-cases {ℓ} :
    {A : Type ℓ} (r : Result A) → ((a : A) × (r ≡ ok a)) ⊎ ((e : Error) × (r ≡ err e))
Result-cases (ok a) = inl (a, refl)
Result-cases (err e) = inr (e, refl)

-- A chain that returns went through its first part.
pub >>=-ok {ℓ κ} :
    {A : Type ℓ} {B : Type κ} (r : Result A) (next : A → Result B) {b : B}
    → (r >>= next) ≡ ok b
    → (a : A) × ((r ≡ ok a) × (next a ≡ ok b))
>>=-ok (ok a) next h = (a, (refl, h))
>>=-ok (err e) next h = cc

pub >>-ok {κ} :
    {B : Type κ} (r : Result (Unit {0})) (next : Result B) {b : B} → r >> next ≡ ok b → next ≡ ok b
>>-ok (ok _) next h = h
>>-ok (err e) next h = cc

pub or_raise-ok {ℓ} :
    {A : Type ℓ} (o : Option A) (e : Error) {a : A} → or_raise o e ≡ ok a → o ≡ some a
or_raise-ok none e h = cc
or_raise-ok (some a) e h = cc

pub raise_if-ok {κ} :
    {B : Type κ} (test : Bool) (e : Error) (next : Result B) {b : B}
    → raise_if test e >> next ≡ ok b
    → test ≡ false
raise_if-ok true e next h = cc
raise_if-ok false e next h = refl

pub ok-injective {ℓ} : {A : Type ℓ} {a b : A} → ok a ≡ ok b → a ≡ b
ok-injective h = cc

abbrev pub is_ok {ℓ} : {A : Type ℓ} → Result A → Bool
is_ok (ok a) = true
is_ok (err e) = false

pub is_ok-result {ℓ} : {A : Type ℓ} (r : Result A) → is_ok r ≡ true → (a : A) × (r ≡ ok a)
is_ok-result (ok a) h = (a, refl)
is_ok-result (err e) h = cc

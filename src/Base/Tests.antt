-- ===== src/Base/Tests.antt =====
-- Boolean tests on the native numbers, and the conditional.
use Prim.Native.Nat.{ℕ, ◌≤◌, ◌<◌, compare, Ordering}
use mathlib.Core.Path.{◌≡◌, refl}
use mathlib.Core.Logic.{◌⊎◌, inl, inr}
use mathlib.Core.Bool.{Bool, true, false, ◌&&◌}
use mathlib.Core.Option.{Option, none, some}
use native.Mathlib.Omega.{arith}

-- Identifiers, hashes, tokens and other strings that the program only compares.
abbrev pub Key : Type 0
Key = ℕ

-- Points in time and durations, in one unit.
abbrev pub Time : Type 0
Time = ℕ

abbrev pub ltb : ℕ → ℕ → Bool
ltb a b = elim (compare a b) [ Ordering.lt ↦ true | _ ↦ false ]

abbrev pub leb : ℕ → ℕ → Bool
leb a b = elim (compare a b) [ Ordering.gt ↦ false | _ ↦ true ]

infix 50 ◌==◌
abbrev pub ◌==◌ : ℕ → ℕ → Bool
a == b = elim (compare a b) [ Ordering.eq ↦ true | _ ↦ false ]

infix 1 if◌then◌else◌
abbrev pub if◌then◌else◌ {ℓ} : {A : Type ℓ} → Bool → A → A → A
if true then x else y = x
if false then x else y = y

pub ==_refl : (a : ℕ) → (a == a) ≡ true
==_refl a = ground arith

pub eq_of_== : (a b : ℕ) → (a == b) ≡ true → a ≡ b
eq_of_== a b h = ground arith

pub ltb→lt : (a b : ℕ) → ltb a b ≡ true → a < b
ltb→lt a b h = ground arith

pub leb→le : (a b : ℕ) → leb a b ≡ true → a ≤ b
leb→le a b h = ground arith

pub ruleset tests = (arith, ltb→lt, leb→le)

-- To split on a computed value and keep the equation.
pub Bool-cases : (b : Bool) → (b ≡ true) ⊎ (b ≡ false)
Bool-cases true = inl refl
Bool-cases false = inr refl

pub Option-cases {ℓ} : {A : Type ℓ} (o : Option A) → (o ≡ none) ⊎ ((a : A) × (o ≡ some a))
Option-cases none = inl refl
Option-cases (some a) = inr (a, refl)

-- `x is None`.
abbrev pub is_none {ℓ} : {A : Type ℓ} → Option A → Bool
is_none none = true
is_none (some a) = false

-- `x is not None and p(x)`.
abbrev pub holds {ℓ} : {A : Type ℓ} → (A → Bool) → Option A → Bool
holds p none = false
holds p (some a) = p a

pub and_left : (a b : Bool) → (a && b) ≡ true → a ≡ true
and_left true b h = refl
and_left false b h = cc

pub and_right : (a b : Bool) → (a && b) ≡ true → b ≡ true
and_right true b h = h
and_right false b h = cc

-- ===== src/Base/Member.antt =====
-- An element of a list, through selections, sorting and prefixes.
use mathlib.Core.Path.{◌≡◌, refl, ap, ◌∙◌}
use mathlib.Core.Logic.{◌⊎◌, inl, inr}
use mathlib.Core.Bool.{Bool, true}
use mathlib.Core.Option.{some}
use mathlib.Core.List.{List, [], ◌∷◌}
use native.Mathlib.Omega.{arith}
use Prim.Native.Nat.{ℕ, zero, suc, ◌≤◌}
use llama_index_rag.Base.Tests.{Bool-cases}
use llama_index_rag.Base.Lists.{length, take, keep, get_elem?}
use llama_index_rag.Base.Sort.{insert_by, sort_by}

-- The element stands in the list.
abbrev pub Has : {A : Type 0} → A → List A → Type 0
Has a [] = ⊥
Has a (x ∷ xs) = (x ≡ a) ⊎ Has a xs

module _ {A : Type 0} (a : A) where
  pub Has-get_elem? : (xs : List A) (i : ℕ) → get_elem? xs i ≡ some a → Has a xs
  Has-get_elem? [] i h = cc
  Has-get_elem? (x ∷ xs) zero h = inl (ground arith)
  Has-get_elem? (x ∷ xs) (suc i) h = inr (Has-get_elem? xs i h)

  pub Has-keep : (p : A → Bool) (xs : List A) → p a ≡ true → Has a xs → Has a (keep p xs)
  Has-keep p [] passes h = absurd h
  Has-keep p (x ∷ xs) passes (inl here) = rw (ap p here ∙ passes) (inl here)
  Has-keep p (x ∷ xs) passes (inr there) = elim (Bool-cases (p x)) [
    | inl e ↦ rw e (inr (Has-keep p xs passes there))
    | inr e ↦ rw e (Has-keep p xs passes there)
  ]

  module _ (later : A → A → Bool) where
    Has-inserted : (x : A) (xs : List A) → x ≡ a → Has a (insert_by later x xs)
    unfolding insert_by
    Has-inserted x [] same = inl same
    Has-inserted x (y ∷ xs) same = elim (Bool-cases (later x y)) [
      | inl e ↦ rw e (inr (Has-inserted x xs same))
      | inr e ↦ rw e (inl same)
    ]

    Has-insert_by : (x : A) (xs : List A) → Has a xs → Has a (insert_by later x xs)
    unfolding insert_by
    Has-insert_by x [] h = absurd h
    Has-insert_by x (y ∷ xs) (inl here) = elim (Bool-cases (later x y)) [
      | inl e ↦ rw e (inl here)
      | inr e ↦ rw e (inr (inl here))
    ]
    Has-insert_by x (y ∷ xs) (inr there) = elim (Bool-cases (later x y)) [
      | inl e ↦ rw e (inr (Has-insert_by x xs there))
      | inr e ↦ rw e (inr (inr there))
    ]

    pub Has-sort_by : (xs : List A) → Has a xs → Has a (sort_by later xs)
    unfolding sort_by
    Has-sort_by [] h = absurd h
    Has-sort_by (x ∷ xs) (inl here) = Has-inserted x (sort_by later xs) here
    Has-sort_by (x ∷ xs) (inr there) = Has-insert_by x (sort_by later xs) (Has-sort_by xs there)

  pub Has-take : (n : ℕ) (xs : List A) → length xs ≤ n → Has a xs → Has a (take n xs)
  Has-take zero [] short h = absurd h
  Has-take (suc n) [] short h = absurd h
  Has-take zero (x ∷ xs) short h = ground arith
  Has-take (suc n) (x ∷ xs) short (inl here) = inl here
  Has-take (suc n) (x ∷ xs) short (inr there) = inr (Has-take n xs (omega (arith, short)) there)

length-insert_by {ℓ} :
    {A : Type ℓ} (later : A → A → Bool) (x : A) (xs : List A)
    → length (insert_by later x xs) ≡ suc (length xs)
unfolding insert_by
length-insert_by later x [] = refl
length-insert_by later x (y ∷ xs) = ground (arith, length-insert_by later x xs)

pub length-sort_by {ℓ} :
    {A : Type ℓ} (later : A → A → Bool) (xs : List A) → length (sort_by later xs) ≡ length xs
unfolding sort_by
length-sort_by later [] = refl
length-sort_by later (x ∷ xs) =
    length-insert_by later x (sort_by later xs) ∙ ap suc (length-sort_by later xs)

-- ===== src/Base/Sort.antt =====
-- Stable sorting by a Boolean test, as `sorted` and `ORDER BY` do it.
use mathlib.Core.List.Perm
use mathlib.Core.Path.{◌≡◌}
use mathlib.Core.Logic.{inl, inr}
use mathlib.Core.Bool.{Bool, true, false}
use mathlib.Core.List.{List, [], ◌∷◌, Perm}
use llama_index_rag.Base.Tests.{if◌then◌else◌, Bool-cases}
use native.Mathlib.Omega.{arith}
use mathlib.Core.Path.{refl}
use llama_index_rag.Base.Lists.{All, count_if}

module _ {ℓ} {A : Type ℓ} (later : A → A → Bool) where
  -- In front of the first element that must come later.
  unfoldable pub insert_by : A → List A → List A
  insert_by a [] = a ∷ []
  insert_by a (x ∷ xs) = let rest = insert_by a xs in if later a x then x ∷ rest else a ∷ x ∷ xs

  -- `later a b` says that `a` has to stand behind `b`.
  unfoldable pub sort_by : List A → List A
  unfolding insert_by
  sort_by [] = []
  sort_by (x ∷ xs) = insert_by x (sort_by xs)

  pub insert_by-perm : (a : A) (xs : List A) → Perm (a ∷ xs) (insert_by a xs)
  unfolding insert_by
  insert_by-perm a [] = Perm.refl (a ∷ [])
  insert_by-perm a (x ∷ xs) = elim (Bool-cases (later a x)) [
    | inl h ↦ rw h (Perm.trans (Perm.swap x a xs) (Perm.cons x (insert_by-perm a xs)))
    | inr h ↦ rw h (Perm.refl (a ∷ x ∷ xs))
  ]

  pub sort_by-perm : (xs : List A) → Perm xs (sort_by xs)
  unfolding sort_by
  sort_by-perm [] = Perm.refl []
  sort_by-perm (x ∷ xs) = Perm.trans (Perm.cons x (sort_by-perm xs)) (insert_by-perm x (sort_by xs))

  pub All-insert_by {κ} :
      (P : A → Type κ) (a : A) (xs : List A) → P a → All P xs → All P (insert_by a xs)
  unfolding insert_by
  All-insert_by P a [] p h = (p, tt)
  All-insert_by P a (x ∷ xs) p h = elim (Bool-cases (later a x)) [
    | inl e ↦ rw e (h.0, All-insert_by P a xs p h.1)
    | inr e ↦ rw e (p, h)
  ]

  pub All-sort_by {κ} : (P : A → Type κ) (xs : List A) → All P xs → All P (sort_by xs)
  unfolding sort_by
  All-sort_by P [] h = tt
  All-sort_by P (x ∷ xs) h = All-insert_by P x (sort_by xs) h.0 (All-sort_by P xs h.1)

module _ {ℓ} {A : Type ℓ} (later : A → A → Bool) (p : A → Bool) where
  count_if-insert_by :
      (a : A) (xs : List A) → count_if p (insert_by later a xs) ≡ count_if p (a ∷ xs)
  unfolding insert_by
  count_if-insert_by a [] = refl
  count_if-insert_by a (x ∷ xs) = ground (arith, count_if-insert_by a xs)

  pub count_if-sort_by : (xs : List A) → count_if p (sort_by later xs) ≡ count_if p xs
  unfolding sort_by
  count_if-sort_by [] = refl
  count_if-sort_by (x ∷ xs) =
      ground (arith, count_if-insert_by x (sort_by later xs), count_if-sort_by xs)

-- No element stands in front of one that it has to stand behind.
abbrev pub Sorted {ℓ} : {A : Type ℓ} → (A → A → Bool) → List A → Type 0
Sorted later [] = Unit
Sorted later (x ∷ xs) = All (λ y. later x y ≡ false) xs × Sorted later xs

module _ {ℓ} {A : Type ℓ} (later : A → A → Bool)
    (asym : (a b : A) → later a b ≡ true → later b a ≡ false)
    (trans : (a b c : A) → later a b ≡ false → later b c ≡ false → later a c ≡ false) where
  below_All :
      (a x : A) (xs : List A)
      → later a x ≡ false
      → All (λ y. later x y ≡ false) xs
      → All (λ y. later a y ≡ false) xs
  below_All a x [] h k = tt
  below_All a x (y ∷ ys) h k = (trans a x y h k.0, below_All a x ys h k.1)

  insert_by-Sorted : (a : A) (xs : List A) → Sorted later xs → Sorted later (insert_by later a xs)
  unfolding insert_by
  insert_by-Sorted a [] h = (tt, tt)
  insert_by-Sorted a (x ∷ xs) h = elim (Bool-cases (later a x)) [
    | inl e ↦ rw e (
      All-insert_by later (λ y. later x y ≡ false) a xs (asym a x e) h.0,
      insert_by-Sorted a xs h.1,
    )
    | inr e ↦ rw e ((e, below_All a x xs e h.0), h)
  ]

  pub sort_by-Sorted : (xs : List A) → Sorted later (sort_by later xs)
  unfolding sort_by
  sort_by-Sorted [] = tt
  sort_by-Sorted (x ∷ xs) = insert_by-Sorted x (sort_by later xs) (sort_by-Sorted xs)

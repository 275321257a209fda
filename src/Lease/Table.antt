-- ===== src/Lease/Table.antt =====
-- Rows by primary key: the first row with the key is the row of the key.
use llama_index_rag.Base.{
  Key, ◌≡◌, refl, true, false, ◌==◌, if◌then◌else◌, Option, none, some, List, [], ◌∷◌, arith,
}

module _ {ℓ} {A : Type ℓ} (key : A → Key) where
  unfoldable pub find_by : Key → List A → Option A
  find_by k [] = none
  find_by k (x ∷ xs) = let rest = find_by k xs in if key x == k then some x else rest

  -- The row of the same key is replaced; a key that is not there changes nothing.
  unfoldable pub put_by : A → List A → List A
  put_by a [] = []
  put_by a (x ∷ xs) = let rest = put_by a xs in if key x == key a then a ∷ xs else x ∷ rest

  pub find_by-key : (k : Key) (xs : List A) {a : A} → find_by k xs ≡ some a → (key a == k) ≡ true
  unfolding find_by
  find_by-key k [] h = cc
  find_by-key k (x ∷ xs) {a} h = ground (arith, find_by-key k xs {a = a})

  pub find_by-put_self :
      (k : Key) (xs : List A) {old : A} (new : A)
      → find_by k xs ≡ some old
      → (key new == k) ≡ true
      → find_by k (put_by new xs) ≡ some new
  unfolding find_by put_by
  find_by-put_self k [] new h e = cc
  find_by-put_self k (x ∷ xs) {old} new h e = ground (arith, find_by-put_self k xs {old = old} new)

  pub find_by-put_other :
      (k : Key) (xs : List A) (new : A)
      → (key new == k) ≡ false
      → find_by k (put_by new xs) ≡ find_by k xs
  unfolding find_by put_by
  find_by-put_other k [] new e = refl
  find_by-put_other k (x ∷ xs) new e = ground (arith, find_by-put_other k xs new e)

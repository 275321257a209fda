-- ===== src/Base/Lists.antt =====
-- Lists measured by native numbers, with Boolean tests, under the library's names.
use Prim.Native.Nat.{ℕ, zero, suc, ◌+◌, ◌≤◌}
use mathlib.Core.Path.{◌≡◌, refl, subst, ap, ◌∙◌}
use mathlib.Core.Logic.{inl, inr}
use mathlib.Core.Bool.{Bool, true, false, ◌||◌}
use mathlib.Core.List.{List, [], ◌∷◌, ◌++◌}
use mathlib.Core.Option.{Option, none, some}
use native.Mathlib.Omega.{arith}
use llama_index_rag.Base.Tests.{if◌then◌else◌, ◌==◌, ltb, Bool-cases}

-- Every element has the property. It computes to tuples, which the tactics read.
abbrev pub All {ℓ κ} : {A : Type ℓ} → (A → Type κ) → List A → Type κ
All P [] = Unit
All P (x ∷ xs) = P x × All P xs

module _ {ℓ} {A : Type ℓ} where
  abbrev pub length : List A → ℕ
  length [] = 0
  length (x ∷ xs) = suc (length xs)

  abbrev pub take : ℕ → List A → List A
  take zero xs = []
  take (suc n) [] = []
  take (suc n) (x ∷ xs) = x ∷ take n xs

  -- `[x for x in xs if p(x)]`.
  abbrev pub keep : (A → Bool) → List A → List A
  keep p [] = []
  keep p (x ∷ xs) = let rest = keep p xs in if p x then x ∷ rest else rest

  -- `next((x for x in xs if p(x)), None)`.
  abbrev pub find_first : (A → Bool) → List A → Option A
  find_first p [] = none
  find_first p (x ∷ xs) = if p x then some x else find_first p xs

  abbrev pub any : (A → Bool) → List A → Bool
  any p [] = false
  any p (x ∷ xs) = p x || any p xs

  -- Updates the elements that satisfy the test: `UPDATE ... WHERE`.
  abbrev pub update_where : (A → Bool) → (A → A) → List A → List A
  update_where p f [] = []
  update_where p f (x ∷ xs) = (if p x then f x else x) ∷ update_where p f xs

  pub length-append : (xs ys : List A) → length (xs ++ ys) ≡ length xs + length ys
  length-append [] ys = omega arith
  length-append (x ∷ xs) ys = omega (arith, length-append xs ys)

  pub length-keep-le : (p : A → Bool) (xs : List A) → length (keep p xs) ≤ length xs
  length-keep-le p [] = omega arith
  length-keep-le p (x ∷ xs) = ground (arith, length-keep-le p xs)

  pub length-take-le : (n : ℕ) (xs : List A) → length (take n xs) ≤ n
  length-take-le zero xs = omega arith
  length-take-le (suc n) [] = omega arith
  length-take-le (suc n) (x ∷ xs) = omega (arith, length-take-le n xs)

-- `x in xs`, for numbers.
abbrev pub elem : ℕ → List ℕ → Bool
elem a [] = false
elem a (x ∷ xs) = a == x || elem a xs

-- `set(xs) & set(ys)` is not empty.
abbrev pub meets : List ℕ → List ℕ → Bool
meets [] ys = false
meets (x ∷ xs) ys = elem x ys || meets xs ys

module _ {ℓ} {A : Type ℓ} where
  pub All-keep {κ} : (P : A → Type κ) (p : A → Bool) (xs : List A) → All P xs → All P (keep p xs)
  All-keep P p [] h = tt
  All-keep P p (x ∷ xs) h = ground (arith, All-keep P p xs h.1)

  pub All-take {κ} : (P : A → Type κ) (n : ℕ) (xs : List A) → All P xs → All P (take n xs)
  All-take P zero xs h = tt
  All-take P (suc n) [] h = tt
  All-take P (suc n) (x ∷ xs) h = (h.0, All-take P n xs h.1)

  pub All-append {κ} : (P : A → Type κ) (xs ys : List A) → All P xs → All P ys → All P (xs ++ ys)
  All-append P [] ys h k = k
  All-append P (x ∷ xs) ys h k = (h.0, All-append P xs ys h.1 k)

  pub All-map {κ μ} :
      (P : A → Type κ) (Q : A → Type μ) (xs : List A) → ((a : A) → P a → Q a) → All P xs → All Q xs
  All-map P Q [] f h = tt
  All-map P Q (x ∷ xs) f h = (f x h.0, All-map P Q xs f h.1)

module _ {ℓ κ} {A : Type ℓ} {B : Type κ} where
  -- `[y for x in xs for y in f(x)]`, and the rows of a join.
  abbrev pub concat_map : (A → List B) → List A → List B
  concat_map f [] = []
  concat_map f (x ∷ xs) = f x ++ concat_map f xs

  abbrev pub filter_map : (A → Option B) → List A → List B
  filter_map f [] = []
  filter_map f (x ∷ xs) =
      let rest = filter_map f xs in elim (f x) [ none ↦ rest | some b ↦ b ∷ rest ]

  pub concat_map_congr :
      (f g : A → List B) (xs : List A) → All (λ x. f x ≡ g x) xs → concat_map f xs ≡ concat_map g xs
  concat_map_congr f g [] h = refl
  concat_map_congr f g (x ∷ xs) h = rw (h.0, concat_map_congr f g xs h.1)

-- A test that implies another one selects the same elements after the other has selected.
module _ {ℓ} {A : Type ℓ} (p q : A → Bool) (implied : (x : A) → q x ≡ true → p x ≡ true) where
  pub keep-keep : (xs : List A) → keep q (keep p xs) ≡ keep q xs
  keep-keep [] = refl
  keep-keep (x ∷ xs) = ground (arith, keep-keep xs, implied x)

  pub find_first-keep : (xs : List A) → find_first q (keep p xs) ≡ find_first q xs
  find_first-keep [] = refl
  find_first-keep (x ∷ xs) = ground (arith, find_first-keep xs, implied x)

module _ {ℓ} {A : Type ℓ} where
  pub All-keep_test : (p : A → Bool) (xs : List A) → All (λ x. p x ≡ true) (keep p xs)
  All-keep_test p [] = tt
  All-keep_test p (x ∷ xs) = ground (arith, All-keep_test p xs)

-- `sorted(set(xs))`.
abbrev pub insert_key : ℕ → List ℕ → List ℕ
insert_key a [] = a ∷ []
insert_key a (x ∷ xs) =
    let rest = insert_key a xs in
    if ltb a x then a ∷ x ∷ xs else if a == x then x ∷ xs else x ∷ rest

unfoldable pub sorted_set : List ℕ → List ℕ
sorted_set [] = []
sorted_set (x ∷ xs) = insert_key x (sorted_set xs)

module _ {ℓ} {A : Type ℓ} where
  pub find_first_test : (p : A → Bool) (xs : List A) {a : A} → find_first p xs ≡ some a → p a ≡ true
  find_first_test p [] h = cc
  find_first_test p (x ∷ xs) {a} h = ground (arith, find_first_test p xs {a = a})

  pub All-find_first {κ} :
      (P : A → Type κ) (p : A → Bool) (xs : List A) (a : A)
      → All P xs
      → find_first p xs ≡ some a
      → P a
  All-find_first P p [] a h e = cc
  All-find_first P p (x ∷ xs) a h e = elim (Bool-cases (p x)) [
    | inl hit ↦ let same : x ≡ a = ground arith in subst P same h.0
    | inr miss ↦ All-find_first P p xs a h.1 (ground arith)
  ]

module _ {ℓ} {A : Type ℓ} where
  abbrev pub get_elem? : List A → ℕ → Option A
  get_elem? [] i = none
  get_elem? (x ∷ xs) zero = some x
  get_elem? (x ∷ xs) (suc i) = get_elem? xs i

  -- A write out of bounds changes nothing.
  abbrev pub set : List A → ℕ → A → List A
  set [] i v = []
  set (x ∷ xs) zero v = v ∷ xs
  set (x ∷ xs) (suc i) v = x ∷ set xs i v

  abbrev pub erase_at : List A → ℕ → List A
  erase_at [] i = []
  erase_at (x ∷ xs) zero = xs
  erase_at (x ∷ xs) (suc i) = x ∷ erase_at xs i

  -- How many elements satisfy the test.
  abbrev pub count_if : (A → Bool) → List A → ℕ
  count_if p [] = 0
  count_if p (x ∷ xs) = let rest = count_if p xs in if p x then suc rest else rest

  pub count_if-append :
      (p : A → Bool) (xs ys : List A) → count_if p (xs ++ ys) ≡ count_if p xs + count_if p ys
  count_if-append p [] ys = omega arith
  count_if-append p (x ∷ xs) ys = ground (arith, count_if-append p xs ys)

  pub count_if-set :
      (p : A → Bool) (xs : List A) (i : ℕ) (old new : A)
      → get_elem? xs i ≡ some old
      → count_if p (set xs i new) + (if p old then 1 else 0)
        ≡ count_if p xs + (if p new then 1 else 0)
  count_if-set p [] i old new h = cc
  count_if-set p (x ∷ xs) zero old new h =
      let same : x ≡ old = ground arith in
      subst
        (λ y.
          count_if p (new ∷ xs) + (if p y then 1 else 0)
          ≡ count_if p (x ∷ xs) + (if p new then 1 else 0))
        same (ground arith)
  count_if-set p (x ∷ xs) (suc i) old new h = ground (arith, count_if-set p xs i old new)

  pub count_if-erase_at :
      (p : A → Bool) (xs : List A) (i : ℕ) (old : A)
      → get_elem? xs i ≡ some old
      → count_if p (erase_at xs i) + (if p old then 1 else 0) ≡ count_if p xs
  count_if-erase_at p [] i old h = cc
  count_if-erase_at p (x ∷ xs) zero old h =
      let same : x ≡ old = ground arith in
      subst (λ y. count_if p xs + (if p y then 1 else 0) ≡ count_if p (x ∷ xs)) same (ground arith)
  count_if-erase_at p (x ∷ xs) (suc i) old h = ground (arith, count_if-erase_at p xs i old)

-- Another place keeps its element.
pub get_elem?-set_other {ℓ} :
    {A : Type ℓ} (xs : List A) (i j : ℕ) (a : A)
    → (i == j) ≡ false
    → get_elem? (set xs i a) j ≡ get_elem? xs j
get_elem?-set_other [] i j a apart = refl
get_elem?-set_other (x ∷ xs) zero zero a apart = cc
get_elem?-set_other (x ∷ xs) zero (suc j) a apart = refl
get_elem?-set_other (x ∷ xs) (suc i) zero a apart = refl
get_elem?-set_other (x ∷ xs) (suc i) (suc j) a apart =
    get_elem?-set_other xs i j a (ground (arith, apart))

pub get_elem?-append {ℓ} :
    {A : Type ℓ} (xs ys : List A) (i : ℕ) {a : A}
    → get_elem? xs i ≡ some a
    → get_elem? (xs ++ ys) i ≡ some a
get_elem?-append [] ys i h = cc
get_elem?-append (x ∷ xs) ys zero h = h
get_elem?-append (x ∷ xs) ys (suc i) h = get_elem?-append xs ys i h

-- An element that satisfies the test is counted.
pub count_if-positive {ℓ} :
    {A : Type ℓ} (p : A → Bool) (xs : List A) (i : ℕ) (x : A)
    → get_elem? xs i ≡ some x
    → p x ≡ true
    → (count_if p xs == 0) ≡ false
count_if-positive p [] i x there passes = cc
count_if-positive p (y ∷ xs) zero x there passes =
    let here : p y ≡ true = ap p (ground arith) ∙ passes in ground (arith, here)
count_if-positive p (y ∷ xs) (suc i) x there passes =
    ground (arith, count_if-positive p xs i x there passes)

-- An element that satisfies the test stands at some place.
pub any-get_elem? {ℓ} :
    {A : Type ℓ} (p : A → Bool) (xs : List A)
    → any p xs ≡ true
    → (i : ℕ) × ((x : A) × ((get_elem? xs i ≡ some x) × (p x ≡ true)))
any-get_elem? p [] h = cc
any-get_elem? p (x ∷ xs) h = elim (Bool-cases (p x)) [
  | inl here ↦ (0, (x, (refl, here)))
  | inr not_here ↦
      let below : any p xs ≡ true = ground (arith, h, not_here) in
      let (i, (y, (there, passes))) = any-get_elem? p xs below in (suc i, (y, (there, passes)))
]

module _ {ℓ κ} {A : Type ℓ} (P : A → Type κ) where
  pub All-get_elem? : (xs : List A) (i : ℕ) (a : A) → All P xs → get_elem? xs i ≡ some a → P a
  All-get_elem? [] i a h e = cc
  All-get_elem? (x ∷ xs) zero a h e = let same : x ≡ a = ground arith in subst P same h.0
  All-get_elem? (x ∷ xs) (suc i) a h e = All-get_elem? xs i a h.1 e

  pub All-set : (xs : List A) (i : ℕ) (a : A) → All P xs → P a → All P (set xs i a)
  All-set [] i a h p = tt
  All-set (x ∷ xs) zero a h p = (p, h.1)
  All-set (x ∷ xs) (suc i) a h p = (h.0, All-set xs i a h.1 p)

  pub All-erase_at : (xs : List A) (i : ℕ) → All P xs → All P (erase_at xs i)
  All-erase_at [] i h = tt
  All-erase_at (x ∷ xs) zero h = h.1
  All-erase_at (x ∷ xs) (suc i) h = (h.0, All-erase_at xs i h.1)

module _ {ℓ κ} {A : Type ℓ} (P : A → Type κ) where
  -- An update keeps a property of all rows, if it keeps it where it applies.
  pub All-update_where :
      (p : A → Bool) (f : A → A) (xs : List A)
      → ((a : A) → p a ≡ true → P a → P (f a))
      → All P xs
      → All P (update_where p f xs)
  All-update_where p f [] step h = tt
  All-update_where p f (x ∷ xs) step h = elim (Bool-cases (p x)) [
    | inl e ↦ rw e (step x e h.0, All-update_where p f xs step h.1)
    | inr e ↦ rw e (h.0, All-update_where p f xs step h.1)
  ]

module _ {ℓ} {A : Type ℓ} (q p : A → Bool) (f : A → A) (same : (x : A) → q (f x) ≡ q x) where
  -- An update that does not touch what a query asks for finds the updated row.
  pub find_first-update_where :
      (xs : List A) (a : A)
      → find_first q xs ≡ some a
      → find_first q (update_where p f xs) ≡ some (if p a then f a else a)
  find_first-update_where [] a h = cc
  find_first-update_where (x ∷ xs) a h = elim (Bool-cases (q x)) [
    | inl e ↦
        let here : x ≡ a = ground arith in
        subst (λ y. find_first q (update_where p f (x ∷ xs)) ≡ some (if p y then f y else y)) here
          (ground (arith, e, same x))
    | inr e ↦
        let below : find_first q xs ≡ some a = ground arith in
        ground (arith, e, same x, find_first-update_where xs a below)
  ]

module _ {ℓ κ μ} {A : Type ℓ} (P : A → Type κ) (Q : A → Type μ) where
  -- An update that establishes a property from another one.
  pub All-update :
      (p : A → Bool) (f : A → A) (xs : List A)
      → ((a : A) → P a → Q (if p a then f a else a))
      → All P xs
      → All Q (update_where p f xs)
  All-update p f [] step h = tt
  All-update p f (x ∷ xs) step h = (step x h.0, All-update p f xs step h.1)

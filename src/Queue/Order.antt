-- ===== src/Queue/Order.antt =====
-- The order of deliveries (backend/enterprise_rag/infrastructure/queue.py:InProcessQueue.get).
use mathlib.Core.List.Perm
use mathlib.Core.List.{Perm}
use llama_index_rag.Base.{
  ◌+◌, ◌≤◌, ◌<◌, ◌⊎◌, ap, ℤ, pos, negsuc, pos_part, neg_part, ◌≡◌, refl, inl, inr, true, false,
  List, [], ◌∷◌, All, arith, Bool-cases, Option, none, some, if◌then◌else◌,
}
use llama_index_rag.Queue.{Entry, InProcessQueue, QueueDelivery, before, extract, get_from, get}

-- `a` comes before `b`: it has the higher priority, or the same priority and no larger sequence
-- number.
abbrev pub Precedes : Entry → Entry → Type 0
Precedes a b =
    (pos_part b.priority + neg_part a.priority < pos_part a.priority + neg_part b.priority)
    ⊎ ((a.priority ≡ b.priority) × (a.sequence ≤ b.sequence))

equal_parts : (x y : ℤ) → pos_part x + neg_part y ≡ pos_part y + neg_part x → x ≡ y
equal_parts (pos m) (pos n) h = ap pos (omega (arith, h))
equal_parts (pos m) (negsuc n) h = absurd (omega (arith, h))
equal_parts (negsuc m) (pos n) h = absurd (omega (arith, h))
equal_parts (negsuc m) (negsuc n) h = ap negsuc (omega (arith, h))

not-before : (a b : Entry) → before b a ≡ false → Precedes a b
not-before a b h = ground (arith, equal_parts a.priority b.priority)

Precedes-trans : (a b c : Entry) → Precedes a b → Precedes b c → Precedes a c
Precedes-trans a b c h k = ground arith

before-Precedes : (a b : Entry) → before a b ≡ true → Precedes a b
before-Precedes a b h = ground (arith, equal_parts a.priority b.priority)

abbrev Extracted : Entry → Entry × List Entry → Type 0
Extracted e (least, rest) = Precedes least e × All (Precedes least) rest

-- The two entries of one comparison, the earlier one first.
abbrev first_of_two : Entry → Entry → Entry
first_of_two x e = if before x e then x else e

abbrev second_of_two : Entry → Entry → Entry
second_of_two x e = if before x e then e else x

first_of_two-Precedes :
    (x e : Entry) → Precedes (first_of_two x e) e × Precedes (first_of_two x e) (second_of_two x e)
first_of_two-Precedes x e = elim (Bool-cases (before x e)) [
  | inl h ↦ rw h (before-Precedes x e h, before-Precedes x e h)
  | inr h ↦ rw h (inr (refl, omega arith), not-before e x h)
]

extract-least : (e : Entry) (xs : List Entry) → Extracted e (extract e xs)
unfolding extract
extract-least e [] = (inr (refl, omega arith), tt)
extract-least e (x ∷ xs) =
    let c = first_of_two x e in
    let (first, rest) = extract-least c xs in
    let (below, other) = first_of_two-Precedes x e in
    let least = (extract c xs).0 in
    (
      Precedes-trans least c e first below,
      (Precedes-trans least c (second_of_two x e) first other, rest),
    )

two-perm :
    (x e : Entry) (xs : List Entry) → Perm (e ∷ x ∷ xs) (second_of_two x e ∷ first_of_two x e ∷ xs)
two-perm x e xs = elim (Bool-cases (before x e)) [
  | inl h ↦ rw h (Perm.refl (e ∷ x ∷ xs))
  | inr h ↦ rw h (Perm.swap x e xs)
]

extract-perm : (e : Entry) (xs : List Entry) → Perm (e ∷ xs) ((extract e xs).0 ∷ (extract e xs).1)
unfolding extract
extract-perm e [] = Perm.refl (e ∷ [])
extract-perm e (x ∷ xs) =
    let c = first_of_two x e in
    let o = second_of_two x e in
    Perm.trans (two-perm x e xs)
      (Perm.trans (Perm.cons o (extract-perm c xs)) (Perm.swap (extract c xs).0 o (extract c xs).1))

-- What `get` may give for a queue.
abbrev pub TakesLeast : InProcessQueue → Option (QueueDelivery × InProcessQueue) → Type 0
TakesLeast q none = q.entries ≡ []
TakesLeast q (some (d, q')) =
    (e : Entry) × (d ≡ record { message = e.message; settled = false })
    × Perm q.entries (e ∷ q'.entries)
    × All (Precedes e) q'.entries
    × (q' ≡ record q { entries = q'.entries })

get_from-least :
    (q : InProcessQueue) (es : List Entry) → q.entries ≡ es → TakesLeast q (get_from q es)
unfolding get_from
get_from-least q [] h = h
get_from-least q (e ∷ es) h =
    ((extract e es).0, refl, rw h (extract-perm e es), (extract-least e es).1, refl)

-- `get` waits only on an empty queue. Otherwise it takes the message of an entry that has, against
-- each other entry, the higher priority, or the same priority and no larger sequence number, and
-- keeps exactly the other entries; the delivery is unsettled and the rest of the queue is
-- unchanged.
pub get-TakesLeast : (q : InProcessQueue) → TakesLeast q (get q)
unfolding get
get-TakesLeast q = get_from-least q q.entries refl

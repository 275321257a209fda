-- ===== src/Outbox/Batch.antt =====
-- One batch of one dispatcher: what it selects and in what order.
use llama_index_rag.Base.{
  Key, Time, ℕ, suc, zero, ◌≤◌, ◌≡◌, refl, inl, inr, Bool, true, false, not, ◌&&◌, ◌==◌, Option,
  some, List, [], ◌∷◌, elem, keep, take, length, update_where, All, All-keep_test, All-take,
  length-take-le, arith, Bool-cases, and_right,
}
use llama_index_rag.Base.Sort.{sort_by, Sorted, sort_by-Sorted, All-sort_by}
use llama_index_rag.Outbox.{
  OutboxRecord, Dispatcher, pending_test, later_row, pending_rows, ids_of, claimed_row, claim_batch,
}

later_row-asym : (a b : OutboxRecord) → later_row a b ≡ true → later_row b a ≡ false
later_row-asym a b h = ground arith

later_row_trans :
    (a b c : OutboxRecord) → later_row a b ≡ false → later_row b c ≡ false → later_row a c ≡ false
later_row_trans a b c h k = ground arith

take-Sorted :
    (n : ℕ) (rows : List OutboxRecord) → Sorted later_row rows → Sorted later_row (take n rows)
take-Sorted zero rows h = tt
take-Sorted (suc n) [] h = tt
take-Sorted (suc n) (r ∷ rows) h =
    (All-take (λ y. later_row r y ≡ false) n rows h.0, take-Sorted n rows h.1)

-- A batch has at most `limit` rows, all pending, with the higher priorities first and the older
-- rows first within a priority.
pub pending_rows_ordered :
    (locked : Key → Bool) (now : Time) (limit : ℕ) (tenant_id : Option Key)
    (outbox : List OutboxRecord)
    → let rows = pending_rows locked now limit tenant_id outbox in
      (length rows ≤ limit)
      × Sorted later_row rows
      × All (λ r. pending_test locked now tenant_id r ≡ true) rows
unfolding pending_rows
pending_rows_ordered locked now limit tenant_id outbox =
    let p = pending_test locked now tenant_id in
    let pending = keep p outbox in
    let sorted = sort_by later_row pending in
    (
      length-take-le limit sorted,
      take-Sorted limit sorted (sort_by-Sorted later_row later_row-asym later_row_trans pending),
      All-take (λ r. p r ≡ true) limit sorted
          (All-sort_by later_row (λ r. p r ≡ true) pending (All-keep_test p outbox)),
    )

keep-update_where :
    (q p : OutboxRecord → Bool) (f : OutboxRecord → OutboxRecord) (rows : List OutboxRecord)
    → ((r : OutboxRecord) → p r ≡ true → (q r ≡ false) × (q (f r) ≡ false))
    → keep q (update_where p f rows) ≡ keep q rows
keep-update_where q p f [] h = refl
keep-update_where q p f (r ∷ rows) h = elim (Bool-cases (p r)) [
  | inl e ↦ ground (arith, e, h r e, keep-update_where q p f rows h)
  | inr e ↦ ground (arith, e, keep-update_where q p f rows h)
]

same_tenant :
    (locked : Key → Bool) (now : Time) (t : Key) (r : OutboxRecord)
    → pending_test locked now (some t) r ≡ true
    → (not (r.tenant_id == t) ≡ false) × (not (r.tenant_id == t) ≡ false)
unfolding pending_test
same_tenant locked now t r h = ground arith

-- A batch of one tenant leaves the rows of all other tenants as they are.
pub claim_keeps_other_tenants :
    (d : Dispatcher) (locked : Key → Bool) (now : Time) (limit : ℕ) (t : Key)
    (outbox : List OutboxRecord)
    → keep (λ r. not (r.tenant_id == t)) (claim_batch d locked now limit (some t) outbox).1
      ≡ keep (λ r. not (r.tenant_id == t)) outbox
unfolding claim_batch
claim_keeps_other_tenants d locked now limit t outbox =
    let ids = ids_of (pending_rows locked now limit (some t) outbox) in
    keep-update_where (λ r. not (r.tenant_id == t))
      (λ r. elem r.id ids && pending_test locked now (some t) r) (claimed_row d now) outbox
      (λ r e. same_tenant locked now t r (and_right (elem r.id ids) _ e))

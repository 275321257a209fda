-- ===== src/Outbox/Final.antt =====
-- Published and poisoned rows over time (backend/enterprise_rag/infrastructure/queue.py).
use llama_index_rag.Base.{
  Key, Time, ◌≡◌, refl, ◌∙◌, ap, Bool, true, false, not, ◌&&◌, ◌||◌, ◌==◌, Option, some, is_none,
  List, ◌∷◌, elem, update_where, find_first, All, All-find_first, find_first-update_where,
  find_first_test, arith,
}
use llama_index_rag.Domain.Message.{Value, JobMessage}
use llama_index_rag.Outbox.{
  OutboxRecord, Draft, new_row, Dispatcher, pending_test, ids_of, pending_rows, claim_batch,
  own_unpublished, own_row, failure_values, mark_published, mark_failed, Delivery, recorded,
  unrecorded, refused, Progress, settle,
}
use llama_index_rag.Outbox.Safety.{
  IsSound, World, Step, adds, claims, settles, Reach, here, next, AllSound, Reach-AllSound,
  add-rows,
}

-- The row of an id.
abbrev pub row : Key → List OutboxRecord → Option OutboxRecord
row id rows = find_first (λ r. r.id == id) rows

abbrev pub is_final : OutboxRecord → Bool
is_final r = not (is_none r.published_at) || not (is_none r.poisoned_at)

untouched :
    (id : Key) (p : OutboxRecord → Bool) (f : OutboxRecord → OutboxRecord)
    (rows : List OutboxRecord) (r : OutboxRecord)
    → ((x : OutboxRecord) → (f x).id ≡ x.id)
    → row id rows ≡ some r
    → p r ≡ false
    → row id (update_where p f rows) ≡ some r
untouched id p f rows r same found off =
    find_first-update_where (λ x. x.id == id) p f (λ x. ap (λ k. k == id) (same x)) rows r found
    ∙ rw off refl

module _ (taken : List Key) (id : Key) (r : OutboxRecord) (sound : IsSound taken r)
    (final : is_final r ≡ true) where
  not_pending :
      (locked : Key → Bool) (now : Time) (tenant_id : Option Key) (b : Bool)
      → (b && pending_test locked now tenant_id r) ≡ false
  unfolding pending_test
  not_pending locked now tenant_id b = ground arith

  not_own : (d : Dispatcher) (m : JobMessage) → own_row d m r ≡ false
  not_own d m = ground arith

  not_own_unpublished : (d : Dispatcher) (m : JobMessage) → own_unpublished d m r ≡ false
  not_own_unpublished d m = ground arith

  settle_keeps :
      (d : Dispatcher) (now : Time) (m : JobMessage) (delivery : Delivery) (p : Progress)
      → row id p.outbox ≡ some r
      → row id (settle d now m delivery p).outbox ≡ some r
  unfolding settle mark_published mark_failed
  settle_keeps d now m recorded p e =
      untouched id (own_unpublished d m) _ p.outbox r (λ x. refl) e (not_own_unpublished d m)
  settle_keeps d now m unrecorded p e =
      untouched id (own_row d m) (failure_values now m) p.outbox r (λ x. ground arith) e
        (not_own d m)
  settle_keeps d now m refused p e =
      untouched id (own_row d m) (failure_values now m) p.outbox r (λ x. ground arith) e
        (not_own d m)

add_keeps :
    (id fresh : Key) (now : Time) (draft : Draft) (rows : List OutboxRecord) (r : OutboxRecord)
    (outbox : List OutboxRecord)
    → row id rows ≡ some r
    → All (λ old. (old.id == fresh) ≡ false) rows
    → outbox ≡ new_row fresh now draft ∷ rows
    → row id outbox ≡ some r
unfolding new_row
add_keeps id fresh now draft rows r outbox found new e =
    let other : (fresh == id) ≡ false = ground (
      arith,
      find_first_test (λ x. x.id == id) rows found,
      All-find_first (λ old. (old.id == fresh) ≡ false) (λ x. x.id == id) rows r new found,
    ) in
    rw e (rw other found)

keeps_final :
    {str : Value → Key} {w v : World} (id : Key) (r : OutboxRecord)
    → Step str w v
    → AllSound w
    → row id w.outbox ≡ some r
    → is_final r ≡ true
    → row id v.outbox ≡ some r
unfolding claim_batch
keeps_final {str} id r (adds w fresh now draft x outbox e new) h found final =
    add_keeps id fresh now draft w.outbox r outbox found new
      (add-rows str fresh now draft w.outbox x outbox e)
keeps_final id r (claims w d locked now limit tenant_id) h found final =
    untouched id _ _ w.outbox r (λ x. refl) found
      (not_pending w.taken id r
        (All-find_first (IsSound w.taken) (λ x. x.id == id) w.outbox r h found) final locked now
        tenant_id (elem r.id (ids_of (pending_rows locked now limit tenant_id w.outbox))))
keeps_final id r (settles w d now m delivery p same_rows same_taken) h found final =
    settle_keeps w.taken id r
      (All-find_first (IsSound w.taken) (λ x. x.id == id) w.outbox r h found) final d now m delivery
      p (ap (row id) same_rows ∙ found)

-- In a sound world, a row that was published or poisoned stays exactly as it is in the outbox under
-- any later steps of writers and dispatchers.
pub final_rows_stay :
    {str : Value → Key} {w v : World} (id : Key) (r : OutboxRecord)
    → Reach str w v
    → AllSound w
    → row id w.outbox ≡ some r
    → is_final r ≡ true
    → row id v.outbox ≡ some r
final_rows_stay id r here h found final = found
final_rows_stay id r (next {u} steps s) h found final =
    keeps_final id r s (Reach-AllSound steps h) (final_rows_stay id r steps h found final) final

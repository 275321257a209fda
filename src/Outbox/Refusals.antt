-- ===== src/Outbox/Refusals.antt =====
-- A batch whose publications the broker refuses
-- (backend/enterprise_rag/infrastructure/queue.py:OutboxDispatcher.dispatch_batch).
use llama_index_rag.Base.{
  Key, Time, ℕ, suc, ◌+◌, ◌^◌, ◌≤◌, ◌<◌, ◌≡◌, refl, sym, ◌∙◌, ap, inl, inr, Bool, true, false, ◌&&◌,
  ◌==◌, Option, none, some, List, [], ◌∷◌, map, elem, keep, find_first-update_where, All, All-keep,
  All-keep_test, All-take, arith, Bool-cases, eq_of_==, ==_refl, leb, if◌then◌else◌,
}
use llama_index_rag.Base.Sort.{sort_by, All-sort_by}
use llama_index_rag.Domain.Message.{JobMessage}
use llama_index_rag.Outbox.{
  OutboxRecord, Dispatcher, pending_test, later_row, pending_rows, ids_of, claimed_row, message_of,
  claim_batch, own_row, failure_values, mark_failed, Delivery, refused, Progress, settle,
  settle_all, dispatch_batch,
}
use llama_index_rag.Outbox.Final.{row}

-- What a refused publication leaves of a row: the attempt is counted and the claim is gone, and the
-- row is poisoned when its attempts are used up, and else waits twice as long as the last time.
pub record IsRefused (ended : Time) (r after : OutboxRecord) : Type 0 where
  pub counted : after.attempts ≡ suc r.attempts
  pub unclaimed : after.claimed_by ≡ none
  pub unpublished : after.published_at ≡ r.published_at
  pub poisoned : r.max_attempts ≤ suc r.attempts → after.poisoned_at ≡ some ended
  pub waits :
      suc r.attempts < r.max_attempts
      → (after.poisoned_at ≡ r.poisoned_at) × (after.available_at ≡ ended + 2 ^ suc r.attempts)

failure_values-IsRefused :
    (d : Dispatcher) (now ended : Time) (r : OutboxRecord)
    → IsRefused ended r (failure_values ended (message_of r) (claimed_row d now r))
failure_values-IsRefused d now ended r = elim (Bool-cases (leb r.max_attempts (r.attempts + 1))) [
  | inl last ↦ rw last (record {
    counted = omega arith;
    unclaimed = refl;
    unpublished = refl;
    poisoned = λ h. refl;
    waits = λ h. ground (arith, last, h);
  })
  | inr left ↦ rw left (record {
    counted = omega arith;
    unclaimed = refl;
    unpublished = refl;
    poisoned = λ h. ground (arith, left, h);
    waits = λ h. (refl, ap (λ n. ended + 2 ^ n) (omega arith));
  })
]

module _ (d : Dispatcher) (delivery : Key → Delivery × Time) (id : Key)
    (refuses : (k : Key) → (delivery k).0 ≡ refused) where
  -- One refused message, on the row of the identifier.
  settle-row :
      (m : JobMessage) (p : Progress) (x : OutboxRecord)
      → row id p.outbox ≡ some x
      → row id (settle d (delivery m.id).1 m (delivery m.id).0 p).outbox
        ≡ some (if own_row d m x then failure_values (delivery m.id).1 m x else x)
  unfolding settle mark_failed
  settle-row m p x found = rw refuses (
      find_first-update_where (λ r. r.id == id) (own_row d m) (failure_values (delivery m.id).1 m)
        (λ r. ground arith) p.outbox x found)

  -- A row that no message is about, or that the dispatcher has not claimed, stays.
  settle_all-stays :
      (ms : List JobMessage) (p : Progress) (x : OutboxRecord)
      → row id p.outbox ≡ some x
      → All (λ m. own_row d m x ≡ false) ms
      → row id (settle_all d delivery ms p).outbox ≡ some x
  unfolding settle_all
  settle_all-stays [] p x found off = found
  settle_all-stays (m ∷ ms) p x found off =
      let same : row id (settle d (delivery m.id).1 m (delivery m.id).0 p).outbox ≡ some x =
        settle-row m p x found ∙ rw (off.0) refl in
      settle_all-stays ms (settle d (delivery m.id).1 m (delivery m.id).0 p) x same off.1

  unclaimed-off :
      (x : OutboxRecord) (rows : List OutboxRecord)
      → x.claimed_by ≡ none
      → All (λ m. own_row d m x ≡ false) (map message_of rows)
  unclaimed-off x [] h = tt
  unclaimed-off x (r ∷ rows) h = (ground (arith, h), unclaimed-off x rows h)

  unselected-off :
      (x : OutboxRecord) (rows : List OutboxRecord)
      → x.id ≡ id
      → elem id (ids_of rows) ≡ false
      → All (λ m. own_row d m x ≡ false) (map message_of rows)
  unselected-off x [] same h = tt
  unselected-off x (r ∷ rows) same h =
      (ground (arith, same, h), unselected-off x rows same (ground (arith, h)))

  -- The message of the row among those of the batch.
  settle_all-refused :
      (now : Time) (r : OutboxRecord) (rows : List OutboxRecord) (p : Progress)
      → r.id ≡ id
      → All (λ x. x.id ≡ id → x ≡ r) rows
      → elem id (ids_of rows) ≡ true
      → row id p.outbox ≡ some (claimed_row d now r)
      → row id (settle_all d delivery (map message_of rows) p).outbox
        ≡ some (failure_values (delivery id).1 (message_of r) (claimed_row d now r))
  unfolding settle_all
  settle_all-refused now r [] p of_id only selected found = cc
  settle_all-refused now r (x ∷ rows) p of_id only selected found =
      let m = message_of x in
      let next = settle d (delivery m.id).1 m (delivery m.id).0 p in
      let stepped = settle-row m p (claimed_row d now r) found in
      elim (Bool-cases (x.id == id)) [
        | inl hit ↦
            let same : x ≡ r = only.0 (eq_of_== x.id id hit) in
            let mine : own_row d m (claimed_row d now r) ≡ true =
              rw (of_id, eq_of_== x.id id hit, ==_refl id, ==_refl d.dispatcher_id) refl in
            let failed_row = failure_values (delivery id).1 (message_of r) (claimed_row d now r) in
            let now_failed : row id next.outbox ≡ some failed_row =
              stepped
              ∙ (rw mine refl
                  ∙ ap
                      (λ (y : OutboxRecord).
                        some
                          (failure_values (delivery y.id).1 (message_of y) (claimed_row d now r)))
                      same
                  ∙ ap
                      (λ k.
                        some (failure_values (delivery k).1 (message_of r) (claimed_row d now r)))
                      of_id) in
            settle_all-stays (map message_of rows) next failed_row now_failed (
              unclaimed-off failed_row rows
                (failure_values-IsRefused d now (delivery id).1 r).unclaimed)
        | inr miss ↦
            let off : own_row d m (claimed_row d now r) ≡ false = ground (arith, of_id, miss) in
            settle_all-refused now r rows next of_id only.1 (ground (arith, selected, miss))
              (stepped ∙ rw off refl)
      ]

-- The row of the identifier after the first transaction.
claim_batch-row :
    (d : Dispatcher) (locked : Key → Bool) (now : Time) (limit : ℕ) (tenant_id : Option Key)
    (outbox : List OutboxRecord) (r : OutboxRecord)
    → row r.id outbox ≡ some r
    → row r.id (claim_batch d locked now limit tenant_id outbox).1
      ≡ some (
          if elem r.id (ids_of (pending_rows locked now limit tenant_id outbox))
            && pending_test locked now tenant_id r
          then claimed_row d now r
          else r)
unfolding claim_batch
claim_batch-row d locked now limit tenant_id outbox r found =
    find_first-update_where (λ x. x.id == r.id)
      (λ x.
        elem x.id (ids_of (pending_rows locked now limit tenant_id outbox))
        && pending_test locked now tenant_id x)
      (claimed_row d now) (λ x. refl) outbox r found

-- What is so of all rows is so of those of a batch, and they are pending.
pending_rows-All {κ} :
    (P : OutboxRecord → Type κ) (locked : Key → Bool) (now : Time) (limit : ℕ)
    (tenant_id : Option Key) (outbox : List OutboxRecord)
    → All P outbox
    → All P (pending_rows locked now limit tenant_id outbox)
      × All
          (λ x. pending_test locked now tenant_id x ≡ true)
          (pending_rows locked now limit tenant_id outbox)
unfolding pending_rows
pending_rows-All P locked now limit tenant_id outbox h =
    let p = pending_test locked now tenant_id in
    let pending = keep p outbox in
    (
      All-take P limit (sort_by later_row pending)
          (All-sort_by later_row P pending (All-keep P p outbox h)),
      All-take (λ x. p x ≡ true) limit (sort_by later_row pending)
          (All-sort_by later_row (λ x. p x ≡ true) pending (All-keep_test p outbox)),
    )

selected-passes :
    (p : OutboxRecord → Bool) (r : OutboxRecord) (rows : List OutboxRecord)
    → All (λ x. x.id ≡ r.id → x ≡ r) rows
    → All (λ x. p x ≡ true) rows
    → elem r.id (ids_of rows) ≡ true
    → p r ≡ true
selected-passes p r [] only passes selected = cc
selected-passes p r (x ∷ rows) only passes selected = elim (Bool-cases (x.id == r.id)) [
  | inl hit ↦ ap p (sym (only.0 (eq_of_== x.id r.id hit))) ∙ passes.0
  | inr miss ↦ selected-passes p r rows only.1 passes.1 (ground (arith, selected, miss))
]

-- In a batch of which the broker refuses every publication, on any table, a row whose identifier no
-- different row has goes this way. If the batch selects it, its attempt is counted and its claim is
-- gone, and it is poisoned at the time of its failure when that uses up its attempts, or else
-- becomes available again two to the power of the attempts seconds after it, without being
-- poisoned. If the batch does not select it, it stays as it is.
pub refused_batch :
    (d : Dispatcher) (locked : Key → Bool) (now : Time) (limit : ℕ) (tenant_id : Option Key)
    (delivery : Key → Delivery × Time) (outbox : List OutboxRecord) (r : OutboxRecord)
    → ((k : Key) → (delivery k).0 ≡ refused)
    → row r.id outbox ≡ some r
    → All (λ x. x.id ≡ r.id → x ≡ r) outbox
    → (elem r.id (ids_of (pending_rows locked now limit tenant_id outbox)) ≡ true
        → (after : OutboxRecord) × ((row r.id
                (dispatch_batch d locked now limit tenant_id delivery outbox).outbox
              ≡ some after)
            × IsRefused (delivery r.id).1 r after))
      × (elem r.id (ids_of (pending_rows locked now limit tenant_id outbox)) ≡ false
          → row r.id (dispatch_batch d locked now limit tenant_id delivery outbox).outbox ≡ some r)
unfolding dispatch_batch claim_batch
refused_batch d locked now limit tenant_id delivery outbox r refuses found only =
    let rows = pending_rows locked now limit tenant_id outbox in
    let begun : Progress = record {
      published = 0;
      poisoned = 0;
      outbox = (claim_batch d locked now limit tenant_id outbox).1;
      taken = [];
    } in
    let claimed = claim_batch-row d locked now limit tenant_id outbox r found in
    let (alone, pending) =
      pending_rows-All (λ x. x.id ≡ r.id → x ≡ r) locked now limit tenant_id outbox only in
    (
      λ selected.
          let passes =
            selected-passes (pending_test locked now tenant_id) r rows alone pending selected in
          (
            failure_values (delivery r.id).1 (message_of r) (claimed_row d now r),
            (
              settle_all-refused d delivery r.id refuses now r rows begun refl alone selected
                  (claimed ∙ rw (selected, passes) refl),
              failure_values-IsRefused d now (delivery r.id).1 r,
            ),
          ),
      λ unselected.
          settle_all-stays d delivery r.id refuses (map message_of rows) begun r
            (claimed ∙ rw unselected refl)
            (unselected-off d delivery r.id refuses r rows refl unselected),
    )

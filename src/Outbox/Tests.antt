-- ===== src/Outbox/Tests.antt =====
-- Examples of batches.
use llama_index_rag.Base.{
  Bool, Key, ℕ, ◌≤◌, ◌≡◌, refl, pos, not, ◌==◌, keep, List, [], ◌∷◌, none, some, All, true, false,
  length, elem, arith,
}
use llama_index_rag.Base.Sort.{Sorted, sort_by, insert_by}
use llama_index_rag.Domain.Message.{Value, word}
use llama_index_rag.Outbox.{
  OutboxRecord, Dispatcher, pending_test, later_row, ids_of, pending_rows, claim_batch, refused,
  dispatch_batch,
}
use llama_index_rag.Outbox.Safety.{
  IsSound, World, claims, Reach, here, next, AllSound, Reach-AllSound,
}
use llama_index_rag.Outbox.Final.{row, final_rows_stay}
use llama_index_rag.Outbox.Refusals.{IsRefused, refused_batch}
use llama_index_rag.Outbox.Batch.{pending_rows_ordered, claim_keeps_other_tenants}

abbrev fresh_row : Key → Key → ℕ → OutboxRecord
fresh_row id tenant_id priority = record {
  id = id;
  tenant_id = tenant_id;
  kind = "ingestion.process";
  correlation_id = 2;
  payload = [];
  priority = pos priority;
  attempts = 0;
  max_attempts = 3;
  available_at = 10;
  published_at = none;
  poisoned_at = none;
  claimed_by = none;
  claim_expires_at = none;
  last_error = none;
  created_at = id;
}

abbrev published_row : OutboxRecord
published_row = record (fresh_row 7 1 0) { published_at = some 9 }

abbrev first_world : World
first_world = record { outbox = fresh_row 5 1 0 ∷ published_row ∷ []; taken = 7 ∷ [] }

abbrev dispatcher : Dispatcher
dispatcher = record { dispatcher_id = 50; claim_seconds = 30 }

abbrev free : Key → Bool
free k = false

fresh_row-IsSound : IsSound (7 ∷ []) (fresh_row 5 1 0)
fresh_row-IsSound = ground arith

published_row-IsSound : IsSound (7 ∷ []) published_row
published_row-IsSound = ground arith

first_world-AllSound : AllSound first_world
first_world-AllSound = (fresh_row-IsSound, (published_row-IsSound, tt))

abbrev text_of : Value → Key
text_of (word k) = k
text_of _ = 0

abbrev claimed_world : World
claimed_world = record first_world {
  outbox = (claim_batch dispatcher free 20 10 none first_world.outbox).1;
}

-- One batch is claimed.
claims_once : Reach text_of first_world claimed_world
claims_once = next here (claims first_world dispatcher free 20 10 none)

Reach-AllSound_example : AllSound claimed_world
Reach-AllSound_example =
    Reach-AllSound {str = text_of} {w = first_world} {v = claimed_world} claims_once
      first_world-AllSound

final_rows_stay_example : row 7 claimed_world.outbox ≡ some published_row
final_rows_stay_example =
    final_rows_stay {str = text_of} {w = first_world} {v = claimed_world} 7 published_row
      claims_once first_world-AllSound refl refl

abbrev three_rows : List OutboxRecord
three_rows = fresh_row 5 1 0 ∷ fresh_row 6 2 0 ∷ fresh_row 4 1 9 ∷ []

pending_rows_ordered_test :
    (length (pending_rows free 20 2 none three_rows) ≤ 2)
    × Sorted later_row (pending_rows free 20 2 none three_rows)
    × All (λ r. pending_test free 20 none r ≡ true) (pending_rows free 20 2 none three_rows)
pending_rows_ordered_test = pending_rows_ordered free 20 2 none three_rows

claim_keeps_other_tenants_test :
    keep (λ r. not (r.tenant_id == 1)) (claim_batch dispatcher free 20 10 (some 1) three_rows).1
    ≡ keep (λ r. not (r.tenant_id == 1)) three_rows
claim_keeps_other_tenants_test = claim_keeps_other_tenants dispatcher free 20 10 1 three_rows

abbrev sixth_row : OutboxRecord
sixth_row = record (fresh_row 6 1 3) { attempts = 2 }

abbrev refusing_rows : List OutboxRecord
refusing_rows = fresh_row 5 1 0 ∷ sixth_row ∷ fresh_row 7 2 4 ∷ []

only_sixth : All (λ (x : OutboxRecord). x.id ≡ 6 → x ≡ sixth_row) refusing_rows
only_sixth =
    ((λ h. absurd (omega (arith, h))), ((λ h. refl), ((λ h. absurd (omega (arith, h))), tt)))

refused_batch_example :
    (elem 6 (ids_of (pending_rows free 20 2 none refusing_rows)) ≡ true
      → (after : OutboxRecord) × ((row 6
              (dispatch_batch dispatcher free 20 2 none (λ _. (refused, 30)) refusing_rows).outbox
            ≡ some after)
          × IsRefused 30 sixth_row after))
    × (elem 6 (ids_of (pending_rows free 20 2 none refusing_rows)) ≡ false
        → row 6 (dispatch_batch dispatcher free 20 2 none (λ _. (refused, 30)) refusing_rows).outbox
          ≡ some sixth_row)
refused_batch_example =
    refused_batch dispatcher free 20 2 none (λ _. (refused, 30)) refusing_rows sixth_row (λ k. refl)
      refl only_sixth

-- The batch does select it.
selects_sixth : elem 6 (ids_of (pending_rows free 20 2 none refusing_rows)) ≡ true
unfolding pending_rows pending_test sort_by insert_by
selects_sixth = refl

-- ===== src/Outbox.antt =====
-- The transactional outbox and its dispatchers
-- (backend/enterprise_rag/infrastructure/queue.py:OutboxService, OutboxDispatcher). The table is
-- the list of its rows; `id` is its primary key.
pub mod Safety
pub mod Final
pub mod Batch
pub mod Refusals
mod Tests
use Prim.Native.String.{String}
use llama_index_rag.Base.{
  Key, Time, ℕ, suc, ◌+◌, ◌^◌, ℤ, pos, Bool, true, false, not, ◌&&◌, ◌||◌, ◌==◌, ltb, leb, ltb_ℤ,
  eqb_ℤ, if◌then◌else◌, Option, none, some, is_none, holds, List, [], ◌∷◌, map, take, keep, elem,
  update_where, count_if, Result, ok, value_error, ◌>>=◌, ◌>>◌, raise_if,
}
use llama_index_rag.Base.Sort.{sort_by}
use llama_index_rag.Domain.Message.{Value, Payload, JobMessage, with_tenant, tenant_conflict}

pub record OutboxRecord : Type 0 where
  pub id : Key
  pub tenant_id : Key
  pub kind : String
  pub correlation_id : Key
  pub payload : Payload
  pub priority : ℤ
  pub attempts : ℕ
  pub max_attempts : ℕ
  pub available_at : Time
  pub published_at : Option Time
  pub poisoned_at : Option Time
  pub claimed_by : Option Key
  pub claim_expires_at : Option Time
  pub last_error : Option String
  pub created_at : Time

-- What the callers of `add` give; `priority=0` and `max_attempts=3` are defaults.
pub record Draft : Type 0 where
  pub tenant_id : Key
  pub kind : String
  pub correlation_id : Key
  pub payload : Payload
  pub priority : ℤ
  pub max_attempts : ℕ

-- The row that `add` makes, with the columns' defaults.
unfoldable pub new_row : Key → Time → Draft → OutboxRecord
unfolding with_tenant
new_row fresh now draft = record {
  id = fresh;
  tenant_id = draft.tenant_id;
  kind = draft.kind;
  correlation_id = draft.correlation_id;
  payload = with_tenant draft.tenant_id draft.payload;
  priority = draft.priority;
  attempts = 0;
  max_attempts = draft.max_attempts;
  available_at = now;
  published_at = none;
  poisoned_at = none;
  claimed_by = none;
  claim_expires_at = none;
  last_error = none;
  created_at = now;
}

-- `OutboxService.add`. `fresh` is what `new_id` gives.
unfoldable pub add :
    (Value → Key)
    → Key
    → Time
    → Draft
    → List OutboxRecord
    → Result (OutboxRecord × List OutboxRecord)
add str fresh now draft outbox =
    raise_if (tenant_conflict str draft.tenant_id draft.payload) value_error
    >> ok (new_row fresh now draft, new_row fresh now draft ∷ outbox)

-- A dispatcher: who it is, and for how long it claims.
pub record Dispatcher : Type 0 where
  pub dispatcher_id : Key
  pub claim_seconds : ℕ

-- The conditions of `_pending_statement`. A comparison with NULL is not true; `locked` tells the
-- rows that other transactions hold, which SKIP LOCKED passes over.
unfoldable pub pending_test : (Key → Bool) → Time → Option Key → OutboxRecord → Bool
pending_test locked now tenant_id r =
    is_none r.published_at
    && (is_none r.poisoned_at
        && (leb r.available_at now
            && ((is_none r.claimed_by || holds (λ t. leb t now) r.claim_expires_at)
                && ((is_none tenant_id || holds (λ t. r.tenant_id == t) tenant_id)
                    && not (locked r.id)))))

-- `ORDER BY priority DESC, created_at`.
abbrev pub later_row : OutboxRecord → OutboxRecord → Bool
later_row a b =
    ltb_ℤ a.priority b.priority || (eqb_ℤ a.priority b.priority && ltb b.created_at a.created_at)

unfoldable pub pending_rows :
    (Key → Bool) → Time → ℕ → Option Key → List OutboxRecord → List OutboxRecord
pending_rows locked now limit tenant_id outbox =
    take limit (sort_by later_row (keep (pending_test locked now tenant_id) outbox))

-- The message that a claimed row stands for. Its payload names its tenant already.
abbrev pub message_of : OutboxRecord → JobMessage
message_of r = record {
  id = r.id;
  kind = r.kind;
  tenant_id = r.tenant_id;
  correlation_id = r.correlation_id;
  payload = r.payload;
  priority = r.priority;
  attempt = r.attempts;
  max_attempts = r.max_attempts;
  created_at = r.created_at;
}

abbrev pub ids_of : List OutboxRecord → List Key
ids_of rows = map (λ r. r.id) rows

abbrev pub claimed_row : Dispatcher → Time → OutboxRecord → OutboxRecord
claimed_row d now r = record r {
  claimed_by = some d.dispatcher_id;
  claim_expires_at = some (now + d.claim_seconds);
}

-- The first transaction of `dispatch_batch`: the selected rows are claimed.
unfoldable pub claim_batch :
    Dispatcher
    → (Key → Bool)
    → Time
    → ℕ
    → Option Key
    → List OutboxRecord
    → List JobMessage × List OutboxRecord
claim_batch d locked now limit tenant_id outbox =
    let rows = pending_rows locked now limit tenant_id outbox in
    (
      map message_of rows,
      update_where (λ r. elem r.id (ids_of rows) && pending_test locked now tenant_id r)
          (claimed_row d now) outbox,
    )

-- `WHERE id = ... AND claimed_by = self AND published_at IS NULL`.
abbrev pub own_unpublished : Dispatcher → JobMessage → OutboxRecord → Bool
own_unpublished d m r =
    r.id == m.id && (holds (λ c. c == d.dispatcher_id) r.claimed_by && is_none r.published_at)

-- The transaction after a successful `publish`, and the number of rows that it touched.
unfoldable pub mark_published :
    Dispatcher → Time → JobMessage → List OutboxRecord → ℕ × List OutboxRecord
mark_published d now m outbox = (
  count_if (own_unpublished d m) outbox,
  update_where (own_unpublished d m)
      (λ r. record r { published_at = some now; claimed_by = none; claim_expires_at = none })
      outbox,
)

-- `next_attempt >= message.max_attempts`.
abbrev pub exhausted : JobMessage → Bool
exhausted m = leb m.max_attempts (m.attempt + 1)

-- `WHERE id = ... AND claimed_by = self`.
abbrev pub own_row : Dispatcher → JobMessage → OutboxRecord → Bool
own_row d m r = r.id == m.id && holds (λ c. c == d.dispatcher_id) r.claimed_by

-- The new values of a row whose publication failed: another attempt after `2 ** next_attempt`
-- seconds, or the poison mark.
abbrev pub failure_values : Time → JobMessage → OutboxRecord → OutboxRecord
failure_values now m r =
    let base : OutboxRecord = record r {
      attempts = m.attempt + 1;
      claimed_by = none;
      claim_expires_at = none;
      last_error = some "queue publish failed";
    } in
    if exhausted m
    then record base { poisoned_at = some now }
    else record base { available_at = now + 2 ^ (m.attempt + 1) }

-- The handler of an exception, and the number that it adds to `poisoned`.
unfoldable pub mark_failed :
    Dispatcher → Time → JobMessage → List OutboxRecord → ℕ × List OutboxRecord
mark_failed d now m outbox =
    (if exhausted m then 1 else 0, update_where (own_row d m) (failure_values now m) outbox)

-- How one publication goes: the broker takes the message and the row is marked; the broker takes
-- it and the marking raises; the broker refuses it.
pub data Delivery : Type 0 where
  recorded unrecorded refused : Delivery

-- The counts of `dispatch_batch`, the table and the messages that the broker took, latest first.
pub record Progress : Type 0 where
  pub published : ℕ
  pub poisoned : ℕ
  pub outbox : List OutboxRecord
  pub taken : List Key

unfoldable pub settle : Dispatcher → Time → JobMessage → Delivery → Progress → Progress
unfolding mark_published mark_failed
settle d now m recorded p =
    let (n, outbox) = mark_published d now m p.outbox in
    record p { published = p.published + n; outbox = outbox; taken = m.id ∷ p.taken }
settle d now m unrecorded p =
    let (n, outbox) = mark_failed d now m p.outbox in
    record p { poisoned = p.poisoned + n; outbox = outbox; taken = m.id ∷ p.taken }
settle d now m refused p =
    let (n, outbox) = mark_failed d now m p.outbox in
    record p { poisoned = p.poisoned + n; outbox = outbox }

-- The loop over the claimed messages, where nobody else touches the table meanwhile. `delivery`
-- says how the publication of each message goes, and when it ends.
unfoldable pub settle_all :
    Dispatcher → (Key → Delivery × Time) → List JobMessage → Progress → Progress
settle_all d delivery [] p = p
settle_all d delivery (m ∷ ms) p =
    settle_all d delivery ms (settle d (delivery m.id).1 m (delivery m.id).0 p)

unfoldable pub dispatch_batch :
    Dispatcher
    → (Key → Bool)
    → Time
    → ℕ
    → Option Key
    → (Key → Delivery × Time)
    → List OutboxRecord
    → Progress
unfolding claim_batch settle_all
dispatch_batch d locked now limit tenant_id delivery outbox =
    let (messages, claimed) = claim_batch d locked now limit tenant_id outbox in
    settle_all d delivery messages
      (record { published = 0; poisoned = 0; outbox = claimed; taken = [] })

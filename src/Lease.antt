-- ===== src/Lease.antt =====
-- Leases on ingestion tasks (backend/enterprise_rag/application/task_leases.py:TaskLeaseService).
-- A job is found by its primary key; `locked` tells the rows that other transactions hold, which
-- SKIP LOCKED passes over. The time of a call is an argument.
pub mod Table
pub mod Events
pub mod Ownership
pub mod Recovery
pub mod Backoff
mod Tests
use Prim.Native.String.{String}
use llama_index_rag.Base.{
  Key, Time, ℕ, zero, suc, ◌+◌, ◌-◌, ◌*◌, ◌^◌, ℤ, Bool, true, false, not, ◌&&◌, ◌||◌, ◌==◌, leb,
  ltb, if◌then◌else◌, Option, none, some, is_none, holds, List, [], ◌∷◌, Result, ok, err, ◌>>=◌,
}
use llama_index_rag.Domain.Message.{Value, null, word, Payload, get, contains}
use llama_index_rag.Outbox.{OutboxRecord, Draft, add}
use Table.{find_by, put_by}

pub data JobStatus : Type 0 where
  queued running succeeded failed cancelled superseded : JobStatus

-- The stages that this service writes, and those of the ingestion itself.
pub data Stage : Type 0 where
  retry_scheduled retry_exhausted stage_cancelled : Stage
  other_stage : Key → Stage

pub data ErrorClass : Type 0 where
  transient : ErrorClass
  other_class : Key → ErrorClass

pub record IngestionJob : Type 0 where
  pub id : Key
  pub tenant_id : Key
  pub document_id : Option Key
  pub document_version_id : Option Key
  pub status : JobStatus
  pub stage : Stage
  pub correlation_id : Key
  pub priority : ℤ
  pub attempt_count : ℕ
  pub max_attempts : ℕ
  pub cancelled : Bool
  pub error_category : Option ErrorClass
  pub error_message : Option String
  pub payload : Payload
  pub claimed_by : Option Key
  pub lease_expires_at : Option Time
  pub heartbeat_at : Option Time
  pub next_attempt_at : Option Time
  pub processing_config_version_id : Option Key
  pub processing_snapshot : Value

pub record TaskLeaseService : Type 0 where
  pub worker_id : Key
  pub lease_seconds : ℕ
  pub retry_backoff_seconds : ℕ

abbrev pub is_running : JobStatus → Bool
is_running running = true
is_running _ = false

-- `status IN ("queued", "running")`.
abbrev pub is_open : JobStatus → Bool
is_open queued = true
is_open running = true
is_open _ = false

-- The conditions of `claim`, but for the id.
unfoldable pub claim_test : TaskLeaseService → (Key → Bool) → Time → Key → IngestionJob → Bool
claim_test s locked now tenant_id j =
    j.tenant_id == tenant_id
    && (not j.cancelled
        && (is_open j.status
            && ((is_none j.next_attempt_at || holds (λ t. leb t now) j.next_attempt_at)
                && ((is_none j.claimed_by
                      || (holds (λ w. w == s.worker_id) j.claimed_by
                          || holds (λ t. leb t now) j.lease_expires_at))
                    && not (locked j.id)))))

abbrev pub claimed_job : TaskLeaseService → Time → IngestionJob → IngestionJob
claimed_job s now j = record j {
  claimed_by = some s.worker_id;
  lease_expires_at = some (now + s.lease_seconds);
  heartbeat_at = some now;
  next_attempt_at = none;
  status = running;
}

abbrev pub job_id_of : IngestionJob → Key
job_id_of j = j.id

-- The row that a query for one id returns, if it passes the other conditions.
abbrev pub select_job : Key → (IngestionJob → Bool) → List IngestionJob → Option IngestionJob
select_job id test jobs = elim (find_by job_id_of id jobs) [
  | none ↦ none
  | some j ↦ if test j then some j else none
]

unfoldable pub claim :
    TaskLeaseService
    → (Key → Bool)
    → Time
    → Key
    → Key
    → List IngestionJob
    → Option IngestionJob × List IngestionJob
claim s locked now job_id tenant_id jobs =
    elim (select_job job_id (claim_test s locked now tenant_id) jobs) [
      | none ↦ (none, jobs)
      | some j ↦ (some (claimed_job s now j), put_by job_id_of (claimed_job s now j) jobs)
    ]

unfoldable pub own_test : TaskLeaseService → Time → Key → IngestionJob → Bool
own_test s now tenant_id j =
    j.tenant_id == tenant_id
    && (is_running j.status
        && (holds (λ w. w == s.worker_id) j.claimed_by
            && (holds (λ t. ltb now t) j.lease_expires_at && not j.cancelled)))

unfoldable pub assert_owned : TaskLeaseService → Time → Key → Key → List IngestionJob → Bool
assert_owned s now job_id tenant_id jobs =
    not (is_none (select_job job_id (own_test s now tenant_id) jobs))

unfoldable pub heartbeat_test : TaskLeaseService → Key → IngestionJob → Bool
heartbeat_test s tenant_id j =
    j.tenant_id == tenant_id && (holds (λ w. w == s.worker_id) j.claimed_by && is_running j.status)

abbrev pub extended_job : TaskLeaseService → Time → IngestionJob → IngestionJob
extended_job s now j = record j {
  heartbeat_at = some now;
  lease_expires_at = some (now + s.lease_seconds);
}

unfoldable pub heartbeat :
    TaskLeaseService → Time → Key → Key → List IngestionJob → Bool × List IngestionJob
heartbeat s now job_id tenant_id jobs = elim (select_job job_id (heartbeat_test s tenant_id) jobs) [
  | none ↦ (false, jobs)
  | some j ↦ (true, put_by job_id_of (extended_job s now j) jobs)
]

-- The conditions of `recover_expired`.
unfoldable pub expired_test : (Key → Bool) → Time → Option Key → IngestionJob → Bool
expired_test locked now tenant_id j =
    is_running j.status
    && (holds (λ t. leb t now) j.lease_expires_at
        && ((is_none tenant_id || holds (λ t. j.tenant_id == t) tenant_id) && not (locked j.id)))

abbrev pub released : IngestionJob → IngestionJob
released j = record j { claimed_by = none; lease_expires_at = none; heartbeat_at = none }

-- The body of the loop: the new row, and whether its id joins `recovered`.
unfoldable pub recover_job : Time → IngestionJob → IngestionJob × Bool
recover_job now j =
    if j.cancelled
    then (record (released j) { status = cancelled; stage = stage_cancelled }, false)
    else if leb j.max_attempts j.attempt_count
    then (
      record (released j) {
        status = failed;
        stage = retry_exhausted;
        error_category = some transient;
        error_message = some "Worker lease expired after the retry limit.";
      },
      false,
    )
    else (
      record (released j) { status = queued; stage = retry_scheduled; next_attempt_at = some now },
      true,
    )

unfoldable pub recover_expired :
    (Key → Bool) → Time → Option Key → List IngestionJob → List Key × List IngestionJob
unfolding recover_job
recover_expired locked now tenant_id [] = ([], [])
recover_expired locked now tenant_id (j ∷ jobs) =
    let (ids, rest) = recover_expired locked now tenant_id jobs in
    let (j', again) = recover_job now j in
    if expired_test locked now tenant_id j
    then (if again then j.id ∷ ids else ids, j' ∷ rest)
    else (ids, j ∷ rest)

-- A value that may be missing.
abbrev pub maybe_word : Option Key → Value
maybe_word none = null
maybe_word (some k) = word k

-- `payload.get(name, [])`.
abbrev pub get_words : String → Payload → Value
get_words name payload = if contains name payload then get name payload else Value.words []

-- The event that makes a worker take the job up again
-- (also backend/enterprise_rag/application/worker.py:_enqueue_job).
abbrev pub retry_event : IngestionJob → Draft
retry_event j = record {
  tenant_id = j.tenant_id;
  kind = "ingestion.process";
  correlation_id = j.correlation_id;
  payload =
      ("job_id", word j.id)
      ∷ ("document_id", maybe_word j.document_id)
      ∷ ("document_version_id", maybe_word j.document_version_id)
      ∷ ("processing_config_version_id", maybe_word j.processing_config_version_id)
      ∷ ("processing_snapshot", j.processing_snapshot)
      ∷ ("authorization_epoch", get "authorization_epoch" j.payload)
      ∷ ("resource_version_id", maybe_word j.document_version_id)
      ∷ ("policy_version_ids", get_words "policy_version_ids" j.payload)
      ∷ [];
  priority = j.priority;
  max_attempts = j.max_attempts;
}

abbrev pub is_transient : Option ErrorClass → Bool
is_transient (some transient) = true
is_transient _ = false

-- `retry_backoff_seconds * 2 ** max(attempt_count - 1, 0)`; `-` stops at 0.
abbrev pub backoff : TaskLeaseService → IngestionJob → ℕ
backoff s j = s.retry_backoff_seconds * 2 ^ (j.attempt_count - 1)

abbrev pub rescheduled : Time → IngestionJob → IngestionJob
rescheduled available_at j = record (released j) {
  status = queued;
  stage = retry_scheduled;
  next_attempt_at = some available_at;
}

-- The job and the outbox after `schedule_retry`.
unfoldable pub schedule_retry :
    (Value → Key)
    → TaskLeaseService
    → Key
    → Time
    → IngestionJob
    → List OutboxRecord
    → Result (IngestionJob × List OutboxRecord)
schedule_retry str s fresh now j outbox =
    if not (is_transient j.error_category) || leb j.max_attempts j.attempt_count
    then ok (j, outbox)
    else (let available_at = now + backoff s j in
        add str fresh now (retry_event j) outbox >>= λ (event, _).
        ok (rescheduled available_at j, record event { available_at = available_at } ∷ outbox))

-- ===== src/Lease/Backoff.antt =====
-- How a failed attempt is scheduled again
-- (backend/enterprise_rag/application/task_leases.py:TaskLeaseService.schedule_retry).
use llama_index_rag.Base.{
  Key, Time, ==_refl, ◌*◌, ◌-◌, ◌^◌, ◌+◌, ◌≤◌, ◌<◌, ◌≡◌, refl, Bool, true, false, not, ◌||◌, leb,
  none, some, List, ◌∷◌, arith, ok,
}
use llama_index_rag.Domain.Message.{Value, tenant_conflict, get}
use llama_index_rag.Outbox.{OutboxRecord, add, new_row}
use llama_index_rag.Lease.Table.{find_by, put_by, find_by-put_self}
use llama_index_rag.Lease.{
  IngestionJob, TaskLeaseService, job_id_of, claim_test, rescheduled, claimed_job, claim,
  schedule_retry, backoff, retry_event, is_transient, transient,
}

claim_test-waiting :
    (s : TaskLeaseService) (locked : Key → Bool) (now due : Time) (tenant_id : Key)
    (j : IngestionJob)
    → j.next_attempt_at ≡ some due
    → now < due
    → claim_test s locked now tenant_id j ≡ false
unfolding claim_test
claim_test-waiting s locked now due tenant_id j waits early = ground (arith, waits, early)

retry_event-calm :
    (str : Value → Key) (j : IngestionJob)
    → tenant_conflict str j.tenant_id (retry_event j).payload ≡ false
unfolding get
retry_event-calm str j = refl

is_transient_lem :
    (s : TaskLeaseService) (j : IngestionJob)
    → j.error_category ≡ some transient
    → j.attempt_count < j.max_attempts
    → (not (is_transient j.error_category) || leb j.max_attempts j.attempt_count) ≡ false
is_transient_lem s j again left = ground (arith, again, left)

schedule_retry-rescheduled :
    (str : Value → Key) (s : TaskLeaseService) (fresh : Key) (now : Time) (j : IngestionJob)
    (outbox : List OutboxRecord)
    → j.error_category ≡ some transient
    → j.attempt_count < j.max_attempts
    → (outbox' : List OutboxRecord) × (schedule_retry str s fresh now j outbox
        ≡ ok (rescheduled (now + backoff s j) j, outbox'))
unfolding schedule_retry add new_row
schedule_retry-rescheduled str s fresh now j outbox again left =
    let calm = retry_event-calm str j in
    let open_test = is_transient_lem s j again left in
    (
      record (new_row fresh now (retry_event j)) { available_at = now + backoff s j } ∷ outbox,
      ground (arith, calm, open_test),
    )

claim_test-rescheduled :
    (w : TaskLeaseService) (locked : Key → Bool) (due later : Time) (j : IngestionJob)
    → j.cancelled ≡ false
    → due ≤ later
    → locked j.id ≡ false
    → claim_test w locked later j.tenant_id (rescheduled due j) ≡ true
unfolding claim_test
claim_test-rescheduled w locked due later j live reached free =
    ground (arith, live, reached, free, ==_refl j.tenant_id)

-- Before its next attempt is due, a job cannot be claimed: every claim returns nothing and leaves
-- the table as it is.
pub not_claimed_before_due :
    (s : TaskLeaseService) (locked : Key → Bool) (now due : Time) (id tenant_id : Key)
    (jobs : List IngestionJob) (j : IngestionJob)
    → find_by job_id_of id jobs ≡ some j
    → j.next_attempt_at ≡ some due
    → now < due
    → claim s locked now id tenant_id jobs ≡ (none, jobs)
unfolding claim
not_claimed_before_due s locked now due id tenant_id jobs j found waits early =
    let fails : claim_test s locked now tenant_id j ≡ false =
      claim_test-waiting s locked now due tenant_id j waits early in
    ground (arith, found, fails)

-- The retry of a stored job whose last error is transient and that has an attempt left succeeds, and
-- in the table with its new row no worker can claim the job until the delay has passed, which is
-- the base delay times two to the power of the attempts before the last one: such a claim returns
-- nothing and changes nothing. From then on any worker can, if the job is not cancelled and its row
-- is not locked.
pub retried_job_waits :
    (str : Value → Key) (s : TaskLeaseService) (fresh : Key) (now : Time) (j : IngestionJob)
    (jobs : List IngestionJob) (outbox : List OutboxRecord)
    → find_by job_id_of j.id jobs ≡ some j
    → j.error_category ≡ some transient
    → j.attempt_count < j.max_attempts
    → (j' : IngestionJob) × ((outbox' : List OutboxRecord) × ((schedule_retry str s fresh now j
              outbox
            ≡ ok (j', outbox'))
          × (((w : TaskLeaseService) (locked : Key → Bool) (later : Time) (tenant_id : Key)
                → later < now + s.retry_backoff_seconds * 2 ^ (j.attempt_count - 1)
                → claim w locked later j.id tenant_id (put_by job_id_of j' jobs)
                  ≡ (none, put_by job_id_of j' jobs))
              × ((w : TaskLeaseService) (locked : Key → Bool) (later : Time)
                  → now + s.retry_backoff_seconds * 2 ^ (j.attempt_count - 1) ≤ later
                  → j.cancelled ≡ false
                  → locked j.id ≡ false
                  → (claim w locked later j.id j.tenant_id (put_by job_id_of j' jobs)).0
                    ≡ some (claimed_job w later j')))))
unfolding claim
retried_job_waits str s fresh now j jobs outbox found again left =
    let due : Time = now + backoff s j in
    let new = rescheduled due j in
    let (outbox', made) = schedule_retry-rescheduled str s fresh now j outbox again left in
    let there : find_by job_id_of j.id (put_by job_id_of new jobs) ≡ some new =
      find_by-put_self job_id_of j.id jobs new found (==_refl j.id) in
    (
      new,
      (
        outbox',
        (
          made,
          (
            λ w locked later tenant_id early.
                not_claimed_before_due w locked later due j.id tenant_id (put_by job_id_of new jobs)
                  new there refl early,
            λ w locked later reached live free.
                let passes = claim_test-rescheduled w locked due later j live reached free in
                ground (arith, there, passes),
          ),
        ),
      ),
    )

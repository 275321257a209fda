-- ===== src/Lease/Recovery.antt =====
-- What recovery leaves in the table of jobs
-- (backend/enterprise_rag/application/task_leases.py:TaskLeaseService.recover_expired).
use llama_index_rag.Base.{
  Key, Time, ◌≤◌, ◌<◌, ◌≡◌, refl, inl, inr, Bool, true, false, leb, if◌then◌else◌, Option, none,
  some, List, [], ◌∷◌, arith, Bool-cases, ==_refl,
}
use llama_index_rag.Lease.Table.{find_by}
use llama_index_rag.Lease.{
  JobStatus, queued, failed, IngestionJob, TaskLeaseService, job_id_of, claim_test, claimed_job,
  claim, expired_test, recover_job, recover_expired,
}

-- The three outcomes of a job whose lease ended: cancelled, out of attempts, or queued again.
abbrev pub settled_status : IngestionJob → JobStatus
settled_status j =
    if j.cancelled
    then JobStatus.cancelled
    else if leb j.max_attempts j.attempt_count
    then failed
    else queued

pub IsReleased : IngestionJob → IngestionJob → Type 0
IsReleased old new =
    (new.id ≡ old.id)
    × ((new.status ≡ settled_status old)
        × ((new.claimed_by ≡ none)
            × ((new.lease_expires_at ≡ none) × (new.attempt_count ≡ old.attempt_count))))

recover_job-IsReleased : (now : Time) (j : IngestionJob) → IsReleased j (recover_job now j).0
unfolding IsReleased recover_job
recover_job-IsReleased now j = elim (Bool-cases j.cancelled) [
  | inl c ↦ ground (arith, c)
  | inr c ↦ elim (Bool-cases (leb j.max_attempts j.attempt_count)) [
    | inl e ↦ ground (arith, c, e)
    | inr e ↦ ground (arith, c, e)
  ]
]

recover_job-quiet :
    (locked : Key → Bool) (now later : Time) (tenant_id : Option Key) (j : IngestionJob)
    → expired_test locked later tenant_id (recover_job now j).0 ≡ false
unfolding expired_test recover_job
recover_job-quiet locked now later tenant_id j = elim (Bool-cases j.cancelled) [
  | inl c ↦ ground (arith, c)
  | inr c ↦ elim (Bool-cases (leb j.max_attempts j.attempt_count)) [
    | inl e ↦ ground (arith, c, e)
    | inr e ↦ ground (arith, c, e)
  ]
]

-- Recovery at one time is complete: a second recovery with the same arguments finds no job and
-- changes no row.
pub recover_expired_once :
    (locked : Key → Bool) (now : Time) (tenant_id : Option Key) (jobs : List IngestionJob)
    → recover_expired locked now tenant_id (recover_expired locked now tenant_id jobs).1
      ≡ ([], (recover_expired locked now tenant_id jobs).1)
unfolding recover_expired
recover_expired_once locked now tenant_id [] = refl
recover_expired_once locked now tenant_id (j ∷ jobs) =
    let quiet : expired_test locked now tenant_id (recover_job now j).0 ≡ false =
      recover_job-quiet locked now now tenant_id j in
    ground (arith, quiet, recover_expired_once locked now tenant_id jobs)

recover_expired-finds :
    (locked : Key → Bool) (now : Time) (tenant_id : Option Key) (id : Key)
    (jobs : List IngestionJob) (j : IngestionJob)
    → find_by job_id_of id jobs ≡ some j
    → expired_test locked now tenant_id j ≡ true
    → find_by job_id_of id (recover_expired locked now tenant_id jobs).1
      ≡ some (recover_job now j).0
unfolding find_by recover_expired IsReleased
recover_expired-finds locked now tenant_id id [] j found late = cc
recover_expired-finds locked now tenant_id id (x ∷ jobs) j found late =
    let same : (recover_job now x).0.id ≡ x.id = (recover_job-IsReleased now x).0 in
    ground (arith, same, recover_expired-finds locked now tenant_id id jobs j)

claim_test-recovered :
    (held : Key → Bool) (now later : Time) (tenant_id : Option Key) (s : TaskLeaseService)
    (j : IngestionJob)
    → j.cancelled ≡ false
    → j.attempt_count < j.max_attempts
    → now ≤ later
    → held j.id ≡ false
    → claim_test s held later j.tenant_id (recover_job now j).0 ≡ true
unfolding claim_test recover_job
claim_test-recovered held now later tenant_id s j live left after free =
    ground (arith, live, left, after, free, ==_refl j.tenant_id)

-- A running job whose lease has ended, that is neither cancelled nor out of attempts and that
-- recovery sees, can be claimed by every worker from the time of the recovery on: the claim returns
-- the job with the worker as its holder, under a lease that starts at the claim.
pub recovered_job_is_claimable :
    (locked held : Key → Bool) (now later : Time) (tenant_id : Option Key) (s : TaskLeaseService)
    (jobs : List IngestionJob) (j : IngestionJob)
    → find_by job_id_of j.id jobs ≡ some j
    → expired_test locked now tenant_id j ≡ true
    → j.cancelled ≡ false
    → j.attempt_count < j.max_attempts
    → now ≤ later
    → held j.id ≡ false
    → (claim s held later j.id j.tenant_id (recover_expired locked now tenant_id jobs).1).0
      ≡ some (claimed_job s later (recover_job now j).0)
unfolding claim
recovered_job_is_claimable locked held now later tenant_id s jobs j found late live left after
      free =
    let there : find_by job_id_of j.id (recover_expired locked now tenant_id jobs).1
        ≡ some (recover_job now j).0 =
      recover_expired-finds locked now tenant_id j.id jobs j found late in
    let passes : claim_test s held later j.tenant_id (recover_job now j).0 ≡ true =
      claim_test-recovered held now later tenant_id s j live left after free in
    ground (arith, there, passes)

-- Recovery settles each running job whose lease has ended: the row of its id becomes cancelled when
-- the job was cancelled, failed when its attempts are used up and queued otherwise, with no holder
-- and no lease, and with the same count of attempts.
pub recovery_settles :
    (locked : Key → Bool) (now : Time) (tenant_id : Option Key) (id : Key)
    (jobs : List IngestionJob) (j : IngestionJob)
    → find_by job_id_of id jobs ≡ some j
    → expired_test locked now tenant_id j ≡ true
    → (new : IngestionJob) × ((find_by job_id_of id (recover_expired locked now tenant_id jobs).1
          ≡ some new)
        × IsReleased j new)
recovery_settles locked now tenant_id id jobs j found late = (
  (recover_job now j).0,
  (recover_expired-finds locked now tenant_id id jobs j found late, recover_job-IsReleased now j),
)

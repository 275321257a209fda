-- ===== src/Lease/Ownership.antt =====
-- Who holds a job under a lease (backend/enterprise_rag/application/task_leases.py).
use llama_index_rag.Base.{
  Key, Time, ◌+◌, ◌<◌, ◌≡◌, refl, subst, inl, inr, Bool, true, false, some, List, All, arith,
  Option-cases,
}
use llama_index_rag.Lease.Table.{find_by, put_by, find_by-key, find_by-put_self}
use llama_index_rag.Lease.{
  running, IngestionJob, TaskLeaseService, job_id_of, select_job, claim_test, claimed_job, claim,
  own_test, assert_owned,
}
use llama_index_rag.Lease.Events.{Event, run, IsForeign, IsHeld, select_job-some, run-held}

-- What a claim that returns a job has found.
pub IsWon : TaskLeaseService → Time → Key → Key → List IngestionJob → IngestionJob → Type 0
IsWon s now id tenant_id jobs j =
    (find_by job_id_of id jobs ≡ some j)
    × (IsHeld s.worker_id (now + s.lease_seconds) j
        × ((j.tenant_id ≡ tenant_id) × (j.cancelled ≡ false)))

claim_test-tenant :
    (s : TaskLeaseService) (locked : Key → Bool) (now : Time) (tenant_id : Key) (x : IngestionJob)
    → claim_test s locked now tenant_id x ≡ true
    → (x.tenant_id ≡ tenant_id) × (x.cancelled ≡ false)
unfolding claim_test
claim_test-tenant s locked now tenant_id x h = ground arith

claimed_job-IsWon :
    (s : TaskLeaseService) (locked : Key → Bool) (now : Time) (id tenant_id : Key)
    (jobs : List IngestionJob) (x : IngestionJob)
    → select_job id (claim_test s locked now tenant_id) jobs ≡ some x
    → IsWon s now id tenant_id (put_by job_id_of (claimed_job s now x) jobs) (claimed_job s now x)
unfolding IsWon
claimed_job-IsWon s locked now id tenant_id jobs x h =
    let (hit, passes) = select_job-some id (claim_test s locked now tenant_id) jobs h in
    (
      find_by-put_self job_id_of id jobs (claimed_job s now x) hit
          (find_by-key job_id_of id jobs hit),
      (
        record { held_by = refl; ends = refl; runs = refl },
        claim_test-tenant s locked now tenant_id x passes,
      ),
    )

claim-IsWon :
    (s : TaskLeaseService) (locked : Key → Bool) (now : Time) (id tenant_id : Key)
    (jobs : List IngestionJob) (j : IngestionJob)
    → (claim s locked now id tenant_id jobs).0 ≡ some j
    → IsWon s now id tenant_id (claim s locked now id tenant_id jobs).1 j
unfolding claim
claim-IsWon s locked now id tenant_id jobs j h =
    elim (Option-cases (select_job id (claim_test s locked now tenant_id) jobs)) [
      | inl e ↦ ground (arith, e, h)
      | inr (x, e) ↦
          let same : claimed_job s now x ≡ j = ground (arith, e, h) in
          let after : put_by job_id_of (claimed_job s now x) jobs
              ≡ (claim s locked now id tenant_id jobs).1 =
            ground (arith, e) in
          subst (λ js. IsWon s now id tenant_id js j) after
            (subst (λ y. IsWon s now id tenant_id (put_by job_id_of (claimed_job s now x) jobs) y)
              same (claimed_job-IsWon s locked now id tenant_id jobs x e))
    ]

own_test-held :
    (s : TaskLeaseService) (end later : Time) (tenant_id : Key) (j : IngestionJob)
    → IsHeld s.worker_id end j
    → j.tenant_id ≡ tenant_id
    → j.cancelled ≡ false
    → later < end
    → own_test s later tenant_id j ≡ true
unfolding own_test
own_test-held s end later tenant_id j h ours live early =
    let by : j.claimed_by ≡ some s.worker_id = h.held_by in
    let till : j.lease_expires_at ≡ some end = h.ends in
    let going : j.status ≡ running = h.runs in ground (arith, by, till, going, ours, live, early)

assert_owned-held :
    (s : TaskLeaseService) (later : Time) (id tenant_id : Key) (jobs : List IngestionJob)
    (j : IngestionJob)
    → find_by job_id_of id jobs ≡ some j
    → own_test s later tenant_id j ≡ true
    → assert_owned s later id tenant_id jobs ≡ true
unfolding assert_owned
assert_owned-held s later id tenant_id jobs j found owns = ground (arith, found, owns)

-- A worker that has claimed a job still owns it at every time before its lease ends, under any
-- claims of other workers and recoveries before that end, heartbeats of other workers, and ends and
-- retries of attempts at other jobs: its row is unchanged, and the ownership check answers true.
-- The end or the retry of another worker's attempt at the same job is left out, as it writes the
-- row without a check.
pub claim_excludes_others :
    (s : TaskLeaseService) (locked : Key → Bool) (now later : Time) (id tenant_id : Key)
    (jobs : List IngestionJob) (j : IngestionJob) (es : List Event)
    → (claim s locked now id tenant_id jobs).0 ≡ some j
    → All (IsForeign s.worker_id id (now + s.lease_seconds)) es
    → later < now + s.lease_seconds
    → (find_by job_id_of id (run (claim s locked now id tenant_id jobs).1 es) ≡ some j)
      × (assert_owned s later id tenant_id (run (claim s locked now id tenant_id jobs).1 es) ≡ true)
unfolding IsWon
claim_excludes_others s locked now later id tenant_id jobs j es won foreign early =
    let end : Time = now + s.lease_seconds in
    let (found, (held, (ours, live))) = claim-IsWon s locked now id tenant_id jobs j won in
    let stays : find_by job_id_of id (run (claim s locked now id tenant_id jobs).1 es) ≡ some j =
      run-held s.worker_id end id (claim s locked now id tenant_id jobs).1 j es foreign found
        held in
    (
      stays,
      assert_owned-held s later id tenant_id (run (claim s locked now id tenant_id jobs).1 es) j
          stays (own_test-held s end later tenant_id j held ours live early),
    )

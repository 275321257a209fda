-- ===== src/Lease/Events.antt =====
-- A held job among the events of other workers and of the recovery loop
-- (backend/enterprise_rag/application/task_leases.py).
use llama_index_rag.Base.{
  Key, Time, ◌<◌, ◌≡◌, refl, sym, ◌∙◌, ap, subst, inl, inr, Bool, true, false, ◌==◌, leb, not, ◌||◌,
  ◌+◌, if◌then◌else◌, none, Option, some, List, [], ◌∷◌, All, arith, Bool-cases, Option-cases,
  eq_of_==,
}
use llama_index_rag.Lease.Table.{find_by, put_by, find_by-key, find_by-put_other}
use llama_index_rag.Lease.{
  running, IngestionJob, TaskLeaseService, job_id_of, select_job, claim_test, claimed_job, claim,
  heartbeat_test, extended_job, heartbeat, expired_test, recover_job, recover_expired, is_transient,
  backoff, rescheduled,
}

-- What workers and the recovery loop do with the table of jobs. A failed attempt is scheduled again
-- by the worker that processed it, from its own copy of the row; the processing of a job writes its
-- row, with whatever contents. Neither checks who holds the job.
pub data Event : Type 0 where
  claims : TaskLeaseService → (Key → Bool) → Time → Key → Key → Event
  beats : TaskLeaseService → Time → Key → Key → Event
  recovers : (Key → Bool) → Time → Option Key → Event
  retries : TaskLeaseService → Time → IngestionJob → Event
  writes : IngestionJob → Event

-- The row after `schedule_retry`, which was given a copy of it.
pub retried : TaskLeaseService → Time → IngestionJob → IngestionJob → IngestionJob
retried s now copy row =
    if not (is_transient copy.error_category) || leb copy.max_attempts copy.attempt_count
    then row
    else rescheduled (now + backoff s copy) row

pub step : List IngestionJob → Event → List IngestionJob
step jobs (claims s locked now id tenant_id) = (claim s locked now id tenant_id jobs).1
step jobs (beats s now id tenant_id) = (heartbeat s now id tenant_id jobs).1
step jobs (recovers locked now tenant_id) = (recover_expired locked now tenant_id jobs).1
step jobs (retries s now copy) = elim (find_by job_id_of copy.id jobs) [
  | none ↦ jobs
  | some row ↦ put_by job_id_of (retried s now copy row) jobs
]
step jobs (writes row) = put_by job_id_of row jobs

pub run : List IngestionJob → List Event → List IngestionJob
run jobs [] = jobs
run jobs (e ∷ es) = run (step jobs e) es

-- A claim of another worker or a recovery before the given time, a heartbeat of another worker, or
-- the end of an attempt at another job than the given one.
abbrev pub IsForeign : Key → Key → Time → Event → Type 0
IsForeign worker id end (claims s locked now other tenant_id) =
    ((worker == s.worker_id) ≡ false) × (now < end)
IsForeign worker id end (beats s now other tenant_id) = (worker == s.worker_id) ≡ false
IsForeign worker id end (recovers locked now tenant_id) = now < end
IsForeign worker id end (retries s now copy) = (copy.id == id) ≡ false
IsForeign worker id end (writes row) = (row.id == id) ≡ false

-- The job is run by the worker, under a lease up to the given time.
pub record IsHeld (worker : Key) (end : Time) (j : IngestionJob) : Type 0 where
  pub held_by : j.claimed_by ≡ some worker
  pub ends : j.lease_expires_at ≡ some end
  pub runs : j.status ≡ running

pub select_job-some :
    (id : Key) (test : IngestionJob → Bool) (jobs : List IngestionJob) {j : IngestionJob}
    → select_job id test jobs ≡ some j
    → (find_by job_id_of id jobs ≡ some j) × (test j ≡ true)
select_job-some id test jobs {j} h = elim (Option-cases (find_by job_id_of id jobs)) [
  | inl e ↦ ground (arith, e)
  | inr (x, e) ↦ elim (Bool-cases (test x)) [
    | inl t ↦
        let same : x ≡ j = ground (arith, e, t) in
        (e ∙ ap some same, subst (λ y. test y ≡ true) same t)
    | inr t ↦ ground (arith, e, t)
  ]
]

-- A row that fails the test of a query stays, when the row that the query finds is replaced.
pub keeps_row :
    (id other : Key) (test : IngestionJob → Bool) (f : IngestionJob → IngestionJob)
    (jobs : List IngestionJob) (j : IngestionJob)
    → ((x : IngestionJob) → (f x).id ≡ x.id)
    → find_by job_id_of id jobs ≡ some j
    → test j ≡ false
    → (x : IngestionJob) → select_job other test jobs ≡ some x
    → find_by job_id_of id (put_by job_id_of (f x) jobs) ≡ some j
keeps_row id other test f jobs j same found fails x h =
    let (hit, passes) = select_job-some other test jobs h in
    elim (Bool-cases ((f x).id == id)) [
      | inl e ↦
          (let at_other : (x.id == other) ≡ true = find_by-key job_id_of other jobs hit in
            let meant : x.id ≡ id = sym (same x) ∙ eq_of_== (f x).id id e in
            let there : find_by job_id_of id jobs ≡ some x =
              subst (λ k. find_by job_id_of k jobs ≡ some x)
                (sym (eq_of_== x.id other at_other) ∙ meant) hit in
            let twin : some x ≡ some j = sym there ∙ found in
            let fault : true ≡ false = sym passes ∙ ground (arith, twin, fails) in
            ground (arith, fault))
      | inr e ↦ find_by-put_other job_id_of id jobs (f x) e ∙ found
    ]

-- The test of another worker's claim fails on a job that is held.
claim_test-held :
    (worker : Key) (end : Time) (s : TaskLeaseService) (locked : Key → Bool) (now : Time)
    (tenant_id : Key) (j : IngestionJob)
    → (worker == s.worker_id) ≡ false
    → now < end
    → IsHeld worker end j
    → claim_test s locked now tenant_id j ≡ false
unfolding claim_test
claim_test-held worker end s locked now tenant_id j other early h =
    let by : j.claimed_by ≡ some worker = h.held_by in
    let till : j.lease_expires_at ≡ some end = h.ends in ground (arith, by, till, other, early)

heartbeat_test-held :
    (worker : Key) (end : Time) (s : TaskLeaseService) (tenant_id : Key) (j : IngestionJob)
    → (worker == s.worker_id) ≡ false
    → IsHeld worker end j
    → heartbeat_test s tenant_id j ≡ false
unfolding heartbeat_test
heartbeat_test-held worker end s tenant_id j other h =
    let by : j.claimed_by ≡ some worker = h.held_by in ground (arith, by, other)

expired_test-held :
    (worker : Key) (end : Time) (locked : Key → Bool) (now : Time) (tenant_id : Option Key)
    (j : IngestionJob)
    → now < end
    → IsHeld worker end j
    → expired_test locked now tenant_id j ≡ false
unfolding expired_test
expired_test-held worker end locked now tenant_id j early h =
    let till : j.lease_expires_at ≡ some end = h.ends in ground (arith, till, early)

recover_job-id : (now : Time) (j : IngestionJob) → (recover_job now j).0.id ≡ j.id
unfolding recover_job
recover_job-id now j = elim (Bool-cases j.cancelled) [
  | inl c ↦ ground (arith, c)
  | inr c ↦ elim (Bool-cases (leb j.max_attempts j.attempt_count)) [
    | inl e ↦ ground (arith, c, e)
    | inr e ↦ ground (arith, c, e)
  ]
]

pub recover_expired-keeps :
    (locked : Key → Bool) (now : Time) (tenant_id : Option Key) (id : Key)
    (jobs : List IngestionJob) (j : IngestionJob)
    → find_by job_id_of id jobs ≡ some j
    → expired_test locked now tenant_id j ≡ false
    → find_by job_id_of id (recover_expired locked now tenant_id jobs).1 ≡ some j
unfolding find_by recover_expired
recover_expired-keeps locked now tenant_id id [] j found fresh = cc
recover_expired-keeps locked now tenant_id id (x ∷ jobs) j found fresh =
    let same : (recover_job now x).0.id ≡ x.id = recover_job-id now x in
    ground (arith, same, recover_expired-keeps locked now tenant_id id jobs j)

retried-id :
    (s : TaskLeaseService) (now : Time) (copy row : IngestionJob)
    → (retried s now copy row).id ≡ row.id
unfolding retried
retried-id s now copy row =
    elim (Bool-cases
      (not (is_transient copy.error_category) || leb copy.max_attempts copy.attempt_count)) [
        | inl h ↦ rw h refl
        | inr h ↦ rw h refl
      ]

step-held :
    (worker : Key) (end : Time) (id : Key) (jobs : List IngestionJob) (j : IngestionJob) (e : Event)
    → IsForeign worker id end e
    → find_by job_id_of id jobs ≡ some j
    → IsHeld worker end j
    → find_by job_id_of id (step jobs e) ≡ some j
unfolding step claim heartbeat
step-held worker end id jobs j (claims s locked now other tenant_id) (foreign, early) found h =
    let fails : claim_test s locked now tenant_id j ≡ false =
      claim_test-held worker end s locked now tenant_id j foreign early h in
    elim (Option-cases (select_job other (claim_test s locked now tenant_id) jobs)) [
      | inl e ↦ ground (arith, e, found)
      | inr (x, e) ↦ ground (
        arith,
        e,
        keeps_row id other (claim_test s locked now tenant_id) (claimed_job s now) jobs j
            (λ y. refl) found fails x e,
      )
    ]
step-held worker end id jobs j (beats s now other tenant_id) foreign found h =
    let fails : heartbeat_test s tenant_id j ≡ false =
      heartbeat_test-held worker end s tenant_id j foreign h in
    elim (Option-cases (select_job other (heartbeat_test s tenant_id) jobs)) [
      | inl e ↦ ground (arith, e, found)
      | inr (x, e) ↦ ground (
        arith,
        e,
        keeps_row id other (heartbeat_test s tenant_id) (extended_job s now) jobs j (λ y. refl)
            found fails x e,
      )
    ]
step-held worker end id jobs j (recovers locked now tenant_id) early found h =
    recover_expired-keeps locked now tenant_id id jobs j found
      (expired_test-held worker end locked now tenant_id j early h)
step-held worker end id jobs j (retries s now copy) apart found h =
    elim (Option-cases (find_by job_id_of copy.id jobs)) [
      | inl missing ↦ ground (arith, missing, found)
      | inr (row, there) ↦
          let same : row.id ≡ copy.id =
            eq_of_== row.id copy.id (find_by-key job_id_of copy.id jobs there) in
          let other : ((retried s now copy row).id == id) ≡ false =
            ap (λ k. k == id) (retried-id s now copy row ∙ same) ∙ apart in
          ground (
            arith,
            there,
            find_by-put_other job_id_of id jobs (retried s now copy row) other,
            found,
          )
    ]
step-held worker end id jobs j (writes row) apart found h =
    find_by-put_other job_id_of id jobs row apart ∙ found

pub run-held :
    (worker : Key) (end : Time) (id : Key) (jobs : List IngestionJob) (j : IngestionJob)
    (es : List Event)
    → All (IsForeign worker id end) es
    → find_by job_id_of id jobs ≡ some j
    → IsHeld worker end j
    → find_by job_id_of id (run jobs es) ≡ some j
unfolding run
run-held worker end id jobs j [] a found h = found
run-held worker end id jobs j (e ∷ es) (foreign, rest) found h =
    run-held worker end id (step jobs e) j es rest
      (step-held worker end id jobs j e foreign found h) h

-- ===== src/Lease/Tests.antt =====
-- Examples of leases.
use llama_index_rag.Base.{
  Key, Time, ◌*◌, ◌-◌, ◌^◌, ◌<◌, ◌+◌, ◌≤◌, ◌≡◌, refl, pos, Bool, List, [], ◌∷◌, none, some, All,
  true, false, arith, ok,
}
use llama_index_rag.Domain.Message.{Value, null, word}
use llama_index_rag.Outbox.{OutboxRecord}
use llama_index_rag.Lease.Table.{find_by, put_by}
use llama_index_rag.Lease.{
  queued, other_stage, transient, IngestionJob, TaskLeaseService, job_id_of, claim_test,
  claimed_job, claim, assert_owned, expired_test, recover_job, recover_expired, schedule_retry,
}
use llama_index_rag.Lease.Events.{Event, claims, beats, recovers, retries, writes, run, IsForeign}
use llama_index_rag.Lease.Ownership.{claim_excludes_others}
use llama_index_rag.Lease.Recovery.{
  IsReleased, recover_expired_once, recovered_job_is_claimable, recovery_settles,
}
use llama_index_rag.Lease.Backoff.{retried_job_waits, not_claimed_before_due}

abbrev queued_job : IngestionJob
queued_job = record {
  id = 1;
  tenant_id = 7;
  document_id = some 2;
  document_version_id = some 3;
  status = queued;
  stage = other_stage 0;
  correlation_id = 4;
  priority = pos 0;
  attempt_count = 1;
  max_attempts = 3;
  cancelled = false;
  error_category = none;
  error_message = none;
  payload = [];
  claimed_by = none;
  lease_expires_at = none;
  heartbeat_at = none;
  next_attempt_at = none;
  processing_config_version_id = none;
  processing_snapshot = null;
}

abbrev first_worker : TaskLeaseService
first_worker = record { worker_id = 50; lease_seconds = 120; retry_backoff_seconds = 2 }

abbrev second_worker : TaskLeaseService
second_worker = record { worker_id = 51; lease_seconds = 120; retry_backoff_seconds = 2 }

abbrev free : Key → Bool
free k = false

abbrev held_job : IngestionJob
held_job = claimed_job first_worker 10 queued_job

claims_queued_job : (claim first_worker free 10 1 7 (queued_job ∷ [])).0 ≡ some held_job
unfolding claim claim_test find_by
claims_queued_job = refl

-- Another worker claims and beats, the recovery loop runs, and another job is retried and written,
-- while the lease lasts.
abbrev other_job : IngestionJob
other_job = record queued_job { id = 2; error_category = some transient }

abbrev disturbances : List Event
disturbances =
    claims second_worker free 20 1 7
    ∷ beats second_worker 30 1 7
    ∷ recovers free 40 none
    ∷ retries second_worker 50 other_job
    ∷ writes other_job
    ∷ []

disturbances-IsForeign : All (IsForeign 50 1 130) disturbances
disturbances-IsForeign = ((refl, omega arith), (refl, (omega arith, (refl, (refl, tt)))))

claim_excludes_others_example :
    (find_by job_id_of 1 (run (claim first_worker free 10 1 7 (queued_job ∷ [])).1 disturbances)
      ≡ some held_job)
    × (assert_owned first_worker 129 1 7
          (run (claim first_worker free 10 1 7 (queued_job ∷ [])).1 disturbances)
        ≡ true)
claim_excludes_others_example =
    claim_excludes_others first_worker free 10 129 1 7 (queued_job ∷ []) held_job disturbances
      claims_queued_job disturbances-IsForeign (omega arith)

recover_expired_once_test :
    recover_expired free 130 none (recover_expired free 130 none (held_job ∷ [])).1
    ≡ ([], (recover_expired free 130 none (held_job ∷ [])).1)
recover_expired_once_test = recover_expired_once free 130 none (held_job ∷ [])

finds_held_job : find_by job_id_of 1 (held_job ∷ []) ≡ some held_job
unfolding find_by
finds_held_job = refl

held_job_expires : expired_test free 130 none held_job ≡ true
unfolding expired_test
held_job_expires = refl

recovered_job_is_claimable_example :
    (claim second_worker free 140 1 7 (recover_expired free 130 none (held_job ∷ [])).1).0
    ≡ some (claimed_job second_worker 140 (recover_job 130 held_job).0)
recovered_job_is_claimable_example =
    recovered_job_is_claimable free free 130 140 none second_worker (held_job ∷ []) held_job
      finds_held_job held_job_expires refl (omega arith) (omega arith) refl

recovery_settles_test :
    (new : IngestionJob) × ((find_by job_id_of 1 (recover_expired free 130 none (held_job ∷ [])).1
        ≡ some new)
      × IsReleased held_job new)
recovery_settles_test =
    recovery_settles free 130 none 1 (held_job ∷ []) held_job finds_held_job held_job_expires

abbrev failing_job : IngestionJob
failing_job = record held_job { error_category = some transient }

abbrev text_of : Value → Key
text_of (word k) = k
text_of _ = 0

finds_failing_job : find_by job_id_of 1 (failing_job ∷ []) ≡ some failing_job
unfolding find_by
finds_failing_job = refl

retried_job_waits_example :
    (j' : IngestionJob) × ((outbox' : List OutboxRecord) × ((schedule_retry text_of first_worker 60
            20 failing_job []
          ≡ ok (j', outbox'))
        × (((w : TaskLeaseService) (locked : Key → Bool) (later : Time) (tenant_id : Key)
              → later < 20 + first_worker.retry_backoff_seconds * 2 ^ (1 - 1)
              → claim w locked later 1 tenant_id (put_by job_id_of j' (failing_job ∷ []))
                ≡ (none, put_by job_id_of j' (failing_job ∷ [])))
            × ((w : TaskLeaseService) (locked : Key → Bool) (later : Time)
                → 20 + first_worker.retry_backoff_seconds * 2 ^ (1 - 1) ≤ later
                → failing_job.cancelled ≡ false
                → locked 1 ≡ false
                → (claim w locked later 1 7 (put_by job_id_of j' (failing_job ∷ []))).0
                  ≡ some (claimed_job w later j')))))
retried_job_waits_example =
    retried_job_waits text_of first_worker 60 20 failing_job (failing_job ∷ []) [] finds_failing_job
      refl (omega arith)

abbrev waiting_job : IngestionJob
waiting_job = record queued_job { next_attempt_at = some 30 }

finds_waiting_job : find_by job_id_of 1 (waiting_job ∷ []) ≡ some waiting_job
unfolding find_by
finds_waiting_job = refl

not_claimed_before_due_test :
    claim second_worker free 29 1 7 (waiting_job ∷ []) ≡ (none, waiting_job ∷ [])
not_claimed_before_due_test =
    not_claimed_before_due second_worker free 29 30 1 7 (waiting_job ∷ []) waiting_job
      finds_waiting_job refl (omega arith)

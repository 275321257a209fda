-- ===== src/Queue/Tests.antt =====
-- Examples of runs of the queue.
use llama_index_rag.Base.{Key, ℕ, ◌≡◌, refl, pos, List, [], ◌∷◌, ok, All, true, false, arith}
use llama_index_rag.Domain.Message.{JobMessage}
use llama_index_rag.Queue.{
  InProcessQueue, QueueDelivery, create, publish, done, get, get_from, extract, ack, nack,
  settled_with, raises, consume_round,
}
use llama_index_rag.Queue.Order.{TakesLeast, get-TakesLeast}
use llama_index_rag.Queue.System.{
  Event, publishes, takes, acks, nacks, admits, start, step, run, on_publish, on_take, on_ack,
  on_nack, on_admit, on_settling, on_requeued,
}
use llama_index_rag.Queue.Accounting.{Inv, AllSingle, run_balanced}
use llama_index_rag.Queue.Attempts.{Within, IsAllowedEvent, run_attempts_bounded}
use llama_index_rag.Queue.Retry.{after_publish, publish_idempotent, ack_settles, failure_requeues}

abbrev message : Key → ℕ → JobMessage
message id priority = record {
  id = id;
  kind = "ingestion.process";
  tenant_id = 1;
  correlation_id = 2;
  payload = [];
  priority = pos priority;
  attempt = 0;
  max_attempts = 2;
  created_at = 0;
}

-- A queue of two places with a low and a high priority message.
abbrev two_entries : InProcessQueue
two_entries = record {
  entries =
      record { priority = pos 5; sequence = 2; message = message 11 5 }
      ∷ record { priority = pos 0; sequence = 1; message = message 10 0 }
      ∷ [];
  sequence = 2;
  published_ids = 11 ∷ 10 ∷ [];
  unfinished = 2;
  max_size = 2;
}

publishes_two :
    publish (after_publish (publish (create 2) (message 10 0))) (message 11 5) ≡ done two_entries
unfolding publish create
publishes_two = refl

get-TakesLeast_example : TakesLeast two_entries (get two_entries)
get-TakesLeast_example = get-TakesLeast two_entries

-- A third message waits for room; the first delivery is requeued, and the second is acknowledged
-- twice.
abbrev busy : List Event
busy =
    publishes (message 10 0)
    ∷ publishes (message 11 5)
    ∷ publishes (message 12 1)
    ∷ takes
    ∷ nacks 0 20 true
    ∷ admits
    ∷ takes
    ∷ acks 1
    ∷ acks 1
    ∷ []

busy_single : AllSingle (start 2) busy
unfolding step on_publish on_take on_ack on_nack on_admit on_settling on_requeued publish get
    get_from extract ack nack create
busy_single = (tt, (tt, (tt, (tt, (refl, (tt, (tt, (refl, (refl, tt)))))))))

run_balanced_example : Inv (run (start 2) busy)
run_balanced_example = run_balanced 2 busy busy_single

-- The requeueing of a delivery waits for room, and the delivery is acknowledged meanwhile.
abbrev settles_twice : List Event
settles_twice =
    publishes (message 10 0)
    ∷ takes
    ∷ publishes (message 11 0)
    ∷ nacks 0 20 true
    ∷ acks 0
    ∷ takes
    ∷ admits
    ∷ acks 1
    ∷ takes
    ∷ acks 2
    ∷ []

-- Its retry then cannot be settled: `task_done` raises.
settles_twice-raises : (run (start 1) settles_twice).raised ≡ true
unfolding run step on_publish on_take on_ack on_nack on_admit on_settling on_requeued publish get
    get_from extract ack nack create
settles_twice-raises = refl

busy_allowed : All IsAllowedEvent busy
busy_allowed = ground arith

run_attempts_bounded_example : Within (run (start 2) busy)
run_attempts_bounded_example = run_attempts_bounded 2 busy busy_allowed

publish_idempotent_test :
    publish (after_publish (publish two_entries (message 12 1))) (message 12 3)
    ≡ done (after_publish (publish two_entries (message 12 1)))
publish_idempotent_test = publish_idempotent two_entries (message 12 1) (message 12 3) refl

abbrev taken : QueueDelivery
taken = record { message = message 9 0; settled = false }

abbrev acknowledged : QueueDelivery
acknowledged = record { message = message 9 0; settled = true }

abbrev one_less : InProcessQueue
one_less = record two_entries { unfinished = 1 }

acknowledges : ack taken two_entries ≡ ok (acknowledged, one_less)
unfolding ack
acknowledges = refl

ack_settles_test :
    (ack acknowledged one_less ≡ ok (acknowledged, one_less))
    × (nack 30 true acknowledged one_less ≡ settled_with acknowledged one_less)
ack_settles_test = ack_settles 30 true taken acknowledged two_entries one_less acknowledges

abbrev one_taken : InProcessQueue
one_taken = record {
  entries = [];
  sequence = 1;
  published_ids = 9 ∷ [];
  unfinished = 1;
  max_size = 2;
}

failure_requeues_test : consume_round 30 raises taken one_taken ≡ nack 30 true taken one_taken
failure_requeues_test = failure_requeues 30 taken one_taken refl (omega arith) refl

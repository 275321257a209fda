-- ===== src/Queue/Retry.antt =====
-- Publication, settling and the retrying consumer one step at a time
-- (backend/enterprise_rag/infrastructure/queue.py).
use llama_index_rag.Base.{
  Key, ◌<◌, ◌≡◌, inl, inr, Bool, true, false, ok, arith, Bool-cases, elem, ==_refl,
}
use llama_index_rag.Domain.Message.{JobMessage}
use llama_index_rag.Queue.{
  InProcessQueue, QueueDelivery, has_room, Published, done, waiting, publish, ack, settled_with,
  nack, raises, consume_round,
}

-- The queue that a publication leaves, whether it has returned or waits.
abbrev pub after_publish : Published → InProcessQueue
after_publish (done q) = q
after_publish (waiting q e) = q

-- Publishing a message whose id was published before, or waits to be, changes nothing.
pub publish_idempotent :
    (q : InProcessQueue) (m again : JobMessage)
    → again.id ≡ m.id
    → publish (after_publish (publish q m)) again ≡ done (after_publish (publish q m))
unfolding publish
publish_idempotent q m again same = elim (Bool-cases (elem m.id q.published_ids)) [
  | inl old ↦ rw old (rw (same, old))
  | inr new ↦ rw new (elim (Bool-cases (has_room q)) [
    | inl room ↦ rw room (rw (same, ==_refl m.id))
    | inr full ↦ rw full (rw (same, ==_refl m.id))
  ])
]

-- A delivery that was acknowledged stays as it is under every later `ack` and `nack`, and those
-- leave the queue alone.
pub ack_settles :
    (fresh : Key) (requeue : Bool) (d d' : QueueDelivery) (q q' : InProcessQueue)
    → ack d q ≡ ok (d', q')
    → (ack d' q' ≡ ok (d', q')) × (nack fresh requeue d' q' ≡ settled_with d' q')
unfolding ack nack
ack_settles fresh requeue d d' q q' h = ground arith

-- When there is room, a handler that raises has the effect of `nack` with requeueing: the same
-- retry is queued, and the delivery is settled.
pub failure_requeues :
    (fresh : Key) (d : QueueDelivery) (q : InProcessQueue)
    → d.settled ≡ false
    → 0 < q.unfinished
    → has_room q ≡ true
    → consume_round fresh raises d q ≡ nack fresh true d q
unfolding consume_round nack publish
failure_requeues fresh d q open_ busy room = ground arith

-- ===== src/Queue/System.antt =====
-- The queue among its publishers and consumers: an event loop that runs one task at a time, and
-- the tasks that wait in `put`.
use llama_index_rag.Base.{
  Key, ℕ, Bool, true, false, if◌then◌else◌, Option, none, some, List, [], ◌∷◌, ◌++◌, get_elem?, set,
  ok, err,
}
use llama_index_rag.Domain.Message.{JobMessage}
use llama_index_rag.Queue.{
  Entry, InProcessQueue, QueueDelivery, has_room, create, Published, done, waiting, put, publish,
  get, ack, Settling, settled_with, stuck, failed, finish, nack,
}

-- The queue, the deliveries in the order in which they were taken, and the tasks that wait in `put`:
-- a publisher, or the requeueing of a delivery, told by its place. While it waits the delivery is
-- not marked as settled, so that it can be settled once more; the task goes on all the same.
-- `raised` says that a `task_done` has raised.
pub record System : Type 0 where
  pub queue : InProcessQueue
  pub in_flight : List QueueDelivery
  pub pending : List (Entry × Option ℕ)
  pub raised : Bool

pub data Event : Type 0 where
  publishes : JobMessage → Event
  takes : Event
  acks : ℕ → Event
  nacks : ℕ → Key → Bool → Event
  -- The first of the waiting tasks goes on, if there is room for it.
  admits : Event

abbrev pub start : ℕ → System
start max_size = record { queue = create max_size; in_flight = []; pending = []; raised = false }

unfoldable pub on_publish : System → Published → System
on_publish s (done q) = record s { queue = q }
on_publish s (waiting q e) = record s { queue = q; pending = s.pending ++ (e, none) ∷ [] }

unfoldable pub on_take : System → Option (QueueDelivery × InProcessQueue) → System
on_take s none = s
on_take s (some (d, q)) = record s { queue = q; in_flight = s.in_flight ++ d ∷ [] }

unfoldable pub on_ack : System → ℕ → Option QueueDelivery → System
on_ack s i none = s
on_ack s i (some d) = elim (ack d s.queue) [
  | ok (d', q) ↦ record s { queue = q; in_flight = set s.in_flight i d' }
  | err e ↦ record s { in_flight = set s.in_flight i (record d { settled = true }); raised = true }
]

unfoldable pub on_settling : System → ℕ → QueueDelivery → Settling → System
on_settling s i d (settled_with d' q) = record s { queue = q; in_flight = set s.in_flight i d' }
on_settling s i d (stuck q e) = record s { queue = q; pending = s.pending ++ (e, some i) ∷ [] }
on_settling s i d (failed d' q) = record s {
  queue = q;
  in_flight = set s.in_flight i d';
  raised = true;
}

unfoldable pub on_nack : System → ℕ → Key → Bool → Option QueueDelivery → System
unfolding on_settling
on_nack s i fresh requeue none = s
on_nack s i fresh requeue (some d) = on_settling s i d (nack fresh requeue d s.queue)

-- The rest of a requeueing whose entry is in.
unfoldable pub on_requeued : System → ℕ → Option QueueDelivery → System
unfolding on_settling
on_requeued s i none = s
on_requeued s i (some d) = on_settling s i d (finish d s.queue)

unfoldable pub on_admit : System → List (Entry × Option ℕ) → System
unfolding on_requeued
on_admit s [] = s
on_admit s ((e, none) ∷ rest) =
    if has_room s.queue then record s { queue = put s.queue e; pending = rest } else s
on_admit s ((e, some i) ∷ rest) =
    if has_room s.queue
    then on_requeued (record s { queue = put s.queue e; pending = rest }) i
        (get_elem? s.in_flight i)
    else s

unfoldable pub step : System → Event → System
unfolding on_publish on_take on_ack on_nack on_admit
step s (publishes m) = on_publish s (publish s.queue m)
step s takes = on_take s (get s.queue)
step s (acks i) = on_ack s i (get_elem? s.in_flight i)
step s (nacks i fresh requeue) = on_nack s i fresh requeue (get_elem? s.in_flight i)
step s admits = on_admit s s.pending

unfoldable pub run : System → List Event → System
run s [] = s
run s (e ∷ es) = run (step s e) es

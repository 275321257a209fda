-- ===== src/Queue.antt =====
-- The in-process priority queue and the deliveries taken from it
-- (backend/enterprise_rag/infrastructure/queue.py).
pub mod Order
pub mod System
pub mod Accounting
pub mod Retry
pub mod Attempts
mod Tests
use Prim.Native.String.{String}
use llama_index_rag.Base.{
  Key, ℕ, suc, ◌+◌, ◌-◌, ℤ, Bool, true, false, not, ◌&&◌, ◌||◌, ◌==◌, ltb, leb, ltb_ℤ, eqb_ℤ,
  if◌then◌else◌, Option, none, some, List, [], ◌∷◌, length, elem, Result, ok, err, value_error,
}
use llama_index_rag.Domain.Message.{JobMessage}

-- An element of the priority queue, `(-priority, sequence, message)`.
pub record Entry : Type 0 where
  pub priority : ℤ
  pub sequence : ℕ
  pub message : JobMessage

-- `unfinished` is the counter of `asyncio.Queue` behind `task_done` and `join`.
pub record InProcessQueue : Type 0 where
  pub entries : List Entry
  pub sequence : ℕ
  pub published_ids : List Key
  pub unfinished : ℕ
  pub max_size : ℕ

-- `asyncio.Queue` puts no limit on a queue whose `maxsize` is 0.
abbrev pub has_room : InProcessQueue → Bool
has_room q = q.max_size == 0 || ltb (length q.entries) q.max_size

pub create : ℕ → InProcessQueue
create max_size = record {
  entries = [];
  sequence = 0;
  published_ids = [];
  unfinished = 0;
  max_size = max_size;
}

-- The order of the tuples `(-priority, sequence, message)`; sequence numbers do not repeat.
abbrev pub before : Entry → Entry → Bool
before a b =
    ltb_ℤ b.priority a.priority || (eqb_ℤ a.priority b.priority && ltb a.sequence b.sequence)

-- What `publish` has done when it returns or waits: `waiting` holds the entry that `put` keeps
-- back until the queue has room.
pub data Published : Type 0 where
  done : InProcessQueue → Published
  waiting : InProcessQueue → Entry → Published

-- `put_nowait` of an entry for which there is room.
abbrev pub put : InProcessQueue → Entry → InProcessQueue
put q e = record q { entries = e ∷ q.entries; unfinished = suc q.unfinished }

-- The id and the sequence number are taken before `put` is awaited.
abbrev pub register : InProcessQueue → JobMessage → InProcessQueue
register q m = record q { published_ids = m.id ∷ q.published_ids; sequence = suc q.sequence }

abbrev pub entry_of : InProcessQueue → JobMessage → Entry
entry_of q m = record { priority = m.priority; sequence = suc q.sequence; message = m }

unfoldable pub publish : InProcessQueue → JobMessage → Published
publish q m =
    if elem m.id q.published_ids
    then done q
    else if has_room q
    then done (put (register q m) (entry_of q m))
    else waiting (register q m) (entry_of q m)

-- The least element, and the rest.
unfoldable pub extract : Entry → List Entry → Entry × List Entry
extract e [] = (e, [])
extract e (x ∷ xs) =
    let (least, rest) = extract (if before x e then x else e) xs in
    (least, (if before x e then e else x) ∷ rest)

-- `settled` is `_settled`; the callbacks of a delivery of this queue are its methods.
pub record QueueDelivery : Type 0 where
  pub message : JobMessage
  pub settled : Bool

-- `get`, when there is an entry; `none` waits for one.
unfoldable pub get_from : InProcessQueue → List Entry → Option (QueueDelivery × InProcessQueue)
unfolding extract
get_from q [] = none
get_from q (e ∷ es) =
    let (least, rest) = extract e es in
    some (record { message = least.message; settled = false }, record q { entries = rest })

unfoldable pub get : InProcessQueue → Option (QueueDelivery × InProcessQueue)
unfolding get_from
get q = get_from q q.entries

-- `task_done` raises when it is called more often than there were entries.
abbrev pub task_done : InProcessQueue → Result InProcessQueue
task_done q =
    if q.unfinished == 0 then err value_error else ok (record q { unfinished = q.unfinished - 1 })

unfoldable pub ack : QueueDelivery → InProcessQueue → Result (QueueDelivery × InProcessQueue)
ack d q =
    if d.settled
    then ok (d, q)
    else (elim (task_done q) [ ok q' ↦ ok (record d { settled = true }, q') | err e ↦ err e ])

-- `replace(message, id=new_id("retry"), attempt=message.attempt + 1)`.
abbrev pub retry_of : Key → JobMessage → JobMessage
retry_of fresh m = record m { id = fresh; attempt = m.attempt + 1 }

abbrev pub may_retry : JobMessage → Bool
may_retry m = ltb (m.attempt + 1) m.max_attempts

-- What a settling has done when it returns, or the entry whose `put` it waits for, or the delivery
-- and the queue that it leaves when `task_done` raises, before which the delivery is marked.
pub data Settling : Type 0 where
  settled_with : QueueDelivery → InProcessQueue → Settling
  stuck : InProcessQueue → Entry → Settling
  failed : QueueDelivery → InProcessQueue → Settling

-- `_settled = True` and `task_done` after the callback.
abbrev pub finish : QueueDelivery → InProcessQueue → Settling
finish d q = elim (task_done q) [
  | ok q' ↦ settled_with (record d { settled = true }) q'
  | err e ↦ failed (record d { settled = true }) q
]

-- `fresh` is the id that `new_id` makes.
unfoldable pub nack : Key → Bool → QueueDelivery → InProcessQueue → Settling
unfolding publish
nack fresh requeue d q =
    if d.settled
    then settled_with d q
    else if requeue && may_retry d.message
    then (elim (publish q (retry_of fresh d.message)) [
      | done q' ↦ finish d q'
      | waiting q' e ↦ stuck q' e
    ])
    else finish d q

-- How a handler ends: it returns, raises an `Exception`, or raises another `BaseException`.
pub data Outcome : Type 0 where
  returns raises interrupted : Outcome

-- One round of `consume_with_retry`; `failed` and `interrupted` end the loop.
unfoldable pub consume_round : Key → Outcome → QueueDelivery → InProcessQueue → Settling
unfolding ack nack publish
consume_round fresh returns d q = elim (ack d q) [
  | ok (d', q') ↦ settled_with d' q'
  | err e ↦ failed (record d { settled = true }) q
]
consume_round fresh raises d q = elim (nack fresh false d q) [
  | settled_with d' q' ↦
      if may_retry d.message
      then (elim (publish q' (retry_of fresh d.message)) [
        | done q'' ↦ settled_with d' q''
        | waiting q'' e ↦ stuck q'' e
      ])
      else settled_with d' q'
  | stuck q' e ↦ stuck q' e
  | failed d' q' ↦ failed d' q'
]
consume_round fresh interrupted d q = nack fresh false d q

-- ===== src/Queue/Attempts.antt =====
-- Deliveries and the limit of attempts (backend/enterprise_rag/infrastructure/queue.py).
use llama_index_rag.Base.{
  Key, ℕ, ◌<◌, inl, inr, ◌&&◌, Bool, true, Option, none, some, List, [], ◌∷◌, All, All-append,
  All-get_elem?, All-set, get_elem?, arith, Option-cases, Bool-cases, elem,
}
use llama_index_rag.Domain.Message.{JobMessage}
use llama_index_rag.Queue.{
  Entry, InProcessQueue, QueueDelivery, create, before, extract, get_from, may_retry, retry_of,
  has_room, Published, done, waiting, put, publish, get, ack, Settling, settled_with, stuck, failed,
  finish, nack,
}
use llama_index_rag.Queue.System.{
  System, Event, publishes, takes, acks, nacks, admits, start, on_publish, on_take, on_ack,
  on_settling, on_nack, on_requeued, on_admit, step, run,
}

-- The attempt that the message stands for is one of those allowed.
abbrev pub IsAllowed : JobMessage → Type 0
IsAllowed m = m.attempt < m.max_attempts

abbrev EntryAllowed : Entry → Type 0
EntryAllowed e = IsAllowed e.message

abbrev pub DeliveryAllowed : QueueDelivery → Type 0
DeliveryAllowed d = IsAllowed d.message

abbrev HeldAllowed : Entry × Option ℕ → Type 0
HeldAllowed (e, i) = EntryAllowed e

pub record Within (s : System) : Type 0 where
  pub queued : All EntryAllowed s.queue.entries
  pub taken : All DeliveryAllowed s.in_flight
  pub held : All HeldAllowed s.pending

-- The publications that the environment makes are first attempts within the limit.
abbrev pub IsAllowedEvent : Event → Type 0
IsAllowedEvent (publishes m) = IsAllowed m
IsAllowedEvent _ = Unit {0}

-- What a publication gives, when its message and what was queued are allowed.
abbrev PublishedAllowed : Published → Type 0
PublishedAllowed (done q) = All EntryAllowed q.entries
PublishedAllowed (waiting q e) = All EntryAllowed q.entries × EntryAllowed e

publish-Allowed :
    (q : InProcessQueue) (m : JobMessage)
    → All EntryAllowed q.entries
    → IsAllowed m
    → PublishedAllowed (publish q m)
unfolding publish
publish-Allowed q m h a = elim (Bool-cases (elem m.id q.published_ids)) [
  | inl old ↦ rw old h
  | inr new ↦
      rw new
        (elim (Bool-cases (has_room q)) [ inl room ↦ rw room (a, h) | inr full ↦ rw full (h, a) ])
]

on_publish-Within :
    (s : System) (p : Published) → Within s → PublishedAllowed p → Within (on_publish s p)
unfolding on_publish
on_publish-Within s (done q) w h = record { queued = h; taken = w.taken; held = w.held }
on_publish-Within s (waiting q e) w h = record {
  queued = h.0;
  taken = w.taken;
  held = All-append HeldAllowed s.pending ((e, none) ∷ []) w.held (h.1, tt);
}

extract-Allowed :
    (e : Entry) (xs : List Entry)
    → EntryAllowed e
    → All EntryAllowed xs
    → EntryAllowed (extract e xs).0 × All EntryAllowed (extract e xs).1
unfolding extract
extract-Allowed e [] h hs = (h, tt)
extract-Allowed e (x ∷ xs) h hs = elim (Bool-cases (before x e)) [
  | inl b ↦ rw b (let (least, rest) = extract-Allowed x xs hs.0 hs.1 in (least, (h, rest)))
  | inr b ↦ rw b (let (least, rest) = extract-Allowed e xs h hs.1 in (least, (hs.0, rest)))
]

on_take-Within :
    (s : System) (es : List Entry)
    → Within s
    → All EntryAllowed es
    → Within (on_take s (get_from s.queue es))
unfolding on_take get_from
on_take-Within s [] w h = w
on_take-Within s (e ∷ es) w h =
    let (least, rest) = extract-Allowed e es h.0 h.1 in
    record {
      queued = rest;
      taken = All-append DeliveryAllowed s.in_flight _ w.taken (least, tt);
      held = w.held;
    }

on_ack-Within : (s : System) (i : ℕ) → Within s → Within (on_ack s i (get_elem? s.in_flight i))
unfolding on_ack ack
on_ack-Within s i w = elim (Option-cases (get_elem? s.in_flight i)) [
  | inl e ↦ rw e w
  | inr (d, e) ↦
      let a = All-get_elem? DeliveryAllowed s.in_flight i d w.taken e in
      ground (
        arith,
        e,
        All-set DeliveryAllowed s.in_flight i d w.taken a,
        All-set DeliveryAllowed s.in_flight i (record d { settled = true }) w.taken a,
      )
]

-- What a settling gives, when the message of the delivery is allowed.
abbrev SettlingAllowed : Settling → Type 0
SettlingAllowed (settled_with d q) = DeliveryAllowed d × All EntryAllowed q.entries
SettlingAllowed (stuck q e) = All EntryAllowed q.entries × EntryAllowed e
SettlingAllowed (failed d q) = DeliveryAllowed d × All EntryAllowed q.entries

finish-Allowed :
    (d : QueueDelivery) (q : InProcessQueue)
    → DeliveryAllowed d
    → All EntryAllowed q.entries
    → SettlingAllowed (finish d q)
finish-Allowed d q a h = ground (arith, a, h)

requeue-Allowed :
    (d : QueueDelivery) (p : Published)
    → DeliveryAllowed d
    → PublishedAllowed p
    → SettlingAllowed (elim p [ done q ↦ finish d q | waiting q e ↦ stuck q e ])
requeue-Allowed d (done q) a h = finish-Allowed d q a h
requeue-Allowed d (waiting q e) a h = h

nack-Allowed :
    (fresh : Key) (requeue : Bool) (d : QueueDelivery) (q : InProcessQueue)
    → DeliveryAllowed d
    → All EntryAllowed q.entries
    → SettlingAllowed (nack fresh requeue d q)
unfolding nack
nack-Allowed fresh requeue d q a h = elim (Bool-cases d.settled) [
  | inl old ↦ simp old (a, h)
  | inr open_ ↦ simp open_ (elim (Bool-cases (requeue && may_retry d.message)) [
    | inl again ↦ simp again (
        requeue-Allowed d (publish q (retry_of fresh d.message)) a
          (publish-Allowed q (retry_of fresh d.message) h (ground arith)))
    | inr last ↦ simp last (finish-Allowed d q a h)
  ])
]

on_settling-Within :
    (s : System) (i : ℕ) (d : QueueDelivery) (r : Settling)
    → Within s
    → DeliveryAllowed d
    → SettlingAllowed r
    → Within (on_settling s i d r)
unfolding on_settling
on_settling-Within s i d (settled_with d' q) w a h = record {
  queued = h.1;
  taken = All-set DeliveryAllowed s.in_flight i d' w.taken h.0;
  held = w.held;
}
on_settling-Within s i d (stuck q e) w a h = record {
  queued = h.0;
  taken = w.taken;
  held = All-append HeldAllowed s.pending ((e, some i) ∷ []) w.held (h.1, tt);
}
on_settling-Within s i d (failed d' q) w a h = record {
  queued = h.1;
  taken = All-set DeliveryAllowed s.in_flight i d' w.taken h.0;
  held = w.held;
}

on_nack-Within :
    (s : System) (i : ℕ) (fresh : Key) (requeue : Bool)
    → Within s
    → Within (on_nack s i fresh requeue (get_elem? s.in_flight i))
unfolding on_nack
on_nack-Within s i fresh requeue w = elim (Option-cases (get_elem? s.in_flight i)) [
  | inl e ↦ rw e w
  | inr (d, e) ↦
      let a = All-get_elem? DeliveryAllowed s.in_flight i d w.taken e in
      rw e (
        on_settling-Within s i d (nack fresh requeue d s.queue) w a
          (nack-Allowed fresh requeue d s.queue a w.queued))
]

on_requeued-Within :
    (s : System) (i : ℕ) → Within s → Within (on_requeued s i (get_elem? s.in_flight i))
unfolding on_requeued
on_requeued-Within s i w = elim (Option-cases (get_elem? s.in_flight i)) [
  | inl e ↦ rw e w
  | inr (d, e) ↦
      let a = All-get_elem? DeliveryAllowed s.in_flight i d w.taken e in
      rw e (on_settling-Within s i d (finish d s.queue) w a (finish-Allowed d s.queue a w.queued))
]

on_admit-Within :
    (s : System) (ps : List (Entry × Option ℕ))
    → Within s
    → All HeldAllowed ps
    → Within (on_admit s ps)
unfolding on_admit
on_admit-Within s [] w h = w
on_admit-Within s ((e, none) ∷ rest) w h = ground arith
on_admit-Within s ((e, some i) ∷ rest) w h =
    let entered : Within (record s { queue = put s.queue e; pending = rest }) = record {
      queued = (h.0, w.queued);
      taken = w.taken;
      held = h.1;
    } in
    elim (Bool-cases (has_room s.queue)) [
      | inl room ↦
          rw room
            (on_requeued-Within (record s { queue = put s.queue e; pending = rest }) i entered)
      | inr full ↦ rw full w
    ]

step-Within : (s : System) (e : Event) → Within s → IsAllowedEvent e → Within (step s e)
unfolding step get
step-Within s (publishes m) w a =
    on_publish-Within s (publish s.queue m) w (publish-Allowed s.queue m w.queued a)
step-Within s takes w a = on_take-Within s s.queue.entries w w.queued
step-Within s (acks i) w a = on_ack-Within s i w
step-Within s (nacks i fresh requeue) w a = on_nack-Within s i fresh requeue w
step-Within s admits w a = on_admit-Within s s.pending w w.held

run-Within : (s : System) (es : List Event) → Within s → All IsAllowedEvent es → Within (run s es)
unfolding run
run-Within s [] w a = w
run-Within s (e ∷ es) w a = run-Within (step s e) es (step-Within s e w a.0) a.1

start-Within : (max_size : ℕ) → Within (start max_size)
unfolding create
start-Within max_size = record { queued = tt; taken = tt; held = tt }

-- If the messages that are published stand for allowed attempts, then so does each message that is
-- queued, delivered or waits, after any events: a retry is never made beyond `max_attempts`.
pub run_attempts_bounded :
    (max_size : ℕ) (es : List Event) → All IsAllowedEvent es → Within (run (start max_size) es)
run_attempts_bounded max_size es a = run-Within (start max_size) es (start-Within max_size) a

-- ===== src/Queue/Accounting.antt =====
-- The counter behind `task_done` and the size of the queue
-- (backend/enterprise_rag/infrastructure/queue.py:InProcessQueue).
use llama_index_rag.Base.{
  Key, ℕ, suc, ◌+◌, ◌≤◌, ◌≡◌, refl, ◌⊎◌, inl, inr, Bool, true, false, not, if◌then◌else◌, Option,
  none, some, List, [], ◌∷◌, ◌++◌, length, get_elem?, count_if, count_if-append, count_if-set, set,
  get_elem?-set_other, get_elem?-append, ◌||◌, ◌==◌, ◌∙◌, arith, subst, ◌&&◌, Option-cases,
  Bool-cases, ap, elem,
}
use llama_index_rag.Domain.Message.{JobMessage}
use llama_index_rag.Queue.{
  Entry, InProcessQueue, register, entry_of, before, may_retry, retry_of, QueueDelivery, has_room,
  create, done, waiting, put, publish, extract, get_from, get, ack, stuck, finish, nack,
}
use llama_index_rag.Queue.System.{
  System, Event, publishes, takes, acks, nacks, admits, start, on_take, on_settling, on_admit, step,
  run,
}

abbrev unsettled : QueueDelivery → Bool
unsettled d = not d.settled

-- Deliveries that are not settled yet.
abbrev pub outstanding : System → ℕ
outstanding s = count_if unsettled s.in_flight

-- A requeueing of the delivery at this place waits.
abbrev pub waits_for : ℕ → List (Entry × Option ℕ) → Bool
waits_for i [] = false
waits_for i ((e, none) ∷ rest) = waits_for i rest
waits_for i ((e, some j) ∷ rest) = i == j || waits_for i rest

-- Each requeueing that waits is of a delivery that is not settled, and the only one of it.
abbrev AllHeld : List QueueDelivery → List (Entry × Option ℕ) → Type 0
AllHeld ds [] = Unit {0}
AllHeld ds ((e, none) ∷ rest) = AllHeld ds rest
AllHeld ds ((e, some i) ∷ rest) =
    ((d : QueueDelivery) × ((get_elem? ds i ≡ some d) × (d.settled ≡ false)))
    × ((waits_for i rest ≡ false) × AllHeld ds rest)

pub record Inv (s : System) : Type 0 where
  pub balanced : s.queue.unfinished ≡ length s.queue.entries + outstanding s
  pub within : (s.queue.max_size ≡ 0) ⊎ (length s.queue.entries ≤ s.queue.max_size)
  pub never_raised : s.raised ≡ false
  pub held : AllHeld s.in_flight s.pending

-- The event does not settle a delivery whose requeueing waits.
abbrev pub IsSingle : System → Event → Type 0
IsSingle s (acks i) = waits_for i s.pending ≡ false
IsSingle s (nacks i fresh requeue) = waits_for i s.pending ≡ false
IsSingle s _ = Unit {0}

abbrev pub AllSingle : System → List Event → Type 0
AllSingle s [] = Unit {0}
AllSingle s (e ∷ es) = IsSingle s e × AllSingle (step s e) es

waits_for-none :
    (i : ℕ) (ps : List (Entry × Option ℕ)) (e : Entry)
    → waits_for i ps ≡ false
    → waits_for i (ps ++ (e, none) ∷ []) ≡ false
waits_for-none i [] e h = refl
waits_for-none i ((e', none) ∷ ps) e h = waits_for-none i ps e h
waits_for-none i ((e', some j) ∷ ps) e h = ground (arith, h, waits_for-none i ps e)

waits_for-other :
    (i j : ℕ) (ps : List (Entry × Option ℕ)) (e : Entry)
    → (i == j) ≡ false
    → waits_for i ps ≡ false
    → waits_for i (ps ++ (e, some j) ∷ []) ≡ false
waits_for-other i j [] e apart h = rw apart refl
waits_for-other i j ((e', none) ∷ ps) e apart h = waits_for-other i j ps e apart h
waits_for-other i j ((e', some k) ∷ ps) e apart h =
    ground (arith, h, waits_for-other i j ps e apart)

AllHeld-none :
    (ds : List QueueDelivery) (ps : List (Entry × Option ℕ)) (e : Entry)
    → AllHeld ds ps
    → AllHeld ds (ps ++ (e, none) ∷ [])
AllHeld-none ds [] e h = tt
AllHeld-none ds ((e', none) ∷ ps) e h = AllHeld-none ds ps e h
AllHeld-none ds ((e', some i) ∷ ps) e (open_, (single, rest)) =
    (open_, (waits_for-none i ps e single, AllHeld-none ds ps e rest))

-- A requeueing of another delivery starts to wait.
AllHeld-some :
    (ds : List QueueDelivery) (ps : List (Entry × Option ℕ)) (e : Entry) (i : ℕ) (d : QueueDelivery)
    → get_elem? ds i ≡ some d
    → d.settled ≡ false
    → waits_for i ps ≡ false
    → AllHeld ds ps
    → AllHeld ds (ps ++ (e, some i) ∷ [])
AllHeld-some ds [] e i d found open_ free h = ((d, (found, open_)), (refl, tt))
AllHeld-some ds ((e', none) ∷ ps) e i d found open_ free h =
    AllHeld-some ds ps e i d found open_ free h
AllHeld-some ds ((e', some j) ∷ ps) e i d found open_ free (held, (single, rest)) =
    let apart : (j == i) ≡ false = ground (arith, free) in
    (
      held,
      (
        waits_for-other j i ps e apart single,
        AllHeld-some ds ps e i d found open_ (ground (arith, free)) rest,
      ),
    )

-- A delivery whose requeueing does not wait is replaced.
AllHeld-set :
    (ds : List QueueDelivery) (ps : List (Entry × Option ℕ)) (i : ℕ) (d : QueueDelivery)
    → waits_for i ps ≡ false
    → AllHeld ds ps
    → AllHeld (set ds i d) ps
AllHeld-set ds [] i d free h = tt
AllHeld-set ds ((e, none) ∷ ps) i d free h = AllHeld-set ds ps i d free h
AllHeld-set ds ((e, some j) ∷ ps) i d free ((d', (found, open_)), (single, rest)) =
    let apart : (i == j) ≡ false = ground (arith, free) in
    (
      (d', (get_elem?-set_other ds i j d apart ∙ found, open_)),
      (single, AllHeld-set ds ps i d (ground (arith, free)) rest),
    )

-- A delivery is taken.
AllHeld-take :
    (ds : List QueueDelivery) (ps : List (Entry × Option ℕ)) (d : QueueDelivery)
    → AllHeld ds ps
    → AllHeld (ds ++ d ∷ []) ps
AllHeld-take ds [] d h = tt
AllHeld-take ds ((e, none) ∷ ps) d h = AllHeld-take ds ps d h
AllHeld-take ds ((e, some i) ∷ ps) d ((d', (found, open_)), (single, rest)) =
    ((d', (get_elem?-append ds (d ∷ []) i found, open_)), (single, AllHeld-take ds ps d rest))

start-Inv : (max_size : ℕ) → Inv (start max_size)
unfolding create
start-Inv max_size = record {
  balanced = refl;
  within = inr (omega arith);
  never_raised = refl;
  held = tt;
}

-- The balance and the bound say nothing of the ids and the sequence numbers.
register-Inv : (s : System) (m : JobMessage) → Inv s → Inv (record s { queue = register s.queue m })
register-Inv s m v = record {
  balanced = v.balanced;
  within = v.within;
  never_raised = v.never_raised;
  held = v.held;
}

put-Inv :
    (s : System) (e : Entry)
    → Inv s
    → has_room s.queue ≡ true
    → Inv (record s { queue = put s.queue e })
put-Inv s e v room = ground arith

wait-Inv :
    (s : System) (e : Entry) → Inv s → Inv (record s { pending = s.pending ++ (e, none) ∷ [] })
wait-Inv s e v = record {
  balanced = v.balanced;
  within = v.within;
  never_raised = v.never_raised;
  held = AllHeld-none s.in_flight s.pending e v.held;
}

publishes-Inv : (s : System) (m : JobMessage) → Inv s → Inv (step s (publishes m))
unfolding step publish
publishes-Inv s m v = elim (Bool-cases (elem m.id s.queue.published_ids)) [
  | inl old ↦ rw old v
  | inr new ↦
      let r = record s { queue = register s.queue m } in
      rw new (elim (Bool-cases (has_room s.queue)) [
        | inl room ↦ rw room (put-Inv r (entry_of s.queue m) (register-Inv s m v) room)
        | inr full ↦ rw full (wait-Inv r (entry_of s.queue m) (register-Inv s m v))
      ])
]

length-extract : (e : Entry) (xs : List Entry) → length (extract e xs).1 ≡ length xs
unfolding extract
length-extract e [] = refl
length-extract e (x ∷ xs) = ap suc (length-extract (if before x e then x else e) xs)

take_from-Inv :
    (s : System) (es : List Entry)
    → s.queue.entries ≡ es
    → Inv s
    → Inv (on_take s (get_from s.queue es))
unfolding on_take get_from
take_from-Inv s [] h v = v
take_from-Inv s (e ∷ es) h v =
    let taken : QueueDelivery = record { message = (extract e es).0.message; settled = false } in
    record {
      balanced = omega (
        arith,
        v.balanced,
        ap length h,
        length-extract e es,
        count_if-append unsettled s.in_flight (taken ∷ []),
      );
      within = ground (arith, v.within, ap length h, length-extract e es);
      never_raised = v.never_raised;
      held = AllHeld-take s.in_flight s.pending taken v.held;
    }

takes-Inv : (s : System) → Inv s → Inv (step s takes)
unfolding step get
takes-Inv s v = take_from-Inv s s.queue.entries refl v

module _ (s : System) (i : ℕ) (d : QueueDelivery) (found : get_elem? s.in_flight i ≡ some d)
    (open_ : d.settled ≡ false) (free : waits_for i s.pending ≡ false) where
  -- A settling that succeeds takes one from the counter.
  finish-Inv :
      (q : InProcessQueue) → Inv (record s { queue = q }) → Inv (on_settling s i d (finish d q))
  unfolding on_settling
  finish-Inv q v = ground (
    arith,
    count_if-set unsettled s.in_flight i d (record d { settled = true }) found,
    AllHeld-set s.in_flight s.pending i (record d { settled = true }) free v.held,
  )

  -- A requeueing that waits keeps its delivery.
  hold-Inv :
      (q : InProcessQueue) (e : Entry)
      → Inv (record s { queue = q })
      → Inv (on_settling s i d (stuck q e))
  unfolding on_settling
  hold-Inv q e v = record {
    balanced = v.balanced;
    within = v.within;
    never_raised = v.never_raised;
    held = AllHeld-some s.in_flight s.pending e i d found open_ free v.held;
  }

  requeue-Inv :
      (m : JobMessage)
      → Inv s
      → Inv (
          on_settling s i d
            (elim (publish s.queue m) [ done q ↦ finish d q | waiting q e ↦ stuck q e ]))
  unfolding publish
  requeue-Inv m v = elim (Bool-cases (elem m.id s.queue.published_ids)) [
    | inl old ↦ rw old (finish-Inv s.queue v)
    | inr new ↦
        let r = register s.queue m in
        let e = entry_of s.queue m in
        let rv = register-Inv s m v in
        rw new (elim (Bool-cases (has_room s.queue)) [
          | inl room ↦ rw room (finish-Inv (put r e) (put-Inv (record s { queue = r }) e rv room))
          | inr full ↦ rw full (hold-Inv r e rv)
        ])
  ]

-- A delivery that is settled stays as it is.
settled-Inv :
    (s : System) (i : ℕ) (d : QueueDelivery)
    → Inv s
    → get_elem? s.in_flight i ≡ some d
    → waits_for i s.pending ≡ false
    → Inv (record s { in_flight = set s.in_flight i d })
settled-Inv s i d v e free = record {
  balanced = ground (arith, v.balanced, count_if-set unsettled s.in_flight i d d e);
  within = v.within;
  never_raised = v.never_raised;
  held = AllHeld-set s.in_flight s.pending i d free v.held;
}

acks-Inv : (s : System) (i : ℕ) → Inv s → waits_for i s.pending ≡ false → Inv (step s (acks i))
unfolding step ack
acks-Inv s i v free = elim (Option-cases (get_elem? s.in_flight i)) [
  | inl e ↦ ground (arith, e)
  | inr (d, e) ↦ ground (
    arith,
    e,
    count_if-set unsettled s.in_flight i d (record d { settled = true }),
    settled-Inv s i d v e free,
    AllHeld-set s.in_flight s.pending i (record d { settled = true }) free v.held,
  )
]

nack-Inv :
    (s : System) (i : ℕ) (fresh : Key) (requeue : Bool) (d : QueueDelivery)
    → Inv s
    → get_elem? s.in_flight i ≡ some d
    → waits_for i s.pending ≡ false
    → Inv (on_settling s i d (nack fresh requeue d s.queue))
unfolding nack on_settling
nack-Inv s i fresh requeue d v e free = elim (Bool-cases d.settled) [
  | inl old ↦ simp old (settled-Inv s i d v e free)
  | inr open_ ↦ simp open_ (elim (Bool-cases (requeue && may_retry d.message)) [
    | inl again ↦ simp again (requeue-Inv s i d e open_ free (retry_of fresh d.message) v)
    | inr last ↦ simp last (finish-Inv s i d e open_ free s.queue v)
  ])
]

nacks-Inv :
    (s : System) (i : ℕ) (fresh : Key) (requeue : Bool)
    → Inv s
    → waits_for i s.pending ≡ false
    → Inv (step s (nacks i fresh requeue))
unfolding step
nacks-Inv s i fresh requeue v free = elim (Option-cases (get_elem? s.in_flight i)) [
  | inl e ↦ rw e v
  | inr (d, e) ↦ rw e (nack-Inv s i fresh requeue d v e free)
]

admit_from-Inv :
    (s : System) (ps : List (Entry × Option ℕ)) → s.pending ≡ ps → Inv s → Inv (on_admit s ps)
unfolding on_admit
admit_from-Inv s [] h v = v
admit_from-Inv s ((e, none) ∷ rest) h v = ground (arith, subst (AllHeld s.in_flight) h v.held)
admit_from-Inv s ((e, some i) ∷ rest) h v =
    let ((d, (found, open_)), (single, others)) = subst (AllHeld s.in_flight) h v.held in
    let left : Inv (record s { pending = rest }) = record {
      balanced = v.balanced;
      within = v.within;
      never_raised = v.never_raised;
      held = others;
    } in
    elim (Bool-cases (has_room s.queue)) [
      | inl room ↦
          let entered = put-Inv (record s { pending = rest }) e left room in
          rw (room, found)
            (finish-Inv (record s { queue = put s.queue e; pending = rest }) i d found open_ single
              (put s.queue e) entered)
      | inr full ↦ rw full v
    ]

admits-Inv : (s : System) → Inv s → Inv (step s admits)
unfolding step
admits-Inv s v = admit_from-Inv s s.pending refl v

-- Every event that settles no delivery twice keeps the invariant.
pub step-Inv : (s : System) (e : Event) → Inv s → IsSingle s e → Inv (step s e)
step-Inv s (publishes m) v single = publishes-Inv s m v
step-Inv s takes v single = takes-Inv s v
step-Inv s (acks i) v single = acks-Inv s i v single
step-Inv s (nacks i fresh requeue) v single = nacks-Inv s i fresh requeue v single
step-Inv s admits v single = admits-Inv s v

run-Inv : (s : System) (es : List Event) → Inv s → AllSingle s es → Inv (run s es)
unfolding run
run-Inv s [] v single = v
run-Inv s (e ∷ es) v single = run-Inv (step s e) es (step-Inv s e v single.0) single.1

-- After any sequence of publications, deliveries, settlings (also of deliveries that are settled)
-- and admissions of waiting tasks, in which no delivery is settled while its own requeueing waits
-- for room, the unfinished counter is the number of queued entries plus the deliveries not yet
-- settled, the queue holds at most `max_size` entries (unless that is 0), and `task_done` has
-- never raised.
pub run_balanced :
    (max_size : ℕ) (es : List Event) → AllSingle (start max_size) es → Inv (run (start max_size) es)
run_balanced max_size es single = run-Inv (start max_size) es (start-Inv max_size) single

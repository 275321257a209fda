-- ===== src/Outbox/Safety.antt =====
-- Any number of dispatchers and writers on one table: what holds of its rows at all times.
use llama_index_rag.Base.{
  Key, Time, ℕ, ◌+◌, ◌≡◌, inl, inr, Bool, true, false, ◌==◌, Option, none, some, is_none, List, [],
  ◌∷◌, elem, All, All-map, All-update_where, arith, Bool-cases, ok, and_right,
}
use llama_index_rag.Domain.Message.{Value, JobMessage}
use llama_index_rag.Outbox.{
  OutboxRecord, Draft, add, new_row, Dispatcher, pending_test, claim_batch, own_unpublished,
  own_row, failure_values, mark_published, mark_failed, Delivery, recorded, unrecorded, refused,
  Progress, settle,
}

-- What holds of a row, when `taken` are the messages that the broker took.
pub record IsSound (taken : List Key) (r : OutboxRecord) : Type 0 where
  -- A claim has an end.
  pub claim_ends : is_none r.claimed_by ≡ false → is_none r.claim_expires_at ≡ false
  -- A published row is not claimed, not poisoned, and the broker took it.
  pub published_free : is_none r.published_at ≡ false → is_none r.claimed_by ≡ true
  pub published_clean : is_none r.published_at ≡ false → is_none r.poisoned_at ≡ true
  pub published_taken : is_none r.published_at ≡ false → elem r.id taken ≡ true
  pub poisoned_free : is_none r.poisoned_at ≡ false → is_none r.claimed_by ≡ true

-- The table and the messages that the broker took.
pub record World : Type 0 where
  pub outbox : List OutboxRecord
  pub taken : List Key

-- A writer adds an event; a dispatcher claims rows; a dispatcher settles a message, whether or not
-- it still holds the claim.
pub data Step (str : Value → Key) : World → World → Type 0 where
  adds :
      (w : World) (fresh : Key) (now : Time) (draft : Draft) (r : OutboxRecord)
      (outbox : List OutboxRecord)
      → add str fresh now draft w.outbox ≡ ok (r, outbox)
      → All (λ old. (old.id == fresh) ≡ false) w.outbox
      → Step str w (record w { outbox = outbox })
  claims :
      (w : World) (d : Dispatcher) (locked : Key → Bool) (now : Time) (limit : ℕ)
      (tenant_id : Option Key)
      → Step str w (record w { outbox = (claim_batch d locked now limit tenant_id w.outbox).1 })
  settles :
      (w : World) (d : Dispatcher) (now : Time) (m : JobMessage) (delivery : Delivery)
      (p : Progress)
      → p.outbox ≡ w.outbox
      → p.taken ≡ w.taken
      → Step str w (record {
        outbox = (settle d now m delivery p).outbox;
        taken = (settle d now m delivery p).taken;
      })

pub data Reach (str : Value → Key) (w : World) : World → Type 0 where
  here : Reach str w w
  next : {u v : World} → Reach str w u → Step str u v → Reach str w v

abbrev pub AllSound : World → Type 0
AllSound w = All (IsSound w.taken) w.outbox

claim-IsSound :
    (d : Dispatcher) (locked : Key → Bool) (now : Time) (tenant_id : Option Key) (taken : List Key)
    (r : OutboxRecord)
    → pending_test locked now tenant_id r ≡ true
    → IsSound taken r
    → IsSound taken (record r {
      claimed_by = some d.dispatcher_id;
      claim_expires_at = some (now + d.claim_seconds);
    })
unfolding pending_test
claim-IsSound d locked now tenant_id taken r h s = ground arith

publish-IsSound :
    (d : Dispatcher) (now : Time) (m : JobMessage) (taken : List Key) (r : OutboxRecord)
    → own_unpublished d m r ≡ true
    → IsSound taken r
    → IsSound
        (m.id ∷ taken)
        (record r { published_at = some now; claimed_by = none; claim_expires_at = none })
publish-IsSound d now m taken r h s = ground arith

fail-IsSound :
    (d : Dispatcher) (now : Time) (m : JobMessage) (taken : List Key) (r : OutboxRecord)
    → own_row d m r ≡ true
    → IsSound taken r
    → IsSound taken (failure_values now m r)
fail-IsSound d now m taken r h s = ground arith

more_taken :
    (k : Key) (taken : List Key) (r : OutboxRecord) → IsSound taken r → IsSound (k ∷ taken) r
more_taken k taken r s = ground arith

pub add-rows :
    (str : Value → Key) (fresh : Key) (now : Time) (draft : Draft) (rows : List OutboxRecord)
    (r : OutboxRecord) (outbox : List OutboxRecord)
    → add str fresh now draft rows ≡ ok (r, outbox)
    → outbox ≡ new_row fresh now draft ∷ rows
unfolding add
add-rows str fresh now draft rows r outbox e = ground arith

new_row-IsSound :
    (fresh : Key) (now : Time) (draft : Draft) (taken : List Key)
    → IsSound taken (new_row fresh now draft)
unfolding new_row
new_row-IsSound fresh now draft taken = ground arith

add-AllSound :
    (str : Value → Key) (fresh : Key) (now : Time) (draft : Draft) (taken : List Key)
    (rows : List OutboxRecord) (r : OutboxRecord) (outbox : List OutboxRecord)
    → add str fresh now draft rows ≡ ok (r, outbox)
    → All (IsSound taken) rows
    → All (IsSound taken) outbox
add-AllSound str fresh now draft taken rows r outbox e h =
    rw (add-rows str fresh now draft rows r outbox e) (new_row-IsSound fresh now draft taken, h)

claim-AllSound :
    (w : World) (d : Dispatcher) (locked : Key → Bool) (now : Time) (limit : ℕ)
    (tenant_id : Option Key)
    → AllSound w
    → All (IsSound w.taken) (claim_batch d locked now limit tenant_id w.outbox).1
unfolding claim_batch
claim-AllSound w d locked now limit tenant_id h =
    All-update_where (IsSound w.taken) _ _ w.outbox
      (λ r e s. claim-IsSound d locked now tenant_id w.taken r (and_right _ _ e) s) h

fail-AllSound :
    (d : Dispatcher) (now : Time) (m : JobMessage) (taken : List Key) (rows : List OutboxRecord)
    → All (IsSound taken) rows
    → All (IsSound taken) (mark_failed d now m rows).1
unfolding mark_failed
fail-AllSound d now m taken rows h =
    All-update_where (IsSound taken) (own_row d m) (failure_values now m) rows
      (fail-IsSound d now m taken) h

publish-AllSound :
    (d : Dispatcher) (now : Time) (m : JobMessage) (taken : List Key) (rows : List OutboxRecord)
    → All (IsSound taken) rows
    → All (IsSound (m.id ∷ taken)) (mark_published d now m rows).1
unfolding mark_published
publish-AllSound d now m taken [] h = tt
publish-AllSound d now m taken (r ∷ rows) h = elim (Bool-cases (own_unpublished d m r)) [
  | inl e ↦ rw e (publish-IsSound d now m taken r e h.0, publish-AllSound d now m taken rows h.1)
  | inr e ↦ rw e (more_taken m.id taken r h.0, publish-AllSound d now m taken rows h.1)
]

settle-AllSound :
    (d : Dispatcher) (now : Time) (m : JobMessage) (delivery : Delivery) (p : Progress)
    → All (IsSound p.taken) p.outbox
    → All (IsSound (settle d now m delivery p).taken) (settle d now m delivery p).outbox
unfolding settle
settle-AllSound d now m recorded p h = publish-AllSound d now m p.taken p.outbox h
settle-AllSound d now m unrecorded p h =
    All-map (IsSound p.taken) (IsSound (m.id ∷ p.taken)) (mark_failed d now m p.outbox).1
      (more_taken m.id p.taken) (fail-AllSound d now m p.taken p.outbox h)
settle-AllSound d now m refused p h = fail-AllSound d now m p.taken p.outbox h

Step-AllSound : {str : Value → Key} {w v : World} → Step str w v → AllSound w → AllSound v
Step-AllSound {str} (adds w fresh now draft r outbox e new) h =
    add-AllSound str fresh now draft w.taken w.outbox r outbox e h
Step-AllSound (claims w d locked now limit tenant_id) h =
    claim-AllSound w d locked now limit tenant_id h
Step-AllSound (settles w d now m delivery p same_rows same_taken) h =
    settle-AllSound d now m delivery p (rw (same_rows, same_taken) h)

-- Whatever writers and dispatchers do, in any order and with any failures, from a sound table: a
-- row that is marked published was taken by the broker, no row is both published and poisoned,
-- neither kind is claimed, and every claim ends.
pub Reach-AllSound : {str : Value → Key} {w v : World} → Reach str w v → AllSound w → AllSound v
Reach-AllSound here h = h
Reach-AllSound (next r s) h = Step-AllSound s (Reach-AllSound r h)

-- ===== src/Audit/Chain.antt =====
-- The chains that recording makes (backend/enterprise_rag/application/audit.py).
use llama_index_rag.Base.{
  Key, Time, ◌<◌, ◌≤◌, ◌≡◌, refl, sym, ◌∙◌, ap, inl, inr, Bool, true, ◌==◌, if◌then◌else◌, some,
  List, [], ◌∷◌, ◌++◌, keep, All, All-keep, arith, Bool-cases, ==_refl, eq_of_==,
}
use llama_index_rag.Base.Sort.{insert_by, sort_by}
use llama_index_rag.Audit.{
  AuditEventInput, Body, AuditEvent, of_tenant, latest, hash_of, later_event, new_event,
  record_event, check_from, verify_chain,
}

-- A table whose events were inserted in the order of their times, one at a time.
abbrev pub InOrder : List AuditEvent → Type 0
InOrder [] = Unit {0}
InOrder (r ∷ rs) = All (λ x. r.body.created_at < x.body.created_at) rs × InOrder rs

InOrder-keep :
    (tenant_id : Key) (rs : List AuditEvent) → InOrder rs → InOrder (keep (of_tenant tenant_id) rs)
InOrder-keep tenant_id [] h = tt
InOrder-keep tenant_id (r ∷ rs) h = ground (
  arith,
  InOrder-keep tenant_id rs h.1,
  All-keep (λ x. r.body.created_at < x.body.created_at) (of_tenant tenant_id) rs h.0,
)

InOrder-append :
    (rs : List AuditEvent) (r : AuditEvent)
    → InOrder rs
    → All (λ x. x.body.created_at < r.body.created_at) rs
    → InOrder (rs ++ r ∷ [])
InOrder-append [] r h k = (tt, tt)
InOrder-append (x ∷ rs) r h k = (All-snoc x rs r h.0 k.0, InOrder-append rs r h.1 k.1)
  where
    All-snoc :
        (x : AuditEvent) (rs : List AuditEvent) (r : AuditEvent)
        → All (λ y. x.body.created_at < y.body.created_at) rs
        → x.body.created_at < r.body.created_at
        → All (λ y. x.body.created_at < y.body.created_at) (rs ++ r ∷ [])
    All-snoc x [] r h k = (k, tt)
    All-snoc x (y ∷ ys) r h k = (h.0, All-snoc x ys r h.1 k)

-- Sorting leaves such a table as it is.
sort_by-InOrder : (rs : List AuditEvent) → InOrder rs → sort_by later_event rs ≡ rs
unfolding sort_by insert_by
sort_by-InOrder [] h = refl
sort_by-InOrder (r ∷ []) h = refl
sort_by-InOrder (r ∷ x ∷ rs) h = ground (arith, sort_by-InOrder (x ∷ rs) h.1, h.0.0)

-- The hash that the chain ends with.
abbrev last_hash : Key → List AuditEvent → Key
last_hash previous [] = previous
last_hash previous (r ∷ rs) = last_hash r.event_hash rs

latest-last :
    (previous : Key) (r : AuditEvent) (rs : List AuditEvent)
    → InOrder (r ∷ rs)
    → (m : AuditEvent) × ((latest (r ∷ rs) ≡ some m)
        × ((m.event_hash ≡ last_hash previous (r ∷ rs)) × (r.body.created_at ≤ m.body.created_at)))
unfolding latest
latest-last previous r [] h = (r, (refl, (refl, omega arith)))
latest-last previous r (x ∷ rs) h =
    let (m, (e, (same, after))) = latest-last r.event_hash x rs h.1 in
    (m, (ground (arith, e, after, h.0.0), (same, omega (arith, after, h.0.0))))

keep_snoc :
    (p : AuditEvent → Bool) (rs : List AuditEvent) (r : AuditEvent)
    → keep p (rs ++ r ∷ []) ≡ (if p r then keep p rs ++ r ∷ [] else keep p rs)
keep_snoc p [] r = refl
keep_snoc p (x ∷ rs) r = ground (arith, keep_snoc p rs r)

latest-hash : (rs : List AuditEvent) → InOrder rs → hash_of (latest rs) ≡ last_hash 0 rs
unfolding latest
latest-hash [] h = refl
latest-hash (r ∷ rs) h =
    let (m, (e, (same, after))) = latest-last 0 r rs h in ground (arith, e, same)

module _ (hash : Body → Key) where
  check_from-append :
      (previous : Key) (rs : List AuditEvent) (r : AuditEvent)
      → check_from hash previous rs ≡ true
      → r.body.previous_hash ≡ last_hash previous rs
      → hash r.body ≡ r.event_hash
      → check_from hash previous (rs ++ r ∷ []) ≡ true
  unfolding check_from
  check_from-append previous [] r h e k =
      ground (arith, e, k, ==_refl previous, ==_refl r.event_hash)
  check_from-append previous (x ∷ rs) r h e k =
      ground (arith, check_from-append x.event_hash rs r, h, e, k)

  -- A table in order of time whose chains verify.
  unfoldable pub IsIntact : List AuditEvent → Type 0
  IsIntact table = InOrder table × ((tenant_id : Key) → verify_chain hash tenant_id table ≡ true)

  record_event-verifies :
      (t fresh tenant_id user_id : Key) (event : AuditEventInput) (now : Time)
      (table : List AuditEvent)
      → InOrder table
      → verify_chain hash t table ≡ true
      → InOrder (record_event hash fresh tenant_id user_id event now table)
      → verify_chain hash t (record_event hash fresh tenant_id user_id event now table) ≡ true
  unfolding verify_chain record_event new_event
  record_event-verifies t fresh tenant_id user_id event now table up fine up' =
      let new : AuditEvent = new_event hash fresh tenant_id user_id event now table in
      let own : List AuditEvent = keep (of_tenant t) table in
      let old : check_from hash 0 own ≡ true =
        ap (check_from hash 0) (sym (sort_by-InOrder own (InOrder-keep t table up))) ∙ fine in
      let sorted : sort_by later_event (keep (of_tenant t) (table ++ new ∷ []))
          ≡ keep (of_tenant t) (table ++ new ∷ []) =
        sort_by-InOrder (keep (of_tenant t) (table ++ new ∷ []))
          (InOrder-keep t (table ++ new ∷ []) up') in
      let split = keep_snoc (of_tenant t) table new in
      ap (check_from hash 0) sorted ∙ elim (Bool-cases (tenant_id == t)) [
        | inl mine ↦
            ap (check_from hash 0) (split ∙ ap (λ b. if b then own ++ new ∷ [] else own) mine)
            ∙ check_from-append 0 own new old
                (ap (λ k. hash_of (latest (keep (of_tenant k) table))) (eq_of_== tenant_id t mine)
                  ∙ latest-hash own (InOrder-keep t table up))
                refl
        | inr other ↦
            ap (check_from hash 0) (split ∙ ap (λ b. if b then own ++ new ∷ [] else own) other)
            ∙ old
      ]

  record_event-InOrder :
      (fresh tenant_id user_id : Key) (event : AuditEventInput) (now : Time)
      (table : List AuditEvent)
      → InOrder table
      → All (λ x. x.body.created_at < now) table
      → InOrder (record_event hash fresh tenant_id user_id event now table)
  unfolding record_event new_event
  record_event-InOrder fresh tenant_id user_id event now table up earlier =
      InOrder-append table (new_event hash fresh tenant_id user_id event now table) up earlier

  -- Recording an event, later than all events of the table, in a table in order of time whose
  -- chains verify for every tenant gives such a table again: the new event continues the chain of
  -- its tenant and breaks no other one.
  pub record_event-IsIntact :
      (fresh tenant_id user_id : Key) (event : AuditEventInput) (now : Time)
      (table : List AuditEvent)
      → IsIntact table
      → All (λ x. x.body.created_at < now) table
      → IsIntact (record_event hash fresh tenant_id user_id event now table)
  unfolding IsIntact
  record_event-IsIntact fresh tenant_id user_id event now table intact earlier =
      let up' = record_event-InOrder fresh tenant_id user_id event now table intact.0 earlier in
      (
        up',
        λ t.
            record_event-verifies t fresh tenant_id user_id event now table intact.0 (intact.1 t)
              up',
      )

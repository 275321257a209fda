-- ===== src/Audit.antt =====
-- The hash chain of audit events (backend/enterprise_rag/application/audit.py:AuditService). The
-- table is in order of insertion; `hash` is `stable_json_hash` on the fields of an event, 0 is the
-- empty text, and the details of an event are given as `redact` leaves them.
pub mod Chain
mod Tests
use llama_index_rag.Base.{
  Key, Time, Bool, true, false, ◌&&◌, ◌==◌, ltb, if◌then◌else◌, Option, none, some, List, [], ◌∷◌,
  ◌++◌, keep,
}
use llama_index_rag.Base.Sort.{sort_by}

-- What the caller gives.
pub record AuditEventInput : Type 0 where
  pub action : Key
  pub resource_type : Key
  pub resource_id : Key
  pub authorization_result : Key
  pub outcome : Key
  pub correlation_id : Key
  pub details : Key

-- What is hashed.
pub record Body : Type 0 where
  pub tenant_id : Key
  pub principal_id : Key
  pub event : AuditEventInput
  pub previous_hash : Key
  pub created_at : Time

pub record AuditEvent : Type 0 where
  pub id : Key
  pub body : Body
  pub event_hash : Key

abbrev pub of_tenant : Key → AuditEvent → Bool
of_tenant tenant_id r = r.body.tenant_id == tenant_id

-- `ORDER BY created_at DESC LIMIT 1`; of rows of one moment the database may take any, here the
-- latest inserted.
unfoldable pub latest : List AuditEvent → Option AuditEvent
latest [] = none
latest (r ∷ rs) = elim (latest rs) [
  | none ↦ some r
  | some m ↦ if ltb m.body.created_at r.body.created_at then some r else some m
]

-- `previous.event_hash if previous else ""`.
abbrev pub hash_of : Option AuditEvent → Key
hash_of none = 0
hash_of (some r) = r.event_hash

-- `ORDER BY created_at`.
abbrev pub later_event : AuditEvent → AuditEvent → Bool
later_event a b = ltb b.body.created_at a.body.created_at

module _ (hash : Body → Key) where
  -- The event that is recorded.
  unfoldable pub new_event : Key → Key → Key → AuditEventInput → Time → List AuditEvent → AuditEvent
  new_event fresh tenant_id user_id event now table =
      let body : Body = record {
        tenant_id = tenant_id;
        principal_id = user_id;
        event = event;
        previous_hash = hash_of (latest (keep (of_tenant tenant_id) table));
        created_at = now;
      } in
      record { id = fresh; body = body; event_hash = hash body }

  unfoldable pub record_event :
      Key → Key → Key → AuditEventInput → Time → List AuditEvent → List AuditEvent
  record_event fresh tenant_id user_id event now table =
      table ++ new_event fresh tenant_id user_id event now table ∷ []

  -- The loop of `verify_chain`.
  unfoldable pub check_from : Key → List AuditEvent → Bool
  check_from previous [] = true
  check_from previous (r ∷ rs) =
      r.body.previous_hash == previous
      && (hash r.body == r.event_hash && check_from r.event_hash rs)

  unfoldable pub verify_chain : Key → List AuditEvent → Bool
  verify_chain tenant_id table =
      check_from 0 (sort_by later_event (keep (of_tenant tenant_id) table))

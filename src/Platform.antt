-- ===== src/Platform.antt =====
-- The lifecycle of tenants, in the hands of the platform
-- (backend/enterprise_rag/application/tenant_admin.py:PlatformTenantService). The settings of a
-- tenant are carried along by the code and left out, and so is the binding of the session to the
-- tenant. A call that raises gives no tables.
pub mod Moves
pub mod Revisions
mod Tests
use Prim.Native.String.{String}
use text.Mathlib.Text.{◌==◌ as str_eq}
use llama_index_rag.Base.{
  Key, Time, ℕ, suc, pos, Bool, true, false, not, ◌&&◌, ◌||◌, ◌==◌, if◌then◌else◌, Option, none,
  some, List, [], ◌∷◌, ◌++◌, find_first, update_where, Result, ok, app_error, invalid_request,
  conflict, not_found, ◌>>=◌, ◌>>◌, raise_if, or_raise, as_error,
}
use llama_index_rag.Domain.Lifecycle.{
  TenantState, TenantState-discrete, among, require_tenant_transition,
}
use llama_index_rag.Domain.Message.{Payload, word, number}
use llama_index_rag.Access.Identity.{AuthenticatedSubject}
use llama_index_rag.Access.Permission.{require_platform_permission}
use llama_index_rag.Outbox.{OutboxRecord, Draft, add}
use llama_index_rag.Audit.{AuditEventInput, record_event}
use llama_index_rag.Config.{TenantRecord, Store, Outside, Call}

-- `target.value`.
abbrev pub state_value : TenantState → String
state_value TenantState.provisioning = "provisioning"
state_value TenantState.active = "active"
state_value TenantState.suspended = "suspended"
state_value TenantState.archived = "archived"

unfoldable pub get : AuthenticatedSubject → Key → Store → Result TenantRecord
get subject tenant_id store =
    require_platform_permission subject "platform.tenant.read"
    >> or_raise (find_first (λ t. t.id == tenant_id) store.tenants) (app_error not_found 404)

-- `_locked`.
unfoldable pub locked : Key → ℕ → Store → Result TenantRecord
locked tenant_id expected_revision store = do
  tenant ← or_raise (find_first (λ t. t.id == tenant_id) store.tenants) (app_error not_found 404)
  raise_if (not (tenant.revision == expected_revision)) (app_error conflict 409) >> ok tenant

-- The row of a tenant changes.
abbrev pub change_tenant : Key → (TenantRecord → TenantRecord) → Store → Store
change_tenant tenant_id change store = record store {
  tenants = update_where (λ t. t.id == tenant_id) change store.tenants;
}

-- The event of `_record_event`.
abbrev pub lifecycle_event : Outside → Call → TenantRecord → String → Draft
lifecycle_event outside call tenant action = record {
  tenant_id = tenant.id;
  kind = action;
  correlation_id = call.correlation_id;
  payload =
      ("tenant_id", word tenant.id)
      ∷ ("state", word (outside.text (state_value tenant.state)))
      ∷ ("revision", number tenant.revision)
      ∷ [];
  priority = pos 100;
  max_attempts = 3;
}

abbrev pub with_outbox : Store → OutboxRecord × List OutboxRecord → Result Store
with_outbox store (_, outbox) = ok (record store { outbox = outbox })

-- The audit event of `_record_event`.
abbrev pub lifecycle_audited :
    Outside → Call → AuthenticatedSubject → TenantRecord → String → Payload → Store → Store
lifecycle_audited outside call subject tenant action details store =
    let event : AuditEventInput = record {
      action = outside.text action;
      resource_type = outside.text "tenant";
      resource_id = tenant.id;
      authorization_result = outside.text "allowed";
      outcome = outside.text "success";
      correlation_id = call.correlation_id;
      details = outside.details details;
    } in
    record store {
      audit =
          record_event outside.event_hash call.audit_id tenant.id subject.subject_id event call.now
            store.audit;
    }

-- `_record_event`.
unfoldable pub record_lifecycle :
    Outside → Call → AuthenticatedSubject → TenantRecord → String → Payload → Store → Result Store
record_lifecycle outside call subject tenant action details store =
    add outside.str call.outbox_id call.now (lifecycle_event outside call tenant action)
      store.outbox
    >>= with_outbox (lifecycle_audited outside call subject tenant action details store)

-- The name that `update_metadata` writes; `strip` is Python's `str.strip`.
unfoldable pub updated_name : (String → String) → Option String → String → Result String
updated_name strip none old = ok old
updated_name strip (some name) old =
    raise_if (str_eq (strip name) "") (app_error invalid_request 422) >> ok (strip name)

abbrev pub renamed : String → TenantRecord → TenantRecord
renamed name tenant = record tenant { name = name; revision = suc tenant.revision }

unfoldable pub update_metadata :
    Outside
    → (String → String)
    → Call
    → AuthenticatedSubject
    → Key
    → ℕ
    → Option String
    → Store
    → Result Store
update_metadata outside strip call subject tenant_id expected_revision name store =
    require_platform_permission subject "platform.tenant.write" >> (do
      tenant ← locked tenant_id expected_revision store
      new_name ← updated_name strip name tenant.name
      let changed : TenantRecord = record tenant { name = new_name; revision = suc tenant.revision }
      record_lifecycle outside call subject changed "tenant.metadata.update"
          (("revision", number changed.revision) ∷ [])
          (change_tenant tenant.id (renamed new_name) store))

-- `target in {SUSPENDED, ARCHIVED}`.
abbrev pub closes : TenantState → Bool
closes target =
    among TenantState-discrete target (TenantState.suspended ∷ TenantState.archived ∷ [])

-- `utc_now() if target == state else None`.
abbrev pub stamp : Time → TenantState → TenantState → Option Time
stamp now target state = if among TenantState-discrete target (state ∷ []) then some now else none

-- The columns that `transition` writes.
abbrev pub moved_to : String → Time → TenantState → TenantRecord → TenantRecord
moved_to reason now target tenant = record tenant {
  state = target;
  state_reason = reason;
  suspended_at = stamp now target TenantState.suspended;
  archived_at = stamp now target TenantState.archived;
  revision = suc tenant.revision;
  acl_epoch = suc tenant.acl_epoch;
}

-- `f"tenant.{target.value}"`.
abbrev pub action_of : TenantState → String
action_of TenantState.provisioning = "tenant.provisioning"
action_of TenantState.active = "tenant.active"
action_of TenantState.suspended = "tenant.suspended"
action_of TenantState.archived = "tenant.archived"

unfoldable pub transition :
    Outside
    → (String → String)
    → Call
    → AuthenticatedSubject
    → Key
    → TenantState
    → ℕ
    → String
    → Store
    → Result Store
transition outside strip call subject tenant_id target expected_revision reason store =
    require_platform_permission subject "platform.tenant.lifecycle" >> (do
      tenant ← locked tenant_id expected_revision store
      _ ← as_error (app_error conflict 409) (require_tenant_transition tenant.state target)
      _ ← raise_if (closes target && str_eq (strip reason) "") (app_error invalid_request 422)
      let changed = moved_to (strip reason) call.now target tenant
      record_lifecycle outside call subject changed (action_of target)
          (("state", word (outside.text (state_value target)))
            ∷ ("reason", word (outside.text reason))
            ∷ ("revision", number changed.revision)
            ∷ [])
          (change_tenant tenant.id (moved_to (strip reason) call.now target) store))

-- ===== src/Config.antt =====
-- The versions of a tenant's configuration
-- (backend/enterprise_rag/application/tenant_configuration.py:TenantConfigurationService). A table
-- is the list of its rows, new rows in front. A call that raises gives no tables: its transaction
-- is rolled back; of one that returns a row, it gives the tables that hold the row.
mod Tables
mod Lookup
pub mod Active
pub mod Effect
pub mod Requests
pub mod Reading
pub mod Sample
mod Tests
pub use Tables.*
unfoldable pub use Lookup.*
use Prim.Native.String.{String}
use llama_index_rag.Base.{
  Key, ℕ, suc, max, pos, Bool, true, false, not, ◌&&◌, ◌==◌, ltb, if◌then◌else◌, Option, none, some,
  List, [], ◌∷◌, length, keep, find_first, update_where, elem, count_if, sorted_set, Result, ok,
  app_error, invalid_request, not_found, conflict, dependency_unavailable, ◌>>=◌, ◌>>◌, raise_if,
  or_raise,
}
use llama_index_rag.Base.Sort.{sort_by}
use llama_index_rag.Domain.Message.{word, number, Payload}
use llama_index_rag.Access.Identity.{RequestIdentity}
use llama_index_rag.Access.Permission.{require_tenant_permission}
use llama_index_rag.Access.Context.{is_empty}
use llama_index_rag.Outbox.{OutboxRecord, Draft, add}
use llama_index_rag.Audit.{AuditEventInput, record_event}

-- `_audit`.
unfoldable pub record_change :
    Outside → Call → RequestIdentity → String → Key → Payload → Store → Store
record_change outside call identity action resource_id details store =
    let event : AuditEventInput = record {
      action = outside.text action;
      resource_type = outside.text "tenant_configuration";
      resource_id = resource_id;
      authorization_result = outside.text "allowed";
      outcome = outside.text "success";
      correlation_id = call.correlation_id;
      details = outside.details details;
    } in
    record store {
      audit =
          record_event outside.event_hash call.audit_id identity.tenant_id identity.user_id event
            call.now store.audit;
    }

-- The state of the version that was active, if it is another one, and of the one that becomes so.
abbrev pub superseded_by : Key → Option Key → ConfigVersion → Bool
superseded_by new_id none v = false
superseded_by new_id (some current_id) v = v.id == current_id && not (v.id == new_id)

abbrev pub supersede : ConfigVersion → ConfigVersion
supersede v = record v { state = VersionState.superseded }

unfoldable pub activated_versions :
    Call → TenantRecord → ConfigVersion → List ConfigVersion → List ConfigVersion
activated_versions call tenant version versions =
    update_where (version_test version.tenant_id version.id)
      (λ v. record v { state = VersionState.active; activated_at = some call.now })
      (update_where (superseded_by version.id tenant.active_config_version_id) supersede versions)

-- The tables of tenants and versions that `_activate` leaves.
unfoldable pub activated_tables : Call → TenantRecord → ConfigVersion → Store → Store
unfolding activated_versions
activated_tables call tenant version store = record store {
  tenants =
      update_where (λ t. t.id == tenant.id)
        (λ t. record t {
          active_config_version_id = some version.id;
          revision = suc tenant.revision;
        })
        store.tenants;
  versions = activated_versions call tenant version store.versions;
}

-- The event of `_activate`.
abbrev pub change_event : Call → Key → ConfigVersion → ℕ → Draft
change_event call tenant_id version revision = record {
  tenant_id = tenant_id;
  kind = "tenant.configuration.changed";
  correlation_id = call.correlation_id;
  payload =
      ("tenant_id", word tenant_id)
      ∷ ("configuration_version_id", word version.id)
      ∷ ("tenant_revision", number revision)
      ∷ [];
  priority = pos 100;
  max_attempts = 3;
}

-- The rest of `_activate`, given what `OutboxService.add` returns.
abbrev pub announced :
    Outside → Key → Store → Result (OutboxRecord × List OutboxRecord) → Result Store
announced outside tenant_id store added = do
  (_, outbox) ← added
  ok (record store {
    outbox = outbox;
    invalidated = if outside.coordinated then tenant_id ∷ store.invalidated else store.invalidated;
  })

-- The audit event of `_activate`.
abbrev pub record_activation : Outside → Call → RequestIdentity → ConfigVersion → Store → Store
record_activation outside call identity version store =
    record_change outside call identity "tenant.configuration.activate" version.id
      (("version", number version.version) ∷ ("config_hash", word version.config_hash) ∷ []) store

-- `_activate`.
unfoldable pub activate :
    Outside → Call → RequestIdentity → TenantRecord → ConfigVersion → Store → Result Store
activate outside call identity tenant version store =
    let recorded =
      record_activation outside call identity version
        (activated_tables call tenant version store) in
    let event = change_event call identity.tenant_id version (suc tenant.revision) in
    announced outside identity.tenant_id recorded
      (add outside.str call.outbox_id call.now event recorded.outbox)

-- `max(version)` of a tenant, 0 without versions.
abbrev pub max_version : Key → List ConfigVersion → ℕ
max_version tenant_id [] = 0
max_version tenant_id (v ∷ vs) =
    let rest = max_version tenant_id vs in
    if v.tenant_id == tenant_id then max v.version rest else rest

-- The row that `create_version` inserts.
unfoldable pub draft_version :
    Outside
    → Call
    → RequestIdentity
    → TenantRecord
    → TenantConfiguration
    → List ConfigVersion
    → ConfigVersion
draft_version outside call identity tenant config versions =
    let resolved = outside.model_dump config in
    record {
      id = call.version_id;
      tenant_id = identity.tenant_id;
      version = suc (max_version identity.tenant_id versions);
      schema_version = config.schema_version;
      state = VersionState.draft;
      config = resolved;
      config_hash = outside.stable_json_hash resolved;
      previous_version_id = tenant.active_config_version_id;
      created_by_subject = identity.user_id;
      activated_at = none;
    }

-- The branch of `create_version` that does not activate.
unfoldable pub keep_draft :
    Outside → Call → RequestIdentity → TenantRecord → ConfigVersion → Store → Store
keep_draft outside call identity tenant version store =
    record_change outside call identity "tenant.configuration.create" version.id
      (("version", number version.version) ∷ ("config_hash", word version.config_hash) ∷ [])
      (record store {
        tenants =
            update_where (λ t. t.id == tenant.id) (λ t. record t { revision = suc tenant.revision })
              store.tenants;
      })

unfoldable pub create_version :
    Outside → Call → RequestIdentity → Payload → ℕ → Bool → Store → Result Store
unfolding draft_version keep_draft
create_version outside call identity raw_config expected_revision activates store =
    require_tenant_permission identity "configuration.write" >> (do
      config ← or_raise (outside.model_validate raw_config) (app_error invalid_request 422)
      tenant ← locked_tenant store identity.tenant_id expected_revision
      _ ← validate_references store identity.tenant_id config
      let version = draft_version outside call identity tenant config store.versions
      let inserted : Store = record store { versions = version ∷ store.versions }
      (if activates
          then activate outside call identity tenant version inserted
          else ok (keep_draft outside call identity tenant version inserted)))

unfoldable pub activate_version : Outside → Call → RequestIdentity → Key → ℕ → Store → Result Store
activate_version outside call identity version_id expected_revision store =
    require_tenant_permission identity "configuration.write" >> (do
      tenant ← locked_tenant store identity.tenant_id expected_revision
      version ←
          or_raise (find_first (version_test identity.tenant_id version_id) store.versions)
            (app_error not_found 404)
      config ← or_raise (outside.model_validate version.config) (app_error invalid_request 422)
      _ ← validate_references store identity.tenant_id config
      activate outside call identity tenant version store)

unfoldable pub rollback : Outside → Call → RequestIdentity → Key → ℕ → Store → Result Store
rollback outside call identity source_version_id expected_revision store =
    require_tenant_permission identity "configuration.write" >> (do
      source ←
          or_raise (find_first (version_test identity.tenant_id source_version_id) store.versions)
            (app_error not_found 404)
      create_version outside call identity source.config expected_revision true store)

-- ===== src/Config/Lookup.antt =====
-- Reading a tenant's configuration, and the checks of its references
-- (backend/enterprise_rag/application/tenant_configuration.py:TenantConfigurationService).
use llama_index_rag.Base.{
  Key, ℕ, Bool, true, false, not, ◌&&◌, ◌==◌, ltb, List, length, keep, find_first, elem, count_if,
  sorted_set, Result, ok, app_error, invalid_request, not_found, conflict, dependency_unavailable,
  ◌>>=◌, ◌>>◌, raise_if, or_raise,
}
use llama_index_rag.Base.Sort.{sort_by}
use llama_index_rag.Access.Identity.{RequestIdentity}
use llama_index_rag.Access.Permission.{require_tenant_permission}
use llama_index_rag.Access.Context.{is_empty}
use llama_index_rag.Config.Tables.{
  TenantConfiguration, TenantRecord, VersionState, ConfigVersion, Store, Outside,
}

-- `state == "active"`.
abbrev pub is_active_version : VersionState → Bool
is_active_version VersionState.active = true
is_active_version _ = false

-- `_tenant` without and with an expected revision.
unfoldable pub tenant_of : Store → Key → Result TenantRecord
tenant_of store tenant_id =
    or_raise (find_first (λ t. t.id == tenant_id) store.tenants) (app_error not_found 404)

unfoldable pub locked_tenant : Store → Key → ℕ → Result TenantRecord
unfolding tenant_of
locked_tenant store tenant_id expected_revision = do
  tenant ← tenant_of store tenant_id
  raise_if (not (tenant.revision == expected_revision)) (app_error conflict 409) >> ok tenant

-- The version of a tenant with an identifier.
abbrev pub version_test : Key → Key → ConfigVersion → Bool
version_test tenant_id version_id v = v.id == version_id && v.tenant_id == tenant_id

abbrev pub active_test : Key → Key → ConfigVersion → Bool
active_test tenant_id version_id v =
    version_test tenant_id version_id v && is_active_version v.state

-- `_load_active`.
unfoldable pub load_active :
    Outside → Store → Key → Result (TenantRecord × ConfigVersion × TenantConfiguration)
unfolding tenant_of
load_active outside store tenant_id = do
  tenant ← tenant_of store tenant_id
  version_id ← or_raise tenant.active_config_version_id (app_error dependency_unavailable 503)
  version ←
      or_raise (find_first (active_test tenant.id version_id) store.versions)
        (app_error dependency_unavailable 503)
  config ← or_raise (outside.model_validate version.config) (app_error dependency_unavailable 503)
  ok (tenant, version, config)

unfoldable pub active_configuration :
    Outside → RequestIdentity → Store → Result (TenantRecord × ConfigVersion × TenantConfiguration)
active_configuration outside identity store =
    require_tenant_permission identity "configuration.read"
    >> load_active outside store identity.tenant_id

-- `ORDER BY version DESC`.
unfoldable pub history : RequestIdentity → Store → Result (List ConfigVersion)
history identity store =
    require_tenant_permission identity "configuration.read"
    >> ok (
        sort_by (λ a b. ltb a.version b.version)
          (keep (λ v. v.tenant_id == identity.tenant_id) store.versions))

-- One block of `_validate_references`: as many rows as there are identifiers.
abbrev pub require_all : List Key → ℕ → Result (Unit {0})
require_all ids count =
    raise_if (not (is_empty ids) && not (count == length ids)) (app_error invalid_request 422)

unfoldable pub validate_references : Store → Key → TenantConfiguration → Result (Unit {0})
validate_references store tenant_id config =
    let binding_ids = sorted_set config.secret_binding_ids in
    let profile_ids = sorted_set config.allowed_profile_ids in
    let policy_ids = sorted_set config.default_rag_policy_ids in
    require_all binding_ids (
      count_if (λ b. b.tenant_id == tenant_id && (elem b.id binding_ids && b.valid))
        store.secret_bindings)
    >> require_all profile_ids (
        count_if (λ p. p.tenant_id == tenant_id && (elem p.id profile_ids && p.enabled))
          store.provider_profiles)
    >> require_all policy_ids (
        count_if (λ p. p.tenant_id == tenant_id && (elem p.id policy_ids && p.active))
          store.policies)

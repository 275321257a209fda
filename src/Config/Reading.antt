-- ===== src/Config/Reading.antt =====
-- What reading the configuration gives after it was written.
use llama_index_rag.Base.{
  Key, ℕ, suc, ◌≡◌, refl, sym, ◌∙◌, ap, subst, true, false, ◌==◌, Option, none, some, List, ◌∷◌,
  find_first, find_first_test, find_first-update_where, update_where, ok, app_error,
  invalid_request, arith, ==_refl, eq_of_==, >>=-ok, >>-ok, or_raise-ok, or_raise,
}
use llama_index_rag.Domain.Message.{Payload}
use llama_index_rag.Access.Identity.{RequestIdentity}
use llama_index_rag.Access.Permission.{require_tenant_permission}
use llama_index_rag.Config.{
  TenantRecord, ConfigVersion, VersionState, Store, Outside, Call, TenantConfiguration, tenant_of,
  locked_tenant, active_test, load_active, validate_references, activated_versions,
  activated_tables, draft_version, create_version, superseded_by,
}
use llama_index_rag.Config.Active.{advance, activate-tables}
use llama_index_rag.Config.Effect.{locked_tenant-ok}

not_superseded : (current : Option Key) (v : ConfigVersion) → superseded_by v.id current v ≡ false
not_superseded none v = refl
not_superseded (some current_id) v = ground arith

-- The row that was inserted in front is found once it is active.
found-activated :
    (call : Call) (tenant : TenantRecord) (version : ConfigVersion) (versions : List ConfigVersion)
    → find_first
        (active_test version.tenant_id version.id)
        (activated_versions call tenant version (version ∷ versions))
      ≡ some (record version { state = VersionState.active; activated_at = some call.now })
unfolding activated_versions
found-activated call tenant version versions =
    rw
      (
        not_superseded tenant.active_config_version_id version,
        ==_refl version.id,
        ==_refl version.tenant_id,
        ==_refl version.id,
        ==_refl version.tenant_id,
      )
      refl

load_active-found :
    (outside : Outside) (store : Store) (tenant_id : Key) (tenant : TenantRecord)
    (version : ConfigVersion) (config : TenantConfiguration)
    → find_first (λ t. t.id == tenant_id) store.tenants ≡ some tenant
    → tenant.active_config_version_id ≡ some version.id
    → find_first (active_test tenant.id version.id) store.versions ≡ some version
    → outside.model_validate version.config ≡ some config
    → load_active outside store tenant_id ≡ ok (tenant, version, config)
unfolding load_active tenant_of
load_active-found outside store tenant_id tenant version config found points there valid =
    rw (found, points, there, valid) refl

-- In the store that a creation with activation leaves, the tenant reads the configuration that was
-- given, under the identifier of the new version, if dumping and validating that configuration
-- gives it back.
pub created_configuration_is_active :
    (outside : Outside) (call : Call) (identity : RequestIdentity) (raw : Payload) (expected : ℕ)
    (store : Store) (config : TenantConfiguration) {after : Store}
    → outside.model_validate raw ≡ some config
    → outside.model_validate (outside.model_dump config) ≡ some config
    → create_version outside call identity raw expected true store ≡ ok after
    → (tenant : TenantRecord) × ((version : ConfigVersion) × ((load_active outside after
              identity.tenant_id
            ≡ ok (tenant, version, config))
          × (version.id ≡ call.version_id)))
unfolding create_version draft_version activated_tables
created_configuration_is_active outside call identity raw expected store config {after} valid
      returns h =
    let permitted = >>-ok (require_tenant_permission identity "configuration.write") _ h in
    let (read, (validated, known)) =
      >>=-ok (or_raise (outside.model_validate raw) (app_error invalid_request 422)) _ permitted in
    let same_config : read ≡ config = some-injective (
      sym (or_raise-ok (outside.model_validate raw) (app_error invalid_request 422) validated)
      ∙ valid) in
    let (tenant, (locked, held)) =
      >>=-ok (locked_tenant store identity.tenant_id expected) _ known in
    let (_, (_, activated)) = >>=-ok (validate_references store identity.tenant_id read) _ held in
    let (found, fits) = locked_tenant-ok store identity.tenant_id expected locked in
    let version = draft_version outside call identity tenant read store.versions in
    let (tenants_eq, versions_eq) =
      activate-tables outside call identity tenant version
        (record store { versions = version ∷ store.versions }) activated in
    let changed = advance version.id (suc tenant.revision) tenant in
    let active = record version { state = VersionState.active; activated_at = some call.now } in
    let own : tenant.id ≡ identity.tenant_id =
      eq_of_== tenant.id identity.tenant_id
        (find_first_test (λ t. t.id == identity.tenant_id) store.tenants found) in
    let moved : find_first (λ t. t.id == identity.tenant_id)
          (update_where (λ t. t.id == tenant.id) (advance version.id (suc tenant.revision))
            store.tenants)
        ≡ some changed =
      find_first-update_where (λ t. t.id == identity.tenant_id) (λ t. t.id == tenant.id)
        (advance version.id (suc tenant.revision)) (λ t. refl) store.tenants tenant found
      ∙ rw (==_refl tenant.id) refl in
    (
      changed,
      (
        active,
        (
          load_active-found outside after identity.tenant_id changed active config
              (subst (λ ts. find_first (λ t. t.id == identity.tenant_id) ts ≡ some changed)
                (sym tenants_eq) moved)
              refl
              (subst (λ vs. find_first (active_test tenant.id version.id) vs ≡ some active)
                (sym versions_eq)
                (subst
                  (λ k.
                    find_first (active_test k version.id)
                      (activated_versions call tenant version (version ∷ store.versions))
                    ≡ some active)
                  (sym own) (found-activated call tenant version store.versions)))
              (ap (λ (c : TenantConfiguration). outside.model_validate (outside.model_dump c))
                  same_config
                ∙ returns),
          refl,
        ),
      ),
    )
  where
    some-injective : {a b : TenantConfiguration} → some a ≡ some b → a ≡ b
    some-injective h = cc

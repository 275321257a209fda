-- ===== src/Config/Effect.antt =====
-- What the operations on a tenant's configuration find and leave.
use llama_index_rag.Base.{
  Key, ℕ, suc, ◌≡◌, refl, sym, ◌∙◌, ap, subst, Bool, true, false, not, ◌==◌, if◌then◌else◌, Option,
  none, some, List, ◌∷◌, find_first, find_first_test, find_first-update_where, update_where, All,
  All-map, ok, app_error, conflict, not_found, invalid_request, arith, ==_refl, eq_of_==, >>=-ok,
  >>-ok, or_raise-ok, raise_if-ok, raise_if, or_raise, ok-injective, and_right, ◌>>◌,
}
use llama_index_rag.Domain.Message.{Payload}
use llama_index_rag.Access.Identity.{RequestIdentity}
use llama_index_rag.Access.Permission.{require_tenant_permission}
use llama_index_rag.Config.{
  TenantRecord, ConfigVersion, Store, Outside, Call, is_active_version, tenant_of, locked_tenant,
  version_test, validate_references, activated_tables, activate, draft_version, keep_draft,
  record_change, create_version, activate_version, rollback,
}
use llama_index_rag.Config.Active.{
  IsPointed, IsSettled, advance, revise, activated-IsPointed, activate-tables, pointed-revise,
}

-- What a request that succeeds has done: it found the tenant with the expected revision, and it
-- activated one of its versions, or inserted a draft.
pub locked_tenant-ok :
    (store : Store) (tenant_id : Key) (expected : ℕ) {tenant : TenantRecord}
    → locked_tenant store tenant_id expected ≡ ok tenant
    → (find_first (λ t. t.id == tenant_id) store.tenants ≡ some tenant)
      × ((tenant.revision == expected) ≡ true)
unfolding locked_tenant tenant_of
locked_tenant-ok store tenant_id expected {tenant} h =
    let (t, (found, rest)) =
      >>=-ok
        (or_raise (find_first (λ t. t.id == tenant_id) store.tenants) (app_error not_found 404))
        (λ t. raise_if (not (t.revision == expected)) (app_error conflict 409) >> ok t) h in
    let same : t ≡ tenant =
      ok-injective
        (>>-ok (raise_if (not (t.revision == expected)) (app_error conflict 409)) (ok t) rest) in
    let fits : not (t.revision == expected) ≡ false =
      raise_if-ok (not (t.revision == expected)) (app_error conflict 409) (ok t) rest in
    subst
      (λ (t : TenantRecord).
        (find_first (λ x. x.id == tenant_id) store.tenants ≡ some t)
        × ((t.revision == expected) ≡ true))
      same
      (
        or_raise-ok (find_first (λ t. t.id == tenant_id) store.tenants) (app_error not_found 404)
            found,
        ground (arith, fits),
      )

-- What a request that succeeds has found, and what it leaves.
abbrev pub revision_of : List TenantRecord → Key → Option ℕ
revision_of ts tenant_id = elim (find_first (λ t. t.id == tenant_id) ts) [
  | none ↦ none
  | some t ↦ some t.revision
]

abbrev pub Advanced : Key → ℕ → Store → Store → Type 0
Advanced tenant_id expected store after =
    (revision_of store.tenants tenant_id ≡ some expected)
    × ((revision_of after.tenants tenant_id ≡ some (suc expected))
        × (IsSettled store → IsSettled after))

revision_of-update :
    (tenant_id : Key) (f : TenantRecord → TenantRecord) (ts : List TenantRecord)
    (tenant : TenantRecord)
    → ((t : TenantRecord) → ((f t).id == tenant_id) ≡ (t.id == tenant_id))
    → find_first (λ t. t.id == tenant_id) ts ≡ some tenant
    → revision_of (update_where (λ t. t.id == tenant.id) f ts) tenant_id ≡ some (f tenant).revision
revision_of-update tenant_id f ts tenant same found =
    let later =
      find_first-update_where (λ t. t.id == tenant_id) (λ t. t.id == tenant.id) f same ts tenant
        found in
    rw (later, ==_refl tenant.id, revision_of) refl

revision_of-found :
    (tenant_id : Key) (ts : List TenantRecord) {tenant : TenantRecord}
    → find_first (λ t. t.id == tenant_id) ts ≡ some tenant
    → revision_of ts tenant_id ≡ some tenant.revision
revision_of-found tenant_id ts h = rw (h, revision_of) refl

IsSettled-tables :
    (a b : Store) → a.tenants ≡ b.tenants → a.versions ≡ b.versions → IsSettled b → IsSettled a
unfolding IsSettled
IsSettled-tables a b t v h =
    subst (λ vs. All (IsPointed a.tenants) vs) (sym v)
      (subst (λ ts. All (IsPointed ts) b.versions) (sym t) h)

-- The store in which a version is activated has the tenants of the one before.
activate-Advanced :
    (outside : Outside) (call : Call) (identity : RequestIdentity) (expected : ℕ)
    (tenant : TenantRecord) (version : ConfigVersion) (store inserted : Store) {after : Store}
    → find_first (λ t. t.id == identity.tenant_id) store.tenants ≡ some tenant
    → (tenant.revision == expected) ≡ true
    → version.tenant_id ≡ identity.tenant_id
    → inserted.tenants ≡ store.tenants
    → (IsSettled store → IsSettled inserted)
    → activate outside call identity tenant version inserted ≡ ok after
    → Advanced identity.tenant_id expected store after
unfolding activated_tables
activate-Advanced outside call identity expected tenant version store inserted {after} found fits
      own same settled h =
    let (tenants_eq, versions_eq) =
      activate-tables outside call identity tenant version inserted h in
    let exact : tenant.revision ≡ expected = eq_of_== tenant.revision expected fits in
    let there : find_first (λ t. t.id == identity.tenant_id) inserted.tenants ≡ some tenant =
      subst (λ ts. find_first (λ t. t.id == identity.tenant_id) ts ≡ some tenant) (sym same)
        found in
    let moved : revision_of after.tenants identity.tenant_id ≡ some (suc tenant.revision) =
      ap (λ ts. revision_of ts identity.tenant_id) tenants_eq
      ∙ revision_of-update identity.tenant_id (advance version.id (suc tenant.revision))
          inserted.tenants tenant (λ t. refl) there in
    (
      revision_of-found identity.tenant_id store.tenants found ∙ ap some exact,
      (
        moved ∙ ap (λ n. some (suc n)) exact,
        λ was.
            IsSettled-tables after (activated_tables call tenant version inserted) tenants_eq
              versions_eq
              (activated-IsPointed call tenant version inserted
                (subst (λ k. find_first (λ t. t.id == k) inserted.tenants ≡ some tenant) (sym own)
                  there)
                (settled was)),
      ),
    )

keep_draft-Advanced :
    (outside : Outside) (call : Call) (identity : RequestIdentity) (expected : ℕ)
    (tenant : TenantRecord) (version : ConfigVersion) (store inserted : Store)
    → find_first (λ t. t.id == identity.tenant_id) store.tenants ≡ some tenant
    → (tenant.revision == expected) ≡ true
    → inserted.tenants ≡ store.tenants
    → (IsSettled store → IsSettled inserted)
    → Advanced identity.tenant_id expected store
        (keep_draft outside call identity tenant version inserted)
unfolding keep_draft record_change IsSettled
keep_draft-Advanced outside call identity expected tenant version store inserted found fits same
      settled =
    let exact : tenant.revision ≡ expected = eq_of_== tenant.revision expected fits in
    let there : find_first (λ t. t.id == identity.tenant_id) inserted.tenants ≡ some tenant =
      subst (λ ts. find_first (λ t. t.id == identity.tenant_id) ts ≡ some tenant) (sym same)
        found in
    (
      revision_of-found identity.tenant_id store.tenants found ∙ ap some exact,
      (
        revision_of-update identity.tenant_id (revise (suc tenant.revision)) inserted.tenants tenant
              (λ t. refl) there
            ∙ ap (λ n. some (suc n)) exact,
        λ was.
            All-map (IsPointed inserted.tenants)
              (IsPointed (
                update_where (λ t. t.id == tenant.id) (revise (suc tenant.revision))
                  inserted.tenants))
              inserted.versions
              (λ v h active.
                pointed-revise (suc tenant.revision) tenant.id v.tenant_id inserted.tenants
                ∙ h active)
              (settled was),
      ),
    )

inserted-IsSettled :
    (store : Store) (v : ConfigVersion)
    → is_active_version v.state ≡ false
    → IsSettled store
    → IsSettled (record store { versions = v ∷ store.versions })
unfolding IsSettled
inserted-IsSettled store v inactive h = ((λ active. cc), h)

either-Advanced :
    (outside : Outside) (call : Call) (identity : RequestIdentity) (expected : ℕ)
    (tenant : TenantRecord) (version : ConfigVersion) (store inserted : Store) (activated : Bool)
    {after : Store}
    → find_first (λ t. t.id == identity.tenant_id) store.tenants ≡ some tenant
    → (tenant.revision == expected) ≡ true
    → version.tenant_id ≡ identity.tenant_id
    → inserted.tenants ≡ store.tenants
    → (IsSettled store → IsSettled inserted)
    → (if activated
        then activate outside call identity tenant version inserted
        else ok (keep_draft outside call identity tenant version inserted))
      ≡ ok after
    → Advanced identity.tenant_id expected store after
either-Advanced outside call identity expected tenant version store inserted true found fits own
      same settled h =
    activate-Advanced outside call identity expected tenant version store inserted found fits own
      same settled h
either-Advanced outside call identity expected tenant version store inserted false found fits own
      same settled h =
    subst (Advanced identity.tenant_id expected store) (ok-injective h) (
      keep_draft-Advanced outside call identity expected tenant version store inserted found fits
        same settled)

pub create-Advanced :
    (outside : Outside) (call : Call) (identity : RequestIdentity) (raw : Payload) (expected : ℕ)
    (activated : Bool) (store : Store) {after : Store}
    → create_version outside call identity raw expected activated store ≡ ok after
    → Advanced identity.tenant_id expected store after
unfolding create_version draft_version
create-Advanced outside call identity raw expected activated store {after} h =
    let permitted = >>-ok (require_tenant_permission identity "configuration.write") _ h in
    let (config, (_, known)) =
      >>=-ok (or_raise (outside.model_validate raw) (app_error invalid_request 422)) _ permitted in
    let (tenant, (locked, held)) =
      >>=-ok (locked_tenant store identity.tenant_id expected) _ known in
    let (_, (_, valid)) = >>=-ok (validate_references store identity.tenant_id config) _ held in
    let (found, fits) = locked_tenant-ok store identity.tenant_id expected locked in
    let version = draft_version outside call identity tenant config store.versions in
    either-Advanced outside call identity expected tenant version store
      (record store { versions = version ∷ store.versions }) activated found fits refl refl
      (inserted-IsSettled store version refl) valid

pub activate_version-Advanced :
    (outside : Outside) (call : Call) (identity : RequestIdentity) (version_id : Key) (expected : ℕ)
    (store : Store) {after : Store}
    → activate_version outside call identity version_id expected store ≡ ok after
    → Advanced identity.tenant_id expected store after
unfolding activate_version
activate_version-Advanced outside call identity version_id expected store h =
    let permitted = >>-ok (require_tenant_permission identity "configuration.write") _ h in
    let (tenant, (locked, held)) =
      >>=-ok (locked_tenant store identity.tenant_id expected) _ permitted in
    let (found, fits) = locked_tenant-ok store identity.tenant_id expected locked in
    let (version, (known, read)) =
      >>=-ok
        (or_raise (find_first (version_test identity.tenant_id version_id) store.versions)
          (app_error not_found 404))
        _ held in
    let test = find_first_test (version_test identity.tenant_id version_id) store.versions (
      or_raise-ok (find_first (version_test identity.tenant_id version_id) store.versions)
        (app_error not_found 404) known) in
    let own : version.tenant_id ≡ identity.tenant_id =
      eq_of_== version.tenant_id identity.tenant_id
        (and_right (version.id == version_id) (version.tenant_id == identity.tenant_id) test) in
    let (config, (_, checked)) =
      >>=-ok (or_raise (outside.model_validate version.config) (app_error invalid_request 422)) _
        read in
    let (_, (_, valid)) = >>=-ok (validate_references store identity.tenant_id config) _ checked in
    activate-Advanced outside call identity expected tenant version store store found fits own refl
      (λ was. was) valid

pub rollback-Advanced :
    (outside : Outside) (call : Call) (identity : RequestIdentity) (version_id : Key) (expected : ℕ)
    (store : Store) {after : Store}
    → rollback outside call identity version_id expected store ≡ ok after
    → Advanced identity.tenant_id expected store after
unfolding rollback
rollback-Advanced outside call identity version_id expected store h =
    let permitted = >>-ok (require_tenant_permission identity "configuration.write") _ h in
    let (source, (_, copied)) =
      >>=-ok
        (or_raise (find_first (version_test identity.tenant_id version_id) store.versions)
          (app_error not_found 404))
        _ permitted in
    create-Advanced outside call identity source.config expected true store copied

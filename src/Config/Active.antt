-- ===== src/Config/Active.antt =====
-- Which versions of a configuration are active.
use llama_index_rag.Base.{
  Key, ℕ, suc, ◌≡◌, refl, sym, ◌∙◌, ap, subst, inl, inr, true, false, ◌==◌, if◌then◌else◌, Option,
  none, some, List, [], ◌∷◌, find_first, find_first_test, update_where, All, All-update, Result, ok,
  err, arith, Bool-cases, eq_of_==, ok-injective, and_left, and_right,
}
use llama_index_rag.Access.Identity.{RequestIdentity}
use llama_index_rag.Outbox.{OutboxRecord}
use llama_index_rag.Config.{
  TenantRecord, ConfigVersion, VersionState, Store, Outside, Call, is_active_version, version_test,
  activated_versions, activated_tables, superseded_by, supersede, announced, record_activation,
  activate, record_change,
}

-- What the tenant points to.
abbrev pub pointed : List TenantRecord → Key → Option Key
pointed tenants tenant_id = elim (find_first (λ t. t.id == tenant_id) tenants) [
  | none ↦ none
  | some t ↦ t.active_config_version_id
]

-- A version is active only if its tenant points to it.
abbrev pub IsPointed : List TenantRecord → ConfigVersion → Type 0
IsPointed tenants v = is_active_version v.state ≡ true → pointed tenants v.tenant_id ≡ some v.id

unfoldable pub IsSettled : Store → Type 0
IsSettled store = All (IsPointed store.tenants) store.versions

-- A tenant's row once it points to a version, and once only its revision has moved.
abbrev pub advance : Key → ℕ → TenantRecord → TenantRecord
advance version_id revision t = record t {
  active_config_version_id = some version_id;
  revision = revision;
}

abbrev pub revise : ℕ → TenantRecord → TenantRecord
revise revision t = record t { revision = revision }

pointed-advance :
    (version_id : Key) (revision : ℕ) (tenant_id : Key) (ts : List TenantRecord)
    {tenant : TenantRecord}
    → find_first (λ t. t.id == tenant_id) ts ≡ some tenant
    → pointed (update_where (λ t. t.id == tenant_id) (advance version_id revision) ts) tenant_id
      ≡ some version_id
pointed-advance version_id revision tenant_id [] h = cc
pointed-advance version_id revision tenant_id (t ∷ ts) {tenant} h =
    ground (arith, pointed-advance version_id revision tenant_id ts {tenant = tenant})

pointed-advance_other :
    (version_id : Key) (revision : ℕ) (tenant_id k : Key) (ts : List TenantRecord)
    → (k == tenant_id) ≡ false
    → pointed (update_where (λ t. t.id == tenant_id) (advance version_id revision) ts) k
      ≡ pointed ts k
pointed-advance_other version_id revision tenant_id k [] h = refl
pointed-advance_other version_id revision tenant_id k (t ∷ ts) h =
    ground (arith, pointed-advance_other version_id revision tenant_id k ts h)

pointed-found :
    (tenant_id : Key) (ts : List TenantRecord) {tenant : TenantRecord}
    → find_first (λ t. t.id == tenant_id) ts ≡ some tenant
    → pointed ts tenant_id ≡ tenant.active_config_version_id
pointed-found tenant_id ts h = rw (h, pointed) refl

pub pointed-revise :
    (revision : ℕ) (tenant_id k : Key) (ts : List TenantRecord)
    → pointed (update_where (λ t. t.id == tenant_id) (revise revision) ts) k ≡ pointed ts k
pointed-revise revision tenant_id k [] = refl
pointed-revise revision tenant_id k (t ∷ ts) =
    ground (arith, pointed-revise revision tenant_id k ts)

announced-tables :
    (outside : Outside) (tenant_id : Key) (store : Store)
    (added : Result (OutboxRecord × List OutboxRecord)) {after : Store}
    → announced outside tenant_id store added ≡ ok after
    → (after.tenants ≡ store.tenants) × (after.versions ≡ store.versions)
announced-tables outside tenant_id store (ok (_, outbox)) h =
    let same = ok-injective h in
    (sym (ap (λ (s : Store). s.tenants) same), sym (ap (λ (s : Store). s.versions) same))
announced-tables outside tenant_id store (err e) h = cc

pub activate-tables :
    (outside : Outside) (call : Call) (identity : RequestIdentity) (tenant : TenantRecord)
    (version : ConfigVersion) (store : Store) {after : Store}
    → activate outside call identity tenant version store ≡ ok after
    → (after.tenants ≡ (activated_tables call tenant version store).tenants)
      × (after.versions ≡ (activated_tables call tenant version store).versions)
unfolding activate record_change
activate-tables outside call identity tenant version store {after} h =
    announced-tables outside identity.tenant_id
      (record_activation outside call identity version (activated_tables call tenant version store))
      _ h

chosen :
    (call : Call) (later : List TenantRecord) (version v : ConfigVersion)
    → pointed later version.tenant_id ≡ some version.id
    → IsPointed later v
    → IsPointed later (
        if version_test version.tenant_id version.id v
        then record v { state = VersionState.active; activated_at = some call.now }
        else v)
chosen call later version v here h =
    elim (Bool-cases (version_test version.tenant_id version.id v)) [
      | inl hit ↦
          let same_id : v.id ≡ version.id =
            eq_of_== v.id version.id
              (and_left (v.id == version.id) (v.tenant_id == version.tenant_id) hit) in
          let same_tenant : v.tenant_id ≡ version.tenant_id =
            eq_of_== v.tenant_id version.tenant_id
              (and_right (v.id == version.id) (v.tenant_id == version.tenant_id) hit) in
          rw hit (λ active. rw (same_tenant, same_id) here)
      | inr miss ↦ rw miss h
    ]

others :
    (later ts : List TenantRecord) (version v : ConfigVersion) (current : Option Key)
    → pointed later version.tenant_id ≡ some version.id
    → pointed ts version.tenant_id ≡ current
    → ((v.tenant_id == version.tenant_id) ≡ false
        → pointed later v.tenant_id ≡ pointed ts v.tenant_id)
    → IsPointed ts v
    → IsPointed later (if superseded_by version.id current v then supersede v else v)
others later ts version v current here was elsewhere h =
    elim (Bool-cases (superseded_by version.id current v)) [
      | inl gone ↦ rw gone (λ active. cc)
      | inr kept ↦ rw kept (λ active. elim (Bool-cases (v.tenant_id == version.tenant_id)) [
        | inl own ↦
            let same : v.tenant_id ≡ version.tenant_id =
              eq_of_== v.tenant_id version.tenant_id own in
            let mine : current ≡ some v.id =
              sym was ∙ subst (λ k. pointed ts k ≡ some v.id) same (h active) in
            let last : superseded_by version.id (some v.id) v ≡ false =
              subst (λ c. superseded_by version.id c v ≡ false) mine kept in
            let same_id : v.id ≡ version.id = ground (arith, last) in rw (same, same_id) here
        | inr foreign ↦ elsewhere foreign ∙ h active
      ])
    ]

-- Activation for a tenant leaves its version as the only one that is active.
pub activated-IsPointed :
    (call : Call) (tenant : TenantRecord) (version : ConfigVersion) (store : Store)
    → find_first (λ t. t.id == version.tenant_id) store.tenants ≡ some tenant
    → IsSettled store
    → IsSettled (activated_tables call tenant version store)
unfolding activated_tables activated_versions IsSettled
activated-IsPointed call tenant version store found settled =
    let same : tenant.id ≡ version.tenant_id =
      eq_of_== tenant.id version.tenant_id
        (find_first_test (λ t. t.id == version.tenant_id) store.tenants found) in
    let later : List TenantRecord =
      update_where (λ t. t.id == tenant.id) (advance version.id (suc tenant.revision))
        store.tenants in
    let here : pointed later version.tenant_id ≡ some version.id =
      subst
        (λ k.
          pointed
            (update_where (λ t. t.id == k) (advance version.id (suc tenant.revision)) store.tenants)
            version.tenant_id
          ≡ some version.id)
        (sym same)
        (pointed-advance version.id (suc tenant.revision) version.tenant_id store.tenants found) in
    let was : pointed store.tenants version.tenant_id ≡ tenant.active_config_version_id =
      pointed-found version.tenant_id store.tenants found in
    let elsewhere : (k : Key)
        → (k == version.tenant_id) ≡ false
        → pointed later k ≡ pointed store.tenants k =
      λ k other.
        pointed-advance_other version.id (suc tenant.revision) tenant.id k store.tenants
          (ground (arith, same, other)) in
    All-update (IsPointed later) (IsPointed later) (version_test version.tenant_id version.id)
      (λ v. record v { state = VersionState.active; activated_at = some call.now })
      (update_where (superseded_by version.id tenant.active_config_version_id) supersede
        store.versions)
      (λ v h. chosen call later version v here h)
      (All-update (IsPointed store.tenants) (IsPointed later)
        (superseded_by version.id tenant.active_config_version_id) supersede store.versions
        (λ v h.
          others later store.tenants version v tenant.active_config_version_id here was
            (λ other. elsewhere v.tenant_id other) h)
        settled)

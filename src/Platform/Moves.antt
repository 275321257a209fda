-- ===== src/Platform/Moves.antt =====
-- What a change of a tenant's lifecycle leaves, and who may enter the tenant then.
use Prim.Native.String.{String}
use text.Mathlib.Text.{◌==◌ as str_eq}
use llama_index_rag.Base.{
  Key, ℕ, ◌≡◌, refl, sym, ◌∙◌, ap, subst, inl, inr, false, not, ◌&&◌, ◌==◌, Option, some, List, [],
  ◌∷◌, map, find_first, find_first-update_where, ok, err, app_error, not_found, conflict,
  invalid_request, tenant_not_active, arith, Bool-cases, ==_refl, eq_of_==, >>=-ok, >>-ok,
  or_raise-ok, raise_if-ok, ok-injective, or_raise, raise_if, as_error,
}
use llama_index_rag.Domain.Lifecycle.{TenantState, require_tenant_transition}
use llama_index_rag.Domain.Message.{Payload}
use llama_index_rag.Access.Identity.{AuthenticatedSubject}
use llama_index_rag.Access.Permission.{require_platform_permission}
use llama_index_rag.Access.Context.{Tenant, Database, first_text, resolve_tenant_context}
use llama_index_rag.Outbox.{OutboxRecord, add}
use llama_index_rag.Config.{TenantRecord, Store, Outside, Call}
use llama_index_rag.Platform.{
  locked, change_tenant, with_outbox, record_lifecycle, lifecycle_event, lifecycle_audited,
  updated_name, renamed, update_metadata, closes, moved_to, action_of, transition,
}

-- The row of a tenant.
abbrev pub row_of : Key → Store → Option TenantRecord
row_of tenant_id store = find_first (λ t. t.id == tenant_id) store.tenants

with_outbox-tenants :
    (store : Store) (added : OutboxRecord × List OutboxRecord) {after : Store}
    → with_outbox store added ≡ ok after
    → after.tenants ≡ store.tenants
with_outbox-tenants store (r, outbox) h = ap (λ (s : Store). s.tenants) (sym (ok-injective h))

record_lifecycle-tenants :
    (outside : Outside) (call : Call) (subject : AuthenticatedSubject) (tenant : TenantRecord)
    (action : String) (details : Payload) (store : Store) {after : Store}
    → record_lifecycle outside call subject tenant action details store ≡ ok after
    → after.tenants ≡ store.tenants
unfolding record_lifecycle
record_lifecycle-tenants outside call subject tenant action details store h =
    let (added, (_, made)) =
      >>=-ok
        (add outside.str call.outbox_id call.now (lifecycle_event outside call tenant action)
          store.outbox)
        _ h in
    with_outbox-tenants (lifecycle_audited outside call subject tenant action details store) added
      made

locked-ok :
    (tenant_id : Key) (expected : ℕ) (store : Store) {tenant : TenantRecord}
    → locked tenant_id expected store ≡ ok tenant
    → (row_of tenant_id store ≡ some tenant) × (tenant.revision ≡ expected)
unfolding locked
locked-ok tenant_id expected store {tenant} h =
    let (t, (found, rest)) =
      >>=-ok (or_raise (row_of tenant_id store) (app_error not_found 404)) _ h in
    let stale = raise_if (not (t.revision == expected)) (app_error conflict 409) in
    let same : t ≡ tenant = ok-injective (>>-ok stale (ok t) rest) in
    let fits = raise_if-ok (not (t.revision == expected)) (app_error conflict 409) (ok t) rest in
    subst (λ (x : TenantRecord). (row_of tenant_id store ≡ some x) × (x.revision ≡ expected)) same
      (
        or_raise-ok (row_of tenant_id store) (app_error not_found 404) found,
        eq_of_== t.revision expected (ground (arith, fits)),
      )

-- The row of the tenant is changed, and it had the revision that was expected.
abbrev pub Changes : Key → ℕ → (TenantRecord → TenantRecord) → Store → Store → Type 0
Changes tenant_id expected change store after =
    (tenant : TenantRecord) × ((row_of tenant_id store ≡ some tenant)
      × ((tenant.revision ≡ expected) × (row_of tenant_id after ≡ some (change tenant))))

changed-row :
    (tenant_id : Key) (change : TenantRecord → TenantRecord) (store : Store) (tenant : TenantRecord)
    (after : Store)
    → ((t : TenantRecord) → (change t).id ≡ t.id)
    → row_of tenant_id store ≡ some tenant
    → after.tenants ≡ (change_tenant tenant.id change store).tenants
    → row_of tenant_id after ≡ some (change tenant)
changed-row tenant_id change store tenant after same found tables =
    ap (find_first (λ t. t.id == tenant_id)) tables
    ∙ (find_first-update_where (λ t. t.id == tenant_id) (λ t. t.id == tenant.id) change
          (λ t. ap (λ k. k == tenant_id) (same t)) store.tenants tenant found
        ∙ rw (==_refl tenant.id) refl)

pub transition-Changes :
    (outside : Outside) (strip : String → String) (call : Call) (subject : AuthenticatedSubject)
    (tenant_id : Key) (target : TenantState) (expected : ℕ) (reason : String) (store : Store)
    {after : Store}
    → transition outside strip call subject tenant_id target expected reason store ≡ ok after
    → Changes tenant_id expected (moved_to (strip reason) call.now target) store after
unfolding transition
transition-Changes outside strip call subject tenant_id target expected reason store {after} h =
    let permitted = >>-ok (require_platform_permission subject "platform.tenant.lifecycle") _ h in
    let (tenant, (held, allowed)) = >>=-ok (locked tenant_id expected store) _ permitted in
    let (found, exact) = locked-ok tenant_id expected store held in
    let (_, (_, reasoned)) =
      >>=-ok (as_error (app_error conflict 409) (require_tenant_transition tenant.state target)) _
        allowed in
    let (_, (_, recorded)) =
      >>=-ok (raise_if (closes target && str_eq (strip reason) "") (app_error invalid_request 422))
        _ reasoned in
    let change = moved_to (strip reason) call.now target in
    let tables =
      record_lifecycle-tenants outside call subject (change tenant) (action_of target) _
        (change_tenant tenant.id change store) recorded in
    (
      tenant,
      (found, (exact, changed-row tenant_id change store tenant after (λ t. refl) found tables)),
    )

pub update_metadata-Changes :
    (outside : Outside) (strip : String → String) (call : Call) (subject : AuthenticatedSubject)
    (tenant_id : Key) (expected : ℕ) (name : Option String) (store : Store) {after : Store}
    → update_metadata outside strip call subject tenant_id expected name store ≡ ok after
    → (new_name : String) × Changes tenant_id expected (renamed new_name) store after
unfolding update_metadata
update_metadata-Changes outside strip call subject tenant_id expected name store {after} h =
    let permitted = >>-ok (require_platform_permission subject "platform.tenant.write") _ h in
    let (tenant, (held, named)) = >>=-ok (locked tenant_id expected store) _ permitted in
    let (found, exact) = locked-ok tenant_id expected store held in
    let (new_name, (_, recorded)) = >>=-ok (updated_name strip name tenant.name) _ named in
    let tables =
      record_lifecycle-tenants outside call subject (renamed new_name tenant) _ _
        (change_tenant tenant.id (renamed new_name) store) recorded in
    (
      new_name,
      (
        tenant,
        (
          found,
          (
            exact,
            changed-row tenant_id (renamed new_name) store tenant after (λ t. refl) found tables,
          ),
        ),
      ),
    )

-- What the resolution of a login reads of a tenant.
abbrev pub seen : TenantRecord → Tenant
seen t = record {
  id = t.id;
  state = t.state;
  acl_epoch = t.acl_epoch;
  active_config_version_id = t.active_config_version_id;
}

find_first-seen :
    (tenant_id : Key) (ts : List TenantRecord) {tenant : TenantRecord}
    → find_first (λ t. t.id == tenant_id) ts ≡ some tenant
    → find_first (λ (t : Tenant). t.id == tenant_id) (map seen ts) ≡ some (seen tenant)
find_first-seen tenant_id [] h = cc
find_first-seen tenant_id (t ∷ ts) {tenant} h = elim (Bool-cases (t.id == tenant_id)) [
  | inl hit ↦
      let same : t ≡ tenant = ground (arith, h, hit) in
      rw hit (ap (λ (x : TenantRecord). some (seen x)) same)
  | inr miss ↦
      let below : find_first (λ x. x.id == tenant_id) ts ≡ some tenant = ground (arith, h, miss) in
      rw miss (find_first-seen tenant_id ts {tenant = tenant} below)
]

-- Once the platform has suspended a tenant, every login that asks for it is refused as locked,
-- whatever the rows of principals, members and groups are.
pub suspended_tenant_refuses :
    (outside : Outside) (strip : String → String) (call : Call) (actor : AuthenticatedSubject)
    (tenant_id : Key) (expected : ℕ) (reason : String) (store : Store) {after : Store}
    (strip_key : Key → Key) (db : Database) (login : AuthenticatedSubject) (selected : Option Key)
    → transition outside strip call actor tenant_id TenantState.suspended expected reason store
      ≡ ok after
    → strip_key (first_text selected login.tenant_hint) ≡ tenant_id
    → (tenant_id == 0) ≡ false
    → resolve_tenant_context strip_key
        (record db { tenants = map seen after.tenants })
        login
        selected
      ≡ err (app_error tenant_not_active 423)
unfolding resolve_tenant_context
suspended_tenant_refuses outside strip call actor tenant_id expected reason store {after} strip_key
      db login selected done asked named =
    let (tenant, (_, (_, row))) =
      transition-Changes outside strip call actor tenant_id TenantState.suspended expected reason
        store done in
    let known = find_first-seen tenant_id after.tenants row in rw (asked, named, known) refl

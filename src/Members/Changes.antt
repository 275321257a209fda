-- ===== src/Members/Changes.antt =====
-- What every change of the authorization of a tenant leaves.
use Prim.Native.String.{String}
use llama_index_rag.Base.{
  Key, ℕ, suc, ◌≡◌, refl, sym, ◌∙◌, ap, subst, false, ◌==◌, Option, some, List, ◌∷◌, find_first, ok,
  app_error, not_found, conflict, >>=-ok, >>-ok, or_raise-ok, raise_if-ok, ok-injective, ◌>>◌,
  or_raise, raise_if,
}
use llama_index_rag.Domain.Message.{Payload, number}
use llama_index_rag.Access.Identity.{RequestIdentity}
use llama_index_rag.Access.Context.{Tenant, Database, effective_roles, joined_rows}
use llama_index_rag.Retrieval.Scope.{bump_acl_epoch}
use llama_index_rag.Retrieval.Scope.Grants.{bump_acl_epoch-find}
use llama_index_rag.Outbox.{OutboxRecord, add}
use llama_index_rag.Config.{Outside}
use llama_index_rag.Members.{
  Directory, Given, audited, with_tenants, with_outbox, authorization_event, authorization_changed,
  active_administrator_count, require_active_administrator, guarded_change,
}

-- The row of a tenant.
abbrev pub tenant_row : Key → Directory → Option Tenant
tenant_row tenant_id dir = find_first (λ t. t.id == tenant_id) dir.db.tenants

with_outbox-db :
    (dir : Directory) (added : OutboxRecord × List OutboxRecord) {after : Directory}
    → with_outbox dir added ≡ ok after
    → after.db ≡ dir.db
with_outbox-db dir (r, outbox) h = ap (λ (d : Directory). d.db) (sym (ok-injective h))

-- The change of the epoch is all that it does to the rows of authorization.
pub authorization_changed-db :
    (outside : Outside) (given : Given) (identity : RequestIdentity) (action kind : String)
    (id : Key) (details : Payload) (dir : Directory) {after : Directory}
    → authorization_changed outside given identity action kind id details dir ≡ ok after
    → (epoch : ℕ) × ((tenants : List Tenant) × ((bump_acl_epoch dir.db.tenants identity.tenant_id
            ≡ ok (epoch, tenants))
          × (after.db ≡ record dir.db { tenants = tenants })))
unfolding authorization_changed audited
authorization_changed-db outside given identity action kind id details dir h =
    let ((epoch, tenants), (bumped, rest)) =
      >>=-ok (bump_acl_epoch dir.db.tenants identity.tenant_id) _ h in
    let recorded =
      audited outside given identity action kind id
        (("authorization_epoch", number epoch) ∷ details) (with_tenants tenants dir) in
    let (added, (_, made)) =
      >>=-ok
        (add outside.str given.outbox_id given.now
          (authorization_event given identity.tenant_id epoch (outside.text kind) id)
          recorded.outbox)
        _ rest in
    (epoch, (tenants, (bumped, with_outbox-db recorded added made)))

-- The row of the tenant has the next epoch, and nothing else of it changed.
unfoldable pub HasNextEpoch : Key → Directory → Directory → Type 0
HasNextEpoch tenant_id dir after =
    (tenant : Tenant) × ((tenant_row tenant_id dir ≡ some tenant)
      × (tenant_row tenant_id after ≡ some (record tenant { acl_epoch = suc tenant.acl_epoch })))

bump_acl_epoch-found :
    (tenants : List Tenant) (tenant_id : Key) {result : ℕ × List Tenant}
    → bump_acl_epoch tenants tenant_id ≡ ok result
    → (tenant : Tenant) × (find_first (λ t. t.id == tenant_id) tenants ≡ some tenant)
unfolding bump_acl_epoch
bump_acl_epoch-found tenants tenant_id h =
    let (tenant, (found, _)) =
      >>=-ok (or_raise (find_first (λ t. t.id == tenant_id) tenants) (app_error not_found 404)) _
        h in
    (
      tenant,
      or_raise-ok (find_first (λ t. t.id == tenant_id) tenants) (app_error not_found 404) found,
    )

pub authorization_changed-HasNextEpoch :
    (outside : Outside) (given : Given) (identity : RequestIdentity) (action kind : String)
    (id : Key) (details : Payload) (dir : Directory) {after : Directory}
    → authorization_changed outside given identity action kind id details dir ≡ ok after
    → HasNextEpoch identity.tenant_id dir after
unfolding HasNextEpoch
authorization_changed-HasNextEpoch outside given identity action kind id details dir {after} h =
    let t = identity.tenant_id in
    let (epoch, (tenants, (bumped, same))) =
      authorization_changed-db outside given identity action kind id details dir h in
    let (tenant, found) = bump_acl_epoch-found dir.db.tenants t bumped in
    let (next, row) = bump_acl_epoch-find dir.db.tenants tenants t tenant epoch found bumped in
    (
      tenant,
      (
        found,
        ap (λ (db : Database). find_first (λ x. x.id == t) db.tenants) same
            ∙ (row ∙ ap (λ n. some (record tenant { acl_epoch = n })) next),
      ),
    )

-- The number of administrators does not depend on the rows of tenants.
active_administrator_count-tenants :
    (db : Database) (tenants : List Tenant) (t : Key)
    → active_administrator_count (record db { tenants = tenants }) t
      ≡ active_administrator_count db t
unfolding active_administrator_count effective_roles joined_rows
active_administrator_count-tenants db tenants t = refl

-- A guarded change that succeeds in a session of a tenant leaves it an administrator.
pub guarded_change-administrator :
    (outside : Outside) (given : Given) (identity : RequestIdentity) (action kind : String)
    (id : Key) (details : Payload) (dir : Directory) {t : Key} {after : Directory}
    → given.session_tenant ≡ some t
    → guarded_change outside given identity action kind id details dir ≡ ok after
    → (active_administrator_count after.db t == 0) ≡ false
unfolding guarded_change require_active_administrator
guarded_change-administrator outside given identity action kind id details dir {t} {after} bound h =
    let changed = authorization_changed outside given identity action kind id details dir in
    let checked : raise_if (active_administrator_count dir.db t == 0) (app_error conflict 409)
          >> changed
        ≡ ok after =
      subst (λ s. require_active_administrator s dir.db >> changed ≡ ok after) bound h in
    let some_left =
      raise_if-ok (active_administrator_count dir.db t == 0) (app_error conflict 409) changed
        checked in
    let (_, (tenants, (_, same))) =
      authorization_changed-db outside given identity action kind id details dir (
        >>-ok (raise_if (active_administrator_count dir.db t == 0) (app_error conflict 409)) changed
          checked) in
    ap (λ n. n == 0)
      (ap (λ db. active_administrator_count db t) same
        ∙ active_administrator_count-tenants dir.db tenants t)
    ∙ some_left

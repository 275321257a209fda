-- ===== src/Members/Epoch.antt =====
-- The authorization epoch of a tenant under changes of its authorization.
use Prim.Native.String.{String}
use llama_index_rag.Base.{
  Key, suc, ◌≡◌, refl, sym, ◌∙◌, ap, ◌==◌, Option, none, some, List, ◌∷◌, find_first, ok, app_error,
  invalid_request, >>=-ok, >>-ok, ok-injective, ◌>>◌, raise_if,
}
use llama_index_rag.Domain.Lifecycle.{MembershipState}
use llama_index_rag.Access.Identity.{RequestIdentity}
use llama_index_rag.Access.Permission.{require_tenant_permission}
use llama_index_rag.Access.Context.{Tenant, Principal, Membership, principal_test, membership_test}
use llama_index_rag.Config.{Outside, Store, members, groups}
use llama_index_rag.Members.{
  Directory, Given, Texts, validate_roles, enroll, assign_row, assign_member, consume_one,
  require_active_administrator, guarded_change,
}
use llama_index_rag.Members.Groups.{create_group}
use llama_index_rag.Members.Changes.{tenant_row, HasNextEpoch, authorization_changed-HasNextEpoch}
use llama_index_rag.Members.Requests.{
  Change, assigns, updates, makes_group, updates_group, sets_member, sets_role, carry_out, Guarded,
  carry_out-Guarded,
}

-- The tenants that a directory holds are those of another one.
HasNextEpoch-tenants :
    (t : Key) (a b after : Directory)
    → tenant_row t b ≡ tenant_row t a
    → HasNextEpoch t b after
    → HasNextEpoch t a after
unfolding HasNextEpoch
HasNextEpoch-tenants t a b after same (tenant, (found, next)) = (tenant, (sym same ∙ found, next))

assign_row-tenants :
    (outside : Outside) (settings : Store) (given : Given) (identity : RequestIdentity)
    (principal : Principal) (roles : List String) (dir : Directory) (o : Option Membership)
    {result : Key × Directory} (t : Key)
    → assign_row outside settings given identity principal roles dir o ≡ ok result
    → tenant_row t result.1 ≡ tenant_row t dir
assign_row-tenants outside settings given identity principal roles dir none t h =
    let (usage, (_, made)) = >>=-ok (consume_one outside settings identity members dir.usage) _ h in
    ap (λ (r : Key × Directory). tenant_row t r.1) (sym (ok-injective made))
assign_row-tenants outside settings given identity principal roles dir (some m) t h =
    ap (λ (r : Key × Directory). tenant_row t r.1) (sym (ok-injective h))

assign_member-HasNextEpoch :
    (outside : Outside) (texts : Texts) (settings : Store) (given : Given)
    (identity : RequestIdentity) (external_id : Key) (roles : List String) (dir : Directory)
    {after : Directory}
    → assign_member outside texts settings given identity external_id roles dir ≡ ok after
    → HasNextEpoch identity.tenant_id dir after
unfolding assign_member
assign_member-HasNextEpoch outside texts settings given identity external_id roles dir {after} h =
    let t = identity.tenant_id in
    let external = texts.strip external_id in
    let permitted =
      >>-ok
        (require_tenant_permission identity "membership.write"
          >> raise_if (external == 0) (app_error invalid_request 422))
        _ h in
    let (canonical, (_, valid)) = >>=-ok (validate_roles roles) _ permitted in
    let (principal, principals) =
      enroll given t external dir.db.principals
        (find_first (principal_test t external) dir.db.principals) in
    let known = record dir { db = record dir.db { principals = principals } } in
    let membership = find_first (membership_test t principal.id) dir.db.memberships in
    let ((membership_id, changed), (assigned, rest)) =
      >>=-ok (assign_row outside settings given identity principal canonical known membership) _
        valid in
    HasNextEpoch-tenants t dir changed after
      (assign_row-tenants outside settings given identity principal canonical known membership t
        assigned)
      (authorization_changed-HasNextEpoch outside given identity _ _ _ _ changed rest)

create_group-HasNextEpoch :
    (outside : Outside) (texts : Texts) (settings : Store) (given : Given)
    (identity : RequestIdentity) (external_id : Key) (dir : Directory) {after : Directory}
    → create_group outside texts settings given identity external_id dir ≡ ok after
    → HasNextEpoch identity.tenant_id dir after
unfolding create_group
create_group-HasNextEpoch outside texts settings given identity external_id dir {after} h =
    let permitted = >>-ok (require_tenant_permission identity "membership.write") _ h in
    let (usage, (_, rest)) =
      >>=-ok (consume_one outside settings identity groups dir.usage) _ permitted in
    HasNextEpoch-tenants identity.tenant_id dir
      (record dir {
        usage = usage;
        db = record dir.db {
          groups =
              record {
                id = given.group_id;
                tenant_id = identity.tenant_id;
                external_id = texts.strip external_id;
                state = MembershipState.active;
                revision = 1;
              }
              ∷ dir.db.groups;
        };
      })
      after refl (authorization_changed-HasNextEpoch outside given identity _ _ _ _ _ rest)

Guarded-HasNextEpoch :
    (outside : Outside) (texts : Texts) (settings : Store) (pair : Key → Key → Key) (given : Given)
    (identity : RequestIdentity) (dir after : Directory)
    → Guarded outside texts settings pair given identity dir after
    → HasNextEpoch identity.tenant_id dir after
unfolding Guarded guarded_change
Guarded-HasNextEpoch outside texts settings pair given identity dir after
      (action, (kind, (id, (details, (changed, (same, checked)))))) =
    HasNextEpoch-tenants identity.tenant_id dir changed after same (
      authorization_changed-HasNextEpoch outside given identity action kind id details changed
        (>>-ok (require_active_administrator given.session_tenant changed.db) _ checked))

-- Every change of members, groups and roles that succeeds raises the authorization epoch of the
-- tenant of the identity by one, and leaves the rest of the tenant's row.
pub change_raises_epoch :
    (outside : Outside) (texts : Texts) (settings : Store) (pair : Key → Key → Key) (given : Given)
    (identity : RequestIdentity) (change : Change) (dir : Directory) {after : Directory}
    → carry_out outside texts settings pair given identity change dir ≡ ok after
    → (tenant : Tenant) × ((tenant_row identity.tenant_id dir ≡ some tenant)
        × (tenant_row identity.tenant_id after
            ≡ some (record tenant { acl_epoch = suc tenant.acl_epoch })))
unfolding carry_out HasNextEpoch
change_raises_epoch outside texts settings pair given identity (assigns external_id roles) dir h =
    assign_member-HasNextEpoch outside texts settings given identity external_id roles dir h
change_raises_epoch outside texts settings pair given identity (makes_group external_id) dir h =
    create_group-HasNextEpoch outside texts settings given identity external_id dir h
change_raises_epoch outside texts settings pair given identity (updates m n roles state reason) dir
      h =
    Guarded-HasNextEpoch outside texts settings pair given identity dir _ (
      carry_out-Guarded outside texts settings pair given identity (updates m n roles state reason)
        dir refl h)
change_raises_epoch outside texts settings pair given identity (updates_group g n state) dir h =
    Guarded-HasNextEpoch outside texts settings pair given identity dir _ (
      carry_out-Guarded outside texts settings pair given identity (updates_group g n state) dir
        refl h)
change_raises_epoch outside texts settings pair given identity (sets_member g p active) dir h =
    Guarded-HasNextEpoch outside texts settings pair given identity dir _ (
      carry_out-Guarded outside texts settings pair given identity (sets_member g p active) dir refl
        h)
change_raises_epoch outside texts settings pair given identity (sets_role g role active) dir h =
    Guarded-HasNextEpoch outside texts settings pair given identity dir _ (
      carry_out-Guarded outside texts settings pair given identity (sets_role g role active) dir
        refl h)

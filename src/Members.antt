-- ===== src/Members.antt =====
-- The members, groups and roles of a tenant
-- (backend/enterprise_rag/application/tenant_membership.py:TenantMembershipService). A call that
-- raises gives no tables: its transaction is rolled back. The binding of the session to a tenant
-- (set_transaction_tenant), which the database's row security reads, is left out.
mod Rows
pub mod Groups
pub mod Invitations
pub mod Recovery
pub mod Changes
pub mod Requests
pub mod Administrators
pub mod Epoch
pub mod Settled
mod Tests
unfoldable pub use Rows.*
use Prim.Native.String.{String}
use text.Mathlib.Text.{◌==◌ as str_eq}
use llama_index_rag.Base.{
  Key, ℕ, suc, pos, Bool, true, false, not, ◌&&◌, ◌||◌, ◌==◌, if◌then◌else◌, Option, none, some,
  List, [], ◌∷◌, map, find_first, update_where, Result, ok, err, app_error, invalid_request,
  conflict, not_found, ◌>>=◌, ◌>>◌, raise_if, or_raise, as_error,
}
use llama_index_rag.Domain.Lifecycle.{MembershipState, require_membership_transition}
use llama_index_rag.Domain.Message.{Payload, words, word}
use llama_index_rag.Access.Identity.{AuthenticatedSubject, RequestIdentity}
use llama_index_rag.Access.Permission.{require_tenant_permission, require_platform_permission}
use llama_index_rag.Access.Context.{
  Principal, Membership, Group, PrincipalGroup, GroupRole, Database, principal_test,
  membership_test, is_empty,
}
use llama_index_rag.Config.{QuotaResource, members, groups, Store, Outside}
use llama_index_rag.Quota.{UsageRecord, reserve, release}

-- The principal of an external subject, made when there is none.
abbrev pub new_principal : Given → Key → Key → Principal
new_principal given tenant_id external_id = record {
  id = given.principal_id;
  tenant_id = tenant_id;
  external_id = external_id;
  active = true;
  state = MembershipState.active;
  revision = 1;
}

abbrev pub enroll :
    Given → Key → Key → List Principal → Option Principal → Principal × List Principal
enroll given tenant_id external_id principals none = (
  new_principal given tenant_id external_id,
  new_principal given tenant_id external_id ∷ principals,
)
enroll given tenant_id external_id principals (some p) = (p, principals)

abbrev pub new_membership : Given → Key → Key → List String → String → Membership
new_membership given tenant_id principal_id roles reason = record {
  id = given.membership_id;
  tenant_id = tenant_id;
  principal_id = principal_id;
  state = MembershipState.active;
  direct_roles = roles;
  revision = 1;
  state_reason = reason;
}

-- One unit of a resource, reserved and consumed, for an identity with a configuration.
unfoldable pub consume_one :
    Outside → Store → RequestIdentity → QuotaResource → List UsageRecord → Result (List UsageRecord)
consume_one outside settings identity resource usage = elim identity.configuration_version_id [
  | none ↦ ok usage
  | some _ ↦ do
    (reservation, held) ← reserve outside settings identity resource (pos 1) usage
    (_, after) ← release reservation true held
    ok after
]

-- The two branches of `assign_member`, with the identifier of the membership.
abbrev pub assign_row :
    Outside
    → Store
    → Given
    → RequestIdentity
    → Principal
    → List String
    → Directory
    → Option Membership
    → Result (Key × Directory)
assign_row outside settings given identity principal roles dir none = do
  usage ← consume_one outside settings identity members dir.usage
  let row =
      new_membership given identity.tenant_id principal.id roles "assigned by tenant administrator"
  ok (
    row.id,
    record dir { usage = usage; db = record dir.db { memberships = row ∷ dir.db.memberships } },
  )
assign_row outside settings given identity principal roles dir (some m) = ok (
  m.id,
  record dir {
    db = record dir.db {
      memberships =
          update_where (λ x. x.id == m.id)
            (λ x. record x {
              state = MembershipState.active;
              direct_roles = roles;
              state_reason = "reassigned by tenant administrator";
              revision = suc x.revision;
            })
            dir.db.memberships;
      principals =
          update_where (λ p. p.id == principal.id)
            (λ p. record p {
              state = MembershipState.active;
              active = true;
              revision = suc p.revision;
            })
            dir.db.principals;
    };
  },
)

unfoldable pub assign_member :
    Outside
    → Texts
    → Store
    → Given
    → RequestIdentity
    → Key
    → List String
    → Directory
    → Result Directory
assign_member outside texts settings given identity external_id roles dir =
    let external = texts.strip external_id in
    require_tenant_permission identity "membership.write"
    >> raise_if (external == 0) (app_error invalid_request 422)
    >> (do
      canonical ← validate_roles roles
      let (principal, principals) =
          enroll given identity.tenant_id external dir.db.principals
            (find_first (principal_test identity.tenant_id external) dir.db.principals)
      (membership_id, changed) ←
          assign_row outside settings given identity principal canonical
            (record dir { db = record dir.db { principals = principals } })
            (find_first (membership_test identity.tenant_id principal.id) dir.db.memberships)
      authorization_changed outside given identity "membership.assign" "tenant_membership"
          membership_id
          (("roles", words (map outside.text canonical)) ∷ ("external_id", word external) ∷ [])
          changed)

-- What the four changes that may take an administrator away end with.
unfoldable pub guarded_change :
    Outside
    → Given
    → RequestIdentity
    → String
    → String
    → Key
    → Payload
    → Directory
    → Result Directory
guarded_change outside given identity action resource_type resource_id details dir =
    require_active_administrator given.session_tenant dir.db
    >> authorization_changed outside given identity action resource_type resource_id details dir

-- The roles and the state that `update_member` writes.
unfoldable pub updated_roles : Option (List String) → List String → Result (List String)
updated_roles none old = ok old
updated_roles (some roles) old = validate_roles roles

-- `state not in {ACTIVE, SUSPENDED, REMOVED}`.
abbrev pub is_invited : MembershipState → Bool
is_invited MembershipState.invited = true
is_invited _ = false

unfoldable pub updated_state : Option MembershipState → MembershipState → Result MembershipState
updated_state none old = ok old
updated_state (some state) old =
    raise_if (is_invited state) (app_error invalid_request 422)
    >> as_error (app_error conflict 409) (require_membership_transition old state)
    >> ok state

abbrev pub state_name : MembershipState → String
state_name MembershipState.invited = "invited"
state_name MembershipState.active = "active"
state_name MembershipState.suspended = "suspended"
state_name MembershipState.removed = "removed"

abbrev pub row_test : Key → Key → Membership → Bool
row_test tenant_id membership_id m = m.id == membership_id && m.tenant_id == tenant_id

unfoldable pub update_member :
    Outside
    → Texts
    → Given
    → RequestIdentity
    → Key
    → ℕ
    → Option (List String)
    → Option MembershipState
    → String
    → Directory
    → Result Directory
update_member outside texts given identity membership_id expected_revision roles state reason dir =
    require_tenant_permission identity "membership.write" >> (do
      m ←
          or_raise (find_first (row_test identity.tenant_id membership_id) dir.db.memberships)
            (app_error not_found 404)
      _ ← raise_if (not (m.revision == expected_revision)) (app_error conflict 409)
      new_roles ← updated_roles roles m.direct_roles
      new_state ← updated_state state m.state
      let rows =
          update_where (row_test identity.tenant_id membership_id)
            (λ x. record x {
              direct_roles = new_roles;
              state = new_state;
              state_reason = texts.strip_text reason;
              revision = suc m.revision;
            })
            dir.db.memberships
      guarded_change outside given identity "membership.update" "tenant_membership" m.id
          (("state", word (outside.text (state_name new_state)))
            ∷ ("roles", words (map outside.text new_roles))
            ∷ ("reason", word (outside.text reason))
            ∷ [])
          (record dir { db = record dir.db { memberships = rows } }))

-- ===== src/Members/Groups.antt =====
-- The groups of a tenant, their members and their roles
-- (backend/enterprise_rag/application/tenant_membership.py:TenantMembershipService).
use Prim.Native.String.{String}
use text.Mathlib.Text.{◌==◌ as str_eq}
use llama_index_rag.Base.{
  Key, ℕ, suc, Bool, not, ◌&&◌, ◌==◌, if◌then◌else◌, Option, none, some, List, [], ◌∷◌, find_first,
  update_where, Result, ok, err, app_error, invalid_request, conflict, not_found, ◌>>=◌, ◌>>◌,
  raise_if, or_raise,
}
use llama_index_rag.Domain.Lifecycle.{MembershipState}
use llama_index_rag.Domain.Message.{word, number}
use llama_index_rag.Access.Identity.{RequestIdentity}
use llama_index_rag.Access.Permission.{require_tenant_permission}
use llama_index_rag.Access.Context.{Group, PrincipalGroup, GroupRole}
use llama_index_rag.Config.{groups, Store, Outside}
use llama_index_rag.Members.{
  Directory, Given, Texts, validate_roles, group_of, consume_one, authorization_changed,
  guarded_change, state_name,
}

unfoldable pub create_group :
    Outside → Texts → Store → Given → RequestIdentity → Key → Directory → Result Directory
create_group outside texts settings given identity external_id dir =
    require_tenant_permission identity "membership.write" >> (do
      usage ← consume_one outside settings identity groups dir.usage
      let row : Group = record {
        id = given.group_id;
        tenant_id = identity.tenant_id;
        external_id = texts.strip external_id;
        state = MembershipState.active;
        revision = 1;
      }
      authorization_changed outside given identity "group.create" "tenant_group" row.id
          (("external_id", word row.external_id) ∷ [])
          (record dir { usage = usage; db = record dir.db { groups = row ∷ dir.db.groups } }))

-- A state of a group is one of three texts.
unfoldable pub group_state : Option String → MembershipState → Result MembershipState
group_state none old = ok old
group_state (some state) old =
    if str_eq state "active"
    then ok MembershipState.active
    else if str_eq state "suspended"
    then ok MembershipState.suspended
    else if str_eq state "removed"
    then ok MembershipState.removed
    else err (app_error invalid_request 422)

unfoldable pub update_group :
    Outside → Given → RequestIdentity → Key → ℕ → Option String → Directory → Result Directory
update_group outside given identity group_id expected_revision state dir =
    require_tenant_permission identity "membership.write" >> (do
      group ← group_of dir.db identity.tenant_id group_id
      _ ← raise_if (not (group.revision == expected_revision)) (app_error conflict 409)
      new_state ← group_state state group.state
      let rows =
          update_where (λ g. g.id == group.id)
            (λ g. record g { state = new_state; revision = suc group.revision }) dir.db.groups
      guarded_change outside given identity "group.update" "tenant_group" group.id
          (("state", word (outside.text (state_name new_state))) ∷ [])
          (record dir { db = record dir.db { groups = rows } }))

-- `"active" if active else "removed"`.
abbrev pub switched : Bool → MembershipState
switched active = if active then MembershipState.active else MembershipState.removed

abbrev pub link_key : Key → Key → Key → PrincipalGroup → Bool
link_key tenant_id principal_id group_id l =
    l.tenant_id == tenant_id && (l.principal_id == principal_id && l.group_id == group_id)

-- The link that is there is switched, or a new one is made.
abbrev pub put_link :
    Key → Key → Key → Bool → List PrincipalGroup → Option PrincipalGroup → List PrincipalGroup
put_link tenant_id principal_id group_id active links none =
    record {
      tenant_id = tenant_id;
      group_id = group_id;
      principal_id = principal_id;
      state = switched active;
      revision = 1;
    }
    ∷ links
put_link tenant_id principal_id group_id active links (some _) =
    update_where (link_key tenant_id principal_id group_id)
      (λ l. record l { state = switched active; revision = suc l.revision }) links

-- `f"{principal_id}:{group_id}"` is given by its text.
unfoldable pub set_group_member :
    Outside
    → (Key → Key → Key)
    → Given
    → RequestIdentity
    → Key
    → Key
    → Bool
    → Directory
    → Result Directory
set_group_member outside pair given identity group_id principal_id active dir =
    require_tenant_permission identity "membership.write" >> (do
      _ ← group_of dir.db identity.tenant_id group_id
      _ ←
          or_raise
            (find_first (λ p. p.id == principal_id && p.tenant_id == identity.tenant_id)
              dir.db.principals)
            (app_error not_found 404)
      let links =
          put_link identity.tenant_id principal_id group_id active dir.db.principal_groups
            (find_first (link_key identity.tenant_id principal_id group_id) dir.db.principal_groups)
      guarded_change outside given identity "group.membership.update" "principal_group"
          (pair principal_id group_id) (("active", number (if active then 1 else 0)) ∷ [])
          (record dir { db = record dir.db { principal_groups = links } }))

abbrev pub grant_key : Key → Key → String → GroupRole → Bool
grant_key tenant_id group_id role a =
    a.tenant_id == tenant_id && (a.group_id == group_id && str_eq a.role role)

-- The grant that is there is switched, or a new one is made; with its identifier.
abbrev pub put_grant :
    Given → Key → Key → String → Bool → List GroupRole → Option GroupRole → Key × List GroupRole
put_grant given tenant_id group_id role active grants none = (
  given.group_role_id,
  record {
    tenant_id = tenant_id;
    group_id = group_id;
    role = role;
    state = switched active;
    id = given.group_role_id;
    revision = 1;
  }
      ∷ grants,
)
put_grant given tenant_id group_id role active grants (some found) = (
  found.id,
  update_where (λ a. a.id == found.id)
      (λ a. record a { state = switched active; revision = suc a.revision }) grants,
)

-- `validate_roles([role])[0]`.
abbrev pub first_role : List String → String
first_role [] = ""
first_role (role ∷ _) = role

unfoldable pub set_group_role :
    Outside → Given → RequestIdentity → Key → String → Bool → Directory → Result Directory
set_group_role outside given identity group_id role active dir =
    require_tenant_permission identity "membership.write" >> (do
      _ ← group_of dir.db identity.tenant_id group_id
      roles ← validate_roles (role ∷ [])
      let canonical = first_role roles
      let (grant_id, grants) =
          put_grant given identity.tenant_id group_id canonical active dir.db.group_roles
            (find_first (grant_key identity.tenant_id group_id canonical) dir.db.group_roles)
      guarded_change outside given identity "group.role.update" "tenant_group_role" grant_id
          (("role", word (outside.text canonical))
            ∷ ("active", number (if active then 1 else 0))
            ∷ [])
          (record dir { db = record dir.db { group_roles = grants } }))

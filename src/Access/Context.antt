-- ===== src/Access/Context.antt =====
-- The tenant identity of a login, from the stored authorization state
-- (backend/enterprise_rag/application/tenant_context.py). A table is the list of its rows, a query
-- the comprehension over them; `strip` is Python's `str.strip`, and 0 stands for the empty text.
pub mod Isolation
use Prim.Native.String.{String}
use llama_index_rag.Base.{
  Key, ℕ, suc, Bool, true, false, not, ◌&&◌, ◌==◌, Option, none, some, List, [], ◌∷◌, ◌++◌, map,
  keep, find_first, concat_map, filter_map, sorted_set, Result, ok, app_error, invalid_request,
  not_found, forbidden, tenant_not_active, ◌>>=◌, ◌>>◌, require, raise_if, or_raise, if◌then◌else◌,
}
use llama_index_rag.Domain.Lifecycle.{TenantState, MembershipState}
use llama_index_rag.Access.Identity.{Role, parse_role, AuthenticatedSubject, RequestIdentity}

pub record Tenant : Type 0 where
  pub id : Key
  pub state : TenantState
  pub acl_epoch : ℕ
  pub active_config_version_id : Option Key

pub record Principal : Type 0 where
  pub id : Key
  pub tenant_id : Key
  pub external_id : Key
  pub active : Bool
  pub state : MembershipState
  pub revision : ℕ

pub record Membership : Type 0 where
  pub id : Key
  pub tenant_id : Key
  pub principal_id : Key
  pub state : MembershipState
  pub direct_roles : List String
  pub revision : ℕ
  pub state_reason : String

pub record Group : Type 0 where
  pub id : Key
  pub tenant_id : Key
  pub external_id : Key
  pub state : MembershipState
  pub revision : ℕ

pub record PrincipalGroup : Type 0 where
  pub tenant_id : Key
  pub group_id : Key
  pub principal_id : Key
  pub state : MembershipState
  pub revision : ℕ

pub record GroupRole : Type 0 where
  pub tenant_id : Key
  pub group_id : Key
  pub role : String
  pub state : MembershipState
  pub id : Key
  pub revision : ℕ

pub record Database : Type 0 where
  pub tenants : List Tenant
  pub principals : List Principal
  pub memberships : List Membership
  pub groups : List Group
  pub principal_groups : List PrincipalGroup
  pub group_roles : List GroupRole

-- `state == "active"`.
abbrev pub is_active : MembershipState → Bool
is_active MembershipState.active = true
is_active _ = false

abbrev pub is_active_tenant : TenantState → Bool
is_active_tenant TenantState.active = true
is_active_tenant _ = false

-- `_parse_roles`: a text that is no role is skipped.
abbrev pub parse_roles : List String → List Role
parse_roles values = filter_map parse_role values

-- The tests of the join in `effective_roles`.
abbrev pub group_test : Key → Group → Bool
group_test tenant_id g = g.tenant_id == tenant_id && is_active g.state

abbrev pub link_test : Key → Group → PrincipalGroup → Bool
link_test principal_id g l =
    l.tenant_id == g.tenant_id
    && (l.group_id == g.id && (l.principal_id == principal_id && is_active l.state))

abbrev pub role_test : Group → GroupRole → Bool
role_test g a = a.tenant_id == g.tenant_id && (a.group_id == g.id && is_active a.state)

-- An outer join: a group with no active role gives one row with no role.
abbrev pub outer_rows : Group → List GroupRole → List (Group × Option String)
outer_rows g [] = (g, none) ∷ []
outer_rows g (a ∷ as') = map (λ (x : GroupRole). (g, some x.role)) (a ∷ as')

unfoldable pub joined_rows : Database → Key → Key → List (Group × Option String)
joined_rows db tenant_id principal_id =
    concat_map
      (λ g.
        concat_map (λ _. outer_rows g (keep (role_test g) db.group_roles))
          (keep (link_test principal_id g) db.principal_groups))
      (keep (group_test tenant_id) db.groups)

-- The roles and the sorted group names.
unfoldable pub effective_roles : Database → Key → Key → List String → List Role × List Key
unfolding joined_rows
effective_roles db tenant_id principal_id direct_roles =
    let rows = joined_rows db tenant_id principal_id in
    (
      parse_roles (direct_roles ++ filter_map (λ row. row.1) rows),
      sorted_set (map (λ row. row.0.external_id) rows),
    )

-- `selected or hint or ""`.
abbrev pub first_text : Option Key → Option Key → Key
first_text (some (suc k)) hint = suc k
first_text selected (some k) = k
first_text selected none = 0

-- The status of the refusal to enter a tenant that is not active.
abbrev pub inactive_status : TenantState → ℕ
inactive_status TenantState.provisioning = 409
inactive_status _ = 423

abbrev pub is_empty {ℓ} : {A : Type ℓ} → List A → Bool
is_empty [] = true
is_empty (x ∷ xs) = false

abbrev pub principal_test : Key → Key → Principal → Bool
principal_test tenant_id subject_id p = p.tenant_id == tenant_id && p.external_id == subject_id

abbrev pub membership_test : Key → Key → Membership → Bool
membership_test tenant_id principal_id m =
    m.tenant_id == tenant_id && m.principal_id == principal_id

-- `resolve_tenant_context` from the lookup of the principal on.
unfoldable pub resolve_member : Database → AuthenticatedSubject → Tenant → Result RequestIdentity
resolve_member db subject tenant = do
  principal ←
      or_raise (find_first (principal_test tenant.id subject.subject_id) db.principals)
        (app_error forbidden 403)
  require (principal.active && is_active principal.state) (app_error forbidden 403)
  membership ←
      or_raise (find_first (membership_test tenant.id principal.id) db.memberships)
        (app_error forbidden 403)
  require (is_active membership.state) (app_error forbidden 403)
  let effective = effective_roles db tenant.id principal.id membership.direct_roles
  raise_if (is_empty effective.0) (app_error forbidden 403)
  ok (record {
    tenant_id = tenant.id;
    user_id = subject.subject_id;
    groups = effective.1;
    roles = effective.0;
    token_id = subject.token_id;
    principal_id = some principal.id;
    membership_id = some membership.id;
    authorization_epoch = tenant.acl_epoch;
    configuration_version_id = tenant.active_config_version_id;
    tenant_state = tenant.state;
  })

unfoldable pub resolve_tenant_context :
    (Key → Key) → Database → AuthenticatedSubject → Option Key → Result RequestIdentity
resolve_tenant_context strip db subject selected_tenant_id = do
  let tenant_id = strip (first_text selected_tenant_id subject.tenant_hint)
  raise_if (tenant_id == 0) (app_error invalid_request 400)
  tenant ← or_raise (find_first (λ t. t.id == tenant_id) db.tenants) (app_error not_found 404)
  require (is_active_tenant tenant.state)
      (app_error tenant_not_active (inactive_status tenant.state))
  resolve_member db subject tenant

-- ===== src/Retrieval/Scope.antt =====
-- The scope of a retrieval (backend/enterprise_rag/application/security.py).
pub mod Grants
use Prim.Native.String.{String}
use llama_index_rag.Base.{
  Key, ℕ, suc, Bool, true, false, not, ◌&&◌, ◌||◌, ◌==◌, if◌then◌else◌, is_none, Option, none, some,
  List, [], ◌∷◌, map, keep, find_first, any, elem, filter_map, concat_map, sorted_set, update_where,
  Result, ok, err, app_error, not_found, forbidden, ◌>>=◌, ◌>>◌, require, raise_if, or_raise,
}
use llama_index_rag.Access.Identity.{RequestIdentity}
use llama_index_rag.Access.Permission.{require_tenant_permission}
use llama_index_rag.Access.Context.{Tenant, is_active_tenant, is_empty}
use llama_index_rag.Retrieval.{
  Token, user, group, has_token, AuthorizationScope, LifecycleState, is_live, Document,
}

-- `RequestIdentity.principal_tokens` (backend/enterprise_rag/domain/types.py).
abbrev pub principal_tokens : RequestIdentity → List Token
principal_tokens identity = user identity.user_id ∷ map group identity.groups

-- `DatabaseAuthorizationService.require`.
unfoldable pub require_resource : RequestIdentity → String → Key → Result (Unit {0})
require_resource identity operation resource_tenant_id =
    raise_if (not (identity.tenant_id == resource_tenant_id)) (app_error not_found 404)
    >> require_tenant_permission identity operation

pub record KnowledgeSpace : Type 0 where
  pub id : Key
  pub tenant_id : Key
  pub state : LifecycleState

pub data SpaceRole : Type 0 where
  reader editor administrator : SpaceRole
  other_role : Key → SpaceRole

pub record SpaceMembership : Type 0 where
  pub tenant_id : Key
  pub knowledge_space_id : Key
  pub principal_token : Token
  pub role : SpaceRole

pub record Library : Type 0 where
  pub tenants : List Tenant
  pub spaces : List KnowledgeSpace
  pub space_memberships : List SpaceMembership
  pub documents : List Document

abbrev pub may_read : SpaceRole → Bool
may_read (other_role k) = false
may_read _ = true

abbrev pub space_test : RequestIdentity → List Key → KnowledgeSpace → Bool
space_test identity wanted s =
    s.tenant_id == identity.tenant_id && (is_live s.state && elem s.id wanted)

abbrev pub grant_test : RequestIdentity → KnowledgeSpace → SpaceMembership → Bool
grant_test identity s m =
    m.knowledge_space_id == s.id
    && (m.tenant_id == identity.tenant_id
        && (has_token (principal_tokens identity) m.principal_token && may_read m.role))

-- The join; DISTINCT makes it a set, which a list stands for.
unfoldable pub allowed_spaces : Library → RequestIdentity → List Key → List Key
allowed_spaces db identity wanted =
    map (λ (s : KnowledgeSpace). s.id)
      (keep (λ s. space_test identity wanted s && any (grant_test identity s) db.space_memberships)
        db.spaces)

abbrev pub generation_test : RequestIdentity → List Key → Document → Bool
generation_test identity spaces d =
    d.tenant_id == identity.tenant_id
    && (elem d.knowledge_space_id spaces
        && (is_live d.state && not (is_none d.active_generation_id)))

unfoldable pub active_generations : Library → RequestIdentity → List Key → List Key
active_generations db identity spaces = sorted_set (
    filter_map (λ (d : Document). d.active_generation_id)
      (keep (generation_test identity spaces) db.documents))

-- `identity.authorization_epoch or tenant.acl_epoch`.
abbrev pub first_epoch : ℕ → ℕ → ℕ
first_epoch epoch stored = if epoch == 0 then stored else epoch

unfoldable pub retrieval_scope : Library → RequestIdentity → List Key → Result AuthorizationScope
retrieval_scope db identity wanted = do
  raise_if (is_empty wanted) (app_error forbidden 403)
  tenant ←
      or_raise (find_first (λ t. t.id == identity.tenant_id) db.tenants) (app_error forbidden 403)
  require (is_active_tenant tenant.state) (app_error forbidden 403)
  let spaces = allowed_spaces db identity wanted
  raise_if (is_empty spaces) (app_error forbidden 403)
  ok (record {
    tenant_id = identity.tenant_id;
    principal_tokens = principal_tokens identity;
    knowledge_space_ids = spaces;
    acl_epoch = first_epoch identity.authorization_epoch tenant.acl_epoch;
    document_ids = [];
    configuration_version_id = identity.configuration_version_id;
    index_generation_ids = active_generations db identity spaces;
  })

-- The new epoch, and the tenants.
unfoldable pub bump_acl_epoch : List Tenant → Key → Result (ℕ × List Tenant)
bump_acl_epoch tenants tenant_id = do
  tenant ← or_raise (find_first (λ t. t.id == tenant_id) tenants) (app_error not_found 404)
  ok (
    suc tenant.acl_epoch,
    update_where (λ t. t.id == tenant_id) (λ t. record t { acl_epoch = suc tenant.acl_epoch })
        tenants,
  )

-- ===== src/Retrieval/ScopeTests.antt =====
-- Examples of scopes.
use llama_index_rag.Base.{
  ◌≡◌, refl, false, ◌==◌, none, some, List, [], ◌∷◌, find_first, suc, ok, All, sorted_set,
}
use llama_index_rag.Domain.Lifecycle.{TenantState}
use llama_index_rag.Access.Identity.{RequestIdentity}
use llama_index_rag.Access.Context.{Tenant, is_empty}
use llama_index_rag.Retrieval.{user, AuthorizationScope, LifecycleState, Document}
use llama_index_rag.Retrieval.Scope.{
  principal_tokens, KnowledgeSpace, SpaceRole, Library, allowed_spaces, active_generations,
  retrieval_scope, bump_acl_epoch,
}
use llama_index_rag.Retrieval.Scope.Grants.{
  IsGranted, retrieval_scope-IsGranted, bump_acl_epoch-find,
}

abbrev document : Document
document = record {
  id = 40;
  tenant_id = 1;
  knowledge_space_id = 30;
  state = LifecycleState.active;
  active_version_id = some 41;
  active_generation_id = some 42;
}

abbrev scope : AuthorizationScope
scope = record {
  tenant_id = 1;
  principal_tokens = user 100 ∷ [];
  knowledge_space_ids = 30 ∷ [];
  acl_epoch = 5;
  document_ids = [];
  configuration_version_id = none;
  index_generation_ids = 42 ∷ [];
}

abbrev identity : RequestIdentity
identity = record {
  tenant_id = 1;
  user_id = 100;
  groups = [];
  roles = [];
  token_id = none;
  principal_id = none;
  membership_id = none;
  authorization_epoch = 0;
  configuration_version_id = none;
  tenant_state = TenantState.active;
}

abbrev tenant : Tenant
tenant = record {
  id = 1;
  state = TenantState.active;
  acl_epoch = 5;
  active_config_version_id = none;
}

abbrev library : Library
library = record {
  tenants = tenant ∷ [];
  spaces = record { id = 30; tenant_id = 1; state = LifecycleState.active } ∷ [];
  space_memberships =
      record {
        tenant_id = 1;
        knowledge_space_id = 30;
        principal_token = user 100;
        role = SpaceRole.reader;
      }
      ∷ [];
  documents = document ∷ [];
}

abbrev compiled : AuthorizationScope
compiled = record scope { index_generation_ids = sorted_set (42 ∷ []) }

compiles : retrieval_scope library identity (30 ∷ 31 ∷ []) ≡ ok compiled
unfolding retrieval_scope allowed_spaces active_generations
compiles = refl

retrieval_scope-IsGranted_example :
    (compiled.tenant_id ≡ identity.tenant_id)
    × ((compiled.principal_tokens ≡ principal_tokens identity)
        × ((is_empty compiled.knowledge_space_ids ≡ false)
            × All
                (λ k.
                  (s : KnowledgeSpace) × ((s.id ≡ k) × IsGranted library identity (30 ∷ 31 ∷ []) s))
                compiled.knowledge_space_ids))
retrieval_scope-IsGranted_example =
    retrieval_scope-IsGranted library identity (30 ∷ 31 ∷ []) compiled compiles

abbrev bumped : List Tenant
bumped = record tenant { acl_epoch = 6 } ∷ []

bumps : bump_acl_epoch (tenant ∷ []) 1 ≡ ok (6, bumped)
unfolding bump_acl_epoch
bumps = refl

bump_acl_epoch-find_test :
    (6 ≡ suc tenant.acl_epoch)
    × (find_first (λ t. t.id == 1) bumped ≡ some (record tenant { acl_epoch = 6 }))
bump_acl_epoch-find_test = bump_acl_epoch-find (tenant ∷ []) bumped 1 tenant 6 refl bumps

-- ===== src/Retrieval/Scope/Grants.antt =====
-- What a scope grants.
use llama_index_rag.Base.{
  Key, ℕ, suc, ◌≡◌, refl, sym, ◌∙◌, ap, subst, inl, inr, true, false, ◌&&◌, ◌==◌, some, List, [],
  ◌∷◌, map, keep, find_first, find_first_test, find_first-update_where, any, any-get_elem?,
  get_elem?, ◌⊎◌, elem, update_where, All, All-keep_test, ok, arith, Option-cases, eq_of_==,
}
use llama_index_rag.Access.Identity.{RequestIdentity}
use llama_index_rag.Access.Context.{Tenant, is_empty}
use llama_index_rag.Retrieval.{
  Token, user, group, other, eqb_Token, has_token, AuthorizationScope, LifecycleState, active,
  archived, deleted, is_live,
}
use llama_index_rag.Retrieval.Scope.{
  principal_tokens, KnowledgeSpace, SpaceMembership, SpaceRole, reader, editor, administrator,
  other_role, may_read, Library, space_test, grant_test, allowed_spaces, retrieval_scope,
  bump_acl_epoch,
}

-- A membership shares a space with the identity: it is of that space and of the tenant of the
-- identity, its token is one of those of the identity, and its role is reader, editor or
-- administrator.
pub record Shares (identity : RequestIdentity) (s : KnowledgeSpace) (m : SpaceMembership)
    : Type 0 where
  pub of_space : m.knowledge_space_id ≡ s.id
  pub of_tenant : m.tenant_id ≡ identity.tenant_id
  pub place : ℕ
  pub of_identity : get_elem? (principal_tokens identity) place ≡ some m.principal_token
  pub reads :
      (m.role ≡ SpaceRole.reader)
      ⊎ ((m.role ≡ SpaceRole.editor) ⊎ (m.role ≡ SpaceRole.administrator))

-- A space that the database grants to the identity: active, of its tenant, among those asked for,
-- and shared with it by a stored membership.
pub IsGranted : Library → RequestIdentity → List Key → KnowledgeSpace → Type 0
IsGranted db identity wanted s =
    (s.tenant_id ≡ identity.tenant_id)
    × ((s.state ≡ LifecycleState.active)
        × ((elem s.id wanted ≡ true)
            × ((i : ℕ) × ((m : SpaceMembership) × ((get_elem? db.space_memberships i ≡ some m)
                    × Shares identity s m)))))

eq_of_eqb_Token : (a b : Token) → eqb_Token a b ≡ true → a ≡ b
eq_of_eqb_Token (user a) (user b) h = ap user (eq_of_== a b h)
eq_of_eqb_Token (group a) (group b) h = ap group (eq_of_== a b h)
eq_of_eqb_Token (other a) (other b) h = ap other (eq_of_== a b h)
eq_of_eqb_Token (user a) (group b) h = cc
eq_of_eqb_Token (user a) (other b) h = cc
eq_of_eqb_Token (group a) (user b) h = cc
eq_of_eqb_Token (group a) (other b) h = cc
eq_of_eqb_Token (other a) (user b) h = cc
eq_of_eqb_Token (other a) (group b) h = cc

may_read-roles :
    (r : SpaceRole)
    → may_read r ≡ true
    → (r ≡ SpaceRole.reader) ⊎ ((r ≡ SpaceRole.editor) ⊎ (r ≡ SpaceRole.administrator))
may_read-roles reader h = inl refl
may_read-roles editor h = inr (inl refl)
may_read-roles administrator h = inr (inr refl)
may_read-roles (other_role k) h = cc

is_live-active : (x : LifecycleState) → is_live x ≡ true → x ≡ LifecycleState.active
is_live-active active h = refl
is_live-active archived h = cc
is_live-active deleted h = cc

grant_test-Shares :
    (identity : RequestIdentity) (s : KnowledgeSpace) (m : SpaceMembership)
    → grant_test identity s m ≡ true
    → Shares identity s m
grant_test-Shares identity s m h =
    let held : has_token (principal_tokens identity) m.principal_token ≡ true = ground arith in
    let (i, (t, (there, same))) =
      any-get_elem? (eqb_Token m.principal_token) (principal_tokens identity) held in
    record {
      of_space = ground (arith, eq_of_== m.knowledge_space_id s.id);
      of_tenant = ground (arith, eq_of_== m.tenant_id identity.tenant_id);
      place = i;
      of_identity = there ∙ ap some (sym (eq_of_eqb_Token m.principal_token t same));
      reads = may_read-roles m.role (ground arith);
    }

space-IsGranted :
    (db : Library) (identity : RequestIdentity) (wanted : List Key) (s : KnowledgeSpace)
    → (space_test identity wanted s && any (grant_test identity s) db.space_memberships) ≡ true
    → IsGranted db identity wanted s
unfolding IsGranted
space-IsGranted db identity wanted s h =
    let granted : any (grant_test identity s) db.space_memberships ≡ true = ground arith in
    let (i, (m, (there, passes))) =
      any-get_elem? (grant_test identity s) db.space_memberships granted in
    (
      ground (arith, eq_of_== s.tenant_id identity.tenant_id),
      (
        is_live-active s.state (ground arith),
        (ground arith, (i, (m, (there, grant_test-Shares identity s m passes)))),
      ),
    )

-- Each space of the identifiers has a granted row.
all-IsGranted :
    (db : Library) (identity : RequestIdentity) (wanted : List Key) (ss : List KnowledgeSpace)
    → All
        (λ s.
          (space_test identity wanted s && any (grant_test identity s) db.space_memberships) ≡ true)
        ss
    → All
        (λ k. (s : KnowledgeSpace) × ((s.id ≡ k) × IsGranted db identity wanted s))
        (map (λ (s : KnowledgeSpace). s.id) ss)
all-IsGranted db identity wanted [] h = tt
all-IsGranted db identity wanted (s ∷ ss) h =
    ((s, (refl, space-IsGranted db identity wanted s h.0)), all-IsGranted db identity wanted ss h.1)

retrieval_scope-spaces :
    (db : Library) (identity : RequestIdentity) (wanted : List Key) (scope : AuthorizationScope)
    → retrieval_scope db identity wanted ≡ ok scope
    → (allowed_spaces db identity wanted ≡ scope.knowledge_space_ids)
      × ((scope.tenant_id ≡ identity.tenant_id)
          × ((scope.principal_tokens ≡ principal_tokens identity)
              × (is_empty scope.knowledge_space_ids ≡ false)))
unfolding retrieval_scope
retrieval_scope-spaces db identity wanted scope e =
    elim (Option-cases (find_first (λ (t : Tenant). t.id == identity.tenant_id) db.tenants)) [
      | inl missing ↦ ground (arith, missing, e)
      | inr (tenant, there) ↦ ground (arith, there, e)
    ]

-- A scope that is granted has the tenant and the tokens of the identity and at least one space, and
-- each of its spaces has a row that is active, of that tenant, among those asked for, and for which
-- there is a stored membership of that space and tenant with a token of the identity and the role
-- of a reader, an editor or an administrator.
pub retrieval_scope-IsGranted :
    (db : Library) (identity : RequestIdentity) (wanted : List Key) (scope : AuthorizationScope)
    → retrieval_scope db identity wanted ≡ ok scope
    → (scope.tenant_id ≡ identity.tenant_id)
      × ((scope.principal_tokens ≡ principal_tokens identity)
          × ((is_empty scope.knowledge_space_ids ≡ false)
              × All
                  (λ k. (s : KnowledgeSpace) × ((s.id ≡ k) × IsGranted db identity wanted s))
                  scope.knowledge_space_ids))
unfolding allowed_spaces
retrieval_scope-IsGranted db identity wanted scope e =
    let (same, (tenant, (tokens, full))) = retrieval_scope-spaces db identity wanted scope e in
    let test = λ (s : KnowledgeSpace).
      space_test identity wanted s && any (grant_test identity s) db.space_memberships in
    (
      tenant,
      (
        tokens,
        (
          full,
          subst
              (λ ks.
                All (λ k. (s : KnowledgeSpace) × ((s.id ≡ k) × IsGranted db identity wanted s)) ks)
              same
              (all-IsGranted db identity wanted (keep test db.spaces)
                (All-keep_test test db.spaces)),
        ),
      ),
    )

-- Raising the epoch of a tenant gives its row the next epoch, so no scope with the old one is
-- compiled for a login that is resolved later.
pub bump_acl_epoch-find :
    (tenants after : List Tenant) (tenant_id : Key) (tenant : Tenant) (epoch : ℕ)
    → find_first (λ t. t.id == tenant_id) tenants ≡ some tenant
    → bump_acl_epoch tenants tenant_id ≡ ok (epoch, after)
    → (epoch ≡ suc tenant.acl_epoch)
      × (find_first (λ t. t.id == tenant_id) after ≡ some (record tenant { acl_epoch = epoch }))
unfolding bump_acl_epoch
bump_acl_epoch-find tenants after tenant_id tenant epoch there e =
    let raised = λ (t : Tenant). record t { acl_epoch = suc tenant.acl_epoch } in
    let wanted = λ (t : Tenant). t.id == tenant_id in
    let (number, rows) : (suc tenant.acl_epoch ≡ epoch)
        × (update_where wanted raised tenants ≡ after) =
      ground (arith, there, e) in
    let here : find_first wanted (update_where wanted raised tenants) ≡ some (raised tenant) =
      find_first-update_where wanted wanted raised (λ t. refl) tenants tenant there
      ∙ rw (find_first_test wanted tenants there) refl in
    (
      sym number,
      ap (find_first wanted) (sym rows)
          ∙ here
          ∙ ap (λ n. some (record tenant { acl_epoch = n })) number,
    )

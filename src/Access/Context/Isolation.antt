-- ===== src/Access/Context/Isolation.antt =====
-- The identity of a login and the rows of its own tenant
-- (backend/enterprise_rag/application/tenant_context.py:resolve_tenant_context).
use Prim.Native.String.{String}
use llama_index_rag.Base.{
  Key, ◌≡◌, ◌≢◌, subst, ◌∙◌, All-find_first, eq_of_==, find_first_test, inl, inr, true, false, ◌==◌,
  Option, List, keep, find_first, concat_map, All, ok, arith, keep-keep, find_first-keep,
  All-keep_test, concat_map_congr, Option-cases, All-map,
}
use llama_index_rag.Access.Identity.{AuthenticatedSubject, RequestIdentity}
use llama_index_rag.Access.Context.{
  resolve_member, Tenant, Group, Database, group_test, link_test, role_test, outer_rows,
  joined_rows, effective_roles, first_text, principal_test, membership_test, resolve_tenant_context,
  is_active,
}

-- The rows of one tenant: what row-level security would show of the database.
abbrev pub own_rows : Key → Database → Database
own_rows t db = record {
  tenants = keep (λ r. r.id == t) db.tenants;
  principals = keep (λ r. r.tenant_id == t) db.principals;
  memberships = keep (λ r. r.tenant_id == t) db.memberships;
  groups = keep (λ r. r.tenant_id == t) db.groups;
  principal_groups = keep (λ r. r.tenant_id == t) db.principal_groups;
  group_roles = keep (λ r. r.tenant_id == t) db.group_roles;
}

module _ (t p : Key) (db : Database) where
  -- The rows that one group contributes, in a given database.
  abbrev group_rows : Database → Group → List (Group × Option String)
  group_rows d g =
      concat_map (λ _. outer_rows g (keep (role_test g) d.group_roles))
        (keep (link_test p g) d.principal_groups)

  group_rows-own :
      (g : Group) → group_test t g ≡ true → group_rows (own_rows t db) g ≡ group_rows db g
  group_rows-own g h =
      let roles : keep (role_test g) (own_rows t db).group_roles
          ≡ keep (role_test g) db.group_roles =
        keep-keep (λ r. r.tenant_id == t) (role_test g) (λ a e. ground arith) db.group_roles in
      let links : keep (link_test p g) (own_rows t db).principal_groups
          ≡ keep (link_test p g) db.principal_groups =
        keep-keep (λ r. r.tenant_id == t) (link_test p g) (λ a e. ground arith)
          db.principal_groups in
      rw (roles, links)

  joined_rows-own : joined_rows (own_rows t db) t p ≡ joined_rows db t p
  unfolding joined_rows
  joined_rows-own =
      rw (keep-keep (λ r. r.tenant_id == t) (group_test t) (λ a e. ground arith) db.groups) (
        concat_map_congr (group_rows (own_rows t db)) (group_rows db)
          (keep (group_test t) db.groups)
          (All-map _ _ (keep (group_test t) db.groups) group_rows-own
            (All-keep_test (group_test t) db.groups)))

  effective_roles-own :
      (direct : List String)
      → effective_roles (own_rows t db) t p direct ≡ effective_roles db t p direct
  unfolding effective_roles
  effective_roles-own direct = rw joined_rows-own

module _ (db : Database) (subject : AuthenticatedSubject) where
  resolve_member-own :
      (tenant : Tenant)
      → resolve_member (own_rows tenant.id db) subject tenant ≡ resolve_member db subject tenant
  unfolding resolve_member
  resolve_member-own tenant =
      let t = tenant.id in
      let own = own_rows t db in
      let q = principal_test t subject.subject_id in
      rw (find_first-keep (λ r. r.tenant_id == t) q (λ r e. ground arith) db.principals)
        (elim (Option-cases (find_first q db.principals)) [
          | inl e ↦ rw e
          | inr (p, e) ↦
              rw
                (
                  e,
                  find_first-keep (λ r. r.tenant_id == t) (membership_test t p.id)
                      (λ r e. ground arith) db.memberships,
                )
                (elim (Option-cases (find_first (membership_test t p.id) db.memberships)) [
                  | inl f ↦ rw f
                  | inr (m, f) ↦ rw (f, effective_roles-own t p.id db m.direct_roles)
                ])
        ])

  -- The identity of a login is computed from the rows of the chosen tenant alone: no row of
  -- another tenant can change its roles, its groups, or whether it is granted at all.
  pub resolve_isolated :
      (strip : Key → Key) (selected : Option Key)
      → resolve_tenant_context strip
          (own_rows (strip (first_text selected subject.tenant_hint)) db)
          subject
          selected
        ≡ resolve_tenant_context strip db subject selected
  unfolding resolve_tenant_context
  resolve_isolated strip selected =
      let t = strip (first_text selected subject.tenant_hint) in
      let member : (r : Tenant)
          → (r.id == t) ≡ true
          → resolve_member (own_rows t db) subject r ≡ resolve_member db subject r =
        λ r h.
          subst (λ k. resolve_member (own_rows k db) subject r ≡ resolve_member db subject r)
            (eq_of_== r.id t h) (resolve_member-own r) in
      rw (find_first-keep (λ r. r.id == t) (λ r. r.id == t) (λ r e. e) db.tenants)
        (elim (Option-cases (find_first (λ r. r.id == t) db.tenants)) [
          | inl e ↦ rw e
          | inr (r, e) ↦ rw (e, member r (find_first_test (λ r. r.id == t) db.tenants e))
        ])

  -- A login whose memberships of the tenant are all inactive is refused, whatever roles and groups
  -- the tenant still lists for it.
  pub inactive_member_refused :
      (tenant : Tenant) (identity : RequestIdentity)
      → All (λ m. is_active m.state ≡ false) (keep (λ m. m.tenant_id == tenant.id) db.memberships)
      → resolve_member db subject tenant ≢ ok identity
  unfolding resolve_member
  inactive_member_refused tenant identity inactive granted =
      let t = tenant.id in
      let q = principal_test t subject.subject_id in
      elim (Option-cases (find_first q db.principals)) [
        | inl e ↦ cc (rw e at granted)
        | inr (p, e) ↦
            let fused =
              find_first-keep (λ m. m.tenant_id == t) (membership_test t p.id) (λ r e. ground arith)
                db.memberships in
            elim (Option-cases (find_first (membership_test t p.id) db.memberships)) [
              | inl f ↦ ground (arith, e, f)
              | inr (m, f) ↦
                  let off : is_active m.state ≡ false =
                    All-find_first (λ m. is_active m.state ≡ false) (membership_test t p.id)
                      (keep (λ m. m.tenant_id == t) db.memberships) m inactive (fused ∙ f) in
                  ground (arith, e, f, off)
            ]
      ]

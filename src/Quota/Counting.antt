-- ===== src/Quota/Counting.antt =====
-- What reconciliation leaves in the accounts.
use llama_index_rag.Base.{
  Key, ℕ, suc, ◌+◌, Bool, length, keep, count_if, map, arith, ◌≡◌, refl, sym, ◌∙◌, ap, subst, inl,
  inr, false, ◌&&◌, ◌==◌, if◌then◌else◌, none, some, List, [], ◌∷◌, update_where, get_elem?, Option,
  zero, ok, Bool-cases, ==_refl, ok-injective, >>=-ok, >>-ok,
}
use llama_index_rag.Access.Identity.{RequestIdentity}
use llama_index_rag.Access.Permission.{require_tenant_permission}
use llama_index_rag.Access.Context.{Membership, Group, is_active}
use llama_index_rag.Retrieval.{Document, is_live}
use llama_index_rag.Retrieval.Scope.{KnowledgeSpace}
use llama_index_rag.Outbox.{OutboxRecord}
use llama_index_rag.Config.{
  QuotaResource, members, groups, knowledge_spaces, documents, stored_bytes, provider_units,
  DurableQuotas, Store, Outside, load_active,
}
use llama_index_rag.Quota.{value, UsageRecord, usage_test, locked_usage}
use llama_index_rag.Quota.Ledger.{
  Account, view, account_of, view-locked_usage, find_first-locked_usage, view-update_self,
  view-update_other,
}
use llama_index_rag.Quota.Runs.{on_account}
use llama_index_rag.Quota.Reconcile.{
  DocumentVersion, Owned, sum_bytes, calculate_tenant_usage, Pulse, Pass, drift_of, warn,
  reconciled, reconcile_each, reconcile,
}

-- The account of one tenant and resource after some counts were written.
abbrev counts_on : Key → Key → Key → List (QuotaResource × ℕ) → Account → Account
counts_on tenant_id k q [] a = a
counts_on tenant_id k q ((resource, actual) ∷ rest) a =
    counts_on tenant_id k q rest
      (if k == tenant_id && q == value resource then record a { used = actual } else a)

-- One row that is written.
view-reconciled :
    (t : Key) (resource : QuotaResource) (actual now : ℕ) (table : List UsageRecord) (k q : Key)
    → view
        (update_where
          (usage_test t (value resource))
          (reconciled actual now)
          (locked_usage t (value resource) table).1)
        k
        q
      ≡ (if k == t && q == value resource
          then record (view table k q) { used = actual }
          else view table k q)
view-reconciled t resource actual now table k q =
    let r = value resource in
    let u = (locked_usage t r table).0 in
    let held = (locked_usage t r table).1 in
    elim (Bool-cases (k == t && q == r)) [
      | inr other ↦ rw other (
          view-update_other t r k q (reconciled actual now) held (λ x. refl) other
          ∙ view-locked_usage t r table k q)
      | inl same ↦ rw same (
          on_account t r k q
            (λ x y.
              view (update_where (usage_test t r) (reconciled actual now) held) x y
              ≡ record (view table x y) { used = actual })
            same
            (view-update_self t r (reconciled actual now) held u (λ x. refl)
                (find_first-locked_usage t r table)
              ∙ ap (λ (a : Account). record a { used = actual })
                  (sym (ap account_of (find_first-locked_usage t r table))
                    ∙ view-locked_usage t r table t r)))
    ]

view-reconcile_each :
    (outside : Outside) (pulse : Pulse) (quotas : DurableQuotas) (t : Key)
    (counts : List (QuotaResource × ℕ)) (table : List UsageRecord) (outbox : List OutboxRecord)
    {pass : Pass} (k q : Key)
    → reconcile_each outside pulse quotas t counts table outbox ≡ ok pass
    → view pass.1.0 k q ≡ counts_on t k q counts (view table k q)
unfolding reconcile_each
view-reconcile_each outside pulse quotas t [] table outbox k q h =
    ap (λ (p : Pass). view p.1.0 k q) (sym (ok-injective h))
view-reconcile_each outside pulse quotas t ((resource, actual) ∷ rest) table outbox {pass} k q h =
    let usage = (locked_usage t (value resource) table).0 in
    let written =
      update_where (usage_test t (value resource)) (reconciled actual pulse.now)
        (locked_usage t (value resource) table).1 in
    let (after, (_, looped)) =
      >>=-ok (warn outside pulse t (drift_of quotas resource actual usage) outbox) _ h in
    let ((ds, tables), (done, made)) =
      >>=-ok (reconcile_each outside pulse quotas t rest written after) _ looped in
    ap (λ (p : Pass). view p.1.0 k q) (sym (ok-injective made))
    ∙ (view-reconcile_each outside pulse quotas t rest written after {pass = (ds, tables)} k q done
        ∙ ap (counts_on t k q rest) (view-reconciled t resource actual pulse.now table k q))

at_entry :
    (t : Key) (counts : List (QuotaResource × ℕ)) (a : Account) {resource first : QuotaResource}
    {actual n : ℕ}
    → ◌≡◌ {A = Option (QuotaResource × ℕ)} (some (first, n)) (some (resource, actual))
    → counts_on t t (value first) counts a ≡ record a { used = n }
    → counts_on t t (value resource) counts a ≡ record a { used = actual }
at_entry t counts a {resource} {first} {actual} {n} h e =
    let same_resource : first ≡ resource =
      ap (λ (o : Option (QuotaResource × ℕ)). elim o [ none ↦ first | some p ↦ p.0 ]) h in
    let same_count : n ≡ actual =
      ap (λ (o : Option (QuotaResource × ℕ)). elim o [ none ↦ n | some p ↦ p.1 ]) h in
    subst (λ x. counts_on t t (value x) counts a ≡ record a { used = actual }) same_resource
      (e ∙ ap (λ (m : ℕ). record a { used = m }) same_count)

-- Each count of the tenant stands in its own account.
calculate_tenant_usage-counts_on :
    (owned : Owned) (t : Key) (i : ℕ) (resource : QuotaResource) (actual : ℕ) (a : Account)
    → get_elem? (calculate_tenant_usage owned t) i ≡ some (resource, actual)
    → counts_on t t (value resource) (calculate_tenant_usage owned t) a ≡ record a { used = actual }
unfolding calculate_tenant_usage
calculate_tenant_usage-counts_on owned t zero resource actual a h =
    at_entry t (calculate_tenant_usage owned t) a h (rw (==_refl t) refl)
calculate_tenant_usage-counts_on owned t (suc zero) resource actual a h =
    at_entry t (calculate_tenant_usage owned t) a h (rw (==_refl t) refl)
calculate_tenant_usage-counts_on owned t (suc (suc zero)) resource actual a h =
    at_entry t (calculate_tenant_usage owned t) a h (rw (==_refl t) refl)
calculate_tenant_usage-counts_on owned t (suc (suc (suc zero))) resource actual a h =
    at_entry t (calculate_tenant_usage owned t) a h (rw (==_refl t) refl)
calculate_tenant_usage-counts_on owned t (suc (suc (suc (suc zero)))) resource actual a h =
    at_entry t (calculate_tenant_usage owned t) a h (rw (==_refl t) refl)
calculate_tenant_usage-counts_on owned t (suc (suc (suc (suc (suc zero))))) resource actual a h =
    at_entry t (calculate_tenant_usage owned t) a h (rw (==_refl t) refl)
calculate_tenant_usage-counts_on owned t (suc (suc (suc (suc (suc (suc i)))))) resource actual a h =
    cc

other_tenant :
    (t k q : Key) (counts : List (QuotaResource × ℕ)) (a : Account)
    → (k == t) ≡ false
    → counts_on t k q counts a ≡ a
other_tenant t k q [] a apart = refl
other_tenant t k q ((resource, actual) ∷ rest) a apart = rw apart (other_tenant t k q rest a apart)

abbrev total : List ℕ → ℕ
total [] = 0
total (n ∷ ns) = n + total ns

-- What a tenant owns of each resource: its active members and groups, its active spaces and
-- documents, the bytes of its versions of documents, and no provider units.
abbrev pub owned_of : Owned → Key → QuotaResource → ℕ
owned_of owned t members = length (
    keep (λ (m : Membership). m.tenant_id == t)
      (keep (λ (m : Membership). is_active m.state) owned.memberships))
owned_of owned t groups =
    length (
      keep (λ (g : Group). g.tenant_id == t) (keep (λ (g : Group). is_active g.state) owned.groups))
owned_of owned t knowledge_spaces = length (
    keep (λ (s : KnowledgeSpace). s.tenant_id == t)
      (keep (λ (s : KnowledgeSpace). is_live s.state) owned.knowledge_spaces))
owned_of owned t documents = length (
    keep (λ (d : Document). d.tenant_id == t)
      (keep (λ (d : Document). is_live d.state) owned.documents))
owned_of owned t stored_bytes = total (
    map (λ (v : DocumentVersion). v.size_bytes)
      (keep (λ (v : DocumentVersion). v.tenant_id == t) owned.document_versions))
owned_of owned t provider_units = 0

count_if-keep {ℓ} :
    {A : Type ℓ} (p q : A → Bool) (xs : List A)
    → count_if (λ x. p x && q x) xs ≡ length (keep p (keep q xs))
count_if-keep p q [] = refl
count_if-keep p q (x ∷ xs) = ground (arith, count_if-keep p q xs)

sum_bytes-total :
    (t : Key) (vs : List DocumentVersion)
    → sum_bytes t vs
      ≡ total (
          map
            (λ (v : DocumentVersion). v.size_bytes)
            (keep (λ (v : DocumentVersion). v.tenant_id == t) vs))
sum_bytes-total t [] = refl
sum_bytes-total t (v ∷ vs) = ground (arith, sum_bytes-total t vs)

abbrev used_as : Account → ℕ → Account
used_as a n = record a { used = n }

-- The loop leaves in each account what the tenant owns.
counts_on-owned_of :
    (owned : Owned) (t : Key) (resource : QuotaResource) (a : Account)
    → counts_on t t (value resource) (calculate_tenant_usage owned t) a
      ≡ record a { used = owned_of owned t resource }
unfolding calculate_tenant_usage
counts_on-owned_of owned t members a =
    calculate_tenant_usage-counts_on owned t 0 members _ a refl
    ∙ ap (used_as a) (
        count_if-keep (λ (m : Membership). m.tenant_id == t) (λ (m : Membership). is_active m.state)
          owned.memberships)
counts_on-owned_of owned t groups a =
    calculate_tenant_usage-counts_on owned t 1 groups _ a refl
    ∙ ap (used_as a) (
        count_if-keep (λ (g : Group). g.tenant_id == t) (λ (g : Group). is_active g.state)
          owned.groups)
counts_on-owned_of owned t knowledge_spaces a =
    calculate_tenant_usage-counts_on owned t 2 knowledge_spaces _ a refl
    ∙ ap (used_as a) (
        count_if-keep (λ (s : KnowledgeSpace). s.tenant_id == t)
          (λ (s : KnowledgeSpace). is_live s.state) owned.knowledge_spaces)
counts_on-owned_of owned t documents a =
    calculate_tenant_usage-counts_on owned t 3 documents _ a refl
    ∙ ap (used_as a) (
        count_if-keep (λ (d : Document). d.tenant_id == t) (λ (d : Document). is_live d.state)
          owned.documents)
counts_on-owned_of owned t stored_bytes a =
    calculate_tenant_usage-counts_on owned t 4 stored_bytes _ a refl
    ∙ ap (used_as a) (sum_bytes-total t owned.document_versions)
counts_on-owned_of owned t provider_units a =
    calculate_tenant_usage-counts_on owned t 5 provider_units _ a refl

-- A reconciliation that succeeds writes into the accounts of the tenant how many active
-- memberships, groups, spaces and documents it owns, how many bytes its versions of documents have,
-- and no provider units, leaves what is reserved there, and leaves the accounts of all other
-- tenants.
pub reconcile_counts :
    (outside : Outside) (pulse : Pulse) (store : Store) (owned : Owned) (identity : RequestIdentity)
    (table : List UsageRecord) (outbox : List OutboxRecord) {pass : Pass}
    → reconcile outside pulse store owned identity table outbox ≡ ok pass
    → ((resource : QuotaResource)
        → view pass.1.0 identity.tenant_id (value resource)
          ≡ record (view table identity.tenant_id (value resource)) {
            used = owned_of owned identity.tenant_id resource;
          })
      × ((k q : Key) → (k == identity.tenant_id) ≡ false → view pass.1.0 k q ≡ view table k q)
unfolding reconcile
reconcile_counts outside pulse store owned identity table outbox {pass} h =
    let t = identity.tenant_id in
    let counts = calculate_tenant_usage owned t in
    let permitted = >>-ok (require_tenant_permission identity "usage.read") _ h in
    let ((_, _, config), (_, looped)) = >>=-ok (load_active outside store t) _ permitted in
    let seen : (k q : Key) → view pass.1.0 k q ≡ counts_on t k q counts (view table k q) = λ k q.
      view-reconcile_each outside pulse config.quotas t counts table outbox {pass = pass} k q
        looped in
    (
      λ resource.
          seen t (value resource)
          ∙ counts_on-owned_of owned t resource (view table t (value resource)),
      λ k q apart. seen k q ∙ other_tenant t k q counts (view table k q) apart,
    )

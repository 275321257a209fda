-- ===== src/Quota/Reconcile.antt =====
-- Usage counted from the rows that tenants own
-- (backend/enterprise_rag/application/tenant_bootstrap.py:calculate_tenant_usage and
-- tenant_configuration.py:TenantQuotaService.reconcile). The percentage is compared exactly, where
-- the code divides as floating point.
use llama_index_rag.Base.{
  Key, Time, ℕ, suc, ◌+◌, ◌-◌, ◌*◌, ℤ, pos, negsuc, Bool, ◌&&◌, ◌==◌, ltb, leb, if◌then◌else◌, some,
  List, [], ◌∷◌, update_where, keep, count_if, Result, ok, ◌>>=◌, ◌>>◌,
}
use llama_index_rag.Base.Sort.{sort_by}
use llama_index_rag.Domain.Message.{word, number}
use llama_index_rag.Access.Identity.{RequestIdentity}
use llama_index_rag.Access.Permission.{require_tenant_permission}
use llama_index_rag.Access.Context.{Membership, Group, is_active}
use llama_index_rag.Retrieval.{Document, is_live}
use llama_index_rag.Retrieval.Scope.{KnowledgeSpace}
use llama_index_rag.Outbox.{OutboxRecord, Draft, add}
use llama_index_rag.Config.{
  QuotaResource, members, groups, knowledge_spaces, documents, stored_bytes, provider_units,
  DurableQuotas, Store, Outside, load_active,
}
use llama_index_rag.Quota.{value, quota_of, UsageRecord, usage_test, locked_usage}

-- A version of a document, as far as its size is counted.
pub record DocumentVersion : Type 0 where
  pub tenant_id : Key
  pub size_bytes : ℕ

pub record Owned : Type 0 where
  pub memberships : List Membership
  pub groups : List Group
  pub knowledge_spaces : List KnowledgeSpace
  pub documents : List Document
  pub document_versions : List DocumentVersion

abbrev pub sum_bytes : Key → List DocumentVersion → ℕ
sum_bytes tenant_id [] = 0
sum_bytes tenant_id (v ∷ vs) =
    let rest = sum_bytes tenant_id vs in
    if v.tenant_id == tenant_id then v.size_bytes + rest else rest

unfoldable pub calculate_tenant_usage : Owned → Key → List (QuotaResource × ℕ)
calculate_tenant_usage owned tenant_id =
    (members, count_if (λ m. m.tenant_id == tenant_id && is_active m.state) owned.memberships)
    ∷ (groups, count_if (λ g. g.tenant_id == tenant_id && is_active g.state) owned.groups)
    ∷ (
      knowledge_spaces,
      count_if (λ s. s.tenant_id == tenant_id && is_live s.state) owned.knowledge_spaces,
    )
    ∷ (documents, count_if (λ d. d.tenant_id == tenant_id && is_live d.state) owned.documents)
    ∷ (stored_bytes, sum_bytes tenant_id owned.document_versions)
    ∷ (provider_units, 0)
    ∷ []

-- An entry of the result of `reconcile`.
pub record Drift : Type 0 where
  pub resource : Key
  pub used : ℕ
  pub reserved : ℕ
  pub limit : ℕ
  pub drift : ℤ
  pub warning : Bool

-- `actual - previous`.
abbrev pub minus : ℕ → ℕ → ℤ
minus a b = if leb b a then pos (a - b) else negsuc (b - a - 1)

-- The columns that the reconciliation of a row writes.
abbrev pub reconciled : ℕ → Time → UsageRecord → UsageRecord
reconciled actual now u = record u {
  used = actual;
  revision = suc u.revision;
  reconciled_at = some now;
}

-- `(actual + reserved) * 100 / limit >= warning_percent`, where there is a limit.
abbrev pub warns : DurableQuotas → ℕ → ℕ → Bool
warns quotas limit total = ltb 0 limit && leb (quotas.warning_percent * limit) (total * 100)

-- The event of a warning.
abbrev pub warning_event : Key → Key → Drift → Draft
warning_event tenant_id correlation_id d = record {
  tenant_id = tenant_id;
  kind = "tenant.quota.warning";
  correlation_id = correlation_id;
  payload =
      ("tenant_id", word tenant_id)
      ∷ ("resource", word d.resource)
      ∷ ("used", number d.used)
      ∷ ("reserved", number d.reserved)
      ∷ ("limit", number d.limit)
      ∷ [];
  priority = pos 0;
  max_attempts = 3;
}

-- What one pass of the loop gives: the entry, the table and the outbox.
abbrev pub Pass : Type 0
Pass = List Drift × (List UsageRecord × List OutboxRecord)

-- What one call is given: its correlation, the identifiers from `new_id`, one for each resource,
-- and the time.
pub record Pulse : Type 0 where
  pub correlation_id : Key
  pub outbox_id : Key → Key
  pub now : Time

abbrev pub drift_of : DurableQuotas → QuotaResource → ℕ → UsageRecord → Drift
drift_of quotas resource actual u =
    let limit = quota_of quotas resource in
    record {
      resource = value resource;
      used = actual;
      reserved = u.reserved;
      limit = limit;
      drift = minus actual u.used;
      warning = warns quotas limit (actual + u.reserved);
    }

-- The warning that goes to the outbox, if there is one.
abbrev pub warn : Outside → Pulse → Key → Drift → List OutboxRecord → Result (List OutboxRecord)
warn outside pulse tenant_id d outbox =
    if d.warning
    then (do
      (_, after) ←
          add outside.str (pulse.outbox_id d.resource) pulse.now
            (warning_event tenant_id pulse.correlation_id d) outbox
      ok after)
    else ok outbox

unfoldable pub reconcile_each :
    Outside
    → Pulse
    → DurableQuotas
    → Key
    → List (QuotaResource × ℕ)
    → List UsageRecord
    → List OutboxRecord
    → Result Pass
unfolding locked_usage
reconcile_each outside pulse quotas tenant_id [] table outbox = ok ([], (table, outbox))
reconcile_each outside pulse quotas tenant_id ((resource, actual) ∷ rest) table outbox =
    let (usage, held) = locked_usage tenant_id (value resource) table in
    let d = drift_of quotas resource actual usage in
    do
      after ← warn outside pulse tenant_id d outbox
      (ds, tables) ←
          reconcile_each outside pulse quotas tenant_id rest
            (update_where (usage_test tenant_id (value resource)) (reconciled actual pulse.now)
              held)
            after
      ok (d ∷ ds, tables)

unfoldable pub reconcile :
    Outside
    → Pulse
    → Store
    → Owned
    → RequestIdentity
    → List UsageRecord
    → List OutboxRecord
    → Result Pass
unfolding calculate_tenant_usage
reconcile outside pulse store owned identity table outbox =
    require_tenant_permission identity "usage.read" >> (do
      (_, _, config) ← load_active outside store identity.tenant_id
      reconcile_each outside pulse config.quotas identity.tenant_id
          (calculate_tenant_usage owned identity.tenant_id) table outbox)

-- `usage`: the rows of the tenant, ordered by resource.
unfoldable pub usage : RequestIdentity → List UsageRecord → Result (List UsageRecord)
usage identity table =
    require_tenant_permission identity "usage.read"
    >> ok (
        sort_by (λ a b. ltb b.resource a.resource)
          (keep (λ u. u.tenant_id == identity.tenant_id) table))

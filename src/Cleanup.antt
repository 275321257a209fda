-- ===== src/Cleanup.antt =====
-- The sweep of old index generations
-- (backend/enterprise_rag/application/generation_cleanup.py:IndexGenerationCleanupService), over
-- the indexes in memory. `kind` is the number of the text "index_generation".
pub mod Protected
pub mod Deletion
mod Tests
use llama_index_rag.Base.{
  Key, Time, ℕ, suc, ◌+◌, Bool, true, false, not, ◌&&◌, ◌||◌, ◌==◌, ltb, leb, if◌then◌else◌, Option,
  none, some, holds, List, [], ◌∷◌, length, take, keep, find_first, count_if,
}
use llama_index_rag.Base.Sort.{sort_by}
use llama_index_rag.Audit.{AuditEvent}
use llama_index_rag.Retrieval.{Document, Chunk}
use llama_index_rag.Search.{MemoryIndex, is_key, delete_generation}

-- `superseded` says that the state is "superseded".
pub record IndexGeneration : Type 0 where
  pub id : Key
  pub tenant_id : Key
  pub document_id : Key
  pub superseded : Bool
  pub superseded_at : Option Time

pub record Projections (E : Type 0) : Type 0 where
  pub generations : List IndexGeneration
  pub documents : List Document
  pub audit : List AuditEvent
  pub chunks : List Chunk
  pub dense : MemoryIndex E
  pub lexical : MemoryIndex E

pub record GenerationCleanupResult : Type 0 where
  pub scanned : ℕ
  pub retained : ℕ
  pub deleted : ℕ
  pub unsupported : ℕ

-- The conditions of the query; `superseded_at <= now - retention`.
abbrev pub due_test : ℕ → Time → Key → Option Key → IndexGeneration → Bool
due_test retention_seconds now tenant_id wanted g =
    g.tenant_id == tenant_id
    && (g.superseded
        && (holds (λ t. leb (t + retention_seconds) now) g.superseded_at
            && elim wanted [ none ↦ true | some id ↦ g.id == id ]))

-- `ORDER BY superseded_at`, on rows that have one.
abbrev pub time_of : Option Time → Time
time_of none = 0
time_of (some t) = t

abbrev pub superseded_later : IndexGeneration → IndexGeneration → Bool
superseded_later a b = ltb (time_of b.superseded_at) (time_of a.superseded_at)

-- The audit events that refer to a generation.
abbrev pub refers_to : Key → Key → Key → AuditEvent → Bool
refers_to kind tenant_id id e =
    e.body.tenant_id == tenant_id
    && (e.body.event.resource_type == kind && e.body.event.resource_id == id)

-- `document is None or document.active_generation_id == generation.id or audit_count`.
unfoldable pub is_protected : Key → Key → List Document → List AuditEvent → IndexGeneration → Bool
is_protected kind tenant_id documents audit g =
    elim (find_first (λ (d : Document). d.id == g.document_id && d.tenant_id == tenant_id)
      documents) [
        | none ↦ true
        | some d ↦
            is_key g.id d.active_generation_id
            || not (count_if (refers_to kind tenant_id g.id) audit == 0)
      ]

-- The counts of the loop.
abbrev pub retain : GenerationCleanupResult → GenerationCleanupResult
retain r = record r { retained = suc r.retained }

abbrev pub retain_unsupported : GenerationCleanupResult → GenerationCleanupResult
retain_unsupported r = record r { retained = suc r.retained; unsupported = suc r.unsupported }

abbrev pub delete_one : GenerationCleanupResult → GenerationCleanupResult
delete_one r = record r { deleted = suc r.deleted }

module _ {E : Type 0} (tenant_id : Key) where
  -- The deletions in both indexes, of the chunks and of the row.
  unfoldable pub remove_generation : IndexGeneration → Projections E → Projections E
  remove_generation g s = record s {
    dense = delete_generation g.document_id g.id s.dense;
    lexical = delete_generation g.document_id g.id s.lexical;
    chunks =
        keep (λ (c : Chunk). not (c.tenant_id == tenant_id && is_key g.id c.index_generation_id))
          s.chunks;
    generations = keep (λ (x : IndexGeneration). not (x.id == g.id)) s.generations;
  }

module _ {E : Type 0} (kind : Key) (deletes : Bool) (tenant_id : Key) where
  -- The loop; `deletes` says that both indexes have `delete_generation`.
  unfoldable pub sweep_each :
      List IndexGeneration
      → GenerationCleanupResult
      → Projections E
      → GenerationCleanupResult × Projections E
  sweep_each [] r s = (r, s)
  sweep_each (g ∷ gs) r s =
      if is_protected kind tenant_id s.documents s.audit g
      then sweep_each gs (retain r) s
      else if deletes
      then sweep_each gs (delete_one r) (remove_generation tenant_id g s)
      else sweep_each gs (retain_unsupported r) s

  unfoldable pub sweep :
      ℕ → Time → ℕ → Option Key → Projections E → GenerationCleanupResult × Projections E
  sweep retention_seconds now limit wanted s =
      let candidates = take limit (
        sort_by superseded_later
          (keep (due_test retention_seconds now tenant_id wanted) s.generations)) in
      sweep_each candidates
        (record { scanned = length candidates; retained = 0; deleted = 0; unsupported = 0 }) s

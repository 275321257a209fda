-- ===== src/Retrieval/Evidence.antt =====
-- The validation of candidates against the database and the selection of evidence
-- (backend/enterprise_rag/application/retrieval.py:RetrievalService._retrieve). `str` is Python's
-- `str` on an id that may be missing.
pub mod Bounds
pub mod Authority
use llama_index_rag.Base.{
  Key, ℕ, suc, ◌+◌, Bool, true, false, not, ◌&&◌, ◌||◌, ◌==◌, leb, ltb, if◌then◌else◌, is_none,
  holds, Option, none, some, List, [], ◌∷◌, ◌++◌, map, keep, elem, length, concat_map,
}
use llama_index_rag.Access.Context.{is_empty}
use llama_index_rag.Retrieval.{
  Token, shares_token, Metadata, RetrievalCandidate, AuthorizationScope, is_live, Document, Chunk,
  Scores, RetrievalPolicy,
}

-- An authority row: a chunk with its document.
abbrev pub Row : Type 0
Row = Chunk × Document

abbrev pub ids_of : {S : Type 0} → List (RetrievalCandidate S) → List Key
ids_of cs = map (λ c. c.chunk_id) cs

-- The conditions of the query for authority rows. A comparison with NULL is not true.
unfoldable pub row_test : Key → List Key → Row → Bool
row_test tenant_id candidate_ids (chunk, document) =
    document.id == chunk.document_id
    && (elem chunk.id candidate_ids
        && (chunk.tenant_id == tenant_id
            && (document.tenant_id == tenant_id
                && (chunk.active
                    && (is_live document.state
                        && (holds (λ v. chunk.document_version_id == v) document.active_version_id
                            && (is_none document.active_generation_id
                                || holds (λ g. holds (λ a. g == a) document.active_generation_id)
                                    chunk.index_generation_id)))))))

unfoldable pub authority_rows : Key → List Key → List Chunk → List Document → List Row
authority_rows tenant_id candidate_ids chunks documents =
    keep (row_test tenant_id candidate_ids)
      (concat_map (λ chunk. map (λ document. (chunk, document)) documents) chunks)

-- `active_rows.get(chunk_id)`: the last row of an id counts.
unfoldable pub active_row : Key → List Row → Option Row
active_row id [] = none
active_row id (row ∷ rows) = elim (active_row id rows) [
  | some later ↦ some later
  | none ↦ if row.0.id == id then some row else none
]

abbrev pub names : Option Key → Key → Bool
names entry id = holds (λ k. k == id) entry

-- Every condition on a candidate whose authority row is there.
unfoldable pub row_allows :
    {S : Type 0} → (Option Key → Key) → AuthorizationScope → Key → RetrievalCandidate S → Row → Bool
row_allows str scope tenant_id c (chunk, document) =
    names c.metadata.tenant_id tenant_id
    && (holds (λ k. elem k scope.knowledge_space_ids) c.metadata.knowledge_space_id
        && (names c.metadata.document_id chunk.document_id
            && (names c.metadata.document_version_id chunk.document_version_id
                && (shares_token c.metadata.acl_tokens scope.principal_tokens
                    && (shares_token chunk.acl_tokens scope.principal_tokens
                        && ((is_empty scope.document_ids
                              || elem chunk.document_id scope.document_ids)
                            && ((is_none chunk.index_generation_id
                                  || str c.metadata.index_generation_id
                                    == str chunk.index_generation_id)
                                && (is_empty scope.index_generation_ids
                                    || elem (str chunk.index_generation_id)
                                        scope.index_generation_ids))))))))

unfoldable pub allowed :
    {S : Type 0}
    → (Option Key → Key)
    → AuthorizationScope
    → Key
    → List Row
    → RetrievalCandidate S
    → Bool
allowed str scope tenant_id rows c =
    holds (row_allows str scope tenant_id c) (active_row c.chunk_id rows)

pub data Reason : Type 0 where
  missing_or_inactive_authority_row tenant_mismatch stale_document_version : Reason
  stale_index_generation unauthorized_index_generation candidate_acl_mismatch : Reason
  authority_or_scope_mismatch : Reason

-- The reason that is recorded for a candidate that is not allowed.
unfoldable pub rejection_reason :
    {S : Type 0}
    → (Option Key → Key)
    → AuthorizationScope
    → Key
    → RetrievalCandidate S
    → Option Row
    → Reason
rejection_reason str scope tenant_id c none = missing_or_inactive_authority_row
rejection_reason str scope tenant_id c (some (chunk, document)) =
    if not (names c.metadata.tenant_id tenant_id)
    then tenant_mismatch
    else if not (names c.metadata.document_version_id chunk.document_version_id)
    then stale_document_version
    else if not (is_none chunk.index_generation_id)
        && not (str c.metadata.index_generation_id == str chunk.index_generation_id)
    then stale_index_generation
    else if not (is_empty scope.index_generation_ids)
        && not (elem (str chunk.index_generation_id) scope.index_generation_ids)
    then unauthorized_index_generation
    else if not (shares_token c.metadata.acl_tokens scope.principal_tokens)
    then candidate_acl_mismatch
    else authority_or_scope_mismatch

-- The loop that selects evidence: `used` characters and `count` candidates so far.
unfoldable pub select_evidence :
    {S : Type 0}
    → Scores S
    → RetrievalPolicy S
    → List Key
    → ℕ
    → ℕ
    → List (RetrievalCandidate S)
    → List (RetrievalCandidate S)
select_evidence scores policy active_ids used count [] = []
select_evidence scores policy active_ids used count (c ∷ cs) =
    let skipped = select_evidence scores policy active_ids used count cs in
    let more = select_evidence scores policy active_ids (used + length c.body) (suc count) cs in
    if not (elem c.chunk_id active_ids) || scores.below c.score policy.relevance_threshold
    then skipped
    else if ltb policy.context_character_budget (used + length c.body)
    then skipped
    else c ∷ (if leb policy.evidence_top_k (suc count) then [] else more)

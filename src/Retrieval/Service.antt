-- ===== src/Retrieval/Service.antt =====
-- The retrieval from its scope on (backend/enterprise_rag/application/retrieval.py:
-- RetrievalService._retrieve). The searches and the reranker are adapters, so their answers are
-- arguments: `none` when the adapter raises. The rewriting of the question, the conflict flag and
-- the counts of the trace that follow from the result are left out.
pub mod Authorized
pub mod Degradation
use llama_index_rag.Base.{
  Key, ℕ, ◌*◌, max, Bool, true, false, not, ◌&&◌, ◌||◌, ◌==◌, if◌then◌else◌, Option, none, some,
  List, [], ◌∷◌, map, keep, take, length, filter_map, concat_map, Result, ok, err, app_error,
  dependency_unavailable, ◌>>=◌, ◌>>◌, raise_if,
}
use llama_index_rag.Access.Context.{is_empty}
use llama_index_rag.Retrieval.{
  RetrievalCandidate, AuthorizationScope, Document, Chunk, Scores, RetrievalPolicy,
}
use llama_index_rag.Retrieval.Fusion.{reciprocal_rank_fusion}
use llama_index_rag.Retrieval.Evidence.{
  Row, ids_of, authority_rows, active_row, allowed, Reason, rejection_reason, select_evidence,
}

-- `reasons` has one element for each rejected candidate; when there is one, a security event with
-- their number is stored.
pub record RetrievalResult (S : Type 0) : Type 0 where
  pub candidates : List (RetrievalCandidate S)
  pub evidence : List (RetrievalCandidate S)
  pub degraded : Bool
  pub fused_count : ℕ
  pub reasons : List Reason

module _ {S : Type 0} (scores : Scores S) (str : Option Key → Key) (fusion_source : Key)
    (rerank : List (RetrievalCandidate S) → ℕ → Option (List (RetrievalCandidate S)))
    (policy : RetrievalPolicy S) where
  -- `[item for item in results if isinstance(item, list)]`.
  abbrev pub successful :
      Option (List (RetrievalCandidate S))
      → Option (List (RetrievalCandidate S))
      → List (List (RetrievalCandidate S))
  successful dense lexical = filter_map (λ r. r) (dense ∷ lexical ∷ [])

  abbrev pub validated :
      AuthorizationScope
      → Key
      → List Row
      → List (List (RetrievalCandidate S))
      → List (List (RetrievalCandidate S))
  validated scope tenant_id rows sets = map (λ cs. keep (allowed str scope tenant_id rows) cs) sets

  abbrev pub rejections :
      AuthorizationScope → Key → List Row → List (List (RetrievalCandidate S)) → List Reason
  rejections scope tenant_id rows sets =
      map (λ c. rejection_reason str scope tenant_id c (active_row c.chunk_id rows))
        (keep (λ c. not (allowed str scope tenant_id rows c)) (concat_map (λ cs. cs) sets))

  abbrev pub fused_sets :
      AuthorizationScope
      → Key
      → List Row
      → List (List (RetrievalCandidate S))
      → List (RetrievalCandidate S)
  fused_sets scope tenant_id rows sets =
      reciprocal_rank_fusion scores policy.fusion_k fusion_source
        (validated scope tenant_id rows sets)

  abbrev pub bounded : List (RetrievalCandidate S) → List (RetrievalCandidate S)
  bounded fused = take (max (policy.rerank_top_k * 4) policy.rerank_top_k) fused

  -- The reranked candidates, and whether the reranker failed.
  unfoldable pub reranked :
      List (RetrievalCandidate S) → Result (List (RetrievalCandidate S) × Bool)
  reranked cs = elim (rerank cs policy.rerank_top_k) [
    | some answer ↦ ok (answer, false)
    | none ↦
        if policy.allow_single_search_degradation
        then ok (take policy.rerank_top_k cs, true)
        else err (app_error dependency_unavailable 503)
  ]

  -- The result from the answers of the searches on, for at least one of them.
  unfoldable pub answer :
      AuthorizationScope
      → Key
      → List Row
      → Bool
      → List (List (RetrievalCandidate S))
      → Result (RetrievalResult S)
  answer scope tenant_id rows degraded sets = do
    let fused = fused_sets scope tenant_id rows sets
    ranked ← reranked (bounded fused)
    ok (record {
      candidates = ranked.0;
      evidence = select_evidence scores policy (map (λ (row : Row). row.0.id) rows) 0 0 ranked.0;
      degraded = degraded || ranked.1;
      fused_count = length fused;
      reasons = rejections scope tenant_id rows sets;
    })

  unfoldable pub retrieve :
      List Chunk
      → List Document
      → AuthorizationScope
      → Key
      → Option (List (RetrievalCandidate S))
      → Option (List (RetrievalCandidate S))
      → Result (RetrievalResult S)
  retrieve chunks documents scope tenant_id dense lexical =
      let sets = successful dense lexical in
      let degraded = not (length sets == 2) in
      raise_if (is_empty sets || (degraded && not policy.allow_single_search_degradation))
        (app_error dependency_unavailable 503)
      >> answer scope tenant_id (authority_rows tenant_id (concat_map ids_of sets) chunks documents)
          degraded sets

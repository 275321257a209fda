-- ===== src/Retrieval/Fusion.antt =====
-- Reciprocal rank fusion (backend/enterprise_rag/application/retrieval.py:reciprocal_rank_fusion).
-- The three dictionaries have the same keys, so they are one list of entries in order of insertion.
pub mod Union
use llama_index_rag.Base.{
  Key, ℕ, suc, ◌+◌, Bool, true, false, not, ◌&&◌, ◌||◌, ◌==◌, ltb, if◌then◌else◌, List, [], ◌∷◌,
  map, sorted_set,
}
use llama_index_rag.Base.Sort.{sort_by}
use llama_index_rag.Retrieval.{Scores, RetrievalCandidate}

-- The score so far, the latest candidate of the id and the sources that found it.
pub record Fused (S : Type 0) : Type 0 where
  pub total : S
  pub latest : RetrievalCandidate S
  pub sources : List Key

module _ {S : Type 0} (scores : Scores S) (fusion_k : ℕ) where
  -- The body of the inner loop.
  unfoldable pub bump : ℕ → RetrievalCandidate S → List (Fused S) → List (Fused S)
  bump rank c [] =
      record {
        total = scores.add_score scores.zero_score (scores.reciprocal (fusion_k + rank));
        latest = c;
        sources = c.source ∷ [];
      }
      ∷ []
  bump rank c (e ∷ es) =
      let rest = bump rank c es in
      if e.latest.chunk_id == c.chunk_id
      then record {
        total = scores.add_score e.total (scores.reciprocal (fusion_k + rank));
        latest = c;
        sources = c.source ∷ e.sources;
      }
        ∷ es
      else e ∷ rest

  -- One result set, from the given rank on.
  unfoldable pub add_ranked : ℕ → List (RetrievalCandidate S) → List (Fused S) → List (Fused S)
  add_ranked rank [] es = es
  add_ranked rank (c ∷ cs) es = add_ranked (suc rank) cs (bump rank c es)

  unfoldable pub add_sets : List (List (RetrievalCandidate S)) → List (Fused S) → List (Fused S)
  add_sets [] es = es
  add_sets (cs ∷ sets) es = add_sets sets (add_ranked 1 cs es)

  -- `key=lambda item: (-item[1], item[0])`: scores are equal when neither is below the other.
  abbrev pub later_entry : Fused S → Fused S → Bool
  later_entry a b =
      scores.below a.total b.total
      || (not (scores.below b.total a.total) && ltb b.latest.chunk_id a.latest.chunk_id)

  -- `fusion_source` is the text "fusion".
  abbrev pub fused_candidate : Key → Fused S → RetrievalCandidate S
  fused_candidate fusion_source e = record {
    chunk_id = e.latest.chunk_id;
    body = e.latest.body;
    score = e.total;
    metadata = record e.latest.metadata { retrieval_sources = sorted_set e.sources };
    source = fusion_source;
  }

  unfoldable pub reciprocal_rank_fusion :
      Key → List (List (RetrievalCandidate S)) → List (RetrievalCandidate S)
  reciprocal_rank_fusion fusion_source sets =
      map (fused_candidate fusion_source) (sort_by later_entry (add_sets sets []))

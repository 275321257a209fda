-- ===== src/Retrieval/Evidence/Bounds.antt =====
-- The limits of the evidence.
use llama_index_rag.Base.{
  Key, ℕ, suc, ◌+◌, ◌≤◌, ◌<◌, ◌≡◌, true, false, List, [], ◌∷◌, elem, length, All, arith,
}
use llama_index_rag.Retrieval.{RetrievalCandidate, Scores, RetrievalPolicy}
use llama_index_rag.Retrieval.Evidence.{select_evidence}

-- The characters of the evidence.
abbrev pub characters : {S : Type 0} → List (RetrievalCandidate S) → ℕ
characters [] = 0
characters (c ∷ cs) = length c.body + characters cs

module _ {S : Type 0} (scores : Scores S) (policy : RetrievalPolicy S) (active_ids : List Key) where
  pub select_evidence-count :
      (used count : ℕ) (cs : List (RetrievalCandidate S))
      → count < policy.evidence_top_k
      → count + length (select_evidence scores policy active_ids used count cs)
        ≤ policy.evidence_top_k
  unfolding select_evidence
  select_evidence-count used count [] h = omega arith
  select_evidence-count used count (c ∷ cs) h = ground (
    arith,
    select_evidence-count used count cs,
    select_evidence-count (used + length c.body) (suc count) cs,
  )

  pub select_evidence-characters :
      (used count : ℕ) (cs : List (RetrievalCandidate S))
      → used ≤ policy.context_character_budget
      → used + characters (select_evidence scores policy active_ids used count cs)
        ≤ policy.context_character_budget
  unfolding select_evidence
  select_evidence-characters used count [] h = omega arith
  select_evidence-characters used count (c ∷ cs) h = ground (
    arith,
    select_evidence-characters used count cs,
    select_evidence-characters (used + length c.body) (suc count) cs,
  )

  -- What holds of every candidate that passes the two tests holds of the evidence.
  pub All-select_evidence :
      (P : RetrievalCandidate S → Type 0) (used count : ℕ) (cs : List (RetrievalCandidate S))
      → All
          (λ c.
            elem c.chunk_id active_ids ≡ true
            → scores.below c.score policy.relevance_threshold ≡ false
            → P c)
          cs
      → All P (select_evidence scores policy active_ids used count cs)
  unfolding select_evidence
  All-select_evidence P used count [] h = tt
  All-select_evidence P used count (c ∷ cs) h = ground (
    arith,
    All-select_evidence P used count cs h.1,
    All-select_evidence P (used + length c.body) (suc count) cs h.1,
  )

-- ===== src/Retrieval/Service/Authorized.antt =====
-- Evidence, the caller's permissions and the policy
-- (backend/enterprise_rag/application/retrieval.py:RetrievalService._retrieve).
use llama_index_rag.Base.{
  Key, ℕ, ◌*◌, max, ◌≤◌, ◌<◌, ◌≡◌, sym, subst, inl, inr, Bool, true, false, not, ◌==◌, Option, some,
  List, [], ◌∷◌, map, keep, take, elem, length, concat_map, ok, All, All-map, All-take,
  All-keep_test, arith, Bool-cases, Option-cases, eq_of_==, Result-cases,
}
use llama_index_rag.Retrieval.{
  RetrievalCandidate, AuthorizationScope, Document, Chunk, Scores, RetrievalPolicy, check_policy,
}
use llama_index_rag.Retrieval.Fusion.Union.{All-reciprocal_rank_fusion}
use llama_index_rag.Retrieval.Evidence.{Row, ids_of, authority_rows, allowed, select_evidence}
use llama_index_rag.Retrieval.Evidence.Bounds.{
  characters, select_evidence-count, select_evidence-characters, All-select_evidence,
}
use llama_index_rag.Retrieval.Evidence.Authority.{HasReadable, allowed-HasReadable}
use llama_index_rag.Retrieval.Service.{
  RetrievalResult, successful, validated, fused_sets, bounded, reranked, answer, retrieve,
}

-- What holds of all listed ids holds of each of them.
All-elem :
    (P : Key → Type 0) {S : Type 0} (cs : List (RetrievalCandidate S)) (k : Key)
    → All (λ c. P c.chunk_id) cs
    → elem k (ids_of cs) ≡ true
    → P k
All-elem P [] k h e = cc
All-elem P (c ∷ cs) k h e = elim (Bool-cases (k == c.chunk_id)) [
  | inl here ↦ subst P (sym (eq_of_== k c.chunk_id here)) h.0
  | inr other ↦ All-elem P cs k h.1 (ground (arith, other, e))
]

All-const {ℓ κ} : {A : Type ℓ} {P : A → Type κ} → ((a : A) → P a) → (xs : List A) → All P xs
All-const f [] = tt
All-const f (x ∷ xs) = (f x, All-const f xs)

module _ {S : Type 0} (scores : Scores S) (str : Option Key → Key) (source : Key)
    (rerank : List (RetrievalCandidate S) → ℕ → Option (List (RetrievalCandidate S)))
    (policy : RetrievalPolicy S) where
  -- The reranker returns candidates that it was given.
  abbrev pub KeepsIds : Type 0
  KeepsIds =
      (cs out : List (RetrievalCandidate S)) (k : ℕ)
      → rerank cs k ≡ some out
      → All (λ c. elem c.chunk_id (ids_of cs) ≡ true) out

  abbrev evidence_of : List Row → List (RetrievalCandidate S) → List (RetrievalCandidate S)
  evidence_of rows out = select_evidence scores policy (map (λ (row : Row). row.0.id) rows) 0 0 out

  abbrev to_rerank :
      AuthorizationScope
      → Key
      → List Row
      → List (List (RetrievalCandidate S))
      → List (RetrievalCandidate S)
  to_rerank scope tenant_id rows sets =
      bounded scores str source rerank policy
        (fused_sets scores str source rerank policy scope tenant_id rows sets)

  -- Where the evidence of an answer comes from.
  answer-parts :
      (scope : AuthorizationScope) (tenant_id : Key) (rows : List Row) (degraded : Bool)
      (sets : List (List (RetrievalCandidate S))) (result : RetrievalResult S)
      → answer scores str source rerank policy scope tenant_id rows degraded sets ≡ ok result
      → (ranked : List (RetrievalCandidate S) × Bool) × ((reranked scores str source rerank policy
              (to_rerank scope tenant_id rows sets)
            ≡ ok ranked)
          × (evidence_of rows ranked.0 ≡ result.evidence))
  unfolding answer
  answer-parts scope tenant_id rows degraded sets result e =
      elim (Result-cases
        (reranked scores str source rerank policy (to_rerank scope tenant_id rows sets))) [
          | inl (ranked, fine) ↦ (ranked, (fine, ground (arith, fine, e)))
          | inr (error, raised) ↦ ground (arith, raised, e)
        ]

  retrieve-answer :
      (chunks : List Chunk) (documents : List Document) (scope : AuthorizationScope)
      (tenant_id : Key) (dense lexical : Option (List (RetrievalCandidate S)))
      (result : RetrievalResult S)
      → retrieve scores str source rerank policy chunks documents scope tenant_id dense lexical
        ≡ ok result
      → (degraded : Bool) × (answer scores str source rerank policy scope tenant_id
            (authority_rows tenant_id
              (concat_map ids_of (successful scores str source rerank policy dense lexical))
              chunks
              documents)
            degraded
            (successful scores str source rerank policy dense lexical)
          ≡ ok result)
  unfolding retrieve
  retrieve-answer chunks documents scope tenant_id dense lexical result e = (
    not (length (successful scores str source rerank policy dense lexical) == 2),
    ground (arith, e),
  )

  module _ (P : Key → Type 0) (keeps : KeepsIds) where
    All-reranked :
        (cs out : List (RetrievalCandidate S)) (failed : Bool)
        → All (λ c. P c.chunk_id) cs
        → reranked scores str source rerank policy cs ≡ ok (out, failed)
        → All (λ c. P c.chunk_id) out
    unfolding reranked
    All-reranked cs out failed h e = elim (Option-cases (rerank cs policy.rerank_top_k)) [
      | inl raised ↦
          let same : take policy.rerank_top_k cs ≡ out = ground (arith, raised, e) in
          subst (λ x. All (λ c. P c.chunk_id) x) same
            (All-take (λ c. P c.chunk_id) policy.rerank_top_k cs h)
      | inr (given, fine) ↦
          let same : given ≡ out = ground (arith, fine, e) in
          subst (λ x. All (λ c. P c.chunk_id) x) same
            (All-map (λ c. elem c.chunk_id (ids_of cs) ≡ true) (λ c. P c.chunk_id) given
              (λ c there. All-elem P cs c.chunk_id h there)
              (keeps cs given policy.rerank_top_k fine))
    ]

    All-validated :
        (scope : AuthorizationScope) (tenant_id : Key) (rows : List Row)
        (sets : List (List (RetrievalCandidate S)))
        → ((c : RetrievalCandidate S) → allowed str scope tenant_id rows c ≡ true → P c.chunk_id)
        → All
            (λ cs. All (λ c. P c.chunk_id) cs)
            (validated scores str source rerank policy scope tenant_id rows sets)
    All-validated scope tenant_id rows [] sound = tt
    All-validated scope tenant_id rows (cs ∷ sets) sound = (
      All-map (λ c. allowed str scope tenant_id rows c ≡ true) (λ c. P c.chunk_id)
          (keep (allowed str scope tenant_id rows) cs) sound
          (All-keep_test (allowed str scope tenant_id rows) cs),
      All-validated scope tenant_id rows sets sound,
    )

    All-answer :
        (scope : AuthorizationScope) (tenant_id : Key) (rows : List Row) (degraded : Bool)
        (sets : List (List (RetrievalCandidate S))) (result : RetrievalResult S)
        → ((c : RetrievalCandidate S) → allowed str scope tenant_id rows c ≡ true → P c.chunk_id)
        → answer scores str source rerank policy scope tenant_id rows degraded sets ≡ ok result
        → All (λ c. P c.chunk_id) result.evidence
    All-answer scope tenant_id rows degraded sets result sound e =
        let (ranked, (fine, same)) = answer-parts scope tenant_id rows degraded sets result e in
        let fused : All (λ c. P c.chunk_id)
            (fused_sets scores str source rerank policy scope tenant_id rows sets) =
          All-reciprocal_rank_fusion scores policy.fusion_k P source
            (validated scores str source rerank policy scope tenant_id rows sets)
            (All-validated scope tenant_id rows sets sound) in
        let given : All (λ c. P c.chunk_id) (to_rerank scope tenant_id rows sets) =
          All-take (λ c. P c.chunk_id) (max (policy.rerank_top_k * 4) policy.rerank_top_k)
            (fused_sets scores str source rerank policy scope tenant_id rows sets) fused in
        let after : All (λ c. P c.chunk_id) ranked.0 =
          All-reranked (to_rerank scope tenant_id rows sets) ranked.0 ranked.1 given fine in
        subst (λ cs. All (λ c. P c.chunk_id) cs) same
          (All-select_evidence scores policy (map (λ (row : Row). row.0.id) rows)
            (λ c. P c.chunk_id) 0 0 ranked.0
            (All-map (λ c. P c.chunk_id) _ ranked.0 (λ c p _ _. p) after))

  -- If the reranker returns only chunks that it was given, each piece of evidence is a chunk that
  -- the caller may read now: the database has its row with an active document of the tenant, in the
  -- current version, with an access list that names the caller, and of a generation of the scope
  -- where the scope lists any.
  pub evidence_authorized :
      (chunks : List Chunk) (documents : List Document) (scope : AuthorizationScope)
      (tenant_id : Key) (dense lexical : Option (List (RetrievalCandidate S)))
      (result : RetrievalResult S)
      → KeepsIds
      → retrieve scores str source rerank policy chunks documents scope tenant_id dense lexical
        ≡ ok result
      → All
          (λ c.
            HasReadable str scope tenant_id chunks documents
              (concat_map ids_of (successful scores str source rerank policy dense lexical))
              c.chunk_id)
          result.evidence
  evidence_authorized chunks documents scope tenant_id dense lexical result keeps e =
      let sets = successful scores str source rerank policy dense lexical in
      let ids = concat_map ids_of sets in
      let (degraded, e') =
        retrieve-answer chunks documents scope tenant_id dense lexical result e in
      All-answer (HasReadable str scope tenant_id chunks documents ids) keeps scope tenant_id
        (authority_rows tenant_id ids chunks documents) degraded sets result
        (allowed-HasReadable str scope tenant_id chunks documents ids) e'

  check_policy-positive : check_policy scores policy ≡ ok tt → 0 < policy.evidence_top_k
  unfolding check_policy
  check_policy-positive h = ground arith

  -- Under a valid policy the evidence has at most `evidence_top_k` candidates, at most
  -- `context_character_budget` characters together, and no score below the threshold, whatever the
  -- reranker returns.
  pub evidence_within_policy :
      (chunks : List Chunk) (documents : List Document) (scope : AuthorizationScope)
      (tenant_id : Key) (dense lexical : Option (List (RetrievalCandidate S)))
      (result : RetrievalResult S)
      → check_policy scores policy ≡ ok tt
      → retrieve scores str source rerank policy chunks documents scope tenant_id dense lexical
        ≡ ok result
      → (length result.evidence ≤ policy.evidence_top_k)
        × ((characters result.evidence ≤ policy.context_character_budget)
            × All (λ c. scores.below c.score policy.relevance_threshold ≡ false) result.evidence)
  evidence_within_policy chunks documents scope tenant_id dense lexical result valid e =
      let sets = successful scores str source rerank policy dense lexical in
      let rows = authority_rows tenant_id (concat_map ids_of sets) chunks documents in
      let active_ids = map (λ (row : Row). row.0.id) rows in
      let (degraded, e') =
        retrieve-answer chunks documents scope tenant_id dense lexical result e in
      let (ranked, (fine, same)) = answer-parts scope tenant_id rows degraded sets result e' in
      subst
        (λ cs.
          (length cs ≤ policy.evidence_top_k)
          × ((characters cs ≤ policy.context_character_budget)
              × All (λ c. scores.below c.score policy.relevance_threshold ≡ false) cs))
        same
        (
          omega (
            arith,
            select_evidence-count scores policy active_ids 0 0 ranked.0
                (check_policy-positive valid),
          ),
          (
            omega (
              arith,
              select_evidence-characters scores policy active_ids 0 0 ranked.0 (omega arith),
            ),
            All-select_evidence scores policy active_ids
                (λ c. scores.below c.score policy.relevance_threshold ≡ false) 0 0 ranked.0
                (All-const (λ c _ high. high) ranked.0),
          ),
        )

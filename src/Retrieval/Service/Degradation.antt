-- ===== src/Retrieval/Service/Degradation.antt =====
-- Failures of the searches and of the reranker, and the number of candidates
-- (backend/enterprise_rag/application/retrieval.py:RetrievalService._retrieve).
use llama_index_rag.Base.{
  Key, ℕ, ◌+◌, ◌≡◌, refl, sym, ◌∙◌, ap, inl, inr, Bool, true, false, not, ◌&&◌, ◌||◌, is_none,
  Option, none, some, List, [], ◌∷◌, ◌++◌, map, keep, take, length, concat_map, ok, err, app_error,
  dependency_unavailable, arith, Option-cases,
}
use llama_index_rag.Retrieval.{
  RetrievalCandidate, AuthorizationScope, Document, Chunk, Scores, RetrievalPolicy,
}
use llama_index_rag.Retrieval.Evidence.{
  Row, ids_of, authority_rows, active_row, allowed, rejection_reason,
}
use llama_index_rag.Retrieval.Service.{
  RetrievalResult, successful, validated, rejections, fused_sets, bounded, reranked, answer,
  retrieve,
}

length-split :
    {S : Type 0} (p : RetrievalCandidate S → Bool) (cs : List (RetrievalCandidate S))
    → length (keep p cs) + length (keep (λ c. not (p c)) cs) ≡ length cs
length-split p [] = refl
length-split p (c ∷ cs) = ground (arith, length-split p cs)

length-map {ℓ κ} :
    {A : Type ℓ} {B : Type κ} (f : A → B) (xs : List A) → length (map f xs) ≡ length xs
length-map f [] = refl
length-map f (x ∷ xs) = omega (arith, length-map f xs)

keep-append {ℓ} :
    {A : Type ℓ} (p : A → Bool) (xs ys : List A) → keep p (xs ++ ys) ≡ keep p xs ++ keep p ys
keep-append p [] ys = refl
keep-append p (x ∷ xs) ys = ground (arith, keep-append p xs ys)

concat_map-keep {ℓ} :
    {A : Type ℓ} (p : A → Bool) (sets : List (List A))
    → concat_map (λ xs. xs) (map (λ xs. keep p xs) sets) ≡ keep p (concat_map (λ xs. xs) sets)
concat_map-keep p [] = refl
concat_map-keep p (xs ∷ sets) =
    ap (λ rest. keep p xs ++ rest) (concat_map-keep p sets)
    ∙ sym (keep-append p xs (concat_map (λ ys. ys) sets))

module _ {S : Type 0} (scores : Scores S) (str : Option Key → Key) (source : Key)
    (rerank : List (RetrievalCandidate S) → ℕ → Option (List (RetrievalCandidate S)))
    (policy : RetrievalPolicy S) where
  -- What the reranker answers on the candidates of the given sets.
  abbrev pub reranking :
      List Chunk
      → List Document
      → AuthorizationScope
      → Key
      → List (List (RetrievalCandidate S))
      → Option (List (RetrievalCandidate S))
  reranking chunks documents scope tenant_id sets =
      rerank
        (bounded scores str source rerank policy (
          fused_sets scores str source rerank policy scope tenant_id
            (authority_rows tenant_id (concat_map ids_of sets) chunks documents) sets))
        policy.rerank_top_k

  reranked_degrades :
      (cs : List (RetrievalCandidate S))
      → policy.allow_single_search_degradation ≡ true
      → (ranked : List (RetrievalCandidate S) × Bool) × ((reranked scores str source rerank policy
              cs
            ≡ ok ranked)
          × (ranked.1 ≡ is_none (rerank cs policy.rerank_top_k)))
  unfolding reranked
  reranked_degrades cs may = elim (Option-cases (rerank cs policy.rerank_top_k)) [
    | inl raised ↦
        ((take policy.rerank_top_k cs, true), (ground (arith, raised, may), ground (arith, raised)))
    | inr (out, fine) ↦ ((out, false), (ground (arith, fine), ground (arith, fine)))
  ]

  answer_degrades :
      (scope : AuthorizationScope) (tenant_id : Key) (rows : List Row) (degraded : Bool)
      (sets : List (List (RetrievalCandidate S)))
      → policy.allow_single_search_degradation ≡ true
      → (result : RetrievalResult S) × ((answer scores str source rerank policy scope tenant_id rows
              degraded sets
            ≡ ok result)
          × (result.degraded ≡ (
              degraded
              || is_none (
                  rerank
                    (bounded scores str source rerank policy
                      (fused_sets scores str source rerank policy scope tenant_id rows sets))
                    policy.rerank_top_k))))
  unfolding answer
  answer_degrades scope tenant_id rows degraded sets may =
      let given =
        bounded scores str source rerank policy
          (fused_sets scores str source rerank policy scope tenant_id rows sets) in
      let (ranked, (fine, failed)) = reranked_degrades given may in
      simp (fine, failed) (_, (refl, refl))

  -- A policy that allows degradation gets an answer whenever one of the two searches answers; the
  -- answer is marked degraded exactly when a search or the reranker has failed.
  pub retrieve_degrades :
      (chunks : List Chunk) (documents : List Document) (scope : AuthorizationScope)
      (tenant_id : Key) (dense lexical : Option (List (RetrievalCandidate S)))
      → policy.allow_single_search_degradation ≡ true
      → (is_none dense && is_none lexical) ≡ false
      → (result : RetrievalResult S) × ((retrieve scores str source rerank policy chunks documents
              scope tenant_id dense lexical
            ≡ ok result)
          × (result.degraded ≡ (
              (is_none dense || is_none lexical)
              || is_none (
                  reranking chunks documents scope tenant_id
                    (successful scores str source rerank policy dense lexical)))))
  unfolding retrieve
  retrieve_degrades chunks documents scope tenant_id none none may some_answer = ground arith
  retrieve_degrades chunks documents scope tenant_id none (some b) may some_answer = simp may (
      answer_degrades scope tenant_id
        (authority_rows tenant_id (concat_map ids_of (b ∷ [])) chunks documents) true (b ∷ []) may)
  retrieve_degrades chunks documents scope tenant_id (some a) none may some_answer = simp may (
      answer_degrades scope tenant_id
        (authority_rows tenant_id (concat_map ids_of (a ∷ [])) chunks documents) true (a ∷ []) may)
  retrieve_degrades chunks documents scope tenant_id (some a) (some b) may some_answer =
      answer_degrades scope tenant_id
        (authority_rows tenant_id (concat_map ids_of (a ∷ b ∷ [])) chunks documents) false
        (a ∷ b ∷ []) may

  -- Without the permission to degrade, the failure of one search makes the whole retrieval
  -- unavailable.
  pub retrieve_strict :
      (chunks : List Chunk) (documents : List Document) (scope : AuthorizationScope)
      (tenant_id : Key) (dense lexical : Option (List (RetrievalCandidate S)))
      → policy.allow_single_search_degradation ≡ false
      → (is_none dense || is_none lexical) ≡ true
      → retrieve scores str source rerank policy chunks documents scope tenant_id dense lexical
        ≡ err (app_error dependency_unavailable 503)
  unfolding retrieve
  retrieve_strict chunks documents scope tenant_id none none strict failed = refl
  retrieve_strict chunks documents scope tenant_id none (some b) strict failed = simp strict refl
  retrieve_strict chunks documents scope tenant_id (some a) none strict failed = simp strict refl
  retrieve_strict chunks documents scope tenant_id (some a) (some b) strict failed = ground arith

  -- Each candidate is either fused or rejected with one reason: the two numbers add up.
  pub candidates_accounted :
      (scope : AuthorizationScope) (tenant_id : Key) (rows : List Row)
      (sets : List (List (RetrievalCandidate S)))
      → length (
            concat_map
              (λ cs. cs)
              (validated scores str source rerank policy scope tenant_id rows sets))
          + length (rejections scores str source rerank policy scope tenant_id rows sets)
        ≡ length (concat_map (λ cs. cs) sets)
  candidates_accounted scope tenant_id rows sets =
      let kept : RetrievalCandidate S → Bool = allowed str scope tenant_id rows in
      let all : List (RetrievalCandidate S) = concat_map (λ cs. cs) sets in
      omega (
        arith,
        ap length (concat_map-keep kept sets),
        length-split kept all,
        length-map (λ c. rejection_reason str scope tenant_id c (active_row c.chunk_id rows))
            (keep (λ c. not (kept c)) all),
      )

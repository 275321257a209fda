-- ===== src/Search/Candidates.antt =====
-- What holds of the candidates of a search in memory.
use llama_index_rag.Base.{
  Key, ℕ, ◌≤◌, ◌≡◌, ◌∙◌, subst, inl, inr, true, not, ◌&&◌, ◌||◌, ◌==◌, List, [], ◌∷◌, length,
  length-take-le, All, All-take, ok, permission_error, Bool-cases, and_left, >>=-ok, >>-ok,
  ok-injective, raise_if,
}
use llama_index_rag.Base.Sort.{sort_by, All-sort_by}
use llama_index_rag.Access.Context.{is_empty}
use llama_index_rag.Retrieval.{Metadata, RetrievalCandidate, AuthorizationScope}
use llama_index_rag.Search.{IndexDocument, MemoryIndex, current_epoch, visible, authorized}
use llama_index_rag.Search.Retrieve.{Ranks, collect, ranked_later, retrieve}

module _ {E S : Type 0} (ranks : Ranks S) (source_name : Key) (score_of : IndexDocument E → S) where
  -- A property of the documents that are visible is one of all candidates.
  collect-All {κ} :
      (P : Metadata → Type κ) (index : MemoryIndex E) (scope : AuthorizationScope)
      (ds : List (IndexDocument E)) {cs : List (RetrievalCandidate S)}
      → All (λ (d : IndexDocument E). visible index scope d.metadata ≡ true → P d.metadata) ds
      → collect ranks source_name index scope score_of ds ≡ ok cs
      → All (λ (c : RetrievalCandidate S). P c.metadata) cs
  unfolding collect authorized
  collect-All P index scope [] h e =
      subst (All (λ (c : RetrievalCandidate S). P c.metadata)) (ok-injective e) tt
  collect-All P index scope (d ∷ ds) {cs} h e =
      let (fits, (seen, looped)) = >>=-ok (authorized index scope d) _ e in
      let (rest, (done, made)) =
        >>=-ok (collect ranks source_name index scope score_of ds) _ looped in
      let exact : visible index scope d.metadata ≡ fits = ok-injective (
        >>-ok (raise_if (not (scope.acl_epoch == current_epoch index scope)) permission_error) _
          seen) in
      let below = collect-All P index scope ds h.1 done in
      subst (All (λ (c : RetrievalCandidate S). P c.metadata)) (ok-injective made)
        (elim (Bool-cases (fits && ranks.positive (score_of d))) [
          | inl chosen ↦
              rw chosen (h.0 (exact ∙ and_left fits (ranks.positive (score_of d)) chosen), below)
          | inr passed ↦ rw passed below
        ])

  pub retrieve-All {κ} :
      (P : Metadata → Type κ) (scope : AuthorizationScope) (top_k : ℕ) (index : MemoryIndex E)
      {cs : List (RetrievalCandidate S)}
      → All
          (λ (d : IndexDocument E). visible index scope d.metadata ≡ true → P d.metadata)
          index.documents
      → retrieve ranks source_name score_of scope top_k index ≡ ok cs
      → All (λ (c : RetrievalCandidate S). P c.metadata) cs × (length cs ≤ top_k)
  unfolding retrieve
  retrieve-All P scope top_k index {cs} h e =
      let scoped =
        >>-ok
          (raise_if (is_empty scope.knowledge_space_ids || scope.acl_epoch == 0) permission_error) _
          e in
      let (found, (collected, made)) =
        >>=-ok (collect ranks source_name index scope score_of index.documents) _ scoped in
      let sorted = sort_by (ranked_later ranks) found in
      subst
        (λ (xs : List (RetrievalCandidate S)).
          All (λ (c : RetrievalCandidate S). P c.metadata) xs × (length xs ≤ top_k))
        (ok-injective made)
        (
          All-take (λ (c : RetrievalCandidate S). P c.metadata) top_k sorted
              (All-sort_by (ranked_later ranks) (λ (c : RetrievalCandidate S). P c.metadata) found
                (collect-All P index scope index.documents h collected)),
          length-take-le top_k sorted,
        )

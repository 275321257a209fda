-- ===== src/Search/Retrieve.antt =====
-- Searching the indexes in memory
-- (backend/enterprise_rag/infrastructure/search.py:MemoryVectorSearch, MemoryLexicalSearch).
use llama_index_rag.Base.{
  Key, ℕ, max, Bool, not, ◌&&◌, ◌||◌, ◌==◌, ltb, if◌then◌else◌, List, [], ◌∷◌, length, take, elem,
  count_if, Result, ok, permission_error, ◌>>=◌, ◌>>◌, raise_if,
}
use llama_index_rag.Base.Sort.{sort_by}
use llama_index_rag.Access.Context.{is_empty}
use llama_index_rag.Retrieval.{RetrievalCandidate, AuthorizationScope}
use llama_index_rag.Search.{IndexDocument, MemoryIndex, authorized}

-- What the code does with scores here: `> 0` and `<`.
pub record Ranks (S : Type 0) : Type 0 where
  pub positive : S → Bool
  pub below : S → S → Bool

-- `key=lambda item: (-item.score, item.chunk_id)`.
abbrev pub ranked_later :
    {S : Type 0} → Ranks S → RetrievalCandidate S → RetrievalCandidate S → Bool
ranked_later ranks a b =
    ranks.below a.score b.score || (not (ranks.below b.score a.score) && ltb b.chunk_id a.chunk_id)

module _ {E S : Type 0} (ranks : Ranks S) (source_name : Key) where
  abbrev pub candidate_of : IndexDocument E → S → RetrievalCandidate S
  candidate_of d score = record {
    chunk_id = d.chunk_id;
    body = d.body;
    score = score;
    metadata = d.metadata;
    source = source_name;
  }

  -- The loop over the documents.
  unfoldable pub collect :
      MemoryIndex E
      → AuthorizationScope
      → (IndexDocument E → S)
      → List (IndexDocument E)
      → Result (List (RetrievalCandidate S))
  collect index scope score_of [] = ok []
  collect index scope score_of (d ∷ ds) = do
    fits ← authorized index scope d
    rest ← collect index scope score_of ds
    ok (if fits && ranks.positive (score_of d) then candidate_of d (score_of d) ∷ rest else rest)

  -- `retrieve` of both indexes, with their way to score a document.
  unfoldable pub retrieve :
      (IndexDocument E → S)
      → AuthorizationScope
      → ℕ
      → MemoryIndex E
      → Result (List (RetrievalCandidate S))
  retrieve score_of scope top_k index =
      raise_if (is_empty scope.knowledge_space_ids || scope.acl_epoch == 0) permission_error >> (do
        candidates ← collect index scope score_of index.documents
        ok (take top_k (sort_by (ranked_later ranks) candidates)))

-- The score of `MemoryVectorSearch`: the sum of products with the embedded query.
abbrev pub dense_score {ℓ} : {E : Type 0} {S : Type ℓ} → (E → E → S) → E → IndexDocument E → S
dense_score dot query d = dot query d.embedding

-- The score of `MemoryLexicalSearch`: the share of the query's tokens that the text has; `tokens`
-- is `_tokens`, a set as the list of its elements, and `ratio` the division.
abbrev pub lexical_score {ℓ} :
    {E : Type 0} {S : Type ℓ} → (List ℕ → List Key) → (ℕ → ℕ → S) → List ℕ → IndexDocument E → S
lexical_score tokens ratio query d =
    ratio (count_if (λ t. elem t (tokens d.body)) (tokens query)) (max (length (tokens query)) 1)

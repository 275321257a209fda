-- ===== src/Search/Tests.antt =====
-- Examples of the indexes in memory.
use llama_index_rag.Base.{
  Key, ℕ, ◌≤◌, ◌≡◌, refl, true, false, ltb, elem, holds, some, none, List, [], ◌∷◌, All, ok, length,
}
use llama_index_rag.Base.Sort.{sort_by, insert_by}
use llama_index_rag.Retrieval.{
  Metadata, RetrievalCandidate, AuthorizationScope, user, group, shares_token,
}
use llama_index_rag.Search.{
  IndexDocument, MemoryIndex, is_key, publish, get_entry, delete_document, visible, authorized,
}
use llama_index_rag.Search.Retrieve.{Ranks, collect, retrieve}
use llama_index_rag.Search.Visible.{
  search_stays_in_scope, deleted_document_not_found, published_version_only,
}

abbrev of_version : Key → Metadata
of_version version = record {
  tenant_id = some 1;
  knowledge_space_id = some 10;
  document_id = some 20;
  document_version_id = some version;
  index_generation_id = none;
  acl_tokens = user 7 ∷ [];
  retrieval_sources = [];
}

-- An embedding of one number, and the score is that number.
abbrev old_chunk : IndexDocument ℕ
old_chunk = record { chunk_id = 100; body = []; embedding = 5; metadata = of_version 30 }

abbrev new_chunk : IndexDocument ℕ
new_chunk = record { chunk_id = 101; body = []; embedding = 4; metadata = of_version 31 }

abbrev index : MemoryIndex ℕ
index = record {
  documents = old_chunk ∷ new_chunk ∷ [];
  active_versions = (20, 30) ∷ [];
  active_generations = [];
  acl_epochs = [];
}

abbrev scope : AuthorizationScope
scope = record {
  tenant_id = 1;
  principal_tokens = user 7 ∷ group 8 ∷ [];
  knowledge_space_ids = 10 ∷ [];
  acl_epoch = 3;
  document_ids = [];
  configuration_version_id = none;
  index_generation_ids = [];
}

abbrev ranks : Ranks ℕ
ranks = record { positive = λ n. ltb 0 n; below = ltb }

abbrev score_of : IndexDocument ℕ → ℕ
score_of d = d.embedding

abbrev found : RetrievalCandidate ℕ
found = record { chunk_id = 100; body = []; score = 5; metadata = of_version 30; source = 2 }

finds : retrieve ranks 2 score_of scope 5 index ≡ ok (found ∷ [])
unfolding retrieve collect authorized visible get_entry sort_by insert_by
finds = refl

search_stays_in_scope_example :
    All
      (λ (c : RetrievalCandidate ℕ).
        (is_key 1 c.metadata.tenant_id ≡ true)
        × ((holds (λ k. elem k (10 ∷ [])) c.metadata.knowledge_space_id ≡ true)
            × (shares_token c.metadata.acl_tokens scope.principal_tokens ≡ true)))
      (found ∷ [])
    × (length (found ∷ []) ≤ 5)
search_stays_in_scope_example = search_stays_in_scope ranks 2 score_of scope 5 index finds

finds_nothing : retrieve ranks 2 score_of scope 5 (delete_document 20 index) ≡ ok []
unfolding retrieve collect delete_document sort_by
finds_nothing = refl

deleted_document_not_found_example :
    All (λ (c : RetrievalCandidate ℕ). is_key 20 c.metadata.document_id ≡ false) []
deleted_document_not_found_example =
    deleted_document_not_found ranks 2 score_of scope 5 20 index finds_nothing

published_version_only_example :
    (after : MemoryIndex ℕ) × ((publish 31 index ≡ ok after)
      × ((cs : List (RetrievalCandidate ℕ))
          → retrieve ranks 2 score_of scope 5 after ≡ ok cs
          → All
              (λ (c : RetrievalCandidate ℕ).
                c.metadata.document_id ≡ some 20 → c.metadata.document_version_id ≡ some 31)
              cs))
published_version_only_example =
    published_version_only ranks 2 score_of scope 5 20 31 index new_chunk refl refl

-- ===== src/Search.antt =====
-- The search indexes in memory
-- (backend/enterprise_rag/infrastructure/search.py:_MemorySearchBase, MemoryVectorSearch,
-- MemoryLexicalSearch). A dictionary is the list of its entries in order of insertion; `S` is the
-- type of scores, `E` that of embeddings. A missing entry of the metadata that is asked for by
-- index raises, which is a runtime error here; no identifier is the text that `str` makes of a missing
-- one.
pub mod Retrieve
pub mod Candidates
pub mod Visible
mod Tests
use llama_index_rag.Base.{
  Key, ℕ, max, Bool, true, false, not, ◌&&◌, ◌||◌, ◌==◌, ltb, if◌then◌else◌, Option, none, some,
  is_none, holds, List, [], ◌∷◌, length, take, keep, find_first, elem, count_if, Result, ok,
  runtime_error, permission_error, ◌>>=◌, ◌>>◌, raise_if, or_raise,
}
use llama_index_rag.Base.Sort.{sort_by}
use llama_index_rag.Access.Context.{is_empty}
use llama_index_rag.Retrieval.{
  Token, shares_token, Metadata, RetrievalCandidate, AuthorizationScope,
}

-- A dictionary with keys and values that are only compared: reading, writing and removing.
abbrev pub Dict : Type 0
Dict = List (Key × Key)

unfoldable pub get_entry : Key → Dict → Option Key
get_entry k [] = none
get_entry k ((x, v) ∷ rest) = if x == k then some v else get_entry k rest

unfoldable pub put_entry : Key → Key → Dict → Dict
put_entry k v [] = (k, v) ∷ []
put_entry k v ((x, w) ∷ rest) =
    let later = put_entry k v rest in if x == k then (x, v) ∷ rest else (x, w) ∷ later

abbrev pub pop_entry : Key → Dict → Dict
pop_entry k entries = keep (λ e. not (e.0 == k)) entries

pub record IndexDocument (E : Type 0) : Type 0 where
  pub chunk_id : Key
  pub body : List ℕ
  pub embedding : E
  pub metadata : Metadata

pub record MemoryIndex (E : Type 0) : Type 0 where
  pub documents : List (IndexDocument E)
  pub active_versions : Dict
  pub active_generations : Dict
  pub acl_epochs : Dict

-- `value == key`, where the value may be missing.
abbrev pub is_key : Key → Option Key → Bool
is_key k value = holds (λ x. x == k) value

-- `a == b`, where both may be missing.
abbrev pub eqb_Option : Option Key → Option Key → Bool
eqb_Option none none = true
eqb_Option (some a) (some b) = a == b
eqb_Option _ _ = false

-- `active.get(str(metadata.get("document_id")))`.
abbrev pub entry_of : Dict → Option Key → Option Key
entry_of entries none = none
entry_of entries (some k) = get_entry k entries

-- The generation is switched with the version, if the document has one.
abbrev pub switch_generation : Key → Option Key → Dict → Dict
switch_generation document_id none generations = generations
switch_generation document_id (some g) generations = put_entry document_id g generations

-- The generation of the document is the active one, if there is one, and one of the scope's.
abbrev pub generation_fits : Option Key → List Key → Option Key → Bool
generation_fits active wanted generation =
    (elim active [ none ↦ true | some g ↦ is_key g generation ])
    && (is_empty wanted || holds (λ g. elem g wanted) generation)

module _ {E : Type 0} where
  -- `self._documents[document.chunk_id] = document`.
  unfoldable pub put_document : IndexDocument E → List (IndexDocument E) → List (IndexDocument E)
  put_document d [] = d ∷ []
  put_document d (x ∷ xs) =
      let rest = put_document d xs in if x.chunk_id == d.chunk_id then d ∷ xs else x ∷ rest

  unfoldable pub stage : List (IndexDocument E) → MemoryIndex E → MemoryIndex E
  stage [] index = index
  stage (d ∷ ds) index = stage ds (record index { documents = put_document d index.documents })

  unfoldable pub publish : Key → MemoryIndex E → Result (MemoryIndex E)
  publish document_version_id index = do
    d ←
        or_raise
          (find_first
            (λ (x : IndexDocument E). is_key document_version_id x.metadata.document_version_id)
            index.documents)
          runtime_error
    document_id ← or_raise d.metadata.document_id runtime_error
    ok (record index {
      active_versions = put_entry document_id document_version_id index.active_versions;
      active_generations =
          switch_generation document_id d.metadata.index_generation_id index.active_generations;
    })

  unfoldable pub publish_generation : Key → Key → MemoryIndex E → Result (MemoryIndex E)
  publish_generation document_version_id index_generation_id index = do
    d ←
        or_raise
          (find_first
            (λ (x : IndexDocument E).
              is_key document_version_id x.metadata.document_version_id
              && is_key index_generation_id x.metadata.index_generation_id)
            index.documents)
          runtime_error
    document_id ← or_raise d.metadata.document_id runtime_error
    ok (record index {
      active_versions = put_entry document_id document_version_id index.active_versions;
      active_generations = put_entry document_id index_generation_id index.active_generations;
    })

  unfoldable pub delete_document : Key → MemoryIndex E → MemoryIndex E
  delete_document document_id index = record index {
    active_versions = pop_entry document_id index.active_versions;
    active_generations = pop_entry document_id index.active_generations;
    documents =
        keep (λ (x : IndexDocument E). not (is_key document_id x.metadata.document_id))
          index.documents;
  }

  unfoldable pub delete_generation : Key → Key → MemoryIndex E → MemoryIndex E
  delete_generation document_id index_generation_id index = record index {
    documents =
        keep
          (λ (x : IndexDocument E). not (
            is_key document_id x.metadata.document_id
            && is_key index_generation_id x.metadata.index_generation_id))
          index.documents;
  }

  unfoldable pub set_acl_epoch : Key → ℕ → MemoryIndex E → MemoryIndex E
  set_acl_epoch tenant_id epoch index = record index {
    acl_epochs = put_entry tenant_id epoch index.acl_epochs;
  }

  -- The epoch of the scope, where the index knows none.
  abbrev pub current_epoch : MemoryIndex E → AuthorizationScope → ℕ
  current_epoch index scope = elim (get_entry scope.tenant_id index.acl_epochs) [
    | none ↦ scope.acl_epoch
    | some epoch ↦ epoch
  ]

  -- The conditions of `_authorized`.
  unfoldable pub visible : MemoryIndex E → AuthorizationScope → Metadata → Bool
  visible index scope m =
      is_key scope.tenant_id m.tenant_id
      && (holds (λ k. elem k scope.knowledge_space_ids) m.knowledge_space_id
          && (eqb_Option m.document_version_id (entry_of index.active_versions m.document_id)
              && (generation_fits (entry_of index.active_generations m.document_id)
                    scope.index_generation_ids m.index_generation_id
                  && ((is_empty scope.document_ids
                        || holds (λ k. elem k scope.document_ids) m.document_id)
                      && shares_token m.acl_tokens scope.principal_tokens))))

  -- `_authorized`.
  unfoldable pub authorized : MemoryIndex E → AuthorizationScope → IndexDocument E → Result Bool
  unfolding visible
  authorized index scope d =
      raise_if (not (scope.acl_epoch == current_epoch index scope)) permission_error
      >> ok (visible index scope d.metadata)

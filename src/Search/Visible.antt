-- ===== src/Search/Visible.antt =====
-- What the indexes in memory give to a search.
use llama_index_rag.Base.{
  Key, ℕ, ◌≤◌, ◌≡◌, refl, ◌∙◌, ap, subst, inl, inr, Bool, true, false, not, ◌&&◌, ◌||◌, ◌==◌,
  Option, none, some, holds, List, [], ◌∷◌, length, keep, find_first, elem, All, All-map,
  All-keep_test, ok, Bool-cases, ==_refl, eq_of_==, and_left, and_right,
}
use llama_index_rag.Access.Context.{is_empty}
use llama_index_rag.Retrieval.{Metadata, RetrievalCandidate, AuthorizationScope, shares_token}
use llama_index_rag.Search.{
  Dict, get_entry, put_entry, IndexDocument, MemoryIndex, is_key, eqb_Option, entry_of, publish,
  delete_document, visible, switch_generation, generation_fits,
}
use llama_index_rag.Search.Retrieve.{Ranks, retrieve}
use llama_index_rag.Search.Candidates.{retrieve-All}

-- A dictionary gives back what was written.
get_entry-put_entry : (k v : Key) (entries : Dict) → get_entry k (put_entry k v entries) ≡ some v
unfolding get_entry put_entry
get_entry-put_entry k v [] = rw (==_refl k) refl
get_entry-put_entry k v ((x, w) ∷ rest) = elim (Bool-cases (x == k)) [
  | inl hit ↦ rw (hit, hit) refl
  | inr miss ↦ rw (miss, miss) (get_entry-put_entry k v rest)
]

eq_of_eqb_Option : (o : Option Key) (k : Key) → eqb_Option o (some k) ≡ true → o ≡ some k
eq_of_eqb_Option none k h = cc
eq_of_eqb_Option (some a) k h = ap some (eq_of_== a k h)

-- The first two and the last of six tests that hold together.
ends_of :
    (a b c d e f : Bool)
    → (a && (b && (c && (d && (e && f))))) ≡ true
    → (a ≡ true) × ((b ≡ true) × (f ≡ true))
ends_of a b c d e f h =
    let rest = and_right a (b && (c && (d && (e && f)))) h in
    let deep = and_right b (c && (d && (e && f))) rest in
    let last = and_right d (e && f) (and_right c (d && (e && f)) deep) in
    (
      and_left a (b && (c && (d && (e && f)))) h,
      (and_left b (c && (d && (e && f))) rest, and_right e f last),
    )

-- The third of six.
third_of : (a b c d e f : Bool) → (a && (b && (c && (d && (e && f))))) ≡ true → c ≡ true
third_of a b c d e f h =
    and_left c (d && (e && f))
      (and_right b (c && (d && (e && f))) (and_right a (b && (c && (d && (e && f)))) h))

module _ {E S : Type 0} (ranks : Ranks S) (source_name : Key) (score_of : IndexDocument E → S) where
  -- Every candidate of a search belongs to the tenant and to a space of the scope, and shares an
  -- access token with it; there are at most as many as were asked for.
  pub search_stays_in_scope :
      (scope : AuthorizationScope) (top_k : ℕ) (index : MemoryIndex E)
      {cs : List (RetrievalCandidate S)}
      → retrieve ranks source_name score_of scope top_k index ≡ ok cs
      → All
          (λ (c : RetrievalCandidate S).
            (is_key scope.tenant_id c.metadata.tenant_id ≡ true)
            × ((holds (λ k. elem k scope.knowledge_space_ids) c.metadata.knowledge_space_id ≡ true)
                × (shares_token c.metadata.acl_tokens scope.principal_tokens ≡ true)))
          cs
        × (length cs ≤ top_k)
  unfolding visible
  search_stays_in_scope scope top_k index e =
      retrieve-All ranks source_name score_of
        (λ m.
          (is_key scope.tenant_id m.tenant_id ≡ true)
          × ((holds (λ k. elem k scope.knowledge_space_ids) m.knowledge_space_id ≡ true)
              × (shares_token m.acl_tokens scope.principal_tokens ≡ true)))
        scope top_k index (each index.documents) e
    where
      parts :
          (m : Metadata)
          → visible index scope m ≡ true
          → (is_key scope.tenant_id m.tenant_id ≡ true)
            × ((holds (λ k. elem k scope.knowledge_space_ids) m.knowledge_space_id ≡ true)
                × (shares_token m.acl_tokens scope.principal_tokens ≡ true))
      parts m h =
          ends_of (is_key scope.tenant_id m.tenant_id)
            (holds (λ k. elem k scope.knowledge_space_ids) m.knowledge_space_id)
            (eqb_Option m.document_version_id (entry_of index.active_versions m.document_id))
            (generation_fits (entry_of index.active_generations m.document_id)
              scope.index_generation_ids m.index_generation_id)
            (is_empty scope.document_ids || holds (λ k. elem k scope.document_ids) m.document_id)
            (shares_token m.acl_tokens scope.principal_tokens) h

      each :
          (ds : List (IndexDocument E))
          → All
              (λ (d : IndexDocument E).
                visible index scope d.metadata ≡ true
                → (is_key scope.tenant_id d.metadata.tenant_id ≡ true)
                  × ((holds (λ k. elem k scope.knowledge_space_ids) d.metadata.knowledge_space_id
                        ≡ true)
                      × (shares_token d.metadata.acl_tokens scope.principal_tokens ≡ true)))
              ds
      each [] = tt
      each (d ∷ ds) = (parts d.metadata, each ds)

  -- A document that was deleted is in no search.
  pub deleted_document_not_found :
      (scope : AuthorizationScope) (top_k : ℕ) (document_id : Key) (index : MemoryIndex E)
      {cs : List (RetrievalCandidate S)}
      → retrieve ranks source_name score_of scope top_k (delete_document document_id index) ≡ ok cs
      → All (λ (c : RetrievalCandidate S). is_key document_id c.metadata.document_id ≡ false) cs
  unfolding delete_document
  deleted_document_not_found scope top_k document_id index e =
      (retrieve-All ranks source_name score_of (λ m. is_key document_id m.document_id ≡ false) scope
        top_k (delete_document document_id index)
        (All-map (λ (d : IndexDocument E). not (is_key document_id d.metadata.document_id) ≡ true)
          (λ (d : IndexDocument E).
            visible (delete_document document_id index) scope d.metadata ≡ true
            → is_key document_id d.metadata.document_id ≡ false)
          (keep (λ (d : IndexDocument E). not (is_key document_id d.metadata.document_id))
            index.documents)
          (λ d kept seen. not_true (is_key document_id d.metadata.document_id) kept)
          (All-keep_test (λ (d : IndexDocument E). not (is_key document_id d.metadata.document_id))
            index.documents))
        e).0
    where
      not_true : (b : Bool) → not b ≡ true → b ≡ false
      not_true true h = cc
      not_true false h = refl

  -- A version that is staged with a document can be published, and each search that succeeds on the
  -- index that this publication leaves gives of that document only candidates of that version.
  pub published_version_only :
      (scope : AuthorizationScope) (top_k : ℕ) (document_id version_id : Key)
      (index : MemoryIndex E) (d : IndexDocument E)
      → find_first
          (λ (x : IndexDocument E). is_key version_id x.metadata.document_version_id)
          index.documents
        ≡ some d
      → d.metadata.document_id ≡ some document_id
      → (after : MemoryIndex E) × ((publish version_id index ≡ ok after)
          × ((cs : List (RetrievalCandidate S))
              → retrieve ranks source_name score_of scope top_k after ≡ ok cs
              → All
                  (λ (c : RetrievalCandidate S).
                    c.metadata.document_id ≡ some document_id
                    → c.metadata.document_version_id ≡ some version_id)
                  cs))
  unfolding publish visible
  published_version_only scope top_k document_id version_id index d staged owned =
      let after : MemoryIndex E = record index {
        active_versions = put_entry document_id version_id index.active_versions;
        active_generations =
            switch_generation document_id d.metadata.index_generation_id index.active_generations;
      } in
      (
        after,
        (
          rw (staged, owned) refl,
          λ cs e.
              (retrieve-All ranks source_name score_of
                (λ m. m.document_id ≡ some document_id → m.document_version_id ≡ some version_id)
                scope top_k after (each after refl after.documents) e).0,
        ),
      )
    where
      current :
          (after : MemoryIndex E)
          → after.active_versions ≡ put_entry document_id version_id index.active_versions
          → (m : Metadata) → visible after scope m ≡ true
          → m.document_id ≡ some document_id
          → m.document_version_id ≡ some version_id
      current after switched m seen of_document =
          let third =
            third_of (is_key scope.tenant_id m.tenant_id)
              (holds (λ k. elem k scope.knowledge_space_ids) m.knowledge_space_id)
              (eqb_Option m.document_version_id (entry_of after.active_versions m.document_id))
              (generation_fits (entry_of after.active_generations m.document_id)
                scope.index_generation_ids m.index_generation_id)
              (is_empty scope.document_ids || holds (λ k. elem k scope.document_ids) m.document_id)
              (shares_token m.acl_tokens scope.principal_tokens) seen in
          let entry : entry_of after.active_versions m.document_id ≡ some version_id =
            ap (entry_of after.active_versions) of_document
            ∙ (ap (get_entry document_id) switched
                ∙ get_entry-put_entry document_id version_id index.active_versions) in
          eq_of_eqb_Option m.document_version_id version_id
            (subst (λ o. eqb_Option m.document_version_id o ≡ true) entry third)

      each :
          (after : MemoryIndex E)
          → after.active_versions ≡ put_entry document_id version_id index.active_versions
          → (ds : List (IndexDocument E))
          → All
              (λ (x : IndexDocument E).
                visible after scope x.metadata ≡ true
                → x.metadata.document_id ≡ some document_id
                → x.metadata.document_version_id ≡ some version_id)
              ds
      each after switched [] = tt
      each after switched (x ∷ xs) = (current after switched x.metadata, each after switched xs)

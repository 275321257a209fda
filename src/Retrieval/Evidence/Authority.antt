-- ===== src/Retrieval/Evidence/Authority.antt =====
-- What the validation of a candidate guarantees.
use llama_index_rag.Base.{
  Key, ◌≡◌, subst, sym, ◌∙◌, ap, inl, inr, true, ◌||◌, ◌==◌, holds, Option, none, some, List, [],
  ◌∷◌, map, elem, concat_map, All, All-keep_test, arith, Bool-cases, Option-cases, eq_of_==,
}
use llama_index_rag.Access.Context.{is_empty}
use llama_index_rag.Retrieval.{
  shares_token, RetrievalCandidate, AuthorizationScope, is_live, Document, Chunk,
}
use llama_index_rag.Retrieval.Evidence.{
  Row, row_test, authority_rows, active_row, row_allows, allowed,
}

pub active_row-All {κ} :
    (P : Row → Type κ) (id : Key) (rows : List Row) (row : Row)
    → All P rows
    → active_row id rows ≡ some row
    → P row × ((row.0.id == id) ≡ true)
unfolding active_row
active_row-All P id [] row h e = cc
active_row-All P id (r ∷ rows) row h e = elim (Option-cases (active_row id rows)) [
  | inl none_later ↦ elim (Bool-cases (r.0.id == id)) [
    | inl here ↦
        let same : r ≡ row = ground (arith, none_later, here) in
        subst (λ x. P x × ((x.0.id == id) ≡ true)) same (h.0, here)
    | inr other ↦ ground (arith, none_later, other)
  ]
  | inr (later, some_later) ↦
      let same : later ≡ row = ground (arith, some_later) in
      active_row-All P id rows row h.1 (some_later ∙ ap some same)
]

authority_rows-All :
    (tenant_id : Key) (ids : List Key) (chunks : List Chunk) (documents : List Document)
    → All (λ r. row_test tenant_id ids r ≡ true) (authority_rows tenant_id ids chunks documents)
unfolding authority_rows
authority_rows-All tenant_id ids chunks documents =
    All-keep_test (row_test tenant_id ids)
      (concat_map (λ chunk. map (λ document. (chunk, document)) documents) chunks)

-- A chunk that a caller may read: its row is in the database, it and its document are active parts
-- of the tenant and of the current version, its access list names the caller, and its generation is
-- one of the scope, when the scope names generations.
pub record IsReadable (str : Option Key → Key) (scope : AuthorizationScope) (tenant_id : Key)
    (row : Row) : Type 0 where
  pub of_tenant : row.0.tenant_id ≡ tenant_id
  pub document_of_tenant : row.1.tenant_id ≡ tenant_id
  pub of_document : row.1.id ≡ row.0.document_id
  pub is_active : row.0.active ≡ true
  pub document_is_live : is_live row.1.state ≡ true
  pub is_current : row.1.active_version_id ≡ some row.0.document_version_id
  pub names_caller : shares_token row.0.acl_tokens scope.principal_tokens ≡ true
  pub in_generation :
      (is_empty scope.index_generation_ids
        || elem (str row.0.index_generation_id) scope.index_generation_ids)
      ≡ true

row_test-parts :
    (tenant_id : Key) (ids : List Key) (row : Row)
    → row_test tenant_id ids row ≡ true
    → ((row.1.id == row.0.document_id) ≡ true)
      × (((row.0.tenant_id == tenant_id) ≡ true)
          × (((row.1.tenant_id == tenant_id) ≡ true)
              × ((row.0.active ≡ true)
                  × ((is_live row.1.state ≡ true)
                      × (holds (λ v. row.0.document_version_id == v) row.1.active_version_id
                          ≡ true)))))
unfolding row_test
row_test-parts tenant_id ids (chunk, document) h = ground arith

row_allows-parts :
    {S : Type 0} (str : Option Key → Key) (scope : AuthorizationScope) (tenant_id : Key)
    (c : RetrievalCandidate S) (row : Row)
    → row_allows str scope tenant_id c row ≡ true
    → (shares_token row.0.acl_tokens scope.principal_tokens ≡ true)
      × ((is_empty scope.index_generation_ids
            || elem (str row.0.index_generation_id) scope.index_generation_ids)
          ≡ true)
unfolding row_allows
row_allows-parts str scope tenant_id c (chunk, document) h = ground arith

current_version : (v : Key) (o : Option Key) → holds (λ x. v == x) o ≡ true → o ≡ some v
current_version v none h = cc
current_version v (some x) h = ap some (sym (eq_of_== v x h))

row-IsReadable :
    {S : Type 0} (str : Option Key → Key) (scope : AuthorizationScope) (tenant_id : Key)
    (ids : List Key) (c : RetrievalCandidate S) (row : Row)
    → row_test tenant_id ids row ≡ true
    → row_allows str scope tenant_id c row ≡ true
    → IsReadable str scope tenant_id row
row-IsReadable str scope tenant_id ids c row here permitted =
    let (document, (tenant, (document_tenant, (is_active, (live, version))))) =
      row_test-parts tenant_id ids row here in
    let (caller, generation) = row_allows-parts str scope tenant_id c row permitted in
    record {
      of_tenant = eq_of_== row.0.tenant_id tenant_id tenant;
      document_of_tenant = eq_of_== row.1.tenant_id tenant_id document_tenant;
      of_document = eq_of_== row.1.id row.0.document_id document;
      is_active = is_active;
      document_is_live = live;
      is_current = current_version row.0.document_version_id row.1.active_version_id version;
      names_caller = caller;
      in_generation = generation;
    }

-- The id has a readable row in the database.
pub HasReadable :
    (Option Key → Key)
    → AuthorizationScope
    → Key
    → List Chunk
    → List Document
    → List Key
    → Key
    → Type 0
HasReadable str scope tenant_id chunks documents ids id =
    (row : Row) × ((active_row id (authority_rows tenant_id ids chunks documents) ≡ some row)
      × (((row.0.id == id) ≡ true) × IsReadable str scope tenant_id row))

pub allowed-HasReadable :
    {S : Type 0} (str : Option Key → Key) (scope : AuthorizationScope) (tenant_id : Key)
    (chunks : List Chunk) (documents : List Document) (ids : List Key) (c : RetrievalCandidate S)
    → allowed str scope tenant_id (authority_rows tenant_id ids chunks documents) c ≡ true
    → HasReadable str scope tenant_id chunks documents ids c.chunk_id
unfolding allowed HasReadable
allowed-HasReadable str scope tenant_id chunks documents ids c h =
    let rows = authority_rows tenant_id ids chunks documents in
    elim (Option-cases (active_row c.chunk_id rows)) [
      | inl none_there ↦ ground (arith, none_there, h)
      | inr (row, there) ↦
          let permitted : row_allows str scope tenant_id c row ≡ true = ground (arith, there, h) in
          let (test, own) =
            active_row-All (λ r. row_test tenant_id ids r ≡ true) c.chunk_id rows row
              (authority_rows-All tenant_id ids chunks documents) there in
          (row, (there, (own, row-IsReadable str scope tenant_id ids c row test permitted)))
    ]

-- ===== src/Cleanup/Deletion.antt =====
-- What a sweep removes (backend/enterprise_rag/application/generation_cleanup.py:
-- IndexGenerationCleanupService.sweep).
use llama_index_rag.Base.{
  Key, Time, ℕ, ◌+◌, ◌≤◌, ◌≡◌, refl, sym, subst, ◌∙◌, ap, ◌⊎◌, inl, inr, Bool, true, false, not,
  ◌&&◌, ◌==◌, Option, none, some, List, [], ◌∷◌, length, take, keep, length-keep-le, get_elem?,
  find_first, count_if, All, All-keep, All-keep_test, All-map, arith, Bool-cases, eq_of_==,
}
use llama_index_rag.Base.Member.{
  Has, Has-get_elem?, Has-keep, Has-sort_by, Has-take, length-sort_by,
}
use llama_index_rag.Base.Sort.{sort_by}
use llama_index_rag.Audit.{AuditEvent}
use llama_index_rag.Retrieval.{Document, Chunk}
use llama_index_rag.Search.{IndexDocument, is_key, delete_generation}
use llama_index_rag.Cleanup.{
  IndexGeneration, Projections, GenerationCleanupResult, due_test, superseded_later, refers_to,
  is_protected, retain, retain_unsupported, delete_one, remove_generation, sweep_each, sweep,
}

of_not : (b : Bool) → not b ≡ true → b ≡ false
of_not true h = cc
of_not false h = refl

module _ {E : Type 0} (tenant_id document_id k : Key) where
  -- Entries of the generation in an index.
  abbrev entry_test : IndexDocument E → Bool
  entry_test d =
      is_key document_id d.metadata.document_id && is_key k d.metadata.index_generation_id

  -- There is no row of the generation, no chunk of it for the tenant, and no entry of it for its
  -- document in either index.
  pub record IsGone (s : Projections E) : Type 0 where
    pub no_row : All (λ (g : IndexGeneration). (g.id == k) ≡ false) s.generations
    pub no_chunk :
        All
          (λ (c : Chunk). (c.tenant_id == tenant_id && is_key k c.index_generation_id) ≡ false)
          s.chunks
    pub not_dense : All (λ d. entry_test d ≡ false) s.dense.documents
    pub not_lexical : All (λ d. entry_test d ≡ false) s.lexical.documents

  -- Removing any generation brings nothing back.
  remove_generation-keeps_IsGone :
      (g : IndexGeneration) (s : Projections E)
      → IsGone s
      → IsGone (remove_generation tenant_id g s)
  unfolding remove_generation delete_generation
  remove_generation-keeps_IsGone g s h = record {
    no_row = All-keep _ _ s.generations h.no_row;
    no_chunk = All-keep _ _ s.chunks h.no_chunk;
    not_dense = All-keep _ _ s.dense.documents h.not_dense;
    not_lexical = All-keep _ _ s.lexical.documents h.not_lexical;
  }

rejected {ℓ} :
    {A : Type ℓ} (p : A → Bool) (xs : List A) → All (λ x. p x ≡ false) (keep (λ x. not (p x)) xs)
rejected p xs =
    All-map (λ x. not (p x) ≡ true) (λ x. p x ≡ false) (keep (λ x. not (p x)) xs)
      (λ x. of_not (p x)) (All-keep_test (λ x. not (p x)) xs)

module _ {E : Type 0} (tenant_id : Key) where
  remove_generation-IsGone :
      (g : IndexGeneration) (s : Projections E)
      → IsGone tenant_id g.document_id g.id (remove_generation tenant_id g s)
  unfolding remove_generation delete_generation
  remove_generation-IsGone g s = record {
    no_row = rejected (λ (x : IndexGeneration). x.id == g.id) s.generations;
    no_chunk =
        rejected (λ (c : Chunk). c.tenant_id == tenant_id && is_key g.id c.index_generation_id)
          s.chunks;
    not_dense = rejected (entry_test tenant_id g.document_id g.id) s.dense.documents;
    not_lexical = rejected (entry_test tenant_id g.document_id g.id) s.lexical.documents;
  }

-- A generation that nothing protects: its document has another active generation, and no audit
-- event of the tenant is about it.
pub record IsFree {E : Type 0} (kind tenant_id : Key) (g : IndexGeneration) (s : Projections E)
    : Type 0 where
  pub document : Document
  pub has_document :
      find_first (λ (d : Document). d.id == g.document_id && d.tenant_id == tenant_id) s.documents
      ≡ some document
  pub inactive : ¬ (document.active_generation_id ≡ some g.id)
  pub unreferred :
      All
        (λ (e : AuditEvent).
          e.body.tenant_id ≡ tenant_id
          → e.body.event.resource_type ≡ kind
          → ¬ (e.body.event.resource_id ≡ g.id))
        s.audit

-- The row is one that the query asks for.
pub record IsDue (retention_seconds now : ℕ) (tenant_id : Key) (wanted : Option Key)
    (g : IndexGeneration) : Type 0 where
  pub of_tenant : g.tenant_id ≡ tenant_id
  pub superseded : g.superseded ≡ true
  pub since : Time
  pub superseded_since : g.superseded_at ≡ some since
  pub retained_long : since + retention_seconds ≤ now
  pub is_wanted : (wanted ≡ none) ⊎ (wanted ≡ some g.id)

count_if-none {ℓ} :
    {A : Type ℓ} (p : A → Bool) (xs : List A) → All (λ x. p x ≡ false) xs → count_if p xs ≡ 0
count_if-none p [] h = refl
count_if-none p (x ∷ xs) h = ground (arith, h.0, count_if-none p xs h.1)

refers_to-off :
    (kind tenant_id id : Key) (e : AuditEvent)
    → (e.body.tenant_id ≡ tenant_id
        → e.body.event.resource_type ≡ kind
        → ¬ (e.body.event.resource_id ≡ id))
    → refers_to kind tenant_id id e ≡ false
refers_to-off kind tenant_id id e h = elim (Bool-cases (refers_to kind tenant_id id e)) [
  | inl about ↦ absurd (
      h (eq_of_== e.body.tenant_id tenant_id (ground (arith, about)))
        (eq_of_== e.body.event.resource_type kind (ground (arith, about)))
        (eq_of_== e.body.event.resource_id id (ground (arith, about))))
  | inr off ↦ off
]

is_key-off : (k : Key) (o : Option Key) → ¬ (o ≡ some k) → is_key k o ≡ false
is_key-off k none h = refl
is_key-off k (some x) h = elim (Bool-cases (is_key k (some x))) [
  | inl same ↦ absurd (h (ap some (ground (arith, same))))
  | inr other ↦ other
]

IsFree-unprotected :
    {E : Type 0} (kind tenant_id : Key) (g : IndexGeneration) (s : Projections E)
    → IsFree kind tenant_id g s
    → is_protected kind tenant_id s.documents s.audit g ≡ false
unfolding is_protected
IsFree-unprotected kind tenant_id g s free =
    let silent = count_if-none (refers_to kind tenant_id g.id) s.audit (
      All-map _ (λ e. refers_to kind tenant_id g.id e ≡ false) s.audit
        (refers_to-off kind tenant_id g.id) free.unreferred) in
    rw
      (
        free.has_document,
        is_key-off g.id free.document.active_generation_id free.inactive,
        silent,
        is_protected,
      )
      refl

IsDue-due_test :
    (retention_seconds now : ℕ) (tenant_id : Key) (wanted : Option Key) (g : IndexGeneration)
    → IsDue retention_seconds now tenant_id wanted g
    → due_test retention_seconds now tenant_id wanted g ≡ true
IsDue-due_test retention_seconds now tenant_id wanted g due =
    let of_tenant = due.of_tenant in
    let superseded = due.superseded in
    let since = due.superseded_since in
    let long = due.retained_long in
    elim due.is_wanted [
      | inl any ↦ ground (arith, of_tenant, superseded, since, long, any)
      | inr one ↦ ground (arith, of_tenant, superseded, since, long, one)
    ]

module _ {E : Type 0} (kind tenant_id : Key) where
  sweep_each-keeps_IsGone :
      (document_id k : Key) (deletes : Bool) (gs : List IndexGeneration)
      (r : GenerationCleanupResult) (s : Projections E)
      → IsGone tenant_id document_id k s
      → IsGone tenant_id document_id k (sweep_each kind deletes tenant_id gs r s).1
  unfolding sweep_each
  sweep_each-keeps_IsGone document_id k deletes [] r s h = h
  sweep_each-keeps_IsGone document_id k deletes (g ∷ gs) r s h =
      elim (Bool-cases (is_protected kind tenant_id s.documents s.audit g)) [
        | inl kept ↦ rw kept (sweep_each-keeps_IsGone document_id k deletes gs (retain r) s h)
        | inr free ↦ rw free (elim (Bool-cases deletes) [
          | inl able ↦ rw able (
              sweep_each-keeps_IsGone document_id k deletes gs (delete_one r)
                (remove_generation tenant_id g s)
                (remove_generation-keeps_IsGone tenant_id document_id k g s h))
          | inr unable ↦
              rw unable
                (sweep_each-keeps_IsGone document_id k deletes gs (retain_unsupported r) s h)
        ])
      ]

  sweep_each-removes :
      (g : IndexGeneration) (gs : List IndexGeneration) (r : GenerationCleanupResult)
      (s : Projections E)
      → is_protected kind tenant_id s.documents s.audit g ≡ false
      → Has g gs
      → IsGone tenant_id g.document_id g.id (sweep_each kind true tenant_id gs r s).1
  unfolding sweep_each remove_generation
  sweep_each-removes g [] r s free h = absurd h
  sweep_each-removes g (x ∷ gs) r s free (inl here) =
      let first : is_protected kind tenant_id s.documents s.audit x ≡ false =
        ap (is_protected kind tenant_id s.documents s.audit) here ∙ free in
      rw first (
        sweep_each-keeps_IsGone g.document_id g.id true gs (delete_one r)
          (remove_generation tenant_id x s)
          (subst (λ y. IsGone tenant_id g.document_id g.id (remove_generation tenant_id y s))
            (sym here) (remove_generation-IsGone tenant_id g s)))
  sweep_each-removes g (x ∷ gs) r s free (inr there) =
      elim (Bool-cases (is_protected kind tenant_id s.documents s.audit x)) [
        | inl kept ↦ rw kept (sweep_each-removes g gs (retain r) s free there)
        | inr other ↦
            rw other
              (sweep_each-removes g gs (delete_one r) (remove_generation tenant_id x s) free there)
      ]

  -- A sweep over indexes that can delete, with a limit of at least the number of the stored rows,
  -- removes a stored generation that was superseded for the retention time, that is asked for, and
  -- that nothing protects: no row of it is left, no chunk of it for the tenant, and no entry of it
  -- for its document in either index.
  pub superseded_generation_goes :
      (retention_seconds now limit i : ℕ) (wanted : Option Key) (g : IndexGeneration)
      (s : Projections E)
      → get_elem? s.generations i ≡ some g
      → length s.generations ≤ limit
      → IsDue retention_seconds now tenant_id wanted g
      → IsFree kind tenant_id g s
      → IsGone tenant_id g.document_id g.id
          (sweep kind true tenant_id retention_seconds now limit wanted s).1
  unfolding sweep
  superseded_generation_goes retention_seconds now limit i wanted g s stored short due free =
      let p = due_test retention_seconds now tenant_id wanted in
      let sorted = sort_by superseded_later (keep p s.generations) in
      let asked = Has-sort_by g superseded_later (keep p s.generations) (
        Has-keep g p s.generations (IsDue-due_test retention_seconds now tenant_id wanted g due)
          (Has-get_elem? g s.generations i stored)) in
      let few : length sorted ≤ limit = omega (
        arith,
        short,
        length-sort_by superseded_later (keep p s.generations),
        length-keep-le p s.generations,
      ) in
      sweep_each-removes g (take limit sorted) _ s (IsFree-unprotected kind tenant_id g s free)
        (Has-take g limit sorted few asked)

-- ===== src/Cleanup/Protected.antt =====
-- What a sweep counts and what it leaves.
use llama_index_rag.Base.{
  Key, ℕ, ◌+◌, ◌≡◌, refl, sym, ◌∙◌, inl, inr, Bool, true, false, not, ◌&&◌, ◌==◌, Option, none,
  some, get_elem?, find_first, count_if-positive, ◌⊎◌, ◌||◌, Option-cases, eq_of_==, ==_refl, List,
  [], ◌∷◌, length, take, keep, keep-keep, All, All-keep, All-take, arith, Bool-cases,
}
use llama_index_rag.Base.Sort.{sort_by, All-sort_by}
use llama_index_rag.Audit.{AuditEvent}
use llama_index_rag.Retrieval.{Chunk, Document}
use llama_index_rag.Search.{IndexDocument, is_key, delete_generation}
use llama_index_rag.Cleanup.{
  IndexGeneration, Projections, GenerationCleanupResult, due_test, superseded_later, refers_to,
  is_protected, retain, retain_unsupported, delete_one, remove_generation, sweep_each, sweep,
}

-- A test for another key does not meet the one for this key.
away :
    (k other : Key) (b : Bool) (o : Option Key)
    → (other == k) ≡ false
    → is_key k o ≡ true
    → not (b && is_key other o) ≡ true
away k other b none apart h = cc
away k other false (some x) apart h = refl
away k other true (some x) apart h = ground (arith, apart, h)

-- The counts that the loop keeps in step.
abbrev IsBalanced : ℕ → GenerationCleanupResult → Type 0
IsBalanced left r = r.scanned ≡ left + (r.retained + r.deleted)

-- What belongs to one generation: its row, its chunks and its entries in both indexes.
module _ {E : Type 0} where
  abbrev pub of_generation :
      Key
      → Projections E
      → List IndexGeneration × List Chunk × List (IndexDocument E) × List (IndexDocument E)
  of_generation k s = (
    keep (λ (g : IndexGeneration). g.id == k) s.generations,
    keep (λ (c : Chunk). is_key k c.index_generation_id) s.chunks,
    keep (λ (d : IndexDocument E). is_key k d.metadata.index_generation_id) s.dense.documents,
    keep (λ (d : IndexDocument E). is_key k d.metadata.index_generation_id) s.lexical.documents,
  )

module _ {E : Type 0} (tenant_id : Key) where
  -- Removing another generation leaves it.
  of_generation-remove_generation :
      (k : Key) (g : IndexGeneration) (s : Projections E)
      → (g.id == k) ≡ false
      → of_generation k (remove_generation tenant_id g s) ≡ of_generation k s
  unfolding remove_generation delete_generation
  of_generation-remove_generation k g s other =
      let kept_documents : (ds : List (IndexDocument E))
          → keep (λ (d : IndexDocument E). is_key k d.metadata.index_generation_id)
              (keep
                (λ (d : IndexDocument E). not (
                  is_key g.document_id d.metadata.document_id
                  && is_key g.id d.metadata.index_generation_id))
                ds)
            ≡ keep (λ (d : IndexDocument E). is_key k d.metadata.index_generation_id) ds =
        λ ds.
          keep-keep
            (λ (d : IndexDocument E). not (
              is_key g.document_id d.metadata.document_id
              && is_key g.id d.metadata.index_generation_id))
            (λ (d : IndexDocument E). is_key k d.metadata.index_generation_id)
            (λ d h.
              away k g.id (is_key g.document_id d.metadata.document_id)
                d.metadata.index_generation_id other h)
            ds in
      rw
        (
          keep-keep (λ (x : IndexGeneration). not (x.id == g.id))
              (λ (x : IndexGeneration). x.id == k) (λ x h. away k g.id true (some x.id) other h)
              s.generations,
          keep-keep
              (λ (c : Chunk). not (c.tenant_id == tenant_id && is_key g.id c.index_generation_id))
              (λ (c : Chunk). is_key k c.index_generation_id)
              (λ c h. away k g.id (c.tenant_id == tenant_id) c.index_generation_id other h)
              s.chunks,
          kept_documents s.dense.documents,
          kept_documents s.lexical.documents,
        )
        refl

module _ {E : Type 0} (kind : Key) (deletes : Bool) (tenant_id : Key) where
  sweep_each-IsBalanced :
      (gs : List IndexGeneration) (r : GenerationCleanupResult) (s : Projections E)
      → IsBalanced (length gs) r
      → IsBalanced 0 (sweep_each kind deletes tenant_id gs r s).0
  unfolding sweep_each
  sweep_each-IsBalanced [] r s h = h
  sweep_each-IsBalanced (g ∷ gs) r s h =
      elim (Bool-cases (is_protected kind tenant_id s.documents s.audit g)) [
        | inl kept ↦ rw kept (sweep_each-IsBalanced gs (retain r) s (omega (arith, h)))
        | inr free ↦ rw free (elim (Bool-cases deletes) [
          | inl able ↦ rw able (
              sweep_each-IsBalanced gs (delete_one r) (remove_generation tenant_id g s)
                (omega (arith, h)))
          | inr unable ↦
              rw unable (sweep_each-IsBalanced gs (retain_unsupported r) s (omega (arith, h)))
        ])
      ]

  -- A sweep retains or deletes each generation that it scans.
  pub sweep_accounts :
      (retention_seconds now limit : ℕ) (wanted : Option Key) (s : Projections E)
      → ((sweep kind deletes tenant_id retention_seconds now limit wanted s).0.scanned
          ≡ (sweep kind deletes tenant_id retention_seconds now limit wanted s).0.retained
            + (sweep kind deletes tenant_id retention_seconds now limit wanted s).0.deleted)
  unfolding sweep
  sweep_accounts retention_seconds now limit wanted s =
      let candidates = take limit (
        sort_by superseded_later
          (keep (due_test retention_seconds now tenant_id wanted) s.generations)) in
      let balanced =
        sweep_each-IsBalanced candidates
          (record { scanned = length candidates; retained = 0; deleted = 0; unsupported = 0 }) s
          (omega arith) in
      omega (arith, balanced)

  -- The document of a generation, as the tenant has it.
  abbrev pub document_of : Projections E → IndexGeneration → Option Document
  document_of s g =
      find_first (λ (d : Document). d.id == g.document_id && d.tenant_id == tenant_id) s.documents

  -- A row of the generation has no document, or one for which the generation is active, or an
  -- audit event of the tenant is about the generation.
  abbrev pub IsReferred : Key → Projections E → IndexGeneration → Type 0
  IsReferred k s g =
      (document_of s g ≡ none)
      ⊎ (((d : Document) × ((document_of s g ≡ some d) × (d.active_generation_id ≡ some k)))
          ⊎ ((i : ℕ) × ((e : AuditEvent) × ((get_elem? s.audit i ≡ some e)
                  × ((e.body.tenant_id ≡ tenant_id)
                      × ((e.body.event.resource_type ≡ kind) × (e.body.event.resource_id ≡ k)))))))

  abbrev pub IsKept : Key → Projections E → IndexGeneration → Type 0
  IsKept k s g = g.id ≡ k → IsReferred k s g

  IsReferred-is_protected :
      (k : Key) (s : Projections E) (g : IndexGeneration)
      → g.id ≡ k
      → IsReferred k s g
      → is_protected kind tenant_id s.documents s.audit g ≡ true
  unfolding is_protected
  IsReferred-is_protected k s g same (inl missing) = rw (missing, is_protected) refl
  IsReferred-is_protected k s g same (inr (inl (d, (there, active)))) =
      rw (there, active, same, ==_refl k, is_protected) refl
  IsReferred-is_protected k s g same (inr (inr (i, (e, (there, (of_tenant, (of_kind, about))))))) =
      let hit : refers_to kind tenant_id g.id e ≡ true =
        rw (of_tenant, of_kind, about, same, ==_refl tenant_id, ==_refl kind, ==_refl k) refl in
      let some_events = count_if-positive (refers_to kind tenant_id g.id) s.audit i e there hit in
      elim (Option-cases (document_of s g)) [
        | inl missing ↦ rw (missing, is_protected) refl
        | inr (d, found) ↦
            rw (found, some_events, is_protected) (or_true (is_key g.id d.active_generation_id))
      ]
    where
      or_true : (b : Bool) → (b || true) ≡ true
      or_true true = refl
      or_true false = refl

  sweep_each-of_generation :
      (k : Key) (gs : List IndexGeneration) (r : GenerationCleanupResult) (s : Projections E)
      → All (IsKept k s) gs
      → of_generation k (sweep_each kind deletes tenant_id gs r s).1 ≡ of_generation k s
  unfolding sweep_each remove_generation
  sweep_each-of_generation k [] r s h = refl
  sweep_each-of_generation k (g ∷ gs) r s h =
      elim (Bool-cases (is_protected kind tenant_id s.documents s.audit g)) [
        | inl kept ↦ rw kept (sweep_each-of_generation k gs (retain r) s h.1)
        | inr free ↦ rw free (elim (Bool-cases deletes) [
          | inl able ↦
              let other : (g.id == k) ≡ false = apart (g.id == k) free (λ e.
                let same = eq_of_== g.id k e in IsReferred-is_protected k s g same (h.0 same)) in
              rw able (
                sweep_each-of_generation k gs (delete_one r) (remove_generation tenant_id g s) h.1
                ∙ of_generation-remove_generation tenant_id k g s other)
          | inr unable ↦ rw unable (sweep_each-of_generation k gs (retain_unsupported r) s h.1)
        ])
      ]
    where
      apart :
          (b : Bool)
          → is_protected kind tenant_id s.documents s.audit g ≡ false
          → (b ≡ true → is_protected kind tenant_id s.documents s.audit g ≡ true)
          → b ≡ false
      apart true free kept = sym (kept refl) ∙ free
      apart false free kept = refl

  -- A sweep leaves the row, the chunks and the index entries of a generation that has no document of
  -- the tenant, or that is the active generation of its document, or that some stored audit event
  -- of the tenant is about.
  pub protected_generation_stays :
      (retention_seconds now limit : ℕ) (wanted : Option Key) (k : Key) (s : Projections E)
      → All (IsKept k s) s.generations
      → of_generation k (sweep kind deletes tenant_id retention_seconds now limit wanted s).1
        ≡ of_generation k s
  unfolding sweep
  protected_generation_stays retention_seconds now limit wanted k s h =
      let due = keep (due_test retention_seconds now tenant_id wanted) s.generations in
      sweep_each-of_generation k (take limit (sort_by superseded_later due)) _ s (
        All-take (IsKept k s) limit (sort_by superseded_later due) (
          All-sort_by superseded_later (IsKept k s) due (
            All-keep (IsKept k s) (due_test retention_seconds now tenant_id wanted) s.generations
              h)))

-- ===== src/Retrieval/Fusion/Union.antt =====
-- What fusion keeps of the result sets.
use llama_index_rag.Base.{
  Key, ℕ, suc, ◌≡◌, refl, ◌∙◌, inl, inr, Bool, true, false, not, ◌&&◌, ◌||◌, ◌==◌, ltb,
  if◌then◌else◌, List, [], ◌∷◌, map, any, elem, All, count_if, arith, Bool-cases,
}
use llama_index_rag.Base.Sort.{sort_by, All-sort_by, count_if-sort_by, Sorted, sort_by-Sorted}
use llama_index_rag.Retrieval.{Scores, RetrievalCandidate}
use llama_index_rag.Retrieval.Evidence.{ids_of}
use llama_index_rag.Retrieval.Fusion.{
  Fused, bump, add_ranked, add_sets, later_entry, fused_candidate, reciprocal_rank_fusion,
}

All-map_image {ℓ κ μ} :
    {A : Type ℓ} {B : Type κ} (P : B → Type μ) (f : A → B) (xs : List A)
    → All (λ x. P (f x)) xs
    → All P (map f xs)
All-map_image P f [] h = tt
All-map_image P f (x ∷ xs) h = (h.0, All-map_image P f xs h.1)

module _ {S : Type 0} (scores : Scores S) (fusion_k : ℕ) where
  module _ (P : Key → Type 0) where
    All-bump :
        (rank : ℕ) (c : RetrievalCandidate S) (es : List (Fused S))
        → P c.chunk_id
        → All (λ e. P e.latest.chunk_id) es
        → All (λ e. P e.latest.chunk_id) (bump scores fusion_k rank c es)
    unfolding bump
    All-bump rank c [] p h = (p, tt)
    All-bump rank c (e ∷ es) p h = elim (Bool-cases (e.latest.chunk_id == c.chunk_id)) [
      | inl same ↦ rw same (p, h.1)
      | inr new ↦ rw new (h.0, All-bump rank c es p h.1)
    ]

    All-add_ranked :
        (rank : ℕ) (cs : List (RetrievalCandidate S)) (es : List (Fused S))
        → All (λ c. P c.chunk_id) cs
        → All (λ e. P e.latest.chunk_id) es
        → All (λ e. P e.latest.chunk_id) (add_ranked scores fusion_k rank cs es)
    unfolding add_ranked
    All-add_ranked rank [] es p h = h
    All-add_ranked rank (c ∷ cs) es p h =
        All-add_ranked (suc rank) cs (bump scores fusion_k rank c es) p.1 (All-bump rank c es p.0 h)

    All-add_sets :
        (sets : List (List (RetrievalCandidate S))) (es : List (Fused S))
        → All (λ cs. All (λ c. P c.chunk_id) cs) sets
        → All (λ e. P e.latest.chunk_id) es
        → All (λ e. P e.latest.chunk_id) (add_sets scores fusion_k sets es)
    unfolding add_sets
    All-add_sets [] es p h = h
    All-add_sets (cs ∷ sets) es p h =
        All-add_sets sets (add_ranked scores fusion_k 1 cs es) p.1 (All-add_ranked 1 cs es p.0 h)

    -- What holds of the id of each candidate holds of the id of each fused one.
    pub All-reciprocal_rank_fusion :
        (source : Key) (sets : List (List (RetrievalCandidate S)))
        → All (λ cs. All (λ c. P c.chunk_id) cs) sets
        → All (λ c. P c.chunk_id) (reciprocal_rank_fusion scores fusion_k source sets)
    unfolding reciprocal_rank_fusion
    All-reciprocal_rank_fusion source sets p =
        All-map_image (λ c. P c.chunk_id) (fused_candidate scores fusion_k source)
          (sort_by (later_entry scores fusion_k) (add_sets scores fusion_k sets []))
          (All-sort_by (later_entry scores fusion_k) (λ e. P e.latest.chunk_id)
            (add_sets scores fusion_k sets []) (All-add_sets sets [] p tt))

  -- How many entries an id has.
  abbrev entries_of : Key → List (Fused S) → ℕ
  entries_of k es = count_if (λ e. e.latest.chunk_id == k) es

  entries_of-bump :
      (k : Key) (rank : ℕ) (c : RetrievalCandidate S) (es : List (Fused S))
      → entries_of k (bump scores fusion_k rank c es)
        ≡ (if entries_of k es == 0 then (if c.chunk_id == k then 1 else 0) else entries_of k es)
  unfolding bump
  entries_of-bump k rank c [] = ground arith
  entries_of-bump k rank c (e ∷ es) = ground (arith, entries_of-bump k rank c es)

  -- The entries of an id after more candidates: none is added for an id that has one.
  entries_of-add_ranked :
      (k : Key) (rank : ℕ) (cs : List (RetrievalCandidate S)) (es : List (Fused S))
      → entries_of k (add_ranked scores fusion_k rank cs es)
        ≡ (if entries_of k es == 0 then (if elem k (ids_of cs) then 1 else 0) else entries_of k es)
  unfolding add_ranked
  entries_of-add_ranked k rank [] es = ground arith
  entries_of-add_ranked k rank (c ∷ cs) es = ground (
    arith,
    entries_of-bump k rank c es,
    entries_of-add_ranked k (suc rank) cs (bump scores fusion_k rank c es),
  )

  abbrev in_sets : Key → List (List (RetrievalCandidate S)) → Bool
  in_sets k sets = any (λ cs. elem k (ids_of cs)) sets

  entries_of-add_sets :
      (k : Key) (sets : List (List (RetrievalCandidate S))) (es : List (Fused S))
      → entries_of k (add_sets scores fusion_k sets es)
        ≡ (if entries_of k es == 0 then (if in_sets k sets then 1 else 0) else entries_of k es)
  unfolding add_sets
  entries_of-add_sets k [] es = ground arith
  entries_of-add_sets k (cs ∷ sets) es = ground (
    arith,
    entries_of-add_ranked k 1 cs es,
    entries_of-add_sets k sets (add_ranked scores fusion_k 1 cs es),
  )

  count_if-fused :
      (k source : Key) (es : List (Fused S))
      → count_if (λ c. c.chunk_id == k) (map (fused_candidate scores fusion_k source) es)
        ≡ entries_of k es
  count_if-fused k source [] = refl
  count_if-fused k source (e ∷ es) = ground (arith, count_if-fused k source es)

  -- Fusion gives each chunk that some result set has exactly one candidate, and no other chunk any.
  pub fuses_each_once :
      (k source : Key) (sets : List (List (RetrievalCandidate S)))
      → count_if (λ c. c.chunk_id == k) (reciprocal_rank_fusion scores fusion_k source sets)
        ≡ (if any (λ cs. elem k (ids_of cs)) sets then 1 else 0)
  unfolding reciprocal_rank_fusion
  fuses_each_once k source sets =
      count_if-fused k source
        (sort_by (later_entry scores fusion_k) (add_sets scores fusion_k sets []))
      ∙ count_if-sort_by (later_entry scores fusion_k) (λ e. e.latest.chunk_id == k)
          (add_sets scores fusion_k sets [])
      ∙ entries_of-add_sets k sets []

  -- `a` has to stand behind `b`: by score, and by id among equal scores.
  abbrev pub ranks_behind : RetrievalCandidate S → RetrievalCandidate S → Bool
  ranks_behind a b =
      scores.below a.score b.score
      || (not (scores.below b.score a.score) && ltb b.chunk_id a.chunk_id)

  All-ranks :
      (source : Key) (e : Fused S) (es : List (Fused S))
      → All (λ x. later_entry scores fusion_k e x ≡ false) es
      → All
          (λ c. ranks_behind (fused_candidate scores fusion_k source e) c ≡ false)
          (map (fused_candidate scores fusion_k source) es)
  All-ranks source e [] h = tt
  All-ranks source e (x ∷ es) h = (h.0, All-ranks source e es h.1)

  Sorted-fused :
      (source : Key) (es : List (Fused S))
      → Sorted (later_entry scores fusion_k) es
      → Sorted ranks_behind (map (fused_candidate scores fusion_k source) es)
  Sorted-fused source [] h = tt
  Sorted-fused source (e ∷ es) h = (All-ranks source e es h.0, Sorted-fused source es h.1)

  module _ (asym : (a b : S) → scores.below a b ≡ true → scores.below b a ≡ false)
      (trans : (a b c : S)
        → scores.below a b ≡ false
        → scores.below b c ≡ false
        → scores.below a c ≡ false) where
    later_entry-asym :
        (a b : Fused S)
        → later_entry scores fusion_k a b ≡ true
        → later_entry scores fusion_k b a ≡ false
    later_entry-asym a b h = ground (arith, asym a.total b.total, asym b.total a.total)

    later_entry_trans :
        (a b c : Fused S)
        → later_entry scores fusion_k a b ≡ false
        → later_entry scores fusion_k b c ≡ false
        → later_entry scores fusion_k a c ≡ false
    later_entry_trans a b c h k = ground (
      arith,
      trans a.total b.total c.total,
      trans c.total b.total a.total,
      trans b.total c.total a.total,
      trans c.total a.total b.total,
      trans b.total a.total c.total,
      trans a.total c.total b.total,
    )

    -- If the comparison of scores is a strict order whose incomparable scores are equal, the fused
    -- candidates come with the higher scores first, and by id among equal scores.
    pub reciprocal_rank_fusion-Sorted :
        (source : Key) (sets : List (List (RetrievalCandidate S)))
        → Sorted ranks_behind (reciprocal_rank_fusion scores fusion_k source sets)
    unfolding reciprocal_rank_fusion
    reciprocal_rank_fusion-Sorted source sets =
        Sorted-fused source
          (sort_by (later_entry scores fusion_k) (add_sets scores fusion_k sets []))
          (sort_by-Sorted (later_entry scores fusion_k) later_entry-asym later_entry_trans
            (add_sets scores fusion_k sets []))

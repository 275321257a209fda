-- ===== src/Retrieval/Tests.antt =====
-- Examples of retrievals. Scores are numbers, and the reciprocal of n is 1000 / n.
use llama_index_rag.Base.{
  Key, ℕ, ◌+◌, ◌/◌, ◌≤◌, ◌≡◌, refl, Bool, true, false, ◌||◌, ◌==◌, ltb, is_none, Option, none, some,
  List, [], ◌∷◌, elem, take, length, concat_map, ok, err, app_error, dependency_unavailable, All,
  arith, count_if, sorted_set, All-map, All-take, subst, ==_refl,
}
use llama_index_rag.Base.Sort.{Sorted, sort_by}
use llama_index_rag.Retrieval.{
  Scores, user, Metadata, RetrievalCandidate, AuthorizationScope, LifecycleState, Document, Chunk,
  RetrievalPolicy, check_policy,
}
use llama_index_rag.Retrieval.Fusion.{reciprocal_rank_fusion, add_sets, add_ranked, bump}
use llama_index_rag.Retrieval.Fusion.Union.{
  fuses_each_once, ranks_behind, reciprocal_rank_fusion-Sorted,
}
use llama_index_rag.Retrieval.Evidence.{
  ids_of, authority_rows, row_test, active_row, row_allows, allowed, rejection_reason,
  missing_or_inactive_authority_row, Row, select_evidence,
}
use llama_index_rag.Retrieval.Evidence.Bounds.{characters}
use llama_index_rag.Retrieval.Evidence.Authority.{HasReadable}
use llama_index_rag.Retrieval.Service.{
  RetrievalResult, successful, validated, rejections, retrieve, answer, reranked,
}
use llama_index_rag.Retrieval.Service.Authorized.{
  KeepsIds, evidence_authorized, evidence_within_policy,
}
use llama_index_rag.Retrieval.Service.Degradation.{
  reranking, retrieve_degrades, retrieve_strict, candidates_accounted,
}

abbrev points : Scores ℕ
points = record {
  zero_score = 0;
  add_score = λ a b. a + b;
  reciprocal = λ n. 1000 / n;
  below = ltb;
}

abbrev policy : Bool → RetrievalPolicy ℕ
policy degrades = record {
  dense_top_k = 20;
  lexical_top_k = 20;
  fusion_k = 60;
  rerank_top_k = 12;
  evidence_top_k = 6;
  relevance_threshold = 5;
  context_character_budget = 100;
  allow_single_search_degradation = degrades;
}

policy_valid : check_policy points (policy true) ≡ ok tt
unfolding check_policy
policy_valid = refl

-- The id of a missing value is 0, as a text.
abbrev text_of : Option Key → Key
text_of none = 0
text_of (some k) = k

-- A reranker that keeps the first candidates.
abbrev first_of : List (RetrievalCandidate ℕ) → ℕ → Option (List (RetrievalCandidate ℕ))
first_of cs k = some (take k cs)

abbrev metadata_of : Key → Metadata
metadata_of tenant_id = record {
  tenant_id = some tenant_id;
  knowledge_space_id = some 30;
  document_id = some 40;
  document_version_id = some 41;
  index_generation_id = some 42;
  acl_tokens = user 100 ∷ [];
  retrieval_sources = [];
}

abbrev candidate : Key → Key → RetrievalCandidate ℕ
candidate id tenant_id = record {
  chunk_id = id;
  body = 65 ∷ 66 ∷ [];
  score = 1;
  metadata = metadata_of tenant_id;
  source = 7;
}

abbrev document : Document
document = record {
  id = 40;
  tenant_id = 1;
  knowledge_space_id = 30;
  state = LifecycleState.active;
  active_version_id = some 41;
  active_generation_id = some 42;
}

abbrev chunk : Chunk
chunk = record {
  id = 50;
  tenant_id = 1;
  document_id = 40;
  document_version_id = 41;
  index_generation_id = some 42;
  acl_tokens = user 100 ∷ [];
  active = true;
}

abbrev scope : AuthorizationScope
scope = record {
  tenant_id = 1;
  principal_tokens = user 100 ∷ [];
  knowledge_space_ids = 30 ∷ [];
  acl_epoch = 5;
  document_ids = [];
  configuration_version_id = none;
  index_generation_ids = 42 ∷ [];
}

-- The dense search finds the chunk; the lexical one finds a chunk of another tenant.
abbrev dense : Option (List (RetrievalCandidate ℕ))
dense = some (candidate 50 1 ∷ [])

abbrev lexical : Option (List (RetrievalCandidate ℕ))
lexical = some (candidate 51 2 ∷ [])

abbrev fused : RetrievalCandidate ℕ
fused = record (candidate 50 1) {
  score = 16;
  metadata = record (metadata_of 1) { retrieval_sources = sorted_set (7 ∷ []) };
  source = 9;
}

abbrev result : RetrievalResult ℕ
result = record {
  candidates = fused ∷ [];
  evidence = fused ∷ [];
  degraded = false;
  fused_count = 1;
  reasons = missing_or_inactive_authority_row ∷ [];
}

retrieves :
    retrieve points text_of 9 first_of
      (policy true)
      (chunk ∷ [])
      (document ∷ [])
      scope
      1
      dense
      lexical
    ≡ ok result
unfolding retrieve answer reranked authority_rows row_test active_row row_allows allowed
    rejection_reason select_evidence reciprocal_rank_fusion sort_by add_sets add_ranked bump
retrieves = refl

own_ids : (cs : List (RetrievalCandidate ℕ)) → All (λ c. elem c.chunk_id (ids_of cs) ≡ true) cs
own_ids [] = tt
own_ids (c ∷ cs) = (
  ground (arith, ==_refl c.chunk_id),
  All-map (λ d. elem d.chunk_id (ids_of cs) ≡ true) (λ d. elem d.chunk_id (ids_of (c ∷ cs)) ≡ true)
      cs (λ d h. ground (arith, h)) (own_ids cs),
)

first_of-KeepsIds : KeepsIds points text_of 9 first_of (policy true)
first_of-KeepsIds cs out k h =
    let same : take k cs ≡ out = ground (arith, h) in
    subst (λ ds. All (λ c. elem c.chunk_id (ids_of cs) ≡ true) ds) same
      (All-take (λ c. elem c.chunk_id (ids_of cs) ≡ true) k cs (own_ids cs))

evidence_authorized_example :
    All
      (λ c.
        HasReadable text_of scope 1
          (chunk ∷ [])
          (document ∷ [])
          (concat_map ids_of (successful points text_of 9 first_of (policy true) dense lexical))
          c.chunk_id)
      result.evidence
evidence_authorized_example =
    evidence_authorized points text_of 9 first_of (policy true) (chunk ∷ []) (document ∷ []) scope 1
      dense lexical result first_of-KeepsIds retrieves

evidence_within_policy_example :
    (length result.evidence ≤ 6)
    × ((characters result.evidence ≤ 100) × All (λ c. ltb c.score 5 ≡ false) result.evidence)
evidence_within_policy_example =
    evidence_within_policy points text_of 9 first_of (policy true) (chunk ∷ []) (document ∷ [])
      scope 1 dense lexical result policy_valid retrieves

retrieve_degrades_example :
    (answered : RetrievalResult ℕ) × ((retrieve points text_of 9 first_of
          (policy true)
          (chunk ∷ [])
          (document ∷ [])
          scope
          1
          dense
          none
        ≡ ok answered)
      × (answered.degraded ≡ (
          (is_none dense || true)
          || is_none (
              reranking points text_of 9 first_of
                (policy true)
                (chunk ∷ [])
                (document ∷ [])
                scope
                1
                (successful points text_of 9 first_of (policy true) dense none)))))
retrieve_degrades_example =
    retrieve_degrades points text_of 9 first_of (policy true) (chunk ∷ []) (document ∷ []) scope 1
      dense none refl refl

retrieve_strict_test :
    retrieve points text_of 9 first_of
      (policy false)
      (chunk ∷ [])
      (document ∷ [])
      scope
      1
      dense
      none
    ≡ err (app_error dependency_unavailable 503)
retrieve_strict_test =
    retrieve_strict points text_of 9 first_of (policy false) (chunk ∷ []) (document ∷ []) scope 1
      dense none refl refl

abbrev rows : List Row
rows = (chunk, document) ∷ []

abbrev sets : List (List (RetrievalCandidate ℕ))
sets = (candidate 50 1 ∷ []) ∷ (candidate 51 2 ∷ []) ∷ []

candidates_accounted_test :
    length (
        concat_map (λ cs. cs) (validated points text_of 9 first_of (policy true) scope 1 rows sets))
      + length (rejections points text_of 9 first_of (policy true) scope 1 rows sets)
    ≡ 2
candidates_accounted_test =
    candidates_accounted points text_of 9 first_of (policy true) scope 1 rows sets

fuses_each_once_example :
    count_if (λ c. c.chunk_id == 50) (reciprocal_rank_fusion points 60 9 sets) ≡ 1
fuses_each_once_example = fuses_each_once points 60 50 9 sets

points_asym : (a b : ℕ) → ltb a b ≡ true → ltb b a ≡ false
points_asym a b h = ground arith

points_trans : (a b c : ℕ) → ltb a b ≡ false → ltb b c ≡ false → ltb a c ≡ false
points_trans a b c h k = ground arith

reciprocal_rank_fusion-Sorted_example :
    Sorted (ranks_behind points 60) (reciprocal_rank_fusion points 60 9 sets)
reciprocal_rank_fusion-Sorted_example =
    reciprocal_rank_fusion-Sorted points 60 points_asym points_trans 9 sets

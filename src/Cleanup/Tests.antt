-- ===== src/Cleanup/Tests.antt =====
-- Examples of a sweep.
use llama_index_rag.Base.{ap, ℕ, ◌+◌, ◌≡◌, refl, true, some, none, [], ◌∷◌, All, inl, inr, arith}
use llama_index_rag.Retrieval.{Document, LifecycleState}
use llama_index_rag.Search.{MemoryIndex}
use llama_index_rag.Cleanup.{IndexGeneration, Projections, time_of, sweep}
use llama_index_rag.Cleanup.Deletion.{IsGone, IsFree, IsDue, superseded_generation_goes}
use llama_index_rag.Cleanup.Protected.{
  of_generation, IsKept, sweep_accounts, protected_generation_stays,
}

abbrev empty_index : MemoryIndex ℕ
empty_index = record {
  documents = [];
  active_versions = [];
  active_generations = [];
  acl_epochs = [];
}

abbrev old_one : IndexGeneration
old_one = record {
  id = 41;
  tenant_id = 1;
  document_id = 20;
  superseded = true;
  superseded_at = some 5;
}

-- It was superseded, and is active again.
abbrev active_one : IndexGeneration
active_one = record old_one { id = 40 }

abbrev document : Document
document = record {
  id = 20;
  tenant_id = 1;
  knowledge_space_id = 10;
  state = LifecycleState.active;
  active_version_id = some 30;
  active_generation_id = some 40;
}

abbrev projections : Projections ℕ
projections = record {
  generations = active_one ∷ old_one ∷ [];
  documents = document ∷ [];
  audit = [];
  chunks = [];
  dense = empty_index;
  lexical = empty_index;
}

sweep_accounts_test :
    (sweep 99 true 1 100 200 10 none projections).0.scanned
    ≡ (sweep 99 true 1 100 200 10 none projections).0.retained
      + (sweep 99 true 1 100 200 10 none projections).0.deleted
sweep_accounts_test = sweep_accounts 99 true 1 100 200 10 none projections

active_one-IsKept : All (IsKept 99 true 1 40 projections) (active_one ∷ old_one ∷ [])
active_one-IsKept =
    ((λ h. inr (inl (document, (refl, refl)))), ((λ h. absurd (omega (arith, h))), tt))

protected_generation_stays_example :
    of_generation 40 (sweep 99 true 1 100 200 10 none projections).1 ≡ of_generation 40 projections
protected_generation_stays_example =
    protected_generation_stays 99 true 1 100 200 10 none 40 projections active_one-IsKept

old_one-IsDue : IsDue 100 200 1 none old_one
old_one-IsDue = record {
  of_tenant = refl;
  superseded = refl;
  since = 5;
  superseded_since = refl;
  retained_long = omega arith;
  is_wanted = inl refl;
}

old_one-IsFree : IsFree 99 1 old_one projections
old_one-IsFree = record {
  document = document;
  has_document = refl;
  inactive = λ h. absurd (omega (arith, ap time_of h));
  unreferred = tt;
}

superseded_generation_goes_example : IsGone 1 20 41 (sweep 99 true 1 100 200 10 none projections).1
superseded_generation_goes_example =
    superseded_generation_goes 99 1 100 200 10 1 none old_one projections refl (omega arith)
      old_one-IsDue old_one-IsFree

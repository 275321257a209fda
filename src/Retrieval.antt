-- ===== src/Retrieval.antt =====
-- Retrieval within a caller's permissions (backend/enterprise_rag/application/retrieval.py and
-- security.py). A text is the list of its code points; `S` is the type of scores, which the code
-- has as floats.
pub mod Scope
pub mod Fusion
pub mod Evidence
pub mod Service
mod Tests
mod ScopeTests
use llama_index_rag.Base.{
  Key, ℕ, ◌<◌, Bool, true, false, not, ◌&&◌, ◌||◌, ◌==◌, leb, ltb, if◌then◌else◌, Option, none,
  some, List, [], ◌∷◌, any, Result, ok, value_error, raise_if, ◌>>◌,
}

-- What the code does with scores: sums, `1.0 / n`, and `<`.
pub record Scores (S : Type 0) : Type 0 where
  pub zero_score : S
  pub add_score : S → S → S
  pub reciprocal : ℕ → S
  pub below : S → S → Bool

-- A text in an access list: `user:` or `group:` with a name, or any other text.
pub data Token : Type 0 where
  user group other : Key → Token

abbrev pub eqb_Token : Token → Token → Bool
eqb_Token (user a) (user b) = a == b
eqb_Token (group a) (group b) = a == b
eqb_Token (other a) (other b) = a == b
eqb_Token _ _ = false

abbrev pub has_token : List Token → Token → Bool
has_token tokens t = any (eqb_Token t) tokens

-- `set(tokens).intersection(others)` is not empty.
abbrev pub shares_token : List Token → List Token → Bool
shares_token tokens others = any (has_token others) tokens

-- What a search index stores with a chunk; a missing entry is `none`, a missing list empty.
pub record Metadata : Type 0 where
  pub tenant_id : Option Key
  pub knowledge_space_id : Option Key
  pub document_id : Option Key
  pub document_version_id : Option Key
  pub index_generation_id : Option Key
  pub acl_tokens : List Token
  pub retrieval_sources : List Key

pub record RetrievalCandidate (S : Type 0) : Type 0 where
  pub chunk_id : Key
  pub body : List ℕ
  pub score : S
  pub metadata : Metadata
  pub source : Key

pub record AuthorizationScope : Type 0 where
  pub tenant_id : Key
  pub principal_tokens : List Token
  pub knowledge_space_ids : List Key
  pub acl_epoch : ℕ
  pub document_ids : List Key
  pub configuration_version_id : Option Key
  pub index_generation_ids : List Key

pub data LifecycleState : Type 0 where
  active archived deleted : LifecycleState

abbrev pub is_live : LifecycleState → Bool
is_live active = true
is_live _ = false

pub record Document : Type 0 where
  pub id : Key
  pub tenant_id : Key
  pub knowledge_space_id : Key
  pub state : LifecycleState
  pub active_version_id : Option Key
  pub active_generation_id : Option Key

pub record Chunk : Type 0 where
  pub id : Key
  pub tenant_id : Key
  pub document_id : Key
  pub document_version_id : Key
  pub index_generation_id : Option Key
  pub acl_tokens : List Token
  pub active : Bool

-- The versions, hashes and origins of a policy are left out.
pub record RetrievalPolicy (S : Type 0) : Type 0 where
  pub dense_top_k : ℕ
  pub lexical_top_k : ℕ
  pub fusion_k : ℕ
  pub rerank_top_k : ℕ
  pub evidence_top_k : ℕ
  pub relevance_threshold : S
  pub context_character_budget : ℕ
  pub allow_single_search_degradation : Bool

-- `RetrievalPolicy.__post_init__`; on ℕ, `<= 0` is being 0.
unfoldable pub check_policy : {S : Type 0} → Scores S → RetrievalPolicy S → Result (Unit {0})
check_policy scores p =
    raise_if (p.dense_top_k == 0 || p.lexical_top_k == 0) value_error
    >> raise_if (p.fusion_k == 0 || (p.rerank_top_k == 0 || p.evidence_top_k == 0)) value_error
    >> raise_if (p.context_character_budget == 0) value_error
    >> raise_if (scores.below p.relevance_threshold scores.zero_score) value_error

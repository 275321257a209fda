-- ===== src/Domain/Message.antt =====
-- Task messages (backend/enterprise_rag/domain/types.py:JobMessage). A payload is a dictionary as
-- an association list; `str` is Python's `str` on the values that stand in it.
use Prim.Native.String.{String}
use text.Mathlib.Text.{◌==◌ as str_eq}
use llama_index_rag.Base.{
  ◌≡◌, refl, ◌⊎◌, arith, Key, ℕ, ℤ, Bool, true, false, not, ◌&&◌, ◌==◌, List, [], ◌∷◌, Result, ok,
  value_error, ◌>>◌, raise_if, if◌then◌else◌, Time,
}

pub data Value : Type 0 where
  null : Value
  word : Key → Value
  number : ℕ → Value
  words : List Key → Value

abbrev pub Payload : Type 0
Payload = List (String × Value)

-- `payload.get(name)`.
unfoldable pub get : String → Payload → Value
get name [] = null
get name ((key, value) ∷ rest) = if str_eq key name then value else get name rest

-- `name in payload`.
unfoldable pub contains : String → Payload → Bool
contains name [] = false
contains name ((key, value) ∷ rest) = if str_eq key name then true else contains name rest

abbrev pub is_null : Value → Bool
is_null null = true
is_null _ = false

-- `{"tenant_id": tenant_id, **payload}`: an entry of the payload replaces the one in front.
unfoldable pub with_tenant : Key → Payload → Payload
with_tenant tenant_id payload =
    if contains "tenant_id" payload then payload else ("tenant_id", word tenant_id) ∷ payload

pub record JobMessage : Type 0 where
  pub id : Key
  pub kind : String
  pub tenant_id : Key
  pub correlation_id : Key
  pub payload : Payload
  pub priority : ℤ
  pub attempt : ℕ
  pub max_attempts : ℕ
  pub created_at : Time

-- The check that a payload names no other tenant than its envelope.
abbrev pub tenant_conflict : (Value → Key) → Key → Payload → Bool
tenant_conflict str tenant_id payload =
    let payload_tenant = get "tenant_id" payload in
    not (is_null payload_tenant) && not (str payload_tenant == tenant_id)

-- `JobMessage.__post_init__`, on the message that the constructor's arguments make up.
unfoldable pub post_init : (Value → Key) → JobMessage → Result JobMessage
unfolding with_tenant
post_init str m =
    raise_if (tenant_conflict str m.tenant_id m.payload) value_error
    >> ok (record m { payload = with_tenant m.tenant_id m.payload })

get_missing :
    (name : String) (payload : Payload) → contains name payload ≡ false → get name payload ≡ null
unfolding get contains
get_missing name [] h = refl
get_missing name ((key, value) ∷ rest) h = ground (arith, get_missing name rest)

-- Whatever message the constructor lets through names its own tenant in its payload, or has an
-- explicit null there; and it differs from its arguments in no other field.
pub post_init-tenant :
    (str : Value → Key) (m : JobMessage) {built : JobMessage}
    → ((k : Key) → str (word k) ≡ k)
    → post_init str m ≡ ok built
    → (built ≡ record m { payload = built.payload })
      × ((str (get "tenant_id" built.payload) ≡ m.tenant_id)
          ⊎ ((contains "tenant_id" m.payload ≡ true) × (get "tenant_id" built.payload ≡ null)))
unfolding post_init get
post_init-tenant str m {built} law e =
    ground (arith, get_missing "tenant_id" m.payload, law m.tenant_id)

-- ===== src/Memory/Types.antt =====
-- The data of internal/memory: memory.go, errors.go, and the metadata keys of engineering.go and
-- sediment.go. A time is a number of nanoseconds since Go's zero time, which is 0. An importance is
-- in hundredths.
use agent_memory_mcp.Base.{ℕ, String, ◌≡◌, refl, Bool, Option, List, nat_eq}
use agent_memory_mcp.Base.Int.{ℤ}
use agent_memory_mcp.Dict.{Dict}

abbrev pub Time : Type 0
Time = ℕ

-- time.Time.IsZero
abbrev pub is_zero : Time → Bool
is_zero t = nat_eq t 0

abbrev pub type_episodic : String
type_episodic = "episodic"

abbrev pub type_semantic : String
type_semantic = "semantic"

abbrev pub type_procedural : String
type_procedural = "procedural"

abbrev pub type_working : String
type_working = "working"

pub record Memory : Type 0 where
  pub id : String
  pub content : String
  pub type : String
  pub title : String
  pub tags : List String
  pub context : String
  pub importance : ℤ
  pub metadata : Dict String
  pub embedding : List ℕ  -- the bits of each float32
  pub embedding_model : String
  pub created_at : Time
  pub updated_at : Time
  pub accessed_at : Time
  pub access_count : ℕ
  pub targeted_access_count : ℕ
  pub valid_from : Option Time
  pub valid_until : Option Time
  pub superseded_by : String
  pub replaces : String
  pub observed_at : Option Time
  pub sediment_layer : String

-- the errors that the package returns, without their message texts
pub data Error : Type 0 where
  content_required importance_range target_layer_invalid primary_required duplicate_required : Error
  entity_required promotion_requires_verification database : Error
  type_invalid lifecycle_invalid review_required_invalid layer_invalid : String → Error
  not_found server_owned_key secret_detected entity_invalid : String → Error

pub data Result {ℓ} (A : Type ℓ) : Type ℓ where
  ok : A → Result A
  err : Error → Result A

infixl 5 ◌>>=◌
abbrev pub ◌>>=◌ {ℓ κ} : {A : Type ℓ} {B : Type κ} → Result A → (A → Result B) → Result B
ok x >>= next = next x
err problem >>= next = err problem

-- a chain of steps that gives a result gave one at its first step
pub >>=-eq-ok {ℓ κ} :
    {A : Type ℓ} {B : Type κ} (step : Result A) (next : A → Result B) {result : B}
    → (step >>= next) ≡ ok result
    → (x : A) × (step ≡ ok x) × (next x ≡ ok result)
>>=-eq-ok (ok x) next given = (x, refl, given)
>>=-eq-ok (err problem) next given = absurd (cc)

abbrev pub key_entity : String
key_entity = "entity"

abbrev pub key_service : String
key_service = "service"

abbrev pub key_severity : String
key_severity = "severity"

abbrev pub key_status : String
key_status = "status"

abbrev pub key_lifecycle_status : String
key_lifecycle_status = "lifecycle_status"

abbrev pub key_knowledge_layer : String
key_knowledge_layer = "knowledge_layer"

abbrev pub key_owner : String
key_owner = "owner"

abbrev pub key_last_verified_at : String
key_last_verified_at = "last_verified_at"

abbrev pub key_review_required : String
key_review_required = "review_required"

abbrev pub key_review_reason : String
key_review_reason = "review_reason"

abbrev pub key_record_kind : String
key_record_kind = "record_kind"

abbrev pub key_embedding_truncated : String
key_embedding_truncated = "embedding_truncated"

abbrev pub key_provenance : String
key_provenance = "provenance"

abbrev pub key_referenced_by_count : String
key_referenced_by_count = "referenced_by_count"

abbrev pub key_review_source : String
key_review_source = "review_source"

abbrev pub key_review_target_memory_id : String
key_review_target_memory_id = "review_target_memory_id"

abbrev pub key_review_target_layer : String
key_review_target_layer = "review_target_layer"

-- `canonical` and `archived` are written as literals in the source
abbrev pub key_canonical : String
key_canonical = "canonical"

abbrev pub key_archived : String
key_archived = "archived"

abbrev pub review_queue_item : String
review_queue_item = "review_queue_item"

abbrev pub review_source_sediment_cycle : String
review_source_sediment_cycle = "sediment_cycle"

-- ===== src/Memory/Engineering.antt =====
-- engineering.go, and the metadata readers of trust.go and sediment.go: what a record's type, tags
-- and metadata say of its kind, its lifecycle, its provenance and its need of review.
pub mod Lifecycle
use Prim.Native.String
use agent_memory_mcp.Base.{
  String, Bool, true, false, ◌&&◌, ◌||◌, Option, none, some, List, [], ◌∷◌, ◌++◌, any, is_nil, ◌==◌,
  is_some, or_else, if◌then◌else◌,
}
use agent_memory_mcp.Text.{trim_space, to_lower, equal_fold, is_empty}
use agent_memory_mcp.Dict.{Dict, insert, erase, text_at}
use agent_memory_mcp.Memory.Types.{
  Memory, Result, ok, err, ◌>>=◌, lifecycle_invalid, review_required_invalid, entity_required,
  server_owned_key, type_episodic, type_semantic, type_procedural, type_working, key_entity,
  key_service, key_severity, key_status, key_lifecycle_status, key_knowledge_layer,
  key_last_verified_at, key_review_required, key_record_kind, key_provenance, key_canonical,
  key_archived, review_queue_item,
}
use agent_memory_mcp.Memory.Policy.{normalize_tags, normalize_metadata}

-- a case of a `switch` on texts
abbrev pub one_of : String → List String → Bool
one_of v cases = any (λ c. v == c) cases

-- trust.go
unfoldable pub normalize_status : String → String
normalize_status value = to_lower (trim_space value)

unfoldable pub metadata_bool : Dict String → String → Bool
metadata_bool metadata key =
    one_of (to_lower (trim_space (text_at key metadata))) ("1" ∷ "true" ∷ "yes" ∷ [])

-- `hasTag` of trust.go
unfoldable pub has_tag : List String → String → Bool
has_tag tags target = any (λ t. t == target) tags

pub data EngineeringType : Type 0 where
  decision incident runbook postmortem migration_note caveat procedure dead_end : EngineeringType

abbrev pub entity_text : EngineeringType → String
entity_text decision = "decision"
entity_text incident = "incident"
entity_text runbook = "runbook"
entity_text postmortem = "postmortem"
entity_text migration_note = "migration-note"
entity_text caveat = "caveat"
entity_text procedure = "procedure"
entity_text dead_end = "dead_end"

-- the `switch`; "" is none
abbrev engineering_type_of_word : String → Option EngineeringType
engineering_type_of_word v =
    if one_of v ("decision" ∷ "decisions" ∷ [])
    then some decision
    else if one_of v ("incident" ∷ "incidents" ∷ [])
    then some incident
    else if one_of v ("runbook" ∷ "runbooks" ∷ [])
    then some runbook
    else if one_of v ("postmortem" ∷ "postmortems" ∷ [])
    then some postmortem
    else if one_of v ("migration-note" ∷ "migration_note" ∷ "migrationnote" ∷ "migration" ∷ [])
    then some migration_note
    else if one_of v ("caveat" ∷ "caveats" ∷ "workaround" ∷ [])
    then some caveat
    else if one_of v ("procedure" ∷ "procedures" ∷ [])
    then some procedure
    else if one_of v ("dead_end" ∷ "dead-end" ∷ "deadend" ∷ "dead_ends" ∷ [])
    then some dead_end
    else none

unfoldable pub normalize_engineering_type : String → Option EngineeringType
normalize_engineering_type value = engineering_type_of_word (to_lower (trim_space value))

-- The `default` case of the source's `switch` is not reached: `normalizeEngineeringType` returns
-- one of the eight types or "".
unfoldable pub validate_engineering_type : String → Bool → Result (Option EngineeringType)
validate_engineering_type value allow_empty = elim (normalize_engineering_type value) [
  | none ↦ if allow_empty then ok none else err entity_required
  | some entity ↦ ok (some entity)
]

abbrev accepted : Result (Option EngineeringType) → Option EngineeringType
accepted (ok e) = e
accepted (err x) = none

unfoldable pub infer_engineering_type_from_tags : List String → Option EngineeringType
unfolding validate_engineering_type
infer_engineering_type_from_tags [] = none
infer_engineering_type_from_tags (tag ∷ tags) =
    let rest = infer_engineering_type_from_tags tags in
    elim (accepted (validate_engineering_type tag true)) [ none ↦ rest | some e ↦ some e ]

unfoldable pub engineering_type_of : Memory → Option EngineeringType
unfolding validate_engineering_type
engineering_type_of m =
    elim (accepted (validate_engineering_type (text_at key_entity m.metadata) true)) [
      | none ↦ infer_engineering_type_from_tags m.tags
      | some e ↦ some e
    ]

unfoldable pub default_storage_type_for_engineering_type : Option EngineeringType → String
default_storage_type_for_engineering_type (some incident) = type_episodic
default_storage_type_for_engineering_type (some postmortem) = type_episodic
default_storage_type_for_engineering_type (some runbook) = type_procedural
default_storage_type_for_engineering_type (some procedure) = type_procedural
default_storage_type_for_engineering_type e = type_semantic

pub data LifecycleStatus : Type 0 where
  draft active outdated superseded canonical : LifecycleStatus

abbrev pub lifecycle_text : LifecycleStatus → String
lifecycle_text draft = "draft"
lifecycle_text active = "active"
lifecycle_text outdated = "outdated"
lifecycle_text superseded = "superseded"
lifecycle_text canonical = "canonical"

abbrev lifecycle_of_word : String → Option LifecycleStatus
lifecycle_of_word v =
    if one_of v ("draft" ∷ "proposed" ∷ "investigating" ∷ "pending" ∷ [])
    then some draft
    else if one_of v (
        "active" ∷ "accepted" ∷ "approved" ∷ "confirmed" ∷ "resolved" ∷ "verified" ∷ "current" ∷ [])
    then some active
    else if one_of v ("outdated" ∷ "deprecated" ∷ "stale" ∷ [])
    then some outdated
    else if one_of v ("superseded" ∷ "merged" ∷ "archived" ∷ "replaced" ∷ [])
    then some superseded
    else if v == "canonical"
    then some canonical
    else none

unfoldable pub normalize_lifecycle_status : String → Option LifecycleStatus
unfolding normalize_status
normalize_lifecycle_status value = lifecycle_of_word (normalize_status value)

-- rule 1 of `lifecycleSources`, which `normalizeEngineeringMetadata` tests too
unfoldable pub says_canonical : Dict String → Bool
unfolding metadata_bool
says_canonical metadata =
    metadata_bool metadata key_canonical
    || equal_fold (trim_space (text_at key_knowledge_layer metadata)) "canonical"

-- the rules of `lifecycleSources`, the first that matches
unfoldable pub lifecycle_source : Dict String → Option LifecycleStatus
lifecycle_source metadata =
    if says_canonical metadata
    then some canonical
    else elim (normalize_lifecycle_status (text_at key_lifecycle_status metadata)) [
      | some s ↦ some s
      | none ↦
          if metadata_bool metadata key_archived
          then some superseded
          else normalize_lifecycle_status (text_at key_status metadata)
    ]

-- `LifecycleStatusOf` reads a record's type and metadata only
unfoldable pub lifecycle_status : String → Dict String → LifecycleStatus
unfolding lifecycle_source
lifecycle_status type metadata =
    let by_type = if type == type_working then draft else active in
    if is_nil metadata then by_type else or_else (lifecycle_source metadata) by_type

abbrev pub lifecycle_status_of : Memory → LifecycleStatus
lifecycle_status_of m = lifecycle_status m.type m.metadata

-- trust.go
unfoldable pub is_archived_memory : Memory → Bool
is_archived_memory m = elim (lifecycle_status_of m) [
  | superseded ↦ true
  | _ ↦ metadata_bool m.metadata key_archived
]

unfoldable pub requires_review : Dict String → List String → Bool
requires_review metadata tags =
    metadata_bool metadata key_review_required
    || normalize_status (text_at key_status metadata) == "review_required"
    || has_tag tags "review:required"

unfoldable pub is_review_queue : Dict String → Bool
is_review_queue metadata =
    equal_fold (trim_space (text_at key_record_kind metadata)) review_queue_item

unfoldable pub provenance_of : Dict String → String
unfolding normalize_status
provenance_of metadata =
    let p = normalize_status (text_at key_provenance metadata) in
    if is_empty p then "conversational" else p

unfoldable pub provenance_is_trusted : String → Bool
provenance_is_trusted provenance = one_of provenance ("verified" ∷ "external" ∷ [])

-- write.go
unfoldable pub promotion_allowed : Dict String → Bool → Bool
unfolding provenance_of provenance_is_trusted
promotion_allowed metadata verified = verified || provenance_is_trusted (provenance_of metadata)

abbrev pub server_owned_trust_keys : List String
server_owned_trust_keys =
    key_provenance ∷ key_knowledge_layer ∷ key_last_verified_at ∷ key_canonical
    ∷ "canonical_promoted_at" ∷ []

abbrev says_canonical_status : String → String → Bool
says_canonical_status key value =
    (key == key_lifecycle_status || key == key_status)
    && elim (normalize_lifecycle_status value) [ some canonical ↦ true | _ ↦ false ]

-- one round of the loop of `CheckCallerMetadata`
abbrev refused_entry : String → String → Bool
refused_entry key value =
    if is_empty (trim_space value)
    then false
    else one_of key server_owned_trust_keys || says_canonical_status key value

unfoldable pub check_caller_metadata : Dict String → Result (Unit {0})
unfolding normalize_lifecycle_status
check_caller_metadata [] = ok tt
check_caller_metadata ((key, value) ∷ rest) =
    let others = check_caller_metadata rest in
    let k = trim_space key in if refused_entry k value then err (server_owned_key k) else others

-- ===== src/Memory/Metadata.antt =====
-- engineering.go: the normal form of metadata and tags that every write establishes.
pub mod Flags
use Prim.Native.String
use agent_memory_mcp.Base.{
  String, Bool, true, false, ◌||◌, Option, none, some, List, [], ◌∷◌, ◌++◌, ◌==◌, if◌then◌else◌,
}
use agent_memory_mcp.Text.{trim_space, is_empty}
use agent_memory_mcp.Dict.{Dict, insert, erase, text_at}
use agent_memory_mcp.Memory.Types.{
  Result, ok, err, ◌>>=◌, lifecycle_invalid, review_required_invalid, key_entity, key_service,
  key_severity, key_status, key_lifecycle_status, key_knowledge_layer, key_review_required,
  key_canonical,
}
use agent_memory_mcp.Memory.Policy.{normalize_tags, normalize_metadata}
use agent_memory_mcp.Memory.Engineering.{
  EngineeringType, entity_text, one_of, metadata_bool, normalize_status, validate_engineering_type,
  infer_engineering_type_from_tags, lifecycle_text, canonical, normalize_lifecycle_status,
  says_canonical,
}

-- the steps of `normalizeEngineeringMetadata`, in the order of the source
abbrev pub put_entity : Option EngineeringType → Dict String → Dict String
put_entity none n = n
put_entity (some e) n = insert key_entity (entity_text e) n

abbrev pub resolve_entity : Option EngineeringType → List String → Option EngineeringType
resolve_entity none tags = infer_engineering_type_from_tags tags
resolve_entity (some e) tags = some e

-- `status: review_required` becomes the review flag
unfoldable pub lift_review_status : Dict String → Dict String
lift_review_status n =
    if normalize_status (text_at key_status n) == "review_required"
    then erase key_status (insert key_review_required "true" n)
    else n

unfoldable pub lift_canonical_flag : Dict String → Dict String
lift_canonical_flag n =
    if says_canonical n then insert key_lifecycle_status (lifecycle_text canonical) n else n

unfoldable pub resolve_lifecycle : Dict String → Result (Dict String)
resolve_lifecycle n =
    let raw = text_at key_lifecycle_status n in
    elim (normalize_lifecycle_status raw) [
      | some s ↦ ok (insert key_lifecycle_status (lifecycle_text s) n)
      | none ↦ if is_empty (trim_space raw) then ok n else err (lifecycle_invalid raw)
    ]

unfoldable pub lifecycle_from_status : Dict String → Dict String
lifecycle_from_status n =
    if is_empty (text_at key_lifecycle_status n)
    then elim (normalize_lifecycle_status (text_at key_status n)) [
      | some s ↦ insert key_lifecycle_status (lifecycle_text s) n
      | none ↦ n
    ]
    else n

unfoldable pub stamp_canonical : Dict String → Dict String
stamp_canonical n =
    if text_at key_lifecycle_status n == lifecycle_text canonical
    then insert key_knowledge_layer "canonical" (insert key_canonical "true" n)
    else n

unfoldable pub resolve_review : Dict String → Result (Dict String)
resolve_review n =
    let raw = text_at key_review_required n in
    let flag = normalize_status raw in
    if is_empty flag || one_of flag ("0" ∷ "false" ∷ "no" ∷ [])
    then ok (erase key_review_required n)
    else if one_of flag ("1" ∷ "true" ∷ "yes" ∷ [])
    then ok (insert key_review_required "true" n)
    else err (review_required_invalid raw)

-- the last steps, from the metadata with its type, review and canonical flags lifted
unfoldable pub settle_lifecycle : Dict String → Result (Dict String)
settle_lifecycle n = do
  resolved ← resolve_lifecycle n
  resolve_review (stamp_canonical (lifecycle_from_status resolved))

abbrev pub with_entity : Option EngineeringType → List String → Dict String → Dict String
with_entity found tags n = put_entity (resolve_entity found tags) n

unfoldable pub normalize_engineering_metadata : Dict String → List String → Result (Dict String)
normalize_engineering_metadata metadata tags = do
  let normalized = normalize_metadata metadata
  found ← validate_engineering_type (text_at key_entity normalized) true
  settle_lifecycle (lift_canonical_flag (lift_review_status (with_entity found tags normalized)))

abbrev labelled : String → String → List String
labelled label value =
    let v = trim_space value in if is_empty v then [] else String.◌++◌ label v ∷ []

unfoldable pub normalize_engineering_tags : List String → Dict String → List String
normalize_engineering_tags tags metadata = normalize_tags (
    tags
    ++ (labelled "" (text_at key_entity metadata)
        ++ (labelled "service:" (text_at key_service metadata)
            ++ (labelled "severity:" (text_at key_severity metadata)
                ++ (labelled "status:" (text_at key_status metadata)
                    ++ (if metadata_bool metadata key_review_required
                        then "review:required" ∷ []
                        else []))))))

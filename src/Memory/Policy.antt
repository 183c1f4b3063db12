-- ===== src/Memory/Policy.antt =====
-- policy.go: the normal forms of types, tags and metadata; `TruncateRunes` of trust.go.
pub mod Tags
use Prim.Native.String
use agent_memory_mcp.Base.{
  ℕ, String, Bool, true, false, ◌||◌, Option, none, some, List, [], ◌∷◌, any, leb, ◌==◌,
  if◌then◌else◌,
}
use agent_memory_mcp.Text.{trim_space, is_empty, rune_count, take_runes, before}
use agent_memory_mcp.Dict.{Dict, insert}
use agent_memory_mcp.Memory.Types.{
  Memory, Result, ok, err, type_invalid, type_episodic, type_semantic, type_procedural,
  type_working,
}

abbrev pub is_known_type : String → Bool
is_known_type v =
    v == type_episodic || v == type_semantic || v == type_procedural || v == type_working

unfoldable pub validate_type : String → String → Result String
validate_type value default_type =
    let v = if is_empty value then default_type else value in
    if is_known_type v then ok v else err (type_invalid v)

-- _, ok := seen[tag]
abbrev pub seen_in : String → List String → Bool
seen_in t seen = any (λ s. s == t) seen

-- the loop of `NormalizeTags`: a tag that is blank or seen is passed over
unfoldable pub normalize_tags_from : List String → List String → List String
normalize_tags_from seen [] = []
normalize_tags_from seen (tag ∷ tags) =
    let t = trim_space tag in
    let skipped = normalize_tags_from seen tags in
    let kept = t ∷ normalize_tags_from (t ∷ seen) tags in
    if is_empty t || seen_in t seen then skipped else kept

unfoldable pub normalize_tags : List String → List String
unfolding normalize_tags_from
normalize_tags tags = normalize_tags_from [] tags

-- the loop of `NormalizeMetadata`
unfoldable pub normalize_metadata_from : Dict String → Dict String → Dict String
normalize_metadata_from normalized [] = normalized
normalize_metadata_from normalized ((key, value) ∷ rest) =
    let k = trim_space key in
    let v = trim_space value in
    normalize_metadata_from (if is_empty k || is_empty v then normalized else insert k v normalized)
      rest

unfoldable pub normalize_metadata : Dict String → Dict String
unfolding normalize_metadata_from
normalize_metadata metadata = normalize_metadata_from [] metadata

unfoldable pub truncate_runes : String → ℕ → String
truncate_runes s max_runes =
    let t = trim_space s in
    if leb (rune_count t) max_runes then t else String.◌++◌ (take_runes max_runes t) "..."

abbrev first_line : String → String
first_line value = elim (before 10 value) [ none ↦ value | some line ↦ trim_space line ]

unfoldable pub display_title : Memory → ℕ → String
unfolding truncate_runes
display_title m max_runes =
    let title = trim_space m.title in
    if is_empty title then truncate_runes (first_line (trim_space m.content)) max_runes else title

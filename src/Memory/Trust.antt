-- ===== src/Memory/Trust.antt =====
-- trust.go: confidence in a record, in hundredths, and who owns it by default. The source adds up
-- float64 values of two decimals.
pub mod Confidence
use agent_memory_mcp.Base.{
  ℕ, ◌+◌, ◌-◌, String, Bool, true, false, ◌&&◌, ◌||◌, not, Option, none, some, List, [], ◌∷◌, ◌==◌,
  ltb, if◌then◌else◌,
}
use agent_memory_mcp.Text.{trim_space, to_lower, is_empty}
use agent_memory_mcp.Dict.{Dict, text_at}
use agent_memory_mcp.Memory.Types.{
  Memory, type_episodic, type_semantic, type_procedural, type_working,
}
use agent_memory_mcp.Memory.Engineering.{
  one_of, LifecycleStatus, draft, active, outdated, superseded, canonical, engineering_type_of,
  entity_text,
}

unfoldable pub default_owner_for_memory_source : String → String
default_owner_for_memory_source source_type =
    if source_type == "decision"
    then "engineering"
    else if one_of source_type ("runbook" ∷ "procedure" ∷ "incident" ∷ "postmortem" ∷ [])
    then "operations"
    else if source_type == "migration-note"
    then "platform"
    else "unknown"

-- the entity of a cached record: its first tag that names one, else its type
unfoldable pub cached_memory_entity : String → List String → String
cached_memory_entity type [] = type
cached_memory_entity type (tag ∷ tags) =
    let t = to_lower (trim_space tag) in
    let rest = cached_memory_entity type tags in
    if one_of t ("decision" ∷ "runbook" ∷ "postmortem" ∷ "incident" ∷ []) then t else rest

unfoldable pub memory_entity : Memory → String
memory_entity m = elim (engineering_type_of m) [ none ↦ m.type | some e ↦ entity_text e ]

abbrev pub base_confidence : String → ℕ
base_confidence s =
    if s == "decision"
    then 90
    else if one_of s ("runbook" ∷ "procedure" ∷ type_procedural ∷ [])
    then 88
    else if s == "postmortem"
    then 86
    else if one_of s ("incident" ∷ type_episodic ∷ [])
    then 78
    else if s == "migration-note"
    then 84
    else if s == "caveat"
    then 68
    else if s == type_semantic
    then 72
    else if s == type_working
    then 55
    else 65

-- no sum of the adjustments is below 55 - 18 - 8
abbrev pub by_lifecycle : LifecycleStatus → ℕ → ℕ
by_lifecycle active c = c + 4
by_lifecycle draft c = c - 5
by_lifecycle outdated c = c - 10
by_lifecycle superseded c = c - 18
by_lifecycle canonical c = c + 5

abbrev is_canonical : LifecycleStatus → Bool
is_canonical canonical = true
is_canonical _ = false

unfoldable pub clamp_confidence : ℕ → ℕ
clamp_confidence c = if ltb c 20 then 20 else if ltb 99 c then 99 else c

-- the adjustments of a base: canonical layer, pending review, known owner
abbrev pub adjusted : LifecycleStatus → Bool → Bool → Bool → ℕ → ℕ
adjusted lifecycle layered review owned base =
    let c = by_lifecycle lifecycle base in
    let c' = if layered && not (is_canonical lifecycle) then c + 5 else c in
    let c'' = if review then c' - 8 else c' in if owned then c'' + 2 else c''

abbrev pub has_owner : String → Bool
has_owner owner = not (is_empty owner) && not (owner == "unknown")

unfoldable pub confidence_for_memory : String → LifecycleStatus → String → String → Bool → ℕ
unfolding clamp_confidence
confidence_for_memory source_type lifecycle owner layer review_required = clamp_confidence (
    adjusted lifecycle (layer == "canonical") review_required (has_owner owner)
      (base_confidence source_type))

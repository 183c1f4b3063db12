-- ===== src/Tests/Rules.antt =====
-- The rules of the package at concrete inputs.
use agent_memory_mcp.Base.{
  ℕ, ◌≤◌, ◌<◌, suc, String, ◌≡◌, refl, ◌↔◌, ◌⊎◌, true, false, some, List, [], ◌∷◌, arith, is_some,
}
use agent_memory_mcp.Base.Int.{pos}
use agent_memory_mcp.Text.{rune_count, trim_space}
use agent_memory_mcp.Text.Decimal.{atoi, itoa, max_int}
use agent_memory_mcp.Text.Decimal.RoundTrip.{atoi-itoa}
use agent_memory_mcp.Textfmt.{truncate}
use agent_memory_mcp.Textfmt.Bounds.{truncate-fits}
use agent_memory_mcp.Dict.{Dict, text_at}
use agent_memory_mcp.Memory.Types.{Time, Memory, ok, key_lifecycle_status}
use agent_memory_mcp.Memory.Engineering.{
  lifecycle_text, active, draft, canonical, says_canonical, is_review_queue,
}
use agent_memory_mcp.Memory.Metadata.{normalize_engineering_metadata}
use agent_memory_mcp.Memory.Metadata.Flags.{normalize_engineering_metadata-IsAgreed}
use agent_memory_mcp.Memory.Validate.{validate}
use agent_memory_mcp.Memory.Validate.Valid.{IsValid, validate-IsValid}
use agent_memory_mcp.Memory.ActivityLog.{is_activity_log_only, is_activity_log_for_selection}
use agent_memory_mcp.Memory.ActivityLog.Widening.{is_activity_log_only-selection}
use agent_memory_mcp.Memory.Trust.{confidence_for_memory}
use agent_memory_mcp.Memory.Trust.Confidence.{confidence_for_memory-Bounds}
use agent_memory_mcp.Memory.Sediment.{
  surface, episodic, character, layer_text, normalize_sediment_layer, layer_or_default,
  SedimentPolicy, SedimentTransition, aged_surface, age_hours, sub_time, defaults_applied, decide,
  referenced_by_count_from_metadata,
}
use agent_memory_mcp.Memory.Sediment.Ladder.{
  IsStep, decide-IsStep, normalize_sediment_layer-layer_text,
}
use agent_memory_mcp.Memory.Sediment.Decisions.{Eligible, decide_iff}
use agent_memory_mcp.Memory.Cache.{CachedMemory, Cache, empty_cache, to_cached_memory, cache_set}
use agent_memory_mcp.Memory.Cache.Coherence.{
  IsCoherent, empty_cache-IsCoherent, cache_set-IsCoherent,
}
use agent_memory_mcp.Tests.{note, stored_note}
use agent_memory_mcp.Tests.Program.{program}

-- a policy that leaves all thresholds to their defaults
abbrev no_policy : SedimentPolicy
no_policy = record {
  surface_to_episodic_age = pos 0;
  episodic_to_semantic_age = pos 0;
  semantic_to_character_refs = pos 0;
  character_demotion_age = pos 0;
  episodic_to_semantic_min = pos 0;
  surface_to_episodic_min = pos 0;
}

-- eight days after the record was created
abbrev week_later : Time
week_later = 691200000000001

abbrev read_note : Memory
read_note = record stored_note { targeted_access_count = 1 }

decide_iff_example : (is_some (decide read_note no_policy week_later) ≡ true) ↔ (
    (is_review_queue read_note.metadata ≡ false)
    × Eligible
        (layer_or_default read_note.sediment_layer)
        read_note
        (defaults_applied no_policy)
        week_later)
decide_iff_example = decide_iff read_note no_policy week_later

abbrev proposal : SedimentTransition
proposal = record {
  memory_id = "m-1";
  from = surface;
  to = episodic;
  reason = aged_surface;
  auto = true;
  score = age_hours (sub_time week_later 1);
}

proposal_is_made : decide read_note no_policy week_later ≡ some proposal
unfolding program
proposal_is_made = refl

decide-IsStep_example :
    IsStep proposal
    × (proposal.from ≡ layer_or_default read_note.sediment_layer)
    × (proposal.memory_id ≡ read_note.id)
    × ((proposal.auto ≡ false) ⊎ (layer_or_default read_note.sediment_layer ≡ surface))
decide-IsStep_example = decide-IsStep read_note no_policy week_later proposal proposal_is_made

normalize_sediment_layer-layer_text_example :
    normalize_sediment_layer (layer_text character) ≡ some character
normalize_sediment_layer-layer_text_example = normalize_sediment_layer-layer_text character

abbrev cached_note : CachedMemory
cached_note = to_cached_memory stored_note

abbrev one_cached : Cache
one_cached = cache_set cached_note empty_cache

one_cached-IsCoherent : IsCoherent one_cached
one_cached-IsCoherent = cache_set-IsCoherent cached_note empty_cache empty_cache-IsCoherent

-- the cached record in another context
abbrev moved : CachedMemory → CachedMemory
moved m = record m { context = "storage" }

note_is_valid :
    validate note ≡ ok (record stored_note { created_at = 0; updated_at = 0; accessed_at = 0 })
unfolding program
note_is_valid = refl

validate-IsValid_example :
    IsValid (record stored_note { created_at = 0; updated_at = 0; accessed_at = 0 })
validate-IsValid_example =
    validate-IsValid note
      {v = record stored_note { created_at = 0; updated_at = 0; accessed_at = 0 }} note_is_valid

abbrev flagged : Dict String
flagged = ("canonical", "true") ∷ []

abbrev settled : Dict String
settled =
    ("canonical", "true")
    ∷ ("lifecycle_status", "canonical")
    ∷ ("knowledge_layer", "canonical")
    ∷ []

flagged_is_settled : normalize_engineering_metadata flagged [] ≡ ok settled
unfolding program
flagged_is_settled = refl

normalize_engineering_metadata-IsAgreed_example :
    (text_at key_lifecycle_status settled ≡ lifecycle_text canonical)
    ↔ (says_canonical settled ≡ true)
normalize_engineering_metadata-IsAgreed_example =
    normalize_engineering_metadata-IsAgreed flagged [] {r = settled} flagged_is_settled

abbrev counted : Dict String
counted = ("referenced_by_count", " 19 ") ∷ []

counted_is_small : suc (referenced_by_count_from_metadata counted) ≤ max_int
unfolding program
counted_is_small = omega arith

confidence_for_memory-Bounds_example :
    (29 ≤ confidence_for_memory "working" draft "unknown" "raw" true)
    × (confidence_for_memory "working" draft "unknown" "raw" true ≤ 99)
confidence_for_memory-Bounds_example =
    confidence_for_memory-Bounds "working" draft "unknown" "raw" true

-- the gap is strict here
canonical_is_below :
    (confidence_for_memory "semantic" canonical "db" "canonical" false ≡ 79)
    × (confidence_for_memory "semantic" active "db" "canonical" false ≡ 83)
unfolding program
canonical_is_below = (refl, refl)

abbrev raw_tags : List String
raw_tags = " db" ∷ "" ∷ "db" ∷ "wal" ∷ []

truncate-fits_example :
    (rune_count (truncate "a long title" (pos 8)) ≤ 8)
    × ((◌≡◌ {A = ℕ} 8 0)
        ⊎ (8 < rune_count (trim_space "a long title"))
        ⊎ (truncate "a long title" (pos 8) ≡ trim_space "a long title"))
truncate-fits_example = truncate-fits "a long title" 8

atoi-itoa_example : atoi (itoa 1207) ≡ some (pos 1207)
atoi-itoa_example = atoi-itoa 1207 (omega arith)

abbrev log_body : String
log_body = "- Memory recall: db"

log_body_is_log : is_activity_log_only log_body ≡ true
unfolding program
log_body_is_log = refl

is_activity_log_only-selection_example : is_activity_log_for_selection log_body ≡ true
is_activity_log_only-selection_example = is_activity_log_only-selection log_body log_body_is_log

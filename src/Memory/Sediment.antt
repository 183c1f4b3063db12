-- ===== src/Memory/Sediment.antt =====
-- sediment.go: the four layers, the transition rules and their thresholds.
pub mod Ladder
pub mod Decisions
use agent_memory_mcp.Base.{
  ℕ, ◌*◌, ◌-◌, ◌^◌, min, String, Bool, true, false, ◌||◌, Option, none, some, is_nil, ltb, ◌==◌,
  or_else, if◌then◌else◌,
}
use agent_memory_mcp.Base.Int.{ℤ, pos, negsuc, sub_ℕ, lebℤ, ltbℤ}
use agent_memory_mcp.Text.{trim_space, to_lower, equal_fold}
use agent_memory_mcp.Text.Decimal.{atoi}
use agent_memory_mcp.Dict.{Dict, text_at}
use agent_memory_mcp.Memory.Types.{
  Time, is_zero, Memory, type_episodic, type_working, key_knowledge_layer, key_lifecycle_status,
  key_canonical, key_referenced_by_count,
}
use agent_memory_mcp.Memory.Engineering.{
  LifecycleStatus, draft, active, outdated, superseded, canonical, lifecycle_text,
  lifecycle_status_of, metadata_bool, is_review_queue,
}

pub data SedimentLayer : Type 0 where
  surface episodic semantic character : SedimentLayer

abbrev pub layer_text : SedimentLayer → String
layer_text surface = "surface"
layer_text episodic = "episodic"
layer_text semantic = "semantic"
layer_text character = "character"

abbrev pub default_sediment_layer : SedimentLayer
default_sediment_layer = surface

abbrev layer_of_word : String → Option SedimentLayer
layer_of_word s =
    if s == layer_text surface
    then some surface
    else if s == layer_text episodic
    then some episodic
    else if s == layer_text semantic
    then some semantic
    else if s == layer_text character
    then some character
    else none

-- "" is none
unfoldable pub normalize_sediment_layer : String → Option SedimentLayer
normalize_sediment_layer s = layer_of_word (to_lower (trim_space s))

unfoldable pub is_valid_sediment_layer : String → Bool
is_valid_sediment_layer s = elim (normalize_sediment_layer s) [ none ↦ false | some l ↦ true ]

-- the layer of a stored text; one that is missing or unknown is the default
abbrev pub layer_or_default : String → SedimentLayer
layer_or_default s = or_else (normalize_sediment_layer s) default_sediment_layer

-- hours in nanoseconds
abbrev hours : ℕ → ℕ
hours n = n * 3600000000000

-- time.Time.Sub, which saturates at the ends of int64
abbrev max_duration : ℕ
max_duration = 2 ^ 63 - 1

abbrev saturate : ℤ → ℤ
saturate (pos n) = pos (min n max_duration)
saturate (negsuc n) = negsuc (min n max_duration)

unfoldable pub sub_time : Time → Time → ℤ
sub_time t u = saturate (sub_ℕ t u)

pub data Score : Type 0 where
  age_hours : ℤ → Score  -- `age.Hours()` of an age in nanoseconds
  references : ℕ → Score
  one : Score

pub data Reason : Type 0 where
  aged_surface aged_episodic canonical_promotion character_decay : Reason

pub record SedimentTransition : Type 0 where
  pub memory_id : String
  pub from : SedimentLayer
  pub to : SedimentLayer
  pub reason : Reason
  pub auto : Bool
  pub score : Score

-- `Now` is the argument `now` of the functions below
pub record SedimentPolicy : Type 0 where
  pub surface_to_episodic_age : ℤ
  pub episodic_to_semantic_age : ℤ
  pub semantic_to_character_refs : ℤ
  pub character_demotion_age : ℤ
  pub episodic_to_semantic_min : ℤ
  pub surface_to_episodic_min : ℤ

abbrev positive_or : ℕ → ℤ → ℤ
positive_or d n = if lebℤ n (pos 0) then pos d else n

unfoldable pub defaults_applied : SedimentPolicy → SedimentPolicy
defaults_applied p = record {
  surface_to_episodic_age = positive_or (hours 168) p.surface_to_episodic_age;
  episodic_to_semantic_age = positive_or (hours 720) p.episodic_to_semantic_age;
  semantic_to_character_refs = positive_or 20 p.semantic_to_character_refs;
  character_demotion_age = positive_or (hours 2160) p.character_demotion_age;
  episodic_to_semantic_min = positive_or 3 p.episodic_to_semantic_min;
  surface_to_episodic_min = positive_or 1 p.surface_to_episodic_min;
}

abbrev pub non_negative : Option ℤ → ℕ
non_negative none = 0
non_negative (some (pos n)) = n
non_negative (some (negsuc n)) = 0

-- refcount.go
unfoldable pub referenced_by_count_from_metadata : Dict String → ℕ
referenced_by_count_from_metadata metadata =
    non_negative (atoi (trim_space (text_at key_referenced_by_count metadata)))

-- the case of each layer in `Decide`
abbrev decide_surface : Memory → SedimentPolicy → Time → Option SedimentTransition
decide_surface m policy now =
    let age = sub_time now m.created_at in
    if ltbℤ age policy.surface_to_episodic_age
    then none
    else if ltbℤ (pos m.targeted_access_count) policy.surface_to_episodic_min
    then none
    else some (record {
      memory_id = m.id;
      from = surface;
      to = episodic;
      reason = aged_surface;
      auto = true;
      score = age_hours age;
    })

abbrev decide_episodic : Memory → SedimentPolicy → Time → Option SedimentTransition
decide_episodic m policy now =
    let age = sub_time now m.created_at in
    if ltbℤ age policy.episodic_to_semantic_age
    then none
    else if ltbℤ (pos m.targeted_access_count) policy.episodic_to_semantic_min
    then none
    else some (record {
      memory_id = m.id;
      from = episodic;
      to = semantic;
      reason = aged_episodic;
      auto = false;
      score = age_hours age;
    })

abbrev to_character : Memory → Score → SedimentTransition
to_character m score = record {
  memory_id = m.id;
  from = semantic;
  to = character;
  reason = canonical_promotion;
  auto = false;
  score = score;
}

abbrev decide_semantic : Memory → SedimentPolicy → Option SedimentTransition
decide_semantic m policy =
    let refs = referenced_by_count_from_metadata m.metadata in
    let by_refs =
      if lebℤ policy.semantic_to_character_refs (pos refs)
      then some (to_character m (references refs))
      else none in
    elim (lifecycle_status_of m) [ canonical ↦ some (to_character m one) | _ ↦ by_refs ]

abbrev decide_character : Memory → SedimentPolicy → Time → Option SedimentTransition
decide_character m policy now =
    let age = sub_time now m.accessed_at in
    if is_zero m.accessed_at
    then none
    else if ltbℤ age policy.character_demotion_age
    then none
    else some (record {
      memory_id = m.id;
      from = character;
      to = semantic;
      reason = character_decay;
      auto = false;
      score = age_hours age;
    })

abbrev decide_layer : SedimentLayer → Memory → SedimentPolicy → Time → Option SedimentTransition
decide_layer surface m policy now = decide_surface m policy now
decide_layer episodic m policy now = decide_episodic m policy now
decide_layer semantic m policy now = decide_semantic m policy
decide_layer character m policy now = decide_character m policy now

unfoldable pub decide : Memory → SedimentPolicy → Time → Option SedimentTransition
decide m policy now =
    if is_review_queue m.metadata
    then none
    else decide_layer (layer_or_default m.sediment_layer) m (defaults_applied policy) now

unfoldable pub demote_one_step : SedimentLayer → Option SedimentLayer
demote_one_step character = some semantic
demote_one_step semantic = some episodic
demote_one_step episodic = some surface
demote_one_step surface = none

unfoldable pub backfill_sediment_layer : String → Dict String → SedimentLayer
backfill_sediment_layer type metadata =
    if metadata_bool metadata key_canonical
      || equal_fold (trim_space (text_at key_knowledge_layer metadata)) "canonical"
      || equal_fold (trim_space (text_at key_lifecycle_status metadata)) (lifecycle_text canonical)
    then character
    else if type == type_working
    then surface
    else if type == type_episodic
    then episodic
    else semantic

-- ===== src/Memory/Engineering/Lifecycle.antt =====
-- The names of types and statuses round trip.
use agent_memory_mcp.Base.{String, ◌≡◌, refl, true, some, arith}
use agent_memory_mcp.Text.{to_lower, trim_space}
use agent_memory_mcp.Memory.Types.{ok}
use agent_memory_mcp.Memory.Engineering.{
  EngineeringType, decision, incident, runbook, postmortem, migration_note, caveat, procedure,
  dead_end, entity_text, normalize_engineering_type, validate_engineering_type, LifecycleStatus,
  draft, active, outdated, superseded, canonical, lifecycle_text, normalize_lifecycle_status,
}

-- The stored text of an engineering type is read back as that type.
pub normalize_engineering_type-entity_text :
    (e : EngineeringType) → normalize_engineering_type (entity_text e) ≡ some e
unfolding normalize_engineering_type to_lower trim_space
normalize_engineering_type-entity_text decision = refl
normalize_engineering_type-entity_text incident = refl
normalize_engineering_type-entity_text runbook = refl
normalize_engineering_type-entity_text postmortem = refl
normalize_engineering_type-entity_text migration_note = refl
normalize_engineering_type-entity_text caveat = refl
normalize_engineering_type-entity_text procedure = refl
normalize_engineering_type-entity_text dead_end = refl

pub normalize_lifecycle_status-lifecycle_text :
    (s : LifecycleStatus) → normalize_lifecycle_status (lifecycle_text s) ≡ some s
unfolding normalize_lifecycle_status to_lower trim_space
normalize_lifecycle_status-lifecycle_text draft = refl
normalize_lifecycle_status-lifecycle_text active = refl
normalize_lifecycle_status-lifecycle_text outdated = refl
normalize_lifecycle_status-lifecycle_text superseded = refl
normalize_lifecycle_status-lifecycle_text canonical = refl

-- Where an empty type is allowed, no text at all is refused: a text that names no engineering type
-- is accepted as no type.
pub validate_engineering_type_accepts :
    (value : String) → validate_engineering_type value true ≡ ok (normalize_engineering_type value)
unfolding validate_engineering_type
validate_engineering_type_accepts value = ground arith

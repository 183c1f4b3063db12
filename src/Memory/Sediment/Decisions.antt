-- ===== src/Memory/Sediment/Decisions.antt =====
-- When `Decide` proposes a transition, in terms of ages, counters and lifecycle.
use agent_memory_mcp.Base.{
  ◌≡◌, ◌≢◌, refl, true, false, ◌⊎◌, ◌↔◌, arith, inl, inr, Bool-cases, is_some,
}
use agent_memory_mcp.Base.Int.{pos, ◌<ℤ◌, ◌≤ℤ◌}
use agent_memory_mcp.Memory.Types.{Time, Memory}
use agent_memory_mcp.Memory.Engineering.{canonical, is_review_queue, lifecycle_status_of}
use agent_memory_mcp.Memory.Sediment.{
  SedimentLayer, surface, episodic, semantic, character, layer_or_default, SedimentPolicy,
  defaults_applied, decide, decide_layer, sub_time, referenced_by_count_from_metadata,
}

-- what the documentation of `Decide` asks of a record in each layer, under the effective policy
abbrev pub Eligible : SedimentLayer → Memory → SedimentPolicy → Time → Type 0
Eligible surface m p now =
    (p.surface_to_episodic_age ≤ℤ sub_time now m.created_at)
    × (p.surface_to_episodic_min ≤ℤ pos m.targeted_access_count)
Eligible episodic m p now =
    (p.episodic_to_semantic_age ≤ℤ sub_time now m.created_at)
    × (p.episodic_to_semantic_min ≤ℤ pos m.targeted_access_count)
Eligible semantic m p now =
    (lifecycle_status_of m ≡ canonical)
    ⊎ (p.semantic_to_character_refs ≤ℤ pos (referenced_by_count_from_metadata m.metadata))
Eligible character m p now =
    (m.accessed_at ≢ 0) × (p.character_demotion_age ≤ℤ sub_time now m.accessed_at)

decide_layer-Eligible :
    (l : SedimentLayer) (m : Memory) (p : SedimentPolicy) (now : Time)
    → is_some (decide_layer l m p now) ≡ true
    → Eligible l m p now
decide_layer-Eligible surface m p now h = ground arith
decide_layer-Eligible episodic m p now h = ground arith
decide_layer-Eligible semantic m p now h = ground arith
decide_layer-Eligible character m p now h = ground arith

Eligible-decide_layer :
    (l : SedimentLayer) (m : Memory) (p : SedimentPolicy) (now : Time)
    → Eligible l m p now
    → is_some (decide_layer l m p now) ≡ true
Eligible-decide_layer surface m p now h = ground arith
Eligible-decide_layer episodic m p now h = ground arith
Eligible-decide_layer semantic m p now h = ground arith
Eligible-decide_layer character m p now h = ground arith

-- `Decide` proposes a transition exactly when the record is no review-queue item and meets the
-- conditions of its layer under the policy with its defaults filled in.
pub decide_iff :
    (m : Memory) (p : SedimentPolicy) (now : Time)
    → (is_some (decide m p now) ≡ true) ↔ (
        (is_review_queue m.metadata ≡ false)
        × Eligible (layer_or_default m.sediment_layer) m (defaults_applied p) now)
unfolding decide
decide_iff m p now = elim (Bool-cases (is_review_queue m.metadata)) [
  | inl e ↦ rw e ((λ h. cc), (λ h. cc (h.0)))
  | inr e ↦ rw e (
    (λ h. (refl, decide_layer-Eligible _ m (defaults_applied p) now h)),
    (λ h. Eligible-decide_layer _ m (defaults_applied p) now h.1),
  )
]

-- every threshold of the policy is positive
pub record IsPositive (p : SedimentPolicy) : Type 0 where
  pub surface_age : pos 0 <ℤ p.surface_to_episodic_age
  pub episodic_age : pos 0 <ℤ p.episodic_to_semantic_age
  pub refs : pos 0 <ℤ p.semantic_to_character_refs
  pub demotion_age : pos 0 <ℤ p.character_demotion_age
  pub episodic_min : pos 0 <ℤ p.episodic_to_semantic_min
  pub surface_min : pos 0 <ℤ p.surface_to_episodic_min

-- The defaults make every threshold positive, and change nothing when they are applied again.
pub defaults_applied-IsPositive :
    (p : SedimentPolicy)
    → IsPositive (defaults_applied p) × (defaults_applied (defaults_applied p) ≡ defaults_applied p)
unfolding defaults_applied
defaults_applied-IsPositive p = (ground arith, kept (defaults_applied p) (ground arith))
  where
    kept : (p : SedimentPolicy) → IsPositive p → defaults_applied p ≡ p
    kept p h = ground arith

-- ===== src/Memory/Store/Canonical/Raised.antt =====
-- How important a promoted record is, and where it lies.
use agent_memory_mcp.Base.{ℕ, ◌≤◌, String, ◌≡◌, refl, Bool, true, false, arith, ltb, if◌then◌else◌}
use agent_memory_mcp.Base.Int.{ℤ, pos, negsuc}
use agent_memory_mcp.Memory.Types.{Time, Memory, ok}
use agent_memory_mcp.Memory.Sediment.{character, layer_text}
use agent_memory_mcp.Memory.Sediment.Ladder.{normalize_sediment_layer-layer_text}
use agent_memory_mcp.Memory.Validate.{
  validate, validate_layer, importance_out_of_range, require_importance,
}
use agent_memory_mcp.Memory.Validate.Valid.{validate-Steps}
use agent_memory_mcp.Memory.World.{Env}
use agent_memory_mcp.Memory.Store.Canonical.{promote, raise_importance}

raise_importance_lem :
    (i n : ℤ)
    → require_importance (raise_importance 95 i) ≡ ok n
    → (k : ℕ) × (n ≡ pos k) × (95 ≤ k) × (k ≤ 100)
unfolding importance_out_of_range
raise_importance_lem (pos k) n h = split k (ltb k 95) refl h
  where
    split :
        (k : ℕ) (b : Bool)
        → ltb k 95 ≡ b
        → require_importance (if b then pos 95 else pos k) ≡ ok n
        → (j : ℕ) × (n ≡ pos j) × (95 ≤ j) × (j ≤ 100)
    split k true e g = (95, ground arith, omega arith, omega arith)
    split k false e g = (k, ground arith, ground arith, ground arith)
raise_importance_lem (negsuc k) n h = (95, ground arith, omega arith, omega arith)

character_is_kept :
    (v : String) → validate_layer (layer_text character) ≡ ok v → v ≡ layer_text character
unfolding validate_layer
character_is_kept v h = ground (arith, normalize_sediment_layer-layer_text character)

-- A promoted record that is valid, so may be saved, has an importance from 0.95 to 1 and lies in the
-- character layer, wherever it was before.
pub promote-IsRaised :
    (env : Env) (owner : String) (verified : Bool) (m : Memory) (canonical_now updated : Time)
    {v : Memory}
    → validate (promote env owner verified m canonical_now updated) ≡ ok v
    → ((k : ℕ) × (v.importance ≡ pos k) × (95 ≤ k) × (k ≤ 100))
      × (v.sediment_layer ≡ layer_text character)
unfolding promote
promote-IsRaised env owner verified m canonical_now updated {v} h =
    let s = validate-Steps (promote env owner verified m canonical_now updated) v h in
    (
      raise_importance_lem m.importance v.importance s.importance,
      character_is_kept v.sediment_layer s.layer,
    )

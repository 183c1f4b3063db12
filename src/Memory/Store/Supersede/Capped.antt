-- ===== src/Memory/Store/Supersede/Capped.antt =====
-- How important a retired record is, and until when it was valid.
use agent_memory_mcp.Base.{
  ℕ, ◌≤◌, String, ◌≡◌, refl, Bool, true, false, some, arith, ltb, if◌then◌else◌,
}
use agent_memory_mcp.Base.Int.{ℤ, pos, negsuc}
use agent_memory_mcp.Memory.Types.{Time, Memory, ok}
use agent_memory_mcp.Memory.Validate.{validate, importance_out_of_range, require_importance}
use agent_memory_mcp.Memory.Validate.Valid.{validate-Steps}
use agent_memory_mcp.Memory.World.{Env}
use agent_memory_mcp.Memory.Store.Writes.Agreement.{validate-SameRow}
use agent_memory_mcp.Memory.Store.Supersede.{retire, cap_importance}

cap_importance_lem :
    (i n : ℤ) → require_importance (cap_importance 25 i) ≡ ok n → (k : ℕ) × (n ≡ pos k) × (k ≤ 25)
unfolding importance_out_of_range
cap_importance_lem (pos k) n h = split k (ltb 25 k) refl h
  where
    split :
        (k : ℕ) (b : Bool)
        → ltb 25 k ≡ b
        → require_importance (if b then pos 25 else pos k) ≡ ok n
        → (j : ℕ) × (n ≡ pos j) × (j ≤ 25)
    split k true e g = (25, ground arith, omega arith)
    split k false e g = (k, ground arith, ground arith)
cap_importance_lem (negsuc k) n h = absurd (ground arith)

-- A retired record that is valid, so may be saved, has an importance of at most 0.25 and is valid until
-- the time of its retirement.
pub retire-IsCapped :
    (env : Env) (reason superseded_by : String) (m : Memory) (now : Time) {v : Memory}
    → validate (retire env reason superseded_by m now) ≡ ok v
    → ((k : ℕ) × (v.importance ≡ pos k) × (k ≤ 25)) × (v.valid_until ≡ some now)
unfolding retire
retire-IsCapped env reason superseded_by m now {v} h =
    let retired = retire env reason superseded_by m now in
    (
      cap_importance_lem m.importance v.importance (validate-Steps retired v h).importance,
      (validate-SameRow retired v h).valid_until,
    )

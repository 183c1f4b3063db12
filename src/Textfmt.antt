-- ===== src/Textfmt.antt =====
-- internal/textfmt/truncate.go: shortening by code points. Signed limits are integers.
pub mod Bounds
use Prim.Native.String
use agent_memory_mcp.Base.{ℕ, zero, suc, ◌-◌, String, leb, ltb, if◌then◌else◌}
use agent_memory_mcp.Base.Int.{ℤ, pos, negsuc}
use agent_memory_mcp.Text.{trim_space, rune_count, take_runes}

unfoldable pub truncate_suffix : String → ℤ → String → String
truncate_suffix s (negsuc n) suffix = s
truncate_suffix s (pos n) suffix =
    if leb (rune_count s) n then s else String.◌++◌ (take_runes n s) suffix

unfoldable pub truncate : String → ℤ → String
truncate s (negsuc n) = String.[]
truncate s (pos zero) = String.[]
truncate s (pos (suc n)) =
    let t = trim_space s in
    if leb (rune_count t) (suc n)
    then t
    else if ltb (suc n) 3
    then take_runes (suc n) t
    else String.◌++◌ (take_runes (suc n - 3) t) "..."

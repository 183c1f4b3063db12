-- ===== src/Textfmt/Bounds.antt =====
-- What is shortened fits.
use agent_memory_mcp.Base.{
  ℕ, zero, suc, ◌+◌, ◌-◌, ◌≤◌, ◌<◌, ◌⊎◌, String, ◌≡◌, refl, arith, leb, Bool-cases, inl, inr,
}
use agent_memory_mcp.Base.Int.{pos}
use agent_memory_mcp.Text.{trim_space, rune_count, take_runes}
use agent_memory_mcp.Text.Laws.{rune_count-take_runes-le, rune_count-append}
use agent_memory_mcp.Textfmt.{truncate, truncate_suffix}

-- `Truncate` returns at most `maxRunes` code points, and, unless the limit is 0, the trimmed text where
-- that fits.
pub truncate-fits :
    (s : String) (n : ℕ)
    → (rune_count (truncate s (pos n)) ≤ n)
      × ((n ≡ 0) ⊎ (n < rune_count (trim_space s)) ⊎ (truncate s (pos n) ≡ trim_space s))
unfolding truncate
truncate-fits s zero = (omega arith, inl refl)
truncate-fits s (suc n) = (
  ground (
    arith,
    rune_count-take_runes-le (suc n) (trim_space s),
    rune_count-take_runes-le (suc n - 3) (trim_space s),
    rune_count-append (take_runes (suc n - 3) (trim_space s)) "...",
  ),
  elim (Bool-cases (leb (rune_count (trim_space s)) (suc n))) [
    | inl e ↦ inr (inr (rw e refl))
    | inr e ↦ inr (inl (ground arith))
  ],
)

-- `TruncateSuffix` returns at most `maxRunes` code points and the suffix, and the text itself where that
-- fits.
pub truncate_suffix-fits :
    (s suffix : String) (n : ℕ)
    → (rune_count (truncate_suffix s (pos n) suffix) ≤ n + rune_count suffix)
      × ((n < rune_count s) ⊎ (truncate_suffix s (pos n) suffix ≡ s))
unfolding truncate_suffix
truncate_suffix-fits s suffix n = (
  ground (arith, rune_count-take_runes-le n s, rune_count-append (take_runes n s) suffix),
  elim (Bool-cases (leb (rune_count s) n)) [ inl e ↦ inr (rw e refl) | inr e ↦ inl (ground arith) ],
)

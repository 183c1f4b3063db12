-- ===== src/Text/Laws.antt =====
-- Trimming and lower case, once done, change nothing.
use Prim.Native.Char.{Char, char, code}
use Prim.Native.String
use text.Mathlib.TextEquality.{Char-path}
use Prim.Native.String.append
use agent_memory_mcp.Base.{
  ℕ, zero, suc, ◌+◌, ◌≤◌, String, ◌≡◌, refl, ap, ap₂, ◌∙◌, true, inl, inr, arith, Bool-cases,
}
use agent_memory_mcp.Text.{
  lower_code, lower_char, to_lower, is_space, is_empty, trim_left, trim_right, trim_space,
  rune_count, take_runes,
}

lower_code_idem : (n : ℕ) → lower_code (lower_code n) ≡ lower_code n
unfolding lower_code
lower_code_idem n = ground arith

lower_char_idem : (c : Char) → lower_char (lower_char c) ≡ lower_char c
unfolding lower_char
lower_char_idem (char n p) = Char-path _ _ (lower_code_idem n)

pub to_lower_idem : (s : String) → to_lower (to_lower s) ≡ to_lower s
unfolding to_lower
to_lower_idem String.[] = refl
to_lower_idem (String.◌∷◌ c s) = ap₂ String.◌∷◌ (lower_char_idem c) (to_lower_idem s)

trim_left_idem : (s : String) → trim_left (trim_left s) ≡ trim_left s
unfolding trim_left
trim_left_idem String.[] = refl
trim_left_idem (String.◌∷◌ c s) = ground (arith, trim_left_idem s)

trim_right_idem : (s : String) → trim_right (trim_right s) ≡ trim_right s
unfolding trim_right
trim_right_idem String.[] = refl
trim_right_idem (String.◌∷◌ c s) = ground (arith, trim_right_idem s)

-- cutting the right end brings no space to the left end
trim_left-trim_right :
    (s : String) → trim_left (trim_right (trim_left s)) ≡ trim_right (trim_left s)
unfolding trim_left trim_right
trim_left-trim_right String.[] = refl
trim_left-trim_right (String.◌∷◌ c s) = elim (Bool-cases (is_space (code c))) [
  | inl e ↦ rw e (trim_left-trim_right s)
  | inr e ↦ rw (e, e, e)
]

pub trim_space_idem : (s : String) → trim_space (trim_space s) ≡ trim_space s
unfolding trim_space
trim_space_idem s = ap trim_right (trim_left-trim_right s) ∙ trim_right_idem (trim_left s)

pub is_empty_iff : (s : String) → is_empty s ≡ true → s ≡ ""
is_empty_iff String.[] h = refl
is_empty_iff (String.◌∷◌ c s) h = cc

pub rune_count-trim_left-le : (s : String) → rune_count (trim_left s) ≤ rune_count s
unfolding trim_left
rune_count-trim_left-le String.[] = omega arith
rune_count-trim_left-le (String.◌∷◌ c s) = ground (arith, rune_count-trim_left-le s)

pub rune_count-take_runes-le : (n : ℕ) (s : String) → rune_count (take_runes n s) ≤ n
rune_count-take_runes-le zero s = omega arith
rune_count-take_runes-le (suc n) String.[] = omega arith
rune_count-take_runes-le (suc n) (String.◌∷◌ c s) = omega (arith, rune_count-take_runes-le n s)

pub rune_count-append : (s t : String) → rune_count (String.◌++◌ s t) ≡ rune_count s + rune_count t
rune_count-append String.[] t = rw append.nil (omega arith)
rune_count-append (String.◌∷◌ c s) t = rw append.cons (omega (arith, rune_count-append s t))

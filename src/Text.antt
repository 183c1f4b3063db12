-- ===== src/Text.antt =====
-- What the program uses of Go's `strings` and `unicode`, on texts that are valid UTF-8.
-- `ToLower` and `EqualFold` are the simple mappings of the ASCII letters, and of the three other
-- code points whose lower case or folding is an ASCII letter; all other code points map to themselves.
pub mod Laws
pub mod Decimal
use Prim.Native.Nat.{compare, Ordering}
use Prim.Native.Char.{Char, char, code, IsScalar}
use Prim.Native.String
use agent_memory_mcp.Base.{
  ℕ, zero, suc, ◌+◌, ◌-◌, ◌<◌, String, ◌≡◌, Bool, true, false, ◌&&◌, ◌||◌, not, List, [], ◌∷◌,
  Option, none, some, inl, inr, arith, ◌==◌, leb, nat_eq, if◌then◌else◌, Bool-cases,
}

-- unicode.ToLower
unfoldable pub lower_code : ℕ → ℕ
lower_code n =
    if leb 65 n && leb n 90
    then n + 32
    else if nat_eq n 0x130
    then 0x69
    else if nat_eq n 0x212a
    then 0x6b
    else n

-- the least member of a code point's folding orbit that is a small letter
unfoldable pub fold_code : ℕ → ℕ
fold_code n =
    if leb 65 n && leb n 90
    then n + 32
    else if nat_eq n 0x17f
    then 0x73
    else if nat_eq n 0x212a
    then 0x6b
    else n

pub small_IsScalar : (n : ℕ) → n < 55296 → IsScalar n
small_IsScalar n h = let e : compare n 55296 ≡ Ordering.lt = ground arith in rw e tt

pub lower_code-IsScalar : (n : ℕ) → IsScalar n → IsScalar (lower_code n)
unfolding lower_code
lower_code-IsScalar n p = elim (Bool-cases (leb 65 n && leb n 90)) [
  | inl e ↦ rw e (small_IsScalar (n + 32) (ground arith))
  | inr e ↦ rw e (elim (Bool-cases (nat_eq n 0x130)) [
    | inl e' ↦ rw e' tt
    | inr e' ↦
        rw e' (elim (Bool-cases (nat_eq n 0x212a)) [ inl e'' ↦ rw e'' tt | inr e'' ↦ rw e'' p ])
  ])
]

pub fold_code-IsScalar : (n : ℕ) → IsScalar n → IsScalar (fold_code n)
unfolding fold_code
fold_code-IsScalar n p = elim (Bool-cases (leb 65 n && leb n 90)) [
  | inl e ↦ rw e (small_IsScalar (n + 32) (ground arith))
  | inr e ↦ rw e (elim (Bool-cases (nat_eq n 0x17f)) [
    | inl e' ↦ rw e' tt
    | inr e' ↦
        rw e' (elim (Bool-cases (nat_eq n 0x212a)) [ inl e'' ↦ rw e'' tt | inr e'' ↦ rw e'' p ])
  ])
]

unfoldable pub lower_char : Char → Char
unfolding lower_code
lower_char (char n p) = char (lower_code n) (lower_code-IsScalar n p)

unfoldable pub fold_char : Char → Char
unfolding fold_code
fold_char (char n p) = char (fold_code n) (fold_code-IsScalar n p)

-- strings.ToLower
unfoldable pub to_lower : String → String
unfolding lower_char
to_lower String.[] = String.[]
to_lower (String.◌∷◌ c s) = String.◌∷◌ (lower_char c) (to_lower s)

unfoldable pub fold : String → String
unfolding fold_char
fold String.[] = String.[]
fold (String.◌∷◌ c s) = String.◌∷◌ (fold_char c) (fold s)

-- strings.EqualFold
unfoldable pub equal_fold : String → String → Bool
unfolding fold
equal_fold s t = fold s == fold t

-- unicode.IsSpace
unfoldable pub is_space : ℕ → Bool
is_space n =
    leb 9 n && leb n 13
    || nat_eq n 32
    || nat_eq n 0x85
    || nat_eq n 0xa0
    || nat_eq n 0x1680
    || leb 0x2000 n && leb n 0x200a
    || nat_eq n 0x2028
    || nat_eq n 0x2029
    || nat_eq n 0x202f
    || nat_eq n 0x205f
    || nat_eq n 0x3000

-- s == ""
abbrev pub is_empty : String → Bool
is_empty String.[] = true
is_empty (String.◌∷◌ c s) = false

unfoldable pub trim_left : String → String
unfolding is_space
trim_left String.[] = String.[]
trim_left (String.◌∷◌ c s) = if is_space (code c) then trim_left s else String.◌∷◌ c s

-- a code point before a trimmed rest
abbrev pub trim_cons : Char → String → String
trim_cons c r = if is_space (code c) && is_empty r then String.[] else String.◌∷◌ c r

unfoldable pub trim_right : String → String
unfolding is_space
trim_right String.[] = String.[]
trim_right (String.◌∷◌ c s) = trim_cons c (trim_right s)

-- strings.TrimSpace
unfoldable pub trim_space : String → String
unfolding trim_left trim_right
trim_space s = trim_right (trim_left s)

-- utf8.RuneCountInString
abbrev pub rune_count : String → ℕ
rune_count String.[] = 0
rune_count (String.◌∷◌ c s) = suc (rune_count s)

-- []rune(s)[:n]
abbrev pub take_runes : ℕ → String → String
take_runes zero s = String.[]
take_runes (suc n) String.[] = String.[]
take_runes (suc n) (String.◌∷◌ c s) = String.◌∷◌ c (take_runes n s)

-- strings.CutPrefix: the rest behind the prefix
unfoldable pub cut_prefix : String → String → Option String
cut_prefix s String.[] = some s
cut_prefix String.[] (String.◌∷◌ d t) = none
cut_prefix (String.◌∷◌ c s) (String.◌∷◌ d t) =
    let rest = cut_prefix s t in if nat_eq (code c) (code d) then rest else none

-- s[:i] for i = strings.IndexByte(s, b), at an ASCII byte; none if the byte does not occur
unfoldable pub before : ℕ → String → Option String
before b String.[] = none
before b (String.◌∷◌ c s) =
    if nat_eq (code c) b
    then some String.[]
    else elim (before b s) [ none ↦ none | some t ↦ some (String.◌∷◌ c t) ]

abbrev push_front : Char → List String → List String
push_front c [] = (String.◌∷◌ c String.[]) ∷ []
push_front c (part ∷ parts) = (String.◌∷◌ c part) ∷ parts

-- strings.Split at a one-byte separator
unfoldable pub split : ℕ → String → List String
split b String.[] = String.[] ∷ []
split b (String.◌∷◌ c s) =
    let parts = split b s in if nat_eq (code c) b then String.[] ∷ parts else push_front c parts

-- the texts of a list, one after the other
abbrev pub joined : List String → String
joined [] = ""
joined (text ∷ texts) = String.◌++◌ text (joined texts)

-- ===== src/Text/Decimal.antt =====
-- strconv.Itoa of a number that is not negative, and of its successor in 64 bits, and strconv.Atoi.
pub mod RoundTrip
use Prim.Native.Char.{Char, char, code}
use Prim.Native.String
use mathlib.Core.Logic.{dite}
use mathlib.Core.WellFounded.{Acc, WellFounded}
use native.Mathlib.Decide.{dec_lt}
use agent_memory_mcp.Base.{
  ℕ, zero, suc, ◌+◌, ◌-◌, ◌*◌, ◌/◌, ◌%◌, ◌^◌, ◌<◌, String, Bool, true, false, ◌&&◌, Option, none,
  some, arith, leb, ltb, nat_eq, if◌then◌else◌,
}
use agent_memory_mcp.Base.Int.{ℤ, pos, negsuc}
use agent_memory_mcp.Text.{small_IsScalar}

-- the digit of n % 10
abbrev pub digit : ℕ → Char
digit n = char (n % 10 + 48) (small_IsScalar (n % 10 + 48) (omega arith))

-- the digits of n, most significant first, in front of a rest; fuel n + 1 is enough
unfoldable pub digits : ℕ → ℕ → String → String
digits zero n rest = rest
digits (suc fuel) n rest =
    let more = digits fuel (n / 10) (String.◌∷◌ (digit n) rest) in
    if ltb n 10 then String.◌∷◌ (digit n) rest else more

unfoldable pub itoa : ℕ → String
unfolding digits
itoa n = digits (suc n) n ""

abbrev is_digit : ℕ → Bool
is_digit c = leb 48 c && leb c 57

unfoldable pub value_from : ℕ → String → Option ℕ
value_from n String.[] = some n
value_from n (String.◌∷◌ c s) =
    let c' = code c in
    let rest = value_from (n * 10 + (c' - 48)) s in if is_digit c' then rest else none

-- at least one digit
unfoldable pub magnitude : String → Option ℕ
unfolding value_from
magnitude String.[] = none
magnitude (String.◌∷◌ c s) = value_from 0 (String.◌∷◌ c s)

abbrev within : ℕ → ℕ → ℤ → Option ℤ
within limit n z = if leb n limit then some z else none

abbrev pub max_int : ℕ
max_int = 2 ^ 63 - 1

abbrev negate : ℕ → ℤ
negate zero = pos 0
negate (suc n) = negsuc n

-- an error, also out of int64, is none
unfoldable pub atoi : String → Option ℤ
unfolding magnitude
atoi String.[] = none
atoi (String.◌∷◌ c s) =
    let plain = magnitude (String.◌∷◌ c s) in
    let signed = magnitude s in
    if nat_eq (code c) b'-'
    then elim signed [ none ↦ none | some n ↦ within (max_int + 1) n (negate n) ]
    else if nat_eq (code c) b'+'
    then elim signed [ none ↦ none | some n ↦ within max_int n (pos n) ]
    else elim plain [ none ↦ none | some n ↦ within max_int n (pos n) ]

-- strconv.Itoa(n + 1) of an int that is not negative: above the largest int the sum wraps to the least one
unfoldable pub itoa_next : ℕ → String
unfolding itoa
itoa_next n = if ltb n max_int then itoa (n + 1) else "-9223372036854775808"

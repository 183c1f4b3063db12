-- ===== src/Text/Decimal/RoundTrip.antt =====
-- A number that is printed is read back.
use Prim.Native.Char.{code}
use agent_memory_mcp.Base.{
  ℕ, zero, suc, ◌+◌, ◌-◌, ◌*◌, ◌/◌, ◌%◌, ◌≤◌, ◌<◌, String, ◌≡◌, refl, true, false, inl, inr, some,
  arith, ltb, Bool-cases, ◌∙◌, ap,
}
use agent_memory_mcp.Base.Int.{pos}
use agent_memory_mcp.Text.{is_space, trim_left, trim_right, trim_space}
use agent_memory_mcp.Text.Decimal.{digit, digits, itoa, value_from, max_int, atoi, is_digit}

abbrev StartsDigit : String → Type 0
StartsDigit String.[] = ⊥
StartsDigit (String.◌∷◌ c s) = (48 ≤ code c) × (code c ≤ 57)

digits-StartsDigit :
    (fuel n : ℕ) (rest : String) → StartsDigit rest → StartsDigit (digits fuel n rest)
unfolding digits
digits-StartsDigit zero n rest h = h
digits-StartsDigit (suc fuel) n rest h = elim (Bool-cases (ltb n 10)) [
  | inl e ↦ rw e (omega arith, omega arith)
  | inr e ↦
      rw e (digits-StartsDigit fuel (n / 10) (String.◌∷◌ (digit n) rest) (omega arith, omega arith))
]

itoa-StartsDigit : (n : ℕ) → StartsDigit (itoa n)
unfolding itoa digits
itoa-StartsDigit n = elim (Bool-cases (ltb n 10)) [
  | inl e ↦ rw e (omega arith, omega arith)
  | inr e ↦
      rw e (digits-StartsDigit n (n / 10) (String.◌∷◌ (digit n) "") (omega arith, omega arith))
]

value_from-digit :
    (a n : ℕ) (rest : String)
    → value_from a (String.◌∷◌ (digit n) rest) ≡ value_from (a * 10 + n % 10) rest
unfolding value_from
value_from-digit a n rest =
    let e : n % 10 + 48 - 48 ≡ n % 10 = omega arith in
    let d : is_digit (n % 10 + 48) ≡ true = ground arith in rw (d, e)

value_from-digits :
    (fuel n : ℕ) (rest : String) → n < fuel → value_from 0 (digits fuel n rest) ≡ value_from n rest
unfolding digits
value_from-digits zero n rest h = absurd (omega arith)
value_from-digits (suc fuel) n rest h = elim (Bool-cases (ltb n 10)) [
  | inl e ↦
      let small : 0 * 10 + n % 10 ≡ n = ground arith in
      rw e (value_from-digit 0 n rest ∙ ap (λ k. value_from k rest) small)
  | inr e ↦
      let whole : n / 10 * 10 + n % 10 ≡ n = omega arith in
      rw e (
        value_from-digits fuel (n / 10) (String.◌∷◌ (digit n) rest) (ground arith)
        ∙ value_from-digit (n / 10) n rest
        ∙ ap (λ k. value_from k rest) whole)
]

atoi-StartsDigit :
    (s : String) (n : ℕ)
    → StartsDigit s
    → value_from 0 s ≡ some n
    → n ≤ max_int
    → atoi s ≡ some (pos n)
unfolding atoi
atoi-StartsDigit String.[] n d h b = absurd d
atoi-StartsDigit (String.◌∷◌ c s) n d h b = ground arith

-- A number of at most 63 bits that `Itoa` prints is read back by `Atoi`.
pub atoi-itoa : (n : ℕ) → n ≤ max_int → atoi (itoa n) ≡ some (pos n)
unfolding value_from
atoi-itoa n h =
    atoi-StartsDigit (itoa n) n (itoa-StartsDigit n)
      (unfold itoa in value_from-digits (suc n) n "" (omega arith)) h

-- every code point is a digit
abbrev AllDigits : String → Type 0
AllDigits String.[] = Unit
AllDigits (String.◌∷◌ c s) = (48 ≤ code c) × (code c ≤ 57) × AllDigits s

digits-AllDigits : (fuel n : ℕ) (rest : String) → AllDigits rest → AllDigits (digits fuel n rest)
unfolding digits
digits-AllDigits zero n rest h = h
digits-AllDigits (suc fuel) n rest h = elim (Bool-cases (ltb n 10)) [
  | inl e ↦ rw e (omega arith, omega arith, h)
  | inr e ↦
      rw e
        (digits-AllDigits fuel (n / 10) (String.◌∷◌ (digit n) rest) (omega arith, omega arith, h))
]

is_space-digit : (c : ℕ) → 48 ≤ c → c ≤ 57 → is_space c ≡ false
unfolding is_space
is_space-digit c p q = ground arith

trim_right-AllDigits : (s : String) → AllDigits s → trim_right s ≡ s
unfolding trim_right
trim_right-AllDigits String.[] h = refl
trim_right-AllDigits (String.◌∷◌ c s) (p, q, h) =
    rw (trim_right-AllDigits s h, is_space-digit (code c) p q) refl

trim_left-AllDigits : (s : String) → AllDigits s → trim_left s ≡ s
unfolding trim_left
trim_left-AllDigits String.[] h = refl
trim_left-AllDigits (String.◌∷◌ c s) (p, q, h) = rw (is_space-digit (code c) p q) refl

-- A printed number has no spaces around it.
pub trim_space-itoa : (n : ℕ) → trim_space (itoa n) ≡ itoa n
unfolding trim_space itoa
trim_space-itoa n =
    let h = digits-AllDigits (suc n) n "" tt in
    ap trim_right (trim_left-AllDigits (itoa n) h) ∙ trim_right-AllDigits (itoa n) h

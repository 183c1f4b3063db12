-- ===== src/Memory/Store/Merge/Bounds.antt =====
-- How long a merged content may be.
use Prim.Native.Char.{code}
use Prim.Native.String
use Prim.Native.String.append
use agent_memory_mcp.Base.{
  ℕ, ◌+◌, ◌-◌, ◌≤◌, String, ◌≡◌, refl, subst, sym, Bool, true, false, ◌⊎◌, inl, inr, List, [], ◌∷◌,
  ltb, leb, leb→le, arith, if◌then◌else◌,
}
use agent_memory_mcp.Text.{trim_space}
use agent_memory_mcp.Memory.Types.{Memory}
use agent_memory_mcp.Memory.Store.Merge.Content.{
  rune_bytes, byte_length, take_bytes, content_contains, max_merged_content_bytes,
  merged_content_truncated_suffix, with_note, cut_content, merge_notes, merge_content,
}

byte_length-append : (s t : String) → byte_length (String.◌++◌ s t) ≡ byte_length s + byte_length t
unfolding byte_length
byte_length-append String.[] t = rw append.nil (omega arith)
byte_length-append (String.◌∷◌ c s) t = rw append.cons (omega (arith, byte_length-append s t))

byte_length-take_bytes : (n : ℕ) (s : String) → byte_length (take_bytes n s) ≤ n
unfolding byte_length take_bytes
byte_length-take_bytes n String.[] = omega arith
byte_length-take_bytes n (String.◌∷◌ c s) =
    split (leb (rune_bytes (code c)) n) refl (byte_length-take_bytes (n - rune_bytes (code c)) s)
  where
    split :
        (b : Bool)
        → leb (rune_bytes (code c)) n ≡ b
        → byte_length (take_bytes (n - rune_bytes (code c)) s) ≤ n - rune_bytes (code c)
        → byte_length
            (if b then String.◌∷◌ c (take_bytes (n - rune_bytes (code c)) s) else String.[])
          ≤ n
    split true e h = omega (arith, h, leb→le (rune_bytes (code c)) n e)
    split false e h = omega arith

suffix_fits : byte_length merged_content_truncated_suffix ≤ max_merged_content_bytes
unfolding byte_length
suffix_fits = omega arith

byte_length-cut_content : (s : String) → byte_length (cut_content s) ≤ max_merged_content_bytes
unfolding cut_content
byte_length-cut_content s =
    let n = max_merged_content_bytes - byte_length merged_content_truncated_suffix in
    omega (
      arith,
      byte_length-append (take_bytes n s) merged_content_truncated_suffix,
      byte_length-take_bytes n s,
      suffix_fits,
    )

merge_notes-fits :
    (content : String) (ms : List Memory)
    → (merge_notes content ms ≡ content)
      ⊎ (byte_length (merge_notes content ms) ≤ max_merged_content_bytes)
unfolding merge_notes
merge_notes-fits content [] = inl refl
merge_notes-fits content (m ∷ ms) =
    let grown = with_note content (trim_space m.title) (trim_space m.content) in
    split (content_contains content (trim_space m.content))
      (ltb max_merged_content_bytes (byte_length grown)) refl (merge_notes-fits content ms)
      (merge_notes-fits grown ms)
  where
    longer : String
    longer = with_note content (trim_space m.title) (trim_space m.content)

    Result : String → Type 0
    Result s = (s ≡ content) ⊎ (byte_length s ≤ max_merged_content_bytes)

    split :
        (held long : Bool)
        → ltb max_merged_content_bytes (byte_length longer) ≡ long
        → Result (merge_notes content ms)
        → (merge_notes longer ms ≡ longer)
          ⊎ (byte_length (merge_notes longer ms) ≤ max_merged_content_bytes)
        → Result (elim held [
          | true ↦ merge_notes content ms
          | false ↦ elim long [ true ↦ cut_content longer | false ↦ merge_notes longer ms ]
        ])
    split true long e h k = h
    split false true e h k = inr (byte_length-cut_content longer)
    split false false e h (inr b) = inr b
    split false false e h (inl q) =
        inr (subst (λ s. byte_length s ≤ max_merged_content_bytes) (sym q) (ground (arith, e)))

-- A merged content is the primary's own, trimmed, or it takes at most 100000 bytes.
pub merge_content-fits :
    (primary : String) (duplicates : List Memory)
    → (merge_content primary duplicates ≡ trim_space primary)
      ⊎ (byte_length (merge_content primary duplicates) ≤ max_merged_content_bytes)
unfolding merge_content
merge_content-fits primary duplicates = merge_notes-fits (trim_space primary) duplicates

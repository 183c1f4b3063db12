-- ===== src/Memory/Store/Merge/Content.antt =====
-- helpers.go: the content of a merged record, lists of texts without repetition, and lists with commas.
-- Lengths of contents are those of their UTF-8 encoding in bytes.
use Prim.Native.Nat.{Ordering}
use Prim.Native.Char.{code}
use Prim.Native.String
use agent_memory_mcp.Base.{
  ℕ, ◌+◌, ◌-◌, String, Bool, true, false, ◌||◌, List, [], ◌∷◌, ◌++◌, ◌==◌, any, ltb, leb, is_some,
  if◌then◌else◌, map,
}
use agent_memory_mcp.Base.Sorting.{sort_by, filter}
use agent_memory_mcp.Text.{trim_space, to_lower, is_empty, cut_prefix, split, joined}
use agent_memory_mcp.Memory.Types.{Memory}

-- utf8.RuneLen
abbrev pub rune_bytes : ℕ → ℕ
rune_bytes n = if ltb n 0x80 then 1 else if ltb n 0x800 then 2 else if ltb n 0x10000 then 3 else 4

-- len(s)
unfoldable pub byte_length : String → ℕ
byte_length String.[] = 0
byte_length (String.◌∷◌ c s) = rune_bytes (code c) + byte_length s

-- s[:AlignRuneStart(s, n)]: the code points that end within the first n bytes
unfoldable pub take_bytes : ℕ → String → String
take_bytes n String.[] = String.[]
take_bytes n (String.◌∷◌ c s) =
    let rest = take_bytes (n - rune_bytes (code c)) s in
    if leb (rune_bytes (code c)) n then String.◌∷◌ c rest else String.[]

-- strings.Contains
unfoldable pub contains : String → String → Bool
unfolding cut_prefix
contains String.[] wanted = is_some (cut_prefix String.[] wanted)
contains (String.◌∷◌ c s) wanted =
    let later = contains s wanted in is_some (cut_prefix (String.◌∷◌ c s) wanted) || later

unfoldable pub content_contains : String → String → Bool
unfolding contains
content_contains primary dup =
    let d = trim_space dup in
    if is_empty d then true else contains (to_lower (trim_space primary)) (to_lower d)

abbrev pub max_merged_content_bytes : ℕ
max_merged_content_bytes = 100000

abbrev pub merged_content_truncated_suffix : String
merged_content_truncated_suffix = "\n[truncated: merged content exceeded size limit]"

unfoldable pub with_note : String → String → String → String
with_note content title note =
    if is_empty title
    then joined (content ∷ "\n\nMerged note:\n" ∷ note ∷ [])
    else joined (content ∷ "\n\nMerged note from " ∷ title ∷ ":\n" ∷ note ∷ [])

unfoldable pub cut_content : String → String
unfolding take_bytes byte_length
cut_content content =
    String.◌++◌
      (take_bytes (max_merged_content_bytes - byte_length merged_content_truncated_suffix) content)
      merged_content_truncated_suffix

-- the loop over the duplicates; it ends when the content is too long
unfoldable pub merge_notes : String → List Memory → String
unfolding content_contains with_note cut_content byte_length
merge_notes content [] = content
merge_notes content (m ∷ ms) =
    let note = trim_space m.content in
    let grown = with_note content (trim_space m.title) note in
    elim (content_contains content note) [
      | true ↦ merge_notes content ms
      | false ↦ elim (ltb max_merged_content_bytes (byte_length grown)) [
        | true ↦ cut_content grown
        | false ↦ merge_notes grown ms
      ]
    ]

-- `mergeContent`
unfoldable pub merge_content : String → List Memory → String
unfolding merge_notes
merge_content primary duplicates = merge_notes (trim_space primary) duplicates

abbrev pub is_less : Ordering → Bool
is_less Ordering.lt = true
is_less Ordering.eq = false
is_less Ordering.gt = false

-- s < t: the order of bytes, which is that of code points
abbrev pub text_before : String → String → Bool
text_before s t = is_less (String.compare s t)

unfoldable pub new_values : List String → List String → List String
new_values seen [] = seen
new_values seen (value ∷ values) =
    let v = trim_space value in
    new_values (if is_empty v || any (λ k. k == v) seen then seen else seen ++ (v ∷ [])) values

-- `UnionStrings` of two slices
unfoldable pub union_strings : List String → List String → List String
unfolding new_values sort_by
union_strings xs ys = sort_by text_before (new_values (new_values [] xs) ys)

abbrev pub is_given : String → Bool
is_given s = if is_empty s then false else true

unfoldable pub split_csv : String → List String
unfolding split
split_csv value =
    if is_empty (trim_space value) then [] else filter is_given (map trim_space (split 44 value))

-- strings.Join with a comma
unfoldable pub join_commas : List String → String
join_commas [] = ""
join_commas (s ∷ []) = s
join_commas (s ∷ t ∷ rest) = joined (s ∷ "," ∷ join_commas (t ∷ rest) ∷ [])

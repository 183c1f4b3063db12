-- ===== src/Memory/Policy/Tags.antt =====
-- The normal form of a tag list: trimmed, without blanks and repetitions, in the order of first
-- occurrence.
use agent_memory_mcp.Base.{
  String, ◌≡◌, refl, ap, false, ◌||◌, inl, inr, List, [], ◌∷◌, arith, Bool-cases,
}
use agent_memory_mcp.Text.{trim_space, is_empty}
use agent_memory_mcp.Text.Laws.{trim_space_idem}
use agent_memory_mcp.Memory.Policy.{seen_in, normalize_tags_from, normalize_tags}

-- a tag in normal form that none of `seen` repeats
abbrev pub IsFresh : List String → String → Type 0
IsFresh seen t = (trim_space t ≡ t) × (is_empty t ≡ false) × (seen_in t seen ≡ false)

abbrev pub IsNormal : List String → List String → Type 0
IsNormal seen [] = Unit
IsNormal seen (t ∷ tags) = IsFresh seen t × IsNormal (t ∷ seen) tags

normalize_tags_from-IsNormal :
    (seen tags : List String) → IsNormal seen (normalize_tags_from seen tags)
unfolding normalize_tags_from
normalize_tags_from-IsNormal seen [] = tt
normalize_tags_from-IsNormal seen (tag ∷ tags) =
    elim (Bool-cases (is_empty (trim_space tag) || seen_in (trim_space tag) seen)) [
      | inl e ↦ rw e (normalize_tags_from-IsNormal seen tags)
      | inr e ↦ rw e (
        (trim_space_idem tag, ground arith, ground arith),
        normalize_tags_from-IsNormal (trim_space tag ∷ seen) tags,
      )
    ]

normalize_tags_from_of_IsNormal :
    (seen tags : List String) → IsNormal seen tags → normalize_tags_from seen tags ≡ tags
unfolding normalize_tags_from
normalize_tags_from_of_IsNormal seen [] h = refl
normalize_tags_from_of_IsNormal seen (t ∷ tags) (f, h) =
    rw (f.0, f.1, f.2) (ap (◌∷◌ t) (normalize_tags_from_of_IsNormal (t ∷ seen) tags h))

pub normalize_tags-IsNormal : (tags : List String) → IsNormal [] (normalize_tags tags)
unfolding normalize_tags
normalize_tags-IsNormal tags = normalize_tags_from-IsNormal [] tags

-- What `NormalizeTags` returns has no blank tag, no outer spaces and no tag twice, and a second pass
-- leaves it as it is.
pub normalize_tags_idem :
    (tags : List String)
    → IsNormal [] (normalize_tags tags)
      × (normalize_tags (normalize_tags tags) ≡ normalize_tags tags)
unfolding normalize_tags
normalize_tags_idem tags =
    let h = normalize_tags-IsNormal tags in
    (h, normalize_tags_from_of_IsNormal [] (normalize_tags tags) h)

-- ===== src/Dict.antt =====
-- Go's maps with text keys, as association lists. A map that is ranged over is taken in the order of
-- its list, which stands for one of the orders that Go may choose. `nil` and the empty map are one.
pub mod Laws
use agent_memory_mcp.Base.{
  String, Bool, true, false, Option, none, some, List, [], ◌∷◌, ◌==◌, any, if◌then◌else◌,
}

abbrev pub Dict {ℓ} : Type ℓ → Type ℓ
Dict V = List (String × V)

module _ {ℓ} {V : Type ℓ} where
  -- v, ok := m[k]
  unfoldable pub lookup : String → Dict V → Option V
  lookup key [] = none
  lookup key ((first, held) ∷ rest) = if first == key then some held else lookup key rest

  -- m[k] = v
  unfoldable pub insert : String → V → Dict V → Dict V
  insert key value [] = (key, value) ∷ []
  insert key value ((first, held) ∷ rest) =
      let behind = (first, held) ∷ insert key value rest in
      if first == key then (key, value) ∷ rest else behind

  -- delete(m, k)
  unfoldable pub erase : String → Dict V → Dict V
  erase k [] = []
  erase k ((j, w) ∷ m) = let rest = erase k m in if j == k then rest else (j, w) ∷ rest

  -- _, ok := m[k]
  unfoldable pub has : String → Dict V → Bool
  unfolding lookup
  has k m = elim (lookup k m) [ none ↦ false | some v ↦ true ]

abbrev text_or_empty : Option String → String
text_or_empty none = ""
text_or_empty (some v) = v

-- m[k] of a map into texts, "" where the key is missing
unfoldable pub text_at : String → Dict String → String
unfolding lookup
text_at k m = text_or_empty (lookup k m)

module _ {ℓ} {V : Type ℓ} where
  -- the values under keys that are not passed over
  unfoldable pub values_from : List String → Dict V → List V
  values_from passed [] = []
  values_from passed ((first, held) ∷ rest) =
      let later = values_from (first ∷ passed) rest in
      if any (λ k. k == first) passed then later else held ∷ later

  -- the values of a map, in the order of the loop that ranges over it
  unfoldable pub values : Dict V → List V
  unfolding values_from
  values entries = values_from [] entries

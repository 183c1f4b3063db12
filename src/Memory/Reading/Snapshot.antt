-- ===== src/Memory/Reading/Snapshot.antt =====
-- What the snapshots of the cache hold: the values of its map, or those of one context.
use agent_memory_mcp.Base.{
  String, ◌≡◌, refl, Bool, true, false, some, List, [], ◌∷◌, ◌==◌, any, arith, inl, inr,
  if◌then◌else◌, eq_iff,
}
use agent_memory_mcp.Base.Sorting.{In}
use agent_memory_mcp.Dict.{Dict, lookup, values_from, values}

module _ {V : Type 0} where
  -- a value that the loop meets is found under its key
  pub In-values_from :
      (x : V) (passed : List String) (m : Dict V)
      → In x (values_from passed m)
      → (k : String) × (any (λ j. j == k) passed ≡ false) × (lookup k m ≡ some x)
  unfolding values_from lookup
  In-values_from x passed [] i = absurd i
  In-values_from x passed ((first, held) ∷ rest) i =
      split (In-values_from x (first ∷ passed) rest) (any (λ j. j == first) passed) refl i
    where
      later :
          (k : String) × (any (λ j. j == k) (first ∷ passed) ≡ false) × (lookup k rest ≡ some x)
          → (k : String) × (any (λ j. j == k) passed ≡ false)
            × (lookup k ((first, held) ∷ rest) ≡ some x)
      later (k, p, e) = (k, ground (arith), ground (arith))

      split :
          (In x (values_from (first ∷ passed) rest)
            → (k : String) × (any (λ j. j == k) (first ∷ passed) ≡ false)
              × (lookup k rest ≡ some x))
          → (b : Bool) → any (λ j. j == first) passed ≡ b
          → In x (
              if b
              then values_from (first ∷ passed) rest
              else held ∷ values_from (first ∷ passed) rest)
          → (k : String) × (any (λ j. j == k) passed ≡ false)
            × (lookup k ((first, held) ∷ rest) ≡ some x)
      split ih true e k = later (ih k)
      split ih false e (inl k) = (first, e, ground (arith, eq_iff first first))
      split ih false e (inr k) = later (ih k)

  pub In-values : (x : V) (m : Dict V) → In x (values m) → (k : String) × (lookup k m ≡ some x)
  unfolding values
  In-values x m i = let (k, p, e) = In-values_from x [] m i in (k, e)

  pub values_from-In :
      (x : V) (k : String) (passed : List String) (m : Dict V)
      → any (λ j. j == k) passed ≡ false
      → lookup k m ≡ some x
      → In x (values_from passed m)
  unfolding values_from lookup
  values_from-In x k passed [] p e = absurd (cc)
  values_from-In x k passed ((first, held) ∷ rest) p e =
      split (values_from-In x k (first ∷ passed) rest) (first == k) refl
        (any (λ j. j == first) passed) refl
    where
      split :
          (any (λ j. j == k) (first ∷ passed) ≡ false
            → lookup k rest ≡ some x
            → In x (values_from (first ∷ passed) rest))
          → (b : Bool) → (first == k) ≡ b
          → (c : Bool) → any (λ j. j == first) passed ≡ c
          → In x (
              if c
              then values_from (first ∷ passed) rest
              else held ∷ values_from (first ∷ passed) rest)
      split ih b e1 true e2 = ih (ground (arith, eq_iff first k)) (ground (arith, eq_iff first k))
      split ih true e1 false e2 = inl (ground (arith))
      split ih false e1 false e2 = inr (ih (ground (arith)) (ground (arith)))

  pub values-In : (x : V) (k : String) (m : Dict V) → lookup k m ≡ some x → In x (values m)
  unfolding values
  values-In x k m e = values_from-In x k [] m refl e

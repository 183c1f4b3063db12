-- ===== src/Base/Sorting.antt =====
-- Membership, and insertion sort for Go's sort.Slice. Where the test calls neither of two elements
-- first, sort.Slice may leave them in any order; here the order of the list is kept.
use Prim.Native.Nat.{suc}
use mathlib.Core.Path.{◌≡◌, refl, ap, ◌∙◌}
use mathlib.Core.Logic.{◌⊎◌, inl, inr}
use mathlib.Core.Bool.{Bool, true, false}
use mathlib.Core.List.{List, [], ◌∷◌, map}
use native.Mathlib.Omega.{arith}
use agent_memory_mcp.Base.Tests.{if◌then◌else◌}
use agent_memory_mcp.Base.Lists.{length, All}

module _ {A : Type 0} where
  abbrev pub In : A → List A → Type 0
  In x [] = ⊥
  In x (y ∷ ys) = (x ≡ y) ⊎ In x ys

  pub All-In {κ} : (P : A → Type κ) (xs : List A) → ((x : A) → In x xs → P x) → All P xs
  All-In P [] h = tt
  All-In P (x ∷ xs) h = (h x (inl refl), All-In P xs (λ y i. h y (inr i)))

  pub In-All {κ} : (P : A → Type κ) (xs : List A) → All P xs → (x : A) → In x xs → P x
  In-All P [] h x i = absurd i
  In-All P (y ∷ xs) h x (inl e) = rw e h.0
  In-All P (y ∷ xs) h x (inr i) = In-All P xs h.1 x i

  abbrev pub filter : (A → Bool) → List A → List A
  filter p [] = []
  filter p (x ∷ xs) = let rest = filter p xs in if p x then x ∷ rest else rest

  pub In-filter : (p : A → Bool) (x : A) (xs : List A) → In x (filter p xs) → In x xs × (p x ≡ true)
  In-filter p x [] i = absurd i
  In-filter p x (y ∷ xs) i = split (In-filter p x xs) (p y) refl i
    where
      split :
          (In x (filter p xs) → In x xs × (p x ≡ true))
          → (b : Bool) → p y ≡ b
          → In x (if b then y ∷ filter p xs else filter p xs)
          → In x (y ∷ xs) × (p x ≡ true)
      split ih true e (inl k) = (inl k, rw k e)
      split ih true e (inr k) = let h = ih k in (inr h.0, h.1)
      split ih false e k = let h = ih k in (inr h.0, h.1)

  pub filter-In : (p : A → Bool) (x : A) (xs : List A) → In x xs → p x ≡ true → In x (filter p xs)
  filter-In p x [] i h = absurd i
  filter-In p x (y ∷ xs) i h = split (λ k. filter-In p x xs k h) (p y) refl i
    where
      split :
          (In x xs → In x (filter p xs))
          → (b : Bool) → p y ≡ b
          → In x (y ∷ xs)
          → In x (if b then y ∷ filter p xs else filter p xs)
      split ih true e (inl k) = inl k
      split ih true e (inr k) = inr (ih k)
      split ih false e (inl k) = absurd (cc)
      split ih false e (inr k) = ih k

  module _ (before : A → A → Bool) where
    -- x goes in front of the first element that it is not behind
    abbrev pub insert_by : A → List A → List A
    insert_by x [] = x ∷ []
    insert_by x (y ∷ ys) = if before y x then y ∷ insert_by x ys else x ∷ y ∷ ys

    unfoldable pub sort_by : List A → List A
    sort_by [] = []
    sort_by (x ∷ xs) = insert_by x (sort_by xs)

    pub length-sort_by : (xs : List A) → length (sort_by xs) ≡ length xs
    unfolding sort_by
    length-sort_by [] = refl
    length-sort_by (x ∷ xs) = length-insert (sort_by xs) ∙ ap suc (length-sort_by xs)
      where
        length-insert : (ys : List A) → length (insert_by x ys) ≡ suc (length ys)
        length-insert [] = refl
        length-insert (y ∷ ys) = ground (arith, length-insert ys)

    In-insert_by : (z x : A) (ys : List A) → In z (insert_by x ys) → (z ≡ x) ⊎ In z ys
    In-insert_by z x [] i = i
    In-insert_by z x (y ∷ ys) i = split (In-insert_by z x ys) (before y x) i
      where
        split :
            (In z (insert_by x ys) → (z ≡ x) ⊎ In z ys)
            → (b : Bool) → In z (if b then y ∷ insert_by x ys else x ∷ y ∷ ys)
            → (z ≡ x) ⊎ In z (y ∷ ys)
        split ih true (inl e) = inr (inl e)
        split ih true (inr k) = elim (ih k) [ inl e ↦ inl e | inr j ↦ inr (inr j) ]
        split ih false k = k

    insert_by-In : (z x : A) (ys : List A) → (z ≡ x) ⊎ In z ys → In z (insert_by x ys)
    insert_by-In z x [] i = i
    insert_by-In z x (y ∷ ys) i = split (insert_by-In z x ys) (before y x) i
      where
        split :
            ((z ≡ x) ⊎ In z ys → In z (insert_by x ys))
            → (b : Bool) → (z ≡ x) ⊎ In z (y ∷ ys)
            → In z (if b then y ∷ insert_by x ys else x ∷ y ∷ ys)
        split ih true (inl e) = inr (ih (inl e))
        split ih true (inr (inl e)) = inl e
        split ih true (inr (inr k)) = inr (ih (inr k))
        split ih false k = k

    pub In-sort_by : (z : A) (xs : List A) → In z (sort_by xs) → In z xs
    unfolding sort_by
    In-sort_by z [] i = i
    In-sort_by z (x ∷ xs) i = elim (In-insert_by z x (sort_by xs) i) [
      | inl e ↦ inl e
      | inr k ↦ inr (In-sort_by z xs k)
    ]

    pub sort_by-In : (z : A) (xs : List A) → In z xs → In z (sort_by xs)
    unfolding sort_by
    sort_by-In z [] i = i
    sort_by-In z (x ∷ xs) (inl e) = insert_by-In z x (sort_by xs) (inl e)
    sort_by-In z (x ∷ xs) (inr k) = insert_by-In z x (sort_by xs) (inr (sort_by-In z xs k))

    -- no element is behind the one that follows it
    abbrev pub IsSortedBy : List A → Type 0
    IsSortedBy [] = Unit
    IsSortedBy (x ∷ []) = Unit
    IsSortedBy (x ∷ y ∷ ys) = (before y x ≡ false) × IsSortedBy (y ∷ ys)

    module _ (asym : (x y : A) → before x y ≡ true → before y x ≡ false) where
      insert_by-IsSortedBy : (x : A) (ys : List A) → IsSortedBy ys → IsSortedBy (insert_by x ys)
      insert_by-IsSortedBy x [] s = tt
      insert_by-IsSortedBy x (y ∷ []) s = ground (arith, asym y x)
      insert_by-IsSortedBy x (y ∷ z ∷ zs) s =
          ground (arith, asym y x, insert_by-IsSortedBy x (z ∷ zs))

      pub sort_by-IsSortedBy : (xs : List A) → IsSortedBy (sort_by xs)
      unfolding sort_by
      sort_by-IsSortedBy [] = tt
      sort_by-IsSortedBy (x ∷ xs) = insert_by-IsSortedBy x (sort_by xs) (sort_by-IsSortedBy xs)

-- what keeps the tests keeps the result
module _ {A B : Type 0} (g : A → B) where
  pub map-In : (x : A) (xs : List A) → In x xs → In (g x) (map g xs)
  map-In x [] i = absurd i
  map-In x (y ∷ ys) (inl e) = inl (ap g e)
  map-In x (y ∷ ys) (inr i) = inr (map-In x ys i)

  pub map-filter :
      (p : A → Bool) (q : B → Bool)
      → ((x : A) → q (g x) ≡ p x)
      → (xs : List A) → map g (filter p xs) ≡ filter q (map g xs)
  map-filter p q h [] = refl
  map-filter p q h (x ∷ xs) = rw (h x) (split (p x) (map-filter p q h xs))
    where
      split :
          (b : Bool)
          → map g (filter p xs) ≡ filter q (map g xs)
          → map g (if b then x ∷ filter p xs else filter p xs)
            ≡ (if b then g x ∷ filter q (map g xs) else filter q (map g xs))
      split true ih = ap (λ l. g x ∷ l) ih
      split false ih = ih

  module _ (before : A → A → Bool) (before' : B → B → Bool)
      (same : (x y : A) → before' (g x) (g y) ≡ before x y) where
    map-insert_by :
        (x : A) (ys : List A) → map g (insert_by before x ys) ≡ insert_by before' (g x) (map g ys)
    map-insert_by x [] = refl
    map-insert_by x (y ∷ ys) = rw (same y x) (split (before y x) (map-insert_by x ys))
      where
        split :
            (b : Bool)
            → map g (insert_by before x ys) ≡ insert_by before' (g x) (map g ys)
            → map g (if b then y ∷ insert_by before x ys else x ∷ y ∷ ys)
              ≡ (if b then g y ∷ insert_by before' (g x) (map g ys) else g x ∷ g y ∷ map g ys)
        split true ih = ap (λ l. g y ∷ l) ih
        split false ih = refl

    pub map-sort_by : (xs : List A) → map g (sort_by before xs) ≡ sort_by before' (map g xs)
    unfolding sort_by
    map-sort_by [] = refl
    map-sort_by (x ∷ xs) =
        map-insert_by x (sort_by before xs) ∙ ap (insert_by before' (g x)) (map-sort_by xs)

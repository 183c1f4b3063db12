-- ===== src/Base/Orders.antt =====
-- What Go's sort.Slice may make of a list, with the order in which a range over a map built it: any
-- permutation that the test calls sorted. Two such permutations agree on the numbers they are sorted by.
use Prim.Native.Nat.{ℕ, ◌≤◌}
use mathlib.Core.Path.{◌≡◌, refl, sym, ap₂}
use mathlib.Core.Bool.{Bool, true, false}
use mathlib.Core.Logic.{∥∥₁_elim}
use mathlib.Core.List.{List, [], ◌∷◌, map, Perm, Permᴰ}
use mathlib.Core.List.Perm
use mathlib.Core.List.Permᴰ
use native.Mathlib.Omega.{arith}
use native.Mathlib.Bridge.{le_prop}
use agent_memory_mcp.Base.Tests.{ltb, if◌then◌else◌}
use agent_memory_mcp.Base.Lists.{All}
use agent_memory_mcp.Base.Sorting.{insert_by, sort_by, IsSortedBy, sort_by-IsSortedBy}

module _ {A : Type 0} where
  -- a sort in the sense of sort.Slice
  pub record Sorts (before : A → A → Bool) (sort : List A → List A) : Type 0 where
    pub perm : (xs : List A) → Permᴰ (sort xs) xs
    pub sorted : (xs : List A) → IsSortedBy before (sort xs)

  module _ (before : A → A → Bool) where
    insert_by-Permᴰ : (x : A) (ys : List A) → Permᴰ (insert_by before x ys) (x ∷ ys)
    insert_by-Permᴰ x [] = Permᴰ.refl (x ∷ [])
    insert_by-Permᴰ x (y ∷ ys) = split (before y x) (insert_by-Permᴰ x ys)
      where
        split :
            (b : Bool)
            → Permᴰ (insert_by before x ys) (x ∷ ys)
            → Permᴰ (if b then y ∷ insert_by before x ys else x ∷ y ∷ ys) (x ∷ y ∷ ys)
        split true h = Permᴰ.trans (Permᴰ.cons refl h) (Permᴰ.swap refl refl)
        split false h = Permᴰ.refl (x ∷ y ∷ ys)

    pub sort_by-Permᴰ : (xs : List A) → Permᴰ (sort_by before xs) xs
    unfolding sort_by
    sort_by-Permᴰ [] = Permᴰ.nil
    sort_by-Permᴰ (x ∷ xs) =
        Permᴰ.trans (insert_by-Permᴰ x (sort_by before xs)) (Permᴰ.cons refl (sort_by-Permᴰ xs))

    -- insertion sort is one
    pub sort_by-Sorts :
        ((x y : A) → before x y ≡ true → before y x ≡ false) → Sorts before (sort_by before)
    sort_by-Sorts asym = record { perm = sort_by-Permᴰ; sorted = sort_by-IsSortedBy before asym }

  pub All-Permᴰ {κ} : (P : A → Type κ) {xs ys : List A} → Permᴰ xs ys → All P xs → All P ys
  All-Permᴰ P Permᴰ.nil h = tt
  All-Permᴰ P (Permᴰ.cons e d) h = (rw (sym e) h.0, All-Permᴰ P d h.1)
  All-Permᴰ P (Permᴰ.swap e f) h = (rw (sym f) h.1.0, (rw (sym e) h.0, h.1.1))
  All-Permᴰ P (Permᴰ.trans d d') h = All-Permᴰ P d' (All-Permᴰ P d h)

-- the greatest first
abbrev pub greater : ℕ → ℕ → Bool
greater a b = ltb b a

descending_below : (a : ℕ) (xs : List ℕ) → IsSortedBy greater (a ∷ xs) → All (λ b. b ≤ a) xs
descending_below a [] s = tt
descending_below a (b ∷ xs) s =
    let h : b ≤ a = ground (arith, s.0) in (h, All-le a b h xs (descending_below b xs s.1))
  where
    All-le : (a b : ℕ) → b ≤ a → (xs : List ℕ) → All (λ c. c ≤ b) xs → All (λ c. c ≤ a) xs
    All-le a b h [] k = tt
    All-le a b h (c ∷ xs) k = (omega (arith, k.0, h), All-le a b h xs k.1)

descending_tail : (a : ℕ) (xs : List ℕ) → IsSortedBy greater (a ∷ xs) → IsSortedBy greater xs
descending_tail a [] s = tt
descending_tail a (b ∷ xs) s = s.1

head_le : (a b : ℕ) (xs ys : List ℕ) → IsSortedBy greater (a ∷ xs) → Perm (b ∷ ys) (a ∷ xs) → b ≤ a
head_le a b xs ys s p =
    let below : All (λ c. c ≤ a) (a ∷ xs) = (omega arith, descending_below a xs s) in
    ∥∥₁_elim p le_prop (λ d. (All-Permᴰ (λ c. c ≤ a) (Permᴰ.symm d) below).0)

-- a list has one descending permutation
descending_unique :
    (xs ys : List ℕ) → IsSortedBy greater xs → IsSortedBy greater ys → Perm xs ys → xs ≡ ys
descending_unique [] ys s t p = Perm.nil-eq p
descending_unique (a ∷ xs) [] s t p = Perm.eq-nil p
descending_unique (a ∷ xs) (b ∷ ys) s t p =
    let e : a ≡ b = omega (arith, head_le b a ys xs t p, head_le a b xs ys s (Perm.symm p)) in
    let q = Perm.cons_inv (Perm.trans p (Perm.symm (Perm.cons' e Perm.rfl))) in
    ap₂ ◌∷◌ e (descending_unique xs ys (descending_tail a xs s) (descending_tail b ys t) q)

module _ {A : Type 0} (key : A → ℕ) where
  IsSortedBy-map :
      (xs : List A) → IsSortedBy (λ a b. ltb (key b) (key a)) xs → IsSortedBy greater (map key xs)
  IsSortedBy-map [] s = tt
  IsSortedBy-map (x ∷ []) s = tt
  IsSortedBy-map (x ∷ y ∷ xs) s = (s.0, IsSortedBy-map (y ∷ xs) s.1)

  -- what a sort leaves open is the order of equal keys only
  pub same_keys :
      (xs ys : List A)
      → IsSortedBy (λ a b. ltb (key b) (key a)) xs
      → IsSortedBy (λ a b. ltb (key b) (key a)) ys
      → Permᴰ xs ys
      → map key xs ≡ map key ys
  same_keys xs ys s t d =
      descending_unique (map key xs) (map key ys) (IsSortedBy-map xs s) (IsSortedBy-map ys t)
        (Perm.map key ∣ d ∣₁)

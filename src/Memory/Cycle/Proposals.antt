-- ===== src/Memory/Cycle/Proposals.antt =====
-- What `Decide` proposes for the records of a listing, and how much of it a limit allows.
use mathlib.Core.List.{Permᴰ}
use mathlib.Core.List.Permᴰ
use agent_memory_mcp.Base.{
  ℕ, zero, take, ◌-◌, or_more, suc, ◌+◌, ◌≡◌, refl, sym, ap, true, false, Option, none, some, List,
  [], ◌∷◌, arith, if◌then◌else◌,
}
use agent_memory_mcp.Base.Int.{ℤ, pos, negsuc}
use agent_memory_mcp.Memory.Types.{Time, Memory}
use agent_memory_mcp.Memory.Sediment.{SedimentPolicy, SedimentTransition, decide}
use agent_memory_mcp.Memory.Cycle.{is_full, is_younger}

-- what `Decide` proposes for a record that is not younger than the cutoff
abbrev pub proposal_of : SedimentPolicy → ℤ → Time → Memory → Option SedimentTransition
proposal_of policy cutoff now m = if is_younger cutoff m then none else decide m policy now

abbrev pub proposals : SedimentPolicy → ℤ → Time → List Memory → List SedimentTransition
proposals policy cutoff now [] = []
proposals policy cutoff now (m ∷ ms) =
    or_more (proposal_of policy cutoff now m) (proposals policy cutoff now ms)

-- what a limit allows of a list after n others; a limit that is not positive allows all
abbrev pub within_limit : ℤ → ℕ → List SedimentTransition → List SedimentTransition
within_limit (pos zero) n xs = xs
within_limit (pos (suc k)) n xs = take (suc k - n) xs
within_limit (negsuc k) n xs = xs

pub full-within :
    (limit : ℤ) (n : ℕ) (xs : List SedimentTransition)
    → is_full limit n ≡ true
    → within_limit limit n xs ≡ []
full-within (pos zero) n xs h = absurd (ground (arith, h))
full-within (pos (suc k)) n xs h = let e : suc k - n ≡ 0 = ground (arith, h) in rw e refl
full-within (negsuc k) n xs h = absurd (ground (arith, h))

pub next-within :
    (limit : ℤ) (n : ℕ) (x : SedimentTransition) (xs : List SedimentTransition)
    → is_full limit n ≡ false
    → within_limit limit n (x ∷ xs) ≡ x ∷ within_limit limit (n + 1) xs
next-within (pos zero) n x xs h = refl
next-within (pos (suc k)) n x xs h =
    let e : suc k - n ≡ suc (suc k - (n + 1)) = ground (arith, h) in rw e refl
next-within (negsuc k) n x xs h = refl

pub within_limit-nil : (limit : ℤ) (n : ℕ) → within_limit limit n [] ≡ []
within_limit-nil (pos zero) n = refl
within_limit-nil (pos (suc k)) n = none_taken (suc k - n)
  where
    none_taken : (n : ℕ) → ◌≡◌ {A = List SedimentTransition} (take n []) []
    none_taken zero = refl
    none_taken (suc n) = refl
within_limit-nil (negsuc k) n = refl

more-Permᴰ :
    (o o' : Option SedimentTransition) (xs ys : List SedimentTransition)
    → o ≡ o'
    → Permᴰ xs ys
    → Permᴰ (or_more o xs) (or_more o' ys)
more-Permᴰ none o' xs ys e d = rw (sym e) d
more-Permᴰ (some x) o' xs ys e d = rw (sym e) (Permᴰ.cons refl d)

swapped-Permᴰ :
    (o p : Option SedimentTransition) (xs : List SedimentTransition)
    → Permᴰ (or_more o (or_more p xs)) (or_more p (or_more o xs))
swapped-Permᴰ none p xs = Permᴰ.refl (or_more p xs)
swapped-Permᴰ (some x) none xs = Permᴰ.refl (x ∷ xs)
swapped-Permᴰ (some x) (some y) xs = Permᴰ.swap refl refl

module _ (policy : SedimentPolicy) (cutoff : ℤ) (now : Time) where
  pub proposals-Permᴰ :
      {ms ms' : List Memory}
      → Permᴰ ms ms'
      → Permᴰ (proposals policy cutoff now ms) (proposals policy cutoff now ms')
  proposals-Permᴰ Permᴰ.nil = Permᴰ.nil
  proposals-Permᴰ (Permᴰ.cons e d) =
      more-Permᴰ _ _ _ _ (ap (proposal_of policy cutoff now) e) (proposals-Permᴰ d)
  proposals-Permᴰ (Permᴰ.swap {a = a} {b = b} {l = l} e f) =
      rw (sym e, sym f)
        (swapped-Permᴰ (proposal_of policy cutoff now a) (proposal_of policy cutoff now b)
          (proposals policy cutoff now l))
  proposals-Permᴰ (Permᴰ.trans d d') = Permᴰ.trans (proposals-Permᴰ d) (proposals-Permᴰ d')

-- ===== src/Memory/Cycle/Rounds.antt =====
-- What a round of a sweep decides; and what each round keeps, the sweep keeps.
use agent_memory_mcp.Base.{
  arith, ◌≡◌, refl, Bool, true, false, Option, none, some, List, [], ◌∷◌, if◌then◌else◌,
}
use agent_memory_mcp.Base.Int.{ℤ}
use agent_memory_mcp.Memory.Types.{Memory}
use agent_memory_mcp.Memory.Sediment.{SedimentPolicy, defaults_applied, decide}
use agent_memory_mcp.Memory.World.{Env, World}
use agent_memory_mcp.Memory.Cycle.{
  SedimentCycleConfig, CycleState, consider, is_full, is_younger, decide_now, cycle_round,
  cycle_loop,
}

-- what a round decides: a review item has no proposal either
pub decide_now-decide :
    (env : Env) (policy : SedimentPolicy) (m : Memory) (w : World)
    → (decide_now env policy m w).0 ≡ decide m policy (env.now w.calls)
unfolding decide_now decide
decide_now-decide env policy m w = ground arith

module _ (env : Env) (cfg : SedimentCycleConfig) (cutoff : ℤ) (P : CycleState → Type 0)
    (considered : (m : Memory) (s : CycleState) (w : World)
      → is_full cfg.limit s.processed ≡ false
      → P s
      → P (consider env cfg.dry_run m s (decide_now env (defaults_applied cfg.policy) m w)).0) where
  abbrev PAfter : Option (CycleState × World) → Type 0
  PAfter none = Unit
  PAfter (some x) = P x.0

  cycle_round-keeps :
      (m : Memory) (x : CycleState × World) → P x.0 → PAfter (cycle_round env cfg cutoff m x)
  unfolding cycle_round
  cycle_round-keeps m (s, w) p = split (is_younger cutoff m) (is_full cfg.limit s.processed) refl
    where
      next : CycleState × World
      next = consider env cfg.dry_run m s (decide_now env (defaults_applied cfg.policy) m w)

      split :
          (young full : Bool)
          → is_full cfg.limit s.processed ≡ full
          → PAfter (if young then some (s, w) else if full then none else some next)
      split true full f = p
      split false true f = tt
      split false false f = considered m s w f p

  pub cycle_loop-keeps :
      (ms : List Memory) (x : CycleState × World) → P x.0 → P (cycle_loop env cfg cutoff ms x).0
  unfolding cycle_loop
  cycle_loop-keeps [] x p = p
  cycle_loop-keeps (m ∷ ms) x p =
      split (λ y q. cycle_loop-keeps ms y q) (cycle_round env cfg cutoff m x)
        (cycle_round-keeps m x p)
    where
      split :
          ((y : CycleState × World) → P y.0 → P (cycle_loop env cfg cutoff ms y).0)
          → (o : Option (CycleState × World)) → PAfter o
          → P
              (elim o as (λ _. CycleState × World) [
                | none ↦ x
                | some y ↦ cycle_loop env cfg cutoff ms y
              ]).0
      split ih none q = p
      split ih (some y) q = ih y q

-- ===== src/Memory/Cycle/Dry.antt =====
-- A dry run of the sediment cycle writes nothing.
use agent_memory_mcp.Base.{
  suc, ◌≡◌, refl, sym, subst, ◌∙◌, Bool, true, false, Option, none, some, List, [], ◌∷◌,
  if◌then◌else◌,
}
use agent_memory_mcp.Base.Int.{ℤ}
use agent_memory_mcp.Memory.Types.{Memory}
use agent_memory_mcp.Memory.Sediment.{SedimentTransition, SedimentPolicy, defaults_applied, decide}
use agent_memory_mcp.Memory.Engineering.{is_review_queue}
use agent_memory_mcp.Memory.World.{Env, World}
use agent_memory_mcp.Memory.World.Failing.{IsUnchanged}
use agent_memory_mcp.Memory.Reading.{list_lightweight_by, no_filters}
use agent_memory_mcp.Memory.Cycle.{
  run_sediment_cycle_by, SedimentCycleConfig, CycleState, start_state, one_applied, one_queued,
  act_on, with_transition, consider, is_full, is_younger, decide_now, cycle_round, cycle_loop,
  since_cutoff,
}
use agent_memory_mcp.Memory.Cycle.Reviews.{load_pending_sediment_reviews}

-- rows, cache and the coming failures are as they were
abbrev IsUntouched : World → World → Type 0
IsUntouched w w' = IsUnchanged w w' × (w'.faults ≡ w.faults)

act_on-IsUntouched :
    (env : Env) (m : Memory) (tr : SedimentTransition) (s : CycleState) (w : World)
    → IsUntouched w (act_on env true m tr s w).1
unfolding act_on
act_on-IsUntouched env m tr s w = split tr.auto
  where
    split :
        (auto : Bool)
        → IsUntouched w
            (if◌then◌else◌ {A = CycleState × World} auto (one_applied s, w) (one_queued s, w)).1
    split true = ((refl, refl), refl)
    split false = ((refl, refl), refl)

consider-IsUntouched :
    (env : Env) (m : Memory) (s : CycleState) (r : Option SedimentTransition × World)
    → IsUntouched r.1 (consider env true m s r).1
unfolding consider
consider-IsUntouched env m s (none, w) = ((refl, refl), refl)
consider-IsUntouched env m s (some move, w) =
    act_on-IsUntouched env m move (with_transition move s) w

decide_now-IsUntouched :
    (env : Env) (policy : SedimentPolicy) (m : Memory) (w : World)
    → IsUntouched w (decide_now env policy m w).1
unfolding decide_now
decide_now-IsUntouched env policy m w = split (is_review_queue m.metadata)
  where
    split :
        (b : Bool)
        → IsUntouched w
            (if◌then◌else◌ {A = Option SedimentTransition × World} b
              (none, w)
              (decide m policy (env.now w.calls), record w { calls = suc w.calls })).1
    split true = ((refl, refl), refl)
    split false = ((refl, refl), refl)

module _ (env : Env) (cfg : SedimentCycleConfig) (dry : cfg.dry_run ≡ true) (cutoff : ℤ) where
  round-IsUnchanged :
      (m : Memory) (x y : CycleState × World)
      → cycle_round env cfg cutoff m x ≡ some y
      → IsUnchanged x.1 y.1
  unfolding cycle_round
  round-IsUnchanged m (s, w) y e = split (is_younger cutoff m) (is_full cfg.limit s.processed) e
    where
      decided : Option SedimentTransition × World
      decided = decide_now env (defaults_applied cfg.policy) m w

      next : CycleState × World
      next = consider env cfg.dry_run m s decided

      considered : IsUnchanged w next.1
      considered =
          let a = (decide_now-IsUntouched env (defaults_applied cfg.policy) m w).0 in
          let b =
            subst (λ d. IsUntouched decided.1 (consider env d m s decided).1) (sym dry)
              (consider-IsUntouched env m s decided) in
          (b.0.0 ∙ a.0, b.0.1 ∙ a.1)

      split :
          (young full : Bool)
          → (if young then some (s, w) else if full then none else some next) ≡ some y
          → IsUnchanged w y.1
      split true full h =
          subst (λ (z : CycleState × World). IsUnchanged w z.1) {x = (s, w)} {y = y} (cc)
            (refl, refl)
      split false true h = absurd (cc)
      split false false h =
          subst (λ (z : CycleState × World). IsUnchanged w z.1) {x = next} {y = y} (cc) considered

  loop-IsUnchanged :
      (ms : List Memory) (x : CycleState × World)
      → IsUnchanged x.1 (cycle_loop env cfg cutoff ms x).1
  unfolding cycle_loop
  loop-IsUnchanged [] x = (refl, refl)
  loop-IsUnchanged (m ∷ ms) x =
      split (λ y. loop-IsUnchanged ms y) (cycle_round env cfg cutoff m x) refl
    where
      split :
          ((y : CycleState × World) → IsUnchanged y.1 (cycle_loop env cfg cutoff ms y).1)
          → (o : Option (CycleState × World)) → cycle_round env cfg cutoff m x ≡ o
          → IsUnchanged x.1
              (elim o as (λ _. CycleState × World) [
                | none ↦ x
                | some y ↦ cycle_loop env cfg cutoff ms y
              ]).1
      split ih none e = (refl, refl)
      split ih (some y) e =
          let a = round-IsUnchanged m x y e in let b = ih y in (b.0 ∙ a.0, b.1 ∙ a.1)

-- A dry run leaves rows and cache as they were, whatever order it takes the records in.
pub run_sediment_cycle_dry :
    (sort : List Memory → List Memory) (env : Env) (cfg : SedimentCycleConfig) (w : World)
    → cfg.dry_run ≡ true
    → IsUnchanged w (run_sediment_cycle_by sort env cfg w).1
unfolding run_sediment_cycle_by
run_sediment_cycle_dry sort env cfg w dry =
    loop-IsUnchanged env cfg dry (since_cutoff (env.now w.calls) cfg.since_days)
      (list_lightweight_by sort no_filters w.cache)
      (start_state (load_pending_sediment_reviews w.cache), record w { calls = suc w.calls })

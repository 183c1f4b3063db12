-- ===== src/Memory/Cycle/Agreement.antt =====
-- A sweep keeps cache and database in agreement.
use agent_memory_mcp.Base.{
  ◌≡◌, refl, suc, subst, Bool, true, false, Option, none, some, List, [], ◌∷◌, String,
  if◌then◌else◌,
}
use agent_memory_mcp.Base.Int.{ℤ}
use agent_memory_mcp.Memory.Types.{Memory, Result, ok, err}
use agent_memory_mcp.Memory.Sediment.{
  SedimentTransition, SedimentPolicy, layer_text, defaults_applied, decide,
}
use agent_memory_mcp.Memory.Engineering.{is_review_queue}
use agent_memory_mcp.Memory.World.{Env, World}
use agent_memory_mcp.Memory.World.Op.{continue, lift, ◌>>=◌}
use agent_memory_mcp.Memory.World.Calm.{IsFine}
use agent_memory_mcp.Memory.Reading.{list_lightweight_by, no_filters}
use agent_memory_mcp.Memory.Store.Writes.{store}
use agent_memory_mcp.Memory.Store.Writes.Calmly.{store-IsFine}
use agent_memory_mcp.Memory.Store.Layers.{LayerResult, promote_sediment}
use agent_memory_mcp.Memory.Store.Layers.Calmly.{promote_sediment-IsFine}
use agent_memory_mcp.Memory.Cycle.{
  run_sediment_cycle_by, SedimentCycleConfig, CycleState, start_state, one_applied, one_queued,
  after_promotion, after_review, act_on, with_transition, consider, is_full, is_younger, decide_now,
  cycle_round, cycle_loop, since_cutoff,
}
use agent_memory_mcp.Memory.Cycle.Reviews.{
  is_pending_in, sediment_review, create_sediment_review_item, load_pending_sediment_reviews,
}

create_sediment_review_item-IsFine :
    (env : Env) (m : Memory) (tr : SedimentTransition) (pending : List String) (w : World)
    → IsFine w
    → IsFine (create_sediment_review_item env m tr pending w).1
unfolding create_sediment_review_item sediment_review lift
create_sediment_review_item-IsFine env m tr pending w f = split (is_pending_in pending m.id)
  where
    answered :
        (r : Result Memory) (w' : World)
        → IsFine w'
        → IsFine (continue r (λ _. lift (ok true)) w').1
    answered (ok v) w' g = g
    answered (err e) w' g = g

    split :
        (b : Bool)
        → IsFine
            ((if b
                then lift (ok false)
                else (store env (sediment_review m tr) >>= λ _. lift (ok true)))
              w).1
    split true = f
    split false =
        answered (store env (sediment_review m tr) w).0 (store env (sediment_review m tr) w).1
          (store-IsFine env (sediment_review m tr) w (refl, refl) f)

after_promotion-IsFine :
    (tr : SedimentTransition) (s : CycleState) (r : Result LayerResult × World)
    → IsFine r.1
    → IsFine (after_promotion tr s r).1
after_promotion-IsFine tr s (ok r, w) f = f
after_promotion-IsFine tr s (err e, w) f = f

after_review-IsFine :
    (tr : SedimentTransition) (s : CycleState) (r : Result Bool × World)
    → IsFine r.1
    → IsFine (after_review tr s r).1
after_review-IsFine tr s (ok true, w) f = f
after_review-IsFine tr s (ok false, w) f = f
after_review-IsFine tr s (err e, w) f = f

act_on-IsFine :
    (env : Env) (dry_run : Bool) (m : Memory) (tr : SedimentTransition) (s : CycleState) (w : World)
    → IsFine w
    → IsFine (act_on env dry_run m tr s w).1
unfolding act_on
act_on-IsFine env dry_run m tr s w f = split tr.auto dry_run
  where
    split :
        (auto dry_run : Bool)
        → IsFine
            (if auto
              then (if dry_run
                  then (one_applied s, w)
                  else after_promotion tr s
                      (promote_sediment env tr.memory_id (layer_text tr.to) w))
              else (if dry_run
                  then (one_queued s, w)
                  else after_review tr s (create_sediment_review_item env m tr s.pending w))).1
    split true true = f
    split false true = f
    split true false =
        after_promotion-IsFine tr s _
          (promote_sediment-IsFine env tr.memory_id (layer_text tr.to) w f)
    split false false =
        after_review-IsFine tr s _ (create_sediment_review_item-IsFine env m tr s.pending w f)

decide_now-IsFine :
    (env : Env) (policy : SedimentPolicy) (m : Memory) (w : World)
    → IsFine w
    → IsFine (decide_now env policy m w).1
unfolding decide_now
decide_now-IsFine env policy m w f = split (is_review_queue m.metadata)
  where
    split :
        (b : Bool)
        → IsFine
            (if◌then◌else◌ {A = Option SedimentTransition × World} b
              (none, w)
              (decide m policy (env.now w.calls), record w { calls = suc w.calls })).1
    split true = f
    split false = f

consider-IsFine :
    (env : Env) (dry_run : Bool) (m : Memory) (s : CycleState)
    (r : Option SedimentTransition × World)
    → IsFine r.1
    → IsFine (consider env dry_run m s r).1
unfolding consider
consider-IsFine env dry_run m s (none, w) f = f
consider-IsFine env dry_run m s (some move, w) f =
    act_on-IsFine env dry_run m move (with_transition move s) w f

module _ (env : Env) (cfg : SedimentCycleConfig) (cutoff : ℤ) where
  round-IsFine :
      (m : Memory) (x y : CycleState × World)
      → IsFine x.1
      → cycle_round env cfg cutoff m x ≡ some y
      → IsFine y.1
  unfolding cycle_round
  round-IsFine m (s, w) y f e = split (is_younger cutoff m) (is_full cfg.limit s.processed) e
    where
      next : CycleState × World
      next = consider env cfg.dry_run m s (decide_now env (defaults_applied cfg.policy) m w)

      split :
          (young full : Bool)
          → (if young then some (s, w) else if full then none else some next) ≡ some y
          → IsFine y.1
      split true full h = subst (λ (z : CycleState × World). IsFine z.1) {x = (s, w)} {y = y} (cc) f
      split false true h = absurd (cc)
      split false false h =
          subst (λ (z : CycleState × World). IsFine z.1) {x = next} {y = y} (cc)
            (consider-IsFine env cfg.dry_run m s (decide_now env (defaults_applied cfg.policy) m w)
              (decide_now-IsFine env (defaults_applied cfg.policy) m w f))

  loop-IsFine :
      (ms : List Memory) (x : CycleState × World)
      → IsFine x.1
      → IsFine (cycle_loop env cfg cutoff ms x).1
  unfolding cycle_loop
  loop-IsFine [] x f = f
  loop-IsFine (m ∷ ms) x f = split (λ y. loop-IsFine ms y) (cycle_round env cfg cutoff m x) refl
    where
      split :
          ((y : CycleState × World) → IsFine y.1 → IsFine (cycle_loop env cfg cutoff ms y).1)
          → (o : Option (CycleState × World)) → cycle_round env cfg cutoff m x ≡ o
          → IsFine
              (elim o as (λ _. CycleState × World) [
                | none ↦ x
                | some y ↦ cycle_loop env cfg cutoff ms y
              ]).1
      split ih none e = f
      split ih (some y) e = ih y (round-IsFine m x y f e)

-- Where no SQL call fails, a sweep keeps cache and database in agreement, whatever order it takes the records in.
pub run_sediment_cycle-IsFine :
    (sort : List Memory → List Memory) (env : Env) (cfg : SedimentCycleConfig) (w : World)
    → IsFine w
    → IsFine (run_sediment_cycle_by sort env cfg w).1
unfolding run_sediment_cycle_by
run_sediment_cycle-IsFine sort env cfg w f =
    loop-IsFine env cfg (since_cutoff (env.now w.calls) cfg.since_days)
      (list_lightweight_by sort no_filters w.cache)
      (start_state (load_pending_sediment_reviews w.cache), record w { calls = suc w.calls }) f

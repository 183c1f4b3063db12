-- ===== src/Memory/Cycle/Sparing.antt =====
-- The number of reviews that a sweep queues, against those that are open.
use agent_memory_mcp.Base.{
  ℕ, suc, ◌+◌, ◌≤◌, ◌||◌, ◌++◌, Bool, Bool-cases, if◌then◌else◌, String, ◌≡◌, refl, sym, ap, ◌∙◌,
  true, false, Option, none, some, List, [], ◌∷◌, arith, inl, inr,
}
use agent_memory_mcp.Text.{is_empty}
use agent_memory_mcp.Dict.{lookup}
use agent_memory_mcp.Memory.Types.{Memory, Result, ok, err}
use agent_memory_mcp.Memory.Sediment.{
  SedimentTransition, SedimentPolicy, layer_text, defaults_applied,
}
use agent_memory_mcp.Memory.Sediment.Ladder.{decide-IsStep}
use agent_memory_mcp.Memory.Store.Layers.{LayerResult, promote_sediment}
use agent_memory_mcp.Memory.Cycle.{
  SedimentCycleConfig, CycleState, start_state, with_transition, after_promotion, after_review,
  act_on, consider, decide_now, since_cutoff, run_sediment_cycle_by,
}
use agent_memory_mcp.Memory.Cycle.Rounds.{cycle_loop-keeps, decide_now-decide}
use agent_memory_mcp.Memory.World.{Env, World}
use agent_memory_mcp.Memory.World.Op.{lift}
use agent_memory_mcp.Memory.World.Saving.{Agrees}
use agent_memory_mcp.Memory.Reading.{list_lightweight_by, no_filters}
use agent_memory_mcp.Memory.Cycle.Reviews.{
  is_pending_in, create_sediment_review_item, load_pending_sediment_reviews,
}
use agent_memory_mcp.Memory.Cycle.Pending.{IsOpenReview, open_review-IsPending}

-- the transitions that need a review and are of records not known to have one
abbrev pub unreviewed : (String → Bool) → List SedimentTransition → ℕ
unreviewed known [] = 0
unreviewed known (tr ∷ ts) =
    let rest = unreviewed known ts in if tr.auto || known tr.memory_id then rest else suc rest

module _ (known : String → Bool) where
  unreviewed-append :
      (ts : List SedimentTransition) (tr : SedimentTransition)
      → unreviewed known (ts ++ (tr ∷ []))
        ≡ unreviewed known ts + (if tr.auto || known tr.memory_id then 0 else 1)
  unreviewed-append [] tr = ground arith
  unreviewed-append (t ∷ ts) tr = ground (arith, unreviewed-append ts tr)

  -- no more reviews are queued than were missing, and the known ones stay pending
  record IsSparing (s : CycleState) : Type 0 where
    bounded : s.review_queued ≤ unreviewed known s.transitions
    covers : (id : String) → known id ≡ true → is_pending_in s.pending id ≡ true

  reported-IsSparing :
      (tr : SedimentTransition) (s : CycleState) → IsSparing s → IsSparing (with_transition tr s)
  reported-IsSparing tr s k = record {
    bounded = omega (arith, unreviewed-append s.transitions tr, k.bounded);
    covers = k.covers;
  }

  after_promotion-IsSparing :
      (tr : SedimentTransition) (s : CycleState) (r : Result LayerResult × World)
      → IsSparing s
      → IsSparing (after_promotion tr s r).0
  after_promotion-IsSparing tr s (ok r, w) k = record { bounded = k.bounded; covers = k.covers }
  after_promotion-IsSparing tr s (err e, w) k = record { bounded = k.bounded; covers = k.covers }

  after_review-IsSparing :
      (tr : SedimentTransition) (s : CycleState) (r : Result Bool × World)
      → suc s.review_queued ≤ unreviewed known s.transitions
      → IsSparing s
      → IsSparing (after_review tr s r).0
  after_review-IsSparing tr s (ok true, w) h k = record {
    bounded = omega (arith, h);
    covers = λ id e. ground (arith, k.covers id e);
  }
  after_review-IsSparing tr s (ok false, w) h k = k
  after_review-IsSparing tr s (err e, w) h k = record { bounded = k.bounded; covers = k.covers }

  module _ (env : Env) (m : Memory) (tr : SedimentTransition) (s : CycleState) (w : World)
      (same : tr.memory_id ≡ m.id) (k : IsSparing s) where
    -- a record that is pending is passed over, and one that is not is not known
    reviewed-IsSparing :
        tr.auto ≡ false
        → IsSparing
            (after_review tr
              (with_transition tr s)
              (create_sediment_review_item env m tr s.pending w)).0
    unfolding create_sediment_review_item lift
    reviewed-IsSparing a = elim (Bool-cases (is_pending_in s.pending m.id)) [
      | inl p ↦ rw (p, create_sediment_review_item) (reported-IsSparing tr s k)
      | inr p ↦
          let missing : known tr.memory_id ≡ false = ground (arith, k.covers m.id, ap known same) in
          let one_more : 1 ≤ (if tr.auto || known tr.memory_id then 0 else 1) =
            ground (arith, a, missing) in
          after_review-IsSparing tr (with_transition tr s)
            (create_sediment_review_item env m tr s.pending w)
            (omega (arith, unreviewed-append s.transitions tr, k.bounded, one_more))
            (reported-IsSparing tr s k)
    ]

    act_on-IsSparing : IsSparing (act_on env false m tr (with_transition tr s) w).0
    unfolding act_on
    act_on-IsSparing = split tr.auto refl
      where
        split :
            (b : Bool)
            → tr.auto ≡ b
            → IsSparing
                (if b
                  then after_promotion tr
                      (with_transition tr s)
                      (promote_sediment env tr.memory_id (layer_text tr.to) w)
                  else after_review tr
                      (with_transition tr s)
                      (create_sediment_review_item env m tr s.pending w)).0
        split true a =
            after_promotion-IsSparing tr (with_transition tr s)
              (promote_sediment env tr.memory_id (layer_text tr.to) w) (reported-IsSparing tr s k)
        split false a = reviewed-IsSparing a

  considered-IsSparing :
      (env : Env) (m : Memory) (s : CycleState) (o : Option SedimentTransition) (w : World)
      → ((tr : SedimentTransition) → o ≡ some tr → tr.memory_id ≡ m.id)
      → IsSparing s
      → IsSparing (consider env false m s (o, w)).0
  unfolding consider
  considered-IsSparing env m s none w same k = record { bounded = k.bounded; covers = k.covers }
  considered-IsSparing env m s (some tr) w same k = act_on-IsSparing env m tr s w (same tr refl) k

  consider-IsSparing :
      (env : Env) (policy : SedimentPolicy) (m : Memory) (s : CycleState) (w : World)
      → IsSparing s
      → IsSparing (consider env false m s (decide_now env policy m w)).0
  consider-IsSparing env policy m s w k =
      let next = decide_now env policy m w in
      considered-IsSparing env m s next.0 next.1
        (λ tr e.
          (decide-IsStep m policy (env.now w.calls) tr
            (sym (decide_now-decide env policy m w) ∙ e)).2)
        k

-- Where cache and database agree, a sweep that writes queues no more reviews than it reports transitions that need one and
-- are of records for which no review item of a sweep is open in the database when it starts.
pub run_sediment_cycle-IsSparing :
    (sort : List Memory → List Memory) (env : Env) (cfg : SedimentCycleConfig) (w : World)
    (known : String → Bool)
    → cfg.dry_run ≡ false
    → Agrees w
    → ((id : String)
        → known id ≡ true
        → (is_empty id ≡ false)
          × (k : String) × (item : Memory) × (lookup k w.rows ≡ some item)
          × IsOpenReview id item)
    → (run_sediment_cycle_by sort env cfg w).0.review_queued
      ≤ unreviewed known (run_sediment_cycle_by sort env cfg w).0.transitions
unfolding run_sediment_cycle_by
run_sediment_cycle-IsSparing sort env cfg w known live s reviews =
    let pending = load_pending_sediment_reviews w.cache in
    let first : IsSparing known (start_state pending) = record {
      bounded = omega arith;
      covers = λ id h.
          let (n, k, item, e, o) = reviews id h in open_review-IsPending w id k item s n e o;
    } in
    (cycle_loop-keeps env cfg (since_cutoff (env.now w.calls) cfg.since_days) (IsSparing known)
      (λ m t v f k. rw live (consider-IsSparing known env (defaults_applied cfg.policy) m t v k))
      (list_lightweight_by sort no_filters w.cache)
      (start_state pending, record w { calls = suc w.calls }) first).bounded

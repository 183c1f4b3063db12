-- ===== src/Memory/Cycle/Counts.antt =====
-- What the counters of a sweep add up to.
use agent_memory_mcp.Base.{
  List, suc, ◌+◌, ◌≤◌, ◌≡◌, refl, sym, ap, ◌∙◌, Bool, true, false, ◌⊎◌, inl, inr, Option, none,
  some, [], ◌∷◌, length, length-append, arith, if◌then◌else◌,
}
use agent_memory_mcp.Base.Int.{ℤ, pos, ◌≤ℤ◌}
use agent_memory_mcp.Memory.Types.{Memory, Result, ok, err}
use agent_memory_mcp.Memory.Sediment.{SedimentTransition, layer_text, defaults_applied}
use agent_memory_mcp.Memory.Reading.{list_lightweight_by, no_filters}
use agent_memory_mcp.Memory.World.{Env, World}
use agent_memory_mcp.Memory.Store.Layers.{LayerResult, promote_sediment}
use agent_memory_mcp.Memory.Cycle.{
  run_sediment_cycle_by, SedimentCycleConfig, SedimentCycleResult, CycleState, one_applied,
  one_queued, start_state, after_promotion, after_review, act_on, with_transition, consider,
  is_full, decide_now, since_cutoff,
}
use agent_memory_mcp.Memory.Cycle.Rounds.{cycle_loop-keeps}
use agent_memory_mcp.Memory.Cycle.Reviews.{
  create_sediment_review_item, load_pending_sediment_reviews,
}

-- every transition is applied, queued, failed, or has a review item already; a preview applies or queues each
pub record IsTally (dry_run : Bool) (s : CycleState) : Type 0 where
  pub listed : length s.transitions ≡ s.processed
  pub bounded : s.auto_applied + s.review_queued + length s.errors ≤ s.processed
  pub previewed :
      (dry_run ≡ false) ⊎ ((s.auto_applied + s.review_queued ≡ s.processed) × (s.errors ≡ []))

-- at most as many transitions as the limit allows
abbrev pub IsWithin : ℤ → CycleState → Type 0
IsWithin limit s = (limit ≤ℤ pos 0) ⊎ (pos s.processed ≤ℤ limit)

length-with_transition :
    (tr : SedimentTransition) (s : CycleState)
    → length (with_transition tr s).transitions ≡ suc (length s.transitions)
length-with_transition tr s = ground (arith, length-append s.transitions (tr ∷ []))

-- what acting on a transition may do to the state
abbrev Acted : Bool → CycleState → CycleState → Type 0
Acted dry_run s t =
    (t.transitions ≡ s.transitions)
    × (t.processed ≡ s.processed)
    × (((t.auto_applied + t.review_queued ≡ suc (s.auto_applied + s.review_queued))
          × (t.errors ≡ s.errors))
        ⊎ ((dry_run ≡ false)
            × (t.auto_applied + t.review_queued + length t.errors
                ≤ suc (s.auto_applied + s.review_queued + length s.errors))))

after_promotion-Acted :
    (tr : SedimentTransition) (s : CycleState) (r : Result LayerResult × World)
    → Acted false s (after_promotion tr s r).0
after_promotion-Acted tr s (ok r, w) = (refl, refl, inl (omega arith, refl))
after_promotion-Acted tr s (err e, w) = (
  refl,
  refl,
  inr (refl, omega (arith, length-append s.errors (record { transition = tr; error = e } ∷ []))),
)

after_review-Acted :
    (tr : SedimentTransition) (s : CycleState) (r : Result Bool × World)
    → Acted false s (after_review tr s r).0
after_review-Acted tr s (ok true, w) = (refl, refl, inl (omega arith, refl))
after_review-Acted tr s (ok false, w) = (refl, refl, inr (refl, omega arith))
after_review-Acted tr s (err e, w) = (
  refl,
  refl,
  inr (refl, omega (arith, length-append s.errors (record { transition = tr; error = e } ∷ []))),
)

act_on-Acted :
    (env : Env) (dry_run : Bool) (m : Memory) (tr : SedimentTransition) (s : CycleState) (w : World)
    → Acted dry_run s (act_on env dry_run m tr s w).0
unfolding act_on
act_on-Acted env dry_run m tr s w = split tr.auto dry_run
  where
    promoted : Result LayerResult × World
    promoted = promote_sediment env tr.memory_id (layer_text tr.to) w

    reviewed : Result Bool × World
    reviewed = create_sediment_review_item env m tr s.pending w

    split :
        (auto dry_run : Bool)
        → Acted dry_run s
            (if auto
              then (if dry_run then (one_applied s, w) else after_promotion tr s promoted)
              else (if dry_run then (one_queued s, w) else after_review tr s reviewed)).0
    split true true = (refl, refl, inl (omega arith, refl))
    split false true = (refl, refl, inl (omega arith, refl))
    split true false = after_promotion-Acted tr s promoted
    split false false = after_review-Acted tr s reviewed

Acted-IsTally :
    (dry_run : Bool) (tr : SedimentTransition) (s t : CycleState)
    → IsTally dry_run s
    → Acted dry_run (with_transition tr s) t
    → IsTally dry_run t
Acted-IsTally dry_run tr s t i (p, q, k) = record {
  listed = ap length p ∙ length-with_transition tr s ∙ ap suc i.listed ∙ omega (arith, q);
  bounded = elim k [
    | inl (a, e) ↦ omega (arith, a, i.bounded, q, ap length e)
    | inr (d, a) ↦ omega (arith, a, i.bounded, q)
  ];
  previewed = elim k [
    | inl (a, e) ↦ elim i.previewed [
      | inl d ↦ inl d
      | inr (b, n) ↦ inr (omega (arith, a, b, q), e ∙ n)
    ]
    | inr (d, a) ↦ inl d
  ];
}

-- both hold of a state
abbrev IsGood : Bool → ℤ → CycleState → Type 0
IsGood dry_run limit s = IsTally dry_run s × IsWithin limit s

consider-IsGood :
    (env : Env) (dry_run : Bool) (limit : ℤ) (m : Memory) (s : CycleState)
    (r : Option SedimentTransition × World)
    → is_full limit s.processed ≡ false
    → IsGood dry_run limit s
    → IsGood dry_run limit (consider env dry_run m s r).0
unfolding consider
consider-IsGood env dry_run limit m s (none, w) f (i, k) =
    (record { listed = i.listed; bounded = i.bounded; previewed = i.previewed }, k)
consider-IsGood env dry_run limit m s (some move, w) f (i, k) =
    let a = act_on-Acted env dry_run m move (with_transition move s) w in
    (
      Acted-IsTally dry_run move s (act_on env dry_run m move (with_transition move s) w).0 i a,
      ground (arith, a.1, f),
    )

-- the result of a sweep adds up
pub record AddsUp (cfg : SedimentCycleConfig) (r : SedimentCycleResult) : Type 0 where
  pub bounded : r.auto_applied + r.review_queued + length r.errors ≤ length r.transitions
  pub previewed :
      (cfg.dry_run ≡ false)
      ⊎ ((r.auto_applied + r.review_queued ≡ length r.transitions) × (r.errors ≡ []))
  pub limited : (cfg.limit ≤ℤ pos 0) ⊎ (pos (length r.transitions) ≤ℤ cfg.limit)

-- A sweep, whatever order it takes the records in, reports no more transitions than a positive limit allows; the applied, the queued and the failed ones together are
-- no more than those reported; and a dry run counts each reported transition as applied or queued, and reports no error.
pub run_sediment_cycle-AddsUp :
    (sort : List Memory → List Memory) (env : Env) (cfg : SedimentCycleConfig) (w : World)
    → AddsUp cfg (run_sediment_cycle_by sort env cfg w).0
unfolding run_sediment_cycle_by
run_sediment_cycle-AddsUp sort env cfg w =
    let start = start_state (load_pending_sediment_reviews w.cache) in
    let cutoff = since_cutoff (env.now w.calls) cfg.since_days in
    let first : IsGood cfg.dry_run cfg.limit start = (
      record { listed = refl; bounded = omega arith; previewed = inr (refl, refl) },
      ground arith,
    ) in
    let (t, k) =
      cycle_loop-keeps env cfg cutoff (IsGood cfg.dry_run cfg.limit)
        (λ m s v f g.
          consider-IsGood env cfg.dry_run cfg.limit m s
            (decide_now env (defaults_applied cfg.policy) m v) f g)
        (list_lightweight_by sort no_filters w.cache) (start, record w { calls = suc w.calls })
        first in
    record {
      bounded = omega (arith, t.bounded, t.listed);
      previewed = elim t.previewed [ inl d ↦ inl d | inr (a, b) ↦ inr (a ∙ sym t.listed, b) ];
      limited = ground (arith, k, t.listed);
    }

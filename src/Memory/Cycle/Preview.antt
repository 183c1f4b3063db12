-- ===== src/Memory/Cycle/Preview.antt =====
-- The transitions that a sweep reports, whether it writes or not.
use mathlib.Core.List.{Permᴰ, append_assoc, append-nil}
use mathlib.Core.List.Permᴰ
use agent_memory_mcp.Base.{
  ℕ, map, Bool-cases, inl, inr, or_more, suc, ◌+◌, ◌≡◌, refl, sym, ap, ap₂, ◌∙◌, Bool, true, false,
  Option, none, some, List, [], ◌∷◌, ◌++◌, if◌then◌else◌,
}
use agent_memory_mcp.Base.Int.{ℤ}
use agent_memory_mcp.Base.Sorting.{filter}
use agent_memory_mcp.Memory.Types.{Time, Memory, Result, ok, err}
use agent_memory_mcp.Memory.Sediment.{SedimentTransition, layer_text, defaults_applied, decide}
use agent_memory_mcp.Memory.World.{Env, World}
use agent_memory_mcp.Memory.Reading.{
  matches, snapshot_for_context, cached_to_memory, no_filters, list_lightweight_by,
}
use agent_memory_mcp.Memory.Store.Layers.{LayerResult, promote_sediment}
use agent_memory_mcp.Memory.Cycle.{
  run_sediment_cycle_by, SedimentCycleConfig, CycleState, start_state, round_skipped, one_applied,
  one_queued, after_promotion, after_review, act_on, with_transition, consider, is_full, is_younger,
  decide_now, cycle_round, cycle_loop, since_cutoff,
}
use agent_memory_mcp.Memory.Cycle.Rounds.{decide_now-decide}
use agent_memory_mcp.Memory.Cycle.Proposals.{
  proposals, within_limit, full-within, next-within, within_limit-nil, proposals-Permᴰ,
}
use agent_memory_mcp.Memory.Cycle.Reviews.{
  create_sediment_review_item, load_pending_sediment_reviews,
}

-- the same transitions and the same counters of rounds
abbrev Alike : CycleState → CycleState → Type 0
Alike s t = (s.transitions ≡ t.transitions) × (s.processed ≡ t.processed) × (s.skipped ≡ t.skipped)

after_promotion-Alike :
    (tr : SedimentTransition) (s : CycleState) (r : Result LayerResult × World)
    → Alike (after_promotion tr s r).0 s
after_promotion-Alike tr s (ok r, w) = (refl, refl, refl)
after_promotion-Alike tr s (err e, w) = (refl, refl, refl)

after_review-Alike :
    (tr : SedimentTransition) (s : CycleState) (r : Result Bool × World)
    → Alike (after_review tr s r).0 s
after_review-Alike tr s (ok true, w) = (refl, refl, refl)
after_review-Alike tr s (ok false, w) = (refl, refl, refl)
after_review-Alike tr s (err e, w) = (refl, refl, refl)

act_on-Alike :
    (env : Env) (dry_run : Bool) (m : Memory) (tr : SedimentTransition) (s : CycleState) (w : World)
    → Alike (act_on env dry_run m tr s w).0 s
unfolding act_on
act_on-Alike env dry_run m tr s w = split tr.auto dry_run
  where
    promoted : Result LayerResult × World
    promoted = promote_sediment env tr.memory_id (layer_text tr.to) w

    reviewed : Result Bool × World
    reviewed = create_sediment_review_item env m tr s.pending w

    split :
        (auto dry_run : Bool)
        → Alike
            (if auto
              then (if dry_run then (one_applied s, w) else after_promotion tr s promoted)
              else (if dry_run then (one_queued s, w) else after_review tr s reviewed)).0
            s
    split true true = (refl, refl, refl)
    split false true = (refl, refl, refl)
    split true false = after_promotion-Alike tr s promoted
    split false false = after_review-Alike tr s reviewed

module _ (env : Env) (now : Time) (still : (n : ℕ) → env.now n ≡ now) (cfg : SedimentCycleConfig)
    (cutoff : ℤ) where
  abbrev proposed : List Memory → List SedimentTransition
  proposed ms = proposals (defaults_applied cfg.policy) cutoff now ms

  decided :
      (m : Memory) (w : World)
      → (decide_now env (defaults_applied cfg.policy) m w).0
        ≡ decide m (defaults_applied cfg.policy) now
  decided m w =
      decide_now-decide env (defaults_applied cfg.policy) m w
      ∙ ap (decide m (defaults_applied cfg.policy)) (still w.calls)

  abbrev Reports : List Memory → Type 0
  Reports ms =
      (s : CycleState) (w : World)
      → (cycle_loop env cfg cutoff ms (s, w)).0.transitions
        ≡ s.transitions ++ within_limit cfg.limit s.processed (proposed ms)

  considered :
      (m : Memory) (ms : List Memory) (s : CycleState) (o : Option SedimentTransition) (w : World)
      → is_full cfg.limit s.processed ≡ false
      → Reports ms
      → (cycle_loop env cfg cutoff ms (consider env cfg.dry_run m s (o, w))).0.transitions
        ≡ s.transitions ++ within_limit cfg.limit s.processed (or_more o (proposed ms))
  unfolding consider
  considered m ms s none w f ih = ih (round_skipped s) w
  considered m ms s (some tr) w f ih =
      let next = act_on env cfg.dry_run m tr (with_transition tr s) w in
      let (a, b, c) = act_on-Alike env cfg.dry_run m tr (with_transition tr s) w in
      ih next.0 next.1
      ∙ ap₂ (λ ts n. ts ++ within_limit cfg.limit n (proposed ms)) a b
      ∙ append_assoc s.transitions (tr ∷ [])
          (within_limit cfg.limit (s.processed + 1) (proposed ms))
      ∙ ap (λ ts. s.transitions ++ ts) (sym (next-within cfg.limit s.processed tr (proposed ms) f))

  -- the loop reports the proposals, as far as its limit allows
  loop-Reports : (ms : List Memory) → Reports ms
  unfolding cycle_loop cycle_round
  loop-Reports [] s w = sym (
      ap (λ ts. s.transitions ++ ts) (within_limit-nil cfg.limit s.processed)
      ∙ append-nil s.transitions)
  loop-Reports (m ∷ ms) s w = round m (loop-Reports ms)
    where
      round :
          (m : Memory)
          → Reports ms
          → (cycle_loop env cfg cutoff (m ∷ ms) (s, w)).0.transitions
            ≡ s.transitions ++ within_limit cfg.limit s.processed (proposed (m ∷ ms))
      round m ih = elim (Bool-cases (is_younger cutoff m)) [
        | inl y ↦ rw (y, cycle_loop, cycle_round) (ih s w)
        | inr y ↦ elim (Bool-cases (is_full cfg.limit s.processed)) [
          | inl f ↦
              let e =
                full-within cfg.limit s.processed
                  (or_more (decide m (defaults_applied cfg.policy) now) (proposed ms)) f in
              rw (y, f, cycle_loop, cycle_round)
                (sym (ap (λ ts. s.transitions ++ ts) e ∙ append-nil s.transitions))
          | inr f ↦
              let next = decide_now env (defaults_applied cfg.policy) m w in
              rw (y, f, cycle_loop, cycle_round)
                (considered m ms s next.0 next.1 f ih
                  ∙ ap
                      (λ o.
                        s.transitions
                        ++ within_limit cfg.limit s.processed (or_more o (proposed ms)))
                      (decided m w))
        ]
      ]

-- Where the clock stands still, a dry run, and the same sweep when it writes and whatever fails then, each report
-- the proposals of `Decide` for those records of their listing that are not too young, in the listing's order and as many
-- as the limit allows; and the proposals for both listings are the same, up to their order, whatever orders
-- the range over the cache and the sort give to each of the two.
pub run_sediment_cycle_previews :
    (sort sort' : List Memory → List Memory) (env : Env) (now : Time) (cfg : SedimentCycleConfig)
    (w : World)
    → ((ms : List Memory) → Permᴰ (sort ms) ms)
    → ((ms : List Memory) → Permᴰ (sort' ms) ms)
    → ((n : ℕ) → env.now n ≡ now)
    → ((run_sediment_cycle_by sort env (record cfg { dry_run = true }) w).0.transitions
        ≡ within_limit cfg.limit 0 (
            proposals
              (defaults_applied cfg.policy)
              (since_cutoff now cfg.since_days)
              now
              (list_lightweight_by sort no_filters w.cache)))
      × ((run_sediment_cycle_by sort' env (record cfg { dry_run = false }) w).0.transitions
          ≡ within_limit cfg.limit 0 (
              proposals
                (defaults_applied cfg.policy)
                (since_cutoff now cfg.since_days)
                now
                (list_lightweight_by sort' no_filters w.cache)))
      × Permᴰ
          (proposals
            (defaults_applied cfg.policy)
            (since_cutoff now cfg.since_days)
            now
            (list_lightweight_by sort no_filters w.cache))
          (proposals
            (defaults_applied cfg.policy)
            (since_cutoff now cfg.since_days)
            now
            (list_lightweight_by sort' no_filters w.cache))
unfolding run_sediment_cycle_by list_lightweight_by
run_sediment_cycle_previews sort sort' env now cfg w perm perm' still =
    let start = start_state (load_pending_sediment_reviews w.cache) in
    let w' = record w { calls = suc w.calls } in
    let cutoff = since_cutoff now cfg.since_days in
    let ms = map cached_to_memory (filter (matches no_filters) (snapshot_for_context "" w.cache)) in
    (
      rw (still w.calls)
          (loop-Reports env now still (record cfg { dry_run = true }) cutoff (sort ms) start w'),
      rw (still w.calls)
          (loop-Reports env now still (record cfg { dry_run = false }) cutoff (sort' ms) start w'),
      proposals-Permᴰ (defaults_applied cfg.policy) cutoff now
          (Permᴰ.trans (perm ms) (Permᴰ.symm (perm' ms))),
    )

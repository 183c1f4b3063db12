-- ===== src/Lifecycle/ArchiveSweep/Preview.antt =====
-- A dry run of a sweep writes nothing, and its forecast is what the sweep then does, unless a write fails.
use agent_memory_mcp.Base.{
  ◌+◌, String, ◌≡◌, refl, ap, ◌∙◌, Bool, true, false, ◌&&◌, ◌⊎◌, inl, inr, List, [], ◌∷◌, ◌++◌,
  is_nil, if◌then◌else◌,
}
use agent_memory_mcp.Memory.Types.{Memory, Result, ok, err}
use agent_memory_mcp.Memory.Engineering.{promotion_allowed}
use agent_memory_mcp.Memory.World.{World}
use agent_memory_mcp.Memory.Store.Supersede.{mark_outdated}
use agent_memory_mcp.Memory.Store.Canonical.{promote_to_canonical}
use agent_memory_mcp.Lifecycle.ArchiveSweep.{
  SweepEnv, ArchiveSweepConfig, ActionKind, mark_outdated_action, promotion_candidate,
  already_outdated, skipped_non_working, skipped_review_queue_item, skipped_keep_tag,
  skipped_promotion_disabled, decide_action, decide_kind, outdated_reason,
  create_promotion_candidate, reviewed_targets,
}
use agent_memory_mcp.Lifecycle.ArchiveSweep.Slugs.{
  SlugStats, SweepFailure, SweepState, Outcome, done, refused, cancelled, one_outdated,
  one_candidate, one_promoted, one_skipped, reviewed_now, counted, take_action, noted, sweep_memory,
  next_interrupt, sweep_memories, no_stats, closed_slug, sweep_cohort, cohort, sweep_slug,
}

-- the same actions, and the same counters unless a write failed
abbrev pub Forecasts : SweepState → SweepState → Type 0
Forecasts p s =
    (p.actions ≡ s.actions)
    × (p.interrupts ≡ s.interrupts)
    × ((is_nil s.errors ≡ false)
        ⊎ ((p.stats ≡ s.stats)
            × (p.total_outdated ≡ s.total_outdated)
            × (p.total_promotion_cand ≡ s.total_promotion_cand)
            × (p.total_promoted ≡ s.total_promoted)
            × (p.total_skipped ≡ s.total_skipped)))

-- a counter that a preview and a sweep move alike
record IsCounter (preview count : SweepState → SweepState) : Type 0 where
  pub follows : (p s : SweepState) → Forecasts p s → Forecasts (preview p) (count s)
  pub quiet :
      (p : SweepState) → ((preview p).actions ≡ p.actions) × ((preview p).interrupts ≡ p.interrupts)

is_nil-append : (l : List SweepFailure) (x : SweepFailure) → is_nil (l ++ (x ∷ [])) ≡ false
is_nil-append [] x = refl
is_nil-append (y ∷ l) x = refl

counted-Forecasts :
    (id : String) (preview count : SweepState → SweepState) (p s : SweepState)
    (r : Result (Unit {0}) × World)
    → IsCounter preview count
    → Forecasts p s
    → Forecasts (preview p) (counted id count s r).0
counted-Forecasts id preview count p s (ok u, w) c f = c.follows p s f
counted-Forecasts id preview count p s (err e, w) c (a, i, k) =
    let (qa, qi) = c.quiet p in
    (qa ∙ a, qi ∙ i, inl (is_nil-append s.errors (record { memory_id = id; error = e })))

outdated-IsCounter : IsCounter one_outdated one_outdated
outdated-IsCounter = record {
  follows = λ p s f. (
    f.0,
    f.1,
    elim f.2 [
      | inl n ↦ inl n
      | inr (a, b, c, d, e) ↦ inr (
        ap (λ (x : SlugStats). record x { outdated_count = x.outdated_count + 1 }) a,
        ap (λ n. n + 1) b,
        c,
        d,
        e,
      )
    ],
  );
  quiet = λ p. (refl, refl);
}

promoted-IsCounter : IsCounter one_promoted one_promoted
promoted-IsCounter = record {
  follows = λ p s f. (
    f.0,
    f.1,
    elim f.2 [
      | inl n ↦ inl n
      | inr (a, b, c, d, e) ↦ inr (
        ap (λ (x : SlugStats). record x { promoted = x.promoted + 1 }) a,
        b,
        c,
        ap (λ n. n + 1) d,
        e,
      )
    ],
  );
  quiet = λ p. (refl, refl);
}

candidate-IsCounter : (id : String) → IsCounter one_candidate (reviewed_now id)
candidate-IsCounter id = record {
  follows = λ p s f. (
    f.0,
    f.1,
    elim f.2 [
      | inl n ↦ inl n
      | inr (a, b, c, d, e) ↦ inr (
        ap (λ (x : SlugStats). record x { promotion_candidates = x.promotion_candidates + 1 }) a,
        b,
        ap (λ n. n + 1) c,
        d,
        e,
      )
    ],
  );
  quiet = λ p. (refl, refl);
}

skipped-Forecasts : (p s : SweepState) → Forecasts p s → Forecasts (one_skipped p) (one_skipped s)
skipped-Forecasts p s (a, i, k) = (
  a,
  i,
  elim k [
    | inl n ↦ inl n
    | inr (a, b, c, d, e) ↦
        inr (
          ap (λ (x : SlugStats). record x { skipped = x.skipped + 1 }) a,
          b,
          c,
          d,
          ap (λ n. n + 1) e,
        )
  ],
)

-- what a preview's outcome and a sweep's have in common
abbrev pub SameOutcome : Outcome SweepState → Outcome SweepState → Type 0
SameOutcome (done p) (done s) = Forecasts p s
SameOutcome (refused e) (refused x) = e ≡ x
SameOutcome (done p) (refused x) = ⊥
SameOutcome (refused e) (done s) = ⊥

abbrev pub as_preview : Bool → ArchiveSweepConfig → ArchiveSweepConfig
as_preview dry_run cfg = record cfg { dry_run = dry_run }

module _ (env : SweepEnv) (cfg : ArchiveSweepConfig) (slug : String) where
  take_action-Forecasts :
      (m : Memory) (kind : ActionKind) (p s : SweepState) (w w' : World)
      → Forecasts p s
      → Forecasts
          (take_action env (as_preview true cfg) slug m kind p w).0
          (take_action env (as_preview false cfg) slug m kind s w').0
  unfolding take_action
  take_action-Forecasts m mark_outdated_action p s w w' f =
      counted-Forecasts m.id one_outdated one_outdated p s
        (mark_outdated env.store_env m.id (outdated_reason slug) "" w') outdated-IsCounter f
  take_action-Forecasts m promotion_candidate p s w w' f =
      split (cfg.auto_promote && promotion_allowed m.metadata false)
    where
      split :
          (b : Bool)
          → Forecasts
              (if◌then◌else◌ {A = SweepState × World} b (one_promoted p, w) (one_candidate p, w)).0
              (if◌then◌else◌ {A = SweepState × World} b
                (counted m.id one_promoted s
                  (promote_to_canonical env.store_env m.id "archive-sweep" false w'))
                (counted m.id
                  (reviewed_now m.id)
                  s
                  (create_promotion_candidate env m slug s.reviewed w'))).0
      split true =
          counted-Forecasts m.id one_promoted one_promoted p s
            (promote_to_canonical env.store_env m.id "archive-sweep" false w') promoted-IsCounter f
      split false =
          counted-Forecasts m.id one_candidate (reviewed_now m.id) p s
            (create_promotion_candidate env m slug s.reviewed w') (candidate-IsCounter m.id) f
  take_action-Forecasts m already_outdated p s w w' f = skipped-Forecasts p s f
  take_action-Forecasts m skipped_non_working p s w w' f = skipped-Forecasts p s f
  take_action-Forecasts m skipped_review_queue_item p s w w' f = skipped-Forecasts p s f
  take_action-Forecasts m skipped_keep_tag p s w w' f = skipped-Forecasts p s f
  take_action-Forecasts m skipped_promotion_disabled p s w w' f = skipped-Forecasts p s f

  -- `decide` reads neither flag nor world
  decide_action-as_preview :
      (b c : Bool) (m : Memory)
      → decide_action m slug (as_preview b cfg) ≡ decide_action m slug (as_preview c cfg)
  unfolding decide_action decide_kind
  decide_action-as_preview b c m = refl

  sweep_memory-Forecasts :
      (m : Memory) (p s : SweepState) (w w' : World)
      → Forecasts p s
      → Forecasts
          (sweep_memory env (as_preview true cfg) slug m p w).0
          (sweep_memory env (as_preview false cfg) slug m s w').0
  unfolding sweep_memory
  sweep_memory-Forecasts m p s w w' (a, i, k) =
      let d = decide_action m slug (as_preview false cfg) in
      rw (decide_action-as_preview true false m) (
        take_action-Forecasts m d.action (noted d p) (noted d s) w w'
          (ap (λ l. l ++ (d ∷ [])) a, i, k))

  sweep_memories-SameOutcome :
      (ms : List Memory) (p s : SweepState) (w w' : World)
      → Forecasts p s
      → SameOutcome
          (sweep_memories env (as_preview true cfg) slug ms p w).0
          (sweep_memories env (as_preview false cfg) slug ms s w').0
  unfolding sweep_memories
  sweep_memories-SameOutcome [] p s w w' f = f
  sweep_memories-SameOutcome (m ∷ ms) p s w w' (a, i, k) =
      split (next_interrupt p.interrupts) (next_interrupt s.interrupts) (ap next_interrupt i)
        (λ p s w w' f. sweep_memories-SameOutcome ms p s w w' f)
    where
      split :
          (x y : Bool × List Bool)
          → x ≡ y
          → ((p s : SweepState) (w w' : World)
              → Forecasts p s
              → SameOutcome
                  (sweep_memories env (as_preview true cfg) slug ms p w).0
                  (sweep_memories env (as_preview false cfg) slug ms s w').0)
          → SameOutcome
              (elim x.0 as (λ _. Outcome SweepState × World) [
                | true ↦ (refused cancelled, w)
                | false ↦
                    let (s', w') =
                      sweep_memory env
                        (as_preview true cfg)
                        slug
                        m
                        (record p { interrupts = x.1 })
                        w in
                    sweep_memories env (as_preview true cfg) slug ms s' w'
              ]).0
              (elim y.0 as (λ _. Outcome SweepState × World) [
                | true ↦ (refused cancelled, w')
                | false ↦
                    let (s', w') =
                      sweep_memory env
                        (as_preview false cfg)
                        slug
                        m
                        (record s { interrupts = y.1 })
                        w' in
                    sweep_memories env (as_preview false cfg) slug ms s' w'
              ]).0
      split (true, x) (true, y) e ih = refl
      split (true, x) (false, y) e ih = absurd (cc (ap (λ (b : Bool × List Bool). b.0) e))
      split (false, x) (true, y) e ih = absurd (cc (ap (λ (b : Bool × List Bool). b.0) e))
      split (false, x) (false, y) e ih = ih _ _ _ _ (
          sweep_memory-Forecasts m (record p { interrupts = x }) (record s { interrupts = y }) w w'
            (a, ap (λ (b : Bool × List Bool). b.1) e, k))

  closed_slug-SameOutcome :
      (x y : Outcome SweepState × World)
      → SameOutcome x.0 y.0
      → SameOutcome (closed_slug slug x).0 (closed_slug slug y).0
  closed_slug-SameOutcome (done p, w) (done s, w') f = f
  closed_slug-SameOutcome (done p, w) (refused e, w') f = absurd f
  closed_slug-SameOutcome (refused e, w) (done s, w') f = absurd f
  closed_slug-SameOutcome (refused e, w) (refused x, w') f = f

  -- From the same state of sweep and store, a dry run over a slug reports the actions that the sweep reports, is refused with the
  -- sweep's error where that is refused, and forecasts each of its counters, unless one of the sweep's writes failed.
  pub sweep_slug-SameOutcome :
      (s : SweepState) (w : World)
      → SameOutcome
          (sweep_slug env (as_preview true cfg) slug s w).0
          (sweep_slug env (as_preview false cfg) slug s w).0
  unfolding sweep_slug sweep_cohort
  sweep_slug-SameOutcome s w = split (cohort slug w)
    where
      split :
          (r : Result (List Memory) × World)
          → SameOutcome
              (sweep_cohort env (as_preview true cfg) slug s r).0
              (sweep_cohort env (as_preview false cfg) slug s r).0
      split (err e, w') = refl
      split (ok ms, w') =
          let s' = record s { stats = no_stats; reviewed = reviewed_targets ms } in
          closed_slug-SameOutcome (sweep_memories env (as_preview true cfg) slug ms s' w')
            (sweep_memories env (as_preview false cfg) slug ms s' w')
            (sweep_memories-SameOutcome ms s' s' w' w'
              (refl, refl, inr (refl, refl, refl, refl, refl)))

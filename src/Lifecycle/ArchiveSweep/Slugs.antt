-- ===== src/Lifecycle/ArchiveSweep/Slugs.antt =====
-- archive_sweep.go: `sweepSlug`. Errors of single records are kept
-- without their message texts. The lock of a slug is held throughout, so a sweep of it runs alone.
use agent_memory_mcp.Base.{
  ℕ, ◌+◌, String, Bool, true, false, ◌&&◌, List, [], ◌∷◌, ◌++◌, if◌then◌else◌,
}
use agent_memory_mcp.Dict.{Dict, insert}
use agent_memory_mcp.Memory.Types.{Memory, Result, ok, err, Error, type_working, type_procedural}
use agent_memory_mcp.Memory.Engineering.{promotion_allowed}
use agent_memory_mcp.Memory.World.{World}
use agent_memory_mcp.Memory.World.Op.{Op, lift, ◌>>=◌}
use agent_memory_mcp.Memory.Reading.{list_by, no_filters, list}
use agent_memory_mcp.Memory.Store.Supersede.{mark_outdated}
use agent_memory_mcp.Memory.Store.Canonical.{promote_to_canonical}
use agent_memory_mcp.Lifecycle.ArchiveSweep.{
  SweepEnv, ArchiveSweepConfig, ActionKind, mark_outdated_action, promotion_candidate,
  ArchiveAction, decide_action, outdated_reason, create_promotion_candidate, reviewed_targets,
}

pub record SlugStats : Type 0 where
  pub outdated_count : ℕ
  pub promotion_candidates : ℕ
  pub promoted : ℕ
  pub skipped : ℕ

pub record SweepFailure : Type 0 where
  pub memory_id : String
  pub error : Error

-- the result so far, with the counters of the slug at hand, the targets that have a review item, and
-- of each coming look at the context whether it is cancelled
pub record SweepState : Type 0 where
  pub per_slug : Dict SlugStats
  pub stats : SlugStats
  pub total_outdated : ℕ
  pub total_promotion_cand : ℕ
  pub total_promoted : ℕ
  pub total_skipped : ℕ
  pub actions : List ArchiveAction
  pub errors : List SweepFailure
  pub reviewed : List String
  pub interrupts : List Bool

pub data SweepError : Type 0 where
  no_roots slug_required cancelled : SweepError
  slug_invalid slug_missing : String → SweepError
  listing_failed : Error → SweepError

pub data Outcome (A : Type 0) : Type 0 where
  done : A → Outcome A
  refused : SweepError → Outcome A

abbrev pub no_stats : SlugStats
no_stats = record { outdated_count = 0; promotion_candidates = 0; promoted = 0; skipped = 0 }

abbrev pub start_sweep : List Bool → SweepState
start_sweep interrupts = record {
  per_slug = [];
  stats = no_stats;
  total_outdated = 0;
  total_promotion_cand = 0;
  total_promoted = 0;
  total_skipped = 0;
  actions = [];
  errors = [];
  reviewed = [];
  interrupts = interrupts;
}

abbrev pub one_outdated : SweepState → SweepState
one_outdated s = record s {
  stats = record s.stats { outdated_count = s.stats.outdated_count + 1 };
  total_outdated = s.total_outdated + 1;
}

abbrev pub one_candidate : SweepState → SweepState
one_candidate s = record s {
  stats = record s.stats { promotion_candidates = s.stats.promotion_candidates + 1 };
  total_promotion_cand = s.total_promotion_cand + 1;
}

abbrev pub one_promoted : SweepState → SweepState
one_promoted s = record s {
  stats = record s.stats { promoted = s.stats.promoted + 1 };
  total_promoted = s.total_promoted + 1;
}

abbrev pub one_skipped : SweepState → SweepState
one_skipped s = record s {
  stats = record s.stats { skipped = s.stats.skipped + 1 };
  total_skipped = s.total_skipped + 1;
}

abbrev pub one_failed : String → Error → SweepState → SweepState
one_failed id e s = record s { errors = s.errors ++ (record { memory_id = id; error = e } ∷ []) }

-- the counter, or the error, after a write
abbrev pub counted :
    String → (SweepState → SweepState) → SweepState → Result (Unit {0}) × World → SweepState × World
counted id count s (ok u, w) = (count s, w)
counted id count s (err e, w) = (one_failed id e s, w)

abbrev pub reviewed_now : String → SweepState → SweepState
reviewed_now id s = record (one_candidate s) { reviewed = id ∷ s.reviewed }

abbrev pub write_or_count :
    Bool
    → String
    → (SweepState → SweepState)
    → (SweepState → SweepState)
    → SweepState
    → World
    → Result (Unit {0}) × World
    → SweepState × World
write_or_count dry_run id preview count s w r =
    if dry_run then (preview s, w) else counted id count s r

-- the switch on an action
unfoldable pub take_action :
    SweepEnv
    → ArchiveSweepConfig
    → String
    → Memory
    → ActionKind
    → SweepState
    → World
    → SweepState × World
unfolding mark_outdated promote_to_canonical create_promotion_candidate promotion_allowed
take_action env cfg slug m kind s w = elim kind [
  | mark_outdated_action ↦
      write_or_count cfg.dry_run m.id one_outdated one_outdated s w
        (mark_outdated env.store_env m.id (outdated_reason slug) "" w)
  | promotion_candidate ↦
      if cfg.auto_promote && promotion_allowed m.metadata false
      then write_or_count cfg.dry_run m.id one_promoted one_promoted s w
          (promote_to_canonical env.store_env m.id "archive-sweep" false w)
      else write_or_count cfg.dry_run m.id one_candidate (reviewed_now m.id) s w
          (create_promotion_candidate env m slug s.reviewed w)
  | _ ↦ (one_skipped s, w)
]

abbrev pub noted : ArchiveAction → SweepState → SweepState
noted a s = record s { actions = s.actions ++ (a ∷ []) }

unfoldable pub sweep_memory :
    SweepEnv → ArchiveSweepConfig → String → Memory → SweepState → World → SweepState × World
unfolding decide_action take_action
sweep_memory env cfg slug m s w =
    let a = decide_action m slug cfg in take_action env cfg slug m a.action (noted a s) w

-- ctx.Err(); where the list ends the context is not cancelled
abbrev pub next_interrupt : List Bool → Bool × List Bool
next_interrupt [] = (false, [])
next_interrupt (b ∷ rest) = (b, rest)

unfoldable pub sweep_memories :
    SweepEnv
    → ArchiveSweepConfig
    → String
    → List Memory
    → SweepState
    → World
    → Outcome SweepState × World
unfolding sweep_memory
sweep_memories env cfg slug [] s w = (done s, w)
sweep_memories env cfg slug (m ∷ ms) s w =
    let (stop, rest) = next_interrupt s.interrupts in
    elim stop [
      | true ↦ (refused cancelled, w)
      | false ↦
          let (s', w') = sweep_memory env cfg slug m (record s { interrupts = rest }) w in
          sweep_memories env cfg slug ms s' w'
    ]

-- the records of a slug that a sweep considers
unfoldable pub cohort : String → Op (List Memory)
unfolding list_by lift
cohort slug = do
  working ← list (record no_filters { context = slug; type = type_working }) 0
  procedural ← list (record no_filters { context = slug; type = type_procedural }) 0
  lift (ok (working ++ procedural))

-- the counters of a slug take the place of those of an earlier sweep of the same slug
abbrev pub closed_slug : String → Outcome SweepState × World → Outcome SweepState × World
closed_slug slug (done s, w) = (done (record s { per_slug = insert slug s.stats s.per_slug }), w)
closed_slug slug (refused e, w) = (refused e, w)

unfoldable pub sweep_cohort :
    SweepEnv
    → ArchiveSweepConfig
    → String
    → SweepState
    → Result (List Memory) × World
    → Outcome SweepState × World
unfolding sweep_memories reviewed_targets
sweep_cohort env cfg slug s (err e, w) = (refused (listing_failed e), w)
sweep_cohort env cfg slug s (ok ms, w) = closed_slug slug (
    sweep_memories env cfg slug ms (record s { stats = no_stats; reviewed = reviewed_targets ms })
      w)

unfoldable pub sweep_slug :
    SweepEnv → ArchiveSweepConfig → String → SweepState → World → Outcome SweepState × World
unfolding cohort sweep_cohort
sweep_slug env cfg slug s w = sweep_cohort env cfg slug s (cohort slug w)

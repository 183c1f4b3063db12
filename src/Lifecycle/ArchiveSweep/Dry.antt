-- ===== src/Lifecycle/ArchiveSweep/Dry.antt =====
-- A dry run leaves rows and cache as they were.
use agent_memory_mcp.Base.{
  String, ◌≡◌, refl, is_nil, sym, ◌∙◌, subst, Bool, true, false, ◌&&◌, List, [], ◌∷◌, ◌++◌,
  if◌then◌else◌,
}
use agent_memory_mcp.Memory.Types.{Memory, Result, ok, err, type_working, type_procedural}
use agent_memory_mcp.Memory.Engineering.{promotion_allowed}
use agent_memory_mcp.Memory.World.{World}
use agent_memory_mcp.Memory.World.Op.{lift, ◌>>=◌}
use agent_memory_mcp.Memory.World.Prepares.{lift-Prepares, bind-Prepares}
use agent_memory_mcp.Memory.World.Failing.{IsUnchanged}
use agent_memory_mcp.Memory.Reading.{no_filters, list}
use agent_memory_mcp.Memory.Reading.Quiet.{Reads, list-Reads}
use agent_memory_mcp.Lifecycle.ArchiveSweep.{
  Entry, SweepEnv, ArchiveSweepConfig, apply_defaults, ActionKind, mark_outdated_action,
  promotion_candidate, already_outdated, skipped_non_working, skipped_review_queue_item,
  skipped_keep_tag, skipped_promotion_disabled, decide_action, reviewed_targets,
}
use agent_memory_mcp.Lifecycle.ArchiveSweep.Slugs.{
  SweepState, Outcome, done, refused, no_roots, cancelled, one_candidate, one_promoted, take_action,
  noted, sweep_memory, next_interrupt, sweep_memories, no_stats, closed_slug, sweep_cohort, cohort,
  sweep_slug, start_sweep,
}
use agent_memory_mcp.Lifecycle.ArchiveSweep.Preview.{as_preview}
use agent_memory_mcp.Lifecycle.ArchiveSweep.Roots.{
  accepts, sweep_entry, sweep_entries, entries_of, sweep_roots, sweep_archive,
}

then-IsUnchanged : (w w' w'' : World) → IsUnchanged w w' → IsUnchanged w' w'' → IsUnchanged w w''
then-IsUnchanged w w' w'' a b = (b.0 ∙ a.0, b.1 ∙ a.1)

-- a step, and the rest if it is not refused
continued :
    (r : Outcome SweepState × World) (rest : SweepState → World → Outcome SweepState × World)
    (w : World)
    → IsUnchanged w r.1
    → ((s : SweepState) (w : World) → IsUnchanged w (rest s w).1)
    → IsUnchanged w
        (elim r.0 as (λ _. Outcome SweepState × World) [
          | refused e ↦ (refused e, r.1)
          | done s ↦ rest s r.1
        ]).1
continued (refused e, w') rest w u k = u
continued (done s, w') rest w u k = then-IsUnchanged w w' (rest s w').1 u (k s w')

cohort-Reads : (slug : String) (w : World) → Reads (cohort slug) w
unfolding cohort
cohort-Reads slug w =
    let f = record no_filters { context = slug; type = type_working } in
    let g = record no_filters { context = slug; type = type_procedural } in
    bind-Prepares (λ _ _. Unit) (list f 0)
      (λ working. list g 0 >>= λ procedural. lift (ok (working ++ procedural))) w (list-Reads f 0 w)
      (λ working w' _.
        bind-Prepares (λ _ _. Unit) (list g 0) (λ procedural. lift (ok (working ++ procedural))) w'
          (list-Reads g 0 w') (λ procedural w'' _. lift-Prepares (ok (working ++ procedural)) w''))

module _ (env : SweepEnv) (cfg : ArchiveSweepConfig) where
  take_action_dry :
      (slug : String) (m : Memory) (kind : ActionKind) (s : SweepState) (w : World)
      → (take_action env (as_preview true cfg) slug m kind s w).1 ≡ w
  unfolding take_action
  take_action_dry slug m mark_outdated_action s w = refl
  take_action_dry slug m promotion_candidate s w =
      split (cfg.auto_promote && promotion_allowed m.metadata false)
    where
      split :
          (b : Bool)
          → (if◌then◌else◌ {A = SweepState × World} b (one_promoted s, w) (one_candidate s, w)).1
            ≡ w
      split true = refl
      split false = refl
  take_action_dry slug m already_outdated s w = refl
  take_action_dry slug m skipped_non_working s w = refl
  take_action_dry slug m skipped_review_queue_item s w = refl
  take_action_dry slug m skipped_keep_tag s w = refl
  take_action_dry slug m skipped_promotion_disabled s w = refl

  sweep_memories_dry :
      (slug : String) (ms : List Memory) (s : SweepState) (w : World)
      → (sweep_memories env (as_preview true cfg) slug ms s w).1 ≡ w
  unfolding sweep_memories sweep_memory
  sweep_memories_dry slug [] s w = refl
  sweep_memories_dry slug (m ∷ ms) s w =
      split (next_interrupt s.interrupts) (λ s w. sweep_memories_dry slug ms s w)
    where
      split :
          (x : Bool × List Bool)
          → ((s : SweepState) (w : World)
              → (sweep_memories env (as_preview true cfg) slug ms s w).1 ≡ w)
          → (elim x.0 as (λ _. Outcome SweepState × World) [
            | true ↦ (refused cancelled, w)
            | false ↦
                let (s', w') =
                  sweep_memory env (as_preview true cfg) slug m (record s { interrupts = x.1 }) w in
                sweep_memories env (as_preview true cfg) slug ms s' w'
          ]).1
            ≡ w
      split (true, x) ih = refl
      split (false, x) ih =
          ih _ _
          ∙ take_action_dry slug m (decide_action m slug (as_preview true cfg)).action
              (noted (decide_action m slug (as_preview true cfg)) (record s { interrupts = x })) w

  sweep_slug_dry :
      (slug : String) (s : SweepState) (w : World)
      → IsUnchanged w (sweep_slug env (as_preview true cfg) slug s w).1
  unfolding sweep_slug sweep_cohort
  sweep_slug_dry slug s w = let q = cohort-Reads slug w in split (cohort slug w) (q.rows, q.cache)
    where
      closed : (x : Outcome SweepState × World) → (closed_slug slug x).1 ≡ x.1
      closed (done s, w) = refl
      closed (refused e, w) = refl

      split :
          (r : Result (List Memory) × World)
          → IsUnchanged w r.1
          → IsUnchanged w (sweep_cohort env (as_preview true cfg) slug s r).1
      split (err e, w') u = u
      split (ok ms, w') u =
          let s' = record s { stats = no_stats; reviewed = reviewed_targets ms } in
          subst (λ x. IsUnchanged w x)
            (sym (
              closed (sweep_memories env (as_preview true cfg) slug ms s' w')
              ∙ sweep_memories_dry slug ms s' w'))
            u

  sweep_entry_dry :
      (entry : Entry) (s : SweepState) (w : World)
      → IsUnchanged w (sweep_entry env (as_preview true cfg) entry s w).1
  unfolding sweep_entry
  sweep_entry_dry entry s w =
      split (next_interrupt s.interrupts) entry.is_dir (accepts cfg.slug_pattern entry.name)
    where
      split :
          (x : Bool × List Bool) (dir fits : Bool)
          → IsUnchanged w
              (if◌then◌else◌ {A = Outcome SweepState × World} x.0
                (refused cancelled, w)
                (if dir
                  then (if fits
                      then sweep_slug env
                          (as_preview true cfg)
                          entry.name
                          (record s { interrupts = x.1 })
                          w
                      else (done (record s { interrupts = x.1 }), w))
                  else (done (record s { interrupts = x.1 }), w))).1
      split (true, x) dir fits = (refl, refl)
      split (false, x) false fits = (refl, refl)
      split (false, x) true false = (refl, refl)
      split (false, x) true true = sweep_slug_dry entry.name (record s { interrupts = x }) w

  sweep_entries_dry :
      (entries : List Entry) (s : SweepState) (w : World)
      → IsUnchanged w (sweep_entries env (as_preview true cfg) entries s w).1
  unfolding sweep_entries
  sweep_entries_dry [] s w = (refl, refl)
  sweep_entries_dry (entry ∷ entries) s w =
      continued (sweep_entry env (as_preview true cfg) entry s w)
        (sweep_entries env (as_preview true cfg) entries) w (sweep_entry_dry entry s w)
        (λ s w. sweep_entries_dry entries s w)

  sweep_roots_dry :
      (roots : List String) (s : SweepState) (w : World)
      → IsUnchanged w (sweep_roots env (as_preview true cfg) roots s w).1
  unfolding sweep_roots
  sweep_roots_dry [] s w = (refl, refl)
  sweep_roots_dry (root ∷ roots) s w =
      continued (sweep_entries env (as_preview true cfg) (entries_of env root) s w)
        (sweep_roots env (as_preview true cfg) roots) w
        (sweep_entries_dry (entries_of env root) s w) (λ s w. sweep_roots_dry roots s w)

-- A dry run over the whole archive leaves rows and cache as they were, however it ends.
pub sweep_archive_dry :
    (env : SweepEnv) (cfg : ArchiveSweepConfig) (interrupts : List Bool) (w : World)
    → IsUnchanged w (sweep_archive env (as_preview true cfg) interrupts w).1
unfolding sweep_archive apply_defaults
sweep_archive_dry env cfg interrupts w = split (is_nil cfg.roots)
  where
    split :
        (b : Bool)
        → IsUnchanged w
            (if◌then◌else◌ {A = Outcome SweepState × World} b
              (refused no_roots, w)
              (sweep_roots env
                (as_preview true (apply_defaults cfg))
                cfg.roots
                (start_sweep interrupts)
                w)).1
    split true = (refl, refl)
    split false = sweep_roots_dry env (apply_defaults cfg) cfg.roots (start_sweep interrupts) w

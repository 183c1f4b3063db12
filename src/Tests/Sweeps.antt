-- ===== src/Tests/Sweeps.antt =====
-- The archive sweep on the small database.
use agent_memory_mcp.Base.{
  ℕ, ◌||◌, if◌then◌else◌, ◌≡◌, refl, true, false, ◌↔◌, none, some, [], ◌∷◌, any, ◌==◌,
}
use agent_memory_mcp.Base.Int.{pos, ◌<ℤ◌}
use agent_memory_mcp.Text.{joined, trim_space}
use agent_memory_mcp.Memory.Types.{Memory, type_working}
use agent_memory_mcp.Memory.World.{World}
use agent_memory_mcp.Memory.World.Failing.{IsUnchanged}
use agent_memory_mcp.Memory.Store.Writes.{store}
use agent_memory_mcp.Lifecycle.ArchiveSweep.{
  SweepEnv, ArchiveSweepConfig, mark_outdated_action, promotion_candidate, decide_kind,
}
use agent_memory_mcp.Lifecycle.ArchiveSweep.Slugs.{
  Outcome, done, refused, SweepError, SweepState, start_sweep, sweep_slug,
}
use agent_memory_mcp.Lifecycle.ArchiveSweep.Decisions.{IsSwept, EarnsPromotion, decide_kind_iff}
use agent_memory_mcp.Lifecycle.ArchiveSweep.Preview.{
  as_preview, SameOutcome, sweep_slug-SameOutcome,
}
use agent_memory_mcp.Lifecycle.ArchiveSweep.Roots.{
  root_holds, end_task, sweep_archive, end_task_refuses,
}
use agent_memory_mcp.Lifecycle.ArchiveSweep.Dry.{sweep_archive_dry}
use agent_memory_mcp.Tests.{env, note, two_notes}
use agent_memory_mcp.Tests.Program.{program}

-- one archive with one finished task
abbrev sweep_env : SweepEnv
sweep_env = record {
  store_env = env;
  stat = λ path. if path == "/archive" || path == "/archive/T-1" then some true else none;
  read_dir = λ path. some (record { name = "T-1"; is_dir = true } ∷ []);
  join_path = λ root slug. joined (root ∷ "/" ∷ slug ∷ []);
  relative_path = λ root path. some "T-1";
  format_importance = λ n. "0.50";
}

abbrev config : ArchiveSweepConfig
config = record {
  roots = "/archive" ∷ [];
  slug_pattern = none;
  dry_run = false;
  promotion_threshold = pos 70;
  keep_tag = "keep-after-archive";
  auto_promote = true;
  skip_promotion = false;
}

-- a working record of the task
abbrev task_note : Memory
task_note = record note { id = "w-1"; type = "working"; context = "T-1" }

abbrev task_world : World
task_world = (store env task_note two_notes).1

abbrev outdated_count : Outcome SweepState → ℕ
outdated_count (done s) = s.total_outdated
outdated_count (refused e) = 0

task_note_is_retired : outdated_count (end_task sweep_env "T-1" config [] task_world).0 ≡ 1
unfolding program
task_note_is_retired = refl

decide_kind_iff_example :
    ((decide_kind task_note config ≡ mark_outdated_action) ↔ (
      IsSwept task_note config
      × (task_note.type ≡ type_working)
      × (task_note.importance <ℤ config.promotion_threshold)))
    × ((decide_kind task_note config ≡ promotion_candidate) ↔ (
        IsSwept task_note config
        × EarnsPromotion task_note config
        × (config.skip_promotion ≡ false)))
decide_kind_iff_example = decide_kind_iff task_note config

sweep_slug-SameOutcome_example :
    SameOutcome
      (sweep_slug sweep_env (as_preview true config) "T-1" (start_sweep []) task_world).0
      (sweep_slug sweep_env (as_preview false config) "T-1" (start_sweep []) task_world).0
sweep_slug-SameOutcome_example =
    sweep_slug-SameOutcome sweep_env config "T-1" (start_sweep []) task_world

sweep_archive_dry_example :
    IsUnchanged task_world
      (sweep_archive sweep_env (as_preview true config) (false ∷ true ∷ []) task_world).1
sweep_archive_dry_example = sweep_archive_dry sweep_env config (false ∷ true ∷ []) task_world

no_such_task : any (root_holds sweep_env (trim_space " T-2 ")) config.roots ≡ false
unfolding program
no_such_task = refl

end_task_refuses_example :
    (e : SweepError) × (end_task sweep_env " T-2 " config [] task_world ≡ (refused e, task_world))
end_task_refuses_example = end_task_refuses sweep_env " T-2 " config [] task_world no_such_task

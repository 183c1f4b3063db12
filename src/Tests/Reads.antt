-- ===== src/Tests/Reads.antt =====
-- Reads and the sediment cycle on the small database.
use mathlib.Core.List.{Permᴰ}
use mathlib.Core.List.Permᴰ
use agent_memory_mcp.Base.{
  String, Bool, arith, eq_iff, subst, ◌==◌, ◌≤◌, ◌≡◌, refl, true, false, some, List, [], ◌∷◌, map,
  length, or_else,
}
use agent_memory_mcp.Base.Int.{ℤ, pos}
use agent_memory_mcp.Base.Sorting.{sort_by}
use agent_memory_mcp.Base.Orders.{Sorts, sort_by-Sorts, sort_by-Permᴰ}
use agent_memory_mcp.Text.{is_empty}
use agent_memory_mcp.Memory.Store.Layers.{promote_sediment}
use agent_memory_mcp.Memory.Store.Layers.Calmly.{promote_sediment-IsFine}
use agent_memory_mcp.Dict.{Dict, lookup}
use agent_memory_mcp.Memory.Types.{
  Memory, Result, ok, err, key_record_kind, key_review_required, key_review_source,
  key_review_target_memory_id, review_queue_item, review_source_sediment_cycle,
}
use agent_memory_mcp.Memory.Sediment.{defaults_applied, SedimentTransition}
use agent_memory_mcp.Memory.World.{Env, World}
use agent_memory_mcp.Memory.World.Saving.{Agrees}
use agent_memory_mcp.Memory.World.Failing.{IsUnchanged}
use agent_memory_mcp.Memory.World.Calm.{IsFine}
use agent_memory_mcp.Memory.Store.Writes.{store}
use agent_memory_mcp.Memory.Store.Writes.Calmly.{store-IsFine}
use agent_memory_mcp.Memory.Reading.{
  Filters, newer, newer_cached, list_by, list_lightweight_by, no_filters, list, limited, get_batch,
}
use agent_memory_mcp.Memory.Reading.Statistics.{flush_access_stats}
use agent_memory_mcp.Memory.Reading.Batch.{batch_row, get_batch-finds}
use agent_memory_mcp.Memory.Reading.Listing.{updates, without_uncached, list-list_lightweight}
use agent_memory_mcp.Memory.Reading.Queries.{Answers, list-Answers}
use agent_memory_mcp.Memory.Reading.Access.{
  times, accessed_row, flush_access_stats-Agrees, lookup-flush_access_stats,
}
use agent_memory_mcp.Memory.Cycle.{
  since_cutoff, run_sediment_cycle_by, SedimentCycleConfig, run_sediment_cycle,
}
use agent_memory_mcp.Memory.Cycle.Counts.{AddsUp, run_sediment_cycle-AddsUp}
use agent_memory_mcp.Memory.Cycle.Dry.{run_sediment_cycle_dry}
use agent_memory_mcp.Memory.Cycle.Proposals.{proposals, within_limit}
use agent_memory_mcp.Memory.Cycle.Preview.{run_sediment_cycle_previews}
use agent_memory_mcp.Memory.Cycle.Agreement.{run_sediment_cycle-IsFine}
use agent_memory_mcp.Memory.Cycle.Pending.{IsOpenReview}
use agent_memory_mcp.Memory.Cycle.Sparing.{unreviewed, run_sediment_cycle-IsSparing}
use agent_memory_mcp.Tests.{env, note, two_notes, two_notes-Agrees}
use agent_memory_mcp.Tests.Program.{program}

two_notes_calm : two_notes.faults ≡ []
unfolding program
two_notes_calm = refl

-- the records of a context
abbrev of_db : Filters
of_db = record no_filters { context = "db" }

get_batch-finds_example :
    (found : Dict Memory) × (get_batch ("m-2" ∷ "m-1" ∷ "m-9" ∷ []) two_notes
      ≡ (ok found, two_notes))
    × ((j : String) → lookup j found ≡ batch_row j two_notes.rows ("m-2" ∷ "m-1" ∷ "m-9" ∷ []) [])
get_batch-finds_example = get_batch-finds ("m-2" ∷ "m-1" ∷ "m-9" ∷ []) two_notes two_notes_calm

cached_sort : Sorts newer_cached (sort_by newer_cached)
cached_sort = sort_by-Sorts newer_cached (λ x y h. ground (arith, h))

record_sort : Sorts newer (sort_by newer)
record_sort = sort_by-Sorts newer (λ x y h. ground (arith, h))

list-list_lightweight_example :
    (ms : List Memory) × (all : List Memory) × (list_by (sort_by newer_cached) of_db 1 two_notes
      ≡ (ok ms, two_notes))
    × (map without_uncached ms ≡ limited 1 all)
    × Permᴰ all (list_lightweight_by (sort_by newer) of_db two_notes.cache)
    × (updates all ≡ updates (list_lightweight_by (sort_by newer) of_db two_notes.cache))
list-list_lightweight_example =
    list-list_lightweight (sort_by newer_cached) (sort_by newer) of_db 1 two_notes cached_sort
      record_sort two_notes-Agrees two_notes_calm

list-Answers_example :
    (ms : List Memory) × (list of_db 0 two_notes ≡ (ok ms, two_notes))
    × Answers of_db two_notes.rows ms
list-Answers_example = list-Answers of_db two_notes two_notes-Agrees two_notes_calm

abbrev ids : Result (List Memory) → List String
ids (ok ms) = map (λ (m : Memory). m.id) ms
ids (err e) = []

-- the newest record first
list_is_sorted : ids (list of_db 0 two_notes).0 ≡ "m-2" ∷ "m-1" ∷ []
unfolding program
list_is_sorted = refl

lookup-flush_access_stats_example :
    lookup "m-1" (flush_access_stats env true ("m-1" ∷ "m-2" ∷ "m-1" ∷ []) two_notes).1.rows
    ≡ accessed_row true
        (env.now two_notes.calls)
        (times "m-1" ("m-1" ∷ "m-2" ∷ "m-1" ∷ []))
        (lookup "m-1" two_notes.rows)
lookup-flush_access_stats_example =
    lookup-flush_access_stats env true ("m-1" ∷ "m-2" ∷ "m-1" ∷ []) two_notes "m-1" two_notes_calm

-- a clock that stands eight days after the records were made, and their counters at one targeted access
abbrev late : Env
late = record env { now = λ n. 691200000000009 }

abbrev read_world : World
read_world = (flush_access_stats env true ("m-1" ∷ "m-2" ∷ []) two_notes).1

read_world-Agrees : Agrees read_world
read_world-Agrees =
    flush_access_stats-Agrees env true ("m-1" ∷ "m-2" ∷ []) two_notes two_notes-Agrees

read_world_calm : read_world.faults ≡ []
unfolding program
read_world_calm = refl

abbrev sweep : SedimentCycleConfig
sweep = record {
  policy = record {
    surface_to_episodic_age = pos 0;
    episodic_to_semantic_age = pos 0;
    semantic_to_character_refs = pos 0;
    character_demotion_age = pos 0;
    episodic_to_semantic_min = pos 0;
    surface_to_episodic_min = pos 0;
  };
  dry_run = false;
  since_days = pos 1;
  limit = pos 1;
}

-- one of the two records moves, which is the limit
sweep_moves_one :
    ((run_sediment_cycle late sweep read_world).0.auto_applied ≡ 1)
    × (length (run_sediment_cycle late sweep read_world).0.transitions ≡ 1)
unfolding program
sweep_moves_one = (refl, refl)

run_sediment_cycle-AddsUp_example :
    AddsUp sweep (run_sediment_cycle_by (sort_by newer) late sweep read_world).0
run_sediment_cycle-AddsUp_example = run_sediment_cycle-AddsUp (sort_by newer) late sweep read_world

run_sediment_cycle_dry_example :
    IsUnchanged read_world
      (run_sediment_cycle_by (sort_by newer) late (record sweep { dry_run = true }) read_world).1
run_sediment_cycle_dry_example =
    run_sediment_cycle_dry (sort_by newer) late (record sweep { dry_run = true }) read_world refl

abbrev sweep_cutoff : ℤ
sweep_cutoff = since_cutoff 691200000000009 (pos 1)

abbrev proposals_of : (List Memory → List Memory) → List SedimentTransition
proposals_of sort =
    proposals (defaults_applied sweep.policy) sweep_cutoff 691200000000009
      (list_lightweight_by sort no_filters read_world.cache)

-- the preview lists the cache as it is, the sweep sorts it
run_sediment_cycle_previews_example :
    ((run_sediment_cycle_by
        (λ ms. ms)
        late
        (record sweep { dry_run = true })
        read_world).0.transitions
      ≡ within_limit (pos 1) 0 (proposals_of (λ ms. ms)))
    × ((run_sediment_cycle_by
          (sort_by newer)
          late
          (record sweep { dry_run = false })
          read_world).0.transitions
        ≡ within_limit (pos 1) 0 (proposals_of (sort_by newer)))
    × Permᴰ (proposals_of (λ ms. ms)) (proposals_of (sort_by newer))
run_sediment_cycle_previews_example =
    run_sediment_cycle_previews (λ ms. ms) (sort_by newer) late 691200000000009 sweep read_world
      Permᴰ.refl (sort_by-Permᴰ newer) (λ n. refl)

-- both records are proposed
two_are_proposed : length (proposals_of (sort_by newer)) ≡ 2
unfolding program
two_are_proposed = refl

run_sediment_cycle-IsFine_example :
    IsFine (run_sediment_cycle_by (sort_by newer) late sweep read_world).1
run_sediment_cycle-IsFine_example =
    run_sediment_cycle-IsFine (sort_by newer) late sweep read_world
      (read_world-Agrees, read_world_calm)

-- an open review item of a sweep for the first record
abbrev review : Memory
review = record note {
  id = "r-1";
  content = "review it";
  type = "working";
  metadata =
      (key_record_kind, review_queue_item)
      ∷ (key_review_required, "true")
      ∷ (key_review_source, review_source_sediment_cycle)
      ∷ (key_review_target_memory_id, "m-1")
      ∷ [];
}

-- both records episodic and accessed once, and the review item of the first
abbrev moved_world : World
moved_world =
    (promote_sediment env "m-2" "episodic" (promote_sediment env "m-1" "episodic" read_world).1).1

abbrev reviewed_world : World
reviewed_world = (store env review moved_world).1

reviewed_world-IsFine : IsFine reviewed_world
reviewed_world-IsFine =
    let read : IsFine read_world = (read_world-Agrees, read_world_calm) in
    store-IsFine env review moved_world (refl, refl)
      (promote_sediment-IsFine env "m-2" "episodic"
        (promote_sediment env "m-1" "episodic" read_world).1
        (promote_sediment-IsFine env "m-1" "episodic" read_world read))

abbrev stored_review : Memory
stored_review = or_else (lookup "r-1" reviewed_world.rows) note

review_is_a_row : lookup "r-1" reviewed_world.rows ≡ some stored_review
unfolding program
review_is_a_row = refl

review-IsOpenReview : IsOpenReview "m-1" stored_review
unfolding program
review-IsOpenReview = record {
  working = refl;
  review = refl;
  source = refl;
  unresolved = refl;
  target = refl;
}

-- with a free id for the next review
abbrev later : Env
later = record late { new_id = λ n. "r-2" }

-- one access and one nanosecond are enough, and all records may move
abbrev eager : SedimentCycleConfig
eager = record sweep {
  policy = record {
    surface_to_episodic_age = pos 1;
    episodic_to_semantic_age = pos 1;
    semantic_to_character_refs = pos 1;
    character_demotion_age = pos 1;
    episodic_to_semantic_min = pos 1;
    surface_to_episodic_min = pos 1;
  };
  since_days = pos 0;
  limit = pos 0;
}

abbrev reviewed : String → Bool
reviewed id = id == "m-1"

reviewed_has_review :
    (id : String)
    → reviewed id ≡ true
    → (is_empty id ≡ false)
      × (k : String) × (item : Memory) × (lookup k reviewed_world.rows ≡ some item)
      × IsOpenReview id item
reviewed_has_review id h =
    subst
      (λ j.
        (is_empty j ≡ false)
        × (k : String) × (item : Memory) × (lookup k reviewed_world.rows ≡ some item)
        × IsOpenReview j item)
      (ground (arith, h, eq_iff id "m-1"))
      (refl, "r-1", stored_review, review_is_a_row, review-IsOpenReview)

run_sediment_cycle-IsSparing_example :
    (run_sediment_cycle_by (sort_by newer) later eager reviewed_world).0.review_queued
    ≤ unreviewed reviewed
        (run_sediment_cycle_by (sort_by newer) later eager reviewed_world).0.transitions
run_sediment_cycle-IsSparing_example =
    run_sediment_cycle-IsSparing (sort_by newer) later eager reviewed_world reviewed refl
      reviewed_world-IsFine.0 reviewed_has_review

-- of the two transitions one is queued: the other's review is open
one_is_queued :
    ((run_sediment_cycle later eager reviewed_world).0.review_queued ≡ 1)
    × (unreviewed reviewed (run_sediment_cycle later eager reviewed_world).0.transitions ≡ 1)
    × (length (run_sediment_cycle later eager reviewed_world).0.transitions ≡ 2)
unfolding program
one_is_queued = (refl, refl, refl)

-- ===== src/Tests.antt =====
-- The operations on a small database: runs, and the theorems at concrete inputs.
pub mod Program
mod Rules
mod Writes
mod Reads
mod Sweeps
mod Merges
use agent_memory_mcp.Tests.Program.{program}
use agent_memory_mcp.Base.{
  ℕ, suc, String, ◌≡◌, refl, sym, ap, Bool, true, false, Option, none, some, List, [], ◌∷◌, arith,
  ◌⊎◌,
}
use agent_memory_mcp.Base.Int.{ℤ, pos}
use agent_memory_mcp.Dict.{Dict, lookup, insert, erase, has, text_at}
use agent_memory_mcp.Memory.Types.{
  Time, is_zero, Memory, Result, ok, err, database, promotion_requires_verification, not_found,
}
use agent_memory_mcp.Memory.Cache.{Cache, CachedMemory, empty_cache, to_cached_memory, cache_set}
use agent_memory_mcp.Memory.Cache.Coherence.{empty_cache-IsCoherent}
use agent_memory_mcp.Memory.World.{Env, World}
use agent_memory_mcp.Memory.World.Saving.{Agrees}
use agent_memory_mcp.Memory.Store.Writes.{Update, store, update, delete, set_temporal_fields}
use agent_memory_mcp.Memory.Store.Writes.Storing.{IsStorable, IsStoredAs, store-IsStoredAs}
use agent_memory_mcp.Memory.Store.Writes.Updating.{update-Agrees, set_temporal_fields-Agrees}
use agent_memory_mcp.Memory.Store.Writes.Deleting.{delete-Agrees}
use agent_memory_mcp.Memory.World.Failing.{IsUnchanged}
use agent_memory_mcp.Memory.Store.Writes.Failing.{update-FailsClean}
use agent_memory_mcp.Memory.Store.Supersede.Failing.{mark_outdated-FailsClean}
use agent_memory_mcp.Memory.Store.Supersede.{mark_outdated}
use agent_memory_mcp.Memory.Store.Supersede.Outdated.{mark_outdated-Agrees}
use agent_memory_mcp.Memory.Store.Canonical.{promote_to_canonical}
use agent_memory_mcp.Memory.Store.Canonical.Gate.{
  promote_to_canonical-Agrees, promote_to_canonical_refused,
}
use agent_memory_mcp.Memory.Store.Layers.{layer_result, promote_sediment, demote_sediment}
use agent_memory_mcp.Memory.Store.Layers.Moves.{promote_sediment-Agrees, demote_sediment-Agrees}
use agent_memory_mcp.Memory.Store.Layers.Told.{
  IsTold, IsDemoted, promote_sediment-IsTold, demote_sediment-IsTold,
}
use agent_memory_mcp.Memory.Store.Refcount.{increment_referenced_by_count}
use agent_memory_mcp.Memory.Store.Refcount.Increments.{
  IsCounted, increment_referenced_by_count-IsCounted,
}
use agent_memory_mcp.Memory.Engineering.{promotion_allowed, is_archived_memory}
use agent_memory_mcp.Memory.Sediment.{surface, episodic, semantic, normalize_sediment_layer}
use agent_memory_mcp.Text.{is_empty, trim_space}

-- a clock that counts, one id, no provider, no secrets
abbrev pub env : Env
env = record {
  now = suc;
  new_id = λ n. "m-2";
  embedder = none;
  format_time = λ t. "2026-01-01T00:00:00Z";
  find_provider_token = λ s. none;
  redact_note = λ s. s;
}

pub clock : (n : ℕ) → is_zero (env.now n) ≡ false
clock n = ground arith

abbrev pub note : Memory
note = record {
  id = "m-1";
  content = " use WAL ";
  type = "";
  title = "";
  tags = [];
  context = "db";
  importance = pos 50;
  metadata = [];
  embedding = [];
  embedding_model = "";
  created_at = 0;
  updated_at = 0;
  accessed_at = 0;
  access_count = 0;
  targeted_access_count = 0;
  valid_from = none;
  valid_until = none;
  superseded_by = "";
  replaces = "";
  observed_at = none;
  sediment_layer = "";
}

abbrev pub empty_world : World
empty_world = record { rows = []; cache = empty_cache; faults = []; calls = 0 }

empty_world-Agrees : Agrees empty_world
unfolding lookup
empty_world-Agrees = record {
  keyed = λ id m e. absurd (cc);
  proper = λ id m e. absurd (cc);
  cached = λ id. refl;
  coherent = empty_cache-IsCoherent;
}

abbrev pub stored_note : Memory
stored_note = record note {
  content = "use WAL";
  type = "semantic";
  created_at = 1;
  updated_at = 1;
  accessed_at = 1;
  sediment_layer = "surface";
}

note_is_stored : (store env note empty_world).0 ≡ ok stored_note
unfolding program
note_is_stored = refl

store-IsStoredAs_example :
    IsStoredAs stored_note empty_world (store env note empty_world).1
    × Agrees (store env note empty_world).1
store-IsStoredAs_example =
    store-IsStoredAs env note empty_world {v = stored_note} (refl, refl) empty_world-Agrees
      note_is_stored

abbrev pub stored_world : World
stored_world = (store env note empty_world).1

stored_world-Agrees : Agrees stored_world
stored_world-Agrees =
    (store-IsStoredAs env note empty_world {v = stored_note} (refl, refl) empty_world-Agrees
      note_is_stored).1

-- a second record, without an id
abbrev unnamed : Memory
unnamed = record note { id = ""; content = "use one writer" }

abbrev second_note : Memory
second_note = record stored_note {
  id = "m-2";
  content = "use one writer";
  created_at = 3;
  updated_at = 3;
  accessed_at = 3;
}

second_is_stored : (store env unnamed stored_world).0 ≡ ok second_note
unfolding program
second_is_stored = refl

abbrev pub two_notes : World
two_notes = (store env unnamed stored_world).1

pub two_notes-Agrees : Agrees two_notes
two_notes-Agrees =
    (store-IsStoredAs env unnamed stored_world {v = second_note} (refl, refl) stored_world-Agrees
      second_is_stored).1

-- the id is taken
store_twice : (store env note stored_world).0 ≡ err database
unfolding program
store_twice = refl

pub note_is_a_row : lookup "m-1" two_notes.rows ≡ some stored_note
unfolding program
note_is_a_row = refl

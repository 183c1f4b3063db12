-- ===== src/Tests/Merges.antt =====
-- Merges on the small database.
use agent_memory_mcp.Base.{◌≤◌, String, ◌≡◌, refl, true, false, ◌⊎◌, List, [], ◌∷◌}
use agent_memory_mcp.Text.{trim_space}
use agent_memory_mcp.Memory.Types.{Result, ok, err, database}
use agent_memory_mcp.Memory.World.{World}
use agent_memory_mcp.Memory.World.Saving.{Agrees}
use agent_memory_mcp.Memory.World.Failing.{IsUnchanged}
use agent_memory_mcp.Memory.Store.Merge.{MergeDuplicatesResult, merge_duplicates}
use agent_memory_mcp.Memory.Store.Merge.Content.{
  merge_content, byte_length, max_merged_content_bytes,
}
use agent_memory_mcp.Memory.Store.Merge.Agreement.{merge_duplicates-Agrees}
use agent_memory_mcp.Memory.Store.Merge.Failing.{merge_duplicates-FailsClean}
use agent_memory_mcp.Memory.Store.Merge.Bounds.{merge_content-fits}
use agent_memory_mcp.Tests.{env, note, two_notes, two_notes-Agrees}
use agent_memory_mcp.Tests.Program.{program}

-- a repeated id and a missing one
abbrev asked : List String
asked = "m-2" ∷ " m-2 " ∷ "m-9" ∷ "m-1" ∷ []

abbrev skipped_ids : Result MergeDuplicatesResult → List String
skipped_ids (ok r) = r.skipped_duplicate_ids
skipped_ids (err e) = []

missing_is_skipped : skipped_ids (merge_duplicates env "m-1" asked two_notes).0 ≡ "m-9" ∷ []
unfolding program
missing_is_skipped = refl

merge_duplicates-Agrees_example : Agrees (merge_duplicates env "m-1" asked two_notes).1
merge_duplicates-Agrees_example = merge_duplicates-Agrees env "m-1" asked two_notes two_notes-Agrees

-- the update of the second row fails
abbrev faulty : World
faulty = record two_notes { faults = false ∷ false ∷ false ∷ false ∷ false ∷ true ∷ [] }

merge_fails : (merge_duplicates env "m-1" asked faulty).0 ≡ err database
unfolding program
merge_fails = refl

merge_duplicates-FailsClean_example : IsUnchanged faulty (merge_duplicates env "m-1" asked faulty).1
merge_duplicates-FailsClean_example =
    merge_duplicates-FailsClean env "m-1" asked faulty database merge_fails

contents_are_joined :
    merge_content " use WAL "
      (record note { content = "WAL" } ∷ record note { content = "one writer"; title = "db" } ∷ [])
    ≡ "use WAL\n\nMerged note from db:\none writer"
unfolding program
contents_are_joined = refl

merge_content-fits_example :
    (merge_content " use WAL " (record note { content = "one writer" } ∷ [])
      ≡ trim_space " use WAL ")
    ⊎ (byte_length (merge_content " use WAL " (record note { content = "one writer" } ∷ []))
        ≤ max_merged_content_bytes)
merge_content-fits_example =
    merge_content-fits " use WAL " (record note { content = "one writer" } ∷ [])

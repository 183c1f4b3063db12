-- ===== src/Tests/Writes.antt =====
-- The operations on two stored records.
use agent_memory_mcp.Tests.Program.{program}
use agent_memory_mcp.Base.{ℕ, ◌≤◌, ◌≡◌, refl, true, false, Option, none, some, [], ◌∷◌, ◌⊎◌}
use agent_memory_mcp.Base.Int.{pos}
use agent_memory_mcp.Memory.Validate.{validate}
use agent_memory_mcp.Memory.Store.Canonical.Raised.{promote-IsRaised}
use agent_memory_mcp.Memory.Store.Supersede.Capped.{retire-IsCapped}
use agent_memory_mcp.Dict.{lookup}
use agent_memory_mcp.Memory.Types.{
  Memory, Result, ok, err, database, promotion_requires_verification, not_found,
}
use agent_memory_mcp.Memory.World.{World}
use agent_memory_mcp.Memory.World.Saving.{Agrees}
use agent_memory_mcp.Memory.Store.Writes.{Update, update, delete, set_temporal_fields}
use agent_memory_mcp.Memory.Store.Writes.Updating.{update-Agrees, set_temporal_fields-Agrees}
use agent_memory_mcp.Memory.Store.Writes.Deleting.{delete-Agrees}
use agent_memory_mcp.Memory.World.Failing.{IsUnchanged}
use agent_memory_mcp.Memory.Store.Writes.Failing.{update-FailsClean}
use agent_memory_mcp.Memory.Store.Supersede.Failing.{mark_outdated-FailsClean}
use agent_memory_mcp.Memory.Store.Supersede.{retire, mark_outdated}
use agent_memory_mcp.Memory.Store.Supersede.Outdated.{mark_outdated-Agrees}
use agent_memory_mcp.Memory.Store.Canonical.{promote, promote_to_canonical}
use agent_memory_mcp.Memory.Store.Canonical.Gate.{
  promote_to_canonical-Agrees, promote_to_canonical_refused,
}
use agent_memory_mcp.Memory.Store.Layers.{layer_result, promote_sediment, demote_sediment}
use agent_memory_mcp.Memory.Store.Layers.Told.{
  IsTold, IsDemoted, promote_sediment-IsTold, demote_sediment-IsTold,
}
use agent_memory_mcp.Memory.Store.Refcount.{increment_referenced_by_count}
use agent_memory_mcp.Memory.Store.Refcount.Increments.{
  IsCounted, increment_referenced_by_count-IsCounted,
}
use agent_memory_mcp.Memory.Engineering.{promotion_allowed, is_archived_memory}
use agent_memory_mcp.Memory.Sediment.{
  character, layer_text, surface, episodic, semantic, normalize_sediment_layer,
}
use agent_memory_mcp.Text.{is_empty, trim_space}
use agent_memory_mcp.Tests.{env, clock, stored_note, two_notes, two_notes-Agrees, note_is_a_row}

abbrev ap_row : {A : Type 0} → (Memory → A) → Option Memory → Option A
ap_row f none = none
ap_row f (some m) = some (f m)

abbrev change : Update
change = record {
  content = "use WAL mode";
  title = "Storage";
  tags = "db" ∷ " db " ∷ [];
  context = "";
  importance = some (pos 80);
  metadata = ("entity", "decision") ∷ [];
}

update-Agrees_example : Agrees (update env "m-1" change two_notes).1
update-Agrees_example = update-Agrees env clock "m-1" change two_notes two_notes-Agrees

mark_outdated-Agrees_example : Agrees (mark_outdated env "m-1" "moved" "m-2" two_notes).1
mark_outdated-Agrees_example =
    mark_outdated-Agrees env clock "m-1" "moved" "m-2" two_notes two_notes-Agrees

-- what the supersession leaves in the two rows
supersession :
    (ap_row
        (λ m. m.superseded_by)
        (lookup "m-1" (mark_outdated env "m-1" "moved" "m-2" two_notes).1.rows)
      ≡ some "m-2")
    × (ap_row
          (λ m. m.replaces)
          (lookup "m-2" (mark_outdated env "m-1" "moved" "m-2" two_notes).1.rows)
        ≡ some "m-1")
unfolding program
supersession = (refl, refl)

-- a record that names itself as its successor is not retired
self_supersession :
    ap_row
      (λ m. is_archived_memory m)
      (lookup "m-1" (mark_outdated env "m-1" "moved" "m-1" two_notes).1.rows)
    ≡ some false
unfolding program
self_supersession = refl

delete-Agrees_example : Agrees (delete "m-1" two_notes).1
delete-Agrees_example = delete-Agrees "m-1" two_notes two_notes-Agrees

stored_note_is_unverified : promotion_allowed stored_note.metadata false ≡ false
unfolding program
stored_note_is_unverified = refl

promote_to_canonical_refused_example :
    (((promote_to_canonical env "m-1" "db" false two_notes).0 ≡ err promotion_requires_verification)
      ⊎ ((promote_to_canonical env "m-1" "db" false two_notes).0 ≡ err database))
    × ((promote_to_canonical env "m-1" "db" false two_notes).1.rows ≡ two_notes.rows)
    × ((promote_to_canonical env "m-1" "db" false two_notes).1.cache ≡ two_notes.cache)
promote_to_canonical_refused_example =
    promote_to_canonical_refused "m-1" two_notes stored_note note_is_a_row env "db" false
      stored_note_is_unverified

promote_to_canonical-Agrees_example : Agrees (promote_to_canonical env "m-1" "db" true two_notes).1
promote_to_canonical-Agrees_example =
    promote_to_canonical-Agrees env clock "m-1" "db" true two_notes two_notes-Agrees

semantic_answer :
    (promote_sediment env "m-1" "Semantic" two_notes).0
    ≡ ok (layer_result "m-1" surface semantic true)
unfolding program
semantic_answer = refl

promote_sediment-IsTold_example :
    IsTold "m-1" two_notes.rows
      (layer_result "m-1" surface semantic true)
      (promote_sediment env "m-1" "Semantic" two_notes).1.rows
    × (normalize_sediment_layer "Semantic" ≡ some semantic)
promote_sediment-IsTold_example =
    promote_sediment-IsTold env "m-1" "Semantic" two_notes
      {r = layer_result "m-1" surface semantic true} semantic_answer

abbrev semantic_world : World
semantic_world = (promote_sediment env "m-1" "Semantic" two_notes).1

demotion_answer :
    (demote_sediment env "m-1" semantic_world).0 ≡ ok (layer_result "m-1" semantic episodic true)
unfolding program
demotion_answer = refl

demote_sediment-IsTold_example :
    IsTold "m-1" semantic_world.rows
      (layer_result "m-1" semantic episodic true)
      (demote_sediment env "m-1" semantic_world).1.rows
    × IsDemoted (layer_result "m-1" semantic episodic true)
demote_sediment-IsTold_example =
    demote_sediment-IsTold env "m-1" semantic_world {r = layer_result "m-1" semantic episodic true}
      demotion_answer

set_temporal_fields-Agrees_example :
    Agrees (set_temporal_fields env "m-1" (some 5) none "" "m-0" two_notes).1
set_temporal_fields-Agrees_example =
    set_temporal_fields-Agrees env clock "m-1" (some 5) none "" "m-0" two_notes refl refl
      two_notes-Agrees

id_is_given : is_empty (trim_space "m-1") ≡ false
unfolding program
id_is_given = refl

increment_answers : (increment_referenced_by_count env "m-1" two_notes).0 ≡ ok tt
unfolding program
increment_answers = refl

increment_referenced_by_count-IsCounted_example :
    IsCounted "m-1" stored_note two_notes (increment_referenced_by_count env "m-1" two_notes).1
increment_referenced_by_count-IsCounted_example =
    increment_referenced_by_count-IsCounted env "m-1" stored_note two_notes note_is_a_row
      two_notes-Agrees id_is_given increment_answers

-- the second row and the commit fail
abbrev failing_world : World
failing_world = record two_notes { faults = false ∷ false ∷ false ∷ false ∷ true ∷ [] }

retirement_fails : (mark_outdated env "m-1" "moved" "m-2" failing_world).0 ≡ err database
unfolding program
retirement_fails = refl

mark_outdated-FailsClean_example :
    IsUnchanged failing_world (mark_outdated env "m-1" "moved" "m-2" failing_world).1
mark_outdated-FailsClean_example =
    mark_outdated-FailsClean env "m-1" "moved" "m-2" failing_world database retirement_fails

update_fails : (update env "m-3" change two_notes).0 ≡ err (not_found "m-3")
unfolding program
update_fails = refl

update-FailsClean_example : IsUnchanged two_notes (update env "m-3" change two_notes).1
update-FailsClean_example =
    update-FailsClean env "m-3" change two_notes (not_found "m-3") update_fails

abbrev memory_of : Result Memory → Memory
memory_of (ok m) = m
memory_of (err e) = stored_note

abbrev promoted : Memory
promoted = memory_of (validate (promote env "db" true stored_note 5 6))

promoted_is_valid : validate (promote env "db" true stored_note 5 6) ≡ ok promoted
unfolding program
promoted_is_valid = refl

promote-IsRaised_example :
    ((k : ℕ) × (promoted.importance ≡ pos k) × (95 ≤ k) × (k ≤ 100))
    × (promoted.sediment_layer ≡ layer_text character)
promote-IsRaised_example =
    promote-IsRaised env "db" true stored_note 5 6 {v = promoted} promoted_is_valid

abbrev retired : Memory
retired = memory_of (validate (retire env "moved" "" stored_note 7))

retired_is_valid : validate (retire env "moved" "" stored_note 7) ≡ ok retired
unfolding program
retired_is_valid = refl

retire-IsCapped_example :
    ((k : ℕ) × (retired.importance ≡ pos k) × (k ≤ 25)) × (retired.valid_until ≡ some 7)
retire-IsCapped_example =
    retire-IsCapped env "moved" "" stored_note 7 {v = retired} retired_is_valid

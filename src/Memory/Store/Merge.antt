-- ===== src/Memory/Store/Merge.antt =====
-- `MergeDuplicates` of write.go.
pub mod Content
pub mod Agreement
pub mod Failing
pub mod Bounds
use agent_memory_mcp.Base.{
  ℕ, String, Bool, true, false, ◌||◌, Option, none, some, List, [], ◌∷◌, ◌==◌, any, is_nil, map,
  length, if◌then◌else◌,
}
use agent_memory_mcp.Text.{trim_space, is_empty}
use agent_memory_mcp.Dict.{Dict, insert, erase, text_at}
use agent_memory_mcp.Memory.Types.{
  Time, Memory, Result, ok, err, primary_required, duplicate_required, key_owner,
  key_last_verified_at, key_status, key_archived, key_embedding_truncated,
}
use agent_memory_mcp.Memory.Policy.{normalize_metadata}
use agent_memory_mcp.Memory.Validate.{validate}
use agent_memory_mcp.Memory.World.{Env}
use agent_memory_mcp.Memory.World.Op.{Op, lift, ◌>>=◌, ◌>>◌, tick, get, save_all}
use agent_memory_mcp.Memory.Store.Embedding.{embed_for_write, with_vector}
use agent_memory_mcp.Memory.Store.Supersede.{try_get, cap_importance}
use agent_memory_mcp.Memory.Store.Merge.Content.{
  merge_content, union_strings, split_csv, join_commas,
}

pub record MergeDuplicatesResult : Type 0 where
  pub primary_id : String
  pub duplicate_ids : List String
  pub archived_duplicate_ids : List String
  pub merged_from_count : ℕ
  pub skipped_duplicate_ids : List String

-- the ids to read: trimmed, each once, and none that is blank or the primary's
unfoldable pub wanted_ids : List String → List String → List String
wanted_ids seen [] = []
wanted_ids seen (raw ∷ raws) =
    let id = trim_space raw in
    let passed = is_empty id || any (λ k. k == id) seen in
    let later = wanted_ids (if passed then seen else id ∷ seen) raws in
    if passed then later else id ∷ later

pub record Found : Type 0 where
  pub duplicates : List Memory
  pub ids : List String
  pub skipped : List String

abbrev pub nothing_found : Found
nothing_found = record { duplicates = []; ids = []; skipped = [] }

abbrev pub with_read : String → Option Memory → Found → Found
with_read id none f = record f { skipped = id ∷ f.skipped }
with_read id (some m) f = record f { duplicates = m ∷ f.duplicates; ids = id ∷ f.ids }

-- the loop that reads the duplicates; one that cannot be read is skipped
unfoldable pub read_duplicates : List String → Op Found
unfolding try_get lift
read_duplicates [] = lift (ok nothing_found)
read_duplicates (id ∷ ids) = do
  m ← try_get id
  rest ← read_duplicates ids
  lift (ok (with_read id m rest))

unfoldable pub first_owner : List Memory → String
first_owner [] = ""
first_owner (m ∷ ms) =
    let owner = trim_space (text_at key_owner m.metadata) in
    let later = first_owner ms in if is_empty owner then later else owner

-- the primary's owner, or else the first of a duplicate
unfoldable pub adopt_owner : List Memory → Dict String → Dict String
unfolding first_owner
adopt_owner duplicates metadata =
    if is_empty (trim_space (text_at key_owner metadata))
    then (if is_empty (first_owner duplicates)
        then metadata
        else insert key_owner (first_owner duplicates) metadata)
    else metadata

unfoldable pub merged_metadata : Env → Found → Time → Dict String → Dict String
unfolding adopt_owner split_csv join_commas union_strings
merged_metadata env f now metadata =
    let owned = adopt_owner f.duplicates metadata in
    insert key_last_verified_at (env.format_time now) (
      insert "merged_from"
        (join_commas (union_strings (split_csv (text_at "merged_from" owned)) f.ids)) owned)

unfoldable pub merged_tags : List String → List Memory → List String
unfolding union_strings
merged_tags tags [] = tags
merged_tags tags (m ∷ ms) = merged_tags (union_strings tags m.tags) ms

unfoldable pub merged_primary : Env → Memory → Found → Time → Memory
unfolding merge_content merged_tags merged_metadata
merged_primary env primary f now = record primary {
  content = merge_content primary.content f.duplicates;
  tags = merged_tags primary.tags f.duplicates;
  metadata = normalize_metadata (merged_metadata env f now primary.metadata);
  updated_at = now;
}

abbrev pub without_vector : Memory → Memory
without_vector m = record m {
  embedding = [];
  embedding_model = "";
  metadata = erase key_embedding_truncated m.metadata;
}

-- a changed content loses its vector, and asks for another
unfoldable pub embed_merged : Env → String → Memory → Op Memory
unfolding embed_for_write lift
embed_merged env old m = if m.content == old then lift (ok m) else elim env.embedder [
  | none ↦ lift (ok (without_vector m))
  | some provider ↦ (do
    found ← embed_for_write provider m.content
    lift (ok (with_vector (without_vector m) found)))
]

unfoldable pub merged_away : Env → String → Time → Memory → Memory
merged_away env primary_id now m = record m {
  importance = cap_importance 10 m.importance;
  metadata = normalize_metadata (
      insert key_last_verified_at (env.format_time now) (
        insert key_archived "true" (
          insert "merged_into" primary_id (
            insert key_status "merged" (
              insert "outdated_reason" "merged duplicate"
                (insert "superseded_by" primary_id m.metadata))))));
  updated_at = now;
}

abbrev pub and_all : Result Memory → Result (List Memory) → Result (List Memory)
and_all (ok m) (ok ms) = ok (m ∷ ms)
and_all (ok m) (err e) = err e
and_all (err e) ms = err e

unfoldable pub validate_all : List Memory → Result (List Memory)
unfolding validate
validate_all [] = ok []
validate_all (m ∷ ms) = and_all (validate m) (validate_all ms)

-- the rows that a merge writes: the primary, then the duplicates
unfoldable pub prepare_merge : Env → String → Memory → Found → Op (List Memory)
unfolding tick lift merged_primary embed_merged merged_away validate_all
prepare_merge env primary_id primary f = do
  now ← tick env
  merged ← embed_merged env primary.content (merged_primary env primary f now)
  valid ← lift (validate merged)
  retired ← lift (validate_all (map (merged_away env primary_id now) f.duplicates))
  lift (ok (valid ∷ retired))

abbrev pub merge_result : String → Found → MergeDuplicatesResult
merge_result primary_id f = record {
  primary_id = primary_id;
  duplicate_ids = f.ids;
  archived_duplicate_ids = map (λ (m : Memory). m.id) f.duplicates;
  merged_from_count = length f.ids;
  skipped_duplicate_ids = f.skipped;
}

unfoldable pub merge_found : Env → String → Memory → Found → Op MergeDuplicatesResult
unfolding prepare_merge save_all lift
merge_found env primary_id primary f =
    if is_nil f.duplicates
    then (if is_nil f.skipped
        then lift (err duplicate_required)
        else lift (ok (merge_result primary_id f)))
    else (do
      rows ← prepare_merge env primary_id primary f
      save_all rows
      lift (ok (merge_result primary_id f)))

unfoldable pub merge_duplicates : Env → String → List String → Op MergeDuplicatesResult
unfolding get lift wanted_ids read_duplicates merge_found
merge_duplicates env raw ids =
    let primary_id = trim_space raw in
    if is_empty primary_id then lift (err primary_required) else (do
      primary ← get primary_id
      f ← read_duplicates (wanted_ids (primary_id ∷ []) ids)
      merge_found env primary_id primary f)

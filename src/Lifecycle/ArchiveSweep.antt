-- ===== src/Lifecycle/ArchiveSweep.antt =====
-- archive_sweep.go: what a sweep decides of each record of a finished task. Of an action's reason the
-- text is kept where it is stored, that of an outdated record. An importance is in hundredths.
pub mod Slugs
pub mod Decisions
pub mod Preview
pub mod Dry
pub mod Roots
use Prim.Native.String
use agent_memory_mcp.Base.{
  or_more, ℕ, String, Bool, true, false, ◌&&◌, ◌||◌, not, Option, none, some, List, [], ◌∷◌, ◌==◌,
  any, if◌then◌else◌,
}
use agent_memory_mcp.Base.Int.{ℤ, pos, lebℤ}
use agent_memory_mcp.Text.{joined, trim_space, equal_fold, is_empty}
use agent_memory_mcp.Textfmt.{truncate}
use agent_memory_mcp.Dict.{Dict, text_at}
use agent_memory_mcp.Memory.Types.{
  Memory, ok, type_working, type_procedural, key_record_kind, key_review_required,
  key_review_reason, key_review_source, key_review_target_memory_id, review_queue_item,
}
use agent_memory_mcp.Memory.Engineering.{
  LifecycleStatus, outdated, is_review_queue, lifecycle_status_of,
}
use agent_memory_mcp.Memory.World.{Env}
use agent_memory_mcp.Memory.World.Op.{Op, lift, ◌>>=◌}
use agent_memory_mcp.Memory.Store.Writes.{store}
use agent_memory_mcp.Memory.Reading.{list_by, no_filters, list}

pub record Entry : Type 0 where
  pub name : String
  pub is_dir : Bool

-- What a sweep takes from elsewhere: the store's environment; of the file system whether a path is a
-- directory, none where it cannot be examined, and the entries of a directory; filepath.Join and
-- filepath.Rel; and the text that fmt gives for an importance with two decimals.
pub record SweepEnv : Type 0 where
  pub store_env : Env
  pub stat : String → Option Bool
  pub read_dir : String → Option (List Entry)
  pub join_path : String → String → String
  pub relative_path : String → String → Option String
  pub format_importance : ℤ → String

pub record ArchiveSweepConfig : Type 0 where
  pub roots : List String
  pub slug_pattern : Option (String → Bool)
  pub dry_run : Bool
  pub promotion_threshold : ℤ
  pub keep_tag : String
  pub auto_promote : Bool
  pub skip_promotion : Bool

unfoldable pub apply_defaults : ArchiveSweepConfig → ArchiveSweepConfig
apply_defaults cfg = record cfg {
  promotion_threshold =
      if lebℤ cfg.promotion_threshold (pos 0) then pos 70 else cfg.promotion_threshold;
  keep_tag = if is_empty (trim_space cfg.keep_tag) then "keep-after-archive" else cfg.keep_tag;
}

pub data ActionKind : Type 0 where
  mark_outdated_action promotion_candidate already_outdated : ActionKind
  skipped_non_working skipped_review_queue_item skipped_keep_tag : ActionKind
  skipped_promotion_disabled : ActionKind

pub record ArchiveAction : Type 0 where
  pub memory_id : String
  pub slug : String
  pub action : ActionKind

unfoldable pub carries_tag : List String → String → Bool
carries_tag tags wanted =
    let target = trim_space wanted in
    if is_empty target then false else any (λ t. equal_fold (trim_space t) target) tags

abbrev pub is_swept_type : String → Bool
is_swept_type t = any (λ s. t == s) (type_working ∷ type_procedural ∷ [])

abbrev pub is_outdated : LifecycleStatus → Bool
is_outdated outdated = true
is_outdated _ = false

abbrev pub promotion_kind : Bool → ActionKind
promotion_kind skip = if skip then skipped_promotion_disabled else promotion_candidate

unfoldable pub decide_kind : Memory → ArchiveSweepConfig → ActionKind
unfolding carries_tag
decide_kind m cfg =
    if not (is_swept_type m.type)
    then skipped_non_working
    else if is_review_queue m.metadata
    then skipped_review_queue_item
    else if carries_tag m.tags cfg.keep_tag
    then skipped_keep_tag
    else if is_outdated (lifecycle_status_of m)
    then already_outdated
    else if m.type == type_procedural || lebℤ cfg.promotion_threshold m.importance
    then promotion_kind cfg.skip_promotion
    else mark_outdated_action

unfoldable pub decide_action : Memory → String → ArchiveSweepConfig → ArchiveAction
unfolding decide_kind
decide_action m slug cfg = record { memory_id = m.id; slug = slug; action = decide_kind m cfg }

-- the reason of an outdated record
abbrev pub outdated_reason : String → String
outdated_reason slug = String.◌++◌ "task archived: " slug

abbrev pub review_source_archive_sweep : String
review_source_archive_sweep = "archive_sweep"

unfoldable pub title_or_id : Memory → String
title_or_id m = let t = trim_space m.title in if is_empty t then m.id else t

-- the review item that `createPromotionCandidate` writes
unfoldable pub promotion_review : SweepEnv → Memory → String → Memory
unfolding title_or_id truncate
promotion_review env m slug = record {
  id = "";
  content = joined (
      "Promotion candidate: memory "
      ∷ m.id
      ∷ " from archived task "
      ∷ slug
      ∷ ".\nImportance="
      ∷ env.format_importance m.importance
      ∷ ", type="
      ∷ m.type
      ∷ ".\nSuggested action: promote_to_canonical."
      ∷ []);
  type = type_working;
  title = truncate (joined ("Review: promote " ∷ title_or_id m ∷ "?" ∷ [])) (pos 120);
  tags = "review-queue" ∷ "archive-sweep" ∷ "review:required" ∷ joined ("slug:" ∷ slug ∷ []) ∷ [];
  context = slug;
  importance = pos 50;
  metadata =
      (key_record_kind, review_queue_item)
      ∷ (key_review_required, "true")
      ∷ (key_review_reason, "archive_sweep_promotion_candidate")
      ∷ (key_review_target_memory_id, m.id)
      ∷ (key_review_source, review_source_archive_sweep)
      ∷ ("review_slug", slug)
      ∷ [];
  embedding = [];
  embedding_model = "";
  created_at = 0;
  updated_at = 0;
  accessed_at = 0;
  access_count = 0;
  targeted_access_count = 0;
  valid_from = none;
  valid_until = none;
  superseded_by = "";
  replaces = "";
  observed_at = none;
  sediment_layer = "";
}

-- `createPromotionCandidate`, with the targets that have a review item already
unfoldable pub create_promotion_candidate : SweepEnv → Memory → String → List String → Op (Unit {0})
unfolding store lift promotion_review
create_promotion_candidate env m slug existing =
    if any (λ k. k == m.id) existing
    then lift (ok tt)
    else (do stored ← store env.store_env (promotion_review env m slug); lift (ok tt))

-- the target of a review item of an earlier sweep
unfoldable pub reviewed_target : Memory → Option String
reviewed_target m =
    let target = trim_space (text_at key_review_target_memory_id m.metadata) in
    if not (is_review_queue m.metadata)
    then none
    else if not (text_at key_review_source m.metadata == review_source_archive_sweep)
    then none
    else if is_empty target
    then none
    else some target

unfoldable pub reviewed_targets : List Memory → List String
unfolding reviewed_target
reviewed_targets [] = []
reviewed_targets (m ∷ ms) = or_more (reviewed_target m) (reviewed_targets ms)

-- `reviewItemExists`
unfoldable pub review_item_exists : String → String → Op Bool
unfolding list_by lift
review_item_exists slug id = do
  items ← list (record no_filters { context = slug; type = type_working }) 0
  lift (
      ok (
        any
          (λ (m : Memory).
            is_review_queue m.metadata
            && text_at key_review_target_memory_id m.metadata == id
            && text_at key_review_source m.metadata == review_source_archive_sweep)
          items))

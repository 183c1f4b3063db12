-- ===== src/Memory/Cycle/Reviews.antt =====
-- sediment_cycle.go: the review items of a sweep, and which records have one already.
use agent_memory_mcp.Base.{
  or_more, String, Bool, true, false, ◌&&◌, not, Option, none, some, List, [], ◌∷◌, ◌==◌, any,
  if◌then◌else◌,
}
use agent_memory_mcp.Base.Int.{pos}
use agent_memory_mcp.Text.{joined, trim_space, equal_fold, is_empty}
use agent_memory_mcp.Dict.{text_at}
use agent_memory_mcp.Memory.Types.{
  Memory, ok, type_working, key_record_kind, key_review_required, key_review_reason,
  key_review_source, key_review_target_memory_id, key_review_target_layer, review_queue_item,
  review_source_sediment_cycle,
}
use agent_memory_mcp.Memory.Engineering.{is_review_queue}
use agent_memory_mcp.Memory.Sediment.{
  layer_text, SedimentTransition, Reason, aged_surface, aged_episodic, canonical_promotion,
  character_decay,
}
use agent_memory_mcp.Memory.Policy.{truncate_runes}
use agent_memory_mcp.Memory.Cache.{Cache}
use agent_memory_mcp.Memory.World.{Env}
use agent_memory_mcp.Memory.World.Op.{Op, lift, ◌>>=◌}
use agent_memory_mcp.Memory.Reading.{
  list_lightweight_by, list_by, no_filters, list_lightweight, list,
}
use agent_memory_mcp.Memory.Store.Writes.{store}

abbrev pub reason_text : Reason → String
reason_text aged_surface = "aged-surface"
reason_text aged_episodic = "aged-episodic"
reason_text canonical_promotion = "canonical-promotion"
reason_text character_decay = "character-decay"

abbrev pub or_id : String → String → String
or_id title id = if is_empty title then id else title

-- the review item that `createSedimentReviewItem` writes
unfoldable pub sediment_review : Memory → SedimentTransition → Memory
unfolding truncate_runes
sediment_review target tr = record {
  id = "";
  content = joined (
      "Sediment promotion candidate: memory "
      ∷ target.id
      ∷ ".\nTransition: "
      ∷ layer_text tr.from
      ∷ " → "
      ∷ layer_text tr.to
      ∷ " (reason: "
      ∷ reason_text tr.reason
      ∷ ").\nSuggested action: promote_sediment."
      ∷ []);
  type = type_working;
  title = joined (
      "Review: "
      ∷ layer_text tr.from
      ∷ "→"
      ∷ layer_text tr.to
      ∷ " for "
      ∷ truncate_runes (or_id (trim_space target.title) target.id) 80
      ∷ []);
  tags =
      "review-queue"
      ∷ "sediment-cycle"
      ∷ "review:required"
      ∷ joined ("sediment-target:" ∷ layer_text tr.to ∷ [])
      ∷ [];
  context = target.context;
  importance = pos 50;
  metadata =
      (key_record_kind, review_queue_item)
      ∷ (key_review_required, "true")
      ∷ (key_review_reason, joined ("sediment_cycle_" ∷ reason_text tr.reason ∷ []))
      ∷ (key_review_source, review_source_sediment_cycle)
      ∷ (key_review_target_memory_id, target.id)
      ∷ (key_review_target_layer, layer_text tr.to)
      ∷ [];
  embedding = [];
  embedding_model = "";
  created_at = 0;
  updated_at = 0;
  accessed_at = 0;
  access_count = 0;
  targeted_access_count = 0;
  valid_from = none;
  valid_until = none;
  superseded_by = "";
  replaces = "";
  observed_at = none;
  sediment_layer = "";
}

abbrev pub is_pending_in : List String → String → Bool
is_pending_in pending id = any (λ k. k == id) pending

-- whether a review item was written; `pending` holds the targets that have one
unfoldable pub create_sediment_review_item :
    Env → Memory → SedimentTransition → List String → Op Bool
unfolding store lift sediment_review
create_sediment_review_item env target tr pending =
    if is_pending_in pending target.id
    then lift (ok false)
    else (do stored ← store env (sediment_review target tr); lift (ok true))

-- the target of an unresolved review item of a sweep
unfoldable pub pending_target : Memory → Option String
pending_target m =
    let target = trim_space (text_at key_review_target_memory_id m.metadata) in
    if not (is_review_queue m.metadata)
    then none
    else if not (text_at key_review_source m.metadata == review_source_sediment_cycle)
    then none
    else if equal_fold (trim_space (text_at key_review_required m.metadata)) "false"
    then none
    else if is_empty target
    then none
    else some target

unfoldable pub pending_targets : List Memory → List String
unfolding pending_target
pending_targets [] = []
pending_targets (m ∷ ms) = or_more (pending_target m) (pending_targets ms)

unfoldable pub load_pending_sediment_reviews : Cache → List String
unfolding pending_targets list_lightweight_by
load_pending_sediment_reviews cache =
    pending_targets (list_lightweight (record no_filters { type = type_working }) cache)

-- `sedimentReviewItemExists`
abbrev pub is_open_review : String → Memory → Bool
is_open_review id m =
    is_review_queue m.metadata
    && text_at key_review_target_memory_id m.metadata == id
    && text_at key_review_source m.metadata == review_source_sediment_cycle
    && not (equal_fold (trim_space (text_at key_review_required m.metadata)) "false")

unfoldable pub sediment_review_item_exists : String → String → Op Bool
unfolding list_by lift
sediment_review_item_exists context id = do
  items ← list (record no_filters { context = context; type = type_working }) 0
  lift (ok (any (is_open_review id) items))

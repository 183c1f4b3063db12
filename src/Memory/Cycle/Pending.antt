-- ===== src/Memory/Cycle/Pending.antt =====
-- Stored review items that are open, and the pending ones that a sweep loads.
use agent_memory_mcp.Base.{
  or_more, String, ◌≡◌, refl, ap, ◌∙◌, true, false, Option, none, some, List, [], ◌∷◌, eq_iff,
  arith, inl, inr,
}
use agent_memory_mcp.Base.Sorting.{In}
use agent_memory_mcp.Text.{trim_space, equal_fold, is_empty}
use agent_memory_mcp.Dict.{lookup, text_at}
use agent_memory_mcp.Memory.Types.{
  Memory, type_working, key_review_required, key_review_source, key_review_target_memory_id,
  review_source_sediment_cycle,
}
use agent_memory_mcp.Memory.Engineering.{is_review_queue}
use agent_memory_mcp.Memory.Cache.{to_cached_memory}
use agent_memory_mcp.Memory.World.{World}
use agent_memory_mcp.Memory.World.Rows.{scan_row}
use agent_memory_mcp.Memory.World.Saving.{Agrees}
use agent_memory_mcp.Memory.Reading.{no_filters, cached_to_memory, list_lightweight}
use agent_memory_mcp.Memory.Reading.Meeting.{Meets}
use agent_memory_mcp.Memory.Reading.Queries.{list_lightweight-In}
use agent_memory_mcp.Memory.Cycle.Reviews.{
  is_pending_in, pending_target, pending_targets, load_pending_sediment_reviews,
}

-- an open review item of a sweep, for a record
pub record IsOpenReview (id : String) (m : Memory) : Type 0 where
  pub working : m.type ≡ type_working
  pub review : is_review_queue m.metadata ≡ true
  pub source : text_at key_review_source m.metadata ≡ review_source_sediment_cycle
  pub unresolved : equal_fold (trim_space (text_at key_review_required m.metadata)) "false" ≡ false
  pub target : trim_space (text_at key_review_target_memory_id m.metadata) ≡ id

pending_targets-In :
    (id : String) (m : Memory) (ms : List Memory)
    → pending_target m ≡ some id
    → In m ms
    → is_pending_in (pending_targets ms) id ≡ true
unfolding pending_targets
pending_targets-In id m [] e i = absurd i
pending_targets-In id m (x ∷ ms) e (inl h) =
    let q : pending_target x ≡ some id = ap pending_target {x = x} {y = m} (cc) ∙ e in
    rw (q, pending_targets) (ground (arith, eq_iff id id))
pending_targets-In id m (x ∷ ms) e (inr i) =
    split (pending_target x) (pending_targets-In id m ms e i)
  where
    split :
        (o : Option String)
        → is_pending_in (pending_targets ms) id ≡ true
        → is_pending_in (or_more o (pending_targets ms)) id ≡ true
    split none h = h
    split (some k) h = ground (arith, h)

pending_target-open :
    (id : String) (m : Memory)
    → is_empty id ≡ false
    → IsOpenReview id m
    → pending_target (cached_to_memory (to_cached_memory (scan_row m))) ≡ some id
unfolding pending_target cached_to_memory to_cached_memory scan_row
pending_target-open id m n o = rw (o.review, o.source, o.unresolved, o.target, n) refl

-- a stored review that is open is among the pending ones that a sweep loads
pub open_review-IsPending :
    (w : World) (id k : String) (item : Memory)
    → Agrees w
    → is_empty id ≡ false
    → lookup k w.rows ≡ some item
    → IsOpenReview id item
    → is_pending_in (load_pending_sediment_reviews w.cache) id ≡ true
unfolding load_pending_sediment_reviews
open_review-IsPending w id k item s n e o =
    let f = record no_filters { type = type_working } in
    let meets : Meets f item = record {
      type = inr o.working;
      context = inl refl;
      importance = inl (omega arith);
      since = inl refl;
      tags = inl refl;
    } in
    pending_targets-In id (cached_to_memory (to_cached_memory (scan_row item)))
      (list_lightweight f w.cache) (pending_target-open id item n o)
      (list_lightweight-In w s f k item e meets)

-- ===== src/Memory/Cycle.antt =====
-- sediment_cycle.go: the sweep that moves records between layers or asks for a review. Its errors are
-- kept without their message texts. `Now` of the policy is the clock of the environment.
pub mod Reviews
pub mod Dry
pub mod Preview
pub mod Counts
pub mod Agreement
pub mod Pending
pub mod Rounds
pub mod Sparing
pub mod Proposals
use Prim.Native.String
use agent_memory_mcp.Base.{
  ℕ, zero, suc, ◌+◌, ◌-◌, ◌*◌, ◌%◌, String, Bool, true, false, ◌&&◌, not, Option, none, some, List,
  [], ◌∷◌, ◌++◌, ◌==◌, any, length, ltb, leb, if◌then◌else◌,
}
use agent_memory_mcp.Base.Int.{ℤ, pos, negsuc, sub_ℕ, ltbℤ, lebℤ}
use agent_memory_mcp.Base.Sorting.{sort_by}
use agent_memory_mcp.Text.{trim_space, equal_fold, is_empty}
use agent_memory_mcp.Dict.{text_at}
use agent_memory_mcp.Memory.Types.{
  Time, Memory, Result, ok, err, Error, type_working, key_record_kind, key_review_required,
  key_review_reason, key_review_source, key_review_target_memory_id, key_review_target_layer,
  review_queue_item, review_source_sediment_cycle,
}
use agent_memory_mcp.Memory.Engineering.{is_review_queue}
use agent_memory_mcp.Memory.Sediment.{
  SedimentLayer, surface, layer_text, SedimentPolicy, SedimentTransition, Reason, aged_surface,
  aged_episodic, canonical_promotion, character_decay, defaults_applied, decide,
}
use agent_memory_mcp.Memory.Policy.{truncate_runes}
use agent_memory_mcp.Memory.Cache.{Cache}
use agent_memory_mcp.Memory.World.{Env, World}
use agent_memory_mcp.Memory.World.Op.{Op, lift, ◌>>=◌, tick}
use agent_memory_mcp.Memory.Reading.{
  Filters, no_filters, newer, list_lightweight, list_lightweight_by, list,
}
use agent_memory_mcp.Memory.Store.Writes.{store}
use agent_memory_mcp.Memory.Store.Layers.{LayerResult, promote_sediment}
use agent_memory_mcp.Memory.Cycle.Reviews.{
  create_sediment_review_item, load_pending_sediment_reviews,
}

pub record SedimentCycleConfig : Type 0 where
  pub policy : SedimentPolicy
  pub dry_run : Bool
  pub since_days : ℤ
  pub limit : ℤ

pub record CycleError : Type 0 where
  pub transition : SedimentTransition
  pub error : Error

pub record SedimentCycleResult : Type 0 where
  pub auto_applied : ℕ
  pub review_queued : ℕ
  pub skipped : ℕ
  pub errors : List CycleError
  pub dry_run : Bool
  pub transitions : List SedimentTransition

abbrev pub day_nanoseconds : ℕ
day_nanoseconds = 86400000000000

abbrev pub int64_half : ℕ
int64_half = 9223372036854775808

-- now.Add(-time.Duration(days) * 24 * time.Hour), the product wrapped to 64 bits
unfoldable pub days_before : Time → ℕ → ℤ
days_before now days =
    let wrapped = (days * day_nanoseconds) % 18446744073709551616 in
    if leb wrapped int64_half
    then sub_ℕ now wrapped
    else pos (now + (18446744073709551616 - wrapped))

unfoldable pub since_cutoff : Time → ℤ → ℤ
unfolding days_before
since_cutoff now (negsuc n) = pos 0
since_cutoff now (pos n) = if leb n 0 then pos 0 else days_before now n

-- a record that is younger than the cutoff; a cutoff of 0 is none
unfoldable pub is_younger : ℤ → Memory → Bool
is_younger (pos zero) m = false
is_younger (pos (suc n)) m = ltbℤ (pos (suc n)) (pos m.created_at)
is_younger (negsuc n) m = ltbℤ (negsuc n) (pos m.created_at)

-- the result so far, the number of records that moved, and the targets that have a review item
pub record CycleState : Type 0 where
  pub auto_applied : ℕ
  pub review_queued : ℕ
  pub skipped : ℕ
  pub errors : List CycleError
  pub transitions : List SedimentTransition
  pub processed : ℕ
  pub pending : List String

abbrev pub start_state : List String → CycleState
start_state pending = record {
  auto_applied = 0;
  review_queued = 0;
  skipped = 0;
  errors = [];
  transitions = [];
  processed = 0;
  pending = pending;
}

abbrev pub one_applied : CycleState → CycleState
one_applied s = record s { auto_applied = s.auto_applied + 1 }

abbrev pub one_queued : CycleState → CycleState
one_queued s = record s { review_queued = s.review_queued + 1 }

abbrev pub round_failed : SedimentTransition → Error → CycleState → CycleState
round_failed tr e s = record s { errors = s.errors ++ (record { transition = tr; error = e } ∷ []) }

abbrev pub after_promotion :
    SedimentTransition → CycleState → Result LayerResult × World → CycleState × World
after_promotion tr s (ok r, w) = (one_applied s, w)
after_promotion tr s (err e, w) = (round_failed tr e s, w)

abbrev pub after_review : SedimentTransition → CycleState → Result Bool × World → CycleState × World
after_review tr s (ok true, w) = (record (one_queued s) { pending = tr.memory_id ∷ s.pending }, w)
after_review tr s (ok false, w) = (s, w)
after_review tr s (err e, w) = (round_failed tr e s, w)

-- a transition is applied or goes to a review
unfoldable pub act_on :
    Env → Bool → Memory → SedimentTransition → CycleState → World → CycleState × World
unfolding promote_sediment create_sediment_review_item
act_on env dry_run m tr s w =
    if tr.auto
    then (if dry_run
        then (one_applied s, w)
        else after_promotion tr s (promote_sediment env tr.memory_id (layer_text tr.to) w))
    else (if dry_run
        then (one_queued s, w)
        else after_review tr s (create_sediment_review_item env m tr s.pending w))

-- `Decide` reads the clock for every record that is no review item
unfoldable pub decide_now :
    Env → SedimentPolicy → Memory → World → Option SedimentTransition × World
unfolding decide
decide_now env policy m w =
    if is_review_queue m.metadata
    then (none, w)
    else (decide m policy (env.now w.calls), record w { calls = suc w.calls })

abbrev pub with_transition : SedimentTransition → CycleState → CycleState
with_transition tr s = record s {
  processed = s.processed + 1;
  transitions = s.transitions ++ (tr ∷ []);
}

abbrev pub round_skipped : CycleState → CycleState
round_skipped s = record s { skipped = s.skipped + 1 }

unfoldable pub consider :
    Env → Bool → Memory → CycleState → Option SedimentTransition × World → CycleState × World
unfolding act_on
consider env dry_run m s (none, w) = (round_skipped s, w)
consider env dry_run m s (some tr, w) = act_on env dry_run m tr (with_transition tr s) w

-- whether as many records have moved as the limit allows
abbrev pub is_full : ℤ → ℕ → Bool
is_full limit processed = ltbℤ (pos 0) limit && lebℤ limit (pos processed)

-- one round of the loop; none is `break`
unfoldable pub cycle_round :
    Env → SedimentCycleConfig → ℤ → Memory → CycleState × World → Option (CycleState × World)
unfolding is_younger decide_now consider defaults_applied
cycle_round env cfg cutoff m (s, w) =
    if is_younger cutoff m
    then some (s, w)
    else if is_full cfg.limit s.processed
    then none
    else some (consider env cfg.dry_run m s (decide_now env (defaults_applied cfg.policy) m w))

unfoldable pub cycle_loop :
    Env → SedimentCycleConfig → ℤ → List Memory → CycleState × World → CycleState × World
unfolding cycle_round
cycle_loop env cfg cutoff [] x = x
cycle_loop env cfg cutoff (m ∷ ms) x = elim (cycle_round env cfg cutoff m x) [
  | none ↦ x
  | some y ↦ cycle_loop env cfg cutoff ms y
]

abbrev pub cycle_result : Bool → CycleState → SedimentCycleResult
cycle_result dry_run s = record {
  auto_applied = s.auto_applied;
  review_queued = s.review_queued;
  skipped = s.skipped;
  errors = s.errors;
  dry_run = dry_run;
  transitions = s.transitions;
}

-- the listing is sorted as `ListLightweight` may sort it; of the open reviews only the set matters
unfoldable pub run_sediment_cycle_by :
    (List Memory → List Memory) → Env → SedimentCycleConfig → World → SedimentCycleResult × World
unfolding cycle_loop since_cutoff list_lightweight_by load_pending_sediment_reviews
run_sediment_cycle_by sort env cfg w =
    let now = env.now w.calls in
    let pending = load_pending_sediment_reviews w.cache in
    let (s, w') =
      cycle_loop env cfg (since_cutoff now cfg.since_days)
        (list_lightweight_by sort no_filters w.cache)
        (start_state pending, record w { calls = suc w.calls }) in
    (cycle_result cfg.dry_run s, w')

abbrev pub run_sediment_cycle : Env → SedimentCycleConfig → World → SedimentCycleResult × World
run_sediment_cycle env cfg w = run_sediment_cycle_by (sort_by newer) env cfg w

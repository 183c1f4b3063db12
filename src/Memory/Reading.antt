-- ===== src/Memory/Reading.antt =====
-- read.go: the filters and the listings of a store, and the batch of rows behind them.
-- Ranking by vectors is not modelled.
pub mod Snapshot
pub mod Access
pub mod Batch
pub mod Listing
pub mod Meeting
pub mod Queries
pub mod Statistics
pub mod Quiet
use agent_memory_mcp.Base.{
  ℕ, zero, suc, ◌+◌, String, Bool, true, false, ◌&&◌, ◌||◌, not, Option, none, some, List, [], ◌∷◌,
  ◌==◌, any, is_nil, ltb, length, take, map, if◌then◌else◌,
}
use agent_memory_mcp.Base.Int.{ℤ, pos, ltbℤ}
use agent_memory_mcp.Base.Sorting.{filter, sort_by}
use agent_memory_mcp.Text.{is_empty}
use agent_memory_mcp.Dict.{Dict, lookup, insert, values, text_at}
use agent_memory_mcp.Memory.Types.{Time, is_zero, Memory, Result, ok, err, key_record_kind}
use agent_memory_mcp.Memory.Sediment.{layer_text}
use agent_memory_mcp.Memory.Cache.{CachedMemory, Cache, update_cached_field}
use agent_memory_mcp.Memory.World.{Env, World}
use agent_memory_mcp.Memory.World.Rows.{scan_row, change_row}
use agent_memory_mcp.Memory.World.Op.{Op, lift, ◌>>=◌, ◌>>◌, sql, tick, get}

pub record Filters : Type 0 where
  pub type : String
  pub context : String
  pub min_importance : ℤ
  pub since : Time
  pub tags : List String

abbrev pub no_filters : Filters
no_filters = record { type = ""; context = ""; min_importance = pos 0; since = 0; tags = [] }

abbrev pub shares_tag : List String → List String → Bool
shares_tag wanted tags = any (λ t. any (λ u. u == t) wanted) tags

-- `matchCachedFilters`, with and without a set of tags
unfoldable pub matches : Filters → CachedMemory → Bool
matches f m =
    if not (is_empty f.type) && not (m.type == f.type)
    then false
    else if not (is_empty f.context) && not (m.context == f.context)
    then false
    else if ltbℤ (pos 0) f.min_importance && ltbℤ m.importance f.min_importance
    then false
    else if not (is_zero f.since) && ltb m.created_at f.since
    then false
    else if is_nil f.tags
    then true
    else shares_tag f.tags m.tags

abbrev pub values_of : Option (Dict CachedMemory) → List CachedMemory
values_of none = []
values_of (some ids) = values ids

unfoldable pub snapshot_for_context : String → Cache → List CachedMemory
unfolding values
snapshot_for_context context cache =
    if is_empty context
    then values cache.memories
    else values_of (lookup context cache.context_index)

-- `cachedMemoryToMemory`: `Replaces` and `ObservedAt` are not cached
unfoldable pub cached_to_memory : CachedMemory → Memory
cached_to_memory m = record {
  id = m.id;
  content = m.content;
  type = m.type;
  title = m.title;
  tags = m.tags;
  context = m.context;
  importance = m.importance;
  metadata = m.metadata;
  embedding = m.embedding;
  embedding_model = m.embedding_model;
  created_at = m.created_at;
  updated_at = m.updated_at;
  accessed_at = m.accessed_at;
  access_count = m.access_count;
  targeted_access_count = m.targeted_access_count;
  valid_from = m.valid_from;
  valid_until = m.valid_until;
  superseded_by = m.superseded_by;
  replaces = "";
  observed_at = none;
  sediment_layer = layer_text m.sediment_layer;
}

abbrev pub newer : Memory → Memory → Bool
newer a b = ltb b.updated_at a.updated_at

abbrev pub newer_cached : CachedMemory → CachedMemory → Bool
newer_cached a b = ltb b.updated_at a.updated_at

-- `ListLightweight`. The range over a map gives its records in any order, and sort.Slice leaves those that
-- were updated at one time in any order: what both make of the list is a parameter.
unfoldable pub list_lightweight_by : (List Memory → List Memory) → Filters → Cache → List Memory
unfolding matches snapshot_for_context cached_to_memory
list_lightweight_by sort f cache =
    sort (map cached_to_memory (filter (matches f) (snapshot_for_context f.context cache)))

-- in the order of the cache's list, with a stable sort
abbrev pub list_lightweight : Filters → Cache → List Memory
list_lightweight f cache = list_lightweight_by (sort_by newer) f cache

abbrev pub batch_chunk_size : ℕ
batch_chunk_size = 500

abbrev pub drop {ℓ} : {A : Type ℓ} → ℕ → List A → List A
drop zero xs = xs
drop (suc n) [] = []
drop (suc n) (x ∷ xs) = drop n xs

-- the rows of a chunk of ids, put into the result
unfoldable pub add_rows : List String → Dict Memory → Dict Memory → Dict Memory
add_rows [] rows found = found
add_rows (id ∷ ids) rows found = elim (lookup id rows) [
  | none ↦ add_rows ids rows found
  | some m ↦ add_rows ids rows (insert id (scan_row m) found)
]

-- `getBatchChunk`
unfoldable pub get_chunk : List String → Dict Memory → Op (Dict Memory)
unfolding sql add_rows
get_chunk ids found = do sql; λ w. (ok (add_rows ids w.rows found), w)

-- the loop of `getBatch`; as many rounds as there are ids are enough
unfoldable pub get_batch_from : ℕ → List String → Dict Memory → Op (Dict Memory)
unfolding get_chunk lift
get_batch_from zero ids found = lift (ok found)
get_batch_from (suc fuel) [] found = lift (ok found)
get_batch_from (suc fuel) (id ∷ ids) found = do
  more ← get_chunk (take batch_chunk_size (id ∷ ids)) found
  get_batch_from fuel (drop batch_chunk_size (id ∷ ids)) more

unfoldable pub get_batch : List String → Op (Dict Memory)
unfolding get_batch_from
get_batch ids = get_batch_from (length ids) ids []

-- a limit of 0 is none
abbrev pub limited {ℓ} : {A : Type ℓ} → ℕ → List A → List A
limited zero xs = xs
limited (suc n) xs = take (suc n) xs

-- the found rows in the order of the ids
unfoldable pub pick : List String → Dict Memory → List Memory
pick [] found = []
pick (id ∷ ids) found = elim (lookup id found) [
  | none ↦ pick ids found
  | some m ↦ m ∷ pick ids found
]

-- the cached records that `List` selects, with a sort as for `ListLightweight`
unfoldable pub selected_by :
    (List CachedMemory → List CachedMemory) → Filters → ℕ → Cache → List CachedMemory
unfolding matches snapshot_for_context
selected_by sort f limit cache =
    limited limit (sort (filter (matches f) (snapshot_for_context f.context cache)))

abbrev pub selected : Filters → ℕ → Cache → List CachedMemory
selected f limit cache = selected_by (sort_by newer_cached) f limit cache

abbrev pub ids_of : List CachedMemory → List String
ids_of ms = map (λ (m : CachedMemory). m.id) ms

-- `List`
unfoldable pub list_by : (List CachedMemory → List CachedMemory) → Filters → ℕ → Op (List Memory)
unfolding selected_by get_batch pick lift
list_by sort f limit w =
    let ids = ids_of (selected_by sort f limit w.cache) in
    (get_batch ids >>= λ found. lift (ok (pick ids found))) w

abbrev pub list : Filters → ℕ → Op (List Memory)
list f limit = list_by (sort_by newer_cached) f limit

-- `LastInContext`: the newest record with the tag since a time; a record that is not newer than the
-- one before it does not take its place
abbrev pub is_candidate : Time → CachedMemory → Bool
is_candidate since m =
    not (not (is_zero since) && ltb m.created_at since)
    && any (λ t. t == "session-checkpoint") m.tags

unfoldable pub latest_of : Time → Option CachedMemory → List CachedMemory → Option CachedMemory
latest_of since best [] = best
latest_of since none (m ∷ ms) = latest_of since (if is_candidate since m then some m else none) ms
latest_of since (some best) (m ∷ ms) =
    latest_of since
      (if is_candidate since m && ltb best.created_at m.created_at then some m else some best) ms

abbrev confirmed : Memory → Option Memory
confirmed m = if text_at key_record_kind m.metadata == "session_checkpoint" then some m else none

unfoldable pub last_in_context : String → Time → Op (Option Memory)
unfolding latest_of snapshot_for_context get lift
last_in_context context since w =
    elim (latest_of since none (snapshot_for_context context w.cache)) [
      | none ↦ (ok none, w)
      | some m ↦ (get m.id >>= λ full. lift (ok (confirmed full))) w
    ]

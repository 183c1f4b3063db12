-- ===== src/Memory/Cache.antt =====
-- memory.go: the cache of a store, by id and, for each context that is not empty, by context and id.
pub mod Coherence
use agent_memory_mcp.Base.{
  ℕ, String, Bool, true, false, ◌&&◌, not, Option, none, some, List, [], ◌∷◌, ◌==◌, is_nil,
  if◌then◌else◌,
}
use agent_memory_mcp.Base.Int.{ℤ}
use agent_memory_mcp.Text.{trim_space, to_lower, is_empty}
use agent_memory_mcp.Dict.{Dict, lookup, insert, erase, text_at}
use agent_memory_mcp.Memory.Types.{Time, Memory, key_knowledge_layer, key_owner}
use agent_memory_mcp.Memory.Engineering.{LifecycleStatus, canonical, lifecycle_status}
use agent_memory_mcp.Memory.Sediment.{SedimentLayer, layer_or_default}
use agent_memory_mcp.Memory.ActivityLog.{is_activity_log_for_selection}
use agent_memory_mcp.Memory.Trust.{cached_memory_entity, default_owner_for_memory_source}

pub record CachedMemory : Type 0 where
  pub id : String
  pub content : String
  pub type : String
  pub title : String
  pub tags : List String
  pub context : String
  pub lifecycle : LifecycleStatus
  pub knowledge_layer : String
  pub owner : String
  pub importance : ℤ
  pub metadata : Dict String
  pub embedding : List ℕ
  pub embedding_model : String
  pub created_at : Time
  pub updated_at : Time
  pub accessed_at : Time
  pub access_count : ℕ
  pub targeted_access_count : ℕ
  pub valid_from : Option Time
  pub valid_until : Option Time
  pub superseded_by : String
  pub sediment_layer : SedimentLayer
  pub activity_log : Bool

abbrev derived_layer : LifecycleStatus → String → String
derived_layer lifecycle layer =
    if is_empty layer then elim lifecycle [ canonical ↦ "canonical" | _ ↦ "raw" ] else layer

abbrev derived_owner : String → List String → String → String
derived_owner type tags owner =
    if is_empty owner
    then default_owner_for_memory_source (cached_memory_entity type tags)
    else owner

-- `toCachedMemory` with `deriveCachedFields`
unfoldable pub to_cached_memory : Memory → CachedMemory
to_cached_memory m = record {
  id = m.id;
  content = m.content;
  type = m.type;
  title = m.title;
  tags = m.tags;
  context = m.context;
  lifecycle = lifecycle_status m.type m.metadata;
  knowledge_layer =
      derived_layer (lifecycle_status m.type m.metadata)
        (to_lower (trim_space (text_at key_knowledge_layer m.metadata)));
  owner = derived_owner m.type m.tags (trim_space (text_at key_owner m.metadata));
  importance = m.importance;
  metadata = m.metadata;
  embedding = m.embedding;
  embedding_model = m.embedding_model;
  created_at = m.created_at;
  updated_at = m.updated_at;
  accessed_at = m.accessed_at;
  access_count = m.access_count;
  targeted_access_count = m.targeted_access_count;
  valid_from = m.valid_from;
  valid_until = m.valid_until;
  superseded_by = m.superseded_by;
  sediment_layer = layer_or_default m.sediment_layer;
  activity_log = is_activity_log_for_selection m.content;
}

pub record Cache : Type 0 where
  pub memories : Dict CachedMemory
  pub context_index : Dict (Dict CachedMemory)

abbrev pub empty_cache : Cache
empty_cache = record { memories = []; context_index = [] }

-- take an id out of the index of a context, and the context out of the index when it is empty
unfoldable pub unindex : String → String → Dict (Dict CachedMemory) → Dict (Dict CachedMemory)
unindex context id index = elim (lookup context index) [
  | none ↦ index
  | some ids ↦
      let rest = erase id ids in
      if is_nil rest then erase context index else insert context rest index
]

abbrev or_nil : Option (Dict CachedMemory) → Dict CachedMemory
or_nil none = []
or_nil (some ids) = ids

unfoldable pub index_under :
    String → CachedMemory → Dict (Dict CachedMemory) → Dict (Dict CachedMemory)
index_under context m index =
    if is_empty context
    then index
    else insert context (insert m.id m (or_nil (lookup context index))) index

abbrev leave_old_context :
    Option CachedMemory → CachedMemory → Dict (Dict CachedMemory) → Dict (Dict CachedMemory)
leave_old_context none m index = index
leave_old_context (some old) m index =
    if old.context == m.context then index else unindex old.context m.id index

unfoldable pub cache_set : CachedMemory → Cache → Cache
unfolding unindex index_under
cache_set m c = record {
  memories = insert m.id m c.memories;
  context_index =
      index_under m.context m (leave_old_context (lookup m.id c.memories) m c.context_index);
}

unfoldable pub cache_delete : String → Cache → Cache
unfolding unindex
cache_delete id c = elim (lookup id c.memories) [
  | none ↦ c
  | some m ↦ record {
    memories = erase id c.memories;
    context_index = unindex m.context m.id c.context_index;
  }
]

-- `updateCachedField`: a changed copy replaces the entry
unfoldable pub update_cached_field : String → (CachedMemory → CachedMemory) → Cache → Cache
unfolding cache_set
update_cached_field id fn c = elim (lookup id c.memories) [ none ↦ c | some m ↦ cache_set (fn m) c ]

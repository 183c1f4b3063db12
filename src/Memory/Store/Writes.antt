-- ===== src/Memory/Store/Writes.antt =====
-- `Store`, `Update` and `Delete` of write.go, and `SetTemporalFields` of temporal.go.
pub mod Agreement
pub mod Storing
pub mod Updating
pub mod Failing
pub mod Deleting
pub mod Calmly
use agent_memory_mcp.Base.{
  ℕ, String, Bool, true, false, ◌&&◌, Option, none, some, List, [], ◌∷◌, ◌==◌, is_nil,
  if◌then◌else◌,
}
use agent_memory_mcp.Base.Int.{ℤ}
use agent_memory_mcp.Text.{trim_space, is_empty}
use agent_memory_mcp.Dict.{Dict, lookup, insert, erase, has}
use agent_memory_mcp.Memory.Types.{
  Time, Memory, Result, ok, err, Error, database, key_embedding_truncated,
}
use agent_memory_mcp.Memory.Policy.{normalize_tags, normalize_metadata}
use agent_memory_mcp.Memory.Validate.{validate}
use agent_memory_mcp.Memory.Cache.{cache_delete}
use agent_memory_mcp.Memory.World.{Env, Embedded, World}
use agent_memory_mcp.Memory.World.Rows.{insert_memory_row}
use agent_memory_mcp.Memory.World.Op.{
  Op, lift, continue, ◌>>=◌, ◌>>◌, sql, tick, fresh_id, get, publish, save,
}
use agent_memory_mcp.Memory.Store.Embedding.{
  embed_for_write, mark_embedding_truncated, embed_new, check_secrets,
}

abbrev pub assign_id : Env → Memory → Op Memory
assign_id env m =
    if is_empty m.id then (do id ← fresh_id env; lift (ok (record m { id = id }))) else lift (ok m)

abbrev pub inserted : Option (Dict Memory) → World → Result (Unit {0}) × World
inserted none w = (err database, w)
inserted (some rows) w = (ok tt, record w { rows = rows })

-- `insertMemoryRow`
unfoldable pub insert_row : Memory → Op (Unit {0})
unfolding sql
insert_row m = do sql; λ w. inserted (insert_memory_row m w.rows) w

-- `verifyMemoryPersisted`
unfoldable pub verify_persisted : String → Op (Unit {0})
unfolding sql
verify_persisted id = do sql; λ w. if has id w.rows then (ok tt, w) else (err database, w)

-- what `Store` computes before it inserts
unfoldable pub prepare_store : Env → Memory → Op Memory
unfolding lift tick fresh_id embed_new
prepare_store env m = do
  valid ← lift (validate m)
  content ← lift (check_secrets env valid.content (valid.title ∷ valid.context ∷ []))
  embedded ← embed_new env (record valid { content = content })
  named ← assign_id env embedded
  now ← tick env
  lift (ok (record named { created_at = now; updated_at = now; accessed_at = now }))

-- insert, verify, cache
unfoldable pub insert_verified : Memory → Op Memory
unfolding insert_row verify_persisted publish lift
insert_verified m = do insert_row m; verify_persisted m.id; publish m; lift (ok m)

unfoldable pub store : Env → Memory → Op Memory
unfolding prepare_store insert_verified
store env m = do stored ← prepare_store env m; insert_verified stored

pub record Update : Type 0 where
  pub content : String
  pub title : String
  pub tags : List String
  pub context : String
  pub importance : Option ℤ
  pub metadata : Dict String

-- an embedding computed outside the lock; no vector where the provider refused
pub record EmbeddedContent : Type 0 where
  pub content : String
  pub embedding : List ℕ
  pub model : String
  pub truncated : Bool

-- the vector of the new content, or none
abbrev take_vector : Memory → Option EmbeddedContent → Memory
take_vector m none = m
take_vector m (some e) =
    if e.content == m.content
    then record m {
      embedding = e.embedding;
      embedding_model = e.model;
      metadata =
          if e.truncated
          then mark_embedding_truncated m.metadata
          else erase key_embedding_truncated m.metadata;
    }
    else m

unfoldable pub update_content : Update → Option EmbeddedContent → Memory → Memory
update_content u embedded m =
    if is_empty u.content
    then m
    else take_vector
        (record m { content = trim_space u.content; embedding = []; embedding_model = "" }) embedded

-- the loop that merges metadata: an empty value deletes its key
unfoldable pub merge_metadata : Dict String → Dict String → Dict String
merge_metadata merged [] = merged
merge_metadata merged ((key, value) ∷ rest) =
    let k = trim_space key in
    let v = trim_space value in
    merge_metadata
      (if is_empty k then merged else if is_empty v then erase k merged else insert k v merged) rest

abbrev or_keep : String → String → String
or_keep new old = if is_empty new then old else trim_space new

abbrev new_importance : Option ℤ → ℤ → ℤ
new_importance none old = old
new_importance (some n) old = n

unfoldable pub apply_update : Update → Option EmbeddedContent → Memory → Memory
unfolding update_content merge_metadata
apply_update u embedded current =
    let m = update_content u embedded current in
    record m {
      title = or_keep u.title m.title;
      tags = if is_nil u.tags then m.tags else normalize_tags u.tags;
      context = or_keep u.context m.context;
      importance = new_importance u.importance m.importance;
      metadata =
          if is_nil u.metadata
          then m.metadata
          else normalize_metadata (merge_metadata m.metadata u.metadata);
    }

-- what `updateLocked` computes before it writes
unfoldable pub prepare_update : Env → String → Update → Option EmbeddedContent → Op Memory
unfolding get tick lift
prepare_update env id u embedded = do
  current ← get id
  now ← tick env
  lift (validate (record (apply_update u embedded current) { updated_at = now }))

unfoldable pub update_locked : Env → String → Update → Option EmbeddedContent → Op (Unit {0})
unfolding prepare_update save
update_locked env id u embedded = do m ← prepare_update env id u embedded; save m

abbrev pub embedded_content : String → Option (Embedded × Bool) → EmbeddedContent
embedded_content content none = record {
  content = content;
  embedding = [];
  model = "";
  truncated = false;
}
embedded_content content (some (e, truncated)) = record {
  content = content;
  embedding = e.vector;
  model = e.model;
  truncated = truncated;
}

-- the vector of an update's content, asked for before the lock is taken
unfoldable pub embed_update : Env → String → Op (Option EmbeddedContent)
unfolding embed_for_write lift
embed_update env raw = elim env.embedder [
  | none ↦ lift (ok none)
  | some provider ↦
      let content = trim_space raw in
      if is_empty content then lift (ok none) else (do
        found ← embed_for_write provider content
        lift (ok (some (embedded_content content found))))
]

unfoldable pub update : Env → String → Update → Op (Unit {0})
unfolding embed_update update_locked lift
update env id u = do
  content ← lift (check_secrets env u.content (u.title ∷ u.context ∷ []))
  embedded ← embed_update env content
  update_locked env id (record u { content = content }) embedded

-- `Delete`: first the triples of the record, which are not modelled, then its row
unfoldable pub delete : String → Op (Unit {0})
unfolding sql
delete id = do
  sql
  sql
  λ w. (ok tt, record w { rows = erase id w.rows; cache = cache_delete id w.cache })

abbrev pub or_previous : Option Time → Option Time → Option Time
or_previous none old = old
or_previous (some t) old = some t

abbrev pub or_old : String → String → String
or_old new old = if is_empty new then old else new

abbrev pub with_temporal : Option Time → Option Time → String → String → Memory → Time → Memory
with_temporal valid_from valid_until superseded_by replaces m now = record m {
  valid_from = or_previous valid_from m.valid_from;
  valid_until = or_previous valid_until m.valid_until;
  superseded_by = or_old superseded_by m.superseded_by;
  replaces = or_old replaces m.replaces;
  updated_at = now;
}

unfoldable pub prepare_temporal :
    Env → String → Option Time → Option Time → String → String → Op Memory
unfolding get tick lift
prepare_temporal env id valid_from valid_until superseded_by replaces = do
  m ← get id
  now ← tick env
  lift (ok (with_temporal valid_from valid_until superseded_by replaces m now))

unfoldable pub set_temporal_fields :
    Env → String → Option Time → Option Time → String → String → Op (Unit {0})
unfolding prepare_temporal save
set_temporal_fields env id valid_from valid_until superseded_by replaces = do
  m ← prepare_temporal env id valid_from valid_until superseded_by replaces
  save m

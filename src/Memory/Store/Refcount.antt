-- ===== src/Memory/Store/Refcount.antt =====
-- refcount.go: the counter of references to a record.
pub mod Increments
use agent_memory_mcp.Base.{
  ℕ, ◌+◌, String, Bool, true, false, Option, none, some, List, [], ◌∷◌, ◌==◌, if◌then◌else◌,
}
use agent_memory_mcp.Text.{trim_space, is_empty}
use agent_memory_mcp.Text.Decimal.{itoa_next}
use agent_memory_mcp.Dict.{Dict, lookup, insert}
use agent_memory_mcp.Memory.Types.{Time, Memory, Result, ok, err, Error, key_referenced_by_count}
use agent_memory_mcp.Memory.Sediment.{referenced_by_count_from_metadata}
use agent_memory_mcp.Memory.Cache.{CachedMemory, update_cached_field}
use agent_memory_mcp.Memory.World.{Env, World}
use agent_memory_mcp.Memory.World.Rows.{change_row}
use agent_memory_mcp.Memory.World.Op.{Op, lift, continue, ◌>>=◌, ◌>>◌, sql, tick}

-- the metadata with the counter one higher, the sum wrapped to 64 bits
unfoldable pub count_one_more : Dict String → Dict String
unfolding itoa_next
count_one_more metadata =
    insert key_referenced_by_count (itoa_next (referenced_by_count_from_metadata metadata)) metadata

abbrev pub with_metadata : Dict String → Time → Memory → Memory
with_metadata metadata now m = record m { metadata = metadata; updated_at = now }

abbrev pub cached_at : Time → CachedMemory → CachedMemory
cached_at now m = record m { updated_at = now }

-- UPDATE memories SET metadata = ?, updated_at = ? WHERE id = ?
unfoldable pub update_metadata : String → Dict String → Time → Dict Memory → Dict Memory
unfolding change_row
update_metadata id metadata now rows = change_row id (with_metadata metadata now) rows

-- the SELECT of the metadata; no row is none
unfoldable pub read_metadata : String → Op (Option (Dict String))
unfolding sql
read_metadata id = do
  sql
  λ w. (ok (elim (lookup id w.rows) [ none ↦ none | some m ↦ some m.metadata ]), w)

-- the row's metadata and time, then the cached time
unfoldable pub write_count : Env → String → Dict String → Op (Unit {0})
unfolding sql tick count_one_more update_metadata
write_count env id metadata = do
  now ← tick env
  sql
  λ w. (
    ok tt,
    record w {
      rows = update_metadata id (count_one_more metadata) now w.rows;
      cache = update_cached_field id (cached_at now) w.cache;
    },
  )

abbrev count_if_found : Env → String → Option (Dict String) → Op (Unit {0})
count_if_found env id none = lift (ok tt)
count_if_found env id (some metadata) = write_count env id metadata

unfoldable pub increment_referenced_by_count : Env → String → Op (Unit {0})
unfolding read_metadata write_count lift
increment_referenced_by_count env id =
    if is_empty (trim_space id)
    then lift (ok tt)
    else (do metadata ← read_metadata id; count_if_found env id metadata)

-- ===== src/Memory/Store/Writes/Deleting.antt =====
-- A deletion keeps cache and database in agreement.
use agent_memory_mcp.Base.{String, ◌≡◌, refl, Bool, true, false, none, arith, ◌==◌, if◌then◌else◌}
use agent_memory_mcp.Dict.{Dict, lookup, erase}
use agent_memory_mcp.Dict.Laws.{lookup-erase}
use agent_memory_mcp.Memory.Types.{Memory}
use agent_memory_mcp.Memory.Cache.{Cache, cache_delete}
use agent_memory_mcp.Memory.Cache.Coherence.{cache_delete-IsCoherent, lookup-cache_delete}
use agent_memory_mcp.Memory.World.{World}
use agent_memory_mcp.Memory.World.Sound.{IsSound, cached_row}
use agent_memory_mcp.Memory.World.Saving.{Agrees, sql-then-Agrees}
use agent_memory_mcp.Memory.Store.Writes.{delete}

erase-IsSound :
    (id : String) (rows : Dict Memory) (cache : Cache)
    → IsSound rows cache
    → IsSound (erase id rows) (cache_delete id cache)
erase-IsSound id rows cache s = record {
  keyed = λ j m e. ground (arith, lookup-erase id j rows, s.keyed j m);
  proper = λ j m e. ground (arith, lookup-erase id j rows, s.proper j m);
  cached = λ j. rw (lookup-erase id j rows, lookup-cache_delete id j cache) (split j (id == j));
  coherent = cache_delete-IsCoherent id cache s.coherent;
}
  where
    split :
        (j : String) (b : Bool)
        → (if b then none else lookup j cache.memories)
          ≡ cached_row (if b then none else lookup j rows)
    split j true = refl
    split j false = s.cached j

-- A deletion, whichever of its two statements fails, keeps cache and database in agreement.
pub delete-Agrees : (id : String) (w : World) → Agrees w → Agrees (delete id w).1
unfolding delete
delete-Agrees id w s =
    sql-then-Agrees _ w s
      (λ w' s'. sql-then-Agrees _ w' s' (λ w'' s''. erase-IsSound id w''.rows w''.cache s''))

-- ===== src/Memory/World/Op.antt =====
-- Operations of the store: a result or an error, and the world that is left. What was written before
-- an error stays written, unless a transaction takes it back.
use agent_memory_mcp.Base.{ℕ, suc, String, Option, none, some, List, [], ◌∷◌, if◌then◌else◌}
use agent_memory_mcp.Dict.{Dict, lookup}
use agent_memory_mcp.Memory.Types.{Time, Memory, Result, ok, err, not_found, database}
use agent_memory_mcp.Memory.Cache.{to_cached_memory, cache_set}
use agent_memory_mcp.Memory.World.{Env, Embedded, World}
use agent_memory_mcp.Memory.World.Rows.{scan_row, update_memory_row}

abbrev pub Op {ℓ} : Type ℓ → Type ℓ
Op A = World → Result A × World

module _ {ℓ} {A : Type ℓ} where
  unfoldable pub lift : Result A → Op A
  lift r w = (r, w)

module _ {ℓ κ} {A : Type ℓ} {B : Type κ} where
  abbrev pub continue : Result A → (A → Op B) → Op B
  continue (ok a) f w = f a w
  continue (err e) f w = (err e, w)

  infixl 5 ◌>>=◌
  abbrev pub ◌>>=◌ : Op A → (A → Op B) → Op B
  ◌>>=◌ m f w = let (r, w') = m w in continue r f w'

abbrev pub ◌>>◌ {κ} : {B : Type κ} → Op (Unit {0}) → Op B → Op B
m >> n = m >>= λ _. n

infixl 5 ◌>>◌
-- an SQL call that may fail; a failing call has no effect
unfoldable pub sql : Op (Unit {0})
sql w = elim w.faults [
  | [] ↦ (ok tt, w)
  | fails ∷ faults ↦
      if fails
      then (err database, record w { faults = faults })
      else (ok tt, record w { faults = faults })
]

-- ms.now()
unfoldable pub tick : Env → Op Time
tick env w = (ok (env.now w.calls), record w { calls = suc w.calls })

-- uuid.New()
unfoldable pub fresh_id : Env → Op String
fresh_id env w = (ok (env.new_id w.calls), record w { calls = suc w.calls })

-- `EmbedDetailed`; a refusal is none
unfoldable pub embed_detailed : (ℕ → String → Option Embedded) → String → Op (Option Embedded)
embed_detailed provider text w = (ok (provider w.calls text), record w { calls = suc w.calls })

abbrev pub found_row : String → Option Memory → Result Memory
found_row id none = err (not_found id)
found_row id (some m) = ok (scan_row m)

unfoldable pub read_row : String → Op Memory
read_row id w = (found_row id (lookup id w.rows), w)

-- `Get`
unfoldable pub get : String → Op Memory
unfolding sql read_row
get id = do sql; read_row id

-- ms.cacheSetLocked(toCachedMemory(m))
unfoldable pub publish : Memory → Op (Unit {0})
publish m w = (ok tt, record w { cache = cache_set (to_cached_memory m) w.cache })

unfoldable pub write_row : Memory → Op (Unit {0})
write_row m w = (ok tt, record w { rows = update_memory_row m w.rows })

-- `updateMemoryRow` on the database, then the cache
unfoldable pub save : Memory → Op (Unit {0})
unfolding sql write_row publish
save m = do sql; write_row m; publish m

unfoldable pub write_rows : List Memory → Op (Unit {0})
unfolding sql write_row
write_rows [] = lift (ok tt)
write_rows (m ∷ ms) = do sql; write_row m; write_rows ms

unfoldable pub publish_all : List Memory → Op (Unit {0})
unfolding publish
publish_all [] = lift (ok tt)
publish_all (m ∷ ms) = do publish m; publish_all ms

abbrev pub rolled_back : {A : Type 0} → Dict Memory → Result A × World → Result A × World
rolled_back rows (ok a, w) = (ok a, w)
rolled_back rows (err e, w) = (err e, record w { rows = rows })

-- a transaction: an error before or at the commit takes the rows back
unfoldable pub transaction : Op (Unit {0}) → Op (Unit {0})
unfolding sql
transaction body = do sql; λ w. rolled_back w.rows ((do body; sql) w)

unfoldable pub save_all : List Memory → Op (Unit {0})
unfolding transaction write_rows publish_all
save_all ms = do transaction (write_rows ms); publish_all ms

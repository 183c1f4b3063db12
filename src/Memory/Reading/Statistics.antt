-- ===== src/Memory/Reading/Statistics.antt =====
-- read.go: `flushAccessStats`, which writes the accesses that were collected.
use agent_memory_mcp.Base.{ℕ, ◌+◌, String, Bool, true, false, List, [], ◌∷◌, is_nil, if◌then◌else◌}
use agent_memory_mcp.Dict.{Dict}
use agent_memory_mcp.Memory.Types.{Time, Memory, Result, ok, err}
use agent_memory_mcp.Memory.Cache.{CachedMemory, Cache, update_cached_field}
use agent_memory_mcp.Memory.World.{Env, World}
use agent_memory_mcp.Memory.World.Rows.{change_row}
use agent_memory_mcp.Memory.World.Op.{Op, lift, ◌>>=◌, ◌>>◌, sql, tick}

abbrev one_if : Bool → ℕ
one_if true = 1
one_if false = 0

-- the columns that an access writes, and the same change in the cache
abbrev pub accessed : Bool → Time → Memory → Memory
accessed targeted now m = record m {
  accessed_at = now;
  access_count = m.access_count + 1;
  targeted_access_count = m.targeted_access_count + one_if targeted;
}

abbrev pub cached_accessed : Bool → Time → CachedMemory → CachedMemory
cached_accessed targeted now m = record m {
  accessed_at = now;
  access_count = m.access_count + 1;
  targeted_access_count = m.targeted_access_count + one_if targeted;
}

-- the UPDATE of one row, and whether it went through; a failure is only logged
abbrev pub after_update : Bool → Time → String → Result (Unit {0}) × World → Bool × World
after_update targeted now id (ok u, w) =
    (true, record w { rows = change_row id (accessed targeted now) w.rows })
after_update targeted now id (err e, w) = (false, w)

unfoldable pub access_row : Bool → Time → String → World → Bool × World
unfolding sql change_row
access_row targeted now id w = after_update targeted now id (sql w)

-- the ids whose UPDATE went through
unfoldable pub access_rows : Bool → Time → List String → World → List String × World
unfolding access_row
access_rows targeted now [] w = ([], w)
access_rows targeted now (id ∷ ids) w =
    let (fine, w') = access_row targeted now id w in
    let (done, w'') = access_rows targeted now ids w' in (if fine then id ∷ done else done, w'')

unfoldable pub access_cache : Bool → Time → List String → Cache → Cache
unfolding update_cached_field
access_cache targeted now [] cache = cache
access_cache targeted now (id ∷ ids) cache =
    access_cache targeted now ids (update_cached_field id (cached_accessed targeted now) cache)

-- A commit that fails takes the rows back. After a commit the cache is changed under a lock of its own: the
-- flush does not hold writeMu, so other operations may run between the two.
abbrev pub after_commit :
    (World → World)
    → Bool
    → Time
    → Dict Memory
    → List String
    → Result (Unit {0}) × World
    → Result (Unit {0}) × World
unfolding access_cache
after_commit between targeted now rows done (ok u, w) =
    let w' = between w in (ok tt, record w' { cache = access_cache targeted now done w'.cache })
after_commit between targeted now rows done (err e, w) = (err e, record w { rows = rows })

unfoldable pub commit_access :
    (World → World) → Bool → Time → Dict Memory → List String × World → Result (Unit {0}) × World
unfolding sql access_cache
commit_access between targeted now rows (done, w) =
    after_commit between targeted now rows done (sql w)

-- `flushAccessStats`, with what runs between its commit and its change of the cache; the source only logs
-- the errors
unfoldable pub flush_access_stats_around :
    (World → World) → Env → Bool → List String → Op (Unit {0})
unfolding sql tick access_rows commit_access lift
flush_access_stats_around between env targeted ids = if is_nil ids then lift (ok tt) else (do
  now ← tick env
  sql
  sql
  λ w. commit_access between targeted now w.rows (access_rows targeted now ids w))

-- nothing runs between
abbrev pub flush_access_stats : Env → Bool → List String → Op (Unit {0})
flush_access_stats env targeted ids = flush_access_stats_around (λ w. w) env targeted ids

-- ===== src/Lib.antt =====
-- A model of the memory store of agent-memory-mcp, package internal/memory, with internal/textfmt
-- and the archive sweep of internal/lifecycle.
-- An agent's memories are rows of a SQLite table. A store keeps a cache of all rows, by id and by
-- context; every write changes the database first and the cache after it. Records carry metadata
-- that says what they are, how far they are trusted and in which sediment layer they lie.
--
-- Base, Text and Dict hold what the components share: Boolean tests on numbers, integers, lists,
-- the functions of Go's package strings on code points, decimal numbers, and maps with text keys.
-- Textfmt models internal/textfmt/truncate.go.
-- Memory/Types, Memory/Policy, Memory/Validate: the record, the normal forms of tags and
-- metadata, and Memory.Validate, from internal/memory/memory.go, policy.go and errors.go.
-- Memory/Engineering, Memory/Metadata: entity types, lifecycle, provenance and the metadata that
-- every write establishes, from internal/memory/engineering.go.
-- Memory/Sediment: the four layers and Decide, from internal/memory/sediment.go.
-- Memory/ActivityLog, Memory/Trust: internal/memory/activitylog.go and trust.go.
-- Memory/Cache: cachedMemory, toCachedMemory, cacheSetLocked, cacheDeleteLocked and
-- updateCachedField, from internal/memory/memory.go and helpers.go.
-- Memory/World: the rows (store_sql.go, Get of read.go), the operations on rows and cache, and
-- the predicate that cache and database agree: each row stands under its id, the cache holds
-- exactly the rows as a reload would cache them, and the index by context is right.
-- Memory/Reading: the filters, List, ListLightweight, LastInContext, getBatch and
-- flushAccessStats, from internal/memory/read.go.
-- Memory/Cycle: RunSedimentCycle and its review items, from internal/memory/sediment_cycle.go. It
-- lists the cache, moves records through Memory/Store and stores review items.
-- Lifecycle/ArchiveSweep: SweepArchive and EndTask, from internal/lifecycle/archive_sweep.go.
-- They list the records of a finished task, and mark them outdated, promote them or store review
-- items through Memory/Store.
-- Memory/Store: Store, Update, Delete and SetTemporalFields (Writes), MarkOutdated (Supersede),
-- PromoteToCanonical (Canonical), MergeDuplicates (Merge), PromoteSediment and DemoteSediment
-- (Layers), IncrementReferencedByCount (Refcount), and the embedding of a write (Embedding), from
-- internal/memory/write.go, temporal.go, refcount.go, helpers.go and embedwrite.go.
-- Tests and its child modules: runs at concrete inputs.
--
-- An operation is a function of a world: rows, cache, the faults of the SQL calls that are to
-- come, and the number of calls made. The operations that write hold the lock writeMu while they
-- read and write rows and cache, or compute an embedding before they take it, and are modelled as
-- running alone, as are the sweeps, which take the lock for each write; only flushAccessStats
-- takes no writeMu, so what runs between its commit and its change of the cache is an argument,
-- and a flush in the middle of another operation is not modelled. Parameters (Env) stand for the
-- clock, the id generator, the embedding provider, the format of times, and the regular
-- expressions of internal/secrets. Times are nanoseconds since Go's zero time; the difference of
-- two times saturates at 64 bits as in Go. Importance and confidence are in hundredths, which
-- leaves out NaN, an importance that Validate accepts. The counter of references wraps at 64
-- bits. Texts are sequences of code points and valid UTF-8; lower case and case folding cover
-- ASCII and the code points that fold into it. Printing of numbers recurses on fuel: a number's
-- digits are fewer than the number plus one. So does the loop over the chunks of a batch: each
-- round takes at least one id, so as many rounds as there are ids are enough. The listings take
-- what the range over the cache and sort.Slice make of a list as a parameter, and list,
-- list_lightweight, selected and run_sediment_cycle are the case of the cache's own order and a
-- stable sort; other maps that Go ranges over are taken in the order of their list. The paths and
-- directories of the archive sweep, and the answers of its context, are parameters.
--
-- Not modelled: the ranking of Recall, which computes with floating-point numbers,
-- RecountReferences, logging, the fan-out to the triple extractor and the rows of triples, the
-- JSON and blob encodings of columns, the goroutine that collects accesses, writes of other
-- processes, and the packages that only read the store or talk to services.
pub mod Base
pub mod Text
pub mod Dict
pub mod Memory
pub mod Lifecycle
pub mod Textfmt
pub mod Tests

-- ===== src/Memory/World/Fields.antt =====
-- An UPDATE of some columns, followed by the same change of the cached record.
use agent_memory_mcp.Base.{
  String, ◌≡◌, refl, sym, ap, ◌∙◌, Bool, true, false, some, ◌==◌, eq_iff, arith, if◌then◌else◌,
  Option-cases, inl, inr,
}
use agent_memory_mcp.Dict.{Dict, lookup}
use agent_memory_mcp.Dict.Laws.{lookup-insert}
use agent_memory_mcp.Memory.Types.{Memory}
use agent_memory_mcp.Memory.Cache.{CachedMemory, Cache, to_cached_memory, update_cached_field}
use agent_memory_mcp.Memory.Cache.Coherence.{update_cached_field-IsCoherent, lookup-cache_set}
use agent_memory_mcp.Memory.World.Rows.{null_time, scan_row, change_row}
use agent_memory_mcp.Memory.World.Sound.{IsSound, cached_row}

-- a change of columns that `g` makes in the cache
pub record Mirrors (f : Memory → Memory) (g : CachedMemory → CachedMemory) : Type 0 where
  pub same_id : (m : Memory) → (f m).id ≡ m.id
  pub valid_from : (m : Memory) → (f m).valid_from ≡ m.valid_from
  pub valid_until : (m : Memory) → (f m).valid_until ≡ m.valid_until
  pub cached_id : (m : CachedMemory) → (g m).id ≡ m.id
  pub cached : (m : Memory) → to_cached_memory (scan_row (f m)) ≡ g (to_cached_memory (scan_row m))

pub id-cached : (m : Memory) → (to_cached_memory (scan_row m)).id ≡ m.id
unfolding to_cached_memory scan_row
id-cached m = refl

module _ (id : String) (f : Memory → Memory) (g : CachedMemory → CachedMemory) where
  pub lookup-change_row :
      (j : String) (rows : Dict Memory) (old : Memory)
      → lookup id rows ≡ some old
      → lookup j (change_row id f rows) ≡ (if id == j then some (f old) else lookup j rows)
  unfolding change_row
  lookup-change_row j rows old e = rw (e, change_row) (lookup-insert id j (f old) rows)

  pub lookup-update_cached_field :
      (j : String) (cache : Cache) (old : CachedMemory)
      → lookup id cache.memories ≡ some old
      → (g old).id ≡ id
      → lookup j (update_cached_field id g cache).memories
        ≡ (if id == j then some (g old) else lookup j cache.memories)
  unfolding update_cached_field
  lookup-update_cached_field j cache old e i =
      rw (e, update_cached_field) (lookup-cache_set j (g old) cache ∙ rw i)

  module _ (x : Mirrors f g) (rows : Dict Memory) (cache : Cache) (s : IsSound rows cache) where
    change_found-IsSound :
        (old : Memory)
        → lookup id rows ≡ some old
        → IsSound (change_row id f rows) (update_cached_field id g cache)
    change_found-IsSound old e = record {
      keyed = λ j m h. ground (
        arith,
        lookup-change_row j rows old e,
        s.keyed j m,
        s.keyed id old,
        x.same_id old,
        eq_iff id j,
      );
      proper = λ j m h. proper j m h;
      cached = λ j.
          rw
            (
              lookup-change_row j rows old e,
              lookup-update_cached_field j cache (to_cached_memory (scan_row old))
                  (s.cached id ∙ ap cached_row e) (cached_id),
            )
            (split j (id == j));
      coherent = update_cached_field-IsCoherent id g cache s.coherent;
    }
      where
        proper :
            (j : String) (m : Memory)
            → lookup j (change_row id f rows) ≡ some m
            → (null_time m.valid_from ≡ m.valid_from) × (null_time m.valid_until ≡ m.valid_until)
        proper j m h = ground (
          arith,
          lookup-change_row j rows old e,
          s.proper id old e,
          s.proper j m,
          x.valid_from old,
          x.valid_until old,
        )

        cached_id : (g (to_cached_memory (scan_row old))).id ≡ id
        cached_id = x.cached_id _ ∙ id-cached old ∙ s.keyed id old e

        split :
            (j : String) (b : Bool)
            → (if b then some (g (to_cached_memory (scan_row old))) else lookup j cache.memories)
              ≡ cached_row (if b then some (f old) else lookup j rows)
        split j true = ap some (sym (x.cached old))
        split j false = s.cached j

  pub change-IsSound :
      Mirrors f g
      → (rows : Dict Memory) (cache : Cache) → IsSound rows cache
      → IsSound (change_row id f rows) (update_cached_field id g cache)
  unfolding change_row update_cached_field
  change-IsSound x rows cache s = elim (Option-cases (lookup id rows)) [
    | inl e ↦ rw (e, change_row, s.cached id ∙ ap cached_row e, update_cached_field) s
    | inr (old, e) ↦ change_found-IsSound x rows cache s old e
  ]

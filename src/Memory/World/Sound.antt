-- ===== src/Memory/World/Sound.antt =====
-- When cache and database agree, and that writing rows and publishing them keeps it so.
use agent_memory_mcp.Base.{
  ℕ, String, ◌≡◌, refl, sym, ap, subst, ◌∙◌, Bool, true, false, Option, none, some, ◌==◌, eq_iff,
  arith, if◌then◌else◌, Bool-cases, inl, inr,
}
use agent_memory_mcp.Dict.{Dict, lookup}
use agent_memory_mcp.Dict.Laws.{lookup-insert}
use agent_memory_mcp.Memory.Types.{Time, Memory}
use agent_memory_mcp.Memory.Cache.{CachedMemory, Cache, to_cached_memory, cache_set}
use agent_memory_mcp.Memory.Cache.Coherence.{IsCoherent, cache_set-IsCoherent, lookup-cache_set}
use agent_memory_mcp.Memory.World.Rows.{
  null_time, scan_row, row_with_count, update_memory_row, layer_or_default-sediment_layer_value,
}

-- what the cache holds for a row
abbrev pub cached_row : Option Memory → Option CachedMemory
cached_row none = none
cached_row (some m) = some (to_cached_memory (scan_row m))

-- Every row stands under its id, the cache holds exactly the rows, each as a reload would cache it,
-- and the index by context is right.
pub record IsSound (rows : Dict Memory) (cache : Cache) : Type 0 where
  pub keyed : (id : String) (m : Memory) → lookup id rows ≡ some m → m.id ≡ id
  pub proper :
      (id : String) (m : Memory)
      → lookup id rows ≡ some m
      → (null_time m.valid_from ≡ m.valid_from) × (null_time m.valid_until ≡ m.valid_until)
  pub cached : (id : String) → lookup id cache.memories ≡ cached_row (lookup id rows)
  pub coherent : IsCoherent cache

-- a record that an update of its row stores as it is
pub record Fits (rows : Dict Memory) (m : Memory) : Type 0 where
  pub old : Memory
  pub stored : lookup m.id rows ≡ some old
  pub targeted : old.targeted_access_count ≡ m.targeted_access_count
  pub from_proper : null_time m.valid_from ≡ m.valid_from
  pub until_proper : null_time m.valid_until ≡ m.valid_until

to_cached_memory-row :
    (m : Memory) (t : ℕ)
    → t ≡ m.targeted_access_count
    → null_time m.valid_from ≡ m.valid_from
    → null_time m.valid_until ≡ m.valid_until
    → to_cached_memory (scan_row (row_with_count m t)) ≡ to_cached_memory m
unfolding to_cached_memory scan_row row_with_count
to_cached_memory-row m t e f u =
    rw (e, f, u, layer_or_default-sediment_layer_value, layer_or_default-sediment_layer_value)

pub lookup-update :
    (m : Memory) (rows : Dict Memory) (old : Memory) (id : String)
    → lookup m.id rows ≡ some old
    → lookup id (update_memory_row m rows)
      ≡ (if m.id == id then some (row_with_count m old.targeted_access_count) else lookup id rows)
unfolding update_memory_row
lookup-update m rows old id e = rw (e, update_memory_row) (lookup-insert m.id id _ rows)

id-row_with_count : (m : Memory) (t : ℕ) → (row_with_count m t).id ≡ m.id
unfolding row_with_count
id-row_with_count m t = refl

null_time_idem : (t : Option Time) → null_time (null_time t) ≡ null_time t
null_time_idem t = ground arith

row_with_count-proper :
    (m : Memory) (t : ℕ)
    → (null_time (row_with_count m t).valid_from ≡ (row_with_count m t).valid_from)
      × (null_time (row_with_count m t).valid_until ≡ (row_with_count m t).valid_until)
unfolding row_with_count
row_with_count-proper m t = (null_time_idem m.valid_from, null_time_idem m.valid_until)

count-row_with_count : (m : Memory) (t : ℕ) → (row_with_count m t).targeted_access_count ≡ t
unfolding row_with_count
count-row_with_count m t = refl

module _ (m : Memory) (rows : Dict Memory) (cache : Cache) (f : Fits rows m)
    (s : IsSound rows cache) where
  abbrev row : Memory
  row = row_with_count m f.old.targeted_access_count

  update-keyed :
      (id : String) (x : Memory) → lookup id (update_memory_row m rows) ≡ some x → x.id ≡ id
  update-keyed id x e = ground (
    arith,
    lookup-update m rows f.old id f.stored,
    s.keyed id x,
    eq_iff m.id id,
    id-row_with_count m f.old.targeted_access_count,
  )

  update-proper :
      (id : String) (x : Memory)
      → lookup id (update_memory_row m rows) ≡ some x
      → (null_time x.valid_from ≡ x.valid_from) × (null_time x.valid_until ≡ x.valid_until)
  update-proper id x e = ground (
    arith,
    lookup-update m rows f.old id f.stored,
    s.proper id x,
    row_with_count-proper m f.old.targeted_access_count,
  )

  update-cached :
      (id : String)
      → lookup id (cache_set (to_cached_memory m) cache).memories
        ≡ cached_row (lookup id (update_memory_row m rows))
  unfolding to_cached_memory
  update-cached id =
      rw (lookup-update m rows f.old id f.stored, lookup-cache_set id (to_cached_memory m) cache)
        (split (m.id == id))
    where
      split :
          (b : Bool)
          → (if b then some (to_cached_memory m) else lookup id cache.memories)
            ≡ cached_row (if b then some row else lookup id rows)
      split true = ap some (
          sym (
            to_cached_memory-row m f.old.targeted_access_count f.targeted f.from_proper
              f.until_proper))
      split false = s.cached id

  -- An update of a row, published, keeps cache and database in agreement.
  pub update-IsSound : IsSound (update_memory_row m rows) (cache_set (to_cached_memory m) cache)
  update-IsSound = record {
    keyed = update-keyed;
    proper = update-proper;
    cached = update-cached;
    coherent = cache_set-IsCoherent (to_cached_memory m) cache s.coherent;
  }

-- an update of another row, or of this one, leaves a record fitting
pub Fits-update :
    (m k : Memory) (rows : Dict Memory)
    → Fits rows m
    → Fits rows k
    → Fits (update_memory_row k rows) m
Fits-update m k rows f g = elim (Bool-cases (k.id == m.id)) [
  | inl e ↦ record {
    old = row_with_count k g.old.targeted_access_count;
    stored = lookup-update k rows g.old m.id g.stored ∙ rw e;
    targeted = same_count e;
    from_proper = f.from_proper;
    until_proper = f.until_proper;
  }
  | inr e ↦ record {
    old = f.old;
    stored = lookup-update k rows g.old m.id g.stored ∙ rw e f.stored;
    targeted = f.targeted;
    from_proper = f.from_proper;
    until_proper = f.until_proper;
  }
]
  where
    same_count :
        (k.id == m.id) ≡ true
        → (row_with_count k g.old.targeted_access_count).targeted_access_count
          ≡ m.targeted_access_count
    same_count e =
        count-row_with_count k _ ∙ ground (arith, f.stored, g.stored, f.targeted, eq_iff k.id m.id)

-- a record computed from the row of an id
abbrev pub Derives : String → Dict Memory → Memory → Type 0
Derives id rows m =
    (old : Memory) × (lookup id rows ≡ some old)
    × (m.id ≡ old.id)
    × (old.targeted_access_count ≡ m.targeted_access_count)
    × (null_time m.valid_from ≡ m.valid_from)
    × (null_time m.valid_until ≡ m.valid_until)

pub Derives-Fits :
    (id : String) (rows : Dict Memory) (cache : Cache) (m : Memory)
    → IsSound rows cache
    → Derives id rows m
    → Fits rows m
Derives-Fits id rows cache m s (old, e, i, t, f, u) = record {
  old = old;
  stored = subst (λ k. lookup k rows ≡ some old) (sym (i ∙ s.keyed id old e)) e;
  targeted = t;
  from_proper = f;
  until_proper = u;
}

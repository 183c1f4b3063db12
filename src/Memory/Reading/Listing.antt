-- ===== src/Memory/Reading/Listing.antt =====
-- `List` against `ListLightweight`: the same records, less the two columns that are not cached.
use mathlib.Core.List.{Permᴰ}
use mathlib.Core.List.Permᴰ
use agent_memory_mcp.Base.{
  ◌⊎◌, ℕ, zero, suc, String, ◌≡◌, refl, sym, ap, ap₂, ◌∙◌, Bool, true, false, Option, none, some,
  List, [], ◌∷◌, ◌==◌, any, take, map, eq_refl, arith, if◌then◌else◌, All, Option-cases, inl, inr,
}
use agent_memory_mcp.Base.Sorting.{IsSortedBy, In, All-In, In-filter, filter, sort_by, map-sort_by}
use agent_memory_mcp.Base.Orders.{Sorts, All-Permᴰ, same_keys}
use agent_memory_mcp.Text.{is_empty}
use agent_memory_mcp.Dict.{Dict, lookup, values}
use agent_memory_mcp.Memory.Types.{Time, Memory, ok}
use agent_memory_mcp.Memory.Cache.{CachedMemory, Cache, to_cached_memory}
use agent_memory_mcp.Memory.World.{World}
use agent_memory_mcp.Memory.World.Op.{lift}
use agent_memory_mcp.Memory.World.Rows.{
  scan_row, sediment_layer_value, layer_or_default-sediment_layer_value,
}
use agent_memory_mcp.Memory.World.Sound.{cached_row}
use agent_memory_mcp.Memory.World.Saving.{Agrees}
use agent_memory_mcp.Memory.Reading.{
  list_lightweight_by, selected_by, list_by, Filters, snapshot_for_context, cached_to_memory, newer,
  newer_cached, list_lightweight, limited, values_of, pick, selected, ids_of, matches,
}
use agent_memory_mcp.Memory.Reading.Snapshot.{In-values}
use agent_memory_mcp.Memory.Reading.Batch.{scanned, get_batch-finds, batch_row}

-- the columns that are not cached, left out
abbrev pub without_uncached : Memory → Memory
without_uncached m = record m { replaces = ""; observed_at = none }

without_uncached-cached :
    (m : Memory) → without_uncached (scan_row m) ≡ cached_to_memory (to_cached_memory (scan_row m))
unfolding cached_to_memory to_cached_memory scan_row sediment_layer_value
without_uncached-cached m = rw layer_or_default-sediment_layer_value refl

-- a cached record stands for the row under its id
abbrev pub lookup_scanned : String → Dict Memory → Option Memory
lookup_scanned j rows = scanned (lookup j rows) none

abbrev pub IsBacked : Dict Memory → CachedMemory → Type 0
IsBacked rows c = (m : Memory) × (lookup c.id rows ≡ some m) × (c ≡ to_cached_memory (scan_row m))

All-take {κ} :
    (P : CachedMemory → Type κ) (n : ℕ) (xs : List CachedMemory) → All P xs → All P (take n xs)
All-take P zero xs h = tt
All-take P (suc n) [] h = tt
All-take P (suc n) (x ∷ xs) h = (h.0, All-take P n xs h.1)

All-limited {κ} :
    (P : CachedMemory → Type κ) (n : ℕ) (xs : List CachedMemory) → All P xs → All P (limited n xs)
All-limited P zero xs h = h
All-limited P (suc n) xs h = All-take P (suc n) xs h

module _ (w : World) (s : Agrees w) where
  held-IsBacked :
      (k : String) (c : CachedMemory) → lookup k w.cache.memories ≡ some c → IsBacked w.rows c
  held-IsBacked k c e = backed (Option-cases (lookup k w.rows))
    where
      backed :
          (lookup k w.rows ≡ none) ⊎ ((m : Memory) × (lookup k w.rows ≡ some m)) → IsBacked w.rows c
      backed (inl h) = absurd (cc (sym e ∙ s.cached k ∙ ap cached_row h))
      backed (inr (m, h)) = (
        m,
        ap (λ i. lookup i w.rows) (s.coherent.keyed k c e) ∙ h,
        some_inj (sym e ∙ s.cached k ∙ ap cached_row h),
      )
        where
          some_inj : {x y : CachedMemory} → some x ≡ some y → x ≡ y
          some_inj h = cc

  -- a record in the index of a context is in the cache
  index-held :
      (context k : String) (c : CachedMemory) (ids : Dict CachedMemory)
      → is_empty context ≡ false
      → lookup context w.cache.context_index ≡ some ids
      → lookup k ids ≡ some c
      → lookup k w.cache.memories ≡ some c
  index-held context k c ids n e h = ground (arith, s.coherent.by_context context k n)

  pub snapshot-IsBacked :
      (context : String) (c : CachedMemory)
      → In c (snapshot_for_context context w.cache)
      → IsBacked w.rows c
  unfolding snapshot_for_context
  snapshot-IsBacked context c i = go (is_empty context) refl i
    where
      of_context :
          is_empty context ≡ false
          → (o : Option (Dict CachedMemory)) → lookup context w.cache.context_index ≡ o
          → In c (values_of o)
          → IsBacked w.rows c
      of_context n none e k = absurd k
      of_context n (some ids) e k =
          let (j, h) = In-values c ids k in held-IsBacked j c (index-held context j c ids n e h)

      go :
          (b : Bool)
          → is_empty context ≡ b
          → In c (
              if b
              then values w.cache.memories
              else values_of (lookup context w.cache.context_index))
          → IsBacked w.rows c
      go true e k = let (j, h) = In-values c w.cache.memories k in held-IsBacked j c h
      go false e k = of_context e (lookup context w.cache.context_index) refl k

  pub selected-IsBacked :
      (sort : List CachedMemory → List CachedMemory)
      → ((cs : List CachedMemory) → Permᴰ (sort cs) cs)
      → (f : Filters) (limit : ℕ) → All (IsBacked w.rows) (selected_by sort f limit w.cache)
  unfolding selected_by
  selected-IsBacked sort perm f limit =
      let all = filter (matches f) (snapshot_for_context f.context w.cache) in
      All-limited (IsBacked w.rows) limit (sort all) (
        All-Permᴰ (IsBacked w.rows) (Permᴰ.symm (perm all)) (
          All-In (IsBacked w.rows) all (λ c i.
            snapshot-IsBacked f.context c
              (In-filter (matches f) c (snapshot_for_context f.context w.cache) i).0)))

pub pick-IsBacked :
    (rows found : Dict Memory) (cs : List CachedMemory)
    → ((j : String) → any (λ k. k == j) (ids_of cs) ≡ true → lookup j found ≡ lookup_scanned j rows)
    → All (IsBacked rows) cs
    → map without_uncached (pick (ids_of cs) found) ≡ map cached_to_memory cs
unfolding pick
pick-IsBacked rows found [] q h = refl
pick-IsBacked rows found (c ∷ cs) q ((m, e, k), h) =
    let r : lookup c.id found ≡ some (scan_row m) =
      q c.id (ground (arith, eq_refl c.id)) ∙ ap (λ o. scanned o none) e in
    rw (r, pick)
      (ap₂ ◌∷◌ (without_uncached-cached m ∙ ap cached_to_memory (sym k))
        (pick-IsBacked rows found cs (λ j e. q j (ground arith)) h))

map-limited :
    (n : ℕ) (g : CachedMemory → Memory) (xs : List CachedMemory)
    → map g (limited n xs) ≡ limited n (map g xs)
map-limited zero g xs = refl
map-limited (suc n) g xs = map-take (suc n) xs
  where
    map-take : (n : ℕ) (xs : List CachedMemory) → map g (take n xs) ≡ take n (map g xs)
    map-take zero xs = refl
    map-take (suc n) [] = refl
    map-take (suc n) (x ∷ xs) = ap (λ l. g x ∷ l) (map-take n xs)

pub selected-list_lightweight :
    (f : Filters) (limit : ℕ) (cache : Cache)
    → map cached_to_memory (selected f limit cache) ≡ limited limit (list_lightweight f cache)
unfolding selected_by list_lightweight_by cached_to_memory
selected-list_lightweight f limit cache =
    let all = filter (matches f) (snapshot_for_context f.context cache) in
    map-limited limit cached_to_memory (sort_by newer_cached all)
    ∙ ap (limited limit) (map-sort_by cached_to_memory newer_cached newer (λ x y. refl) all)

pub batch_row-nil :
    (j : String) (rows : Dict Memory) (ids : List String)
    → any (λ k. k == j) ids ≡ true
    → batch_row j rows ids [] ≡ lookup_scanned j rows
unfolding lookup
batch_row-nil j rows ids h = rw h refl

IsSortedBy-cached :
    (cs : List CachedMemory)
    → IsSortedBy newer_cached cs
    → IsSortedBy newer (map cached_to_memory cs)
unfolding cached_to_memory
IsSortedBy-cached [] s = tt
IsSortedBy-cached (c ∷ []) s = tt
IsSortedBy-cached (c ∷ d ∷ cs) s = (s.0, IsSortedBy-cached (d ∷ cs) s.1)

abbrev pub updates : List Memory → List Time
updates ms = map (λ (m : Memory). m.updated_at) ms

-- Where cache and database agree and no SQL call fails, List gives, less the two columns that are not cached and cut off at
-- the limit, a list of exactly the records that ListLightweight gives for the same filters, with the same update times in
-- the same order, and it changes nothing; whatever orders the ranges over the cache and the two sorts give to
-- records that were updated at one time.
pub list-list_lightweight :
    (sort : List CachedMemory → List CachedMemory) (sort' : List Memory → List Memory) (f : Filters)
    (limit : ℕ) (w : World)
    → Sorts newer_cached sort
    → Sorts newer sort'
    → Agrees w
    → w.faults ≡ []
    → (ms : List Memory) × (all : List Memory) × (list_by sort f limit w ≡ (ok ms, w))
      × (map without_uncached ms ≡ limited limit all)
      × Permᴰ all (list_lightweight_by sort' f w.cache)
      × (updates all ≡ updates (list_lightweight_by sort' f w.cache))
unfolding list_by list_lightweight_by selected_by lift
list-list_lightweight sort sort' f limit w o o' s e =
    let cs = filter (matches f) (snapshot_for_context f.context w.cache) in
    let chosen = selected_by sort f limit w.cache in
    let all = map cached_to_memory (sort cs) in
    let (found, r, q) = get_batch-finds (ids_of chosen) w e in
    let d : Permᴰ all (sort' (map cached_to_memory cs)) =
      Permᴰ.trans (Permᴰ.map cached_to_memory (o.perm cs))
        (Permᴰ.symm (o'.perm (map cached_to_memory cs))) in
    (
      pick (ids_of chosen) found,
      all,
      rw r refl,
      pick-IsBacked w.rows found chosen (λ j h. q j ∙ batch_row-nil j w.rows (ids_of chosen) h)
            (selected-IsBacked w s sort o.perm f limit)
          ∙ map-limited limit cached_to_memory (sort cs),
      d,
      same_keys (λ (m : Memory). m.updated_at) all (sort' (map cached_to_memory cs))
          (IsSortedBy-cached (sort cs) (o.sorted cs)) (o'.sorted (map cached_to_memory cs)) d,
    )

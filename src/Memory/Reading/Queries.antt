-- ===== src/Memory/Reading/Queries.antt =====
-- What `List` promises, said of the rows of the database alone.
use agent_memory_mcp.Base.{
  String, ◌≡◌, refl, sym, ap, subst, ◌∙◌, Bool, true, false, Option, none, some, List, [], ◌∷◌,
  ◌==◌, any, map, eq_iff, arith, if◌then◌else◌, inl, inr,
}
use agent_memory_mcp.Base.Sorting.{
  sort_by, In, map-In, In-filter, filter-In, In-sort_by, sort_by-In, filter, sort_by-IsSortedBy,
  IsSortedBy,
}
use agent_memory_mcp.Base.Orders.{sort_by-Permᴰ}
use agent_memory_mcp.Text.{is_empty}
use agent_memory_mcp.Dict.{Dict, lookup, values}
use agent_memory_mcp.Memory.Types.{Memory, ok}
use agent_memory_mcp.Memory.Cache.{CachedMemory, Cache, to_cached_memory}
use agent_memory_mcp.Memory.World.{World}
use agent_memory_mcp.Memory.World.Op.{lift}
use agent_memory_mcp.Memory.World.Rows.{scan_row}
use agent_memory_mcp.Memory.World.Fields.{id-cached}
use agent_memory_mcp.Memory.World.Saving.{Agrees}
use agent_memory_mcp.Memory.World.Sound.{cached_row}
use agent_memory_mcp.Memory.Reading.{
  list_lightweight_by, selected_by, list_by, Filters, matches, snapshot_for_context,
  cached_to_memory, newer, newer_cached, values_of, pick, ids_of, list, list_lightweight, selected,
}
use agent_memory_mcp.Memory.Reading.Snapshot.{values-In}
use agent_memory_mcp.Memory.Reading.Batch.{scanned, get_batch-finds}
use agent_memory_mcp.Memory.Reading.Listing.{
  snapshot-IsBacked, batch_row-nil, lookup_scanned, without_uncached, pick-IsBacked,
  selected-IsBacked, selected-list_lightweight,
}
use agent_memory_mcp.Memory.Reading.Meeting.{Meets, matches-Meets, Meets-matches}

-- the answer to a query: the rows that it asks for, as they are scanned, the last updated first
pub record Answers (f : Filters) (rows : Dict Memory) (ms : List Memory) : Type 0 where
  pub sound :
      (x : Memory)
      → In x ms
      → (k : String) × (m : Memory) × (lookup k rows ≡ some m) × Meets f m × (x ≡ scan_row m)
  pub complete : (k : String) (m : Memory) → lookup k rows ≡ some m → Meets f m → In (scan_row m) ms
  pub sorted : IsSortedBy newer ms

In-pick :
    (x : Memory) (cs : List CachedMemory) (found : Dict Memory)
    → In x (pick (ids_of cs) found)
    → (c : CachedMemory) × In c cs × (lookup c.id found ≡ some x)
unfolding pick
In-pick x [] found i = absurd i
In-pick x (c ∷ cs) found i = go (In-pick x cs found) (lookup c.id found) refl i
  where
    later :
        (c' : CachedMemory) × In c' cs × (lookup c'.id found ≡ some x)
        → (c' : CachedMemory) × In c' (c ∷ cs) × (lookup c'.id found ≡ some x)
    later (c', i, e) = (c', inr i, e)

    go :
        (In x (pick (ids_of cs) found)
          → (c' : CachedMemory) × In c' cs × (lookup c'.id found ≡ some x))
        → (o : Option Memory) → lookup c.id found ≡ o
        → In x (elim o [ none ↦ pick (ids_of cs) found | some m ↦ m ∷ pick (ids_of cs) found ])
        → (c' : CachedMemory) × In c' (c ∷ cs) × (lookup c'.id found ≡ some x)
    go ih none e i = later (ih i)
    go ih (some m) e (inl h) = (c, inl refl, e ∙ ap some (sym h))
    go ih (some m) e (inr i) = later (ih i)

pick-In :
    (x : Memory) (c : CachedMemory) (cs : List CachedMemory) (found : Dict Memory)
    → In c cs
    → lookup c.id found ≡ some x
    → In x (pick (ids_of cs) found)
unfolding pick
pick-In x c [] found i e = absurd i
pick-In x c (c' ∷ cs) found (inl h) e =
    let r : lookup c'.id found ≡ some x =
      ap (λ (d : CachedMemory). lookup d.id found) (sym h) ∙ e in
    rw (r, pick) (inl refl)
pick-In x c (c' ∷ cs) found (inr i) e = go (pick-In x c cs found i e) (lookup c'.id found)
  where
    go :
        In x (pick (ids_of cs) found)
        → (o : Option Memory)
        → In x (elim o [ none ↦ pick (ids_of cs) found | some m ↦ m ∷ pick (ids_of cs) found ])
    go ih none = ih
    go ih (some m) = inr ih

any-id :
    (c : CachedMemory) (cs : List CachedMemory) → In c cs → any (λ k. k == c.id) (ids_of cs) ≡ true
any-id c [] i = absurd i
any-id c (c' ∷ cs) (inl e) = ground (arith, eq_iff c'.id c.id, ap (λ (d : CachedMemory). d.id) e)
any-id c (c' ∷ cs) (inr i) = ground (arith, any-id c cs i)

module _ (w : World) (s : Agrees w) (f : Filters) where
  -- a row that meets the filters stands in the snapshot
  snapshot-In :
      (k : String) (m : Memory)
      → lookup k w.rows ≡ some m
      → Meets f m
      → In (to_cached_memory (scan_row m)) (snapshot_for_context f.context w.cache)
  unfolding snapshot_for_context to_cached_memory scan_row lookup
  snapshot-In k m e h = go (is_empty f.context) refl
    where
      held : lookup k w.cache.memories ≡ some (to_cached_memory (scan_row m))
      held = s.cached k ∙ ap cached_row e

      same : is_empty f.context ≡ false → m.context ≡ f.context
      same n = elim h.context [ inl z ↦ absurd (cc (sym n ∙ ap is_empty z)) | inr z ↦ z ]

      of_context :
          is_empty f.context ≡ false
          → (o : Option (Dict CachedMemory)) → lookup f.context w.cache.context_index ≡ o
          → In (to_cached_memory (scan_row m)) (values_of o)
      of_context n none z = absurd (
          ground (
            arith,
            s.coherent.by_context f.context k n,
            held,
            same n,
            eq_iff m.context f.context,
            z,
          ))
      of_context n (some ids) z = values-In (to_cached_memory (scan_row m)) k ids (
          ground (
            arith,
            s.coherent.by_context f.context k n,
            held,
            same n,
            eq_iff m.context f.context,
            z,
          ))

      go :
          (b : Bool)
          → is_empty f.context ≡ b
          → In (to_cached_memory (scan_row m)) (
              if b
              then values w.cache.memories
              else values_of (lookup f.context w.cache.context_index))
      go true z = values-In (to_cached_memory (scan_row m)) k w.cache.memories held
      go false z = of_context z (lookup f.context w.cache.context_index) refl

  module _ (found : Dict Memory)
      (r : (j : String)
        → any (λ k. k == j) (ids_of (selected f 0 w.cache)) ≡ true
        → lookup j found ≡ lookup_scanned j w.rows) where
    listed_sound :
        (x : Memory)
        → In x (pick (ids_of (selected f 0 w.cache)) found)
        → (k : String) × (m : Memory) × (lookup k w.rows ≡ some m) × Meets f m × (x ≡ scan_row m)
    unfolding selected_by
    listed_sound x i =
        let (c, j, e) = In-pick x (selected f 0 w.cache) found i in
        let (k, g) =
          In-filter (matches f) c (snapshot_for_context f.context w.cache)
            (In-sort_by newer_cached c _ j) in
        let (m, h, q) = snapshot-IsBacked w s f.context c k in
        (
          c.id,
          m,
          h,
          matches-Meets f m (ap (matches f) (sym q) ∙ g),
          some_inj x (scan_row m)
              (sym e ∙ r c.id (any-id c (selected f 0 w.cache) j) ∙ ap (λ o. scanned o none) h),
        )
      where
        some_inj : (a b : Memory) → some a ≡ some b → a ≡ b
        some_inj a b h = cc

    listed_complete :
        (k : String) (m : Memory)
        → lookup k w.rows ≡ some m
        → Meets f m
        → In (scan_row m) (pick (ids_of (selected f 0 w.cache)) found)
    unfolding selected_by
    listed_complete k m e h =
        let c = to_cached_memory (scan_row m) in
        let i : In c (selected f 0 w.cache) =
          sort_by-In newer_cached c _
            (filter-In (matches f) c _ (snapshot-In k m e h) (Meets-matches f m h)) in
        let same : c.id ≡ k = id-cached m ∙ s.keyed k m e in
        pick-In (scan_row m) c (selected f 0 w.cache) found i (
          r c.id (any-id c (selected f 0 w.cache) i)
          ∙ ap (λ j. lookup_scanned j w.rows) same
          ∙ ap (λ o. scanned o none) e)

newer_asym : (a b : Memory) → newer a b ≡ true → newer b a ≡ false
newer_asym a b h = ground arith

IsSortedBy-uncached :
    (ms : List Memory) → IsSortedBy newer (map without_uncached ms) → IsSortedBy newer ms
IsSortedBy-uncached [] h = tt
IsSortedBy-uncached (a ∷ []) h = tt
IsSortedBy-uncached (a ∷ b ∷ ms) h = (h.0, IsSortedBy-uncached (b ∷ ms) h.1)

list_lightweight-IsSorted :
    (f : Filters) (cache : Cache) → IsSortedBy newer (list_lightweight f cache)
unfolding list_lightweight_by
list_lightweight-IsSorted f cache =
    sort_by-IsSortedBy newer newer_asym
      (map cached_to_memory (filter (matches f) (snapshot_for_context f.context cache)))

-- a row that meets the filters is in the listing from the cache, as it is cached
pub list_lightweight-In :
    (w : World) (s : Agrees w) (f : Filters) (k : String) (m : Memory)
    → lookup k w.rows ≡ some m
    → Meets f m
    → In (cached_to_memory (to_cached_memory (scan_row m))) (list_lightweight f w.cache)
unfolding list_lightweight_by
list_lightweight-In w s f k m e h =
    let c = to_cached_memory (scan_row m) in
    sort_by-In newer (cached_to_memory c) _ (
      map-In cached_to_memory c (filter (matches f) (snapshot_for_context f.context w.cache)) (
        filter-In (matches f) c (snapshot_for_context f.context w.cache) (snapshot-In w s f k m e h)
          (Meets-matches f m h)))

-- Where cache and database agree and no SQL call fails, List without a limit answers the query from the rows: it gives
-- exactly the stored records that meet the filters, each as its row is scanned, the last updated first; and it changes nothing.
pub list-Answers :
    (f : Filters) (w : World)
    → Agrees w
    → w.faults ≡ []
    → (ms : List Memory) × (list f 0 w ≡ (ok ms, w)) × Answers f w.rows ms
unfolding list_by lift
list-Answers f w s e =
    let cs = selected f 0 w.cache in
    let (found, r, q) = get_batch-finds (ids_of cs) w e in
    let held = λ (j : String) (h : any (λ k. k == j) (ids_of cs) ≡ true).
      q j ∙ batch_row-nil j w.rows (ids_of cs) h in
    (
      pick (ids_of cs) found,
      rw r refl,
      record {
        sound = listed_sound w s f found held;
        complete = listed_complete w s f found held;
        sorted = IsSortedBy-uncached (pick (ids_of cs) found) (
            subst (IsSortedBy newer)
              (sym (
                pick-IsBacked w.rows found cs held
                  (selected-IsBacked w s (sort_by newer_cached) (sort_by-Permᴰ newer_cached) f 0)
                ∙ selected-list_lightweight f 0 w.cache))
              (list_lightweight-IsSorted f w.cache));
      },
    )

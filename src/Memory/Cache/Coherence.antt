-- ===== src/Memory/Cache/Coherence.antt =====
-- The index by context holds, of each context, exactly the cached records of that context.
use agent_memory_mcp.Base.{
  String, ◌≡◌, refl, true, false, Option, none, some, [], ◌∷◌, arith, ◌==◌, eq_iff, is_nil,
  if◌then◌else◌, Option-cases, inl, inr,
}
use agent_memory_mcp.Text.{is_empty}
use agent_memory_mcp.Dict.{Dict, lookup, insert, erase}
use agent_memory_mcp.Dict.Laws.{lookup-insert, lookup-erase}
use agent_memory_mcp.Memory.Cache.{
  CachedMemory, Cache, empty_cache, unindex, or_nil, index_under, leave_old_context, cache_set,
  cache_delete, update_cached_field,
}

-- what the index says of an id under a context
abbrev pub indexed : Dict (Dict CachedMemory) → String → String → Option CachedMemory
indexed index context id = lookup id (or_nil (lookup context index))

-- a record, if it is in the context
abbrev pub in_context : String → Option CachedMemory → Option CachedMemory
in_context context none = none
in_context context (some m) = if m.context == context then some m else none

pub record IsCoherent (c : Cache) : Type 0 where
  pub keyed : (id : String) (m : CachedMemory) → lookup id c.memories ≡ some m → m.id ≡ id
  pub by_context :
      (context id : String)
      → is_empty context ≡ false
      → indexed c.context_index context id ≡ in_context context (lookup id c.memories)

nil_of_is_nil : (l : Dict CachedMemory) → is_nil l ≡ true → l ≡ []
nil_of_is_nil [] h = refl
nil_of_is_nil (x ∷ l) h = cc

lookup-nil : (k : String) → lookup {V = CachedMemory} k [] ≡ none
unfolding lookup
lookup-nil k = refl

module _ (context id : String) (index : Dict (Dict CachedMemory)) (context' id' : String) where
  indexed-unindex : indexed (unindex context id index) context' id' ≡ (
      if context == context'
      then (if id == id' then none else indexed index context' id')
      else indexed index context' id')
  unfolding unindex
  indexed-unindex = elim (Option-cases (lookup context index)) [
    | inl e ↦ ground (arith, eq_iff context context', lookup-nil id')
    | inr (ids, e) ↦ ground (
      arith,
      eq_iff context context',
      lookup-nil id',
      lookup-erase id id' ids,
      nil_of_is_nil (erase id ids),
      lookup-erase context context' index,
      lookup-insert context context' (erase id ids) index,
    )
  ]

module _ (context : String) (m : CachedMemory) (index : Dict (Dict CachedMemory))
    (context' id' : String) where
  indexed-index_under :
      is_empty context' ≡ false
      → indexed (index_under context m index) context' id' ≡ (
          if context == context'
          then (if m.id == id' then some m else indexed index context' id')
          else indexed index context' id')
  unfolding index_under
  indexed-index_under h = ground (
    arith,
    eq_iff context context',
    lookup-insert context context' (insert m.id m (or_nil (lookup context index))) index,
    lookup-insert m.id id' m (or_nil (lookup context index)),
  )

module _ (m : CachedMemory) (c : Cache) (h : IsCoherent c) where
  -- an index under the old context is left first
  leave_old_context-indexed :
      (context id : String)
      → is_empty context ≡ false
      → indexed (leave_old_context (lookup m.id c.memories) m c.context_index) context id ≡ (
          if m.id == id
          then (if m.context == context then indexed c.context_index context id else none)
          else indexed c.context_index context id)
  leave_old_context-indexed context id n = elim (Option-cases (lookup m.id c.memories)) [
    | inl e ↦ ground (arith, h.by_context context id n, eq_iff m.id id)
    | inr (old, e) ↦ ground (
      arith,
      h.by_context context id n,
      eq_iff m.id id,
      eq_iff old.context m.context,
      eq_iff old.context context,
      eq_iff m.context context,
      indexed-unindex old.context m.id c.context_index context id,
    )
  ]

  -- Setting a record in a cache whose entries stand under their ids and whose index by context is right
  -- leaves such a cache: the record is under its new context and under no other.
  pub cache_set-IsCoherent : IsCoherent (cache_set m c)
  unfolding cache_set
  cache_set-IsCoherent = record {
    keyed =
        λ id x e. ground (arith, lookup-insert m.id id m c.memories, h.keyed id x, eq_iff m.id id);
    by_context = λ context id n. ground (
      arith,
      lookup-insert m.id id m c.memories,
      h.by_context context id n,
      leave_old_context-indexed context id n,
      indexed-index_under m.context m (leave_old_context (lookup m.id c.memories) m c.context_index)
          context id n,
      eq_iff m.id id,
      eq_iff m.context context,
    );
  }

-- Deleting a record from a cache whose entries and index are right leaves such a cache.
pub cache_delete-IsCoherent :
    (id : String) (c : Cache) → IsCoherent c → IsCoherent (cache_delete id c)
unfolding cache_delete
cache_delete-IsCoherent id c h = elim (Option-cases (lookup id c.memories)) [
  | inl e ↦ rw (e, cache_delete) h
  | inr (m, e) ↦
      rw (e, cache_delete)
        (record {
          keyed = λ j x k. ground (arith, lookup-erase id j c.memories, h.keyed j x);
          by_context = λ context j n. ground (
            arith,
            h.keyed id m e,
            lookup-erase id j c.memories,
            h.by_context context j n,
            eq_iff id j,
            eq_iff m.context context,
            indexed-unindex m.context m.id c.context_index context j,
          );
        })
]

-- Replacing an entry by a changed copy, as `updateCachedField` does, leaves a cache whose entries and
-- index are right.
pub update_cached_field-IsCoherent :
    (id : String) (fn : CachedMemory → CachedMemory) (c : Cache)
    → IsCoherent c
    → IsCoherent (update_cached_field id fn c)
unfolding update_cached_field
update_cached_field-IsCoherent id fn c h = elim (Option-cases (lookup id c.memories)) [
  | inl e ↦ rw (e, update_cached_field) h
  | inr (m, e) ↦ rw (e, update_cached_field) (cache_set-IsCoherent (fn m) c h)
]

pub empty_cache-IsCoherent : IsCoherent empty_cache
unfolding lookup
empty_cache-IsCoherent = record { keyed = λ id m e. cc; by_context = λ context id n. refl }

pub lookup-cache_set :
    (id : String) (m : CachedMemory) (c : Cache)
    → lookup id (cache_set m c).memories ≡ (if m.id == id then some m else lookup id c.memories)
unfolding cache_set
lookup-cache_set id m c = lookup-insert m.id id m c.memories

pub lookup-cache_delete :
    (id j : String) (c : Cache)
    → lookup j (cache_delete id c).memories ≡ (if id == j then none else lookup j c.memories)
unfolding cache_delete
lookup-cache_delete id j c = elim (Option-cases (lookup id c.memories)) [
  | inl e ↦ rw (e, cache_delete) (ground (arith, e, eq_iff id j))
  | inr (m, e) ↦ rw (e, cache_delete) (lookup-erase id j c.memories)
]

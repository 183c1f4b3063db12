-- ===== src/Memory/Reading/Access.antt =====
-- The statistics of accesses: cache and database stay in agreement, and what is counted.
use agent_memory_mcp.Base.{
  ℕ, nat_eq, suc, ◌⊎◌, ◌+◌, String, ◌≡◌, refl, sym, ap, subst, ◌∙◌, Bool, true, false, Option, none,
  some, List, [], ◌∷◌, ◌==◌, eq_iff, arith, if◌then◌else◌, Bool-cases, Option-cases, inl, inr,
}
use agent_memory_mcp.Dict.{Dict, lookup}
use agent_memory_mcp.Memory.Types.{Time, Memory}
use agent_memory_mcp.Memory.Cache.{Cache, to_cached_memory, update_cached_field}
use agent_memory_mcp.Memory.World.{Env, World}
use agent_memory_mcp.Memory.World.Op.{tick, lift}
use agent_memory_mcp.Memory.World.Rows.{scan_row, change_row}
use agent_memory_mcp.Memory.World.Sound.{IsSound}
use agent_memory_mcp.Memory.World.Saving.{Agrees, sql-cases, sql-calm}
use agent_memory_mcp.Memory.World.Fields.{Mirrors, change-IsSound, lookup-change_row}
use agent_memory_mcp.Memory.Reading.Statistics.{
  flush_access_stats_around, accessed, cached_accessed, access_row, access_rows, access_cache,
  after_update, commit_access, flush_access_stats,
}

accessed-Mirrors :
    (targeted : Bool) (now : Time) → Mirrors (accessed targeted now) (cached_accessed targeted now)
unfolding to_cached_memory scan_row
accessed-Mirrors targeted now = record {
  same_id = λ m. refl;
  valid_from = λ m. refl;
  valid_until = λ m. refl;
  cached_id = λ m. refl;
  cached = λ m. refl;
}

module _ (targeted : Bool) (now : Time) where
  access_row-cases :
      (id : String) (w : World)
      → ((faults : List Bool) × (access_row targeted now id w ≡ (
        true,
        record w { faults = faults; rows = change_row id (accessed targeted now) w.rows },
      )))
        ⊎ ((faults : List Bool) × (access_row targeted now id w
              ≡ (false, record w { faults = faults })))
  unfolding access_row
  access_row-cases id w = elim (sql-cases w) [
    | inl (faults, e) ↦ inl (faults, ap (after_update targeted now id) e)
    | inr (faults, e) ↦ inr (faults, ap (after_update targeted now id) e)
  ]

  cache-access_rows :
      (ids : List String) (w : World) → (access_rows targeted now ids w).1.cache ≡ w.cache
  unfolding access_rows
  cache-access_rows [] w = refl
  cache-access_rows (id ∷ ids) w = elim (access_row-cases id w) [
    | inl (faults, e) ↦
        cache-access_rows ids (access_row targeted now id w).1 ∙ ap (λ r. r.1.cache) e
    | inr (faults, e) ↦
        cache-access_rows ids (access_row targeted now id w).1 ∙ ap (λ r. r.1.cache) e
  ]

  access_rows-IsSound :
      (ids : List String) (w : World) (cache : Cache)
      → IsSound w.rows cache
      → IsSound
          (access_rows targeted now ids w).1.rows
          (access_cache targeted now (access_rows targeted now ids w).0 cache)
  unfolding access_rows access_cache
  access_rows-IsSound [] w cache s = s
  access_rows-IsSound (id ∷ ids) w cache s = elim (access_row-cases id w) [
    | inl (faults, e) ↦
        rw (e, access_rows, access_cache)
          (access_rows-IsSound ids
            (record w { faults = faults; rows = change_row id (accessed targeted now) w.rows })
            (update_cached_field id (cached_accessed targeted now) cache)
            (change-IsSound id (accessed targeted now) (cached_accessed targeted now)
              (accessed-Mirrors targeted now) w.rows cache s))
    | inr (faults, e) ↦
        rw (e, access_rows) (access_rows-IsSound ids (record w { faults = faults }) cache s)
  ]

  commit_access-Agrees :
      (rows : Dict Memory) (done : List String) (w : World)
      → IsSound rows w.cache
      → IsSound w.rows (access_cache targeted now done w.cache)
      → Agrees (commit_access (λ w. w) targeted now rows (done, w)).1
  unfolding commit_access
  commit_access-Agrees rows done w s t = elim (sql-cases w) [
    | inl (faults, e) ↦ rw e t
    | inr (faults, e) ↦ rw e s
  ]

  flush_at-Agrees :
      (ids : List String) (w : World)
      → Agrees w
      → Agrees (commit_access (λ w. w) targeted now w.rows (access_rows targeted now ids w)).1
  flush_at-Agrees ids w s =
      let q = cache-access_rows ids w in
      commit_access-Agrees w.rows (access_rows targeted now ids w).0
        (access_rows targeted now ids w).1 (subst (λ c. IsSound w.rows c) (sym q) s)
        (subst
          (λ c.
            IsSound (access_rows targeted now ids w).1.rows
              (access_cache targeted now (access_rows targeted now ids w).0 c))
          (sym q) (access_rows-IsSound ids w w.cache s))

-- Writing the access statistics keeps cache and database in agreement, whichever of its SQL calls fail, where no other
-- operation runs between its commit and its change of the cache.
pub flush_access_stats-Agrees :
    (env : Env) (targeted : Bool) (ids : List String) (w : World)
    → Agrees w
    → Agrees (flush_access_stats env targeted ids w).1
unfolding flush_access_stats_around tick lift
flush_access_stats-Agrees env targeted [] w s = s
flush_access_stats-Agrees env targeted (id ∷ ids) w s =
    let now = env.now w.calls in
    elim (sql-cases (record w { calls = suc w.calls })) [
      | inr (faults, e) ↦ rw (e, flush_access_stats_around) s
      | inl (faults, e) ↦ elim (sql-cases (record w { calls = suc w.calls; faults = faults })) [
        | inr (faults', e') ↦ rw (e, flush_access_stats_around) (rw e' s)
        | inl (faults', e') ↦
            rw (e, flush_access_stats_around)
              (rw e' (
                flush_at-Agrees targeted now (id ∷ ids)
                  (record w { calls = suc w.calls; faults = faults' }) s))
      ]
    ]

abbrev pub times : String → List String → ℕ
times j [] = 0
times j (id ∷ ids) = if id == j then suc (times j ids) else times j ids

-- a row after n accesses at a time
abbrev pub access_times : Bool → Time → ℕ → Memory → Memory
access_times targeted now n m = record m {
  accessed_at = if nat_eq n 0 then m.accessed_at else now;
  access_count = m.access_count + n;
  targeted_access_count = m.targeted_access_count + (if targeted then n else 0);
}

abbrev pub accessed_row : Bool → Time → ℕ → Option Memory → Option Memory
accessed_row targeted now n none = none
accessed_row targeted now n (some m) = some (access_times targeted now n m)

faults-access_rows :
    (targeted : Bool) (now : Time) (ids : List String) (w : World)
    → w.faults ≡ []
    → (access_rows targeted now ids w).1.faults ≡ []
unfolding access_rows
faults-access_rows targeted now [] w e = e
faults-access_rows targeted now (id ∷ ids) w e =
    let w' = record w { rows = change_row id (accessed targeted now) w.rows } in
    let q : access_row targeted now id w ≡ (true, w') =
      ap (after_update targeted now id) (sql-calm w e) in
    rw q (faults-access_rows targeted now ids w' e)

module _ (targeted : Bool) (now : Time) (j : String) where
  lookup-accessed :
      (id : String) (rows : Dict Memory)
      → lookup j (change_row id (accessed targeted now) rows)
        ≡ (if id == j then accessed_row targeted now 1 (lookup j rows) else lookup j rows)
  unfolding change_row
  lookup-accessed id rows = elim (Option-cases (lookup id rows)) [
    | inl e ↦ rw (e, change_row) (absent e (Bool-cases (id == j)))
    | inr (old, e) ↦
        lookup-change_row id (accessed targeted now) (cached_accessed targeted now) j rows old e
        ∙ present old e (Bool-cases (id == j))
  ]
    where
      absent :
          lookup id rows ≡ none
          → ((id == j) ≡ true) ⊎ ((id == j) ≡ false)
          → lookup j rows
            ≡ (if id == j then accessed_row targeted now 1 (lookup j rows) else lookup j rows)
      absent e (inl h) =
          let q : lookup j rows ≡ none = ground (arith, eq_iff id j) in rw (h, q) refl
      absent e (inr h) = rw h refl

      present :
          (old : Memory)
          → lookup id rows ≡ some old
          → ((id == j) ≡ true) ⊎ ((id == j) ≡ false)
          → (if id == j then some (accessed targeted now old) else lookup j rows)
            ≡ (if id == j then accessed_row targeted now 1 (lookup j rows) else lookup j rows)
      present old e (inl h) =
          let q : lookup j rows ≡ some old = ground (arith, eq_iff id j) in
          rw (h, q) (ap some (once targeted old))
        where
          once : (b : Bool) (m : Memory) → accessed b now m ≡ access_times b now 1 m
          once true m = refl
          once false m = refl
      present old e (inr h) = rw h refl

  zero_times : (r : Option Memory) → r ≡ accessed_row targeted now 0 r
  zero_times none = refl
  zero_times (some m) = ap some (unchanged targeted)
    where
      unchanged : (b : Bool) → m ≡ access_times b now 0 m
      unchanged true = ground arith
      unchanged false = ground arith

  one_more :
      (r : Option Memory) (n : ℕ) (b : Bool)
      → accessed_row targeted now n (if b then accessed_row targeted now 1 r else r)
        ≡ accessed_row targeted now (if b then suc n else n) r
  one_more none n b = ground arith
  one_more (some m) n false = refl
  one_more (some m) n true = ap some (added targeted)
    where
      added :
          (b : Bool) → access_times b now n (access_times b now 1 m) ≡ access_times b now (suc n) m
      added true = ground arith
      added false = ground arith

  lookup-access_rows :
      (ids : List String) (w : World)
      → w.faults ≡ []
      → lookup j (access_rows targeted now ids w).1.rows
        ≡ accessed_row targeted now (times j ids) (lookup j w.rows)
  unfolding access_rows
  lookup-access_rows [] w e = zero_times (lookup j w.rows)
  lookup-access_rows (id ∷ ids) w e =
      let w' = record w { rows = change_row id (accessed targeted now) w.rows } in
      let q : access_row targeted now id w ≡ (true, w') =
        ap (after_update targeted now id) (sql-calm w e) in
      rw q (
        lookup-access_rows ids w' e
        ∙ rw (lookup-accessed id w.rows) (one_more (lookup j w.rows) (times j ids) (id == j)))

-- Where no SQL call fails, writing the access statistics gives each stored row one access, at the time of the call, for each
-- time that its id is listed, a targeted one where that is asked for, and leaves the other rows as they were.
pub lookup-flush_access_stats :
    (env : Env) (targeted : Bool) (ids : List String) (w : World) (j : String)
    → w.faults ≡ []
    → lookup j (flush_access_stats env targeted ids w).1.rows
      ≡ accessed_row targeted (env.now w.calls) (times j ids) (lookup j w.rows)
unfolding flush_access_stats_around tick lift commit_access
lookup-flush_access_stats env targeted [] w j e =
    zero_times targeted (env.now w.calls) j (lookup j w.rows)
lookup-flush_access_stats env targeted (id ∷ ids) w j e =
    let now = env.now w.calls in
    let w' = record w { calls = suc w.calls } in
    rw (sql-calm w' e) (
      rw (sql-calm w' e) (
        rw
          (sql-calm (access_rows targeted now (id ∷ ids) w').1
            (faults-access_rows targeted now (id ∷ ids) w' e))
          (lookup-access_rows targeted now j (id ∷ ids) w' e)))

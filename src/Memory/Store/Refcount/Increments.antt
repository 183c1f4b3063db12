-- ===== src/Memory/Store/Refcount/Increments.antt =====
-- One more reference: what the row then holds, and what the cache holds.
use agent_memory_mcp.Base.{
  suc, ◌+◌, String, ◌≡◌, refl, ap, ◌∙◌, false, some, arith, ◌==◌, eq_iff, eq_refl, ltb, ℕ, Bool,
  true, if◌then◌else◌, inl, inr,
}
use agent_memory_mcp.Text.{trim_space, is_empty}
use agent_memory_mcp.Text.Decimal.{itoa, itoa_next, atoi, max_int}
use agent_memory_mcp.Text.Decimal.RoundTrip.{atoi-itoa, trim_space-itoa}
use agent_memory_mcp.Dict.{Dict, lookup}
use agent_memory_mcp.Dict.Laws.{text_at-insert, lookup-insert}
use agent_memory_mcp.Memory.Types.{Time, Memory, ok, key_referenced_by_count}
use agent_memory_mcp.Memory.Sediment.{referenced_by_count_from_metadata, non_negative}
use agent_memory_mcp.Memory.World.{Env, World}
use agent_memory_mcp.Memory.World.Op.{tick, lift}
use agent_memory_mcp.Memory.World.Saving.{Agrees, sql-cases}
use agent_memory_mcp.Memory.World.Sound.{cached_row}
use agent_memory_mcp.Memory.Cache.{to_cached_memory, update_cached_field}
use agent_memory_mcp.Memory.World.Fields.{lookup-change_row, lookup-update_cached_field, id-cached}
use agent_memory_mcp.Memory.World.Rows.{scan_row}
use agent_memory_mcp.Memory.Store.Refcount.{
  count_one_more, increment_referenced_by_count, read_metadata, write_count, update_metadata,
  with_metadata, cached_at,
}

-- the counter after one reference more: above the largest int it is negative, and read as 0
abbrev pub next_count : ℕ → ℕ
next_count n = if ltb n max_int then suc n else 0

read-itoa_next :
    (n : ℕ)
    → (b : Bool) → ltb n max_int ≡ b
    → non_negative (atoi (trim_space (if b then itoa (n + 1) else "-9223372036854775808")))
      ≡ (if b then suc n else 0)
unfolding atoi trim_space
read-itoa_next n true e =
    let f = atoi-itoa (n + 1) (ground (arith, e)) in rw (trim_space-itoa (n + 1), f) (omega arith)
read-itoa_next n false e = refl

count_one_more_lem :
    (metadata : Dict String)
    → referenced_by_count_from_metadata (count_one_more metadata)
      ≡ next_count (referenced_by_count_from_metadata metadata)
unfolding count_one_more referenced_by_count_from_metadata itoa_next
count_one_more_lem metadata =
    let n = referenced_by_count_from_metadata metadata in
    ap (λ t. non_negative (atoi (trim_space t)))
      (text_at-insert key_referenced_by_count key_referenced_by_count (itoa_next n) metadata)
    ∙ read-itoa_next n (ltb n max_int) refl

-- what an increment leaves: the row's counter is one higher, no other metadata and no other column but
-- the time changes, no other row changes, and the cached record takes the new time but keeps the
-- metadata of the old row
pub record IsCounted (id : String) (old : Memory) (before after : World) : Type 0 where
  pub now : Time
  pub metadata : Dict String
  pub row : lookup id after.rows ≡ some (with_metadata metadata now old)
  pub counter :
      referenced_by_count_from_metadata metadata
      ≡ next_count (referenced_by_count_from_metadata old.metadata)
  pub other_keys :
      (k : String)
      → (key_referenced_by_count == k) ≡ false
      → lookup k metadata ≡ lookup k old.metadata
  pub other_rows : (j : String) → (id == j) ≡ false → lookup j after.rows ≡ lookup j before.rows
  pub cached :
      lookup id after.cache.memories ≡ some (cached_at now (to_cached_memory (scan_row old)))

module _ (env : Env) (id : String) (old : Memory) (w : World) (stored : lookup id w.rows ≡ some old)
    (s : Agrees w) where
  cached_new :
      (w' : World) (now : Time)
      → w'.cache ≡ w.cache
      → lookup id (update_cached_field id (cached_at now) w'.cache).memories
        ≡ some (cached_at now (to_cached_memory (scan_row old)))
  cached_new w' now q =
      let held = ap (λ c. lookup id c.memories) q ∙ s.cached id ∙ ap cached_row stored in
      let i = id-cached old ∙ s.keyed id old stored in
      ground (
        arith,
        lookup-update_cached_field id (λ m. m) (cached_at now) id w'.cache
            (to_cached_memory (scan_row old)) held i,
        eq_iff id id,
      )

  looked_up :
      (w' : World) (now : Time)
      → w'.rows ≡ w.rows
      → (j : String)
      → lookup j (update_metadata id (count_one_more old.metadata) now w'.rows) ≡ (
          if id == j
          then some (with_metadata (count_one_more old.metadata) now old)
          else lookup j w'.rows)
  unfolding update_metadata
  looked_up w' now p j =
      lookup-change_row id (with_metadata (count_one_more old.metadata) now) (cached_at now) j
        w'.rows old (ap (lookup id) p ∙ stored)

  write_count-IsCounted :
      (w' : World)
      → w'.rows ≡ w.rows
      → w'.cache ≡ w.cache
      → (write_count env id old.metadata w').0 ≡ ok tt
      → IsCounted id old w (write_count env id old.metadata w').1
  unfolding write_count tick update_metadata
  write_count-IsCounted w' p q h =
      let now = env.now w'.calls in
      elim (sql-cases (record w' { calls = suc w'.calls })) [
        | inr (faults, e) ↦ absurd (cc (rw e at h))
        | inl (faults, e) ↦ rw e (record {
          now = now;
          metadata = count_one_more old.metadata;
          row = looked_up w' now p id ∙ rw (eq_refl id) refl;
          counter = count_one_more_lem old.metadata;
          other_keys =
              unfold count_one_more in
              λ k n.
                lookup-insert key_referenced_by_count k
                  (itoa_next (referenced_by_count_from_metadata old.metadata)) old.metadata
                ∙ rw n refl;
          other_rows = λ j n. looked_up w' now p j ∙ rw n (rw p refl);
          cached = cached_new w' now q;
        })
      ]

  -- Where cache and database agree, an increment that answers, of a stored record, leaves a row whose metadata reads one
  -- reference more than before, or 0 where the counter was at the largest int; it changes no other key of the metadata,
  -- no other column but the time and no other row, and gives the cached record the time only: its metadata, with the
  -- counter in it, stays as it was.
  pub increment_referenced_by_count-IsCounted :
      is_empty (trim_space id) ≡ false
      → (increment_referenced_by_count env id w).0 ≡ ok tt
      → IsCounted id old w (increment_referenced_by_count env id w).1
  unfolding increment_referenced_by_count read_metadata lift
  increment_referenced_by_count-IsCounted given h = elim (sql-cases w) [
    | inr (faults, e) ↦ absurd (cc (rw (given, e, increment_referenced_by_count) at h))
    | inl (faults, e) ↦
        rw (given, e, stored, increment_referenced_by_count)
          (write_count-IsCounted (record w { faults = faults }) refl refl
            (rw (given, e, stored, increment_referenced_by_count) at h))
  ]

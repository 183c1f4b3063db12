-- ===== src/Memory/Store/Writes/Storing.antt =====
-- `Store`: a record that it returns is in the database and in the cache.
use agent_memory_mcp.Base.{
  ℕ, String, ◌≡◌, refl, sym, ap, subst, subst₂, ◌∙◌, Bool, true, false, Option, none, some, [], ◌∷◌,
  arith, ◌==◌, eq_iff, is_nil, not, ◌&&◌, if◌then◌else◌, inl, inr, Bool-cases,
}
use agent_memory_mcp.Dict.{Dict, lookup, insert, has}
use agent_memory_mcp.Dict.Laws.{lookup-insert}
use agent_memory_mcp.Memory.Types.{Memory, Result, ok}
use agent_memory_mcp.Memory.Validate.{validate}
use agent_memory_mcp.Memory.Cache.{Cache, to_cached_memory, cache_set}
use agent_memory_mcp.Memory.Cache.Coherence.{cache_set-IsCoherent, lookup-cache_set}
use agent_memory_mcp.Memory.World.{Env, World, Embedded}
use agent_memory_mcp.Memory.World.Op.{lift, ◌>>=◌, ◌>>◌, publish, fresh_id, tick}
use agent_memory_mcp.Memory.World.Rows.{
  null_time, encode_row, scan_row, insert_memory_row, layer_or_default-sediment_layer_value,
}
use agent_memory_mcp.Memory.World.Sound.{IsSound, cached_row}
use agent_memory_mcp.Memory.World.Saving.{Agrees, sql-cases, bind-ok}
use agent_memory_mcp.Memory.Store.Writes.{
  insert_row, verify_persisted, insert_verified, prepare_store, store, assign_id,
}
use agent_memory_mcp.Memory.World.Prepares.{PreparesAt, lift-Prepares_eq, bind-Prepares}
use agent_memory_mcp.Memory.World.Reading.{lift-then}
use agent_memory_mcp.Memory.Engineering.{is_review_queue}
use agent_memory_mcp.Memory.Store.Embedding.{embed_for_write, embed_new, with_vector, check_secrets}
use agent_memory_mcp.Memory.Store.Writes.Agreement.{validate-SameRow}
use agent_memory_mcp.Memory.Store.Writes.Updating.{embed_for_write-Prepares}
use agent_memory_mcp.Text.{is_empty}

-- a record whose bounds a row stores as they are
abbrev pub IsStorable : Memory → Type 0
IsStorable m = (null_time m.valid_from ≡ m.valid_from) × (null_time m.valid_until ≡ m.valid_until)

encode_row-cached :
    (m : Memory) → IsStorable m → to_cached_memory (scan_row (encode_row m)) ≡ to_cached_memory m
unfolding to_cached_memory scan_row encode_row
encode_row-cached m (p, q) =
    rw (p, q, layer_or_default-sediment_layer_value, layer_or_default-sediment_layer_value)

insert-IsSound :
    (m : Memory) (rows : Dict Memory) (cache : Cache)
    → IsStorable m
    → IsSound rows cache
    → IsSound (insert m.id (encode_row m) rows) (cache_set (to_cached_memory m) cache)
unfolding to_cached_memory encode_row
insert-IsSound m rows cache (p, q) s = record {
  keyed =
      λ j x e. ground (arith, lookup-insert m.id j (encode_row m) rows, s.keyed j x, eq_iff m.id j);
  proper = λ j x e. ground (arith, lookup-insert m.id j (encode_row m) rows, s.proper j x, p, q);
  cached = λ j.
      rw (lookup-insert m.id j (encode_row m) rows, lookup-cache_set j (to_cached_memory m) cache)
        (split j (m.id == j));
  coherent = cache_set-IsCoherent (to_cached_memory m) cache s.coherent;
}
  where
    split :
        (j : String) (b : Bool)
        → (if b then some (to_cached_memory m) else lookup j cache.memories)
          ≡ cached_row (if b then some (encode_row m) else lookup j rows)
    split j true = ap some (sym (encode_row-cached m (p, q)))
    split j false = s.cached j

-- a record that is now stored, under an id that was free
pub record IsStoredAs (m : Memory) (before : World) (after : World) : Type 0 where
  pub was_free : has m.id before.rows ≡ false
  pub rows : after.rows ≡ insert m.id (encode_row m) before.rows
  pub cache : after.cache ≡ cache_set (to_cached_memory m) before.cache

insert_row_lem :
    (m : Memory) (w : World)
    → (insert_row m w).0 ≡ ok tt
    → (has m.id w.rows ≡ false)
      × ((insert_row m w).1.rows ≡ insert m.id (encode_row m) w.rows)
      × ((insert_row m w).1.cache ≡ w.cache)
unfolding insert_row insert_memory_row
insert_row_lem m w h = elim (sql-cases w) [
  | inr (faults, e) ↦ absurd (cc (rw e at h))
  | inl (faults, e) ↦ elim (Bool-cases (has m.id w.rows)) [
    | inl k ↦ absurd (cc (rw (e, k) at h))
    | inr k ↦ rw (e, k) (refl, refl, refl)
  ]
]

verify_persisted_lem :
    (id : String) (w : World)
    → (verify_persisted id w).0 ≡ ok tt
    → ((verify_persisted id w).1.rows ≡ w.rows) × ((verify_persisted id w).1.cache ≡ w.cache)
unfolding verify_persisted
verify_persisted_lem id w h = elim (sql-cases w) [
  | inr (faults, e) ↦ absurd (cc (rw e at h))
  | inl (faults, e) ↦ elim (Bool-cases (has id w.rows)) [
    | inl k ↦ rw (e, k) (refl, refl)
    | inr k ↦ absurd (cc (rw (e, k) at h))
  ]
]

ok_inj : {a b : Memory} → ok a ≡ ok b → a ≡ b
ok_inj h = cc

insert_verified_lem :
    (m : Memory) (w : World) {v : Memory}
    → (insert_verified m w).0 ≡ ok v
    → IsStoredAs v w (insert_verified m w).1 × (m ≡ v)
unfolding insert_verified publish lift
insert_verified_lem m w {v} h =
    let (_, inserted_ok, k) =
      bind-ok (insert_row m) (λ _. verify_persisted m.id >> (publish m >> lift (ok m))) w h in
    let w1 = (insert_row m w).1 in
    let a = insert_row_lem m w inserted_ok in
    let (_, verified_ok, j) =
      bind-ok (verify_persisted m.id) (λ _. publish m >> lift (ok m)) w1
        (ap (λ x. x.0) (sym k) ∙ h) in
    let b = verify_persisted_lem m.id w1 verified_ok in
    let same : m ≡ v = ok_inj (ap (λ x. x.0) (sym j) ∙ ap (λ x. x.0) (sym k) ∙ h) in
    subst (λ v. IsStoredAs v w (insert_verified m w).1 × (m ≡ v)) same
      (rw (k, j)
        (
          record {
            was_free = a.0;
            rows = b.0 ∙ a.1;
            cache = ap (cache_set (to_cached_memory m)) (b.1 ∙ a.2);
          },
          refl,
        ))

IsStorable-Prepares :
    (r : Result Memory) (w : World)
    → ((m : Memory) → r ≡ ok m → IsStorable m)
    → PreparesAt (λ _ m. IsStorable m) (lift r) w
IsStorable-Prepares r w h = lift-Prepares_eq (λ _ m. IsStorable m) r w h

with_vector-IsStorable :
    (m : Memory) (found : Option (Embedded × Bool))
    → IsStorable m
    → IsStorable (with_vector m found)
with_vector-IsStorable m none h = h
with_vector-IsStorable m (some (e, truncated)) h = h

embed_new-Prepares :
    (env : Env) (m : Memory) (w : World)
    → IsStorable m
    → PreparesAt (λ _ v. IsStorable v) (embed_new env m) w
unfolding embed_new
embed_new-Prepares env m w h =
    split env.embedder (is_nil m.embedding && not (is_review_queue m.metadata))
  where
    unchanged : PreparesAt (λ _ v. IsStorable v) (lift (ok m)) w
    unchanged = IsStorable-Prepares (ok m) w (λ v e. subst IsStorable (ok_inj e) h)

    split :
        (embedder : Option (ℕ → String → Option Embedded)) (wanted : Bool)
        → PreparesAt
            (λ _ v. IsStorable v)
            (elim embedder [
              | none ↦ lift (ok m)
              | some provider ↦
                  if wanted
                  then (do
                    found ← embed_for_write provider m.content
                    lift (ok (with_vector m found)))
                  else lift (ok m)
            ])
            w
    split none wanted = unchanged
    split (some provider) false = unchanged
    split (some provider) true =
        bind-Prepares (λ _ _. Unit) (embed_for_write provider m.content)
          (λ found. lift (ok (with_vector m found))) w
          (embed_for_write-Prepares provider m.content w)
          (λ found w' _.
            IsStorable-Prepares (ok (with_vector m found)) w'
              (λ v e. subst IsStorable (ok_inj e) (with_vector-IsStorable m found h)))

assign_id-Prepares :
    (env : Env) (m : Memory) (w : World)
    → IsStorable m
    → PreparesAt (λ _ v. IsStorable v) (assign_id env m) w
unfolding fresh_id lift
assign_id-Prepares env m w h = split (is_empty m.id)
  where
    split :
        (b : Bool)
        → PreparesAt
            (λ _ v. IsStorable v)
            (if b then (do id ← fresh_id env; lift (ok (record m { id = id }))) else lift (ok m))
            w
    split true = record { rows = refl; cache = refl; result = λ v e. subst IsStorable (ok_inj e) h }
    split false = IsStorable-Prepares (ok m) w (λ v e. subst IsStorable (ok_inj e) h)

pub prepare_store-Prepares :
    (env : Env) (m : Memory) (w : World)
    → IsStorable m
    → PreparesAt (λ _ v. IsStorable v) (prepare_store env m) w
unfolding prepare_store tick lift
prepare_store-Prepares env m w h =
    let Storable = λ (_ : Dict Memory) (v : Memory). IsStorable v in
    lift-then (λ _. Unit) (validate m) _ w tt
      (λ valid w1 e _.
        let same = validate-SameRow m valid e in
        let k : IsStorable valid = (cc (same.valid_from, h.0), cc (same.valid_until, h.1)) in
        lift-then (λ _. Unit) (check_secrets env valid.content (valid.title ∷ valid.context ∷ [])) _
          w1 tt
          (λ content w2 _ _.
            bind-Prepares Storable (embed_new env (record valid { content = content })) _ w2
              (embed_new-Prepares env (record valid { content = content }) w2 k)
              (λ embedded w3 k3.
                bind-Prepares Storable (assign_id env embedded) _ w3
                  (assign_id-Prepares env embedded w3 k3)
                  (λ named w4 k4. record {
                    rows = refl;
                    cache = refl;
                    result = λ v i. subst IsStorable (ok_inj i) k4;
                  }))))

-- A record that `Store` returns was under a free id, stands in its row as it is encoded, and is what
-- the cache holds; and cache and database then agree, if they did and its bounds were not zero times.
pub store-IsStoredAs :
    (env : Env) (m : Memory) (w : World) {v : Memory}
    → IsStorable m
    → Agrees w
    → (store env m w).0 ≡ ok v
    → IsStoredAs v w (store env m w).1 × Agrees (store env m w).1
unfolding store
store-IsStoredAs env m w {v} q s h =
    let (stored, e, k) = bind-ok (prepare_store env m) insert_verified w h in
    let p = prepare_store-Prepares env m w q in
    let (t, same) =
      insert_verified_lem stored (prepare_store env m w).1 (ap (λ x. x.0) (sym k) ∙ h) in
    let storable = subst IsStorable same (p.result stored e) in
    let rows = ap (λ x. x.1.rows) k ∙ t.rows ∙ ap (insert v.id (encode_row v)) p.rows in
    let cache = ap (λ x. x.1.cache) k ∙ t.cache ∙ ap (cache_set (to_cached_memory v)) p.cache in
    (
      record {
        was_free = subst (λ r. has v.id r ≡ false) p.rows t.was_free;
        rows = rows;
        cache = cache;
      },
      subst₂ IsSound (sym rows) (sym cache) (insert-IsSound v w.rows w.cache storable s),
    )

-- ===== src/Memory/World/Saving.antt =====
-- A preparation, then the write of what it computed: cache and database stay in agreement, whichever
-- of the calls fails.
use agent_memory_mcp.Base.{
  ◌≡◌, refl, sym, ap, subst, subst₂, ◌∙◌, Bool, true, false, List, [], ◌∷◌, inl, inr, All, ◌⊎◌,
}
use agent_memory_mcp.Dict.{Dict}
use agent_memory_mcp.Memory.Types.{Memory, Error, Result, ok, err, database}
use agent_memory_mcp.Memory.Cache.{Cache, to_cached_memory, cache_set}
use agent_memory_mcp.Memory.World.{World}
use agent_memory_mcp.Memory.World.Rows.{update_memory_row}
use agent_memory_mcp.Memory.World.Op.{
  Op, lift, continue, ◌>>=◌, ◌>>◌, sql, publish, write_row, save, write_rows, publish_all,
  transaction, rolled_back, save_all,
}
use agent_memory_mcp.Memory.World.Sound.{IsSound, Fits, Fits-update, update-IsSound}
use agent_memory_mcp.Memory.World.Prepares.{PreparesAt, sql-Prepares}

-- cache and database of a world agree
abbrev pub Agrees : World → Type 0
Agrees w = IsSound w.rows w.cache

-- an SQL call changes at most the faults that are to come
abbrev Passes : World → Type 0
Passes w = (faults : List Bool) × (sql w ≡ (ok tt, record w { faults = faults }))

abbrev Fails : World → Type 0
Fails w = (faults : List Bool) × (sql w ≡ (err database, record w { faults = faults }))

-- no fault is to come
pub sql-calm : (w : World) → w.faults ≡ [] → sql w ≡ (ok tt, w)
unfolding sql
sql-calm w e = rw (e, sql) (λ i. (ok tt, record w { faults = e i }))

pub sql-cases : (w : World) → Passes w ⊎ Fails w
unfolding sql
sql-cases w = split w.faults refl
  where
    split : (l : List Bool) → w.faults ≡ l → Passes w ⊎ Fails w
    split [] e = inl ([], rw (e, sql) (λ i. (ok tt, record w { faults = e i })))
    split (true ∷ l) e = inr (l, rw (e, sql))
    split (false ∷ l) e = inl (l, rw (e, sql))

module _ {ℓ κ} {A : Type ℓ} {B : Type κ} where
  continue-Agrees :
      (r : Result A) (f : A → Op B) (w : World)
      → Agrees w
      → ((a : A) → r ≡ ok a → Agrees (f a w).1)
      → Agrees (continue r f w).1
  continue-Agrees (ok a) f w s k = k a refl
  continue-Agrees (err e) f w s k = s

  pub prepare-then :
      (P : Dict Memory → A → Type 0) (prepare : Op A) (f : A → Op B) (w : World)
      → PreparesAt P prepare w
      → Agrees w
      → ((a : A) (w' : World) → P w'.rows a → Agrees w' → Agrees (f a w').1)
      → Agrees ((prepare >>= f) w).1
  prepare-then P prepare f w p s k =
      let w' = (prepare w).1 in
      let s' : Agrees w' = subst₂ IsSound (sym p.rows) (sym p.cache) s in
      continue-Agrees (prepare w).0 f w' s'
        (λ a e. k a w' (subst (λ rows. P rows a) (sym p.rows) (p.result a e)) s')

  -- inversion of a step that gave a result
  pub bind-ok :
      (m : Op A) (f : A → Op B) (w : World) {b : B}
      → ((m >>= f) w).0 ≡ ok b
      → (a : A) × ((m w).0 ≡ ok a) × ((m >>= f) w ≡ f a (m w).1)
  bind-ok m f w {b} h = split (m w).0 refl h
    where
      split :
          (r : Result A)
          → (m w).0 ≡ r
          → (continue r f (m w).1).0 ≡ ok b
          → (a : A) × ((m w).0 ≡ ok a) × ((m >>= f) w ≡ f a (m w).1)
      split (ok a) e h = (a, e, rw e refl)
      split (err x) e h = absurd (cc)

  -- an answer after a change
  pub answer-Agrees :
      (m : Op A) (f : A → Result B) (w : World)
      → Agrees (m w).1
      → Agrees ((m >>= λ a. lift (f a)) w).1
  unfolding lift
  answer-Agrees m f w s = continue-Agrees (m w).0 (λ a. lift (f a)) (m w).1 s (λ a e. s)

-- what holds of the rows still holds after an SQL call
pub sql-Prepares_keep :
    (Q : Dict Memory → Type 0) (w : World) → Q w.rows → PreparesAt (λ rows _. Q rows) sql w
sql-Prepares_keep Q w q =
    let p = sql-Prepares w in record { rows = p.rows; cache = p.cache; result = λ a e. q }

-- an SQL call, and a change of rows and cache
pub sql-then-Agrees :
    {B : Type 0} (f : Op B) (w : World)
    → Agrees w
    → ((w' : World) → Agrees w' → Agrees (f w').1)
    → Agrees ((sql >> f) w).1
sql-then-Agrees f w s next =
    prepare-then (λ _ _. Unit) sql (λ _. f) w (sql-Prepares_keep (λ _. Unit) w tt) s
      (λ _ w' _ s'. next w' s')

-- an SQL call that answers has changed nothing
pub sql-ok :
    (w : World) → (sql w).0 ≡ ok tt → ((sql w).1.rows ≡ w.rows) × ((sql w).1.cache ≡ w.cache)
sql-ok w h = let p = sql-Prepares w in (p.rows, p.cache)

pub save-Agrees : (m : Memory) (w : World) → Fits w.rows m → Agrees w → Agrees (save m w).1
unfolding save
save-Agrees m w f s =
    prepare-then (λ rows _. Fits rows m) sql (λ _. write_row m >> publish m) w
      (sql-Prepares_keep (λ rows. Fits rows m) w f) s
      (λ a w' g s'. unfold write_row publish in update-IsSound m w'.rows w'.cache g s')

abbrev update_all : List Memory → Dict Memory → Dict Memory
update_all [] rows = rows
update_all (m ∷ ms) rows = update_all ms (update_memory_row m rows)

abbrev cache_all : List Memory → Cache → Cache
cache_all [] cache = cache
cache_all (m ∷ ms) cache = cache_all ms (cache_set (to_cached_memory m) cache)

All-Fits-update :
    (k : Memory) (rows : Dict Memory) (ms : List Memory)
    → Fits rows k
    → All (Fits rows) ms
    → All (Fits (update_memory_row k rows)) ms
All-Fits-update k rows [] g h = tt
All-Fits-update k rows (m ∷ ms) g (f, h) = (Fits-update m k rows f g, All-Fits-update k rows ms g h)

update_all-IsSound :
    (ms : List Memory) (rows : Dict Memory) (cache : Cache)
    → All (Fits rows) ms
    → IsSound rows cache
    → IsSound (update_all ms rows) (cache_all ms cache)
update_all-IsSound [] rows cache h s = s
update_all-IsSound (m ∷ ms) rows cache (f, h) s =
    update_all-IsSound ms (update_memory_row m rows) (cache_set (to_cached_memory m) cache)
      (All-Fits-update m rows ms f h) (update-IsSound m rows cache f s)

cache-write_rows : (ms : List Memory) (w : World) → (write_rows ms w).1.cache ≡ w.cache
unfolding write_rows write_row lift
cache-write_rows [] w = refl
cache-write_rows (m ∷ ms) w = elim (sql-cases w) [
  | inl (faults, e) ↦
      rw e (cache-write_rows ms (record w { faults = faults; rows = update_memory_row m w.rows }))
  | inr (faults, e) ↦ rw e
]

rows-write_rows :
    (ms : List Memory) (w : World)
    → (write_rows ms w).0 ≡ ok tt
    → (write_rows ms w).1.rows ≡ update_all ms w.rows
unfolding write_rows write_row lift
rows-write_rows [] w h = refl
rows-write_rows (m ∷ ms) w h = elim (sql-cases w) [
  | inl (faults, e) ↦ rw e (
      rows-write_rows ms (record w { faults = faults; rows = update_memory_row m w.rows })
        (rw e at h))
  | inr (faults, e) ↦ absurd (cc (rw e at h))
]

publish_all_lem :
    (ms : List Memory) (w : World)
    → ((publish_all ms w).1.rows ≡ w.rows) × ((publish_all ms w).1.cache ≡ cache_all ms w.cache)
unfolding publish_all lift
publish_all_lem [] w = (refl, refl)
publish_all_lem (m ∷ ms) w =
    publish_all_lem ms (record w { cache = cache_set (to_cached_memory m) w.cache })

-- a transaction writes all rows or none, and leaves the cache
pub record Atomic (ms : List Memory) (rows : Dict Memory) (held : Cache)
    (out : Result (Unit {0}) × World) : Type 0 where
  pub committed : out.0 ≡ ok tt → out.1.rows ≡ update_all ms rows
  pub undone : (e : Error) → out.0 ≡ err e → out.1.rows ≡ rows
  pub cache : out.1.cache ≡ held

commit-Atomic :
    (ms : List Memory) (w : World) (r : Result (Unit {0})) (w' : World)
    → (r ≡ ok tt → w'.rows ≡ update_all ms w.rows)
    → w'.cache ≡ w.cache
    → Atomic ms w.rows w.cache (rolled_back w.rows (continue r (λ _. sql) w'))
commit-Atomic ms w (ok u) w' h c = elim (sql-cases w') [
  | inl (faults, e) ↦ rw e (record { committed = λ _. h refl; undone = λ x k. cc; cache = c })
  | inr (faults, e) ↦ rw e (record { committed = λ k. cc; undone = λ x k. refl; cache = c })
]
commit-Atomic ms w (err x) w' h c = record { committed = λ k. cc; undone = λ y k. refl; cache = c }

pub transaction-Atomic :
    (ms : List Memory) (w : World) → Atomic ms w.rows w.cache (transaction (write_rows ms) w)
unfolding transaction
transaction-Atomic ms w = elim (sql-cases w) [
  | inl (faults, e) ↦
      let begun = record w { faults = faults } in
      rw e (
        commit-Atomic ms begun (write_rows ms begun).0 (write_rows ms begun).1
          (rows-write_rows ms begun) (cache-write_rows ms begun))
  | inr (faults, e) ↦ rw e (record { committed = λ k. cc; undone = λ x k. refl; cache = refl })
]

publish-Agrees :
    (ms : List Memory) (w : World) (r : Result (Unit {0})) (w' : World)
    → Atomic ms w.rows w.cache (r, w')
    → All (Fits w.rows) ms
    → Agrees w
    → Agrees (continue r (λ _. publish_all ms) w').1
publish-Agrees ms w (ok u) w' a h s =
    let p = publish_all_lem ms w' in
    subst₂ IsSound (sym (p.0 ∙ a.committed refl)) (sym (p.1 ∙ ap (cache_all ms) a.cache))
      (update_all-IsSound ms w.rows w.cache h s)
publish-Agrees ms w (err x) w' a h s = subst₂ IsSound (sym (a.undone x refl)) (sym a.cache) s

-- Several records written in one transaction and then published.
pub save_all-Agrees :
    (ms : List Memory) (w : World) → All (Fits w.rows) ms → Agrees w → Agrees (save_all ms w).1
unfolding save_all
save_all-Agrees ms w h s =
    let out = transaction (write_rows ms) w in
    publish-Agrees ms w out.0 out.1 (transaction-Atomic ms w) h s

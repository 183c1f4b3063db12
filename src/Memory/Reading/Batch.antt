-- ===== src/Memory/Reading/Batch.antt =====
-- `getBatch`: what it finds, over all its chunks.
use agent_memory_mcp.Base.{
  ℕ, ◌⊎◌, zero, suc, ◌≤◌, String, ◌≡◌, refl, ◌∙◌, Bool, true, false, ◌||◌, Option, none, some, List,
  [], ◌∷◌, ◌==◌, any, take, length, eq_iff, arith, if◌then◌else◌, Bool-cases, inl, inr,
}
use agent_memory_mcp.Dict.{Dict, lookup, insert}
use agent_memory_mcp.Dict.Laws.{lookup-insert}
use agent_memory_mcp.Memory.Types.{Memory, ok}
use agent_memory_mcp.Memory.World.{World}
use agent_memory_mcp.Memory.World.Op.{lift}
use agent_memory_mcp.Memory.World.Rows.{scan_row}
use agent_memory_mcp.Memory.World.Saving.{sql-calm}
use agent_memory_mcp.Memory.Reading.{
  batch_chunk_size, drop, add_rows, get_chunk, get_batch_from, get_batch,
}

any-take-drop {ℓ} :
    {A : Type ℓ} (p : A → Bool) (n : ℕ) (xs : List A)
    → any p xs ≡ (any p (take n xs) || any p (drop n xs))
any-take-drop p zero xs = refl
any-take-drop p (suc n) [] = refl
any-take-drop p (suc n) (x ∷ xs) = split (p x) (any-take-drop p n xs)
  where
    split :
        (b : Bool)
        → any p xs ≡ (any p (take n xs) || any p (drop n xs))
        → (b || any p xs) ≡ ((b || any p (take n xs)) || any p (drop n xs))
    split true ih = refl
    split false ih = ih

length-drop {ℓ} : {A : Type ℓ} (n : ℕ) (xs : List A) → length (drop n xs) ≤ length xs
length-drop zero xs = omega arith
length-drop (suc n) [] = omega arith
length-drop (suc n) (x ∷ xs) = omega (arith, length-drop n xs)

-- the row of an id as it is read, or else what was found before
abbrev pub scanned : Option Memory → Option Memory → Option Memory
scanned none before = before
scanned (some m) before = some (scan_row m)

module _ (j : String) (rows : Dict Memory) where
  lookup-add_rows :
      (ids : List String) (found : Dict Memory)
      → lookup j (add_rows ids rows found) ≡ (
          if any (λ k. k == j) ids
          then scanned (lookup j rows) (lookup j found)
          else lookup j found)
  unfolding add_rows
  lookup-add_rows [] found = refl
  lookup-add_rows (id ∷ ids) found = split (λ m. lookup-add_rows ids m) (lookup id rows) refl
    where
      again :
          (r old : Option Memory) (b : Bool)
          → (if b then scanned r (scanned r old) else scanned r old) ≡ scanned r old
      again none old b = ground arith
      again (some m) old b = ground arith

      split :
          ((m : Dict Memory)
            → lookup j (add_rows ids rows m) ≡ (
                if any (λ k. k == j) ids then scanned (lookup j rows) (lookup j m) else lookup j m))
          → (r : Option Memory) → lookup id rows ≡ r
          → lookup j (elim r [
            | none ↦ add_rows ids rows found
            | some m ↦ add_rows ids rows (insert id (scan_row m) found)
          ])
            ≡ (if (id == j) || any (λ k. k == j) ids
                then scanned (lookup j rows) (lookup j found)
                else lookup j found)
      split ih none e = ih found ∙ absent (Bool-cases (id == j))
        where
          absent :
              ((id == j) ≡ true) ⊎ ((id == j) ≡ false)
              → (if any (λ k. k == j) ids
                  then scanned (lookup j rows) (lookup j found)
                  else lookup j found)
                ≡ (if (id == j) || any (λ k. k == j) ids
                    then scanned (lookup j rows) (lookup j found)
                    else lookup j found)
          absent (inl h) =
              let q : lookup j rows ≡ none = ground (arith, eq_iff id j) in rw (h, q) (ground arith)
          absent (inr h) = rw h refl
      split ih (some m) e =
          ih (insert id (scan_row m) found)
          ∙ rw (lookup-insert id j (scan_row m) found) (present (Bool-cases (id == j)))
        where
          present :
              ((id == j) ≡ true) ⊎ ((id == j) ≡ false)
              → (if any (λ k. k == j) ids
                  then scanned
                      (lookup j rows)
                      (if id == j then some (scan_row m) else lookup j found)
                  else (if id == j then some (scan_row m) else lookup j found))
                ≡ (if (id == j) || any (λ k. k == j) ids
                    then scanned (lookup j rows) (lookup j found)
                    else lookup j found)
          present (inl h) =
              let q : lookup j rows ≡ some m = ground (arith, eq_iff id j) in
              rw (h, q) (ground arith)
          present (inr h) = rw h refl

-- what is found for an id, given what was found before
abbrev pub batch_row : String → Dict Memory → List String → Dict Memory → Option Memory
batch_row j rows ids before =
    if any (λ k. k == j) ids then scanned (lookup j rows) (lookup j before) else lookup j before

two_chunks :
    (b c : Bool) (r old : Option Memory)
    → (if c
        then scanned r (if b then scanned r old else old)
        else (if b then scanned r old else old))
      ≡ (if b || c then scanned r old else old)
two_chunks true true none old = refl
two_chunks true true (some m) old = refl
two_chunks true false r old = refl
two_chunks false c r old = refl

get_chunk-calm :
    (ids : List String) (found : Dict Memory) (w : World)
    → w.faults ≡ []
    → get_chunk ids found w ≡ (ok (add_rows ids w.rows found), w)
unfolding get_chunk
get_chunk-calm ids found w e = rw (sql-calm w e) refl

both_parts :
    (j : String) (rows : Dict Memory) (id : String) (ids : List String) (found : Dict Memory)
    → batch_row j rows
        (drop batch_chunk_size (id ∷ ids))
        (add_rows (take batch_chunk_size (id ∷ ids)) rows found)
      ≡ batch_row j rows (id ∷ ids) found
both_parts j rows id ids found =
    rw
      (
        lookup-add_rows j rows (take batch_chunk_size (id ∷ ids)) found,
        any-take-drop (λ k. k == j) batch_chunk_size (id ∷ ids),
      )
      (two_chunks (any (λ k. k == j) (take batch_chunk_size (id ∷ ids)))
        (any (λ k. k == j) (drop batch_chunk_size (id ∷ ids))) (lookup j rows) (lookup j found))

get_batch_from-finds :
    (fuel : ℕ) (ids : List String) (found : Dict Memory) (w : World)
    → length ids ≤ fuel
    → w.faults ≡ []
    → (after : Dict Memory) × (get_batch_from fuel ids found w ≡ (ok after, w))
      × ((j : String) → lookup j after ≡ batch_row j w.rows ids found)
unfolding get_batch_from lift
get_batch_from-finds zero [] found w h e = (found, refl, λ j. refl)
get_batch_from-finds zero (id ∷ ids) found w h e = absurd (omega (arith, h))
get_batch_from-finds (suc fuel) [] found w h e = (found, refl, λ j. refl)
get_batch_from-finds (suc fuel) (id ∷ ids) found w h e =
    let chunk = take batch_chunk_size (id ∷ ids) in
    let rest = drop batch_chunk_size (id ∷ ids) in
    let more = add_rows chunk w.rows found in
    let (after, r, q) =
      get_batch_from-finds fuel rest more w (omega (arith, h, length-drop 499 ids)) e in
    (after, rw (get_chunk-calm chunk found w e) r, λ j. q j ∙ both_parts j w.rows id ids found)

-- Where no SQL call fails, the batch of any number of ids is read to its end, chunk by chunk, and finds exactly the rows with
-- these ids, each under its id, as it is scanned; the world is as before.
pub get_batch-finds :
    (ids : List String) (w : World)
    → w.faults ≡ []
    → (found : Dict Memory) × (get_batch ids w ≡ (ok found, w))
      × ((j : String) → lookup j found ≡ batch_row j w.rows ids [])
unfolding get_batch
get_batch-finds ids w e = get_batch_from-finds (length ids) ids [] w (omega arith) e

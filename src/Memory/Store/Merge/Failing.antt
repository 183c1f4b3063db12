-- ===== src/Memory/Store/Merge/Failing.antt =====
-- A merge that fails changes nothing.
use agent_memory_mcp.Base.{
  String, ◌≡◌, refl, Bool, true, false, List, [], ◌∷◌, is_nil, map, if◌then◌else◌, suc,
}
use agent_memory_mcp.Text.{trim_space, is_empty}
use agent_memory_mcp.Memory.Types.{
  Memory, Error, Result, ok, err, duplicate_required, primary_required,
}
use agent_memory_mcp.Memory.Validate.{validate}
use agent_memory_mcp.Memory.World.{Env, World}
use agent_memory_mcp.Memory.World.Op.{Op, lift, continue, get, tick, ◌>>=◌, ◌>>◌, save_all}
use agent_memory_mcp.Memory.World.Prepares.{
  PreparesAt, IsRead, lift-Prepares, bind-Prepares, get-Prepares,
}
use agent_memory_mcp.Memory.World.Failing.{
  IsUnchanged, FailsClean, prepare-FailsClean, save_all-FailsClean,
}
use agent_memory_mcp.Memory.Store.Writes.Agreement.{IsRevision}
use agent_memory_mcp.Memory.Store.Merge.{
  Found, read_duplicates, wanted_ids, merged_primary, embed_merged, merged_away, validate_all,
  prepare_merge, merge_result, merge_found, merge_duplicates, MergeDuplicatesResult,
}
use agent_memory_mcp.Memory.Store.Merge.Agreement.{
  AllRead, read_duplicates-Prepares, embed_merged-Prepares,
}

prepare_merge-Quiet :
    (env : Env) (id : String) (primary : Memory) (f : Found) (w : World)
    → PreparesAt (λ _ _. Unit) (prepare_merge env id primary f) w
unfolding prepare_merge tick
prepare_merge-Quiet env id primary f w =
    let now = env.now w.calls in
    let w0 = record w { calls = suc w.calls } in
    let merged = merged_primary env primary f now in
    let p =
      bind-Prepares (λ _ v. IsRevision merged v) (embed_merged env primary.content merged)
        (λ m. lift (validate m) >>= λ valid.
          lift (validate_all (map (merged_away env id now) f.duplicates)) >>= λ retired.
          lift (ok (valid ∷ retired)))
        w0
        (embed_merged-Prepares env primary.content merged merged w0
          (record { id = refl; targeted = refl; valid_from = λ p. p; valid_until = λ p. p }))
        (λ m w1 _.
          bind-Prepares (λ _ _. Unit) (lift (validate m)) _ w1 (lift-Prepares (validate m) w1)
            (λ valid w2 _.
              bind-Prepares (λ _ _. Unit)
                (lift (validate_all (map (merged_away env id now) f.duplicates)))
                (λ retired. lift (ok (valid ∷ retired))) w2
                (lift-Prepares (validate_all (map (merged_away env id now) f.duplicates)) w2)
                (λ retired w3 _. lift-Prepares (ok (valid ∷ retired)) w3))) in
    record { rows = p.rows; cache = p.cache; result = λ a e. tt }

-- an operation, and an answer that does not fail
answered-FailsClean :
    {A : Type 0} (m : Op (Unit {0})) (a : A) (w : World)
    → FailsClean m w
    → FailsClean (m >> lift (ok a)) w
unfolding lift
answered-FailsClean m a w k e h = split (m w).0 refl h
  where
    split :
        (r : Result (Unit {0}))
        → (m w).0 ≡ r
        → (continue r (λ _. lift (ok a)) (m w).1).0 ≡ err e
        → IsUnchanged w (continue r (λ _. lift (ok a)) (m w).1).1
    split (ok u) q h = absurd (cc)
    split (err x) q h = k x q

merge_found-FailsClean :
    (env : Env) (id : String) (primary : Memory) (f : Found) (w : World)
    → FailsClean (merge_found env id primary f) w
unfolding merge_found lift
merge_found-FailsClean env id primary f w = split (is_nil f.duplicates) (is_nil f.skipped)
  where
    split :
        (a b : Bool)
        → FailsClean {A = MergeDuplicatesResult}
            (if a
              then (if b then lift (err duplicate_required) else lift (ok (merge_result id f)))
              else (prepare_merge env id primary f >>= λ rows.
                  (save_all rows >> lift (ok (merge_result id f)))))
            w
    split true true e h = (refl, refl)
    split true false e h = (refl, refl)
    split false b e h =
        prepare-FailsClean (λ _ _. Unit) (prepare_merge env id primary f)
          (λ rows. save_all rows >> lift (ok (merge_result id f))) w
          (prepare_merge-Quiet env id primary f w)
          (λ rows w'.
            answered-FailsClean (save_all rows) (merge_result id f) w'
              (save_all-FailsClean rows w'))
          e h

-- `MergeDuplicates` that ends in an error, also between two of its rows or at the commit, leaves rows and cache as they were.
pub merge_duplicates-FailsClean :
    (env : Env) (raw : String) (ids : List String) (w : World) (e : Error)
    → (merge_duplicates env raw ids w).0 ≡ err e
    → IsUnchanged w (merge_duplicates env raw ids w).1
unfolding merge_duplicates lift
merge_duplicates-FailsClean env raw ids w = split (is_empty (trim_space raw))
  where
    reading : Memory → World → Result MergeDuplicatesResult × World
    reading primary = read_duplicates (wanted_ids (trim_space raw ∷ []) ids) >>= λ f.
        merge_found env (trim_space raw) primary f

    split :
        (b : Bool)
        → FailsClean {A = MergeDuplicatesResult}
            (if b
              then lift (err primary_required)
              else (get (trim_space raw) >>= λ primary. reading primary))
            w
    split true e h = (refl, refl)
    split false e h =
        prepare-FailsClean (IsRead (trim_space raw)) (get (trim_space raw)) reading w
          (get-Prepares (trim_space raw) w)
          (λ primary w'.
            prepare-FailsClean AllRead (read_duplicates (wanted_ids (trim_space raw ∷ []) ids))
              (merge_found env (trim_space raw) primary) w'
              (read_duplicates-Prepares (wanted_ids (trim_space raw ∷ []) ids) w')
              (λ f w''. merge_found-FailsClean env (trim_space raw) primary f w''))
          e h

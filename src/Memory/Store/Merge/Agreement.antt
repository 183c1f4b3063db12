-- ===== src/Memory/Store/Merge/Agreement.antt =====
-- A merge keeps cache and database in agreement.
use agent_memory_mcp.Base.{
  ℕ, suc, String, ◌≡◌, refl, sym, subst, Bool, true, false, Option, none, some, List, [], ◌∷◌, ◌==◌,
  is_nil, map, if◌then◌else◌, All,
}
use agent_memory_mcp.Text.{trim_space, is_empty}
use agent_memory_mcp.Dict.{Dict}
use agent_memory_mcp.Memory.Types.{
  Time, Memory, Result, ok, err, duplicate_required, primary_required,
}
use agent_memory_mcp.Memory.Cache.{Cache}
use agent_memory_mcp.Memory.Validate.{validate}
use agent_memory_mcp.Memory.World.{Env, Embedded, World}
use agent_memory_mcp.Memory.World.Sound.{IsSound, Fits}
use agent_memory_mcp.Memory.World.Prepares.{
  PreparesAt, IsRead, lift-Prepares_eq, bind-Prepares, with_fact, get-Prepares,
}
use agent_memory_mcp.Memory.World.Reading.{lift-then}
use agent_memory_mcp.Memory.World.Saving.{Agrees, prepare-then, save_all-Agrees, answer-Agrees}
use agent_memory_mcp.Memory.World.Op.{lift, get, tick, ◌>>=◌, ◌>>◌, save_all}
use agent_memory_mcp.Memory.Store.Embedding.{embed_for_write, with_vector}
use agent_memory_mcp.Memory.Store.Writes.Agreement.{IsRevision}
use agent_memory_mcp.Memory.Store.Writes.Updating.{embed_for_write-Prepares}
use agent_memory_mcp.Memory.Store.Supersede.{try_get}
use agent_memory_mcp.Memory.Store.Supersede.Outdated.{
  AllFit, AllFit-Prepares, read-Fits, IsReadOrNone, try_get-Prepares,
}
use agent_memory_mcp.Memory.Store.Merge.{
  Found, nothing_found, with_read, read_duplicates, wanted_ids, merged_primary, without_vector,
  embed_merged, merged_away, and_all, validate_all, prepare_merge, merge_result, merge_found,
  merge_duplicates, MergeDuplicatesResult,
}

-- a record that was read, under some id
abbrev pub IsReadSomewhere : Dict Memory → Memory → Type 0
IsReadSomewhere rows m = (id : String) × IsRead id rows m

abbrev pub AllRead : Dict Memory → Found → Type 0
AllRead rows f = All (IsReadSomewhere rows) f.duplicates

with_read-AllRead :
    (id : String) (rows : Dict Memory) (o : Option Memory) (f : Found)
    → IsReadOrNone id rows o
    → AllRead rows f
    → AllRead rows (with_read id o f)
with_read-AllRead id rows none f r h = h
with_read-AllRead id rows (some m) f r h = ((id, r m refl), h)

pub read_duplicates-Prepares :
    (ids : List String) (w : World) → PreparesAt AllRead (read_duplicates ids) w
unfolding read_duplicates
read_duplicates-Prepares [] w =
    lift-Prepares_eq AllRead (ok nothing_found) w
      (λ f e. subst (AllRead w.rows) {x = nothing_found} {y = f} (cc) tt)
read_duplicates-Prepares (id ∷ ids) w =
    bind-Prepares (IsReadOrNone id) (try_get id) _ w (try_get-Prepares id w) (λ o w1 r.
      bind-Prepares (λ rows f. IsReadOrNone id rows o × AllRead rows f) (read_duplicates ids) _ w1
        (with_fact (λ rows. IsReadOrNone id rows o) AllRead (read_duplicates ids) w1 r
          (read_duplicates-Prepares ids w1))
        (λ f w2 k. lift-Prepares_eq AllRead (ok (with_read id o f)) w2 (λ g e.
          subst (AllRead w2.rows) {x = with_read id o f} {y = g} (cc)
            (with_read-AllRead id w2.rows o f k.0 k.1))))

merged_primary-IsRevision :
    (env : Env) (primary : Memory) (f : Found) (now : Time)
    → IsRevision primary (merged_primary env primary f now)
unfolding merged_primary
merged_primary-IsRevision env primary f now = record {
  id = refl;
  targeted = refl;
  valid_from = λ p. p;
  valid_until = λ p. p;
}

merged_away-IsRevision :
    (env : Env) (id : String) (now : Time) (m : Memory) → IsRevision m (merged_away env id now m)
unfolding merged_away
merged_away-IsRevision env id now m = record {
  id = refl;
  targeted = refl;
  valid_from = λ p. p;
  valid_until = λ p. p;
}

with_vector-IsRevision :
    (m k : Memory) (found : Option (Embedded × Bool))
    → IsRevision m k
    → IsRevision m (with_vector (without_vector k) found)
with_vector-IsRevision m k none r = record {
  id = r.id;
  targeted = r.targeted;
  valid_from = r.valid_from;
  valid_until = r.valid_until;
}
with_vector-IsRevision m k (some (e, truncated)) r = record {
  id = r.id;
  targeted = r.targeted;
  valid_from = r.valid_from;
  valid_until = r.valid_until;
}

pub embed_merged-Prepares :
    (env : Env) (old : String) (m k : Memory) (w : World)
    → IsRevision m k
    → PreparesAt (λ _ v. IsRevision m v) (embed_merged env old k) w
unfolding embed_merged
embed_merged-Prepares env old m k w r = split (k.content == old) env.embedder
  where
    plain : (v : Memory) → IsRevision m v → PreparesAt (λ _ v. IsRevision m v) (lift (ok v)) w
    plain v q =
        lift-Prepares_eq (λ _ v. IsRevision m v) (ok v) w
          (λ x e. subst (IsRevision m) {x = v} (cc) q)

    split :
        (same : Bool) (embedder : Option (ℕ → String → Option Embedded))
        → PreparesAt
            (λ _ v. IsRevision m v)
            (if same then lift (ok k) else elim embedder [
              | none ↦ lift (ok (without_vector k))
              | some provider ↦ (do
                found ← embed_for_write provider k.content
                lift (ok (with_vector (without_vector k) found)))
            ])
            w
    split true embedder = plain k r
    split false none = plain (without_vector k) (with_vector-IsRevision m k none r)
    split false (some provider) =
        bind-Prepares (λ _ _. Unit) (embed_for_write provider k.content)
          (λ found. lift (ok (with_vector (without_vector k) found))) w
          (embed_for_write-Prepares provider k.content w)
          (λ found w' _.
            lift-Prepares_eq (λ _ v. IsRevision m v) (ok (with_vector (without_vector k) found)) w'
              (λ x e.
                subst (IsRevision m) {x = with_vector (without_vector k) found} (cc)
                  (with_vector-IsRevision m k found r)))

validate_all-AllFit :
    (env : Env) (id : String) (now : Time) (rows : Dict Memory) (cache : Cache)
    (ms vs : List Memory)
    → IsSound rows cache
    → All (IsReadSomewhere rows) ms
    → validate_all (map (merged_away env id now) ms) ≡ ok vs
    → AllFit rows vs
unfolding validate_all
validate_all-AllFit env id now rows cache [] vs s h e =
    subst (AllFit rows) {x = []} {y = vs} (cc) tt
validate_all-AllFit env id now rows cache (m ∷ ms) vs s ((k, r), h) e =
    split (validate (merged_away env id now m)) (validate_all (map (merged_away env id now) ms))
      refl refl e (λ us q. validate_all-AllFit env id now rows cache ms us s h q)
  where
    split :
        (a : Result Memory) (b : Result (List Memory))
        → validate (merged_away env id now m) ≡ a
        → validate_all (map (merged_away env id now) ms) ≡ b
        → and_all a b ≡ ok vs
        → ((us : List Memory)
            → validate_all (map (merged_away env id now) ms) ≡ ok us
            → AllFit rows us)
        → AllFit rows vs
    split (ok v) (ok us) p q e ih = subst (AllFit rows) {x = v ∷ us} {y = vs} (cc) (
      read-Fits k rows cache m (merged_away env id now m) v s r
          (merged_away-IsRevision env id now m) p,
      ih us q,
    )
    split (ok v) (err x) p q e ih = absurd (cc)
    split (err x) b p q e ih = absurd (cc)

module _ (env : Env) (id : String) (primary : Memory) (f : Found) (cache : Cache) where
  abbrev Known : Dict Memory → Type 0
  Known rows = IsSound rows cache × IsRead id rows primary × AllRead rows f

  prepare_merge-Prepares :
      (w : World) → Known w.rows → PreparesAt AllFit (prepare_merge env id primary f) w
  unfolding prepare_merge tick
  prepare_merge-Prepares w k =
      let now = env.now w.calls in
      let w0 = record w { calls = suc w.calls } in
      let merged = merged_primary env primary f now in
      let p =
        bind-Prepares (λ rows v. Known rows × IsRevision primary v)
          (embed_merged env primary.content merged)
          (λ m. lift (validate m) >>= λ valid.
            lift (validate_all (map (merged_away env id now) f.duplicates)) >>= λ retired.
            lift (ok (valid ∷ retired)))
          w0
          (with_fact Known (λ _ v. IsRevision primary v) (embed_merged env primary.content merged)
            w0 k
            (embed_merged-Prepares env primary.content primary merged w0
              (merged_primary-IsRevision env primary f now)))
          (λ m w1 j. lift-then Known (validate m) _ w1 j.0 (λ valid w2 e k2.
            let fit = read-Fits id w2.rows cache primary m valid k2.0 k2.1 j.1 e in
            lift-then (λ rows. Known rows × Fits rows valid)
              (validate_all (map (merged_away env id now) f.duplicates))
              (λ retired. lift (ok (valid ∷ retired))) w2 (k2, fit)
              (λ retired w3 q k3. AllFit-Prepares (valid ∷ retired) w3 (
                k3.1,
                validate_all-AllFit env id now w3.rows cache f.duplicates retired k3.0.0 k3.0.2 q,
              )))) in
      record { rows = p.rows; cache = p.cache; result = p.result }

  merge_found-Agrees :
      (w : World)
      → AllRead w.rows f
      → IsRead id w.rows primary
      → IsSound w.rows cache
      → w.cache ≡ cache
      → Agrees (merge_found env id primary f w).1
  unfolding merge_found lift
  merge_found-Agrees w a r s c = split (is_nil f.duplicates) (is_nil f.skipped)
    where
      agrees : Agrees w
      agrees = subst (λ x. IsSound w.rows x) (sym c) s

      split :
          (a b : Bool)
          → Agrees
              ((if a
                  then (if b then lift (err duplicate_required) else lift (ok (merge_result id f)))
                  else (prepare_merge env id primary f >>= λ rows.
                      (save_all rows >> lift (ok (merge_result id f)))))
                w).1
      split true true = agrees
      split true false = agrees
      split false b =
          prepare-then AllFit (prepare_merge env id primary f)
            (λ rows. save_all rows >> lift (ok (merge_result id f))) w
            (prepare_merge-Prepares w (s, r, a)) agrees
            (λ rows w' fit s'.
              answer-Agrees (save_all rows) (λ _. ok (merge_result id f)) w'
                (save_all-Agrees rows w' fit s'))

-- Merging duplicates into a record keeps cache and database in agreement, whichever ids are missing and whatever fails.
pub merge_duplicates-Agrees :
    (env : Env) (raw : String) (ids : List String) (w : World)
    → Agrees w
    → Agrees (merge_duplicates env raw ids w).1
unfolding merge_duplicates lift
merge_duplicates-Agrees env raw ids w s = split (is_empty (trim_space raw))
  where
    reading : Memory → World → Result MergeDuplicatesResult × World
    reading primary = read_duplicates (wanted_ids (trim_space raw ∷ []) ids) >>= λ f.
        merge_found env (trim_space raw) primary f

    read :
        (primary : Memory) (w' : World)
        → IsRead (trim_space raw) w'.rows primary
        → Agrees w'
        → Agrees (reading primary w').1
    read primary w' r s' =
        let asked = wanted_ids (trim_space raw ∷ []) ids in
        prepare-then (λ rows f. IsRead (trim_space raw) rows primary × AllRead rows f)
          (read_duplicates asked) (merge_found env (trim_space raw) primary) w'
          (with_fact (λ rows. IsRead (trim_space raw) rows primary) AllRead (read_duplicates asked)
            w' r (read_duplicates-Prepares asked w'))
          s'
          (λ f w'' k s''.
            merge_found-Agrees env (trim_space raw) primary f w''.cache w'' k.1 k.0 s'' refl)

    split :
        (b : Bool)
        → Agrees
            ((if b
                then lift (err primary_required)
                else (get (trim_space raw) >>= λ primary. reading primary))
              w).1
    split true = s
    split false =
        prepare-then (IsRead (trim_space raw)) (get (trim_space raw)) reading w
          (get-Prepares (trim_space raw) w) s read

-- ===== src/Memory/Store/Supersede/Outdated.antt =====
-- `MarkOutdated` keeps cache and database in agreement: the retired record and its successor are
-- written in one transaction, and published after it.
use agent_memory_mcp.Base.{
  ℕ, String, ◌≡◌, refl, subst, Bool, true, false, Option, none, some, List, [], ◌∷◌, if◌then◌else◌,
  All,
}
use agent_memory_mcp.Text.{trim_space, is_empty}
use agent_memory_mcp.Dict.{Dict}
use agent_memory_mcp.Memory.Types.{Time, is_zero, Memory, Result, ok, err}
use agent_memory_mcp.Memory.Cache.{Cache}
use agent_memory_mcp.Memory.Validate.{validate}
use agent_memory_mcp.Memory.World.{Env, World}
use agent_memory_mcp.Memory.World.Rows.{null_time}
use agent_memory_mcp.Memory.World.Sound.{IsSound, Fits, Derives-Fits}
use agent_memory_mcp.Memory.World.Prepares.{
  PreparesAt, IsRead, lift-Prepares_eq, bind-Prepares, with_fact, get-Prepares,
}
use agent_memory_mcp.Memory.World.Reading.{get-then, tick-then, lift-then}
use agent_memory_mcp.Memory.World.Saving.{Agrees, prepare-then, save_all-Agrees}
use agent_memory_mcp.Memory.World.Op.{lift, get, ◌>>=◌, save_all}
use agent_memory_mcp.Memory.Store.Writes.Agreement.{IsRevision, validate-IsRevision, read-Derives}
use agent_memory_mcp.Memory.Store.Supersede.{
  retire, link_back, logged, try_get, linked_pair, prepare_outdated, mark_outdated,
}

given : (t : Time) → is_zero t ≡ false → null_time (some t) ≡ some t
given t h = rw h

retire-IsRevision :
    (env : Env) (reason superseded_by : String) (m : Memory) (now : Time)
    → is_zero now ≡ false
    → IsRevision m (retire env reason superseded_by m now)
unfolding retire
retire-IsRevision env reason superseded_by m now h = record {
  id = refl;
  targeted = refl;
  valid_from = λ p. p;
  valid_until = λ p. given now h;
}

link_back-IsRevision :
    (id : String) (s : Memory) (now : Time)
    → is_zero now ≡ false
    → IsRevision s (link_back id s now)
unfolding link_back
link_back-IsRevision id s now h = record {
  id = refl;
  targeted = refl;
  valid_from = λ p. given now h;
  valid_until = λ p. p;
}

-- the result of a read whose failure is only logged
abbrev pub IsReadOrNone : String → Dict Memory → Option Memory → Type 0
IsReadOrNone id rows o = (m : Memory) → o ≡ some m → IsRead id rows m

logged_lem :
    (id : String) (r : Result Memory) (w' w : World)
    → w'.rows ≡ w.rows
    → w'.cache ≡ w.cache
    → ((m : Memory) → r ≡ ok m → IsRead id w.rows m)
    → ((logged r w').1.rows ≡ w.rows)
      × ((logged r w').1.cache ≡ w.cache)
      × ((o : Option Memory) → (logged r w').0 ≡ ok o → IsReadOrNone id w.rows o)
logged_lem id (ok m) w' w e c p =
    (e, c, λ o h k j. subst (IsRead id w.rows) {x = m} (cc) (p m refl))
logged_lem id (err x) w' w e c p = (e, c, λ o h k j. cc)

pub try_get-Prepares : (id : String) (w : World) → PreparesAt (IsReadOrNone id) (try_get id) w
unfolding try_get
try_get-Prepares id w =
    let p = get-Prepares id w in
    let h = logged_lem id (get id w).0 (get id w).1 w p.rows p.cache p.result in
    record { rows = h.0; cache = h.1; result = h.2 }

-- the records that a transaction may write
abbrev pub AllFit : Dict Memory → List Memory → Type 0
AllFit rows ms = All (Fits rows) ms

pub AllFit-Prepares :
    (ms : List Memory) (w : World) → AllFit w.rows ms → PreparesAt AllFit (lift (ok ms)) w
AllFit-Prepares ms w h =
    lift-Prepares_eq AllFit (ok ms) w (λ a e. subst (AllFit w.rows) {x = ms} (cc) h)

pub read-Fits :
    (id : String) (rows : Dict Memory) (cache : Cache) (m k v : Memory)
    → IsSound rows cache
    → IsRead id rows m
    → IsRevision m k
    → validate k ≡ ok v
    → Fits rows v
read-Fits id rows cache m k v s r i e =
    Derives-Fits id rows cache v s
      (read-Derives id rows cache m v s r (validate-IsRevision m k v i e))

linked_pair-Prepares :
    (id superseded_by : String) (cache : Cache) (now : Time) (retired : Memory) (o : Option Memory)
    (w : World)
    → is_zero now ≡ false
    → IsSound w.rows cache
    → Fits w.rows retired
    → IsReadOrNone superseded_by w.rows o
    → PreparesAt AllFit (linked_pair id now retired o) w
linked_pair-Prepares id superseded_by cache now retired none w h s f r =
    AllFit-Prepares (retired ∷ []) w (f, tt)
linked_pair-Prepares id superseded_by cache now retired (some m) w h s f r =
    let linked = link_back id m now in
    lift-then (λ rows. IsSound rows cache × Fits rows retired × IsRead superseded_by rows m)
      (validate linked) (λ v. lift (ok (retired ∷ v ∷ []))) w (s, f, r m refl)
      (λ v w' e k. AllFit-Prepares (retired ∷ v ∷ []) w' (
        k.1,
        (
          read-Fits superseded_by w'.rows cache m linked v k.0 k.2 (link_back-IsRevision id m now h)
              e,
          tt,
        ),
      ))

module _ (env : Env) (clock : (n : ℕ) → is_zero (env.now n) ≡ false) where
  prepare_outdated-Prepares :
      (id reason superseded_by : String) (w : World)
      → Agrees w
      → PreparesAt AllFit (prepare_outdated env id reason superseded_by) w
  unfolding prepare_outdated
  prepare_outdated-Prepares id reason superseded_by w s =
      let Kept = λ (rows : Dict Memory). IsSound rows w.cache in
      let Read = λ (m : Memory) (rows : Dict Memory). Kept rows × IsRead id rows m in
      get-then Kept id _ w s (λ m w1 k r.
        tick-then (Read m) env _ w1 clock (k, r)
          (λ now w2 h k2.
            lift-then (Read m) (validate (retire env reason superseded_by m now)) _ w2 k2
              (λ v w3 e k3.
                finish m now v w3 h k3.0
                  (read-Fits id w3.rows w.cache m (retire env reason superseded_by m now) v k3.0
                    k3.1 (retire-IsRevision env reason superseded_by m now h) e)
                  (is_empty superseded_by))))
    where
      finish :
          (m : Memory) (now : Time) (v : Memory) (w' : World)
          → is_zero now ≡ false
          → IsSound w'.rows w.cache
          → Fits w'.rows v
          → (alone : Bool)
          → PreparesAt AllFit
              (if alone
                then lift (ok (v ∷ []))
                else (try_get superseded_by >>= λ successor. linked_pair id now v successor))
              w'
      finish m now v w' h k f true = AllFit-Prepares (v ∷ []) w' (f, tt)
      finish m now v w' h k f false =
          let Known = λ (rows : Dict Memory). IsSound rows w.cache × Fits rows v in
          bind-Prepares (λ rows o. Known rows × IsReadOrNone superseded_by rows o)
            (try_get superseded_by) (λ successor. linked_pair id now v successor) w'
            (with_fact Known (IsReadOrNone superseded_by) (try_get superseded_by) w' (k, f)
              (try_get-Prepares superseded_by w'))
            (λ o w'' j. linked_pair-Prepares id superseded_by w.cache now v o w'' h j.0.0 j.0.1 j.1)

  -- Marking a record outdated, with or without a successor and whatever fails, keeps cache and
  -- database in agreement, if the clock never reads the zero time.
  pub mark_outdated-Agrees :
      (id reason superseded_by : String) (w : World)
      → Agrees w
      → Agrees (mark_outdated env id reason superseded_by w).1
  unfolding mark_outdated
  mark_outdated-Agrees id reason superseded_by w s =
      prepare-then AllFit (prepare_outdated env id reason (trim_space superseded_by)) save_all w
        (prepare_outdated-Prepares id reason (trim_space superseded_by) w s) s
        (λ ms w' f s'. save_all-Agrees ms w' f s')

-- ===== src/Memory/Store/Writes/Agreement.antt =====
-- Updates keep cache and database in agreement.
use agent_memory_mcp.Base.{ℕ, String, ◌≡◌, refl, ◌∙◌, false, Option, arith}
use agent_memory_mcp.Dict.{Dict}
use agent_memory_mcp.Memory.Types.{Time, is_zero, Memory, Result, ok}
use agent_memory_mcp.Memory.Validate.{validate}
use agent_memory_mcp.Memory.Cache.{Cache}
use agent_memory_mcp.Memory.World.{Env, World}
use agent_memory_mcp.Memory.World.Sound.{IsSound, Derives, Derives-Fits}
use agent_memory_mcp.Memory.World.Prepares.{
  PreparesAt, IsRead, lift-Prepares_eq, tick-Prepares, get-Prepares, bind-Prepares, with_fact,
}
use agent_memory_mcp.Memory.World.Saving.{Agrees, prepare-then, save-Agrees}
use agent_memory_mcp.Memory.World.Op.{Op, lift, get, tick, save, ◌>>=◌}
use agent_memory_mcp.Memory.World.Rows.{null_time, scan_row}
use agent_memory_mcp.Memory.Store.Writes.{
  Update, EmbeddedContent, apply_update, prepare_update, update_locked,
}

-- the fields of a record that no write through `Validate` changes
pub record SameRow (m v : Memory) : Type 0 where
  pub id : v.id ≡ m.id
  pub targeted : v.targeted_access_count ≡ m.targeted_access_count
  pub valid_from : v.valid_from ≡ m.valid_from
  pub valid_until : v.valid_until ≡ m.valid_until

pub validate-SameRow : (m v : Memory) → validate m ≡ ok v → SameRow m v
unfolding validate
validate-SameRow m v h = ground arith

apply_update-SameRow :
    (u : Update) (e : Option EmbeddedContent) (m : Memory) → SameRow m (apply_update u e m)
unfolding apply_update
apply_update-SameRow u e m = ground arith

-- a record that may be saved over another: of the same row, with proper times where those were
pub record IsRevision (m v : Memory) : Type 0 where
  pub id : v.id ≡ m.id
  pub targeted : v.targeted_access_count ≡ m.targeted_access_count
  pub valid_from : null_time m.valid_from ≡ m.valid_from → null_time v.valid_from ≡ v.valid_from
  pub valid_until :
      null_time m.valid_until ≡ m.valid_until → null_time v.valid_until ≡ v.valid_until

pub validate-IsRevision : (m k v : Memory) → IsRevision m k → validate k ≡ ok v → IsRevision m v
validate-IsRevision m k v r h =
    let q = validate-SameRow k v h in
    record {
      id = q.id ∙ r.id;
      targeted = q.targeted ∙ r.targeted;
      valid_from = λ p. cc (q.valid_from, r.valid_from p);
      valid_until = λ p. cc (q.valid_until, r.valid_until p);
    }

pub read-Derives :
    (id : String) (rows : Dict Memory) (cache : Cache) (m v : Memory)
    → IsSound rows cache
    → IsRead id rows m
    → IsRevision m v
    → Derives id rows v
unfolding scan_row
read-Derives id rows cache m v s (old, e, r) k =
    let p = s.proper id old e in
    (
      old,
      e,
      cc (k.id, r),
      cc (k.targeted, r),
      k.valid_from (cc (r, p.0)),
      k.valid_until (cc (r, p.1)),
    )

-- the changes of a record that an operation may save
abbrev pub IsChange : (Memory → Time → Result Memory) → Type 0
IsChange change =
    (m : Memory) (now : Time) (v : Memory)
    → is_zero now ≡ false
    → change m now ≡ ok v
    → IsRevision m v

-- a record that is read, changed at a time, and saved
pub read-tick-Prepares :
    (env : Env) (id : String) (change : Memory → Time → Result Memory) (w : World)
    → ((n : ℕ) → is_zero (env.now n) ≡ false)
    → IsChange change
    → Agrees w
    → PreparesAt (Derives id) (get id >>= λ m. tick env >>= λ now. lift (change m now)) w
read-tick-Prepares env id change w clock same s =
    let Read = λ (rows : Dict Memory) (m : Memory). IsSound rows w.cache × IsRead id rows m in
    bind-Prepares Read (get id) (λ m. tick env >>= λ now. lift (change m now)) w
      (with_fact (λ rows. IsSound rows w.cache) (IsRead id) (get id) w s (get-Prepares id w))
      (λ m w' read.
        bind-Prepares (λ rows now. Read rows m × (is_zero now ≡ false)) (tick env)
          (λ now. lift (change m now)) w'
          (with_fact (λ rows. Read rows m) (λ _ t. is_zero t ≡ false) (tick env) w' read
            (tick-Prepares env w' clock))
          (λ now w'' known. lift-Prepares_eq (Derives id) (change m now) w'' (λ v e.
            read-Derives id w''.rows w.cache m v known.0.0 known.0.1 (same m now v known.1 e))))

-- a preparation of one record, then its save
pub prepare-save-Agrees :
    (id : String) (prepare : Op Memory) (w : World)
    → PreparesAt (Derives id) prepare w
    → Agrees w
    → Agrees ((prepare >>= save) w).1
prepare-save-Agrees id prepare w p s =
    prepare-then (λ rows m. Derives id rows m) prepare save w p s
      (λ m w' d s'. save-Agrees m w' (Derives-Fits id w'.rows w'.cache m s' d) s')

update_content-SameRow :
    (u : Update) (e : Option EmbeddedContent) (m : Memory) (now : Time)
    → IsRevision m (record (apply_update u e m) { updated_at = now })
update_content-SameRow u e m now =
    let q = apply_update-SameRow u e m in
    record {
      id = q.id;
      targeted = q.targeted;
      valid_from = λ p. cc (q.valid_from, p);
      valid_until = λ p. cc (q.valid_until, p);
    }

module _ (env : Env) (clock : (n : ℕ) → is_zero (env.now n) ≡ false) where
  -- An update of a record keeps cache and database in agreement, also where it fails.
  pub update_locked-Agrees :
      (id : String) (u : Update) (e : Option EmbeddedContent) (w : World)
      → Agrees w
      → Agrees (update_locked env id u e w).1
  unfolding update_locked prepare_update
  update_locked-Agrees id u e w s =
      prepare-save-Agrees id (prepare_update env id u e) w
        (read-tick-Prepares env id
          (λ m now. validate (record (apply_update u e m) { updated_at = now })) w clock
          (λ m now v _ h. validate-IsRevision m _ v (update_content-SameRow u e m now) h) s)
        s

-- whatever the clock reads, an update's preparation leaves rows and cache
pub prepare_update-Quiet :
    (env : Env) (id : String) (u : Update) (e : Option EmbeddedContent) (w : World)
    → PreparesAt (λ _ _. Unit) (prepare_update env id u e) w
unfolding prepare_update tick lift
prepare_update-Quiet env id u e w =
    bind-Prepares (IsRead id) (get id) _ w (get-Prepares id w)
      (λ m w' _. record { rows = refl; cache = refl; result = λ a _. tt })

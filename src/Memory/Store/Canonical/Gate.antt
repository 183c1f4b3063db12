-- ===== src/Memory/Store/Canonical/Gate.antt =====
-- What `PromoteToCanonical` lets through, and that it keeps cache and database in agreement.
use agent_memory_mcp.Base.{ℕ, String, ◌≡◌, ◌⊎◌, refl, subst, Bool, false, some, arith, inl, inr}
use agent_memory_mcp.Dict.{Dict, lookup}
use agent_memory_mcp.Memory.Types.{
  Time, is_zero, Memory, ok, err, promotion_requires_verification, database,
}
use agent_memory_mcp.Memory.Engineering.{promotion_allowed}
use agent_memory_mcp.Memory.Validate.{validate}
use agent_memory_mcp.Memory.World.{Env, World}
use agent_memory_mcp.Memory.World.Rows.{scan_row}
use agent_memory_mcp.Memory.World.Sound.{IsSound, Derives}
use agent_memory_mcp.Memory.World.Prepares.{PreparesAt, IsRead, lift-Prepares_eq}
use agent_memory_mcp.Memory.World.Reading.{get-then, tick-then, lift-then}
use agent_memory_mcp.Memory.World.Saving.{Agrees, sql-cases}
use agent_memory_mcp.Memory.World.Op.{lift, get, read_row}
use agent_memory_mcp.Memory.Store.Writes.Agreement.{
  IsRevision, validate-IsRevision, read-Derives, prepare-save-Agrees,
}
use agent_memory_mcp.Memory.Store.Canonical.{
  promote, check_promotion, prepare_promotion, promote_to_canonical,
}

promote-IsRevision :
    (env : Env) (owner : String) (verified : Bool) (m : Memory) (t u : Time)
    → IsRevision m (promote env owner verified m t u)
unfolding promote
promote-IsRevision env owner verified m t u = record {
  id = refl;
  targeted = refl;
  valid_from = λ p. p;
  valid_until = λ p. p;
}

check_promotion-same : (m a : Memory) (verified : Bool) → check_promotion m verified ≡ ok a → a ≡ m
check_promotion-same m a verified e = ground arith

module _ (env : Env) (clock : (n : ℕ) → is_zero (env.now n) ≡ false) where
  prepare_promotion-Prepares :
      (id owner : String) (verified : Bool) (w : World)
      → Agrees w
      → PreparesAt (Derives id) (prepare_promotion env id owner verified) w
  unfolding prepare_promotion
  prepare_promotion-Prepares id owner verified w s =
      let Kept = λ (rows : Dict Memory). IsSound rows w.cache in
      let Read = λ (m : Memory) (rows : Dict Memory). Kept rows × IsRead id rows m in
      get-then Kept id _ w s (λ m w1 k r.
        lift-then (Read m) (check_promotion m verified) _ w1 (k, r)
          (λ a w2 same h. tick-then (Read m) env _ w2 clock h (λ t w3 _ h'.
            tick-then (Read m) env _ w3 clock h' (λ u w4 _ h''.
              lift-Prepares_eq (Derives id) (validate (promote env owner verified a t u)) w4 (λ v e.
                read-Derives id w4.rows w.cache m v h''.0 h''.1 (
                  validate-IsRevision m (promote env owner verified a t u) v
                    (subst (λ x. IsRevision x (promote env owner verified a t u))
                      (check_promotion-same m a verified same)
                      (promote-IsRevision env owner verified a t u))
                    e))))))

  -- A promotion, allowed or refused, keeps cache and database in agreement, if the clock never reads
  -- the zero time.
  pub promote_to_canonical-Agrees :
      (id owner : String) (verified : Bool) (w : World)
      → Agrees w
      → Agrees (promote_to_canonical env id owner verified w).1
  unfolding promote_to_canonical
  promote_to_canonical-Agrees id owner verified w s =
      prepare-save-Agrees id (prepare_promotion env id owner verified) w
        (prepare_promotion-Prepares id owner verified w s) s

-- where a read row may not be promoted
module _ (id : String) (w : World) (old : Memory) (stored : lookup id w.rows ≡ some old) where
  -- A promotion that is not allowed (not verified, of a row whose provenance is not trusted) ends in the
  -- error that asks for verification, or in the error of the read, and rows and cache are as before.
  pub promote_to_canonical_refused :
      (env : Env) (owner : String) (verified : Bool)
      → promotion_allowed old.metadata verified ≡ false
      → (((promote_to_canonical env id owner verified w).0 ≡ err promotion_requires_verification)
          ⊎ ((promote_to_canonical env id owner verified w).0 ≡ err database))
        × ((promote_to_canonical env id owner verified w).1.rows ≡ w.rows)
        × ((promote_to_canonical env id owner verified w).1.cache ≡ w.cache)
  unfolding promote_to_canonical prepare_promotion get read_row lift scan_row
  promote_to_canonical_refused env owner verified refused = elim (sql-cases w) [
    | inl (faults, e) ↦ rw (e, stored, refused) (inl refl, refl, refl)
    | inr (faults, e) ↦ rw e (inr refl, refl, refl)
  ]

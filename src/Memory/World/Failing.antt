-- ===== src/Memory/World/Failing.antt =====
-- What an operation that ends in an error leaves.
use agent_memory_mcp.Base.{◌≡◌, refl, ◌∙◌, List, [], ◌∷◌, inl, inr}
use agent_memory_mcp.Dict.{Dict}
use agent_memory_mcp.Memory.Types.{Memory, Error, Result, ok, err}
use agent_memory_mcp.Memory.World.{World}
use agent_memory_mcp.Memory.World.Op.{
  Op, lift, continue, ◌>>=◌, write_row, publish, save, publish_all, write_rows, transaction,
  save_all,
}
use agent_memory_mcp.Memory.World.Prepares.{PreparesAt}
use agent_memory_mcp.Memory.World.Saving.{sql-cases, Atomic, transaction-Atomic}

-- rows and cache of one world are those of another
abbrev pub IsUnchanged : World → World → Type 0
IsUnchanged w w' = (w'.rows ≡ w.rows) × (w'.cache ≡ w.cache)

-- an operation whose error leaves rows and cache
abbrev pub FailsClean {ℓ} : {A : Type ℓ} → Op A → World → Type ℓ
FailsClean m w = (e : Error) → (m w).0 ≡ err e → IsUnchanged w (m w).1

module _ {A : Type 0} {B : Type 0} where
  continue-FailsClean :
      (r : Result A) (f : A → Op B) (w' w : World)
      → IsUnchanged w w'
      → ((a : A) → FailsClean (f a) w')
      → (e : Error) → (continue r f w').0 ≡ err e
      → IsUnchanged w (continue r f w').1
  continue-FailsClean (ok a) f w' w u k e h = let v = k a e h in (v.0 ∙ u.0, v.1 ∙ u.1)
  continue-FailsClean (err x) f w' w u k e h = u

  -- a preparation, then an operation that fails cleanly
  pub prepare-FailsClean :
      (P : Dict Memory → A → Type 0) (m : Op A) (f : A → Op B) (w : World)
      → PreparesAt P m w
      → ((a : A) (w' : World) → FailsClean (f a) w')
      → FailsClean (m >>= f) w
  prepare-FailsClean P m f w p k e h =
      continue-FailsClean (m w).0 f (m w).1 w (p.rows, p.cache) (λ a. k a (m w).1) e h

pub save-FailsClean : (m : Memory) (w : World) → FailsClean (save m) w
unfolding save publish write_row
save-FailsClean m w e h = elim (sql-cases w) [
  | inl (faults, k) ↦ absurd (cc (rw k at h))
  | inr (faults, k) ↦ rw k (refl, refl)
]

publish_all_succeeds : (ms : List Memory) (w : World) → (publish_all ms w).0 ≡ ok tt
unfolding publish_all publish lift
publish_all_succeeds [] w = refl
publish_all_succeeds (m ∷ ms) w = publish_all_succeeds ms _

pub save_all-FailsClean : (ms : List Memory) (w : World) → FailsClean (save_all ms) w
unfolding save_all
save_all-FailsClean ms w e h =
    let out = transaction (write_rows ms) w in split out.0 out.1 (transaction-Atomic ms w) h
  where
    split :
        (r : Result (Unit {0})) (w' : World)
        → Atomic ms w.rows w.cache (r, w')
        → (continue r (λ _. publish_all ms) w').0 ≡ err e
        → IsUnchanged w (continue r (λ _. publish_all ms) w').1
    split (ok u) w' a k = absurd (cc (publish_all_succeeds ms w', k))
    split (err x) w' a k = (a.undone x refl, a.cache)

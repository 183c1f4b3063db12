-- ===== src/Memory/World/Reading.antt =====
-- Preparations that start with a read of the row and a reading of the clock.
use agent_memory_mcp.Base.{ℕ, String, ◌≡◌, false}
use agent_memory_mcp.Dict.{Dict}
use agent_memory_mcp.Memory.Types.{Time, is_zero, Memory, Result, ok}
use agent_memory_mcp.Memory.World.{Env, World}
use agent_memory_mcp.Memory.World.Op.{Op, lift, ◌>>=◌, tick, get}
use agent_memory_mcp.Memory.World.Prepares.{
  PreparesAt, IsRead, lift-Prepares_eq, tick-Prepares, get-Prepares, bind-Prepares, with_fact,
}

module _ {ℓ} {B : Type ℓ} {Q : Dict Memory → B → Type 0} (K : Dict Memory → Type 0) where
  -- what is known of the rows is known after the read
  pub get-then :
      (id : String) (f : Memory → Op B) (w : World)
      → K w.rows
      → ((m : Memory) (w' : World) → K w'.rows → IsRead id w'.rows m → PreparesAt Q (f m) w')
      → PreparesAt Q (get id >>= f) w
  get-then id f w k next =
      bind-Prepares (λ rows m. K rows × IsRead id rows m) (get id) f w
        (with_fact K (IsRead id) (get id) w k (get-Prepares id w)) (λ m w' h. next m w' h.0 h.1)

  pub tick-then :
      (env : Env) (f : Time → Op B) (w : World)
      → ((n : ℕ) → is_zero (env.now n) ≡ false)
      → K w.rows
      → ((t : Time) (w' : World) → is_zero t ≡ false → K w'.rows → PreparesAt Q (f t) w')
      → PreparesAt Q (tick env >>= f) w
  tick-then env f w clock k next =
      bind-Prepares (λ rows t. K rows × (is_zero t ≡ false)) (tick env) f w
        (with_fact K (λ _ t. is_zero t ≡ false) (tick env) w k (tick-Prepares env w clock))
        (λ t w' h. next t w' h.1 h.0)

  pub lift-then :
      {A : Type 0} (r : Result A) (f : A → Op B) (w : World)
      → K w.rows
      → ((a : A) (w' : World) → r ≡ ok a → K w'.rows → PreparesAt Q (f a) w')
      → PreparesAt Q (lift r >>= f) w
  lift-then r f w k next =
      bind-Prepares (λ rows a. K rows × (r ≡ ok a)) (lift r) f w
        (lift-Prepares_eq (λ rows a. K rows × (r ≡ ok a)) r w (λ a e. (k, e)))
        (λ a w' h. next a w' h.1 h.0)

-- ===== src/Memory/World/Calm.antt =====
-- Worlds in which no SQL call fails: an operation leaves such a world one.
use agent_memory_mcp.Base.{◌≡◌, ap, ◌∙◌, String, ℕ, Option, []}
use agent_memory_mcp.Memory.Types.{Result, ok, err}
use agent_memory_mcp.Memory.World.{Env, Embedded, World}
use agent_memory_mcp.Memory.World.Op.{
  Op, lift, continue, ◌>>=◌, sql, tick, fresh_id, embed_detailed, get, read_row,
}
use agent_memory_mcp.Memory.World.Saving.{Agrees, sql-calm}

abbrev pub IsCalm : World → Type 0
IsCalm w = w.faults ≡ []

abbrev pub StaysCalm {ℓ} : {A : Type ℓ} → Op A → World → Type 0
StaysCalm m w = IsCalm w → IsCalm (m w).1

-- cache and database agree, and no SQL call fails
abbrev pub IsFine : World → Type 0
IsFine w = Agrees w × IsCalm w

module _ {ℓ κ} {A : Type ℓ} {B : Type κ} where
  continue-StaysCalm :
      (r : Result A) (f : A → Op B) (w : World)
      → IsCalm w
      → ((a : A) (w' : World) → StaysCalm (f a) w')
      → IsCalm (continue r f w).1
  continue-StaysCalm (ok a) f w c k = k a w c
  continue-StaysCalm (err e) f w c k = c

  pub bind-StaysCalm :
      (m : Op A) (f : A → Op B) (w : World)
      → StaysCalm m w
      → ((a : A) (w' : World) → StaysCalm (f a) w')
      → StaysCalm (m >>= f) w
  bind-StaysCalm m f w p k c = continue-StaysCalm (m w).0 f (m w).1 (p c) k

module _ {ℓ} {A : Type ℓ} where
  pub lift-StaysCalm : (r : Result A) (w : World) → StaysCalm (lift r) w
  unfolding lift
  lift-StaysCalm r w c = c

pub sql-StaysCalm : (w : World) → StaysCalm sql w
sql-StaysCalm w c = ap (λ (r : Result Unit × World). r.1.faults) (sql-calm w c) ∙ c

pub tick-StaysCalm : (env : Env) (w : World) → StaysCalm (tick env) w
unfolding tick
tick-StaysCalm env w c = c

pub fresh_id-StaysCalm : (env : Env) (w : World) → StaysCalm (fresh_id env) w
unfolding fresh_id
fresh_id-StaysCalm env w c = c

pub embed_detailed-StaysCalm :
    (provider : ℕ → String → Option Embedded) (text : String) (w : World)
    → StaysCalm (embed_detailed provider text) w
unfolding embed_detailed
embed_detailed-StaysCalm provider text w c = c

pub get-StaysCalm : (id : String) (w : World) → StaysCalm (get id) w
unfolding get read_row
get-StaysCalm id w = bind-StaysCalm sql (λ _. read_row id) w (sql-StaysCalm w) (λ _ w' c. c)

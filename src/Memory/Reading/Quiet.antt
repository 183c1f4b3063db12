-- ===== src/Memory/Reading/Quiet.antt =====
-- `List` reads: it leaves rows and cache as they are, whatever fails.
use agent_memory_mcp.Base.{ℕ, zero, suc, String, refl, List, [], ◌∷◌, take}
use agent_memory_mcp.Dict.{Dict}
use agent_memory_mcp.Memory.Types.{Memory, ok}
use agent_memory_mcp.Memory.World.{World}
use agent_memory_mcp.Memory.World.Op.{Op, lift, sql}
use agent_memory_mcp.Memory.World.Prepares.{PreparesAt, lift-Prepares, sql-Prepares, bind-Prepares}
use agent_memory_mcp.Memory.Reading.{
  list_by, Filters, batch_chunk_size, drop, get_chunk, get_batch_from, get_batch, pick, selected,
  ids_of, list, add_rows,
}

abbrev pub Reads {ℓ} : {A : Type ℓ} → Op A → World → Type ℓ
Reads m w = PreparesAt (λ _ _. Unit) m w

get_chunk-Reads :
    (ids : List String) (found : Dict Memory) (w : World) → Reads (get_chunk ids found) w
unfolding get_chunk
get_chunk-Reads ids found w =
    bind-Prepares (λ _ _. Unit) sql (λ _ w'. (ok (add_rows ids w'.rows found), w')) w
      (sql-Prepares w) (λ u w' _. record { rows = refl; cache = refl; result = λ a e. tt })

get_batch_from-Reads :
    (fuel : ℕ) (ids : List String) (found : Dict Memory) (w : World)
    → Reads (get_batch_from fuel ids found) w
unfolding get_batch_from
get_batch_from-Reads zero ids found w = lift-Prepares (ok found) w
get_batch_from-Reads (suc fuel) [] found w = lift-Prepares (ok found) w
get_batch_from-Reads (suc fuel) (id ∷ ids) found w =
    bind-Prepares (λ _ _. Unit) (get_chunk (take batch_chunk_size (id ∷ ids)) found)
      (λ more. get_batch_from fuel (drop batch_chunk_size (id ∷ ids)) more) w
      (get_chunk-Reads (take batch_chunk_size (id ∷ ids)) found w)
      (λ more w' _. get_batch_from-Reads fuel (drop batch_chunk_size (id ∷ ids)) more w')

pub list-Reads : (f : Filters) (limit : ℕ) (w : World) → Reads (list f limit) w
unfolding list_by get_batch
list-Reads f limit w =
    let ids = ids_of (selected f limit w.cache) in
    let q =
      bind-Prepares (λ _ _. Unit) (get_batch ids) (λ found. lift (ok (pick ids found))) w
        (get_batch_from-Reads _ ids [] w) (λ found w' _. lift-Prepares (ok (pick ids found)) w') in
    record { rows = q.rows; cache = q.cache; result = λ a e. tt }

-- ===== src/Memory/Store/Layers/Calmly.antt =====
-- `PromoteSediment` where no SQL call fails.
use agent_memory_mcp.Base.{String, Bool, true, false, Option, none, some, suc, if◌then◌else◌}
use agent_memory_mcp.Memory.Types.{ok, err, target_layer_invalid}
use agent_memory_mcp.Memory.Sediment.{SedimentLayer, normalize_sediment_layer, layer_or_default}
use agent_memory_mcp.Memory.World.{Env, World}
use agent_memory_mcp.Memory.World.Op.{lift, ◌>>=◌, ◌>>◌, sql, tick, get}
use agent_memory_mcp.Memory.World.Calm.{
  StaysCalm, IsFine, bind-StaysCalm, sql-StaysCalm, get-StaysCalm,
}
use agent_memory_mcp.Memory.Store.Layers.{
  move_layer, promote_from, promote_sediment, same_layer, LayerResult, layer_result,
}
use agent_memory_mcp.Memory.Store.Layers.Moves.{promote_sediment-Agrees}

move_layer-StaysCalm :
    (env : Env) (id : String) (l : SedimentLayer) (w : World) → StaysCalm (move_layer env id l) w
unfolding move_layer tick
move_layer-StaysCalm env id l w c =
    bind-StaysCalm sql _ (record w { calls = suc w.calls })
      (sql-StaysCalm (record w { calls = suc w.calls })) (λ _ w' k. k) c

promote_from-StaysCalm :
    (env : Env) (id : String) (from target : SedimentLayer) (w : World)
    → StaysCalm (promote_from env id from target) w
unfolding promote_from lift
promote_from-StaysCalm env id from target w = split (same_layer from target)
  where
    split :
        (b : Bool)
        → StaysCalm
            (if b
              then lift (ok (layer_result id from target false))
              else (do move_layer env id target; lift (ok (layer_result id from target true))))
            w
    split true c = c
    split false c =
        bind-StaysCalm (move_layer env id target)
          (λ _. lift (ok (layer_result id from target true))) w
          (move_layer-StaysCalm env id target w) (λ _ w' c. c) c

promote_sediment-StaysCalm :
    (env : Env) (id target : String) (w : World) → StaysCalm (promote_sediment env id target) w
unfolding promote_sediment lift
promote_sediment-StaysCalm env id target w = split (normalize_sediment_layer target)
  where
    split :
        (l : Option SedimentLayer)
        → StaysCalm {A = LayerResult}
            (elim l [
              | none ↦ lift (err target_layer_invalid)
              | some l ↦ (do
                current ← get id
                promote_from env id (layer_or_default current.sediment_layer) l)
            ])
            w
    split none c = c
    split (some l) c =
        bind-StaysCalm (get id)
          (λ current. promote_from env id (layer_or_default current.sediment_layer) l) w
          (get-StaysCalm id w)
          (λ current w'.
            promote_from-StaysCalm env id (layer_or_default current.sediment_layer) l w')
          c

pub promote_sediment-IsFine :
    (env : Env) (id target : String) (w : World)
    → IsFine w
    → IsFine (promote_sediment env id target w).1
promote_sediment-IsFine env id target w (s, c) =
    (promote_sediment-Agrees env id target w s, promote_sediment-StaysCalm env id target w c)

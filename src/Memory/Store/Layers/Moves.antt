-- ===== src/Memory/Store/Layers/Moves.antt =====
-- Moves between the layers keep cache and database in agreement.
use agent_memory_mcp.Base.{suc, String, refl, Bool-cases, inl, inr, Option-cases}
use agent_memory_mcp.Memory.Types.{Time}
use agent_memory_mcp.Memory.Sediment.{
  SedimentLayer, normalize_sediment_layer, layer_or_default, demote_one_step,
}
use agent_memory_mcp.Memory.Sediment.Ladder.{normalize_sediment_layer-layer_text}
use agent_memory_mcp.Memory.Cache.{to_cached_memory}
use agent_memory_mcp.Memory.World.{Env, World}
use agent_memory_mcp.Memory.World.Rows.{scan_row, layer_or_default-sediment_layer_value}
use agent_memory_mcp.Memory.World.Fields.{Mirrors, change-IsSound}
use agent_memory_mcp.Memory.World.Prepares.{get-Prepares, IsRead}
use agent_memory_mcp.Memory.World.Saving.{Agrees, prepare-then, answer-Agrees, sql-then-Agrees}
use agent_memory_mcp.Memory.World.Op.{lift, get, tick}
use agent_memory_mcp.Memory.Store.Layers.{
  same_layer, with_layer, cached_with_layer, update_layer, move_layer, promote_from,
  promote_sediment, demote_from, demote_sediment,
}

with_layer-Mirrors :
    (l : SedimentLayer) (now : Time) → Mirrors (with_layer l now) (cached_with_layer l now)
unfolding to_cached_memory scan_row
with_layer-Mirrors l now = record {
  same_id = λ m. refl;
  valid_from = λ m. refl;
  valid_until = λ m. refl;
  cached_id = λ m. refl;
  cached =
      λ m. rw (layer_or_default-sediment_layer_value, normalize_sediment_layer-layer_text) refl;
}

move_layer-Agrees :
    (env : Env) (id : String) (l : SedimentLayer) (w : World)
    → Agrees w
    → Agrees (move_layer env id l w).1
unfolding move_layer tick update_layer
move_layer-Agrees env id l w s =
    let now = env.now w.calls in
    sql-then-Agrees _ (record w { calls = suc w.calls }) s
      (λ w' s'.
        change-IsSound id (with_layer l now) (cached_with_layer l now) (with_layer-Mirrors l now)
          w'.rows w'.cache s')

promote_from-Agrees :
    (env : Env) (id : String) (from target : SedimentLayer) (w : World)
    → Agrees w
    → Agrees (promote_from env id from target w).1
unfolding promote_from lift
promote_from-Agrees env id from target w s = elim (Bool-cases (same_layer from target)) [
  | inl e ↦ rw (e, promote_from) s
  | inr e ↦
      rw (e, promote_from)
        (answer-Agrees (move_layer env id target) _ w (move_layer-Agrees env id target w s))
]

-- A promotion to a layer keeps cache and database in agreement.
pub promote_sediment-Agrees :
    (env : Env) (id target : String) (w : World)
    → Agrees w
    → Agrees (promote_sediment env id target w).1
unfolding promote_sediment lift
promote_sediment-Agrees env id target w s = elim (Option-cases (normalize_sediment_layer target)) [
  | inl e ↦ rw (e, promote_sediment) s
  | inr (l, e) ↦
      rw (e, promote_sediment)
        (prepare-then (IsRead id) (get id) _ w (get-Prepares id w) s
          (λ m w' _ s'. promote_from-Agrees env id (layer_or_default m.sediment_layer) l w' s'))
]

demote_from-Agrees :
    (env : Env) (id : String) (from : SedimentLayer) (w : World)
    → Agrees w
    → Agrees (demote_from env id from w).1
unfolding demote_from lift
demote_from-Agrees env id from w s = elim (Option-cases (demote_one_step from)) [
  | inl e ↦ rw (e, demote_from) s
  | inr (l, e) ↦
      rw (e, demote_from) (answer-Agrees (move_layer env id l) _ w (move_layer-Agrees env id l w s))
]

-- A demotion keeps cache and database in agreement.
pub demote_sediment-Agrees :
    (env : Env) (id : String) (w : World) → Agrees w → Agrees (demote_sediment env id w).1
unfolding demote_sediment
demote_sediment-Agrees env id w s =
    prepare-then (IsRead id) (get id) _ w (get-Prepares id w) s
      (λ m w' _ s'. demote_from-Agrees env id (layer_or_default m.sediment_layer) w' s')

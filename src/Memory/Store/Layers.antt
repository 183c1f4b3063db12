-- ===== src/Memory/Store/Layers.antt =====
-- `PromoteSediment` and `DemoteSediment` of write.go: the layer column and the cached layer.
pub mod Moves
pub mod Calmly
pub mod Told
use agent_memory_mcp.Base.{
  ℕ, String, Bool, true, false, Option, none, some, List, [], ◌∷◌, ◌==◌, or_else, if◌then◌else◌,
}
use agent_memory_mcp.Dict.{Dict, lookup, insert}
use agent_memory_mcp.Memory.Types.{Time, Memory, Result, ok, err, Error, target_layer_invalid}
use agent_memory_mcp.Memory.Sediment.{
  SedimentLayer, surface, episodic, semantic, character, layer_text, normalize_sediment_layer,
  layer_or_default, demote_one_step,
}
use agent_memory_mcp.Memory.Cache.{CachedMemory, update_cached_field}
use agent_memory_mcp.Memory.World.{Env, World}
use agent_memory_mcp.Memory.World.Rows.{change_row}
use agent_memory_mcp.Memory.World.Op.{Op, lift, continue, ◌>>=◌, ◌>>◌, sql, tick, get}

pub record LayerResult : Type 0 where
  pub id : String
  pub from : SedimentLayer
  pub to : SedimentLayer
  pub affected : Bool

abbrev pub layer_result : String → SedimentLayer → SedimentLayer → Bool → LayerResult
layer_result id from to affected = record { id = id; from = from; to = to; affected = affected }

abbrev pub with_layer : SedimentLayer → Time → Memory → Memory
with_layer l now m = record m { sediment_layer = layer_text l; updated_at = now }

abbrev pub cached_with_layer : SedimentLayer → Time → CachedMemory → CachedMemory
cached_with_layer l now m = record m { sediment_layer = l; updated_at = now }

-- UPDATE memories SET sediment_layer = ?, updated_at = ? WHERE id = ?
unfoldable pub update_layer : String → SedimentLayer → Time → Dict Memory → Dict Memory
unfolding change_row
update_layer id l now rows = change_row id (with_layer l now) rows

-- the row, then the cache
unfoldable pub move_layer : Env → String → SedimentLayer → Op (Unit {0})
unfolding sql tick update_layer
move_layer env id l = do
  now ← tick env
  sql
  λ w. (
    ok tt,
    record w {
      rows = update_layer id l now w.rows;
      cache = update_cached_field id (cached_with_layer l now) w.cache;
    },
  )

abbrev pub same_layer : SedimentLayer → SedimentLayer → Bool
same_layer surface surface = true
same_layer episodic episodic = true
same_layer semantic semantic = true
same_layer character character = true
same_layer _ _ = false

unfoldable pub promote_from : Env → String → SedimentLayer → SedimentLayer → Op LayerResult
unfolding move_layer lift
promote_from env id from target =
    if same_layer from target
    then lift (ok (layer_result id from target false))
    else (do move_layer env id target; lift (ok (layer_result id from target true)))

unfoldable pub promote_sediment : Env → String → String → Op LayerResult
unfolding promote_from get lift
promote_sediment env id target = elim (normalize_sediment_layer target) [
  | none ↦ lift (err target_layer_invalid)
  | some l ↦ (do current ← get id; promote_from env id (layer_or_default current.sediment_layer) l)
]

unfoldable pub demote_from : Env → String → SedimentLayer → Op LayerResult
unfolding move_layer lift
demote_from env id from = elim (demote_one_step from) [
  | none ↦ lift (ok (layer_result id from from false))
  | some l ↦ (do move_layer env id l; lift (ok (layer_result id from l true)))
]

unfoldable pub demote_sediment : Env → String → Op LayerResult
unfolding demote_from get
demote_sediment env id = do
  current ← get id
  demote_from env id (layer_or_default current.sediment_layer)

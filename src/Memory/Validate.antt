-- ===== src/Memory/Validate.antt =====
-- `Memory.Validate` of memory.go: what every write establishes. Texts are valid UTF-8, so
-- `sanitizeUTF8` changes nothing here.
pub mod Valid
use agent_memory_mcp.Base.{
  ℕ, suc, String, Bool, true, false, Option, none, some, ltb, if◌then◌else◌,
}
use agent_memory_mcp.Base.Int.{ℤ, pos, negsuc}
use agent_memory_mcp.Text.{trim_space, is_empty}
use agent_memory_mcp.Memory.Types.{
  Memory, Result, ok, err, ◌>>=◌, content_required, importance_range, layer_invalid, type_semantic,
}
use agent_memory_mcp.Memory.Policy.{validate_type, normalize_tags}
use agent_memory_mcp.Memory.Metadata.{normalize_engineering_metadata, normalize_engineering_tags}
use agent_memory_mcp.Memory.Sediment.{normalize_sediment_layer, layer_text, default_sediment_layer}

-- m.Importance < 0 || m.Importance > 1, in hundredths
unfoldable pub importance_out_of_range : ℤ → Bool
importance_out_of_range (negsuc n) = true
importance_out_of_range (pos n) = ltb 100 n

-- the layer that `Validate` stores
unfoldable pub validate_layer : String → Result String
validate_layer raw =
    if is_empty raw
    then ok (layer_text default_sediment_layer)
    else elim (normalize_sediment_layer raw) [
      | none ↦ err (layer_invalid raw)
      | some l ↦ ok (layer_text l)
    ]

abbrev pub require_content : String → Result String
require_content content = if is_empty content then err content_required else ok content

abbrev pub require_importance : ℤ → Result ℤ
require_importance n = if importance_out_of_range n then err importance_range else ok n

unfoldable pub validate : Memory → Result Memory
validate m = do
  content ← require_content (trim_space m.content)
  type ← validate_type m.type type_semantic
  let tags = normalize_tags m.tags
  metadata ← normalize_engineering_metadata m.metadata tags
  importance ← require_importance m.importance
  layer ← validate_layer m.sediment_layer
  ok (record m {
    content = content;
    type = type;
    title = trim_space m.title;
    context = trim_space m.context;
    tags = normalize_engineering_tags tags metadata;
    metadata = metadata;
    importance = importance;
    sediment_layer = layer;
  })

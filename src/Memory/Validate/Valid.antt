-- ===== src/Memory/Validate/Valid.antt =====
-- What `Validate` establishes of a record that it accepts.
use agent_memory_mcp.Base.{
  ℕ, ◌≤◌, String, ◌≡◌, sym, subst, ◌↔◌, Bool, true, false, Option, none, some, arith, if◌then◌else◌,
}
use agent_memory_mcp.Base.Int.{ℤ, pos, negsuc}
use agent_memory_mcp.Text.{trim_space, is_empty}
use agent_memory_mcp.Text.Laws.{trim_space_idem}
use agent_memory_mcp.Dict.{text_at}
use agent_memory_mcp.Memory.Types.{
  Memory, ok, err, layer_invalid, type_semantic, key_lifecycle_status,
}
use agent_memory_mcp.Memory.Policy.{validate_type, normalize_tags, is_known_type}
use agent_memory_mcp.Memory.Engineering.{lifecycle_text, canonical, says_canonical}
use agent_memory_mcp.Memory.Metadata.{normalize_engineering_metadata}
use agent_memory_mcp.Memory.Metadata.Flags.{normalize_engineering_metadata-IsAgreed}
use agent_memory_mcp.Memory.Sediment.{
  SedimentLayer, layer_text, normalize_sediment_layer, default_sediment_layer,
}
use agent_memory_mcp.Memory.Validate.{
  validate, validate_layer, importance_out_of_range, require_content, require_importance,
}

-- a record as the rest of the store may take it
pub record IsValid (v : Memory) : Type 0 where
  pub content_given : is_empty v.content ≡ false
  pub content_trimmed : trim_space v.content ≡ v.content
  pub title_trimmed : trim_space v.title ≡ v.title
  pub context_trimmed : trim_space v.context ≡ v.context
  pub known_type : is_known_type v.type ≡ true
  pub in_range : (n : ℕ) × (v.importance ≡ pos n) × (n ≤ 100)
  pub in_layer : (l : SedimentLayer) × (v.sediment_layer ≡ layer_text l)
  pub lifecycle :
      (text_at key_lifecycle_status v.metadata ≡ lifecycle_text canonical)
      ↔ (says_canonical v.metadata ≡ true)

-- the answers of the steps
pub record Steps (m v : Memory) : Type 0 where
  content : require_content (trim_space m.content) ≡ ok v.content
  type : validate_type m.type type_semantic ≡ ok v.type
  metadata : normalize_engineering_metadata m.metadata (normalize_tags m.tags) ≡ ok v.metadata
  pub importance : require_importance m.importance ≡ ok v.importance
  pub layer : validate_layer m.sediment_layer ≡ ok v.sediment_layer
  title : v.title ≡ trim_space m.title
  context : v.context ≡ trim_space m.context

pub validate-Steps : (m v : Memory) → validate m ≡ ok v → Steps m v
unfolding validate
validate-Steps m v h = record {
  content = ground arith;
  type = ground arith;
  metadata = ground arith;
  importance = ground arith;
  layer = ground arith;
  title = ground arith;
  context = ground arith;
}

require_content_lem : (t c : String) → require_content t ≡ ok c → (c ≡ t) × (is_empty c ≡ false)
require_content_lem t c h = ground arith

require_importance_lem : (i n : ℤ) → require_importance i ≡ ok n → (k : ℕ) × (n ≡ pos k) × (k ≤ 100)
unfolding importance_out_of_range
require_importance_lem (pos k) n h = (k, ground arith, ground arith)
require_importance_lem (negsuc k) n h = absurd (ground arith)

validate_type_lem : (t d v : String) → validate_type t d ≡ ok v → is_known_type v ≡ true
unfolding validate_type
validate_type_lem t d v h = ground arith

validate_layer_lem :
    (raw v : String) → validate_layer raw ≡ ok v → (l : SedimentLayer) × (v ≡ layer_text l)
unfolding validate_layer
validate_layer_lem raw v h = split (is_empty raw) (normalize_sediment_layer raw) h
  where
    split :
        (b : Bool) (o : Option SedimentLayer)
        → (if b
            then ok (layer_text default_sediment_layer)
            else elim o [ none ↦ err (layer_invalid raw) | some l ↦ ok (layer_text l) ])
          ≡ ok v
        → (l : SedimentLayer) × (v ≡ layer_text l)
    split true o k = (default_sediment_layer, cc)
    split false none k = absurd (cc)
    split false (some l) k = (l, cc)

-- A record that `Validate` accepts has content, a known type, an importance from 0 to 1, the name of a
-- layer, texts without outer spaces, and metadata whose ways to say canonical agree.
pub validate-IsValid : (m : Memory) {v : Memory} → validate m ≡ ok v → IsValid v
validate-IsValid m {v} h =
    let s = validate-Steps m v h in
    let c = require_content_lem (trim_space m.content) v.content s.content in
    record {
      content_given = c.1;
      content_trimmed = subst (λ x. trim_space x ≡ x) (sym c.0) (trim_space_idem m.content);
      title_trimmed = subst (λ x. trim_space x ≡ x) (sym s.title) (trim_space_idem m.title);
      context_trimmed = subst (λ x. trim_space x ≡ x) (sym s.context) (trim_space_idem m.context);
      known_type = validate_type_lem m.type type_semantic v.type s.type;
      in_range = require_importance_lem m.importance v.importance s.importance;
      in_layer = validate_layer_lem m.sediment_layer v.sediment_layer s.layer;
      lifecycle =
          normalize_engineering_metadata-IsAgreed m.metadata (normalize_tags m.tags) s.metadata;
    }

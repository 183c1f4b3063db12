-- ===== src/Memory/Store/Canonical.antt =====
-- `PromoteToCanonical` of write.go.
pub mod Gate
pub mod Raised
use agent_memory_mcp.Base.{
  ℕ, String, Bool, true, false, ◌||◌, Option, none, some, List, [], ◌∷◌, ◌==◌, ltb, if◌then◌else◌,
}
use agent_memory_mcp.Base.Int.{ℤ, pos, negsuc}
use agent_memory_mcp.Text.{trim_space, is_empty}
use agent_memory_mcp.Dict.{Dict, insert, erase, text_at}
use agent_memory_mcp.Memory.Types.{
  Time, Memory, Result, ok, err, Error, promotion_requires_verification, key_status, key_archived,
  key_last_verified_at, key_provenance, key_owner, key_knowledge_layer, key_canonical,
}
use agent_memory_mcp.Memory.Policy.{normalize_metadata}
use agent_memory_mcp.Memory.Engineering.{normalize_status, promotion_allowed}
use agent_memory_mcp.Memory.Sediment.{layer_text, character}
use agent_memory_mcp.Memory.Validate.{validate}
use agent_memory_mcp.Memory.World.{Env, World}
use agent_memory_mcp.Memory.World.Op.{Op, lift, continue, ◌>>=◌, ◌>>◌, tick, get, save}

-- an importance below a floor becomes the floor
abbrev pub raise_importance : ℕ → ℤ → ℤ
raise_importance floor (negsuc n) = pos floor
raise_importance floor (pos n) = if ltb n floor then pos floor else pos n

abbrev insert_if : Bool → String → String → Dict String → Dict String
insert_if b k v m = if b then insert k v m else m

-- a status that is missing or a draft is confirmed
abbrev confirm_status : Dict String → Dict String
confirm_status m =
    let s = normalize_status (text_at key_status m) in
    if is_empty s || s == "draft" then insert key_status "confirmed" m else m

abbrev set_owner : String → Dict String → Dict String
set_owner owner m = if is_empty (trim_space owner) then m else insert key_owner (trim_space owner) m

unfoldable pub canonical_metadata : Env → String → Bool → Time → Dict String → Dict String
canonical_metadata env owner verified now metadata =
    let stamped = insert "canonical_promoted_at" (env.format_time now) (
      insert key_canonical "true" (
        insert key_knowledge_layer "canonical" (
          confirm_status
            (set_owner owner (insert_if verified key_provenance "verified" metadata))))) in
    erase key_archived (insert_if verified key_last_verified_at (env.format_time now) stamped)

-- `canonicalNow` and `UpdatedAt` are two readings of the clock
unfoldable pub promote : Env → String → Bool → Memory → Time → Time → Memory
unfolding canonical_metadata
promote env owner verified m canonical_now updated = record m {
  importance = raise_importance 95 m.importance;
  metadata = normalize_metadata (canonical_metadata env owner verified canonical_now m.metadata);
  sediment_layer = layer_text character;
  updated_at = updated;
}

abbrev pub check_promotion : Memory → Bool → Result Memory
check_promotion m verified =
    if promotion_allowed m.metadata verified then ok m else err promotion_requires_verification

unfoldable pub prepare_promotion : Env → String → String → Bool → Op Memory
unfolding get tick lift promote
prepare_promotion env id owner verified = do
  mem ← get id
  allowed ← lift (check_promotion mem verified)
  canonical_now ← tick env
  updated ← tick env
  lift (validate (promote env owner verified allowed canonical_now updated))

unfoldable pub promote_to_canonical : Env → String → String → Bool → Op (Unit {0})
unfolding prepare_promotion save
promote_to_canonical env id owner verified = do m ← prepare_promotion env id owner verified; save m

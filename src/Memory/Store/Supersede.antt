-- ===== src/Memory/Store/Supersede.antt =====
-- `MarkOutdated` of write.go.
pub mod Outdated
pub mod Failing
pub mod Capped
use agent_memory_mcp.Base.{
  ℕ, ◌+◌, String, Bool, true, false, Option, none, some, List, [], ◌∷◌, ◌==◌, ltb, if◌then◌else◌,
}
use agent_memory_mcp.Base.Int.{ℤ, pos, negsuc}
use agent_memory_mcp.Text.{trim_space, is_empty}
use agent_memory_mcp.Text.Decimal.{itoa_next}
use agent_memory_mcp.Dict.{Dict, insert}
use agent_memory_mcp.Memory.Types.{
  Time, Memory, Result, ok, err, Error, key_status, key_archived, key_last_verified_at,
  key_referenced_by_count,
}
use agent_memory_mcp.Memory.Policy.{normalize_metadata}
use agent_memory_mcp.Memory.Sediment.{referenced_by_count_from_metadata}
use agent_memory_mcp.Memory.Validate.{validate}
use agent_memory_mcp.Memory.World.{Env, World}
use agent_memory_mcp.Memory.World.Op.{Op, lift, continue, ◌>>=◌, ◌>>◌, tick, get, save_all}

-- an importance above a cap becomes the cap
abbrev pub cap_importance : ℕ → ℤ → ℤ
cap_importance cap (negsuc n) = negsuc n
cap_importance cap (pos n) = if ltb cap n then pos cap else pos n

-- the metadata of a retired record
unfoldable pub retired_metadata : Env → String → String → Time → Dict String → Dict String
retired_metadata env reason superseded_by now metadata =
    let linked =
      if is_empty superseded_by then metadata else insert "superseded_by" superseded_by metadata in
    let reasoned =
      if is_empty (trim_space reason)
      then linked
      else insert "outdated_reason" (trim_space reason) linked in
    insert key_last_verified_at (env.format_time now) (
      insert key_archived "true"
        (insert key_status (if is_empty superseded_by then "outdated" else "superseded") reasoned))

unfoldable pub retire : Env → String → String → Memory → Time → Memory
unfolding retired_metadata
retire env reason superseded_by m now = record m {
  importance = cap_importance 25 m.importance;
  metadata = normalize_metadata (retired_metadata env reason superseded_by now m.metadata);
  valid_until = some now;
  superseded_by = if is_empty superseded_by then m.superseded_by else superseded_by;
  updated_at = now;
}

-- the successor's half of a supersession
unfoldable pub link_back : String → Memory → Time → Memory
unfolding itoa_next
link_back id s now = record s {
  valid_from = some now;
  replaces = id;
  metadata = normalize_metadata (
      insert key_referenced_by_count (itoa_next (referenced_by_count_from_metadata s.metadata))
        s.metadata);
  updated_at = now;
}

-- an error that is only logged
abbrev pub logged : Result Memory → World → Result (Option Memory) × World
logged (ok m) w = (ok (some m), w)
logged (err e) w = (ok none, w)

-- the `Get` of the successor
unfoldable pub try_get : String → Op (Option Memory)
unfolding get
try_get id w = let (r, w') = get id w in logged r w'

abbrev pub linked_pair : String → Time → Memory → Option Memory → Op (List Memory)
linked_pair id now retired none = lift (ok (retired ∷ []))
linked_pair id now retired (some s) = do
  successor ← lift (validate (link_back id s now))
  lift (ok (retired ∷ successor ∷ []))

-- the rows that `MarkOutdated` writes: the retired record, and its successor if that can be read
unfoldable pub prepare_outdated : Env → String → String → String → Op (List Memory)
unfolding get tick lift try_get retire link_back
prepare_outdated env id reason superseded_by = do
  mem ← get id
  now ← tick env
  retired ← lift (validate (retire env reason superseded_by mem now))
  if is_empty superseded_by
      then lift (ok (retired ∷ []))
      else (do successor ← try_get superseded_by; linked_pair id now retired successor)

unfoldable pub mark_outdated : Env → String → String → String → Op (Unit {0})
unfolding prepare_outdated save_all
mark_outdated env id reason superseded_by = do
  rows ← prepare_outdated env id reason (trim_space superseded_by)
  save_all rows

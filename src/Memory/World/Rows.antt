-- ===== src/Memory/World/Rows.antt =====
-- store_sql.go, and `Get` with `scanMemoryRow` of read.go: a record as a row of the table.
use agent_memory_mcp.Base.{ℕ, String, ◌≡◌, Option, none, some, if◌then◌else◌}
use agent_memory_mcp.Dict.{Dict, lookup, insert, has}
use agent_memory_mcp.Memory.Types.{Time, is_zero, Memory}
use agent_memory_mcp.Memory.Sediment.{layer_or_default, layer_text}
use agent_memory_mcp.Memory.Sediment.Ladder.{normalize_sediment_layer-layer_text}

-- `nullTime`: the zero time is stored as NULL
abbrev pub null_time : Option Time → Option Time
null_time none = none
null_time (some t) = if is_zero t then none else some t

-- `sedimentLayerValue`
unfoldable pub sediment_layer_value : String → String
sediment_layer_value raw = layer_text (layer_or_default raw)

-- the columns that a write stores
unfoldable pub encode_row : Memory → Memory
encode_row m = record m {
  valid_from = null_time m.valid_from;
  valid_until = null_time m.valid_until;
  observed_at = null_time m.observed_at;
  sediment_layer = sediment_layer_value m.sediment_layer;
}

-- `scanMemoryRow`: the layer is brought into its normal form once more
unfoldable pub scan_row : Memory → Memory
scan_row m = record m { sediment_layer = sediment_layer_value m.sediment_layer }

-- `insertMemoryRow`: the id is the primary key
unfoldable pub insert_memory_row : Memory → Dict Memory → Option (Dict Memory)
insert_memory_row m rows = if has m.id rows then none else some (insert m.id (encode_row m) rows)

unfoldable pub row_with_count : Memory → ℕ → Memory
unfolding encode_row
row_with_count m n = record (encode_row m) { targeted_access_count = n }

-- `updateMemoryRow`: all columns but targeted_access_count, of the row with this id if there is one
unfoldable pub update_memory_row : Memory → Dict Memory → Dict Memory
update_memory_row m rows = elim (lookup m.id rows) [
  | none ↦ rows
  | some old ↦ insert m.id (row_with_count m old.targeted_access_count) rows
]

-- an UPDATE of some columns of the row with an id
unfoldable pub change_row : String → (Memory → Memory) → Dict Memory → Dict Memory
change_row id f rows = elim (lookup id rows) [ none ↦ rows | some m ↦ insert id (f m) rows ]

pub sediment_layer_value_idem :
    (raw : String) → sediment_layer_value (sediment_layer_value raw) ≡ sediment_layer_value raw
unfolding sediment_layer_value
sediment_layer_value_idem raw = rw normalize_sediment_layer-layer_text

pub layer_or_default-sediment_layer_value :
    (raw : String) → layer_or_default (sediment_layer_value raw) ≡ layer_or_default raw
unfolding sediment_layer_value
layer_or_default-sediment_layer_value raw = rw normalize_sediment_layer-layer_text

-- ===== src/Memory/World.antt =====
-- What an operation of the store works on: the rows of the database, the cache, and what comes from
-- outside. An operation that holds `writeMu` throughout runs alone, so it is a function of the world.
pub mod Rows
pub mod Op
pub mod Sound
pub mod Prepares
pub mod Reading
pub mod Fields
pub mod Failing
pub mod Saving
pub mod Calm
use agent_memory_mcp.Base.{ℕ, String, Bool, Option, List}
use agent_memory_mcp.Dict.{Dict}
use agent_memory_mcp.Memory.Types.{Time, Memory}
use agent_memory_mcp.Memory.Cache.{Cache}

pub record Embedded : Type 0 where
  pub vector : List ℕ
  pub model : String

-- The parts that the source takes from elsewhere: the clock and the id generator by the number of the
-- call, the embedding provider (`embedder`, nil or a service that may refuse a text), the time format
-- RFC 3339, and the regular expressions of internal/secrets.
pub record Env : Type 0 where
  pub now : ℕ → Time
  pub new_id : ℕ → String
  pub embedder : Option (ℕ → String → Option Embedded)
  pub format_time : Time → String
  pub find_provider_token : String → Option String
  pub redact_note : String → String

-- `faults` says of each coming SQL call whether it fails; where the list ends, none does
pub record World : Type 0 where
  pub rows : Dict Memory
  pub cache : Cache
  pub faults : List Bool
  pub calls : ℕ

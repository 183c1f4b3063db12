-- ===== src/Memory/Store/Embedding.antt =====
-- embedwrite.go, and `checkSecrets` of write.go.
use agent_memory_mcp.Base.{
  ℕ, String, Bool, true, false, ◌&&◌, not, Option, none, some, List, [], ◌∷◌, leb, is_nil,
  if◌then◌else◌,
}
use agent_memory_mcp.Base.Int.{pos}
use agent_memory_mcp.Text.{rune_count}
use agent_memory_mcp.Textfmt.{truncate}
use agent_memory_mcp.Dict.{Dict, insert}
use agent_memory_mcp.Memory.Types.{
  Memory, Result, ok, err, secret_detected, key_embedding_truncated,
}
use agent_memory_mcp.Memory.Engineering.{is_review_queue}
use agent_memory_mcp.Memory.World.{Env, Embedded}
use agent_memory_mcp.Memory.World.Op.{Op, lift, ◌>>=◌, embed_detailed}

abbrev pub embed_retry_runes : ℕ
embed_retry_runes = 4000

-- a refusal of the whole text is followed by one try of its opening; the flag marks such a vector
abbrev pub retried : Option Embedded → Option (Embedded × Bool)
retried none = none
retried (some e) = some (e, true)

unfoldable pub embed_for_write :
    (ℕ → String → Option Embedded) → String → Op (Option (Embedded × Bool))
unfolding embed_detailed lift
embed_for_write provider text = do
  whole ← embed_detailed provider text
  elim whole [
    | some e ↦ lift (ok (some (e, false)))
    | none ↦ if leb (rune_count text) embed_retry_runes then lift (ok none) else (do
      prefix ← embed_detailed provider (truncate text (pos embed_retry_runes))
      lift (ok (retried prefix)))
  ]

unfoldable pub mark_embedding_truncated : Dict String → Dict String
mark_embedding_truncated metadata = insert key_embedding_truncated "true" metadata

-- the fields that a vector goes into
abbrev pub with_vector : Memory → Option (Embedded × Bool) → Memory
with_vector m none = m
with_vector m (some (e, truncated)) = record m {
  embedding = e.vector;
  embedding_model = e.model;
  metadata = if truncated then mark_embedding_truncated m.metadata else m.metadata;
}

-- the embedding of a new record, unless it has one, is a review-queue item, or there is no provider
unfoldable pub embed_new : Env → Memory → Op Memory
unfolding embed_for_write lift
embed_new env m = elim env.embedder [
  | none ↦ lift (ok m)
  | some provider ↦
      if is_nil m.embedding && not (is_review_queue m.metadata)
      then (do found ← embed_for_write provider m.content; lift (ok (with_vector m found)))
      else lift (ok m)
]

unfoldable pub first_token : (String → Option String) → List String → Option String
first_token find [] = none
first_token find (text ∷ texts) =
    let rest = first_token find texts in elim (find text) [ some name ↦ some name | none ↦ rest ]

-- the content that may be stored
unfoldable pub check_secrets : Env → String → List String → Result String
unfolding first_token
check_secrets env content fields = elim (first_token env.find_provider_token (content ∷ fields)) [
  | some name ↦ err (secret_detected name)
  | none ↦ ok (env.redact_note content)
]

-- ===== src/Memory/Store/Writes/Updating.antt =====
-- `Update` and `SetTemporalFields` keep cache and database in agreement.
use agent_memory_mcp.Base.{
  ℕ, String, ◌≡◌, refl, subst, Bool, true, false, Option, none, some, [], ◌∷◌, leb, if◌then◌else◌,
}
use agent_memory_mcp.Base.Int.{pos}
use agent_memory_mcp.Text.{trim_space, is_empty, rune_count}
use agent_memory_mcp.Textfmt.{truncate}
use agent_memory_mcp.Memory.Types.{Time, is_zero, Memory, ok}
use agent_memory_mcp.Memory.World.{Env, World, Embedded}
use agent_memory_mcp.Memory.World.Prepares.{
  PreparesAt, lift-Prepares, embed_detailed-Prepares, bind-Prepares,
}
use agent_memory_mcp.Memory.World.Saving.{Agrees, prepare-then}
use agent_memory_mcp.Memory.World.Op.{lift, embed_detailed, ◌>>=◌}
use agent_memory_mcp.Memory.World.Rows.{null_time}
use agent_memory_mcp.Memory.Store.Embedding.{
  embed_for_write, embed_retry_runes, retried, check_secrets,
}
use agent_memory_mcp.Memory.Store.Writes.{
  Update, EmbeddedContent, embed_update, update, prepare_temporal, set_temporal_fields, or_previous,
  with_temporal, embedded_content,
}
use agent_memory_mcp.Memory.Store.Writes.Agreement.{
  IsRevision, read-tick-Prepares, prepare-save-Agrees, update_locked-Agrees,
}

retry-Prepares :
    (provider : ℕ → String → Option Embedded) (text : String) (whole : Option Embedded)
    (short : Bool) (w : World)
    → PreparesAt
        (λ _ _. Unit)
        (elim whole [
          | some e ↦ lift (ok (some (e, false)))
          | none ↦ if short then lift (ok none) else (do
            prefix ← embed_detailed provider (truncate text (pos embed_retry_runes))
            lift (ok (retried prefix)))
        ])
        w
retry-Prepares provider text (some e) short w = lift-Prepares (ok (some (e, false))) w
retry-Prepares provider text none true w = lift-Prepares (ok none) w
retry-Prepares provider text none false w =
    let opening = truncate text (pos embed_retry_runes) in
    bind-Prepares (λ _ _. Unit) (embed_detailed provider opening)
      (λ prefix. lift (ok (retried prefix))) w (embed_detailed-Prepares provider opening w)
      (λ prefix w' _. lift-Prepares (ok (retried prefix)) w')

pub embed_for_write-Prepares :
    (provider : ℕ → String → Option Embedded) (text : String) (w : World)
    → PreparesAt (λ _ _. Unit) (embed_for_write provider text) w
unfolding embed_for_write
embed_for_write-Prepares provider text w =
    bind-Prepares (λ _ _. Unit) (embed_detailed provider text) _ w
      (embed_detailed-Prepares provider text w)
      (λ whole w' _.
        retry-Prepares provider text whole (leb (rune_count text) embed_retry_runes) w')

pub embed_update-Prepares :
    (env : Env) (raw : String) (w : World) → PreparesAt (λ _ _. Unit) (embed_update env raw) w
unfolding embed_update
embed_update-Prepares env raw w = split env.embedder (is_empty (trim_space raw))
  where
    split :
        (embedder : Option (ℕ → String → Option Embedded)) (empty : Bool)
        → PreparesAt {A = Option EmbeddedContent}
            (λ _ _. Unit)
            (elim embedder [
              | none ↦ lift (ok none)
              | some provider ↦ if empty then lift (ok none) else (do
                found ← embed_for_write provider (trim_space raw)
                lift (ok (some (embedded_content (trim_space raw) found))))
            ])
            w
    split none empty = lift-Prepares (ok none) w
    split (some provider) true = lift-Prepares (ok none) w
    split (some provider) false =
        bind-Prepares (λ _ _. Unit) (embed_for_write provider (trim_space raw))
          (λ found. lift (ok (some (embedded_content (trim_space raw) found)))) w
          (embed_for_write-Prepares provider (trim_space raw) w)
          (λ found w' _. lift-Prepares (ok (some (embedded_content (trim_space raw) found))) w')

-- a time that is given is not the zero time
abbrev IsGiven : Option Time → Type 0
IsGiven t = null_time t ≡ t

or_previous-IsGiven : (t old : Option Time) → IsGiven t → IsGiven old → IsGiven (or_previous t old)
or_previous-IsGiven none old p q = q
or_previous-IsGiven (some t) old p q = p

with_temporal-IsRevision :
    (valid_from valid_until : Option Time) (superseded_by replaces : String) (m : Memory)
    (now : Time)
    → IsGiven valid_from
    → IsGiven valid_until
    → IsRevision m (with_temporal valid_from valid_until superseded_by replaces m now)
with_temporal-IsRevision valid_from valid_until superseded_by replaces m now p q = record {
  id = refl;
  targeted = refl;
  valid_from = λ h. or_previous-IsGiven valid_from m.valid_from p h;
  valid_until = λ h. or_previous-IsGiven valid_until m.valid_until q h;
}

module _ (env : Env) (clock : (n : ℕ) → is_zero (env.now n) ≡ false) where
  -- `Update`, with its embedding before the lock and whatever fails, keeps cache and database in
  -- agreement, if the clock never reads the zero time.
  pub update-Agrees :
      (id : String) (u : Update) (w : World) → Agrees w → Agrees (update env id u w).1
  unfolding update
  update-Agrees id u w s =
      let checked = check_secrets env u.content (u.title ∷ u.context ∷ []) in
      prepare-then (λ _ _. Unit) (lift checked) _ w (lift-Prepares checked w) s
        (λ content w' _ s'.
          prepare-then (λ _ _. Unit) (embed_update env content) _ w'
            (embed_update-Prepares env content w') s'
            (λ embedded w'' _ s''.
              update_locked-Agrees env clock id (record u { content = content }) embedded w'' s''))

  -- `SetTemporalFields` keeps cache and database in agreement, if neither the clock reads the zero
  -- time nor a bound is the zero time.
  pub set_temporal_fields-Agrees :
      (id : String) (valid_from valid_until : Option Time) (superseded_by replaces : String)
      (w : World)
      → IsGiven valid_from
      → IsGiven valid_until
      → Agrees w
      → Agrees (set_temporal_fields env id valid_from valid_until superseded_by replaces w).1
  unfolding set_temporal_fields prepare_temporal
  set_temporal_fields-Agrees id valid_from valid_until superseded_by replaces w p q s =
      prepare-save-Agrees id (prepare_temporal env id valid_from valid_until superseded_by replaces)
        w
        (read-tick-Prepares env id
          (λ m now. ok (with_temporal valid_from valid_until superseded_by replaces m now)) w clock
          (λ m now v _ e.
            subst (IsRevision m) (cc)
              (with_temporal-IsRevision valid_from valid_until superseded_by replaces m now p q))
          s)
        s

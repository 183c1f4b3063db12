-- ===== src/Memory/Store/Writes/Calmly.antt =====
-- `Store` where no SQL call fails: cache and database agree afterwards, whether it stores or refuses.
use agent_memory_mcp.Base.{
  ◌≡◌, refl, sym, ap, subst, subst₂, ℕ, suc, String, Bool, true, false, ◌&&◌, not, Option, none,
  some, [], ◌∷◌, is_nil, leb, arith, eq_refl, if◌then◌else◌,
}
use agent_memory_mcp.Base.Int.{pos}
use agent_memory_mcp.Text.{rune_count}
use agent_memory_mcp.Textfmt.{truncate}
use agent_memory_mcp.Dict.{Dict, insert, has}
use agent_memory_mcp.Dict.Laws.{lookup-insert}
use agent_memory_mcp.Memory.Types.{Memory, Result, Error, ok, err, database}
use agent_memory_mcp.Memory.Validate.{validate}
use agent_memory_mcp.Memory.Engineering.{is_review_queue}
use agent_memory_mcp.Memory.World.{Env, Embedded, World}
use agent_memory_mcp.Memory.World.Op.{lift, continue, ◌>>=◌, fresh_id, embed_detailed, publish}
use agent_memory_mcp.Memory.World.Rows.{insert_memory_row, encode_row}
use agent_memory_mcp.Memory.Cache.{to_cached_memory, cache_set}
use agent_memory_mcp.Memory.World.Sound.{IsSound}
use agent_memory_mcp.Memory.World.Saving.{Agrees, sql-calm}
use agent_memory_mcp.Memory.World.Calm.{IsCalm, StaysCalm, IsFine, bind-StaysCalm, lift-StaysCalm}
use agent_memory_mcp.Memory.Store.Embedding.{
  embed_for_write, embed_new, with_vector, retried, check_secrets, embed_retry_runes,
}
use agent_memory_mcp.Memory.Store.Writes.{
  assign_id, inserted, insert_row, verify_persisted, insert_verified, prepare_store, store,
}
use agent_memory_mcp.Memory.Store.Writes.Storing.{
  IsStorable, store-IsStoredAs, prepare_store-Prepares,
}

embed_for_write-StaysCalm :
    (provider : ℕ → String → Option Embedded) (text : String) (w : World)
    → StaysCalm (embed_for_write provider text) w
unfolding embed_for_write embed_detailed lift
embed_for_write-StaysCalm provider text w c =
    split (provider w.calls text) (record w { calls = suc w.calls })
      (leb (rune_count text) embed_retry_runes) c
  where
    split :
        (whole : Option Embedded) (w' : World) (b : Bool)
        → StaysCalm {A = Option (Embedded × Bool)}
            (elim whole [
              | some e ↦ lift (ok (some (e, false)))
              | none ↦ if b then lift (ok none) else (do
                prefix ← embed_detailed provider (truncate text (pos embed_retry_runes))
                lift (ok (retried prefix)))
            ])
            w'
    split (some e) w' b c = c
    split none w' true c = c
    split none w' false c = c

embed_new-StaysCalm : (env : Env) (m : Memory) (w : World) → StaysCalm (embed_new env m) w
unfolding embed_new lift
embed_new-StaysCalm env m w =
    split env.embedder (is_nil m.embedding && not (is_review_queue m.metadata))
  where
    split :
        (embedder : Option (ℕ → String → Option Embedded)) (wanted : Bool)
        → StaysCalm
            (elim embedder [
              | none ↦ lift (ok m)
              | some provider ↦
                  if wanted
                  then (do
                    found ← embed_for_write provider m.content
                    lift (ok (with_vector m found)))
                  else lift (ok m)
            ])
            w
    split none wanted c = c
    split (some provider) false c = c
    split (some provider) true c =
        bind-StaysCalm (embed_for_write provider m.content) _ w
          (embed_for_write-StaysCalm provider m.content w) (λ found w' c. c) c

assign_id-StaysCalm : (env : Env) (m : Memory) (w : World) → StaysCalm (assign_id env m) w
unfolding fresh_id lift
assign_id-StaysCalm env m w c = ground (arith, c)

prepare_store-StaysCalm : (env : Env) (m : Memory) (w : World) → StaysCalm (prepare_store env m) w
unfolding prepare_store
prepare_store-StaysCalm env m w =
    bind-StaysCalm (lift (validate m)) _ w (lift-StaysCalm (validate m) w) (λ valid w1.
      bind-StaysCalm (lift (check_secrets env valid.content (valid.title ∷ valid.context ∷ []))) _
        w1 (lift-StaysCalm (check_secrets env valid.content (valid.title ∷ valid.context ∷ [])) w1)
        (λ content w2.
          bind-StaysCalm (embed_new env (record valid { content = content })) _ w2
            (embed_new-StaysCalm env (record valid { content = content }) w2)
            (λ embedded w3.
              bind-StaysCalm (assign_id env embedded) _ w3 (assign_id-StaysCalm env embedded w3)
                (λ named w4 c. c))))

-- with no failing call, only a taken id stops it
abbrev verified_or_taken : Memory → World → Bool → Result Memory × World
verified_or_taken m w true = (err database, w)
verified_or_taken m w false = (
  ok m,
  record w {
    rows = insert m.id (encode_row m) w.rows;
    cache = cache_set (to_cached_memory m) w.cache;
  },
)

insert_row_calm :
    (m : Memory) (w : World)
    → IsCalm w
    → insert_row m w ≡ (
        if has m.id w.rows
        then (err database, w)
        else (ok tt, record w { rows = insert m.id (encode_row m) w.rows }))
unfolding insert_row insert_memory_row
insert_row_calm m w c = rw (sql-calm w c) (split (has m.id w.rows))
  where
    split :
        (b : Bool)
        → inserted (if b then none else some (insert m.id (encode_row m) w.rows)) w ≡ (
            if b
            then (err database, w)
            else (ok tt, record w { rows = insert m.id (encode_row m) w.rows }))
    split true = refl
    split false = refl

verify_persisted_calm :
    (id : String) (w : World) → IsCalm w → has id w.rows ≡ true → verify_persisted id w ≡ (ok tt, w)
unfolding verify_persisted
verify_persisted_calm id w c h = rw (sql-calm w c, h) refl

has-insert : (k : String) (x : Memory) (rows : Dict Memory) → has k (insert k x rows) ≡ true
unfolding has
has-insert k x rows = ground (arith, lookup-insert k k x rows, eq_refl k)

insert_verified_calm :
    (m : Memory) (w : World)
    → IsCalm w
    → insert_verified m w ≡ verified_or_taken m w (has m.id w.rows)
unfolding insert_verified publish lift
insert_verified_calm m w c = split (has m.id w.rows) (insert_row_calm m w c)
  where
    split :
        (b : Bool)
        → insert_row m w ≡ (
            if b
            then (err database, w)
            else (ok tt, record w { rows = insert m.id (encode_row m) w.rows }))
        → insert_verified m w ≡ verified_or_taken m w b
    split true e = rw (e, insert_verified) refl
    split false e =
        let w' = record w { rows = insert m.id (encode_row m) w.rows } in
        rw (e, insert_verified)
          (rw (verify_persisted_calm m.id w' c (has-insert m.id (encode_row m) w.rows)) refl)

insert_verified-StaysCalm : (m : Memory) (w : World) → StaysCalm (insert_verified m) w
insert_verified-StaysCalm m w c = rw (insert_verified_calm m w c) (split (has m.id w.rows))
  where
    split : (b : Bool) → IsCalm (verified_or_taken m w b).1
    split true = c
    split false = c

insert_verified_refuses :
    (m : Memory) (w : World) (e : Error)
    → IsCalm w
    → Agrees w
    → (insert_verified m w).0 ≡ err e
    → Agrees (insert_verified m w).1
insert_verified_refuses m w e c s h = split (has m.id w.rows) (insert_verified_calm m w c)
  where
    split :
        (b : Bool) → insert_verified m w ≡ verified_or_taken m w b → Agrees (insert_verified m w).1
    split true k = subst (λ (r : Result Memory × World). Agrees r.1) (sym k) s
    split false k = absurd (cc (h, ap (λ (r : Result Memory × World). r.0) k))

-- Where cache and database agree and no SQL call fails, `Store` leaves both in agreement, whether it stores or refuses.
pub store-IsFine :
    (env : Env) (m : Memory) (w : World) → IsStorable m → IsFine w → IsFine (store env m w).1
unfolding store
store-IsFine env m w q (s, c) = split (store env m w).0 refl
  where
    unchanged : Agrees (prepare_store env m w).1
    unchanged =
        let p = prepare_store-Prepares env m w q in subst₂ IsSound (sym p.rows) (sym p.cache) s

    prepared : IsCalm (prepare_store env m w).1
    prepared = prepare_store-StaysCalm env m w c

    calm : IsCalm (store env m w).1
    calm =
        bind-StaysCalm (prepare_store env m) insert_verified w (λ _. prepared)
          insert_verified-StaysCalm c

    refused :
        (r : Result Memory) (e : Error)
        → (continue r insert_verified (prepare_store env m w).1).0 ≡ err e
        → Agrees (continue r insert_verified (prepare_store env m w).1).1
    refused (err x) e h = unchanged
    refused (ok v) e h = insert_verified_refuses v (prepare_store env m w).1 e prepared unchanged h

    split : (r : Result Memory) → (store env m w).0 ≡ r → IsFine (store env m w).1
    split (ok v) e = ((store-IsStoredAs env m w q s e).1, calm)
    split (err x) e = (refused (prepare_store env m w).0 x e, calm)

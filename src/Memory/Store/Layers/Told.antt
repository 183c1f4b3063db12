-- ===== src/Memory/Store/Layers/Told.antt =====
-- What a promotion or a demotion of a layer answers is true of the rows.
use agent_memory_mcp.Base.{
  suc, String, ◌≡◌, refl, sym, ap, subst, subst₂, ◌∙◌, Bool, true, false, some, arith, eq_iff, not,
  ◌⊎◌, Bool-cases, inl, inr, Option-cases,
}
use agent_memory_mcp.Dict.{Dict, lookup}
use agent_memory_mcp.Memory.Types.{Memory, Result, ok, err}
use agent_memory_mcp.Memory.Sediment.{
  SedimentLayer, surface, normalize_sediment_layer, layer_or_default,
}
use agent_memory_mcp.Memory.Sediment.Ladder.{
  rank, demote_one_step-rank, normalize_sediment_layer-layer_text,
}
use agent_memory_mcp.Memory.World.{Env, World}
use agent_memory_mcp.Memory.World.Rows.{scan_row, layer_or_default-sediment_layer_value}
use agent_memory_mcp.Memory.World.Fields.{lookup-change_row}
use agent_memory_mcp.Memory.World.Prepares.{get-Prepares, IsRead}
use agent_memory_mcp.Memory.World.Saving.{bind-ok, sql-cases}
use agent_memory_mcp.Memory.World.Op.{Op, lift, continue, get, tick, ◌>>=◌}
use agent_memory_mcp.Memory.Store.Layers.{
  LayerResult, layer_result, same_layer, with_layer, cached_with_layer, update_layer, move_layer,
  promote_from, promote_sediment, demote_from, demote_sediment,
}

-- the layer that the row of an id is in
abbrev pub IsStoredIn : String → SedimentLayer → Dict Memory → Type 0
IsStoredIn id l rows =
    (m : Memory) × (lookup id rows ≡ some m) × (layer_or_default m.sediment_layer ≡ l)

move_layer-IsStoredIn :
    (env : Env) (id : String) (from l : SedimentLayer) (w : World)
    → IsStoredIn id from w.rows
    → (move_layer env id l w).0 ≡ ok tt
    → IsStoredIn id l (move_layer env id l w).1.rows
unfolding move_layer tick update_layer
move_layer-IsStoredIn env id from l w (m, e, f) h =
    elim (sql-cases (record w { calls = suc w.calls })) [
      | inl (faults, k) ↦ rw k (
        with_layer l (env.now w.calls) m,
        ground (
          arith,
          lookup-change_row id (with_layer l (env.now w.calls))
              (cached_with_layer l (env.now w.calls)) id w.rows m e,
          eq_iff id id,
        ),
        rw normalize_sediment_layer-layer_text refl,
      )
      | inr (faults, k) ↦ absurd (cc (rw k at h))
    ]

read-IsStoredIn :
    (id : String) (rows : Dict Memory) (m : Memory)
    → IsRead id rows m
    → IsStoredIn id (layer_or_default m.sediment_layer) rows
unfolding scan_row
read-IsStoredIn id rows m (old, e, r) =
    (old, e, rw r (sym (layer_or_default-sediment_layer_value old.sediment_layer)))

same_layer_lem : (k l : SedimentLayer) → same_layer k l ≡ true → k ≡ l
same_layer_lem k l e = ground arith

-- what a move answers is true of the rows after it
abbrev pub IsTold : String → Dict Memory → LayerResult → Dict Memory → Type 0
IsTold id before r after =
    (r.id ≡ id)
    × IsStoredIn id r.from before
    × IsStoredIn id r.to after
    × (r.affected ≡ not (same_layer r.from r.to))

module _ (id : String) (before : Dict Memory) (from l : SedimentLayer)
    (s : IsStoredIn id from before) (R : LayerResult → Type 0) where
  abbrev answer : LayerResult
  answer = layer_result id from l (not (same_layer from l))

  answer-IsTold :
      (after : Dict Memory) {r : LayerResult}
      → R answer
      → IsStoredIn id l after
      → ok answer ≡ ok r
      → IsTold id before r after × R r
  answer-IsTold after {r} q t e =
      subst (λ x. IsTold id before x after × R x) {x = answer} (cc) ((refl, s, t, refl), q)

  moved-IsTold :
      (p : Result (Unit {0})) (w : World) {r : LayerResult}
      → R answer
      → (p ≡ ok tt → IsStoredIn id l w.rows)
      → (continue p (λ _. lift (ok answer)) w).0 ≡ ok r
      → IsTold id before r (continue p (λ _. lift (ok answer)) w).1.rows × R r
  unfolding lift
  moved-IsTold (ok u) w q t h = answer-IsTold w.rows q (t refl) h
  moved-IsTold (err e) w q t h = absurd (cc)

move-IsTold :
    (env : Env) (id : String) (from l : SedimentLayer) (b : Bool) (R : LayerResult → Type 0)
    (w : World) {r : LayerResult}
    → R (layer_result id from l (not (same_layer from l)))
    → b ≡ not (same_layer from l)
    → IsStoredIn id from w.rows
    → ((move_layer env id l >>= λ _. lift (ok (layer_result id from l b))) w).0 ≡ ok r
    → IsTold id w.rows r
        ((move_layer env id l >>= λ _. lift (ok (layer_result id from l b))) w).1.rows
      × R r
move-IsTold env id from l b R w {r} q e s h = rw e (
    moved-IsTold id w.rows from l s R (move_layer env id l w).0 (move_layer env id l w).1 q
      (move_layer-IsStoredIn env id from l w s) (rw e at h))

promote_from-IsTold :
    (env : Env) (id : String) (from target : SedimentLayer) (w : World) {r : LayerResult}
    → IsStoredIn id from w.rows
    → (promote_from env id from target w).0 ≡ ok r
    → IsTold id w.rows r (promote_from env id from target w).1.rows × (r.to ≡ target)
unfolding promote_from lift
promote_from-IsTold env id from target w {r} s h = elim (Bool-cases (same_layer from target)) [
  | inl e ↦
      rw (e, promote_from)
        (answer-IsTold id w.rows from target s (λ r. r.to ≡ target) w.rows refl
          (subst (λ l. IsStoredIn id l w.rows) (same_layer_lem from target e) s)
          (rw e (rw (e, promote_from) at h)))
  | inr e ↦
      rw (e, promote_from)
        (move-IsTold env id from target true (λ r. r.to ≡ target) w refl (rw e) s
          (rw (e, promote_from) at h))
]

-- a move of the layer that is read
read-IsTold :
    (id : String) (R : LayerResult → Type 0) (f : SedimentLayer → Op LayerResult) (w : World)
    {r : LayerResult}
    → ((from : SedimentLayer) (w' : World)
        → IsStoredIn id from w'.rows
        → (f from w').0 ≡ ok r
        → IsTold id w'.rows r (f from w').1.rows × R r)
    → ((get id >>= λ m. f (layer_or_default m.sediment_layer)) w).0 ≡ ok r
    → IsTold id w.rows r ((get id >>= λ m. f (layer_or_default m.sediment_layer)) w).1.rows × R r
read-IsTold id R f w {r} told h =
    let go = λ (m : Memory). f (layer_or_default m.sediment_layer) in
    let (m, m_is, k) = bind-ok (get id) go w h in
    let p = get-Prepares id w in
    let known =
      subst (IsStoredIn id (layer_or_default m.sediment_layer)) (sym p.rows)
        (read-IsStoredIn id w.rows m (p.result m m_is)) in
    subst₂
      (λ (before : Dict Memory) (out : Result LayerResult × World).
        IsTold id before r out.1.rows × R r)
      p.rows (sym k)
      (told (layer_or_default m.sediment_layer) (get id w).1 known (ap (λ x. x.0) (sym k) ∙ h))

-- A promotion that answers names a layer that exists, and tells the truth: where the row was, where it
-- is now, that this is the layer asked for, and whether it moved.
pub promote_sediment-IsTold :
    (env : Env) (id target : String) (w : World) {r : LayerResult}
    → (promote_sediment env id target w).0 ≡ ok r
    → IsTold id w.rows r (promote_sediment env id target w).1.rows
      × (normalize_sediment_layer target ≡ some r.to)
unfolding promote_sediment lift
promote_sediment-IsTold env id target w {r} h =
    elim (Option-cases (normalize_sediment_layer target)) [
      | inl e ↦ absurd (cc (rw (e, promote_sediment) at h))
      | inr (l, e) ↦
          let t =
            read-IsTold id (λ r. r.to ≡ l) (λ from. promote_from env id from l) w {r = r}
              (λ from w'. promote_from-IsTold env id from l w') (rw (e, promote_sediment) at h) in
          rw (e, promote_sediment) (t.0, ap some (sym t.1))
    ]

-- what a demotion may answer
abbrev pub IsDemoted : LayerResult → Type 0
IsDemoted r = ((r.from ≡ surface) × (r.to ≡ surface)) ⊎ (suc (rank r.to) ≡ rank r.from)

one_step-differs : (k l : SedimentLayer) → suc (rank k) ≡ rank l → same_layer l k ≡ false
one_step-differs k l e = ground arith

same_layer_refl : (l : SedimentLayer) → same_layer l l ≡ true
same_layer_refl l = ground arith

demote_from-IsTold :
    (env : Env) (id : String) (from : SedimentLayer) (w : World) {r : LayerResult}
    → IsStoredIn id from w.rows
    → (demote_from env id from w).0 ≡ ok r
    → IsTold id w.rows r (demote_from env id from w).1.rows × IsDemoted r
unfolding demote_from lift
demote_from-IsTold env id from w {r} s h = elim (demote_one_step-rank from) [
  | inl (e, at_surface) ↦
      rw (e, demote_from)
        (answer-IsTold id w.rows from from s IsDemoted w.rows (inl (at_surface, at_surface)) s
          (rw (same_layer_refl from) (rw (e, demote_from) at h)))
  | inr (l, e, k) ↦
      rw (e, demote_from)
        (move-IsTold env id from l true IsDemoted w (inr k) (rw (one_step-differs l from k)) s
          (rw (e, demote_from) at h))
]

-- A demotion that answers tells the truth about the row, and has taken it down by exactly one layer,
-- or left it at the surface.
pub demote_sediment-IsTold :
    (env : Env) (id : String) (w : World) {r : LayerResult}
    → (demote_sediment env id w).0 ≡ ok r
    → IsTold id w.rows r (demote_sediment env id w).1.rows × IsDemoted r
unfolding demote_sediment
demote_sediment-IsTold env id w {r} h =
    read-IsTold id IsDemoted (demote_from env id) w {r = r}
      (λ from w'. demote_from-IsTold env id from w') h

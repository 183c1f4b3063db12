-- ===== src/Memory/Sediment/Ladder.antt =====
-- The ladder of layers: each proposal and each demotion is one step, and the names round trip.
use agent_memory_mcp.Base.{ℕ, suc, ◌≡◌, refl, false, ◌⊎◌, none, some, arith, inl, inr, Bool-cases}
use agent_memory_mcp.Memory.Types.{Time, Memory}
use agent_memory_mcp.Memory.Engineering.{is_review_queue}
use agent_memory_mcp.Memory.Sediment.{
  SedimentLayer, surface, episodic, semantic, character, layer_text, normalize_sediment_layer,
  layer_or_default, SedimentTransition, SedimentPolicy, defaults_applied, decide, decide_layer,
  demote_one_step,
}

-- the height of a layer
abbrev pub rank : SedimentLayer → ℕ
rank surface = 0
rank episodic = 1
rank semantic = 2
rank character = 3

-- one step up, or the step of decay
abbrev pub IsStep : SedimentTransition → Type 0
IsStep tr = (rank tr.to ≡ suc (rank tr.from)) ⊎ ((tr.from ≡ character) × (tr.to ≡ semantic))

decide_layer-IsStep :
    (l : SedimentLayer) (m : Memory) (p : SedimentPolicy) (now : Time) (tr : SedimentTransition)
    → decide_layer l m p now ≡ some tr
    → IsStep tr × (tr.from ≡ l) × (tr.memory_id ≡ m.id) × ((tr.auto ≡ false) ⊎ (l ≡ surface))
decide_layer-IsStep surface m p now tr h = ground arith
decide_layer-IsStep episodic m p now tr h = ground arith
decide_layer-IsStep semantic m p now tr h = ground arith
decide_layer-IsStep character m p now tr h = ground arith

-- A proposal of `Decide` starts at the record's layer, names the record, is one step up or the decay
-- from character to semantic, and is automatic only at the surface.
pub decide-IsStep :
    (m : Memory) (p : SedimentPolicy) (now : Time) (tr : SedimentTransition)
    → decide m p now ≡ some tr
    → IsStep tr
      × (tr.from ≡ layer_or_default m.sediment_layer)
      × (tr.memory_id ≡ m.id)
      × ((tr.auto ≡ false) ⊎ (layer_or_default m.sediment_layer ≡ surface))
unfolding decide
decide-IsStep m p now tr h = elim (Bool-cases (is_review_queue m.metadata)) [
  | inl e ↦ absurd (ground arith)
  | inr e ↦
      decide_layer-IsStep (layer_or_default m.sediment_layer) m (defaults_applied p) now tr
        (rw e at h)
]

-- A demotion goes down by one, and only the surface has none.
pub demote_one_step-rank :
    (l : SedimentLayer)
    → ((demote_one_step l ≡ none) × (l ≡ surface))
      ⊎ ((k : SedimentLayer) × (demote_one_step l ≡ some k) × (suc (rank k) ≡ rank l))
unfolding demote_one_step
demote_one_step-rank surface = inl (refl, refl)
demote_one_step-rank episodic = inr (surface, refl, refl)
demote_one_step-rank semantic = inr (episodic, refl, refl)
demote_one_step-rank character = inr (semantic, refl, refl)

-- The stored text of a layer is read back as that layer.
pub normalize_sediment_layer-layer_text :
    (l : SedimentLayer) → normalize_sediment_layer (layer_text l) ≡ some l
unfolding normalize_sediment_layer agent_memory_mcp.Text.to_lower agent_memory_mcp.Text.trim_space
normalize_sediment_layer-layer_text surface = refl
normalize_sediment_layer-layer_text episodic = refl
normalize_sediment_layer-layer_text semantic = refl
normalize_sediment_layer-layer_text character = refl

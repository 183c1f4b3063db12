-- ===== src/Memory/Trust/Confidence.antt =====
-- How far confidence goes, and what moves it.
use agent_memory_mcp.Base.{ℕ, ◌≤◌, String, Bool, true, false, ◌==◌, arith}
use agent_memory_mcp.Memory.Engineering.{
  LifecycleStatus, draft, active, outdated, superseded, canonical,
}
use agent_memory_mcp.Memory.Trust.{
  clamp_confidence, confidence_for_memory, base_confidence, adjusted, has_owner,
}

-- every source has a confidence of its own
base_confidence-Bounds : (s : String) → (55 ≤ base_confidence s) × (base_confidence s ≤ 90)
base_confidence-Bounds s = ground arith

clamp_confidence_lem : (c : ℕ) → 29 ≤ c → (29 ≤ clamp_confidence c) × (clamp_confidence c ≤ 99)
unfolding clamp_confidence
clamp_confidence_lem c h = ground arith

clamp_confidence_mono : (a b : ℕ) → a ≤ b → clamp_confidence a ≤ clamp_confidence b
unfolding clamp_confidence
clamp_confidence_mono a b h = ground arith

adjusted_low :
    (l : LifecycleStatus) (layered review owned : Bool) (base : ℕ)
    → 55 ≤ base
    → 29 ≤ adjusted l layered review owned base
adjusted_low draft layered review owned base h = ground arith
adjusted_low active layered review owned base h = ground arith
adjusted_low outdated layered review owned base h = ground arith
adjusted_low superseded layered review owned base h = ground arith
adjusted_low canonical layered review owned base h = ground arith

-- Confidence always lies from 0.29 to 0.99: the lower bound of the clamp, 0.20, is never needed.
pub confidence_for_memory-Bounds :
    (source_type : String) (lifecycle : LifecycleStatus) (owner layer : String) (review : Bool)
    → (29 ≤ confidence_for_memory source_type lifecycle owner layer review)
      × (confidence_for_memory source_type lifecycle owner layer review ≤ 99)
unfolding confidence_for_memory
confidence_for_memory-Bounds source_type lifecycle owner layer review = clamp_confidence_lem _ (
    adjusted_low lifecycle (layer == "canonical") review (has_owner owner)
      (base_confidence source_type) (base_confidence-Bounds source_type).0)

-- how far a state of the lifecycle is from retirement
abbrev pub standing : LifecycleStatus → ℕ
standing superseded = 0
standing outdated = 1
standing draft = 2
standing active = 3
standing canonical = 4

adjusted_mono :
    (k l : LifecycleStatus) (layered review owned : Bool) (base : ℕ)
    → 55 ≤ base
    → (standing l ≤ 3)
    → standing k ≤ standing l
    → adjusted k layered review owned base ≤ adjusted l layered review owned base
adjusted_mono k l layered review owned base h c o = ground arith

adjusted_review :
    (l : LifecycleStatus) (layered owned : Bool) (base : ℕ)
    → adjusted l layered true owned base ≤ adjusted l layered false owned base
adjusted_review l layered owned base = ground arith

-- Up to active, a record that is further from retirement is trusted at least as much as one with the
-- same source, owner, layer and review flag; and a pending review never raises the confidence.
pub confidence_for_memory-IsMonotone :
    (source_type : String) (k l : LifecycleStatus) (owner layer : String) (review : Bool)
    → standing l ≤ 3
    → standing k ≤ standing l
    → (confidence_for_memory source_type k owner layer review
        ≤ confidence_for_memory source_type l owner layer review)
      × (confidence_for_memory source_type l owner layer true
          ≤ confidence_for_memory source_type l owner layer false)
unfolding confidence_for_memory
confidence_for_memory-IsMonotone source_type k l owner layer review c o =
    let base = base_confidence source_type in
    (
      clamp_confidence_mono _ _ (
          adjusted_mono k l (layer == "canonical") review (has_owner owner) base
            (base_confidence-Bounds source_type).0 c o),
      clamp_confidence_mono _ _ (adjusted_review l (layer == "canonical") (has_owner owner) base),
    )

-- In the canonical layer, a canonical record is trusted no more than an active one.
pub confidence_for_memory_in_canonical_layer :
    (source_type owner : String) (review : Bool)
    → confidence_for_memory source_type canonical owner "canonical" review
      ≤ confidence_for_memory source_type active owner "canonical" review
unfolding confidence_for_memory
confidence_for_memory_in_canonical_layer source_type owner review =
    clamp_confidence_mono _ _ (layered_lem review (has_owner owner) (base_confidence source_type))
  where
    layered_lem :
        (review owned : Bool) (base : ℕ)
        → adjusted canonical true review owned base ≤ adjusted active true review owned base
    layered_lem review owned base = ground arith

-- ===== src/Memory/Reading/Meeting.antt =====
-- The filters, said of rows.
use agent_memory_mcp.Base.{
  ℕ, ◌≤◌, String, ◌≡◌, refl, Bool, true, false, not, ◌&&◌, ◌⊎◌, List, [], ◌∷◌, ◌==◌, is_nil, ltb,
  eq_iff, arith, if◌then◌else◌, inl, inr,
}
use agent_memory_mcp.Base.Int.{ℤ, pos, ltbℤ, ◌≤ℤ◌}
use agent_memory_mcp.Text.{is_empty}
use agent_memory_mcp.Text.Laws.{is_empty_iff}
use agent_memory_mcp.Memory.Types.{Memory, is_zero}
use agent_memory_mcp.Memory.Cache.{to_cached_memory}
use agent_memory_mcp.Memory.World.Rows.{scan_row}
use agent_memory_mcp.Memory.Reading.{Filters, matches, shares_tag}

-- the rows that a query asks for
pub record Meets (f : Filters) (m : Memory) : Type 0 where
  pub type : (f.type ≡ "") ⊎ (m.type ≡ f.type)
  pub context : (f.context ≡ "") ⊎ (m.context ≡ f.context)
  pub importance : (f.min_importance ≤ℤ pos 0) ⊎ (f.min_importance ≤ℤ m.importance)
  pub since : (f.since ≡ 0) ⊎ (f.since ≤ m.created_at)
  pub tags : (f.tags ≡ []) ⊎ (shares_tag f.tags m.tags ≡ true)

-- a test that was passed
passed : (g x : Bool) → (if g then false else x) ≡ true → (g ≡ false) × (x ≡ true)
passed g x h = ground arith

same_text :
    (wanted held : String)
    → not (is_empty wanted) && not (held == wanted) ≡ false
    → (wanted ≡ "") ⊎ (held ≡ wanted)
same_text wanted held h = ground (arith, is_empty_iff wanted, eq_iff held wanted)

same_text_iff :
    (wanted held : String)
    → (wanted ≡ "") ⊎ (held ≡ wanted)
    → not (is_empty wanted) && not (held == wanted) ≡ false
same_text_iff wanted held (inl e) = rw e refl
same_text_iff wanted held (inr e) = ground (arith, eq_iff held wanted)

important :
    (least held : ℤ)
    → ltbℤ (pos 0) least && ltbℤ held least ≡ false
    → (least ≤ℤ pos 0) ⊎ (least ≤ℤ held)
important least held h = ground (arith)

important_iff :
    (least held : ℤ)
    → (least ≤ℤ pos 0) ⊎ (least ≤ℤ held)
    → ltbℤ (pos 0) least && ltbℤ held least ≡ false
important_iff least held h = ground (arith)

recent :
    (least held : ℕ) → not (is_zero least) && ltb held least ≡ false → (least ≡ 0) ⊎ (least ≤ held)
recent least held h = ground (arith)

recent_iff :
    (least held : ℕ) → (least ≡ 0) ⊎ (least ≤ held) → not (is_zero least) && ltb held least ≡ false
recent_iff least held h = ground (arith)

tagged :
    (wanted held : List String)
    → (if is_nil wanted then true else shares_tag wanted held) ≡ true
    → (wanted ≡ []) ⊎ (shares_tag wanted held ≡ true)
tagged [] held h = inl refl
tagged (t ∷ ts) held h = inr h

tagged_iff :
    (wanted held : List String)
    → (wanted ≡ []) ⊎ (shares_tag wanted held ≡ true)
    → (if is_nil wanted then true else shares_tag wanted held) ≡ true
tagged_iff [] held h = refl
tagged_iff (t ∷ ts) held (inl e) = absurd (cc)
tagged_iff (t ∷ ts) held (inr h) = h

pub matches-Meets :
    (f : Filters) (m : Memory) → matches f (to_cached_memory (scan_row m)) ≡ true → Meets f m
unfolding matches to_cached_memory scan_row
matches-Meets f m h =
    let (a, h1) = passed _ _ h in
    let (b, h2) = passed _ _ h1 in
    let (c, h3) = passed _ _ h2 in
    let (d, h4) = passed _ _ h3 in
    record {
      type = same_text f.type m.type a;
      context = same_text f.context m.context b;
      importance = important f.min_importance m.importance c;
      since = recent f.since m.created_at d;
      tags = tagged f.tags m.tags h4;
    }

pub Meets-matches :
    (f : Filters) (m : Memory) → Meets f m → matches f (to_cached_memory (scan_row m)) ≡ true
unfolding matches to_cached_memory scan_row
Meets-matches f m h =
    rw
      (
        same_text_iff f.type m.type h.type,
        same_text_iff f.context m.context h.context,
        important_iff f.min_importance m.importance h.importance,
        recent_iff f.since m.created_at h.since,
      )
      (tagged_iff f.tags m.tags h.tags)

-- ===== src/Memory/ActivityLog/Widening.antt =====
-- The write boundary refuses less than what semantic selection leaves out.
use agent_memory_mcp.Base.{String, ◌≡◌, Bool, true, false, List, [], ◌∷◌, arith}
use agent_memory_mcp.Text.{trim_space, split}
use agent_memory_mcp.Memory.ActivityLog.{
  activity_log_labels, selection_only_activity_labels, is_known_bullet, bullets_within,
  is_activity_log_only, is_activity_log_for_selection,
}

module _ (first second : List String) where
  is_known_bullet_wider :
      (line : String)
      → is_known_bullet (first ∷ []) line ≡ true
      → is_known_bullet (first ∷ second ∷ []) line ≡ true
  unfolding is_known_bullet
  is_known_bullet_wider line h = ground arith

  bullets_within_wider :
      (saw : Bool) (lines : List String)
      → bullets_within (first ∷ []) saw lines ≡ true
      → bullets_within (first ∷ second ∷ []) saw lines ≡ true
  unfolding bullets_within
  bullets_within_wider saw [] h = h
  bullets_within_wider saw (line ∷ lines) h = ground (
    arith,
    is_known_bullet_wider (trim_space line),
    bullets_within_wider saw lines,
    bullets_within_wider true lines,
  )

-- A body that is an activity log for the write boundary, which refuses it, is left out of semantic selection too.
pub is_activity_log_only-selection :
    (body : String) → is_activity_log_only body ≡ true → is_activity_log_for_selection body ≡ true
unfolding is_activity_log_only is_activity_log_for_selection
is_activity_log_only-selection body h =
    bullets_within_wider activity_log_labels selection_only_activity_labels false (split 10 body) h

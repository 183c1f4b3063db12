-- ===== src/Memory/ActivityLog.antt =====
-- activitylog.go: bodies that are nothing but bullets of what the agent did.
pub mod Widening
use agent_memory_mcp.Base.{
  String, Bool, true, false, ◌&&◌, ◌||◌, Option, none, some, List, [], ◌∷◌, ◌++◌, ◌==◌,
  if◌then◌else◌,
}
use agent_memory_mcp.Text.{trim_space, to_lower, is_empty, cut_prefix, before, split}
use agent_memory_mcp.Memory.Engineering.{one_of}

abbrev pub activity_log_labels : List String
activity_log_labels =
    "document search" ∷ "memory recall" ∷ "repo search" ∷ "inspected file" ∷ "merged duplicates"
    ∷ "marked outdated" ∷ "project bank review" ∷ "promoted canonical" ∷ "runbook search"
    ∷ "listed repo path" ∷ []

abbrev pub selection_only_activity_labels : List String
selection_only_activity_labels = "incident investigation" ∷ []

abbrev bullet_rest : String → Option String
bullet_rest line = elim (cut_prefix line "- ") [
  | some rest ↦ some rest
  | none ↦ cut_prefix line "* "
]

abbrev label_of : Option String → Option String
label_of none = none
label_of (some label) = if is_empty label then none else some (to_lower (trim_space label))

-- the label of a "- Label: value" line, in lower case
unfoldable pub activity_bullet_label : String → Option String
activity_bullet_label line = elim (bullet_rest line) [
  | none ↦ none
  | some rest ↦ label_of (before b':' rest)
]

abbrev pub known_label : List (List String) → String → Bool
known_label [] label = false
known_label (set ∷ sets) label = one_of label set || known_label sets label

-- a line that is a bullet with a known label
unfoldable pub is_known_bullet : List (List String) → String → Bool
is_known_bullet sets line = elim (activity_bullet_label line) [
  | none ↦ false
  | some label ↦ known_label sets label
]

-- the loop over the lines
unfoldable pub bullets_within : List (List String) → Bool → List String → Bool
bullets_within sets saw_bullet [] = saw_bullet
bullets_within sets saw_bullet (raw ∷ lines) =
    let line = trim_space raw in
    let skipped = bullets_within sets saw_bullet lines in
    let counted = bullets_within sets true lines in
    if is_empty line then skipped else if is_known_bullet sets line then counted else false

unfoldable pub all_bullets_within : String → List (List String) → Bool
unfolding bullets_within
all_bullets_within body sets = bullets_within sets false (split 10 body)

unfoldable pub is_activity_log_only : String → Bool
unfolding all_bullets_within
is_activity_log_only body = all_bullets_within body (activity_log_labels ∷ [])

unfoldable pub is_activity_log_for_selection : String → Bool
unfolding all_bullets_within
is_activity_log_for_selection body =
    all_bullets_within body (activity_log_labels ∷ selection_only_activity_labels ∷ [])

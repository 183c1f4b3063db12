-- ===== src/Lifecycle/ArchiveSweep/Roots.antt =====
-- archive_sweep.go: `EndTask` and `SweepArchive`, over the roots of the archive.
use agent_memory_mcp.Base.{
  String, ◌≡◌, refl, sym, subst, inl, inr, arith, Bool-cases, Bool, true, false, ◌||◌, Option, none,
  some, List, [], ◌∷◌, ◌==◌, any, is_nil, if◌then◌else◌,
}
use agent_memory_mcp.Text.{trim_space, is_empty, take_runes}
use agent_memory_mcp.Text.Laws.{trim_space_idem}
use agent_memory_mcp.Memory.World.{World}
use agent_memory_mcp.Lifecycle.ArchiveSweep.{Entry, SweepEnv, ArchiveSweepConfig, apply_defaults}
use agent_memory_mcp.Lifecycle.ArchiveSweep.Slugs.{
  SweepState, SweepError, no_roots, slug_required, cancelled, slug_invalid, slug_missing, Outcome,
  done, refused, start_sweep, next_interrupt, sweep_slug,
}

-- strings.ContainsAny(slug, "/\\")
abbrev pub has_separator : String → Bool
has_separator String.[] = false
has_separator (String.◌∷◌ c rest) =
    let found = has_separator rest in
    if String.◌∷◌ c String.[] == "/" || String.◌∷◌ c String.[] == "\\" then true else found

unfoldable pub is_invalid_slug : String → Bool
is_invalid_slug slug = slug == "." || slug == ".." || has_separator slug

-- strings.HasPrefix(rel, "..")
abbrev pub climbs : String → Bool
climbs rel = take_runes 2 rel == ".."

abbrev pub is_directory : Option Bool → Bool
is_directory none = false
is_directory (some dir) = dir

-- whether a slug is a directory below a root
unfoldable pub root_holds : SweepEnv → String → String → Bool
root_holds env slug root =
    let candidate = env.join_path root slug in
    elim (env.relative_path root candidate) [
      | none ↦ false
      | some rel ↦ if climbs rel || rel == "." then false else is_directory (env.stat candidate)
    ]

-- `verifySlugInRoots`; none where the slug is found
unfoldable pub verify_slug_in_roots : SweepEnv → String → List String → Option SweepError
unfolding is_invalid_slug root_holds
verify_slug_in_roots env raw roots =
    let slug = trim_space raw in
    if is_empty slug || is_invalid_slug slug
    then some (slug_invalid slug)
    else if any (root_holds env slug) roots
    then none
    else some (slug_missing slug)

unfoldable pub end_task :
    SweepEnv → String → ArchiveSweepConfig → List Bool → World → Outcome SweepState × World
unfolding is_invalid_slug apply_defaults verify_slug_in_roots sweep_slug
end_task env raw cfg interrupts w =
    let slug = trim_space raw in
    if is_empty slug
    then (refused slug_required, w)
    else if is_invalid_slug slug
    then (refused (slug_invalid slug), w)
    else if is_nil cfg.roots
    then (refused no_roots, w)
    else elim (verify_slug_in_roots env slug cfg.roots) [
      | some e ↦ (refused e, w)
      | none ↦ sweep_slug env (apply_defaults cfg) slug (start_sweep interrupts) w
    ]

abbrev pub accepts : Option (String → Bool) → String → Bool
accepts none slug = true
accepts (some pattern) slug = pattern slug

-- one entry of a root
unfoldable pub sweep_entry :
    SweepEnv → ArchiveSweepConfig → Entry → SweepState → World → Outcome SweepState × World
unfolding sweep_slug
sweep_entry env cfg entry s w =
    let (stop, rest) = next_interrupt s.interrupts in
    let s' = record s { interrupts = rest } in
    if stop
    then (refused cancelled, w)
    else if entry.is_dir
    then (if accepts cfg.slug_pattern entry.name
        then sweep_slug env cfg entry.name s' w
        else (done s', w))
    else (done s', w)

unfoldable pub sweep_entries :
    SweepEnv → ArchiveSweepConfig → List Entry → SweepState → World → Outcome SweepState × World
unfolding sweep_entry
sweep_entries env cfg [] s w = (done s, w)
sweep_entries env cfg (entry ∷ entries) s w =
    let (r, w') = sweep_entry env cfg entry s w in
    elim r [ refused e ↦ (refused e, w') | done s' ↦ sweep_entries env cfg entries s' w' ]

abbrev pub or_no_entries : Option (List Entry) → List Entry
or_no_entries none = []
or_no_entries (some entries) = entries

-- the entries of a root; none where it is blank, no directory, or cannot be read
unfoldable pub entries_of : SweepEnv → String → List Entry
entries_of env raw =
    let root = trim_space raw in
    if is_empty root
    then []
    else if is_directory (env.stat root)
    then or_no_entries (env.read_dir root)
    else []

unfoldable pub sweep_roots :
    SweepEnv → ArchiveSweepConfig → List String → SweepState → World → Outcome SweepState × World
unfolding sweep_entries entries_of
sweep_roots env cfg [] s w = (done s, w)
sweep_roots env cfg (root ∷ roots) s w =
    let (r, w') = sweep_entries env cfg (entries_of env root) s w in
    elim r [ refused e ↦ (refused e, w') | done s' ↦ sweep_roots env cfg roots s' w' ]

unfoldable pub sweep_archive :
    SweepEnv → ArchiveSweepConfig → List Bool → World → Outcome SweepState × World
unfolding sweep_roots apply_defaults
sweep_archive env cfg interrupts w =
    if is_nil cfg.roots
    then (refused no_roots, w)
    else sweep_roots env (apply_defaults cfg) cfg.roots (start_sweep interrupts) w

-- `EndTask` of a slug that is no directory below any root, or without roots, is refused, and the world is as it was.
pub end_task_refuses :
    (env : SweepEnv) (slug : String) (cfg : ArchiveSweepConfig) (interrupts : List Bool) (w : World)
    → any (root_holds env (trim_space slug)) cfg.roots ≡ false
    → (e : SweepError) × (end_task env slug cfg interrupts w ≡ (refused e, w))
unfolding end_task verify_slug_in_roots
end_task_refuses env slug cfg interrupts w h =
    let t = trim_space slug in
    let k : any (root_holds env (trim_space t)) cfg.roots ≡ false =
      subst (λ x. any (root_holds env x) cfg.roots ≡ false) (sym (trim_space_idem slug)) h in
    split (is_empty t) (is_invalid_slug t) (is_nil cfg.roots) (missing t k)
  where
    missing :
        (t : String)
        → any (root_holds env (trim_space t)) cfg.roots ≡ false
        → (e : SweepError) × (verify_slug_in_roots env t cfg.roots ≡ some e)
    missing t k = elim (Bool-cases (is_empty (trim_space t) || is_invalid_slug (trim_space t))) [
      | inl b ↦ (slug_invalid (trim_space t), ground (arith, b))
      | inr b ↦ (slug_missing (trim_space t), ground (arith, b, k))
    ]

    split :
        (a b c : Bool)
        → (e : SweepError) × (verify_slug_in_roots env (trim_space slug) cfg.roots ≡ some e)
        → (e : SweepError) × ((if a
              then (refused slug_required, w)
              else if b
              then (refused (slug_invalid (trim_space slug)), w)
              else if c
              then (refused no_roots, w)
              else elim (verify_slug_in_roots env (trim_space slug) cfg.roots) [
                | some e ↦ (refused e, w)
                | none ↦
                    sweep_slug env (apply_defaults cfg) (trim_space slug) (start_sweep interrupts) w
              ])
            ≡ (refused e, w))
    split true b c m = (slug_required, refl)
    split false true c m = (slug_invalid (trim_space slug), refl)
    split false false true m = (no_roots, refl)
    split false false false (e, q) = (e, rw q refl)

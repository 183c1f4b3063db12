-- ===== src/Memory/Metadata/Flags.antt =====
-- What metadata in normal form says of the lifecycle: its three ways to say canonical agree.
use agent_memory_mcp.Base.{
  String, ◌≡◌, refl, ◌↔◌, true, false, Option, some, List, arith, ◌==◌, eq_iff, Bool-cases, inl,
  inr, sym, ap, ◌∙◌,
}
use agent_memory_mcp.Text.{to_lower, trim_space}
use agent_memory_mcp.Dict.{Dict, text_at, insert, erase}
use agent_memory_mcp.Dict.Laws.{text_at-insert, text_at-erase}
use agent_memory_mcp.Memory.Types.{
  ok, >>=-eq-ok, key_lifecycle_status, key_canonical, key_knowledge_layer, key_review_required,
  key_entity,
}
use agent_memory_mcp.Memory.Engineering.{
  lifecycle_text, canonical, normalize_lifecycle_status, says_canonical, EngineeringType,
  validate_engineering_type,
}
use agent_memory_mcp.Memory.Metadata.{
  resolve_lifecycle, lifecycle_from_status, stamp_canonical, resolve_review, lift_canonical_flag,
  normalize_engineering_metadata, settle_lifecycle, with_entity, lift_review_status,
}
use agent_memory_mcp.Memory.Policy.{normalize_metadata}

-- the flag, the layer and the lifecycle status all say canonical, or none of them does
abbrev pub IsAgreed : Dict String → Type 0
IsAgreed n = (text_at key_lifecycle_status n ≡ lifecycle_text canonical) ↔ (says_canonical n ≡ true)

-- says_canonical reads two keys
says_canonical-insert :
    (k v : String) (n : Dict String)
    → (k == key_canonical) ≡ false
    → (k == key_knowledge_layer) ≡ false
    → says_canonical (insert k v n) ≡ says_canonical n
unfolding says_canonical
says_canonical-insert k v n hc hl =
    rw (text_at-insert k key_canonical v n, text_at-insert k key_knowledge_layer v n, hc, hl)

says_canonical-erase :
    (k : String) (n : Dict String)
    → (k == key_canonical) ≡ false
    → (k == key_knowledge_layer) ≡ false
    → says_canonical (erase k n) ≡ says_canonical n
unfolding says_canonical
says_canonical-erase k n hc hl =
    rw (text_at-erase k key_canonical n, text_at-erase k key_knowledge_layer n, hc, hl)

says_canonical_stamped :
    (n : Dict String)
    → says_canonical (insert key_knowledge_layer "canonical" (insert key_canonical "true" n)) ≡ true
unfolding says_canonical trim_space to_lower
says_canonical_stamped n = simp text_at-insert

-- a record that says canonical by flag or layer has the lifecycle status too
abbrev IsLifted : Dict String → Type 0
IsLifted n = says_canonical n ≡ true → text_at key_lifecycle_status n ≡ lifecycle_text canonical

lift_canonical_flag-IsLifted : (n : Dict String) → IsLifted (lift_canonical_flag n)
unfolding lift_canonical_flag
lift_canonical_flag-IsLifted n h =
    ground
      (arith, text_at-insert key_lifecycle_status key_lifecycle_status (lifecycle_text canonical) n)

canonical_word : normalize_lifecycle_status "canonical" ≡ some canonical
unfolding normalize_lifecycle_status to_lower trim_space
canonical_word = refl

resolve_lifecycle-says_canonical :
    (n : Dict String) {r : Dict String}
    → resolve_lifecycle n ≡ ok r
    → says_canonical r ≡ says_canonical n
unfolding resolve_lifecycle
resolve_lifecycle-says_canonical n {r} h = grind (arith, says_canonical-insert)

-- the lifecycle status of the result is the word of what was read, or what was there
resolve_lifecycle-text :
    (n : Dict String) {r : Dict String}
    → resolve_lifecycle n ≡ ok r
    → text_at key_lifecycle_status n ≡ "canonical"
    → text_at key_lifecycle_status r ≡ "canonical"
unfolding resolve_lifecycle
resolve_lifecycle-text n {r} h e = ground (
  arith,
  canonical_word,
  ap normalize_lifecycle_status e,
  text_at-insert key_lifecycle_status key_lifecycle_status (lifecycle_text canonical) n,
)

resolve_lifecycle-IsLifted :
    (n : Dict String) {r : Dict String} → resolve_lifecycle n ≡ ok r → IsLifted n → IsLifted r
unfolding resolve_lifecycle
resolve_lifecycle-IsLifted n h l c =
    ground (arith, canonical_word, resolve_lifecycle-says_canonical n h, resolve_lifecycle-text n h)

lifecycle_from_status-says_canonical :
    (n : Dict String) → says_canonical (lifecycle_from_status n) ≡ says_canonical n
unfolding lifecycle_from_status
lifecycle_from_status-says_canonical n = grind (arith, says_canonical-insert)

lifecycle_from_status-IsLifted : (n : Dict String) → IsLifted n → IsLifted (lifecycle_from_status n)
unfolding lifecycle_from_status
lifecycle_from_status-IsLifted n l c =
    let e : text_at key_lifecycle_status n ≡ "canonical" =
      l (sym (lifecycle_from_status-says_canonical n) ∙ c) in
    rw (e, e)

stamp_canonical-IsAgreed : (n : Dict String) → IsLifted n → IsAgreed (stamp_canonical n)
unfolding stamp_canonical
stamp_canonical-IsAgreed n l =
    elim (Bool-cases (text_at key_lifecycle_status n == lifecycle_text canonical)) [
      | inl e ↦ rw e (
          ground (
            arith,
            says_canonical_stamped n,
            text_at-insert key_knowledge_layer key_lifecycle_status "canonical"
                (insert key_canonical "true" n),
            text_at-insert key_canonical key_lifecycle_status "true" n,
            eq_iff (text_at key_lifecycle_status n) (lifecycle_text canonical),
          ))
      | inr e ↦
          rw e (ground (arith, eq_iff (text_at key_lifecycle_status n) (lifecycle_text canonical)))
    ]

resolve_review-IsAgreed :
    (n : Dict String) {r : Dict String} → resolve_review n ≡ ok r → IsAgreed n → IsAgreed r
unfolding resolve_review
resolve_review-IsAgreed n {r} h a = ground (
  arith,
  text_at-insert key_review_required key_lifecycle_status "true" n,
  text_at-erase key_review_required key_lifecycle_status n,
  says_canonical-insert key_review_required "true" n,
  says_canonical-erase key_review_required n,
)

settle_lifecycle-IsAgreed :
    (n : Dict String) {r : Dict String} → settle_lifecycle n ≡ ok r → IsLifted n → IsAgreed r
unfolding settle_lifecycle
settle_lifecycle-IsAgreed n h l =
    let finish = λ (w : Dict String). resolve_review (stamp_canonical (lifecycle_from_status w)) in
    let (w, resolved, last) = >>=-eq-ok (resolve_lifecycle n) finish h in
    resolve_review-IsAgreed (stamp_canonical (lifecycle_from_status w)) last (
      stamp_canonical-IsAgreed (lifecycle_from_status w)
        (lifecycle_from_status-IsLifted w (resolve_lifecycle-IsLifted n resolved l)))

-- In metadata that `normalizeEngineeringMetadata` returns, lifecycle_status is canonical exactly when
-- the canonical flag or the knowledge layer says so.
pub normalize_engineering_metadata-IsAgreed :
    (metadata : Dict String) (tags : List String) {r : Dict String}
    → normalize_engineering_metadata metadata tags ≡ ok r
    → (text_at key_lifecycle_status r ≡ lifecycle_text canonical) ↔ (says_canonical r ≡ true)
unfolding normalize_engineering_metadata
normalize_engineering_metadata-IsAgreed metadata tags h =
    let normalized = normalize_metadata metadata in
    let lifted = λ (found : Option EngineeringType).
      lift_canonical_flag (lift_review_status (with_entity found tags normalized)) in
    let (found, _, last) =
      >>=-eq-ok (validate_engineering_type (text_at key_entity normalized) true)
        (λ (found : Option EngineeringType). settle_lifecycle (lifted found)) h in
    settle_lifecycle-IsAgreed (lifted found) last (lift_canonical_flag-IsLifted _)

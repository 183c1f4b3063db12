-- ===== src/Lifecycle/ArchiveSweep/Decisions.antt =====
-- What a sweep decides, in terms of types, tags, lifecycle and importance.
use agent_memory_mcp.Base.{◌≡◌, ◌≢◌, refl, false, ◌⊎◌, ◌↔◌, arith, ◌==◌, eq_iff, inl, inr}
use agent_memory_mcp.Base.Int.{◌≤ℤ◌, ◌<ℤ◌}
use agent_memory_mcp.Memory.Types.{Memory, type_working, type_procedural}
use agent_memory_mcp.Memory.Engineering.{outdated, is_review_queue, lifecycle_status_of}
use agent_memory_mcp.Lifecycle.ArchiveSweep.{
  ArchiveSweepConfig, mark_outdated_action, promotion_candidate, carries_tag, decide_kind,
}

-- task knowledge that nothing exempts from a sweep
pub record IsSwept (m : Memory) (cfg : ArchiveSweepConfig) : Type 0 where
  pub swept_type : (m.type ≡ type_working) ⊎ (m.type ≡ type_procedural)
  pub no_review : is_review_queue m.metadata ≡ false
  pub not_kept : carries_tag m.tags cfg.keep_tag ≡ false
  pub not_outdated : lifecycle_status_of m ≢ outdated

-- procedural, or at least as important as the threshold
abbrev pub EarnsPromotion : Memory → ArchiveSweepConfig → Type 0
EarnsPromotion m cfg = (m.type ≡ type_procedural) ⊎ (cfg.promotion_threshold ≤ℤ m.importance)

decide_kind-IsSwept :
    (m : Memory) (cfg : ArchiveSweepConfig)
    → (decide_kind m cfg ≡ mark_outdated_action) ⊎ (decide_kind m cfg ≡ promotion_candidate)
    → IsSwept m cfg
unfolding decide_kind
decide_kind-IsSwept m cfg h = record {
  swept_type = ground (arith, h, eq_iff m.type type_working, eq_iff m.type type_procedural);
  no_review = ground (arith, h);
  not_kept = ground (arith, h);
  not_outdated = λ e. ground (arith, h, e);
}

decide_kind_earned :
    (m : Memory) (cfg : ArchiveSweepConfig)
    → decide_kind m cfg ≡ promotion_candidate
    → EarnsPromotion m cfg × (cfg.skip_promotion ≡ false)
unfolding decide_kind
decide_kind_earned m cfg h = (ground (arith, h, eq_iff m.type type_procedural), ground (arith, h))

decide_kind_unearned :
    (m : Memory) (cfg : ArchiveSweepConfig)
    → decide_kind m cfg ≡ mark_outdated_action
    → (m.type ≡ type_working) × (m.importance <ℤ cfg.promotion_threshold)
unfolding decide_kind
decide_kind_unearned m cfg h = (ground (arith, h, eq_iff m.type type_working), ground (arith, h))

IsSwept-candidate :
    (m : Memory) (cfg : ArchiveSweepConfig)
    → IsSwept m cfg
    → EarnsPromotion m cfg
    → cfg.skip_promotion ≡ false
    → decide_kind m cfg ≡ promotion_candidate
unfolding decide_kind
IsSwept-candidate m cfg s p k = ground (
  arith,
  s.swept_type,
  s.no_review,
  s.not_kept,
  s.not_outdated,
  p,
  k,
  eq_iff m.type type_working,
  eq_iff m.type type_procedural,
)

IsSwept-outdated :
    (m : Memory) (cfg : ArchiveSweepConfig)
    → IsSwept m cfg
    → m.type ≡ type_working
    → m.importance <ℤ cfg.promotion_threshold
    → decide_kind m cfg ≡ mark_outdated_action
unfolding decide_kind
IsSwept-outdated m cfg s t p =
    let other : (m.type == type_procedural) ≡ false = rw t refl in
    ground (
      arith,
      other,
      s.swept_type,
      s.no_review,
      s.not_kept,
      s.not_outdated,
      t,
      p,
      eq_iff m.type type_working,
      eq_iff m.type type_procedural,
    )

-- A sweep marks a record outdated exactly when it is working knowledge that nothing exempts, below the threshold; and takes it
-- for a promotion candidate exactly when nothing exempts it, it is procedural or reaches the threshold, and promotions are not off.
pub decide_kind_iff :
    (m : Memory) (cfg : ArchiveSweepConfig)
    → ((decide_kind m cfg ≡ mark_outdated_action)
        ↔ (IsSwept m cfg × (m.type ≡ type_working) × (m.importance <ℤ cfg.promotion_threshold)))
      × ((decide_kind m cfg ≡ promotion_candidate)
          ↔ (IsSwept m cfg × EarnsPromotion m cfg × (cfg.skip_promotion ≡ false)))
decide_kind_iff m cfg = (
  (
    (λ h. let (t, i) = decide_kind_unearned m cfg h in (decide_kind-IsSwept m cfg (inl h), t, i)),
    (λ h. IsSwept-outdated m cfg h.0 h.1 h.2),
  ),
  (
    (λ h. let (p, k) = decide_kind_earned m cfg h in (decide_kind-IsSwept m cfg (inr h), p, k)),
    (λ h. IsSwept-candidate m cfg h.0 h.1 h.2),
  ),
)

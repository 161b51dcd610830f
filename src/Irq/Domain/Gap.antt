-- ===== src/Irq/Domain/Gap.antt =====
-- The search of irq_domain_alloc_hwirq_range finds the first gap that is long enough.
use proto_kernel.Prelude.{
  ℕ, zero, suc, ◌+◌, ◌-◌, ◌≤◌, ◌<◌, ◌≡◌, inl, inr, subst, arith, Bool, true, false, Option, none,
  some, ◌==◌, leb, ltb, if◌then◌else◌, Bool-cases,
}
use proto_kernel.Irq.Domain.{find_gap}

abbrev pub AllFree : (ℕ → Bool) → (base count : ℕ) → Type 0
AllFree free base count = (j : ℕ) → base ≤ j → j < base + count → free j ≡ true

-- the first base below `end` with `count` free numbers below `end`, or none
abbrev pub FirstGap : (ℕ → Bool) → (count end : ℕ) → Option ℕ → Type 0
FirstGap free count end none = (s : ℕ) → s + count ≤ end → AllFree free s count → ⊥
FirstGap free count end (some base) =
    (base + count ≤ end) × AllFree free base count × ((s : ℕ) → s < base → AllFree free s count → ⊥)

module _ (free : ℕ → Bool) (count : ℕ) (pos : 0 < count) where
  pub find_gap-FirstGap :
      (left current start consecutive : ℕ)
      → consecutive < count
      → (0 < consecutive → start + consecutive ≡ current)
      → consecutive ≤ current
      → ((j : ℕ) → current - consecutive ≤ j → j < current → free j ≡ true)
      → ((s : ℕ) → s < current - consecutive → AllFree free s count → ⊥)
      → FirstGap free count (current + left) (find_gap free count left current start consecutive)
  unfolding find_gap
  find_gap-FirstGap zero current start consecutive short at le seen none_before =
      λ s fits all. none_before s (omega arith) all
  find_gap-FirstGap (suc left) current start consecutive short at le seen none_before =
      elim (Bool-cases (free current)) [
        | inr taken ↦
            rw (taken, find_gap)
              (subst
                (λ end. FirstGap free count end (find_gap free count left (current + 1) start 0))
                further
                (find_gap-FirstGap left (current + 1) start 0 pos (λ bad. absurd (omega arith))
                  (omega arith) (λ j lo hi. absurd (omega arith))
                  (λ s before all. blocked s taken before all)))
        | inl clear ↦ elim (Bool-cases (leb count (consecutive + 1))) [
          | inl enough ↦
              rw (clear, enough, find_gap, first)
                (
                  ground arith,
                  λ j lo hi. seen_too clear j (omega arith) (ground arith),
                  none_before,
                )
          | inr few ↦
              rw (clear, few, find_gap)
                (subst
                  (λ end. FirstGap free count end (
                    find_gap free count left (current + 1)
                      (if consecutive == 0 then current else start) (consecutive + 1)))
                  further
                  (find_gap-FirstGap left (current + 1)
                    (if consecutive == 0 then current else start) (consecutive + 1) (ground arith)
                    (λ some_seen. omega (arith, first)) (omega arith)
                    (λ j lo hi. seen_too clear j (omega arith) (omega arith))
                    (λ s before all. none_before s (omega arith) all)))
        ]
      ]
    where
      further : current + 1 + left ≡ current + suc left
      further = omega arith

      first : (if consecutive == 0 then current else start) ≡ current - consecutive
      first = ground arith

      blocked : (s : ℕ) → free current ≡ false → s < current + 1 - 0 → AllFree free s count → ⊥
      blocked s taken before all = elim (Bool-cases (ltb s (current - consecutive))) [
        | inl early ↦ none_before s (ground arith) all
        | inr late ↦
            let clear : free current ≡ true = all current (omega arith) (ground arith) in
            cc (clear, taken)
      ]

      seen_too :
          free current ≡ true
          → (j : ℕ) → current - consecutive ≤ j
          → j < current + 1
          → free j ≡ true
      seen_too clear j lo hi = elim (Bool-cases (j == current)) [
        | inl here ↦ let e : current ≡ j = ground arith in subst (λ j. free j ≡ true) e clear
        | inr earlier ↦ seen j lo (ground arith)
      ]

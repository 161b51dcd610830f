-- ===== src/Irq/Domain/Alloc.antt =====
-- irq_domain_alloc_hwirq_range and irq_domain_free_hwirq_range.
use proto_kernel.Prelude.{
  ℕ, ◌+◌, ◌^◌, ◌≤◌, ◌<◌, ◌≡◌, inl, inr, refl, sym, subst, ◌∙◌, arith, Bool, true, false, Option,
  none, some, List, ◌==◌, Bool-cases, ==_iff, get_or, length,
}
use mathlib.Core.Option.{some-injective}
use proto_kernel.Bitmap.Ranges.{within}
use proto_kernel.Radix.{Root, radix_tree_lookup}
use proto_kernel.Radix.Cache.{Cache}
use proto_kernel.Radix.Machine.{Holds}
use proto_kernel.Irq.Domain.{
  IrqDomain, linear, hierarchy, tree_domain, tree_domain_release_range, tree_free, find_gap,
  tree_domain_find_free_range, tree_domain_reserve_range, reserved, alloc_in_tree,
  alloc_hwirq_range, free_hwirq_range,
}
use proto_kernel.Irq.Domain.Gap.{AllFree, FirstGap, find_gap-FirstGap}
use proto_kernel.Irq.Domain.Reserve.{
  marked, released, Free, ReservedRange, Holds-agree, tree_domain_reserve_range_lem,
  tree_domain_release_range_lem,
}

pub gap_from_zero :
    (free : ℕ → Bool) (count end : ℕ)
    → 0 < count
    → FirstGap free count end (find_gap free count end 0 0 0)
gap_from_zero free count end pos =
    let all : 0 + end ≡ end = omega arith in
    subst (λ e. FirstGap free count e (find_gap free count end 0 0 0)) all
      (find_gap-FirstGap free count pos end 0 0 0 pos (λ bad. absurd (omega arith)) (omega arith)
        (λ j lo hi. absurd (omega arith)) (λ s before all. absurd (omega arith)))

-- a range below `max_irq` that was free, the first of its length, and is reserved; or no change
abbrev pub Allocated : (ℕ → ℕ) → (count max_irq : ℕ) → Option ℕ × Root × Cache → Type 0
Allocated f count max_irq (none, root, k) = Holds f root
Allocated f count max_irq (some base, root, k) =
    (0 < count)
    × (base + count ≤ max_irq)
    × Free f base count
    × ((s : ℕ) → s < base → Free f s count → ⊥)
    × Holds (marked f base count) root

module _ (f : ℕ → ℕ) (root : Root) (max_irq : ℕ) (k : Cache) (fits : max_irq ≤ 2 ^ 32)
    (holds : Holds f root) where
  pub tree_AllFree :
      (s count : ℕ) → s + count ≤ 2 ^ 32 → Free f s count → AllFree (tree_free root) s count
  tree_AllFree s count room free j lo hi =
      (==_iff (radix_tree_lookup root j) 0).1 (holds.1 j (omega arith) ∙ free j lo hi)

  reserved-Allocated :
      (count base : ℕ) (r : Bool × Root × Cache)
      → FirstGap (tree_free root) count max_irq (some base)
      → ReservedRange f base count r
      → Allocated f count max_irq (reserved base r)
  reserved-Allocated count base (false, root', k') gap (free, kept) = kept
  reserved-Allocated count base (true, root', k') (room, all, least) (free, kept) = (
    (free refl).0,
    room,
    (free refl).1,
    λ s before free_too. least s before (tree_AllFree s count (omega arith) free_too),
    kept,
  )

  found-Allocated :
      (count : ℕ) (o : Option ℕ)
      → FirstGap (tree_free root) count max_irq o
      → Allocated f count max_irq (elim o as (λ o. Option ℕ × Root × Cache) [
        | none ↦ (none, root, k)
        | some base ↦ reserved base (tree_domain_reserve_range base count root k)
      ])
  found-Allocated count none gap = holds
  found-Allocated count (some base) gap =
      reserved-Allocated count base (tree_domain_reserve_range base count root k) gap
        (tree_domain_reserve_range_lem f base count root k (omega (arith, gap.0)) holds)

  -- In a valid tree domain whose max_irq is at most 2^32, irq_domain_alloc_hwirq_range returns -1
  -- with the map of the tree unchanged, or 0 with a range that ends at or below max_irq, whose
  -- numbers were all free, before which no free range of that length begins, and which is
  -- reserved while every other number below 2^32 is as it was.
  pub alloc_in_tree_lem :
      (count : ℕ) → Allocated f count max_irq (alloc_in_tree count root max_irq k)
  unfolding alloc_in_tree tree_domain_find_free_range
  alloc_in_tree_lem count = elim (Bool-cases (count == 0)) [
    | inl nothing ↦ rw (nothing, alloc_in_tree, tree_domain_find_free_range) holds
    | inr some_count ↦
        rw (some_count, alloc_in_tree, tree_domain_find_free_range)
          (found-Allocated count (find_gap (tree_free root) count max_irq 0 0 0)
            (gap_from_zero (tree_free root) count max_irq (ground arith)))
  ]

abbrev pub DomainHolds : (ℕ → ℕ) → IrqDomain → Type 0
DomainHolds f (tree_domain root max_irq) = (max_irq ≤ 2 ^ 32) × Holds f root
DomainHolds f (linear size linear_map whole) = ⊥
DomainHolds f (hierarchy size linear_map whole) = ⊥

marked-released :
    (f : ℕ → ℕ) (base count j : ℕ)
    → Free f base count
    → released (marked f base count) base count j ≡ f j
marked-released f base count j free = elim (Bool-cases (within base count j)) [
  | inl inside ↦ rw inside (sym (free j (ground arith) (ground arith)))
  | inr outside ↦ rw outside refl
]

released_again :
    (f : ℕ → ℕ) (max_irq count base : ℕ) (r : Option ℕ × Root × Cache)
    → max_irq ≤ 2 ^ 32
    → Allocated f count max_irq r
    → r.0 ≡ some base
    → DomainHolds f (free_hwirq_range base count (tree_domain r.1 max_irq) r.2).0
unfolding free_hwirq_range
released_again f max_irq count base (none, root', k') fits all e = absurd (cc e)
released_again f max_irq count base (some base', root', k') fits (pos, room, free, least, kept) e =
    let same : base' ≡ base = some-injective base' base e in
    (
      fits,
      Holds-agree (released (marked f base count) base count) f
          (tree_domain_release_range base count root' k').0
          (tree_domain_release_range_lem (marked f base count) base count root' k' (omega arith)
            (subst (λ b. Holds (marked f b count) root') same kept))
          (λ j. marked-released f base count j (subst (λ b. Free f b count) same free)),
    )

-- In a valid tree domain whose max_irq is at most 2^32, a range that irq_domain_alloc_hwirq_range
-- gave, given back by irq_domain_free_hwirq_range, leaves a valid tree with the map it had
-- before.
pub hwirq_range_round_trip :
    (f : ℕ → ℕ) (root : Root) (max_irq count base : ℕ) (k : Cache)
    → max_irq ≤ 2 ^ 32
    → Holds f root
    → (alloc_hwirq_range count (tree_domain root max_irq) k).0 ≡ some base
    → let (got, d, k) = alloc_hwirq_range count (tree_domain root max_irq) k in
      DomainHolds f (free_hwirq_range base count d k).0
unfolding alloc_hwirq_range
hwirq_range_round_trip f root max_irq count base k fits holds = elim (Bool-cases (count == 0)) [
  | inl nothing ↦ rw (nothing, alloc_hwirq_range) (λ e. absurd (cc e))
  | inr some_count ↦
      rw (some_count, alloc_hwirq_range)
        (released_again f max_irq count base (alloc_in_tree count root max_irq k) fits
          (alloc_in_tree_lem f root max_irq k fits holds count))
]

-- In a linear domain irq_domain_alloc_hwirq_range of a count above 0 gives the first range of
-- that many numbers below the size that have no descriptor, or -1 if there is none, and leaves
-- the domain as it was, so nothing marks the range as taken.
pub alloc_hwirq_range_linear :
    (size count : ℕ) (linear_map : List ℕ) (whole : length linear_map ≡ size) (k : Cache)
    → 0 < count
    → FirstGap
        (λ i. get_or linear_map i 0 == 0)
        count
        size
        (alloc_hwirq_range count (linear size linear_map whole) k).0
      × ((alloc_hwirq_range count (linear size linear_map whole) k).1
          ≡ linear size linear_map whole)
unfolding alloc_hwirq_range
alloc_hwirq_range_linear size count linear_map whole k pos =
    let e : (count == 0) ≡ false = ground arith in
    rw e (gap_from_zero (λ i. get_or linear_map i 0 == 0) count size pos, refl)

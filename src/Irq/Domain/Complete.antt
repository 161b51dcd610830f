-- ===== src/Irq/Domain/Complete.antt =====
-- With nodes at hand, a gap that is there is taken.
use proto_kernel.Prelude.{
  ℕ, zero, suc, ◌+◌, ◌*◌, ◌^◌, ◌≤◌, ◌<◌, ◌≡◌, refl, sym, ap, ◌∙◌, arith, true, false, Option, none,
  some, ◌==◌, if◌then◌else◌, ==_iff,
}
use proto_kernel.Bits.{u32}
use proto_kernel.Radix.{Root, radix_tree_lookup}
use proto_kernel.Radix.Cache.{Cache}
use proto_kernel.Radix.Insert.{radix_tree_insert}
use proto_kernel.Radix.Machine.{Holds}
use proto_kernel.Radix.Refine.{radix_tree_insert_lem}
use proto_kernel.Radix.Supply.{supply, radix_tree_insert-done, radix_tree_insert-left}
use proto_kernel.Irq.Domain.{
  reserved_marker, tree_free, find_gap, all_free, reserve_each, tree_domain_find_free_range,
  tree_domain_reserve_range, reserved, alloc_in_tree,
}
use proto_kernel.Irq.Domain.Gap.{FirstGap}
use proto_kernel.Irq.Domain.Reserve.{Free, marked, Holds-agree, one_more}
use proto_kernel.Irq.Domain.Alloc.{gap_from_zero, tree_AllFree}

all_free-true :
    (f : ℕ → ℕ) (base left i : ℕ) (root : Root)
    → base + i + left ≤ 2 ^ 32
    → Holds f root
    → Free f (base + i) left
    → all_free root base left i ≡ true
unfolding all_free
all_free-true f base zero i root fits holds free = refl
all_free-true f base (suc left) i root fits holds free =
    let index : ℕ = u32 (base + i) in
    let clear : tree_free root index ≡ true =
      (==_iff (radix_tree_lookup root index) 0).1
        (holds.1 index (omega arith) ∙ free index (omega arith) (omega arith)) in
    rw (clear, all_free)
      (all_free-true f base left (i + 1) root (omega arith) holds
        (λ j lo hi. free j (omega arith) (omega arith)))

unmarked_end : (f : ℕ → ℕ) (base i index : ℕ) → index ≡ base + i → marked f base i index ≡ f index
unmarked_end f base i index at = ground arith

module _ (f : ℕ → ℕ) (base : ℕ) where
  reserve_each-done :
      (left i : ℕ) (root : Root) (k : Cache)
      → base + i + left ≤ 2 ^ 32
      → Free f base (i + left)
      → 11 * left ≤ supply k
      → Holds (marked f base i) root
      → (reserve_each base left i root k).0 ≡ true
  unfolding reserve_each
  reserve_each-done zero i root k fits free enough holds = refl
  reserve_each-done (suc left) i root k fits free enough (v, holds) =
      let index : ℕ = u32 (base + i) in
      let at : index ≡ base + i = omega arith in
      let clear : radix_tree_lookup root index ≡ 0 =
        holds index (omega arith)
        ∙ unmarked_end f base i index at
        ∙ free index (omega arith) (omega arith) in
      let done =
        radix_tree_insert-done root index reserved_marker k v (omega arith) (omega arith)
          (omega arith) clear in
      let (v', took, looks) = radix_tree_insert_lem root index reserved_marker k v (omega arith) in
      let rest =
        radix_tree_insert-left root index reserved_marker k (11 * left) v (omega arith)
          (omega arith) in
      rw (done, reserve_each)
        (reserve_each-done left (i + 1) (radix_tree_insert index reserved_marker root k).1
          (radix_tree_insert index reserved_marker root k).2 (omega arith)
          (λ j lo hi. free j lo (omega arith)) rest
          (
            v',
            λ j wj.
                looks j wj
                ∙ rw done (
                    ap (λ l. if j == index then reserved_marker else l) (holds j wj)
                    ∙ one_more f base i index j at),
          ))

reserve_range-done :
    (f : ℕ → ℕ) (base count : ℕ) (root : Root) (k : Cache)
    → base + count ≤ 2 ^ 32
    → 0 < count
    → 11 * count ≤ supply k
    → Holds f root
    → Free f base count
    → (tree_domain_reserve_range base count root k).0 ≡ true
unfolding tree_domain_reserve_range
reserve_range-done f base count root k fits pos enough holds free =
    let e : (count == 0) ≡ false = ground arith in
    let all =
      all_free-true f base count 0 root (omega arith) holds
        (λ j lo hi. free j (omega arith) (omega arith)) in
    rw (e, all)
      (reserve_each-done f base count 0 root k (omega arith) (λ j lo hi. free j lo (omega arith))
        enough (Holds-agree f (marked f base 0) root holds (λ j. ground arith)))

module _ (f : ℕ → ℕ) (root : Root) (max_irq : ℕ) (k : Cache) (fits : max_irq ≤ 2 ^ 32)
    (holds : Holds f root) (count gap : ℕ) (pos : 0 < count) (room : gap + count ≤ max_irq)
    (free : Free f gap count) (enough : 11 * count ≤ supply k) where
  reserved-done :
      (o : Option ℕ)
      → FirstGap (tree_free root) count max_irq o
      → (base : ℕ) × ((elim o as (λ o. Option ℕ × Root × Cache) [
        | none ↦ (none, root, k)
        | some base ↦ reserved base (tree_domain_reserve_range base count root k)
      ]).0
          ≡ some base)
  reserved-done none no_gap =
      absurd
        (no_gap gap room (tree_AllFree f root max_irq k fits holds gap count (omega arith) free))
  reserved-done (some base) (lo, all, least) =
      let free_here : Free f base count = λ j from to.
        sym (holds.1 j (omega arith)) ∙ (==_iff (radix_tree_lookup root j) 0).0 (all j from to) in
      let done = reserve_range-done f base count root k (omega arith) pos enough holds free_here in
      (base, rw done refl)

  -- In a valid tree domain whose max_irq is at most 2^32, with eleven nodes at hand for each
  -- number asked for, irq_domain_alloc_hwirq_range of a count above 0 succeeds if a free range of
  -- that length ends at or below max_irq.
  pub alloc_in_tree_complete : (base : ℕ) × ((alloc_in_tree count root max_irq k).0 ≡ some base)
  unfolding alloc_in_tree tree_domain_find_free_range
  alloc_in_tree_complete =
      let e : (count == 0) ≡ false = ground arith in
      rw (e, alloc_in_tree, tree_domain_find_free_range)
        (reserved-done (find_gap (tree_free root) count max_irq 0 0 0)
          (gap_from_zero (tree_free root) count max_irq pos))

-- ===== src/Irq/Domain/Tests.antt =====
-- Ranges taken at concrete domains, and each theorem at arguments that meet its hypotheses.
use proto_kernel.Prelude.{ℕ, ◌≡◌, refl, arith, true, some, none, [], ◌∷◌, ◌==◌, replicate, get_or}
use proto_kernel.Radix.{
  radix_tree_init, node_create, tree_create, maxindex, lookup_in, radix_tree_lookup, tag_set,
  any_tag_set, count_of,
}
use proto_kernel.Radix.Cache.{Cache, from_kmalloc, node_alloc, node_free}
use proto_kernel.Radix.Insert.{
  height_from, tag_up, grow_node, grow, extend, child_or_new, insert_in, insert_at,
  radix_tree_insert,
}
use proto_kernel.Radix.Delete.{
  delete_in, shrink_from, drop_leaf, radix_tree_shrink, after_delete, forget_key, delete_at,
  radix_tree_delete,
}
use proto_kernel.Radix.Machine.{radix_tree_init-Holds}
use proto_kernel.Irq.Domain.{
  linear, tree_domain, find_gap, tree_domain_find_free_range, all_free, rollback, reserve_each,
  tree_domain_reserve_range, release_each, tree_domain_release_range, alloc_in_tree,
  alloc_hwirq_range, free_hwirq_range,
}
use proto_kernel.Irq.Domain.Alloc.{
  Allocated, DomainHolds, alloc_in_tree_lem, hwirq_range_round_trip, alloc_hwirq_range_linear,
}
use proto_kernel.Irq.Domain.Complete.{alloc_in_tree_complete}
use proto_kernel.Irq.Domain.Gap.{FirstGap}
use proto_kernel.Irq.Domain.Reserve.{ReservedRange, tree_domain_reserve_range_lem}

all_code : Unit {0}
unfolding node_create tree_create maxindex lookup_in radix_tree_lookup tag_set any_tag_set count_of
    from_kmalloc node_alloc node_free height_from tag_up grow_node grow extend child_or_new
    insert_in insert_at radix_tree_insert delete_in shrink_from drop_leaf radix_tree_shrink
    after_delete forget_key delete_at radix_tree_delete find_gap tree_domain_find_free_range
    all_free rollback reserve_each tree_domain_reserve_range release_each tree_domain_release_range
    alloc_in_tree alloc_hwirq_range free_hwirq_range
all_code = tt

abbrev store : Cache
store = record { free_list = 0; free_count = 0; total_allocated = 0; memory = replicate 40 true }

abbrev max_irq : ℕ
max_irq = 0xff_ffff

two_ranges :
    let (first, d, k) = alloc_hwirq_range 3 (tree_domain radix_tree_init max_irq) store in
    let (second, d, k) = alloc_hwirq_range 2 d k in
    let (d, k) = free_hwirq_range 0 3 d k in
    let (third, d, k) = alloc_hwirq_range 4 d k in
    let (fourth, d, k) = alloc_hwirq_range 1 d k in
    (first ≡ some 0) × (second ≡ some 3) × (third ≡ some 5) × (fourth ≡ some 0)
unfolding all_code
two_ranges = (refl, refl, refl, refl)

-- the root, a leaf and a third node are at hand, but the range of 65 needs a fourth: all is undone
abbrev two_nodes : Cache
two_nodes = record { free_list = 0; free_count = 0; total_allocated = 0; memory = replicate 2 true }

undone :
    let (got, d, k) = alloc_hwirq_range 65 (tree_domain radix_tree_init max_irq) two_nodes in
    (got ≡ none) × ((alloc_hwirq_range 2 d k).0 ≡ some 0)
unfolding all_code
undone = (refl, refl)

-- a linear domain gives the same range again
twice :
    let (first, d, k) = alloc_hwirq_range 2 (linear 4 (7 ∷ 0 ∷ 0 ∷ 0 ∷ []) refl) store in
    (first ≡ some 1) × ((alloc_hwirq_range 2 d k).0 ≡ some 1)
unfolding all_code
twice = (refl, refl)

alloc_in_tree_lem_example :
    Allocated (λ j. 0) 3 max_irq (alloc_in_tree 3 radix_tree_init max_irq store)
alloc_in_tree_lem_example =
    alloc_in_tree_lem (λ j. 0) radix_tree_init max_irq store (omega arith) radix_tree_init-Holds 3

alloc_in_tree_complete_example :
    (base : ℕ) × ((alloc_in_tree 3 radix_tree_init max_irq store).0 ≡ some base)
alloc_in_tree_complete_example =
    alloc_in_tree_complete (λ j. 0) radix_tree_init max_irq store (omega arith)
      radix_tree_init-Holds 3 9 (omega arith) (omega arith) (λ j lo hi. refl) (omega arith)

hwirq_range_round_trip_example :
    let (got, d, k) = alloc_hwirq_range 3 (tree_domain radix_tree_init max_irq) store in
    DomainHolds (λ j. 0) (free_hwirq_range 0 3 d k).0
unfolding all_code
hwirq_range_round_trip_example =
    hwirq_range_round_trip (λ j. 0) radix_tree_init max_irq 3 0 store (omega arith)
      radix_tree_init-Holds refl

tree_domain_reserve_range_lem_example :
    ReservedRange (λ j. 0) 5 3 (tree_domain_reserve_range 5 3 radix_tree_init two_nodes)
tree_domain_reserve_range_lem_example =
    tree_domain_reserve_range_lem (λ j. 0) 5 3 radix_tree_init two_nodes (omega arith)
      radix_tree_init-Holds

alloc_hwirq_range_linear_example :
    let (got, d, k) = alloc_hwirq_range 2 (linear 4 (7 ∷ 0 ∷ 0 ∷ 0 ∷ []) refl) store in
    FirstGap (λ i. get_or (7 ∷ 0 ∷ 0 ∷ 0 ∷ []) i 0 == 0) 2 4 got
    × (d ≡ linear 4 (7 ∷ 0 ∷ 0 ∷ 0 ∷ []) refl)
alloc_hwirq_range_linear_example =
    alloc_hwirq_range_linear 4 2 (7 ∷ 0 ∷ 0 ∷ 0 ∷ []) refl store (omega arith)

-- ===== src/Irq/Domain.antt =====
-- kernel/irq/irq_domain.c: the ranges of hardware interrupt numbers that MSI takes. A domain is what
-- its mapping is: an array of descriptor pointers, or a radix tree of them; 0 is NULL and 1 the marker
-- of a reserved slot. An array has a pointer for each number below the size, as the creation of the
-- domain allocates it. The domain is not NULL. `alloc_hwirq_range` on a tree finds a range in one
-- critical section of the domain's lock and reserves it in a second; the model runs the two with
-- nothing between. The other operations are one critical section each.
pub mod Gap
pub mod Reserve
pub mod Alloc
pub mod Complete
mod Tests
use proto_kernel.Prelude.{
  ℕ, zero, suc, ◌+◌, ◌-◌, Bool, true, false, not, Option, none, some, List, ◌==◌, leb,
  if◌then◌else◌, get_or, length, ◌≡◌,
}
use proto_kernel.Bits.{u32}
use proto_kernel.Radix.{Root, radix_tree_lookup}
use proto_kernel.Radix.Cache.{Cache}
use proto_kernel.Radix.Insert.{radix_tree_insert}
use proto_kernel.Radix.Delete.{radix_tree_delete}

abbrev pub reserved_marker : ℕ
reserved_marker = 1

-- the `union` of `struct irq_domain`, by its type
pub data IrqDomain : Type 0 where
  linear : (size : ℕ) (linear_map : List ℕ) → length linear_map ≡ size → IrqDomain
  hierarchy : (size : ℕ) (linear_map : List ℕ) → length linear_map ≡ size → IrqDomain
  tree_domain : (root : Root) (max_irq : ℕ) → IrqDomain

-- The search of both kinds of domain: `left` numbers from `current` on, of which `start` begins the
-- free ones that were seen last.
unfoldable pub find_gap : (free : ℕ → Bool) (count left current start consecutive : ℕ) → Option ℕ
find_gap free count zero current start consecutive = none
find_gap free count (suc left) current start consecutive = elim (free current) [
  | false ↦ find_gap free count left (current + 1) start 0
  | true ↦
      let start = if consecutive == 0 then current else start in
      elim (leb count (consecutive + 1)) [
        | true ↦ some start
        | false ↦ find_gap free count left (current + 1) start (consecutive + 1)
      ]
]

abbrev pub tree_free : Root → ℕ → Bool
tree_free root current = radix_tree_lookup root current == 0

unfoldable pub tree_domain_find_free_range : Root → (max_irq count : ℕ) → Option ℕ
tree_domain_find_free_range root max_irq count =
    if count == 0 then none else find_gap (tree_free root) count max_irq 0 0 0

-- the first loop of `tree_domain_reserve_range`, with `left` rounds left
unfoldable pub all_free : Root → (base left i : ℕ) → Bool
all_free root base zero i = true
all_free root base (suc left) i =
    let rest = all_free root base left (i + 1) in
    if tree_free root (u32 (base + i)) then rest else false

-- `while (i > 0)`
unfoldable pub rollback : (i base : ℕ) → Root → Cache → Root × Cache
rollback zero base root k = (root, k)
rollback (suc i) base root k =
    let (entry, root, k) = radix_tree_delete (u32 (base + i)) root k in rollback i base root k

-- the second loop
unfoldable pub reserve_each : (base left i : ℕ) → Root → Cache → Bool × Root × Cache
reserve_each base zero i root k = (true, root, k)
reserve_each base (suc left) i root k =
    let (done, root, k) = radix_tree_insert (u32 (base + i)) reserved_marker root k in
    elim done [
      | true ↦ reserve_each base left (i + 1) root k
      | false ↦ let (root, k) = rollback i base root k in (false, root, k)
    ]

unfoldable pub tree_domain_reserve_range : (base count : ℕ) → Root → Cache → Bool × Root × Cache
tree_domain_reserve_range base count root k =
    if count == 0
    then (false, root, k)
    else if all_free root base count 0
    then reserve_each base count 0 root k
    else (false, root, k)

unfoldable pub release_each : (base left i : ℕ) → Root → Cache → Root × Cache
release_each base zero i root k = (root, k)
release_each base (suc left) i root k =
    elim (radix_tree_lookup root (u32 (base + i)) == reserved_marker) [
      | true ↦
          let (entry, root, k) = radix_tree_delete (u32 (base + i)) root k in
          release_each base left (i + 1) root k
      | false ↦ release_each base left (i + 1) root k
    ]

unfoldable pub tree_domain_release_range : (base count : ℕ) → Root → Cache → Root × Cache
tree_domain_release_range base count root k = release_each base count 0 root k

-- the base that was reserved
abbrev pub reserved : (base : ℕ) → Bool × Root × Cache → Option ℕ × Root × Cache
reserved base (done, root, k) = (if done then some base else none, root, k)

unfoldable pub alloc_in_tree : (count : ℕ) → Root → (max_irq : ℕ) → Cache → Option ℕ × Root × Cache
alloc_in_tree count root max_irq k = elim (tree_domain_find_free_range root max_irq count) [
  | none ↦ (none, root, k)
  | some base ↦ reserved base (tree_domain_reserve_range base count root k)
]

-- `none` is -1, and `some base` is 0 with `*hwirq_base = base`
unfoldable pub alloc_hwirq_range : (count : ℕ) → IrqDomain → Cache → Option ℕ × IrqDomain × Cache
alloc_hwirq_range count (tree_domain root max_irq) k =
    if count == 0
    then (none, tree_domain root max_irq, k)
    else (let (base, root, k) = alloc_in_tree count root max_irq k in
        (base, tree_domain root max_irq, k))
alloc_hwirq_range count (linear size linear_map whole) k = (
  if count == 0 then none else find_gap (λ i. get_or linear_map i 0 == 0) count size 0 0 0,
  linear size linear_map whole,
  k,
)
alloc_hwirq_range count (hierarchy size linear_map whole) k =
    (none, hierarchy size linear_map whole, k)

unfoldable pub free_hwirq_range : (base count : ℕ) → IrqDomain → Cache → IrqDomain × Cache
free_hwirq_range base count (tree_domain root max_irq) k =
    let (root, k) = tree_domain_release_range base count root k in (tree_domain root max_irq, k)
free_hwirq_range base count (linear size linear_map whole) k = (linear size linear_map whole, k)
free_hwirq_range base count (hierarchy size linear_map whole) k =
    (hierarchy size linear_map whole, k)

-- ===== src/Radix/Delete.antt =====
-- `radix_tree_delete`, `radix_tree_shrink` and `radix_tree_replace`.
use mathlib.Core.Option
use proto_kernel.Prelude.{ℕ, zero, suc, Option, none, some, ◌==◌, ltb, if◌then◌else◌}
use proto_kernel.Bits.{sub32}
use proto_kernel.Radix.{Tree, Rnode, null, tree, Root, get_slot, maxindex, point, count_of}
use proto_kernel.Radix.Cache.{Cache, node_free}

-- On the way back an empty child is freed and taken out of its slot. The code looks for that slot by
-- the child's address, which no other slot holds.
abbrev pub put_back :
    (h : ℕ) → Tree (suc h) → (offset : ℕ) → ℕ × Tree h × Cache → ℕ × Tree (suc h) × Cache
put_back h n offset (ret, child, k) =
    if count_of h child == 0
    then (ret, record n { slots = point n.slots offset none; count = sub32 n.count 1 }, node_free k)
    else (ret, record n { slots = point n.slots offset (some child) }, k)

-- The walk down, and the item taken out; `none` is a walk that finds no item.
unfoldable pub delete_in : (h : ℕ) → Tree h → (index : ℕ) → Cache → Option (ℕ × Tree h × Cache)
delete_in zero n index k =
    let offset = get_slot index 0 in
    if n.slots offset == 0
    then none
    else some
        (n.slots offset, record n { slots = point n.slots offset 0; count = sub32 n.count 1 }, k)
delete_in (suc h) n index k =
    let offset = get_slot index (suc h) in
    elim (n.slots offset) [
      | none ↦ none
      | some child ↦ Option.map (put_back h n offset) (delete_in h child index k)
    ]

-- `while (root->height > 1)`
unfoldable pub shrink_from : (h : ℕ) → Tree h → Cache → Rnode × Cache
shrink_from zero n k = (tree 0 n, k)
shrink_from (suc h) n k =
    if n.count == 1
    then elim (n.slots 0) [
      | none ↦ (tree (suc h) n, k)
      | some child ↦ shrink_from h child (node_free k)
    ]
    else (tree (suc h) n, k)

-- an empty leaf at the root is freed
unfoldable pub drop_leaf : ℕ → Rnode × Cache → Root × Cache
drop_leaf max_key (null, k) = (record { rnode = null; max_key = max_key }, k)
drop_leaf max_key (tree (suc h) n, k) = (record { rnode = tree (suc h) n; max_key = max_key }, k)
drop_leaf max_key (tree zero n, k) =
    if n.count == 0
    then (record { rnode = null; max_key = 0 }, node_free k)
    else (record { rnode = tree 0 n; max_key = max_key }, k)

unfoldable pub radix_tree_shrink : Root → Cache → Root × Cache
radix_tree_shrink root k = elim root.rnode [
  | null ↦ drop_leaf root.max_key (null, k)
  | tree h n ↦ drop_leaf root.max_key (shrink_from h n k)
]

-- the root past the walk: freed if it is empty
unfoldable pub after_delete : Root → (h : ℕ) → Tree h → Cache → Root × Cache
after_delete root h n k =
    if count_of h n == 0
    then radix_tree_shrink (record { rnode = null; max_key = 0 }) (node_free k)
    else radix_tree_shrink (record root { rnode = tree h n }) k

-- `if (index == root->max_key) root->max_key = 0;`
unfoldable pub forget_key : ℕ → Root → Root
forget_key index root = if index == root.max_key then record root { max_key = 0 } else root

unfoldable pub delete_at : (h : ℕ) → Tree h → (index : ℕ) → Root → Cache → ℕ × Root × Cache
delete_at h n index root k = elim (delete_in h n index k) [
  | none ↦ (0, root, k)
  | some (ret, n, k) ↦ let (root, k) = after_delete root h n k in (ret, forget_key index root, k)
]

unfoldable pub radix_tree_delete : (index : ℕ) → Root → Cache → ℕ × Root × Cache
radix_tree_delete index root k = elim root.rnode [
  | null ↦ (0, root, k)
  | tree h n ↦ if ltb (maxindex (suc h)) index then (0, root, k) else delete_at h n index root k
]

abbrev pub hang : (h : ℕ) → Tree (suc h) → (offset : ℕ) → ℕ × Tree h → ℕ × Tree (suc h)
hang h n offset (old, child) = (old, record n { slots = point n.slots offset (some child) })

unfoldable pub replace_in : (h : ℕ) → Tree h → (index item : ℕ) → Option (ℕ × Tree h)
replace_in zero n index item =
    some (n.slots (get_slot index 0), record n { slots = point n.slots (get_slot index 0) item })
replace_in (suc h) n index item =
    let offset = get_slot index (suc h) in
    elim (n.slots offset) [
      | none ↦ none
      | some child ↦ Option.map (hang h n offset) (replace_in h child index item)
    ]

unfoldable pub replace_at : (h : ℕ) → Tree h → (index item : ℕ) → Root → ℕ × Root
replace_at h n index item root = elim (replace_in h n index item) [
  | none ↦ (0, root)
  | some (old, n) ↦ (old, record root { rnode = tree h n })
]

unfoldable pub radix_tree_replace : (index item : ℕ) → Root → Cache → ℕ × Root × Cache
radix_tree_replace index item root k =
    if item == 0 then radix_tree_delete index root k else elim root.rnode [
      | null ↦ (0, root, k)
      | tree h n ↦
          if ltb (maxindex (suc h)) index
          then (0, root, k)
          else (let (old, root) = replace_at h n index item root in (old, root, k))
    ]

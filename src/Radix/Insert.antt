-- ===== src/Radix/Insert.antt =====
-- `radix_tree_extend` and `radix_tree_insert`. The state is the root and the cache of nodes; the result
-- `false` is -1.
use proto_kernel.Prelude.{
  ℕ, zero, suc, ◌+◌, ◌-◌, Bool, true, false, Option, none, some, ◌==◌, ltb, if◌then◌else◌,
}
use proto_kernel.Bits.{u32}
use proto_kernel.Radix.{
  Node, Tree, Rnode, null, tree, Root, get_slot, maxindex, point, tree_create, tag_set, any_tag_set,
}
use proto_kernel.Radix.Cache.{Cache, node_alloc}

-- `while (index > radix_tree_maxindex(height)) height++;`; a sixth level holds every index
unfoldable pub height_from : (fuel height index : ℕ) → ℕ
height_from zero height index = height
height_from (suc fuel) height index =
    if ltb (maxindex height) index then height_from fuel (height + 1) index else height

abbrev pub height_for : ℕ → ℕ
height_for index = height_from 5 1 index

-- the tags of the old root, at slot 0 of the new one
unfoldable pub tag_up : (h : ℕ) → Tree h → Node (Option (Tree h)) → ℕ → Node (Option (Tree h))
tag_up h child n tag = if any_tag_set h child tag then tag_set n tag 0 else n

unfoldable pub grow_node : (h : ℕ) → Tree h → Node (Option (Tree h))
grow_node h child =
    let n : Tree (suc h) = tree_create (suc h) in
    tag_up h child (tag_up h child (record n { count = 1; slots = point n.slots 0 (some child) }) 0)
      1

-- `while (height > root->height)`
unfoldable pub grow : (left : ℕ) → (h : ℕ) → Tree h → Cache → Bool × Rnode × Cache
grow zero h n k = (true, tree h n, k)
grow (suc left) h n k =
    let (got, k) = node_alloc k in
    elim got [ false ↦ (false, tree h n, k) | true ↦ grow left (suc h) (grow_node h n) k ]

unfoldable pub extend : Rnode → (index : ℕ) → Cache → Bool × Rnode × Cache
extend null index k =
    let (got, k) = node_alloc k in
    elim got [ false ↦ (false, null, k) | true ↦ grow (height_for index - 1) 0 (tree_create 0) k ]
extend (tree h n) index k = grow (height_for index - suc h) h n k

-- the child of a slot, or a new one; with it whether it is new
unfoldable pub child_or_new : (h : ℕ) → Option (Tree h) → Cache → Option (Bool × Tree h) × Cache
child_or_new h (some child) k = (some (false, child), k)
child_or_new h none k =
    let (got, k) = node_alloc k in
    elim got [ false ↦ (none, k) | true ↦ (some (true, tree_create h), k) ]

-- the child in its slot
abbrev pub attach :
    (h : ℕ)
    → Tree (suc h)
    → (offset : ℕ) → (is_new : Bool) → Bool × Tree h × Cache
    → Bool × Tree (suc h) × Cache
attach h n offset is_new (done, child, k) = (
  done,
  record n {
    slots = point n.slots offset (some child);
    count = if is_new then u32 (n.count + 1) else n.count;
  },
  k,
)

-- the walk down, with the nodes it makes
unfoldable pub insert_in : (h : ℕ) → Tree h → (index item : ℕ) → Cache → Bool × Tree h × Cache
insert_in zero n index item k =
    let offset = get_slot index 0 in
    if n.slots offset == 0
    then (true, record n { slots = point n.slots offset item; count = u32 (n.count + 1) }, k)
    else (false, n, k)
insert_in (suc h) n index item k =
    let offset = get_slot index (suc h) in
    let (found, k) = child_or_new h (n.slots offset) k in
    elim found [
      | none ↦ (false, n, k)
      | some (is_new, child) ↦ attach h n offset is_new (insert_in h child index item k)
    ]

unfoldable pub insert_at : (index item : ℕ) → Root → Bool × Rnode × Cache → Bool × Root × Cache
insert_at index item root (false, r, k) = (false, record root { rnode = r }, k)
insert_at index item root (true, null, k) = (false, record root { rnode = null }, k)
insert_at index item root (true, tree h n, k) =
    let (done, n, k) = insert_in h n index item k in
    (
      done,
      record root {
        rnode = tree h n;
        max_key =
            if done then if ltb root.max_key index then index else root.max_key else root.max_key;
      },
      k,
    )

unfoldable pub radix_tree_insert : (index item : ℕ) → Root → Cache → Bool × Root × Cache
radix_tree_insert index item root k =
    if item == 0 then (false, root, k) else insert_at index item root (extend root.rnode index k)

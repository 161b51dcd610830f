-- ===== src/Radix/Tags.antt =====
-- The tags: a bit at an item's slot, and at the slots above it.
use mathlib.Core.Option
use proto_kernel.Prelude.{
  ℕ, zero, suc, ◌-◌, Bool, true, false, Option, none, some, ◌==◌, ltb, leb, if◌then◌else◌,
}
use proto_kernel.Radix.{
  Tree, null, tree, Root, get_slot, maxindex, point, tag_set, tag_clear, tag_get, any_tag_set,
}

abbrev pub tag_max : ℕ
tag_max = 2

-- one round of `while (parent)`, if the walk up goes on
abbrev pub tag_parent :
    (h : ℕ) → Tree (suc h) → (index tag : ℕ) → Bool × Tree h → Bool × Tree (suc h)
tag_parent h n index tag (up, child) =
    let n = record n { slots = point n.slots (get_slot index (suc h)) (some child) } in
    let offset = get_slot index n.height in
    if up
    then if tag_get n tag offset then (false, n) else (true, tag_set n tag offset)
    else (false, n)

-- The item's bit, then the parents' bits up to one that is set; `none` is -1.
unfoldable pub tag_set_in : (h : ℕ) → Tree h → (index tag : ℕ) → Option (Bool × Tree h)
tag_set_in zero n index tag =
    let offset = get_slot index 0 in
    if n.slots offset == 0 then none else some (true, tag_set n tag offset)
tag_set_in (suc h) n index tag = elim (n.slots (get_slot index (suc h))) [
  | none ↦ none
  | some child ↦ Option.map (tag_parent h n index tag) (tag_set_in h child index tag)
]

unfoldable pub radix_tree_tag_set : (index tag : ℕ) → Root → Bool × Root
radix_tree_tag_set index tag root = if leb tag_max tag then (false, root) else elim root.rnode [
  | null ↦ (false, root)
  | tree h n ↦
      if ltb (maxindex (suc h)) index then (false, root) else elim (tag_set_in h n index tag) [
        | none ↦ (false, root)
        | some (up, n) ↦ (true, record root { rnode = tree h n })
      ]
]

-- `child && any_tag_set(child, tag)`
unfoldable pub tagged_child : (h : ℕ) → Option (Tree h) → ℕ → Bool
tagged_child h none tag = false
tagged_child h (some child) tag = any_tag_set h child tag

-- One round of `while (node->parent)`. The offset is of the level below, `parent->height - 1`.
abbrev pub clear_parent :
    (h : ℕ) → Tree (suc h) → (index tag : ℕ) → Bool × Tree h → Bool × Tree (suc h)
clear_parent h n index tag (up, child) =
    let n = record n { slots = point n.slots (get_slot index (suc h)) (some child) } in
    let offset = get_slot index (n.height - 1) in
    if up
    then if tagged_child h (n.slots offset) tag then (false, n) else (true, tag_clear n tag offset)
    else (false, n)

unfoldable pub tag_clear_in : (h : ℕ) → Tree h → (index tag : ℕ) → Option (Bool × Tree h)
tag_clear_in zero n index tag =
    let offset = get_slot index 0 in
    if tag_get n tag offset then some (true, tag_clear n tag offset) else none
tag_clear_in (suc h) n index tag = elim (n.slots (get_slot index (suc h))) [
  | none ↦ none
  | some child ↦ Option.map (clear_parent h n index tag) (tag_clear_in h child index tag)
]

unfoldable pub radix_tree_tag_clear : (index tag : ℕ) → Root → Root
radix_tree_tag_clear index tag root = if leb tag_max tag then root else elim root.rnode [
  | null ↦ root
  | tree h n ↦ if ltb (maxindex (suc h)) index then root else elim (tag_clear_in h n index tag) [
    | none ↦ root
    | some (up, n) ↦ record root { rnode = tree h n }
  ]
]

unfoldable pub tag_get_in : (h : ℕ) → Tree h → (index tag : ℕ) → Bool
tag_get_in zero n index tag = tag_get n tag (get_slot index 0)
tag_get_in (suc h) n index tag = elim (n.slots (get_slot index (suc h))) [
  | none ↦ false
  | some child ↦ tag_get_in h child index tag
]

unfoldable pub radix_tree_tag_get : (index tag : ℕ) → Root → Bool
radix_tree_tag_get index tag root = if leb tag_max tag then false else elim root.rnode [
  | null ↦ false
  | tree h n ↦ if ltb (maxindex (suc h)) index then false else tag_get_in h n index tag
]

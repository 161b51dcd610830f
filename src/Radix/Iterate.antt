-- ===== src/Radix/Iterate.antt =====
-- `radix_tree_next_slot` and `radix_tree_gang_lookup`.
use Prim.Native.Nat.{bit_or}
use proto_kernel.Prelude.{
  ℕ, zero, suc, ◌+◌, ◌-◌, ◌*◌, ◌^◌, ◌⊎◌, inl, inr, true, false, Option, none, some, List, [], ◌∷◌,
  ◌==◌, ltb, if◌then◌else◌,
}
use proto_kernel.Bits.{u32}
use proto_kernel.Radix.{Tree, null, tree, Root, get_slot, maxindex}

-- `index | ((1UL << shift) - 1)) + 1` in `uint32_t`, past the subtree of a level
abbrev pub past : (index height : ℕ) → ℕ
past index height = u32 (bit_or index (2 ^ (6 * height) - 1) + 1)

-- the walk down: the index past a subtree that is not there, or the leaf's slot
unfoldable pub probe : (h : ℕ) → Tree h → (index : ℕ) → ℕ ⊎ ℕ
probe zero n index = inr (n.slots (get_slot index 0))
probe (suc h) n index = elim (n.slots (get_slot index (suc h))) [
  | none ↦ inl (past index (suc h))
  | some child ↦ probe h child index
]

-- what the iterator and the result say: the index and the item
unfoldable pub scan_from : (fuel : ℕ) → (h : ℕ) → Tree h → (max_key index : ℕ) → Option (ℕ × ℕ)
scan_from zero h n max_key index = none
scan_from (suc fuel) h n max_key index = elim (ltb max_key index) [
  | true ↦ none
  | false ↦ elim (ltb (maxindex (suc h)) index) [
    | true ↦ none
    | false ↦ elim (probe h n index) [
      | inl next ↦ elim (next == 0) [ true ↦ none | false ↦ scan_from fuel h n max_key next ]
      | inr item ↦ elim (item == 0) [
        | false ↦ some (index, item)
        | true ↦ elim (u32 (index + 1) == 0) [
          | true ↦ none
          | false ↦ scan_from fuel h n max_key (u32 (index + 1))
        ]
      ]
    ]
  ]
]

-- Each round moves the index up, so one round for each index up to `max_key` is enough.
unfoldable pub next_slot : Root → (index : ℕ) → Option (ℕ × ℕ)
next_slot root index = elim root.rnode [
  | null ↦ none
  | tree h n ↦ scan_from (root.max_key + 1 - index) h n root.max_key index
]

-- `iter->next_index`
abbrev pub next_index : ℕ → ℕ
next_index index = if index == 0xffff_ffff then 0 else index + 1

-- `while (count < max_items)`, with `max_items - count` rounds left
unfoldable pub gang_from : (left : ℕ) → Root → (index : ℕ) → List ℕ
gang_from zero root index = []
gang_from (suc left) root index = elim (next_slot root index) [
  | none ↦ []
  | some (found, item) ↦ item ∷ gang_from left root (next_index found)
]

unfoldable pub gang_lookup : Root → (first_index max_items : ℕ) → List ℕ
gang_lookup root first_index max_items = gang_from max_items root first_index

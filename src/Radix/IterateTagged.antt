-- ===== src/Radix/IterateTagged.antt =====
-- `radix_tree_next_tagged`. `i << shift` is an `int` in the code: at the sixth level it overflows for
-- `i` from 2 on, and is taken here as the wrapped value.
use Prim.Native.Nat.{bit_and, bit_or}
use proto_kernel.Prelude.{
  ℕ, zero, suc, ◌+◌, ◌-◌, ◌*◌, ◌^◌, ◌⊎◌, inl, inr, Bool, true, false, not, ◌&&◌, Option, none, some,
  ◌==◌, ltb, leb, if◌then◌else◌,
}
use proto_kernel.Bits.{u32, complement}
use proto_kernel.Radix.{is_some, Tree, null, tree, Root, map_size, get_slot, maxindex, tag_get}
use proto_kernel.Radix.Tags.{tag_max}

-- `for (i = offset; i < RADIX_TREE_MAP_SIZE; i++)`, with `left` rounds left
unfoldable pub first_slot : (left i : ℕ) → (ℕ → Bool) → Option ℕ
first_slot zero i test = none
first_slot (suc left) i test =
    let rest = first_slot left (i + 1) test in if test i then some i else rest

abbrev pub slot_from : (index height : ℕ) → (ℕ → Bool) → Option ℕ
slot_from index height test =
    first_slot (map_size - get_slot index height) (get_slot index height) test

-- the start of the subtree of slot `i`, if it is past the slot of the index
abbrev pub move_to : (index height i : ℕ) → ℕ
move_to index height i =
    if ltb (get_slot index height) i
    then bit_or (bit_and index (u32 (complement (2 ^ (6 * (height + 1)) - 1))))
        (u32 (i * 2 ^ (6 * height)))
    else index

-- the walk down: the index to go on with, 0 for none, or the index and the item of a tagged slot
unfoldable pub probe_tagged : (h : ℕ) → Tree h → (index tag : ℕ) → ℕ ⊎ (ℕ × ℕ)
probe_tagged zero n index tag =
    elim (slot_from index 0 (λ i. tag_get n tag i && not (n.slots i == 0))) [
      | none ↦ inl (u32 (bit_or index 63 + 1))
      | some offset ↦ inr (bit_or (bit_and index (2 ^ 32 - 1 - 63)) offset, n.slots offset)
    ]
probe_tagged (suc h) n index tag =
    elim (slot_from index (suc h) (λ i. tag_get n tag i && is_some (n.slots i))) [
      | none ↦
          let new_index = u32 (bit_or index (2 ^ (6 * (suc h + 1)) - 1) + 1) in
          inl (if ltb new_index index then 0 else new_index)
      | some i ↦ elim (n.slots i) [
        | none ↦ inl 0
        | some child ↦ probe_tagged h child (move_to index (suc h) i) tag
      ]
    ]

unfoldable pub scan_tagged :
    (fuel : ℕ) → (h : ℕ) → Tree h → (max_key orig_index index tag : ℕ) → Option (ℕ × ℕ)
scan_tagged zero h n max_key orig_index index tag = none
scan_tagged (suc fuel) h n max_key orig_index index tag = elim (ltb max_key index) [
  | true ↦ none
  | false ↦ elim (ltb (maxindex (suc h)) index) [
    | true ↦ none
    | false ↦ elim (ltb 0 orig_index && ltb index orig_index) [
      | true ↦ none
      | false ↦ elim (probe_tagged h n index tag) [
        | inl next ↦ elim (next == 0) [
          | true ↦ none
          | false ↦ scan_tagged fuel h n max_key orig_index next tag
        ]
        | inr hit ↦ some hit
      ]
    ]
  ]
]

unfoldable pub next_tagged : Root → (index tag : ℕ) → Option (ℕ × ℕ)
next_tagged root index tag = if leb tag_max tag then none else elim root.rnode [
  | null ↦ none
  | tree h n ↦ scan_tagged (root.max_key + 1 - index) h n root.max_key index index tag
]

-- ===== src/Radix/Stats.antt =====
-- `radix_tree_empty` and `radix_tree_get_stats`.
use proto_kernel.Prelude.{ℕ, zero, suc, ◌+◌, Bool, true, false, none, some, ◌==◌, if◌then◌else◌}
use proto_kernel.Bits.{u32, u64}
use proto_kernel.Radix.{Tree, null, tree, Root, height_of, map_size}

unfoldable pub radix_tree_empty : Root → Bool
radix_tree_empty root = elim root.rnode [
  | null ↦ true
  | tree zero n ↦ n.count == 0
  | tree (suc h) n ↦ false
]

pub record Stats : Type 0 where
  pub nodes : ℕ
  pub height : ℕ
  pub entries : ℕ
  pub memory_usage : ℕ

abbrev pub node_bytes : ℕ
node_bytes = 544

-- `for (i = 0; i < RADIX_TREE_MAP_SIZE; i++)`, with `64 - i` rounds left
unfoldable pub each_slot : (left i : ℕ) → (ℕ → Stats → Stats) → Stats → Stats
each_slot zero i visit s = s
each_slot (suc left) i visit s = each_slot left (i + 1) visit (visit i s)

abbrev pub count_node : Stats → Stats
count_node s = record s {
  nodes = u32 (s.nodes + 1);
  memory_usage = u64 (s.memory_usage + node_bytes);
}

abbrev pub count_entry : ℕ → Stats → Stats
count_entry item s = if item == 0 then s else record s { entries = u32 (s.entries + 1) }

unfoldable pub count_nodes : (h : ℕ) → Tree h → Stats → Stats
count_nodes zero n s = each_slot map_size 0 (λ i s. count_entry (n.slots i) s) (count_node s)
count_nodes (suc h) n s =
    each_slot map_size 0 (λ i s. elim (n.slots i) [ none ↦ s | some child ↦ count_nodes h child s ])
      (count_node s)

abbrev pub radix_tree_get_stats : Root → Stats
radix_tree_get_stats root =
    let s : Stats = record {
      nodes = 0;
      height = height_of root.rnode;
      entries = 0;
      memory_usage = 0;
    } in
    elim root.rnode [ null ↦ s | tree h n ↦ count_nodes h n s ]

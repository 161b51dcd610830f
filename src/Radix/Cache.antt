-- ===== src/Radix/Cache.antt =====
-- kernel/lib/radix_tree_alloc.c: nodes are kept for reuse, at most 32 of them. A node on the list is
-- cleared and so only their number counts. What `kmalloc` will answer is a list; past its end there
-- is no memory.
use proto_kernel.Prelude.{ℕ, zero, suc, ◌+◌, Bool, true, false, List, [], ◌∷◌, ltb, if◌then◌else◌}
use proto_kernel.Bits.{u32, sub32}

pub record Cache : Type 0 where
  pub free_list : ℕ
  pub free_count : ℕ
  pub total_allocated : ℕ
  pub memory : List Bool

abbrev pub max_free_nodes : ℕ
max_free_nodes = 32

abbrev pub node_cache_init : Cache → Cache
node_cache_init k = record k { free_list = 0; free_count = 0; total_allocated = 0 }

-- whether there is a node
unfoldable pub from_kmalloc : Cache → List Bool → Bool × Cache
from_kmalloc k [] = (false, k)
from_kmalloc k (answer ∷ memory) = (
  answer,
  record k {
    memory = memory;
    total_allocated = if answer then u32 (k.total_allocated + 1) else k.total_allocated;
  },
)

unfoldable pub node_alloc : Cache → Bool × Cache
node_alloc k = elim k.free_list [
  | zero ↦ from_kmalloc k k.memory
  | suc n ↦ (true, record k { free_list = n; free_count = sub32 k.free_count 1 })
]

unfoldable pub node_free : Cache → Cache
node_free k =
    if ltb k.free_count max_free_nodes
    then record k { free_list = k.free_list + 1; free_count = u32 (k.free_count + 1) }
    else record k { total_allocated = sub32 k.total_allocated 1 }

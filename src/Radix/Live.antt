-- ===== src/Radix/Live.antt =====
-- The nodes in use of kernel/lib/radix_tree_alloc.c: those allocated and not kept for reuse.
use proto_kernel.Prelude.{
  ℕ, zero, suc, ◌+◌, ◌-◌, ◌^◌, ◌≤◌, ◌<◌, ◌≡◌, inl, inr, arith, Bool, true, false, List, [], ◌∷◌,
  ltb, if◌then◌else◌, Bool-cases,
}
use proto_kernel.Radix.Cache.{Cache, max_free_nodes, from_kmalloc, node_alloc, node_free}

abbrev pub CacheValid : Cache → Type 0
CacheValid k =
    (k.free_list ≡ k.free_count)
    × (k.free_count ≤ max_free_nodes)
    × (k.free_count ≤ k.total_allocated)
    × (k.total_allocated < 2 ^ 32 - 1)

abbrev pub live : Cache → ℕ
live k = k.total_allocated - k.free_count

-- room for one node more is left, or no node was given
abbrev pub Given : Cache → Bool × Cache → Type 0
Given k (got, k') =
    (live k' ≡ live k + (if got then 1 else 0)) × (k'.total_allocated < 2 ^ 32 - 1 → CacheValid k')

fields-Given :
    (free count total : ℕ) (memory : List Bool)
    → let k : Cache = record {
      free_list = free;
      free_count = count;
      total_allocated = total;
      memory = memory;
    } in
      CacheValid k → Given k (node_alloc k)
unfolding node_alloc from_kmalloc
fields-Given (suc free) count total memory (list, few, within, small) =
    (omega arith, λ room. (omega arith, omega arith, omega arith, omega arith))
fields-Given zero count total [] (list, few, within, small) =
    (omega arith, λ room. (list, few, within, small))
fields-Given zero count total (true ∷ memory) (list, few, within, small) =
    (omega arith, λ room. (list, few, omega arith, room))
fields-Given zero count total (false ∷ memory) (list, few, within, small) =
    (omega arith, λ room. (list, few, within, small))

node_alloc-Given : (k : Cache) → CacheValid k → Given k (node_alloc k)
node_alloc-Given k v = fields-Given k.free_list k.free_count k.total_allocated k.memory v

node_free-live :
    (k : Cache)
    → CacheValid k
    → 0 < live k
    → CacheValid (node_free k) × (live (node_free k) + 1 ≡ live k)
unfolding node_free
node_free-live k (list, few, within, small) used =
    elim (Bool-cases (ltb k.free_count max_free_nodes)) [
      | inl room ↦ rw room ((ground arith, ground arith, ground arith, ground arith), ground arith)
      | inr full ↦ rw full ((ground arith, ground arith, ground arith, ground arith), ground arith)
    ]

-- In a valid cache of nodes, which keeps 32 at most, radix_tree_node_alloc adds one to the nodes
-- in use exactly if it gives a node and leaves the cache valid as long as fewer than 2^32 - 1
-- nodes are allocated; if a node is in use, radix_tree_node_free takes one from them and leaves
-- the cache valid.
pub node_cache_lem :
    (k : Cache)
    → CacheValid k
    → Given k (node_alloc k)
      × (0 < live k → CacheValid (node_free k) × (live (node_free k) + 1 ≡ live k))
node_cache_lem k v = (node_alloc-Given k v, node_free-live k v)

-- ===== src/Radix/Tests.antt =====
-- Runs of the tree at concrete items, and each theorem at arguments that meet its hypotheses.
use proto_kernel.Prelude.{
  ℕ, ◌+◌, ◌<◌, ◌≡◌, refl, arith, Bool, true, false, none, some, List, [], ◌∷◌, replicate,
}
use proto_kernel.Radix.{
  Root, null, tree, radix_tree_init, node_create, tree_create, maxindex, lookup_in,
  radix_tree_lookup, tag_set, tag_get, tag_clear, any_tag_set, count_of,
}
use proto_kernel.Radix.Cache.{Cache, from_kmalloc, node_alloc, node_free}
use proto_kernel.Radix.Insert.{
  height_from, tag_up, grow_node, grow, extend, child_or_new, insert_in, insert_at,
  radix_tree_insert,
}
use proto_kernel.Radix.Delete.{
  delete_in, shrink_from, drop_leaf, radix_tree_shrink, after_delete, forget_key, delete_at,
  radix_tree_delete, replace_in, replace_at, radix_tree_replace,
}
use proto_kernel.Radix.Iterate.{probe, scan_from, next_slot, gang_from, gang_lookup}
use proto_kernel.Radix.IterateTagged.{first_slot, probe_tagged, scan_tagged, next_tagged}
use proto_kernel.Radix.Stats.{radix_tree_empty, each_slot, count_nodes, radix_tree_get_stats}
use proto_kernel.Radix.Tags.{
  tag_set_in, radix_tree_tag_set, tagged_child, tag_clear_in, radix_tree_tag_clear, tag_get_in,
  radix_tree_tag_get,
}
use proto_kernel.Radix.Extended.{RnodeValid}
use proto_kernel.Radix.Heights.{Least, height_from-Least}
use proto_kernel.Radix.Live.{CacheValid, Given, live, node_cache_lem}
use proto_kernel.Radix.Machine.{
  Call, insert, delete, calls, Steps, Holds, calls-Steps, radix_tree_init-Holds,
}
use proto_kernel.Radix.MaxKey.{
  Bounded, next_slot_lem, radix_tree_insert-Bounded, radix_tree_delete-forgets,
}
use proto_kernel.Radix.Gather.{Gathered, gang_lookup_lem}
use proto_kernel.Radix.Next.{Next}
use proto_kernel.Radix.Refine.{Inserted, radix_tree_insert_lem}
use proto_kernel.Radix.Removed.{Deleted, radix_tree_delete_lem}
use proto_kernel.Radix.Replaced.{Replaced, radix_tree_replace_lem}
use proto_kernel.Radix.Supply.{radix_tree_insert-done}
use proto_kernel.Radix.Tagged.{Marked, radix_tree_tag_set_lem}

all_code : Unit {0}
unfolding node_create tree_create maxindex lookup_in radix_tree_lookup tag_set tag_get tag_clear
    any_tag_set count_of from_kmalloc node_alloc node_free height_from tag_up grow_node grow extend
    child_or_new insert_in insert_at radix_tree_insert delete_in shrink_from drop_leaf
    radix_tree_shrink after_delete forget_key delete_at radix_tree_delete replace_in replace_at
    radix_tree_replace probe scan_from next_slot gang_from gang_lookup first_slot probe_tagged
    scan_tagged next_tagged radix_tree_empty each_slot count_nodes tag_set_in radix_tree_tag_set
    tagged_child tag_clear_in radix_tree_tag_clear tag_get_in radix_tree_tag_get
all_code = tt

abbrev store : Cache
store = record { free_list = 0; free_count = 0; total_allocated = 0; memory = replicate 24 true }

abbrev two_calls : List Call
two_calls = insert 5 11 ∷ insert 4100 22 ∷ []

abbrev two : Root
two = (calls two_calls (radix_tree_init, store)).1

abbrev two_store : Cache
two_store = (calls two_calls (radix_tree_init, store)).2

two_items :
    (radix_tree_lookup two 5 ≡ 11)
    × (radix_tree_lookup two 4100 ≡ 22)
    × (radix_tree_lookup two 6 ≡ 0)
    × (two.max_key ≡ 4100)
unfolding all_code
two_items = (refl, refl, refl, refl)

-- three leaves' worth of levels: a root, two inner nodes, two leaves
two_stats : (radix_tree_get_stats two).nodes ≡ 5
unfolding all_code
two_stats = refl

in_order : gang_lookup two 0 10 ≡ 11 ∷ 22 ∷ []
unfolding all_code
in_order = refl

-- the largest key deleted: key 5 is there and the iterator does not find it
forgotten :
    let root : Root = (radix_tree_delete 4100 two two_store).1 in
    (radix_tree_lookup root 5 ≡ 11) × (gang_lookup root 1 10 ≡ [])
unfolding all_code
forgotten = (refl, refl)

-- a replacement that fills a free slot is not counted, and is lost with the leaf
lost :
    let (old, root, k) = radix_tree_replace 6 33 two two_store in
    (radix_tree_lookup root 6 ≡ 33) × (radix_tree_lookup (radix_tree_delete 5 root k).1 6 ≡ 0)
unfolding all_code
lost = (refl, refl)

-- with the largest index in the tree the gather begins again at 0
again :
    let (done, root, k) = radix_tree_insert 0xffff_ffff 7 radix_tree_init store in
    gang_lookup root 0xffff_fff0 3 ≡ 7 ∷ 7 ∷ 7 ∷ []
unfolding all_code
again = refl

abbrev root_tagged : Root → (tag : ℕ) → Bool
root_tagged root tag = elim root.rnode [ null ↦ false | tree h n ↦ any_tag_set h n tag ]

-- the tag of the one tagged item cleared: the root keeps its bit
stale :
    let (done, root) = radix_tree_tag_set 4100 0 two in
    (next_tagged root 0 0 ≡ some (4100, 22))
    × (root_tagged (radix_tree_tag_clear 4100 0 root) 0 ≡ true)
    × (next_tagged (radix_tree_tag_clear 4100 0 root) 0 0 ≡ none)
unfolding all_code
stale = (refl, refl, refl)

two-Holds :
    (g : ℕ → ℕ) × Steps (λ j. 0) two_calls (calls two_calls (radix_tree_init, store)).0 g
    × Holds g two
two-Holds =
    calls-Steps two_calls (λ j. 0) radix_tree_init store (omega arith, (omega arith, tt))
      radix_tree_init-Holds

two-RnodeValid : RnodeValid two.rnode
two-RnodeValid = two-Holds.2.0

calls-Steps_example :
    (g : ℕ → ℕ) × Steps
      (λ j. 0)
      (insert 5 11 ∷ delete 5 ∷ [])
      (calls (insert 5 11 ∷ delete 5 ∷ []) (radix_tree_init, store)).0
      g
    × Holds g (calls (insert 5 11 ∷ delete 5 ∷ []) (radix_tree_init, store)).1
calls-Steps_example =
    calls-Steps (insert 5 11 ∷ delete 5 ∷ []) (λ j. 0) radix_tree_init store
      (omega arith, (omega arith, tt)) radix_tree_init-Holds

empty-Bounded : Bounded radix_tree_init
unfolding all_code
empty-Bounded = λ j w over. refl

one-Bounded : Bounded (radix_tree_insert 5 11 radix_tree_init store).1
one-Bounded =
    (radix_tree_insert-Bounded radix_tree_init 5 11 store tt (omega arith) empty-Bounded).1

one-RnodeValid : RnodeValid (radix_tree_insert 5 11 radix_tree_init store).1.rnode
one-RnodeValid = (radix_tree_insert_lem radix_tree_init 5 11 store tt (omega arith)).0

two-Bounded : Bounded two
two-Bounded =
    (radix_tree_insert-Bounded (radix_tree_insert 5 11 radix_tree_init store).1 4100 22
      (radix_tree_insert 5 11 radix_tree_init store).2 one-RnodeValid (omega arith) one-Bounded).1

radix_tree_insert_lem_example : Inserted two 6 33 (radix_tree_insert 6 33 two two_store)
radix_tree_insert_lem_example =
    radix_tree_insert_lem two 6 33 two_store two-RnodeValid (omega arith)

radix_tree_insert-done_example : (radix_tree_insert 6 33 two two_store).0 ≡ true
unfolding all_code
radix_tree_insert-done_example =
    radix_tree_insert-done two 6 33 two_store two-RnodeValid (omega arith) (omega arith)
      (omega arith) refl

radix_tree_insert-Bounded_example :
    RnodeValid (radix_tree_insert 6 33 two two_store).1.rnode
    × Bounded (radix_tree_insert 6 33 two two_store).1
radix_tree_insert-Bounded_example =
    radix_tree_insert-Bounded two 6 33 two_store two-RnodeValid (omega arith) two-Bounded

radix_tree_delete_lem_example : Deleted two 5 (radix_tree_delete 5 two two_store)
radix_tree_delete_lem_example = radix_tree_delete_lem two 5 two_store two-RnodeValid (omega arith)

radix_tree_delete-forgets_example :
    (radix_tree_lookup (radix_tree_delete 4100 two two_store).1 5 ≡ radix_tree_lookup two 5)
    × (next_slot (radix_tree_delete 4100 two two_store).1 5 ≡ none)
unfolding all_code
radix_tree_delete-forgets_example =
    radix_tree_delete-forgets two 4100 5 two_store two-RnodeValid (omega arith) refl (omega arith)
      (omega arith) (omega arith) (omega arith) (omega arith)

radix_tree_replace_lem_example : Replaced two 5 33 (radix_tree_replace 5 33 two two_store)
unfolding all_code
radix_tree_replace_lem_example =
    radix_tree_replace_lem two 5 33 two_store two-RnodeValid (omega arith) (omega arith)
      (omega arith)

next_slot_lem_example : Next (radix_tree_lookup two) 6 (next_slot two 6)
next_slot_lem_example = next_slot_lem two 6 two-RnodeValid two-Bounded (omega arith)

gang_lookup_lem_example : Gathered (radix_tree_lookup two) 10 0 (gang_lookup two 0 10)
unfolding all_code
gang_lookup_lem_example = gang_lookup_lem two two-RnodeValid two-Bounded refl 0 10 (omega arith)

height_from-Least_example : Least 1 4100 (height_from 5 1 4100)
height_from-Least_example =
    height_from-Least 5 1 4100 (omega arith) (omega arith) (omega arith) (omega arith)

radix_tree_tag_set_lem_example : Marked two 5 1 (radix_tree_tag_set 5 1 two)
radix_tree_tag_set_lem_example = radix_tree_tag_set_lem two 5 1 two-RnodeValid (omega arith)

node_cache_lem_example :
    Given two_store (node_alloc two_store)
    × (0 < live two_store
        → CacheValid (node_free two_store) × (live (node_free two_store) + 1 ≡ live two_store))
unfolding all_code
node_cache_lem_example = node_cache_lem two_store (refl, omega arith, omega arith, omega arith)

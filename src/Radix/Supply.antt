-- ===== src/Radix/Supply.antt =====
-- How many nodes kernel/lib/radix_tree_alloc.c can still give, and that eleven are enough to insert.
use proto_kernel.Prelude.{
  Bool-cases, inl, inr, ℕ, zero, suc, ◌+◌, ◌-◌, ◌^◌, ◌≤◌, ◌<◌, ◌≡◌, ◌≢◌, refl, sym, ◌∙◌, arith,
  Bool, true, false, Option, none, some, List, [], ◌∷◌, ◌==◌, if◌then◌else◌,
}
use proto_kernel.Radix.{
  Tree, Rnode, null, tree, Root, get_slot, tree_create, lookup_in, radix_tree_lookup,
}
use proto_kernel.Radix.Cache.{Cache, from_kmalloc, node_alloc}
use proto_kernel.Radix.Insert.{
  attach, height_for, child_or_new, grow_node, grow, extend, insert_in, insert_at,
  radix_tree_insert,
}
use proto_kernel.Radix.Valid.{below, lookup_in-suc, lookup_in-tree_create}
use proto_kernel.Radix.Heights.{height_from-LeastFit}
use proto_kernel.Radix.Extended.{radix_tree_lookup-found, RnodeValid, Extended, extend-Extended}

-- the answers of `kmalloc` up to the first that is NULL
abbrev pub granted : List Bool → ℕ
granted [] = 0
granted (answer ∷ memory) = if answer then granted memory + 1 else 0

abbrev pub supply : Cache → ℕ
supply k = k.free_list + granted k.memory

-- a call that succeeds and leaves `left` nodes
abbrev Served : (left : ℕ) → Bool → Cache → Type 0
Served left done k = (done ≡ true) × (left ≤ supply k)

fields-Served :
    (left free count total : ℕ) (memory : List Bool)
    → left + 1 ≤ free + granted memory
    → let k : Cache = record {
      free_list = free;
      free_count = count;
      total_allocated = total;
      memory = memory;
    } in
      Served left (node_alloc k).0 (node_alloc k).1
unfolding node_alloc from_kmalloc
fields-Served left (suc free) count total memory h = (refl, omega arith)
fields-Served left zero count total [] h = absurd (omega arith)
fields-Served left zero count total (true ∷ memory) h = (refl, omega arith)
fields-Served left zero count total (false ∷ memory) h = absurd (omega arith)

node_alloc-Served :
    (left : ℕ) (k : Cache) → left + 1 ≤ supply k → Served left (node_alloc k).0 (node_alloc k).1
node_alloc-Served left k h =
    fields-Served left k.free_list k.free_count k.total_allocated k.memory h

grow-Served :
    (more h : ℕ) (n : Tree h) (k : Cache) (left : ℕ)
    → left + more ≤ supply k
    → Served left (grow more h n k).0 (grow more h n k).2
unfolding grow
grow-Served zero h n k left enough = (refl, omega arith)
grow-Served (suc more) h n k left enough =
    let (got, rest) = node_alloc-Served (left + more) k (omega arith) in
    rw (got, grow) (grow-Served more (suc h) (grow_node h n) (node_alloc k).1 left rest)

extend-Served :
    (r : Rnode) (index : ℕ) (k : Cache) (left : ℕ)
    → index < 2 ^ 32
    → left + 6 ≤ supply k
    → Served left (extend r index k).0 (extend r index k).2
unfolding extend
extend-Served null index k left w enough =
    let (lo, hi, fits, least) = height_from-LeastFit 5 1 index (omega arith) (omega arith) w in
    let (got, rest) = node_alloc-Served (left + 5) k (omega arith) in
    rw (got, extend)
      (grow-Served (height_for index - 1) 0 (tree_create 0) (node_alloc k).1 left
        (omega (arith, hi, rest)))
extend-Served (tree h n) index k left w enough =
    let (lo, hi, fits, least) = height_from-LeastFit 5 1 index (omega arith) (omega arith) w in
    grow-Served (height_for index - suc h) h n k left (omega (arith, hi))

-- where `insert_in` goes on, with a node for each level below
child_or_new-Served :
    (h : ℕ) (s : Option (Tree h)) (k : Cache) (index : ℕ)
    → suc h ≤ supply k
    → below h s index ≡ 0
    → (is_new : Bool) × (child : Tree h) × ((child_or_new h s k).0 ≡ some (is_new, child))
      × (h ≤ supply (child_or_new h s k).1)
      × (lookup_in h child index ≡ 0)
unfolding child_or_new
child_or_new-Served h (some child) k index enough free = (false, child, refl, omega arith, free)
child_or_new-Served h none k index enough free =
    let (got, rest) = node_alloc-Served h k (omega arith) in
    (
      true,
      tree_create h,
      rw (got, child_or_new) refl,
      rw (got, child_or_new) rest,
      lookup_in-tree_create h index,
    )

insert_in-Served :
    (h : ℕ) (n : Tree h) (index item : ℕ) (k : Cache)
    → h ≤ supply k
    → lookup_in h n index ≡ 0
    → (insert_in h n index item k).0 ≡ true
unfolding insert_in lookup_in
insert_in-Served zero n index item k enough free = ground arith
insert_in-Served (suc h) n index item k enough free =
    let (is_new, child, run, rest, empty) =
      child_or_new-Served h (n.slots (get_slot index (suc h))) k index enough
        (sym (lookup_in-suc h n index) ∙ free) in
    rw (run, insert_in)
      (insert_in-Served h child index item (child_or_new h (n.slots (get_slot index (suc h))) k).1
        rest empty)

pub insert_at-Served :
    (root : Root) (index item : ℕ) (r : Bool × Rnode × Cache)
    → index < 2 ^ 32
    → Extended root.rnode index r
    → Served 5 r.0 r.2
    → radix_tree_lookup root index ≡ 0
    → (insert_at index item root r).0 ≡ true
unfolding insert_at
insert_at-Served root index item (false, r, k) w ext (served, enough) free = absurd (cc served)
insert_at-Served root index item (true, null, k) w (keeps, fits) served free =
    absurd (omega (arith, (fits refl).0))
insert_at-Served root index item (true, tree h n, k) w (((small, v), e), fits) (served, enough)
      free =
    insert_in-Served h n index item k (omega arith)
      (sym (rw (fits refl).1 refl) ∙ e index w ∙ sym (radix_tree_lookup-found root index) ∙ free)

-- With eleven nodes at hand, kept for reuse or from kmalloc, radix_tree_insert of an item that is
-- not NULL at a free index below 2^32 of a valid tree succeeds.
pub radix_tree_insert-done :
    (root : Root) (index item : ℕ) (k : Cache)
    → RnodeValid root.rnode
    → index < 2 ^ 32
    → 11 ≤ supply k
    → item ≢ 0
    → radix_tree_lookup root index ≡ 0
    → (radix_tree_insert index item root k).0 ≡ true
unfolding radix_tree_insert
radix_tree_insert-done root index item k v w enough nz free =
    let e : (item == 0) ≡ false = ground arith in
    rw (e, radix_tree_insert)
      (insert_at-Served root index item (extend root.rnode index k) w
        (extend-Extended root.rnode index k v w)
        (extend-Served root.rnode index k 5 w (omega arith)) free)

child_or_new-left :
    (h : ℕ) (s : Option (Tree h)) (k : Cache) (left : ℕ)
    → left + 1 ≤ supply k
    → left ≤ supply (child_or_new h s k).1
unfolding child_or_new
child_or_new-left h (some child) k left enough = omega arith
child_or_new-left h none k left enough =
    let (got, rest) = node_alloc-Served left k enough in rw (got, child_or_new) rest

-- the walk takes a node for each level at most
insert_in-left :
    (h : ℕ) (n : Tree h) (index item : ℕ) (k : Cache) (left : ℕ)
    → left + h ≤ supply k
    → left ≤ supply (insert_in h n index item k).2
unfolding insert_in
insert_in-left zero n index item k left enough =
    elim (Bool-cases (n.slots (get_slot index 0) == 0)) [
      | inl free ↦ rw (free, insert_in) (omega arith)
      | inr used ↦ rw (used, insert_in) (omega arith)
    ]
insert_in-left (suc h) n index item k left enough =
    let s = n.slots (get_slot index (suc h)) in
    let rest = child_or_new-left h s k (left + h) (omega arith) in
    elim (child_or_new h s k).0
      as (λ o.
        left
        ≤ supply
            (elim o as (λ o. Bool × Tree (suc h) × Cache) [
              | none ↦ (false, n, (child_or_new h s k).1)
              | some (is_new, child) ↦
                  attach h n (get_slot index (suc h)) is_new
                    (insert_in h child index item (child_or_new h s k).1)
            ]).2) [
              | none ↦ omega (arith, rest)
              | some (is_new, child) ↦
                  insert_in-left h child index item (child_or_new h s k).1 left rest
            ]

insert_at-left :
    (index item left : ℕ) (root : Root) (r : Bool × Rnode × Cache)
    → RnodeValid r.1
    → left + 5 ≤ supply r.2
    → left ≤ supply (insert_at index item root r).2
unfolding insert_at
insert_at-left index item left root (false, r, k) v enough = omega arith
insert_at-left index item left root (true, null, k) v enough = omega arith
insert_at-left index item left root (true, tree h n, k) (small, v) enough =
    insert_in-left h n index item k left (omega arith)

-- an insertion takes eleven nodes at most
pub radix_tree_insert-left :
    (root : Root) (index item : ℕ) (k : Cache) (left : ℕ)
    → RnodeValid root.rnode
    → index < 2 ^ 32
    → left + 11 ≤ supply k
    → left ≤ supply (radix_tree_insert index item root k).2
unfolding radix_tree_insert
radix_tree_insert-left root index item k left v w enough = elim (Bool-cases (item == 0)) [
  | inl nothing ↦ rw (nothing, radix_tree_insert) (omega arith)
  | inr some_item ↦
      rw (some_item, radix_tree_insert)
        (insert_at-left index item left root (extend root.rnode index k)
          (extend-Extended root.rnode index k v w).0.0
          (extend-Served root.rnode index k (left + 5) w (omega arith)).1)
]

-- ===== src/Radix/Extended.antt =====
-- The new roots of `radix_tree_extend`: each keeps what the old root holds.
use proto_kernel.Prelude.{
  ℕ, zero, suc, ◌+◌, ◌-◌, ◌^◌, ◌≤◌, ◌<◌, ◌≡◌, inl, inr, refl, sym, ap, ◌∙◌, arith, Bool, true,
  false, Option, none, some, ltb, if◌then◌else◌, Bool-cases,
}
use proto_kernel.Radix.{
  is_some, Node, Tree, Rnode, null, tree, Root, height_of, get_slot, maxindex, point, node_create,
  tree_create, lookup_in, radix_tree_lookup, tag_set, any_tag_set,
}
use proto_kernel.Radix.Cache.{Cache, node_alloc}
use proto_kernel.Radix.Insert.{height_for, tag_up, grow_node, grow, extend}
use proto_kernel.Radix.Paths.{cover-up, fits_up}
use proto_kernel.Radix.Valid.{
  Valid, number, lookup_in-suc, tree_create-Valid, lookup_in-tree_create, number-false,
}
use proto_kernel.Radix.Inserted.{slots-Valid, node_count, below-point}
use proto_kernel.Radix.Heights.{height_from-LeastFit}

-- the item of an index, 0 for none
abbrev pub found : Rnode → ℕ → ℕ
found null j = 0
found (tree h n) j = if ltb (maxindex (suc h)) j then 0 else lookup_in h n j

pub radix_tree_lookup-found : (root : Root) (j : ℕ) → radix_tree_lookup root j ≡ found root.rnode j
unfolding radix_tree_lookup
radix_tree_lookup-found root j =
    elim root.rnode
      as (λ r.
        elim r [ null ↦ 0 | tree h n ↦ if ltb (maxindex (suc h)) j then 0 else lookup_in h n j ]
        ≡ found r j) [ null ↦ refl | tree h n ↦ refl ]

abbrev pub RnodeValid : Rnode → Type 0
RnodeValid null = Unit
RnodeValid (tree h n) = (h ≤ 5) × Valid h n

-- a root that holds what another holds
abbrev pub Keeps : Rnode → Rnode → Type 0
Keeps r r' = RnodeValid r' × ((j : ℕ) → j < 2 ^ 32 → found r' j ≡ found r j)

tag_up-slots :
    (h : ℕ) (child : Tree h) (n : Node (Option (Tree h))) (tag : ℕ)
    → ((tag_up h child n tag).slots ≡ n.slots)
      × ((tag_up h child n tag).count ≡ n.count)
      × ((tag_up h child n tag).height ≡ n.height)
unfolding tag_up tag_set
tag_up-slots h child n tag = elim (Bool-cases (any_tag_set h child tag)) [
  | inl e ↦ rw e (refl, refl, refl)
  | inr e ↦ rw e (refl, refl, refl)
]

abbrev only : (h : ℕ) → Tree h → ℕ → Option (Tree h)
only h child = point (λ j. none) 0 (some child)

grow_node-parts :
    (h : ℕ) (child : Tree h)
    → ((grow_node h child).slots ≡ only h child)
      × ((grow_node h child).count ≡ 1)
      × ((grow_node h child).height ≡ suc h)
unfolding grow_node tree_create node_create
grow_node-parts h child =
    let n0 : Tree (suc h) = record {
      height = suc h;
      count = 1;
      slots = only h child;
      tags = λ tag. 0;
    } in
    let n1 = tag_up h child n0 0 in
    let (s1, c1, h1) = tag_up-slots h child n0 0 in
    let (s2, c2, h2) = tag_up-slots h child n1 1 in (s2 ∙ s1, c2 ∙ c1, h2 ∙ h1)

only-count : (h : ℕ) (child : Tree h) → 1 ≡ number (λ i. is_some (only h child i)) 64
only-count h child =
    omega (arith, node_count {A = Tree h} (λ j. none) 0 (some child) (omega arith), number-false 64)

grow_node-Valid : (h : ℕ) (child : Tree h) → Valid h child → Valid (suc h) (grow_node h child)
grow_node-Valid h child v =
    let (slots, count, level) = grow_node-parts h child in
    (
      level,
      count
          ∙ only-count h child
          ∙ ap (λ (f : ℕ → Option (Tree h)). number (λ i. is_some (f i)) 64) (sym slots),
      λ i c e.
          slots-Valid h (λ j. none) 0 child (λ i c bad. absurd (cc bad)) v i c
            (cc (ap (λ (f : ℕ → Option (Tree h)). f i) slots, e)),
    )

grow_node-found :
    (h : ℕ) (child : Tree h) (j : ℕ)
    → h ≤ 4
    → j < 2 ^ 32
    → found (tree (suc h) (grow_node h child)) j ≡ found (tree h child) j
grow_node-found h child j small w =
    let (slots, count, level) = grow_node-parts h child in
    rw
      (
        lookup_in-suc h (grow_node h child) j,
        slots,
        below-point h (λ j. none) 0 (get_slot j (suc h)) (some child) j,
      )
      (cover-up h j (lookup_in h child j) small w)

pub Keeps-trans : (a b c : Rnode) → Keeps a b → Keeps b c → Keeps a c
Keeps-trans a b c (v, e) (v', e') = (v', λ j w. e' j w ∙ e j w)

-- the loop of `radix_tree_extend`
abbrev pub Grown : Rnode → (height : ℕ) → Bool × Rnode × Cache → Type 0
Grown r height (done, r', k) = Keeps r r' × (done ≡ true → height_of r' ≡ height)

grow-Grown :
    (left h : ℕ) (n : Tree h) (k : Cache)
    → h + left ≤ 5
    → Valid h n
    → Grown (tree h n) (suc h + left) (grow left h n k)
unfolding grow
grow-Grown zero h n k small v = (((omega arith, v), λ j w. refl), λ e. omega arith)
grow-Grown (suc left) h n k small v =
    elim (node_alloc k).0
      as (λ got. Grown (tree h n) (suc h + suc left) (elim got [
        | false ↦ (false, tree h n, (node_alloc k).1)
        | true ↦ grow left (suc h) (grow_node h n) (node_alloc k).1
      ])) [
        | false ↦ (((omega arith, v), λ j w. refl), λ bad. absurd (cc bad))
        | true ↦
            let (keeps, high) =
              grow-Grown left (suc h) (grow_node h n) (node_alloc k).1 (omega arith)
                (grow_node-Valid h n v) in
            (
              Keeps-trans (tree h n) (tree (suc h) (grow_node h n))
                  (grow left (suc h) (grow_node h n) (node_alloc k).1).1
                  (
                    (omega arith, grow_node-Valid h n v),
                    λ j w. grow_node-found h n j (omega arith) w,
                  )
                  keeps,
              λ done. high done ∙ omega arith,
            )
      ]

-- the root of a tree that holds an index
abbrev pub Extended : Rnode → (index : ℕ) → Bool × Rnode × Cache → Type 0
Extended r index (done, r', k) =
    Keeps r r' × (done ≡ true → (0 < height_of r') × (ltb (maxindex (height_of r')) index ≡ false))

grow-Extended :
    (h : ℕ) (n : Tree h) (index : ℕ) (k : Cache)
    → h ≤ 5
    → Valid h n
    → index < 2 ^ 32
    → Extended (tree h n) index (grow (height_for index - suc h) h n k)
grow-Extended h n index k small v w =
    let (lo, hi, fits, least) = height_from-LeastFit 5 1 index (omega arith) (omega arith) w in
    let (keeps, high) = grow-Grown (height_for index - suc h) h n k (omega arith) v in
    (
      keeps,
      λ done. (
        omega (arith, high done),
        fits_up index (height_for index) (height_of (grow (height_for index - suc h) h n k).1)
            (omega (arith, high done)) (omega (arith, high done)) fits,
      ),
    )

pub extend-Extended :
    (r : Rnode) (index : ℕ) (k : Cache)
    → RnodeValid r
    → index < 2 ^ 32
    → Extended r index (extend r index k)
unfolding extend
extend-Extended null index k v w =
    elim (node_alloc k).0
      as (λ got. Extended null index (elim got [
        | false ↦ (false, null, (node_alloc k).1)
        | true ↦ grow (height_for index - 1) 0 (tree_create 0) (node_alloc k).1
      ])) [
        | false ↦ ((tt, λ j w. refl), λ bad. absurd (cc bad))
        | true ↦
            let (keeps, fits) =
              grow-Extended 0 (tree_create 0) index (node_alloc k).1 (omega arith)
                (tree_create-Valid 0) w in
            (
              Keeps-trans null (tree 0 (tree_create 0))
                  (grow (height_for index - 1) 0 (tree_create 0) (node_alloc k).1).1
                  (
                    (omega arith, tree_create-Valid 0),
                    λ j w. ground (arith, lookup_in-tree_create 0 j),
                  )
                  keeps,
              fits,
            )
      ]
extend-Extended (tree h n) index k (small, v) w = grow-Extended h n index k small v w

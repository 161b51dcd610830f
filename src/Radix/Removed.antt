-- ===== src/Radix/Removed.antt =====
-- `radix_tree_shrink` and `radix_tree_delete` on the map of the tree.
use proto_kernel.Prelude.{
  ℕ, zero, suc, ◌^◌, ◌≤◌, ◌<◌, ◌≡◌, inl, inr, refl, sym, ◌∙◌, arith, false, Option, none, some,
  ◌==◌, ltb, if◌then◌else◌, Bool-cases,
}
use proto_kernel.Radix.{
  is_some, Tree, Rnode, null, tree, Root, get_slot, maxindex, count_of, lookup_in,
  radix_tree_lookup,
}
use proto_kernel.Radix.Cache.{Cache, node_free}
use proto_kernel.Radix.Delete.{
  delete_in, shrink_from, drop_leaf, radix_tree_shrink, after_delete, forget_key, delete_at,
  radix_tree_delete,
}
use proto_kernel.Radix.Paths.{same, same-eq, cover-up, maxindex-lt, get_slot-lt}
use proto_kernel.Radix.Valid.{Valid, number-one, below, lookup_in-suc, lookup_in-count_zero}
use proto_kernel.Radix.Extended.{found, radix_tree_lookup-found, RnodeValid, Keeps, Keeps-trans}
use proto_kernel.Radix.Deleted.{Took, delete_in-Took}

-- an inner node with one child, in slot 0
lone-lookup :
    (h : ℕ) (n : Tree (suc h)) (child : Tree h) (j : ℕ)
    → Valid (suc h) n
    → n.count ≡ 1
    → n.slots 0 ≡ some child
    → lookup_in (suc h) n j ≡ (if get_slot j (suc h) == 0 then lookup_in h child j else 0)
lone-lookup h n child j (level, count, all) one at =
    lookup_in-suc h n j ∙ (elim (Bool-cases (get_slot j (suc h) == 0)) [
      | inl e ↦ let first : get_slot j (suc h) ≡ 0 = ground arith in rw (e, first, at) refl
      | inr e ↦ rw e (
          empty (n.slots (get_slot j (suc h))) (
            number-one (λ i. is_some (n.slots i)) 64 0 (get_slot j (suc h)) (sym count ∙ one)
              (omega arith) (get_slot-lt j (suc h)) (rw at refl) (λ bad. ground arith)))
    ])
  where
    empty : (s : Option (Tree h)) → is_some s ≡ false → below h s j ≡ 0
    empty none e = refl
    empty (some c) e = absurd (cc e)

lone-Keeps :
    (h : ℕ) (n : Tree (suc h)) (child : Tree h)
    → suc h ≤ 5
    → Valid (suc h) n
    → n.count ≡ 1
    → n.slots 0 ≡ some child
    → Keeps (tree (suc h) n) (tree h child)
lone-Keeps h n child small v one at = (
  (omega arith, v.2 0 child at),
  λ j w.
      rw (lone-lookup h n child j v one at)
        (sym (cover-up h j (lookup_in h child j) (omega arith) w)),
)

-- one round of the shrinking
round-Keeps :
    (h : ℕ) (n : Tree (suc h)) (s : Option (Tree h)) (k : Cache)
    → suc h ≤ 5
    → Valid (suc h) n
    → n.count ≡ 1
    → n.slots 0 ≡ s
    → ((child : Tree h) (k : Cache)
        → Valid h child
        → Keeps (tree h child) (shrink_from h child k).0)
    → Keeps
        (tree (suc h) n)
        (elim s as (λ s. Rnode × Cache) [
          | none ↦ (tree (suc h) n, k)
          | some child ↦ shrink_from h child (node_free k)
        ]).0
round-Keeps h n none k small v one at rec = ((small, v), λ j w. refl)
round-Keeps h n (some child) k small v one at rec =
    Keeps-trans (tree (suc h) n) (tree h child) (shrink_from h child (node_free k)).0
      (lone-Keeps h n child small v one at) (rec child (node_free k) (v.2 0 child at))

shrink_from-Keeps :
    (h : ℕ) (n : Tree h) (k : Cache) → h ≤ 5 → Valid h n → Keeps (tree h n) (shrink_from h n k).0
unfolding shrink_from
shrink_from-Keeps zero n k small v = ((small, v), λ j w. refl)
shrink_from-Keeps (suc h) n k small v = elim (Bool-cases (n.count == 1)) [
  | inr e ↦ rw e ((small, v), λ j w. refl)
  | inl e ↦ rw e (
      round-Keeps h n (n.slots 0) k small v (ground arith) refl
        (λ child k vc. shrink_from-Keeps h child k (omega arith) vc))
]

found-count_zero :
    (h : ℕ) (n : Tree h) (j : ℕ) → Valid h n → count_of h n ≡ 0 → found (tree h n) j ≡ 0
found-count_zero h n j v e = ground (arith, lookup_in-count_zero h n j v e)

drop_leaf-Keeps :
    (max_key : ℕ) (r : Rnode) (k : Cache)
    → RnodeValid r
    → Keeps r (drop_leaf max_key (r, k)).0.rnode
unfolding drop_leaf count_of
drop_leaf-Keeps max_key null k v = (v, λ j w. refl)
drop_leaf-Keeps max_key (tree (suc h) n) k v = (v, λ j w. refl)
drop_leaf-Keeps max_key (tree zero n) k (small, v) = elim (Bool-cases (n.count == 0)) [
  | inr e ↦ rw e ((small, v), λ j w. refl)
  | inl e ↦ rw e (tt, λ j w. sym (found-count_zero 0 n j v (ground arith)))
]

pub radix_tree_shrink-Keeps :
    (root : Root) (k : Cache)
    → RnodeValid root.rnode
    → Keeps root.rnode (radix_tree_shrink root k).0.rnode
unfolding radix_tree_shrink
radix_tree_shrink-Keeps root k v = go root.rnode v
  where
    go :
        (r : Rnode)
        → RnodeValid r
        → Keeps r
            (elim r as (λ r. Root × Cache) [
              | null ↦ drop_leaf root.max_key (null, k)
              | tree h n ↦ drop_leaf root.max_key (shrink_from h n k)
            ]).0.rnode
    go null v = drop_leaf-Keeps root.max_key null k v
    go (tree h n) (small, v) =
        let keeps = shrink_from-Keeps h n k small v in
        Keeps-trans (tree h n) (shrink_from h n k).0
          (drop_leaf root.max_key (shrink_from h n k)).0.rnode keeps
          (drop_leaf-Keeps root.max_key (shrink_from h n k).0 (shrink_from h n k).1 keeps.0)

after_delete-Keeps :
    (root : Root) (h : ℕ) (n : Tree h) (k : Cache)
    → h ≤ 5
    → Valid h n
    → Keeps (tree h n) (after_delete root h n k).0.rnode
unfolding after_delete
after_delete-Keeps root h n k small v = elim (Bool-cases (count_of h n == 0)) [
  | inr e ↦ rw e (radix_tree_shrink-Keeps (record root { rnode = tree h n }) k (small, v))
  | inl e ↦ rw e (
      let (v', keeps) =
        radix_tree_shrink-Keeps (record { rnode = null; max_key = 0 }) (node_free k) tt in
      (v', λ j w. keeps j w ∙ sym (found-count_zero h n j v (ground arith))))
]

-- the map past a deletion: the item of the key, and every other key as it was
abbrev pub Deleted : Root → (index : ℕ) → ℕ × Root × Cache → Type 0
Deleted root index (ret, root', k') =
    RnodeValid root'.rnode
    × (ret ≡ radix_tree_lookup root index)
    × ((j : ℕ)
        → j < 2 ^ 32
        → radix_tree_lookup root' j ≡ (if j == index then 0 else radix_tree_lookup root j))

found-delete :
    (h : ℕ) (n n' : Tree h) (index j : ℕ)
    → h ≤ 5
    → index < 2 ^ 32
    → j < 2 ^ 32
    → ltb (maxindex (suc h)) index ≡ false
    → lookup_in h n' j ≡ (if same h index j then 0 else lookup_in h n j)
    → found (tree h n') j ≡ (if j == index then 0 else found (tree h n) j)
found-delete h n n' index j small w wj fits looks = elim (Bool-cases (ltb (maxindex (suc h)) j)) [
  | inl over ↦ ground arith
  | inr under ↦
      let one =
        same-eq h index j small ((maxindex-lt h index small w).0 fits)
          ((maxindex-lt h j small wj).0 under) in
      rw (under, looks, one) (ground arith)
]

forget_key-rnode : (index : ℕ) (root : Root) → (forget_key index root).rnode ≡ root.rnode
unfolding forget_key
forget_key-rnode index root = elim (Bool-cases (index == root.max_key)) [
  | inl e ↦ rw e refl
  | inr e ↦ rw e refl
]

absent :
    (root : Root) (index : ℕ) (k : Cache)
    → RnodeValid root.rnode
    → radix_tree_lookup root index ≡ 0
    → Deleted root index (0, root, k)
absent root index k v e = (
  v,
  sym e,
  λ j w. elim (Bool-cases (j == index)) [
    | inl at ↦ let same : j ≡ index = ground arith in rw (at, same) e
    | inr off ↦ rw off refl
  ],
)

taken_out :
    (root : Root) (h : ℕ) (n : Tree h) (index : ℕ) (k : Cache) (o : Option (ℕ × Tree h × Cache))
    → root.rnode ≡ tree h n
    → h ≤ 5
    → Valid h n
    → index < 2 ^ 32
    → ltb (maxindex (suc h)) index ≡ false
    → Took h n index o
    → Deleted root index (elim o as (λ o. ℕ × Root × Cache) [
      | none ↦ (0, root, k)
      | some (ret, n, k) ↦
          let (root, k) = after_delete root h n k in (ret, forget_key index root, k)
    ])
taken_out root h n index k none at small v w fits free =
    absent root index k (rw at (small, v)) (radix_tree_lookup-found root index ∙ rw (at, fits) free)
taken_out root h n index k (some (ret, n', k')) at small v w fits (v', nz, is, looks) =
    let (valid, keeps) = after_delete-Keeps root h n' k' small v' in
    let root' = (after_delete root h n' k').0 in
    (
      rw (forget_key-rnode index root') valid,
      is ∙ sym (radix_tree_lookup-found root index ∙ rw (at, fits) refl),
      λ j wj.
          radix_tree_lookup-found (forget_key index root') j
          ∙ rw (forget_key-rnode index root') (keeps j wj)
          ∙ found-delete h n n' index j small w wj fits (looks j)
          ∙ rw (radix_tree_lookup-found root j, at) refl,
    )

-- In a valid tree radix_tree_delete of an index below 2^32 returns what radix_tree_lookup finds
-- there, and leaves a valid tree in which that index finds nothing and each other index below
-- 2^32 finds what it did; freed children and the shrinking of the root lose nothing.
pub radix_tree_delete_lem :
    (root : Root) (index : ℕ) (k : Cache)
    → RnodeValid root.rnode
    → index < 2 ^ 32
    → Deleted root index (radix_tree_delete index root k)
unfolding radix_tree_delete delete_at
radix_tree_delete_lem root index k v w = go root.rnode refl v
  where
    go :
        (r : Rnode)
        → root.rnode ≡ r
        → RnodeValid r
        → Deleted root index (elim r as (λ r. ℕ × Root × Cache) [
          | null ↦ (0, root, k)
          | tree h n ↦
              if ltb (maxindex (suc h)) index then (0, root, k) else delete_at h n index root k
        ])
    go null at valid = absent root index k v (radix_tree_lookup-found root index ∙ rw at refl)
    go (tree h n) at (small, valid) = elim (Bool-cases (ltb (maxindex (suc h)) index)) [
      | inl over ↦
          rw over (absent root index k v (radix_tree_lookup-found root index ∙ rw (at, over) refl))
      | inr fits ↦ rw fits (
          taken_out root h n index k (delete_in h n index k) at small valid w fits
            (delete_in-Took h n index k valid))
    ]

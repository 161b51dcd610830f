-- ===== src/Radix/Replaced.antt =====
-- `radix_tree_replace` at a key that has an item.
use mathlib.Core.Option
use proto_kernel.Prelude.{
  ℕ, zero, suc, ◌^◌, ◌≤◌, ◌<◌, ◌≡◌, ◌≢◌, inl, inr, refl, sym, ◌∙◌, arith, true, false, not, Option,
  none, some, ◌==◌, ltb, if◌then◌else◌, Bool-cases,
}
use proto_kernel.Radix.{
  Tree, Rnode, null, tree, Root, get_slot, maxindex, point, lookup_in, radix_tree_lookup,
}
use proto_kernel.Radix.Cache.{Cache}
use proto_kernel.Radix.Delete.{hang, replace_in, replace_at, radix_tree_replace}
use proto_kernel.Radix.Paths.{same, get_slot-lt}
use proto_kernel.Radix.Valid.{Valid, number, number-change, below, lookup_in-suc}
use proto_kernel.Radix.Inserted.{below-point, one_path, slots-Valid}
use proto_kernel.Radix.Extended.{radix_tree_lookup-found, RnodeValid}
use proto_kernel.Radix.Refine.{found-insert}
use proto_kernel.Radix.Deleted.{node_same}

abbrev Swapped : (h : ℕ) → Tree h → (index item : ℕ) → Option (ℕ × Tree h) → Type 0
Swapped h n index item none = lookup_in h n index ≡ 0
Swapped h n index item (some (old, n')) =
    (lookup_in h n index ≢ 0 → Valid h n')
    × (old ≡ lookup_in h n index)
    × ((j : ℕ) → lookup_in h n' j ≡ (if same h index j then item else lookup_in h n j))

leaf_same :
    (f : ℕ → ℕ) (offset v : ℕ)
    → offset < 64
    → f offset ≢ 0
    → v ≢ 0
    → number (λ i. not (f i == 0)) 64 ≡ number (λ i. not (point f offset v i == 0)) 64
leaf_same f offset v lt taken nz =
    let change =
      number-change (λ i. not (f i == 0)) (λ i. not (point f offset v i == 0)) 64 offset lt
        (λ i away. ground arith) in
    ground arith

leaf-Swapped :
    (n : Tree 0) (index item : ℕ)
    → item ≢ 0
    → Valid 0 n
    → Swapped 0 n index item (replace_in 0 n index item)
unfolding replace_in lookup_in
leaf-Swapped n index item nz (level, count) = (
  λ there.
      (level, count ∙ leaf_same n.slots (get_slot index 0) item (get_slot-lt index 0) there nz),
  refl,
  λ j. ground arith,
)

hang-Swapped :
    (h : ℕ) (n : Tree (suc h)) (index item : ℕ) (child : Tree h) (r : ℕ × Tree h)
    → Valid (suc h) n
    → n.slots (get_slot index (suc h)) ≡ some child
    → Swapped h child index item (some r)
    → Swapped (suc h) n index item (some (hang h n (get_slot index (suc h)) r))
hang-Swapped h n index item child (old, child') (level, count, all) at (v', is, looks) =
    let here : lookup_in h child index ≡ lookup_in (suc h) n index =
      sym (lookup_in-suc h n index ∙ rw at refl) in
    (
      λ there. (
        level,
        node_same h n offset child child' (get_slot-lt index (suc h)) count at,
        slots-Valid h n.slots offset child' all (v' (λ z. there (sym here ∙ z))),
      ),
      is ∙ here,
      λ j.
          rw
            (
              lookup_in-suc h (record n { slots = point n.slots offset (some child') }) j,
              lookup_in-suc h n j,
              below-point h n.slots offset (get_slot j (suc h)) (some child') j,
            )
            (one_path offset (get_slot j (suc h)) (λ b. below h (n.slots b) j) true (same h index j)
              item (lookup_in h child j) (lookup_in h child' j) (rw at refl) (looks j)),
    )
  where
    offset : ℕ
    offset = get_slot index (suc h)

walk-Swapped :
    (h : ℕ) (n : Tree (suc h)) (index item : ℕ) (s : Option (Tree h))
    → Valid (suc h) n
    → n.slots (get_slot index (suc h)) ≡ s
    → ((child : Tree h)
        → Valid h child
        → Swapped h child index item (replace_in h child index item))
    → Swapped (suc h) n index item (elim s as (λ s. Option (ℕ × Tree (suc h))) [
      | none ↦ none
      | some child ↦ Option.map (hang h n (get_slot index (suc h))) (replace_in h child index item)
    ])
walk-Swapped h n index item none v at rec = lookup_in-suc h n index ∙ rw at refl
walk-Swapped h n index item (some child) v at rec =
    back (replace_in h child index item) (rec child (v.2 (get_slot index (suc h)) child at))
  where
    back :
        (o : Option (ℕ × Tree h))
        → Swapped h child index item o
        → Swapped (suc h) n index item (Option.map (hang h n (get_slot index (suc h))) o)
    back none e = lookup_in-suc h n index ∙ rw at e
    back (some r) t = hang-Swapped h n index item child r v at t

replace_in-Swapped :
    (h : ℕ) (n : Tree h) (index item : ℕ)
    → item ≢ 0
    → Valid h n
    → Swapped h n index item (replace_in h n index item)
unfolding replace_in
replace_in-Swapped zero n index item nz v = leaf-Swapped n index item nz v
replace_in-Swapped (suc h) n index item nz v =
    walk-Swapped h n index item (n.slots (get_slot index (suc h))) v refl
      (λ child vc. replace_in-Swapped h child index item nz vc)

-- the map past a replacement: the item that was there, and the new one in its place
abbrev pub Replaced : Root → (index item : ℕ) → ℕ × Root × Cache → Type 0
Replaced root index item (old, root', k') =
    RnodeValid root'.rnode
    × (old ≡ radix_tree_lookup root index)
    × (root'.max_key ≡ root.max_key)
    × ((j : ℕ)
        → j < 2 ^ 32
        → radix_tree_lookup root' j ≡ (if j == index then item else radix_tree_lookup root j))

module _ (root : Root) (index item : ℕ) (k : Cache) (v : RnodeValid root.rnode) (w : index < 2 ^ 32)
    (nz : item ≢ 0) (there : radix_tree_lookup root index ≢ 0) where
  swapped :
      (h : ℕ) (n : Tree h) (o : Option (ℕ × Tree h))
      → root.rnode ≡ tree h n
      → h ≤ 5
      → ltb (maxindex (suc h)) index ≡ false
      → Swapped h n index item o
      → let r : ℕ × Root = elim o as (λ o. ℕ × Root) [
        | none ↦ (0, root)
        | some (old, n) ↦ (old, record root { rnode = tree h n })
      ] in
        Replaced root index item (r.0, r.1, k)
  swapped h n none at small fits e =
      absurd (there (radix_tree_lookup-found root index ∙ rw (at, fits) e))
  swapped h n (some (old, n')) at small fits (v', is, looks) =
      let here : lookup_in h n index ≡ radix_tree_lookup root index =
        sym (radix_tree_lookup-found root index ∙ rw (at, fits) refl) in
      (
        (small, v' (λ z. there (sym here ∙ z))),
        is ∙ here,
        refl,
        λ j wj.
            radix_tree_lookup-found (record root { rnode = tree h n' }) j
            ∙ found-insert h n n' index item j true small w wj fits (looks j)
            ∙ rw (radix_tree_lookup-found root j, at) refl,
      )

  by_root :
      (r : Rnode)
      → root.rnode ≡ r
      → RnodeValid r
      → Replaced root index item (elim r as (λ r. ℕ × Root × Cache) [
        | null ↦ (0, root, k)
        | tree h n ↦
            if ltb (maxindex (suc h)) index
            then (0, root, k)
            else (let (old, root) = replace_at h n index item root in (old, root, k))
      ])
  unfolding replace_at
  by_root null at valid = absurd (there (radix_tree_lookup-found root index ∙ rw at refl))
  by_root (tree h n) at (small, valid) = elim (Bool-cases (ltb (maxindex (suc h)) index)) [
    | inl over ↦ absurd (there (radix_tree_lookup-found root index ∙ rw (at, over) refl))
    | inr fits ↦ rw fits (
        swapped h n (replace_in h n index item) at small fits
          (replace_in-Swapped h n index item nz valid))
  ]

  -- In a valid tree, at an index below 2^32 that has an item, radix_tree_replace by an item that
  -- is not NULL returns the old item and leaves a valid tree with the same max_key in which that
  -- index finds the new item and each other index below 2^32 what it did.
  pub radix_tree_replace_lem : Replaced root index item (radix_tree_replace index item root k)
  unfolding radix_tree_replace
  radix_tree_replace_lem =
      let e : (item == 0) ≡ false = ground arith in
      rw (e, radix_tree_replace) (by_root root.rnode refl v)

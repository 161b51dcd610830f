-- ===== src/Radix/Refine.antt =====
-- The tree as a map from indices to items, 0 for none: what `radix_tree_insert` does to the map.
use proto_kernel.Prelude.{
  ℕ, suc, ◌^◌, ◌≤◌, ◌<◌, ◌≡◌, ◌≢◌, inl, inr, refl, sym, ◌∙◌, arith, Bool, true, false, ◌&&◌, ◌==◌,
  ltb, if◌then◌else◌, Bool-cases,
}
use proto_kernel.Radix.{Tree, Rnode, null, tree, Root, maxindex, lookup_in, radix_tree_lookup}
use proto_kernel.Radix.Cache.{Cache}
use proto_kernel.Radix.Insert.{extend, insert_in, insert_at, radix_tree_insert}
use proto_kernel.Radix.Paths.{same, same-eq, maxindex-lt}
use proto_kernel.Radix.Inserted.{insert_in-Wrote}
use proto_kernel.Radix.Extended.{
  found, radix_tree_lookup-found, RnodeValid, Extended, extend-Extended,
}

-- the map past an insertion: one key more, or what it was
abbrev pub Inserted : Root → (index item : ℕ) → Bool × Root × Cache → Type 0
Inserted root index item (done, root', k') =
    RnodeValid root'.rnode
    × (done ≡ true → (item ≢ 0) × (radix_tree_lookup root index ≡ 0))
    × ((j : ℕ)
        → j < 2 ^ 32
        → radix_tree_lookup root' j
          ≡ (if done && (j == index) then item else radix_tree_lookup root j))

pub found-insert :
    (h : ℕ) (n n' : Tree h) (index item j : ℕ) (done : Bool)
    → h ≤ 5
    → index < 2 ^ 32
    → j < 2 ^ 32
    → ltb (maxindex (suc h)) index ≡ false
    → lookup_in h n' j ≡ (if done && same h index j then item else lookup_in h n j)
    → found (tree h n') j ≡ (if done && (j == index) then item else found (tree h n) j)
found-insert h n n' index item j done small w wj fits looks =
    elim (Bool-cases (ltb (maxindex (suc h)) j)) [
      | inl over ↦ let off : (j == index) ≡ false = ground arith in rw (over, off) (ground arith)
      | inr under ↦
          let one =
            same-eq h index j small ((maxindex-lt h index small w).0 fits)
              ((maxindex-lt h j small wj).0 under) in
          rw (under, looks, one) (ground arith)
    ]

insert_at-Inserted :
    (root : Root) (index item : ℕ) (r : Bool × Rnode × Cache)
    → item ≢ 0
    → index < 2 ^ 32
    → Extended root.rnode index r
    → Inserted root index item (insert_at index item root r)
unfolding insert_at
insert_at-Inserted root index item (false, r, k) nz w ((v, e), fits) = (
  v,
  λ bad. cc bad,
  λ j wj.
      radix_tree_lookup-found (record root { rnode = r }) j
      ∙ e j wj
      ∙ sym (radix_tree_lookup-found root j),
)
insert_at-Inserted root index item (true, null, k) nz w ((v, e), fits) = (
  tt,
  λ bad. cc bad,
  λ j wj.
      radix_tree_lookup-found (record root { rnode = null }) j
      ∙ e j wj
      ∙ sym (radix_tree_lookup-found root j),
)
insert_at-Inserted root index item (true, tree h n, k) nz w (((small, v), e), fits) =
    let (v', free, looks) = insert_in-Wrote h n index item k nz v in
    (
      (small, v'),
      λ done.
          (nz, radix_tree_lookup-found root index ∙ sym (e index w) ∙ rw (fits refl).1 (free done)),
      λ j wj.
          rw
            (
              radix_tree_lookup-found (insert_at index item root (true, tree h n, k)).1 j,
              radix_tree_lookup-found root j,
              sym (e j wj),
            )
            (found-insert h n (insert_in h n index item k).1 index item j
              (insert_in h n index item k).0 small w wj (fits refl).1 (looks j)),
    )

pub radix_tree_insert_lem :
    (root : Root) (index item : ℕ) (k : Cache)
    → RnodeValid root.rnode
    → index < 2 ^ 32
    → Inserted root index item (radix_tree_insert index item root k)
unfolding radix_tree_insert
radix_tree_insert_lem root index item k v w = elim (Bool-cases (item == 0)) [
  | inl e ↦ rw e (v, λ bad. cc bad, λ j wj. refl)
  | inr e ↦ rw e (
      insert_at-Inserted root index item (extend root.rnode index k) (ground arith) w
        (extend-Extended root.rnode index k v w))
]

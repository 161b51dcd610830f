-- ===== src/Radix/MaxKey.antt =====
-- `max_key` in kernel/lib/radix_tree.c: an insertion keeps it a bound of the keys, a deletion of the
-- largest key does not.
use proto_kernel.Prelude.{
  ℕ, zero, suc, ◌+◌, ◌-◌, ◌^◌, ◌<◌, ◌≡◌, ◌≢◌, ◌⊎◌, inl, inr, refl, sym, ◌∙◌, arith, Bool, true,
  false, ◌&&◌, Option, none, some, ◌==◌, ltb, if◌then◌else◌, Bool-cases,
}
use proto_kernel.Radix.{Tree, Rnode, null, tree, Root, maxindex, radix_tree_lookup, count_of}
use proto_kernel.Radix.Cache.{Cache, node_free}
use proto_kernel.Radix.Insert.{extend, insert_at, radix_tree_insert}
use proto_kernel.Radix.Delete.{
  delete_in, shrink_from, drop_leaf, radix_tree_shrink, after_delete, forget_key, delete_at,
  radix_tree_delete,
}
use proto_kernel.Radix.Iterate.{scan_from, next_slot}
use proto_kernel.Radix.Extended.{found, radix_tree_lookup-found, RnodeValid}
use proto_kernel.Radix.Refine.{radix_tree_insert_lem}
use proto_kernel.Radix.Removed.{radix_tree_delete_lem}
use proto_kernel.Radix.Next.{Next, scan_from-Next}

-- no key above `max_key`
abbrev pub Bounded : Root → Type 0
Bounded root = (j : ℕ) → j < 2 ^ 32 → root.max_key < j → radix_tree_lookup root j ≡ 0

Next-agree :
    (f g : ℕ → ℕ) (index : ℕ) (o : Option (ℕ × ℕ))
    → ((j : ℕ) → f j ≡ g j)
    → Next f index o
    → Next g index o
Next-agree f g index none e next = λ j lo hi. sym (e j) ∙ next j lo hi
Next-agree f g index (some (key, item)) e (lo, hi, nz, at, least) =
    (lo, hi, nz, sym (e key) ∙ at, λ j from to. sym (e j) ∙ least j from to)

-- In a valid tree with no key above max_key, radix_tree_next_slot from an index below 2^32 finds
-- the least key from there on with its item, or NULL if there is none.
pub next_slot_lem :
    (root : Root) (index : ℕ)
    → RnodeValid root.rnode
    → Bounded root
    → index < 2 ^ 32
    → Next (radix_tree_lookup root) index (next_slot root index)
unfolding next_slot
next_slot_lem root index v bound w =
    Next-agree (found root.rnode) (radix_tree_lookup root) index (next_slot root index)
      (λ j. sym (radix_tree_lookup-found root j))
      (go root.rnode v (λ j wj over. sym (radix_tree_lookup-found root j) ∙ bound j wj over))
  where
    go :
        (r : Rnode)
        → RnodeValid r
        → ((j : ℕ) → j < 2 ^ 32 → root.max_key < j → found r j ≡ 0)
        → Next (found r) index (elim r as (λ r. Option (ℕ × ℕ)) [
          | null ↦ none
          | tree h n ↦ scan_from (root.max_key + 1 - index) h n root.max_key index
        ])
    go null v bound = λ j lo hi. refl
    go (tree h n) (small, v) bound =
        scan_from-Next h n root.max_key small bound (root.max_key + 1 - index) index w (omega arith)

insert_at-max_key :
    (root : Root) (index item : ℕ) (r : Bool × Rnode × Cache)
    → (insert_at index item root r).1.max_key ≡ (
        if (insert_at index item root r).0
        then (if ltb root.max_key index then index else root.max_key)
        else root.max_key)
unfolding insert_at
insert_at-max_key root index item (false, r, k) = refl
insert_at-max_key root index item (true, null, k) = refl
insert_at-max_key root index item (true, tree h n, k) = refl

radix_tree_insert-max_key :
    (root : Root) (index item : ℕ) (k : Cache)
    → (radix_tree_insert index item root k).1.max_key ≡ (
        if (radix_tree_insert index item root k).0
        then (if ltb root.max_key index then index else root.max_key)
        else root.max_key)
unfolding radix_tree_insert
radix_tree_insert-max_key root index item k = elim (Bool-cases (item == 0)) [
  | inl e ↦ rw (e, radix_tree_insert) refl
  | inr e ↦
      rw (e, radix_tree_insert) (insert_at-max_key root index item (extend root.rnode index k))
]

above :
    (done : Bool) (max_key max_key' index item j l l' : ℕ)
    → max_key' ≡ (if done then (if ltb max_key index then index else max_key) else max_key)
    → max_key' < j
    → l' ≡ (if done && (j == index) then item else l)
    → (max_key < j → l ≡ 0)
    → l' ≡ 0
above true max_key max_key' index item j l l' mk over looks bound = ground arith
above false max_key max_key' index item j l l' mk over looks bound = ground arith

-- radix_tree_insert at an index below 2^32 keeps the tree valid and without keys above max_key.
pub radix_tree_insert-Bounded :
    (root : Root) (index item : ℕ) (k : Cache)
    → RnodeValid root.rnode
    → index < 2 ^ 32
    → Bounded root
    → RnodeValid (radix_tree_insert index item root k).1.rnode
      × Bounded (radix_tree_insert index item root k).1
radix_tree_insert-Bounded root index item k v w bound =
    let (v', free, looks) = radix_tree_insert_lem root index item k v w in
    let (done, root', k') = radix_tree_insert index item root k in
    (
      v',
      λ j wj over.
          above done root.max_key root'.max_key index item j (radix_tree_lookup root j)
            (radix_tree_lookup root' j) (radix_tree_insert-max_key root index item k) over
            (looks j wj) (bound j wj),
    )

drop_leaf-max_key :
    (max_key : ℕ) (r : Rnode × Cache)
    → ((drop_leaf max_key r).0.max_key ≡ max_key) ⊎ ((drop_leaf max_key r).0.max_key ≡ 0)
unfolding drop_leaf
drop_leaf-max_key max_key (null, k) = inl refl
drop_leaf-max_key max_key (tree (suc h) n, k) = inl refl
drop_leaf-max_key max_key (tree zero n, k) = elim (Bool-cases (n.count == 0)) [
  | inl e ↦ rw e (inr refl)
  | inr e ↦ rw e (inl refl)
]

shrink-max_key :
    (root : Root) (k : Cache)
    → ((radix_tree_shrink root k).0.max_key ≡ root.max_key)
      ⊎ ((radix_tree_shrink root k).0.max_key ≡ 0)
unfolding radix_tree_shrink
shrink-max_key root k =
    elim root.rnode
      as (λ r.
        ((elim r as (λ r. Root × Cache) [
          | null ↦ drop_leaf root.max_key (null, k)
          | tree h n ↦ drop_leaf root.max_key (shrink_from h n k)
        ]).0.max_key
          ≡ root.max_key)
        ⊎ ((elim r as (λ r. Root × Cache) [
          | null ↦ drop_leaf root.max_key (null, k)
          | tree h n ↦ drop_leaf root.max_key (shrink_from h n k)
        ]).0.max_key
            ≡ 0)) [
              | null ↦ drop_leaf-max_key root.max_key (null, k)
              | tree h n ↦ drop_leaf-max_key root.max_key (shrink_from h n k)
            ]

after_delete-max_key :
    (root : Root) (h : ℕ) (n : Tree h) (k : Cache)
    → ((after_delete root h n k).0.max_key ≡ root.max_key)
      ⊎ ((after_delete root h n k).0.max_key ≡ 0)
unfolding after_delete
after_delete-max_key root h n k = elim (Bool-cases (count_of h n == 0)) [
  | inr e ↦ rw e (shrink-max_key (record root { rnode = tree h n }) k)
  | inl e ↦ rw e (elim (shrink-max_key (record { rnode = null; max_key = 0 }) (node_free k)) [
    | inl same ↦ inr same
    | inr none_left ↦ inr none_left
  ])
]

forget_key-max_key :
    (index : ℕ) (root : Root)
    → (root.max_key ≡ index) ⊎ (root.max_key ≡ 0)
    → (forget_key index root).max_key ≡ 0
unfolding forget_key
forget_key-max_key index root (inl e) = ground arith
forget_key-max_key index root (inr e) = ground arith

delete_at-max_key :
    (root : Root) (h : ℕ) (n : Tree h) (index : ℕ) (k : Cache) (o : Option (ℕ × Tree h × Cache))
    → index ≡ root.max_key
    → let r : ℕ × Root × Cache = elim o as (λ o. ℕ × Root × Cache) [
      | none ↦ (0, root, k)
      | some (ret, n, k) ↦
          let (root, k) = after_delete root h n k in (ret, forget_key index root, k)
    ] in
      r.0 ≢ 0 → r.1.max_key ≡ 0
delete_at-max_key root h n index k none e nz = absurd (nz refl)
delete_at-max_key root h n index k (some (ret, n', k')) e nz =
    forget_key-max_key index (after_delete root h n' k').0
      (elim (after_delete-max_key root h n' k') [ inl same ↦ inl (same ∙ sym e) | inr z ↦ inr z ])

radix_tree_delete-max_key :
    (root : Root) (index : ℕ) (k : Cache)
    → index ≡ root.max_key
    → (radix_tree_delete index root k).0 ≢ 0
    → (radix_tree_delete index root k).1.max_key ≡ 0
unfolding radix_tree_delete delete_at
radix_tree_delete-max_key root index k e = go root.rnode
  where
    go :
        (r : Rnode)
        → let s : ℕ × Root × Cache = elim r as (λ r. ℕ × Root × Cache) [
          | null ↦ (0, root, k)
          | tree h n ↦
              if ltb (maxindex (suc h)) index then (0, root, k) else delete_at h n index root k
        ] in
          s.0 ≢ 0 → s.1.max_key ≡ 0
    go null = λ nz. absurd (nz refl)
    go (tree h n) = elim (Bool-cases (ltb (maxindex (suc h)) index)) [
      | inl over ↦ rw over (λ nz. absurd (nz refl))
      | inr fits ↦ rw fits (delete_at-max_key root h n index k (delete_in h n index k) e)
    ]

next_slot-zero : (root : Root) (j : ℕ) → root.max_key ≡ 0 → 0 < j → next_slot root j ≡ none
unfolding next_slot scan_from
next_slot-zero root j e pos =
    elim root.rnode
      as (λ r.
        (elim r as (λ r. Option (ℕ × ℕ)) [
          | null ↦ none
          | tree h n ↦ scan_from (root.max_key + 1 - j) h n root.max_key j
        ])
        ≡ none) [
          | null ↦ refl
          | tree h n ↦ let fuel : root.max_key + 1 - j ≡ 0 = omega arith in rw fuel refl
        ]

-- In a valid tree, past radix_tree_delete of an item whose index is max_key, each other key above
-- 0 is still found by radix_tree_lookup, and radix_tree_next_slot from that key finds nothing.
pub radix_tree_delete-forgets :
    (root : Root) (index key : ℕ) (k : Cache)
    → RnodeValid root.rnode
    → index < 2 ^ 32
    → index ≡ root.max_key
    → radix_tree_lookup root index ≢ 0
    → 0 < key
    → key < 2 ^ 32
    → key ≢ index
    → radix_tree_lookup root key ≢ 0
    → (radix_tree_lookup (radix_tree_delete index root k).1 key ≡ radix_tree_lookup root key)
      × (next_slot (radix_tree_delete index root k).1 key ≡ none)
radix_tree_delete-forgets root index key k v w largest there pos wk other left =
    let (v', is, looks) = radix_tree_delete_lem root index k v w in
    let off : (key == index) ≡ false = ground arith in
    (
      looks key wk ∙ rw off refl,
      next_slot-zero (radix_tree_delete index root k).1 key
          (radix_tree_delete-max_key root index k largest (λ z. there (sym is ∙ z))) pos,
    )

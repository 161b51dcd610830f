-- ===== src/Radix/Tagged.antt =====
-- `radix_tree_tag_set` and what `radix_tree_tag_get` reads afterwards.
use proto_kernel.Prelude.{
  ℕ, suc, ◌^◌, ◌≤◌, ◌<◌, ◌≡◌, inl, inr, refl, sym, ap, subst, ◌∙◌, arith, Bool, true, false, not,
  ◌&&◌, Option, none, some, ◌==◌, ltb, leb, if◌then◌else◌, Bool-cases,
}
use proto_kernel.Radix.{Tree, Rnode, null, tree, Root, maxindex, radix_tree_lookup}
use proto_kernel.Radix.Tags.{
  tag_max, tag_set_in, radix_tree_tag_set, tag_get_in, radix_tree_tag_get,
}
use proto_kernel.Radix.Paths.{same, same-eq, maxindex-lt}
use proto_kernel.Radix.Extended.{radix_tree_lookup-found, RnodeValid}
use proto_kernel.Radix.TagWalk.{Tagged, tag_set_in-Tagged, ==_comm}

-- the tag of an index in a tree
abbrev has_tag : Rnode → (j t : ℕ) → Bool
has_tag null j t = false
has_tag (tree h n) j t = if ltb (maxindex (suc h)) j then false else tag_get_in h n j t

tag_get-has_tag :
    (root : Root) (j t : ℕ)
    → radix_tree_tag_get j t root ≡ (if leb tag_max t then false else has_tag root.rnode j t)
unfolding radix_tree_tag_get
tag_get-has_tag root j t =
    ap (λ b. if leb tag_max t then false else b)
      (elim root.rnode
        as (λ r.
          elim r as (λ r. Bool) [
            | null ↦ false
            | tree h n ↦ if ltb (maxindex (suc h)) j then false else tag_get_in h n j t
          ]
          ≡ has_tag r j t) [ null ↦ refl | tree h n ↦ refl ])

has_tag-set :
    (h : ℕ) (n n' : Tree h) (index tag j t : ℕ)
    → h ≤ 5
    → index < 2 ^ 32
    → j < 2 ^ 32
    → ltb (maxindex (suc h)) index ≡ false
    → leb tag_max tag ≡ false
    → tag_get_in h n' j t ≡ (if (t == tag) && same h index j then true else tag_get_in h n j t)
    → (if leb tag_max t then false else has_tag (tree h n') j t) ≡ (
        if (t == tag) && (j == index)
        then true
        else if leb tag_max t
        then false
        else has_tag (tree h n) j t)
has_tag-set h n n' index tag j t small w wj fits good tags =
    elim (Bool-cases (ltb (maxindex (suc h)) j)) [
      | inl over ↦
          let off : (j == index) ≡ false = ground arith in
          rw (over, off)
            (elim (t == tag)
              as (λ b.
                (if leb tag_max t then false else false)
                ≡ (if b && false then true else if leb tag_max t then false else false)) [
                  | true ↦ refl
                  | false ↦ refl
                ])
      | inr under ↦
          let one =
            same-eq h index j small ((maxindex-lt h index small w).0 fits)
              ((maxindex-lt h j small wj).0 under) in
          rw (under, tags, one, ==_comm index j) (bound (j == index))
    ]
  where
    bound :
        (b : Bool)
        → (if leb tag_max t then false else if (t == tag) && b then true else tag_get_in h n j t)
          ≡ (if (t == tag) && b then true else if leb tag_max t then false else tag_get_in h n j t)
    bound b = elim (Bool-cases (t == tag)) [
      | inl e ↦ let low : leb tag_max t ≡ false = ground arith in rw (e, low) refl
      | inr e ↦ rw e refl
    ]

-- the tree past `radix_tree_tag_set`: the answer, the items and the tags
abbrev pub Marked : Root → (index tag : ℕ) → Bool × Root → Type 0
Marked root index tag (done, root') =
    (done ≡ (not (leb tag_max tag) && not (radix_tree_lookup root index == 0)))
    × ((j : ℕ) → radix_tree_lookup root' j ≡ radix_tree_lookup root j)
    × ((j t : ℕ)
        → j < 2 ^ 32
        → radix_tree_tag_get j t root'
          ≡ (if done && ((t == tag) && (j == index)) then true else radix_tree_tag_get j t root))

module _ (root : Root) (index tag : ℕ) (v : RnodeValid root.rnode) (w : index < 2 ^ 32) where
  same_root : radix_tree_lookup root index ≡ 0 → Marked root index tag (false, root)
  same_root e = (
    rw e (elim (leb tag_max tag) as (λ b. false ≡ (not b && false)) [ true ↦ refl | false ↦ refl ]),
    λ j. refl,
    λ j t wj. refl,
  )

  set_root :
      (h : ℕ) (n : Tree h) (o : Option (Bool × Tree h))
      → root.rnode ≡ tree h n
      → h ≤ 5
      → ltb (maxindex (suc h)) index ≡ false
      → leb tag_max tag ≡ false
      → Tagged h n index tag o
      → Marked root index tag (elim o as (λ o. Bool × Root) [
        | none ↦ (false, root)
        | some (up, n) ↦ (true, record root { rnode = tree h n })
      ])
  set_root h n none at small fits good e =
      same_root (radix_tree_lookup-found root index ∙ rw (at, fits) e)
  set_root h n (some (up, n')) at small fits good (there, looks, tags) = (
    rw (good, radix_tree_lookup-found root index, at, fits) (ground arith),
    λ j.
        radix_tree_lookup-found (record root { rnode = tree h n' }) j
        ∙ ap (λ l. if ltb (maxindex (suc h)) j then 0 else l) (looks j)
        ∙ sym (radix_tree_lookup-found root j ∙ rw at refl),
    λ j t wj.
        rw (tag_get-has_tag (record root { rnode = tree h n' }) j t, tag_get-has_tag root j t, at)
          (has_tag-set h n n' index tag j t small w wj fits good (tags j t)),
  )

  with_root :
      (r : Rnode)
      → root.rnode ≡ r
      → RnodeValid r
      → leb tag_max tag ≡ false
      → Marked root index tag (elim r as (λ r. Bool × Root) [
        | null ↦ (false, root)
        | tree h n ↦
            if ltb (maxindex (suc h)) index
            then (false, root)
            else elim (tag_set_in h n index tag) as (λ o. Bool × Root) [
              | none ↦ (false, root)
              | some (up, n) ↦ (true, record root { rnode = tree h n })
            ]
      ])
  with_root null at valid good = same_root (radix_tree_lookup-found root index ∙ rw at refl)
  with_root (tree h n) at (small, valid) good = elim (Bool-cases (ltb (maxindex (suc h)) index)) [
    | inl over ↦ rw over (same_root (radix_tree_lookup-found root index ∙ rw (at, over) refl))
    | inr fits ↦ rw fits (
        set_root h n (tag_set_in h n index tag) at small fits good
          (tag_set_in-Tagged h n index tag))
  ]

  -- In a valid tree, for an index below 2^32, radix_tree_tag_set succeeds exactly if the tag is 0
  -- or 1 and the index has an item; past it every index finds the item it did, and
  -- radix_tree_tag_get of an index below 2^32 is true for that index and tag if it succeeded, and
  -- as before otherwise.
  pub radix_tree_tag_set_lem : Marked root index tag (radix_tree_tag_set index tag root)
  unfolding radix_tree_tag_set
  radix_tree_tag_set_lem = elim (Bool-cases (leb tag_max tag)) [
    | inl bad ↦
        subst (Marked root index tag) {x = (false, root)} {y = radix_tree_tag_set index tag root}
          (rw (bad, radix_tree_tag_set) refl) (rw bad refl, λ j. refl, λ j t wj. refl)
    | inr good ↦
        subst (Marked root index tag) (sym (rw (good, radix_tree_tag_set) refl))
          (with_root root.rnode refl v good)
  ]

-- ===== src/Radix/Inserted.antt =====
-- What the walk of `radix_tree_insert` does to a tree.
use mathlib.Core.Option.{some-injective}
use proto_kernel.Prelude.{
  ℕ, zero, suc, ◌+◌, ◌<◌, ◌≡◌, ◌≢◌, inl, inr, refl, sym, ap, subst, ◌∙◌, arith, Bool, true, false,
  not, ◌&&◌, Option, none, some, ◌==◌, if◌then◌else◌, Bool-cases,
}
use proto_kernel.Bits.{u32}
use proto_kernel.Radix.{is_some, Tree, get_slot, point, tree_create, lookup_in}
use proto_kernel.Radix.Cache.{Cache, node_alloc}
use proto_kernel.Radix.Insert.{child_or_new, attach, insert_in}
use proto_kernel.Radix.Paths.{same, get_slot-lt}
use proto_kernel.Radix.Valid.{
  Valid, number, number-le, number-change, below, lookup_in-suc, tree_create-Valid,
  lookup_in-tree_create,
}

-- the tree past an insertion
abbrev pub Wrote : (h : ℕ) → Tree h → (index item : ℕ) → Bool × Tree h × Cache → Type 0
Wrote h n index item (done, n', k') =
    Valid h n'
    × (done ≡ true → lookup_in h n index ≡ 0)
    × ((j : ℕ) → lookup_in h n' j ≡ (if done && same h index j then item else lookup_in h n j))

leaf_count :
    (f : ℕ → ℕ) (offset v : ℕ)
    → offset < 64
    → f offset ≡ 0
    → v ≢ 0
    → u32 (number (λ i. not (f i == 0)) 64 + 1) ≡ number (λ i. not (point f offset v i == 0)) 64
leaf_count f offset v lt free item =
    let change =
      number-change (λ i. not (f i == 0)) (λ i. not (point f offset v i == 0)) 64 offset lt
        (λ i away. ground arith) in
    let room = number-le (λ i. not (point f offset v i == 0)) 64 in ground arith

pub node_count :
    {A : Type 0} (f : ℕ → Option A) (offset : ℕ) (v : Option A)
    → offset < 64
    → number (λ i. is_some (f i)) 64 + (if is_some v then 1 else 0)
      ≡ number (λ i. is_some (point f offset v i)) 64 + (if is_some (f offset) then 1 else 0)
node_count f offset v lt =
    let change =
      number-change (λ i. is_some (f i)) (λ i. is_some (point f offset v i)) 64 offset lt
        (λ i away. ground arith) in
    ground arith

leaf-Wrote :
    (n : Tree 0) (index item : ℕ) (k : Cache)
    → item ≢ 0
    → Valid 0 n
    → Wrote 0 n index item (insert_in 0 n index item k)
unfolding insert_in lookup_in
leaf-Wrote n index item k nz (level, count) = elim (Bool-cases (n.slots (get_slot index 0) == 0)) [
  | inr taken ↦ rw taken ((level, count), λ bad. cc bad, λ j. refl)
  | inl free ↦ rw free (
    (
      level,
      ap (λ c. u32 (c + 1)) count
          ∙ leaf_count n.slots (get_slot index 0) item (get_slot-lt index 0) (ground arith) nz,
    ),
    λ e. ground arith,
    λ j. ground arith,
  )
]

-- a child that hangs at a slot, or is to hang there
abbrev Child : (h : ℕ) → Option (Tree h) → (is_new : Bool) → Tree h → Type 0
Child h s is_new child =
    Valid h child × (is_some s ≡ not is_new) × ((j : ℕ) → below h s j ≡ lookup_in h child j)

attach-count :
    (h : ℕ) (n : Tree (suc h)) (offset : ℕ) (child : Tree h) (is_new : Bool)
    → offset < 64
    → n.count ≡ number (λ i. is_some (n.slots i)) 64
    → is_some (n.slots offset) ≡ not is_new
    → (if is_new then u32 (n.count + 1) else n.count)
      ≡ number (λ i. is_some (point n.slots offset (some child) i)) 64
attach-count h n offset child true lt count taken =
    let change = node_count n.slots offset (some child) lt in
    let room = number-le (λ i. is_some (point n.slots offset (some child) i)) 64 in ground arith
attach-count h n offset child false lt count taken =
    let change = node_count n.slots offset (some child) lt in ground arith

pub slots-Valid :
    (h : ℕ) (f : ℕ → Option (Tree h)) (offset : ℕ) (child : Tree h)
    → ((i : ℕ) (c : Tree h) → f i ≡ some c → Valid h c)
    → Valid h child
    → (i : ℕ) (c : Tree h) → point f offset (some child) i ≡ some c
    → Valid h c
slots-Valid h f offset child all v i c e = elim (Bool-cases (i == offset)) [
  | inl at ↦ let same : child ≡ c = some-injective child c (rw at at e) in subst (Valid h) same v
  | inr off ↦ all i c (rw off at e)
]

-- a slot that a child was put in
pub below-point :
    (h : ℕ) (f : ℕ → Option (Tree h)) (a b : ℕ) (s : Option (Tree h)) (j : ℕ)
    → below h (point f a s b) j ≡ (if b == a then below h s j else below h (f b) j)
below-point h f a b s j = elim (Bool-cases (b == a)) [ inl e ↦ rw e refl | inr e ↦ rw e refl ]

pub one_path :
    (a b : ℕ) (f : ℕ → ℕ) (done s : Bool) (item l l' : ℕ)
    → f a ≡ l
    → l' ≡ (if done && s then item else l)
    → (if b == a then l' else f b) ≡ (if done && ((a == b) && s) then item else f b)
one_path a b f done s item l l' reads looks = elim (Bool-cases (b == a)) [
  | inl e ↦ let at : b ≡ a = ground arith in ground (arith, ap f at)
  | inr e ↦ ground arith
]

attach-Wrote :
    (h : ℕ) (n : Tree (suc h)) (index item : ℕ) (is_new : Bool) (child : Tree h)
    (r : Bool × Tree h × Cache)
    → Valid (suc h) n
    → Child h (n.slots (get_slot index (suc h))) is_new child
    → Wrote h child index item r
    → Wrote (suc h) n index item (attach h n (get_slot index (suc h)) is_new r)
attach-Wrote h n index item is_new child (done, child', k') (level, count, all) (v, taken, reads)
      (v', free, looks) =
    (
      (
        level,
        attach-count h n offset child' is_new (get_slot-lt index (suc h)) count taken,
        slots-Valid h n.slots offset child' all v',
      ),
      λ e. lookup_in-suc h n index ∙ reads index ∙ free e,
      λ j.
          rw
            (
              lookup_in-suc h n' j,
              lookup_in-suc h n j,
              below-point h n.slots offset (get_slot j (suc h)) (some child') j,
            )
            (one_path offset (get_slot j (suc h)) (λ b. below h (n.slots b) j) done (same h index j)
              item (lookup_in h child j) (lookup_in h child' j) (reads j) (looks j)),
    )
  where
    offset : ℕ
    offset = get_slot index (suc h)

    n' : Tree (suc h)
    n' = record n {
      slots = point n.slots offset (some child');
      count = if is_new then u32 (n.count + 1) else n.count;
    }

-- the child that `insert_in` goes on with
abbrev Gave : (h : ℕ) → Option (Tree h) → Option (Bool × Tree h) × Cache → Type 0
Gave h s (none, k) = Unit
Gave h s (some (is_new, child), k) = Child h s is_new child

child_or_new-Gave :
    (h : ℕ) (s : Option (Tree h)) (k : Cache)
    → ((c : Tree h) → s ≡ some c → Valid h c)
    → Gave h s (child_or_new h s k)
unfolding child_or_new
child_or_new-Gave h (some child) k all = (all child refl, refl, λ j. refl)
child_or_new-Gave h none k all =
    elim (node_alloc k).0
      as (λ got. Gave h none (elim got [
        | false ↦ (none, (node_alloc k).1)
        | true ↦ (some (true, tree_create h), (node_alloc k).1)
      ])) [ false ↦ tt | true ↦ (tree_create-Valid h, refl, λ j. sym (lookup_in-tree_create h j)) ]

step-Wrote :
    (h : ℕ) (n : Tree (suc h)) (index item : ℕ) (r : Option (Bool × Tree h) × Cache)
    → Valid (suc h) n
    → Gave h (n.slots (get_slot index (suc h))) r
    → ((child : Tree h) (k : Cache)
        → Valid h child
        → Wrote h child index item (insert_in h child index item k))
    → Wrote (suc h) n index item (elim r.0 [
      | none ↦ (false, n, r.1)
      | some (is_new, child) ↦
          attach h n (get_slot index (suc h)) is_new (insert_in h child index item r.1)
    ])
step-Wrote h n index item (none, k) v gave rec = (v, λ bad. cc bad, λ j. refl)
step-Wrote h n index item (some (is_new, child), k) v gave rec =
    attach-Wrote h n index item is_new child (insert_in h child index item k) v gave
      (rec child k gave.0)

pub insert_in-Wrote :
    (h : ℕ) (n : Tree h) (index item : ℕ) (k : Cache)
    → item ≢ 0
    → Valid h n
    → Wrote h n index item (insert_in h n index item k)
unfolding insert_in
insert_in-Wrote zero n index item k nz v = leaf-Wrote n index item k nz v
insert_in-Wrote (suc h) n index item k nz v =
    step-Wrote h n index item (child_or_new h (n.slots (get_slot index (suc h))) k) v
      (child_or_new-Gave h (n.slots (get_slot index (suc h))) k
        (λ c e. v.2 (get_slot index (suc h)) c e))
      (λ child k vc. insert_in-Wrote h child index item k nz vc)

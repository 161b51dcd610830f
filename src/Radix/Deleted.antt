-- ===== src/Radix/Deleted.antt =====
-- What `radix_tree_delete` does to a tree: the walk, and the shrinking of the root.
use mathlib.Core.Option
use mathlib.Core.Option.{some-injective}
use proto_kernel.Prelude.{
  ℕ, zero, suc, ◌<◌, ◌≡◌, ◌≢◌, inl, inr, refl, sym, ap, ◌∙◌, arith, Bool, true, not, ◌&&◌, Option,
  none, some, ◌==◌, if◌then◌else◌, Bool-cases,
}
use proto_kernel.Bits.{sub32}
use proto_kernel.Radix.{is_some, Tree, get_slot, point, count_of, lookup_in}
use proto_kernel.Radix.Cache.{Cache}
use proto_kernel.Radix.Delete.{put_back, delete_in}
use proto_kernel.Radix.Paths.{same, get_slot-lt}
use proto_kernel.Radix.Valid.{
  Valid, number, number-le, number-change, below, lookup_in-suc, lookup_in-count_zero,
}
use proto_kernel.Radix.Inserted.{node_count, below-point, slots-Valid}

-- the tree past a walk: nothing was there, or the item is out
abbrev pub Took : (h : ℕ) → Tree h → (index : ℕ) → Option (ℕ × Tree h × Cache) → Type 0
Took h n index none = lookup_in h n index ≡ 0
Took h n index (some (ret, n', k')) =
    Valid h n'
    × (ret ≢ 0)
    × (ret ≡ lookup_in h n index)
    × ((j : ℕ) → lookup_in h n' j ≡ (if same h index j then 0 else lookup_in h n j))

leaf_less :
    (f : ℕ → ℕ) (offset : ℕ)
    → offset < 64
    → f offset ≢ 0
    → sub32 (number (λ i. not (f i == 0)) 64) 1 ≡ number (λ i. not (point f offset 0 i == 0)) 64
leaf_less f offset lt taken =
    let change =
      number-change (λ i. not (f i == 0)) (λ i. not (point f offset 0 i == 0)) 64 offset lt
        (λ i away. ground arith) in
    let room = number-le (λ i. not (f i == 0)) 64 in ground arith

leaf-Took :
    (n : Tree 0) (index : ℕ) (k : Cache) → Valid 0 n → Took 0 n index (delete_in 0 n index k)
unfolding delete_in lookup_in
leaf-Took n index k (level, count) = elim (Bool-cases (n.slots (get_slot index 0) == 0)) [
  | inl free ↦ rw free (ground arith)
  | inr taken ↦ rw taken (
    (
      level,
      ap (λ c. sub32 c 1) count
          ∙ leaf_less n.slots (get_slot index 0) (get_slot-lt index 0) (ground arith),
    ),
    ground arith,
    refl,
    λ j. ground arith,
  )
]

node_less :
    (h : ℕ) (n : Tree (suc h)) (offset : ℕ) (child : Tree h)
    → offset < 64
    → n.count ≡ number (λ i. is_some (n.slots i)) 64
    → n.slots offset ≡ some child
    → sub32 n.count 1 ≡ number (λ i. is_some (point n.slots offset none i)) 64
node_less h n offset child lt count at =
    let taken : is_some (n.slots offset) ≡ true = rw at refl in
    let change = node_count n.slots offset none lt in
    let room = number-le (λ i. is_some (n.slots i)) 64 in ground arith

pub node_same :
    (h : ℕ) (n : Tree (suc h)) (offset : ℕ) (child child' : Tree h)
    → offset < 64
    → n.count ≡ number (λ i. is_some (n.slots i)) 64
    → n.slots offset ≡ some child
    → n.count ≡ number (λ i. is_some (point n.slots offset (some child') i)) 64
node_same h n offset child child' lt count at =
    let taken : is_some (n.slots offset) ≡ true = rw at refl in
    let change = node_count n.slots offset (some child') lt in ground arith

one_out :
    (a b : ℕ) (f : ℕ → ℕ) (s : Bool) (l l' : ℕ)
    → f a ≡ l
    → l' ≡ (if s then 0 else l)
    → (if b == a then l' else f b) ≡ (if (a == b) && s then 0 else f b)
one_out a b f s l l' reads looks = elim (Bool-cases (b == a)) [
  | inl e ↦ let at : b ≡ a = ground arith in ground (arith, ap f at)
  | inr e ↦ ground arith
]

cleared-Valid :
    (h : ℕ) (f : ℕ → Option (Tree h)) (offset : ℕ)
    → ((i : ℕ) (c : Tree h) → f i ≡ some c → Valid h c)
    → (i : ℕ) (c : Tree h) → point f offset none i ≡ some c
    → Valid h c
cleared-Valid h f offset all i c e = elim (Bool-cases (i == offset)) [
  | inl at ↦ let gone : none ≡ some c = rw at at e in absurd (cc gone)
  | inr off ↦ all i c (rw off at e)
]

-- a slot's new child, or none for a child that holds nothing
slot-looks :
    (h : ℕ) (n n' : Tree (suc h)) (index : ℕ) (child child' : Tree h) (s : Option (Tree h))
    → n'.slots ≡ point n.slots (get_slot index (suc h)) s
    → n.slots (get_slot index (suc h)) ≡ some child
    → ((j : ℕ) → below h s j ≡ lookup_in h child' j)
    → ((j : ℕ) → lookup_in h child' j ≡ (if same h index j then 0 else lookup_in h child j))
    → (j : ℕ) → lookup_in (suc h) n' j ≡ (if same (suc h) index j then 0 else lookup_in (suc h) n j)
slot-looks h n n' index child child' s slots at reads looks j =
    rw
      (
        lookup_in-suc h n' j,
        lookup_in-suc h n j,
        slots,
        below-point h n.slots (get_slot index (suc h)) (get_slot j (suc h)) s j,
        reads j,
      )
      (one_out (get_slot index (suc h)) (get_slot j (suc h)) (λ b. below h (n.slots b) j)
        (same h index j) (lookup_in h child j) (lookup_in h child' j) (rw at refl) (looks j))

put_back-Took :
    (h : ℕ) (n : Tree (suc h)) (index : ℕ) (child : Tree h) (r : ℕ × Tree h × Cache)
    → Valid (suc h) n
    → n.slots (get_slot index (suc h)) ≡ some child
    → Took h child index (some r)
    → Took (suc h) n index (some (put_back h n (get_slot index (suc h)) r))
put_back-Took h n index child (ret, child', k) (level, count, all) at (v', nz, is, looks) =
    let here : lookup_in h child index ≡ lookup_in (suc h) n index =
      sym (lookup_in-suc h n index ∙ rw at refl) in
    elim (Bool-cases (count_of h child' == 0)) [
      | inl empty ↦ rw empty (
        (
          level,
          node_less h n offset child (get_slot-lt index (suc h)) count at,
          cleared-Valid h n.slots offset all,
        ),
        nz,
        is ∙ here,
        slot-looks h n (record n { slots = point n.slots offset none; count = sub32 n.count 1 })
            index child child' none refl at
            (λ j. sym (lookup_in-count_zero h child' j v' (ground arith))) looks,
      )
      | inr left ↦ rw left (
        (
          level,
          node_same h n offset child child' (get_slot-lt index (suc h)) count at,
          slots-Valid h n.slots offset child' all v',
        ),
        nz,
        is ∙ here,
        slot-looks h n (record n { slots = point n.slots offset (some child') }) index child child'
            (some child') refl at (λ j. refl) looks,
      )
    ]
  where
    offset : ℕ
    offset = get_slot index (suc h)

-- the walk of the level above
walk-Took :
    (h : ℕ) (n : Tree (suc h)) (index : ℕ) (s : Option (Tree h)) (k : Cache)
    → Valid (suc h) n
    → n.slots (get_slot index (suc h)) ≡ s
    → ((child : Tree h) → Valid h child → Took h child index (delete_in h child index k))
    → Took (suc h) n index (elim s [
      | none ↦ none
      | some child ↦ Option.map (put_back h n (get_slot index (suc h))) (delete_in h child index k)
    ])
walk-Took h n index none k v at rec = lookup_in-suc h n index ∙ rw at refl
walk-Took h n index (some child) k v at rec =
    back (delete_in h child index k) (rec child (v.2 (get_slot index (suc h)) child at))
  where
    back :
        (o : Option (ℕ × Tree h × Cache))
        → Took h child index o
        → Took (suc h) n index (Option.map (put_back h n (get_slot index (suc h))) o)
    back none e = lookup_in-suc h n index ∙ rw at e
    back (some r) t = put_back-Took h n index child r v at t

pub delete_in-Took :
    (h : ℕ) (n : Tree h) (index : ℕ) (k : Cache)
    → Valid h n
    → Took h n index (delete_in h n index k)
unfolding delete_in
delete_in-Took zero n index k v = leaf-Took n index k v
delete_in-Took (suc h) n index k v =
    walk-Took h n index (n.slots (get_slot index (suc h))) k v refl
      (λ child vc. delete_in-Took h child index k vc)

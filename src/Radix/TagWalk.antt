-- ===== src/Radix/TagWalk.antt =====
-- The walk of `radix_tree_tag_set`, and the tags of the tree past it.
use Prim.Native.Nat.{bit_and, bit_or}
use mathlib.Core.Option
use proto_kernel.Prelude.{
  ℕ, zero, suc, ◌%◌, ◌<◌, ◌≡◌, ◌≢◌, inl, inr, refl, sym, ap, ◌∙◌, arith, Bool, true, false, not,
  ◌&&◌, Option, none, some, ◌==◌, if◌then◌else◌, Bool-cases,
}
use proto_kernel.Bits.{bit, one_shl}
use proto_kernel.Bits.Digits.{bit-bit_or, bit-one_shl, bit_and-one_shl_iff}
use proto_kernel.Radix.{Node, Tree, get_slot, point, lookup_in, tag_set, tag_get}
use proto_kernel.Radix.Tags.{tag_parent, tag_set_in, tag_get_in}
use proto_kernel.Radix.Paths.{same, get_slot-lt}
use proto_kernel.Radix.Valid.{below, lookup_in-suc}
use proto_kernel.Radix.Inserted.{below-point}

bit_at : (w k : ℕ) → not (bit_and w (one_shl k) == 0) ≡ not (bit k w == 0)
bit_at w k = let both = bit_and-one_shl_iff w k in ground arith

or_at :
    (w k k' : ℕ)
    → not (bit k' (bit_or w (one_shl k)) == 0) ≡ (if k' == k then true else not (bit k' w == 0))
or_at w k k' = ground (arith, bit-bit_or k' w (one_shl k), bit-one_shl k' k)

bits-tag_set :
    (w wt k k' : ℕ) (same_tag : Bool)
    → not (bit_and (if same_tag then bit_or w (one_shl k) else wt) (one_shl k') == 0) ≡ (
        if same_tag && (k' == k)
        then true
        else not (bit_and (if same_tag then w else wt) (one_shl k') == 0))
bits-tag_set w wt k k' true =
    bit_at (bit_or w (one_shl k)) k'
    ∙ or_at w k k'
    ∙ ap (λ b. if k' == k then true else b) (sym (bit_at w k'))
bits-tag_set w wt k k' false = refl

pub tag_get-tag_set :
    {S : Type 0} (n : Node S) (tag offset t o : ℕ)
    → offset < 64
    → o < 64
    → tag_get (tag_set n tag offset) t o
      ≡ (if (t == tag) && (o == offset) then true else tag_get n t o)
unfolding tag_get tag_set
tag_get-tag_set n tag offset t o small small' =
    let at : offset % 64 ≡ offset = omega arith in
    let at' : o % 64 ≡ o = omega arith in
    rw (at, at', tag_set)
      (elim (Bool-cases (t == tag)) [
        | inl e ↦
            let same : t ≡ tag = ground arith in
            rw (e, same) (bits-tag_set (n.tags tag) (n.tags tag) offset o true)
        | inr e ↦ rw e refl
      ])

pub ==_comm : (a b : ℕ) → (a == b) ≡ (b == a)
==_comm a b = ground arith

-- the tree past a tag
abbrev pub Tagged : (h : ℕ) → Tree h → (index tag : ℕ) → Option (Bool × Tree h) → Type 0
Tagged h n index tag none = lookup_in h n index ≡ 0
Tagged h n index tag (some (up, n')) =
    (lookup_in h n index ≢ 0)
    × ((j : ℕ) → lookup_in h n' j ≡ lookup_in h n j)
    × ((j t : ℕ)
        → tag_get_in h n' j t ≡ (if (t == tag) && same h index j then true else tag_get_in h n j t))

leaf-Tagged : (n : Tree 0) (index tag : ℕ) → Tagged 0 n index tag (tag_set_in 0 n index tag)
unfolding tag_set_in lookup_in tag_get_in tag_set
leaf-Tagged n index tag = elim (Bool-cases (n.slots (get_slot index 0) == 0)) [
  | inl free ↦ rw free (ground arith)
  | inr there ↦ rw there (
    ground arith,
    λ j. refl,
    λ j t.
        tag_get-tag_set n tag (get_slot index 0) t (get_slot j 0) (get_slot-lt index 0)
          (get_slot-lt j 0)
        ∙ ap (λ b. if (t == tag) && b then true else tag_get n t (get_slot j 0))
            (==_comm (get_slot j 0) (get_slot index 0)),
  )
]

-- what a slot of an inner node says of a tag
abbrev below_tag : (h : ℕ) → Option (Tree h) → (j t : ℕ) → Bool
below_tag h none j t = false
below_tag h (some child) j t = tag_get_in h child j t

tag_get_in-suc :
    (h : ℕ) (n : Tree (suc h)) (j t : ℕ)
    → tag_get_in (suc h) n j t ≡ below_tag h (n.slots (get_slot j (suc h))) j t
unfolding tag_get_in
tag_get_in-suc h n j t =
    elim (n.slots (get_slot j (suc h)))
      as (λ s. elim s [ none ↦ false | some child ↦ tag_get_in h child j t ] ≡ below_tag h s j t) [
        | none ↦ refl
        | some child ↦ refl
      ]

below_tag-point :
    (h : ℕ) (f : ℕ → Option (Tree h)) (a b : ℕ) (s : Option (Tree h)) (j t : ℕ)
    → below_tag h (point f a s b) j t
      ≡ (if b == a then below_tag h s j t else below_tag h (f b) j t)
below_tag-point h f a b s j t = elim (Bool-cases (b == a)) [ inl e ↦ rw e refl | inr e ↦ rw e refl ]

same_slot : (a b : ℕ) (f : ℕ → ℕ) (l l' : ℕ) → f a ≡ l → l' ≡ l → (if b == a then l' else f b) ≡ f b
same_slot a b f l l' reads keeps = elim (Bool-cases (b == a)) [
  | inl e ↦ let at : b ≡ a = ground arith in ground (arith, ap f at)
  | inr e ↦ ground arith
]

tagged_slot :
    (a b : ℕ) (f : ℕ → Bool) (same_tag s l l' : Bool)
    → f a ≡ l
    → l' ≡ (if same_tag && s then true else l)
    → (if b == a then l' else f b) ≡ (if same_tag && ((a == b) && s) then true else f b)
tagged_slot a b f same_tag s l l' reads tags = elim (Bool-cases (b == a)) [
  | inl e ↦
      let at : a ≡ b = ground arith in
      let eq : (a == b) ≡ true = ground arith in rw (e, eq, tags, sym reads, at) refl
  | inr e ↦
      let off : (a == b) ≡ false = ground arith in
      rw (e, off)
        (elim same_tag as (λ t. f b ≡ (if t && false then true else f b)) [
          | true ↦ refl
          | false ↦ refl
        ])
]

hung-Tagged :
    (h : ℕ) (n n' : Tree (suc h)) (index tag : ℕ) (child child' : Tree h) (up up' : Bool)
    → n'.slots ≡ point n.slots (get_slot index (suc h)) (some child')
    → n.slots (get_slot index (suc h)) ≡ some child
    → Tagged h child index tag (some (up, child'))
    → Tagged (suc h) n index tag (some (up', n'))
hung-Tagged h n n' index tag child child' up up' slots at (there, looks, tags) = (
  λ z. there (sym (lookup_in-suc h n index ∙ rw at refl) ∙ z),
  λ j.
      rw
        (
          lookup_in-suc h n' j,
          lookup_in-suc h n j,
          slots,
          below-point h n.slots offset (get_slot j (suc h)) (some child') j,
        )
        (same_slot offset (get_slot j (suc h)) (λ b. below h (n.slots b) j) (lookup_in h child j)
          (lookup_in h child' j) (rw at refl) (looks j)),
  λ j t.
      rw
        (
          tag_get_in-suc h n' j t,
          tag_get_in-suc h n j t,
          slots,
          below_tag-point h n.slots offset (get_slot j (suc h)) (some child') j t,
        )
        (tagged_slot offset (get_slot j (suc h)) (λ b. below_tag h (n.slots b) j t) (t == tag)
          (same h index j) (tag_get_in h child j t) (tag_get_in h child' j t) (rw at refl)
          (tags j t)),
)
  where
    offset : ℕ
    offset = get_slot index (suc h)

slots-tag_set : {S : Type 0} (n : Node S) (tag offset : ℕ) → (tag_set n tag offset).slots ≡ n.slots
unfolding tag_set
slots-tag_set n tag offset = refl

parent-Tagged :
    (h : ℕ) (n : Tree (suc h)) (index tag : ℕ) (child : Tree h) (r : Bool × Tree h)
    → n.slots (get_slot index (suc h)) ≡ some child
    → Tagged h child index tag (some r)
    → Tagged (suc h) n index tag (some (tag_parent h n index tag r))
parent-Tagged h n index tag child (false, child') at t =
    hung-Tagged h n (record n { slots = point n.slots (get_slot index (suc h)) (some child') })
      index tag child child' false false refl at t
parent-Tagged h n index tag child (true, child') at t =
    let n' : Tree (suc h) = record n {
      slots = point n.slots (get_slot index (suc h)) (some child');
    } in
    elim (Bool-cases (tag_get n' tag (get_slot index n.height))) [
      | inl set ↦ rw set (hung-Tagged h n n' index tag child child' true false refl at t)
      | inr clear ↦ rw clear (
          hung-Tagged h n (tag_set n' tag (get_slot index n.height)) index tag child child' true
            true (slots-tag_set n' tag (get_slot index n.height)) at t)
    ]

walk-Tagged :
    (h : ℕ) (n : Tree (suc h)) (index tag : ℕ) (s : Option (Tree h))
    → n.slots (get_slot index (suc h)) ≡ s
    → ((child : Tree h) → Tagged h child index tag (tag_set_in h child index tag))
    → Tagged (suc h) n index tag (elim s as (λ s. Option (Bool × Tree (suc h))) [
      | none ↦ none
      | some child ↦ Option.map (tag_parent h n index tag) (tag_set_in h child index tag)
    ])
walk-Tagged h n index tag none at rec = lookup_in-suc h n index ∙ rw at refl
walk-Tagged h n index tag (some child) at rec = up (tag_set_in h child index tag) (rec child)
  where
    up :
        (o : Option (Bool × Tree h))
        → Tagged h child index tag o
        → Tagged (suc h) n index tag (Option.map (tag_parent h n index tag) o)
    up none e = lookup_in-suc h n index ∙ rw at e
    up (some r) t = parent-Tagged h n index tag child r at t

pub tag_set_in-Tagged :
    (h : ℕ) (n : Tree h) (index tag : ℕ) → Tagged h n index tag (tag_set_in h n index tag)
unfolding tag_set_in
tag_set_in-Tagged zero n index tag = leaf-Tagged n index tag
tag_set_in-Tagged (suc h) n index tag =
    walk-Tagged h n index tag (n.slots (get_slot index (suc h))) refl
      (λ child. tag_set_in-Tagged h child index tag)

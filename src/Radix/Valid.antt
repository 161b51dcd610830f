-- ===== src/Radix/Valid.antt =====
-- The invariant of the tree of kernel/lib/radix_tree.c: `height` is the level and `count` the number
-- of slots that are taken.
use proto_kernel.Prelude.{
  ℕ, zero, suc, ◌+◌, ◌≤◌, ◌<◌, ◌≡◌, sym, ◌≢◌, inl, inr, refl, ◌∙◌, arith, Bool, true, false, not,
  Option, none, some, ◌==◌, if◌then◌else◌, Bool-cases,
}
use proto_kernel.Radix.{
  is_some, Tree, map_size, get_slot, node_create, tree_create, count_of, lookup_in,
}

-- the number of offsets below `n` that pass a test
unfoldable pub number : (ℕ → Bool) → ℕ → ℕ
number p zero = 0
number p (suc n) = number p n + (if p n then 1 else 0)

pub number-le : (p : ℕ → Bool) (n : ℕ) → number p n ≤ n
unfolding number
number-le p zero = omega arith
number-le p (suc n) = ground (arith, number-le p n)

pub number-agree :
    (p q : ℕ → Bool) (n : ℕ) → ((i : ℕ) → i < n → p i ≡ q i) → number p n ≡ number q n
unfolding number
number-agree p q zero same = refl
number-agree p q (suc n) same =
    rw (same n (omega arith), number-agree p q n (λ i h. same i (omega arith))) refl

-- one offset changed
pub number-change :
    (p q : ℕ → Bool) (n offset : ℕ)
    → offset < n
    → ((i : ℕ) → i ≢ offset → p i ≡ q i)
    → number p n + (if q offset then 1 else 0) ≡ number q n + (if p offset then 1 else 0)
unfolding number
number-change p q zero offset h same = absurd (omega arith)
number-change p q (suc n) offset h same = elim (Bool-cases (offset == n)) [
  | inl e ↦
      let at : offset ≡ n = ground arith in
      rw (at, number-agree p q n (λ i lt. same i (λ bad. omega arith))) (omega arith)
  | inr e ↦
      let off : n ≢ offset = λ bad. ground arith in
      rw (same n off) (omega (arith, number-change p q n offset (ground arith) same))
]

pub number-zero : (p : ℕ → Bool) (n i : ℕ) → number p n ≡ 0 → i < n → p i ≡ false
unfolding number
number-zero p zero i e h = absurd (omega arith)
number-zero p (suc n) i e h = elim (Bool-cases (i == n)) [
  | inl at ↦ ground arith
  | inr off ↦ number-zero p n i (ground arith) (ground arith)
]

-- with one offset taken, no other is
pub number-one :
    (p : ℕ → Bool) (n i j : ℕ) → number p n ≡ 1 → i < n → j < n → p i ≡ true → i ≢ j → p j ≡ false
number-one p n i j e hi hj taken off =
    let q : ℕ → Bool = λ k. if k == i then false else p k in
    let less = number-change q p n i hi (λ k away. ground arith) in
    let gone : q j ≡ false = number-zero q n j (ground arith) hj in ground arith

abbrev pub Valid : (h : ℕ) → Tree h → Type 0
Valid zero n = (n.height ≡ 0) × (n.count ≡ number (λ i. not (n.slots i == 0)) map_size)
Valid (suc h) n =
    (n.height ≡ suc h)
    × (n.count ≡ number (λ i. is_some (n.slots i)) map_size)
    × ((i : ℕ) (child : Tree h) → n.slots i ≡ some child → Valid h child)

pub number-false : (n : ℕ) → number (λ i. false) n ≡ 0
unfolding number
number-false zero = refl
number-false (suc n) = omega (arith, number-false n)

pub tree_create-Valid : (h : ℕ) → Valid h (tree_create h)
unfolding tree_create node_create
tree_create-Valid zero = (refl, sym (number-false 64))
tree_create-Valid (suc h) = (refl, sym (number-false 64), λ i child e. absurd (cc e))

pub lookup_in-tree_create : (h j : ℕ) → lookup_in h (tree_create h) j ≡ 0
unfolding tree_create node_create lookup_in
lookup_in-tree_create zero j = refl
lookup_in-tree_create (suc h) j = refl

pub zero_of_free : (x : ℕ) → not (x == 0) ≡ false → x ≡ 0
zero_of_free x e = ground arith

-- what a slot of an inner node leads to
abbrev pub below : (h : ℕ) → Option (Tree h) → (j : ℕ) → ℕ
below h none j = 0
below h (some child) j = lookup_in h child j

pub lookup_in-suc :
    (h : ℕ) (n : Tree (suc h)) (j : ℕ)
    → lookup_in (suc h) n j ≡ below h (n.slots (get_slot j (suc h))) j
unfolding lookup_in
lookup_in-suc h n j =
    elim (n.slots (get_slot j (suc h)))
      as (λ s. elim s [ none ↦ 0 | some child ↦ lookup_in h child j ] ≡ below h s j) [
        | none ↦ refl
        | some child ↦ refl
      ]

-- a tree that counts nothing holds nothing
pub lookup_in-count_zero :
    (h : ℕ) (n : Tree h) (j : ℕ) → Valid h n → count_of h n ≡ 0 → lookup_in h n j ≡ 0
unfolding lookup_in count_of
lookup_in-count_zero zero n j (level, count) e =
    zero_of_free (n.slots (get_slot j 0))
      (number-zero (λ i. not (n.slots i == 0)) 64 (get_slot j 0) (cc (count, e)) (omega arith))
lookup_in-count_zero (suc h) n j (level, count, all) e =
    lookup_in-suc h n j
    ∙ free h (n.slots (get_slot j (suc h))) (
        number-zero (λ i. is_some (n.slots i)) 64 (get_slot j (suc h)) (cc (count, e))
          (omega arith))
  where
    free : (h : ℕ) (s : Option (Tree h)) → is_some s ≡ false → below h s j ≡ 0
    free h none f = refl
    free h (some child) f = absurd (cc f)

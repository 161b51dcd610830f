-- ===== src/Irq/Domain/Reserve.antt =====
-- Reserving a range of a tree domain is all or nothing, and releasing it takes out the markers alone.
use proto_kernel.Prelude.{
  ℕ, zero, suc, ◌+◌, ◌^◌, ◌≤◌, ◌<◌, ◌≡◌, inl, inr, refl, sym, ap, subst, ◌∙◌, arith, Bool, true,
  false, ◌&&◌, ◌==◌, if◌then◌else◌, Bool-cases, ==_iff,
}
use proto_kernel.Bits.{u32}
use proto_kernel.Bitmap.Ranges.{within}
use proto_kernel.Radix.{Root, radix_tree_lookup}
use proto_kernel.Radix.Cache.{Cache}
use proto_kernel.Radix.Insert.{radix_tree_insert}
use proto_kernel.Radix.Delete.{radix_tree_delete}
use proto_kernel.Radix.Machine.{Holds}
use proto_kernel.Radix.Refine.{Inserted, radix_tree_insert_lem}
use proto_kernel.Radix.Removed.{radix_tree_delete_lem}
use proto_kernel.Irq.Domain.{
  reserved_marker, tree_free, all_free, rollback, reserve_each, tree_domain_reserve_range,
  release_each, tree_domain_release_range,
}

-- the map with a range of it reserved
abbrev pub marked : (ℕ → ℕ) → (base n : ℕ) → ℕ → ℕ
marked f base n j = if within base n j then reserved_marker else f j

abbrev pub released : (ℕ → ℕ) → (base n : ℕ) → ℕ → ℕ
released f base n j = if within base n j && (f j == reserved_marker) then 0 else f j

abbrev pub Free : (ℕ → ℕ) → (base n : ℕ) → Type 0
Free f base n = (j : ℕ) → base ≤ j → j < base + n → f j ≡ 0

pub Holds-agree : (f g : ℕ → ℕ) (root : Root) → Holds f root → ((j : ℕ) → f j ≡ g j) → Holds g root
Holds-agree f g root (v, holds) same = (v, λ j w. holds j w ∙ same j)

delete-Holds :
    (f : ℕ → ℕ) (root : Root) (index : ℕ) (k : Cache)
    → index < 2 ^ 32
    → Holds f root
    → Holds (λ j. if j == index then 0 else f j) (radix_tree_delete index root k).1
delete-Holds f root index k w (v, holds) =
    let (v', is, looks) = radix_tree_delete_lem root index k v w in
    (v', λ j wj. looks j wj ∙ ap (λ l. if j == index then 0 else l) (holds j wj))

unmarked :
    (f : ℕ → ℕ) (base i index j : ℕ)
    → index ≡ base + i
    → f (base + i) ≡ 0
    → (if j == index then 0 else marked f base (suc i) j) ≡ marked f base i j
unmarked f base i index j at free = elim (Bool-cases (j == index)) [
  | inl here ↦
      let same : j ≡ base + i = ground arith in
      let zero_there : f j ≡ 0 = ap f same ∙ free in ground arith
  | inr other ↦ ground arith
]

pub one_more :
    (f : ℕ → ℕ) (base i index j : ℕ)
    → index ≡ base + i
    → (if j == index then reserved_marker else marked f base i j) ≡ marked f base (i + 1) j
one_more f base i index j at = ground arith

module _ (f : ℕ → ℕ) (base : ℕ) where
  rollback-Holds :
      (i : ℕ) (root : Root) (k : Cache)
      → base + i ≤ 2 ^ 32
      → Free f base i
      → Holds (marked f base i) root
      → Holds f (rollback i base root k).0
  unfolding rollback
  rollback-Holds zero root k fits free holds =
      Holds-agree (marked f base 0) f root holds (λ j. ground arith)
  rollback-Holds (suc i) root k fits free holds =
      let index : ℕ = u32 (base + i) in
      let at : index ≡ base + i = omega arith in
      let (entry, root', k') = radix_tree_delete index root k in
      rollback-Holds i root' k' (omega arith) (λ j lo hi. free j lo (omega arith))
        (Holds-agree (λ j. if j == index then 0 else marked f base (suc i) j) (marked f base i)
          root' (delete-Holds (marked f base (suc i)) root index k (omega arith) holds)
          (λ j. unmarked f base i index j at (free (base + i) (omega arith) (omega arith))))

  -- done, and the range is reserved; or not, and the map is what it was
  abbrev pub Reserved : (n : ℕ) → Bool × Root × Cache → Type 0
  Reserved n (done, root, k) = Holds (if done then marked f base n else f) root

  reserve_next :
      (left i index : ℕ) (root : Root) (r : Bool × Root × Cache)
      → index ≡ base + i
      → index < 2 ^ 32
      → base + i + suc left ≤ 2 ^ 32
      → Free f base (i + suc left)
      → Holds (marked f base i) root
      → Inserted root index reserved_marker r
      → ((root : Root) (k : Cache)
          → Holds (marked f base (i + 1)) root
          → Reserved (i + 1 + left) (reserve_each base left (i + 1) root k))
      → Reserved (i + suc left) (elim r.0 as (λ d. Bool × Root × Cache) [
        | true ↦ reserve_each base left (i + 1) r.1 r.2
        | false ↦ let (root, k) = rollback i base r.1 r.2 in (false, root, k)
      ])
  reserve_next left i index root (true, root', k') at w fits free (v, holds) (v', took, looks) rec =
      let more : i + 1 + left ≡ i + suc left = omega arith in
      subst (λ n. Reserved n (reserve_each base left (i + 1) root' k')) more
        (rec root' k' (
          v',
          λ j wj.
              looks j wj
              ∙ ap (λ l. if j == index then reserved_marker else l) (holds j wj)
              ∙ one_more f base i index j at,
        ))
  reserve_next left i index root (false, root', k') at w fits free (v, holds) (v', took, looks)
        rec =
      rollback-Holds i root' k' (omega arith) (λ j lo hi. free j lo (omega arith))
        (v', λ j wj. looks j wj ∙ holds j wj)

  reserve_each-Reserved :
      (left i : ℕ) (root : Root) (k : Cache)
      → base + i + left ≤ 2 ^ 32
      → Free f base (i + left)
      → Holds (marked f base i) root
      → Reserved (i + left) (reserve_each base left i root k)
  unfolding reserve_each
  reserve_each-Reserved zero i root k fits free holds =
      Holds-agree (marked f base i) (marked f base (i + zero)) root holds (λ j. ground arith)
  reserve_each-Reserved (suc left) i root k fits free holds =
      let index : ℕ = u32 (base + i) in
      reserve_next left i index root (radix_tree_insert index reserved_marker root k) (omega arith)
        (omega arith) fits free holds
        (radix_tree_insert_lem root index reserved_marker k holds.0 (omega arith))
        (λ root k holds.
          reserve_each-Reserved left (i + 1) root k (omega arith)
            (λ j lo hi. free j lo (omega arith)) holds)

-- the first loop answers whether the range is free
all_free-Free :
    (f : ℕ → ℕ) (base left i : ℕ) (root : Root)
    → base + i + left ≤ 2 ^ 32
    → Holds f root
    → all_free root base left i ≡ true
    → Free f (base + i) left
unfolding all_free
all_free-Free f base zero i root fits holds e j lo hi = absurd (omega arith)
all_free-Free f base (suc left) i root fits (v, holds) e j lo hi =
    let at : u32 (base + i) ≡ base + i = omega arith in
    elim (Bool-cases (tree_free root (u32 (base + i)))) [
      | inr used ↦ absurd (false_true (sym (rw (used, all_free) refl) ∙ e))
      | inl clear ↦ elim (Bool-cases (j == base + i)) [
        | inl here ↦
            let same : base + i ≡ j = ground arith in
            sym (holds j (omega arith))
            ∙ subst (λ j. radix_tree_lookup root j ≡ 0) (at ∙ same)
                ((==_iff (radix_tree_lookup root (u32 (base + i))) 0).0 clear)
        | inr later ↦
            all_free-Free f base left (i + 1) root (omega arith) (v, holds)
              (sym (rw (clear, all_free) refl) ∙ e) j (ground arith) (omega arith)
      ]
    ]
  where
    false_true : false ≡ true → ⊥
    false_true b = cc b

-- the answer of a reservation and the map past it
abbrev pub ReservedRange : (ℕ → ℕ) → (base count : ℕ) → Bool × Root × Cache → Type 0
ReservedRange f base count (done, root, k) =
    (done ≡ true → (0 < count) × Free f base count)
    × Holds (if done then marked f base count else f) root

pub tree_domain_reserve_range_lem :
    (f : ℕ → ℕ) (base count : ℕ) (root : Root) (k : Cache)
    → base + count ≤ 2 ^ 32
    → Holds f root
    → ReservedRange f base count (tree_domain_reserve_range base count root k)
unfolding tree_domain_reserve_range
tree_domain_reserve_range_lem f base count root k fits holds = elim (Bool-cases (count == 0)) [
  | inl nothing ↦ rw nothing (λ bad. cc bad, holds)
  | inr some_count ↦ elim (Bool-cases (all_free root base count 0)) [
    | inr used ↦ rw (some_count, used) (λ bad. cc bad, holds)
    | inl clear ↦
        let free : Free f base count = λ j lo hi.
          all_free-Free f base count 0 root (omega arith) holds clear j (omega arith)
            (omega arith) in
        rw (some_count, clear)
          (
            λ done. (ground arith, free),
            subst (λ n. Reserved f base n (reserve_each base count 0 root k)) all
                (reserve_each-Reserved f base count 0 root k (omega arith)
                  (λ j lo hi. free j lo (omega arith))
                  (Holds-agree f (marked f base 0) root holds (λ j. ground arith))),
          )
  ]
]
  where
    all : 0 + count ≡ count
    all = omega arith

one_released :
    (f : ℕ → ℕ) (base i index j : ℕ)
    → index ≡ base + i
    → (released f base i index == reserved_marker) ≡ true
    → (if j == index then 0 else released f base i j) ≡ released f base (i + 1) j
one_released f base i index j at entry = elim (Bool-cases (j == index)) [
  | inl here ↦
      let same : index ≡ j = ground arith in
      let marker : f j ≡ 1 = ap f (sym same) ∙ ground arith in ground arith
  | inr other ↦ ground arith
]

none_released :
    (f : ℕ → ℕ) (base i index j : ℕ)
    → index ≡ base + i
    → (released f base i index == reserved_marker) ≡ false
    → released f base i j ≡ released f base (i + 1) j
none_released f base i index j at entry = elim (Bool-cases (j == index)) [
  | inl here ↦
      let same : index ≡ j = ground arith in
      let kept : f j ≡ f index = ap f (sym same) in ground arith
  | inr other ↦ ground arith
]

module _ (f : ℕ → ℕ) (base : ℕ) where
  release_each-Holds :
      (left i : ℕ) (root : Root) (k : Cache)
      → base + i + left ≤ 2 ^ 32
      → Holds (released f base i) root
      → Holds (released f base (i + left)) (release_each base left i root k).0
  unfolding release_each
  release_each-Holds zero i root k fits holds =
      Holds-agree (released f base i) (released f base (i + zero)) root holds (λ j. ground arith)
  release_each-Holds (suc left) i root k fits (v, holds) =
      let index : ℕ = u32 (base + i) in
      let at : index ≡ base + i = omega arith in
      let w : index < 2 ^ 32 = omega arith in
      let read = holds index w in
      let more : i + 1 + left ≡ i + suc left = omega arith in
      elim (Bool-cases (radix_tree_lookup root index == reserved_marker)) [
        | inl marker ↦
            let (entry, root', k') = radix_tree_delete index root k in
            let next : Holds (released f base (i + 1)) root' =
              Holds-agree (λ j. if j == index then 0 else released f base i j)
                (released f base (i + 1)) root'
                (delete-Holds (released f base i) root index k w (v, holds))
                (λ j.
                  one_released f base i index j at
                    (ap (λ l. l == reserved_marker) (sym read) ∙ marker)) in
            rw (marker, release_each)
              (subst (λ n. Holds (released f base n) (release_each base left (i + 1) root' k').0)
                more (release_each-Holds left (i + 1) root' k' (omega arith) next))
        | inr other ↦
            let next : Holds (released f base (i + 1)) root =
              Holds-agree (released f base i) (released f base (i + 1)) root (v, holds)
                (λ j.
                  none_released f base i index j at
                    (ap (λ l. l == reserved_marker) (sym read) ∙ other)) in
            rw (other, release_each)
              (subst (λ n. Holds (released f base n) (release_each base left (i + 1) root k).0) more
                (release_each-Holds left (i + 1) root k (omega arith) next))
      ]

  pub tree_domain_release_range_lem :
      (count : ℕ) (root : Root) (k : Cache)
      → base + count ≤ 2 ^ 32
      → Holds f root
      → Holds (released f base count) (tree_domain_release_range base count root k).0
  unfolding tree_domain_release_range
  tree_domain_release_range_lem count root k fits holds =
      let all : 0 + count ≡ count = omega arith in
      subst (λ n. Holds (released f base n) (release_each base count 0 root k).0) all
        (release_each-Holds count 0 root k (omega arith)
          (Holds-agree f (released f base 0) root holds (λ j. ground arith)))

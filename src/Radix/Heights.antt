-- ===== src/Radix/Heights.antt =====
-- `radix_tree_extend`: the height it makes for an index, and the new roots above the old one.
use proto_kernel.Prelude.{
  ℕ, zero, suc, ◌+◌, ◌*◌, ◌^◌, ◌≤◌, ◌<◌, ◌≡◌, ◌↔◌, inl, inr, subst, arith, true, false, ◌==◌, ltb,
  Bool-cases,
}
use proto_kernel.Radix.{maxindex}
use proto_kernel.Radix.Paths.{maxindex-lt}
use proto_kernel.Radix.Insert.{height_from}

-- the least height from `height` on at which `radix_tree_maxindex` does not stop an index
abbrev pub LeastFit : (height index found : ℕ) → Type 0
LeastFit height index found =
    (height ≤ found)
    × (found ≤ 6)
    × (ltb (maxindex found) index ≡ false)
    × ((lower : ℕ) → height ≤ lower → lower < found → ltb (maxindex lower) index ≡ true)

maxindex-top : (index : ℕ) → index < 2 ^ 32 → ltb (maxindex 6) index ≡ false
unfolding maxindex
maxindex-top index w = ground arith

pub height_from-LeastFit :
    (fuel height index : ℕ)
    → height ≤ 6
    → 6 ≤ fuel + height
    → index < 2 ^ 32
    → LeastFit height index (height_from fuel height index)
unfolding height_from
height_from-LeastFit zero height index small enough w =
    let at : 6 ≡ height = omega arith in
    (
      omega arith,
      small,
      subst (λ top. ltb (maxindex top) index ≡ false) at (maxindex-top index w),
      λ lower lo hi. absurd (omega arith),
    )
height_from-LeastFit (suc fuel) height index small enough w =
    elim (Bool-cases (ltb (maxindex height) index)) [
      | inr fits ↦ rw fits (omega arith, small, fits, λ lower lo hi. absurd (omega arith))
      | inl over ↦
          rw over
            (up over (height_from-LeastFit fuel (height + 1) index (below over) (omega arith) w))
    ]
  where
    below : ltb (maxindex height) index ≡ true → height + 1 ≤ 6
    below over = elim (Bool-cases (height == 6)) [
      | inr off ↦ ground arith
      | inl on ↦
          let at : 6 ≡ height = ground arith in
          absurd
            (cc (over, subst (λ top. ltb (maxindex top) index ≡ false) at (maxindex-top index w)))
    ]

    up :
        {found : ℕ}
        → ltb (maxindex height) index ≡ true
        → LeastFit (height + 1) index found
        → LeastFit height index found
    up over (lo, hi, fits, least) = (
      omega arith,
      hi,
      fits,
      λ lower from to. elim (Bool-cases (lower == height)) [
        | inl at ↦ let e : lower ≡ height = ground arith in rw e over
        | inr off ↦ least lower (ground arith) to
      ],
    )

-- a tree of a height has 6 bits of the index for each level; this is the least height from `height`
-- on, and at most the sixth, whose bits suffice
abbrev pub Least : (height index found : ℕ) → Type 0
Least height index found =
    (height ≤ found)
    × (found ≤ 6)
    × (index < 2 ^ (6 * found))
    × ((lower : ℕ) → height ≤ lower → lower < found → 2 ^ (6 * lower) ≤ index)

fit_bits :
    (found index : ℕ)
    → 1 ≤ found
    → found ≤ 6
    → index < 2 ^ 32
    → (ltb (maxindex found) index ≡ false) ↔ (index < 2 ^ (6 * found))
fit_bits zero index pos le w = absurd (omega arith)
fit_bits (suc h) index pos le w = maxindex-lt h index (omega arith) w

-- For an index below 2^32 the loop of radix_tree_extend, begun at a height from 1 to 6 with a
-- round for each level up to the sixth, ends at the least height from there on whose levels, at 6
-- bits each, hold the index, and at the sixth at most.
pub height_from-Least :
    (fuel height index : ℕ)
    → 1 ≤ height
    → height ≤ 6
    → 6 ≤ fuel + height
    → index < 2 ^ 32
    → Least height index (height_from fuel height index)
height_from-Least fuel height index pos small enough w =
    let (lo, hi, fits, least) = height_from-LeastFit fuel height index small enough w in
    (
      lo,
      hi,
      (fit_bits (height_from fuel height index) index (omega (arith, lo)) hi w).0 fits,
      λ lower from to.
          let stopped = least lower from to in
          let iff = fit_bits lower index (omega arith) (omega (arith, hi)) w in
          elim (Bool-cases (ltb (2 ^ (6 * lower)) (index + 1))) [
            | inl big ↦ ground arith
            | inr short ↦ absurd (cc (stopped, iff.1 (ground arith)))
          ],
    )

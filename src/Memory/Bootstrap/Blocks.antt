-- ===== src/Memory/Bootstrap/Blocks.antt =====
-- What `pmm_bootstrap_alloc` hands out.
use proto_kernel.Prelude.{
  ℕ, ◌+◌, ◌-◌, ◌*◌, ◌/◌, ◌^◌, ◌≤◌, ◌<◌, ◌≡◌, refl, arith, ◌==◌, ltb, false, inl, inr, ◌∷◌,
  Bool-cases,
}
use native.Mathlib.Nat.{pow-le-pow_right}
use proto_kernel.Bits.{u64}
use proto_kernel.Bits.Align.{down, bit_and-complement, down-le, lt-down, down-multiple}
use proto_kernel.Memory.Bootstrap.{Bootstrap, align_up, pmm_bootstrap_alloc}

-- `[pa, pa + size)` is a new block, aligned to `2^k`, behind all that was taken before.
pub record Block (k size : ℕ) (s : Bootstrap) (pa : ℕ) (s' : Bootstrap) : Type 0 where
  pub behind : s.current ≤ pa
  pub near : pa < s.current + 2 ^ k
  pub aligned : (q : ℕ) × (pa ≡ q * 2 ^ k)
  pub inside : pa + size ≤ s.end
  pub current : s'.current ≡ pa + size
  pub used : s'.used ≡ u64 (s.used + size)
  pub start : s'.start ≡ s.start
  pub end : s'.end ≡ s.end
  pub words : s'.cleared ≡ (pa, size / 8) ∷ s.cleared

pub data Taken (k size : ℕ) (s : Bootstrap) : ℕ → Bootstrap → Type 0 where
  -- fewer than `size + 2^k` bytes are left
  full : s.end < s.current + size + 2 ^ k → Taken k size s 0 s
  block : (pa : ℕ) (s' : Bootstrap) → Block k size s pa s' → Taken k size s pa s'

module _ (k size : ℕ) (s : Bootstrap) (le : k < 64) (pos : 0 < size)
    (room : s.current + 2 ^ k + size < 2 ^ 64) where
  alignment_pos : 1 ≤ 2 ^ k
  alignment_pos = pow-le-pow_right {n = 2} (omega arith) {i = 0} {j = k} (omega arith)

  abbrev aligned : ℕ
  aligned = down k (s.current + 2 ^ k - 1)

  align_exact : align_up s.current (2 ^ k) ≡ aligned
  align_exact =
      let small : u64 (s.current + 2 ^ k - 1) ≡ s.current + 2 ^ k - 1 =
        omega (arith, alignment_pos) in
      rw small
        (bit_and-complement k (s.current + 2 ^ k - 1) (omega arith) (omega (arith, alignment_pos)))

  -- For an alignment 2^k below 2^64, a size above 0, and no wrap past 2^64, pmm_bootstrap_alloc
  -- returns either 0 with the state unchanged, and then fewer bytes than the size plus the
  -- alignment are left, or a block at a multiple of the alignment that begins at or behind all
  -- that was taken before and lies inside the range, with the state moved to its end.
  pub pmm_bootstrap_alloc_lem :
      (pa : ℕ) × (s' : Bootstrap) × (pmm_bootstrap_alloc size (2 ^ k) s ≡ (pa, s'))
      × Taken k size s pa s'
  unfolding pmm_bootstrap_alloc
  pmm_bootstrap_alloc_lem =
      let some_size : (size == 0) ≡ false = ground arith in
      let some_alignment : (2 ^ k == 0) ≡ false = ground (arith, alignment_pos) in
      let lo = down-le k (s.current + 2 ^ k - 1) in
      let hi = lt-down k (s.current + 2 ^ k - 1) in
      let exact : u64 (aligned + size) ≡ aligned + size = omega (arith, lo) in
      elim (Bool-cases (ltb s.end (aligned + size))) [
        | inl over ↦ (
          0,
          s,
          rw (some_size, some_alignment, align_exact, exact, over) refl,
          full (ground (arith, lo)),
        )
        | inr fits ↦ (
          aligned,
          record s {
            current = aligned + size;
            used = u64 (s.used + size);
            cleared = (aligned, size / 8) ∷ s.cleared;
          },
          rw (some_size, some_alignment, align_exact, exact, fits) refl,
          block aligned _ (record {
            behind = omega (arith, hi, alignment_pos);
            near = omega (arith, lo, alignment_pos);
            aligned = down-multiple k (s.current + 2 ^ k - 1);
            inside = ground arith;
            current = refl;
            used = refl;
            start = refl;
            end = refl;
            words = refl;
          }),
        )
      ]

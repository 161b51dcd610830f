-- ===== src/Irq/Virq/Free.antt =====
-- `virq_free` and `virq_free_range` on every branch, and the wrap of `virq + count`.
use native.Mathlib.Decide.{dec_lt}
use proto_kernel.Prelude.{
  ℕ, zero, suc, ◌+◌, ◌*◌, ◌^◌, ◌≤◌, ◌<◌, ◌≡◌, refl, ◌∙◌, arith, inl, inr, Bool, true, false, some,
  ◌==◌, ltb, leb, ◌||◌, ◌&&◌, if◌then◌else◌, length, ok, fault, Bool-cases,
}
use proto_kernel.Bits.{u32}
use proto_kernel.Bitmap.{Bitmap}
use proto_kernel.Bitmap.Members.{has, remove, clear_bit-ok, clear_bit-fault, length-remove}
use proto_kernel.Bitmap.Ranges.{within, remove_range, length-remove_range, has-remove_range}
use proto_kernel.Irq.Virq.{VirqAllocator, max_virq, free, free_range, clear_each}
use proto_kernel.Irq.Virq.Valid.{IsValid}

-- `s'` is valid and holds the numbers of `bitmap` that `gone` does not name.
pub record Left (bitmap : Bitmap) (gone : ℕ → Bool) (s' : VirqAllocator) : Type 0 where
  pub after : Bitmap
  pub valid : IsValid s' after
  pub member : (j : ℕ) → has after j ≡ (if gone j then false else has bitmap j)

-- the numbers that a call gives back: none if the range is not one of valid numbers
abbrev pub freed : ℕ → ℕ → ℕ → Bool
freed virq count j = ltb 0 virq && (leb (virq + count) max_virq && within virq count j)

clear_each-ok :
    (bitmap : Bitmap) (virq left i lo : ℕ)
    → virq + i ≡ lo
    → lo + left ≤ 64 * length bitmap
    → lo + left ≤ 2 ^ 32
    → clear_each bitmap virq left i ≡ ok (remove_range bitmap lo left)
unfolding clear_each remove_range
clear_each-ok bitmap virq zero i lo e fits small = refl
clear_each-ok bitmap virq (suc left) i lo e fits small =
    rw (same, clear_bit-ok bitmap lo (omega arith))
      (clear_each-ok (remove bitmap lo) virq left (i + 1) (lo + 1) (omega arith)
        (omega (arith, length-remove bitmap lo)) (omega arith))
  where
    same : u32 (virq + i) ≡ lo
    same = omega arith

-- The loop that leaves the bitmap writes past its end.
clear_each-fault :
    (bitmap : Bitmap) (virq left i lo : ℕ)
    → virq + i ≡ lo
    → lo < 2 ^ 32
    → length bitmap ≤ 16
    → 0 < left
    → 64 * length bitmap < lo + left
    → clear_each bitmap virq left i ≡ fault
unfolding clear_each
clear_each-fault bitmap virq zero i lo e small size more past = absurd (omega arith)
clear_each-fault bitmap virq (suc left) i lo e small size more past =
    elim (dec_lt lo (64 * length bitmap)) [
      | yes fits ↦
          rw (same, clear_bit-ok bitmap lo fits)
            (clear_each-fault (remove bitmap lo) virq left (i + 1) (lo + 1) (omega arith)
              (omega arith) (omega (arith, length-remove bitmap lo)) (omega arith)
              (omega (arith, length-remove bitmap lo)))
      | no out ↦ rw (same, clear_bit-fault bitmap lo (omega arith))
    ]
  where
    same : u32 (virq + i) ≡ lo
    same = omega arith

module _ {s : VirqAllocator} {bitmap : Bitmap} (v : IsValid s bitmap) where
  Left-remove_range :
      (virq count hint : ℕ)
      → 0 < virq
      → virq + count ≤ max_virq
      → 1 ≤ hint
      → hint ≤ max_virq
      → Left bitmap
          (freed virq count)
          (record s { bitmap = some (remove_range bitmap virq count); next_virq = hint })
  Left-remove_range virq count hint pos h lo hi = record {
    after = remove_range bitmap virq count;
    valid = record {
      initialised = refl;
      size = length-remove_range bitmap virq count ∙ v.size;
      limit = v.limit;
      reserved =
          ground (arith, has-remove_range bitmap virq count 0 (omega (arith, v.size)), v.reserved);
      hint_low = lo;
      hint_high = hi;
    };
    member = λ j. ground (arith, has-remove_range bitmap virq count j (omega (arith, v.size)));
  }

  -- the hint moves down to what was freed
  abbrev hint : ℕ → ℕ
  hint virq = if ltb virq s.next_virq then virq else s.next_virq

  hint_bounds : (virq : ℕ) → 0 < virq → (1 ≤ hint virq) × (hint virq ≤ max_virq)
  hint_bounds virq pos = ground (arith, v.hint_low, v.hint_high)

  Left-nothing : (gone : ℕ → Bool) → ((j : ℕ) → gone j ≡ false) → Left bitmap gone s
  Left-nothing gone none_gone = record {
    after = bitmap;
    valid = v;
    member = λ j. rw (none_gone j) refl;
  }

  free-nothing : (virq : ℕ) → (virq == 0 || leb s.max virq) ≡ true → free virq s ≡ ok s
  unfolding free
  free-nothing virq bad = rw bad

  free-one :
      (virq : ℕ)
      → (virq == 0 || leb s.max virq) ≡ false
      → free virq s
        ≡ ok (record s { bitmap = some (remove_range bitmap virq 1); next_virq = hint virq })
  unfolding free remove_range
  free-one virq good =
      rw (good, v.initialised, clear_bit-ok bitmap virq (ground (arith, v.size, v.limit))) refl

  -- In a valid state virq_free returns in a valid state that has lost exactly the given number,
  -- or nothing if that is 0 or at least 1024.
  pub free_lem :
      (virq : ℕ) → (s' : VirqAllocator) × (free virq s ≡ ok s') × Left bitmap (freed virq 1) s'
  free_lem virq = elim (Bool-cases (virq == 0 || leb s.max virq)) [
    | inl bad ↦
        (s, free-nothing virq bad, Left-nothing (freed virq 1) (λ j. ground (arith, v.limit)))
    | inr good ↦
        let pos : 0 < virq = ground arith in
        let below : virq + 1 ≤ max_virq = ground (arith, v.limit) in
        let bounds = hint_bounds virq pos in
        (
          record s { bitmap = some (remove_range bitmap virq 1); next_virq = hint virq },
          free-one virq good,
          Left-remove_range virq 1 (hint virq) pos below bounds.0 bounds.1,
        )
  ]

  -- In a valid state, for a range whose end does not wrap past 2^32, virq_free_range returns in a
  -- valid state that has lost exactly the numbers of the range, or none if the range is empty,
  -- starts at 0 or ends above 1024.
  pub free_range_lem :
      (virq count : ℕ)
      → virq + count < 2 ^ 32
      → (s' : VirqAllocator) × (free_range virq count s ≡ ok s') × Left bitmap (freed virq count) s'
  unfolding free_range
  free_range_lem virq count small =
      elim (Bool-cases (virq == 0 || (count == 0 || ltb s.max (u32 (virq + count))))) [
        | inl bad ↦ (s, rw bad, Left-nothing (freed virq count) (λ j. ground (arith, v.limit)))
        | inr good ↦
            let pos : 0 < virq = ground arith in
            let below : virq + count ≤ max_virq = ground (arith, v.limit) in
            let bounds = hint_bounds virq pos in
            (
              record s { bitmap = some (remove_range bitmap virq count); next_virq = hint virq },
              rw
                  (
                    good,
                    v.initialised,
                    clear_each-ok bitmap virq count 0 virq (omega arith) (omega (arith, v.size))
                        (omega arith),
                  )
                  refl,
              Left-remove_range virq count (hint virq) pos below bounds.0 bounds.1,
            )
      ]

  -- In a valid state, virq_free_range of 32-bit arguments whose sum wraps past 2^32 to at most
  -- 1024, the start not being 0, passes the range check and writes outside the bitmap.
  pub free_range-wrap :
      (virq count : ℕ)
      → virq < 2 ^ 32
      → 0 < virq
      → count < 2 ^ 32
      → 2 ^ 32 ≤ virq + count
      → u32 (virq + count) ≤ max_virq
      → free_range virq count s ≡ fault
  unfolding free_range
  free_range-wrap virq count small pos less over low =
      rw
        (
          passes,
          v.initialised,
          clear_each-fault bitmap virq count 0 virq (omega arith) small (omega (arith, v.size))
              (omega arith) (omega (arith, v.size)),
        )
        refl
    where
      passes : (virq == 0 || (count == 0 || ltb s.max (u32 (virq + count)))) ≡ false
      passes = ground (arith, v.limit)

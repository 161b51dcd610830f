-- ===== src/Irq/Virq/Alloc.antt =====
-- `virq_alloc` and `virq_alloc_range` on every branch.
use proto_kernel.Prelude.{
  ℕ, zero, suc, ◌+◌, ◌*◌, ◌^◌, ◌≤◌, ◌<◌, ◌≡◌, refl, ◌∙◌, arith, ◌⊎◌, inl, inr, Bool, true, false,
  Option, none, some, ◌==◌, ltb, leb, ◌||◌, if◌then◌else◌, length, get_or_else, ok, Bool-cases,
}
use proto_kernel.Bits.{u32}
use proto_kernel.Bitmap.{Bitmap}
use proto_kernel.Bitmap.Members.{has, add, set_bit-ok, length-add}
use proto_kernel.Bitmap.Ranges.{within, add_range, length-add_range, has-add_range}
use proto_kernel.Bitmap.Search.{AllSet, FirstClear, FirstRun}
use proto_kernel.Irq.Virq.{
  find_first_zero, find_zero_range, VirqAllocator, max_virq, irq_invalid, alloc, alloc_range,
  set_each,
}
use proto_kernel.Irq.Virq.Valid.{
  IsValid, ensure_init-ok, deref-ok, find_first_zero-ok, find_zero_range-ok,
}

-- `s'` is valid and holds the numbers of `bitmap` and those of `[virq, virq + count)`.
pub record Took (bitmap : Bitmap) (virq count : ℕ) (s' : VirqAllocator) : Type 0 where
  pub after : Bitmap
  pub valid : IsValid s' after
  pub member : (j : ℕ) → has after j ≡ (if within virq count j then true else has bitmap j)

-- What `virq_alloc` may answer: IRQ_INVALID with the state as it was, if all 1024 numbers are
-- taken, or else the least free number, which is not 0, and which is now taken.
pub data Alloc (s : VirqAllocator) (bitmap : Bitmap) (virq : ℕ) (s' : VirqAllocator) : Type 0 where
  full : AllSet bitmap 0 max_virq → virq ≡ irq_invalid → s' ≡ s → Alloc s bitmap virq s'
  least :
      0 < virq
      → virq < max_virq
      → has bitmap virq ≡ false
      → AllSet bitmap 0 virq
      → Took bitmap virq 1 s'
      → Alloc s bitmap virq s'

-- What `virq_alloc_range` may answer: IRQ_INVALID with the state as it was, if the count is 0 or
-- above 1024 or no free range is as long, or else the start of the first free range, now taken.
pub data AllocRange (s : VirqAllocator) (bitmap : Bitmap) (count virq : ℕ) (s' : VirqAllocator)
    : Type 0 where
  refused :
      (count ≡ 0) ⊎ (max_virq < count)
      → virq ≡ irq_invalid
      → s' ≡ s
      → AllocRange s bitmap count virq s'
  full :
      FirstRun bitmap count max_virq none
      → virq ≡ irq_invalid
      → s' ≡ s
      → AllocRange s bitmap count virq s'
  earliest :
      0 < virq
      → FirstRun bitmap count max_virq (some virq)
      → Took bitmap virq count s'
      → AllocRange s bitmap count virq s'

set_each-ok :
    (bitmap : Bitmap) (virq left i lo : ℕ)
    → virq + i ≡ lo
    → lo + left ≤ 64 * length bitmap
    → lo + left ≤ 2 ^ 32
    → set_each bitmap virq left i ≡ ok (add_range bitmap lo left)
unfolding set_each add_range
set_each-ok bitmap virq zero i lo e fits small = refl
set_each-ok bitmap virq (suc left) i lo e fits small =
    rw (same, set_bit-ok bitmap lo (omega arith))
      (set_each-ok (add bitmap lo) virq left (i + 1) (lo + 1) (omega arith)
        (omega (arith, length-add bitmap lo)) (omega arith))
  where
    same : u32 (virq + i) ≡ lo
    same = omega arith

module _ {s : VirqAllocator} {bitmap : Bitmap} (v : IsValid s bitmap) where
  -- 0 is reserved
  pos_of_clear : (p : ℕ) → has bitmap p ≡ false → 0 < p
  pos_of_clear zero clear = cc (v.reserved)
  pos_of_clear (suc p) clear = omega arith

  Took-add_range :
      (virq count hint : ℕ)
      → virq + count ≤ max_virq
      → 1 ≤ hint
      → hint ≤ max_virq
      → Took bitmap virq count
          (record s { bitmap = some (add_range bitmap virq count); next_virq = hint })
  Took-add_range virq count hint h lo hi = record {
    after = add_range bitmap virq count;
    valid = record {
      initialised = refl;
      size = length-add_range bitmap virq count ∙ v.size;
      limit = v.limit;
      reserved =
          ground (arith, has-add_range bitmap virq count 0 (omega (arith, v.size)), v.reserved);
      hint_low = lo;
      hint_high = hi;
    };
    member = λ j. has-add_range bitmap virq count j (omega (arith, v.size));
  }

  -- the hint moves up past what was taken
  abbrev hint : ℕ → ℕ → ℕ
  hint virq past = if leb s.next_virq virq then u32 past else s.next_virq

  hint_bounds :
      (virq past : ℕ)
      → 1 ≤ past
      → past ≤ max_virq
      → (1 ≤ hint virq past) × (hint virq past ≤ max_virq)
  hint_bounds virq past lo hi = ground (arith, v.hint_low, v.hint_high)

  alloc_from :
      (kmalloc_ok : Bool) (r : Option ℕ)
      → find_first_zero bitmap s.max ≡ ok (get_or_else r s.max)
      → FirstClear bitmap 0 max_virq r
      → (virq : ℕ) × (s' : VirqAllocator) × (alloc kmalloc_ok s ≡ ok (virq, s'))
        × Alloc s bitmap virq s'
  unfolding alloc add_range
  alloc_from kmalloc_ok none run first = (
    irq_invalid,
    s,
    rw (ensure_init-ok v kmalloc_ok, deref-ok v, run) (ground arith),
    Alloc.full first refl refl,
  )
  alloc_from kmalloc_ok (some p) run first =
      let bounds = hint_bounds p (p + 1) (omega arith) (omega (arith, first.1)) in
      (
        p,
        record s { bitmap = some (add_range bitmap p 1); next_virq = hint p (p + 1) },
        rw
            (
              ensure_init-ok v kmalloc_ok,
              deref-ok v,
              run,
              below,
              set_bit-ok bitmap p (omega (arith, first.1, v.size)),
            )
            refl,
        Alloc.least (pos_of_clear p first.2) first.1 first.2 first.3
            (Took-add_range p 1 (hint p (p + 1)) (omega (arith, first.1)) bounds.0 bounds.1),
      )
    where
      below : leb s.max p ≡ false
      below = ground (arith, v.limit, first.1)

  -- In a valid state virq_alloc returns: IRQ_INVALID with the state unchanged if all 1024 numbers
  -- are taken, and otherwise the least free number, which is not 0, in a valid state that holds
  -- exactly one number more.
  pub alloc_lem :
      (kmalloc_ok : Bool)
      → (virq : ℕ) × (s' : VirqAllocator) × (alloc kmalloc_ok s ≡ ok (virq, s'))
        × Alloc s bitmap virq s'
  alloc_lem kmalloc_ok =
      let (r, run, first) = find_first_zero-ok v in alloc_from kmalloc_ok r run first

  range_from :
      (kmalloc_ok : Bool) (count : ℕ) (r : Option ℕ)
      → 0 < count
      → count ≤ max_virq
      → find_zero_range bitmap s.max count ≡ ok (get_or_else r s.max)
      → FirstRun bitmap count max_virq r
      → (virq : ℕ) × (s' : VirqAllocator) × (alloc_range kmalloc_ok count s ≡ ok (virq, s'))
        × AllocRange s bitmap count virq s'
  unfolding alloc_range
  range_from kmalloc_ok count none pos le run first = (
    irq_invalid,
    s,
    rw (accepted, ensure_init-ok v kmalloc_ok, deref-ok v, run) (ground arith),
    AllocRange.full first refl refl,
  )
    where
      accepted : (count == 0 || ltb s.max count) ≡ false
      accepted = ground (arith, v.limit)
  range_from kmalloc_ok count (some p) pos le run first =
      let bounds = hint_bounds (u32 (p + count)) (p + count) (omega arith) first.0 in
      (
        p,
        record s {
          bitmap = some (add_range bitmap p count);
          next_virq = hint (u32 (p + count)) (p + count);
        },
        rw
            (
              accepted,
              ensure_init-ok v kmalloc_ok,
              deref-ok v,
              run,
              below,
              set_each-ok bitmap p count 0 p (omega arith) (omega (arith, v.size, first.0))
                  (omega (arith, first.0)),
            )
            refl,
        AllocRange.earliest (pos_of_clear p (first.1 p (omega arith) (omega arith))) first
            (Took-add_range p count (hint (u32 (p + count)) (p + count)) first.0 bounds.0 bounds.1),
      )
    where
      accepted : (count == 0 || ltb s.max count) ≡ false
      accepted = ground (arith, v.limit)

      below : leb s.max p ≡ false
      below = ground (arith, v.limit, first.0)

  -- In a valid state virq_alloc_range returns: IRQ_INVALID with the state unchanged if the count
  -- is 0 or above 1024 or there is no free range of that length, and otherwise the start of the
  -- first free range of that length, in a valid state that holds exactly that range more.
  pub alloc_range_lem :
      (kmalloc_ok : Bool) (count : ℕ)
      → (virq : ℕ) × (s' : VirqAllocator) × (alloc_range kmalloc_ok count s ≡ ok (virq, s'))
        × AllocRange s bitmap count virq s'
  unfolding alloc_range
  alloc_range_lem kmalloc_ok count = elim (Bool-cases (count == 0 || ltb s.max count)) [
    | inl bad ↦ (irq_invalid, s, rw bad, AllocRange.refused (ground (arith, v.limit)) refl refl)
    | inr good ↦
        let pos : 0 < count = ground arith in
        let (r, run, first) = find_zero_range-ok v count pos in
        range_from kmalloc_ok count r pos (ground (arith, v.limit)) run first
  ]

-- ===== src/Irq/Virq/Valid.antt =====
-- The invariant of `virq_alloc_data`: 1024 bits in 16 words, and number 0 never free.
use proto_kernel.Prelude.{
  ℕ, ◌≤◌, ◌<◌, ◌≡◌, refl, arith, Bool, true, Option, none, some, replicate, length, get_or_else, ok,
}
use proto_kernel.Bitmap.{Bitmap}
use proto_kernel.Bitmap.Members.{has, add, set_bit-ok, has-add, length-add}
use proto_kernel.Bitmap.Search.{FirstClear, FirstRun, scan-FirstClear, scan_run-FirstRun}
use proto_kernel.Irq.Virq.{
  VirqAllocator, max_virq, bitmap_size, deref, allocator_init, ensure_init, find_first_zero,
  find_zero_range,
}

pub record IsValid (s : VirqAllocator) (bitmap : Bitmap) : Type 0 where
  pub initialised : s.bitmap ≡ some bitmap
  pub size : length bitmap ≡ bitmap_size
  pub limit : s.max ≡ max_virq
  pub reserved : has bitmap 0 ≡ true
  pub hint_low : 1 ≤ s.next_virq
  pub hint_high : s.next_virq ≤ max_virq

-- before the first use
pub record IsFresh (s : VirqAllocator) : Type 0 where
  pub empty : s.bitmap ≡ none
  pub limit : s.max ≡ max_virq
  pub hint : s.next_virq ≡ 1

-- the bitmap that `virq_allocator_init` makes
abbrev pub first_bitmap : Bitmap
first_bitmap = add (replicate bitmap_size 0) 0

module _ {s : VirqAllocator} {bitmap : Bitmap} (v : IsValid s bitmap) where
  pub ensure_init-ok : (kmalloc_ok : Bool) → ensure_init kmalloc_ok s ≡ ok s
  unfolding ensure_init
  ensure_init-ok kmalloc_ok = ground (arith, v.initialised)

  pub deref-ok : deref s ≡ ok bitmap
  unfolding deref
  deref-ok = ground (arith, v.initialised)

  pub find_first_zero-ok :
      (r : Option ℕ) × (find_first_zero bitmap s.max ≡ ok (get_or_else r s.max))
      × FirstClear bitmap 0 max_virq r
  unfolding find_first_zero
  find_first_zero-ok =
      let (r, run, first) =
        scan-FirstClear bitmap max_virq 0 max_virq (omega arith) (omega (arith, v.size)) in
      (r, rw v.limit (rw run), first)

  pub find_zero_range-ok :
      (count : ℕ)
      → 0 < count
      → (r : Option ℕ) × (find_zero_range bitmap s.max count ≡ ok (get_or_else r s.max))
        × FirstRun bitmap count max_virq r
  unfolding find_zero_range
  find_zero_range-ok count pos =
      let (r, run, first) =
        scan_run-FirstRun bitmap count (λ start. true) max_virq pos (omega (arith, v.size))
          (λ p h. refl) in
      (r, rw v.limit (rw run), first)

abbrev pub started : VirqAllocator → VirqAllocator
started s = record s { bitmap = some first_bitmap }

module _ {s : VirqAllocator} (f : IsFresh s) where
  pub ensure_init-fresh : ensure_init true s ≡ ok (started s)
  unfolding ensure_init allocator_init
  ensure_init-fresh = rw (f.empty, set_bit-ok (replicate bitmap_size 0) 0 (omega arith))

  pub started-IsValid : IsValid (started s) first_bitmap
  started-IsValid = record {
    initialised = refl;
    size = length-add (replicate bitmap_size 0) 0;
    limit = f.limit;
    reserved = has-add (replicate bitmap_size 0) 0 (omega arith) 0;
    hint_low = omega (arith, f.hint);
    hint_high = omega (arith, f.hint);
  }

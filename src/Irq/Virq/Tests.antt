-- ===== src/Irq/Virq/Tests.antt =====
-- Runs of the virq allocator, and each theorem at a state that meets its hypotheses.
use proto_kernel.Prelude.{
  ℕ, ◌≡◌, refl, ◌≢◌, arith, true, false, some, List, [], ◌∷◌, ◌&&◌, ltb, ok, fault, replicate,
  ◌>>=◌, inl,
}
use proto_kernel.Bitmap.{set_bit, clear_bit, test_bit}
use proto_kernel.Bitmap.Members.{has, add}
use proto_kernel.Bitmap.Search.{scan, scan_run}
use proto_kernel.Bitmap.Ranges.{within}
use proto_kernel.Irq.Virq.{
  VirqAllocator, virq_alloc_data, max_virq, irq_invalid, deref, allocator_init, ensure_init,
  find_first_zero, find_zero_range, set_each, clear_each, alloc, alloc_range, free, free_range,
  is_allocated, count_from, get_allocated_count, last_set, get_max_allocated,
}
use proto_kernel.Irq.Virq.Valid.{IsValid, IsFresh, started, first_bitmap, started-IsValid}
use proto_kernel.Irq.Virq.Alloc.{Alloc, AllocRange, alloc_lem, alloc_range_lem}
use proto_kernel.Irq.Virq.Free.{free_range-wrap}
use proto_kernel.Irq.Virq.Queries.{is_allocated_lem}
use proto_kernel.Irq.Virq.History.{
  Op, take, take_range, give, give_range, step, run, no_double_alloc,
}
use proto_kernel.Irq.Virq.Boot.{Sound, boot_safe}

abbrev ops : List Op
ops = take ∷ take_range 3 ∷ give 2 ∷ take ∷ give_range 3 2 ∷ []

all_code : Unit {0}
unfolding set_bit clear_bit test_bit scan scan_run deref allocator_init ensure_init find_first_zero
    find_zero_range set_each clear_each alloc alloc_range free free_range is_allocated count_from
    get_allocated_count last_set get_max_allocated step run
all_code = tt

-- 1; 2 to 4; 2 back; 2 again; 3 and 4 back: 0, 1 and 2 are left
run-ops :
    run ops virq_alloc_data
    ≡ ok (record { next_virq = 3; max = 1024; bitmap = some (7 ∷ replicate 15 0) })
unfolding all_code
run-ops = refl

-- 2^32 - 1 and 2 sum to 1 in `uint32_t`
free_range_wraps : (run (take ∷ []) virq_alloc_data >>= free_range 0xffff_ffff 2) ≡ fault
unfolding all_code
free_range_wraps = refl

abbrev boot : VirqAllocator
boot = started virq_alloc_data

boot-IsFresh : IsFresh virq_alloc_data
boot-IsFresh = record { empty = refl; limit = refl; hint = refl }

boot-IsValid : IsValid boot first_bitmap
boot-IsValid = started-IsValid boot-IsFresh

alloc_lem_example :
    (virq : ℕ) × (s' : VirqAllocator) × (alloc true boot ≡ ok (virq, s'))
    × Alloc boot first_bitmap virq s'
alloc_lem_example = alloc_lem boot-IsValid true

alloc_range_lem_example :
    (virq : ℕ) × (s' : VirqAllocator) × (alloc_range true 8 boot ≡ ok (virq, s'))
    × AllocRange boot first_bitmap 8 virq s'
alloc_range_lem_example = alloc_range_lem boot-IsValid true 8

free_range-wrap_example : free_range 0xffff_fffe 3 boot ≡ fault
free_range-wrap_example =
    free_range-wrap boot-IsValid 0xffff_fffe 3 (omega arith) (omega arith) (omega arith)
      (omega arith) (omega arith)

is_allocated_lem_example : is_allocated 7 boot ≡ ok (ltb 7 max_virq && has first_bitmap 7)
is_allocated_lem_example = is_allocated_lem boot-IsValid 7

-- 1 is taken, 2 is taken and given back, and 1 is still not handed out again
abbrev one_taken : VirqAllocator
one_taken = record { next_virq = 2; max = 1024; bitmap = some (3 ∷ replicate 15 0) }

abbrev two_freed : VirqAllocator
two_freed = record { next_virq = 2; max = 1024; bitmap = some (3 ∷ replicate 15 0) }

first_take : alloc true boot ≡ ok (1, one_taken)
unfolding all_code add
first_take = refl

between : run (take ∷ give 2 ∷ []) one_taken ≡ ok two_freed
unfolding all_code
between = refl

no_double_alloc_example :
    ((w : ℕ) (s3 : VirqAllocator) → alloc true two_freed ≡ ok (w, s3) → w ≢ 1)
    × ((count w : ℕ) (s3 : VirqAllocator)
        → alloc_range true count two_freed ≡ ok (w, s3)
        → w ≢ irq_invalid
        → within w count 1 ≡ false)
no_double_alloc_example =
    no_double_alloc 1 one_taken (take ∷ give 2 ∷ []) two_freed boot-IsValid first_take (omega arith)
      (tt, (tt, tt)) (tt, (refl, tt)) between

boot_safe_example : (s' : VirqAllocator) × (run ops virq_alloc_data ≡ ok s') × Sound s'
boot_safe_example = boot_safe ops (inl boot-IsFresh) (tt, (tt, (tt, (tt, (omega arith, tt)))))

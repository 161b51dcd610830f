-- ===== src/Irq/Virq.antt =====
-- The virtual interrupt numbers, kernel/irq/irq_alloc.c. Each operation is one critical section of
-- `virq_alloc_data.lock`, so it is a function of the state; an access past the bitmap is a fault.
pub mod Valid
pub mod Alloc
pub mod Free
pub mod Queries
pub mod History
pub mod Boot
mod Tests
use proto_kernel.Prelude.{
  ℕ, zero, suc, ◌+◌, ◌-◌, ◌%◌, Bool, true, false, ◌||◌, Option, none, some, ◌==◌, ltb, leb,
  if◌then◌else◌, get_or_else, replicate, Outcome, ok, panic, ◌>>=◌, in_bounds,
}
use proto_kernel.Bits.{u32}
use proto_kernel.Bitmap.{Bitmap, set_bit, clear_bit, test_bit}
use proto_kernel.Bitmap.Search.{scan, scan_run}

abbrev pub max_virq : ℕ
max_virq = 1024

-- `(MAX_VIRQ + BITS_PER_LONG - 1) / BITS_PER_LONG`
abbrev pub bitmap_size : ℕ
bitmap_size = 16

abbrev pub irq_invalid : ℕ
irq_invalid = 0xffff_ffff

-- `bitmap` is NULL until the first use
pub record VirqAllocator : Type 0 where
  pub next_virq : ℕ
  pub max : ℕ
  pub bitmap : Option Bitmap

abbrev pub virq_alloc_data : VirqAllocator
virq_alloc_data = record { next_virq = 1; max = max_virq; bitmap = none }

-- a NULL bitmap is read at address 0
pub deref : VirqAllocator → Outcome Bitmap
deref s = in_bounds s.bitmap

pub find_first_zero : Bitmap → ℕ → Outcome ℕ
find_first_zero bitmap max_bits = do found ← scan bitmap max_bits 0; ok (get_or_else found max_bits)

pub find_zero_range : Bitmap → ℕ → ℕ → Outcome ℕ
find_zero_range bitmap max_bits count = do
  found ← scan_run bitmap count (λ start. true) max_bits 0 0 0
  ok (get_or_else found max_bits)

-- `kmalloc_ok` says whether `kmalloc(..., KM_ZERO)` finds memory
pub allocator_init : Bool → VirqAllocator → Outcome VirqAllocator
allocator_init kmalloc_ok s = elim s.bitmap [
  | some bitmap ↦ ok s
  | none ↦
      if kmalloc_ok
      then (do bitmap ← set_bit (replicate bitmap_size 0) 0; ok (record s { bitmap = some bitmap }))
      else panic
]

-- `if (!virq_alloc_data.bitmap) virq_allocator_init();`
pub ensure_init : Bool → VirqAllocator → Outcome VirqAllocator
ensure_init kmalloc_ok s = elim s.bitmap [ some bitmap ↦ ok s | none ↦ allocator_init kmalloc_ok s ]

pub alloc : Bool → VirqAllocator → Outcome (ℕ × VirqAllocator)
alloc kmalloc_ok s = do
  s ← ensure_init kmalloc_ok s
  bitmap ← deref s
  virq ← find_first_zero bitmap s.max
  if leb s.max virq then ok (irq_invalid, s) else do
    bitmap ← set_bit bitmap virq
    ok (
      virq,
      record s {
        bitmap = some bitmap;
        next_virq = if leb s.next_virq virq then u32 (virq + 1) else s.next_virq;
      },
    )

-- `for (i = 0; i < count; i++) bitmap_set_bit(bitmap, virq + i);` with `count - i` rounds left
pub set_each : Bitmap → (virq left i : ℕ) → Outcome Bitmap
set_each bitmap virq zero i = ok bitmap
set_each bitmap virq (suc left) i = do
  bitmap ← set_bit bitmap (u32 (virq + i))
  set_each bitmap virq left (i + 1)

pub clear_each : Bitmap → (virq left i : ℕ) → Outcome Bitmap
clear_each bitmap virq zero i = ok bitmap
clear_each bitmap virq (suc left) i = do
  bitmap ← clear_bit bitmap (u32 (virq + i))
  clear_each bitmap virq left (i + 1)

pub alloc_range : Bool → ℕ → VirqAllocator → Outcome (ℕ × VirqAllocator)
alloc_range kmalloc_ok count s = if count == 0 || ltb s.max count then ok (irq_invalid, s) else do
  s ← ensure_init kmalloc_ok s
  bitmap ← deref s
  virq ← find_zero_range bitmap s.max count
  if leb s.max virq then ok (irq_invalid, s) else do
    bitmap ← set_each bitmap virq count 0
    ok (
      virq,
      record s {
        bitmap = some bitmap;
        next_virq =
            if leb s.next_virq (u32 (virq + count)) then u32 (virq + count) else s.next_virq;
      },
    )

pub free : ℕ → VirqAllocator → Outcome VirqAllocator
free virq s = if virq == 0 || leb s.max virq then ok s else elim s.bitmap [
  | none ↦ ok s
  | some bitmap ↦ do
    bitmap ← clear_bit bitmap virq
    ok (record s {
      bitmap = some bitmap;
      next_virq = if ltb virq s.next_virq then virq else s.next_virq;
    })
]

-- `virq + count` is computed in `uint32_t`
pub free_range : ℕ → ℕ → VirqAllocator → Outcome VirqAllocator
free_range virq count s =
    if virq == 0 || (count == 0 || ltb s.max (u32 (virq + count))) then ok s else elim s.bitmap [
      | none ↦ ok s
      | some bitmap ↦ do
        bitmap ← clear_each bitmap virq count 0
        ok (record s {
          bitmap = some bitmap;
          next_virq = if ltb virq s.next_virq then virq else s.next_virq;
        })
    ]

pub is_allocated : ℕ → VirqAllocator → Outcome Bool
is_allocated virq s =
    if leb s.max virq
    then ok false
    else elim s.bitmap [ none ↦ ok false | some bitmap ↦ test_bit bitmap virq ]

-- the counting loop, with `max - i` rounds left
pub count_from : Bitmap → (left i count : ℕ) → Outcome ℕ
count_from bitmap zero i count = ok count
count_from bitmap (suc left) i count = do
  taken ← test_bit bitmap i
  count_from bitmap left (i + 1) (if taken then count + 1 else count)

pub get_allocated_count : VirqAllocator → Outcome ℕ
get_allocated_count s = elim s.bitmap [ none ↦ ok 0 | some bitmap ↦ count_from bitmap s.max 0 0 ]

-- `for (i = max_virq - 1; i > 0; i--)`: the index is the rounds left
pub last_set : Bitmap → ℕ → Outcome ℕ
last_set bitmap zero = ok 0
last_set bitmap (suc i) = do
  taken ← test_bit bitmap (suc i)
  elim taken [ true ↦ ok (suc i) | false ↦ last_set bitmap i ]

pub get_max_allocated : VirqAllocator → Outcome ℕ
get_max_allocated s = elim s.bitmap [ none ↦ ok 0 | some bitmap ↦ last_set bitmap (s.max - 1) ]

-- ===== src/Memory/Pmm.antt =====
-- The physical memory manager, kernel/memory/pmm.c: regions of RAM, each with a bitmap of its pages
-- (a set bit is a page in use), and the counters. `pmm_regions[0..pmm_region_count)` is a list; the
-- `next` pointers beside the array are written and never read, and are left out. The stores that
-- clear a page are kept as a log of address and number of words.
pub mod Pages
pub mod Replace
pub mod Valid
pub mod Locate
pub mod Alloc
pub mod DirectMaps
pub mod AllocPages
pub mod Free
pub mod FreePages
pub mod Reserve
pub mod ReserveRange
pub mod ReserveOverlap
pub mod ReserveRegion
pub mod ReservePage
pub mod Queries
pub mod Init
pub mod Started
pub mod Areas
pub mod Layout
pub mod Filling
pub mod Fitted
pub mod Booted
mod Tests
mod BootTests
use mathlib.Core.Option
use proto_kernel.Prelude.{
  ℕ, zero, suc, ◌+◌, ◌-◌, ◌*◌, ◌/◌, ◌^◌, Bool, true, false, not, ◌&&◌, ◌||◌, Option, none, some,
  List, [], ◌∷◌, ◌==◌, ltb, leb, if◌then◌else◌, get_elem?, set, Outcome, ok, ◌>>=◌, in_bounds,
}
use proto_kernel.Bits.{u64, sub64}
use proto_kernel.Bitmap.{Bitmap, set_bit, clear_bit, test_bit}
use proto_kernel.Bitmap.Search.{scan, scan_run}

abbrev pub page_size : ℕ
page_size = 4096

pub record Region : Type 0 where
  pub base : ℕ
  pub size : ℕ
  pub bitmap : Bitmap
  pub bitmap_size : ℕ
  pub total_pages : ℕ
  pub free_pages : ℕ

pub record Stats : Type 0 where
  pub total_pages : ℕ
  pub free_pages : ℕ
  pub reserved_pages : ℕ
  pub allocated_pages : ℕ
  pub page_table_pages : ℕ

pub record Pmm : Type 0 where
  pub regions : List Region
  pub stats : Stats
  pub cleared : List (ℕ × ℕ)
  pub initialized : Bool

-- What PHYS_TO_DMAP and `vmm_is_dmap_ready` read.
pub record DirectMap : Type 0 where
  pub ready : Bool
  pub virt_base : ℕ
  pub phys_base : ℕ
  pub phys_max : ℕ

pub phys_to_dmap : DirectMap → ℕ → ℕ
phys_to_dmap d pa =
    if leb d.phys_base pa && ltb pa d.phys_max then u64 (d.virt_base + sub64 pa d.phys_base) else 0

-- the address through which the page at `pa` is cleared
pub clear_address : DirectMap → ℕ → ℕ
clear_address d pa = if d.ready then phys_to_dmap d pa else pa

unfoldable pub addr_to_page : Region → ℕ → ℕ
addr_to_page r addr = sub64 addr r.base / 2 ^ 12

pub page_to_addr : Region → ℕ → ℕ
page_to_addr r page = u64 (r.base + u64 (page * 2 ^ 12))

unfoldable pub inside : Region → ℕ → Bool
inside r pa = leb r.base pa && ltb pa (u64 (r.base + r.size))

-- the region's index; `none` is NULL
unfoldable pub find_region : List Region → ℕ → Option ℕ
find_region [] pa = none
find_region (r ∷ rs) pa = if inside r pa then some 0 else Option.map suc (find_region rs pa)

-- the search of one region, and what it does to the region that has a free page
pub take_page : Region → Outcome (Option (ℕ × Region))
take_page r = do
  found ← scan r.bitmap r.total_pages 0
  elim found [
    | none ↦ ok none
    | some page ↦ do
      bitmap ← set_bit r.bitmap page
      ok (
          some
            (page_to_addr r page, record r { bitmap = bitmap; free_pages = sub64 r.free_pages 1 }))
  ]

-- `for (j = start; j < start + count; j++) pmm_set_bit(region, j);`
pub set_pages : Bitmap → (left j : ℕ) → Outcome Bitmap
set_pages bitmap zero j = ok bitmap
set_pages bitmap (suc left) j = do bitmap ← set_bit bitmap j; set_pages bitmap left (j + 1)

pub take_pages : ℕ → Region → Outcome (Option (ℕ × Region))
take_pages count r = do
  found ←
      scan_run r.bitmap count (λ start. leb (u64 (start + count)) r.total_pages) r.total_pages 0 0 0
  elim found [
    | none ↦ ok none
    | some start ↦ do
      bitmap ← set_pages r.bitmap count start
      ok (
          some (
            page_to_addr r start,
            record r { bitmap = bitmap; free_pages = sub64 r.free_pages count },
          ))
  ]

-- "Try each region in order"
pub first_region :
    (Region → Outcome (Option (ℕ × Region))) → List Region → Outcome (Option (ℕ × List Region))
first_region try [] = ok none
first_region try (r ∷ rs) = do
  found ← try r
  elim found [
    | some (pa, r') ↦ ok (some (pa, r' ∷ rs))
    | none ↦ do rest ← first_region try rs; ok (Option.map (λ (pa, rs'). (pa, r ∷ rs')) rest)
  ]

-- the counters and the cleared words of an allocation of `count` pages; 0 is "out of memory"
pub allocated : DirectMap → ℕ → Pmm → Option (ℕ × List Region) → ℕ × Pmm
allocated d count s none = (0, s)
allocated d count s (some (pa, rs)) = (
  pa,
  record s {
    regions = rs;
    stats = record s.stats {
      free_pages = sub64 s.stats.free_pages count;
      allocated_pages = u64 (s.stats.allocated_pages + count);
    };
    cleared = (clear_address d pa, u64 (page_size * count) / 8) ∷ s.cleared;
  },
)

pub alloc_page : DirectMap → Pmm → Outcome (ℕ × Pmm)
alloc_page d s = do found ← first_region take_page s.regions; ok (allocated d 1 s found)

pub alloc_page_table : DirectMap → Pmm → Outcome (ℕ × Pmm)
alloc_page_table d s = do
  (pa, s) ← alloc_page d s
  ok (
    pa,
    if pa == 0 then s else record s {
      stats = record s.stats { page_table_pages = u64 (s.stats.page_table_pages + 1) };
    },
  )

pub alloc_pages : DirectMap → ℕ → Pmm → Outcome (ℕ × Pmm)
alloc_pages d count s =
    if count == 0
    then ok (0, s)
    else if count == 1
    then alloc_page d s
    else do found ← first_region (take_pages count) s.regions; ok (allocated d count s found)

-- `pmm_free_page` past the search for the region, whose index is `i`
pub free_in : ℕ → ℕ → Pmm → Outcome Pmm
free_in pa i s = do
  r ← in_bounds (get_elem? s.regions i)
  let page = addr_to_page r pa
  if leb r.total_pages page then ok s else do
    used ← test_bit r.bitmap page
    if not used then ok s else do
      bitmap ← clear_bit r.bitmap page
      ok (record s {
        regions =
            set s.regions i (record r { bitmap = bitmap; free_pages = u64 (r.free_pages + 1) });
        stats = record s.stats {
          free_pages = u64 (s.stats.free_pages + 1);
          allocated_pages = sub64 s.stats.allocated_pages 1;
        };
      })

pub free_page : ℕ → Pmm → Outcome Pmm
free_page pa s = elim (find_region s.regions pa) [ none ↦ ok s | some i ↦ free_in pa i s ]

-- `for (i = 0; i < count; i++) pmm_free_page(pa + i * PMM_PAGE_SIZE);`
pub free_each : ℕ → (left i : ℕ) → Pmm → Outcome Pmm
free_each pa zero i s = ok s
free_each pa (suc left) i s = do
  s ← free_page (u64 (pa + u64 (i * page_size))) s
  free_each pa left (i + 1) s

pub free_pages : ℕ → ℕ → Pmm → Outcome Pmm
free_pages pa count s = free_each pa count 0 s

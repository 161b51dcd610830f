-- ===== src/Memory/Pmm/Tests.antt =====
-- Runs of the page allocator, and each theorem at a state that meets its hypotheses.
use proto_kernel.Prelude.{ℕ, ◌≡◌, refl, arith, true, false, [], ◌∷◌, ok, inl}
use proto_kernel.Bitmap.{set_bit, clear_bit, test_bit}
use proto_kernel.Bitmap.Members.{has}
use proto_kernel.Bitmap.Search.{scan, scan_run}
use proto_kernel.Bitmap.Count.{members}
use proto_kernel.Memory.Pmm.{
  Region, Pmm, DirectMap, phys_to_dmap, clear_address, addr_to_page, page_to_addr, inside,
  find_region, take_page, set_pages, take_pages, first_region, allocated, alloc_page,
  alloc_page_table, alloc_pages, free_in, free_page, free_each, free_pages,
}
use proto_kernel.Memory.Pmm.Pages.{RegionValid}
use proto_kernel.Memory.Pmm.Replace.{free_anywhere}
use proto_kernel.Memory.Pmm.Valid.{IsValid}
use proto_kernel.Memory.Pmm.DirectMaps.{Covers}
use proto_kernel.Memory.Pmm.AllocPages.{
  Granted, Allocated, AllocatedPage, alloc_page_lem, alloc_pages_lem, alloc_page_complete,
}
use proto_kernel.Memory.Pmm.Free.{Freed, free_page_lem}
use proto_kernel.Memory.Pmm.FreePages.{free_pages-alloc}
use proto_kernel.Memory.Pmm.ReserveRegion.{Withdrawn, reserve_region_lem}
use proto_kernel.Memory.Pmm.Reserve.{
  reserve_bit, reserve_bits, reserve_overlap, reserve_all, reserve_region, reserve_in, reserve_page,
}
use proto_kernel.Memory.Pmm.ReservePage.{reserve_page-unaligned}
use proto_kernel.Memory.Pmm.Queries.{
  available_in, is_available, get_memory_start, get_memory_end, lowest, highest,
}

-- three pages of which the second is free, and two free pages
abbrev ram : Region
ram = record {
  base = 0x4000_0000;
  size = 0x3000;
  bitmap = 5 ∷ [];
  bitmap_size = 8;
  total_pages = 3;
  free_pages = 1;
}

abbrev high : Region
high = record {
  base = 0x8000_0000;
  size = 0x2000;
  bitmap = 0 ∷ [];
  bitmap_size = 8;
  total_pages = 2;
  free_pages = 2;
}

abbrev pmm : Pmm
pmm = record {
  regions = ram ∷ high ∷ [];
  stats = record {
    total_pages = 5;
    free_pages = 3;
    reserved_pages = 1;
    allocated_pages = 1;
    page_table_pages = 0;
  };
  cleared = [];
  initialized = true;
}

abbrev unmapped : DirectMap
unmapped = record { ready = false; virt_base = 0; phys_base = 0; phys_max = 0 }

abbrev mapped : DirectMap
mapped = record {
  ready = true;
  virt_base = 0xffff_8000_0000_0000;
  phys_base = 0x4000_0000;
  phys_max = 0x1_0000_0000;
}

all_code : Unit {0}
unfolding set_bit clear_bit test_bit scan scan_run phys_to_dmap clear_address addr_to_page
    page_to_addr inside find_region take_page set_pages take_pages first_region allocated alloc_page
    alloc_page_table alloc_pages free_in free_page free_each free_pages reserve_bit reserve_bits
    reserve_overlap reserve_all reserve_region reserve_in reserve_page available_in is_available
    lowest highest get_memory_start get_memory_end
all_code = tt

-- two pages do not fit in the first region
alloc_two :
    alloc_pages mapped 2 pmm
    ≡ ok (
      0x8000_0000,
      record pmm {
        regions = ram ∷ (record high { bitmap = 3 ∷ []; free_pages = 0 }) ∷ [];
        stats = record pmm.stats { free_pages = 1; allocated_pages = 3 };
        cleared = (0xffff_8000_4000_0000, 1024) ∷ [];
      },
    )
unfolding all_code
alloc_two = refl

-- the last of the pages counts as a page table
alloc_table :
    alloc_page_table unmapped pmm
    ≡ ok (
      0x4000_1000,
      record pmm {
        regions = (record ram { bitmap = 7 ∷ []; free_pages = 0 }) ∷ high ∷ [];
        stats = record pmm.stats { free_pages = 2; allocated_pages = 2; page_table_pages = 1 };
        cleared = (0x4000_1000, 512) ∷ [];
      },
    )
unfolding all_code
alloc_table = refl

ram-RegionValid : RegionValid ram
unfolding members has
ram-RegionValid = record { span = omega arith; pages = refl; room = omega arith; counted = refl }

high-RegionValid : RegionValid high
unfolding members has
high-RegionValid = record { span = omega arith; pages = refl; room = omega arith; counted = refl }

pmm-IsValid : IsValid pmm
pmm-IsValid = record {
  regions = (ram-RegionValid, (inl (omega arith), tt), (high-RegionValid, tt, tt));
  free_sum = refl;
  total_sum = refl;
  small = omega arith;
  balance = refl;
}

mapped-Covers : Covers mapped pmm.regions
unfolding free_anywhere inside
mapped-Covers = record {
  top = λ on. omega arith;
  low = λ on q free. ground arith;
  high = λ on q free. ground arith;
}

alloc_page_lem_example :
    (pa : ℕ) × (s' : Pmm) × (alloc_page mapped pmm ≡ ok (pa, s')) × AllocatedPage mapped pmm pa s'
alloc_page_lem_example = alloc_page_lem mapped pmm-IsValid mapped-Covers

alloc_pages_lem_example :
    (pa : ℕ) × (s' : Pmm) × (alloc_pages mapped 2 pmm ≡ ok (pa, s')) × Allocated mapped 2 pmm pa s'
alloc_pages_lem_example = alloc_pages_lem mapped 2 pmm-IsValid (omega arith)

second_free : free_anywhere pmm.regions 0x4000_1234 ≡ true
unfolding free_anywhere inside has
second_free = refl

alloc_page_complete_example :
    (pa : ℕ) × (s' : Pmm) × (alloc_page unmapped pmm ≡ ok (pa, s')) × Granted unmapped 1 pmm pa s'
alloc_page_complete_example = alloc_page_complete unmapped 0x4000_1234 pmm-IsValid second_free

free_page_lem_example : (s' : Pmm) × (free_page 0x4000_2345 pmm ≡ ok s') × Freed pmm 0x4000_2345 s'
free_page_lem_example = free_page_lem pmm-IsValid 0x4000_2345 (omega arith)

abbrev granted_page :
    (pa : ℕ) × (s' : Pmm) × (alloc_page unmapped pmm ≡ ok (pa, s')) × Granted unmapped 1 pmm pa s'
granted_page = alloc_page_complete unmapped 0x4000_1234 pmm-IsValid second_free

free_pages-alloc_example :
    (s'' : Pmm) × (free_pages granted_page.0 1 granted_page.1 ≡ ok s'')
    × IsValid s''
    × (s''.stats.free_pages ≡ 3)
    × ((q : ℕ) → free_anywhere s''.regions q ≡ free_anywhere pmm.regions q)
free_pages-alloc_example = free_pages-alloc unmapped 1 granted_page.0 granted_page.1 granted_page.3

reserve_region_lem_example :
    (s' : Pmm) × (reserve_region 0x4000_1fff 0x4000_0000 pmm ≡ ok s')
    × Withdrawn 0x4000_1fff 0x4000_0000 pmm s'
reserve_region_lem_example = reserve_region_lem 0x4000_1fff 0x4000_0000 pmm-IsValid (omega arith)

abbrev shifted : Region
shifted = record high { base = 0x8000_0800 }

abbrev shifted_pmm : Pmm
shifted_pmm = record pmm { regions = shifted ∷ [] }

reserve_page-unaligned_example : reserve_page 0x8000_0900 shifted_pmm ≡ ok shifted_pmm
unfolding inside
reserve_page-unaligned_example =
    reserve_page-unaligned shifted_pmm shifted [] 0x8000_0900 refl
      (record {
        span = omega arith;
        pages = refl;
        room = omega arith;
        counted = RegionValid.counted high-RegionValid;
      })
      refl (omega arith)

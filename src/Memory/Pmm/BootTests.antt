-- ===== src/Memory/Pmm/BootTests.antt =====
-- A run of `pmm_init`, and its theorem at a boot that meets the hypotheses.
use proto_kernel.Prelude.{ℕ, ◌≡◌, refl, arith, true, false, some, [], ◌∷◌, ok}
use proto_kernel.Bitmap.{set_bit, test_bit}
use proto_kernel.Memory.Bootstrap.{Bootstrap, pmm_bootstrap_init, pmm_bootstrap_alloc}
use proto_kernel.Memory.Pmm.{Pmm, addr_to_page}
use proto_kernel.Memory.Pmm.Reserve.{
  reserve_bit, reserve_bits, reserve_overlap, reserve_all, reserve_region,
}
use proto_kernel.Memory.Pmm.Init.{
  MemoryRegion, MemoryInfo, Boot, virt_to_phys, sum_bitmaps, boot_pt_start, bootstrap_start,
  bootstrap_size, init_region, add_region, init_regions, reserve_areas, pmm_init,
}
use proto_kernel.Memory.Pmm.Booted.{no_pages, Booted}

abbrev boot : Boot
boot = record {
  kernel_virt_base = 0xffff_0000_4000_0000;
  kernel_phys_base = 0x4000_0000;
  fdt_phys = 0;
  fdt_size = 0;
}

-- 64 pages
abbrev ram : MemoryRegion
ram = record { base = 0x4000_0000; size = 0x4_0000 }

abbrev info : MemoryInfo
info = record { regions = ram ∷ []; array = omega arith; count = 1 }

abbrev kernel_end : ℕ
kernel_end = 0xffff_0000_4000_8000

abbrev before : Pmm
before = record { regions = []; stats = no_pages; cleared = []; initialized = false }

abbrev unused : Bootstrap
unused = record { start = 0; current = 0; end = 0; used = 0; cleared = [] }

all_code : Unit {0}
unfolding set_bit test_bit addr_to_page pmm_bootstrap_init pmm_bootstrap_alloc reserve_bit
    reserve_bits reserve_overlap reserve_all reserve_region virt_to_phys sum_bitmaps boot_pt_start
    bootstrap_start bootstrap_size init_region add_region init_regions reserve_areas pmm_init
all_code = tt

-- 8 pages of the kernel, a page of padding, 10 of the boot page tables and one with the bitmap
boots :
    pmm_init boot kernel_end (some info) (before, unused)
    ≡ ok (
      record before {
        regions =
            (record {
              base = 0x4000_0000;
              size = 0x4_0000;
              bitmap = 0xf_feff ∷ [];
              bitmap_size = 8;
              total_pages = 64;
              free_pages = 45;
            })
            ∷ [];
        stats = record no_pages { total_pages = 64; free_pages = 45; reserved_pages = 19 };
        initialized = true;
      },
      record {
        start = 0x4001_3000;
        current = 0x4001_3008;
        end = 0x4001_6000;
        used = 8;
        cleared = (0x4001_3000, 1) ∷ [];
      },
    )
unfolding all_code
boots = refl

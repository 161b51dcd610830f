-- ===== src/Memory/Pmm/Init.antt =====
-- `pmm_init`. What it reads of the rest of the kernel is a record: the addresses of the kernel and of
-- the device tree, and the regions that the device tree names. Output is left out.
use proto_kernel.Prelude.{
  ℕ, zero, suc, ◌+◌, ◌-◌, ◌*◌, ◌/◌, ◌^◌, ◌≤◌, length, true, not, ◌&&◌, Option, none, some, List, [],
  ◌∷◌, ◌==◌, ltb, if◌then◌else◌, get_elem?, replicate, Outcome, ok, ◌>>=◌, in_bounds,
}
use proto_kernel.Bits.{u64, sub64}
use proto_kernel.Memory.Bootstrap.{Bootstrap, pmm_bootstrap_init, pmm_bootstrap_alloc}
use proto_kernel.Memory.Pmm.{Region, Stats, Pmm, page_size}
use proto_kernel.Memory.Pmm.Reserve.{reserve_region, page_base}

pub record MemoryRegion : Type 0 where
  pub base : ℕ
  pub size : ℕ

-- an array of 8 regions, and how many of them the device tree parser, which counts from 0, has filled
pub record MemoryInfo : Type 0 where
  pub regions : List MemoryRegion
  pub array : length regions ≤ 8
  pub count : ℕ

-- What the rest of the kernel has set: `KERNEL_VIRT_BASE`, `kernel_phys_base`, and what
-- `fdt_mgr_get_phys_addr` and `fdt_mgr_get_size` return.
pub record Boot : Type 0 where
  pub kernel_virt_base : ℕ
  pub kernel_phys_base : ℕ
  pub fdt_phys : ℕ
  pub fdt_size : ℕ

abbrev pub max_regions : ℕ
max_regions = 64

abbrev pub page_table_padding : ℕ
page_table_padding = 0x1000

abbrev pub page_table_size : ℕ
page_table_size = 10 * 4096

unfoldable pub virt_to_phys : Boot → ℕ → ℕ
virt_to_phys boot va = u64 (sub64 va boot.kernel_virt_base + boot.kernel_phys_base)

-- the bytes of a bitmap, `(pages + 63) / 64 * sizeof(uint64_t)`
abbrev pub bitmap_bytes : ℕ → ℕ
bitmap_bytes pages = u64 (pages + 63) / 64 * 8

-- the loop over the regions that sums up the bitmaps, from region `i` on
unfoldable pub sum_bitmaps : List MemoryRegion → (left i total : ℕ) → Outcome ℕ
sum_bitmaps regions zero i total = ok total
sum_bitmaps regions (suc left) i total = do
  r ← in_bounds (get_elem? regions i)
  sum_bitmaps regions left (i + 1) (u64 (total + bitmap_bytes (r.size / 2 ^ 12)))

-- `(x + PMM_PAGE_SIZE - 1) & ~(PMM_PAGE_SIZE - 1)`
abbrev pub page_ceil : ℕ → ℕ
page_ceil x = page_base (u64 (x + page_size - 1))

unfoldable pub boot_pt_start : ℕ → ℕ
boot_pt_start kernel_end_phys = page_base (u64 (kernel_end_phys + page_table_padding))

-- where the bitmaps begin: behind the boot page tables, and behind the device tree if it is near
unfoldable pub bootstrap_start : Boot → ℕ → ℕ
bootstrap_start boot kernel_end_phys =
    let boot_pt_end = u64 (boot_pt_start kernel_end_phys + page_table_size) in
    let fdt_end = u64 (boot.fdt_phys + boot.fdt_size) in
    let start =
      if not (boot.fdt_phys == 0)
        && not (boot.fdt_size == 0)
        && ltb boot_pt_end fdt_end
        && ltb boot.fdt_phys (u64 (boot_pt_end + 64 * 1024))
      then page_ceil fdt_end
      else boot_pt_end in
    page_ceil start

unfoldable pub bootstrap_size : ℕ → ℕ
bootstrap_size total_bitmap_size = page_ceil (u64 (total_bitmap_size + 8192))

-- a region of the list, if there is memory for its bitmap
unfoldable pub init_region : MemoryRegion → Bootstrap → Option Region × Bootstrap
init_region m b =
    let pages = m.size / 2 ^ 12 in
    let (bitmap, b) = pmm_bootstrap_alloc (bitmap_bytes pages) 8 b in
    (
      if bitmap == 0
          then none
          else some (record {
            base = m.base;
            size = m.size;
            bitmap = replicate (bitmap_bytes pages / 8) 0;
            bitmap_size = bitmap_bytes pages;
            total_pages = pages;
            free_pages = pages;
          }),
      b,
    )

abbrev pub counted : Region → Stats → Stats
counted r t = record t {
  total_pages = u64 (t.total_pages + r.total_pages);
  free_pages = u64 (t.free_pages + r.free_pages);
}

-- the rest of a round, with the rounds after it; without a bitmap the region is left out
unfoldable pub add_region :
    Option Region × Bootstrap
    → Stats
    → (Stats → Bootstrap → Outcome (List Region × Stats × Bootstrap))
    → Outcome (List Region × Stats × Bootstrap)
add_region (none, b) t next = next t b
add_region (some r, b) t next = do (rs, t, b) ← next (counted r t) b; ok (r ∷ rs, t, b)

-- the loop that fills `pmm_regions`, from region `i` of the list on
unfoldable pub init_regions :
    List MemoryRegion → (left i : ℕ) → Stats → Bootstrap → Outcome (List Region × Stats × Bootstrap)
init_regions regions zero i t b = ok ([], t, b)
init_regions regions (suc left) i t b = do
  m ← in_bounds (get_elem? regions i)
  add_region (init_region m b) t (init_regions regions left (i + 1))

-- "Now reserve system areas in each region they overlap with"
unfoldable pub reserve_areas :
    Boot → (kernel_end_phys first_base start used : ℕ) → Pmm → Outcome Pmm
reserve_areas boot kernel_end_phys first_base start used s = do
  s ← reserve_region first_base (sub64 kernel_end_phys first_base) s
  s ← reserve_region (boot_pt_start kernel_end_phys) page_table_size s
  s ← reserve_region start used s
  s ←
      (if not (boot.fdt_phys == 0) && not (boot.fdt_size == 0)
        then reserve_region boot.fdt_phys boot.fdt_size s
        else ok s)
  reserve_region 0x0900_0000 0x1000 s

unfoldable pub pmm_init : Boot → ℕ → Option MemoryInfo → Pmm × Bootstrap → Outcome (Pmm × Bootstrap)
pmm_init boot kernel_end none (s, b) = ok (s, b)
pmm_init boot kernel_end (some info) (s, b) = if info.count == 0 then ok (s, b) else do
  let count = if ltb info.count max_regions then info.count else max_regions
  let kernel_end_phys = virt_to_phys boot kernel_end
  total_bitmap_size ← sum_bitmaps info.regions count 0 0
  let start = bootstrap_start boot kernel_end_phys
  let end = u64 (start + bootstrap_size total_bitmap_size)
  if ltb (u64 (boot.kernel_phys_base + 32 * 1024 * 1024)) end then ok (s, b) else do
    let b = pmm_bootstrap_init start end b
    (rs, t, b) ← init_regions info.regions count 0 s.stats b
    m ← in_bounds (get_elem? info.regions 0)
    let s = record s { regions = rs; stats = t }
    s ← reserve_areas boot kernel_end_phys m.base start b.used s
    ok (record s { initialized = true }, b)

-- ===== src/Memory/MemMap.antt =====
-- kernel/memory/memmap.c: the memory map, a list of regions sorted by base that is fed from a pool of
-- 32 entries. The linked list is a list; `static_region_index` counts the entries taken.
pub mod Insert
pub mod Devices
mod Tests
use Prim.Native.Nat.{bit_and}
use Prim.Native.String.{String}
use proto_kernel.Prelude.{
  ℕ, ◌+◌, Bool, true, false, not, ◌&&◌, ◌||◌, Option, none, some, List, [], ◌∷◌, ◌==◌, ltb, leb,
  if◌then◌else◌,
}
use proto_kernel.Bits.{u64, sub64}

pub data MemType : Type 0 where
  free reserved kernel_code kernel_data kernel_bss device_mmio framebuffer acpi_reclaim acpi_nvs
        boot_data dma_coherent page_tables secure :
      MemType

abbrev pub attr_cacheable : ℕ
attr_cacheable = 1

abbrev pub attr_write_back : ℕ
attr_write_back = 2

abbrev pub attr_executable : ℕ
attr_executable = 0x10

abbrev pub attr_dma_capable : ℕ
attr_dma_capable = 0x20

abbrev pub attr_secure : ℕ
attr_secure = 0x40

pub record MemRegion : Type 0 where
  pub base : ℕ
  pub size : ℕ
  pub type : MemType
  pub attrs : ℕ
  pub name : String

pub record MemMap : Type 0 where
  pub regions : List MemRegion
  pub static_region_index : ℕ

abbrev pub static_region_count : ℕ
static_region_count = 32

-- `while (curr->next && curr->next->base < base)`, and the links that are set
unfoldable pub insert_after : MemRegion → List MemRegion → List MemRegion
insert_after r [] = r ∷ []
insert_after r (next ∷ rs) =
    if ltb next.base r.base then next ∷ insert_after r rs else r ∷ next ∷ rs

-- "Insert sorted by base address"
unfoldable pub insert : MemRegion → List MemRegion → List MemRegion
insert r [] = r ∷ []
insert r (head ∷ rs) = if ltb r.base head.base then r ∷ head ∷ rs else head ∷ insert_after r rs

unfoldable pub add_region : MemRegion → MemMap → MemMap
add_region r s =
    if ltb s.static_region_index static_region_count
    then record s { regions = insert r s.regions; static_region_index = s.static_region_index + 1 }
    else s

-- `addr >= region->base && addr < region->base + region->size`
abbrev pub contains : ℕ → MemRegion → Bool
contains addr r = leb r.base addr && ltb addr (u64 (r.base + r.size))

unfoldable pub find_region : ℕ → List MemRegion → Option MemRegion
find_region addr [] = none
find_region addr (r ∷ rs) = if contains addr r then some r else find_region addr rs

abbrev pub is_mmio : MemType → Bool
is_mmio device_mmio = true
is_mmio _ = false

abbrev pub is_secure : MemType → Bool
is_secure secure = true
is_secure _ = false

abbrev pub is_dma : MemType → Bool
is_dma dma_coherent = true
is_dma _ = false

abbrev pub has_attr : ℕ → ℕ → Bool
has_attr attrs a = not (bit_and attrs a == 0)

-- `region && ...`
abbrev pub found_and : Option MemRegion → (MemRegion → Bool) → Bool
found_and none test = false
found_and (some r) test = test r

unfoldable pub is_device_memory : ℕ → MemMap → Bool
is_device_memory addr s = found_and (find_region addr s.regions) (λ r. is_mmio r.type)

unfoldable pub is_secure_memory : ℕ → MemMap → Bool
is_secure_memory addr s =
    found_and (find_region addr s.regions) (λ r. is_secure r.type || has_attr r.attrs attr_secure)

unfoldable pub is_dma_capable : ℕ → MemMap → Bool
is_dma_capable addr s =
    found_and (find_region addr s.regions) (λ r. is_dma r.type || has_attr r.attrs attr_dma_capable)

-- the addresses that the linker sets
pub record Sections : Type 0 where
  pub text_start : ℕ
  pub text_end : ℕ
  pub data_start : ℕ
  pub data_end : ℕ
  pub bss_start : ℕ
  pub bss_end : ℕ

abbrev pub section_region : MemType → ℕ → String → (start end : ℕ) → MemRegion
section_region type attrs name start end = record {
  base = start;
  size = sub64 end start;
  type = type;
  attrs = attrs;
  name = name;
}

abbrev pub device_region : String → (base size : ℕ) → MemRegion
device_region name base size = record {
  base = base;
  size = size;
  type = device_mmio;
  attrs = 0;
  name = name;
}

-- the regions that `memmap_init` adds, in order
abbrev pub first_regions : Sections → List MemRegion
first_regions k =
    section_region kernel_code (attr_cacheable + attr_write_back + attr_executable) "Kernel .text"
      k.text_start k.text_end
    ∷ section_region kernel_data (attr_cacheable + attr_write_back) "Kernel .data" k.data_start
        k.data_end
    ∷ section_region kernel_bss (attr_cacheable + attr_write_back) "Kernel .bss" k.bss_start
        k.bss_end
    ∷ device_region "PL011 UART" 0x0900_0000 0x1000
    ∷ device_region "GIC Distributor" 0x0800_0000 0x1_0000
    ∷ device_region "GIC CPU Interface" 0x0801_0000 0x1_0000
    ∷ device_region "PCI MMIO" 0x1000_0000 0x2f00_0000
    ∷ []

unfoldable pub add_each : List MemRegion → MemMap → MemMap
add_each [] s = s
add_each (r ∷ rs) s = add_each rs (add_region r s)

unfoldable pub memmap_init : Sections → MemMap
memmap_init k = add_each (first_regions k) (record { regions = []; static_region_index = 0 })

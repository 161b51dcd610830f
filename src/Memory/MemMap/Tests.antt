-- ===== src/Memory/MemMap/Tests.antt =====
-- Runs of the memory map, and its theorems at states that meet the hypotheses.
use proto_kernel.Prelude.{◌≡◌, refl, arith, true, false, [], ◌∷◌}
use proto_kernel.Memory.MemMap.{
  MemRegion, MemMap, Sections, device_region, insert_after, insert, add_region, find_region,
  is_device_memory, is_secure_memory, is_dma_capable, add_each, memmap_init, dma_coherent,
}
use proto_kernel.Memory.MemMap.Insert.{IsValid, Added, add_region_lem}
use proto_kernel.Memory.MemMap.Devices.{High}

abbrev sections : Sections
sections = record {
  text_start = 0x4020_0000;
  text_end = 0x4021_0000;
  data_start = 0x4021_0000;
  data_end = 0x4022_0000;
  bss_start = 0x4022_0000;
  bss_end = 0x4023_0000;
}

abbrev pool : MemRegion
pool = record {
  base = 0x5000_0000;
  size = 0x1000;
  type = dma_coherent;
  attrs = 0x60;
  name = "Pool";
}

all_code : Unit {0}
unfolding insert_after insert add_region find_region is_device_memory is_secure_memory
    is_dma_capable add_each memmap_init
all_code = tt

uart_is_device : is_device_memory 0x0900_0004 (memmap_init sections) ≡ true
unfolding all_code
uart_is_device = refl

text_is_no_device : is_device_memory 0x4020_0000 (memmap_init sections) ≡ false
unfolding all_code
text_is_no_device = refl

pool_is_dma : is_dma_capable 0x5000_0fff (add_region pool (memmap_init sections)) ≡ true
unfolding all_code
pool_is_dma = refl

pool_is_secure : is_secure_memory 0x5000_0000 (add_region pool (memmap_init sections)) ≡ true
unfolding all_code
pool_is_secure = refl

sections-High : High sections
sections-High = record {
  text = omega arith;
  text_order = omega arith;
  text_end = omega arith;
  data_section = omega arith;
  data_order = omega arith;
  data_end = omega arith;
  bss = omega arith;
  bss_order = omega arith;
  bss_end = omega arith;
}

abbrev two_devices : MemMap
two_devices = record {
  regions = device_region "A" 0x1000 0x1000 ∷ device_region "B" 0x3000 0x1000 ∷ [];
  static_region_index = 2;
}

two_devices-IsValid : IsValid two_devices
two_devices-IsValid = record {
  sorted = ((omega arith, tt), (tt, tt));
  taken = refl;
  bound = omega arith;
}

add_region_lem_example :
    IsValid (add_region pool two_devices) × Added pool two_devices (add_region pool two_devices)
add_region_lem_example = add_region_lem pool two_devices-IsValid

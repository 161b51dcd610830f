-- ===== src/Memory/Pmm/DirectMaps.antt =====
-- The address through which the allocator clears a page: the page's own, seen through the direct map
-- once that is ready.
use proto_kernel.Prelude.{
  ℕ, ◌+◌, ◌^◌, ◌≤◌, ◌<◌, ◌≡◌, refl, arith, Bool, true, false, ◌&&◌, ltb, leb, if◌then◌else◌, List,
}
use proto_kernel.Bits.{u64, sub64}
use proto_kernel.Memory.Pmm.{Region, DirectMap, page_size, phys_to_dmap, clear_address}
use proto_kernel.Memory.Pmm.Replace.{free_anywhere}

-- `at` is the virtual address of the page at `pa`: `pa` itself as long as the direct map is not ready,
-- and then as far behind the base of the map as `pa` is behind the lowest address that it maps
pub data StandsFor (d : DirectMap) (pa at : ℕ) : Type 0 where
  same_address : d.ready ≡ false → at ≡ pa → StandsFor d pa at
  through_map :
      d.ready ≡ true
      → d.phys_base ≤ pa
      → pa + page_size ≤ d.phys_max
      → at + d.phys_base ≡ d.virt_base + pa
      → StandsFor d pa at

-- the direct map, once it is ready, ends at the top of the address space at most, and holds each free
-- address
pub record Covers (d : DirectMap) (rs : List Region) : Type 0 where
  pub top : d.ready ≡ true → d.virt_base + d.phys_max ≤ 2 ^ 64 + d.phys_base
  pub low : d.ready ≡ true → (q : ℕ) → free_anywhere rs q ≡ true → d.phys_base ≤ q
  pub high : d.ready ≡ true → (q : ℕ) → free_anywhere rs q ≡ true → q < d.phys_max

pub clear_address-StandsFor :
    (d : DirectMap) (pa : ℕ)
    → (d.ready ≡ true → d.virt_base + d.phys_max ≤ 2 ^ 64 + d.phys_base)
    → (d.ready ≡ true → d.phys_base ≤ pa)
    → (d.ready ≡ true → pa + page_size ≤ d.phys_max)
    → pa < 2 ^ 64
    → StandsFor d pa (clear_address d pa)
unfolding clear_address phys_to_dmap
clear_address-StandsFor d pa top low high small = by_ready d.ready refl
  where
    by_ready :
        (b : Bool)
        → d.ready ≡ b
        → StandsFor d pa (
            if b
            then (if leb d.phys_base pa && ltb pa d.phys_max
                then u64 (d.virt_base + sub64 pa d.phys_base)
                else 0)
            else pa)
    by_ready false off = same_address off refl
    by_ready true on =
        let above : leb d.phys_base pa ≡ true = ground (arith, low on) in
        let under : ltb pa d.phys_max ≡ true = ground (arith, high on) in
        rw (above, under)
          (through_map on (low on) (high on) (omega (arith, top on, low on, high on)))

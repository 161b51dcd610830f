-- ===== src/Memory/Pmm/Booted.antt =====
-- `pmm_init`: the state that it leaves is valid, and exactly the pages of the reserved areas are in use.
use proto_kernel.Prelude.{
  ℕ, ◌+◌, ◌%◌, ◌^◌, ◌≤◌, ◌<◌, ◌≡◌, refl, subst, ap, arith, true, not, ◌&&◌, some, List, get_elem?,
  ok,
}
use proto_kernel.Bits.{u64}
use proto_kernel.Memory.Bootstrap.{Bootstrap, pmm_bootstrap_init}
use proto_kernel.Memory.Pmm.{Region, Stats, Pmm}
use proto_kernel.Memory.Pmm.Replace.{free_anywhere}
use proto_kernel.Memory.Pmm.Valid.{IsValid}
use proto_kernel.Memory.Pmm.Init.{
  MemoryRegion, MemoryInfo, Boot, virt_to_phys, bootstrap_start, bootstrap_size, init_regions,
}
use proto_kernel.Memory.Pmm.Started.{Usable, Filled, init_regions-Filled}
use proto_kernel.Memory.Pmm.Layout.{Places, Rounded, needed, listed, listed_start, taken_page}
use proto_kernel.Memory.Pmm.Filling.{Shown}

abbrev pub no_pages : Stats
no_pages = record {
  total_pages = 0;
  free_pages = 0;
  reserved_pages = 0;
  allocated_pages = 0;
  page_table_pages = 0;
}

-- What `pmm_init` leaves: nothing new, if the range for the bitmaps would reach beyond 32 MB behind the
-- kernel's base, or the listed pages, free but for those that the reserved areas touch.
pub data Booted (boot : Boot) (info : MemoryInfo) (kernel_end_phys first_base : ℕ) (s : Pmm)
    (b : Bootstrap) : Pmm → Bootstrap → Type 0 where
  refused :
      (tables start bytes : ℕ)
      → Places boot kernel_end_phys tables start
      → Rounded (needed info.regions info.count 0) bytes
      → (boot.kernel_phys_base + 0x200_0000) % 2 ^ 64 < start + bytes
      → Booted boot info kernel_end_phys first_base s b s b
  started :
      (tables start bytes : ℕ)
      → Places boot kernel_end_phys tables start
      → Rounded (needed info.regions info.count 0) bytes
      → start + bytes ≤ (boot.kernel_phys_base + 0x200_0000) % 2 ^ 64
      → (s' : Pmm) (b' : Bootstrap) → IsValid s'
      → s'.initialized ≡ true
      → b'.current ≡ start + needed info.regions info.count 0
      → ((q : ℕ)
          → free_anywhere s'.regions q ≡ (
              listed info.regions info.count 0 q
              && not (
                  taken_page boot kernel_end_phys first_base tables start
                    (start + needed info.regions info.count 0)
                    (listed_start info.regions info.count 0 q))))
      → Booted boot info kernel_end_phys first_base s b s' b'

module _ (boot : Boot) (kernel_end : ℕ) (info : MemoryInfo) (s : Pmm) (b : Bootstrap)
    (first : MemoryRegion) (e : get_elem? info.regions 0 ≡ some first)
    (some_regions : 0 < info.count) (usable : Usable info.regions info.count)
    (fresh_stats : s.stats ≡ no_pages) (behind : first.base ≤ virt_to_phys boot kernel_end)
    (low : virt_to_phys boot kernel_end < 2 ^ 62)
    (low_fdt : boot.fdt_phys + boot.fdt_size < 2 ^ 62) where
  abbrev end_phys : ℕ
  end_phys = virt_to_phys boot kernel_end

  abbrev begun : ℕ → Bootstrap
  begun sum =
      pmm_bootstrap_init (bootstrap_start boot end_phys)
        (u64 (bootstrap_start boot end_phys + bootstrap_size sum)) b

  begun-used : (sum : ℕ) → (begun sum).used ≡ 0
  unfolding pmm_bootstrap_init
  begun-used sum = refl

  fill :
      (sum : ℕ)
      → (rs : List Region) × (t : Stats) × (b' : Bootstrap) × (init_regions info.regions info.count
            0 s.stats
            (begun sum)
          ≡ ok (rs, t, b'))
        × Filled info.regions info.count 0 no_pages rs t
        × (b'.used ≤ 2 ^ 56)
  fill sum =
      let zero_free : s.stats.free_pages ≡ 0 = ap (λ (x : Stats). x.free_pages) fresh_stats in
      let zero_total : s.stats.total_pages ≡ 0 = ap (λ (x : Stats). x.total_pages) fresh_stats in
      let (rs, t, b', run, f, le) =
        init_regions-Filled info.regions info.count 0 s.stats (begun sum)
          (subst (Usable info.regions) (omega arith) usable) (omega (arith, zero_free))
          (omega (arith, zero_total)) in
      (
        rs,
        t,
        b',
        run,
        subst (λ x. Filled info.regions info.count 0 x rs t) fresh_stats f,
        omega (arith, le, begun-used sum),
      )

  abbrev size : ℕ
  size = bootstrap_size (needed info.regions info.count 0)

  -- the regions that are filled, and the range that their bitmaps take
  record Set (rs : List Region) (t : Stats) (b' : Bootstrap) : Type 0 where
    run :
        init_regions info.regions info.count 0 s.stats (begun (needed info.regions info.count 0))
        ≡ ok (rs, t, b')
    filled : Filled info.regions info.count 0 no_pages rs t
    shown : Shown info.regions info.count 0 rs
    current : b'.current ≡ bootstrap_start boot end_phys + needed info.regions info.count 0
    used : b'.used ≡ needed info.regions info.count 0

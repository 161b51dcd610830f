-- ===== src/Memory/MemMap/Devices.antt =====
-- The map that `memmap_init` builds, and what `memmap_is_device_memory` says of it.
use proto_kernel.Prelude.{
  ℕ, ◌+◌, ◌^◌, ◌≤◌, ◌<◌, ◌≡◌, refl, ◌∙◌, ap, arith, inl, inr, Bool, true, false, ◌&&◌, ◌||◌, List,
  [], ◌∷◌, ltb, leb, length, Bool-cases,
}
use proto_kernel.Memory.MemMap.{
  MemRegion, MemMap, add_region, contains, find_region, is_mmio, found_and, is_device_memory,
  Sections, first_regions, add_each, memmap_init,
}
use proto_kernel.Memory.MemMap.Insert.{
  IsValid, Inserted, here, there, Added, full, added, add_region_lem,
}

-- some region of the list contains the address
abbrev pub covered : ℕ → List MemRegion → Bool
covered addr [] = false
covered addr (r ∷ rs) = contains addr r || covered addr rs

-- the regions that contain the address are devices
abbrev pub DevicesOnly : ℕ → List MemRegion → Type 0
DevicesOnly addr [] = Unit
DevicesOnly addr (r ∷ rs) = (contains addr r ≡ true → is_mmio r.type ≡ true) × DevicesOnly addr rs

covered-Inserted :
    (addr : ℕ) (r : MemRegion) {rs rs' : List MemRegion}
    → Inserted r rs rs'
    → covered addr rs' ≡ (contains addr r || covered addr rs)
covered-Inserted addr r here = refl
covered-Inserted addr r (there {x = x} c) = ground (arith, covered-Inserted addr r c)

DevicesOnly-Inserted :
    (addr : ℕ) (r : MemRegion) {rs rs' : List MemRegion}
    → (contains addr r ≡ true → is_mmio r.type ≡ true)
    → Inserted r rs rs'
    → DevicesOnly addr rs
    → DevicesOnly addr rs'
DevicesOnly-Inserted addr r h here d = (h, d)
DevicesOnly-Inserted addr r h (there c) d = (d.0, DevicesOnly-Inserted addr r h c d.1)

find_region-covered :
    (addr : ℕ) (rs : List MemRegion)
    → DevicesOnly addr rs
    → found_and (find_region addr rs) (λ r. is_mmio r.type) ≡ covered addr rs
unfolding find_region
find_region-covered addr [] d = refl
find_region-covered addr (r ∷ rs) d = elim (Bool-cases (contains addr r)) [
  | inl on ↦ rw on (d.0 on)
  | inr off ↦ rw off (find_region-covered addr rs d.1)
]

-- the map while it is built
record Built (addr : ℕ) (b : Bool) (s : MemMap) : Type 0 where
  valid : IsValid s
  devices : DevicesOnly addr s.regions
  covers : covered addr s.regions ≡ b

Built-Added :
    (addr : ℕ) (b : Bool) (s : MemMap) (r : MemRegion) (s' : MemMap)
    → Built addr b s
    → s.static_region_index < 32
    → (contains addr r ≡ true → is_mmio r.type ≡ true)
    → IsValid s'
    → Added r s s'
    → Built addr (contains addr r || b) s' × (s'.static_region_index ≡ s.static_region_index + 1)
Built-Added addr b s r s' built room device v (full used) = absurd (omega (arith, used))
Built-Added addr b s r s' built room device v (added _ h c index) = (
  record {
    valid = v;
    devices = DevicesOnly-Inserted addr r device c built.devices;
    covers = covered-Inserted addr r c ∙ ap (λ (x : Bool). contains addr r || x) built.covers;
  },
  index,
)

Built-each :
    (addr : ℕ) (rs : List MemRegion) (b : Bool) (s : MemMap)
    → Built addr b s
    → s.static_region_index + length rs ≤ 32
    → DevicesOnly addr rs
    → (b' : Bool) × (b' ≡ (covered addr rs || b)) × Built addr b' (add_each rs s)
unfolding add_each
Built-each addr [] b s built room d = (b, refl, built)
Built-each addr (r ∷ rs) b s built room d =
    let (v, a) = add_region_lem r built.valid in
    let (built1, index) = Built-Added addr b s r (add_region r s) built (omega arith) d.0 v a in
    let (b', e, built') =
      Built-each addr rs (contains addr r || b) (add_region r s) built1 (omega (arith, index))
        d.1 in
    (b', ground (arith, e), built')

-- the devices of the map
abbrev pub in_device : ℕ → Bool
in_device addr =
    (leb 0x0800_0000 addr && ltb addr 0x0802_0000)
    || (leb 0x0900_0000 addr && ltb addr 0x0900_1000)
    || (leb 0x1000_0000 addr && ltb addr 0x3f00_0000)

-- the sections stand at or above 0x4000_0000 and end where they say
pub record High (k : Sections) : Type 0 where
  pub text : 0x4000_0000 ≤ k.text_start
  pub text_order : k.text_start ≤ k.text_end
  pub text_end : k.text_end < 2 ^ 64
  pub data_section : 0x4000_0000 ≤ k.data_start
  pub data_order : k.data_start ≤ k.data_end
  pub data_end : k.data_end < 2 ^ 64
  pub bss : 0x4000_0000 ≤ k.bss_start
  pub bss_order : k.bss_start ≤ k.bss_end
  pub bss_end : k.bss_end < 2 ^ 64

-- If the sections of the kernel stand at or above 0x40000000, in order and below 2^64,
-- memmap_init builds a valid map in which memmap_is_device_memory holds of an address below
-- 0x40000000 exactly if it lies in the interrupt controller, the serial port or the PCI window.
pub memmap_init_lem :
    (k : Sections) (addr : ℕ)
    → High k
    → addr < 0x4000_0000
    → IsValid (memmap_init k) × (is_device_memory addr (memmap_init k) ≡ in_device addr)
unfolding memmap_init is_device_memory
memmap_init_lem k addr h low =
    let (b, e, built) =
      Built-each addr (first_regions k) false (record { regions = []; static_region_index = 0 })
        (record {
          valid = record { sorted = tt; taken = refl; bound = omega arith };
          devices = tt;
          covers = refl;
        })
        (omega arith)
        (
          λ on. absurd (ground (arith, h.text, on)),
          (
            λ on. absurd (ground (arith, h.data_section, on)),
            (
              λ on. absurd (ground (arith, h.bss, on)),
              (λ on. refl, (λ on. refl, (λ on. refl, (λ on. refl, tt)))),
            ),
          ),
        ) in
    (
      built.valid,
      find_region-covered addr (memmap_init k).regions built.devices
          ∙ built.covers
          ∙ e
          ∙ ground (arith, h.text, h.data_section, h.bss),
    )

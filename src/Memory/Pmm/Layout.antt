-- ===== src/Memory/Pmm/Layout.antt =====
-- Where `pmm_init` puts things, said without the code's own arithmetic: the boot page tables, the
-- bitmaps, and the pages of the regions that the device tree names.
use proto_kernel.Prelude.{
  ℕ, zero, suc, ◌+◌, ◌-◌, ◌*◌, ◌/◌, ◌%◌, ◌^◌, ◌≤◌, ◌<◌, ◌≡◌, ◌≢◌, ◌⊎◌, inl, inr, refl, ◌∙◌, arith,
  Bool, true, false, not, ◌&&◌, ◌||◌, none, some, List, ◌==◌, ltb, leb, if◌then◌else◌, get_elem?,
  Bool-cases,
}
use proto_kernel.Bits.{u64}
use proto_kernel.Bits.Align.{bit_and-complement, down-le, lt-down, down-multiple}
use proto_kernel.Memory.Bootstrap.{page_align}
use proto_kernel.Memory.Pmm.ReserveOverlap.{touched}
use proto_kernel.Memory.Pmm.Areas.{in_fdt}
use proto_kernel.Memory.Pmm.Init.{
  MemoryRegion, Boot, boot_pt_start, page_ceil, bootstrap_start, bootstrap_size,
}

-- the device tree does not reach into the 64 KB behind `tables_end`
abbrev pub FdtAway : Boot → (tables_end : ℕ) → Type 0
FdtAway boot tables_end =
    ((boot.fdt_phys ≡ 0) ⊎ (boot.fdt_size ≡ 0))
    ⊎ ((boot.fdt_phys + boot.fdt_size ≤ tables_end) ⊎ (tables_end + 0x1_0000 ≤ boot.fdt_phys))

-- the bitmaps begin at `start`: at the end of the boot page tables, or, if the device tree is near, at
-- the first page boundary behind it
pub data Start (boot : Boot) (tables_end start : ℕ) : Type 0 where
  at_tables_end : FdtAway boot tables_end → start ≡ tables_end → Start boot tables_end start
  behind_fdt :
      boot.fdt_phys ≢ 0
      → boot.fdt_size ≢ 0
      → boot.fdt_phys < tables_end + 0x1_0000
      → tables_end < boot.fdt_phys + boot.fdt_size
      → boot.fdt_phys + boot.fdt_size ≤ start
      → start < boot.fdt_phys + boot.fdt_size + 4096
      → Start boot tables_end start

-- the boot page tables are ten pages from the first page boundary behind a kernel that ends at
-- `kernel_end_phys`, and the bitmaps lie behind them
pub record Places (boot : Boot) (kernel_end_phys tables start : ℕ) : Type 0 where
  pub tables_aligned : tables % 4096 ≡ 0
  pub tables_behind : kernel_end_phys < tables
  pub tables_near : tables ≤ kernel_end_phys + 4096
  pub start_aligned : start % 4096 ≡ 0
  pub start_behind : tables + 40960 ≤ start
  pub start_at : Start boot (tables + 40960) start

-- `bytes` is `needed` and two pages more, rounded up to whole pages
abbrev pub Rounded : (needed bytes : ℕ) → Type 0
Rounded needed bytes = (bytes % 4096 ≡ 0) × (needed + 8192 ≤ bytes) × (bytes < needed + 8192 + 4096)

-- what the bitmaps of `left` entries from `i` on take: a bit for each page, in words of 64 bits
unfoldable pub needed : List MemoryRegion → (left i : ℕ) → ℕ
needed ms zero i = 0
needed ms (suc left) i =
    let later = needed ms left (i + 1) in
    elim (get_elem? ms i) [ none ↦ later | some m ↦ 8 * ((m.size / 4096 + 63) / 64) + later ]

-- `q` lies on a whole page of the entry
abbrev pub on_page : MemoryRegion → ℕ → Bool
on_page m q = leb m.base q && ltb q (m.base + m.size / 4096 * 4096)

-- `q` lies on a whole page of one of `left` entries from `i` on
unfoldable pub listed : List MemoryRegion → (left i q : ℕ) → Bool
listed ms zero i q = false
listed ms (suc left) i q =
    let later = listed ms left (i + 1) q in
    elim (get_elem? ms i) [ none ↦ later | some m ↦ if on_page m q then true else later ]

-- where that page begins
unfoldable pub listed_start : List MemoryRegion → (left i q : ℕ) → ℕ
listed_start ms zero i q = 0
listed_start ms (suc left) i q =
    let later = listed_start ms left (i + 1) q in
    elim (get_elem? ms i) [
      | none ↦ later
      | some m ↦ if on_page m q then m.base + (q - m.base) / 4096 * 4096 else later
    ]

-- the page that begins at `p` shares an address with the kernel, the boot page tables, the bitmaps,
-- the device tree or the serial port
abbrev pub taken_page : Boot → (kernel_end_phys first_base tables start bitmaps_end : ℕ) → ℕ → Bool
taken_page boot kernel_end_phys first_base tables start bitmaps_end p =
    (((touched first_base kernel_end_phys p || touched tables (tables + 40960) p)
        || touched start bitmaps_end p)
      || in_fdt boot p)
    || touched 0x0900_0000 0x0900_1000 p

module _ (boot : Boot) (kernel_end_phys : ℕ) (low : kernel_end_phys < 2 ^ 62)
    (low_fdt : boot.fdt_phys + boot.fdt_size < 2 ^ 62) where
  tables_facts :
      (boot_pt_start kernel_end_phys % 4096 ≡ 0)
      × (kernel_end_phys < boot_pt_start kernel_end_phys)
      × (boot_pt_start kernel_end_phys ≤ kernel_end_phys + 4096)
  unfolding boot_pt_start
  tables_facts = (omega arith, omega arith, omega arith)

  abbrev tables_end : ℕ
  tables_end = boot_pt_start kernel_end_phys + 40960

  abbrev fdt_end : ℕ
  fdt_end = boot.fdt_phys + boot.fdt_size

  -- the test of `bootstrap_start`, without the wrap-around
  abbrev near : Bool
  near =
      not (boot.fdt_phys == 0)
      && not (boot.fdt_size == 0)
      && ltb tables_end fdt_end
      && ltb boot.fdt_phys (tables_end + 0x1_0000)

  away_of_far : near ≡ false → FdtAway boot tables_end
  away_of_far far = elim (Bool-cases (boot.fdt_phys == 0)) [
    | inl no_address ↦ inl (inl (ground arith))
    | inr address ↦ elim (Bool-cases (boot.fdt_size == 0)) [
      | inl no_size ↦ inl (inr (ground arith))
      | inr size ↦ elim (Bool-cases (ltb tables_end fdt_end)) [
        | inl beyond ↦ inr (inr (ground arith))
        | inr before ↦ inr (inl (ground arith))
      ]
    ]
  ]

  abbrev Placed : ℕ → Type 0
  Placed start = Start boot tables_end start × (start % 4096 ≡ 0) × (tables_end ≤ start)

  start-Placed : Placed (bootstrap_start boot kernel_end_phys)
  unfolding bootstrap_start
  start-Placed =
      let facts = tables_facts in
      let exact : u64 (boot_pt_start kernel_end_phys + 40960) ≡ tables_end =
        omega (arith, facts.2) in
      let exact_fdt : u64 (boot.fdt_phys + boot.fdt_size) ≡ fdt_end = omega (arith, low_fdt) in
      let exact_near : u64 (tables_end + 0x1_0000) ≡ tables_end + 0x1_0000 =
        omega (arith, facts.2) in
      rw (exact, exact_fdt, exact_near) (by_near near refl)
    where
      by_near :
          (b : Bool) → near ≡ b → Placed (page_ceil (if b then page_ceil fdt_end else tables_end))
      by_near true e = (
        behind_fdt (ground arith) (ground arith) (ground arith) (ground arith) (omega arith)
            (omega arith),
        omega arith,
        ground arith,
      )
      by_near false e =
          let facts = tables_facts in
          (
            at_tables_end (away_of_far e) (omega (arith, facts.0, facts.2)),
            omega arith,
            omega (arith, facts.0, facts.2),
          )

  pub bootstrap_start-Places :
      Places boot kernel_end_phys
        (boot_pt_start kernel_end_phys)
        (bootstrap_start boot kernel_end_phys)
  bootstrap_start-Places = record {
    tables_aligned = tables_facts.0;
    tables_behind = tables_facts.1;
    tables_near = tables_facts.2;
    start_aligned = start-Placed.1;
    start_behind = start-Placed.2;
    start_at = start-Placed.0;
  }

pub bootstrap_size-Rounded : (n : ℕ) → n < 2 ^ 62 → Rounded n (bootstrap_size n)
unfolding bootstrap_size
bootstrap_size-Rounded n low = (omega arith, omega arith, omega arith)

pub page_align-exact : (x : ℕ) → x % 4096 ≡ 0 → x < 2 ^ 63 → page_align x ≡ x
page_align-exact x aligned small =
    let exact : u64 (x + 4095) ≡ x + 4095 = omega (arith, small) in
    let (q, multiple) = down-multiple 12 (x + 4095) in
    rw exact (
      bit_and-complement 12 (x + 4095) (omega arith) (omega (arith, small))
      ∙ omega (arith, multiple, aligned, down-le 12 (x + 4095), lt-down 12 (x + 4095)))

-- ===== src/Memory/Pmm/Areas.antt =====
-- The areas that `pmm_init` reserves, one after the other.
use proto_kernel.Prelude.{
  ℕ, ◌+◌, ◌-◌, ◌^◌, ◌≤◌, ◌<◌, ◌≡◌, refl, ◌∙◌, ap, arith, inl, inr, Bool, false, not, ◌&&◌, ◌||◌,
  ◌==◌, if◌then◌else◌, ok, Bool-cases,
}
use proto_kernel.Bits.{sub64}
use proto_kernel.Memory.Pmm.{Pmm}
use proto_kernel.Memory.Pmm.Replace.{free_anywhere}
use proto_kernel.Memory.Pmm.Valid.{IsValid}
use proto_kernel.Memory.Pmm.Locate.{managed, page_start}
use proto_kernel.Memory.Pmm.Reserve.{reserve_region}
use proto_kernel.Memory.Pmm.ReserveOverlap.{touched}
use proto_kernel.Memory.Pmm.ReserveRegion.{reserve_region_lem}
use proto_kernel.Memory.Pmm.Init.{Boot, page_table_size, boot_pt_start, reserve_areas}

-- `s'` is `s` without the free pages whose start `hit` names.
pub record Without (hit : ℕ → Bool) (s s' : Pmm) : Type 0 where
  pub valid : IsValid s'
  pub at :
      (q : ℕ)
      → free_anywhere s'.regions q
        ≡ (free_anywhere s.regions q && not (hit (page_start s.regions q)))
  pub starts : (q : ℕ) → page_start s'.regions q ≡ page_start s.regions q
  pub same_pages : (q : ℕ) → managed s'.regions q ≡ managed s.regions q

Without-none : {s : Pmm} → IsValid s → Without (λ p. false) s s
Without-none {s} v = record {
  valid = v;
  at = λ q. ground arith;
  starts = λ q. refl;
  same_pages = λ q. refl;
}

Without-same :
    (f g : ℕ → Bool) {s s' : Pmm} → ((p : ℕ) → f p ≡ g p) → Without f s s' → Without g s s'
Without-same f g {s} e w = record {
  valid = w.valid;
  at = λ q. w.at q ∙ ap (λ hit. free_anywhere s.regions q && not hit) (e (page_start s.regions q));
  starts = w.starts;
  same_pages = w.same_pages;
}

Without-join :
    (f g : ℕ → Bool) {s s1 s2 : Pmm}
    → Without f s s1
    → Without g s1 s2
    → Without (λ p. f p || g p) s s2
Without-join f g {s} {s1} {s2} a b = record {
  valid = b.valid;
  at = λ q. b.at q ∙ rw (a.at q, a.starts q) (ground arith);
  starts = λ q. b.starts q ∙ a.starts q;
  same_pages = λ q. b.same_pages q ∙ a.same_pages q;
}

reserve_region-Without :
    {s : Pmm} (base size : ℕ)
    → IsValid s
    → base + size < 2 ^ 64
    → (s' : Pmm) × (reserve_region base size s ≡ ok s') × Without (touched base (base + size)) s s'
reserve_region-Without {s} base size v h =
    let (s', run, w) = reserve_region_lem base size v h in
    (s', run, record { valid = w.valid; at = w.at; starts = w.starts; same_pages = w.same_pages })

-- the page that begins at `p` shares an address with the device tree
abbrev pub in_fdt : Boot → ℕ → Bool
in_fdt boot p =
    (not (boot.fdt_phys == 0) && not (boot.fdt_size == 0))
    && touched boot.fdt_phys (boot.fdt_phys + boot.fdt_size) p

-- the page that begins at `p` shares an address with the kernel, the boot page tables, the bitmaps,
-- the device tree or the serial port
abbrev pub in_area : Boot → (kernel_end_phys first_base start used : ℕ) → ℕ → Bool
in_area boot kernel_end_phys first_base start used p =
    (((touched first_base kernel_end_phys p
          || touched (boot_pt_start kernel_end_phys)
              (boot_pt_start kernel_end_phys + page_table_size) p)
        || touched start (start + used) p)
      || in_fdt boot p)
    || touched 0x0900_0000 0x0900_1000 p

module _ (boot : Boot) (kernel_end_phys first_base start used : ℕ)
    (le : first_base ≤ kernel_end_phys) (small : kernel_end_phys < 2 ^ 63)
    (small_start : start + used < 2 ^ 64) (small_fdt : boot.fdt_phys + boot.fdt_size < 2 ^ 64) where
  reserve_fdt-Without :
      {s : Pmm}
      → IsValid s
      → (s' : Pmm) × ((if not (boot.fdt_phys == 0) && not (boot.fdt_size == 0)
            then reserve_region boot.fdt_phys boot.fdt_size s
            else ok s)
          ≡ ok s')
        × Without (in_fdt boot) s s'
  reserve_fdt-Without {s} v =
      elim (Bool-cases (not (boot.fdt_phys == 0) && not (boot.fdt_size == 0))) [
        | inl some_fdt ↦
            let (s', run, w) = reserve_region-Without boot.fdt_phys boot.fdt_size v small_fdt in
            (
              s',
              rw some_fdt run,
              Without-same (touched boot.fdt_phys (boot.fdt_phys + boot.fdt_size)) (in_fdt boot)
                  (λ p. rw some_fdt refl) w,
            )
        | inr no_fdt ↦ (
          s,
          rw no_fdt refl,
          Without-same (λ p. false) (in_fdt boot) (λ p. rw no_fdt refl) (Without-none v),
        )
      ]

  reserve_kernel-Without :
      {s : Pmm}
      → IsValid s
      → (s' : Pmm) × (reserve_region first_base (sub64 kernel_end_phys first_base) s ≡ ok s')
        × Without (touched first_base kernel_end_phys) s s'
  reserve_kernel-Without {s} v =
      let size : sub64 kernel_end_phys first_base ≡ kernel_end_phys - first_base = omega arith in
      let end : first_base + (kernel_end_phys - first_base) ≡ kernel_end_phys = omega arith in
      let (s', run, w) =
        reserve_region-Without first_base (kernel_end_phys - first_base) v (omega arith) in
      (
        s',
        ap (λ n. reserve_region first_base n s) size ∙ run,
        Without-same (touched first_base (first_base + (kernel_end_phys - first_base)))
            (touched first_base kernel_end_phys) (λ p. ap (λ e. touched first_base e p) end) w,
      )

  tables_end : boot_pt_start kernel_end_phys + page_table_size < 2 ^ 64
  unfolding boot_pt_start
  tables_end = omega arith

  abbrev tables : ℕ → Bool
  tables = touched (boot_pt_start kernel_end_phys) (boot_pt_start kernel_end_phys + page_table_size)

  pub reserve_areas-Without :
      {s : Pmm}
      → IsValid s
      → (s' : Pmm) × (reserve_areas boot kernel_end_phys first_base start used s ≡ ok s')
        × Without (in_area boot kernel_end_phys first_base start used) s s'
  unfolding reserve_areas
  reserve_areas-Without {s} v =
      let kernel = touched first_base kernel_end_phys in
      let bitmaps = touched start (start + used) in
      let (s1, run1, w1) = reserve_kernel-Without v in
      let (s2, run2, w2) =
        reserve_region-Without (boot_pt_start kernel_end_phys) page_table_size w1.valid
          tables_end in
      let (s3, run3, w3) = reserve_region-Without start used w2.valid small_start in
      let (s4, run4, w4) = reserve_fdt-Without w3.valid in
      let (s5, run5, w5) = reserve_region-Without 0x0900_0000 0x1000 w4.valid (omega arith) in
      (
        s5,
        rw run1 (rw run2 (rw run3 (rw run4 run5))),
        Without-join (λ p. ((kernel p || tables p) || bitmaps p) || in_fdt boot p)
            (touched 0x0900_0000 0x0900_1000)
            (Without-join (λ p. (kernel p || tables p) || bitmaps p) (in_fdt boot)
              (Without-join (λ p. kernel p || tables p) bitmaps (Without-join kernel tables w1 w2)
                w3)
              w4)
            w5,
      )

-- ===== src/Memory/Pmm/AllocPages.antt =====
-- `pmm_alloc_page`, `pmm_alloc_pages` and `pmm_alloc_page_table` on the whole state.
use proto_kernel.Prelude.{
  ℕ, zero, suc, ◌+◌, ◌*◌, ◌/◌, ◌≤◌, ◌<◌, ◌≡◌, refl, ◌∙◌, sym, ap, ◌^◌, arith, true, false, Option,
  none, some, List, [], ◌∷◌, ◌==◌, if◌then◌else◌, Outcome, ok, ◌>>=◌, Bool-cases, inl, inr,
}
use proto_kernel.Bits.{u64, sub64}
use proto_kernel.Bitmap.Search.{AllClear}
use proto_kernel.Bitmap.Members.{has}
use proto_kernel.Memory.Pmm.{
  Region, Pmm, DirectMap, page_size, clear_address, inside, take_page, take_pages, first_region,
  allocated, alloc_page, alloc_pages,
}
use proto_kernel.Memory.Pmm.Pages.{
  RegionValid, free_at, page_of, on_pages, took, inside_lem, took-valid, n-le-free_pages,
  free_at-took, free_at_before,
}
use proto_kernel.Memory.Pmm.Replace.{
  sum_free-le-total, free_anywhere, Replace, Same, AllValid-Replace, sum_total-Replace,
  sum_free-Replace, valid_of, free_anywhere-inside, free_anywhere-Replace,
}
use proto_kernel.Memory.Pmm.Valid.{IsValid}
use proto_kernel.Memory.Pmm.DirectMaps.{StandsFor, Covers, clear_address-StandsFor}
use proto_kernel.Memory.Pmm.Locate.{
  managed, page_start, managed-Replace, page_start-Replace, page_start-inside,
}
use proto_kernel.Memory.Pmm.Alloc.{
  NoRun, Chosen, nowhere, chosen, first_region-Chosen, take_page-Tried, take_pages-Tried,
}

-- `count` pages from `pa` on, all free in `s`, are the only ones that `s'` has in use beyond those
-- of `s`, and their words have been cleared.
pub record Granted (d : DirectMap) (count : ℕ) (s : Pmm) (pa : ℕ) (s' : Pmm) : Type 0 where
  pub valid : IsValid s'
  pub whole : (q : ℕ) → on_pages pa count q ≡ true → free_anywhere s.regions q ≡ true
  pub after :
      (q : ℕ)
      → free_anywhere s'.regions q
        ≡ (if on_pages pa count q then false else free_anywhere s.regions q)
  pub same_pages : (q : ℕ) → managed s'.regions q ≡ managed s.regions q
  pub starts : (k : ℕ) → k < count → page_start s'.regions (pa + k * page_size) ≡ pa + k * page_size
  pub end : pa + count * page_size ≤ 2 ^ 64
  pub counts : s'.stats.free_pages + count ≡ s.stats.free_pages
  pub words : s'.cleared ≡ (clear_address d pa, 512 * count) ∷ s.cleared

pub data Allocated (d : DirectMap) (count : ℕ) (s : Pmm) (pa : ℕ) (s' : Pmm) : Type 0 where
  none_left : NoRun count s.regions → pa ≡ 0 → s' ≡ s → Allocated d count s pa s'
  granted : Granted d count s pa s' → Allocated d count s pa s'

module _ (d : DirectMap) (count : ℕ) {s : Pmm} (v : IsValid s) {rs' : List Region} (r : Region)
    (page : ℕ) (c : Replace r (took r page count) s.regions rs')
    (fits : page + count ≤ r.total_pages) (clear : AllClear r.bitmap page (page + count)) where
  abbrev grant : Pmm
  grant = record s {
    regions = rs';
    stats = record s.stats {
      free_pages = sub64 s.stats.free_pages count;
      allocated_pages = u64 (s.stats.allocated_pages + count);
    };
    cleared =
        (clear_address d (r.base + page * page_size), u64 (page_size * count) / 8) ∷ s.cleared;
  }

  rv : RegionValid r
  rv = valid_of c v.regions

  same : Same r (took r page count)
  same = record { base = refl; size = refl; total = refl }

  inside_of_on : (q : ℕ) → on_pages (r.base + page * page_size) count q ≡ true → inside r q ≡ true
  inside_of_on q on = ground (arith, inside_lem rv q, rv.span, rv.pages)

  free_fits : (count ≤ s.stats.free_pages) × (s.stats.free_pages < 2 ^ 64)
  free_fits = omega (
    arith,
    v.free_sum,
    sum_free-Replace c,
    n-le-free_pages rv page count fits clear,
    sum_free-le-total s.regions v.regions,
    v.small,
  )

  after_grant :
      (q : ℕ)
      → free_anywhere rs' q ≡ (
          if on_pages (r.base + page * page_size) count q then false else free_anywhere s.regions q)
  after_grant q = elim (Bool-cases (inside r q)) [
    | inl on ↦ ground (
      arith,
      free_anywhere-Replace q same (took-valid rv page count fits clear) c v.regions,
      free_anywhere-inside q c v.regions on,
      free_at-took rv page count fits q (ground (arith, inside_lem rv q)),
    )
    | inr off ↦ ground (
      arith,
      free_anywhere-Replace q same (took-valid rv page count fits clear) c v.regions,
      inside_of_on q,
    )
  ]

  grant-IsValid : IsValid grant
  grant-IsValid = record {
    regions = AllValid-Replace same (took-valid rv page count fits clear) c v.regions;
    free_sum = omega (
      arith,
      free_fits,
      v.free_sum,
      sum_free-Replace c,
      n-le-free_pages rv page count fits clear,
    );
    total_sum = v.total_sum ∙ sym (sum_total-Replace same c);
    small = omega (arith, v.small, sum_total-Replace same c);
    balance = omega (arith, v.balance, free_fits);
  }

  starts_grant :
      (k : ℕ)
      → k < count
      → page_start rs' (r.base + page * page_size + k * page_size)
        ≡ r.base + page * page_size + k * page_size
  starts_grant k h =
      page_start-Replace same (r.base + page * page_size + k * page_size) c
      ∙ page_start-inside (r.base + page * page_size + k * page_size) c v.regions
          (inside_of_on (r.base + page * page_size + k * page_size) (ground arith))
      ∙ omega arith

  grant-Granted : Granted d count s (r.base + page * page_size) grant
  grant-Granted = record {
    valid = grant-IsValid;
    whole = λ q on.
        free_anywhere-inside q c v.regions (inside_of_on q on)
        ∙ free_at_before rv page count fits q clear on;
    after = after_grant;
    same_pages = λ q. managed-Replace same q c;
    starts = starts_grant;
    end = omega (arith, rv.span, rv.pages);
    counts = omega (arith, free_fits);
    words =
        ap (λ (n : ℕ). (clear_address d (r.base + page * page_size), n) ∷ s.cleared)
          (omega (arith, rv.span, rv.pages));
  }

module _ (d : DirectMap) (count : ℕ) {s : Pmm} (v : IsValid s) where
  allocated-Allocated :
      (o : Option (ℕ × List Region))
      → Chosen count s.regions o
      → Allocated d count s (allocated d count s o).0 (allocated d count s o).1
  unfolding allocated
  allocated-Allocated none (nowhere no_run) = none_left no_run refl refl
  allocated-Allocated (some (pa, rs')) (chosen r page c fits clear e) =
      rw e (granted (grant-Granted d count v r page c fits clear))

  allocated-from :
      (m : Outcome (Option (ℕ × List Region)))
      → (o : Option (ℕ × List Region)) × (m ≡ ok o) × Chosen count s.regions o
      → (pa : ℕ) × (s' : Pmm) × ((m >>= λ o. ok (allocated d count s o)) ≡ ok (pa, s'))
        × Allocated d count s pa s'
  allocated-from m (o, run, c) =
      ((allocated d count s o).0, (allocated d count s o).1, rw run refl, allocated-Allocated o c)

alloc_page-Allocated :
    (d : DirectMap) {s : Pmm}
    → IsValid s
    → (pa : ℕ) × (s' : Pmm) × (alloc_page d s ≡ ok (pa, s')) × Allocated d 1 s pa s'
unfolding alloc_page
alloc_page-Allocated d {s} v =
    allocated-from d 1 v (first_region take_page s.regions)
      (first_region-Chosen 1 take_page (λ r rv. take_page-Tried rv) s.regions v.regions)

-- In a valid state, for a count above 0, pmm_alloc_pages returns: 0 with the state unchanged if
-- no region has a run of that many free pages, and otherwise an address whose pages were all
-- free, in a valid state in which exactly these pages are no longer free, the free counter is
-- lower by the count, and one clearing of 512 words a page was made.
pub alloc_pages_lem :
    (d : DirectMap) (count : ℕ) {s : Pmm}
    → IsValid s
    → 0 < count
    → (pa : ℕ) × (s' : Pmm) × (alloc_pages d count s ≡ ok (pa, s')) × Allocated d count s pa s'
unfolding alloc_pages
alloc_pages_lem d zero v pos = absurd (omega arith)
alloc_pages_lem d (suc zero) v pos = alloc_page-Allocated d v
alloc_pages_lem d (suc (suc n)) {s} v pos =
    let some_pages : (suc (suc n) == 0) ≡ false = ground arith in
    let many : (suc (suc n) == 1) ≡ false = ground arith in
    rw (some_pages, many)
      (allocated-from d (suc (suc n)) v (first_region (take_pages (suc (suc n))) s.regions) (
        first_region-Chosen (suc (suc n)) (take_pages (suc (suc n)))
          (λ r rv. take_pages-Tried rv (suc (suc n)) pos) s.regions v.regions))

-- a list with no free page has no free address
not_free_of_NoRun : (rs : List Region) (q : ℕ) → NoRun 1 rs → free_anywhere rs q ≡ false
unfolding free_anywhere
not_free_of_NoRun [] q no_run = refl
not_free_of_NoRun (r ∷ rs) q no_run = elim (Bool-cases (free_at r q)) [
  | inl free ↦ absurd (
      no_run.0 (page_of r q) (ground arith)
        (λ j lo hi. let e : page_of r q ≡ j = omega arith in rw e at (not_used free)))
  | inr used ↦ ground (arith, not_free_of_NoRun rs q no_run.1)
]
  where
    not_used : free_at r q ≡ true → has r.bitmap (page_of r q) ≡ false
    not_used free = ground arith

Granted-Allocated :
    (d : DirectMap) {s : Pmm} (q pa : ℕ) (s' : Pmm)
    → free_anywhere s.regions q ≡ true
    → Allocated d 1 s pa s'
    → Granted d 1 s pa s'
Granted-Allocated d {s} q pa s' free (none_left no_run e same) =
    cc (free, not_free_of_NoRun s.regions q no_run)
Granted-Allocated d q pa s' free (granted g) = g

-- In a valid state with a free page, pmm_alloc_page returns a page.
pub alloc_page_complete :
    (d : DirectMap) {s : Pmm} (q : ℕ)
    → IsValid s
    → free_anywhere s.regions q ≡ true
    → (pa : ℕ) × (s' : Pmm) × (alloc_page d s ≡ ok (pa, s')) × Granted d 1 s pa s'
alloc_page_complete d q v free =
    let (pa, s', run, a) = alloc_page-Allocated d v in
    (pa, s', run, Granted-Allocated d q pa s' free a)

-- what pmm_alloc_page comes to, with the place of the words that it clears
pub data AllocatedPage (d : DirectMap) (s : Pmm) (pa : ℕ) (s' : Pmm) : Type 0 where
  no_page :
      ((q : ℕ) → free_anywhere s.regions q ≡ false) → pa ≡ 0 → s' ≡ s → AllocatedPage d s pa s'
  one_page :
      Granted d 1 s pa s'
      → (at : ℕ) → StandsFor d pa at
      → s'.cleared ≡ (at, 512) ∷ s.cleared
      → AllocatedPage d s pa s'

-- In a valid state, where the direct map, if it is ready, ends at the top of the address space at
-- most and holds each free address, pmm_alloc_page returns: 0 with the state unchanged if no
-- address is free, and otherwise a page that was free, in a valid state in which exactly this
-- page is no longer free and the free counter is lower by one; 512 words were cleared from the
-- virtual address of this page on, which is its own address before the direct map is ready and
-- its place in the map afterwards.
pub alloc_page_lem :
    (d : DirectMap) {s : Pmm}
    → IsValid s
    → Covers d s.regions
    → (pa : ℕ) × (s' : Pmm) × (alloc_page d s ≡ ok (pa, s')) × AllocatedPage d s pa s'
alloc_page_lem d {s} v covers =
    let (pa, s', run, a) = alloc_page-Allocated d v in (pa, s', run, by_case pa s' a)
  where
    by_case : (pa : ℕ) (s' : Pmm) → Allocated d 1 s pa s' → AllocatedPage d s pa s'
    by_case pa s' (none_left no_run e same) =
        no_page (λ q. not_free_of_NoRun s.regions q no_run) e same
    by_case pa s' (granted g) =
        one_page g (clear_address d pa)
          (clear_address-StandsFor d pa covers.top
            (λ on. covers.low on pa (g.whole pa (ground arith)))
            (λ on.
              let last = covers.high on (pa + 4095) (g.whole (pa + 4095) (ground arith)) in
              omega (arith, last))
            (omega (arith, g.end)))
          g.words

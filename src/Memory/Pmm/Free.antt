-- ===== src/Memory/Pmm/Free.antt =====
-- `pmm_free_page` on every branch.
use proto_kernel.Prelude.{
  ℕ, ◌+◌, ◌*◌, ◌^◌, ◌≤◌, ◌<◌, ◌≡◌, refl, ◌∙◌, sym, ap, arith, true, false, ◌&&◌, Option, none, some,
  ltb, leb, if◌then◌else◌, get_elem?, set, ok, Bool-cases, inl, inr,
}
use proto_kernel.Bits.{u64, sub64}
use proto_kernel.Bitmap.Members.{has, remove, clear_bit-ok, test_bit-ok}
use proto_kernel.Memory.Pmm.{Region, Pmm, page_size, inside, find_region, free_in, free_page}
use proto_kernel.Memory.Pmm.Pages.{
  RegionValid, page_of, on_pages, gave, inside_lem, addr_to_page-ok, free_pages-lt, gave-valid,
  free_at-gave,
}
use proto_kernel.Memory.Pmm.Replace.{
  sum_free-le-total, AllValid, free_anywhere, Replace, Replace-set, Same, AllValid-Replace,
  sum_total-Replace, sum_free-Replace, valid_of, free_anywhere-inside, free_anywhere-Replace,
}
use proto_kernel.Memory.Pmm.Valid.{IsValid}
use proto_kernel.Memory.Pmm.Locate.{
  managed, page_start, in_use, Located, nowhere, located, find_region-Located, managed-Replace,
  page_start-Replace,
}

-- `s'` has the page of `pa` free beyond the free pages of `s`, and nothing else has changed.
pub record Released (s : Pmm) (pa : ℕ) (s' : Pmm) : Type 0 where
  pub valid : IsValid s'
  pub lo : page_start s.regions pa ≤ pa
  pub hi : pa < page_start s.regions pa + page_size
  pub after :
      (q : ℕ)
      → free_anywhere s'.regions q
        ≡ (if on_pages (page_start s.regions pa) 1 q then true else free_anywhere s.regions q)
  pub same_pages : (q : ℕ) → managed s'.regions q ≡ managed s.regions q
  pub same_starts : (q : ℕ) → page_start s'.regions q ≡ page_start s.regions q
  pub counts : s'.stats.free_pages ≡ s.stats.free_pages + 1
  pub words : s'.cleared ≡ s.cleared

-- What `pmm_free_page` may do: nothing, if the address is on no page or on a free one.
pub data Freed (s : Pmm) (pa : ℕ) (s' : Pmm) : Type 0 where
  ignored : in_use s.regions pa ≡ false → s' ≡ s → Freed s pa s'
  released : in_use s.regions pa ≡ true → Released s pa s' → Freed s pa s'

module _ {s : Pmm} (v : IsValid s) (pa i : ℕ) (r : Region) (e : get_elem? s.regions i ≡ some r)
    (on : inside r pa ≡ true) (below : page_of r pa < r.total_pages)
    (used : has r.bitmap (page_of r pa) ≡ true) where
  abbrev release : Pmm
  release = record s {
    regions = set s.regions i (gave r (page_of r pa));
    stats = record s.stats {
      free_pages = u64 (s.stats.free_pages + 1);
      allocated_pages = sub64 s.stats.allocated_pages 1;
    };
  }

  c : Replace r (gave r (page_of r pa)) s.regions (set s.regions i (gave r (page_of r pa)))
  c = Replace-set s.regions i r (gave r (page_of r pa)) e

  rv : RegionValid r
  rv = valid_of c v.regions

  same : Same r (gave r (page_of r pa))
  same = record { base = refl; size = refl; total = refl }

  all_valid : AllValid release.regions
  all_valid = AllValid-Replace same (gave-valid rv (page_of r pa) below used) c v.regions

  -- the region as the code leaves it
  gave_exact :
      record r { bitmap = remove r.bitmap (page_of r pa); free_pages = u64 (r.free_pages + 1) }
      ≡ gave r (page_of r pa)
  gave_exact =
      ap (λ (k : ℕ). record r { bitmap = remove r.bitmap (page_of r pa); free_pages = k })
        (omega (arith, free_pages-lt rv))

  free_grows : s.stats.free_pages + 1 < 2 ^ 64
  free_grows = omega (
    arith,
    v.free_sum,
    v.small,
    sum_free-Replace c,
    sum_total-Replace same c,
    sum_free-le-total release.regions all_valid,
  )

  release-IsValid : IsValid release
  release-IsValid = record {
    regions = all_valid;
    free_sum = omega (arith, free_grows, v.free_sum, sum_free-Replace c);
    total_sum = v.total_sum ∙ sym (sum_total-Replace same c);
    small = omega (arith, v.small, sum_total-Replace same c);
    balance = omega (arith, v.balance, free_grows);
  }

  base_le : r.base ≤ pa
  base_le = ground (arith, inside_lem rv pa)

  inside_of_on :
      (q : ℕ) → on_pages (r.base + page_of r pa * page_size) 1 q ≡ true → inside r q ≡ true
  inside_of_on q h = ground (arith, inside_lem rv q, rv.span, rv.pages)

  after_release :
      (q : ℕ)
      → free_anywhere release.regions q ≡ (
          if on_pages (r.base + page_of r pa * page_size) 1 q
          then true
          else free_anywhere s.regions q)
  after_release q = elim (Bool-cases (inside r q)) [
    | inl on' ↦ ground (
      arith,
      free_anywhere-Replace q same (gave-valid rv (page_of r pa) below used) c v.regions,
      free_anywhere-inside q c v.regions on',
      free_at-gave rv (page_of r pa) below q (ground (arith, inside_lem rv q)),
    )
    | inr off ↦ ground (
      arith,
      free_anywhere-Replace q same (gave-valid rv (page_of r pa) below used) c v.regions,
      inside_of_on q,
    )
  ]

  release-Released :
      page_start s.regions pa ≡ r.base + page_of r pa * page_size → Released s pa release
  release-Released start = record {
    valid = release-IsValid;
    lo = omega (arith, start, base_le);
    hi = omega (arith, start, base_le);
    after = λ q. rw start (after_release q);
    same_pages = λ q. managed-Replace same q c;
    same_starts = λ q. page_start-Replace same q c;
    counts = omega (arith, free_grows);
    words = refl;
  }

  free_in-release : pa < 2 ^ 64 → free_in pa i s ≡ ok release
  unfolding free_in
  free_in-release h =
      rw
        (
          e,
          addr_to_page-ok rv pa base_le h,
          inside_total,
          test_bit-ok r.bitmap (page_of r pa) (omega (arith, rv.room)),
          used,
          clear_bit-ok r.bitmap (page_of r pa) (omega (arith, rv.room)),
          gave_exact,
        )
        refl
    where
      inside_total : leb r.total_pages (page_of r pa) ≡ false
      inside_total = ground arith

-- The two early returns of `pmm_free_page` past the region's search.
free_in-ignored :
    {s : Pmm} (v : IsValid s) (pa i : ℕ) (r : Region)
    → get_elem? s.regions i ≡ some r
    → inside r pa ≡ true
    → pa < 2 ^ 64
    → (ltb (page_of r pa) r.total_pages && has r.bitmap (page_of r pa)) ≡ false
    → free_in pa i s ≡ ok s
unfolding free_in
free_in-ignored {s} v pa i r e on h idle = elim (Bool-cases (leb r.total_pages (page_of r pa))) [
  | inl out ↦ rw (e, addr_to_page-ok rv pa base_le h, out)
  | inr within ↦
      rw
        (
          e,
          addr_to_page-ok rv pa base_le h,
          within,
          test_bit-ok r.bitmap (page_of r pa) (ground (arith, rv.room)),
        )
        (let unused : has r.bitmap (page_of r pa) ≡ false = ground arith in rw unused)
]
  where
    rv : RegionValid r
    rv = valid_of (Replace-set s.regions i r r e) v.regions

    base_le : r.base ≤ pa
    base_le = ground (arith, inside_lem rv pa)

free_page-from :
    {s : Pmm} (v : IsValid s) (pa : ℕ) (o : Option ℕ)
    → pa < 2 ^ 64
    → find_region s.regions pa ≡ o
    → Located s.regions pa o
    → (s' : Pmm) × (free_page pa s ≡ ok s') × Freed s pa s'
unfolding free_page
free_page-from {s} v pa none h found (nowhere m f) =
    (s, rw (found, free_page), ignored (ground arith) refl)
free_page-from {s} v pa (some i) h found (located r e on m f start) =
    elim (Bool-cases (ltb (page_of r pa) r.total_pages && has r.bitmap (page_of r pa))) [
      | inl used ↦
          let below : page_of r pa < r.total_pages = ground arith in
          let bit_set : has r.bitmap (page_of r pa) ≡ true = ground arith in
          (
            release v pa i r e on below bit_set,
            rw (found, free_page) (free_in-release v pa i r e on below bit_set h),
            released (ground arith) (release-Released v pa i r e on below bit_set start),
          )
      | inr idle ↦ (
        s,
        rw (found, free_page) (free_in-ignored v pa i r e on h idle),
        ignored (ground arith) refl,
      )
    ]

-- In a valid state, for a 64-bit address, pmm_free_page returns: the state unchanged if the
-- address lies on no page in use, and otherwise a valid state in which exactly the page of the
-- address is free as well.
pub free_page_lem :
    {s : Pmm} (v : IsValid s) (pa : ℕ)
    → pa < 2 ^ 64
    → (s' : Pmm) × (free_page pa s ≡ ok s') × Freed s pa s'
free_page_lem {s} v pa h =
    free_page-from v pa (find_region s.regions pa) h refl (find_region-Located s.regions pa)

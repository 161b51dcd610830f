-- ===== src/Memory/Pmm/ReservePage.antt =====
-- `pmm_reserve_page`.
use proto_kernel.Prelude.{
  ℕ, ◌+◌, ◌-◌, ◌*◌, ◌/◌, ◌%◌, ◌^◌, ◌≤◌, ◌<◌, ◌≡◌, refl, ◌∙◌, sym, subst, arith, inl, inr, true,
  false, Option, none, some, List, [], ◌∷◌, ltb, ◌==◌, if◌then◌else◌, get_elem?, set, ok,
  Bool-cases,
}
use proto_kernel.Bits.{sub64}
use proto_kernel.Memory.Pmm.{Region, Stats, Pmm, page_size, inside, addr_to_page, find_region}
use proto_kernel.Memory.Pmm.Pages.{RegionValid, on_pages, page_of, inside_lem, addr_to_page-ok}
use proto_kernel.Memory.Pmm.Replace.{
  AllValid, sum_free, sum_total, sum_free-le-total, free_anywhere, free_anywhere-inside,
  free_anywhere-Replace, AllValid-Replace, sum_total-Replace, sum_free-Replace, Replace, here,
  there, Replace-set, valid_of,
}
use proto_kernel.Memory.Pmm.Valid.{IsValid}
use proto_kernel.Memory.Pmm.Locate.{
  page_start, managed, Located, nowhere, located, find_region-Located,
}
use proto_kernel.Memory.Pmm.Reserve.{page_base, reserve_in, reserve_page}
use proto_kernel.Memory.Pmm.ReserveRange.{Ready, Marked, reserve_bit-Marked}

-- `s'` is `s` with the page of `pa` not free.
pub record Withheld (s : Pmm) (pa : ℕ) (s' : Pmm) : Type 0 where
  pub valid : IsValid s'
  pub lo : page_start s.regions pa ≤ pa
  pub hi : pa < page_start s.regions pa + page_size
  pub after :
      (q : ℕ)
      → free_anywhere s'.regions q
        ≡ (if on_pages (page_start s.regions pa) 1 q then false else free_anywhere s.regions q)
  pub words : s'.cleared ≡ s.cleared

pub data PageReserved (s : Pmm) (pa : ℕ) (s' : Pmm) : Type 0 where
  no_page : managed s.regions pa ≡ false → s' ≡ s → PageReserved s pa s'
  withheld : managed s.regions pa ≡ true → Withheld s pa s' → PageReserved s pa s'

-- every region begins at a page boundary
abbrev pub Aligned : List Region → Type 0
Aligned [] = Unit
Aligned (r ∷ rs) = (r.base % page_size ≡ 0) × Aligned rs

Aligned-Replace :
    {r r' : Region} {rs rs' : List Region}
    → Replace r r' rs rs'
    → Aligned rs
    → r.base % page_size ≡ 0
Aligned-Replace here a = a.0
Aligned-Replace (there c) a = Aligned-Replace c a.1

-- the free pages of the other regions fit beside the whole of this one
others_free :
    {r r' : Region} {rs rs' : List Region}
    → Replace r r' rs rs'
    → AllValid rs
    → sum_free rs + r.total_pages ≤ sum_total rs + r.free_pages
others_free (here {rs = rs}) all = omega (arith, sum_free-le-total rs all.2)
others_free (there {x = x} c) all = omega (arith, others_free c all.2, all.0.counted)

free_pages-le :
    {r r' : Region} {rs rs' : List Region} → Replace r r' rs rs' → r.free_pages ≤ sum_free rs
free_pages-le here = omega arith
free_pages-le (there c) = omega (arith, free_pages-le c)

module _ {s : Pmm} (v : IsValid s) (pa i : ℕ) (r : Region) (e : get_elem? s.regions i ≡ some r)
    (on : inside r pa ≡ true) (small : pa < 2 ^ 64) (start : r.base % page_size ≡ 0) where
  rv : RegionValid r
  rv = valid_of (Replace-set s.regions i r r e) v.regions

  base_le : r.base ≤ pa
  base_le = ground (arith, inside_lem rv pa)

  -- with an aligned base the rounded address lies on the page of the address itself
  page_exact : addr_to_page r (page_base pa) ≡ page_of r pa
  page_exact =
      addr_to_page-ok rv (page_base pa) (omega (arith, base_le)) (omega arith)
      ∙ omega (arith, base_le)

  ready : Ready (sum_free s.regions - r.free_pages) r s.stats
  ready =
      let c = Replace-set s.regions i r r e in
      record {
        valid = rv;
        free = omega (arith, v.free_sum, free_pages-le c);
        bound = omega (arith, v.small, free_pages-le c, others_free c v.regions, rv.counted);
      }

  module _ (r' : Region) (t' : Stats)
      (m : Marked
        (λ j. page_of r pa == j)
        (sum_free s.regions - r.free_pages)
        r
        s.stats
        r'
        t') where
    c : Replace r r' s.regions (set s.regions i r')
    c = Replace-set s.regions i r r' e

    abbrev after : Pmm
    after = record s { regions = set s.regions i r'; stats = t' }

    after-IsValid : IsValid after
    after-IsValid = record {
      regions = AllValid-Replace m.same m.ready.valid c v.regions;
      free_sum = omega (arith, m.ready.free, sum_free-Replace c, free_pages-le c);
      total_sum = m.total ∙ v.total_sum ∙ sym (sum_total-Replace m.same c);
      small = omega (arith, v.small, sum_total-Replace m.same c);
      balance = m.balance ∙ v.balance ∙ sym m.total;
    }

    after_lem :
        (q : ℕ)
        → page_of r pa < r.total_pages
        → free_anywhere after.regions q ≡ (
            if on_pages (r.base + page_of r pa * page_size) 1 q
            then false
            else free_anywhere s.regions q)
    after_lem q below = elim (Bool-cases (inside r q)) [
      | inl on' ↦
          let same_page : (page_of r pa == page_of r q)
              ≡ on_pages (r.base + page_of r pa * page_size) 1 q =
            ground (arith, inside_lem rv q) in
          free_anywhere-Replace q m.same m.ready.valid c v.regions
          ∙ rw (on', m.same.base, m.same.total, free_anywhere-inside q c v.regions on')
              (ground (arith, m.bits (page_of r q), same_page))
      | inr off ↦ ground (
        arith,
        free_anywhere-Replace q m.same m.ready.valid c v.regions,
        inside_lem rv q,
        rv.span,
        rv.pages,
      )
    ]

    after-Withheld :
        page_of r pa < r.total_pages
        → page_start s.regions pa ≡ r.base + page_of r pa * page_size
        → Withheld s pa after
    after-Withheld below at = record {
      valid = after-IsValid;
      lo = omega (arith, at, base_le);
      hi = omega (arith, at, base_le);
      after = λ q. rw at (after_lem q below);
      words = refl;
    }

  reserve_in-PageReserved :
      managed s.regions pa ≡ ltb (page_of r pa) r.total_pages
      → page_start s.regions pa ≡ r.base + page_of r pa * page_size
      → (s' : Pmm) × (reserve_in pa i s ≡ ok s') × PageReserved s pa s'
  unfolding reserve_in
  reserve_in-PageReserved m at = elim (Bool-cases (ltb (page_of r pa) r.total_pages)) [
    | inl below ↦
        let (r', t', run, marked) =
          reserve_bit-Marked (page_of r pa) (sum_free s.regions - r.free_pages) r s.stats ready
            (ground arith) in
        (
          record s { regions = set s.regions i r'; stats = t' },
          rw (e, page_exact, below, run) refl,
          withheld (m ∙ below) (after-Withheld r' t' marked (ground arith) at),
        )
    | inr out ↦ (s, rw (e, page_exact, out) refl, no_page (m ∙ out) refl)
  ]

reserve_page-from :
    {s : Pmm} (v : IsValid s) (pa : ℕ) (o : Option ℕ)
    → pa < 2 ^ 64
    → Aligned s.regions
    → find_region s.regions pa ≡ o
    → Located s.regions pa o
    → (s' : Pmm) × (reserve_page pa s ≡ ok s') × PageReserved s pa s'
unfolding reserve_page
reserve_page-from {s} v pa none h a found (nowhere m f) =
    (s, rw (found, reserve_page) refl, no_page m refl)
reserve_page-from {s} v pa (some i) h a found (located r e on m f start) =
    let (s', run, p) =
      reserve_in-PageReserved v pa i r e on h (Aligned-Replace (Replace-set s.regions i r r e) a) m
        start in
    (s', rw (found, reserve_page) run, p)

-- In a valid state whose regions begin at page boundaries, for a 64-bit address, pmm_reserve_page
-- returns: the state unchanged if the address lies on no page, and otherwise a valid state in
-- which exactly the page of the address is not free any more.
pub reserve_page_lem :
    {s : Pmm} (pa : ℕ)
    → IsValid s
    → Aligned s.regions
    → pa < 2 ^ 64
    → (s' : Pmm) × (reserve_page pa s ≡ ok s') × PageReserved s pa s'
reserve_page_lem {s} pa v a h =
    reserve_page-from v pa (find_region s.regions pa) h a refl (find_region-Located s.regions pa)

-- If the first region is valid and the page boundary below an address of it lies before the base
-- of the region, pmm_reserve_page leaves the state unchanged.
pub reserve_page-unaligned :
    (s : Pmm) (r : Region) (rs : List Region) (pa : ℕ)
    → s.regions ≡ r ∷ rs
    → RegionValid r
    → inside r pa ≡ true
    → page_base pa < r.base
    → reserve_page pa s ≡ ok s
unfolding reserve_page reserve_in find_region addr_to_page
reserve_page-unaligned s r rs pa e v on h = rw (found, reserve_page) (rw (got, out) refl)
  where
    found : find_region s.regions pa ≡ some 0
    found = subst (λ l. find_region l pa ≡ some 0) (sym e) (rw on refl)

    got : get_elem? s.regions 0 ≡ some r
    got = subst (λ l. get_elem? l 0 ≡ some r) (sym e) refl

    out : ltb (sub64 (page_base pa) r.base / 2 ^ 12) r.total_pages ≡ false
    out = ground (arith, v.span, v.pages, inside_lem v pa)

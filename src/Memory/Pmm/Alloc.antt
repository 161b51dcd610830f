-- ===== src/Memory/Pmm/Alloc.antt =====
-- `pmm_alloc_page` and `pmm_alloc_pages`: the first free run of the first region that has one.
use mathlib.Core.Option
use proto_kernel.Prelude.{
  ℕ, zero, suc, ◌+◌, ◌*◌, ◌≤◌, ◌<◌, ◌≡◌, refl, ap, arith, Option, none, some, List, [], ◌∷◌, leb,
  length, Outcome, ok,
}
use proto_kernel.Bits.{u64, sub64}
use proto_kernel.Bitmap.{Bitmap}
use proto_kernel.Bitmap.Members.{add, set_bit-ok, length-add}
use proto_kernel.Bitmap.Ranges.{add_range}
use proto_kernel.Bitmap.Search.{
  AllSet, AllClear, FirstClear, FirstRun, scan, scan_run, scan-FirstClear, scan_run-FirstRun,
}
use proto_kernel.Memory.Pmm.{
  Region, page_size, page_to_addr, take_page, take_pages, set_pages, first_region,
}
use proto_kernel.Memory.Pmm.Pages.{
  RegionValid, took, page_to_addr-ok, free_pages-lt, n-le-free_pages,
}
use proto_kernel.Memory.Pmm.Replace.{AllValid, Replace, here, there}

-- what the search of one region for `count` free pages comes to
pub data Tried (count : ℕ) (r : Region) : Option (ℕ × Region) → Type 0 where
  refused : FirstRun r.bitmap count r.total_pages none → Tried count r none
  found :
      {pa : ℕ} {r' : Region} (page : ℕ)
      → page + count ≤ r.total_pages
      → AllClear r.bitmap page (page + count)
      → pa ≡ r.base + page * page_size
      → r' ≡ took r page count
      → Tried count r (some (pa, r'))

no_run_of_AllSet : (bitmap : Bitmap) (hi : ℕ) → AllSet bitmap 0 hi → FirstRun bitmap 1 hi none
no_run_of_AllSet bitmap hi all s h clear =
    cc (all s (omega arith) (omega arith), clear s (omega arith) (omega arith))

set_pages-ok :
    (bitmap : Bitmap) (left j : ℕ)
    → j + left ≤ 64 * length bitmap
    → set_pages bitmap left j ≡ ok (add_range bitmap j left)
unfolding set_pages add_range
set_pages-ok bitmap zero j fits = refl
set_pages-ok bitmap (suc left) j fits =
    rw (set_bit-ok bitmap j (omega arith))
      (set_pages-ok (add bitmap j) left (j + 1) (omega (arith, length-add bitmap j)))

module _ {r : Region} (v : RegionValid r) where
  -- the region as the code leaves it
  same_region :
      (page n : ℕ)
      → page + n ≤ r.total_pages
      → AllClear r.bitmap page (page + n)
      → record r { bitmap = add_range r.bitmap page n; free_pages = sub64 r.free_pages n }
        ≡ took r page n
  same_region page n fits clear =
      ap (λ (k : ℕ). record r { bitmap = add_range r.bitmap page n; free_pages = k })
        (omega (arith, n-le-free_pages v page n fits clear, free_pages-lt v))

  take_page-from :
      (o : Option ℕ)
      → scan r.bitmap r.total_pages 0 ≡ ok o
      → FirstClear r.bitmap 0 r.total_pages o
      → (o : Option (ℕ × Region)) × (take_page r ≡ ok o) × Tried 1 r o
  unfolding take_page add_range
  take_page-from none run all =
      (none, rw run, refused (no_run_of_AllSet r.bitmap r.total_pages all))
  take_page-from (some p) run (lo, hi, clear, before) = (
    some (
      page_to_addr r p,
      record r { bitmap = add_range r.bitmap p 1; free_pages = sub64 r.free_pages 1 },
    ),
    rw (run, set_bit-ok r.bitmap p (omega (arith, v.room))) refl,
    found p (omega arith) one (page_to_addr-ok v p hi) (same_region p 1 (omega arith) one),
  )
    where
      one : AllClear r.bitmap p (p + 1)
      one j q h = let e : p ≡ j = omega arith in rw e at clear

  pub take_page-Tried : (o : Option (ℕ × Region)) × (take_page r ≡ ok o) × Tried 1 r o
  take_page-Tried =
      let (o, run, first) =
        scan-FirstClear r.bitmap r.total_pages 0 r.total_pages (omega arith) v.room in
      take_page-from o run first

  take_pages-from :
      (count : ℕ) (o : Option ℕ)
      → 0 < count
      → scan_run r.bitmap count
          (λ start. leb (u64 (start + count)) r.total_pages)
          r.total_pages
          0
          0
          0
        ≡ ok o
      → FirstRun r.bitmap count r.total_pages o
      → (o : Option (ℕ × Region)) × (take_pages count r ≡ ok o) × Tried count r o
  unfolding take_pages
  take_pages-from count none pos run none_free = (none, rw run, refused none_free)
  take_pages-from count (some p) pos run (fits, clear, before) = (
    some (
      page_to_addr r p,
      record r { bitmap = add_range r.bitmap p count; free_pages = sub64 r.free_pages count },
    ),
    rw (run, set_pages-ok r.bitmap count p (omega (arith, v.room))) refl,
    found p fits clear (page_to_addr-ok v p (omega arith)) (same_region p count fits clear),
  )

  pub take_pages-Tried :
      (count : ℕ)
      → 0 < count
      → (o : Option (ℕ × Region)) × (take_pages count r ≡ ok o) × Tried count r o
  take_pages-Tried count pos =
      let (o, run, first) =
        scan_run-FirstRun r.bitmap count (λ start. leb (u64 (start + count)) r.total_pages)
          r.total_pages pos v.room (λ p h. ground (arith, v.span, v.pages)) in
      take_pages-from count o pos run first

-- no region of the list has a free run of `count` pages
abbrev pub NoRun : ℕ → List Region → Type 0
NoRun count [] = Unit
NoRun count (r ∷ rs) = FirstRun r.bitmap count r.total_pages none × NoRun count rs

pub data Chosen (count : ℕ) (rs : List Region) : Option (ℕ × List Region) → Type 0 where
  nowhere : NoRun count rs → Chosen count rs none
  chosen :
      {pa : ℕ} {rs' : List Region} (r : Region) (page : ℕ)
      → Replace r (took r page count) rs rs'
      → page + count ≤ r.total_pages
      → AllClear r.bitmap page (page + count)
      → pa ≡ r.base + page * page_size
      → Chosen count rs (some (pa, rs'))

Chosen-there :
    (count : ℕ) (r : Region) (rs : List Region) (o : Option (ℕ × List Region))
    → FirstRun r.bitmap count r.total_pages none
    → Chosen count rs o
    → Chosen count (r ∷ rs) (Option.map (λ (pa, rs'). (pa, r ∷ rs')) o)
Chosen-there count r rs none no_run (nowhere rest) = nowhere (no_run, rest)
Chosen-there count r rs (some (pa, rs')) no_run (chosen r1 page c fits clear e) =
    chosen r1 page (there c) fits clear e

module _ (count : ℕ) (try : Region → Outcome (Option (ℕ × Region)))
    (tried : (r : Region)
      → RegionValid r
      → (o : Option (ℕ × Region)) × (try r ≡ ok o) × Tried count r o) where
  first_region-from :
      (r : Region) (rs : List Region) (o : Option (ℕ × Region))
      → try r ≡ ok o
      → Tried count r o
      → (o : Option (ℕ × List Region)) × (first_region try rs ≡ ok o) × Chosen count rs o
      → (o : Option (ℕ × List Region)) × (first_region try (r ∷ rs) ≡ ok o)
        × Chosen count (r ∷ rs) o
  unfolding first_region
  first_region-from r rs none run (refused no_run) (o, rest, c) = (
    Option.map (λ (pa, rs'). (pa, r ∷ rs')) o,
    rw (run, rest),
    Chosen-there count r rs o no_run c,
  )
  first_region-from r rs (some (pa, r')) run (found page fits clear e same) rest =
      (some (pa, r' ∷ rs), rw run, chosen r page (rw same here) fits clear e)

  pub first_region-Chosen :
      (rs : List Region)
      → AllValid rs
      → (o : Option (ℕ × List Region)) × (first_region try rs ≡ ok o) × Chosen count rs o
  unfolding first_region
  first_region-Chosen [] all = (none, refl, nowhere tt)
  first_region-Chosen (r ∷ rs) all =
      let (o, run, t) = tried r all.0 in
      first_region-from r rs o run t (first_region-Chosen rs all.2)

-- ===== src/Memory/Pmm/ReserveRegion.antt =====
-- `pmm_reserve_region` on the list of regions and on the state.
use proto_kernel.Prelude.{
  ℕ, ◌+◌, ◌^◌, ◌<◌, ◌≡◌, refl, ◌∙◌, sym, arith, inl, inr, not, ◌&&◌, List, [], ◌∷◌, ok, Bool-cases,
}
use proto_kernel.Bits.{u64}
use proto_kernel.Memory.Pmm.{Region, Stats, Pmm, inside}
use proto_kernel.Memory.Pmm.Pages.{RegionValid, inside_lem}
use proto_kernel.Memory.Pmm.Replace.{
  Apart, AllValid, sum_free, sum_total, free_anywhere, Same, inside-Same, sum_free-le-total,
}
use proto_kernel.Memory.Pmm.Valid.{IsValid}
use proto_kernel.Memory.Pmm.Locate.{page_start, managed}
use proto_kernel.Memory.Pmm.Reserve.{reserve_all, reserve_region}
use proto_kernel.Memory.Pmm.ReserveRange.{pages_in, Ready}
use proto_kernel.Memory.Pmm.ReserveOverlap.{touched, Reserved, reserve_overlap-Reserved}

-- two lists of regions that differ in their bitmaps and counts alone
data SameAll : List Region → List Region → Type 0 where
  nil : SameAll [] []
  cons :
      {r r' : Region} {rs rs' : List Region}
      → Same r r'
      → SameAll rs rs'
      → SameAll (r ∷ rs) (r' ∷ rs')

Apart-SameAll :
    {x x' : Region} {rs rs' : List Region} → Same x x' → SameAll rs rs' → Apart x rs → Apart x' rs'
Apart-SameAll same nil apart = tt
Apart-SameAll same (cons e c) apart =
    (omega (arith, same.base, same.size, e.base, e.size, apart.0), Apart-SameAll same c apart.1)

page_start-SameAll :
    {rs rs' : List Region} (q : ℕ) → SameAll rs rs' → page_start rs' q ≡ page_start rs q
unfolding page_start inside
page_start-SameAll q nil = refl
page_start-SameAll q (cons e c) = rw (e.base, e.size, page_start-SameAll q c) refl

managed-SameAll : {rs rs' : List Region} (q : ℕ) → SameAll rs rs' → managed rs' q ≡ managed rs q
unfolding managed inside
managed-SameAll q nil = refl
managed-SameAll q (cons e c) = rw (e.base, e.size, e.total, managed-SameAll q c) refl

-- `rs'` is `rs` without the free pages that the range touches; `before` are the free pages of the
-- regions before them.
record ReservedAll (base end before : ℕ) (rs : List Region) (t : Stats) (rs' : List Region)
    (t' : Stats) : Type 0 where
  valid : AllValid rs'
  same : SameAll rs rs'
  free : t'.free_pages ≡ before + sum_free rs'
  sums : sum_total rs' ≡ sum_total rs
  at :
      (q : ℕ)
      → free_anywhere rs' q ≡ (free_anywhere rs q && not (touched base end (page_start rs q)))
  balance : pages_in t' ≡ pages_in t
  total : t'.total_pages ≡ t.total_pages

module _ (base end before : ℕ) (r : Region) (rs : List Region) (t : Stats) (r' : Region)
    (t1 : Stats) (rs' : List Region) (t' : Stats) (valid : RegionValid r)
    (a : Reserved base end (before + sum_free rs) r t r' t1)
    (b : ReservedAll base end (before + r'.free_pages) rs t1 rs' t') where
  at-cons :
      (q : ℕ)
      → free_anywhere (r' ∷ rs') q
        ≡ (free_anywhere (r ∷ rs) q && not (touched base end (page_start (r ∷ rs) q)))
  unfolding free_anywhere page_start
  at-cons q = elim (Bool-cases (inside r q)) [
    | inl on ↦ rw (inside-Same a.same q, on) (a.at q (ground (arith, inside_lem valid q)))
    | inr off ↦ rw (inside-Same a.same q, off) (b.at q)
  ]

  ReservedAll-cons : Apart r rs → ReservedAll base end before (r ∷ rs) t (r' ∷ rs') t'
  ReservedAll-cons apart = record {
    valid = (a.ready.valid, Apart-SameAll a.same b.same apart, b.valid);
    same = cons a.same b.same;
    free = omega (arith, b.free);
    sums = omega (arith, b.sums, a.same.total);
    at = at-cons;
    balance = b.balance ∙ a.balance;
    total = b.total ∙ a.total;
  }

reserve_all-ReservedAll :
    (base end before : ℕ) (rs : List Region) (t : Stats)
    → AllValid rs
    → t.free_pages ≡ before + sum_free rs
    → before + sum_total rs < 2 ^ 64
    → (rs' : List Region) × (t' : Stats) × (reserve_all base end rs t ≡ ok (rs', t'))
      × ReservedAll base end before rs t rs' t'
unfolding reserve_all free_anywhere page_start
reserve_all-ReservedAll base end before [] t all free small = (
  [],
  t,
  refl,
  record {
    valid = tt;
    same = nil;
    free = free;
    sums = refl;
    at = λ q. refl;
    balance = refl;
    total = refl;
  },
)
reserve_all-ReservedAll base end before (r ∷ rs) t all free small =
    let w : Ready (before + sum_free rs) r t = record {
      valid = all.0;
      free = omega (arith, free);
      bound = omega (arith, small, sum_free-le-total rs all.2);
    } in
    let (r', t1, run, a) = reserve_overlap-Reserved base end (before + sum_free rs) r t w in
    let (rs', t', rest, b) =
      reserve_all-ReservedAll base end (before + r'.free_pages) rs t1 all.2
        (omega (arith, a.ready.free)) (omega (arith, a.ready.valid.counted, a.same.total, small)) in
    (
      r' ∷ rs',
      t',
      rw (run, rest) refl,
      ReservedAll-cons base end before r rs t r' t1 rs' t' all.0 a b all.1,
    )

-- `s'` is `s` without the free pages that `[base, base + size)` touches.
pub record Withdrawn (base size : ℕ) (s s' : Pmm) : Type 0 where
  pub valid : IsValid s'
  pub at :
      (q : ℕ)
      → free_anywhere s'.regions q
        ≡ (free_anywhere s.regions q && not (touched base (base + size) (page_start s.regions q)))
  pub starts : (q : ℕ) → page_start s'.regions q ≡ page_start s.regions q
  pub same_pages : (q : ℕ) → managed s'.regions q ≡ managed s.regions q
  pub words : s'.cleared ≡ s.cleared

-- In a valid state, for a range that does not wrap past 2^64, pmm_reserve_region returns in a
-- valid state in which an address is free exactly if it was free before and the range does not
-- touch its page.
pub reserve_region_lem :
    {s : Pmm} (base size : ℕ)
    → IsValid s
    → base + size < 2 ^ 64
    → (s' : Pmm) × (reserve_region base size s ≡ ok s') × Withdrawn base size s s'
unfolding reserve_region
reserve_region_lem {s} base size v h =
    let exact : u64 (base + size) ≡ base + size = omega arith in
    let (rs', t', run, b) =
      reserve_all-ReservedAll base (base + size) 0 s.regions s.stats v.regions
        (omega (arith, v.free_sum)) (omega (arith, v.small)) in
    (
      record s { regions = rs'; stats = t' },
      rw (exact, run) refl,
      record {
        valid = record {
          regions = b.valid;
          free_sum = omega (arith, b.free);
          total_sum = b.total ∙ v.total_sum ∙ sym b.sums;
          small = omega (arith, b.sums, v.small);
          balance = b.balance ∙ v.balance ∙ sym b.total;
        };
        at = b.at;
        starts = λ q. page_start-SameAll q b.same;
        same_pages = λ q. managed-SameAll q b.same;
        words = refl;
      },
    )

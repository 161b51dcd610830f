-- ===== src/Memory/Pmm/ReserveOverlap.antt =====
-- `pmm_reserve_region` on one region: the pages between the bounds that the code computes are those
-- that the range touches.
use proto_kernel.Prelude.{
  ℕ, ◌+◌, ◌-◌, ◌*◌, ◌≤◌, ◌<◌, ◌≡◌, refl, arith, inl, inr, Bool, true, false, not, ◌&&◌, ◌||◌, ltb,
  leb, if◌then◌else◌, ok, Bool-cases,
}
use proto_kernel.Bits.{u64}
use proto_kernel.Bitmap.Ranges.{within}
use proto_kernel.Memory.Pmm.{Region, Stats, page_size, addr_to_page}
use proto_kernel.Memory.Pmm.Pages.{free_at, page_of, addr_to_page-ok}
use proto_kernel.Memory.Pmm.Replace.{Same}
use proto_kernel.Memory.Pmm.Reserve.{reserve_overlap}
use proto_kernel.Memory.Pmm.ReserveRange.{pages_in, Ready, Marked, reserve_bits-Marked}

-- the page that begins at `start` shares an address with `[base, end)`, or holds `base` if the
-- range is empty
abbrev pub touched : ℕ → ℕ → ℕ → Bool
touched base end start = ltb base (start + page_size) && ltb start end

-- `r'` is `r` without the free pages that the range touches.
pub record Reserved (base end rest : ℕ) (r : Region) (t : Stats) (r' : Region) (t' : Stats)
    : Type 0 where
  pub ready : Ready rest r' t'
  pub same : Same r r'
  pub at :
      (q : ℕ)
      → r.base ≤ q
      → free_at r' q ≡ (free_at r q && not (touched base end (r.base + page_of r q * page_size)))
  pub balance : pages_in t' ≡ pages_in t
  pub total : t'.total_pages ≡ t.total_pages

module _ (base end rest : ℕ) (r : Region) (t : Stats) (w : Ready rest r t) where
  region_end : u64 (r.base + r.size) ≡ r.base + r.size
  region_end = omega (arith, w.valid.span)

  Reserved-nothing :
      (leb end r.base || leb (r.base + r.size) base) ≡ true → Reserved base end rest r t r t
  Reserved-nothing apart = record {
    ready = w;
    same = record { base = refl; size = refl; total = refl };
    at = λ q lo. ground (arith, w.valid.pages);
    balance = refl;
    total = refl;
  }

  Reserved-within :
      (page left : ℕ) (r' : Region) (t' : Stats)
      → ((j : ℕ)
          → j < r.total_pages
          → within page left j ≡ touched base end (r.base + j * page_size))
      → Marked (within page left) rest r t r' t'
      → Reserved base end rest r t r' t'
  Reserved-within page left r' t' iff m = record {
    ready = m.ready;
    same = m.same;
    at = λ q lo.
        rw (m.same.base, m.same.total) (ground (arith, m.bits (page_of r q), iff (page_of r q)));
    balance = m.balance;
    total = m.total;
  }

  -- the bounds of the loop, as the code computes them
  abbrev overlap_start : ℕ
  overlap_start = if ltb r.base base then base else r.base

  abbrev overlap_end : ℕ
  overlap_end = if ltb end (r.base + r.size) then end else r.base + r.size

  abbrev last : ℕ
  last = page_of r (overlap_end + 4095)

  abbrev end_page : ℕ
  end_page = if ltb r.total_pages last then r.total_pages else last

  module _ (over : (leb end r.base || leb (r.base + r.size) base) ≡ false) where
    start_exact : addr_to_page r overlap_start ≡ page_of r overlap_start
    start_exact =
        addr_to_page-ok w.valid overlap_start (ground arith) (ground (arith, w.valid.span))

    last_exact : addr_to_page r (u64 (overlap_end + 4095)) ≡ last
    last_exact =
        let small : u64 (overlap_end + 4095) ≡ overlap_end + 4095 = ground (arith, w.valid.span) in
        rw small (
          addr_to_page-ok w.valid (overlap_end + 4095) (ground arith)
            (ground (arith, w.valid.span)))

    fits : page_of r overlap_start + (end_page - page_of r overlap_start) ≤ r.total_pages
    fits = ground (arith, w.valid.pages)

    iff :
        (j : ℕ)
        → j < r.total_pages
        → within (page_of r overlap_start) (end_page - page_of r overlap_start) j
          ≡ touched base end (r.base + j * page_size)
    iff j h = ground (arith, w.valid.pages)

  pub reserve_overlap-Reserved :
      (r' : Region) × (t' : Stats) × (reserve_overlap base end (r, t) ≡ ok (r', t'))
      × Reserved base end rest r t r' t'
  unfolding reserve_overlap
  reserve_overlap-Reserved = elim (Bool-cases (leb end r.base || leb (r.base + r.size) base)) [
    | inl apart ↦ (r, t, rw (region_end, apart), Reserved-nothing apart)
    | inr over ↦
        let left = end_page - page_of r overlap_start in
        let (r', t', run, m) =
          reserve_bits-Marked left (page_of r overlap_start) rest r t w (fits over) in
        (
          r',
          t',
          rw (region_end, over, start_exact over, last_exact over) run,
          Reserved-within (page_of r overlap_start) left r' t' (iff over) m,
        )
  ]

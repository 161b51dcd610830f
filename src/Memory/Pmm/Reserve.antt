-- ===== src/Memory/Pmm/Reserve.antt =====
-- `pmm_reserve_region` and `pmm_reserve_page`.
use proto_kernel.Prelude.{
  ℕ, zero, suc, ◌+◌, ◌-◌, ◌*◌, ◌/◌, not, ◌||◌, none, some, List, [], ◌∷◌, ltb, leb, if◌then◌else◌,
  get_elem?, set, Outcome, ok, ◌>>=◌, in_bounds,
}
use proto_kernel.Bits.{u64, sub64}
use proto_kernel.Bitmap.{set_bit, test_bit}
use proto_kernel.Memory.Pmm.{Region, Stats, Pmm, page_size, addr_to_page, find_region}

-- One page marked reserved, if it was free, in a region and the counters.
unfoldable pub reserve_bit : ℕ → Region × Stats → Outcome (Region × Stats)
reserve_bit page (r, t) = do
  used ← test_bit r.bitmap page
  if used then ok (r, t) else do
    bitmap ← set_bit r.bitmap page
    ok (
      record r { bitmap = bitmap; free_pages = sub64 r.free_pages 1 },
      record t { free_pages = sub64 t.free_pages 1; reserved_pages = u64 (t.reserved_pages + 1) },
    )

-- `for (page = start_page; page < end_page; page++)`
unfoldable pub reserve_bits : (left page : ℕ) → Region × Stats → Outcome (Region × Stats)
reserve_bits zero page w = ok w
reserve_bits (suc left) page w = do w ← reserve_bit page w; reserve_bits left (page + 1) w

unfoldable pub reserve_overlap : ℕ → ℕ → Region × Stats → Outcome (Region × Stats)
reserve_overlap base end (r, t) =
    let region_end = u64 (r.base + r.size) in
    if leb end r.base || leb region_end base
    then ok (r, t)
    else (let overlap_start = if ltb r.base base then base else r.base in
        let overlap_end = if ltb end region_end then end else region_end in
        let start_page = addr_to_page r overlap_start in
        let last = addr_to_page r (u64 (overlap_end + 4095)) in
        let end_page = if ltb r.total_pages last then r.total_pages else last in
        reserve_bits (end_page - start_page) start_page (r, t))

unfoldable pub reserve_all : ℕ → ℕ → List Region → Stats → Outcome (List Region × Stats)
reserve_all base end [] t = ok ([], t)
reserve_all base end (r ∷ rs) t = do
  (r', t) ← reserve_overlap base end (r, t)
  (rs', t) ← reserve_all base end rs t
  ok (r' ∷ rs', t)

unfoldable pub reserve_region : ℕ → ℕ → Pmm → Outcome Pmm
reserve_region base size s = do
  (rs, t) ← reserve_all base (u64 (base + size)) s.regions s.stats
  ok (record s { regions = rs; stats = t })

-- `pa & ~(PMM_PAGE_SIZE - 1)`
abbrev pub page_base : ℕ → ℕ
page_base pa = pa / page_size * page_size

unfoldable pub reserve_in : ℕ → ℕ → Pmm → Outcome Pmm
reserve_in pa i s = do
  r ← in_bounds (get_elem? s.regions i)
  let page = addr_to_page r (page_base pa)
  if not (ltb page r.total_pages) then ok s else do
    (r', t) ← reserve_bit page (r, s.stats)
    ok (record s { regions = set s.regions i r'; stats = t })

unfoldable pub reserve_page : ℕ → Pmm → Outcome Pmm
reserve_page pa s = elim (find_region s.regions pa) [ none ↦ ok s | some i ↦ reserve_in pa i s ]

-- ===== src/Memory/Pmm/Queries.antt =====
-- The queries of pmm.c.
use proto_kernel.Prelude.{
  ℕ, ◌+◌, ◌^◌, ◌≤◌, ◌<◌, ◌≡◌, refl, ◌∙◌, sym, subst, ap, arith, inl, inr, Bool, true, false, not,
  Option, none, some, List, [], ◌∷◌, ltb, if◌then◌else◌, get_elem?, Outcome, ok, ◌>>=◌, in_bounds,
  Bool-cases,
}
use proto_kernel.Bits.{u64}
use proto_kernel.Bitmap.{test_bit}
use proto_kernel.Bitmap.Members.{test_bit-ok}
use proto_kernel.Memory.Pmm.{Region, Pmm, addr_to_page, find_region, inside}
use proto_kernel.Memory.Pmm.Pages.{RegionValid, free_at, page_of, inside_lem, addr_to_page-ok}
use proto_kernel.Memory.Pmm.Replace.{AllValid, free_anywhere, Replace-set, valid_of}
use proto_kernel.Memory.Pmm.Valid.{IsValid}
use proto_kernel.Memory.Pmm.Locate.{Located, nowhere, located, find_region-Located}

unfoldable pub available_in : ℕ → ℕ → Pmm → Outcome Bool
available_in pa i s = do
  r ← in_bounds (get_elem? s.regions i)
  let page = addr_to_page r pa
  if not (ltb page r.total_pages) then ok false else do used ← test_bit r.bitmap page; ok (not used)

unfoldable pub is_available : ℕ → Pmm → Outcome Bool
is_available pa s = elim (find_region s.regions pa) [
  | none ↦ ok false
  | some i ↦ available_in pa i s
]

unfoldable pub lowest : ℕ → List Region → ℕ
lowest start [] = start
lowest start (r ∷ rs) = lowest (if ltb r.base start then r.base else start) rs

unfoldable pub get_memory_start : Pmm → ℕ
get_memory_start s = elim s.regions [ [] ↦ 0 | r ∷ rs ↦ lowest r.base rs ]

unfoldable pub highest : ℕ → List Region → ℕ
highest end [] = end
highest end (r ∷ rs) =
    let region_end = u64 (r.base + r.size) in
    highest (if ltb end region_end then region_end else end) rs

unfoldable pub get_memory_end : Pmm → ℕ
get_memory_end s = elim s.regions [ [] ↦ 0 | r ∷ rs ↦ highest (u64 (r.base + r.size)) rs ]

available_in-ok :
    {s : Pmm} (v : IsValid s) (pa i : ℕ) (r : Region)
    → get_elem? s.regions i ≡ some r
    → inside r pa ≡ true
    → pa < 2 ^ 64
    → available_in pa i s ≡ ok (free_at r pa)
unfolding available_in
available_in-ok {s} v pa i r e on h = elim (Bool-cases (ltb (page_of r pa) r.total_pages)) [
  | inl within ↦
      rw
        (
          e,
          addr_to_page-ok rv pa base_le h,
          within,
          test_bit-ok r.bitmap (page_of r pa) (ground (arith, rv.room)),
        )
        refl
  | inr out ↦ rw (e, addr_to_page-ok rv pa base_le h, out) refl
]
  where
    rv : RegionValid r
    rv = valid_of (Replace-set s.regions i r r e) v.regions

    base_le : r.base ≤ pa
    base_le = ground (arith, inside_lem rv pa)

is_available-from :
    {s : Pmm} (v : IsValid s) (pa : ℕ) (o : Option ℕ)
    → pa < 2 ^ 64
    → find_region s.regions pa ≡ o
    → Located s.regions pa o
    → is_available pa s ≡ ok (free_anywhere s.regions pa)
unfolding is_available
is_available-from v pa none h found (nowhere m f) = rw (found, is_available, f) refl
is_available-from v pa (some i) h found (located r e on m f start) =
    rw (found, is_available) (available_in-ok v pa i r e on h ∙ ap ok (sym f))

-- In a valid state, for a 64-bit address, pmm_is_available returns whether the address lies on a
-- free page.
pub is_available_lem :
    {s : Pmm} (v : IsValid s) (pa : ℕ)
    → pa < 2 ^ 64
    → is_available pa s ≡ ok (free_anywhere s.regions pa)
is_available_lem {s} v pa h =
    is_available-from v pa (find_region s.regions pa) h refl (find_region-Located s.regions pa)

-- every region of the list lies in `[lo, hi)`
abbrev pub Within : ℕ → ℕ → List Region → Type 0
Within lo hi [] = Unit
Within lo hi (r ∷ rs) = (lo ≤ r.base) × (r.base + r.size ≤ hi) × Within lo hi rs

lowest-le : (start : ℕ) (rs : List Region) → lowest start rs ≤ start
unfolding lowest
lowest-le start [] = omega arith
lowest-le start (r ∷ rs) = ground (arith, lowest-le (if ltb r.base start then r.base else start) rs)

le-highest : (end : ℕ) (rs : List Region) → end ≤ highest end rs
unfolding highest
le-highest end [] = omega arith
le-highest end (r ∷ rs) =
    let region_end = u64 (r.base + r.size) in
    ground (arith, le-highest (if ltb end region_end then region_end else end) rs)

Within-bounds :
    (start end : ℕ) (rs : List Region) → AllValid rs → Within (lowest start rs) (highest end rs) rs
unfolding lowest highest
Within-bounds start end [] all = tt
Within-bounds start end (r ∷ rs) all =
    let region_end = u64 (r.base + r.size) in
    let lo = if ltb r.base start then r.base else start in
    let hi = if ltb end region_end then region_end else end in
    (
      ground (arith, lowest-le lo rs),
      ground (arith, le-highest hi rs, all.0.span),
      Within-bounds lo hi rs all.2,
    )

memory_bounds_of :
    (rs : List Region) (s : Pmm)
    → s.regions ≡ rs
    → AllValid rs
    → Within (get_memory_start s) (get_memory_end s) rs
unfolding get_memory_start get_memory_end
memory_bounds_of [] s e all = tt
memory_bounds_of (r ∷ rs) s e all =
    subst (λ a. Within a (get_memory_end s) (r ∷ rs)) (sym start)
      (subst (λ b. Within (lowest r.base rs) b (r ∷ rs)) (sym end)
        (
          lowest-le r.base rs,
          ground (arith, le-highest (u64 (r.base + r.size)) rs, all.0.span),
          Within-bounds r.base (u64 (r.base + r.size)) rs all.2,
        ))
  where
    start : get_memory_start s ≡ lowest r.base rs
    start = rw e refl

    end : get_memory_end s ≡ highest (u64 (r.base + r.size)) rs
    end = rw e refl

-- In a valid state every region lies between the addresses that pmm_get_memory_start and
-- pmm_get_memory_end return.
pub memory_bounds : {s : Pmm} → IsValid s → Within (get_memory_start s) (get_memory_end s) s.regions
memory_bounds {s} v = memory_bounds_of s.regions s refl v.regions

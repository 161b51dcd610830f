-- ===== src/Memory/Pmm/Locate.antt =====
-- The region that `pmm_find_region` finds, and the page of an address in it.
use mathlib.Core.Option
use proto_kernel.Prelude.{
  ℕ, suc, ◌+◌, ◌*◌, ◌≡◌, refl, ap, arith, Bool, true, false, not, ◌&&◌, Option, none, some, List,
  [], ◌∷◌, ltb, if◌then◌else◌, get_elem?, Bool-cases, inl, inr,
}
use proto_kernel.Memory.Pmm.{Region, page_size, inside, find_region}
use proto_kernel.Memory.Pmm.Pages.{page_of, free_at}
use proto_kernel.Memory.Pmm.Replace.{
  AllValid, not_inside, free_anywhere, Replace, here, there, Same,
}

-- `q` lies on a whole page of the first region that contains it
unfoldable pub managed : List Region → ℕ → Bool
managed [] q = false
managed (r ∷ rs) q = if inside r q then ltb (page_of r q) r.total_pages else managed rs q

-- where that page begins
unfoldable pub page_start : List Region → ℕ → ℕ
page_start [] q = 0
page_start (r ∷ rs) q = if inside r q then r.base + page_of r q * page_size else page_start rs q

-- `q` lies on a page in use
abbrev pub in_use : List Region → ℕ → Bool
in_use rs q = managed rs q && not (free_anywhere rs q)

pub managed_of_free : (rs : List Region) (q : ℕ) → free_anywhere rs q ≡ true → managed rs q ≡ true
unfolding free_anywhere managed
managed_of_free [] q free = free
managed_of_free (r ∷ rs) q free = ground (arith, managed_of_free rs q)

module _ {r r' : Region} (same : Same r r') where
  pub managed-Replace :
      {rs rs' : List Region} (q : ℕ) → Replace r r' rs rs' → managed rs' q ≡ managed rs q
  unfolding managed inside
  managed-Replace q here = rw (same.base, same.size, same.total) refl
  managed-Replace q (there {x = x} c) =
      ap (λ (t : Bool). if inside x q then ltb (page_of x q) x.total_pages else t)
        (managed-Replace q c)

  pub page_start-Replace :
      {rs rs' : List Region} (q : ℕ) → Replace r r' rs rs' → page_start rs' q ≡ page_start rs q
  unfolding page_start inside
  page_start-Replace q here = rw (same.base, same.size) refl
  page_start-Replace q (there {x = x} c) =
      ap (λ (t : ℕ). if inside x q then x.base + page_of x q * page_size else t)
        (page_start-Replace q c)

pub page_start-inside :
    {r r' : Region} {rs rs' : List Region} (q : ℕ)
    → Replace r r' rs rs'
    → AllValid rs
    → inside r q ≡ true
    → page_start rs q ≡ r.base + page_of r q * page_size
unfolding page_start
page_start-inside q here all on = rw on
page_start-inside q (there {x = x} c) all on =
    rw (not_inside x q c all.2 all.0 all.1 on) (page_start-inside q c all.2 on)

-- What the index says of the address.
pub data Located (rs : List Region) (q : ℕ) : Option ℕ → Type 0 where
  nowhere : managed rs q ≡ false → free_anywhere rs q ≡ false → Located rs q none
  located :
      {i : ℕ} (r : Region)
      → get_elem? rs i ≡ some r
      → inside r q ≡ true
      → managed rs q ≡ ltb (page_of r q) r.total_pages
      → free_anywhere rs q ≡ free_at r q
      → page_start rs q ≡ r.base + page_of r q * page_size
      → Located rs q (some i)

Located-there :
    (r : Region) (rs : List Region) (q : ℕ) (o : Option ℕ)
    → inside r q ≡ false
    → Located rs q o
    → Located (r ∷ rs) q (Option.map suc o)
unfolding managed free_anywhere page_start
Located-there r rs q none off (nowhere m f) = nowhere (rw off m) (rw off f)
Located-there r rs q (some i) off (located r1 e on m f p) =
    located r1 e on (rw off m) (rw off f) (rw off p)

pub find_region-Located : (rs : List Region) (q : ℕ) → Located rs q (find_region rs q)
unfolding find_region managed free_anywhere page_start
find_region-Located [] q = nowhere refl refl
find_region-Located (r ∷ rs) q = elim (Bool-cases (inside r q)) [
  | inl on ↦ rw on (located r refl on (rw on) (rw on) (rw on))
  | inr off ↦ rw off (Located-there r rs q (find_region rs q) off (find_region-Located rs q))
]

-- ===== src/Memory/Pmm/Replace.antt =====
-- One region of the list replaced by a changed one: what that does to the sums, to the invariant
-- and to the addresses that are free.
use mathlib.Core.Option.{some-injective}
use proto_kernel.Prelude.{
  ℕ, zero, suc, ◌+◌, ◌≤◌, ◌≡◌, refl, ◌⊎◌, inl, inr, arith, Bool, true, false, List, [], ◌∷◌, some,
  if◌then◌else◌, ◌∙◌, Bool-cases, ap, subst, get_elem?, set,
}
use proto_kernel.Memory.Pmm.{Region, inside}
use proto_kernel.Memory.Pmm.Pages.{RegionValid, free_at, inside_lem}

-- the region shares no address with one of the list
abbrev pub Apart : Region → List Region → Type 0
Apart r [] = Unit
Apart r (x ∷ rs) = ((r.base + r.size ≤ x.base) ⊎ (x.base + x.size ≤ r.base)) × Apart r rs

abbrev pub AllValid : List Region → Type 0
AllValid [] = Unit
AllValid (r ∷ rs) = RegionValid r × Apart r rs × AllValid rs

abbrev pub sum_free : List Region → ℕ
sum_free [] = 0
sum_free (r ∷ rs) = r.free_pages + sum_free rs

abbrev pub sum_total : List Region → ℕ
sum_total [] = 0
sum_total (r ∷ rs) = r.total_pages + sum_total rs

pub sum_free-le-total : (rs : List Region) → AllValid rs → sum_free rs ≤ sum_total rs
sum_free-le-total [] all = omega arith
sum_free-le-total (r ∷ rs) all = omega (arith, all.0.counted, sum_free-le-total rs all.2)

-- `q` lies on a free page of the first region that contains it
unfoldable pub free_anywhere : List Region → ℕ → Bool
free_anywhere [] q = false
free_anywhere (r ∷ rs) q = if inside r q then free_at r q else free_anywhere rs q

pub data Replace (r r' : Region) : List Region → List Region → Type 0 where
  here : {rs : List Region} → Replace r r' (r ∷ rs) (r' ∷ rs)
  there :
      {x : Region} {rs rs' : List Region} → Replace r r' rs rs' → Replace r r' (x ∷ rs) (x ∷ rs')

pub Replace-set :
    (rs : List Region) (i : ℕ) (r r' : Region)
    → get_elem? rs i ≡ some r
    → Replace r r' rs (set rs i r')
Replace-set [] i r r' e = cc e
Replace-set (x ∷ rs) zero r r' e =
    subst (λ y. Replace y r' (x ∷ rs) (r' ∷ rs)) (some-injective x r e) here
Replace-set (x ∷ rs) (suc i) r r' e = there (Replace-set rs i r r' e)

-- what a change of a region leaves alone
pub record Same (r r' : Region) : Type 0 where
  pub base : r'.base ≡ r.base
  pub size : r'.size ≡ r.size
  pub total : r'.total_pages ≡ r.total_pages

module _ {r r' : Region} (same : Same r r') where
  Apart-left : (rs : List Region) → Apart r rs → Apart r' rs
  Apart-left [] apart = tt
  Apart-left (x ∷ rs) apart = (omega (arith, same.base, same.size, apart.0), Apart-left rs apart.1)

  Apart-right : {rs rs' : List Region} (x : Region) → Replace r r' rs rs' → Apart x rs → Apart x rs'
  Apart-right x here apart = (omega (arith, same.base, same.size, apart.0), apart.1)
  Apart-right x (there c) apart = (apart.0, Apart-right x c apart.1)

  pub AllValid-Replace :
      {rs rs' : List Region} → RegionValid r' → Replace r r' rs rs' → AllValid rs → AllValid rs'
  AllValid-Replace v (here {rs = rs}) all = (v, Apart-left rs all.1, all.2)
  AllValid-Replace v (there {x = x} c) all =
      (all.0, Apart-right x c all.1, AllValid-Replace v c all.2)

  pub sum_total-Replace :
      {rs rs' : List Region} → Replace r r' rs rs' → sum_total rs' ≡ sum_total rs
  sum_total-Replace here = omega (arith, same.total)
  sum_total-Replace (there c) = omega (arith, sum_total-Replace c)

  pub inside-Same : (q : ℕ) → inside r' q ≡ inside r q
  unfolding inside
  inside-Same q = rw (same.base, same.size) refl

module _ {r r' : Region} where
  pub sum_free-Replace :
      {rs rs' : List Region}
      → Replace r r' rs rs'
      → sum_free rs' + r.free_pages ≡ sum_free rs + r'.free_pages
  sum_free-Replace here = omega arith
  sum_free-Replace (there c) = omega (arith, sum_free-Replace c)

  pub valid_of : {rs rs' : List Region} → Replace r r' rs rs' → AllValid rs → RegionValid r
  valid_of here all = all.0
  valid_of (there c) all = valid_of c all.2

  back : {rs rs' : List Region} → Replace r r' rs rs' → Replace r' r rs' rs
  back here = here
  back (there c) = there (back c)

  -- A region apart from the list holds no address of the region that is in the list.
  pub not_inside :
      {rs rs' : List Region} (x : Region) (q : ℕ)
      → Replace r r' rs rs'
      → AllValid rs
      → RegionValid x
      → Apart x rs
      → inside r q ≡ true
      → inside x q ≡ false
  not_inside x q here all v apart on = ground (arith, inside_lem v q, inside_lem all.0 q, apart.0)
  not_inside x q (there c) all v apart on = not_inside x q c all.2 v apart.1 on

  pub free_anywhere-inside :
      {rs rs' : List Region} (q : ℕ)
      → Replace r r' rs rs'
      → AllValid rs
      → inside r q ≡ true
      → free_anywhere rs q ≡ free_at r q
  unfolding free_anywhere
  free_anywhere-inside q here all on = rw on
  free_anywhere-inside q (there {x = x} c) all on =
      rw (not_inside x q c all.2 all.0 all.1 on) (free_anywhere-inside q c all.2 on)

  free_anywhere-outside :
      {rs rs' : List Region} (q : ℕ)
      → Replace r r' rs rs'
      → inside r q ≡ false
      → inside r' q ≡ false
      → free_anywhere rs' q ≡ free_anywhere rs q
  unfolding free_anywhere
  free_anywhere-outside q here off off' = rw (off, off')
  free_anywhere-outside q (there {x = x} c) off off' =
      ap (λ (t : Bool). if inside x q then free_at x q else t) (free_anywhere-outside q c off off')

-- Only the addresses of the changed region are affected.
pub free_anywhere-Replace :
    {r r' : Region} {rs rs' : List Region} (q : ℕ)
    → Same r r'
    → RegionValid r'
    → Replace r r' rs rs'
    → AllValid rs
    → free_anywhere rs' q ≡ (if inside r q then free_at r' q else free_anywhere rs q)
free_anywhere-Replace {r} {r'} q same v c all = elim (Bool-cases (inside r q)) [
  | inl on ↦
      rw on
        (free_anywhere-inside q (back c) (AllValid-Replace same v c all) (inside-Same same q ∙ on))
  | inr off ↦ rw off (free_anywhere-outside q c off (inside-Same same q ∙ off))
]

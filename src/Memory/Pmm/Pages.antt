-- ===== src/Memory/Pmm/Pages.antt =====
-- One region of pmm.c: its invariant, which addresses lie on free pages, and the two changes that
-- the operations make to it.
use proto_kernel.Prelude.{
  ℕ, ◌+◌, ◌-◌, ◌*◌, ◌/◌, ◌^◌, ◌≤◌, ◌<◌, ◌≡◌, arith, Bool, true, false, not, ◌&&◌, ltb, leb,
  if◌then◌else◌, length,
}
use proto_kernel.Bitmap.Members.{has, remove, has-remove, length-remove}
use proto_kernel.Bitmap.Count.{members, members-le, members-remove}
use proto_kernel.Bitmap.Ranges.{add_range, length-add_range, has-add_range, members-add_range}
use proto_kernel.Bitmap.Search.{AllClear}
use proto_kernel.Memory.Pmm.{Region, page_size, inside, addr_to_page, page_to_addr}

pub record RegionValid (r : Region) : Type 0 where
  pub span : r.base + r.size + page_size ≤ 2 ^ 64
  pub pages : r.total_pages ≡ r.size / page_size
  pub room : r.total_pages ≤ 64 * length r.bitmap
  pub counted : r.free_pages + members r.bitmap r.total_pages ≡ r.total_pages

abbrev pub page_of : Region → ℕ → ℕ
page_of r q = (q - r.base) / page_size

-- `q` lies on a whole page of the region that is not in use
abbrev pub free_at : Region → ℕ → Bool
free_at r q = ltb (page_of r q) r.total_pages && not (has r.bitmap (page_of r q))

-- `q` lies on one of the `n` pages from `pa` on
abbrev pub on_pages : ℕ → ℕ → ℕ → Bool
on_pages pa n q = leb pa q && ltb q (pa + n * page_size)

abbrev pub took : Region → ℕ → ℕ → Region
took r page n = record r { bitmap = add_range r.bitmap page n; free_pages = r.free_pages - n }

abbrev pub gave : Region → ℕ → Region
gave r page = record r { bitmap = remove r.bitmap page; free_pages = r.free_pages + 1 }

module _ {r : Region} (v : RegionValid r) where
  pub inside_lem : (q : ℕ) → inside r q ≡ (leb r.base q && ltb q (r.base + r.size))
  unfolding inside
  inside_lem q = ground (arith, v.span)

  pub addr_to_page-ok : (q : ℕ) → r.base ≤ q → q < 2 ^ 64 → addr_to_page r q ≡ page_of r q
  unfolding addr_to_page
  addr_to_page-ok q lo hi = omega arith

  pub page_to_addr-ok :
      (page : ℕ) → page < r.total_pages → page_to_addr r page ≡ r.base + page * page_size
  unfolding page_to_addr
  page_to_addr-ok page h = omega (arith, v.span, v.pages)

  pub free_pages-lt : r.free_pages < 2 ^ 52
  free_pages-lt = omega (arith, v.span, v.pages, v.counted)

  module _ (page n : ℕ) (fits : page + n ≤ r.total_pages) where
    pub took-valid : AllClear r.bitmap page (page + n) → RegionValid (took r page n)
    took-valid clear = record {
      span = v.span;
      pages = v.pages;
      room = omega (arith, length-add_range r.bitmap page n, v.room);
      counted = omega (
        arith,
        v.counted,
        members-add_range r.bitmap page n r.total_pages fits v.room clear,
        members-le (add_range r.bitmap page n) r.total_pages,
      );
    }

    pub n-le-free_pages : AllClear r.bitmap page (page + n) → n ≤ r.free_pages
    n-le-free_pages clear = omega (
      arith,
      v.counted,
      members-add_range r.bitmap page n r.total_pages fits v.room clear,
      members-le (add_range r.bitmap page n) r.total_pages,
    )

    pub free_at-took :
        (q : ℕ)
        → r.base ≤ q
        → free_at (took r page n) q
          ≡ (if on_pages (r.base + page * page_size) n q then false else free_at r q)
    free_at-took q lo =
        ground (arith, has-add_range r.bitmap page n (page_of r q) (omega (arith, v.room)))

    -- each of the pages was free before
    pub free_at_before :
        (q : ℕ)
        → AllClear r.bitmap page (page + n)
        → on_pages (r.base + page * page_size) n q ≡ true
        → free_at r q ≡ true
    free_at_before q clear on = ground (arith, clear (page_of r q) (ground arith) (ground arith))

  module _ (page : ℕ) (below : page < r.total_pages) where
    pub gave-valid : has r.bitmap page ≡ true → RegionValid (gave r page)
    gave-valid used = record {
      span = v.span;
      pages = v.pages;
      room = omega (arith, length-remove r.bitmap page, v.room);
      counted = omega (
        arith,
        v.counted,
        members-remove r.bitmap page r.total_pages (omega (arith, v.room)) below used,
      );
    }

    pub free_at-gave :
        (q : ℕ)
        → r.base ≤ q
        → free_at (gave r page) q
          ≡ (if on_pages (r.base + page * page_size) 1 q then true else free_at r q)
    free_at-gave q lo =
        ground (arith, has-remove r.bitmap page (omega (arith, v.room)) (page_of r q))

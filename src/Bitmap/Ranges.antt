-- ===== src/Bitmap/Ranges.antt =====
-- A range of bits set or cleared one after the other.
use proto_kernel.Prelude.{
  ℕ, zero, suc, ◌+◌, ◌*◌, ◌≤◌, ◌≡◌, refl, ◌∙◌, arith, Bool, true, false, ◌&&◌, ltb, leb,
  if◌then◌else◌, length,
}
use proto_kernel.Bitmap.{Bitmap}
use proto_kernel.Bitmap.Members.{has, add, remove, has-add, has-remove, length-add, length-remove}
use proto_kernel.Bitmap.Search.{AllClear}
use proto_kernel.Bitmap.Count.{members, members-add}

abbrev pub within : ℕ → ℕ → ℕ → Bool
within lo n j = leb lo j && ltb j (lo + n)

unfoldable pub add_range : Bitmap → ℕ → ℕ → Bitmap
add_range bitmap lo zero = bitmap
add_range bitmap lo (suc n) = add_range (add bitmap lo) (lo + 1) n

unfoldable pub remove_range : Bitmap → ℕ → ℕ → Bitmap
remove_range bitmap lo zero = bitmap
remove_range bitmap lo (suc n) = remove_range (remove bitmap lo) (lo + 1) n

pub length-add_range : (bitmap : Bitmap) (lo n : ℕ) → length (add_range bitmap lo n) ≡ length bitmap
unfolding add_range
length-add_range bitmap lo zero = refl
length-add_range bitmap lo (suc n) =
    length-add_range (add bitmap lo) (lo + 1) n ∙ length-add bitmap lo

pub length-remove_range :
    (bitmap : Bitmap) (lo n : ℕ) → length (remove_range bitmap lo n) ≡ length bitmap
unfolding remove_range
length-remove_range bitmap lo zero = refl
length-remove_range bitmap lo (suc n) =
    length-remove_range (remove bitmap lo) (lo + 1) n ∙ length-remove bitmap lo

pub has-add_range :
    (bitmap : Bitmap) (lo n j : ℕ)
    → lo + n ≤ 64 * length bitmap
    → has (add_range bitmap lo n) j ≡ (if within lo n j then true else has bitmap j)
unfolding add_range
has-add_range bitmap lo zero j h = ground arith
has-add_range bitmap lo (suc n) j h = ground (
  arith,
  length-add bitmap lo,
  has-add_range (add bitmap lo) (lo + 1) n j,
  has-add bitmap lo (omega arith) j,
)

pub has-remove_range :
    (bitmap : Bitmap) (lo n j : ℕ)
    → lo + n ≤ 64 * length bitmap
    → has (remove_range bitmap lo n) j ≡ (if within lo n j then false else has bitmap j)
unfolding remove_range
has-remove_range bitmap lo zero j h = ground arith
has-remove_range bitmap lo (suc n) j h = ground (
  arith,
  length-remove bitmap lo,
  has-remove_range (remove bitmap lo) (lo + 1) n j,
  has-remove bitmap lo (omega arith) j,
)

pub members-add_range :
    (bitmap : Bitmap) (lo n top : ℕ)
    → lo + n ≤ top
    → top ≤ 64 * length bitmap
    → AllClear bitmap lo (lo + n)
    → members (add_range bitmap lo n) top ≡ members bitmap top + n
unfolding add_range
members-add_range bitmap lo zero top h k free = omega arith
members-add_range bitmap lo (suc n) top h k free = ground (
  arith,
  members-add bitmap lo top (omega arith) (omega arith) (free lo (omega arith) (omega arith)),
  members-add_range (add bitmap lo) (lo + 1) n top (omega arith)
      (omega (arith, length-add bitmap lo))
      (λ j p q.
        ground (arith, has-add bitmap lo (omega arith) j, free j (omega arith) (omega arith))),
)

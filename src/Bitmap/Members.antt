-- ===== src/Bitmap/Members.antt =====
-- A bitmap as a set of numbers, and what the three operations do to the set.
use Prim.Native.Nat.{bit_and, bit_or}
use proto_kernel.Prelude.{
  ℕ, ◌*◌, ◌/◌, ◌%◌, ◌<◌, ◌≡◌, ap, arith, Bool, true, false, ◌==◌, if◌then◌else◌, length, get_or,
  set, length-set, get_elem?-eq-get_or, get_or-set, get_elem?-eq-none, ok, fault, ◌≤◌,
}
use proto_kernel.Bits.{bit, one_shl, complement}
use proto_kernel.Bits.Digits.{
  bit-lt_two, one_shl-lt, bit-bit_and, bit-bit_or, bit-one_shl, bit-complement, bit_and-one_shl_iff,
}
use proto_kernel.Bitmap.{Bitmap, set_bit, clear_bit, test_bit}

unfoldable pub has : Bitmap → ℕ → Bool
has bitmap b = bit (b % 64) (get_or bitmap (b / 64) 0) == 1

abbrev pub Fits : Bitmap → ℕ → Type 0
Fits bitmap b = b < 64 * length bitmap

unfoldable pub add : Bitmap → ℕ → Bitmap
add bitmap b = set bitmap (b / 64) (bit_or (get_or bitmap (b / 64) 0) (one_shl (b % 64)))

unfoldable pub remove : Bitmap → ℕ → Bitmap
remove bitmap b =
    set bitmap (b / 64) (bit_and (get_or bitmap (b / 64) 0) (complement (one_shl (b % 64))))

module _ (bitmap : Bitmap) (b : ℕ) where
  pub length-add : length (add bitmap b) ≡ length bitmap
  unfolding add
  length-add = length-set bitmap (b / 64) _

  pub length-remove : length (remove bitmap b) ≡ length bitmap
  unfolding remove
  length-remove = length-set bitmap (b / 64) _

  module _ (fits : Fits bitmap b) where
    pub set_bit-ok : set_bit bitmap b ≡ ok (add bitmap b)
    unfolding set_bit add
    set_bit-ok = rw (get_elem?-eq-get_or bitmap (b / 64) 0 (omega arith))

    pub clear_bit-ok : clear_bit bitmap b ≡ ok (remove bitmap b)
    unfolding clear_bit remove
    clear_bit-ok = rw (get_elem?-eq-get_or bitmap (b / 64) 0 (omega arith))

    pub test_bit-ok : test_bit bitmap b ≡ ok (has bitmap b)
    unfolding test_bit has
    test_bit-ok = rw (get_elem?-eq-get_or bitmap (b / 64) 0 (omega arith)) (
        ap ok (
          ground (
            arith,
            bit_and-one_shl_iff (get_or bitmap (b / 64) 0) (b % 64),
            bit-lt_two (b % 64) (get_or bitmap (b / 64) 0),
          )))

    -- what a write of the word that holds `b` makes of the set
    has-set :
        (v j : ℕ)
        → has (set bitmap (b / 64) v) j
          ≡ (if b / 64 == j / 64 then bit (j % 64) v == 1 else has bitmap j)
    unfolding has
    has-set v j = ground (arith, get_or-set bitmap (b / 64) (j / 64) v 0)

    pub has-add : (j : ℕ) → has (add bitmap b) j ≡ (if b == j then true else has bitmap j)
    unfolding add has
    has-add j =
        let w = get_or bitmap (b / 64) 0 in
        ground (
          arith,
          has-set (bit_or w (one_shl (b % 64))) j,
          bit-bit_or (j % 64) w (one_shl (b % 64)),
          bit-one_shl (j % 64) (b % 64),
          bit-lt_two (j % 64) w,
        )

    pub has-remove : (j : ℕ) → has (remove bitmap b) j ≡ (if b == j then false else has bitmap j)
    unfolding remove has
    has-remove j =
        let w = get_or bitmap (b / 64) 0 in
        ground (
          arith,
          has-set (bit_and w (complement (one_shl (b % 64)))) j,
          bit-bit_and (j % 64) w (complement (one_shl (b % 64))),
          bit-complement (j % 64) (one_shl (b % 64)) (omega arith)
              (one_shl-lt (b % 64) (omega arith)),
          bit-one_shl (j % 64) (b % 64),
          bit-lt_two (j % 64) w,
        )

-- An access past the last word is a fault.
pub clear_bit-fault :
    (bitmap : Bitmap) (b : ℕ) → 64 * length bitmap ≤ b → clear_bit bitmap b ≡ fault
unfolding clear_bit
clear_bit-fault bitmap b h = rw (get_elem?-eq-none bitmap (b / 64) (omega arith))

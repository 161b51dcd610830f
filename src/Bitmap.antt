-- ===== src/Bitmap.antt =====
-- Bitmaps of 64-bit words, as kernel/irq/irq_alloc.c and kernel/memory/pmm.c keep them: bit `b` is
-- bit `b % 64` of word `b / 64`. An access past the last word is a fault.
pub mod Members
pub mod Search
pub mod Count
pub mod Ranges
use Prim.Native.Nat.{bit_and, bit_or}
use proto_kernel.Prelude.{
  ℕ, ◌/◌, ◌%◌, Bool, not, List, ◌==◌, get_elem?, set, Outcome, ok, ◌>>=◌, in_bounds,
}
use proto_kernel.Bits.{one_shl, complement}

abbrev pub Bitmap : Type 0
Bitmap = List ℕ

unfoldable pub set_bit : Bitmap → ℕ → Outcome Bitmap
set_bit bitmap b = do
  w ← in_bounds (get_elem? bitmap (b / 64))
  ok (set bitmap (b / 64) (bit_or w (one_shl (b % 64))))

unfoldable pub clear_bit : Bitmap → ℕ → Outcome Bitmap
clear_bit bitmap b = do
  w ← in_bounds (get_elem? bitmap (b / 64))
  ok (set bitmap (b / 64) (bit_and w (complement (one_shl (b % 64)))))

unfoldable pub test_bit : Bitmap → ℕ → Outcome Bool
test_bit bitmap b = do
  w ← in_bounds (get_elem? bitmap (b / 64))
  ok (not (bit_and w (one_shl (b % 64)) == 0))

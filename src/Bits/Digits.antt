-- ===== src/Bits/Digits.antt =====
-- What `|`, `&`, `~` and a shifted one do to each bit.
use Prim.Native.Nat.{bit_and, bit_or, digits, bit_and-bitwise, bit_or-bitwise}
use native.Mathlib.Nat.{two-pow-succ, pow-le-pow_right}
use native.Mathlib.Decide.{ℕ_discrete}
use proto_kernel.Prelude.{
  ℕ, zero, suc, ◌-◌, ◌/◌, ◌%◌, ◌^◌, ◌≤◌, ◌<◌, min, max, ◌≡◌, refl, sym, ◌↔◌, ◌∙◌, ap, arith, ◌==◌,
  if◌then◌else◌,
}
use proto_kernel.Bits.{bit, one_shl, complement}

pub bit-lt_two : (i w : ℕ) → bit i w < 2
bit-lt_two zero w = omega arith
bit-lt_two (suc i) w = bit-lt_two i (w / 2)

pub bit-zero : (i : ℕ) → bit i 0 ≡ 0
bit-zero zero = refl
bit-zero (suc i) = bit-zero i

zero_of_bits_below : (n a : ℕ) → a ≤ n → ((i : ℕ) → bit i a ≡ 0) → a ≡ 0
zero_of_bits_below zero a h z = omega arith
zero_of_bits_below (suc n) a h z =
    omega (arith, z 0, zero_of_bits_below n (a / 2) (omega (arith, z 0)) (λ i. z (suc i)))

pub zero_of_bits : (a : ℕ) → ((i : ℕ) → bit i a ≡ 0) → a ≡ 0
zero_of_bits a = zero_of_bits_below a a (omega arith)

-- An operation that the native numbers define digit by digit acts on each bit.
module _ (z : ℕ → ℕ) (f : ℕ → ℕ → ℕ) (small : (x y : ℕ) → x < 2 → y < 2 → f x y < 2)
    (rest : (i b : ℕ) → bit i (z b) ≡ f 0 (bit i b)) where
  bit-digits : (i n a b : ℕ) → a ≤ n → bit i (digits z f n a b) ≡ f (bit i a) (bit i b)
  bit-digits i zero zero b h = rest i b ∙ ap (λ x. f x (bit i b)) (sym (bit-zero i))
  bit-digits i zero (suc a) b h = absurd (omega arith)
  bit-digits i (suc n) zero b h = rest i b ∙ ap (λ x. f x (bit i b)) (sym (bit-zero i))
  bit-digits zero (suc n) (suc a) b h =
      omega (arith, small (suc a % 2) (b % 2) (omega arith) (omega arith))
  bit-digits (suc i) (suc n) (suc a) b h =
      ap (bit i) (omega (arith, small (suc a % 2) (b % 2) (omega arith) (omega arith)))
      ∙ bit-digits i n (suc a / 2) (b / 2) (omega arith)

pub bit-bit_and : (i a b : ℕ) → bit i (bit_and a b) ≡ min (bit i a) (bit i b)
bit-bit_and i a b =
    ap (bit i) (bit_and-bitwise a b)
    ∙ bit-digits (λ b. 0) min (λ x y p q. omega arith) (λ i b. omega (arith, bit-zero i)) i a a b
        (omega arith)

pub bit-bit_or : (i a b : ℕ) → bit i (bit_or a b) ≡ max (bit i a) (bit i b)
bit-bit_or i a b =
    ap (bit i) (bit_or-bitwise a b)
    ∙ bit-digits (λ b. b) max (λ x y p q. omega arith) (λ i b. omega arith) i a a b (omega arith)

pub bit-one_shl : (i k : ℕ) → bit i (one_shl k) ≡ (if i == k then 1 else 0)
bit-one_shl zero zero = refl
bit-one_shl zero (suc k) = ground (arith, two-pow-succ k)
bit-one_shl (suc i) zero = ground (arith, bit-zero i)
bit-one_shl (suc i) (suc k) = ap (bit i) half ∙ ground (arith, bit-one_shl i k)
  where
    half : 2 ^ suc k / 2 ≡ 2 ^ k
    half = omega (arith, two-pow-succ k)

pub one_shl-lt : (k : ℕ) → k < 64 → one_shl k < 2 ^ 64
one_shl-lt k h =
    omega (arith, pow-le-pow_right {n = 2} (omega arith) {i = k} {j = 63} (omega arith))

-- `n` ones less `x` has the other digit at each place below `n`.
pub bit-ones-sub : (i n x : ℕ) → i < n → x < 2 ^ n → bit i (2 ^ n - 1 - x) ≡ 1 - bit i x
bit-ones-sub i zero x p q = absurd (omega arith)
bit-ones-sub zero (suc n) x p q = omega (arith, two-pow-succ n)
bit-ones-sub (suc i) (suc n) x p q =
    ap (bit i) half ∙ bit-ones-sub i n (x / 2) (omega arith) (omega (arith, two-pow-succ n))
  where
    half : (2 ^ suc n - 1 - x) / 2 ≡ 2 ^ n - 1 - x / 2
    half = omega (arith, two-pow-succ n)

pub bit-complement : (i x : ℕ) → i < 64 → x < 2 ^ 64 → bit i (complement x) ≡ 1 - bit i x
bit-complement i x = bit-ones-sub i 64 x

-- The C test of one bit, `(w & (1UL << k)) != 0`.
pub bit_and-one_shl_iff : (w k : ℕ) → (bit_and w (one_shl k) ≡ 0) ↔ (bit k w ≡ 0)
bit_and-one_shl_iff w k = (
  λ e. ground (
    arith,
    ap (bit k) e,
    bit-bit_and k w (one_shl k),
    bit-one_shl k k,
    bit-zero k,
    bit-lt_two k w,
  ),
  λ e. zero_of_bits _ (other e),
)
  where
    other : bit k w ≡ 0 → (i : ℕ) → bit i (bit_and w (one_shl k)) ≡ 0
    other e i = elim (ℕ_discrete i k) [
      | yes same ↦ ground (arith, bit-bit_and i w (one_shl k), ap (λ j. bit j w) same)
      | no ne ↦ ground (arith, bit-bit_and i w (one_shl k), bit-one_shl i k)
    ]

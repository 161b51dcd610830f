-- ===== src/Bits/Align.antt =====
-- Rounding down to a power of two, `x & ~(2^k - 1)`.
use Prim.Native.Nat.{bit_and, bit_or}
use native.Mathlib.Nat.{two-pow-succ, pow-le-pow_right, mul_assoc, add-mul, div-eq_of_lt-le}
use proto_kernel.Prelude.{
  ℕ, zero, suc, ◌+◌, ◌-◌, ◌*◌, ◌/◌, ◌%◌, ◌^◌, ◌≤◌, ◌<◌, min, max, ◌≡◌, refl, sym, ◌∙◌, ap, arith,
}
use proto_kernel.Bits.{bit, complement}
use proto_kernel.Bits.Digits.{bit-bit_and, bit-bit_or, zero_of_bits, bit-zero}

eq_of_bits_below : (n a b : ℕ) → a ≤ n → ((i : ℕ) → bit i a ≡ bit i b) → a ≡ b
eq_of_bits_below zero a b h e =
    let za : a ≡ 0 = omega arith in
    za ∙ sym (zero_of_bits b (λ i. sym (e i) ∙ ap (bit i) za ∙ bit-zero i))
eq_of_bits_below (suc n) a b h e =
    omega (arith, e 0, eq_of_bits_below n (a / 2) (b / 2) (omega arith) (λ i. e (suc i)))

eq_of_bits : (a b : ℕ) → ((i : ℕ) → bit i a ≡ bit i b) → a ≡ b
eq_of_bits a b = eq_of_bits_below a a b (omega arith)

bit_and-halves : (a b : ℕ) → bit_and a b ≡ bit_and (a / 2) (b / 2) * 2 + min (a % 2) (b % 2)
bit_and-halves a b =
    eq_of_bits (bit_and a b) (bit_and (a / 2) (b / 2) * 2 + min (a % 2) (b % 2)) same
  where
    half : (bit_and (a / 2) (b / 2) * 2 + min (a % 2) (b % 2)) / 2 ≡ bit_and (a / 2) (b / 2)
    half = omega arith

    same : (i : ℕ) → bit i (bit_and a b) ≡ bit i (bit_and (a / 2) (b / 2) * 2 + min (a % 2) (b % 2))
    same zero = omega (arith, bit-bit_and 0 a b)
    same (suc i) =
        bit-bit_and (suc i) a b ∙ sym (bit-bit_and i (a / 2) (b / 2)) ∙ sym (ap (bit i) half)

-- `x` rounded down to a multiple of `2^k`
abbrev pub down : ℕ → ℕ → ℕ
down zero x = x
down (suc k) x = down k (x / 2) * 2

bit_and-mask : (k n x : ℕ) → k ≤ n → x < 2 ^ n → bit_and x (2 ^ n - 2 ^ k) ≡ down k x
bit_and-mask zero zero x le h = let z : x ≡ 0 = omega arith in rw z refl
bit_and-mask zero (suc n) x le h =
    let half : (2 ^ suc n - 1) / 2 ≡ 2 ^ n - 1 = omega (arith, two-pow-succ n) in
    let rest = bit_and-mask zero n (x / 2) (omega arith) (omega (arith, two-pow-succ n)) in
    bit_and-halves x (2 ^ suc n - 1) ∙ rw (half, rest) (omega (arith, two-pow-succ n))
bit_and-mask (suc k) zero x le h = absurd (omega arith)
bit_and-mask (suc k) (suc n) x le h =
    let half : (2 ^ suc n - 2 ^ suc k) / 2 ≡ 2 ^ n - 2 ^ k =
      omega (arith, two-pow-succ n, two-pow-succ k) in
    let rest = bit_and-mask k n (x / 2) (omega arith) (omega (arith, two-pow-succ n)) in
    bit_and-halves x (2 ^ suc n - 2 ^ suc k)
    ∙ rw (half, rest) (omega (arith, two-pow-succ n, two-pow-succ k))

pub bit_and-complement :
    (k x : ℕ) → k ≤ 64 → x < 2 ^ 64 → bit_and x (complement (2 ^ k - 1)) ≡ down k x
bit_and-complement k x le h =
    let mask : complement (2 ^ k - 1) ≡ 2 ^ 64 - 2 ^ k =
      omega (arith, pow-le-pow_right {n = 2} (omega arith) {i = 0} {j = k} (omega arith)) in
    rw mask (bit_and-mask k 64 x le h)

pub down-le : (k x : ℕ) → down k x ≤ x
down-le zero x = omega arith
down-le (suc k) x = omega (arith, down-le k (x / 2))

pub lt-down : (k x : ℕ) → x < down k x + 2 ^ k
lt-down zero x = omega arith
lt-down (suc k) x = omega (arith, lt-down k (x / 2), two-pow-succ k)

pub down-multiple : (k x : ℕ) → (q : ℕ) × (down k x ≡ q * 2 ^ k)
down-multiple zero x = (x, omega arith)
down-multiple (suc k) x =
    let (q, e) = down-multiple k (x / 2) in
    (q, rw e (mul_assoc q (2 ^ k) 2 ∙ ap (λ m. q * m) (omega (arith, two-pow-succ k))))

bit_or-halves : (a b : ℕ) → bit_or a b ≡ bit_or (a / 2) (b / 2) * 2 + max (a % 2) (b % 2)
bit_or-halves a b = eq_of_bits (bit_or a b) (bit_or (a / 2) (b / 2) * 2 + max (a % 2) (b % 2)) same
  where
    half : (bit_or (a / 2) (b / 2) * 2 + max (a % 2) (b % 2)) / 2 ≡ bit_or (a / 2) (b / 2)
    half = omega arith

    same : (i : ℕ) → bit i (bit_or a b) ≡ bit i (bit_or (a / 2) (b / 2) * 2 + max (a % 2) (b % 2))
    same zero = omega (arith, bit-bit_or 0 a b)
    same (suc i) =
        bit-bit_or (suc i) a b ∙ sym (bit-bit_or i (a / 2) (b / 2)) ∙ sym (ap (bit i) half)

bit_or-zero : (n x : ℕ) → x ≤ n → bit_or x 0 ≡ x
bit_or-zero n x h = eq_of_bits (bit_or x 0) x (λ i. omega (arith, bit-bit_or i x 0, bit-zero i))

pub bit_or-mask : (k x : ℕ) → bit_or x (2 ^ k - 1) ≡ down k x + (2 ^ k - 1)
bit_or-mask zero x = bit_or-zero x x (omega arith) ∙ omega arith
bit_or-mask (suc k) x =
    let half : (2 ^ suc k - 1) / 2 ≡ 2 ^ k - 1 = omega (arith, two-pow-succ k) in
    let pos = pow-le-pow_right {n = 2} (omega arith) {i = 0} {j = k} (omega arith) in
    bit_or-halves x (2 ^ suc k - 1)
    ∙ rw (half, bit_or-mask k (x / 2)) (omega (arith, two-pow-succ k, pos))

-- the numbers of one block of 2^k
pub block-div : (k x y : ℕ) → down k x ≤ y → y < down k x + 2 ^ k → y / 2 ^ k ≡ x / 2 ^ k
block-div k x y lo hi =
    let (q, e) = down-multiple k x in
    let next : (q + 1) * 2 ^ k ≡ q * 2 ^ k + 2 ^ k = omega (arith, add-mul q 1 (2 ^ k)) in
    let at_y : y / 2 ^ k ≡ q = div-eq_of_lt-le (2 ^ k) {m = y} (omega arith) (omega arith) in
    let at_x : x / 2 ^ k ≡ q =
      div-eq_of_lt-le (2 ^ k) {m = x} (omega (arith, down-le k x)) (omega (arith, lt-down k x)) in
    at_y ∙ sym at_x

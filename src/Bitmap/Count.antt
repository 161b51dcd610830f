-- ===== src/Bitmap/Count.antt =====
-- How many of the first `n` bits are set, and how a single change moves that number.
use native.Mathlib.Decide.{ℕ_discrete}
use proto_kernel.Prelude.{
  ℕ, zero, suc, ◌+◌, ◌≤◌, ◌<◌, ◌≡◌, refl, ◌≢◌, arith, true, false, ◌/◌, ◌%◌, replicate,
  get_or-replicate, if◌then◌else◌,
}
use proto_kernel.Bits.Digits.{bit-zero}
use proto_kernel.Bitmap.{Bitmap}
use proto_kernel.Bitmap.Members.{has, add, remove, Fits, has-add, has-remove}

unfoldable pub members : Bitmap → ℕ → ℕ
members bitmap zero = 0
members bitmap (suc n) = members bitmap n + (if has bitmap n then 1 else 0)

pub members-le : (bitmap : Bitmap) (n : ℕ) → members bitmap n ≤ n
unfolding members
members-le bitmap zero = omega arith
members-le bitmap (suc n) = ground (arith, members-le bitmap n)

members_same :
    (a b : Bitmap) (n : ℕ) → ((j : ℕ) → j < n → has a j ≡ has b j) → members a n ≡ members b n
unfolding members
members_same a b zero same = refl
members_same a b (suc n) same =
    ground (arith, members_same a b n (λ j p. same j (omega arith)), same n (omega arith))

-- `more` has one member that `less` lacks
members_one_more :
    (less more : Bitmap) (b n : ℕ)
    → has less b ≡ false
    → has more b ≡ true
    → ((j : ℕ) → j ≢ b → has more j ≡ has less j)
    → b < n
    → members more n ≡ members less n + 1
unfolding members
members_one_more less more b zero out in_ same h = absurd (omega arith)
members_one_more less more b (suc n) out in_ same h = elim (ℕ_discrete n b) [
  | yes e ↦
      rw (e, out, in_) (ground (arith, members_same more less b (λ j p. same j (omega arith))))
  | no ne ↦ ground (arith, members_one_more less more b n out in_ same, same n ne)
]

module _ (bitmap : Bitmap) (b n : ℕ) (fits : Fits bitmap b) (below : b < n) where
  pub members-add : has bitmap b ≡ false → members (add bitmap b) n ≡ members bitmap n + 1
  members-add out =
      members_one_more bitmap (add bitmap b) b n out (ground (arith, has-add bitmap b fits b))
        (λ j ne. ground (arith, has-add bitmap b fits j)) below

  pub members-remove : has bitmap b ≡ true → members bitmap n ≡ members (remove bitmap b) n + 1
  members-remove inside =
      members_one_more (remove bitmap b) bitmap b n (ground (arith, has-remove bitmap b fits b))
        inside (λ j ne. ground (arith, has-remove bitmap b fits j)) below

pub has-zeros : (n b : ℕ) → has (replicate n 0) b ≡ false
unfolding has
has-zeros n b = rw (get_or-replicate {A = ℕ} n (b / 64) 0, bit-zero (b % 64)) refl

pub members-zeros : (n k : ℕ) → members (replicate n 0) k ≡ 0
unfolding members
members-zeros n zero = refl
members-zeros n (suc k) = rw (members-zeros n k, has-zeros n k) refl

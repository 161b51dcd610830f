-- ===== src/Irq/Desc/Flags.antt =====
-- The status word: what setting and clearing a flag does to each flag.
use native.Mathlib.Nat.{pow-le-pow_right}
use proto_kernel.Prelude.{
  ℕ, ◌-◌, ◌^◌, ◌<◌, ◌≡◌, refl, arith, true, false, not, Option, none, some, ◌==◌, if◌then◌else◌,
}
use proto_kernel.Bits.{bit, one_shl}
use proto_kernel.Bits.Digits.{
  bit-bit_or, bit-bit_and, bit-one_shl, bit-lt_two, bit_and-one_shl_iff, bit-ones-sub,
}
use proto_kernel.Irq.Chip.{
  irq_disabled, irq_inprogress, irq_masked, flag_set, flag_clear, flag_on, IrqChip, chip_call,
  default_irq_mask, default_irq_unmask, or_default, irq_chip_set_defaults,
}

flag_on-bit : (w k : ℕ) → flag_on w k ≡ not (bit k w == 0)
flag_on-bit w k = let both = bit_and-one_shl_iff w k in ground arith

pub flag_on-set : (w k j : ℕ) → flag_on (flag_set w k) j ≡ (if j == k then true else flag_on w j)
flag_on-set w k j = ground (
  arith,
  flag_on-bit (flag_set w k) j,
  flag_on-bit w j,
  bit-bit_or j w (one_shl k),
  bit-one_shl j k,
)

below : (k : ℕ) → k < 32 → one_shl k < 2 ^ 32
below k small = omega (arith, pow-le-pow_right {n = 2} (omega arith) {i = k} {j = 31} (omega arith))

pub flag_on-clear :
    (w k j : ℕ)
    → k < 32
    → j < 32
    → flag_on (flag_clear w k) j ≡ (if j == k then false else flag_on w j)
flag_on-clear w k j small small' = ground (
  arith,
  flag_on-bit (flag_clear w k) j,
  flag_on-bit w j,
  bit-bit_and j w (2 ^ 32 - 1 - one_shl k),
  bit-one_shl j k,
  bit-ones-sub j 32 (one_shl k) small' (below k small),
  bit-lt_two j w,
)

-- an operation of a chip that leaves IRQ_DISABLED and IRQ_INPROGRESS alone
abbrev pub Quiet : Option (ℕ → ℕ) → Type 0
Quiet none = Unit
Quiet (some f) =
    (w : ℕ)
    → (flag_on (f w) irq_disabled ≡ flag_on w irq_disabled)
      × (flag_on (f w) irq_inprogress ≡ flag_on w irq_inprogress)

abbrev pub QuietChip : Option IrqChip → Type 0
QuietChip none = Unit
QuietChip (some c) = Quiet c.irq_mask × Quiet c.irq_unmask × Quiet c.irq_ack × Quiet c.irq_eoi

call_kept :
    (op : IrqChip → Option (ℕ → ℕ)) (chip : IrqChip) (o : Option (ℕ → ℕ)) (w : ℕ)
    → op chip ≡ o
    → Quiet o
    → (flag_on (chip_call op (some chip) w) irq_disabled ≡ flag_on w irq_disabled)
      × (flag_on (chip_call op (some chip) w) irq_inprogress ≡ flag_on w irq_inprogress)
call_kept op chip none w e q = rw (e, chip_call) (refl, refl)
call_kept op chip (some f) w e q = rw (e, chip_call) (q w)

abbrev pub Untouched : (IrqChip → Option (ℕ → ℕ)) → Option IrqChip → ℕ → Type 0
Untouched op chip w =
    (flag_on (chip_call op chip w) irq_disabled ≡ flag_on w irq_disabled)
    × (flag_on (chip_call op chip w) irq_inprogress ≡ flag_on w irq_inprogress)

pub mask_kept :
    (chip : Option IrqChip) (w : ℕ) → QuietChip chip → Untouched (λ c. c.irq_mask) chip w
mask_kept none w q = (refl, refl)
mask_kept (some c) w q = call_kept (λ c. c.irq_mask) c c.irq_mask w refl q.0

pub unmask_kept :
    (chip : Option IrqChip) (w : ℕ) → QuietChip chip → Untouched (λ c. c.irq_unmask) chip w
unmask_kept none w q = (refl, refl)
unmask_kept (some c) w q = call_kept (λ c. c.irq_unmask) c c.irq_unmask w refl q.1

pub ack_kept : (chip : Option IrqChip) (w : ℕ) → QuietChip chip → Untouched (λ c. c.irq_ack) chip w
ack_kept none w q = (refl, refl)
ack_kept (some c) w q = call_kept (λ c. c.irq_ack) c c.irq_ack w refl q.2

pub eoi_kept : (chip : Option IrqChip) (w : ℕ) → QuietChip chip → Untouched (λ c. c.irq_eoi) chip w
eoi_kept none w q = (refl, refl)
eoi_kept (some c) w q = call_kept (λ c. c.irq_eoi) c c.irq_eoi w refl q.3

or_default-Quiet :
    (own : Option (ℕ → ℕ)) (op : ℕ → ℕ) → Quiet own → Quiet (some op) → Quiet (or_default own op)
or_default-Quiet none op own given = given
or_default-Quiet (some f) op own given = own

pub irq_chip_set_defaults-QuietChip :
    (chip : IrqChip) → QuietChip (some chip) → QuietChip (some (irq_chip_set_defaults chip))
irq_chip_set_defaults-QuietChip chip (mask, unmask, ack, eoi) = (
  or_default-Quiet chip.irq_mask default_irq_mask mask
      (λ w. (flag_on-set w irq_masked irq_disabled, flag_on-set w irq_masked irq_inprogress)),
  or_default-Quiet chip.irq_unmask default_irq_unmask unmask (λ w. (
    flag_on-clear w irq_masked irq_disabled (omega arith) (omega arith),
    flag_on-clear w irq_masked irq_inprogress (omega arith) (omega arith),
  )),
  or_default-Quiet chip.irq_ack (λ status. status) ack (λ w. (refl, refl)),
  or_default-Quiet chip.irq_eoi (λ status. status) eoi (λ w. (refl, refl)),
)

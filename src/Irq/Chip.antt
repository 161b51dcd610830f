-- ===== src/Irq/Chip.antt =====
-- The status word of a descriptor, and the chips of kernel/irq/irq_chip.c with their default
-- operations irq_mask, irq_unmask, irq_ack and irq_eoi, the ones that descriptors call. An operation is
-- a function on the status word, which is all that the default ones touch.
use Prim.Native.Nat.{bit_and, bit_or}
use proto_kernel.Prelude.{ℕ, ◌-◌, ◌^◌, Bool, not, Option, none, some, ◌==◌}
use proto_kernel.Bits.{one_shl}

-- the places of IRQ_DISABLED, IRQ_INPROGRESS and IRQ_MASKED in the status
abbrev pub irq_disabled : ℕ
irq_disabled = 0

abbrev pub irq_inprogress : ℕ
irq_inprogress = 2

abbrev pub irq_masked : ℕ
irq_masked = 7

-- `w |= 1 << k`, `w &= ~(1 << k)` and `w & (1 << k)` on `uint32_t`
abbrev pub flag_set : (w k : ℕ) → ℕ
flag_set w k = bit_or w (one_shl k)

abbrev pub flag_clear : (w k : ℕ) → ℕ
flag_clear w k = bit_and w (2 ^ 32 - 1 - one_shl k)

abbrev pub flag_on : (w k : ℕ) → Bool
flag_on w k = not (bit_and w (one_shl k) == 0)

pub record IrqChip : Type 0 where
  pub irq_mask : Option (ℕ → ℕ)
  pub irq_unmask : Option (ℕ → ℕ)
  pub irq_ack : Option (ℕ → ℕ)
  pub irq_eoi : Option (ℕ → ℕ)

abbrev pub default_irq_mask : ℕ → ℕ
default_irq_mask status = flag_set status irq_masked

abbrev pub default_irq_unmask : ℕ → ℕ
default_irq_unmask status = flag_clear status irq_masked

abbrev pub or_default : Option (ℕ → ℕ) → (ℕ → ℕ) → Option (ℕ → ℕ)
or_default none op = some op
or_default (some own) op = some own

abbrev pub irq_chip_set_defaults : IrqChip → IrqChip
irq_chip_set_defaults chip = record {
  irq_mask = or_default chip.irq_mask default_irq_mask;
  irq_unmask = or_default chip.irq_unmask default_irq_unmask;
  irq_ack = or_default chip.irq_ack (λ status. status);
  irq_eoi = or_default chip.irq_eoi (λ status. status);
}

-- `if (desc->chip && desc->chip->op) desc->chip->op(desc)`
abbrev pub chip_call : (IrqChip → Option (ℕ → ℕ)) → Option IrqChip → ℕ → ℕ
chip_call op none status = status
chip_call op (some chip) status = elim (op chip) [ none ↦ status | some f ↦ f status ]

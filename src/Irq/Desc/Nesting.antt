-- ===== src/Irq/Desc/Nesting.antt =====
-- `enable_irq` and `disable_irq_nosync` count: each undoes one of the other.
use proto_kernel.Prelude.{
  ℕ, zero, suc, ◌+◌, ◌-◌, ◌^◌, ◌<◌, ◌≡◌, refl, sym, ap, subst, ◌∙◌, arith, true, false, ◌==◌, ltb,
}
use native.Mathlib.Nat.{add-zero}
use proto_kernel.Bits.{u32}
use proto_kernel.Irq.Chip.{irq_disabled, flag_set, flag_clear, flag_on}
use proto_kernel.Irq.Desc.{IrqDesc, call_chip, enable, disable}
use proto_kernel.Irq.Desc.Flags.{flag_on-set, flag_on-clear, mask_kept, unmask_kept}
use proto_kernel.Irq.Desc.Sound.{Sound}

enable-zero : (d : IrqDesc) → d.depth ≡ 0 → enable d ≡ d
unfolding enable
enable-zero d e = rw e refl

enable-one :
    (d : IrqDesc)
    → d.depth ≡ 1
    → enable d
      ≡ call_chip
          (λ c. c.irq_unmask)
          (record d { depth = 0; status = flag_clear d.status irq_disabled })
unfolding enable
enable-one d e = rw e refl

positive : (n : ℕ) → 0 < n → ltb 0 n ≡ true
positive n le = ground arith

not_zero : (n : ℕ) → 0 < n → (n == 0) ≡ false
not_zero n le = ground arith

enable-more : (d : IrqDesc) → 1 < d.depth → enable d ≡ record d { depth = d.depth - 1 }
unfolding enable
enable-more d le = rw (positive d.depth (omega arith), not_zero (d.depth - 1) (omega arith)) refl

disable-zero :
    (d : IrqDesc)
    → d.depth ≡ 0
    → disable d
      ≡ record (call_chip
          (λ c. c.irq_mask)
          (record d { status = flag_set d.status irq_disabled })) { depth = 1 }
unfolding disable
disable-zero d e = rw e refl

disable-more :
    (d : IrqDesc)
    → 0 < d.depth
    → d.depth + 1 < 2 ^ 32
    → disable d ≡ record d { depth = d.depth + 1 }
unfolding disable
disable-more d le small =
    rw (not_zero d.depth le)
      (ap (λ m. record d { depth = m }) {x = u32 (d.depth + 1)} {y = d.depth + 1} (omega arith))

-- what a step of `enable_irq` or `disable_irq_nosync` comes to: the depth, the flag, and the rest
abbrev Nested : (most depth : ℕ) → (d d' : IrqDesc) → Type 0
Nested most depth d d' =
    (d'.depth ≡ depth) × Sound most d' × (d'.action ≡ d.action) × (d'.count ≡ d.count)

pub enable-Nested : (most : ℕ) (d : IrqDesc) → Sound most d → Nested most (d.depth - 1) d (enable d)
enable-Nested most d (flag, small, chain, quiet) = by_depth d.depth refl
  where
    by_depth : (n : ℕ) → d.depth ≡ n → Nested most (d.depth - 1) d (enable d)
    by_depth zero e = rw (enable-zero d e) (omega arith, (flag, small, chain, quiet), refl, refl)
    by_depth (suc zero) e = rw (enable-one d e) (
      omega arith,
      (
        (unmask_kept d.chip (flag_clear d.status irq_disabled) quiet).0
            ∙ flag_on-clear d.status irq_disabled irq_disabled (omega arith) (omega arith),
        omega arith,
        chain,
        quiet,
      ),
      refl,
      refl,
    )
    by_depth (suc (suc n)) e = rw (enable-more d (omega arith)) (
      refl,
      (
        flag ∙ positive d.depth (omega arith) ∙ sym (positive (d.depth - 1) (omega arith)),
        omega arith,
        chain,
        quiet,
      ),
      refl,
      refl,
    )

pub disable-Nested :
    (most : ℕ) (d : IrqDesc)
    → suc most < 2 ^ 32
    → Sound most d
    → Nested (suc most) (suc d.depth) d (disable d)
disable-Nested most d bound (flag, small, chain, quiet) = by_depth d.depth refl
  where
    by_depth : (n : ℕ) → d.depth ≡ n → Nested (suc most) (suc d.depth) d (disable d)
    by_depth zero e = rw (disable-zero d e) (
      omega arith,
      (
        (mask_kept d.chip (flag_set d.status irq_disabled) quiet).0
            ∙ flag_on-set d.status irq_disabled irq_disabled,
        omega arith,
        chain,
        quiet,
      ),
      refl,
      refl,
    )
    by_depth (suc n) e = rw (disable-more d (omega arith) (omega arith)) (
      omega arith,
      (
        flag ∙ positive d.depth (omega arith) ∙ sym (positive (d.depth + 1) (omega arith)),
        omega arith,
        chain,
        quiet,
      ),
      refl,
      refl,
    )

unfoldable pub times : (n : ℕ) → (IrqDesc → IrqDesc) → IrqDesc → IrqDesc
times zero f d = d
times (suc n) f d = f (times n f d)

disables-Nested :
    (n most : ℕ) (d : IrqDesc)
    → most + n < 2 ^ 32
    → Sound most d
    → Nested (most + n) (d.depth + n) d (times n disable d)
unfolding times
disables-Nested zero most d bound sound =
    rw (add-zero most, add-zero d.depth) (refl, sound, refl, refl)
disables-Nested (suc n) most d bound sound =
    let (depth, sound', action, count) = disables-Nested n most d (omega arith) sound in
    let (depth', sound'', action', count') =
      disable-Nested (most + n) (times n disable d) (omega arith) sound' in
    (
      omega arith,
      subst (λ m. Sound m (disable (times n disable d))) (omega arith) sound'',
      action' ∙ action,
      count' ∙ count,
    )

enables-Nested :
    (m most : ℕ) (d : IrqDesc) → Sound most d → Nested most (d.depth - m) d (times m enable d)
unfolding times
enables-Nested zero most d sound = (omega arith, sound, refl, refl)
enables-Nested (suc m) most d sound =
    let (depth, sound', action, count) = enables-Nested m most d sound in
    let (depth', sound'', action', count') = enable-Nested most (times m enable d) sound' in
    (omega arith, sound'', action' ∙ action, count' ∙ count)

-- A descriptor in order that is disabled n times and then enabled m times has the depth it had,
-- raised by n and lowered by m down to 0 at least, and is disabled exactly if that is above 0;
-- its chain and count are as before. The depth plus n must stay below 2^32.
pub nesting_lem :
    (n m most : ℕ) (d : IrqDesc)
    → most + n < 2 ^ 32
    → Sound most d
    → let d' = times m enable (times n disable d) in
      (d'.depth ≡ (d.depth + n) - m)
      × (flag_on d'.status irq_disabled ≡ ltb 0 ((d.depth + n) - m))
      × (d'.action ≡ d.action)
      × (d'.count ≡ d.count)
nesting_lem n m most d bound sound =
    let (depth, sound', action, count) = disables-Nested n most d bound sound in
    let (depth', sound'', action', count') =
      enables-Nested m (most + n) (times n disable d) sound' in
    let depths = depth' ∙ ap (λ k. k - m) depth in
    (depths, sound''.0 ∙ ap (ltb 0) depths, action' ∙ action, count' ∙ count)

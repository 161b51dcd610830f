-- ===== src/Irq/Desc/Dispatch.antt =====
-- `generic_handle_irq` on one descriptor: which handlers it calls, and how it leaves the descriptor.
use proto_kernel.Prelude.{
  ℕ, zero, suc, ◌+◌, ◌≡◌, refl, ap, ◌∙◌, ◌≢◌, arith, true, false, List, [], ◌∷◌, ◌==◌, ltb,
  Bool-cases, inl, inr,
}
use proto_kernel.Bits.{u64}
use proto_kernel.Irq.Chip.{irq_disabled, irq_inprogress, flag_set, flag_clear, flag_on}
use proto_kernel.Irq.Desc.{IrqAction, IrqDesc, handlers, begin_irq, end_irq, handle}
use proto_kernel.Irq.Desc.Flags.{flag_on-set, flag_on-clear, ack_kept, eoi_kept}
use proto_kernel.Irq.Desc.Sound.{Sound, Sound-weaken}

-- handlers that keep a descriptor sound, disable it at most once more than they enable it, and
-- leave its chain and its count alone
abbrev pub Handlers : (run : List (ℕ × ℕ) → IrqDesc → IrqDesc) → Type 0
Handlers run =
    (calls : List (ℕ × ℕ)) (most : ℕ) (d : IrqDesc)
    → Sound most d
    → Sound (suc most) (run calls d)
      × ((run calls d).action ≡ d.action)
      × ((run calls d).count ≡ d.count)

begin_irq-Sound : (most : ℕ) (d : IrqDesc) → Sound most d → Sound most (begin_irq d)
begin_irq-Sound most d (flag, small, chain, quiet) = (
  (ack_kept d.chip (flag_set d.status irq_inprogress) quiet).0
      ∙ flag_on-set d.status irq_inprogress irq_disabled
      ∙ flag,
  small,
  chain,
  quiet,
)

end_irq-Sound : (most : ℕ) (d : IrqDesc) → Sound most d → Sound most (end_irq d)
end_irq-Sound most d (flag, small, chain, quiet) = (
  (eoi_kept d.chip (flag_clear d.status irq_inprogress) quiet).0
      ∙ flag_on-clear d.status irq_inprogress irq_disabled (omega arith) (omega arith)
      ∙ flag,
  small,
  chain,
  quiet,
)

end_irq-flag :
    (most : ℕ) (d : IrqDesc) → Sound most d → flag_on (end_irq d).status irq_inprogress ≡ false
end_irq-flag most d (flag, small, chain, quiet) =
    (eoi_kept d.chip (flag_clear d.status irq_inprogress) quiet).1
    ∙ flag_on-clear d.status irq_inprogress irq_inprogress (omega arith) (omega arith)

-- the calls owed to a chain: one for each action with a handler, in order, with its device
pub data Owed : List IrqAction → List (ℕ × ℕ) → Type 0 where
  no_more : Owed [] []
  no_handler :
      {a : IrqAction} {rest : List IrqAction} {calls : List (ℕ × ℕ)}
      → a.handler ≡ 0
      → Owed rest calls
      → Owed (a ∷ rest) calls
  calls_one :
      {a : IrqAction} {rest : List IrqAction} {calls : List (ℕ × ℕ)}
      → a.handler ≢ 0
      → Owed rest calls
      → Owed (a ∷ rest) ((a.handler, a.dev_data) ∷ calls)

handlers-Owed : (chain : List IrqAction) → Owed chain (handlers chain)
unfolding handlers
handlers-Owed [] = no_more
handlers-Owed (a ∷ rest) = elim (Bool-cases (a.handler == 0)) [
  | inl null ↦ rw null (no_handler (ground arith) (handlers-Owed rest))
  | inr some_handler ↦ rw some_handler (calls_one (ground arith) (handlers-Owed rest))
]

-- what a dispatch at this depth does to `d`
abbrev pub Handled : (depth : ℕ) → (calls : List (ℕ × ℕ)) → (d d' : IrqDesc) → Type 0
Handled zero calls d d' =
    Owed d.action calls
    × (flag_on d'.status irq_inprogress ≡ false)
    × (d'.action ≡ d.action)
    × (d'.count ≡ u64 (d.count + 1))
Handled (suc n) calls d d' = (calls ≡ []) × (d' ≡ d)

-- For a descriptor that has IRQ_DISABLED set exactly while its depth is above 0, shares its
-- interrupt if its chain has more than one handler, and has a chip that leaves IRQ_DISABLED and
-- IRQ_INPROGRESS alone, and for handlers that keep such a descriptor, its chain and its count,
-- and disable it at most once more than they enable it: generic_handle_irq at depth 0 makes one
-- call for each action of the chain that has a handler, in the order of the chain, each with its
-- device, and leaves IRQ_INPROGRESS clear, the chain as it was and the count one higher, modulo
-- 2^64; at a depth above 0 it calls nothing and leaves the descriptor as it was. Both ways the
-- flag, the chain and the chip stay as they must be.
pub handle_lem :
    (run : List (ℕ × ℕ) → IrqDesc → IrqDesc) (most : ℕ) (d : IrqDesc)
    → Handlers run
    → Sound most d
    → let (calls, d') = handle run d in Handled d.depth calls d d' × Sound (suc most) d'
unfolding handle
handle_lem run most d fit sound = by_depth d.depth refl
  where
    by_depth :
        (n : ℕ)
        → d.depth ≡ n
        → Handled n (handle run d).0 d (handle run d).1 × Sound (suc most) (handle run d).1
    by_depth zero e =
        let off : flag_on d.status irq_disabled ≡ false = sound.0 ∙ ap (ltb 0) e in
        let (kept, chained, counted) =
          fit (handlers d.action) most (begin_irq d) (begin_irq-Sound most d sound) in
        let after = run (handlers d.action) (begin_irq d) in
        rw off (
          (handlers-Owed d.action, end_irq-flag (suc most) after kept, chained, counted),
          end_irq-Sound (suc most) after kept,
        )
    by_depth (suc n) e =
        let on : flag_on d.status irq_disabled ≡ true = sound.0 ∙ ground arith in
        rw on ((refl, refl), Sound-weaken most (suc most) d (omega arith) sound)

-- ===== src/Irq/Desc/History.antt =====
-- The calls of this layer, in any order: every descriptor of the table stays sound.
use proto_kernel.Prelude.{
  ℕ, suc, ◌+◌, ◌^◌, ◌≤◌, ◌<◌, subst, arith, Bool, List, [], ◌∷◌, Outcome, ok, panic, fault, ◌>>=◌,
}
use native.Mathlib.Nat.{add-zero}
use proto_kernel.Irq.Desc.{
  IrqAction, IrqDesc, IrqDescs, irq_desc_alloc, irq_desc_free, request_irq, remove_action, free_irq,
  enable, enable_irq, disable, disable_irq_nosync, generic_handle_irq,
}
use proto_kernel.Irq.Desc.Sound.{remove_action-Sound}
use proto_kernel.Irq.Desc.Nesting.{enable-Nested, disable-Nested}
use proto_kernel.Irq.Desc.Dispatch.{Handlers}
use proto_kernel.Irq.Desc.Table.{
  AllSound, Returns, AllSound-weaken, at_desc-AllSound, irq_desc_alloc-AllSound,
  irq_desc_free-Returns, request_irq-AllSound, generic_handle_irq-AllSound,
}

pub data Call : Type 0 where
  allocate : (memory : Bool) → (irq : ℕ) → Call
  drop : (irq : ℕ) → Call
  request : (memory : Bool) → (irq : ℕ) → IrqAction → Call
  release : (irq dev : ℕ) → Call
  switch_on : (irq : ℕ) → Call
  switch_off : (irq : ℕ) → Call
  interrupt : (irq : ℕ) → Call

abbrev pub perform : (run : List (ℕ × ℕ) → IrqDesc → IrqDesc) → Call → IrqDescs → Outcome IrqDescs
perform run (allocate memory irq) s = ok (irq_desc_alloc memory irq s).1
perform run (drop irq) s = irq_desc_free irq s
perform run (request memory irq a) s = ok (request_irq memory irq a s).1
perform run (release irq dev) s = ok (free_irq irq dev s)
perform run (switch_on irq) s = ok (enable_irq irq s)
perform run (switch_off irq) s = ok (disable_irq_nosync irq s)
perform run (interrupt irq) s = ok (generic_handle_irq run irq s).1

unfoldable pub perform_all :
    (run : List (ℕ × ℕ) → IrqDesc → IrqDesc) → List Call → IrqDescs → Outcome IrqDescs
perform_all run [] s = ok s
perform_all run (c ∷ calls) s = perform run c s >>= perform_all run calls

unfoldable pub calls_made : List Call → ℕ
calls_made [] = 0
calls_made (c ∷ calls) = suc (calls_made calls)

perform-Returns :
    (run : List (ℕ × ℕ) → IrqDesc → IrqDesc) (most : ℕ) (c : Call) (s : IrqDescs)
    → Handlers run
    → 1 ≤ most
    → suc most < 2 ^ 32
    → AllSound most s
    → Returns (suc most) (perform run c s)
perform-Returns run most c s fit le bound sound = by_call c
  where
    more : AllSound (suc most) s
    more = AllSound-weaken most (suc most) s (omega arith) sound

    by_call : (c : Call) → Returns (suc most) (perform run c s)
    by_call (allocate memory irq) =
        irq_desc_alloc-AllSound (suc most) irq memory s (omega arith) more
    by_call (drop irq) = irq_desc_free-Returns (suc most) irq s more
    by_call (request memory irq a) = request_irq-AllSound (suc most) irq memory a s more
    by_call (release irq dev) =
        at_desc-AllSound (suc most) (suc most) irq (remove_action dev) s (omega arith)
          (λ d given. remove_action-Sound (suc most) dev d (omega arith) given) more
    by_call (switch_on irq) =
        at_desc-AllSound (suc most) (suc most) irq enable s (omega arith)
          (λ d given. (enable-Nested (suc most) d given).1) more
    by_call (switch_off irq) =
        at_desc-AllSound most (suc most) irq disable s (omega arith)
          (λ d given. (disable-Nested most d bound given).1) sound
    by_call (interrupt irq) = generic_handle_irq-AllSound run most irq s fit sound

bind-Returns :
    (most more : ℕ) (r : Outcome IrqDescs) (f : IrqDescs → Outcome IrqDescs)
    → Returns most r
    → ((s : IrqDescs) → AllSound most s → Returns more (f s))
    → Returns more (r >>= f)
bind-Returns most more (ok s) f given next = next s given
bind-Returns most more panic f given next = tt
bind-Returns most more fault f given next = absurd given

-- From a table in which every descriptor has IRQ_DISABLED set exactly while its depth is above 0,
-- shares its interrupt if its chain has more than one handler, and has a chip that leaves
-- IRQ_DISABLED and IRQ_INPROGRESS alone, every sequence of irq_desc_alloc, irq_desc_free,
-- request_irq, free_irq, enable_irq, disable_irq_nosync and generic_handle_irq calls panics or
-- ends in such a table, as long as no depth can reach 2^32 and the handlers of a dispatch keep
-- such a descriptor, its chain and its count, and disable it at most once more than they enable
-- it.
pub perform_all-Returns :
    (run : List (ℕ × ℕ) → IrqDesc → IrqDesc) (calls : List Call) (most : ℕ) (s : IrqDescs)
    → Handlers run
    → 1 ≤ most
    → most + calls_made calls < 2 ^ 32
    → AllSound most s
    → Returns (most + calls_made calls) (perform_all run calls s)
unfolding perform_all calls_made
perform_all-Returns run [] most s fit le bound sound = rw (add-zero most) sound
perform_all-Returns run (c ∷ calls) most s fit le bound sound =
    bind-Returns (suc most) (most + suc (calls_made calls)) (perform run c s)
      (perform_all run calls) (perform-Returns run most c s fit le (omega arith) sound)
      (λ s given.
        subst (λ n. Returns n (perform_all run calls s)) (omega arith)
          (perform_all-Returns run calls (suc most) s fit (omega arith) (omega arith) given))

-- ===== src/Irq/Desc/Table.antt =====
-- The table of descriptors: what each operation keeps of every descriptor.
use proto_kernel.Prelude.{
  ℕ, suc, ◌+◌, ◌≤◌, arith, Bool, true, false, Option, none, some, List, [], ◌∷◌, ◌==◌, leb, ltb,
  if◌then◌else◌, Outcome, ok, panic, fault, not,
}
use proto_kernel.Bits.{u32, sub32}
use proto_kernel.Irq.Desc.{
  max_irq_desc, IrqAction, IrqDesc, IrqDescs, irq_to_desc, put_desc, new_desc, irq_desc_alloc,
  irq_desc_free, add_action, request_irq, at_desc, handle, generic_handle_irq,
}
use proto_kernel.Irq.Desc.Sound.{Sound, SomeSound, Sound-weaken, new_desc-Sound, add_action-Sound}
use proto_kernel.Irq.Desc.Dispatch.{Handlers, handle_lem}

-- every descriptor of the table is sound, and nothing stands past its end
abbrev pub AllSound : (most : ℕ) → IrqDescs → Type 0
AllSound most s = (irq : ℕ) → SomeSound most (s.irq_desc_array irq)

-- of the table that a call returns; a panic returns none
abbrev pub Returns : (most : ℕ) → Outcome IrqDescs → Type 0
Returns most (ok s) = AllSound most s
Returns most panic = Unit
Returns most fault = ⊥

SomeSound-weaken :
    (most more : ℕ) (d : Option IrqDesc) → most ≤ more → SomeSound most d → SomeSound more d
SomeSound-weaken most more none le sound = tt
SomeSound-weaken most more (some d) le sound = Sound-weaken most more d le sound

pub AllSound-weaken :
    (most more : ℕ) (s : IrqDescs) → most ≤ more → AllSound most s → AllSound more s
AllSound-weaken most more s le sound irq =
    SomeSound-weaken most more (s.irq_desc_array irq) le (sound irq)

put_desc-AllSound :
    (most irq : ℕ) (d : Option IrqDesc) (s : IrqDescs)
    → SomeSound most d
    → AllSound most s
    → AllSound most (put_desc irq d s)
put_desc-AllSound most irq d s given sound j = choose (j == irq)
  where
    choose : (b : Bool) → SomeSound most (if b then d else s.irq_desc_array j)
    choose true = given
    choose false = sound j

found-SomeSound :
    (most irq : ℕ) (s : IrqDescs) → AllSound most s → SomeSound most (irq_to_desc irq s)
found-SomeSound most irq s sound = choose (leb max_irq_desc irq)
  where
    choose : (b : Bool) → SomeSound most (if b then none else s.irq_desc_array irq)
    choose true = tt
    choose false = sound irq

pub at_desc-AllSound :
    (most more irq : ℕ) (op : IrqDesc → IrqDesc) (s : IrqDescs)
    → most ≤ more
    → ((d : IrqDesc) → Sound most d → Sound more (op d))
    → AllSound most s
    → AllSound more (at_desc irq op s)
at_desc-AllSound most more irq op s le keeps sound =
    on (irq_to_desc irq s) (found-SomeSound most irq s sound)
  where
    on :
        (found : Option IrqDesc)
        → SomeSound most found
        → AllSound more (elim found [ none ↦ s | some d ↦ put_desc irq (some (op d)) s ])
    on none given = AllSound-weaken most more s le sound
    on (some d) given =
        put_desc-AllSound more irq (some (op d)) s (keeps d given)
          (AllSound-weaken most more s le sound)

either {ℓ κ} :
    {A : Type ℓ} (P : A → Type κ) (b : Bool) {x y : A} → P x → P y → P (if b then x else y)
either P true p q = p
either P false p q = q

pub irq_desc_alloc-AllSound :
    (most irq : ℕ) (memory : Bool) (s : IrqDescs)
    → 1 ≤ most
    → AllSound most s
    → AllSound most (irq_desc_alloc memory irq s).1
unfolding irq_desc_alloc
irq_desc_alloc-AllSound most irq memory s le sound =
    either Keeps (leb max_irq_desc irq) sound (on (s.irq_desc_array irq))
  where
    Keeps : Option IrqDesc × IrqDescs → Type 0
    Keeps r = AllSound most r.1

    on :
        (found : Option IrqDesc)
        → Keeps (elim found [
          | some d ↦ (some d, s)
          | none ↦
              if memory
              then (
                some (new_desc irq),
                (let s = put_desc irq (some (new_desc irq)) s in
                    let n = u32 (s.allocated + 1) in
                    record s { allocated = n; peak = if ltb s.peak n then n else s.peak }),
              )
              else (none, s)
        ])
    on (some d) = sound
    on none =
        either Keeps memory
          (put_desc-AllSound most irq (some (new_desc irq)) s (new_desc-Sound irq most le) sound)
          sound

pub irq_desc_free-Returns :
    (most irq : ℕ) (s : IrqDescs) → AllSound most s → Returns most (irq_desc_free irq s)
unfolding irq_desc_free
irq_desc_free-Returns most irq s sound =
    either (Returns most) (leb max_irq_desc irq) sound (on (s.irq_desc_array irq))
  where
    freed : IrqDescs
    freed = let s = put_desc irq none s in record s { allocated = sub32 s.allocated 1 }

    by_chain :
        (chain : List IrqAction) → Returns most (elim chain [ [] ↦ ok freed | a ∷ rest ↦ panic ])
    by_chain [] = put_desc-AllSound most irq none s tt sound
    by_chain (a ∷ rest) = tt

    on :
        (found : Option IrqDesc)
        → Returns most (elim found [
          | none ↦ ok s
          | some d ↦ elim d.action [ [] ↦ ok freed | a ∷ rest ↦ panic ]
        ])
    on none = sound
    on (some d) = by_chain d.action

pub request_irq-AllSound :
    (most irq : ℕ) (memory : Bool) (a : IrqAction) (s : IrqDescs)
    → AllSound most s
    → AllSound most (request_irq memory irq a s).1
unfolding request_irq
request_irq-AllSound most irq memory a s sound = either Keeps (leb max_irq_desc irq) sound (
    either Keeps (a.handler == 0) sound (on (irq_to_desc irq s) (found-SomeSound most irq s sound)))
  where
    Keeps : Bool × IrqDescs → Type 0
    Keeps r = AllSound most r.1

    added :
        (d : Option IrqDesc)
        → SomeSound most d
        → Keeps (elim d [ none ↦ (false, s) | some d ↦ (true, put_desc irq (some d) s) ])
    added none given = sound
    added (some d) given = put_desc-AllSound most irq (some d) s given sound

    on :
        (found : Option IrqDesc)
        → SomeSound most found
        → Keeps (elim found [
          | none ↦ (false, s)
          | some d ↦ if not memory then (false, s) else elim (add_action a d) [
            | none ↦ (false, s)
            | some d ↦ (true, put_desc irq (some d) s)
          ]
        ])
    on none given = sound
    on (some d) given =
        either Keeps (not memory) sound (added (add_action a d) (add_action-Sound most a d given))

pub generic_handle_irq-AllSound :
    (run : List (ℕ × ℕ) → IrqDesc → IrqDesc) (most irq : ℕ) (s : IrqDescs)
    → Handlers run
    → AllSound most s
    → AllSound (suc most) (generic_handle_irq run irq s).1
unfolding generic_handle_irq
generic_handle_irq-AllSound run most irq s fit sound =
    on (irq_to_desc irq s) (found-SomeSound most irq s sound)
  where
    on :
        (found : Option IrqDesc)
        → SomeSound most found
        → AllSound
            (suc most)
            (elim found as (λ _. List (ℕ × ℕ) × IrqDescs) [
              | none ↦ ([], s)
              | some d ↦ ((handle run d).0, put_desc irq (some (handle run d).1) s)
            ]).1
    on none given = AllSound-weaken most (suc most) s (omega arith) sound
    on (some d) given =
        put_desc-AllSound (suc most) irq (some (handle run d).1) s
          (handle_lem run most d fit given).1
          (AllSound-weaken most (suc most) s (omega arith) sound)

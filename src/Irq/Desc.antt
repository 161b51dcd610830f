-- ===== src/Irq/Desc.antt =====
-- kernel/irq/irq_desc.c and the dispatch of kernel/irq/irq_chip.c: descriptors with their chains of
-- handlers. A descriptor is named by its number, since the table holds each one at that number. The
-- fields that this code only sets once (domain, parent_desc, chip_data, spurious_count,
-- last_timestamp, name) are left out. Each operation is one critical section of a lock.
pub mod Flags
pub mod Sound
pub mod Nesting
pub mod Dispatch
pub mod Requests
pub mod Table
pub mod History
mod Tests
use proto_kernel.Prelude.{
  ℕ, zero, suc, ◌+◌, ◌-◌, ◌^◌, Bool, true, false, not, ◌&&◌, Option, none, some, List, [], ◌∷◌,
  ◌++◌, ◌==◌, ltb, leb, if◌then◌else◌, Outcome, ok, panic, ◌>>=◌,
}
use proto_kernel.Bits.{u32, u64, sub32}
use proto_kernel.Irq.Virq.{VirqAllocator, allocator_init}
use proto_kernel.Irq.Chip.{
  irq_disabled, irq_inprogress, flag_set, flag_clear, flag_on, IrqChip, chip_call,
}

abbrev pub max_irq_desc : ℕ
max_irq_desc = 1024

pub record IrqAction : Type 0 where
  pub handler : ℕ
  pub dev_data : ℕ
  pub flags : ℕ
  pub name : ℕ

pub record IrqDesc : Type 0 where
  pub irq : ℕ
  pub hwirq : ℕ
  pub chip : Option IrqChip
  pub action : List IrqAction
  pub status : ℕ
  pub trigger_type : ℕ
  pub cpu_mask : ℕ
  pub depth : ℕ
  pub count : ℕ

pub record IrqDescs : Type 0 where
  pub irq_desc_array : ℕ → Option IrqDesc
  pub allocated : ℕ
  pub peak : ℕ

abbrev pub no_descs : IrqDescs
no_descs = record { irq_desc_array = λ irq. none; allocated = 0; peak = 0 }

abbrev pub irq_init : (kmalloc_ok : Bool) → VirqAllocator → Outcome (IrqDescs × VirqAllocator)
irq_init kmalloc_ok v = do v ← allocator_init kmalloc_ok v; ok (no_descs, v)

abbrev pub irq_to_desc : (irq : ℕ) → IrqDescs → Option IrqDesc
irq_to_desc irq s = if leb max_irq_desc irq then none else s.irq_desc_array irq

abbrev pub put_desc : (irq : ℕ) → Option IrqDesc → IrqDescs → IrqDescs
put_desc irq d s = record s { irq_desc_array = λ j. if j == irq then d else s.irq_desc_array j }

abbrev pub new_desc : (irq : ℕ) → IrqDesc
new_desc irq = record {
  irq = irq;
  hwirq = 0xffff_ffff;
  chip = none;
  action = [];
  status = 1;
  trigger_type = 0;
  cpu_mask = 0xffff_ffff;
  depth = 1;
  count = 0;
}

-- `memory` is whether `kmalloc` gives a descriptor
unfoldable pub irq_desc_alloc : (memory : Bool) → (irq : ℕ) → IrqDescs → Option IrqDesc × IrqDescs
irq_desc_alloc memory irq s =
    if leb max_irq_desc irq then (none, s) else elim (s.irq_desc_array irq) [
      | some d ↦ (some d, s)
      | none ↦
          if memory
          then (
            some (new_desc irq),
            (let s = put_desc irq (some (new_desc irq)) s in
                let n = u32 (s.allocated + 1) in
                record s { allocated = n; peak = if ltb s.peak n then n else s.peak }),
          )
          else (none, s)
    ]

unfoldable pub irq_desc_free : (irq : ℕ) → IrqDescs → Outcome IrqDescs
irq_desc_free irq s = if leb max_irq_desc irq then ok s else elim (s.irq_desc_array irq) [
  | none ↦ ok s
  | some d ↦ elim d.action [
    | [] ↦ (let s = put_desc irq none s in ok (record s { allocated = sub32 s.allocated 1 }))
    | a ∷ rest ↦ panic
  ]
]

abbrev pub call_chip : (IrqChip → Option (ℕ → ℕ)) → IrqDesc → IrqDesc
call_chip op d = record d { status = chip_call op d.chip d.status }

abbrev pub is_shared : (flags : ℕ) → Bool
is_shared flags = flag_on flags 0

-- the type for IRQF_TRIGGER_RISING, FALLING, HIGH and LOW, in this order
abbrev pub trigger_of : (flags trigger_type : ℕ) → ℕ
trigger_of flags trigger_type =
    if flag_on flags 1
    then 1
    else if flag_on flags 2
    then 2
    else if flag_on flags 3
    then 4
    else if flag_on flags 4
    then 8
    else trigger_type

-- the first handler enables the interrupt; a further one goes to the end of the chain, if both share
abbrev pub chain_action : List IrqAction → IrqAction → IrqDesc → Option IrqDesc
chain_action [] a d = some (
    call_chip (λ c. c.irq_unmask)
      (record d {
        action = a ∷ [];
        status = flag_clear d.status irq_disabled;
        depth = 0;
        trigger_type = trigger_of a.flags d.trigger_type;
      }))
chain_action (first ∷ rest) a d =
    if is_shared first.flags && is_shared a.flags
    then some (record d { action = first ∷ (rest ++ (a ∷ [])) })
    else none

abbrev pub add_action : IrqAction → IrqDesc → Option IrqDesc
add_action a d = chain_action d.action a d

unfoldable pub request_irq : (memory : Bool) → (irq : ℕ) → IrqAction → IrqDescs → Bool × IrqDescs
request_irq memory irq a s =
    if leb max_irq_desc irq
    then (false, s)
    else if a.handler == 0
    then (false, s)
    else elim (irq_to_desc irq s) [
      | none ↦ (false, s)
      | some d ↦ if not memory then (false, s) else elim (add_action a d) [
        | none ↦ (false, s)
        | some d ↦ (true, put_desc irq (some d) s)
      ]
    ]

abbrev pub keep : IrqAction → Option (List IrqAction) → Option (List IrqAction)
keep a none = none
keep a (some rest) = some (a ∷ rest)

-- the chain without the first action of a device
unfoldable pub unchain : (dev : ℕ) → List IrqAction → Option (List IrqAction)
unchain dev [] = none
unchain dev (a ∷ rest) =
    let later = unchain dev rest in if a.dev_data == dev then some rest else keep a later

-- what is left of the chain, if an action was taken off; the last handler disables the interrupt
abbrev pub put_chain : Option (List IrqAction) → IrqDesc → IrqDesc
put_chain none d = d
put_chain (some []) d =
    call_chip (λ c. c.irq_mask)
      (record d { action = []; status = flag_set d.status irq_disabled; depth = 1 })
put_chain (some (a ∷ rest)) d = record d { action = a ∷ rest }

abbrev pub remove_action : (dev : ℕ) → IrqDesc → IrqDesc
remove_action dev d = put_chain (unchain dev d.action) d

-- an operation on the descriptor of a number, if there is one
abbrev pub at_desc : (irq : ℕ) → (IrqDesc → IrqDesc) → IrqDescs → IrqDescs
at_desc irq op s = elim (irq_to_desc irq s) [ none ↦ s | some d ↦ put_desc irq (some (op d)) s ]

abbrev pub free_irq : (irq dev : ℕ) → IrqDescs → IrqDescs
free_irq irq dev s = at_desc irq (remove_action dev) s

unfoldable pub enable : IrqDesc → IrqDesc
enable d =
    if ltb 0 d.depth
    then (if d.depth - 1 == 0
        then call_chip (λ c. c.irq_unmask)
            (record d { depth = 0; status = flag_clear d.status irq_disabled })
        else record d { depth = d.depth - 1 })
    else d

abbrev pub enable_irq : (irq : ℕ) → IrqDescs → IrqDescs
enable_irq irq s = at_desc irq enable s

unfoldable pub disable : IrqDesc → IrqDesc
disable d =
    let d =
      if d.depth == 0
      then call_chip (λ c. c.irq_mask) (record d { status = flag_set d.status irq_disabled })
      else d in
    record d { depth = u32 (d.depth + 1) }

abbrev pub disable_irq_nosync : (irq : ℕ) → IrqDescs → IrqDescs
disable_irq_nosync irq s = at_desc irq disable s

-- the handlers of a chain, each with its device; 0 is NULL
unfoldable pub handlers : List IrqAction → List (ℕ × ℕ)
handlers [] = []
handlers (a ∷ rest) =
    let later = handlers rest in if a.handler == 0 then later else (a.handler, a.dev_data) ∷ later

-- the descriptor when the handlers run, and past them
abbrev pub begin_irq : IrqDesc → IrqDesc
begin_irq d =
    let d = call_chip (λ c. c.irq_ack) (record d { status = flag_set d.status irq_inprogress }) in
    record d { count = u64 (d.count + 1) }

abbrev pub end_irq : IrqDesc → IrqDesc
end_irq d = call_chip (λ c. c.irq_eoi) (record d { status = flag_clear d.status irq_inprogress })

-- The calls that `generic_handle_irq` makes; `run` is what they do to the descriptor, of which they
-- leave the chain alone.
unfoldable pub handle : (run : List (ℕ × ℕ) → IrqDesc → IrqDesc) → IrqDesc → List (ℕ × ℕ) × IrqDesc
handle run d =
    if flag_on d.status irq_disabled
    then ([], d)
    else (handlers d.action, end_irq (run (handlers d.action) (begin_irq d)))

unfoldable pub generic_handle_irq :
    (run : List (ℕ × ℕ) → IrqDesc → IrqDesc) → (irq : ℕ) → IrqDescs → List (ℕ × ℕ) × IrqDescs
generic_handle_irq run irq s = elim (irq_to_desc irq s) [
  | none ↦ ([], s)
  | some d ↦ let (calls, d) = handle run d in (calls, put_desc irq (some d) s)
]

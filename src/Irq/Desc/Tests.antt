-- ===== src/Irq/Desc/Tests.antt =====
-- Interrupts requested, disabled and handled at concrete descriptors, and each theorem at arguments
-- that meet its hypotheses.
use mathlib.Core.List.{map}
use proto_kernel.Prelude.{
  ℕ, suc, ◌+◌, ◌-◌, ◌^◌, ◌<◌, ◌≡◌, refl, arith, true, none, some, List, [], ◌∷◌, ok, panic, ltb,
  ◌>>=◌,
}
use proto_kernel.Irq.Chip.{irq_disabled, irq_masked, flag_on, IrqChip, irq_chip_set_defaults}
use proto_kernel.Irq.Desc.{
  IrqAction, IrqDesc, no_descs, irq_to_desc, new_desc, irq_desc_alloc, irq_desc_free, unchain,
  request_irq, remove_action, enable, disable, handlers, handle, generic_handle_irq,
}
use proto_kernel.Irq.Desc.Flags.{irq_chip_set_defaults-QuietChip}
use proto_kernel.Irq.Desc.Sound.{Sound, Sound-weaken}
use proto_kernel.Irq.Desc.Nesting.{times, nesting_lem}
use proto_kernel.Irq.Desc.Dispatch.{Handlers, Handled, handle_lem}
use proto_kernel.Irq.Desc.Requests.{requested, depth_left, request-handle, request-free}
use proto_kernel.Irq.Desc.Table.{Returns}
use proto_kernel.Irq.Desc.History.{
  Call, allocate, request, release, switch_on, switch_off, interrupt, perform_all, calls_made,
  perform_all-Returns,
}

all_code : Unit {0}
unfolding irq_desc_alloc irq_desc_free unchain request_irq enable disable handlers handle
    generic_handle_irq perform_all times requested calls_made
all_code = tt

abbrev idle_run : List (ℕ × ℕ) → IrqDesc → IrqDesc
idle_run calls d = d

idle_run-Handlers : Handlers idle_run
idle_run-Handlers calls most d sound =
    (Sound-weaken most (suc most) d (omega arith) sound, refl, refl)

abbrev timer : IrqAction
timer = record { handler = 0x4000; dev_data = 7; flags = 1; name = 0 }

abbrev serial : IrqAction
serial = record { handler = 0x5000; dev_data = 9; flags = 3; name = 0 }

abbrev alone : IrqAction
alone = record { handler = 0x6000; dev_data = 3; flags = 16; name = 0 }

abbrev bare : IrqChip
bare = record { irq_mask = none; irq_unmask = none; irq_ack = none; irq_eoi = none }

abbrev idle : IrqDesc
idle = record (new_desc 33) { chip = some (irq_chip_set_defaults bare) }

-- the timer's handler on this descriptor, and the chain of both
abbrev running : IrqDesc
running = record idle { action = timer ∷ []; status = 0; depth = 0 }

abbrev asked : List Call
asked =
    allocate true 33
    ∷ request true 33 timer
    ∷ request true 33 serial
    ∷ request true 33 alone
    ∷ switch_off 33
    ∷ interrupt 33
    ∷ switch_on 33
    ∷ interrupt 33
    ∷ release 33 7
    ∷ []

-- the table's descriptor after these calls: one dispatch counted, and one handler left
asked_counts :
    perform_all idle_run asked no_descs >>= (λ s. ok (irq_to_desc 33 s))
    ≡ ok (some (record (new_desc 33) { action = serial ∷ []; status = 0; depth = 0; count = 1 }))
unfolding all_code
asked_counts = refl

called :
    ((generic_handle_irq idle_run 33 (irq_desc_alloc true 33 no_descs).1).0 ≡ [])
    × ((handle idle_run running).0 ≡ (0x4000, 7) ∷ [])
    × (flag_on (remove_action 7 running).status irq_masked ≡ true)
unfolding all_code
called = (refl, refl, refl)

freed_with_handlers :
    irq_desc_free 33 (request_irq true 33 timer (irq_desc_alloc true 33 no_descs).1).1 ≡ panic
unfolding all_code
freed_with_handlers = refl

running-Sound : Sound 0 running
running-Sound = (refl, omega arith, tt, irq_chip_set_defaults-QuietChip bare (tt, tt, tt, tt))

asked_few : 1 + calls_made asked < 2 ^ 32
unfolding all_code
asked_few = omega arith

perform_all-Returns_example : Returns (1 + calls_made asked) (perform_all idle_run asked no_descs)
perform_all-Returns_example =
    perform_all-Returns idle_run asked 1 no_descs idle_run-Handlers (omega arith) asked_few
      (λ irq. tt)

nesting_lem_example :
    let d' = times 2 enable (times 3 disable running) in
    (d'.depth ≡ (running.depth + 3) - 2)
    × (flag_on d'.status irq_disabled ≡ ltb 0 ((running.depth + 3) - 2))
    × (d'.action ≡ running.action)
    × (d'.count ≡ running.count)
nesting_lem_example = nesting_lem 3 2 0 running (omega arith) running-Sound

handle_lem_example :
    let (calls, d') = handle idle_run running in Handled running.depth calls running d' × Sound 1 d'
handle_lem_example = handle_lem idle_run 0 running idle_run-Handlers running-Sound

request-handle_example :
    (d' : IrqDesc) × (requested (timer ∷ serial ∷ []) idle ≡ some d')
    × (d'.action ≡ timer ∷ serial ∷ [])
    × ((handle idle_run d').0 ≡ map (λ a. (a.handler, a.dev_data)) (timer ∷ serial ∷ []))
request-handle_example =
    request-handle idle_run timer (serial ∷ []) idle refl (refl, (refl, tt))
      ((λ e. omega (arith, e)), ((λ e. omega (arith, e)), tt)) running-Sound.3

abbrev both : IrqDesc
both = record running { action = timer ∷ serial ∷ [] }

request-free_example :
    let d'' = remove_action 9 both in
    (d''.action ≡ running.action) × (d''.depth ≡ depth_left running.action running)
request-free_example = request-free serial running both refl (refl, tt)

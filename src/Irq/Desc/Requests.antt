-- ===== src/Irq/Desc/Requests.antt =====
-- `request_irq` and `free_irq` on one descriptor: the order of the chain, and how a request is undone.
use mathlib.Core.List.{append-nil, append_assoc, map}
use proto_kernel.Prelude.{
  ℕ, ◌≡◌, ◌≢◌, refl, sym, ap, ◌∙◌, arith, Bool, true, false, Option, none, some, List, [], ◌∷◌,
  ◌++◌, ◌&&◌, ◌==◌, if◌then◌else◌,
}
use proto_kernel.Irq.Chip.{irq_disabled, flag_clear, flag_on}
use proto_kernel.Irq.Desc.{
  IrqAction, IrqDesc, is_shared, trigger_of, chain_action, add_action, unchain, remove_action,
  handlers, handle, call_chip,
}
use proto_kernel.Irq.Desc.Flags.{QuietChip, flag_on-clear, unmask_kept}
use proto_kernel.Irq.Desc.Sound.{EachShared, Chained}

-- requests one after the other, each of which must be granted
unfoldable pub requested : List IrqAction → IrqDesc → Option IrqDesc
requested [] d = some d
requested (a ∷ rest) d = elim (add_action a d) [ none ↦ none | some d ↦ requested rest d ]

-- a chain that shares takes a further action at its end
add_action-shared :
    (first : IrqAction) (chain : List IrqAction) (a : IrqAction) (d : IrqDesc)
    → d.action ≡ first ∷ chain
    → is_shared first.flags ≡ true
    → is_shared a.flags ≡ true
    → add_action a d ≡ some (record d { action = first ∷ (chain ++ (a ∷ [])) })
add_action-shared first chain a d e s s' =
    ap (λ l. chain_action l a d) e
    ∙ ap (λ b. if b then some (record d { action = first ∷ (chain ++ (a ∷ [])) }) else none)
        (ap (λ b. b && is_shared a.flags) s ∙ s')

requested_more :
    (first : IrqAction) (chain actions : List IrqAction) (d : IrqDesc)
    → d.action ≡ first ∷ chain
    → is_shared first.flags ≡ true
    → EachShared actions
    → requested actions d ≡ some (record d { action = first ∷ (chain ++ actions) })
unfolding requested
requested_more first chain [] d e s each =
    ap (λ l. some (record d { action = l })) (e ∙ ap (λ l. first ∷ l) (sym (append-nil chain)))
requested_more first chain (a ∷ rest) d e s (s', each) =
    ap (λ o. elim o as (λ _. Option IrqDesc) [ none ↦ none | some d ↦ requested rest d ])
      (add_action-shared first chain a d e s s')
    ∙ requested_more first (chain ++ (a ∷ [])) rest
        (record d { action = first ∷ (chain ++ (a ∷ [])) }) refl s each
    ∙ ap (λ l. some (record d { action = first ∷ l })) (append_assoc chain (a ∷ []) rest)

-- the descriptor of a first handler
abbrev first_handler : IrqAction → IrqDesc → IrqDesc
first_handler a d =
    call_chip (λ c. c.irq_unmask)
      (record d {
        action = a ∷ [];
        status = flag_clear d.status irq_disabled;
        depth = 0;
        trigger_type = trigger_of a.flags d.trigger_type;
      })

add_action-first :
    (a : IrqAction) (d : IrqDesc) → d.action ≡ [] → add_action a d ≡ some (first_handler a d)
add_action-first a d e = ap (λ l. chain_action l a d) e

requested_all :
    (a : IrqAction) (rest : List IrqAction) (d : IrqDesc)
    → d.action ≡ []
    → Chained (a ∷ rest)
    → requested (a ∷ rest) d ≡ some (record (first_handler a d) { action = a ∷ rest })
unfolding requested
requested_all a rest d e chained =
    ap (λ o. elim o as (λ _. Option IrqDesc) [ none ↦ none | some d ↦ requested rest d ])
      (add_action-first a d e)
    ∙ others rest chained
  where
    others :
        (rest : List IrqAction)
        → Chained (a ∷ rest)
        → requested rest (first_handler a d)
          ≡ some (record (first_handler a d) { action = a ∷ rest })
    others [] chained = refl
    others (b ∷ rest) (s, each) = requested_more a [] (b ∷ rest) (first_handler a d) refl s each

-- `request_irq` refuses an action without a handler
abbrev pub EachHandled : List IrqAction → Type 0
EachHandled [] = Unit
EachHandled (a ∷ rest) = (a.handler ≢ 0) × EachHandled rest

handlers-map :
    (chain : List IrqAction)
    → EachHandled chain
    → handlers chain ≡ map (λ a. (a.handler, a.dev_data)) chain
unfolding handlers
handlers-map [] each = refl
handlers-map (a ∷ rest) (h, each) =
    let some_handler : (a.handler == 0) ≡ false = ground arith in
    rw (some_handler, handlers-map rest each) refl

-- On a descriptor without handlers whose chip leaves IRQ_DISABLED and IRQ_INPROGRESS alone,
-- requests for one handler, or for several that all share, none of them NULL, are all granted,
-- and generic_handle_irq then calls exactly the requested handlers, in the order of the requests
-- and each with its device.
pub request-handle :
    (run : List (ℕ × ℕ) → IrqDesc → IrqDesc) (a : IrqAction) (rest : List IrqAction) (d : IrqDesc)
    → d.action ≡ []
    → Chained (a ∷ rest)
    → EachHandled (a ∷ rest)
    → QuietChip d.chip
    → (d' : IrqDesc) × (requested (a ∷ rest) d ≡ some d')
      × (d'.action ≡ a ∷ rest)
      × ((handle run d').0 ≡ map (λ a. (a.handler, a.dev_data)) (a ∷ rest))
unfolding handle
request-handle run a rest d e chained each quiet =
    let on : flag_on (first_handler a d).status irq_disabled ≡ false =
      (unmask_kept d.chip (flag_clear d.status irq_disabled) quiet).0
      ∙ flag_on-clear d.status irq_disabled irq_disabled (omega arith) (omega arith) in
    (
      record (first_handler a d) { action = a ∷ rest },
      requested_all a rest d e chained,
      refl,
      rw on (handlers-map (a ∷ rest) each),
    )

-- no action of the chain belongs to the device
abbrev pub NoDevice : (dev : ℕ) → List IrqAction → Type 0
NoDevice dev [] = Unit
NoDevice dev (a ∷ rest) = ((a.dev_data == dev) ≡ false) × NoDevice dev rest

same_device : (dev : ℕ) → (dev == dev) ≡ true
same_device dev = ground arith

some-same : (d d' : IrqDesc) → some d ≡ some d' → d' ≡ d
some-same d d' e = cc e

unchain-last :
    (a : IrqAction) (chain : List IrqAction)
    → NoDevice a.dev_data chain
    → unchain a.dev_data (chain ++ (a ∷ [])) ≡ some chain
unfolding unchain
unchain-last a [] absent = rw (same_device a.dev_data) refl
unchain-last a (b ∷ rest) (other, absent) = rw (other, unchain-last a rest absent) refl

-- the depth that is left when the last action of a device goes
abbrev pub depth_left : List IrqAction → IrqDesc → ℕ
depth_left [] d = 1
depth_left (a ∷ rest) d = d.depth

granted : (b : Bool) (d d' : IrqDesc) → (if b then some d else none) ≡ some d' → d' ≡ d
granted true d d' e = some-same d d' e
granted false d d' e = cc e

-- A granted request for a device that has no handler in the chain, undone by free_irq of the
-- device, leaves the chain as it was before, and the depth too, or 1 if the chain is empty.
pub request-free :
    (a : IrqAction) (d d' : IrqDesc)
    → add_action a d ≡ some d'
    → NoDevice a.dev_data d.action
    → let d'' = remove_action a.dev_data d' in
      (d''.action ≡ d.action) × (d''.depth ≡ depth_left d.action d)
request-free a d d' e absent = by_chain d.action refl e absent
  where
    by_chain :
        (chain : List IrqAction)
        → d.action ≡ chain
        → chain_action chain a d ≡ some d'
        → NoDevice a.dev_data chain
        → let d'' = remove_action a.dev_data d' in
          (d''.action ≡ chain) × (d''.depth ≡ depth_left chain d)
    by_chain [] same e absent =
        rw (some-same (first_handler a d) d' e, unchain-last a [] tt) (refl, refl)
    by_chain (first ∷ rest) same e absent =
        rw
          (
            granted (is_shared first.flags && is_shared a.flags)
                (record d { action = first ∷ (rest ++ (a ∷ [])) }) d' e,
            unchain-last a (first ∷ rest) absent,
          )
          (refl, refl)

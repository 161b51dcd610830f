-- ===== src/Irq/Desc/Sound.antt =====
-- What holds of a descriptor: IRQ_DISABLED is set exactly while the nesting depth is above 0, a chain
-- of more than one handler shares the interrupt, and the chip leaves the flags of this layer alone.
use proto_kernel.Prelude.{
  ℕ, ◌≤◌, ◌≡◌, refl, subst, ◌∙◌, arith, Bool, true, false, ◌&&◌, Option, none, some, List, [], ◌∷◌,
  ◌++◌, ◌==◌, ltb, if◌then◌else◌,
}
use proto_kernel.Irq.Chip.{irq_disabled, flag_set, flag_clear, flag_on}
use proto_kernel.Irq.Desc.{
  IrqAction, IrqDesc, new_desc, is_shared, chain_action, add_action, unchain, keep, put_chain,
  remove_action,
}
use proto_kernel.Irq.Desc.Flags.{QuietChip, flag_on-set, flag_on-clear, mask_kept, unmask_kept}

abbrev pub EachShared : List IrqAction → Type 0
EachShared [] = Unit
EachShared (a ∷ rest) = (is_shared a.flags ≡ true) × EachShared rest

abbrev pub Chained : List IrqAction → Type 0
Chained [] = Unit
Chained (a ∷ []) = Unit
Chained (a ∷ b ∷ rest) = EachShared (a ∷ b ∷ rest)

abbrev pub Sound : (most : ℕ) → IrqDesc → Type 0
Sound most d =
    (flag_on d.status irq_disabled ≡ ltb 0 d.depth)
    × (d.depth ≤ most)
    × Chained d.action
    × QuietChip d.chip

pub Sound-weaken : (most more : ℕ) (d : IrqDesc) → most ≤ more → Sound most d → Sound more d
Sound-weaken most more d le (flag, small, chain, quiet) = (flag, omega arith, chain, quiet)

pub new_desc-Sound : (irq most : ℕ) → 1 ≤ most → Sound most (new_desc irq)
new_desc-Sound irq most le = (refl, le, tt, tt)

Chained-EachShared : (chain : List IrqAction) → EachShared chain → Chained chain
Chained-EachShared [] e = tt
Chained-EachShared (a ∷ []) e = tt
Chained-EachShared (a ∷ b ∷ rest) e = e

EachShared-append :
    (chain : List IrqAction) (a : IrqAction)
    → EachShared chain
    → is_shared a.flags ≡ true
    → EachShared (chain ++ (a ∷ []))
EachShared-append [] a e shared = (shared, tt)
EachShared-append (b ∷ rest) a (e, es) shared = (e, EachShared-append rest a es shared)

chain_grows :
    (first : IrqAction) (rest : List IrqAction) (a : IrqAction)
    → Chained (first ∷ rest)
    → is_shared first.flags ≡ true
    → is_shared a.flags ≡ true
    → Chained (first ∷ (rest ++ (a ∷ [])))
chain_grows first [] a e s s' = (s, (s', tt))
chain_grows first (b ∷ rest) a (e, es) s s' = (e, EachShared-append (b ∷ rest) a es s')

abbrev pub SomeSound : (most : ℕ) → Option IrqDesc → Type 0
SomeSound most none = Unit
SomeSound most (some d) = Sound most d

both_shared :
    (p q : Bool) (most : ℕ) (d : IrqDesc)
    → (p ≡ true → q ≡ true → Sound most d)
    → SomeSound most (if p && q then some d else none)
both_shared true true most d sound = sound refl refl
both_shared true false most d sound = tt
both_shared false q most d sound = tt

chain_action-Sound :
    (most : ℕ) (chain : List IrqAction) (a : IrqAction) (d : IrqDesc)
    → d.action ≡ chain
    → Sound most d
    → SomeSound most (chain_action chain a d)
chain_action-Sound most [] a d e (flag, small, chain, quiet) = (
  (unmask_kept d.chip (flag_clear d.status irq_disabled) quiet).0
      ∙ flag_on-clear d.status irq_disabled irq_disabled (omega arith) (omega arith),
  omega arith,
  tt,
  quiet,
)
chain_action-Sound most (first ∷ rest) a d e (flag, small, chain, quiet) =
    both_shared (is_shared first.flags) (is_shared a.flags) most
      (record d { action = first ∷ (rest ++ (a ∷ [])) })
      (λ s s'. (flag, small, chain_grows first rest a (subst Chained e chain) s s', quiet))

pub add_action-Sound :
    (most : ℕ) (a : IrqAction) (d : IrqDesc) → Sound most d → SomeSound most (add_action a d)
add_action-Sound most a d sound = chain_action-Sound most d.action a d refl sound

abbrev SomeShared : Option (List IrqAction) → Type 0
SomeShared none = Unit
SomeShared (some chain) = EachShared chain

unchain-EachShared :
    (dev : ℕ) (chain : List IrqAction) → EachShared chain → SomeShared (unchain dev chain)
unfolding unchain
unchain-EachShared dev [] e = tt
unchain-EachShared dev (a ∷ rest) (e, es) =
    step (a.dev_data == dev) (unchain dev rest) (unchain-EachShared dev rest es)
  where
    step :
        (b : Bool) (later : Option (List IrqAction))
        → SomeShared later
        → SomeShared (if b then some rest else keep a later)
    step true later shared = es
    step false none shared = tt
    step false (some chain) shared = (e, shared)

abbrev SomeChained : Option (List IrqAction) → Type 0
SomeChained none = Unit
SomeChained (some chain) = Chained chain

unchain-Chained :
    (dev : ℕ) (chain : List IrqAction) → Chained chain → SomeChained (unchain dev chain)
unfolding unchain
unchain-Chained dev [] e = tt
unchain-Chained dev (a ∷ []) e = alone (a.dev_data == dev)
  where
    alone : (b : Bool) → SomeChained (if b then some [] else none)
    alone true = tt
    alone false = tt
unchain-Chained dev (a ∷ b ∷ rest) e =
    weaken (unchain dev (a ∷ b ∷ rest)) (unchain-EachShared dev (a ∷ b ∷ rest) e)
  where
    weaken : (left : Option (List IrqAction)) → SomeShared left → SomeChained left
    weaken none shared = tt
    weaken (some chain) shared = Chained-EachShared chain shared

put_chain-Sound :
    (most : ℕ) (left : Option (List IrqAction)) (d : IrqDesc)
    → 1 ≤ most
    → SomeChained left
    → Sound most d
    → Sound most (put_chain left d)
put_chain-Sound most none d le left sound = sound
put_chain-Sound most (some []) d le left (flag, small, chain, quiet) = (
  (mask_kept d.chip (flag_set d.status irq_disabled) quiet).0
      ∙ flag_on-set d.status irq_disabled irq_disabled,
  le,
  tt,
  quiet,
)
put_chain-Sound most (some (a ∷ rest)) d le left (flag, small, chain, quiet) =
    (flag, small, left, quiet)

pub remove_action-Sound :
    (most dev : ℕ) (d : IrqDesc) → 1 ≤ most → Sound most d → Sound most (remove_action dev d)
remove_action-Sound most dev d le sound =
    put_chain-Sound most (unchain dev d.action) d le (unchain-Chained dev d.action sound.2) sound

-- ===== src/Radix/Skip.antt =====
-- The walk of `radix_tree_next_slot`: a subtree that is not there holds none of the indices it skips.
use native.Mathlib.Nat.{div-div-eq-div-mul, pow-suc, mul_assoc}
use proto_kernel.Prelude.{
  ℕ, zero, suc, ◌+◌, ◌-◌, ◌*◌, ◌/◌, ◌%◌, ◌^◌, ◌≤◌, ◌≡◌, ◌⊎◌, inl, inr, refl, sym, ap, subst, ◌∙◌,
  arith, Option, none, some,
}
use proto_kernel.Radix.{Tree, get_slot, lookup_in}
use proto_kernel.Radix.Iterate.{past, probe}
use proto_kernel.Radix.Valid.{below, lookup_in-suc}

-- what the walk from an index says
abbrev pub Probed : (h : ℕ) → Tree h → (index : ℕ) → ℕ ⊎ ℕ → Type 0
Probed h n index (inr item) = item ≡ lookup_in h n index
Probed h n index (inl next) =
    (level : ℕ) × (level ≤ h)
    × (next ≡ past index level)
    × ((j : ℕ) → j / 2 ^ (6 * level) ≡ index / 2 ^ (6 * level) → lookup_in h n j ≡ 0)

pow_sum : (a b : ℕ) → 2 ^ (a + b) ≡ 2 ^ a * 2 ^ b
pow_sum a zero =
    let flat : a + zero ≡ a = omega arith in
    let one : 2 ^ a ≡ 2 ^ a * 2 ^ zero = omega arith in ap (λ n. 2 ^ n) flat ∙ one
pow_sum a (suc b) =
    let up : a + suc b ≡ suc (a + b) = omega arith in
    ap (λ n. 2 ^ n) up
    ∙ pow-suc 2 (a + b)
    ∙ ap (λ m. m * 2) (pow_sum a b)
    ∙ mul_assoc (2 ^ a) (2 ^ b) 2
    ∙ ap (λ m. 2 ^ a * m) (sym (pow-suc 2 b))

coarser :
    (a b level more : ℕ)
    → a / 2 ^ (6 * level) ≡ b / 2 ^ (6 * level)
    → a / 2 ^ (6 * (level + more)) ≡ b / 2 ^ (6 * (level + more))
coarser a b level more e = split a ∙ ap (λ q. q / 2 ^ (6 * more)) e ∙ sym (split b)
  where
    split : (a : ℕ) → a / 2 ^ (6 * (level + more)) ≡ a / 2 ^ (6 * level) / 2 ^ (6 * more)
    split a =
        ap (λ d. a / d)
          (ap (λ n. 2 ^ n) {x = 6 * (level + more)} {y = 6 * level + 6 * more} (omega arith)
            ∙ pow_sum (6 * level) (6 * more))
        ∙ sym (div-div-eq-div-mul a (2 ^ (6 * level)) (2 ^ (6 * more)))

coarse :
    (a b level h : ℕ)
    → level ≤ h
    → a / 2 ^ (6 * level) ≡ b / 2 ^ (6 * level)
    → a / 2 ^ (6 * h) ≡ b / 2 ^ (6 * h)
coarse a b level h le e =
    let at : level + (h - level) ≡ h = omega arith in
    subst (λ (h : ℕ). a / 2 ^ (6 * h) ≡ b / 2 ^ (6 * h)) at (coarser a b level (h - level) e)

pub probe-Probed : (h : ℕ) (n : Tree h) (index : ℕ) → Probed h n index (probe h n index)
unfolding probe lookup_in
probe-Probed zero n index = refl
probe-Probed (suc h) n index =
    step (n.slots (get_slot index (suc h))) refl (λ child. probe-Probed h child index)
  where
    slot_same :
        (j : ℕ)
        → j / 2 ^ (6 * suc h) ≡ index / 2 ^ (6 * suc h)
        → get_slot j (suc h) ≡ get_slot index (suc h)
    slot_same j e = ap (λ q. q % 64) e

    reads :
        (s : Option (Tree h)) (j : ℕ)
        → n.slots (get_slot index (suc h)) ≡ s
        → j / 2 ^ (6 * suc h) ≡ index / 2 ^ (6 * suc h)
        → lookup_in (suc h) n j ≡ below h s j
    reads s j at e = lookup_in-suc h n j ∙ rw (slot_same j e, at) refl

    step :
        (s : Option (Tree h))
        → n.slots (get_slot index (suc h)) ≡ s
        → ((child : Tree h) → Probed h child index (probe h child index))
        → Probed (suc h) n index (elim s as (λ s. ℕ ⊎ ℕ) [
          | none ↦ inl (past index (suc h))
          | some child ↦ probe h child index
        ])
    step none at rec = (suc h, omega arith, refl, λ j e. reads none j at e)
    step (some child) at rec = through (probe h child index) (rec child)
      where
        through : (r : ℕ ⊎ ℕ) → Probed h child index r → Probed (suc h) n index r
        through (inr item) e = e ∙ sym (reads (some child) index at refl)
        through (inl next) (level, le, is, none_there) = (
          level,
          omega arith,
          is,
          λ j e.
              reads (some child) j at (coarse j index level (suc h) (omega arith) e)
              ∙ none_there j e,
        )

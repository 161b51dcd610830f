-- ===== src/Radix/Next.antt =====
-- `radix_tree_next_slot` finds the least key from an index on, as long as `max_key` bounds the keys.
use proto_kernel.Prelude.{
  ℕ, zero, suc, ◌+◌, ◌-◌, ◌*◌, ◌/◌, ◌^◌, ◌≤◌, ◌<◌, ◌≡◌, ◌≢◌, ◌⊎◌, inl, inr, refl, sym, ap, subst,
  arith, true, false, Option, none, some, ◌==◌, ltb, Bool-cases,
}
use proto_kernel.Bits.{u32}
use proto_kernel.Bits.Align.{down, bit_or-mask, down-le, lt-down, down-multiple, block-div}
use proto_kernel.Radix.{Tree, tree, maxindex, lookup_in}
use proto_kernel.Radix.Iterate.{past, probe, scan_from}
use proto_kernel.Radix.Extended.{found}
use proto_kernel.Radix.Skip.{Probed, probe-Probed}

-- the least key from `index` on, or none
abbrev pub Next : (ℕ → ℕ) → (index : ℕ) → Option (ℕ × ℕ) → Type 0
Next f index none = (j : ℕ) → index ≤ j → j < 2 ^ 32 → f j ≡ 0
Next f index (some (key, item)) =
    (index ≤ key)
    × (key < 2 ^ 32)
    × (item ≢ 0)
    × (f key ≡ item)
    × ((j : ℕ) → index ≤ j → j < key → f j ≡ 0)

Next-skip :
    (f : ℕ → ℕ) (index next : ℕ) (o : Option (ℕ × ℕ))
    → index ≤ next
    → ((j : ℕ) → index ≤ j → j < next → f j ≡ 0)
    → Next f next o
    → Next f index o
Next-skip f index next none le free rest = λ j lo hi. elim (Bool-cases (ltb j next)) [
  | inl before ↦ free j lo (ground arith)
  | inr after ↦ rest j (ground arith) hi
]
Next-skip f index next (some (key, item)) le free (lo, hi, nz, at, least) = (
  omega arith,
  hi,
  nz,
  at,
  λ j from to. elim (Bool-cases (ltb j next)) [
    | inl before ↦ free j from (ground arith)
    | inr after ↦ least j (ground arith) to
  ],
)

whole_blocks :
    (level d q : ℕ)
    → level ≤ 5
    → d ≡ q * 2 ^ (6 * level)
    → d < 2 ^ 32
    → d + 2 ^ (6 * level) ≤ 2 ^ 32
whole_blocks zero d q small e w = omega arith
whole_blocks (suc zero) d q small e w = omega arith
whole_blocks (suc (suc zero)) d q small e w = omega arith
whole_blocks (suc (suc (suc zero))) d q small e w = omega arith
whole_blocks (suc (suc (suc (suc zero)))) d q small e w = omega arith
whole_blocks (suc (suc (suc (suc (suc zero))))) d q small e w = omega arith
whole_blocks (suc (suc (suc (suc (suc (suc level)))))) d q small e w = absurd (omega arith)

-- the end of the block that a walk skips
past-end :
    (index level : ℕ)
    → level ≤ 5
    → index < 2 ^ 32
    → (end : ℕ) × (past index level ≡ u32 end)
      × (index < end)
      × (end ≤ 2 ^ 32)
      × ((j : ℕ) → index ≤ j → j < end → j / 2 ^ (6 * level) ≡ index / 2 ^ (6 * level))
past-end index level small w =
    let d = down (6 * level) index in
    let (q, e) = down-multiple (6 * level) index in
    let below = down-le (6 * level) index in
    let above = lt-down (6 * level) index in
    (
      d + 2 ^ (6 * level),
      rw (bit_or-mask (6 * level) index)
          (ap u32 {x = d + (2 ^ (6 * level) - 1) + 1} {y = d + 2 ^ (6 * level)} (omega arith)),
      above,
      whole_blocks level d q small e (omega arith),
      λ j lo hi. block-div (6 * level) index j (omega arith) hi,
    )

found-walk : (h : ℕ) (n : Tree h) (j : ℕ) → lookup_in h n j ≡ 0 → found (tree h n) j ≡ 0
found-walk h n j e = elim (Bool-cases (ltb (maxindex (suc h)) j)) [
  | inl over ↦ rw over refl
  | inr fits ↦ rw fits e
]

-- a round that finds no child goes on past the block, or stops at the end of the numbers
module _ (h : ℕ) (n : Tree h) (max_key : ℕ) (small : h ≤ 5)
    (bound : (j : ℕ) → j < 2 ^ 32 → max_key < j → found (tree h n) j ≡ 0) where
  ended : (index : ℕ) → max_key < index → Next (found (tree h n)) index none
  ended index over j lo hi = bound j hi (omega arith)

  scan-skip :
      (fuel index next : ℕ)
      → index < 2 ^ 32
      → max_key < suc fuel + index
      → Probed h n index (inl next)
      → ((index : ℕ)
          → index < 2 ^ 32
          → max_key < fuel + index
          → Next (found (tree h n)) index (scan_from fuel h n max_key index))
      → Next (found (tree h n)) index (elim (next == 0) as (λ b. Option (ℕ × ℕ)) [
        | true ↦ none
        | false ↦ scan_from fuel h n max_key next
      ])
  scan-skip fuel index next w enough (level, le, is, none_there) rec =
      let (end, at, lt, le32, block) = past-end index level (omega arith) w in
      let free : (j : ℕ) → index ≤ j → j < end → found (tree h n) j ≡ 0 =
        λ j lo hi. found-walk h n j (none_there j (block j lo hi)) in
      elim (Bool-cases (next == 0)) [
        | inl stop ↦ rw stop (λ j lo hi. free j lo (ground (arith, is, at)))
        | inr on ↦
            let same : next ≡ end = ground (arith, is, at) in
            rw on (
              Next-skip (found (tree h n)) index next (scan_from fuel h n max_key next)
                (omega arith) (λ j lo hi. free j lo (omega arith))
                (rec next (ground (arith, is, at)) (omega arith)))
      ]

  scan-item :
      (fuel index item : ℕ)
      → index < 2 ^ 32
      → max_key < suc fuel + index
      → ltb (maxindex (suc h)) index ≡ false
      → Probed h n index (inr item)
      → ((index : ℕ)
          → index < 2 ^ 32
          → max_key < fuel + index
          → Next (found (tree h n)) index (scan_from fuel h n max_key index))
      → Next (found (tree h n)) index (elim (item == 0) as (λ b. Option (ℕ × ℕ)) [
        | false ↦ some (index, item)
        | true ↦ elim (u32 (index + 1) == 0) as (λ b. Option (ℕ × ℕ)) [
          | true ↦ none
          | false ↦ scan_from fuel h n max_key (u32 (index + 1))
        ]
      ])
  scan-item fuel index item w enough fits is rec = elim (Bool-cases (item == 0)) [
    | inr there ↦
        rw there (omega arith, w, ground arith, rw fits (sym is), λ j lo hi. absurd (omega arith))
    | inl gone ↦
        let nothing : found (tree h n) index ≡ 0 = found-walk h n index (ground arith) in
        let free : (j : ℕ) → index ≤ j → j < index + 1 → found (tree h n) j ≡ 0 = λ j lo hi.
          let same : index ≡ j = omega arith in subst (λ j. found (tree h n) j ≡ 0) same nothing in
        elim (Bool-cases (u32 (index + 1) == 0)) [
          | inl stop ↦ rw (gone, stop) (λ j lo hi. free j lo (ground arith))
          | inr on ↦
              rw (gone, on)
                (Next-skip (found (tree h n)) index (u32 (index + 1))
                  (scan_from fuel h n max_key (u32 (index + 1))) (ground arith)
                  (λ j lo hi. free j lo (ground arith))
                  (rec (u32 (index + 1)) (ground arith) (ground arith)))
        ]
  ]

  pub scan_from-Next :
      (fuel index : ℕ)
      → index < 2 ^ 32
      → max_key < fuel + index
      → Next (found (tree h n)) index (scan_from fuel h n max_key index)
  unfolding scan_from
  scan_from-Next zero index w enough = ended index (omega arith)
  scan_from-Next (suc fuel) index w enough = elim (Bool-cases (ltb max_key index)) [
    | inl over ↦ rw (over, scan_from) (ended index (ground arith))
    | inr under ↦ elim (Bool-cases (ltb (maxindex (suc h)) index)) [
      | inl out ↦ rw (under, out, scan_from) (λ j lo hi. outside j lo hi out)
      | inr fits ↦
          rw (under, fits, scan_from)
            (go (probe h n index) (probe-Probed h n index) fits
              (λ index w enough. scan_from-Next fuel index w enough))
    ]
  ]
    where
      outside :
          (j : ℕ)
          → index ≤ j
          → j < 2 ^ 32
          → ltb (maxindex (suc h)) index ≡ true
          → found (tree h n) j ≡ 0
      outside j lo hi out = ground arith

      go :
          (r : ℕ ⊎ ℕ)
          → Probed h n index r
          → ltb (maxindex (suc h)) index ≡ false
          → ((index : ℕ)
              → index < 2 ^ 32
              → max_key < fuel + index
              → Next (found (tree h n)) index (scan_from fuel h n max_key index))
          → Next (found (tree h n)) index (elim r as (λ r. Option (ℕ × ℕ)) [
            | inl next ↦ elim (next == 0) as (λ b. Option (ℕ × ℕ)) [
              | true ↦ none
              | false ↦ scan_from fuel h n max_key next
            ]
            | inr item ↦ elim (item == 0) as (λ b. Option (ℕ × ℕ)) [
              | false ↦ some (index, item)
              | true ↦ elim (u32 (index + 1) == 0) as (λ b. Option (ℕ × ℕ)) [
                | true ↦ none
                | false ↦ scan_from fuel h n max_key (u32 (index + 1))
              ]
            ]
          ])
      go (inl next) p fits rec = scan-skip fuel index next w enough p rec
      go (inr item) p fits rec = scan-item fuel index item w enough fits p rec

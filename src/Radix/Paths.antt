-- ===== src/Radix/Paths.antt =====
-- The slots that an index names at each level, and the levels that an index needs.
use proto_kernel.Prelude.{
  ℕ, zero, suc, ◌*◌, ◌-◌, ◌+◌, ◌^◌, ◌≤◌, ◌<◌, ◌≡◌, refl, ap, ◌↔◌, arith, Bool, true, false, ◌&&◌,
  ◌==◌, ltb, Bool-cases, ==_iff, if◌then◌else◌, inl, inr,
}
use proto_kernel.Radix.{get_slot, maxindex}

-- two indices with one path from level `h` down
abbrev pub same : (h i j : ℕ) → Bool
same zero i j = get_slot i 0 == get_slot j 0
same (suc h) i j = (get_slot i (suc h) == get_slot j (suc h)) && same h i j

pub same_refl : (h i : ℕ) → same h i i ≡ true
same_refl zero i = ground arith
same_refl (suc h) i = ground (arith, same_refl h i)

-- the largest index below a level, as a power
pub maxindex-lt :
    (h j : ℕ) → h ≤ 5 → j < 2 ^ 32 → (ltb (maxindex (suc h)) j ≡ false) ↔ (j < 2 ^ (6 * suc h))
unfolding maxindex
maxindex-lt zero j small w = ground arith
maxindex-lt (suc zero) j small w = ground arith
maxindex-lt (suc (suc zero)) j small w = ground arith
maxindex-lt (suc (suc (suc zero))) j small w = ground arith
maxindex-lt (suc (suc (suc (suc zero)))) j small w = ground arith
maxindex-lt (suc (suc (suc (suc (suc zero))))) j small w = ground arith
maxindex-lt (suc (suc (suc (suc (suc (suc h)))))) j small w = absurd (omega arith)

-- the paths of equal indices, slot by slot
abbrev Slots : (h i j : ℕ) → Type 0
Slots zero i j = get_slot i 0 ≡ get_slot j 0
Slots (suc h) i j = (get_slot i (suc h) ≡ get_slot j (suc h)) × Slots h i j

same-Slots : (h i j : ℕ) → same h i j ≡ true → Slots h i j
same-Slots zero i j e = ground arith
same-Slots (suc h) i j e = (ground arith, same-Slots h i j (ground arith))

eq_of_Slots : (h i j : ℕ) → h ≤ 5 → i < 2 ^ (6 * suc h) → j < 2 ^ (6 * suc h) → Slots h i j → i ≡ j
eq_of_Slots zero i j small hi hj e0 = omega arith
eq_of_Slots (suc zero) i j small hi hj (e1, e0) = omega arith
eq_of_Slots (suc (suc zero)) i j small hi hj (e2, (e1, e0)) = omega arith
eq_of_Slots (suc (suc (suc zero))) i j small hi hj (e3, (e2, (e1, e0))) = omega arith
eq_of_Slots (suc (suc (suc (suc zero)))) i j small hi hj (e4, (e3, (e2, (e1, e0)))) = omega arith
eq_of_Slots (suc (suc (suc (suc (suc zero))))) i j small hi hj (e5, (e4, (e3, (e2, (e1, e0))))) =
    omega arith
eq_of_Slots (suc (suc (suc (suc (suc (suc h)))))) i j small hi hj slots = absurd (omega arith)

-- below its limit a path is one index
pub same-eq :
    (h i j : ℕ) → h ≤ 5 → i < 2 ^ (6 * suc h) → j < 2 ^ (6 * suc h) → same h i j ≡ (i == j)
same-eq h i j small hi hj = elim (Bool-cases (same h i j)) [
  | inl e ↦ let at : i ≡ j = eq_of_Slots h i j small hi hj (same-Slots h i j e) in ground arith
  | inr e ↦ elim (Bool-cases (i == j)) [
    | inr off ↦ cc (e, off)
    | inl on ↦ let at : i ≡ j = ground arith in absurd (cc (e, at, same_refl h i))
  ]
]

-- slot 0 of a level is the level below
pub get_slot-zero_iff :
    (h j : ℕ) → h ≤ 4 → j < 2 ^ (6 * suc (suc h)) → (get_slot j (suc h) ≡ 0) ↔ (j < 2 ^ (6 * suc h))
get_slot-zero_iff zero j small w = ground arith
get_slot-zero_iff (suc zero) j small w = ground arith
get_slot-zero_iff (suc (suc zero)) j small w = ground arith
get_slot-zero_iff (suc (suc (suc zero))) j small w = ground arith
get_slot-zero_iff (suc (suc (suc (suc zero)))) j small w = ground arith
get_slot-zero_iff (suc (suc (suc (suc (suc h))))) j small w = absurd (omega arith)

pub get_slot-lt : (j h : ℕ) → get_slot j h < 64
get_slot-lt j h = omega arith

limit-le : (h : ℕ) → h ≤ 4 → 2 ^ (6 * suc h) ≤ 2 ^ (6 * suc (suc h))
limit-le zero small = omega arith
limit-le (suc zero) small = omega arith
limit-le (suc (suc zero)) small = omega arith
limit-le (suc (suc (suc zero))) small = omega arith
limit-le (suc (suc (suc (suc zero)))) small = omega arith
limit-le (suc (suc (suc (suc (suc h))))) small = absurd (omega arith)

-- slot 0 of a new root is what the old root covers
pub cover-up :
    (h j x : ℕ)
    → h ≤ 4
    → j < 2 ^ 32
    → (if ltb (maxindex (suc (suc h))) j then 0 else if get_slot j (suc h) == 0 then x else 0)
      ≡ (if ltb (maxindex (suc h)) j then 0 else x)
cover-up h j x small w = elim (Bool-cases (ltb (maxindex (suc (suc h))) j)) [
  | inl over ↦ elim (Bool-cases (ltb (maxindex (suc h)) j)) [
    | inl under ↦ rw (over, under) refl
    | inr fits ↦ absurd (
        cc (
          over,
          (maxindex-lt (suc h) j (omega arith) w).1
              (omega (arith, (maxindex-lt h j (omega arith) w).0 fits, limit-le h small)),
        ))
  ]
  | inr fits ↦
      let at = get_slot-zero_iff h j small ((maxindex-lt (suc h) j (omega arith) w).0 fits) in
      rw fits (elim (Bool-cases (ltb (maxindex (suc h)) j)) [
        | inl over ↦ elim (Bool-cases (get_slot j (suc h) == 0)) [
          | inl zero_slot ↦
              absurd (cc (over, (maxindex-lt h j (omega arith) w).1 (at.0 (ground arith))))
          | inr other ↦ rw (over, other) refl
        ]
        | inr low ↦
            rw
              (
                low,
                (==_iff (get_slot j (suc h)) 0).1 (at.1 ((maxindex-lt h j (omega arith) w).0 low)),
              )
              refl
      ])
]

maxindex-suc : (h : ℕ) → h ≤ 5 → maxindex h ≤ maxindex (suc h)
unfolding maxindex
maxindex-suc zero small = omega arith
maxindex-suc (suc zero) small = omega arith
maxindex-suc (suc (suc zero)) small = omega arith
maxindex-suc (suc (suc (suc zero))) small = omega arith
maxindex-suc (suc (suc (suc (suc zero)))) small = omega arith
maxindex-suc (suc (suc (suc (suc (suc zero))))) small = omega arith
maxindex-suc (suc (suc (suc (suc (suc (suc h)))))) small = absurd (omega arith)

-- a higher tree holds the indices of a lower one
maxindex-le : (more h : ℕ) → h + more ≤ 6 → maxindex h ≤ maxindex (h + more)
maxindex-le zero h small =
    let e : maxindex h ≡ maxindex (h + 0) = ap maxindex (omega arith) in omega (arith, e)
maxindex-le (suc more) h small =
    omega (arith, maxindex-le more (suc h) (omega arith), maxindex-suc h (omega arith), e)
  where
    e : maxindex (suc h + more) ≡ maxindex (h + suc more)
    e = ap maxindex (omega arith)

pub fits_up :
    (index lower higher : ℕ)
    → lower ≤ higher
    → higher ≤ 6
    → ltb (maxindex lower) index ≡ false
    → ltb (maxindex higher) index ≡ false
fits_up index lower higher le small fits =
    let up = maxindex-le (higher - lower) lower (omega arith) in
    let at : maxindex (lower + (higher - lower)) ≡ maxindex higher = ap maxindex (omega arith) in
    ground arith

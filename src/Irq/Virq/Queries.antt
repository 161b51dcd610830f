-- ===== src/Irq/Virq/Queries.antt =====
-- What the queries of irq_alloc.c report of the set of taken numbers.
use native.Mathlib.Numerals.{add-one}
use native.Mathlib.Decide.{ℕ_discrete}
use proto_kernel.Prelude.{
  ℕ, zero, suc, ◌+◌, ◌-◌, ◌*◌, ◌≤◌, ◌<◌, ◌≡◌, refl, ◌⊎◌, inl, inr, arith, true, ◌&&◌, ltb, leb,
  if◌then◌else◌, length, ok, Bool-cases,
}
use proto_kernel.Bitmap.{Bitmap}
use proto_kernel.Bitmap.Members.{has, test_bit-ok}
use proto_kernel.Bitmap.Count.{members}
use proto_kernel.Bitmap.Search.{AllClear}
use proto_kernel.Irq.Virq.{
  VirqAllocator, max_virq, is_allocated, count_from, get_allocated_count, last_set,
  get_max_allocated,
}
use proto_kernel.Irq.Virq.Valid.{IsValid}

count_from-members :
    (bitmap : Bitmap) (left i hi : ℕ)
    → i + left ≡ hi
    → hi ≤ 64 * length bitmap
    → count_from bitmap left i (members bitmap i) ≡ ok (members bitmap hi)
unfolding count_from
count_from-members bitmap zero i hi e h = let same : i ≡ hi = omega arith in rw same refl
count_from-members bitmap (suc left) i hi e h =
    rw (test_bit-ok bitmap i (omega arith), ← next)
      (count_from-members bitmap left (i + 1) hi (omega arith) h)
  where
    next :
        members bitmap (i + 1) ≡ (if has bitmap i then members bitmap i + 1 else members bitmap i)
    next = rw add-one (unfold members in ground arith)

-- the greatest member of `[1, top]`, or 0
abbrev pub Greatest : Bitmap → ℕ → ℕ → Type 0
Greatest bitmap top m =
    (m ≤ top) × ((m ≡ 0) ⊎ (has bitmap m ≡ true)) × AllClear bitmap (m + 1) (top + 1)

last_set-Greatest :
    (bitmap : Bitmap) (top : ℕ)
    → top < 64 * length bitmap
    → (m : ℕ) × (last_set bitmap top ≡ ok m) × Greatest bitmap top m
unfolding last_set
last_set-Greatest bitmap zero h = (0, refl, (omega arith, inl refl, λ j p q. absurd (omega arith)))
last_set-Greatest bitmap (suc i) h = elim (Bool-cases (has bitmap (suc i))) [
  | inl taken ↦ (
    suc i,
    rw (test_bit-ok bitmap (suc i) h, taken),
    (omega arith, inr taken, λ j p q. absurd (omega arith)),
  )
  | inr clear ↦
      let (m, run, great) = last_set-Greatest bitmap i (omega arith) in
      (
        m,
        rw (test_bit-ok bitmap (suc i) h, clear) run,
        (
          omega (arith, great.0),
          great.1,
          λ j p q. elim (ℕ_discrete (suc i) j) [
            | yes same ↦ rw same at clear
            | no ne ↦ great.2 j p (omega arith)
          ],
        ),
      )
]

module _ {s : VirqAllocator} {bitmap : Bitmap} (v : IsValid s bitmap) where
  pub is_allocated_lem :
      (virq : ℕ) → is_allocated virq s ≡ ok (ltb virq max_virq && has bitmap virq)
  unfolding is_allocated
  is_allocated_lem virq = elim (Bool-cases (leb s.max virq)) [
    | inl out ↦ rw out (ground (arith, v.limit))
    | inr inside ↦
        rw (inside, v.initialised, test_bit-ok bitmap virq (ground (arith, v.limit, v.size)))
          (ground (arith, v.limit))
  ]

  -- In a valid state virq_get_allocated_count returns the number of members among the 1024
  -- numbers, the reserved 0 included.
  pub get_allocated_count_lem : get_allocated_count s ≡ ok (members bitmap max_virq)
  unfolding get_allocated_count
  get_allocated_count_lem =
      rw (v.initialised, v.limit)
        (unfold members in
          count_from-members bitmap max_virq 0 max_virq (omega arith) (omega (arith, v.size)))

  -- In a valid state virq_get_max_allocated returns a number below 1024 that is 0 or taken, with
  -- no taken number above it.
  pub get_max_allocated_lem :
      (m : ℕ) × (get_max_allocated s ≡ ok m) × Greatest bitmap (max_virq - 1) m
  unfolding get_max_allocated
  get_max_allocated_lem =
      let (m, run, great) = last_set-Greatest bitmap (max_virq - 1) (omega (arith, v.size)) in
      (m, rw (v.initialised, v.limit) run, great)

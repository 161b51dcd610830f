-- ===== src/Bitmap/Search.antt =====
-- The two searches of irq_alloc.c and pmm.c: the first clear bit, and the first run of clear bits.
-- Each is the loop `for (i = ...; i < max; i++)` with its rounds left; `none` is the end of the loop.
use native.Mathlib.Decide.{ℕ_discrete, dec_lt}
use proto_kernel.Prelude.{
  ℕ, zero, suc, ◌+◌, ◌-◌, ◌*◌, ◌≤◌, ◌<◌, ◌≡◌, refl, arith, ◌⊎◌, inl, inr, Bool, true, false, Option,
  none, some, ◌==◌, if◌then◌else◌, Bool-cases, length, Outcome, ok, ◌>>=◌,
}
use proto_kernel.Bitmap.{Bitmap, test_bit}
use proto_kernel.Bitmap.Members.{has, test_bit-ok}

unfoldable pub scan : Bitmap → ℕ → ℕ → Outcome (Option ℕ)
scan bitmap zero i = ok none
scan bitmap (suc left) i = do
  taken ← test_bit bitmap i
  elim taken [ false ↦ ok (some i) | true ↦ scan bitmap left (i + 1) ]

-- `accept` is the check that a run of full length must pass; a run that fails it is dropped.
unfoldable pub scan_run :
    Bitmap → ℕ → (ℕ → Bool) → (left i start consecutive : ℕ) → Outcome (Option ℕ)
scan_run bitmap count accept zero i start consecutive = ok none
scan_run bitmap count accept (suc left) i start consecutive = do
  taken ← test_bit bitmap i
  elim taken [
    | true ↦ scan_run bitmap count accept left (i + 1) start 0
    | false ↦
        let first = if consecutive == 0 then i else start in
        let go_on = scan_run bitmap count accept left (i + 1) first (consecutive + 1) in
        let drop_run = scan_run bitmap count accept left (i + 1) first 0 in
        if consecutive + 1 == count
        then (if accept first then ok (some first) else drop_run)
        else go_on
  ]

-- all of `[lo, hi)` is in the set, or none of it
abbrev pub AllSet : Bitmap → ℕ → ℕ → Type 0
AllSet bitmap lo hi = (j : ℕ) → lo ≤ j → j < hi → has bitmap j ≡ true

abbrev pub AllClear : Bitmap → ℕ → ℕ → Type 0
AllClear bitmap lo hi = (j : ℕ) → lo ≤ j → j < hi → has bitmap j ≡ false

abbrev pub FirstClear : Bitmap → ℕ → ℕ → Option ℕ → Type 0
FirstClear bitmap lo hi none = AllSet bitmap lo hi
FirstClear bitmap lo hi (some p) = (lo ≤ p) × (p < hi) × (has bitmap p ≡ false) × AllSet bitmap lo p

AllSet-step :
    (bitmap : Bitmap) (i hi : ℕ)
    → has bitmap i ≡ true
    → AllSet bitmap (i + 1) hi
    → AllSet bitmap i hi
AllSet-step bitmap i hi taken rest j p q = elim (ℕ_discrete i j) [
  | yes same ↦ rw same at taken
  | no ne ↦ rest j (omega arith) q
]

FirstClear-step :
    (bitmap : Bitmap) (i hi : ℕ) (r : Option ℕ)
    → has bitmap i ≡ true
    → FirstClear bitmap (i + 1) hi r
    → FirstClear bitmap i hi r
FirstClear-step bitmap i hi none taken f = AllSet-step bitmap i hi taken f
FirstClear-step bitmap i hi (some p) taken f =
    (omega arith, f.1, f.2, AllSet-step bitmap i p taken f.3)

pub scan-FirstClear :
    (bitmap : Bitmap) (left i hi : ℕ)
    → i + left ≡ hi
    → hi ≤ 64 * length bitmap
    → (r : Option ℕ) × (scan bitmap left i ≡ ok r) × FirstClear bitmap i hi r
unfolding scan
scan-FirstClear bitmap zero i hi e h = (none, refl, λ j p q. absurd (omega arith))
scan-FirstClear bitmap (suc left) i hi e h = elim (Bool-cases (has bitmap i)) [
  | inl taken ↦
      (let (r, run, first) = scan-FirstClear bitmap left (i + 1) hi (omega arith) h in
        (
          r,
          rw (test_bit-ok bitmap i (omega arith), taken) run,
          FirstClear-step bitmap i hi r taken first,
        ))
  | inr clear ↦ (
    some i,
    rw (test_bit-ok bitmap i (omega arith), clear),
    (omega arith, omega arith, clear, λ j p q. absurd (omega arith)),
  )
]

-- `[lo, lo + count)` is free, and no earlier range of that length is; or none is below `hi`.
abbrev pub FirstRun : Bitmap → ℕ → ℕ → Option ℕ → Type 0
FirstRun bitmap count hi none = (s : ℕ) → s + count ≤ hi → ¬ AllClear bitmap s (s + count)
FirstRun bitmap count hi (some p) =
    (p + count ≤ hi)
    × AllClear bitmap p (p + count)
    × ((s : ℕ) → s < p → ¬ AllClear bitmap s (s + count))

-- what holds before round `i`: the last `run` bits are clear, and the bit before them is not
record Seen (bitmap : Bitmap) (count i start run : ℕ) : Type 0 where
  below : run < count
  within : run ≤ i
  clear : AllClear bitmap (i - run) i
  first : (run ≡ 0) ⊎ (start + run ≡ i)
  edge : (i ≡ run) ⊎ (has bitmap (i - run - 1) ≡ true)
  missed : (s : ℕ) → s + count ≤ i → ¬ AllClear bitmap s (s + count)

module _ (bitmap : Bitmap) (count i start run : ℕ) (seen : Seen bitmap count i start run) where
  open seen use {below, within, clear, first, edge, missed}

  Seen-taken : has bitmap i ≡ true → Seen bitmap count (i + 1) start 0
  Seen-taken taken = record {
    below = omega arith;
    within = omega arith;
    clear = λ j p q. absurd (omega arith);
    first = inl refl;
    edge = inr (let last : i + 1 - 0 - 1 ≡ i = omega arith in rw last taken);
    missed = λ s h all. elim (dec_lt i (s + count)) [
      | yes past ↦ cc (taken, all i (omega arith) past)
      | no before ↦ missed s (omega arith) all
    ];
  }

  clear-extend : has bitmap i ≡ false → AllClear bitmap (i - run) (i + 1)
  clear-extend open_bit j p q = elim (ℕ_discrete i j) [
    | yes same ↦ rw same at open_bit
    | no ne ↦ clear j p (omega arith)
  ]

  Seen-clear :
      (now : ℕ)
      → has bitmap i ≡ false
      → run + 1 < count
      → now + run ≡ i
      → Seen bitmap count (i + 1) now (run + 1)
  Seen-clear now open_bit more e = record {
    below = more;
    within = omega arith;
    clear = λ j p q. clear-extend open_bit j (omega arith) q;
    first = inr (omega arith);
    edge = elim edge [
      | inl whole ↦ inl (omega arith)
      | inr busy ↦
          inr (let same : i + 1 - (run + 1) - 1 ≡ i - run - 1 = omega arith in rw same busy)
    ];
    missed = λ s h all. elim edge [
      | inl whole ↦ absurd (omega arith)
      | inr busy ↦ elim (dec_lt i (s + count)) [
        | yes past ↦ cc (busy, all (i - run - 1) (omega arith) (omega arith))
        | no before ↦ missed s (omega arith) all
      ]
    ];
  }

  Seen-full :
      (now hi : ℕ)
      → has bitmap i ≡ false
      → run + 1 ≡ count
      → now + run ≡ i
      → i < hi
      → FirstRun bitmap count hi (some now)
  Seen-full now hi open_bit full e h = (
    omega arith,
    λ j p q. clear-extend open_bit j (omega arith) (omega arith),
    λ s p. missed s (omega arith),
  )

scan_run-Seen :
    (bitmap : Bitmap) (count : ℕ) (accept : ℕ → Bool) (left i start run hi : ℕ)
    → i + left ≡ hi
    → hi ≤ 64 * length bitmap
    → ((p : ℕ) → p + count ≤ hi → accept p ≡ true)
    → Seen bitmap count i start run
    → (r : Option ℕ) × (scan_run bitmap count accept left i start run ≡ ok r)
      × FirstRun bitmap count hi r
unfolding scan_run
scan_run-Seen bitmap count accept zero i start run hi e h ok_all seen =
    (none, refl, λ s p. seen.missed s (omega arith))
scan_run-Seen bitmap count accept (suc left) i start run hi e h ok_all seen =
    elim (Bool-cases (has bitmap i)) [
      | inl taken ↦
          let (r, loop, found) =
            scan_run-Seen bitmap count accept left (i + 1) start 0 hi (omega arith) h ok_all
              (Seen-taken bitmap count i start run seen taken) in
          (r, rw (test_bit-ok bitmap i (omega arith), taken) loop, found)
      | inr clear ↦ elim (Bool-cases (run + 1 == count)) [
        | inl full ↦ (
          some now,
          rw (test_bit-ok bitmap i (omega arith), clear, full, ok_all now (ground arith)),
          Seen-full bitmap count i start run seen now hi clear (ground arith) now_lem (omega arith),
        )
        | inr more ↦
            let (r, loop, found) =
              scan_run-Seen bitmap count accept left (i + 1) now (run + 1) hi (omega arith) h ok_all
                (Seen-clear bitmap count i start run seen now clear (ground (arith, seen.below))
                  now_lem) in
            (r, rw (test_bit-ok bitmap i (omega arith), clear, more) loop, found)
      ]
    ]
  where
    now : ℕ
    now = if run == 0 then i else start

    now_lem : now + run ≡ i
    now_lem = ground (arith, seen.first, seen.within)

-- From the start of the bitmap the loop finds the first free range of `count > 0` bits, if any.
pub scan_run-FirstRun :
    (bitmap : Bitmap) (count : ℕ) (accept : ℕ → Bool) (hi : ℕ)
    → 0 < count
    → hi ≤ 64 * length bitmap
    → ((p : ℕ) → p + count ≤ hi → accept p ≡ true)
    → (r : Option ℕ) × (scan_run bitmap count accept hi 0 0 0 ≡ ok r) × FirstRun bitmap count hi r
scan_run-FirstRun bitmap count accept hi pos h ok_all =
    scan_run-Seen bitmap count accept hi 0 0 0 hi (omega arith) h ok_all (record {
      below = pos;
      within = omega arith;
      clear = λ j p q. absurd (omega arith);
      first = inl refl;
      edge = inl refl;
      missed = λ s q all. absurd (omega arith);
    })

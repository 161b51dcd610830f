-- ===== src/Irq/Virq/History.antt =====
-- Sequences of calls of irq_alloc.c, in the order in which the lock lets them in.
use proto_kernel.Prelude.{
  ℕ, ◌+◌, ◌^◌, ◌<◌, ◌≡◌, ◌≢◌, refl, arith, true, false, List, [], ◌∷◌, Outcome, ok, ◌>>=◌,
  ok-injective, ap, subst, Bool-cases, inl, inr, ◌∙◌, sym,
}
use proto_kernel.Bitmap.{Bitmap}
use proto_kernel.Bitmap.Members.{has}
use proto_kernel.Bitmap.Ranges.{within}
use proto_kernel.Irq.Virq.{
  VirqAllocator, max_virq, irq_invalid, alloc, alloc_range, free, free_range,
}
use proto_kernel.Irq.Virq.Valid.{IsValid}
use proto_kernel.Irq.Virq.Alloc.{Alloc, AllocRange, Took, alloc_lem, alloc_range_lem}
use proto_kernel.Irq.Virq.Free.{freed, free_lem, free_range_lem}

pub data Op : Type 0 where
  take : Op
  take_range : ℕ → Op
  give : ℕ → Op
  give_range : ℕ → ℕ → Op

abbrev pub Reply : Type 0
Reply = ℕ × VirqAllocator

-- a call, with 0 for the result of the two that return nothing
unfoldable pub step : Op → VirqAllocator → Outcome Reply
step take s = alloc true s
step (take_range count) s = alloc_range true count s
step (give virq) s = do s ← free virq s; ok (0, s)
step (give_range virq count) s = do s ← free_range virq count s; ok (0, s)

unfoldable pub run : List Op → VirqAllocator → Outcome VirqAllocator
run [] s = ok s
run (op ∷ ops) s = do (r, s) ← step op s; run ops s

-- The caller of `virq_free_range` names a range whose end is a `uint32_t`.
abbrev pub NoWrap : Op → Type 0
NoWrap take = Unit
NoWrap (take_range count) = Unit
NoWrap (give virq) = Unit
NoWrap (give_range virq count) = virq + count < 2 ^ 32

-- The call does not give `v` back.
abbrev pub Spares : ℕ → Op → Type 0
Spares v take = Unit
Spares v (take_range count) = Unit
Spares v (give virq) = freed virq 1 v ≡ false
Spares v (give_range virq count) = freed virq count v ≡ false

abbrev pub All : (Op → Type 0) → List Op → Type 0
All P [] = Unit
All P (op ∷ ops) = P op × All P ops

-- what a call keeps: the invariant, and each number that it does not give back
pub record Kept (bitmap : Bitmap) (op : Op) (s' : VirqAllocator) : Type 0 where
  pub after : Bitmap
  pub valid : IsValid s' after
  pub keeps : (v : ℕ) → Spares v op → has bitmap v ≡ true → has after v ≡ true

module _ {s : VirqAllocator} {bitmap : Bitmap} (valid : IsValid s bitmap) where
  Kept-unchanged : (op : Op) (s' : VirqAllocator) → s' ≡ s → Kept bitmap op s'
  Kept-unchanged op s' same =
      rw same (record { after = bitmap; valid = valid; keeps = λ v spares h. h })

  Kept-Took :
      (op : Op) (virq count : ℕ) (s' : VirqAllocator)
      → Took bitmap virq count s'
      → Kept bitmap op s'
  Kept-Took op virq count s' took = record {
    after = took.after;
    valid = took.valid;
    keeps = λ v spares h. ground (arith, took.member v);
  }

  Kept-Alloc : (virq : ℕ) (s' : VirqAllocator) → Alloc s bitmap virq s' → Kept bitmap take s'
  Kept-Alloc virq s' (Alloc.full all invalid same) = Kept-unchanged take s' same
  Kept-Alloc virq s' (Alloc.least pos below clear least took) = Kept-Took take virq 1 s' took

  Kept-AllocRange :
      (count virq : ℕ) (s' : VirqAllocator)
      → AllocRange s bitmap count virq s'
      → Kept bitmap (take_range count) s'
  Kept-AllocRange count virq s' (AllocRange.refused bad invalid same) =
      Kept-unchanged (take_range count) s' same
  Kept-AllocRange count virq s' (AllocRange.full run_lem invalid same) =
      Kept-unchanged (take_range count) s' same
  Kept-AllocRange count virq s' (AllocRange.earliest pos run_lem took) =
      Kept-Took (take_range count) virq count s' took

  pub step-Kept :
      (op : Op)
      → NoWrap op
      → (r : ℕ) × (s' : VirqAllocator) × (step op s ≡ ok (r, s')) × Kept bitmap op s'
  unfolding step
  step-Kept take h =
      let (virq, s', e, a) = alloc_lem valid true in (virq, s', e, Kept-Alloc virq s' a)
  step-Kept (take_range count) h =
      let (virq, s', e, a) = alloc_range_lem valid true count in
      (virq, s', e, Kept-AllocRange count virq s' a)
  step-Kept (give virq) h =
      let (s', e, left) = free_lem valid virq in
      (
        0,
        s',
        rw e refl,
        record {
          after = left.after;
          valid = left.valid;
          keeps = λ v spares h. ground (arith, left.member v);
        },
      )
  step-Kept (give_range virq count) h =
      let (s', e, left) = free_range_lem valid virq count h in
      (
        0,
        s',
        rw e refl,
        record {
          after = left.after;
          valid = left.valid;
          keeps = λ v spares h. ground (arith, left.member v);
        },
      )

-- what a whole history keeps
pub record Survives (bitmap : Bitmap) (ops : List Op) (s' : VirqAllocator) : Type 0 where
  pub after : Bitmap
  pub valid : IsValid s' after
  pub keeps : (v : ℕ) → All (Spares v) ops → has bitmap v ≡ true → has after v ≡ true

pub run_lem :
    (ops : List Op) {s : VirqAllocator} {bitmap : Bitmap}
    → IsValid s bitmap
    → All NoWrap ops
    → (s' : VirqAllocator) × (run ops s ≡ ok s') × Survives bitmap ops s'
unfolding run
run_lem [] {s} {bitmap} valid h =
    (s, refl, record { after = bitmap; valid = valid; keeps = λ v spares h. h })
run_lem (op ∷ ops) {s} {bitmap} valid h =
    let (r, s1, e, kept) = step-Kept valid op h.0 in
    let (s', e', rest) = run_lem ops kept.valid h.1 in
    (
      s',
      rw e e',
      record {
        after = rest.after;
        valid = rest.valid;
        keeps = λ v spares inside. rest.keeps v spares.1 (kept.keeps v spares.0 inside);
      },
    )

-- The results are functions of the state, so what holds of some answer holds of the answer.
alloc-Alloc :
    {s : VirqAllocator} {bitmap : Bitmap} (v : ℕ) (s' : VirqAllocator)
    → IsValid s bitmap
    → alloc true s ≡ ok (v, s')
    → Alloc s bitmap v s'
alloc-Alloc {s} {bitmap} v s' valid e =
    let (w, s'', e', a) = alloc_lem valid true in
    subst (λ (r : Reply). Alloc s bitmap r.0 r.1) (ok-injective (sym e' ∙ e)) a

alloc_range-AllocRange :
    {s : VirqAllocator} {bitmap : Bitmap} (count v : ℕ) (s' : VirqAllocator)
    → IsValid s bitmap
    → alloc_range true count s ≡ ok (v, s')
    → AllocRange s bitmap count v s'
alloc_range-AllocRange {s} {bitmap} count v s' valid e =
    let (w, s'', e', a) = alloc_range_lem valid true count in
    subst (λ (r : Reply). AllocRange s bitmap count r.0 r.1) (ok-injective (sym e' ∙ e)) a

run-Survives :
    (ops : List Op) {s s' : VirqAllocator} {bitmap : Bitmap}
    → IsValid s bitmap
    → All NoWrap ops
    → run ops s ≡ ok s'
    → Survives bitmap ops s'
run-Survives ops {bitmap} valid h e =
    let (s'', e', survives) = run_lem ops valid h in
    subst (Survives bitmap ops) (ok-injective (sym e' ∙ e)) survives

-- A number that `virq_alloc` has handed out is in the set afterwards.
Alloc-has :
    {s : VirqAllocator} {bitmap : Bitmap} (virq : ℕ) (s' : VirqAllocator)
    → Alloc s bitmap virq s'
    → virq ≢ irq_invalid
    → (after : Bitmap) × IsValid s' after × (has after virq ≡ true) × (virq < max_virq)
Alloc-has virq s' (Alloc.full all invalid same) real = absurd (real invalid)
Alloc-has virq s' (Alloc.least pos below clear least took) real =
    (took.after, took.valid, ground (arith, took.member virq), below)

Alloc-ne :
    {s : VirqAllocator} {bitmap : Bitmap} (virq v : ℕ) (s' : VirqAllocator)
    → Alloc s bitmap virq s'
    → has bitmap v ≡ true
    → v < max_virq
    → virq ≢ v
Alloc-ne {bitmap} virq v s' (Alloc.full all invalid same) inside below e = absurd (omega arith)
Alloc-ne {bitmap} virq v s' (Alloc.least pos below clear least took) inside small e =
    cc (ap (has bitmap) e, clear, inside)

AllocRange-ne :
    {s : VirqAllocator} {bitmap : Bitmap} (count virq v : ℕ) (s' : VirqAllocator)
    → AllocRange s bitmap count virq s'
    → has bitmap v ≡ true
    → virq ≢ irq_invalid
    → within virq count v ≡ false
AllocRange-ne count virq v s' (AllocRange.refused bad invalid same) inside real =
    absurd (real invalid)
AllocRange-ne count virq v s' (AllocRange.full none_free invalid same) inside real =
    absurd (real invalid)
AllocRange-ne count virq v s' (AllocRange.earliest pos found took) inside real =
    elim (Bool-cases (within virq count v)) [
      | inl hit ↦ cc (inside, found.1 v (ground arith) (ground arith))
      | inr miss ↦ miss
    ]

-- From a valid state: a number that virq_alloc has returned (other than IRQ_INVALID) is not
-- returned again by virq_alloc, nor lies in a range that virq_alloc_range returns, after any
-- sequence of calls that does not give it back and whose freed ranges do not wrap.
pub no_double_alloc :
    {s : VirqAllocator} {bitmap : Bitmap} (v : ℕ) (s1 : VirqAllocator) (ops : List Op)
    (s2 : VirqAllocator)
    → IsValid s bitmap
    → alloc true s ≡ ok (v, s1)
    → v ≢ irq_invalid
    → All NoWrap ops
    → All (Spares v) ops
    → run ops s1 ≡ ok s2
    → ((w : ℕ) (s3 : VirqAllocator) → alloc true s2 ≡ ok (w, s3) → w ≢ v)
      × ((count w : ℕ) (s3 : VirqAllocator)
          → alloc_range true count s2 ≡ ok (w, s3)
          → w ≢ irq_invalid
          → within w count v ≡ false)
no_double_alloc v s1 ops s2 valid first real no_wrap spares middle =
    let (bitmap1, valid1, inside1, small) = Alloc-has v s1 (alloc-Alloc v s1 valid first) real in
    let end : Survives bitmap1 ops s2 = run-Survives ops valid1 no_wrap middle in
    let inside2 = end.keeps v spares inside1 in
    (
      λ w s3 e. Alloc-ne w v s3 (alloc-Alloc w s3 end.valid e) inside2 small,
      λ count w s3 e found.
          AllocRange-ne count w v s3 (alloc_range-AllocRange count w s3 end.valid e) inside2 found,
    )

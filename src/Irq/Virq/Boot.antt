-- ===== src/Irq/Virq/Boot.antt =====
-- From boot on: the first use makes the bitmap, and no call panics or leaves it.
use proto_kernel.Prelude.{
  ℕ, ◌+◌, ◌≡◌, refl, true, List, [], ◌∷◌, ok, Bool-cases, ◌⊎◌, ltb, leb, ◌==◌, ◌||◌, inl, inr, ◌∙◌,
}
use proto_kernel.Bits.{u32}
use proto_kernel.Bitmap.{Bitmap}
use proto_kernel.Irq.Virq.{VirqAllocator, irq_invalid, alloc, alloc_range, free, free_range}
use proto_kernel.Irq.Virq.Valid.{
  IsValid, IsFresh, started, ensure_init-ok, ensure_init-fresh, started-IsValid,
}
use proto_kernel.Irq.Virq.History.{
  Op, take, take_range, give, give_range, NoWrap, All, step, run, step-Kept,
}

-- the state before the first use, or a valid one
abbrev pub Sound : VirqAllocator → Type 0
Sound s = IsFresh s ⊎ ((bitmap : Bitmap) × IsValid s bitmap)

alloc-started : {s : VirqAllocator} → IsFresh s → alloc true s ≡ alloc true (started s)
unfolding alloc
alloc-started f = rw (ensure_init-fresh f, ensure_init-ok (started-IsValid f) true) refl

alloc_range-started :
    {s : VirqAllocator} (count : ℕ)
    → IsFresh s
    → alloc_range true count s ≡ alloc_range true count (started s)
      ⊎ (alloc_range true count s ≡ ok (irq_invalid, s))
unfolding alloc_range
alloc_range-started {s} count f = elim (Bool-cases (count == 0 || ltb s.max count)) [
  | inl bad ↦ inr (rw bad)
  | inr good ↦ inl (rw (good, ensure_init-fresh f, ensure_init-ok (started-IsValid f) true) refl)
]

free-fresh : {s : VirqAllocator} (virq : ℕ) → IsFresh s → free virq s ≡ ok s
unfolding free
free-fresh {s} virq f = elim (Bool-cases (virq == 0 || leb s.max virq)) [
  | inl bad ↦ rw bad
  | inr good ↦ rw good (simp f.empty)
]

free_range-fresh : {s : VirqAllocator} (virq count : ℕ) → IsFresh s → free_range virq count s ≡ ok s
unfolding free_range
free_range-fresh {s} virq count f =
    elim (Bool-cases (virq == 0 || (count == 0 || ltb s.max (u32 (virq + count))))) [
      | inl bad ↦ rw bad
      | inr good ↦ rw good (simp f.empty)
    ]

step-fresh :
    (op : Op) {s : VirqAllocator}
    → IsFresh s
    → NoWrap op
    → (r : ℕ) × (s' : VirqAllocator) × (step op s ≡ ok (r, s')) × Sound s'
unfolding step
step-fresh take f h =
    let (r, s', e, kept) = step-Kept (started-IsValid f) take h in
    (r, s', alloc-started f ∙ e, inr (kept.after, kept.valid))
step-fresh (take_range count) {s} f h =
    let (r, s', e, kept) = step-Kept (started-IsValid f) (take_range count) h in
    elim (alloc_range-started count f) [
      | inl same ↦ (r, s', same ∙ e, inr (kept.after, kept.valid))
      | inr refused ↦ (irq_invalid, s, refused, inl f)
    ]
step-fresh (give virq) {s} f h = (0, s, rw (free-fresh virq f) refl, inl f)
step-fresh (give_range virq count) {s} f h = (0, s, rw (free_range-fresh virq count f) refl, inl f)

-- Every sequence of virq_alloc, virq_alloc_range, virq_free and virq_free_range calls, run from
-- the initial state or a valid one with memory at hand, returns without a panic or an access
-- outside the bitmap, and ends before the first use or in a valid state, as long as no freed
-- range wraps past 2^32.
pub boot_safe :
    (ops : List Op) {s : VirqAllocator}
    → Sound s
    → All NoWrap ops
    → (s' : VirqAllocator) × (run ops s ≡ ok s') × Sound s'
unfolding run
boot_safe [] {s} sound h = (s, refl, sound)
boot_safe (op ∷ ops) (inl f) h =
    let (r, s1, e, sound) = step-fresh op f h.0 in
    let (s', e', rest) = boot_safe ops sound h.1 in (s', rw e e', rest)
boot_safe (op ∷ ops) (inr (bitmap, valid)) h =
    let (r, s1, e, kept) = step-Kept valid op h.0 in
    let (s', e', rest) = boot_safe ops (inr (kept.after, kept.valid)) h.1 in (s', rw e e', rest)

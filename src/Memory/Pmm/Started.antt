-- ===== src/Memory/Pmm/Started.antt =====
-- The regions that `pmm_init` sets up, before anything is reserved.
use proto_kernel.Prelude.{
  ℕ, zero, suc, ◌+◌, ◌*◌, ◌/◌, ◌^◌, ◌≤◌, ◌<◌, ◌≡◌, refl, subst, ◌∙◌, ap, arith, ◌⊎◌, inl, inr, Bool,
  true, false, Option, none, some, List, [], ◌∷◌, ◌==◌, ltb, if◌then◌else◌, length, get_elem?,
  replicate, length-replicate, Outcome, ok, ◌>>=◌, in_bounds, Bool-cases,
}
use proto_kernel.Bits.{u64}
use proto_kernel.Bitmap.Count.{has-zeros, members-zeros}
use proto_kernel.Memory.Bootstrap.{Bootstrap, align_up, pmm_bootstrap_alloc}
use proto_kernel.Memory.Pmm.{Region, Stats, page_size}
use proto_kernel.Memory.Pmm.Pages.{RegionValid, page_of, free_at}
use proto_kernel.Memory.Pmm.Replace.{Apart, AllValid, sum_free, sum_total, free_anywhere}
use proto_kernel.Memory.Pmm.Locate.{managed}
use proto_kernel.Memory.Pmm.Init.{
  MemoryRegion, bitmap_bytes, init_region, counted, add_region, init_regions,
}

-- two ranges share no address
abbrev pub Disjoint : (base size base' size' : ℕ) → Type 0
Disjoint base size base' size' = (base + size ≤ base') ⊎ (base' + size' ≤ base)

-- The first `n` entries of the list end before the top of the address space and share no address.
pub record Usable (ms : List MemoryRegion) (n : ℕ) : Type 0 where
  pub listed : n ≤ length ms
  pub span :
      (i : ℕ) (m : MemoryRegion)
      → i < n
      → get_elem? ms i ≡ some m
      → m.base + m.size + page_size ≤ 2 ^ 64
  pub apart :
      (i j : ℕ) (m m' : MemoryRegion)
      → i < j
      → j < n
      → get_elem? ms i ≡ some m
      → get_elem? ms j ≡ some m'
      → Disjoint m.base m.size m'.base m'.size

-- the region that an entry becomes
abbrev pub fresh : MemoryRegion → Region
fresh m = record {
  base = m.base;
  size = m.size;
  bitmap = replicate (bitmap_bytes (m.size / 2 ^ 12) / 8) 0;
  bitmap_size = bitmap_bytes (m.size / 2 ^ 12);
  total_pages = m.size / 2 ^ 12;
  free_pages = m.size / 2 ^ 12;
}

fresh-RegionValid :
    (m : MemoryRegion) → m.base + m.size + page_size ≤ 2 ^ 64 → RegionValid (fresh m)
fresh-RegionValid m h = record {
  span = h;
  pages = refl;
  room = omega (arith, length-replicate {A = ℕ} (bitmap_bytes (m.size / 2 ^ 12) / 8) 0);
  counted = omega (arith, members-zeros (bitmap_bytes (m.size / 2 ^ 12) / 8) (m.size / 2 ^ 12));
}

free_at-fresh :
    (m : MemoryRegion) (q : ℕ) → free_at (fresh m) q ≡ ltb (page_of (fresh m) q) (m.size / 2 ^ 12)
free_at-fresh m q =
    ground (arith, has-zeros (bitmap_bytes (m.size / 2 ^ 12) / 8) (page_of (fresh m) q))

-- what the loop has set up from entry `i` on
pub record Filled (ms : List MemoryRegion) (left i : ℕ) (t : Stats) (rs : List Region) (t' : Stats)
    : Type 0 where
  pub valid : AllValid rs
  pub apart :
      (x : Region)
      → ((j : ℕ) (m : MemoryRegion)
          → i ≤ j
          → j < i + left
          → get_elem? ms j ≡ some m
          → Disjoint x.base x.size m.base m.size)
      → Apart x rs
  pub free : t'.free_pages ≡ t.free_pages + sum_free rs
  pub total : t'.total_pages ≡ t.total_pages + sum_total rs
  pub all_free : (q : ℕ) → free_anywhere rs q ≡ managed rs q
  pub same_sums : sum_free rs ≡ sum_total rs
  pub small : sum_total rs ≤ left * 2 ^ 52
  pub reserved : t'.reserved_pages ≡ t.reserved_pages
  pub allocated : t'.allocated_pages ≡ t.allocated_pages

module _ (ms : List MemoryRegion) (left i : ℕ) (t : Stats) (rs : List Region) (t' : Stats) where
  Filled-skip : Filled ms left (i + 1) t rs t' → Filled ms (suc left) i t rs t'
  Filled-skip f = record {
    valid = f.valid;
    apart = λ x d. f.apart x (λ j m lo hi e. d j m (omega arith) (omega arith) e);
    free = f.free;
    total = f.total;
    all_free = f.all_free;
    same_sums = f.same_sums;
    small = omega (arith, f.small);
    reserved = f.reserved;
    allocated = f.allocated;
  }

  module _ (m : MemoryRegion) (e : get_elem? ms i ≡ some m) (u : Usable ms (i + suc left))
      (room : t.free_pages + suc left * 2 ^ 52 < 2 ^ 64)
      (room' : t.total_pages + suc left * 2 ^ 52 < 2 ^ 64) where
    spans : m.base + m.size + page_size ≤ 2 ^ 64
    spans = u.span i m (omega arith) e

    Filled-cons :
        Filled ms left (i + 1) (counted (fresh m) t) rs t'
        → Filled ms (suc left) i t (fresh m ∷ rs) t'
    unfolding free_anywhere managed
    Filled-cons f = record {
      valid = (
        fresh-RegionValid m spans,
        f.apart (fresh m) (λ j m' lo hi e'. u.apart i j m m' (omega arith) (omega arith) e e'),
        f.valid,
      );
      apart = λ x d. (
        d i m (omega arith) (omega arith) e,
        f.apart x (λ j m' lo hi e'. d j m' (omega arith) (omega arith) e'),
      );
      free = omega (arith, f.free, spans);
      total = omega (arith, f.total, spans);
      all_free = λ q. rw (free_at-fresh m q, f.all_free q) refl;
      same_sums = omega (arith, f.same_sums);
      small = omega (arith, f.small, spans);
      reserved = f.reserved;
      allocated = f.allocated;
    }

used-le :
    (size alignment : ℕ) (b : Bootstrap)
    → (pmm_bootstrap_alloc size alignment b).1.used ≤ b.used + size
unfolding pmm_bootstrap_alloc
used-le size alignment b = elim (Bool-cases (size == 0)) [
  | inl nothing ↦ rw nothing (omega arith)
  | inr some_size ↦
      elim (Bool-cases
        (ltb b.end (u64 (align_up b.current (if alignment == 0 then 8 else alignment) + size)))) [
          | inl over ↦ rw (some_size, over) (omega arith)
          | inr fits ↦ rw (some_size, fits) (omega arith)
        ]
]

pub entry :
    (ms : List MemoryRegion) (i : ℕ)
    → i < length ms
    → (m : MemoryRegion) × (get_elem? ms i ≡ some m)
entry [] i h = absurd (omega arith)
entry (m ∷ ms) zero h = (m, refl)
entry (m ∷ ms) (suc i) h = entry ms i (omega arith)

module _ (ms : List MemoryRegion) (left i : ℕ) (t : Stats) (b : Bootstrap) (m : MemoryRegion)
    (e : get_elem? ms i ≡ some m) where
  -- what the bootstrap allocator answers
  abbrev pub taken : ℕ × Bootstrap
  taken = pmm_bootstrap_alloc (bitmap_bytes (m.size / 2 ^ 12)) 8 b

  abbrev pub next : Stats → Bootstrap → Outcome (List Region × Stats × Bootstrap)
  next = init_regions ms left (i + 1)

  init_regions-round :
      (found : Option Region)
      → init_region m b ≡ (found, taken.1)
      → init_regions ms (suc left) i t b ≡ add_region (found, taken.1) t next
  unfolding init_regions
  init_regions-round found region =
      ap (λ o. in_bounds o >>= λ m. add_region (init_region m b) t next) e
      ∙ ap (λ p. add_region p t next) region

  init_region-none : (taken.0 == 0) ≡ true → init_region m b ≡ (none, taken.1)
  unfolding init_region
  init_region-none h = ap (λ (c : Bool). (if c then none else some (fresh m), taken.1)) h

  init_region-some : (taken.0 == 0) ≡ false → init_region m b ≡ (some (fresh m), taken.1)
  unfolding init_region
  init_region-some h = ap (λ (c : Bool). (if c then none else some (fresh m), taken.1)) h

  pub init_regions-skip :
      (r : List Region × Stats × Bootstrap)
      → (taken.0 == 0) ≡ true
      → next t taken.1 ≡ ok r
      → init_regions ms (suc left) i t b ≡ ok r
  unfolding add_region
  init_regions-skip r none_left run = init_regions-round none (init_region-none none_left) ∙ run

  pub init_regions-cons :
      (rs : List Region) (t' : Stats) (b' : Bootstrap)
      → (taken.0 == 0) ≡ false
      → next (counted (fresh m) t) taken.1 ≡ ok (rs, t', b')
      → init_regions ms (suc left) i t b ≡ ok (fresh m ∷ rs, t', b')
  unfolding add_region
  init_regions-cons rs t' b' some_left run =
      init_regions-round (some (fresh m)) (init_region-some some_left) ∙ rw run refl

pub init_regions-Filled :
    (ms : List MemoryRegion) (left i : ℕ) (t : Stats) (b : Bootstrap)
    → Usable ms (i + left)
    → t.free_pages + left * 2 ^ 52 < 2 ^ 64
    → t.total_pages + left * 2 ^ 52 < 2 ^ 64
    → (rs : List Region) × (t' : Stats) × (b' : Bootstrap) × (init_regions ms left i t b
        ≡ ok (rs, t', b'))
      × Filled ms left i t rs t'
      × (b'.used ≤ b.used + left * 2 ^ 50)
unfolding init_regions init_region free_anywhere managed
init_regions-Filled ms zero i t b u room room' = (
  [],
  t,
  b,
  refl,
  record {
    valid = tt;
    apart = λ x d. tt;
    free = omega arith;
    total = omega arith;
    all_free = λ q. refl;
    same_sums = refl;
    small = omega arith;
    reserved = refl;
    allocated = refl;
  },
  omega arith,
)
init_regions-Filled ms (suc left) i t b u room room' =
    let (m, e) = entry ms i (omega (arith, u.listed)) in
    let same : i + suc left ≡ i + 1 + left = omega arith in
    let u1 : Usable ms (i + 1 + left) = subst (Usable ms) same u in
    let span = u.span i m (omega arith) e in
    let used = used-le (bitmap_bytes (m.size / 2 ^ 12)) 8 b in
    elim (Bool-cases ((taken ms left i t b m e).0 == 0)) [
      | inl no_bitmap ↦
          let (rs, t', b', run, f, le) =
            init_regions-Filled ms left (i + 1) t (taken ms left i t b m e).1 u1 (omega arith)
              (omega arith) in
          (
            rs,
            t',
            b',
            init_regions-skip ms left i t b m e (rs, t', b') no_bitmap run,
            Filled-skip ms left i t rs t' f,
            omega (arith, used, le, span),
          )
      | inr some_bitmap ↦
          let (rs, t', b', run, f, le) =
            init_regions-Filled ms left (i + 1) (counted (fresh m) t) (taken ms left i t b m e).1 u1
              (omega (arith, span)) (omega (arith, span)) in
          (
            fresh m ∷ rs,
            t',
            b',
            init_regions-cons ms left i t b m e rs t' b' some_bitmap run,
            Filled-cons ms left i t rs t' m e u room room' f,
            omega (arith, used, le, span),
          )
    ]

-- ===== src/Memory/Pmm/FreePages.antt =====
-- `pmm_free_pages` gives back what `pmm_alloc_page` and `pmm_alloc_pages` granted.
use proto_kernel.Prelude.{
  ℕ, zero, suc, ◌+◌, ◌*◌, ◌^◌, ◌≤◌, ◌<◌, ◌≡◌, refl, ◌∙◌, arith, true, false, if◌then◌else◌, ok,
}
use proto_kernel.Bits.{u64}
use proto_kernel.Memory.Pmm.{Pmm, DirectMap, page_size, free_each, free_pages}
use proto_kernel.Memory.Pmm.Pages.{on_pages}
use proto_kernel.Memory.Pmm.Replace.{free_anywhere}
use proto_kernel.Memory.Pmm.Valid.{IsValid}
use proto_kernel.Memory.Pmm.Locate.{managed, page_start, in_use, managed_of_free}
use proto_kernel.Memory.Pmm.Free.{Released, Freed, ignored, released, free_page_lem}
use proto_kernel.Memory.Pmm.AllocPages.{Granted}

-- `n` pages from `pa` on are in use, and each of them is a whole page of its region.
pub record Held (s : Pmm) (pa n : ℕ) : Type 0 where
  pub page : (k : ℕ) → k < n → managed s.regions (pa + k * page_size) ≡ true
  pub busy : (k : ℕ) → k < n → free_anywhere s.regions (pa + k * page_size) ≡ false
  pub start : (k : ℕ) → k < n → page_start s.regions (pa + k * page_size) ≡ pa + k * page_size
  pub end : pa + n * page_size ≤ 2 ^ 64

-- `s'` has those pages free beyond the free pages of `s`.
pub record GivenBack (s : Pmm) (pa n : ℕ) (s' : Pmm) : Type 0 where
  pub valid : IsValid s'
  pub after :
      (q : ℕ)
      → free_anywhere s'.regions q ≡ (if on_pages pa n q then true else free_anywhere s.regions q)
  pub counts : s'.stats.free_pages ≡ s.stats.free_pages + n

module _ {s : Pmm} (pa n : ℕ) (held : Held s pa (suc n)) where
  first : pa + 0 * page_size ≡ pa
  first = omega arith

  Released-Held : (s' : Pmm) → Freed s pa s' → Released s pa s'
  Released-Held s' (ignored idle same) =
      let m : managed s.regions pa ≡ true = rw first at (held.page 0 (omega arith)) in
      let b : free_anywhere s.regions pa ≡ false = rw first at (held.busy 0 (omega arith)) in
      let used : in_use s.regions pa ≡ true = rw (m, b) in cc (used, idle)
  Released-Held s' (released used r) = r

  pub start_lem : page_start s.regions pa ≡ pa
  start_lem = rw first at (held.start 0 (omega arith))

  -- After the first page is freed the others are still held.
  Held-next : {s' : Pmm} → Released s pa s' → Held s' (pa + page_size) n
  Held-next {s'} r = record {
    page = λ k h. r.same_pages (pa + page_size + k * page_size) ∙ at_page k h;
    busy = λ k h. ground (arith, r.after (pa + page_size + k * page_size), start_lem, at_busy k h);
    start = λ k h. r.same_starts (pa + page_size + k * page_size) ∙ at_start k h;
    end = omega (arith, held.end);
  }
    where
      shift : (k : ℕ) → pa + suc k * page_size ≡ pa + page_size + k * page_size
      shift k = omega arith

      at_page : (k : ℕ) → k < n → managed s.regions (pa + page_size + k * page_size) ≡ true
      at_page k h = rw (shift k) at (held.page (suc k) (omega arith))

      at_busy : (k : ℕ) → k < n → free_anywhere s.regions (pa + page_size + k * page_size) ≡ false
      at_busy k h = rw (shift k) at (held.busy (suc k) (omega arith))

      at_start :
          (k : ℕ)
          → k < n
          → page_start s.regions (pa + page_size + k * page_size) ≡ pa + page_size + k * page_size
      at_start k h = rw (shift k) at (held.start (suc k) (omega arith))

free_each-GivenBack :
    (base left i pa : ℕ) {s : Pmm}
    → base + i * page_size ≡ pa
    → IsValid s
    → Held s pa left
    → (s' : Pmm) × (free_each base left i s ≡ ok s') × GivenBack s pa left s'
unfolding free_each
free_each-GivenBack base zero i pa {s} e v held =
    (s, refl, record { valid = v; after = λ q. ground arith; counts = omega arith })
free_each-GivenBack base (suc left) i pa {s} e v held =
    let (s1, run, freed) = free_page_lem v pa (omega (arith, held.end)) in
    let r : Released s pa s1 = Released-Held pa left held s1 freed in
    let (s', rest, back) =
      free_each-GivenBack base left (i + 1) (pa + page_size) (omega arith) r.valid
        (Held-next pa left held r) in
    (
      s',
      rw (exact, run) rest,
      record {
        valid = back.valid;
        after = λ q. ground (arith, back.after q, r.after q, start_lem pa left held);
        counts = omega (arith, back.counts, r.counts);
      },
    )
  where
    exact : u64 (base + u64 (i * page_size)) ≡ pa
    exact = omega (arith, held.end)

pub free_pages_lem :
    {s : Pmm} (pa count : ℕ)
    → IsValid s
    → Held s pa count
    → (s' : Pmm) × (free_pages pa count s ≡ ok s') × GivenBack s pa count s'
unfolding free_pages
free_pages_lem pa count v held = free_each-GivenBack pa count 0 pa (omega arith) v held

Held-Granted :
    (d : DirectMap) {s : Pmm} (count pa : ℕ) (s' : Pmm) → Granted d count s pa s' → Held s' pa count
Held-Granted d {s} count pa s' g = record {
  page = λ k h.
      g.same_pages (pa + k * page_size)
      ∙ managed_of_free s.regions (pa + k * page_size)
          (g.whole (pa + k * page_size) (ground arith));
  busy = λ k h. ground (arith, g.after (pa + k * page_size));
  start = g.starts;
  end = g.end;
}

-- Pages that an allocation granted, given back by pmm_free_pages, leave a valid state with the
-- same free addresses and the same free counter as before the allocation.
pub free_pages-alloc :
    (d : DirectMap) {s : Pmm} (count pa : ℕ) (s' : Pmm)
    → Granted d count s pa s'
    → (s'' : Pmm) × (free_pages pa count s' ≡ ok s'')
      × IsValid s''
      × (s''.stats.free_pages ≡ s.stats.free_pages)
      × ((q : ℕ) → free_anywhere s''.regions q ≡ free_anywhere s.regions q)
free_pages-alloc d {s} count pa s' g =
    let (s'', run, back) = free_pages_lem pa count g.valid (Held-Granted d count pa s' g) in
    (
      s'',
      run,
      back.valid,
      omega (arith, back.counts, g.counts),
      λ q. ground (arith, back.after q, g.after q, g.whole q),
    )

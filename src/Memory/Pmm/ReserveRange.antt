-- ===== src/Memory/Pmm/ReserveRange.antt =====
-- `pmm_reserve_region`: exactly the pages that the range touches go out of use, in every region.
use proto_kernel.Prelude.{
  ℕ, zero, suc, ◌+◌, ◌*◌, ◌^◌, ◌≤◌, ◌<◌, ◌≡◌, refl, ◌∙◌, arith, inl, inr, Bool, true, false, ◌==◌,
  if◌then◌else◌, length, ok, Bool-cases,
}
use proto_kernel.Bits.{u64, sub64}
use proto_kernel.Bitmap.Members.{has, add, set_bit-ok, test_bit-ok, has-add, length-add}
use proto_kernel.Bitmap.Count.{members, members-le, members-add}
use proto_kernel.Bitmap.Ranges.{within}
use proto_kernel.Memory.Pmm.{Region, Stats}
use proto_kernel.Memory.Pmm.Pages.{RegionValid, free_pages-lt}
use proto_kernel.Memory.Pmm.Replace.{Same}
use proto_kernel.Memory.Pmm.Reserve.{reserve_bit, reserve_bits}

abbrev pub pages_in : Stats → ℕ
pages_in t = u64 (t.free_pages + t.reserved_pages + t.allocated_pages)

-- A region and the counters while the region's pages are reserved; `rest` are the other regions'
-- free pages.
pub record Ready (rest : ℕ) (r : Region) (t : Stats) : Type 0 where
  pub valid : RegionValid r
  pub free : t.free_pages ≡ r.free_pages + rest
  pub bound : r.total_pages + rest < 2 ^ 64

-- `r'` is `r` with the pages that `hit` names in use as well, and `t'` counts them as reserved.
pub record Marked (hit : ℕ → Bool) (rest : ℕ) (r : Region) (t : Stats) (r' : Region) (t' : Stats)
    : Type 0 where
  pub ready : Ready rest r' t'
  pub same : Same r r'
  pub bits : (j : ℕ) → has r'.bitmap j ≡ (if hit j then true else has r.bitmap j)
  pub balance : pages_in t' ≡ pages_in t
  pub total : t'.total_pages ≡ t.total_pages

pub Marked-nothing :
    (hit : ℕ → Bool) (rest : ℕ) (r : Region) (t : Stats)
    → Ready rest r t
    → ((j : ℕ) → hit j ≡ true → has r.bitmap j ≡ true)
    → Marked hit rest r t r t
Marked-nothing hit rest r t w already = record {
  ready = w;
  same = record { base = refl; size = refl; total = refl };
  bits = λ j. ground (arith, already j);
  balance = refl;
  total = refl;
}

module _ (page rest : ℕ) (r : Region) (t : Stats) (w : Ready rest r t)
    (h : page < r.total_pages) where
  fits : page < 64 * length r.bitmap
  fits = omega (arith, w.valid.room)

  Marked-add :
      has r.bitmap page ≡ false
      → Marked
          (λ j. page == j)
          rest
          r
          t
          (record r { bitmap = add r.bitmap page; free_pages = sub64 r.free_pages 1 })
          (record t {
            free_pages = sub64 t.free_pages 1;
            reserved_pages = u64 (t.reserved_pages + 1);
          })
  Marked-add clear = record {
    ready = record {
      valid = record {
        span = w.valid.span;
        pages = w.valid.pages;
        room = omega (arith, length-add r.bitmap page, w.valid.room);
        counted = omega (arith, some_free, w.valid.counted, more, free_pages-lt w.valid);
      };
      free = omega (arith, some_free, w.free, w.bound, w.valid.counted);
      bound = w.bound;
    };
    same = record { base = refl; size = refl; total = refl };
    bits = has-add r.bitmap page fits;
    balance = omega (arith, some_free, w.free, w.bound, w.valid.counted);
    total = refl;
  }
    where
      more : members (add r.bitmap page) r.total_pages ≡ members r.bitmap r.total_pages + 1
      more = members-add r.bitmap page r.total_pages fits h clear

      some_free : 0 < r.free_pages
      some_free = omega (arith, w.valid.counted, more, members-le (add r.bitmap page) r.total_pages)

  pub reserve_bit-Marked :
      (r' : Region) × (t' : Stats) × (reserve_bit page (r, t) ≡ ok (r', t'))
      × Marked (λ j. page == j) rest r t r' t'
  unfolding reserve_bit
  reserve_bit-Marked = elim (Bool-cases (has r.bitmap page)) [
    | inl used ↦ (
      r,
      t,
      rw (test_bit-ok r.bitmap page fits, used),
      Marked-nothing (λ j. page == j) rest r t w
          (λ j hit. let e : page ≡ j = ground arith in rw e at used),
    )
    | inr clear ↦ (
      record r { bitmap = add r.bitmap page; free_pages = sub64 r.free_pages 1 },
      record t { free_pages = sub64 t.free_pages 1; reserved_pages = u64 (t.reserved_pages + 1) },
      rw (test_bit-ok r.bitmap page fits, clear, set_bit-ok r.bitmap page fits) refl,
      Marked-add clear,
    )
  ]

-- one round before the others
Marked-join :
    (page left rest : ℕ) (r : Region) (t : Stats) (r1 : Region) (t1 : Stats) (r2 : Region)
    (t2 : Stats)
    → Marked (λ j. page == j) rest r t r1 t1
    → Marked (within (page + 1) left) rest r1 t1 r2 t2
    → Marked (within page (suc left)) rest r t r2 t2
Marked-join page left rest r t r1 t1 r2 t2 a b = record {
  ready = b.ready;
  same = record {
    base = b.same.base ∙ a.same.base;
    size = b.same.size ∙ a.same.size;
    total = b.same.total ∙ a.same.total;
  };
  bits = λ j. ground (arith, b.bits j, a.bits j);
  balance = b.balance ∙ a.balance;
  total = b.total ∙ a.total;
}

pub reserve_bits-Marked :
    (left page rest : ℕ) (r : Region) (t : Stats)
    → Ready rest r t
    → page + left ≤ r.total_pages
    → (r' : Region) × (t' : Stats) × (reserve_bits left page (r, t) ≡ ok (r', t'))
      × Marked (within page left) rest r t r' t'
unfolding reserve_bits
reserve_bits-Marked zero page rest r t w h =
    (r, t, refl, Marked-nothing (within page 0) rest r t w (λ j hit. absurd (ground arith)))
reserve_bits-Marked (suc left) page rest r t w h =
    let (r1, t1, run, a) = reserve_bit-Marked page rest r t w (omega arith) in
    let (r2, t2, loop, b) =
      reserve_bits-Marked left (page + 1) rest r1 t1 a.ready (omega (arith, a.same.total)) in
    (r2, t2, rw run loop, Marked-join page left rest r t r1 t1 r2 t2 a b)

-- ===== src/Memory/Pmm/Filling.antt =====
-- The regions that `pmm_init` fills are the listed ones, and their bitmaps take what they need.
use proto_kernel.Prelude.{
  ℕ, zero, suc, ◌+◌, ◌-◌, ◌*◌, ◌/◌, ◌^◌, ◌≤◌, ◌<◌, ◌≡◌, inl, inr, refl, sym, ap, subst, ◌∙◌, arith,
  Bool, true, false, none, some, List, ◌∷◌, ltb, if◌then◌else◌, get_elem?, Bool-cases, ok,
}
use proto_kernel.Bits.{u64}
use proto_kernel.Memory.Pmm.{Region, page_size, inside}
use proto_kernel.Memory.Pmm.Pages.{page_of}
use proto_kernel.Memory.Pmm.Locate.{managed, page_start}
use proto_kernel.Memory.Pmm.Init.{MemoryRegion, bitmap_bytes, sum_bitmaps}
use proto_kernel.Memory.Pmm.Started.{Disjoint, Usable, fresh, entry}
use proto_kernel.Memory.Pmm.Layout.{needed, on_page, listed, listed_start}

pub bitmap_bytes-exact :
    (m : MemoryRegion)
    → m.base + m.size + page_size ≤ 2 ^ 64
    → bitmap_bytes (m.size / 2 ^ 12) ≡ 8 * ((m.size / 4096 + 63) / 64)
bitmap_bytes-exact m span = omega arith

module _ (ms : List MemoryRegion) where
  pub needed-cons :
      (left i : ℕ) (m : MemoryRegion)
      → get_elem? ms i ≡ some m
      → needed ms (suc left) i ≡ 8 * ((m.size / 4096 + 63) / 64) + needed ms left (i + 1)
  unfolding needed
  needed-cons left i m e =
      ap
        (λ o. elim o as (λ _. ℕ) [
          | none ↦ needed ms left (i + 1)
          | some m ↦ 8 * ((m.size / 4096 + 63) / 64) + needed ms left (i + 1)
        ])
        e

  listed-cons :
      (left i q : ℕ) (m : MemoryRegion)
      → get_elem? ms i ≡ some m
      → listed ms (suc left) i q ≡ (if on_page m q then true else listed ms left (i + 1) q)
  unfolding listed
  listed-cons left i q m e =
      ap
        (λ o. elim o as (λ _. Bool) [
          | none ↦ listed ms left (i + 1) q
          | some m ↦ if on_page m q then true else listed ms left (i + 1) q
        ])
        e

  listed_start-cons :
      (left i q : ℕ) (m : MemoryRegion)
      → get_elem? ms i ≡ some m
      → listed_start ms (suc left) i q ≡ (
          if on_page m q
          then m.base + (q - m.base) / 4096 * 4096
          else listed_start ms left (i + 1) q)
  unfolding listed_start
  listed_start-cons left i q m e =
      ap
        (λ o. elim o as (λ _. ℕ) [
          | none ↦ listed_start ms left (i + 1) q
          | some m ↦
              if on_page m q
              then m.base + (q - m.base) / 4096 * 4096
              else listed_start ms left (i + 1) q
        ])
        e

  pub later-Usable : (i left : ℕ) → Usable ms (i + suc left) → Usable ms (i + 1 + left)
  later-Usable i left u = subst (Usable ms) (omega arith) u

  pub needed-le : (left i : ℕ) → Usable ms (i + left) → needed ms left i ≤ left * 2 ^ 50
  unfolding needed
  needed-le zero i u = omega arith
  needed-le (suc left) i u =
      let (m, e) = entry ms i (omega (arith, u.listed)) in
      let span = u.span i m (omega arith) e in
      let rest = needed-le left (i + 1) (later-Usable i left u) in
      omega (arith, needed-cons left i m e, span, rest)

  pub sum_bitmaps-needed :
      (left i total : ℕ)
      → Usable ms (i + left)
      → total + left * 2 ^ 50 < 2 ^ 64
      → sum_bitmaps ms left i total ≡ ok (total + needed ms left i)
  unfolding sum_bitmaps needed
  sum_bitmaps-needed zero i total u room = ap (λ n. ok n) (omega arith)
  sum_bitmaps-needed (suc left) i total u room =
      let (m, e) = entry ms i (omega (arith, u.listed)) in
      let span = u.span i m (omega arith) e in
      let bytes = bitmap_bytes-exact m span in
      let exact : u64 (total + bitmap_bytes (m.size / 2 ^ 12))
          ≡ total + 8 * ((m.size / 4096 + 63) / 64) =
        omega (arith, span, bytes) in
      rw e (
        ap (sum_bitmaps ms left (i + 1)) exact
        ∙ sum_bitmaps-needed left (i + 1) (total + 8 * ((m.size / 4096 + 63) / 64))
            (later-Usable i left u) (omega (arith, span))
        ∙ ap (λ n. ok n) (omega (arith, needed-cons left i m e)))

  -- an address inside an entry lies on no page of an entry that shares no address with it
  not_listed :
      (left i q base size : ℕ)
      → Usable ms (i + left)
      → base ≤ q
      → q < base + size
      → ((j : ℕ) (m : MemoryRegion)
          → i ≤ j
          → j < i + left
          → get_elem? ms j ≡ some m
          → Disjoint base size m.base m.size)
      → listed ms left i q ≡ false
  unfolding listed
  not_listed zero i q base size u lo hi apart = refl
  not_listed (suc left) i q base size u lo hi apart =
      let (m, e) = entry ms i (omega (arith, u.listed)) in
      let away = apart i m (omega arith) (omega arith) e in
      let off : on_page m q ≡ false = ground arith in
      listed-cons left i q m e
      ∙ ap (λ b. if b then true else listed ms left (i + 1) q) off
      ∙ not_listed left (i + 1) q base size (later-Usable i left u) lo hi
          (λ j m lo hi e. apart j m (omega arith) (omega arith) e)

  -- the whole pages of the regions are those of the entries
  pub record Shown (left i : ℕ) (rs : List Region) : Type 0 where
    pub pages : (q : ℕ) → managed rs q ≡ listed ms left i q
    pub starts : (q : ℕ) → listed ms left i q ≡ true → page_start rs q ≡ listed_start ms left i q

  pub Shown-skip :
      (left i : ℕ) (m : MemoryRegion) (rs : List Region)
      → get_elem? ms i ≡ some m
      → m.size / 4096 ≡ 0
      → Shown left (i + 1) rs
      → Shown (suc left) i rs
  Shown-skip left i m rs e none_whole shown = record {
    pages = λ q.
        let off : on_page m q ≡ false = ground arith in
        shown.pages q
        ∙ sym
            (listed-cons left i q m e ∙ ap (λ b. if b then true else listed ms left (i + 1) q) off);
    starts = λ q on.
        let off : on_page m q ≡ false = ground arith in
        let same =
          listed-cons left i q m e ∙ ap (λ b. if b then true else listed ms left (i + 1) q) off in
        shown.starts q (sym same ∙ on)
        ∙ sym (
            listed_start-cons left i q m e
            ∙ ap
                (λ b.
                  if b then m.base + (q - m.base) / 4096 * 4096 else listed_start ms left (i + 1) q)
                off);
  }

  module _ (left i : ℕ) (m : MemoryRegion) (rs : List Region) (e : get_elem? ms i ≡ some m)
      (u : Usable ms (i + suc left)) (shown : Shown left (i + 1) rs) where
    span : m.base + m.size + page_size ≤ 2 ^ 64
    span = u.span i m (omega arith) e

    -- at an address of the entry, and at one outside
    at_entry :
        (q : ℕ)
        → inside (fresh m) q ≡ true
        → (ltb (page_of (fresh m) q) (m.size / 4096) ≡ listed ms (suc left) i q)
          × (listed ms (suc left) i q ≡ true
              → m.base + page_of (fresh m) q * page_size ≡ listed_start ms (suc left) i q)
    unfolding inside
    at_entry q within =
        let low : m.base ≤ q = ground (arith, span) in
        let high : q < m.base + m.size = ground (arith, span) in
        let later : listed ms left (i + 1) q ≡ false =
          not_listed left (i + 1) q m.base m.size (later-Usable i left u) low high
            (λ j m' lo hi e'. u.apart i j m m' (omega arith) (omega arith) e e') in
        let whole : on_page m q ≡ ltb (page_of (fresh m) q) (m.size / 4096) = ground arith in
        let here = listed-cons left i q m e in
        let here_start = listed_start-cons left i q m e in
        elim (Bool-cases (on_page m q)) [
          | inl on ↦ (
            sym whole ∙ on ∙ sym (here ∙ ap (λ b. if b then true else listed ms left (i + 1) q) on),
            λ shown_at. sym (
                here_start
                ∙ ap
                    (λ b.
                      if b
                      then m.base + (q - m.base) / 4096 * 4096
                      else listed_start ms left (i + 1) q)
                    on),
          )
          | inr off ↦
              let absent =
                here ∙ ap (λ b. if b then true else listed ms left (i + 1) q) off ∙ later in
              (sym whole ∙ off ∙ sym absent, λ shown_at. cc (shown_at, absent))
        ]

    off_entry : (q : ℕ) → inside (fresh m) q ≡ false → on_page m q ≡ false
    unfolding inside
    off_entry q outside = ground (arith, span)

    pub Shown-cons : Shown (suc left) i (fresh m ∷ rs)
    unfolding managed page_start
    Shown-cons = record {
      pages = λ q. elim (Bool-cases (inside (fresh m) q)) [
        | inl within ↦ rw within ((at_entry q within).0)
        | inr outside ↦ rw outside (
            shown.pages q
            ∙ sym (
                listed-cons left i q m e
                ∙ ap (λ b. if b then true else listed ms left (i + 1) q) (off_entry q outside)))
      ];
      starts = λ q on. elim (Bool-cases (inside (fresh m) q)) [
        | inl within ↦ rw within ((at_entry q within).1 on)
        | inr outside ↦
            let off = off_entry q outside in
            rw outside (
              shown.starts q (
                sym (
                  listed-cons left i q m e
                  ∙ ap (λ b. if b then true else listed ms left (i + 1) q) off)
                ∙ on)
              ∙ sym (
                  listed_start-cons left i q m e
                  ∙ ap
                      (λ b.
                        if b
                        then m.base + (q - m.base) / 4096 * 4096
                        else listed_start ms left (i + 1) q)
                      off))
      ];
    }

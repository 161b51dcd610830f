-- ===== src/Memory/Pmm/Fitted.antt =====
-- The loop of `pmm_init` that fills the regions, on a range that holds all the bitmaps: it leaves no
-- region with a whole page out.
use proto_kernel.Prelude.{
  ℕ, zero, suc, ◌+◌, ◌*◌, ◌/◌, ◌%◌, ◌^◌, ◌≤◌, ◌<◌, ◌≡◌, inl, inr, refl, ap, ◌∙◌, arith, false, some,
  List, [], ◌∷◌, ◌==◌, get_elem?, Bool-cases, ok,
}
use proto_kernel.Memory.Bootstrap.{Bootstrap, pmm_bootstrap_alloc}
use proto_kernel.Memory.Bootstrap.Blocks.{Block, Taken, full, block, pmm_bootstrap_alloc_lem}
use proto_kernel.Memory.Pmm.{Region, Stats}
use proto_kernel.Memory.Pmm.Locate.{managed}
use proto_kernel.Memory.Pmm.Init.{MemoryRegion, bitmap_bytes, counted, init_regions}
use proto_kernel.Memory.Pmm.Started.{
  Usable, fresh, entry, taken, init_regions-skip, init_regions-cons,
}
use proto_kernel.Memory.Pmm.Layout.{needed, listed}
use proto_kernel.Memory.Pmm.Filling.{
  bitmap_bytes-exact, needed-cons, later-Usable, Shown, Shown-skip, Shown-cons,
}

-- with room for the block and its alignment, the allocator gives it
given_by_room :
    (k size : ℕ) (b : Bootstrap) {pa : ℕ} {b' : Bootstrap}
    → b.current + size + 2 ^ k ≤ b.end
    → Taken k size b pa b'
    → Block k size b pa b'
given_by_room k size b room (full short) = absurd (omega (arith, short))
given_by_room k size b room (block pa b' found) = found

-- a range that holds the bitmaps of these entries, with 8 bytes to spare
pub record Roomy (ms : List MemoryRegion) (left i : ℕ) (b : Bootstrap) : Type 0 where
  pub begun : 0 < b.current
  pub aligned : b.current % 8 ≡ 0
  pub room : b.current + needed ms left i + 8 ≤ b.end
  pub small : b.end < 2 ^ 64
  pub used : b.used + needed ms left i < 2 ^ 64

-- the loop's result, on such a range
abbrev pub Fitted : List MemoryRegion → (left i : ℕ) → Stats → Bootstrap → Type 0
Fitted ms left i t b =
    (rs : List Region) × (t' : Stats) × (b' : Bootstrap) × (init_regions ms left i t b
      ≡ ok (rs, t', b'))
    × Shown ms left i rs
    × (b'.current ≡ b.current + needed ms left i)
    × (b'.used ≡ b.used + needed ms left i)

Fitted-nil : (ms : List MemoryRegion) (i : ℕ) (t : Stats) (b : Bootstrap) → Fitted ms 0 i t b
unfolding init_regions needed managed listed
Fitted-nil ms i t b =
    ([], t, b, refl, record { pages = λ q. refl; starts = λ q on. cc on }, omega arith, omega arith)

module _ (ms : List MemoryRegion) (left i : ℕ) (t : Stats) (b : Bootstrap) (m : MemoryRegion)
    (e : get_elem? ms i ≡ some m) (u : Usable ms (i + suc left))
    (roomy : Roomy ms (suc left) i b) where
  need : needed ms (suc left) i ≡ 8 * ((m.size / 4096 + 63) / 64) + needed ms left (i + 1)
  need = needed-cons ms left i m e

  bytes : bitmap_bytes (m.size / 2 ^ 12) ≡ 8 * ((m.size / 4096 + 63) / 64)
  bytes = bitmap_bytes-exact m (u.span i m (omega arith) e)

  Fitted-skip :
      m.size / 4096 ≡ 0
      → (Roomy ms left (i + 1) b → Fitted ms left (i + 1) t b)
      → Fitted ms (suc left) i t b
  unfolding pmm_bootstrap_alloc
  Fitted-skip none_whole later =
      let no_bytes : bitmap_bytes (m.size / 2 ^ 12) ≡ 0 = omega (arith, bytes, none_whole) in
      let nothing : taken ms left i t b m e ≡ (0, b) =
        ap (λ n. pmm_bootstrap_alloc n 8 b) no_bytes in
      let same : needed ms (suc left) i ≡ needed ms left (i + 1) =
        omega (arith, need, none_whole) in
      let roomy' : Roomy ms left (i + 1) b = record {
        begun = roomy.begun;
        aligned = roomy.aligned;
        room = omega (arith, roomy.room, same);
        small = roomy.small;
        used = omega (arith, roomy.used, same);
      } in
      let (rs, t', b', run, shown, current, used) = later roomy' in
      (
        rs,
        t',
        b',
        init_regions-skip ms left i t b m e (rs, t', b') (ap (λ r. r.0 == 0) nothing)
            (ap (λ r. init_regions ms left (i + 1) t r.1) nothing ∙ run),
        Shown-skip ms left i m rs e none_whole shown,
        omega (arith, current, same),
        omega (arith, used, same),
      )

  Fitted-cons :
      0 < m.size / 4096
      → ((b1 : Bootstrap)
          → Roomy ms left (i + 1) b1
          → Fitted ms left (i + 1) (counted (fresh m) t) b1)
      → Fitted ms (suc left) i t b
  Fitted-cons some_whole later =
      let size = bitmap_bytes (m.size / 2 ^ 12) in
      let (pa, b1, took, found) =
        pmm_bootstrap_alloc_lem 3 size b (omega arith) (omega (arith, bytes))
          (omega (arith, bytes, need, roomy.room, roomy.small)) in
      let given = given_by_room 3 size b (omega (arith, bytes, need, roomy.room)) found in
      let (q, multiple) = given.aligned in
      let behind = given.behind in
      let near = given.near in
      let pa_exact : pa ≡ b.current = omega (arith, multiple, behind, near, roomy.aligned) in
      let current1 = given.current in
      let used1 = given.used in
      let end1 = given.end in
      let roomy1 : Roomy ms left (i + 1) b1 = record {
        begun = omega (arith, current1, roomy.begun, pa_exact);
        aligned = omega (arith, current1, bytes, roomy.aligned, pa_exact);
        room = omega (arith, current1, bytes, need, roomy.room, pa_exact, end1);
        small = omega (arith, roomy.small, end1);
        used = omega (arith, used1, bytes, need, roomy.used);
      } in
      let (rs, t', b', run, shown, current, used) = later b1 roomy1 in
      let rest : init_regions ms left (i + 1) (counted (fresh m) t) (taken ms left i t b m e).1
          ≡ init_regions ms left (i + 1) (counted (fresh m) t) b1 =
        ap (λ (r : ℕ × Bootstrap). init_regions ms left (i + 1) (counted (fresh m) t) r.1) took in
      let nonzero : (pa == 0) ≡ false = ground (arith, pa_exact, roomy.begun) in
      (
        fresh m ∷ rs,
        t',
        b',
        init_regions-cons ms left i t b m e rs t' b' (ap (λ r. r.0 == 0) took ∙ nonzero)
            (rest ∙ run),
        Shown-cons ms left i m rs e u shown,
        omega (arith, current, current1, bytes, need, pa_exact),
        omega (arith, used, used1, bytes, need, roomy.used),
      )

pub init_regions-Fitted :
    (ms : List MemoryRegion) (left i : ℕ) (t : Stats) (b : Bootstrap)
    → Usable ms (i + left)
    → Roomy ms left i b
    → Fitted ms left i t b
init_regions-Fitted ms zero i t b u roomy = Fitted-nil ms i t b
init_regions-Fitted ms (suc left) i t b u roomy =
    let (m, e) = entry ms i (omega (arith, u.listed)) in
    let u1 = later-Usable ms i left u in
    elim (Bool-cases (m.size / 4096 == 0)) [
      | inl none_whole ↦
          Fitted-skip ms left i t b m e u roomy (ground arith)
            (init_regions-Fitted ms left (i + 1) t b u1)
      | inr some_whole ↦
          Fitted-cons ms left i t b m e u roomy (ground arith)
            (λ b1 roomy1. init_regions-Fitted ms left (i + 1) (counted (fresh m) t) b1 u1 roomy1)
    ]

-- ===== src/Memory/Bootstrap.antt =====
-- kernel/memory/pmm_bootstrap.c: blocks are taken from a range one after the other. Output is left
-- out; the words that are cleared are a log of address and number.
pub mod Blocks
mod Tests
use Prim.Native.Nat.{bit_and}
use proto_kernel.Prelude.{ℕ, ◌+◌, ◌-◌, ◌*◌, ◌/◌, ◌==◌, ltb, if◌then◌else◌, List, [], ◌∷◌}
use proto_kernel.Bits.{u64, complement}

pub record Bootstrap : Type 0 where
  pub start : ℕ
  pub current : ℕ
  pub end : ℕ
  pub used : ℕ
  pub cleared : List (ℕ × ℕ)

-- `(x + 0xFFF) & ~0xFFF`
abbrev pub page_align : ℕ → ℕ
page_align x = bit_and (u64 (x + 4095)) (complement 4095)

unfoldable pub pmm_bootstrap_init : ℕ → ℕ → Bootstrap → Bootstrap
pmm_bootstrap_init start_addr end_addr s = record s {
  start = page_align start_addr;
  current = page_align start_addr;
  end = end_addr;
  used = 0;
}

-- `(current + alignment - 1) & ~(alignment - 1)`
abbrev pub align_up : ℕ → ℕ → ℕ
align_up current alignment = bit_and (u64 (current + alignment - 1)) (complement (alignment - 1))

unfoldable pub pmm_bootstrap_alloc : ℕ → ℕ → Bootstrap → ℕ × Bootstrap
pmm_bootstrap_alloc size alignment s =
    if size == 0
    then (0, s)
    else (let alignment = if alignment == 0 then 8 else alignment in
        let aligned = align_up s.current alignment in
        if ltb s.end (u64 (aligned + size)) then (0, s) else (
          aligned,
          record s {
            current = u64 (aligned + size);
            used = u64 (s.used + size);
            cleared = (aligned, size / 8) ∷ s.cleared;
          },
        ))

-- ===== src/Memory/Bootstrap/Tests.antt =====
-- A run of the bootstrap allocator, and its theorem at a state that meets the hypotheses.
use proto_kernel.Prelude.{ℕ, ◌≡◌, refl, arith, [], ◌∷◌, ◌^◌}
use proto_kernel.Memory.Bootstrap.{Bootstrap, pmm_bootstrap_init, pmm_bootstrap_alloc}
use proto_kernel.Memory.Bootstrap.Blocks.{Taken, pmm_bootstrap_alloc_lem}

abbrev empty : Bootstrap
empty = record { start = 0; current = 0; end = 0; used = 0; cleared = [] }

abbrev booted : Bootstrap
booted = record {
  start = 0x4000_1000;
  current = 0x4000_1000;
  end = 0x4000_3000;
  used = 0;
  cleared = [];
}

init_rounds_up : pmm_bootstrap_init 0x4000_0001 0x4000_3000 empty ≡ booted
unfolding pmm_bootstrap_init
init_rounds_up = refl

alloc_16 : pmm_bootstrap_alloc 16 8 booted ≡ (
  0x4000_1000,
  record booted { current = 0x4000_1010; used = 16; cleared = (0x4000_1000, 2) ∷ [] },
)
unfolding pmm_bootstrap_alloc
alloc_16 = refl

pmm_bootstrap_alloc_lem_example :
    (pa : ℕ) × (s' : Bootstrap) × (pmm_bootstrap_alloc 24 (2 ^ 3) booted ≡ (pa, s'))
    × Taken 3 24 booted pa s'
pmm_bootstrap_alloc_lem_example =
    pmm_bootstrap_alloc_lem 3 24 booted (omega arith) (omega arith) (omega arith)

-- ===== src/Memory/Pmm/Valid.antt =====
-- The invariant of pmm.c: regions that share no address, each with its count of free pages, and
-- counters that add up. The sum of free, reserved and allocated pages is taken in `uint64_t`.
use proto_kernel.Prelude.{◌+◌, ◌^◌, ◌<◌, ◌≡◌}
use proto_kernel.Bits.{u64}
use proto_kernel.Memory.Pmm.{Pmm}
use proto_kernel.Memory.Pmm.Replace.{AllValid, sum_free, sum_total}

pub record IsValid (s : Pmm) : Type 0 where
  pub regions : AllValid s.regions
  pub free_sum : s.stats.free_pages ≡ sum_free s.regions
  pub total_sum : s.stats.total_pages ≡ sum_total s.regions
  pub small : sum_total s.regions < 2 ^ 64
  pub balance :
      u64 (s.stats.free_pages + s.stats.reserved_pages + s.stats.allocated_pages)
      ≡ s.stats.total_pages

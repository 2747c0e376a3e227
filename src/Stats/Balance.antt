-- ===== src/Stats/Balance.antt =====
-- What the counters of KerbecsStats.h say of one another.
use kerbecs.Common.{ℕ, ◌+◌, ◌≤◌, ◌<◌, ◌≡◌, ◌^◌, arith}
use kerbecs.Stats.{KerbecsStats, zero_stats, stats_on_init, stats_on_destroy}

-- The blocks that were counted in and not yet counted out make up the active bytes.
pub record IsBalanced (s : KerbecsStats) : Type 0 where
  pub in_range : s.total_allocated < 2 ^ 64
  pub bytes : s.total_freed + s.active_bytes ≡ s.total_allocated
  pub peak : s.active_bytes ≤ s.peak_usage
  pub peak_in : s.peak_usage ≤ s.total_allocated

pub zero_stats-IsBalanced : IsBalanced zero_stats
zero_stats-IsBalanced = omega arith

-- Where the total allocated with the block does not reach 2 ^ 64, and no more is released than is
-- active: counting a block in, and counting one out, keep the counters balanced.
pub stats-IsBalanced :
    (bytes : ℕ) (s : KerbecsStats)
    → IsBalanced s
    → s.total_allocated + bytes < 2 ^ 64
    → bytes ≤ s.active_bytes
    → IsBalanced (stats_on_init bytes s) × IsBalanced (stats_on_destroy bytes s)
unfolding stats_on_init stats_on_destroy
stats-IsBalanced bytes s b small owned = (ground arith, ground arith)

-- A block counted in and out again, with sizes and counters that 64 bits hold, leaves the active
-- counters as they were, also across a wrap, and the peak not lower.
pub stats_on_destroy-stats_on_init :
    (bytes : ℕ) (s : KerbecsStats)
    → s.active_bytes < 2 ^ 64
    → s.active_allocations < 2 ^ 64
    → bytes < 2 ^ 64
    → let t = stats_on_destroy bytes (stats_on_init bytes s) in
      (t.active_bytes ≡ s.active_bytes)
      × (t.active_allocations ≡ s.active_allocations)
      × (s.peak_usage ≤ t.peak_usage)
unfolding stats_on_init stats_on_destroy
stats_on_destroy-stats_on_init bytes s a b c = ground arith

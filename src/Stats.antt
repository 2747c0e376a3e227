-- ===== src/Stats.antt =====
-- src/Public/KerbecsStats.h: the counters. Each `fetch_add` and `fetch_sub` wraps at 2 ^ 64. The
-- null test of `p_Stats` is `with_stats`, whose flag says that the pointer is set.
pub mod Balance
use kerbecs.Common.{ℕ, Bool, if◌then◌else◌, ltb, add_word, sub_word}

pub record KerbecsStats : Type 0 where
  pub total_allocated : ℕ
  pub total_freed : ℕ
  pub peak_usage : ℕ
  pub active_allocations : ℕ
  pub active_bytes : ℕ
  pub total_poisoned_bytes : ℕ
  pub total_violations : ℕ
  pub static_allocations : ℕ
  pub quarantined_blocks : ℕ

abbrev pub zero_stats : KerbecsStats
zero_stats = record {
  total_allocated = 0;
  total_freed = 0;
  peak_usage = 0;
  active_allocations = 0;
  active_bytes = 0;
  total_poisoned_bytes = 0;
  total_violations = 0;
  static_allocations = 0;
  quarantined_blocks = 0;
}

abbrev pub with_stats : Bool → (KerbecsStats → KerbecsStats) → KerbecsStats → KerbecsStats
with_stats attached f s = if attached then f s else s

-- The exchange loop leaves the larger of the old peak and the new number of active bytes.
unfoldable pub stats_on_init : ℕ → KerbecsStats → KerbecsStats
stats_on_init bytes s =
    let active = add_word s.active_bytes bytes in
    record s {
      total_allocated = add_word s.total_allocated bytes;
      active_allocations = add_word s.active_allocations 1;
      active_bytes = active;
      peak_usage = if ltb s.peak_usage active then active else s.peak_usage;
    }

unfoldable pub stats_on_destroy : ℕ → KerbecsStats → KerbecsStats
stats_on_destroy bytes s = record s {
  total_freed = add_word s.total_freed bytes;
  active_allocations = sub_word s.active_allocations 1;
  active_bytes = sub_word s.active_bytes bytes;
}

unfoldable pub stats_on_poison : ℕ → KerbecsStats → KerbecsStats
stats_on_poison bytes s = record s { total_poisoned_bytes = add_word s.total_poisoned_bytes bytes }

unfoldable pub stats_on_unpoison : ℕ → KerbecsStats → KerbecsStats
stats_on_unpoison bytes s = record s {
  total_poisoned_bytes = sub_word s.total_poisoned_bytes bytes;
}

unfoldable pub stats_on_violation : KerbecsStats → KerbecsStats
stats_on_violation s = record s { total_violations = add_word s.total_violations 1 }

unfoldable pub stats_on_static_alloc : KerbecsStats → KerbecsStats
stats_on_static_alloc s = record s { static_allocations = add_word s.static_allocations 1 }

unfoldable pub stats_on_quarantine_enqueue : KerbecsStats → KerbecsStats
stats_on_quarantine_enqueue s = record s { quarantined_blocks = add_word s.quarantined_blocks 1 }

unfoldable pub stats_on_quarantine_dequeue : KerbecsStats → KerbecsStats
stats_on_quarantine_dequeue s = record s { quarantined_blocks = sub_word s.quarantined_blocks 1 }

-- ===== src/Region.antt =====
-- `Region` of src/Public/Region.h: allocate, construct and destroy over the allocator, the layout, the
-- shadow map, the registry and the quarantine. `none` is an abort of the process. The constructor and
-- the destructor of the type `T` are functions on memory; its size and alignment are numbers.
pub mod Shadow
pub mod Allocate
pub mod Destroy
pub mod Granted
pub mod Allocated
pub mod Answers
pub mod Destroyed
pub mod Open
pub mod OpenCases
pub mod Opened
pub mod Refused
pub mod Cycle
pub mod Constructed
use kerbecs.Common.{
  ℕ, zero, suc, ◌+◌, ◌-◌, ◌*◌, ◌/◌, ◌%◌, ◌^◌, max, Bool, true, false, not, ◌&&◌, ◌||◌,
  if◌then◌else◌, ltb, ◌==◌, Option, none, some, add_word, sub_word, mul_word,
}
use kerbecs.Stats.{KerbecsStats}
use kerbecs.Violation.{
  ViolationKind, double_free, overlap_detected, alignment_violation, size_overflow, wild_pointer,
  thread_ownership, retired_boundary_violation, ViolationStack,
}
use kerbecs.Registry.{
  AllocationRegistry, Allocation, node_at, modify, insert, find, begin_retiring, shutdown,
}
use kerbecs.Registry.Node.{RegistryNode, AllocationState, state_eq, ThreadPolicy, is_strict}
use kerbecs.Quarantine.{QuarantineQueue, Ledger, Shared, set_registry, flush_eligible}
use kerbecs.Quarantine.Settle.{Ticket, end_retiring}
use kerbecs.Layout.Pattern.{Memory, memset, tombstone}
use kerbecs.Layout.Policy.{LayoutPolicy}
use kerbecs.Memory.Pages.{System}
use kerbecs.ShadowedMemory.{AccessInfo, Handle, null_handle, Monitor, Clock, report}
use Shadow.{contains, set_shadow}

-- `MemorySupport<AllocatorT>` of src/Public/MemorySupport.h: the calls that go to the allocator. 0 is
-- the null pointer.
pub record MemorySupport (A : Type 0) : Type 0 where
  pub allocate : A → ℕ → ℕ → ℕ × A
  pub deallocate : A → ℕ → ℕ → A

-- The fields of a region that its constructor sets. The registry is the one at `registry_ptr`.
pub record Region : Type 0 where
  pub size : ℕ
  pub region_base : ℕ
  pub shadow_blob : ℕ
  pub metadata_base : ℕ
  pub allocator_ptr : ℕ
  pub support_ptr : ℕ
  pub thunk : ℕ
  pub registry_ptr : ℕ
  pub initialized : Bool

-- What a region reaches: the registries, statistics and quarantine, the thread's violations, memory,
-- shadow map, access infos by address, the system's pages and the allocator.
pub record World (A S : Type 0) : Type 0 where
  pub shared : Shared
  pub violations : ViolationStack
  pub memory : Memory
  pub shadow : Memory
  pub infos : ℕ → AccessInfo
  pub pages : S
  pub allocator : A

-- The thread of a call, and its clock.
pub record Caller : Type 0 where
  pub thread : ℕ
  pub stamp : ℕ

abbrev pub access_info_size : ℕ
access_info_size = 16

module _ {A S : Type 0} where
  abbrev pub registry_of : Region → World A S → AllocationRegistry
  registry_of r w = w.shared.ledger.registries r.registry_ptr

  abbrev pub with_registry : Region → AllocationRegistry → World A S → World A S
  with_registry r reg w = record w {
    shared = record (w.shared) {
      ledger = record (w.shared.ledger) {
        registries = set_registry w.shared.ledger.registries r.registry_ptr reg;
      };
    };
  }

  abbrev pub with_counters : KerbecsStats → World A S → World A S
  with_counters st w = record w {
    shared = record (w.shared) { ledger = record (w.shared.ledger) { stats = st } };
  }

  -- `_reportViolation`
  unfoldable pub report_violation : ViolationKind → ℕ → ℕ → ℕ → Caller → World A S → World A S
  unfolding report
  report_violation kind address base size c w =
      let m =
        report kind address base size (record { thread = c.thread; stamp = c.stamp })
          (record { stats = w.shared.ledger.stats; violations = w.violations }) in
      record (with_counters m.stats w) { violations = m.violations }

abbrev pub set_info : (ℕ → AccessInfo) → ℕ → AccessInfo → ℕ → AccessInfo
set_info infos p info q = if p == q then info else infos q

-- `~Region`, which flushes the quarantine of all regions and shuts its registry down.
unfoldable pub close_region : {A S : Type 0} → Region → World A S → World A S
unfolding flush_eligible
close_region r w =
    let w' = record w { shared = (flush_eligible (2 ^ 64 - 1) true w.shared).1 } in
    with_registry r (shutdown (registry_of r w')) w'

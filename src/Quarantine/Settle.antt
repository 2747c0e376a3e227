-- ===== src/Quarantine/Settle.antt =====
-- `AllocationRegistry::endRetiring` of src/Private/AllocationRegistry.cpp as a whole: the registry
-- settles the block and hands it to the quarantine. The answer of `enqueue` is not looked at.
use kerbecs.Common.{ℕ, Bool, Option, none, some}
use kerbecs.Stats.{KerbecsStats}
use kerbecs.Registry.{AllocationRegistry, node_at, settle}
use kerbecs.Quarantine.{QuarantineEntry, QuarantineQueue, enqueue}

-- What goes into the quarantine with a block.
pub record Ticket : Type 0 where
  pub epoch : ℕ
  pub allocator : ℕ
  pub thunk : ℕ
  pub registry : ℕ

abbrev pub ticket_entry : Ticket → ℕ → ℕ → QuarantineEntry
ticket_entry t base size = record {
  block_size = size;
  epoch = t.epoch;
  allocator = t.allocator;
  dealloc_thunk = t.thunk;
  owning_registry = t.registry;
  block_base = base;
}

unfoldable pub after_enqueue :
    AllocationRegistry
    → Option (Bool × QuarantineQueue × KerbecsStats)
    → Option (AllocationRegistry × QuarantineQueue × KerbecsStats)
after_enqueue r none = none
after_enqueue r (some (done, q, st)) = some (r, q, st)

unfoldable pub after_settle :
    QuarantineQueue
    → KerbecsStats
    → ℕ
    → Ticket
    → Option ℕ × AllocationRegistry
    → Option (AllocationRegistry × QuarantineQueue × KerbecsStats)
unfolding after_enqueue
after_settle q st base t (none, r) = some (r, q, st)
after_settle q st base t (some i, r) =
    after_enqueue r (enqueue q st (ticket_entry t base (node_at r.node_pool i).block_size))

-- `none` is the abort of a saturated quarantine.
unfoldable pub end_retiring :
    AllocationRegistry
    → QuarantineQueue
    → KerbecsStats
    → ℕ
    → Ticket
    → Option (AllocationRegistry × QuarantineQueue × KerbecsStats)
unfolding after_settle
end_retiring r q st base t = after_settle q st base t (settle r base)

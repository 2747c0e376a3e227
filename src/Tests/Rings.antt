-- ===== src/Tests/Rings.antt =====
-- A quarantine of four slots with one block, and a stack with one violation.
use kerbecs.Common.{
  ◌+◌, ◌≤◌, ◌^◌, ◌-◌, ◌≡◌, ◌↔◌, refl, arith, true, false, none, some, List, [], ◌∷◌, ◌++◌, length,
  take,
}
use kerbecs.Stats.{KerbecsStats, zero_stats, with_stats, stats_on_init, stats_on_quarantine_enqueue}
use kerbecs.Stats.Balance.{IsBalanced}
use kerbecs.Registry.{create}
use kerbecs.Quarantine.{
  QuarantineEntry, QuarantineQueue, detached_queue, init, enqueue, is_full, depth, Shared,
  flush_eligible, flush_loop,
}
use kerbecs.Quarantine.Ring as Ring
use kerbecs.Quarantine.Ring.{contents}
use kerbecs.Quarantine.Enqueue.{IsEntry, enqueue-none_iff, enqueue_appends}
use kerbecs.Quarantine.Flush.{retire_all}
use kerbecs.Quarantine.Grace.{
  All, IsGraced, flush_fuel, flush_eligible-IsGraced, flush_eligible_forced,
}
use kerbecs.Violation.{
  Violation, double_free, empty_stack, push_violation, make_violation, violation_stack_capacity,
}
use kerbecs.Violation.Stack as Stack
use kerbecs.Violation.Stack.{
  empty_stack-IsValid, push_violation-IsValid, contents-push_violation, contents-pop_violation,
}

abbrev entry : QuarantineEntry
entry = record {
  block_size = 128;
  epoch = 3;
  allocator = 7;
  dealloc_thunk = 9;
  owning_registry = 1;
  block_base = 4096;
}

abbrev null_entry : QuarantineEntry
null_entry = record entry { block_base = 0 }

abbrev empty_ring : QuarantineQueue
empty_ring = (init (2 ^ 2) true true detached_queue).1

empty_ring-IsValid : Ring.IsValid empty_ring
empty_ring-IsValid = (Ring.init-IsValid 2 (omega arith)).1

entry-IsEntry : IsEntry entry
entry-IsEntry = (omega arith, omega arith)

enqueue-none_iff_example :
    (enqueue empty_ring zero_stats entry ≡ none) ↔ (is_full empty_ring ≡ true)
enqueue-none_iff_example =
    enqueue-none_iff empty_ring zero_stats entry empty_ring-IsValid entry-IsEntry

Appended : Type 0
Appended =
    (q' : QuarantineQueue) × (enqueue empty_ring zero_stats entry
      ≡ some
          (true, q', with_stats empty_ring.stats_attached stats_on_quarantine_enqueue zero_stats))
    × Ring.IsValid q'
    × (contents q' ≡ contents empty_ring ++ (entry ∷ []))

enqueue_appends_example : Appended
unfolding Appended is_full depth init
enqueue_appends_example =
    enqueue_appends empty_ring zero_stats entry empty_ring-IsValid entry-IsEntry refl (omega arith)

-- The ring with the block.
enqueued : Appended
unfolding Appended is_full depth init
enqueued =
    enqueue_appends empty_ring zero_stats entry empty_ring-IsValid entry-IsEntry refl (omega arith)

abbrev one_block : QuarantineQueue
unfolding Appended
one_block = enqueued.0

one_block-IsValid : Ring.IsValid one_block
unfolding Appended
one_block-IsValid = enqueued.2

abbrev shared : Shared
shared = record {
  ledger = record { registries = λ p. create 4; stats = zero_stats; released = [] };
  queue = one_block;
  epoch = 5;
}

flush_fuel_example :
    (let out = flush_loop (shared.queue.tail - shared.queue.head + 3) 64 false 0 shared in
      let due = flush_eligible 64 false shared in
      (out.0 ≡ due.0)
      × (contents out.1.queue ≡ contents due.1.queue)
      × (out.1.ledger ≡ due.1.ledger))
flush_fuel_example =
    flush_fuel (shared.queue.tail - shared.queue.head + 3) 64 false shared one_block-IsValid
      (omega arith)

flush_eligible-IsGraced_example :
    (let out = flush_eligible 64 false shared in
      (taken : List QuarantineEntry) × (contents shared.queue ≡ taken ++ contents out.1.queue)
      × (out.0 ≡ length taken)
      × (length taken ≤ 64)
      × All (IsGraced shared.epoch) taken
      × (out.1.ledger ≡ retire_all shared.queue.stats_attached shared.ledger taken)
      × Ring.IsValid out.1.queue)
flush_eligible-IsGraced_example = flush_eligible-IsGraced 64 shared one_block-IsValid

flush_eligible_forced_example :
    (let out = flush_eligible (depth shared.queue) true shared in
      (contents out.1.queue ≡ [])
      × (out.0 ≡ length (contents shared.queue))
      × (out.1.ledger
          ≡ retire_all shared.queue.stats_attached shared.ledger (contents shared.queue)))
flush_eligible_forced_example =
    flush_eligible_forced (depth shared.queue) shared one_block-IsValid (omega arith)

abbrev violation : Violation
violation = make_violation double_free 4112 4096 128 1 77

contents-push_violation_example :
    Stack.contents (push_violation empty_stack violation)
    ≡ take violation_stack_capacity (violation ∷ Stack.contents empty_stack)
contents-push_violation_example =
    contents-push_violation empty_stack violation (empty_stack-IsValid.0)

abbrev busy : KerbecsStats
busy = stats_on_init 256 zero_stats

busy-IsBalanced : IsBalanced busy
unfolding stats_on_init
busy-IsBalanced = record {
  in_range = omega arith;
  bytes = refl;
  peak = omega arith;
  peak_in = omega arith;
}

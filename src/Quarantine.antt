-- ===== src/Quarantine.antt =====
-- src/Public/QuarantineQueue.h and src/Private/QuarantineQueue.cpp: the ring of freed blocks.
-- A pointer to a registry, an allocator or a thunk is a number, 0 for null. What a deallocation
-- thunk does is the allocator's business: its calls are recorded in order. A call of the queue runs
-- to its end before the next, and a thunk does not call the queue.
pub mod Ring
pub mod Enqueue
pub mod Flush
pub mod Grace
pub mod Settle
pub mod Settled
use kerbecs.Common.{
  ℕ, zero, suc, ◌+◌, ◌-◌, ◌/◌, ◌^◌, bit_and, Bool, true, false, not, ◌&&◌, ◌||◌, Option, none, some,
  List, [], ◌∷◌, ◌++◌, get_or, set, replicate, if◌then◌else◌, ltb, leb, ◌==◌, add_word, sub_word,
  mul_word,
}
use kerbecs.Stats.{
  KerbecsStats, with_stats, stats_on_destroy, stats_on_violation, stats_on_quarantine_enqueue,
  stats_on_quarantine_dequeue,
}
use kerbecs.Registry.{AllocationRegistry, retire}

pub record QuarantineEntry : Type 0 where
  pub block_size : ℕ
  pub epoch : ℕ
  pub allocator : ℕ
  pub dealloc_thunk : ℕ
  pub owning_registry : ℕ
  pub block_base : ℕ

abbrev pub blank_entry : QuarantineEntry
blank_entry = record {
  block_size = 0;
  epoch = 0;
  allocator = 0;
  dealloc_thunk = 0;
  owning_registry = 0;
  block_base = 0;
}

-- Empty `slots` are the null `m_Slots`; `stats_attached` says that `m_Stats` is set.
pub record QuarantineQueue : Type 0 where
  pub slots : List QuarantineEntry
  pub capacity : ℕ
  pub head : ℕ
  pub tail : ℕ
  pub stats_attached : Bool

abbrev pub detached_queue : QuarantineQueue
detached_queue = record { slots = []; capacity = 0; head = 0; tail = 0; stats_attached = false }

-- `sizeof(QuarantineEntry)`, which is aligned to 64 bytes.
abbrev pub entry_bytes : ℕ
entry_bytes = 64

-- `granted` says whether `Memory::allocate` gave the slots, `stats` whether `p_Stats` is set. The bytes that are
-- asked for wrap to `size_t`; the slots are those that lie whole in them.
unfoldable pub init : ℕ → Bool → Bool → QuarantineQueue → Bool × QuarantineQueue
init capacity stats granted q =
    if (capacity == 0) || not stats
    then (false, q)
    else if granted
    then (
      true,
      record {
        slots = replicate (mul_word capacity entry_bytes / entry_bytes) blank_entry;
        capacity = capacity;
        head = 0;
        tail = 0;
        stats_attached = true;
      },
    )
    else (false, record q { slots = [] })

abbrev pub is_null : List QuarantineEntry → Bool
is_null [] = true
is_null (e ∷ es) = false

unfoldable pub shutdown : QuarantineQueue → QuarantineQueue
shutdown q = record {
  slots = [];
  capacity = if is_null q.slots then q.capacity else 0;
  head = 0;
  tail = 0;
  stats_attached = false;
}

-- `idx & (m_Capacity - 1)`
abbrev pub index : QuarantineQueue → ℕ → ℕ
index q n = bit_and n (sub_word q.capacity 1)

abbrev pub slot_at : QuarantineQueue → ℕ → QuarantineEntry
slot_at q n = get_or q.slots (index q n) blank_entry

-- `none` is `_onSaturation`, which aborts the process.
unfoldable pub enqueue :
    QuarantineQueue
    → KerbecsStats
    → QuarantineEntry
    → Option (Bool × QuarantineQueue × KerbecsStats)
enqueue q st e =
    if is_null q.slots || (e.block_base == 0) || (e.owning_registry == 0)
    then some (false, q, st)
    else if leb q.capacity (sub_word q.tail q.head)
    then none
    else some (
      true,
      record q { slots = set q.slots (index q q.tail) e; tail = add_word q.tail 1 },
      with_stats q.stats_attached stats_on_quarantine_enqueue st,
    )

-- The counter that `_onSaturation` leaves behind before it aborts.
unfoldable pub on_saturation : QuarantineQueue → KerbecsStats → KerbecsStats
on_saturation q st = with_stats q.stats_attached stats_on_violation st

-- A call of a deallocation thunk.
pub record Release : Type 0 where
  pub thunk : ℕ
  pub allocator : ℕ
  pub base : ℕ
  pub bytes : ℕ

-- What the queue reaches through its entries: the registries by address, the counters, and the
-- calls of thunks so far.
pub record Ledger : Type 0 where
  pub registries : ℕ → AllocationRegistry
  pub stats : KerbecsStats
  pub released : List Release

abbrev pub set_registry : (ℕ → AllocationRegistry) → ℕ → AllocationRegistry → ℕ → AllocationRegistry
set_registry f p r q = if p == q then r else f q

-- `_retireSlot`, but for the clearing of the slot.
unfoldable pub retire_entry : Bool → Ledger → QuarantineEntry → Ledger
retire_entry attached l e = record {
  registries =
      if e.owning_registry == 0
      then l.registries
      else set_registry l.registries e.owning_registry
          (retire (l.registries e.owning_registry) e.block_base).1;
  released =
      if (e.dealloc_thunk == 0) || (e.allocator == 0)
      then l.released
      else l.released
        ++ (record {
          thunk = e.dealloc_thunk;
          allocator = e.allocator;
          base = e.block_base;
          bytes = e.block_size;
        }
            ∷ []);
  stats =
      with_stats attached stats_on_quarantine_dequeue
        (with_stats attached (stats_on_destroy e.block_size) l.stats);
}

pub record Shared : Type 0 where
  pub ledger : Ledger
  pub queue : QuarantineQueue
  pub epoch : ℕ

-- `_retireSlot` of the slot at the head, and the step of the head.
unfoldable pub retire_head : Shared → Shared
retire_head s = record s {
  ledger = retire_entry s.queue.stats_attached s.ledger (slot_at s.queue s.queue.head);
  queue = record (s.queue) {
    slots = set s.queue.slots (index s.queue s.queue.head) blank_entry;
    head = add_word s.queue.head 1;
  };
}

-- The three tests that end the loop of `flushEligible`.
unfoldable pub has_eligible : Bool → Shared → Bool
has_eligible force s =
    let slot = slot_at s.queue s.queue.head in
    not (leb s.queue.tail s.queue.head)
    && (not (slot.block_base == 0) && (force || not (ltb s.epoch (add_word slot.epoch 2))))

-- The loop, with its count so far, in at most `fuel` rounds.
unfoldable pub flush_loop : ℕ → ℕ → Bool → ℕ → Shared → ℕ × Shared
flush_loop zero max_count force flushed s = (flushed, s)
flush_loop (suc fuel) max_count force flushed s =
    let rest = flush_loop fuel max_count force (flushed + 1) (retire_head s) in
    if ltb flushed max_count && has_eligible force s then rest else (flushed, s)

unfoldable pub flush_eligible : ℕ → Bool → Shared → ℕ × Shared
flush_eligible max_count force s =
    if is_null s.queue.slots
    then (0, s)
    else flush_loop (s.queue.tail - s.queue.head) max_count force 0 s

unfoldable pub depth : QuarantineQueue → ℕ
depth q = if leb q.head q.tail then q.tail - q.head else 0

unfoldable pub is_full : QuarantineQueue → Bool
unfolding depth
is_full q = leb q.capacity (depth q)

unfoldable pub is_empty : QuarantineQueue → Bool
unfolding depth
is_empty q = depth q == 0

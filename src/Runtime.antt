-- ===== src/Runtime.antt =====
-- src/Private/KerbecsRuntime.cpp: the runtime's zones, its start and its end, the thread that drains the
-- quarantine, and what it gives to regions. A call runs to its end before the next; the answers of the
-- operating system are arguments. `none` is `std::terminate`: a thread object that is still joinable
-- was assigned to.
pub mod Drain
pub mod Life
pub mod Start
pub mod Reach
pub mod Zones
use kerbecs.Common.{
  ℕ, ◌+◌, ◌-◌, ◌*◌, ◌^◌, Bool, true, false, not, ◌&&◌, ◌||◌, if◌then◌else◌, ◌==◌, Option, none,
  some, add_word, List, [], ◌∷◌,
}
use kerbecs.Memory.{gibi_byte}
use kerbecs.Allocators.{BumpAllocator, Attempt, refused, retry, taken, bump_reserve}
use kerbecs.Allocators as Allocators
use kerbecs.RegionRecord.{
  RegionRecord, RegionTable, init_region_table, shutdown_region_table, register_region_record,
}
use kerbecs.Quarantine.{QuarantineQueue, Ledger, Shared, flush_eligible}
use kerbecs.Quarantine as Quarantine

-- The sizes of the zones in GiB, and the capacities, as src/CMakeLists.txt sets them.
abbrev pub shadowzone_size : ℕ
shadowzone_size = 1500

abbrev pub globalzone_size : ℕ
globalzone_size = 500

abbrev pub staticzone_size : ℕ
staticzone_size = 500

abbrev pub metadatazone_size : ℕ
metadatazone_size = 500

abbrev pub quarantine_capacity : ℕ
quarantine_capacity = 4096

abbrev pub region_table_capacity : ℕ
region_table_capacity = 1024

abbrev pub shadow_bytes : ℕ
shadow_bytes = shadowzone_size * gibi_byte

abbrev pub global_bytes : ℕ
global_bytes = globalzone_size * gibi_byte

abbrev pub static_bytes : ℕ
static_bytes = staticzone_size * gibi_byte

abbrev pub metadata_bytes : ℕ
metadata_bytes = metadatazone_size * gibi_byte

abbrev pub total_bytes : ℕ
total_bytes = shadow_bytes + global_bytes + static_bytes + metadata_bytes

-- A range of addresses that the system has reserved.
pub record Span : Type 0 where
  pub base : ℕ
  pub bytes : ℕ

-- `KerbecsRuntime` with the region table of src/Private/RegionRecord.cpp. `joinable` says that
-- `m_DrainThread` holds a thread; the queue, the statistics and the epoch are in `shared`. `held` is not of the program: the ranges that
-- `reserveAt` has given it and that it has not released.
pub record Runtime : Type 0 where
  pub memory_zone : ℕ
  pub shadow_zone : ℕ
  pub global_zone : ℕ
  pub static_zone : ℕ
  pub metadata_zone : ℕ
  pub shadowzone_allocator : BumpAllocator
  pub static_allocator : BumpAllocator
  pub global_allocator : BumpAllocator
  pub metadata_zone_allocator : BumpAllocator
  pub shared : Shared
  pub regions : RegionTable
  pub initialized : Bool
  pub shutdown : Bool
  pub joinable : Bool
  pub drain_running : Bool
  pub held : List Span

-- What the system answers to one `init`: the address of `reserveAt`, 0 where it fails, and whether the
-- quarantine's slots and the region table get memory.
pub record Grants : Type 0 where
  pub zone : ℕ
  pub slots : Bool
  pub table : Bool

abbrev pub without_zones : Runtime → Runtime
without_zones r = record r {
  memory_zone = 0;
  shadow_zone = 0;
  global_zone = 0;
  static_zone = 0;
  metadata_zone = 0;
}

abbrev pub with_queue : QuarantineQueue → Runtime → Runtime
with_queue q r = record r { shared = record (r.shared) { queue = q } }

-- The account of the ranges after one with this address and this size was given back; no other leaves it.
unfoldable pub take_back : ℕ → ℕ → List Span → List Span
take_back p n [] = []
take_back p n (z ∷ rest) =
    let others = take_back p n rest in if (z.base == p) && (z.bytes == n) then rest else z ∷ others

-- `Memory::release`, as far as the account of `held` goes: null is refused.
unfoldable pub release : ℕ → ℕ → List Span → List Span
unfolding take_back
release p n held = if p == 0 then held else take_back p n held

-- The zones and their allocators over the reserved range.
unfoldable pub lay_zones : ℕ → Runtime → Runtime
lay_zones base r = record r {
  held = record { base = base; bytes = total_bytes } ∷ r.held;
  memory_zone = base;
  shadow_zone = base;
  global_zone = add_word base shadow_bytes;
  static_zone = add_word base (shadow_bytes + global_bytes);
  metadata_zone = add_word base (shadow_bytes + global_bytes + static_bytes);
  shadowzone_allocator = Allocators.init base shadow_bytes;
  global_allocator = Allocators.init (add_word base shadow_bytes) global_bytes;
  static_allocator = Allocators.init (add_word base (shadow_bytes + global_bytes)) static_bytes;
  metadata_zone_allocator =
      Allocators.init (add_word base (shadow_bytes + global_bytes + static_bytes)) metadata_bytes;
}

-- The failure path of `init`.
unfoldable pub unwind : Runtime → Runtime
unfolding release
unwind r = record (without_zones (with_queue (Quarantine.shutdown r.shared.queue) r)) {
  regions = shutdown_region_table r.regions;
  held = release r.memory_zone total_bytes r.held;
  shutdown = false;
  initialized = false;
}

-- The end of `init`, where all parts have started.
unfoldable pub start : Runtime → Option (Bool × Runtime)
start r =
    if r.joinable
    then none
    else some (
      true,
      record r { shutdown = false; initialized = true; drain_running = true; joinable = true },
    )

-- The table is asked for only where the quarantine has started.
unfoldable pub start_parts : Grants → Runtime → Option (Bool × Runtime)
unfolding unwind start
start_parts g r =
    let q = Quarantine.init quarantine_capacity true g.slots r.shared.queue in
    let r1 = with_queue q.1 r in
    let t = init_region_table region_table_capacity g.table r1.regions in
    let r2 = record r1 { regions = t.1 } in
    if q.0 then (if t.0 then start r2 else some (false, unwind r2)) else some (false, unwind r1)

unfoldable pub init : Grants → Runtime → Option (Bool × Runtime)
unfolding start_parts lay_zones
init g r =
    if r.initialized
    then some (true, r)
    else if g.zone == 0
    then some (false, record r { memory_zone = 0 })
    else start_parts g (lay_zones g.zone r)

-- `teardownShadowzone`. The drain thread sees the flag and ends, so that `join` returns.
unfoldable pub teardown : Runtime → Bool × Runtime
unfolding flush_eligible release
teardown r =
    let flushed = (flush_eligible (2 ^ 64 - 1) true r.shared).1 in
    if r.shutdown then (false, r) else (
      true,
      record (without_zones r) {
        shared = record flushed { queue = Quarantine.shutdown flushed.queue };
        regions = shutdown_region_table r.regions;
        held = release r.memory_zone total_bytes r.held;
        shutdown = true;
        drain_running = false;
        joinable = false;
        initialized = false;
      },
    )

-- What `_drainLoop` does when it wakes up and is still to run.
unfoldable pub drain_tick : Shared → Shared
drain_tick s = (flush_eligible (2 ^ 64 - 1) false (record s { epoch = add_word s.epoch 1 })).1

-- One round of `_drainLoop`, with the flag as it is before the sleep and after it: whether the loop goes
-- on, and what it leaves.
unfoldable pub drain_round : Bool → Bool → Shared → Bool × Shared
unfolding drain_tick
drain_round before after s = if before && after then (true, drain_tick s) else (false, s)

-- The pointer that a bump allocator gives, 0 for null. No other thread moves the offset here.
unfoldable pub given_ptr : BumpAllocator → Attempt → ℕ × BumpAllocator
given_ptr a refused = (0, a)
given_ptr a (retry current) = (0, a)
given_ptr a (taken ptr after) = (ptr, after)

abbrev pub max_align : ℕ
max_align = 16

-- `shadowzoneAllocate`; the allocator of the shadow zone commits nothing.
unfoldable pub shadowzone_allocate : ℕ → Runtime → ℕ × Runtime
unfolding given_ptr
shadowzone_allocate bytes r =
    let t =
      given_ptr r.shadowzone_allocator (bump_reserve r.shadowzone_allocator bytes max_align) in
    (t.0, record r { shadowzone_allocator = t.1 })

-- `metadataZoneAllocate`, but for the pages that its allocator commits.
unfoldable pub metadata_zone_allocate : ℕ → ℕ → Runtime → ℕ × Runtime
unfolding given_ptr
metadata_zone_allocate bytes align r =
    let t =
      given_ptr r.metadata_zone_allocator
        (Allocators.allocate r.metadata_zone_allocator bytes align).0 in
    (t.0, record r { metadata_zone_allocator = t.1 })

unfoldable pub register_region : RegionRecord → Runtime → Bool × Runtime
register_region rec r =
    let t = register_region_record region_table_capacity r.regions rec in
    (t.0, record r { regions = t.1 })

-- ===== src/Tests/Runtimes.antt =====
-- A runtime that starts, ends, drains a quarantine with one block, and opens a region.
use kerbecs.Common.{
  ◌^◌, ◌≡◌, refl, sym, ap, ◌∙◌, arith, append-nil, Bool, true, false, Option, none, some, List, [],
  ◌∷◌, ◌++◌,
}
use kerbecs.Memory.{align_up}
use kerbecs.Stats.{zero_stats}
use kerbecs.Allocators.{BumpAllocator, attempt, bump_reserve}
use kerbecs.Allocators as Allocators
use kerbecs.Registry.{AllocationRegistry, create}
use kerbecs.Registry as Registry
use kerbecs.RegionRecord.{register_region_record}
use kerbecs.Quarantine.{
  QuarantineEntry, QuarantineQueue, Ledger, Shared, detached_queue, is_full, depth,
}
use kerbecs.Quarantine as Quarantine
use kerbecs.Quarantine.Ring as Ring
use kerbecs.Quarantine.Ring.{contents}
use kerbecs.Quarantine.Flush.{retire_all}
use kerbecs.Quarantine.Enqueue.{enqueue_appends}
use kerbecs.Runtime.{
  Runtime, Grants, init, teardown, drain_tick, given_ptr, shadowzone_allocate,
  metadata_zone_allocate, register_region,
}
use kerbecs.Runtime.Life.{IsSound, IsFresh, Reachable, fresh, next, inits, tears_down}
use kerbecs.Runtime.Start.{Started, init-Started}
use kerbecs.Runtime.Reach.{fresh-IsSound, reachable-IsSound, drain_tick-IsValid}
use kerbecs.Runtime.Zones.{AreZones, init-AreZones}
use kerbecs.Runtime.Drain.{drain_twice, epoch-drain_tick}
use kerbecs.Region.{Region}
use kerbecs.Statics.{Addresses, persistent_region}
use kerbecs.Statics.Closed.{persistent_stays_closed}
use kerbecs.Region.Open.{Opening, region_of, after_registry, take_maps, after_init, open_region}
use kerbecs.Region.Opened.{Opened, open_region-Opened}

abbrev no_arena : BumpAllocator
no_arena = record { base = 0; size = 0; bump = 0 }

abbrev shared_start : Shared
shared_start = record {
  ledger = record { registries = λ p. create 4; stats = zero_stats; released = [] };
  queue = detached_queue;
  epoch = 0;
}

abbrev new_runtime : Runtime
new_runtime = record {
  memory_zone = 0;
  shadow_zone = 0;
  global_zone = 0;
  static_zone = 0;
  metadata_zone = 0;
  shadowzone_allocator = no_arena;
  static_allocator = no_arena;
  global_allocator = no_arena;
  metadata_zone_allocator = no_arena;
  shared = shared_start;
  regions = record { records = none; count = 0 };
  initialized = false;
  shutdown = false;
  joinable = false;
  drain_running = false;
  held = [];
}

-- The address of `MEMORY_ZONE_ADDRESS`, and memory for all.
abbrev grants : Grants
grants = record { zone = 17592186044416; slots = true; table = true }

new-IsFresh : IsFresh new_runtime
new-IsFresh = record {
  nothing = record {
    memory = refl;
    shadow = refl;
    globals = refl;
    statics = refl;
    metadata = refl;
    slots = refl;
    table = refl;
    released = refl;
  };
  not_initialized = refl;
  no_thread = refl;
  no_drain = refl;
}

init-Started_example : Started grants new_runtime (init grants new_runtime)
init-Started_example = init-Started grants new_runtime (fresh-IsSound new_runtime new-IsFresh) refl

started : Started grants new_runtime (init grants new_runtime)
started = init-Started grants new_runtime (fresh-IsSound new_runtime new-IsFresh) refl

abbrev running : Runtime
running = started.after

runs : init grants new_runtime ≡ some (true, running)
runs =
    let s = started in
    s.answers ∙ ap (λ b. some (b, s.after)) (s.complete.1 (λ z. absurd (omega arith), refl, refl))

init-AreZones_example : AreZones 17592186044416 running
init-AreZones_example =
    init-AreZones grants new_runtime running (fresh-IsSound new_runtime new-IsFresh) refl
      (omega arith) runs

-- A new runtime that is started and ended.
ended : Reachable (teardown running).1
ended =
    next running (teardown running).1
      (next new_runtime running (fresh new_runtime new-IsFresh)
        (inits grants true new_runtime running runs))
      (tears_down running)

reachable-IsSound_example : IsSound (teardown running).1
reachable-IsSound_example = reachable-IsSound (teardown running).1 ended

abbrev ring : QuarantineQueue
ring = (Quarantine.init (2 ^ 2) true true detached_queue).1

ring_open : (is_full ring ≡ false) × (ring.tail ≡ 0)
unfolding is_full depth Quarantine.init
ring_open = (refl, refl)

abbrev block : QuarantineEntry
block = record {
  block_size = 128;
  epoch = 3;
  allocator = 7;
  dealloc_thunk = 9;
  owning_registry = 1;
  block_base = 4096;
}

filled : (q : QuarantineQueue) × Ring.IsValid q × (contents q ≡ block ∷ [])
filled =
    let (_, v, none_in) = Ring.init-IsValid 2 (omega arith) in
    let (q, _, w, more) =
      enqueue_appends ring zero_stats block v (λ z. absurd (omega arith), λ z. absurd (omega arith))
        ring_open.0 (omega (arith, ring_open.1)) in
    (q, w, more ∙ ap (λ es. es ++ (block ∷ [])) none_in)

abbrev waiting : Shared
waiting = record shared_start { queue = filled.0; epoch = 3 }

drain_twice_example :
    (gone : List QuarantineEntry) × ([] ≡ gone ++ contents (drain_tick (drain_tick waiting)).queue)
    × ((drain_tick (drain_tick waiting)).ledger
        ≡ retire_all
            (drain_tick waiting).queue.stats_attached
            (drain_tick waiting).ledger
            (contents (drain_tick waiting).queue ++ gone))
drain_twice_example =
    drain_twice waiting (drain_tick waiting) [] filled.1 (rw (filled.2) (omega arith, tt))
      (omega arith) (drain_tick-IsValid waiting filled.1) (epoch-drain_tick waiting filled.1)
      (sym (append-nil (contents (drain_tick waiting).queue)))

-- A runtime that serves, with zones of a page each, and a region of 512 bytes with four nodes.
abbrev serving : Runtime
serving = record new_runtime {
  memory_zone = 65536;
  shadowzone_allocator = record { base = 65536; size = 4096; bump = 0 };
  metadata_zone_allocator = record { base = 69632; size = 4096; bump = 0 };
  regions = record { records = some []; count = 0 };
  initialized = true;
}

abbrev opening : Opening
opening = record {
  this_ptr = 8;
  allocator_ptr = 3;
  support_ptr = 4;
  thunk = 5;
  registry_ptr = 6;
  size = 512;
  capacity = 4;
  region_base = 131072;
}

abbrev Built : Type 0
Built = Option (Region × AllocationRegistry × Runtime)

abbrev built : Built
built = open_region grants true opening serving

abbrev or_none : Built → Region × AllocationRegistry × Runtime
or_none none = (region_of opening 0 0 false, create 4, serving)
or_none (some x) = x

abbrev is_some : Built → Bool
is_some none = false
is_some (some x) = true

some-or_none : (x : Built) → is_some x ≡ true → x ≡ some (or_none x)
some-or_none none e = absurd (cc)
some-or_none (some x) e = refl

built_there : (is_some built ≡ true) × ((or_none built).0.initialized ≡ true)
unfolding open_region after_init take_maps after_registry init shadowzone_allocate
    metadata_zone_allocate given_ptr bump_reserve attempt Allocators.allocate align_up Registry.init
    register_region register_region_record
built_there = (refl, refl)

open_region-Opened_example :
    Opened opening serving (or_none built).0 (or_none built).1 (or_none built).2
open_region-Opened_example =
    open_region-Opened grants true opening serving (or_none built).0 (or_none built).1
      (or_none built).2 refl
      (record { exists = λ z. absurd (omega arith); in_space = omega arith; inside = omega arith })
      (record { exists = λ z. absurd (omega arith); in_space = omega arith; inside = omega arith })
      (omega arith) (omega arith) (omega arith) (omega arith) (some-or_none built built_there.0)
      built_there.1

abbrev refused_grants : Grants
refused_grants = record { zone = 0; slots = true; table = true }

abbrev addresses : Addresses
addresses = record { this_ptr = 8; allocator_ptr = 3; support_ptr = 4; thunk = 5; registry_ptr = 6 }

persistent_stays_closed_example :
    (r : Region) × (reg : AllocationRegistry) × (rt' : Runtime) × (persistent_region refused_grants
        refused_grants true addresses none new_runtime
      ≡ some (some (r, reg), rt'))
    × (r.initialized ≡ false)
    × ((h h' : Grants) (again up : Bool) (u u' : Runtime)
        → init h u ≡ some (up, u')
        → persistent_region h h' again addresses (some (r, reg)) u ≡ some (some (r, reg), u'))
persistent_stays_closed_example =
    persistent_stays_closed refused_grants refused_grants true addresses new_runtime refl refl refl

-- ===== src/Tests/Regions.antt =====
-- A region of a megabyte over a shadow map that is mapped and not resident, and an allocator that gives
-- consecutive blocks, with one object.
use kerbecs.Common.{
  ℕ, ◌+◌, ◌-◌, ◌%◌, ◌*◌, ◌/◌, ◌^◌, ◌<◌, ◌≡◌, ◌≢◌, ◌⊎◌, inl, inr, refl, sym, ap, ◌∙◌, ◌==◌, arith,
  max, Bool, true, false, if◌then◌else◌, ltb, leb, ◌||◌, Option, none, some, [],
}
use mathlib.Core.Path.{subst}
use kerbecs.Memory.{PageState, align_up}
use kerbecs.Memory.Pages.{
  System, IsSystem, AreMapped, commit_page_if_needed, commit_in_state, commit, page_base,
}
use kerbecs.Layout.Pattern.{Memory}
use kerbecs.Layout.Normal as Normal
use kerbecs.Layout.Policy.{normal_layout}
use kerbecs.Layout.PolicyLaws.{normal_layout-IsLayout}
use kerbecs.Stats.{zero_stats}
use kerbecs.Violation.{empty_stack}
use kerbecs.Registry.{
  AllocationRegistry, create, insert, insert_scanned, report_insert, next_generation, chain, init,
  link, link_node, allocate_node, find, find_in, bucket_index,
}
use kerbecs.Registry.Invariant as Invariant
use kerbecs.Registry.Link as Link
use kerbecs.Registry.Node.{strict}
use kerbecs.Quarantine.{QuarantineQueue, detached_queue, is_full, depth}
use kerbecs.Quarantine as Quarantine
use kerbecs.Quarantine.Ring as Ring
use kerbecs.ShadowedMemory.{Handle, null_handle}
use kerbecs.Region.{MemorySupport, Region, World, Caller, registry_of}
use kerbecs.Region.Shadow.{contains, set_shadow, set_shadow_loop, after_commit, mark_bits, mark_bit}
use kerbecs.Region.Allocate as Allocate
use kerbecs.Registry as Registry
use kerbecs.Registry.Lookup.{find_iff}
use kerbecs.Registry.Invariant.{base_of}
use kerbecs.Region.Shadow.Marks.{Marked}
use kerbecs.Region.Shadow.Loop.{held}
use kerbecs.Region.Shadow.Poison.{Poisoned}
use kerbecs.Region.Shadow.Map.{IsInside, set_shadow-Poisoned, set_shadow-clears}
use kerbecs.Region.Destroy.{node_for, destroy, construct}
use kerbecs.Region.Constructed.{Constructed, construct-Constructed}
use kerbecs.Region.Destroyed.{Gone, destroy-Gone}
use kerbecs.Region.Refused.{node_for-slot}
use kerbecs.Region.Answers.{allocate-Outcome}
use kerbecs.Region.Allocated.{IsSupport, Allocated, allocate-Allocated}

-- Null is unknown, the shadow map at 16777216 is mapped, and all other addresses are free. The pages of the map are
-- resident or not, as the state says; `protect` succeeds and makes none resident.
abbrev page_system : System Bool
page_system = record {
  query_page = λ s p.
      if p == 0
      then PageState.unknown
      else if ltb p 16777216 || leb 16908288 p
      then PageState.free
      else if s
      then PageState.committed
      else PageState.reserved;
  protect = λ s p n. (true, s);
}

page_system-IsSystem : IsSystem page_system
page_system-IsSystem = record { keeps = λ s p n q e. e }

page_system_map : (s : Bool) → AreMapped page_system s 16777216 1048576
page_system_map s i l =
    let there : (16777216 + i / 8 == 0) ≡ false = ground arith in
    let inner : (ltb (16777216 + i / 8) 16777216 || leb 16908288 (16777216 + i / 8)) ≡ false =
      ground arith in
    rw (there, inner) (resident s)
  where
    resident :
        (s : Bool)
        → ((if s then PageState.committed else PageState.reserved) ≡ PageState.committed)
          ⊎ ((if s then PageState.committed else PageState.reserved) ≡ PageState.reserved)
    resident true = inl refl
    resident false = inr refl

abbrev heap : MemorySupport ℕ
heap = record {
  allocate = λ a bytes align. if ltb 1048576 (a + bytes) then (0, a) else (a, a + bytes);
  deallocate = λ a block bytes. a;
}

heap-IsSupport : IsSupport heap
heap-IsSupport = record { in_space = λ a bytes align nz. ground (arith, nz) }

abbrev region : Region
region = record {
  size = 1048576;
  region_base = 65536;
  shadow_blob = 16777216;
  metadata_base = 33554432;
  allocator_ptr = 3;
  support_ptr = 4;
  thunk = 5;
  registry_ptr = 6;
  initialized = true;
}

abbrev caller : Caller
caller = record { thread = 1; stamp = 10 }

abbrev registry : AllocationRegistry
registry = (init true (create 4)).1

abbrev ring : QuarantineQueue
ring = (Quarantine.init 4 true true detached_queue).1

abbrev world : World ℕ Bool
world = record {
  shared = record {
    ledger = record { registries = λ p. registry; stats = zero_stats; released = [] };
    queue = ring;
    epoch = 1;
  };
  violations = empty_stack;
  memory = λ a. 0;
  shadow = λ a. 0;
  infos = λ p. record { user_size = 0; generation = 0 };
  pages = false;
  allocator = 65536;
}

registry-IsValid : Invariant.IsValid registry
registry-IsValid = (Link.init-IsValid 4 (omega arith) (omega arith)).1

registry_room : registry.node_cursor + 1 < 2 ^ 64
unfolding init
registry_room = omega arith

ring-IsValid : Ring.IsValid ring
ring-IsValid = (Ring.init-IsValid 2 (omega arith)).1

abbrev answer : Option (Handle × World ℕ Bool)
answer = Allocate.allocate heap page_system normal_layout region caller 8 8 1 8 world

abbrev or_none : Option (Handle × World ℕ Bool) → Handle × World ℕ Bool
or_none none = (null_handle, world)
or_none (some x) = x

abbrev handle : Handle
handle = (or_none answer).0

abbrev world_after : World ℕ Bool
world_after = (or_none answer).1

abbrev is_some : Option (Handle × World ℕ Bool) → Bool
is_some none = false
is_some (some x) = true

some-or_none : (x : Option (Handle × World ℕ Bool)) → is_some x ≡ true → x ≡ some (or_none x)
some-or_none none e = absurd (cc)
some-or_none (some x) e = refl

answer_there : (is_some answer ≡ true) × (handle.payload_ptr ≡ 65552)
unfolding Allocate.allocate Allocate.take_block Allocate.after_block Allocate.after_shade
    Allocate.shade Allocate.after_insert Allocate.publish Normal.block_size Normal.place
    Normal.offsets align_up contains set_shadow set_shadow_loop after_commit mark_bits mark_bit
    commit_page_if_needed commit_in_state commit page_base insert insert_scanned report_insert
    next_generation chain init link link_node allocate_node find find_in bucket_index
answer_there = (refl, refl)

granted : answer ≡ some (handle, world_after)
granted = some-or_none answer answer_there.0

payload_there : handle.payload_ptr ≢ 0
payload_there z = absurd (omega (arith, answer_there.1))

-- The object of eight bytes, in a normal layout, with guards around it.
abbrev block_bytes : ℕ
block_bytes = normal_layout.block_size (1 * 8) (max 8 8)

allocated : Allocated region 1 (1 * 8) block_bytes (max 8 8) 1 (λ a. 0) (λ a. 0) handle world_after
allocated =
    allocate-Allocated heap page_system normal_layout region caller normal_layout-IsLayout
      heap-IsSupport 8 8 1 8 world handle world_after (omega arith) (3, omega arith, refl)
      registry-IsValid (registry_room) (λ a. omega arith) granted payload_there

queue_kept : world_after.shared.queue ≡ ring
unfolding Allocate.allocate Allocate.take_block Allocate.after_block Allocate.after_shade
    Allocate.shade Allocate.after_insert Allocate.publish Normal.block_size Normal.place
    Normal.offsets align_up contains set_shadow set_shadow_loop after_commit mark_bits mark_bit
    commit_page_if_needed commit_in_state commit page_base insert insert_scanned report_insert
    next_generation chain init link link_node allocate_node find find_in bucket_index
    Quarantine.init
queue_kept = refl

ring_room : (is_full ring ≡ false) × (ring.tail ≡ 0)
unfolding is_full depth Quarantine.init
ring_room = (refl, refl)

allocate-Outcome_example :
    (h : Handle) × (w' : World ℕ Bool) × (answer ≡ some (h, w'))
    × ((h.payload_ptr ≡ 0)
        ⊎ Allocated region 1 (1 * 8) block_bytes (max 8 8) 1 (λ a. 0) (λ a. 0) h w')
allocate-Outcome_example =
    allocate-Outcome heap page_system normal_layout region caller page_system-IsSystem
      normal_layout-IsLayout heap-IsSupport 8 8 1 8 world (omega arith) (3, omega arith, refl)
      (page_system_map false) registry-IsValid registry_room (λ a. omega arith)

-- A destructor that clears the object's first byte.
abbrev wipe : Memory → ℕ → Memory
wipe m p q = if q == p then 0 else m q

abbrev slot : ℕ
slot = allocated.slot

base_found :
    Registry.find (registry_of region world_after) (base_of (registry_of region world_after) slot)
    ≡ some slot
base_found =
    let a = allocated in
    let (nz, l, t, b) =
      (find_iff (registry_of region world_after) a.valid a.block slot).0 a.found in
    rw b a.found

slot_found : node_for region (registry_of region world_after) handle ≡ some slot
slot_found =
    let a = allocated in
    let (nz, l, t, b) =
      (find_iff (registry_of region world_after) a.valid a.block slot).0 a.found in
    node_for-slot region (registry_of region world_after) handle slot (λ z. absurd (omega arith))
      a.slot_info (omega arith)

destroy-Gone_example :
    (w : World ℕ Bool) × (destroy page_system strict region caller wipe 8 handle world_after
      ≡ some (true, w))
    × Gone page_system region wipe 8 handle
        (base_of (registry_of region world_after) slot)
        slot
        world_after
        w
destroy-Gone_example =
    let a = allocated in
    destroy-Gone page_system strict region caller wipe 8 handle world_after slot slot
      page_system-IsSystem (page_system_map world_after.pages) a.valid
      (subst Ring.IsValid (sym queue_kept) ring-IsValid) (ap is_full queue_kept ∙ ring_room.0)
      (omega (arith, ap (λ (q : QuarantineQueue). q.tail) queue_kept, ring_room.1))
      (λ z. absurd (omega arith)) (omega (arith, a.objects)) slot_found base_found a.live
      (inr (sym a.owner))

-- Twelve bytes from the third of a group of eight on.
abbrev zeros : Memory
zeros a = 0

inside : IsInside 65536 1048576 65562 12
inside = record {
  base_there = λ z. absurd (omega arith);
  address_there = λ z. absurd (omega arith);
  some_bytes = omega arith;
  lower = omega arith;
  upper = omega arith;
}

set_shadow-Poisoned_example :
    (r : Bool × Bool × Memory) × (set_shadow page_system 65536 1048576 16777216 65562 12 true false
        zeros
      ≡ some r)
    × Poisoned page_system 16777216 (65562 - 65536) 12 false zeros r
set_shadow-Poisoned_example =
    set_shadow-Poisoned page_system 65536 1048576 16777216 65562 12 false zeros page_system-IsSystem
      (page_system_map false) (λ a. omega arith) inside (λ z. absurd (omega arith))

set_shadow-clears_example :
    (after : Memory) × (set_shadow page_system 65536 1048576 16777216 65562 12 false true zeros
      ≡ some (true, true, after))
    × Marked false (held page_system true) 16777216 (65562 - 65536) (65562 - 65536 + 12) zeros after
set_shadow-clears_example =
    set_shadow-clears page_system 65536 1048576 16777216 65562 12 true zeros (λ a. omega arith)
      inside (λ z. absurd (omega arith))

even : handle.payload_ptr % 8 ≡ 0
even = omega (arith, answer_there.1)

construct-Constructed_example :
    (w : World ℕ Bool) × (construct page_system strict region caller wipe 8 8 handle world_after
      ≡ some (true, w))
    × Constructed page_system region wipe 8 handle world_after w
construct-Constructed_example =
    construct-Constructed page_system strict region caller wipe 8 8 handle world_after allocated
      (λ z. absurd (omega arith)) (λ z. absurd (omega arith)) (omega arith) (omega arith) even

-- ===== src/Region/Allocate.antt =====
-- `Region::allocate`, stage by stage: each function takes the answer of the call before it.
use kerbecs.Common.{
  ℕ, ◌+◌, ◌-◌, ◌*◌, ◌/◌, ◌^◌, max, Bool, true, false, not, ◌||◌, if◌then◌else◌, ltb, ◌==◌, Option,
  none, some, add_word, sub_word,
}
use kerbecs.Stats.{KerbecsStats}
use kerbecs.Violation.{overlap_detected, size_overflow, wild_pointer}
use kerbecs.Registry.{AllocationRegistry, Allocation, node_at, insert, find}
use kerbecs.Layout.Pattern.{Memory}
use kerbecs.Layout.Policy.{LayoutPolicy}
use kerbecs.Memory.Pages.{System}
use kerbecs.ShadowedMemory.{Handle, null_handle}
use kerbecs.Region.{
  MemorySupport, Region, World, Caller, access_info_size, registry_of, with_registry, with_counters,
  report_violation, set_info,
}
use kerbecs.Region.Shadow.{contains, set_shadow, shadow_scale}

-- The request after its sizes are known.
pub record Request : Type 0 where
  pub count : ℕ
  pub user_size : ℕ
  pub alignment : ℕ
  pub block_size : ℕ

-- The block that was taken, and its payload.
pub record Place : Type 0 where
  pub block : ℕ
  pub payload : ℕ

module _ {A S : Type 0} (support : MemorySupport A) (sys : System S) (layout : LayoutPolicy)
    (r : Region) (c : Caller) where
  abbrev Answer : Type 0
  Answer = Option (Handle × World A S)

  -- The parameters of `insert`; the name is null.
  abbrev pub allocation_of : Request → Place → Allocation
  allocation_of q p = record {
    block_base = p.block;
    user_ptr = p.payload;
    block_size = q.block_size;
    user_size = q.user_size;
    allocator_id = r.allocator_ptr;
    thread_id = c.thread;
    name = 0;
    object_count = q.count;
  }

  unfoldable pub give_back : Request → Place → World A S → World A S
  give_back q p w = record w { allocator = support.deallocate w.allocator p.block q.block_size }

  abbrev pub handle_of : Place → ℕ → ℕ → Handle
  handle_of p slot generation = record {
    meta_ptr = r.metadata_base + slot * access_info_size;
    payload_ptr = p.payload;
    shadow_ptr = r.shadow_blob + sub_word p.payload r.region_base / 2 ^ shadow_scale;
    generation = generation;
  }

  -- The access info and the handle. A node that is not found is read through a null pointer.
  unfoldable pub publish : Request → Place → World A S → Option ℕ → Answer
  publish q p w none = none
  publish q p w (some slot) =
      let generation = (node_at (registry_of r w).node_pool slot).generation in
      let h = handle_of p slot generation in
      some (
        h,
        record w {
          infos =
              set_info w.infos h.meta_ptr
                (record { user_size = q.user_size; generation = generation });
        },
      )

  unfoldable pub after_unshade : Request → Place → World A S → Option (Bool × S × Memory) → Answer
  unfolding give_back
  after_unshade q p w none = none
  after_unshade q p w (some (done, pages, shadow)) =
      some (null_handle, give_back q p (record w { pages = pages; shadow = shadow }))

  unfoldable pub after_insert :
      Request → Place → World A S → Bool × AllocationRegistry × KerbecsStats → Answer
  unfolding publish after_unshade report_violation
  after_insert q p w (true, reg, st) =
      publish q p (with_counters st (with_registry r reg w)) (find reg p.block)
  after_insert q p w (false, reg, st) =
      let w' =
        report_violation overlap_detected p.payload p.block q.block_size c
          (with_counters st (with_registry r reg w)) in
      after_unshade q p w' (
        set_shadow sys r.region_base r.size r.shadow_blob p.payload q.user_size false w'.pages
          w'.shadow)

  unfoldable pub after_shade : Request → Place → World A S → Option (Bool × S × Memory) → Answer
  unfolding after_insert give_back report_violation
  after_shade q p w none = none
  after_shade q p w (some (false, pages, shadow)) = some (
    null_handle,
    give_back q p (
        report_violation wild_pointer p.payload p.block q.block_size c
          (record w { pages = pages; shadow = shadow })),
  )
  after_shade q p w (some (true, pages, shadow)) =
      let w' = record w { pages = pages; shadow = shadow } in
      after_insert q p w' (insert (registry_of r w') w'.shared.ledger.stats (allocation_of q p))

  -- `!_contains(…) || !_setShadow(…)`
  unfoldable pub shade : Request → Place → World A S → Option (Bool × S × Memory)
  shade q p w =
      if contains r.region_base r.size p.payload q.user_size
      then set_shadow sys r.region_base r.size r.shadow_blob p.payload q.user_size true w.pages
          w.shadow
      else some (false, w.pages, w.shadow)

  unfoldable pub after_block : Request → World A S → ℕ → Answer
  unfolding after_shade shade
  after_block q w block =
      let placed = layout.place w.memory block q.block_size q.user_size q.alignment in
      let p : Place = record { block = block; payload = add_word block placed.0 } in
      let w' = record w { memory = placed.1 } in
      if block == 0 then some (null_handle, w) else after_shade q p w' (shade q p w')

  unfoldable pub take_block : Request → World A S → Answer
  unfolding after_block report_violation
  take_block q w =
      let taken = support.allocate w.allocator q.block_size q.alignment in
      if ltb q.block_size q.user_size
      then some (null_handle, report_violation size_overflow 0 0 q.user_size c w)
      else after_block q (record w { allocator = taken.1 }) taken.0

  -- `allocate<T>` for a type of `type_size` bytes and alignment `type_align`.
  unfoldable pub allocate : ℕ → ℕ → ℕ → ℕ → World A S → Answer
  unfolding take_block report_violation
  allocate type_size type_align count align w =
      let user_size = count * type_size in
      let alignment = max align type_align in
      let q : Request = record {
        count = count;
        user_size = user_size;
        alignment = alignment;
        block_size = layout.block_size user_size alignment;
      } in
      if not r.initialized || (r.region_base == 0) || (count == 0)
      then some (null_handle, w)
      else if ltb ((2 ^ 64 - 1) / type_size) count
      then some (null_handle, report_violation size_overflow 0 0 count c w)
      else take_block q w

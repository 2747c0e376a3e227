-- ===== src/Region/Destroy.antt =====
-- `Region::construct` and `Region::destroy`.
use kerbecs.Common.{
  ℕ, ◌-◌, ◌/◌, ◌%◌, Bool, true, false, not, ◌&&◌, ◌||◌, if◌then◌else◌, ltb, ◌==◌, Option, none,
  some,
}
use kerbecs.Stats.{KerbecsStats}
use kerbecs.Violation.{
  ViolationKind, double_free, alignment_violation, wild_pointer, thread_ownership,
  retired_boundary_violation,
}
use kerbecs.Registry.{AllocationRegistry, node_at, drop_object, begin_retiring}
use kerbecs.Registry.Node.{RegistryNode, AllocationState, state_eq, ThreadPolicy, is_strict}
use kerbecs.Quarantine.{QuarantineQueue}
use kerbecs.Quarantine.Settle.{Ticket, end_retiring}
use kerbecs.Layout.Pattern.{Memory, memset, tombstone}
use kerbecs.Memory.Pages.{System}
use kerbecs.ShadowedMemory.{AccessInfo, Handle}
use kerbecs.Region.{
  Region, World, Caller, access_info_size, registry_of, with_registry, with_counters,
  report_violation, set_info,
}
use kerbecs.Region.Shadow.{set_shadow}

-- `_nodeFor`: the slot of the handle's access info, if it is one of the pool's. A pointer below the
-- map gives a difference that wraps, which no pool reaches.
unfoldable pub node_for : Region → AllocationRegistry → Handle → Option ℕ
node_for r reg h =
    let slot = (h.meta_ptr - r.metadata_base) / access_info_size in
    if (h.meta_ptr == 0) || (r.metadata_base == 0)
    then none
    else if ltb h.meta_ptr r.metadata_base
    then none
    else if ltb slot reg.node_capacity
    then some slot
    else none

-- The violation of a `destroy` that `beginRetiring` refused.
unfoldable pub refusal_kind : ThreadPolicy → ℕ → RegistryNode → ViolationKind
refusal_kind policy thread node =
    if is_strict policy && not (thread == node.thread_id)
    then thread_ownership
    else if state_eq node.state AllocationState.retiring
    then retired_boundary_violation
    else double_free

-- The last object of a block takes the generation out of its access info.
abbrev pub expire : Bool → Handle → (ℕ → AccessInfo) → ℕ → AccessInfo
expire last h infos =
    if last then set_info infos h.meta_ptr (record (infos h.meta_ptr) { generation = 0 }) else infos

-- What `destroy` passes to `endRetiring`.
abbrev pub ticket_of : {A S : Type 0} → Region → World A S → Ticket
ticket_of r w = record {
  epoch = w.shared.epoch;
  allocator = r.support_ptr;
  thunk = r.thunk;
  registry = r.registry_ptr;
}

abbrev Answer : Type 0 → Type 0 → Type 0
Answer A S = Option (Bool × World A S)

module _ {A S : Type 0} (sys : System S) (policy : ThreadPolicy) (r : Region) (c : Caller) where
  -- Placement new of a `T` at the payload, after the shadow bits were cleared.
  unfoldable pub after_clear :
      (Memory → ℕ → Memory) → Handle → World A S → Option (Bool × S × Memory) → Answer A S
  after_clear constructor h w none = none
  after_clear constructor h w (some (false, pages, shadow)) =
      some (false, record w { pages = pages; shadow = shadow })
  after_clear constructor h w (some (true, pages, shadow)) = some (
    true,
    record w { pages = pages; shadow = shadow; memory = constructor w.memory h.payload_ptr },
  )

  unfoldable pub construct_at :
      (Memory → ℕ → Memory) → ℕ → ℕ → Handle → World A S → Option ℕ → Answer A S
  unfolding after_clear report_violation
  construct_at constructor type_size type_align h w none =
      some (false, report_violation wild_pointer h.payload_ptr 0 type_size c w)
  construct_at constructor type_size type_align h w (some slot) =
      if not (h.payload_ptr % type_align == 0)
      then some (
        false,
        report_violation alignment_violation h.payload_ptr
            (node_at (registry_of r w).node_pool slot).block_base type_size c w,
      )
      else after_clear constructor h w (
          set_shadow sys r.region_base r.size r.shadow_blob h.payload_ptr type_size false w.pages
            w.shadow)

  unfoldable pub construct : (Memory → ℕ → Memory) → ℕ → ℕ → Handle → World A S → Answer A S
  unfolding construct_at node_for
  construct constructor type_size type_align h w =
      construct_at constructor type_size type_align h w (node_for r (registry_of r w) h)

  unfoldable pub after_end :
      World A S → Option (AllocationRegistry × QuarantineQueue × KerbecsStats) → Answer A S
  after_end w none = none
  after_end w (some (reg, q, st)) =
      let w' = with_counters st (with_registry r reg w) in
      some (true, record w' { shared = record (w'.shared) { queue = q } })

  -- The shadow bits are set whatever `_setShadow` answers.
  unfoldable pub after_mark : ℕ → World A S → Option (Bool × S × Memory) → Answer A S
  unfolding after_end
  after_mark base w none = none
  after_mark base w (some (done, pages, shadow)) =
      let w' = record w { pages = pages; shadow = shadow } in
      after_end w' (
        end_retiring (registry_of r w') w'.shared.queue w'.shared.ledger.stats base
          (ticket_of r w'))

  unfoldable pub after_begin :
      (Memory → ℕ → Memory)
      → ℕ
      → Handle
      → ℕ
      → World A S
      → Option ℕ × AllocationRegistry
      → Answer A S
  unfolding after_mark refusal_kind report_violation
  after_begin destructor type_size h slot w (none, reg) =
      let node = node_at reg.node_pool slot in
      some (
        false,
        report_violation (refusal_kind policy c.thread node) h.payload_ptr node.block_base type_size
            c (with_registry r reg w),
      )
  after_begin destructor type_size h slot w (some i, reg) =
      let last = (node_at reg.node_pool i).live_count == 1 in
      let w' = record (with_registry r (drop_object reg i) w) {
        infos = expire last h w.infos;
        memory = memset (destructor w.memory h.payload_ptr) h.payload_ptr tombstone type_size;
      } in
      after_mark (node_at reg.node_pool slot).block_base w' (
        set_shadow sys r.region_base r.size r.shadow_blob h.payload_ptr type_size true w'.pages
          w'.shadow)

  unfoldable pub destroy_at : (Memory → ℕ → Memory) → ℕ → Handle → World A S → Option ℕ → Answer A S
  unfolding after_begin report_violation
  destroy_at destructor type_size h w none =
      some (false, report_violation double_free h.payload_ptr 0 type_size c w)
  destroy_at destructor type_size h w (some slot) =
      let reg = registry_of r w in
      after_begin destructor type_size h slot w
        (begin_retiring reg (node_at reg.node_pool slot).block_base c.thread policy)

  unfoldable pub destroy : (Memory → ℕ → Memory) → ℕ → Handle → World A S → Answer A S
  unfolding destroy_at node_for
  destroy destructor type_size h w =
      destroy_at destructor type_size h w (node_for r (registry_of r w) h)

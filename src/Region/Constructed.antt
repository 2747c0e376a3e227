-- ===== src/Region/Constructed.antt =====
-- `construct` of a handle of `allocate`, and `~Region`.
use kerbecs.Common.{
  ℕ, ◌+◌, ◌-◌, ◌%◌, ◌^◌, ◌≤◌, ◌≡◌, ◌≢◌, refl, ap, ◌∙◌, arith, true, false, not, ◌==◌, some, [],
}
use kerbecs.Memory.Pages.{System}
use kerbecs.Layout.Pattern.{Memory}
use kerbecs.Registry.{shutdown}
use kerbecs.Registry.Node.{ThreadPolicy}
use kerbecs.Registry.Lookup.{find_iff}
use kerbecs.Quarantine.{Ledger, flush_eligible, depth}
use kerbecs.Quarantine.Ring as Ring
use kerbecs.Quarantine.Ring.{contents}
use kerbecs.Quarantine.Flush.{retire_all}
use kerbecs.Quarantine.Grace.{flush_eligible_forced}
use kerbecs.ShadowedMemory.{Handle}
use kerbecs.Region.{Region, World, Caller, registry_of, close_region}
use kerbecs.Region.Shadow.Marks.{Marked}
use kerbecs.Region.Shadow.Loop.{held}
use kerbecs.Region.Shadow.Map.{IsInside, set_shadow-clears}
use kerbecs.Region.Granted.{registry_of-with_registry}
use kerbecs.Region.Allocated.{Allocated}
use kerbecs.Region.Destroy.{after_clear, construct_at, construct}
use kerbecs.Region.Refused.{node_for-slot}

-- An object that the constructor has filled in: the shadow bits of its bytes are clear wherever the map is
-- committed and no other bit changed, and nothing but memory and the map is touched.
pub record Constructed {A S : Type 0} (sys : System S) (r : Region)
    (constructor : Memory → ℕ → Memory) (type_size : ℕ) (h : Handle) (w w' : World A S)
    : Type 0 where
  pub bytes : w'.memory ≡ constructor w.memory h.payload_ptr
  pub cleared :
      Marked false
        (held sys w.pages)
        r.shadow_blob
        (h.payload_ptr - r.region_base)
        (h.payload_ptr - r.region_base + type_size)
        w.shadow
        w'.shadow
  pub shared_kept : w'.shared ≡ w.shared
  pub infos_kept : w'.infos ≡ w.infos
  pub pages_kept : w'.pages ≡ w.pages
  pub no_violation : w'.violations ≡ w.violations

module _ {A S : Type 0} (sys : System S) (policy : ThreadPolicy) (r : Region) (c : Caller)
    (constructor : Memory → ℕ → Memory) (type_size type_align : ℕ) (h : Handle) where
  -- In a region with its metadata map and its shadow map: a handle as `allocate` gives it, for a payload of at least one
  -- object whose address is aligned for it, is constructed.
  pub construct-Constructed :
      {thread user_size block_size align count : ℕ} {memory shadow : Memory}
      → (w : World A S) (a : Allocated r thread user_size block_size align count memory shadow h w)
      → r.metadata_base ≢ 0
      → r.shadow_blob ≢ 0
      → 1 ≤ type_size
      → type_size ≤ user_size
      → h.payload_ptr % type_align ≡ 0
      → (w' : World A S) × (construct sys policy r c constructor type_size type_align h w
          ≡ some (true, w'))
        × Constructed sys r constructor type_size h w w'
  unfolding construct construct_at after_clear
  construct-Constructed w a meta map some_bytes fits even =
      let reg = registry_of r w in
      let (nz, l, _, _) = (find_iff reg a.valid a.block a.slot).0 a.found in
      let at = node_for-slot r reg h a.slot meta a.slot_info (omega (arith, l)) in
      let inside : IsInside r.region_base r.size h.payload_ptr type_size = record {
        base_there = a.inside.base_there;
        address_there = a.inside.address_there;
        some_bytes = some_bytes;
        lower = a.inside.lower;
        upper = omega (arith, a.inside.upper);
      } in
      let (after, e, marked) =
        set_shadow-clears sys r.region_base r.size r.shadow_blob h.payload_ptr type_size w.pages
          w.shadow a.poisoned.bytes inside map in
      let aligned : not (h.payload_ptr % type_align == 0) ≡ false = ground (arith, even) in
      (
        record w { shadow = after; memory = constructor w.memory h.payload_ptr },
        rw (at, aligned) (ap (after_clear sys policy r c constructor h w) e),
        record {
          bytes = refl;
          cleared = marked;
          shared_kept = refl;
          infos_kept = refl;
          pages_kept = refl;
          no_violation = refl;
        },
      )

-- The destructor of a region, with a well-formed ring of fewer than 2 ^ 64 blocks, retires the blocks of every region,
-- the oldest first and each once, whatever their epochs are; then the ring is empty, and the region's registry
-- is without nodes.
pub close_region_empties :
    {A S : Type 0} (r : Region) (w : World A S)
    → Ring.IsValid w.shared.queue
    → depth w.shared.queue ≤ 2 ^ 64 - 1
    → (contents (close_region r w).shared.queue ≡ [])
      × (registry_of r (close_region r w)
          ≡ shutdown (
              (retire_all w.shared.queue.stats_attached w.shared.ledger
                  (contents w.shared.queue)).registries
                r.registry_ptr))
unfolding close_region
close_region_empties r w v few =
    let (empty, _, ledger) = flush_eligible_forced (2 ^ 64 - 1) w.shared v few in
    let u = record w { shared = (flush_eligible (2 ^ 64 - 1) true w.shared).1 } in
    (
      empty,
      registry_of-with_registry r (shutdown (registry_of r u)) u
          ∙ ap (λ (l : Ledger). shutdown (l.registries r.registry_ptr)) ledger,
    )

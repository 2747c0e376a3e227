-- ===== src/Region/Destroyed.antt =====
-- What a `Region::destroy` that succeeds leaves behind.
use kerbecs.Common.{
  ℕ, ◌+◌, ◌^◌, ◌<◌, ◌≡◌, ◌≢◌, ◌⊎◌, refl, sym, ap, ◌∙◌, arith, Bool, true, false, ◌==◌, ==_iff, some,
}
use mathlib.Core.Path.{subst}
use kerbecs.Memory.Pages.{System, IsSystem, AreMapped}
use kerbecs.Layout.Pattern.{Memory, memset, tombstone}
use kerbecs.Registry.{AllocationRegistry, node_at, drop_object, find, begin_retiring, settle}
use kerbecs.Registry.Node.{AllocationState, ThreadPolicy, flexible}
use kerbecs.Registry.Invariant.{base_of, state_of}
use kerbecs.Registry.Invariant as Registry
use kerbecs.Registry.Lookup.{find_iff}
use kerbecs.Registry.Retiring.{begin_retiring_iff}
use kerbecs.Registry.Destruction.{Destroyed, destruction, begun_node, base-begin_retiring}
use kerbecs.Quarantine.{is_full, set_registry}
use kerbecs.Quarantine.Ring as Ring
use kerbecs.Quarantine.Ring.{contents}
use kerbecs.Quarantine.Settle.{end_retiring}
use kerbecs.Quarantine.Settled.{Handed, end_retiring-Handed}
use kerbecs.ShadowedMemory.{AccessInfo, Handle}
use kerbecs.Region.{Region, World, Caller, registry_of, with_registry}
use kerbecs.Region.Shadow.{set_shadow}
use kerbecs.Region.Shadow.Map.{set_shadow_answers}
use kerbecs.Region.Granted.{registry_of-with_registry}
use kerbecs.Region.Destroy.{
  node_for, expire, after_end, ticket_of, after_mark, after_begin, destroy_at, destroy,
}

-- Node `i` of block `base` after `destroy` of one of its objects: the registry has let the object go,
-- the object's bytes are the destructor's with tombstones over them, and its shadow bits were set if
-- the map let them. The last object of a block takes the generation out of the handle's access info
-- and hands the block to the quarantine; any other leaves the access infos and the quarantine alone.
pub record Gone {A S : Type 0} (sys : System S) (r : Region) (destructor : Memory → ℕ → Memory)
    (type_size : ℕ) (h : Handle) (base i : ℕ) (w w' : World A S) : Type 0 where
  pub registry : Destroyed (registry_of r w) base i (registry_of r w')
  pub bytes :
      w'.memory ≡ memset (destructor w.memory h.payload_ptr) h.payload_ptr tombstone type_size
  pub marked :
      (done : Bool) × (set_shadow sys r.region_base r.size r.shadow_blob h.payload_ptr type_size
          true w.pages w.shadow
        ≡ some (done, w'.pages, w'.shadow))
  pub quarantine :
      Handed w.shared.queue
        ((node_at (registry_of r w).node_pool i).live_count == 1)
        (ticket_of r w)
        base
        (node_at (registry_of r w).node_pool i).block_size
        w'.shared.queue
  pub expired :
      (node_at (registry_of r w).node_pool i).live_count ≡ 1 → (w'.infos h.meta_ptr).generation ≡ 0
  pub infos_kept : (node_at (registry_of r w).node_pool i).live_count ≢ 1 → w'.infos ≡ w.infos
  pub no_violation : w'.violations ≡ w.violations

expire_last :
    (last : Bool) (h : Handle) (infos : ℕ → AccessInfo)
    → last ≡ true
    → (expire last h infos h.meta_ptr).generation ≡ 0
expire_last last h infos e = let same = (==_iff h.meta_ptr h.meta_ptr).1 refl in rw (e, same) refl

expire_kept :
    (last : Bool) (h : Handle) (infos : ℕ → AccessInfo) → last ≡ false → expire last h infos ≡ infos
expire_kept last h infos e = rw e refl

module _ {A S : Type 0} (sys : System S) (policy : ThreadPolicy) (r : Region) (c : Caller)
    (destructor : Memory → ℕ → Memory) (type_size : ℕ) (h : Handle) where
  -- Over a shadow map whose addresses the system calls reserved or committed in the state of the call, a system
  -- whose `protect` unmaps none, with a well-formed registry that is there, and a quarantine that is well-formed, has room and a tail whose next value is below 2 ^ 64: where the handle leads
  -- to a slot, and `find` gives node `i` for the block in that slot, and node `i` is live, counts fewer
  -- than 2 ^ 64 objects and may be destroyed on this thread, `destroy` succeeds on node `i`, as `Gone` says.
  -- Node `i` need not be the handle's slot.
  pub destroy-Gone :
      (w : World A S) (slot i : ℕ)
      → IsSystem sys
      → AreMapped sys w.pages r.shadow_blob r.size
      → Registry.IsValid (registry_of r w)
      → Ring.IsValid w.shared.queue
      → is_full w.shared.queue ≡ false
      → w.shared.queue.tail + 1 < 2 ^ 64
      → r.registry_ptr ≢ 0
      → (node_at (registry_of r w).node_pool i).live_count < 2 ^ 64
      → node_for r (registry_of r w) h ≡ some slot
      → find (registry_of r w) (base_of (registry_of r w) slot) ≡ some i
      → state_of (registry_of r w) i ≡ AllocationState.live
      → (policy ≡ flexible) ⊎ (c.thread ≡ (node_at (registry_of r w).node_pool i).thread_id)
      → (w' : World A S) × (destroy sys policy r c destructor type_size h w ≡ some (true, w'))
        × Gone sys r destructor type_size h (base_of (registry_of r w) slot) i w w'
  unfolding destroy destroy_at after_begin after_mark after_end
  destroy-Gone w slot i law zone v qv room qsmall there small at f live allowed =
      let reg = registry_of r w in
      let base = base_of reg slot in
      let done : (begin_retiring reg base c.thread policy).0 ≡ some i =
        (begin_retiring_iff reg base c.thread policy i v).1 (f, live, allowed) in
      let begun = (begin_retiring reg base c.thread policy).1 in
      let last = (node_at begun.node_pool i).live_count == 1 in
      let w1 = record (with_registry r (drop_object begun i) w) {
        infos = expire last h w.infos;
        memory = memset (destructor w.memory h.payload_ptr) h.payload_ptr tombstone type_size;
      } in
      let ((marked, pages, shadow), m) =
        set_shadow_answers sys r.region_base r.size r.shadow_blob h.payload_ptr type_size w.pages
          w.shadow law zone in
      let w2 = record w1 { pages = pages; shadow = shadow } in
      let (answer, gone) = destruction reg v base c.thread policy i done small in
      let same : registry_of r w2 ≡ drop_object begun i =
        registry_of-with_registry r (drop_object begun i) w in
      let (q', st', e, handed) =
        end_retiring-Handed (drop_object begun i) w.shared.queue w.shared.ledger.stats base
          (ticket_of r w) ((node_at reg.node_pool i).live_count == 1) i qv room qsmall
          ((find_iff reg v base i).0 f).0 there answer in
      let w3 = record (with_registry r (settle (drop_object begun i) base).1 w2) {
        shared = record (w.shared) {
          ledger = record (w.shared.ledger) {
            registries =
                set_registry
                  (set_registry w.shared.ledger.registries r.registry_ptr (drop_object begun i))
                  r.registry_ptr (settle (drop_object begun i) base).1;
            stats = st';
          };
          queue = q';
        };
      } in
      let objects : (node_at begun.node_pool i).live_count ≡ (node_at reg.node_pool i).live_count =
        (begun_node reg v base c.thread policy i done small).0 in
      (
        w3,
        ap (destroy_at sys policy r c destructor type_size h w) at
            ∙ ap (λ o. after_begin sys policy r c destructor type_size h slot w (o, begun)) done
            ∙ ap
                (λ b. after_mark sys policy r c b w1 (
                  set_shadow sys r.region_base r.size r.shadow_blob h.payload_ptr type_size true
                    w.pages w.shadow))
                (base-begin_retiring reg base c.thread policy slot)
            ∙ ap (after_mark sys policy r c base w1) m
            ∙ ap
                (λ g.
                  after_end sys policy r c w2
                    (end_retiring g w.shared.queue w.shared.ledger.stats base (ticket_of r w)))
                same
            ∙ ap (after_end sys policy r c w2) e,
        record {
          registry =
              subst (λ (z : AllocationRegistry). Destroyed reg base i z)
                (sym (registry_of-with_registry r (settle (drop_object begun i) base).1 w2)) gone;
          bytes = refl;
          marked = (marked, m);
          quarantine =
              subst
                (λ (n : ℕ).
                  Handed w.shared.queue ((node_at reg.node_pool i).live_count == 1) (ticket_of r w)
                    base n q')
                gone.size handed;
          expired = λ one.
              expire_last last h w.infos
                ((==_iff (node_at begun.node_pool i).live_count 1).1 (objects ∙ one));
          infos_kept = λ more. expire_kept last h w.infos (ground (arith, objects, more));
          no_violation = refl;
        },
      )

-- ===== src/Region/Cycle.antt =====
-- From `allocate` over `destroy` to a use of the handle, and to a second `destroy`.
use mathlib.Core.Path.{subst}
use kerbecs.Common.{ℕ, ◌+◌, ◌^◌, ◌<◌, ◌≡◌, ◌≢◌, sym, arith, true, false, ==_iff, inr, some, List}
use kerbecs.Memory.Pages.{System, IsSystem, AreMapped}
use kerbecs.Layout.Pattern.{Memory}
use kerbecs.Registry.{node_at, find}
use kerbecs.Registry.Node.{AllocationState, ThreadPolicy}
use kerbecs.Registry.Invariant.{base_of, state_of}
use kerbecs.Registry.Lookup.{find_iff}
use kerbecs.Quarantine.{is_full}
use kerbecs.Quarantine.Ring as Ring
use kerbecs.ShadowedMemory.{AccessInfo, Handle, Monitor, Clock, check}
use kerbecs.Region.{Region, World, Caller, registry_of}
use kerbecs.Region.Allocated.{Allocated}
use kerbecs.Region.Destroy.{destroy}
use kerbecs.Region.Destroyed.{Gone, destroy-Gone}
use kerbecs.Region.Refused.{node_for-slot, AreRefused, Spent-AreRefused}

check-current :
    (infos : ℕ → AccessInfo) (h : Handle) (c : Clock) (m : Monitor)
    → (infos h.meta_ptr).generation ≡ h.generation
    → check infos h c m ≡ (true, m)
unfolding check
check-current infos h c m e = ground arith

module _ {A S : Type 0} (sys : System S) (policy : ThreadPolicy) (r : Region) (c : Caller)
    (destructor : Memory → ℕ → Memory) (type_size : ℕ) (h : Handle) where
  -- What becomes of a handle for the last object of block `base`, on node `slot`: its checks pass; it is
  -- destroyed; then the handle stays refused, however many callers `destroy` it one after the other.
  pub record Once (base slot : ℕ) (w : World A S) : Type 0 where
    pub passes : (k : Clock) (m : Monitor) → check w.infos h k m ≡ (true, m)
    pub after : World A S
    pub destroys : destroy sys policy r c destructor type_size h w ≡ some (true, after)
    pub gone : Gone sys r destructor type_size h base slot w after
    pub refused : (cs : List Caller) → AreRefused sys policy r destructor type_size h base cs after

  pub destroy-Once :
      {user_size block_size align : ℕ} {memory shadow : Memory}
      → (w : World A S) (a : Allocated r c.thread user_size block_size align 1 memory shadow h w)
      → r.metadata_base ≢ 0
      → r.registry_ptr ≢ 0
      → IsSystem sys
      → AreMapped sys w.pages r.shadow_blob r.size
      → Ring.IsValid w.shared.queue
      → is_full w.shared.queue ≡ false
      → w.shared.queue.tail + 1 < 2 ^ 64
      → Once a.block a.slot w
  destroy-Once w a meta registry law zone qv room small =
      let reg = registry_of r w in
      let (nz, l, t, b) = (find_iff reg a.valid a.block a.slot).0 a.found in
      let at = node_for-slot r reg h a.slot meta a.slot_info (omega arith) in
      let found : find reg (base_of reg a.slot) ≡ some a.slot = rw b a.found in
      let (w', e, gone) =
        destroy-Gone sys policy r c destructor type_size h w a.slot a.slot law zone a.valid qv room
          small registry (omega (arith, a.objects)) at found a.live (inr (sym a.owner)) in
      let gone' = subst (λ (n : ℕ). Gone sys r destructor type_size h n a.slot w w') b gone in
      let reg' = registry_of r w' in
      let after = gone'.registry in
      let one = (==_iff (node_at reg.node_pool a.slot).live_count 1).1 a.objects in
      let state : state_of reg' a.slot ≡ AllocationState.quarantine =
        ground (arith, after.state, one) in
      record {
        passes = λ k m. check-current w.infos h k m a.info_generation;
        after = w';
        destroys = e;
        gone = gone';
        refused = λ cs.
            Spent-AreRefused sys policy r destructor type_size h a.block a.slot cs w' meta
              a.slot_info a.inside.address_there a.generation_there
              (record {
                valid = after.valid;
                found = after.found;
                state = state;
                expired = gone'.expired a.objects;
              });
      }

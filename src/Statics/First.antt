-- ===== src/Statics/First.antt =====
-- What a static region remembers of its first call, and the end of a static object.
use kerbecs.Common.{ℕ, ◌^◌, ◌+◌, ◌<◌, ◌≡◌, ◌≢◌, refl, ap, arith, false, not, ◌==◌, none, some, []}
use kerbecs.Region.Refused.{AreRefused}
use kerbecs.Memory.Pages.{System, IsSystem, AreMapped}
use kerbecs.Layout.Pattern.{Memory}
use kerbecs.Registry.Node.{flexible}
use kerbecs.Quarantine.{is_full}
use kerbecs.Quarantine.Ring as Ring
use kerbecs.ShadowedMemory.{Handle, Clock}
use kerbecs.Region.{Region, World, Caller}
use kerbecs.Region.Allocated.{Allocated}
use kerbecs.Region.Cycle.{Once, destroy-Once}
use kerbecs.Statics.{destroy_static, without_answer}

module _ {A S : Type 0} (sys : System S) (r : Region) (c : Caller)
    (destructor : Memory → ℕ → Memory) (type_size : ℕ) (h : Handle) where
  -- The end of a static object that its thread allocated and did not destroy: under the conditions of
  -- `destroy-Once` the destructor goes through and destroys it, and a second one would trap.
  pub destroy_static-Once :
      {user_size block_size align : ℕ} {memory shadow : Memory}
      → (w : World A S) (a : Allocated r c.thread user_size block_size align 1 memory shadow h w)
      → r.metadata_base ≢ 0
      → r.registry_ptr ≢ 0
      → IsSystem sys
      → AreMapped sys w.pages r.shadow_blob r.size
      → Ring.IsValid w.shared.queue
      → is_full w.shared.queue ≡ false
      → w.shared.queue.tail + 1 < 2 ^ 64
      → (life : Once sys flexible r c destructor type_size h a.block a.slot w) × (destroy_static sys
            r c destructor type_size
            (some h)
            w
          ≡ some life.after)
        × (destroy_static sys r c destructor type_size (some h) life.after ≡ none)
  unfolding destroy_static without_answer AreRefused
  destroy_static-Once w a meta registry law zone v room small =
      let life =
        destroy-Once sys flexible r c destructor type_size h w a meta registry law zone v room
          small in
      let clock : Clock = record { thread = c.thread; stamp = c.stamp } in
      let passes =
        ap (λ x. not x.0)
          (life.passes clock
            (record { stats = w.shared.ledger.stats; violations = w.violations })) in
      let traps = ap not (
        life.refused [] clock (record {
          stats = life.after.shared.ledger.stats;
          violations = life.after.violations;
        })) in
      let there : (h.payload_ptr == 0) ≡ false = ground (arith, a.inside.address_there) in
      (life, rw (passes, there) (ap without_answer life.destroys), rw traps refl)

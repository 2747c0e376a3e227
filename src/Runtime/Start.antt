-- ===== src/Runtime/Start.antt =====
-- `KerbecsRuntime::init`: what it leaves on each of its paths.
use mathlib.Core.Path.{subst}
use native.Mathlib.Decide.{ℕ_discrete}
use kerbecs.Common.{
  ℕ, ◌+◌, ◌≡◌, ◌≢◌, ◌↔◌, refl, sym, ◌∙◌, arith, Bool, true, false, ◌==◌, Option, none, some, List,
  [], ◌∷◌, ap, Bool-cases, Option-cases, inl, inr, add_word, ==_iff,
}
use kerbecs.Allocators as Allocators
use kerbecs.RegionRecord.{RegionRecord, RegionTable, init_region_table, shutdown_region_table}
use kerbecs.Quarantine.{QuarantineQueue, Shared, is_null, detached_queue}
use kerbecs.Quarantine as Quarantine
use kerbecs.Quarantine.Ring as Ring
use kerbecs.Runtime.{
  Runtime, Grants, shadow_bytes, global_bytes, static_bytes, metadata_bytes, total_bytes, take_back,
  release, quarantine_capacity, region_table_capacity, with_queue, lay_zones, unwind, start,
  start_parts, init,
}
use kerbecs.Runtime.Life.{IsSound}

-- The ring that `init` makes does not depend on what was there.
ring_made :
    (q : QuarantineQueue)
    → ((Quarantine.init quarantine_capacity true true q).0 ≡ true)
      × Ring.IsValid (Quarantine.init quarantine_capacity true true q).1
unfolding Quarantine.init
ring_made q = let (e, v, _) = Ring.init-IsValid 12 (omega arith) in (refl, v)

ring_refused :
    (q : QuarantineQueue)
    → Quarantine.init quarantine_capacity true false q ≡ (false, record q { slots = [] })
unfolding Quarantine.init
ring_refused q = refl

pub shutdown-slots : (q : QuarantineQueue) → (Quarantine.shutdown q).slots ≡ []
unfolding Quarantine.shutdown
shutdown-slots q = refl

table_made :
    (t : RegionTable)
    → ((init_region_table region_table_capacity true t).0 ≡ true)
      × ((rs : List RegionRecord) × ((init_region_table region_table_capacity true t).1.records
            ≡ some rs))
unfolding init_region_table
table_made t = elim (Option-cases t.records) [
  | inl e ↦ rw e (refl, (_, refl))
  | inr (rs, e) ↦ rw e (refl, (rs, refl))
]

table_refused :
    (t : RegionTable)
    → t.records ≡ none
    → init_region_table region_table_capacity false t ≡ (false, t)
unfolding init_region_table
table_refused t e = rw e refl

pub shutdown-records : (t : RegionTable) → (shutdown_region_table t).records ≡ none
unfolding shutdown_region_table
shutdown-records t = refl

pub release_none : (p n : ℕ) → release p n [] ≡ []
unfolding release take_back
release_none p n = elim (Bool-cases (p == 0)) [ inl e ↦ rw e refl | inr e ↦ rw e refl ]

-- The only range that is held is given back with its own address and size.
pub release_last :
    (p : ℕ) → p ≢ 0 → release p total_bytes (record { base = p; bytes = total_bytes } ∷ []) ≡ []
unfolding release take_back
release_last p there =
    let here : (p == 0) ≡ false = ground arith in
    let same : (p == p) ≡ true = (==_iff p p).1 refl in rw (here, same) refl

unwind-IsSound :
    (r : Runtime)
    → r.joinable ≡ false
    → r.drain_running ≡ false
    → r.memory_zone ≢ 0
    → r.held ≡ record { base = r.memory_zone; bytes = total_bytes } ∷ []
    → IsSound (unwind r)
unfolding unwind
unwind-IsSound r j d z one = record {
  joins = j;
  drains = d;
  busy = λ e. absurd (cc);
  idle = λ e. record {
    memory = refl;
    shadow = refl;
    globals = refl;
    statics = refl;
    metadata = refl;
    slots = shutdown-slots r.shared.queue;
    table = shutdown-records r.regions;
    released = ap (release r.memory_zone total_bytes) one ∙ release_last r.memory_zone z;
  };
}

-- The four arenas of `init`, over the zones behind `zone`, with nothing given out yet.
pub record Arenas (zone : ℕ) (r : Runtime) : Type 0 where
  pub shadow : r.shadowzone_allocator ≡ Allocators.init zone shadow_bytes
  pub globals : r.global_allocator ≡ Allocators.init (add_word zone shadow_bytes) global_bytes
  pub statics :
      r.static_allocator
      ≡ Allocators.init (add_word zone (shadow_bytes + global_bytes)) static_bytes
  pub metadata :
      r.metadata_zone_allocator
      ≡ Allocators.init (add_word zone (shadow_bytes + global_bytes + static_bytes)) metadata_bytes

-- What a call of `init` on a runtime that does not serve comes to.
pub record Started (g : Grants) (r : Runtime) (out : Option (Bool × Runtime)) : Type 0 where
  pub done : Bool
  pub after : Runtime
  pub answers : out ≡ some (done, after)
  pub sound : IsSound after
  pub serves : after.initialized ≡ done
  pub arenas : done ≡ true → Arenas g.zone after
  pub complete : (done ≡ true) ↔ ((g.zone ≢ 0) × (g.slots ≡ true) × (g.table ≡ true))

start-Started :
    (g : Grants) (r : Runtime) (q : QuarantineQueue) (t : RegionTable)
    → r.joinable ≡ false
    → g.slots ≡ true
    → g.table ≡ true
    → g.zone ≢ 0
    → Ring.IsValid q
    → (rs : List RegionRecord) × (t.records ≡ some rs)
    → r.held ≡ []
    → Started g r (start (record (with_queue q (lay_zones g.zone r)) { regions = t }))
unfolding start lay_zones
start-Started g r q t j s k z v rs none_held = rw j (record {
  done = true;
  after = _;
  answers = refl;
  sound = record {
    joins = refl;
    drains = refl;
    busy = λ e. record {
      zone_there = z;
      shadow_at = refl;
      global_at = refl;
      static_at = refl;
      metadata_at = refl;
      ring = v;
      table = rs;
      open_for_end = refl;
      reserved = ap (◌∷◌ (record { base = g.zone; bytes = total_bytes })) none_held;
    };
    idle = λ e. absurd (cc);
  };
  serves = refl;
  arenas = λ e. record { shadow = refl; globals = refl; statics = refl; metadata = refl };
  complete = (λ e. (z, s, k), λ e. refl);
})

refused-Started :
    (g : Grants) (r r' : Runtime)
    → IsSound (unwind r')
    → ¬ ((g.zone ≢ 0) × (g.slots ≡ true) × (g.table ≡ true))
    → Started g r (some (false, unwind r'))
unfolding unwind
refused-Started g r r' w short = record {
  done = false;
  after = _;
  answers = refl;
  sound = w;
  serves = refl;
  arenas = λ e. absurd (cc);
  complete = (λ e. absurd (cc), λ e. absurd (short e));
}

parts_without_slots :
    (g : Grants) (r : Runtime)
    → g.slots ≡ false
    → start_parts g r ≡ some (false, unwind (with_queue (record (r.shared.queue) { slots = [] }) r))
unfolding start_parts
parts_without_slots g r e = rw (e, ring_refused r.shared.queue) refl

parts_without_table :
    (g : Grants) (r : Runtime)
    → g.slots ≡ true
    → g.table ≡ false
    → r.regions.records ≡ none
    → start_parts g r
      ≡ some (
        false,
        unwind (with_queue (Quarantine.init quarantine_capacity true true r.shared.queue).1 r),
      )
unfolding start_parts
parts_without_table g r s e t =
    rw (s, e, table_refused r.regions t, (ring_made r.shared.queue).0) refl

parts_there :
    (g : Grants) (r : Runtime)
    → g.slots ≡ true
    → g.table ≡ true
    → start_parts g r
      ≡ start
          (record (with_queue (Quarantine.init quarantine_capacity true true r.shared.queue).1 r) {
            regions = (init_region_table region_table_capacity true r.regions).1;
          })
unfolding start_parts
parts_there g r s e = rw (s, e, (table_made r.regions).0, (ring_made r.shared.queue).0) refl

parts-Started :
    (g : Grants) (r : Runtime)
    → IsSound r
    → r.initialized ≡ false
    → g.zone ≢ 0
    → Started g r (start_parts g (lay_zones g.zone r))
unfolding lay_zones
parts-Started g r w off z =
    let laid = lay_zones g.zone r in
    let ring = Quarantine.init quarantine_capacity true true r.shared.queue in
    let j = w.joins ∙ off in
    let d = w.drains ∙ off in
    let i = w.idle off in
    let one : laid.held ≡ record { base = g.zone; bytes = total_bytes } ∷ [] =
      ap (◌∷◌ (record { base = g.zone; bytes = total_bytes })) i.released in
    elim (Bool-cases g.slots) [
      | inr f ↦
          let q : QuarantineQueue = record (r.shared.queue) { slots = [] } in
          subst (Started g r) (sym (parts_without_slots g laid f)) (
            refused-Started g r (with_queue q laid) (unwind-IsSound (with_queue q laid) j d z one)
              (λ p. cc))
      | inl t ↦ elim (Bool-cases g.table) [
        | inr f ↦ subst (Started g r) (sym (parts_without_table g laid t f (w.idle off).table)) (
            refused-Started g r (with_queue ring.1 laid)
              (unwind-IsSound (with_queue ring.1 laid) j d z one) (λ p. cc))
        | inl u ↦ subst (Started g r) (sym (parts_there g laid t u)) (
            start-Started g r ring.1 (init_region_table region_table_capacity true r.regions).1 j t
              u z (ring_made r.shared.queue).1 (table_made r.regions).1 i.released)
      ]
    ]

pub init_null :
    (g : Grants) (r : Runtime)
    → r.initialized ≡ false
    → g.zone ≡ 0
    → init g r ≡ some (false, record r { memory_zone = 0 })
unfolding init
init_null g r off z = let null = (==_iff g.zone 0).1 z in rw (off, null) refl

init_goes :
    (g : Grants) (r : Runtime)
    → r.initialized ≡ false
    → g.zone ≢ 0
    → init g r ≡ start_parts g (lay_zones g.zone r)
unfolding init
init_goes g r off z = let there : (g.zone == 0) ≡ false = ground arith in rw (off, there) refl

null-Started :
    (g : Grants) (r : Runtime)
    → IsSound r
    → r.initialized ≡ false
    → g.zone ≡ 0
    → Started g r (some (false, record r { memory_zone = 0 }))
null-Started g r w off z =
    let i = w.idle off in
    record {
      done = false;
      after = record r { memory_zone = 0 };
      answers = refl;
      sound = record {
        joins = w.joins;
        drains = w.drains;
        busy = λ e. absurd (cc);
        idle = λ e. record {
          memory = refl;
          shadow = i.shadow;
          globals = i.globals;
          statics = i.statics;
          metadata = i.metadata;
          slots = i.slots;
          table = i.table;
          released = i.released;
        };
      };
      serves = off;
      arenas = λ e. absurd (cc);
      complete = (λ e. absurd (cc), λ e. absurd (e.0 z));
    }

-- On a sound runtime that does not serve, `init` answers and leaves a sound runtime, which serves
-- exactly if the answer is true: if the zone, the quarantine's slots and the region table were all
-- granted. Where it is false, the runtime holds nothing: no slots, no table, and in the account of what it
-- reserved and has not released no range, so that a zone that was reserved is released with its size.
pub init-Started :
    (g : Grants) (r : Runtime) → IsSound r → r.initialized ≡ false → Started g r (init g r)
init-Started g r w off = elim (ℕ_discrete g.zone 0) [
  | yes z ↦ subst (Started g r) (sym (init_null g r off z)) (null-Started g r w off z)
  | no z ↦ subst (Started g r) (sym (init_goes g r off z)) (parts-Started g r w off z)
]

-- `init` of a runtime that serves changes nothing.
pub init_again : (g : Grants) (r : Runtime) → r.initialized ≡ true → init g r ≡ some (true, r)
unfolding init
init_again g r e = rw e refl

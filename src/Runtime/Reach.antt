-- ===== src/Runtime/Reach.antt =====
-- Whatever is called in whatever order, the runtime stays sound.
use mathlib.Core.Path.{subst}
use kerbecs.Common.{
  [], ℕ, ◌-◌, ◌^◌, ◌≡◌, refl, sym, ap, ◌∙◌, Bool, true, false, leb, ◌==◌, none, some, List,
  Bool-cases, inl, inr, add_word,
}
use kerbecs.RegionRecord.{RegionRecord, RegionTable, register_region_record}
use kerbecs.Quarantine.{Shared, flush_eligible}
use kerbecs.Quarantine.Ring as Ring
use kerbecs.Quarantine.Grace.{flush_eligible-Flushed}
use kerbecs.Runtime.{
  Runtime, Grants, init, teardown, drain_tick, shadowzone_allocate, metadata_zone_allocate,
  register_region, region_table_capacity, release, total_bytes,
}
use kerbecs.Runtime.Life.{
  IsBusy, IsIdle, IsSound, IsFresh, Step, inits, tears_down, wakes, works, gives_shadow,
  gives_metadata, registers, Reachable, fresh, next,
}
use kerbecs.Runtime.Start.{
  init-Started, init_again, shutdown-slots, shutdown-records, release_last, release_none,
}

pub fresh-IsSound : (r : Runtime) → IsFresh r → IsSound r
fresh-IsSound r f = record {
  joins = f.no_thread ∙ sym f.not_initialized;
  drains = f.no_drain ∙ sym f.not_initialized;
  busy = λ e. absurd (cc (f.not_initialized));
  idle = λ e. f.nothing;
}

inits-IsSound :
    (g : Grants) (done : Bool) (r r' : Runtime)
    → IsSound r
    → init g r ≡ some (done, r')
    → IsSound r'
inits-IsSound g done r r' w e = elim (Bool-cases r.initialized) [
  | inl on ↦
      let pair : ◌≡◌ {A = Bool × Runtime} (true, r) (done, r') = cc (init_again g r on) in
      subst IsSound (ap (λ (p : Bool × Runtime). p.1) pair) w
  | inr off ↦
      let s = init-Started g r w off in
      let pair : ◌≡◌ {A = Bool × Runtime} (s.done, s.after) (done, r') = cc (s.answers) in
      subst IsSound (ap (λ (p : Bool × Runtime). p.1) pair) s.sound
]

teardown_again : (r : Runtime) → r.shutdown ≡ true → (teardown r).1 ≡ r
unfolding teardown
teardown_again r e = rw e refl

teardown_releases : (r : Runtime) → IsSound r → release r.memory_zone total_bytes r.held ≡ []
teardown_releases r w = elim (Bool-cases r.initialized) [
  | inl on ↦
      let b = w.busy on in
      ap (release r.memory_zone total_bytes) b.reserved ∙ release_last r.memory_zone b.zone_there
  | inr off ↦
      let i = w.idle off in
      ap (release r.memory_zone total_bytes) i.released ∙ release_none r.memory_zone total_bytes
]

-- `teardownShadowzone` of a runtime that was not ended yet, and of one that was.
teardown-IsSound : (r : Runtime) → IsSound r → IsSound (teardown r).1
unfolding teardown
teardown-IsSound r w = elim (Bool-cases r.shutdown) [
  | inl ended ↦ subst IsSound (sym (teardown_again r ended)) w
  | inr open_for_end ↦ rw open_for_end (record {
    joins = refl;
    drains = refl;
    busy = λ e. absurd (cc);
    idle = λ e. record {
      memory = refl;
      shadow = refl;
      globals = refl;
      statics = refl;
      metadata = refl;
      slots = shutdown-slots (flush_eligible (2 ^ 64 - 1) true r.shared).1.queue;
      table = shutdown-records r.regions;
      released = teardown_releases r w;
    };
  })
]

-- Other shared state, with the ring still well-formed.
shared-IsSound :
    (r : Runtime) (s : Shared)
    → r.initialized ≡ true
    → (Ring.IsValid r.shared.queue → Ring.IsValid s.queue)
    → IsSound r
    → IsSound (record r { shared = s })
shared-IsSound r s on kept w =
    let b = w.busy on in
    record {
      joins = w.joins;
      drains = w.drains;
      busy = λ e. record {
        zone_there = b.zone_there;
        shadow_at = b.shadow_at;
        global_at = b.global_at;
        static_at = b.static_at;
        metadata_at = b.metadata_at;
        ring = kept b.ring;
        table = b.table;
        open_for_end = b.open_for_end;
        reserved = b.reserved;
      };
      idle = λ e. absurd (cc);
    }

pub drain_tick-IsValid : (s : Shared) → Ring.IsValid s.queue → Ring.IsValid (drain_tick s).queue
unfolding drain_tick
drain_tick-IsValid s v =
    (flush_eligible-Flushed (2 ^ 64 - 1) false (record s { epoch = add_word s.epoch 1 }) v).valid

-- What a call that only moves an allocator or the table leaves as it was.
record Keeps (r r' : Runtime) : Type 0 where
  joins : r'.joinable ≡ r.joinable
  drains : r'.drain_running ≡ r.drain_running
  on : r'.initialized ≡ r.initialized
  busy : IsBusy r → IsBusy r'
  idle : IsIdle r → IsIdle r'

kept-IsSound : (r r' : Runtime) → Keeps r r' → IsSound r → IsSound r'
kept-IsSound r r' k w = record {
  joins = k.joins ∙ w.joins ∙ sym k.on;
  drains = k.drains ∙ w.drains ∙ sym k.on;
  busy = λ e. k.busy (w.busy (sym k.on ∙ e));
  idle = λ e. k.idle (w.idle (sym k.on ∙ e));
}

shadow-Keeps : (r : Runtime) (bytes : ℕ) → Keeps r (shadowzone_allocate bytes r).1
unfolding shadowzone_allocate
shadow-Keeps r bytes = record {
  joins = refl;
  drains = refl;
  on = refl;
  busy = λ b. record {
    zone_there = b.zone_there;
    shadow_at = b.shadow_at;
    global_at = b.global_at;
    static_at = b.static_at;
    metadata_at = b.metadata_at;
    ring = b.ring;
    table = b.table;
    open_for_end = b.open_for_end;
    reserved = b.reserved;
  };
  idle = λ i. record {
    memory = i.memory;
    shadow = i.shadow;
    globals = i.globals;
    statics = i.statics;
    metadata = i.metadata;
    slots = i.slots;
    released = i.released;
    table = i.table;
  };
}

metadata-Keeps : (r : Runtime) (bytes align : ℕ) → Keeps r (metadata_zone_allocate bytes align r).1
unfolding metadata_zone_allocate
metadata-Keeps r bytes align = record {
  joins = refl;
  drains = refl;
  on = refl;
  busy = λ b. record {
    zone_there = b.zone_there;
    shadow_at = b.shadow_at;
    global_at = b.global_at;
    static_at = b.static_at;
    metadata_at = b.metadata_at;
    ring = b.ring;
    table = b.table;
    open_for_end = b.open_for_end;
    reserved = b.reserved;
  };
  idle = λ i. record {
    memory = i.memory;
    shadow = i.shadow;
    globals = i.globals;
    statics = i.statics;
    metadata = i.metadata;
    slots = i.slots;
    released = i.released;
    table = i.table;
  };
}

table_kept :
    (t : RegionTable) (rec : RegionRecord)
    → ((rs : List RegionRecord) × (t.records ≡ some rs))
    → (rs : List RegionRecord) × ((register_region_record region_table_capacity t rec).1.records
        ≡ some rs)
unfolding register_region_record
table_kept t rec (rs, e) = elim (Bool-cases (rec.region_ptr == 0)) [
  | inl null ↦ rw (e, null) (rs, refl)
  | inr there ↦ elim (Bool-cases (leb region_table_capacity t.count)) [
    | inl full ↦ rw (e, there, full) (rs, refl)
    | inr room ↦ rw (e, there, room) (_, refl)
  ]
]

table_missing :
    (t : RegionTable) (rec : RegionRecord)
    → t.records ≡ none
    → (register_region_record region_table_capacity t rec).1.records ≡ none
unfolding register_region_record
table_missing t rec e = rw e refl

register-Keeps : (r : Runtime) (rec : RegionRecord) → Keeps r (register_region rec r).1
unfolding register_region
register-Keeps r rec = record {
  joins = refl;
  drains = refl;
  on = refl;
  busy = λ b. record {
    zone_there = b.zone_there;
    shadow_at = b.shadow_at;
    global_at = b.global_at;
    static_at = b.static_at;
    metadata_at = b.metadata_at;
    ring = b.ring;
    table = table_kept r.regions rec b.table;
    open_for_end = b.open_for_end;
    reserved = b.reserved;
  };
  idle = λ i. record {
    memory = i.memory;
    shadow = i.shadow;
    globals = i.globals;
    statics = i.statics;
    metadata = i.metadata;
    slots = i.slots;
    released = i.released;
    table = table_missing r.regions rec i.table;
  };
}

Step-IsSound : (r r' : Runtime) → IsSound r → Step r r' → IsSound r'
Step-IsSound r r' w (inits g done _ _ e) = inits-IsSound g done r r' w e
Step-IsSound r r' w (tears_down _) = teardown-IsSound r w
Step-IsSound r r' w (wakes _ e) =
    shared-IsSound r (drain_tick r.shared) (sym w.drains ∙ e) (drain_tick-IsValid r.shared) w
Step-IsSound r r' w (works _ s on kept) = shared-IsSound r s on kept w
Step-IsSound r r' w (gives_shadow _ bytes) =
    kept-IsSound r (shadowzone_allocate bytes r).1 (shadow-Keeps r bytes) w
Step-IsSound r r' w (gives_metadata _ bytes align) =
    kept-IsSound r (metadata_zone_allocate bytes align r).1 (metadata-Keeps r bytes align) w
Step-IsSound r r' w (registers _ rec) =
    kept-IsSound r (register_region rec r).1 (register-Keeps r rec) w

-- Every runtime that calls of `init`, `teardownShadowzone` and the functions that regions use, rounds of
-- the drain thread, and work that keeps the ring well-formed, in any order and with any answers of the
-- system, lead to from a new object is sound: it serves, with its zones, ring, table and thread, or it
-- holds nothing of the system's and no thread, as `m_Initialized` says.
pub reachable-IsSound : (r : Runtime) → Reachable r → IsSound r
reachable-IsSound r (fresh _ f) = fresh-IsSound r f
reachable-IsSound r (next a _ before step) = Step-IsSound a r (reachable-IsSound a before) step

-- In no such state does `init` run into a thread that is still joinable.
pub init_answers :
    (r : Runtime) (g : Grants)
    → Reachable r
    → (done : Bool) × (r' : Runtime) × (init g r ≡ some (done, r'))
init_answers r g reach = elim (Bool-cases r.initialized) [
  | inl on ↦ (true, r, init_again g r on)
  | inr off ↦
      let s = init-Started g r (reachable-IsSound r reach) off in (s.done, s.after, s.answers)
]

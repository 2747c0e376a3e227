-- ===== src/Runtime/Life.antt =====
-- The states that the runtime goes through, over any sequence of calls and rounds of its thread.
use kerbecs.Common.{ℕ, ◌+◌, ◌≡◌, ◌≢◌, Bool, true, false, none, some, List, [], ◌∷◌, add_word}
use kerbecs.RegionRecord.{RegionRecord}
use kerbecs.Quarantine.{Shared}
use kerbecs.Quarantine.Ring as Ring
use kerbecs.Runtime.{
  Runtime, Grants, shadow_bytes, global_bytes, static_bytes, total_bytes, init, teardown,
  drain_tick, shadowzone_allocate, metadata_zone_allocate, register_region,
}

-- A runtime that serves: it holds the zones' range of the system's and no other, its zones lie one behind the
-- other in it, its ring is well-formed, its table is there.
pub record IsBusy (r : Runtime) : Type 0 where
  pub zone_there : r.memory_zone ≢ 0
  pub shadow_at : r.shadow_zone ≡ r.memory_zone
  pub global_at : r.global_zone ≡ add_word r.memory_zone shadow_bytes
  pub static_at : r.static_zone ≡ add_word r.memory_zone (shadow_bytes + global_bytes)
  pub metadata_at :
      r.metadata_zone ≡ add_word r.memory_zone (shadow_bytes + global_bytes + static_bytes)
  pub ring : Ring.IsValid r.shared.queue
  pub table : (rs : List RegionRecord) × (r.regions.records ≡ some rs)
  pub open_for_end : r.shutdown ≡ false
  pub reserved : r.held ≡ record { base = r.memory_zone; bytes = total_bytes } ∷ []

-- A runtime that holds nothing of the system's.
pub record IsIdle (r : Runtime) : Type 0 where
  pub memory : r.memory_zone ≡ 0
  pub shadow : r.shadow_zone ≡ 0
  pub globals : r.global_zone ≡ 0
  pub statics : r.static_zone ≡ 0
  pub metadata : r.metadata_zone ≡ 0
  pub slots : r.shared.queue.slots ≡ []
  pub table : r.regions.records ≡ none
  pub released : r.held ≡ []

-- It is one or the other, as `m_Initialized` says, and its thread runs exactly while it serves.
pub record IsSound (r : Runtime) : Type 0 where
  pub joins : r.joinable ≡ r.initialized
  pub drains : r.drain_running ≡ r.initialized
  pub busy : r.initialized ≡ true → IsBusy r
  pub idle : r.initialized ≡ false → IsIdle r

-- The object as it is constructed.
pub record IsFresh (r : Runtime) : Type 0 where
  pub nothing : IsIdle r
  pub not_initialized : r.initialized ≡ false
  pub no_thread : r.joinable ≡ false
  pub no_drain : r.drain_running ≡ false

-- One call on the runtime, a round of its thread, or work of the regions, which keeps the ring well-formed.
pub data Step : Runtime → Runtime → Type 0 where
  inits : (g : Grants) (done : Bool) (r r' : Runtime) → init g r ≡ some (done, r') → Step r r'
  tears_down : (r : Runtime) → Step r (teardown r).1
  wakes :
      (r : Runtime) → r.drain_running ≡ true → Step r (record r { shared = drain_tick r.shared })
  works :
      (r : Runtime) (s : Shared)
      → r.initialized ≡ true
      → (Ring.IsValid r.shared.queue → Ring.IsValid s.queue)
      → Step r (record r { shared = s })
  gives_shadow : (r : Runtime) (bytes : ℕ) → Step r (shadowzone_allocate bytes r).1
  gives_metadata : (r : Runtime) (bytes align : ℕ) → Step r (metadata_zone_allocate bytes align r).1
  registers : (r : Runtime) (rec : RegionRecord) → Step r (register_region rec r).1

pub data Reachable : Runtime → Type 0 where
  fresh : (r : Runtime) → IsFresh r → Reachable r
  next : (r r' : Runtime) → Reachable r → Step r r' → Reachable r'

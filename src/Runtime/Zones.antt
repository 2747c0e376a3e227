-- ===== src/Runtime/Zones.antt =====
-- The zones of a runtime that has started, as arenas of their allocators.
use mathlib.Core.Path.{subst}
use kerbecs.Common.{
  ℕ, ◌+◌, ◌^◌, ◌≤◌, ◌≡◌, ◌≢◌, sym, ap, ◌∙◌, arith, Bool, true, false, some, add_word,
}
use kerbecs.Allocators.{BumpAllocator}
use kerbecs.Allocators as Allocators
use kerbecs.Allocators.Reserve as Reserve
use kerbecs.Runtime.{
  Runtime, Grants, init, shadow_bytes, global_bytes, static_bytes, metadata_bytes, total_bytes,
}
use kerbecs.Runtime.Life.{IsSound}
use kerbecs.Runtime.Start.{Arenas, init-Started}

-- Arenas that are well-formed, one behind the other without gaps, from `zone` on for `total_bytes`, each
-- with the offset of its first free byte at 0.
pub record AreZones (zone : ℕ) (r : Runtime) : Type 0 where
  pub shadow-IsValid : Reserve.IsValid r.shadowzone_allocator
  pub global-IsValid : Reserve.IsValid r.global_allocator
  pub static-IsValid : Reserve.IsValid r.static_allocator
  pub metadata-IsValid : Reserve.IsValid r.metadata_zone_allocator
  pub first : r.shadowzone_allocator.base ≡ zone
  pub second : r.global_allocator.base ≡ r.shadowzone_allocator.base + r.shadowzone_allocator.size
  pub third : r.static_allocator.base ≡ r.global_allocator.base + r.global_allocator.size
  pub fourth : r.metadata_zone_allocator.base ≡ r.static_allocator.base + r.static_allocator.size
  pub end : r.metadata_zone_allocator.base + r.metadata_zone_allocator.size ≡ zone + total_bytes
  pub shadow_unused : r.shadowzone_allocator.bump ≡ 0
  pub global_unused : r.global_allocator.bump ≡ 0
  pub static_unused : r.static_allocator.bump ≡ 0
  pub metadata_unused : r.metadata_zone_allocator.bump ≡ 0

arena :
    (a : BumpAllocator) (base size : ℕ)
    → a ≡ Allocators.init base size
    → (a.base ≡ base) × (a.size ≡ size) × (a.bump ≡ 0)
unfolding Allocators.init
arena a base size e = (
  ap (λ (x : BumpAllocator). x.base) e,
  ap (λ (x : BumpAllocator). x.size) e,
  ap (λ (x : BumpAllocator). x.bump) e,
)

Arenas-AreZones :
    (zone : ℕ) (r : Runtime)
    → zone ≢ 0
    → zone + total_bytes ≤ 2 ^ 64
    → Arenas zone r
    → AreZones zone r
Arenas-AreZones zone r there space a =
    let (sb, ss, su) = arena r.shadowzone_allocator zone shadow_bytes a.shadow in
    let (gb, gs, gu) =
      arena r.global_allocator (add_word zone shadow_bytes) global_bytes a.globals in
    let (tb, ts, tu) =
      arena r.static_allocator (add_word zone (shadow_bytes + global_bytes)) static_bytes
        a.statics in
    let (mb, ms, mu) =
      arena r.metadata_zone_allocator (add_word zone (shadow_bytes + global_bytes + static_bytes))
        metadata_bytes a.metadata in
    record {
      shadow-IsValid = record {
        exists = λ z. absurd (there (sym sb ∙ z));
        in_space = omega arith;
        inside = omega arith;
      };
      global-IsValid = record {
        exists = λ z. absurd (omega arith);
        in_space = omega arith;
        inside = omega arith;
      };
      static-IsValid = record {
        exists = λ z. absurd (omega arith);
        in_space = omega arith;
        inside = omega arith;
      };
      metadata-IsValid = record {
        exists = λ z. absurd (omega arith);
        in_space = omega arith;
        inside = omega arith;
      };
      first = sb;
      second = omega arith;
      third = omega arith;
      fourth = omega arith;
      end = omega arith;
      shadow_unused = su;
      global_unused = gu;
      static_unused = tu;
      metadata_unused = mu;
    }

-- An `init` that has started a sound runtime over a range of the address space has cut it into four
-- well-formed arenas with nothing given out, the shadow, the global, the static and the metadata zone,
-- one behind the other, without gaps or overlaps, over exactly the reserved bytes.
pub init-AreZones :
    (g : Grants) (r r' : Runtime)
    → IsSound r
    → r.initialized ≡ false
    → g.zone + total_bytes ≤ 2 ^ 64
    → init g r ≡ some (true, r')
    → AreZones g.zone r'
init-AreZones g r r' w off space e =
    let s = init-Started g r w off in
    let pair : ◌≡◌ {A = Bool × Runtime} (s.done, s.after) (true, r') = cc (s.answers) in
    let done = ap (λ (p : Bool × Runtime). p.0) pair in
    Arenas-AreZones g.zone r' (s.complete.0 done).0 space
      (subst (Arenas g.zone) (ap (λ (p : Bool × Runtime). p.1) pair) (s.arenas done))

-- ===== src/Region/OpenCases.antt =====
-- The stages of `Region`'s constructor, from a region that it calls initialised back.
use mathlib.Core.Path.{subst}
use kerbecs.Common.{
  ℕ, ◌^◌, ◌<◌, ◌≡◌, ◌≢◌, refl, sym, ap, ap₂, ◌∙◌, arith, Bool, true, false, ◌||◌, ◌==◌, Bool-cases,
  inl, inr, Option, some, mul_word,
}
use kerbecs.Allocators.{BumpAllocator, Attempt, refused, retry, taken, attempt, bump_reserve}
use kerbecs.Allocators as Allocators
use kerbecs.Allocators.Reserve.{Taken, IsRequest, Outcome, attempt-Outcome}
use kerbecs.Allocators.Reserve as Reserve
use kerbecs.Registry.{AllocationRegistry, create}
use kerbecs.Registry as Registry
use kerbecs.Registry.Invariant as Invariant
use kerbecs.Registry.Link as Link
use kerbecs.Runtime.{
  Runtime, given_ptr, shadowzone_allocate, metadata_zone_allocate, register_region, max_align,
}
use kerbecs.Region.{Region, access_info_size}
use kerbecs.Region.Open.{Opening, region_of, record_of, after_registry, shadow_map_bytes, take_maps}

-- A pointer that is not null comes from the free part of the arena.
given-Taken :
    (a : BumpAllocator) (bytes align : ℕ) (t : Attempt)
    → Outcome a bytes align a.bump t
    → (given_ptr a t).0 ≢ 0
    → Taken a bytes align (given_ptr a t).0 (given_ptr a t).1
unfolding given_ptr Outcome
given-Taken a bytes align refused o nz = absurd (nz refl)
given-Taken a bytes align (retry c) o nz = absurd (nz refl)
given-Taken a bytes align (taken ptr b) o nz = o.1

pub shadow-Taken :
    (bytes : ℕ) (rt : Runtime)
    → Reserve.IsValid rt.shadowzone_allocator
    → IsRequest rt.shadowzone_allocator.size bytes max_align
    → (shadowzone_allocate bytes rt).0 ≢ 0
    → Taken rt.shadowzone_allocator bytes max_align
        (shadowzone_allocate bytes rt).0
        (shadowzone_allocate bytes rt).1.shadowzone_allocator
unfolding shadowzone_allocate bump_reserve
shadow-Taken bytes rt v q nz =
    let a = rt.shadowzone_allocator in
    given-Taken a bytes max_align (attempt a bytes max_align a.bump)
      (attempt-Outcome a bytes max_align a.bump v q v.inside) nz

allocate-bump_reserve :
    (a : BumpAllocator) (bytes align : ℕ) (t : Attempt)
    → bump_reserve a bytes align ≡ t
    → (Allocators.allocate a bytes align).0 ≡ t
unfolding Allocators.allocate
allocate-bump_reserve a bytes align refused e = rw (e, Allocators.allocate) refl
allocate-bump_reserve a bytes align (retry c) e = rw (e, Allocators.allocate) refl
allocate-bump_reserve a bytes align (taken p b) e = rw (e, Allocators.allocate) refl

pub metadata-Taken :
    (bytes align : ℕ) (rt : Runtime)
    → Reserve.IsValid rt.metadata_zone_allocator
    → IsRequest rt.metadata_zone_allocator.size bytes align
    → (metadata_zone_allocate bytes align rt).0 ≢ 0
    → Taken rt.metadata_zone_allocator bytes align
        (metadata_zone_allocate bytes align rt).0
        (metadata_zone_allocate bytes align rt).1.metadata_zone_allocator
unfolding metadata_zone_allocate bump_reserve
metadata-Taken bytes align rt v q nz =
    let a = rt.metadata_zone_allocator in
    let e = allocate-bump_reserve a bytes align (attempt a bytes align a.bump) refl in
    given-Taken a bytes align (Allocators.allocate a bytes align).0
      (subst (Outcome a bytes align a.bump) (sym e)
        (attempt-Outcome a bytes align a.bump v q v.inside))
      nz

-- What `take_maps` leads to, where the region is initialised.
module _ (granted : Bool) (o : Opening) (rt : Runtime) (r : Region) (reg : AllocationRegistry)
    (rt' : Runtime) (on : r.initialized ≡ true) where
  abbrev Built : Type 0
  Built = Option (Region × AllocationRegistry × Runtime)

  pub closed :
      (s m : ℕ) (c : AllocationRegistry) (u : Runtime)
      → ◌≡◌ {A = Built} (some (region_of o s m false, c, u)) (some (r, reg, rt'))
      → ⊥
  closed s m c u e =
      let pair : ◌≡◌ {A = Region × AllocationRegistry × Runtime} (region_of o s m false, c, u)
          (r, reg, rt') =
        cc in
      let same : false ≡ r.initialized =
        ap (λ (x : Region × AllocationRegistry × Runtime). (x.0).initialized) pair in
      absurd (cc)

  after_registry-inverts :
      (s m : ℕ) (u : Runtime) (t : Bool × AllocationRegistry)
      → after_registry o s m u t ≡ some (r, reg, rt')
      → (t ≡ (true, reg))
        × (r ≡ region_of o s m true)
        × (register_region (record_of o s m) u ≡ (true, rt'))
  unfolding after_registry
  after_registry-inverts s m u (false, c) e = absurd (closed s m c u e)
  after_registry-inverts s m u (true, c) e =
      let done = register_region (record_of o s m) u in
      let pair : ◌≡◌ {A = Region × AllocationRegistry × Runtime} (region_of o s m done.0, c, done.1)
          (r, reg, rt') =
        cc in
      let same = ap (λ (x : Region × AllocationRegistry × Runtime). x.0) pair in
      let yes_done : done.0 ≡ true = ap (λ (x : Region). x.initialized) same ∙ on in
      (
        ap (λ (x : Region × AllocationRegistry × Runtime). (true, x.1)) pair,
        sym same ∙ ap (region_of o s m) yes_done,
        ap₂ (λ (b : Bool) (x : Runtime). (b, x)) yes_done
            (ap (λ (x : Region × AllocationRegistry × Runtime). x.2) pair),
      )

  pub take_maps-inverts :
      (o.size ≢ 0)
      → take_maps granted o rt ≡ some (r, reg, rt')
      → let s = shadowzone_allocate (shadow_map_bytes o.size) rt in
        let m =
          metadata_zone_allocate (mul_word o.capacity access_info_size) access_info_size s.1 in
        (s.0 ≢ 0)
        × (m.0 ≢ 0)
        × (Registry.init granted (create o.capacity) ≡ (true, reg))
        × (r ≡ region_of o s.0 m.0 true)
        × (register_region (record_of o s.0 m.0) m.1 ≡ (true, rt'))
  unfolding take_maps
  take_maps-inverts some_size e =
      let s = shadowzone_allocate (shadow_map_bytes o.size) rt in
      let m = metadata_zone_allocate (mul_word o.capacity access_info_size) access_info_size s.1 in
      elim (Bool-cases ((s.0 == 0) || (m.0 == 0))) [
        | inl null ↦ absurd (closed s.0 m.0 (create o.capacity) m.1 (rw null at e))
        | inr there ↦
            let (a, b, c) =
              after_registry-inverts s.0 m.0 m.1 (Registry.init granted (create o.capacity))
                (rw there at e) in
            (λ z. absurd (ground (arith, there)), λ z. absurd (ground (arith, there)), a, b, c)
      ]

registry_refused : (capacity : ℕ) → 0 < capacity → (Registry.init false (create capacity)).0 ≡ false
unfolding Registry.init
registry_refused capacity pos = let e : (capacity == 0) ≡ false = ground arith in rw e refl

registry_init :
    (capacity : ℕ)
    → ((Registry.init true (create capacity)).1.node_capacity ≡ capacity)
      × (0 < capacity → (Registry.init true (create capacity)).1.node_cursor ≡ 0)
unfolding Registry.init
registry_init capacity = elim (Bool-cases (capacity == 0)) [
  | inl e ↦ rw e (refl, λ _. refl)
  | inr e ↦ rw e (refl, λ _. refl)
]

pub registry_made :
    (granted : Bool) (capacity : ℕ) (reg : AllocationRegistry)
    → 0 < capacity
    → capacity < 2 ^ 56
    → Registry.init granted (create capacity) ≡ (true, reg)
    → Invariant.IsValid reg × (reg.node_capacity ≡ capacity) × (reg.node_cursor ≡ 0)
registry_made granted capacity reg pos small e = elim (Bool-cases granted) [
  | inr f ↦
      absurd (cc (registry_refused capacity pos, (ap (λ b. Registry.init b (create capacity)) f)))
  | inl t ↦
      let (_, v) = Link.init-IsValid capacity pos small in
      let same : (Registry.init true (create capacity)).1 ≡ reg =
        ap (λ (x : Bool × AllocationRegistry). x.1)
          (ap (λ b. Registry.init b (create capacity)) (sym t) ∙ e) in
      let (c, k) = registry_init capacity in
      (
        subst Invariant.IsValid same v,
        ap (λ (x : AllocationRegistry). x.node_capacity) (sym same) ∙ c,
        ap (λ (x : AllocationRegistry). x.node_cursor) (sym same) ∙ k pos,
      )
]

-- ===== src/Region/Opened.antt =====
-- What a region that its constructor calls initialised can rely on.
use mathlib.Core.Path.{subst}
use kerbecs.Common.{
  ℕ, ◌-◌, ◌*◌, ◌/◌, ◌^◌, ◌≤◌, ◌<◌, ◌≡◌, ◌≢◌, refl, sym, ap, ap₂, ◌∙◌, arith, Bool, true, ◌||◌, ltb,
  ◌==◌, Bool-cases, inl, inr, some, mul_word,
}
use kerbecs.Memory.Align.{IsAlignment}
use kerbecs.Allocators.{BumpAllocator}
use kerbecs.Allocators.Reserve.{Taken, IsRequest, Outcome, attempt-Outcome}
use kerbecs.Allocators.Reserve as Reserve
use kerbecs.Registry.{AllocationRegistry, create}
use kerbecs.Registry.Invariant as Invariant
use kerbecs.RegionRecord.{RegionRecord, register_region_record}
use kerbecs.Runtime.{
  Runtime, Grants, shadowzone_allocate, metadata_zone_allocate, register_region, max_align,
  region_table_capacity,
}
use kerbecs.Runtime.Start.{init_again}
use kerbecs.Region.{Region, access_info_size}
use kerbecs.Region.Open.{
  Opening, region_of, record_of, shadow_map_bytes, take_maps, after_init, open_region,
}
use kerbecs.Region.OpenCases.{
  shadow-Taken, metadata-Taken, closed, take_maps-inverts, registry_made,
}

-- A region that serves: its maps are fresh pieces of the runtime's zones, a bit of shadow for each byte of
-- the region and an access info for each node of the registry, which is well-formed; the runtime's table
-- has its record.
pub record Opened (o : Opening) (rt : Runtime) (r : Region) (reg : AllocationRegistry)
    (rt' : Runtime) : Type 0 where
  pub form : r ≡ region_of o r.shadow_blob r.metadata_base true
  pub shadow_there : r.shadow_blob ≢ 0
  pub metadata_there : r.metadata_base ≢ 0
  pub shadow_map :
      Taken rt.shadowzone_allocator
        (shadow_map_bytes o.size)
        max_align
        r.shadow_blob
        rt'.shadowzone_allocator
  pub shadow_covers : (i : ℕ) → i < o.size → i / 8 < shadow_map_bytes o.size
  pub metadata_map :
      Taken rt.metadata_zone_allocator
        (o.capacity * access_info_size)
        access_info_size
        r.metadata_base
        rt'.metadata_zone_allocator
  pub valid : Invariant.IsValid reg
  pub capacity : reg.node_capacity ≡ o.capacity
  pub cursor : reg.node_cursor ≡ 0
  pub registered :
      register_region_record region_table_capacity rt.regions
        (record_of o r.shadow_blob r.metadata_base)
      ≡ (true, rt'.regions)

-- What each of the calls leaves alone.
shadow_rest :
    (bytes : ℕ) (rt : Runtime)
    → ((shadowzone_allocate bytes rt).1.metadata_zone_allocator ≡ rt.metadata_zone_allocator)
      × ((shadowzone_allocate bytes rt).1.regions ≡ rt.regions)
unfolding shadowzone_allocate
shadow_rest bytes rt = (refl, refl)

metadata_rest :
    (bytes align : ℕ) (rt : Runtime)
    → ((metadata_zone_allocate bytes align rt).1.shadowzone_allocator ≡ rt.shadowzone_allocator)
      × ((metadata_zone_allocate bytes align rt).1.regions ≡ rt.regions)
unfolding metadata_zone_allocate
metadata_rest bytes align rt = (refl, refl)

register_rest :
    (rec : RegionRecord) (rt rt' : Runtime)
    → register_region rec rt ≡ (true, rt')
    → (register_region_record region_table_capacity rt.regions rec ≡ (true, rt'.regions))
      × (rt'.shadowzone_allocator ≡ rt.shadowzone_allocator)
      × (rt'.metadata_zone_allocator ≡ rt.metadata_zone_allocator)
unfolding register_region
register_rest rec rt rt' e =
    let after = ap (λ (x : Bool × Runtime). x.1) (sym e) in
    (
      ap (λ (x : Bool × Runtime). (x.0, x.1.regions)) e,
      ap (λ (x : Runtime). x.shadowzone_allocator) after,
      ap (λ (x : Runtime). x.metadata_zone_allocator) after,
    )

arena_kept_size :
    (u rt : Runtime)
    → u.metadata_zone_allocator ≡ rt.metadata_zone_allocator
    → u.metadata_zone_allocator.size ≡ rt.metadata_zone_allocator.size
arena_kept_size u rt e = ap (λ (x : BumpAllocator). x.size) e

module _ (g : Grants) (granted : Bool) (o : Opening) (rt : Runtime) (r : Region)
    (reg : AllocationRegistry) (rt' : Runtime) where
  open_region-inverts :
      rt.initialized ≡ true
      → r.initialized ≡ true
      → open_region g granted o rt ≡ some (r, reg, rt')
      → (o.size ≢ 0)
        × (o.capacity ≢ 0)
        × (shadow_map_bytes o.size ≢ 0)
        × (take_maps granted o rt ≡ some (r, reg, rt'))
  unfolding open_region after_init
  open_region-inverts up on e = elim (Bool-cases ((o.size == 0) || (o.capacity == 0))) [
    | inl empty ↦
        absurd (closed granted o rt r reg rt' on 0 0 (create o.capacity) rt (rw empty at e))
    | inr there ↦
        let goes = sym (ap (after_init granted o) (init_again g rt up)) ∙ (rw there at e) in
        elim (Bool-cases
          ((shadow_map_bytes o.size == 0) || ltb ((2 ^ 64 - 1) / access_info_size) o.capacity)) [
            | inl wraps ↦
                absurd
                  (closed granted o rt r reg rt' on 0 0 (create o.capacity) rt (rw wraps at goes))
            | inr fits ↦ (
              λ z. absurd (ground (arith, there)),
              λ z. absurd (ground (arith, there)),
              λ z. absurd (ground (arith, fits)),
              rw fits at goes,
            )
          ]
  ]

  -- On a runtime that serves, with well-formed arenas of at most 2 ^ 62 bytes for the shadow maps and the access
  -- infos, a region of at most 2 ^ 62 bytes with fewer than 2 ^ 56 nodes, so that the bytes of their pool do not wrap, that the constructor calls
  -- initialised is `Opened`.
  pub open_region-Opened :
      rt.initialized ≡ true
      → Reserve.IsValid rt.shadowzone_allocator
      → Reserve.IsValid rt.metadata_zone_allocator
      → rt.shadowzone_allocator.size ≤ 2 ^ 62
      → rt.metadata_zone_allocator.size ≤ 2 ^ 62
      → o.size ≤ 2 ^ 62
      → o.capacity < 2 ^ 56
      → open_region g granted o rt ≡ some (r, reg, rt')
      → r.initialized ≡ true
      → Opened o rt r reg rt'
  open_region-Opened up sv mv ss ms small few e on =
      let (nz, cz, map_bytes, goes) = open_region-inverts up on e in
      let (sn, mn, made, form, registered) = take_maps-inverts granted o rt r reg rt' on nz goes in
      let bytes = shadow_map_bytes o.size in
      let s = shadowzone_allocate bytes rt in
      let m = metadata_zone_allocate (mul_word o.capacity access_info_size) access_info_size s.1 in
      let (table, shadow_kept, metadata_kept) =
        register_rest (record_of o s.0 m.0) m.1 rt' registered in
      let sixteen : IsAlignment 16 = (4, omega arith, refl) in
      let shadow =
        shadow-Taken bytes rt sv
          (record { some_bytes = omega arith; alignment = sixteen; no_wrap = omega arith }) sn in
      let (arena_kept, table_kept) = shadow_rest bytes rt in
      let (arena_kept', table_kept') =
        metadata_rest (mul_word o.capacity access_info_size) access_info_size s.1 in
      let total : mul_word o.capacity access_info_size ≡ o.capacity * access_info_size =
        omega arith in
      let metadata =
        metadata-Taken (mul_word o.capacity access_info_size) access_info_size s.1
          (subst Reserve.IsValid (sym arena_kept) mv)
          (record {
            some_bytes = omega arith;
            alignment = sixteen;
            no_wrap = omega (arith, arena_kept_size s.1 rt arena_kept);
          })
          mn in
      let (valid, capacity, cursor) =
        registry_made granted o.capacity reg (omega arith) (omega arith) made in
      let blob : r.shadow_blob ≡ s.0 = ap (λ (x : Region). x.shadow_blob) form in
      let map : r.metadata_base ≡ m.0 = ap (λ (x : Region). x.metadata_base) form in
      record {
        form = form ∙ ap₂ (λ a b. region_of o a b true) (sym blob) (sym map);
        shadow_there = λ z. absurd (sn (sym blob ∙ z));
        metadata_there = λ z. absurd (mn (sym map ∙ z));
        shadow_map =
            subst (λ p. Taken rt.shadowzone_allocator bytes max_align p rt'.shadowzone_allocator)
              (sym blob)
              (subst (Taken rt.shadowzone_allocator bytes max_align s.0)
                (sym (shadow_kept ∙ arena_kept')) shadow);
        shadow_covers = λ i l. omega arith;
        metadata_map =
            subst
              (λ p.
                Taken rt.metadata_zone_allocator (o.capacity * access_info_size) access_info_size p
                  rt'.metadata_zone_allocator)
              (sym map)
              (subst
                (Taken rt.metadata_zone_allocator (o.capacity * access_info_size) access_info_size
                  m.0)
                (sym metadata_kept)
                (subst
                  (λ n.
                    Taken rt.metadata_zone_allocator n access_info_size m.0
                      m.1.metadata_zone_allocator)
                  total
                  (subst
                    (λ a.
                      Taken a (mul_word o.capacity access_info_size) access_info_size m.0
                        m.1.metadata_zone_allocator)
                    arena_kept metadata)));
        valid = valid;
        capacity = capacity;
        cursor = cursor;
        registered =
            ap
              (λ t.
                register_region_record region_table_capacity t
                  (record_of o r.shadow_blob r.metadata_base))
              (sym (table_kept' ∙ table_kept))
            ∙ ap₂
                (λ a b. register_region_record region_table_capacity m.1.regions (record_of o a b))
                blob map
            ∙ table;
      }

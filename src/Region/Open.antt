-- ===== src/Region/Open.antt =====
-- The constructor of `Region`, stage by stage, over the runtime.
use kerbecs.Common.{
  ℕ, ◌-◌, ◌/◌, ◌^◌, Bool, true, false, ◌||◌, if◌then◌else◌, ltb, ◌==◌, Option, none, some, add_word,
  mul_word,
}
use kerbecs.Registry.{AllocationRegistry, create}
use kerbecs.Registry as Registry
use kerbecs.RegionRecord.{RegionRecord}
use kerbecs.Runtime.{Runtime, Grants, shadowzone_allocate, metadata_zone_allocate, register_region}
use kerbecs.Runtime as Runtime
use kerbecs.Region.{Region, access_info_size}
use kerbecs.Region.Shadow.{shadow_scale}

-- The arguments of the constructor, with the addresses of the object and of its parts.
pub record Opening : Type 0 where
  pub this_ptr : ℕ
  pub allocator_ptr : ℕ
  pub support_ptr : ℕ
  pub thunk : ℕ
  pub registry_ptr : ℕ
  pub size : ℕ
  pub capacity : ℕ
  pub region_base : ℕ

-- The region after its member initialisers, with the maps that it has got.
abbrev pub region_of : Opening → ℕ → ℕ → Bool → Region
region_of o shadow_blob metadata_base initialized = record {
  size = o.size;
  region_base = o.region_base;
  shadow_blob = shadow_blob;
  metadata_base = metadata_base;
  allocator_ptr = o.allocator_ptr;
  support_ptr = o.support_ptr;
  thunk = o.thunk;
  registry_ptr = o.registry_ptr;
  initialized = initialized;
}

abbrev pub record_of : Opening → ℕ → ℕ → RegionRecord
record_of o shadow_blob metadata_base = record {
  region_ptr = o.this_ptr;
  shadow_map_base = shadow_blob;
  metadata_map_base = metadata_base;
  region_base = o.region_base;
  region_size = o.size;
}

abbrev Built : Type 0
Built = Option (Region × AllocationRegistry × Runtime)

-- `registerRegion`, where the registry has its pool.
unfoldable pub after_registry : Opening → ℕ → ℕ → Runtime → Bool × AllocationRegistry → Built
after_registry o shadow_blob metadata_base rt (false, reg) =
    some (region_of o shadow_blob metadata_base false, reg, rt)
after_registry o shadow_blob metadata_base rt (true, reg) =
    let t = register_region (record_of o shadow_blob metadata_base) rt in
    some (region_of o shadow_blob metadata_base t.0, reg, t.1)

-- The bytes of the shadow map, one for each eight of the region: 0 where the sum wraps.
abbrev pub shadow_map_bytes : ℕ → ℕ
shadow_map_bytes size = add_word size (2 ^ shadow_scale - 1) / 2 ^ shadow_scale

-- The two maps; `granted` says whether the registry's pool gets memory.
unfoldable pub take_maps : Bool → Opening → Runtime → Built
unfolding after_registry
take_maps granted o rt =
    let s = shadowzone_allocate (shadow_map_bytes o.size) rt in
    let m = metadata_zone_allocate (mul_word o.capacity access_info_size) access_info_size s.1 in
    if (s.0 == 0) || (m.0 == 0)
    then some (region_of o s.0 m.0 false, create o.capacity, m.1)
    else after_registry o s.0 m.0 m.1 (Registry.init granted (create o.capacity))

unfoldable pub after_init : Bool → Opening → Option (Bool × Runtime) → Built
unfolding take_maps
after_init granted o none = none
after_init granted o (some (false, rt)) = some (region_of o 0 0 false, create o.capacity, rt)
after_init granted o (some (true, rt)) =
    if (shadow_map_bytes o.size == 0) || ltb ((2 ^ 64 - 1) / access_info_size) o.capacity
    then some (region_of o 0 0 false, create o.capacity, rt)
    else take_maps granted o rt

-- `Region`'s constructor: the region, its registry, and the runtime.
unfoldable pub open_region : Grants → Bool → Opening → Runtime → Built
unfolding after_init
open_region g granted o rt =
    if (o.size == 0) || (o.capacity == 0)
    then some (region_of o 0 0 false, create o.capacity, rt)
    else after_init granted o (Runtime.init g rt)

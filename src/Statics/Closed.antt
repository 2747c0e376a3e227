-- ===== src/Statics/Closed.antt =====
-- A static region whose first call found no memory.
use kerbecs.Common.{ℕ, ◌≡◌, refl, ap, ◌∙◌, Bool, false, none, some}
use kerbecs.Registry.{AllocationRegistry, create}
use kerbecs.Runtime.{Runtime, Grants, static_bytes, init}
use kerbecs.Runtime.Start.{init_null}
use kerbecs.Region.{Region}
use kerbecs.Region.Open.{region_of, after_init, open_region}
use kerbecs.Statics.{
  Addresses, registry_capacity, opening_of, keep_built, static_region, persistent_region,
}

-- The constructor of the static region over a runtime that does not start.
open_region_null :
    (g : Grants) (granted : Bool) (a : Addresses) (base : ℕ) (rt : Runtime)
    → rt.initialized ≡ false
    → g.zone ≡ 0
    → open_region g granted (opening_of a static_bytes base) rt
      ≡ some (
        region_of (opening_of a static_bytes base) 0 0 false,
        create registry_capacity,
        record rt { memory_zone = 0 },
      )
unfolding open_region after_init
open_region_null g granted a base rt off z =
    ap (after_init granted (opening_of a static_bytes base)) (init_null g rt off z)

-- On a runtime that does not serve, where the system refuses the zone to both calls of `init`: the first call of
-- `persistentRegion` builds a region that is not initialised, and every later call gives that one, with the
-- registry that it had, also where the runtime has started since.
pub persistent_stays_closed :
    (g g' : Grants) (granted : Bool) (a : Addresses) (rt : Runtime)
    → rt.initialized ≡ false
    → g.zone ≡ 0
    → g'.zone ≡ 0
    → (r : Region) × (reg : AllocationRegistry) × (rt' : Runtime) × (persistent_region g g' granted
          a none rt
        ≡ some (some (r, reg), rt'))
      × (r.initialized ≡ false)
      × ((h h' : Grants) (again up : Bool) (u u' : Runtime)
          → init h u ≡ some (up, u')
          → persistent_region h h' again a (some (r, reg)) u ≡ some (some (r, reg), u'))
unfolding persistent_region static_region keep_built
persistent_stays_closed g g' granted a rt off z z' =
    let rt0 = record rt { memory_zone = 0 } in
    let o = opening_of a static_bytes rt.static_zone in
    (
      region_of o 0 0 false,
      create registry_capacity,
      rt0,
      ap (static_region g' granted (λ u. opening_of a static_bytes u.static_zone) none)
            (init_null g rt off z)
          ∙ ap keep_built (open_region_null g' granted a rt.static_zone rt0 off z'),
      refl,
      λ h h' again up u u' e.
          ap
            (static_region h' again (λ v. opening_of a static_bytes v.static_zone)
              (some (region_of o 0 0 false, create registry_capacity)))
            e,
    )

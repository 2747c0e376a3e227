-- ===== src/Statics.antt =====
-- src/Private/KerbecsStatic.cpp and src/Public/KerbecsStatic.h: the two regions for objects that live as long
-- as the program, and the destructor of such an object. A function-local static is built by the first call.
pub mod First
pub mod Closed
use kerbecs.Common.{ℕ, Bool, true, false, not, if◌then◌else◌, ◌==◌, Option, none, some}
use kerbecs.Layout.Pattern.{Memory}
use kerbecs.Memory.Pages.{System}
use kerbecs.Registry.{AllocationRegistry}
use kerbecs.Registry.Node.{flexible}
use kerbecs.ShadowedMemory.{Handle, check}
use kerbecs.Runtime.{Runtime, Grants, static_bytes, global_bytes}
use kerbecs.Runtime as Runtime
use kerbecs.Region.{Region, World, Caller}
use kerbecs.Region.Open.{Opening, open_region}
use kerbecs.Region.Destroy.{destroy}

-- `REGISTRY_CAPACITY`
abbrev pub registry_capacity : ℕ
registry_capacity = 4096

-- A static region, if it was built, with its registry.
abbrev pub StaticSlot : Type 0
StaticSlot = Option (Region × AllocationRegistry)

unfoldable pub keep_built :
    Option (Region × AllocationRegistry × Runtime) → Option (StaticSlot × Runtime)
keep_built none = none
keep_built (some (r, reg, rt)) = some (some (r, reg), rt)

-- The answer of `init` is not looked at.
unfoldable pub static_region :
    Grants
    → Bool
    → (Runtime → Opening)
    → StaticSlot
    → Option (Bool × Runtime)
    → Option (StaticSlot × Runtime)
unfolding keep_built
static_region g granted opening s none = none
static_region g granted opening none (some (up, rt)) =
    keep_built (open_region g granted (opening rt) rt)
static_region g granted opening (some r) (some (up, rt)) = some (some r, rt)

-- The addresses of a static region's parts.
pub record Addresses : Type 0 where
  pub this_ptr : ℕ
  pub allocator_ptr : ℕ
  pub support_ptr : ℕ
  pub thunk : ℕ
  pub registry_ptr : ℕ

abbrev pub opening_of : Addresses → ℕ → ℕ → Opening
opening_of a size base = record {
  this_ptr = a.this_ptr;
  allocator_ptr = a.allocator_ptr;
  support_ptr = a.support_ptr;
  thunk = a.thunk;
  registry_ptr = a.registry_ptr;
  size = size;
  capacity = registry_capacity;
  region_base = base;
}

-- `persistentRegion`, with the answers of the system to each of the two calls of `init`.
unfoldable pub persistent_region :
    Grants → Grants → Bool → Addresses → StaticSlot → Runtime → Option (StaticSlot × Runtime)
unfolding static_region
persistent_region g g' granted a s rt =
    static_region g' granted (λ u. opening_of a static_bytes u.static_zone) s (Runtime.init g rt)

-- `globalRegion`
unfoldable pub global_region :
    Grants → Grants → Bool → Addresses → StaticSlot → Runtime → Option (StaticSlot × Runtime)
unfolding static_region
global_region g g' granted a s rt =
    static_region g' granted (λ u. opening_of a global_bytes u.global_zone) s (Runtime.init g rt)

-- The answer of `destroy` is not looked at.
unfoldable pub without_answer : {A S : Type 0} → Option (Bool × World A S) → Option (World A S)
without_answer none = none
without_answer (some (done, w)) = some w

-- `~KerbecsDestructor`, over the region that its function gives. The conversion of the handle to a
-- pointer checks it first; `none` is its trap.
unfoldable pub destroy_static :
    {A S : Type 0}
    → System S
    → Region
    → Caller
    → (Memory → ℕ → Memory)
    → ℕ
    → Option Handle
    → World A S
    → Option (World A S)
unfolding without_answer
destroy_static sys r c destructor type_size none w = some w
destroy_static sys r c destructor type_size (some h) w =
    let checked =
      check w.infos h (record { thread = c.thread; stamp = c.stamp })
        (record { stats = w.shared.ledger.stats; violations = w.violations }) in
    if not checked.0
    then none
    else if h.payload_ptr == 0
    then some w
    else without_answer (destroy sys flexible r c destructor type_size h w)

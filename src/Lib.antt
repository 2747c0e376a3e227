-- ===== src/Lib.antt =====
-- Kerbecs, an address sanitizer for typed C++ regions. A Region takes blocks from an allocator,
-- surrounds each payload with guards, tracks the blocks in a registry, and hands out handles that
-- carry a generation; a destroyed block stays in a quarantine until two epochs have passed.
--
-- The files and the sources that they model:
-- - Common: words of 64 bits, bit operations, arrays as lists, Boolean tests.
-- - Memory: src/Public/KerbecsMemory.h, the page size and `alignUp`, `alignUpPtr`, `alignToPage`.
-- - Violation: src/Public/Violation.h and src/Private/Violation.cpp, the stack of violations.
-- - Stats: src/Public/KerbecsStats.h, the counters.
-- - Registry: src/Public/RegistryUtils.h, src/Public/AllocationRegistry.h and
--   src/Private/AllocationRegistry.cpp. `insert`, `find`, `findRange`, `beginRetiring`, `retire` are
--   functions of their names; `settle` is `endRetiring` up to its call of the quarantine, and
--   Quarantine/Settle has the whole.
-- - Quarantine: src/Public/QuarantineQueue.h and src/Private/QuarantineQueue.cpp, which retires
--   blocks in the registries (`Ledger.registries`) and counts in the statistics.
-- - Layout: src/Public/MemoryLayouts.h and src/Private/ShadowUtils.cpp, the three block layouts.
-- - Allocators: src/Private/KerbecsAllocators.cpp, the bump allocators. `attempt` is one round of the
--   compare-and-exchange loop, with whatever value its thread has read.
-- - RegionRecord: src/Private/RegionRecord.cpp, the table of regions.
-- - Hash, Checksums: src/Public/KerbecsHash.h and src/Public/KerbecsChecksums.h.
-- - ShadowedMemory: src/Public/ShadowedMemory.h, the checks of a handle. It reports to Violation
--   and Stats, and reads bytes as Layout does.
-- - Memory/Pages: `commit` and `commitPageIfNeeded` of src/Private/KerbecsMemory.cpp, over the interface
--   `System` of what the operating system says of its pages.
-- - Region: src/Public/Region.h. Region/Open is the constructor, Region/Allocate `allocate`,
--   Region/Destroy `construct` and `destroy`, Region/Shadow `_contains` and `_setShadow`. A region works
--   on a `World`: the registries, the quarantine, memory, the shadow map, the access infos, the pages
--   and its allocator. Memory, the map and the access infos are functions of their own, as if they
--   never overlapped. The allocator is the interface `MemorySupport` (src/Public/MemorySupport.h), and
--   the layout is `LayoutPolicy` of Layout/Policy, which the three layouts provide.
-- - Runtime: src/Private/KerbecsRuntime.cpp, the zones, `init`, `teardownShadowzone`, the drain thread and
--   what the constructor of a region calls. Runtime/Reach takes these steps in any order.
-- - Statics: src/Private/KerbecsStatic.cpp and src/Public/KerbecsStatic.h, the two static regions and the
--   destructor of a static object.
-- - Tests: concrete inputs for the theorems.
--
-- Addresses are numbers and 0 is null; a node of a registry is named by its index in the pool. A
-- `size_t` is a number below 2 ^ 64, with its wrap written out. One call of the registry, the
-- quarantine or the table of regions is one step, a simplification of the model: `enqueue` and
-- `retire` take no lock, and `insert` counts after it has let go of its own, so that what two calls
-- do to each other when their parts interleave is not covered. Registry.History runs whole calls of
-- all threads in any order. The exception is `_bumpReserve`, whose rounds Allocators.Rounds mixes.
-- Memory orders are not modelled.
--
-- Of the operating system's pages, a theorem asks that the addresses of one shadow map are reserved or
-- committed when a call begins, and that `mprotect` unmaps no address (`IsSystem`); it does not ask that
-- a page is resident after `mprotect`, which on Linux it is not before it is touched. That a store makes
-- a page resident is not modelled: the pages change by the calls of `System` alone. The runtime keeps an
-- account, `held`, of the ranges that it reserved and has not released; it takes a release to succeed.
--
-- Bounds and fuel: a walk along a bucket has the pool's capacity as fuel, since each `next` has a
-- smaller index than its node; a flush has `tail - head` rounds, since each round moves the head; the
-- loop of commits tests its condition at most three times more than the block has whole pages, unless
-- the block reaches into the last page of the address space, where it does not end (`none`);
-- `_setShadow` has a round for each byte of the payload, since a round marks one or more.
--
-- Not modelled: the system's calls behind Memory::reserve, commit and release (the first two's
-- answers are arguments), what a deallocation thunk does (its calls are recorded), the clock and the thread's id
-- of a violation (arguments), signed overflow of `ptrdiff_t`, the constructor and the destructor of a
-- region's type (functions on memory), and the macros of Kerbecs.h, KerbecsStatic.h, KerbecsCompiler.h
-- and KerbecsDiagnostics.h.
pub mod Common
pub mod Memory
pub mod Violation
pub mod Stats
pub mod Registry
pub mod Quarantine
pub mod Layout
pub mod Allocators
pub mod RegionRecord
pub mod Hash
pub mod Checksums
pub mod ShadowedMemory
pub mod Region
pub mod Runtime
pub mod Statics
mod Tests

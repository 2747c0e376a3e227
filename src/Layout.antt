-- ===== src/Layout.antt =====
-- The block layouts of src/Public/MemoryLayouts.h, the patterns of src/Public/KerbecsRuntime.h and
-- the checks of src/Private/ShadowUtils.cpp. Memory is a function from addresses to bytes; the
-- addresses of one block do not wrap. The machine is little-endian (x86-64).
pub mod Pattern
pub mod Normal
pub mod Static
pub mod Enhanced
pub mod Guards
pub mod Canary
pub mod Sizes
pub mod NormalLaws
pub mod StaticLaws
pub mod EnhancedLaws
pub mod Policy
pub mod PolicyLaws

-- ===== src/Tests.antt =====
-- Concrete inputs for the theorems: small registries, rings, blocks and handles.
mod Registries
mod Rings
mod Blocks
mod Handles
mod Regions
mod Runtimes

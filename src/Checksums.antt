-- ===== src/Checksums.antt =====
-- src/Public/KerbecsChecksums.h: the metadata of a block (src/Public/KerbecsRuntime.h) is filled with
-- a checksum and verified. A pointer is an optional value, none for null.
pub mod Verify
use kerbecs.Common.{ℕ, Bool, true, false, not, ◌&&◌, ◌||◌, if◌then◌else◌, ◌==◌, Option, none, some}
use kerbecs.Hash.{HashAccumulator}
use kerbecs.Registry.Node.{ThreadPolicy, is_strict}

pub record NormalMetaData : Type 0 where
  pub total_size : ℕ
  pub total_committed : ℕ
  pub total_poisoned : ℕ
  pub allocator_hash : ℕ

pub record EnhancedMetaData : Type 0 where
  pub total_size : ℕ
  pub total_committed : ℕ
  pub total_poisoned : ℕ
  pub allocator_hash : ℕ
  pub thread_hash : ℕ
  pub checksum : ℕ

-- The checksum, and the accumulator that computed it.
unfoldable pub compute_metadata_checksum :
    {H : Type 0} → HashAccumulator H → H → ℕ → ℕ → ℕ → ℕ → ℕ → ℕ → ℕ × H
compute_metadata_checksum acc h allocator thread block size committed poisoned =
    let h₀ = acc.reset h in
    let h₁ = acc.add h₀ allocator in
    let h₂ = acc.add h₁ thread in
    let h₃ = acc.add h₂ block in
    let h₄ = acc.add h₃ size in
    let h₅ = acc.add h₄ committed in let h₆ = acc.add h₅ poisoned in (acc.finalize h₆, h₆)

unfoldable pub init_enhanced_metadata :
    {H : Type 0}
    → HashAccumulator H
    → Option H
    → Option EnhancedMetaData
    → Option EnhancedMetaData
    → ℕ
    → ℕ
    → ℕ
    → ℕ
    → Bool × Option H × Option EnhancedMetaData × Option EnhancedMetaData
unfolding compute_metadata_checksum
init_enhanced_metadata acc none l t size allocator thread block = (false, none, l, t)
init_enhanced_metadata acc (some h) none t size allocator thread block = (false, some h, none, t)
init_enhanced_metadata acc (some h) (some l) none size allocator thread block =
    (false, some h, some l, none)
init_enhanced_metadata acc (some h) (some l) (some t) size allocator thread block =
    let c = compute_metadata_checksum acc h allocator thread block size size size in
    let filled : EnhancedMetaData = record {
      total_size = size;
      total_committed = size;
      total_poisoned = size;
      allocator_hash = allocator;
      thread_hash = thread;
      checksum = c.0;
    } in
    (true, some c.1, some filled, some filled)

unfoldable pub init_normal_metadata : Option NormalMetaData → ℕ → ℕ → Bool × Option NormalMetaData
init_normal_metadata none size allocator = (false, none)
init_normal_metadata (some m) size allocator = (
  true,
  some (record {
    total_size = size;
    total_committed = size;
    total_poisoned = size;
    allocator_hash = allocator;
  }),
)

unfoldable pub verify_leading :
    {H : Type 0} → HashAccumulator H → H → EnhancedMetaData → ℕ → ℕ → ℕ → ℕ → ThreadPolicy → Bool
unfolding compute_metadata_checksum
verify_leading acc h l size allocator thread block policy =
    if not (l.total_size == size)
    then false
    else if not (l.allocator_hash == allocator)
    then false
    else if is_strict policy && not (l.thread_hash == thread)
    then false
    else (let expected =
          (compute_metadata_checksum acc h l.allocator_hash l.thread_hash block l.total_size
            l.total_committed l.total_poisoned).0 in
        if not (l.checksum == expected) then false else true)

unfoldable pub verify_enhanced_metadata :
    {H : Type 0}
    → HashAccumulator H
    → Option H
    → Option EnhancedMetaData
    → Option EnhancedMetaData
    → ℕ
    → ℕ
    → ℕ
    → ℕ
    → ThreadPolicy
    → Bool
unfolding verify_leading
verify_enhanced_metadata acc none l t size allocator thread block policy = false
verify_enhanced_metadata acc (some h) none t size allocator thread block policy = false
verify_enhanced_metadata acc (some h) (some l) none size allocator thread block policy = false
verify_enhanced_metadata acc (some h) (some l) (some t) size allocator thread block policy =
    verify_leading acc h l size allocator thread block policy

unfoldable pub verify_normal_metadata : Option NormalMetaData → ℕ → ℕ → Bool
verify_normal_metadata none size allocator = false
verify_normal_metadata (some m) size allocator =
    if not (m.total_size == size)
    then false
    else if not (m.allocator_hash == allocator)
    then false
    else true

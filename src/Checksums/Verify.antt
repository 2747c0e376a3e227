-- ===== src/Checksums/Verify.antt =====
-- What the verification of the metadata says.
use kerbecs.Common.{ℕ, ◌≡◌, ◌↔◌, refl, arith, true, some}
use kerbecs.Hash.{HashAccumulator, ResetForgets}
use kerbecs.Registry.Node.{ThreadPolicy, is_strict}
use kerbecs.Checksums.{
  NormalMetaData, EnhancedMetaData, compute_metadata_checksum, init_enhanced_metadata,
  init_normal_metadata, verify_leading, verify_enhanced_metadata, verify_normal_metadata,
}

-- The fields agree with what is expected, and the checksum with the fields.
pub record IsIntact {H : Type 0} (acc : HashAccumulator H) (h : H) (l : EnhancedMetaData)
    (size allocator thread block : ℕ) (policy : ThreadPolicy) : Type 0 where
  pub same_size : l.total_size ≡ size
  pub same_allocator : l.allocator_hash ≡ allocator
  pub same_thread : is_strict policy ≡ true → l.thread_hash ≡ thread
  pub same_checksum :
      l.checksum
      ≡ (compute_metadata_checksum acc h l.allocator_hash l.thread_hash block l.total_size
          l.total_committed l.total_poisoned).0

-- With a hasher and both copies there, `verifyEnhancedMetadata` holds exactly if the leading copy is
-- intact, whatever the trailing copy says.
pub verify_enhanced_metadata_iff :
    {H : Type 0} (acc : HashAccumulator H) (h : H) (l t : EnhancedMetaData)
    (size allocator thread block : ℕ) (policy : ThreadPolicy)
    → (verify_enhanced_metadata acc (some h) (some l) (some t) size allocator thread block policy
        ≡ true)
      ↔ IsIntact acc h l size allocator thread block policy
unfolding verify_enhanced_metadata verify_leading
verify_enhanced_metadata_iff acc h l t size allocator thread block policy = (
  λ e. record {
    same_size = ground arith;
    same_allocator = ground arith;
    same_thread = λ s. ground arith;
    same_checksum = ground arith;
  },
  λ w. ground (arith, w.same_size, w.same_allocator, w.same_thread, w.same_checksum),
)

checksum_forgets :
    {H : Type 0} (acc : HashAccumulator H) (h k : H)
    (allocator thread block size committed poisoned : ℕ)
    → ResetForgets acc
    → (compute_metadata_checksum acc h allocator thread block size committed poisoned).0
      ≡ (compute_metadata_checksum acc k allocator thread block size committed poisoned).0
unfolding compute_metadata_checksum
checksum_forgets acc h k allocator thread block size committed poisoned law = rw (law h k) refl

-- With an accumulator whose `reset` forgets what came before, and the arguments not null: the
-- metadata that `initEnhancedMetadata` fills in verifies for the size, the allocator, the block and,
-- if the policy is strict, the thread it was filled in for, with any accumulator of the kind.
pub verify-init_enhanced_metadata :
    {H : Type 0} (acc : HashAccumulator H) (h k : H) (l t : EnhancedMetaData)
    (size allocator thread other block : ℕ) (policy : ThreadPolicy)
    → ResetForgets acc
    → (is_strict policy ≡ true → thread ≡ other)
    → (let filled =
          init_enhanced_metadata acc (some h) (some l) (some t) size allocator thread block in
        verify_enhanced_metadata acc (some k) filled.2 filled.3 size allocator other block policy)
      ≡ true
unfolding init_enhanced_metadata
verify-init_enhanced_metadata acc h k l t size allocator thread other block policy law same =
    (verify_enhanced_metadata_iff acc k filled filled size allocator other block policy).1 (record {
      same_size = refl;
      same_allocator = refl;
      same_thread = same;
      same_checksum = checksum_forgets acc h k allocator thread block size size size law;
    })
  where
    filled : EnhancedMetaData
    filled = record {
      total_size = size;
      total_committed = size;
      total_poisoned = size;
      allocator_hash = allocator;
      thread_hash = thread;
      checksum = (compute_metadata_checksum acc h allocator thread block size size size).0;
    }

-- The metadata that `initNormalMetadata` fills in verifies exactly for the size and the allocator it
-- was filled in for.
pub verify-init_normal_metadata :
    (m : NormalMetaData) (size allocator wanted_size wanted_allocator : ℕ)
    → (verify_normal_metadata
          (init_normal_metadata (some m) size allocator).1
          wanted_size
          wanted_allocator
        ≡ true)
      ↔ ((size ≡ wanted_size) × (allocator ≡ wanted_allocator))
unfolding verify_normal_metadata init_normal_metadata
verify-init_normal_metadata m size allocator wanted_size wanted_allocator = ground arith

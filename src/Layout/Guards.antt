-- ===== src/Layout/Guards.antt =====
-- The checks of a range of bytes in src/Private/ShadowUtils.cpp, byte by byte.
use kerbecs.Common.{ℕ, zero, suc, ◌+◌, ◌≤◌, ◌<◌, ◌≡◌, refl, ◌≢◌, ◌↔◌, arith, true}
use native.Mathlib.Decide.{ℕ_discrete}
use kerbecs.Layout.Pattern.{
  Memory, redzone, tombstone, verify_tombstone, all_bytes, verify_bytes, verify_redzone,
}

abbrev pub Between : ℕ → ℕ → ℕ → Type 0
Between lo hi i = (lo ≤ i) × (i < hi)

all_bytes_iff :
    (m : Memory) (p byte i left : ℕ)
    → (all_bytes m p byte i left ≡ true) ↔ ((j : ℕ) → i ≤ j → j < i + left → m (p + j) ≡ byte)
unfolding all_bytes
all_bytes_iff m p byte i zero = (λ e j l u. absurd (omega arith), λ h. refl)
all_bytes_iff m p byte i (suc left) =
    let ih = all_bytes_iff m p byte (i + 1) left in
    (
      λ e j l u. elim (ℕ_discrete i j) [
        | yes same ↦ rw (← same) (ground arith)
        | no ne ↦ ih.0 (ground arith) j (omega arith) (omega arith)
      ],
      λ h. ground (arith, h i, ih.1 (λ j l u. h j (omega arith) (omega arith))),
    )

verify_bytes_iff :
    (m : Memory) (p byte length : ℕ)
    → p ≢ 0
    → (verify_bytes m p byte length ≡ true) ↔ ((j : ℕ) → j < length → m (p + j) ≡ byte)
unfolding verify_bytes
verify_bytes_iff m p byte length nz = elim (ℕ_discrete length 0) [
  | yes z ↦ (λ e j u. absurd (omega arith), λ h. ground arith)
  | no pos ↦
      let it = all_bytes_iff m p byte 0 length in
      let e : verify_bytes m p byte length ≡ all_bytes m p byte 0 length = ground arith in
      rw e (λ t j u. it.0 t j (omega arith) (omega arith), λ h. it.1 (λ j l u. h j (omega arith)))
]

-- At an address that is not null, `verifyRedzone` holds exactly if every byte is the redzone's.
pub verify_redzone_iff :
    (m : Memory) (p length : ℕ)
    → p ≢ 0
    → (verify_redzone m p length ≡ true) ↔ ((j : ℕ) → j < length → m (p + j) ≡ redzone)
unfolding verify_redzone
verify_redzone_iff m p length nz = verify_bytes_iff m p redzone length nz

-- At an address that is not null, `verifyTombstone` holds exactly if every byte is the tombstone's.
pub verify_tombstone_iff :
    (m : Memory) (p length : ℕ)
    → p ≢ 0
    → (verify_tombstone m p length ≡ true) ↔ ((j : ℕ) → j < length → m (p + j) ≡ tombstone)
unfolding verify_tombstone
verify_tombstone_iff m p length nz = verify_bytes_iff m p tombstone length nz

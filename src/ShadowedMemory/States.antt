-- ===== src/ShadowedMemory/States.antt =====
-- What `shadowStateOf` says of the bytes.
use kerbecs.Common.{
  ℕ, zero, suc, ◌+◌, ◌≤◌, ◌<◌, ◌≡◌, ◌≢◌, ◌↔◌, refl, sym, ap, ◌∙◌, arith, Bool-cases, inl, inr,
}
use native.Mathlib.Decide.{ℕ_discrete}
use kerbecs.Layout.Pattern.{Memory, poisoned, tombstone, verify_tombstone}
use kerbecs.Layout.Guards.{verify_tombstone_iff}
use kerbecs.ShadowedMemory.{
  Handle, uninitialized, constructed, destroyed, count_poisoned, shadow_state_of,
}

count_le : (mem : Memory) (p i left : ℕ) → count_poisoned mem p i left ≤ left
unfolding count_poisoned
count_le mem p i zero = omega arith
count_le mem p i (suc left) = ground (arith, count_le mem p (i + 1) left)

-- All bytes are poisoned exactly if the count is the number of bytes.
count_all_iff :
    (mem : Memory) (p i left : ℕ)
    → (count_poisoned mem p i left ≡ left)
      ↔ ((j : ℕ) → i ≤ j → j < i + left → mem (p + j) ≡ poisoned)
unfolding count_poisoned
count_all_iff mem p i zero = (λ e j l u. absurd (omega arith), λ h. refl)
count_all_iff mem p i (suc left) =
    let ih = count_all_iff mem p (i + 1) left in
    let low = count_le mem p (i + 1) left in
    (
      λ e j l u. elim (ℕ_discrete i j) [
        | yes same ↦ ap (λ (t : ℕ). mem (p + t)) (sym same) ∙ ground arith
        | no ne ↦ ih.0 (ground arith) j (omega arith) (omega arith)
      ],
      λ h. ground (arith, h i, ih.1 (λ j l u. h j (omega arith) (omega arith))),
    )

-- None of the bytes is poisoned exactly if the count is 0.
count_none_iff :
    (mem : Memory) (p i left : ℕ)
    → (count_poisoned mem p i left ≡ 0) ↔ ((j : ℕ) → i ≤ j → j < i + left → mem (p + j) ≢ poisoned)
unfolding count_poisoned
count_none_iff mem p i zero = (λ e j l u. absurd (omega arith), λ h. refl)
count_none_iff mem p i (suc left) =
    let ih = count_none_iff mem p (i + 1) left in
    (
      λ e j l u. elim (ℕ_discrete i j) [
        | yes same ↦ λ q.
            let here : mem (p + i) ≡ poisoned = ap (λ (t : ℕ). mem (p + t)) same ∙ q in
            absurd (ground arith)
        | no ne ↦ ih.0 (ground arith) j (omega arith) (omega arith)
      ],
      λ h. ground (arith, h i, ih.1 (λ j l u. h j (omega arith) (omega arith))),
    )

-- The states of a block's bytes.
pub record States (mem : Memory) (h : Handle) (size : ℕ) : Type 0 where
  pub uninitialized_iff :
      (shadow_state_of mem h size ≡ uninitialized)
      ↔ ((j : ℕ) → j < size → mem (h.payload_ptr + j) ≡ poisoned)
  pub destroyed_iff :
      (shadow_state_of mem h size ≡ destroyed)
      ↔ ((j : ℕ) → j < size → mem (h.payload_ptr + j) ≡ tombstone)
  pub constructed_iff : (shadow_state_of mem h size ≡ constructed) ↔ (
      ((j : ℕ) → j < size → mem (h.payload_ptr + j) ≢ poisoned)
      × ¬ ((j : ℕ) → j < size → mem (h.payload_ptr + j) ≡ tombstone))

poisoned_iff :
    (mem : Memory) (p size : ℕ)
    → (count_poisoned mem p 0 size ≡ size) ↔ ((j : ℕ) → j < size → mem (p + j) ≡ poisoned)
poisoned_iff mem p size =
    let it = count_all_iff mem p 0 size in
    (λ e j u. it.0 e j (omega arith) (omega arith), λ h. it.1 (λ j l u. h j (omega arith)))

clean_iff :
    (mem : Memory) (p size : ℕ)
    → (count_poisoned mem p 0 size ≡ 0) ↔ ((j : ℕ) → j < size → mem (p + j) ≢ poisoned)
clean_iff mem p size =
    let it = count_none_iff mem p 0 size in
    (λ e j u. it.0 e j (omega arith) (omega arith), λ h. it.1 (λ j l u. h j (omega arith)))

-- For a handle that is not null and at least one byte: `shadowStateOf` says uninitialized exactly
-- if every byte is poisoned, destroyed exactly if every byte is the tombstone's, and constructed
-- exactly if no byte is poisoned and not every byte is the tombstone's.
pub shadow_state_of-States :
    (mem : Memory) (h : Handle) (size : ℕ) → h.payload_ptr ≢ 0 → 1 ≤ size → States mem h size
unfolding shadow_state_of
shadow_state_of-States mem h size nz some_bytes =
    let full = poisoned_iff mem h.payload_ptr size in
    let clean = clean_iff mem h.payload_ptr size in
    let dead = verify_tombstone_iff mem h.payload_ptr size nz in
    let low = count_le mem h.payload_ptr 0 size in
    let unpoisoned : ((j : ℕ) → j < size → mem (h.payload_ptr + j) ≡ tombstone)
        → (j : ℕ) → j < size
        → mem (h.payload_ptr + j) ≢ poisoned =
      λ t j u q. absurd (omega (arith, t j u)) in
    record {
      uninitialized_iff = (λ e. full.0 (ground arith), λ g. let e = full.1 g in ground arith);
      destroyed_iff = (
        λ e. dead.0 (ground arith),
        λ g. let e = dead.1 g in let c = clean.1 (unpoisoned g) in ground arith,
      );
      constructed_iff = (
        λ e. (clean.0 (ground arith), λ g. let t = dead.1 g in absurd (ground arith)),
        λ g.
            let c = clean.1 g.0 in
            elim (Bool-cases (verify_tombstone mem h.payload_ptr size)) [
              | inl t ↦ absurd (g.1 (dead.0 t))
              | inr f ↦ ground arith
            ],
      );
    }

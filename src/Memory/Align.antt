-- ===== src/Memory/Align.antt =====
-- `alignUp`, `alignUpPtr` and `alignToPage` of KerbecsMemory.h round up to the next multiple.
use native.Mathlib.Nat.{
  pow-suc, one-le-pow, mul_comm, mod-eq_of_lt, zero-add, pow-le-pow_right, div-div-eq-div-mul,
  mul-mod_left, lt-div-mul-add, div-mul-le_self, div-eq_of_lt,
}
use kerbecs.Common.{
  ℕ, zero, suc, ◌+◌, ◌-◌, ◌*◌, ◌/◌, ◌%◌, ◌^◌, ◌≤◌, ◌<◌, ◌≡◌, refl, ap, bit_and, arith, not_word,
  sub_word, add_word,
}
use kerbecs.Common.Bits.{bit_and_step, bit_and_mask}
use kerbecs.Memory.{align_up, align_up_ptr, align_to_page, page_size}

halve_high : (k x : ℕ) → x / 2 ^ suc k ≡ x / 2 / 2 ^ k
halve_high k x = rw (pow-suc, mul_comm, ← div-div-eq-div-mul)

-- `x & ~(2 ^ k - 1)` in `k + j` binary digits clears the `k` lowest.
pub bit_and_high :
    (k j x : ℕ) → x < 2 ^ (k + j) → bit_and x (2 ^ (k + j) - 2 ^ k) ≡ x / 2 ^ k * 2 ^ k
bit_and_high zero j x h =
    rw (zero-add, bit_and_mask j x)
      (omega (arith, mod-eq_of_lt {n = x} {m = 2 ^ j} (rw zero-add at h)))
bit_and_high (suc k) j x h = omega (
  arith,
  pow-suc 2 k,
  pow-suc 2 (k + j),
  ap (λ (t : ℕ). 2 ^ t) (suc-add k j),
  pow-le-pow_right {n = 2} (omega arith) {i = k} {j = k + j} (omega arith),
  bit_and_step x (2 ^ (suc k + j) - 2 ^ suc k),
  ap (λ (t : ℕ). bit_and (x / 2) t) (half_mask k j),
  bit_and_high k j (x / 2) (omega (arith, pow-suc 2 (k + j), ap (λ (t : ℕ). 2 ^ t) (suc-add k j))),
  ap (λ (t : ℕ). t * 2 ^ suc k) (halve_high k x),
  ap (λ (t : ℕ). x / 2 / 2 ^ k * t) (pow-suc 2 k),
)
  where
    suc-add : (k j : ℕ) → suc k + j ≡ suc (k + j)
    suc-add k j = omega arith

    half_mask : (k j : ℕ) → (2 ^ (suc k + j) - 2 ^ suc k) / 2 ≡ 2 ^ (k + j) - 2 ^ k
    half_mask k j =
        omega (arith, pow-suc 2 k, pow-suc 2 (k + j), ap (λ (t : ℕ). 2 ^ t) (suc-add k j))

-- The alignments that `size_t` holds.
abbrev pub IsAlignment : ℕ → Type 0
IsAlignment a = (k : ℕ) × (k ≤ 63) × (a ≡ 2 ^ k)

pub alignment_pos : {a : ℕ} → IsAlignment a → 1 ≤ a
alignment_pos (k, _, e) = omega (arith, one-le-pow k 2)

pub alignment_le : {a : ℕ} → IsAlignment a → a ≤ 2 ^ 63
alignment_le (k, h, e) = omega (arith, pow-le-pow_right {n = 2} (omega arith) {i = k} {j = 63} h)

-- `r` is the least multiple of `a` that is not below `v`.
pub record RoundsUp (v a r : ℕ) : Type 0 where
  pub lower : v ≤ r
  pub upper : r < v + a
  pub multiple : r % a ≡ 0

-- The body that the three functions share.
abbrev round_word : ℕ → ℕ → ℕ
round_word v a = bit_and (sub_word (add_word v a) 1) (not_word (sub_word a 1))

mask-not : (a : ℕ) → 1 ≤ a → a ≤ 2 ^ 64 → not_word (sub_word a 1) ≡ 2 ^ 64 - a
mask-not a h l = omega arith

round_word-eq : (k x : ℕ) → k ≤ 63 → x < 2 ^ 64 → bit_and x (2 ^ 64 - 2 ^ k) ≡ x / 2 ^ k * 2 ^ k
round_word-eq k x h b =
    let e : k + (64 - k) ≡ 64 = omega arith in
    rw (ap (λ (t : ℕ). 2 ^ t) e) at (bit_and_high k (64 - k) x (rw e b))

before_mask : (v a : ℕ) → 1 ≤ a → v + a ≤ 2 ^ 64 → sub_word (add_word v a) 1 ≡ v + a - 1
before_mask v a h l = omega arith

pub masked : (x a : ℕ) → IsAlignment a → x < 2 ^ 64 → bit_and x (2 ^ 64 - a) ≡ x / a * a
masked x a (k, h, e) b = rw e (round_word-eq k x h b)

round_word_value : (v a : ℕ) → IsAlignment a → v + a ≤ 2 ^ 64 → round_word v a ≡ (v + a - 1) / a * a
round_word_value v a w fits =
    let pos = alignment_pos w in
    rw (before_mask v a pos fits, mask-not a pos (omega arith))
      (masked (v + a - 1) a w (omega arith))

round_word-RoundsUp : (v a : ℕ) → IsAlignment a → v + a ≤ 2 ^ 64 → RoundsUp v a (round_word v a)
round_word-RoundsUp v a w fits =
    let pos = alignment_pos w in
    let e = round_word_value v a w fits in
    record {
      lower = omega (arith, e, lt-div-mul-add {a = v + a - 1} {b = a} pos);
      upper = omega (arith, e, div-mul-le_self (v + a - 1) a);
      multiple = rw e (mul-mod_left ((v + a - 1) / a) a);
    }

round_word_wraps : (v a : ℕ) → IsAlignment a → v < 2 ^ 64 → 2 ^ 64 < v + a → round_word v a ≡ 0
round_word_wraps v a w small over =
    let pos = alignment_pos w in
    let e : sub_word (add_word v a) 1 ≡ v + a - 1 - 2 ^ 64 = omega (arith, alignment_le w) in
    rw (e, mask-not a pos (omega (arith, alignment_le w)))
      (omega (
        arith,
        masked (v + a - 1 - 2 ^ 64) a w (omega (arith, alignment_le w)),
        ap (λ (t : ℕ). t * a) (div-eq_of_lt {n = v + a - 1 - 2 ^ 64} {m = a} (omega arith)),
      ))

-- For a value that `size_t` holds and a power of two up to 2 ^ 63, `alignUp` gives the least multiple of the alignment that is not below the value, wherever
-- value plus alignment does not pass 2 ^ 64; where it does, the result wraps to 0.
pub align_up-RoundsUp :
    (v a : ℕ)
    → IsAlignment a
    → v < 2 ^ 64
    → (v + a ≤ 2 ^ 64 → RoundsUp v a (align_up v a)) × (2 ^ 64 < v + a → align_up v a ≡ 0)
unfolding align_up
align_up-RoundsUp v a w small = (round_word-RoundsUp v a w, round_word_wraps v a w small)

-- `alignUpPtr` is `alignUp` on addresses.
pub align_up_ptr-eq-align_up : (v a : ℕ) → align_up_ptr v a ≡ align_up v a
unfolding align_up align_up_ptr
align_up_ptr-eq-align_up v a = refl

-- Where value plus page size does not pass 2 ^ 64, `alignToPage` gives the least multiple of the page
-- size that is not below the value.
pub align_to_page-RoundsUp :
    (v : ℕ) → v + page_size ≤ 2 ^ 64 → RoundsUp v page_size (align_to_page v)
unfolding align_to_page
align_to_page-RoundsUp v fits = round_word-RoundsUp v page_size (12, omega arith, refl) fits

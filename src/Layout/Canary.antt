-- ===== src/Layout/Canary.antt =====
-- The canary as `_stampCanary` of src/Public/MemoryLayouts.h lays it down, byte by byte, and
-- `verifyCanaries` of src/Private/ShadowUtils.cpp.
use kerbecs.Common.{
  ℕ, zero, suc, ◌+◌, ◌-◌, ◌*◌, ◌/◌, ◌%◌, ◌≤◌, ◌<◌, ◌≡◌, ◌≢◌, ◌⊎◌, inl, inr, refl, ap, ◌∙◌, arith,
  true,
}
use native.Mathlib.Decide.{dec_lt}
use kerbecs.Layout.Pattern.{
  Memory, guard_canary, canary_byte, copy_canary, stamp_words, stamp_canary, load_word, all_words,
  equals_canary, verify_canaries,
}

stamp_words-outside :
    (m : Memory) (p i left a : ℕ)
    → (a < p + i * 8) ⊎ (p + (i + left) * 8 ≤ a)
    → stamp_words m p i left a ≡ m a
unfolding stamp_words
stamp_words-outside m p i zero a out = refl
stamp_words-outside m p i (suc left) a out =
    let later : (a < p + (i + 1) * 8) ⊎ (p + (i + 1 + left) * 8 ≤ a) = elim out [
      | inl l ↦ inl (omega arith)
      | inr r ↦ inr (omega arith)
    ] in
    let ih = stamp_words-outside (copy_canary m (p + i * 8) 8) p (i + 1) left a later in
    ih ∙ elim out [ inl l ↦ ground arith | inr r ↦ ground arith ]

stamp_words-inside :
    (m : Memory) (p i left a : ℕ)
    → p + i * 8 ≤ a
    → a < p + (i + left) * 8
    → stamp_words m p i left a ≡ canary_byte ((a - p) % 8)
unfolding stamp_words
stamp_words-inside m p i zero a low high = absurd (omega arith)
stamp_words-inside m p i (suc left) a low high = elim (dec_lt a (p + i * 8 + 8)) [
  | yes here ↦
      stamp_words-outside (copy_canary m (p + i * 8) 8) p (i + 1) left a (inl (omega arith))
      ∙ (let e : a - (p + i * 8) ≡ (a - p) % 8 = omega arith in
          let c : copy_canary m (p + i * 8) 8 a ≡ canary_byte (a - (p + i * 8)) = ground arith in
          c ∙ ap canary_byte e)
  | no later ↦
      stamp_words-inside (copy_canary m (p + i * 8) 8) p (i + 1) left a (omega arith) (omega arith)
]

-- Outside its range `_stampCanary` changes nothing.
pub stamp_canary-outside :
    (m : Memory) (p length a : ℕ) → (a < p) ⊎ (p + length ≤ a) → stamp_canary m p length a ≡ m a
unfolding stamp_canary
stamp_canary-outside m p length a out =
    let words : stamp_words m p 0 (length / 8) a ≡ m a =
      stamp_words-outside m p 0 (length / 8) a
        (elim out [ inl l ↦ inl (omega arith) | inr r ↦ inr (omega arith) ]) in
    elim out [ inl l ↦ ground arith | inr r ↦ ground arith ]

-- Inside it the bytes of the canary repeat.
pub stamp_canary-inside :
    (m : Memory) (p length j : ℕ)
    → j < length
    → stamp_canary m p length (p + j) ≡ canary_byte (j % 8)
unfolding stamp_canary
stamp_canary-inside m p length j h = elim (dec_lt j (length / 8 * 8)) [
  | yes early ↦
      let e : stamp_words m p 0 (length / 8) (p + j) ≡ canary_byte (j % 8) =
        stamp_words-inside m p 0 (length / 8) (p + j) (omega arith) (omega arith)
        ∙ ap canary_byte {x = (p + j - p) % 8} {y = j % 8} (omega arith) in
      ground arith
  | no late ↦
      let e : canary_byte (p + j - (p + length / 8 * 8)) ≡ canary_byte (j % 8) =
        ap canary_byte (omega arith) in
      ground arith
]

load_word-canary :
    (m : Memory) (p : ℕ)
    → ((j : ℕ) → j < 8 → m (p + j) ≡ canary_byte j)
    → load_word m p ≡ guard_canary
unfolding load_word canary_byte
load_word-canary m p h =
    let h₀ : m p ≡ 0xBE = ap m {x = p} {y = p + 0} (omega arith) ∙ h 0 (omega arith) in
    rw
      (
        h₀,
        h 1 (omega arith),
        h 2 (omega arith),
        h 3 (omega arith),
        h 4 (omega arith),
        h 5 (omega arith),
        h 6 (omega arith),
        h 7 (omega arith),
      )
      refl

all_words-canary :
    (m : Memory) (p i left : ℕ)
    → ((j : ℕ) → j < (i + left) * 8 → m (p + j) ≡ canary_byte (j % 8))
    → all_words m p i left ≡ true
unfolding all_words
all_words-canary m p i zero h = refl
all_words-canary m p i (suc left) h =
    let rest = all_words-canary m p (i + 1) left (λ j l. h j (omega arith)) in
    let word = load_word-canary m (p + i * 8) (λ j l.
      ap m {x = p + i * 8 + j} {y = p + (i * 8 + j)} (omega arith)
      ∙ h (i * 8 + j) (omega arith)
      ∙ ap canary_byte {x = (i * 8 + j) % 8} {y = j} (omega arith)) in
    ground arith

equals_canary-hold :
    (m : Memory) (p i left : ℕ)
    → ((j : ℕ) → j < i + left → m (p + j) ≡ canary_byte j)
    → equals_canary m p i left ≡ true
unfolding equals_canary
equals_canary-hold m p i zero h = refl
equals_canary-hold m p i (suc left) h =
    ground
      (arith, h i (omega arith), equals_canary-hold m p (i + 1) left (λ j l. h j (omega arith)))

-- Where the bytes of the canary repeat in a range that is not null, `verifyCanaries` holds.
pub verify_canaries-hold :
    (m : Memory) (p length : ℕ)
    → p ≢ 0
    → ((j : ℕ) → j < length → m (p + j) ≡ canary_byte (j % 8))
    → verify_canaries m p length ≡ true
unfolding verify_canaries
verify_canaries-hold m p length nz h =
    let words = all_words-canary m p 0 (length / 8) (λ j l. h j (omega arith)) in
    let tail = equals_canary-hold m (p + length / 8 * 8) 0 (length % 8) (λ j l.
      ap m {x = p + length / 8 * 8 + j} {y = p + (length / 8 * 8 + j)} (omega arith)
      ∙ h (length / 8 * 8 + j) (omega arith)
      ∙ ap canary_byte {x = (length / 8 * 8 + j) % 8} {y = j} (omega arith)) in
    ground arith

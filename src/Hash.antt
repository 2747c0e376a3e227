-- ===== src/Hash.antt =====
-- The accumulators of src/Public/KerbecsHash.h for the checksum of the metadata, and the interface
-- that the checksum uses of them.
use kerbecs.Common.{ℕ, ◌*◌, ◌%◌, ◌/◌, ◌>>>◌, ◌≡◌, bit_xor, word_mod, add_word, mul_word}

-- The operations that `HashAccumulatorConcept` asks for.
pub record HashAccumulator (H : Type 0) : Type 0 where
  pub add : H → ℕ → H
  pub finalize : H → ℕ
  pub reset : H → H

-- `reset` brings every accumulator to the same state.
abbrev pub ResetForgets : {H : Type 0} → HashAccumulator H → Type 0
ResetForgets {H} acc = (h k : H) → acc.reset h ≡ acc.reset k

pub record SplitMix64Hash : Type 0 where
  pub state : ℕ

unfoldable pub split_mix_64_add : SplitMix64Hash → ℕ → SplitMix64Hash
split_mix_64_add h value =
    let s₁ = bit_xor h.state value in
    let s₂ = add_word s₁ 0x9e3779b97f4a7c15 in
    let s₃ = mul_word (bit_xor s₂ (s₂ >>> 30)) 0xbf58476d1ce4e5b9 in
    let s₄ = mul_word (bit_xor s₃ (s₃ >>> 27)) 0x94d049bb133111eb in
    record { state = bit_xor s₄ (s₄ >>> 31) }

abbrev pub split_mix_64 : HashAccumulator SplitMix64Hash
split_mix_64 = record {
  add = split_mix_64_add;
  finalize = λ h. h.state;
  reset = λ h. record { state = 0 };
}

pub record Murmur3Mix64Hash : Type 0 where
  pub state : ℕ

unfoldable pub murmur_3_mix_64_add : Murmur3Mix64Hash → ℕ → Murmur3Mix64Hash
murmur_3_mix_64_add h value =
    let s₁ = bit_xor h.state value in
    let s₂ = bit_xor s₁ (s₁ >>> 33) in
    let s₃ = mul_word s₂ 0xff51afd7ed558ccd in
    let s₄ = bit_xor s₃ (s₃ >>> 33) in
    let s₅ = mul_word s₄ 0xc4ceb9fe1a85ec53 in record { state = bit_xor s₅ (s₅ >>> 33) }

abbrev pub murmur_3_mix_64 : HashAccumulator Murmur3Mix64Hash
murmur_3_mix_64 = record {
  add = murmur_3_mix_64_add;
  finalize = λ h. h.state;
  reset = λ h. record { state = 0 };
}

abbrev pub wy_seed : ℕ
wy_seed = 0xa0761d6478bd642f

pub record WyHash64 : Type 0 where
  pub state : ℕ
  pub seed : ℕ

-- `_umul128` gives the low word of the product and stores the high one.
unfoldable pub wy_64_add : WyHash64 → ℕ → WyHash64
wy_64_add h value =
    let s = bit_xor h.state value in
    let a = bit_xor s h.seed in
    let b = mul_word s h.seed in
    let hi = a * b / word_mod in
    let lo = a * b % word_mod in record { state = bit_xor lo hi; seed = h.seed }

abbrev pub wy_64 : HashAccumulator WyHash64
wy_64 = record {
  add = wy_64_add;
  finalize = λ h. h.state;
  reset = λ h. record { state = 0; seed = wy_seed };
}

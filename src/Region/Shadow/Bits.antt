-- ===== src/Region/Shadow/Bits.antt =====
-- The bits of a shadow byte after they were marked.
use kerbecs.Common.{
  ℕ, zero, suc, ◌+◌, ◌*◌, ◌/◌, ◌%◌, ◌^◌, ◌≤◌, ◌<◌, ◌≡◌, refl, arith, Bool, true, false, ◌&&◌,
  if◌then◌else◌, ltb, leb, ◌==◌, ==_iff, ltb→lt,
}
use kerbecs.Region.Shadow.{mark_bit, mark_bits}

-- Bit `k` of a number.
abbrev pub bit_at : ℕ → ℕ → ℕ
bit_at byte k = byte / 2 ^ k % 2

abbrev pub bit_value : Bool → ℕ
bit_value true = 1
bit_value false = 0

-- A Boolean check of every number below a bound.
all_under : ℕ → (ℕ → Bool) → Bool
all_under zero p = true
all_under (suc n) p = p n && all_under n p

all_under-holds : (n : ℕ) (p : ℕ → Bool) (x : ℕ) → all_under n p ≡ true → x < n → p x ≡ true
unfolding all_under
all_under-holds zero p x e l = absurd (omega arith)
all_under-holds (suc n) p x e l = ground (arith, all_under-holds n p x)

both : (a b : Bool) → (a && b) ≡ true → (a ≡ true) × (b ≡ true)
both true true e = (refl, refl)
both true false e = cc
both false b e = cc

-- Byte, bit to mark and bit to read, in one number.
abbrev one_case : Bool → ℕ → Bool
one_case poisoned x =
    let byte = x / 64 in
    let bit = x / 8 % 8 in
    let k = x % 8 in
    let after = mark_bit poisoned byte bit in
    ltb after 256 && (bit_at after k == (if k == bit then bit_value poisoned else bit_at byte k))

every_case : all_under 16384 (one_case true) ≡ true
unfolding all_under mark_bit
every_case = refl

every_case_clear : all_under 16384 (one_case false) ≡ true
unfolding all_under mark_bit
every_case_clear = refl

case_of : (poisoned : Bool) (x : ℕ) → x < 16384 → one_case poisoned x ≡ true
case_of true x l = all_under-holds 16384 (one_case true) x every_case l
case_of false x l = all_under-holds 16384 (one_case false) x every_case_clear l

-- Marking a bit of a byte leaves a byte, and changes that bit only.
pub bit_at-mark_bit :
    (poisoned : Bool) (byte bit k : ℕ)
    → byte < 256
    → bit < 8
    → k < 8
    → (mark_bit poisoned byte bit < 256)
      × (bit_at (mark_bit poisoned byte bit) k
          ≡ (if k == bit then bit_value poisoned else bit_at byte k))
bit_at-mark_bit poisoned byte bit k h b l =
    let x = byte * 64 + bit * 8 + k in
    let it = case_of poisoned x (omega arith) in
    let e₁ : x / 64 ≡ byte = omega arith in
    let e₂ : x / 8 % 8 ≡ bit = omega arith in
    let e₃ : x % 8 ≡ k = omega arith in
    let it' = rw (e₁, e₂, e₃) at it in
    let parts =
      both (ltb (mark_bit poisoned byte bit) 256)
        (bit_at (mark_bit poisoned byte bit) k
          == (if k == bit then bit_value poisoned else bit_at byte k))
        it' in
    (
      ltb→lt (mark_bit poisoned byte bit) 256 parts.0,
      (==_iff (bit_at (mark_bit poisoned byte bit) k)
            (if k == bit then bit_value poisoned else bit_at byte k)).0
          parts.1,
    )

-- Marking `left` bits from `bit` on leaves a byte, and changes those bits only.
pub bit_at-mark_bits :
    (poisoned : Bool) (byte bit left k : ℕ)
    → byte < 256
    → bit + left ≤ 8
    → k < 8
    → (mark_bits poisoned byte bit left < 256)
      × (bit_at (mark_bits poisoned byte bit left) k
          ≡ (if leb bit k && ltb k (bit + left) then bit_value poisoned else bit_at byte k))
unfolding mark_bits
bit_at-mark_bits poisoned byte bit zero k h b l = (h, ground arith)
bit_at-mark_bits poisoned byte bit (suc left) k h b l =
    let one = bit_at-mark_bit poisoned byte bit k h (omega arith) l in
    let rest =
      bit_at-mark_bits poisoned (mark_bit poisoned byte bit) (bit + 1) left k one.0 (omega arith)
        l in
    (rest.0, ground arith)

-- ===== src/Region/Shadow/Marks.antt =====
-- What `_setShadow` leaves in the shadow map.
use kerbecs.Common.{
  ℕ, ◌+◌, ◌/◌, ◌%◌, ◌≤◌, ◌<◌, ◌≡◌, refl, sym, ap, ◌∙◌, arith, Bool, true, false, not, ◌&&◌,
  if◌then◌else◌, ltb, leb,
}
use native.Mathlib.Decide.{ℕ_discrete}
use kerbecs.Layout.Pattern.{Memory}
use kerbecs.Region.Shadow.{mark_bits, store}
use kerbecs.Region.Shadow.Bits.{bit_at, bit_value, bit_at-mark_bits}

abbrev pub AreBytes : Memory → Type 0
AreBytes m = (a : ℕ) → m a < 256

-- The shadow bit of byte `i` of the region.
abbrev pub shadow_bit : Memory → ℕ → ℕ → ℕ
shadow_bit m base i = bit_at (m (base + i / 8)) (i % 8)

-- `after` is `before` with the bits from `lo` to `hi` marked, but those that `skip` holds back.
pub record Marked (poisoned : Bool) (skip : ℕ → Bool) (base lo hi : ℕ) (before after : Memory)
    : Type 0 where
  pub bytes : AreBytes after
  pub bits :
      (i : ℕ)
      → shadow_bit after base i ≡ (
          if leb lo i && (ltb i hi && not (skip (base + i / 8)))
          then bit_value poisoned
          else shadow_bit before base i)
  pub below : (a : ℕ) → a < base → after a ≡ before a

abbrev pub round_store : Bool → ℕ → ℕ → ℕ → Memory → Memory
round_store poisoned base offset span m =
    store m (base + offset / 8) (mark_bits poisoned (m (base + offset / 8)) (offset % 8) span)

pub round_store-Marked :
    (poisoned : Bool) (skip : ℕ → Bool) (base offset span : ℕ) (m : Memory)
    → skip (base + offset / 8) ≡ false
    → AreBytes m
    → offset % 8 + span ≤ 8
    → Marked poisoned skip base offset (offset + span) m (round_store poisoned base offset span m)
round_store-Marked poisoned skip base offset span m free b fits =
    let byte = base + offset / 8 in
    let it = λ (k : ℕ) (l : k < 8).
      bit_at-mark_bits poisoned (m byte) (offset % 8) span k (b byte) fits l in
    record {
      bytes = λ a. elim (ℕ_discrete a byte) [
        | yes e ↦ let w = (it 0 (omega arith)).0 in ground arith
        | no ne ↦ let w = b a in ground arith
      ];
      bits = λ i. elim (ℕ_discrete (i / 8) (offset / 8)) [
        | yes e ↦
            let here : round_store poisoned base offset span m (base + i / 8)
                ≡ mark_bits poisoned (m byte) (offset % 8) span =
              ground arith in
            let old : bit_at (m byte) (i % 8) ≡ shadow_bit m base i =
              ap (λ (t : ℕ). bit_at (m (base + t)) (i % 8)) (sym e) in
            let open_here : skip (base + i / 8) ≡ false =
              ap (λ (t : ℕ). skip (base + t)) e ∙ free in
            ap (λ (t : ℕ). bit_at t (i % 8)) here ∙ (it (i % 8) (omega arith)).1 ∙ ground arith
        | no ne ↦
            let here : round_store poisoned base offset span m (base + i / 8) ≡ m (base + i / 8) =
              ground arith in
            ap (λ (t : ℕ). bit_at t (i % 8)) here ∙ ground arith
      ];
      below = λ a l. ground arith;
    }

-- A round that is held back.
pub skip-Marked :
    (poisoned : Bool) (skip : ℕ → Bool) (base offset span : ℕ) (m : Memory)
    → skip (base + offset / 8) ≡ true
    → AreBytes m
    → offset % 8 + span ≤ 8
    → Marked poisoned skip base offset (offset + span) m m
skip-Marked poisoned skip base offset span m held b fits = record {
  bytes = b;
  bits = λ i. elim (ℕ_discrete (i / 8) (offset / 8)) [
    | yes e ↦
        let held_here : skip (base + i / 8) ≡ true = ap (λ (t : ℕ). skip (base + t)) e ∙ held in
        ground arith
    | no ne ↦ ground arith
  ];
  below = λ a l. refl;
}

pub none-Marked :
    (poisoned : Bool) (skip : ℕ → Bool) (base lo : ℕ) (m : Memory)
    → AreBytes m
    → Marked poisoned skip base lo lo m m
none-Marked poisoned skip base lo m b = record {
  bytes = b;
  bits = λ i. ground arith;
  below = λ a l. refl;
}

-- One stretch after another.
pub Marked-trans :
    {poisoned : Bool} {skip : ℕ → Bool} {base lo mid hi : ℕ} {m₀ m₁ m₂ : Memory}
    → lo ≤ mid
    → mid ≤ hi
    → Marked poisoned skip base lo mid m₀ m₁
    → Marked poisoned skip base mid hi m₁ m₂
    → Marked poisoned skip base lo hi m₀ m₂
Marked-trans l h a b = record {
  bytes = b.bytes;
  bits = λ i. ground (arith, a.bits i, b.bits i);
  below = λ x k. b.below x k ∙ a.below x k;
}

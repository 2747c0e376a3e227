-- ===== src/Region/Shadow/Map.antt =====
-- `_contains` and `_setShadow` as a whole.
use kerbecs.Common.{
  ℕ, ◌+◌, ◌-◌, ◌≤◌, ◌≡◌, ◌≢◌, ◌↔◌, ◌⊎◌, refl, arith, Bool, true, false, not, ◌||◌, ◌==◌, Option,
  some, sym, ◌∙◌, Bool-cases, inl, inr,
}
use native.Mathlib.Decide.{ℕ_discrete}
use kerbecs.Layout.Pattern.{Memory}
use kerbecs.Memory.Pages.{System, IsSystem, AreMapped}
use kerbecs.Region.Shadow.{set_shadow_loop, set_shadow, contains}
use kerbecs.Region.Shadow.Marks.{AreBytes, Marked}
use kerbecs.Region.Shadow.Loop.{held, clears}
use kerbecs.Region.Shadow.Poison.{Poisoned, poisons, poisons_returns}

-- A range inside the region: neither null nor empty, and its sum with the base does not pass the end.
pub record IsInside (base region_size address size : ℕ) : Type 0 where
  pub base_there : base ≢ 0
  pub address_there : address ≢ 0
  pub some_bytes : 1 ≤ size
  pub lower : base ≤ address
  pub upper : address + size ≤ base + region_size

pub contains_iff :
    (base region_size address size : ℕ)
    → (contains base region_size address size ≡ true) ↔ IsInside base region_size address size
unfolding contains
contains_iff base region_size address size = (
  λ e. record {
    base_there = ground arith;
    address_there = ground arith;
    some_bytes = ground arith;
    lower = ground arith;
    upper = ground arith;
  },
  λ w. ground (arith, w.base_there, w.address_there, w.some_bytes, w.lower, w.upper),
)

module _ {S : Type 0} (sys : System S) (base region_size shadow_base address size : ℕ) (s : S)
    (m : Memory) where
  abbrev call : Bool → Option (Bool × S × Memory)
  call poisoned = set_shadow sys base region_size shadow_base address size poisoned s m

  pub set_shadow_refused :
      (poisoned : Bool)
      → (contains base region_size address size ≡ false) ⊎ (shadow_base ≡ 0)
      → call poisoned ≡ some (false, s, m)
  unfolding set_shadow
  set_shadow_refused poisoned h = ground (arith, h)

  pub set_shadow_runs :
      (poisoned : Bool)
      → IsInside base region_size address size
      → shadow_base ≢ 0
      → call poisoned ≡ set_shadow_loop sys size poisoned shadow_base (address - base) size s m
  unfolding set_shadow
  set_shadow_runs poisoned w nz =
      let e = (contains_iff base region_size address size).1 w in
      let f : (not (contains base region_size address size) || (shadow_base == 0)) ≡ false =
        ground (arith, e, nz) in
      rw f refl

  -- For a range inside the region, a shadow map that is there and holds bytes: clearing always
  -- succeeds and asks for no page; it clears the bits of the range whose pages are committed, and
  -- changes no other bit and nothing below the map.
  pub set_shadow-clears :
      AreBytes m
      → IsInside base region_size address size
      → shadow_base ≢ 0
      → (after : Memory) × (call false ≡ some (true, s, after))
        × Marked false (held sys s) shadow_base (address - base) (address - base + size) m after
  set_shadow-clears b w nz =
      let (after, e, k) = clears sys size shadow_base (address - base) size s m (omega arith) b in
      (after, set_shadow_runs false w nz ∙ e, k)

  -- For a range inside the region and a shadow map that is there and holds bytes: where poisoning answers, it
  -- has set the bits of a first part of the range, as `Poisoned` says.
  pub set_shadow-poisons :
      (r : Bool × S × Memory)
      → AreBytes m
      → IsInside base region_size address size
      → shadow_base ≢ 0
      → call true ≡ some r
      → Poisoned sys shadow_base (address - base) size s m r
  set_shadow-poisons r b w nz e =
      poisons sys size shadow_base (address - base) size s m r (omega arith) b
        (sym (set_shadow_runs true w nz) ∙ e)

  -- For a range inside the region and a shadow map that is there, whose addresses the system calls reserved
  -- or committed and unmaps none of: poisoning comes to an answer within one round for each byte.
  pub set_shadow_returns :
      IsSystem sys
      → AreMapped sys s shadow_base region_size
      → IsInside base region_size address size
      → shadow_base ≢ 0
      → (r : Bool × S × Memory) × (call true ≡ some r)
  set_shadow_returns law zone w nz =
      let (r, e) =
        poisons_returns sys size shadow_base (address - base) size s m law
          (λ i low high. zone i (omega (arith, w.lower, w.upper))) (omega arith) in
      (r, set_shadow_runs true w nz ∙ e)

  -- An answer that is true comes from a range inside the region, with a shadow map.
  pub set_shadow-runs :
      (poisoned : Bool) (pages : S) (after : Memory)
      → call poisoned ≡ some (true, pages, after)
      → IsInside base region_size address size × (shadow_base ≢ 0)
  set_shadow-runs poisoned pages after e =
      elim (Bool-cases (contains base region_size address size)) [
        | inr out ↦ absurd (cc (set_shadow_refused poisoned (inl out)))
        | inl within ↦ (
          (contains_iff base region_size address size).0 within,
          λ z. absurd (cc (set_shadow_refused poisoned (inr z))),
        )
      ]

  -- Over a map whose addresses the system calls reserved or committed and unmaps none of, poisoning answers for
  -- every range.
  pub set_shadow_answers :
      IsSystem sys
      → AreMapped sys s shadow_base region_size
      → (r : Bool × S × Memory) × (call true ≡ some r)
  set_shadow_answers law zone = elim (Bool-cases (contains base region_size address size)) [
    | inr out ↦ ((false, s, m), set_shadow_refused true (inl out))
    | inl within ↦ elim (ℕ_discrete shadow_base 0) [
      | yes null ↦ ((false, s, m), set_shadow_refused true (inr null))
      | no there ↦
          set_shadow_returns law zone ((contains_iff base region_size address size).0 within) there
    ]
  ]

  -- For a range inside the region, a shadow map that is there, holds bytes and has only addresses that the
  -- system calls reserved or committed in the state of the call, and a system whose `protect` unmaps none:
  -- poisoning answers. It has set the bits of a first part of the range, all of it exactly if the answer is true, and
  -- changed no other bit and nothing below the map; each page of that part was seen committed, or a request for
  -- it succeeded, in the state that the rounds before left; and no other request was made but a last one that
  -- failed.
  pub set_shadow-Poisoned :
      IsSystem sys
      → AreMapped sys s shadow_base region_size
      → AreBytes m
      → IsInside base region_size address size
      → shadow_base ≢ 0
      → (r : Bool × S × Memory) × (call true ≡ some r)
        × Poisoned sys shadow_base (address - base) size s m r
  set_shadow-Poisoned law zone b w nz =
      let (r, e) = set_shadow_returns law zone w nz in (r, e, set_shadow-poisons r b w nz e)

  -- Clearing answers for every range of a map of bytes.
  pub clearing_answers : AreBytes m → (r : Bool × S × Memory) × (call false ≡ some r)
  clearing_answers b = elim (Bool-cases (contains base region_size address size)) [
    | inr out ↦ ((false, s, m), set_shadow_refused false (inl out))
    | inl within ↦ elim (ℕ_discrete shadow_base 0) [
      | yes null ↦ ((false, s, m), set_shadow_refused false (inr null))
      | no there ↦
          let (after, e, _) =
            set_shadow-clears b ((contains_iff base region_size address size).0 within) there in
          ((true, s, after), e)
    ]
  ]

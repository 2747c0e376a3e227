-- ===== src/Region/Shadow/Loop.antt =====
-- The rounds of the loop of `_setShadow`, and the loop that clears.
use kerbecs.Common.{
  ℕ, zero, suc, ◌+◌, ◌-◌, ◌/◌, ◌%◌, min, ◌≤◌, ◌≡◌, ◌≢◌, refl, ◌∙◌, arith, Bool, true, false, not,
  if◌then◌else◌, ◌==◌, Bool-cases, inl, inr, some,
}
use kerbecs.Layout.Pattern.{Memory}
use kerbecs.Memory.Pages.{System, commit_page_if_needed, is_committed}
use kerbecs.Region.Shadow.{after_commit, set_shadow_loop}
use kerbecs.Region.Shadow.Marks.{
  AreBytes, Marked, round_store, round_store-Marked, skip-Marked, none-Marked, Marked-trans,
}

abbrev pub round_span : ℕ → ℕ → ℕ
round_span offset remaining = min remaining (8 - offset % 8)

module _ {S : Type 0} (sys : System S) where
  pub loop_done :
      (fuel : ℕ) (poisoned : Bool) (base offset : ℕ) (s : S) (m : Memory)
      → set_shadow_loop sys fuel poisoned base offset 0 s m ≡ some (true, s, m)
  unfolding set_shadow_loop
  loop_done zero poisoned base offset s m = refl
  loop_done (suc fuel) poisoned base offset s m = refl

  loop_clears :
      (fuel base offset remaining : ℕ) (s : S) (m : Memory)
      → remaining ≢ 0
      → let span = round_span offset remaining in
        set_shadow_loop sys (suc fuel) false base offset remaining s m ≡ (
          if is_committed sys s (base + offset / 8)
          then set_shadow_loop sys fuel false base
              (offset + span)
              (remaining - span)
              s
              (round_store false base offset span m)
          else set_shadow_loop sys fuel false base (offset + span) (remaining - span) s m)
  unfolding set_shadow_loop
  loop_clears fuel base offset remaining s m more =
      let e : (remaining == 0) ≡ false = ground arith in rw e refl

  pub loop_poisons :
      (fuel base offset remaining : ℕ) (s : S) (m : Memory)
      → remaining ≢ 0
      → let span = round_span offset remaining in
        set_shadow_loop sys (suc fuel) true base offset remaining s m
        ≡ after_commit sys (commit_page_if_needed sys s (base + offset / 8)) m (λ s'.
          set_shadow_loop sys fuel true base
            (offset + span)
            (remaining - span)
            s'
            (round_store true base offset span m))
  unfolding set_shadow_loop
  loop_poisons fuel base offset remaining s m more =
      let e : (remaining == 0) ≡ false = ground arith in rw e refl

  abbrev pub held : S → ℕ → Bool
  held s a = not (is_committed sys s a)

  -- Clearing always ends, and clears the bits of the committed part of the map.
  pub clears :
      (fuel base offset remaining : ℕ) (s : S) (m : Memory)
      → remaining ≤ fuel
      → AreBytes m
      → (after : Memory) × (set_shadow_loop sys fuel false base offset remaining s m
          ≡ some (true, s, after))
        × Marked false (held s) base offset (offset + remaining) m after
  clears zero base offset zero s m l b = (
    m,
    loop_done zero false base offset s m,
    rw (let e : offset + 0 ≡ offset = omega arith in e)
        (none-Marked false (held s) base offset m b),
  )
  clears zero base offset (suc remaining) s m l b = absurd (omega arith)
  clears (suc fuel) base offset zero s m l b = (
    m,
    loop_done (suc fuel) false base offset s m,
    rw (let e : offset + 0 ≡ offset = omega arith in e)
        (none-Marked false (held s) base offset m b),
  )
  clears (suc fuel) base offset (suc remaining) s m l b =
      let span = round_span offset (suc remaining) in
      let step = loop_clears fuel base offset (suc remaining) s m (λ e. absurd (omega arith)) in
      let sum : offset + span + (suc remaining - span) ≡ offset + suc remaining = omega arith in
      elim (Bool-cases (is_committed sys s (base + offset / 8))) [
        | inl yes_page ↦
            let first =
              round_store-Marked false (held s) base offset span m (rw yes_page refl) b
                (omega arith) in
            let (after, e, rest) =
              clears fuel base (offset + span) (suc remaining - span) s
                (round_store false base offset span m) (omega arith) first.bytes in
            (
              after,
              step ∙ rw yes_page e,
              Marked-trans (omega arith) (omega arith) first (rw sum at rest),
            )
        | inr no_page ↦
            let first =
              skip-Marked false (held s) base offset span m (rw no_page refl) b (omega arith) in
            let (after, e, rest) =
              clears fuel base (offset + span) (suc remaining - span) s m (omega arith) b in
            (
              after,
              step ∙ rw no_page e,
              Marked-trans (omega arith) (omega arith) first (rw sum at rest),
            )
      ]

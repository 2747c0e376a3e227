-- ===== src/Layout/NormalLaws.antt =====
-- `NormalLayout::place` against `NormalLayout::verifyGuards`.
use kerbecs.Common.{
  ℕ, ◌+◌, ◌-◌, ◌^◌, ◌≤◌, ◌<◌, ◌≡◌, ◌≢◌, ◌↔◌, ◌⊎◌, inl, inr, arith, sub_word, true, ap, ◌∙◌,
}
use kerbecs.Layout.Pattern.{Memory, redzone, verify_redzone}
use kerbecs.Layout.Guards.{verify_redzone_iff}
use kerbecs.Layout.Normal.{Offsets, offsets, block_size, place, verify_guards, meta_size}
use kerbecs.Memory.Align.{IsAlignment}
use kerbecs.Layout.Sizes.{NormalParts, normal_sizes}

-- Every byte of the two guards is the redzone's.
pub record IsGuarded (m : Memory) (base : ℕ) (o : Offsets) : Type 0 where
  pub before : (j : ℕ) → j < o.user_data → m (base + j) ≡ redzone
  pub after : (j : ℕ) → o.redzone_trailing ≤ j → j < o.meta_data → m (base + j) ≡ redzone

guards_from :
    (m : Memory) (base : ℕ) (o : Offsets)
    → base ≢ 0
    → (verify_guards m base o ≡ true) ↔ (
        (verify_redzone m (base + o.redzone_leading) (sub_word o.user_data o.redzone_leading)
          ≡ true)
        × (verify_redzone m (base + o.redzone_trailing) (sub_word o.meta_data o.redzone_trailing)
            ≡ true))
unfolding verify_guards
guards_from m base o nz = (λ e. (ground arith, ground arith), λ e. ground arith)

parts-guards :
    {payload align size : ℕ}
    → (m : Memory) (base : ℕ) (o : Offsets) → base ≢ 0
    → NormalParts payload align size o
    → (verify_guards m base o ≡ true) ↔ IsGuarded m base o
parts-guards m base o nz p =
    let from = guards_from m base o nz in
    let l₁ : sub_word o.user_data o.redzone_leading ≡ o.user_data =
      omega (arith, p.leading, p.after_payload, p.guard_after, p.whole, p.in_word) in
    let l₂ : sub_word o.meta_data o.redzone_trailing ≡ o.meta_data - o.redzone_trailing =
      omega (arith, p.after_payload, p.guard_after, p.whole, p.in_word) in
    let s₁ =
      verify_redzone_iff m (base + o.redzone_leading) (sub_word o.user_data o.redzone_leading)
        (λ z. nz (omega arith)) in
    let s₂ =
      verify_redzone_iff m (base + o.redzone_trailing) (sub_word o.meta_data o.redzone_trailing)
        (λ z. nz (omega arith)) in
    (
      λ e. record {
        before = λ j h.
            ap m {x = base + j} {y = base + o.redzone_leading + j} (omega (arith, p.leading))
            ∙ s₁.0 (from.0 e).0 j (omega arith);
        after = λ j h k.
            ap m {x = base + j} {y = base + o.redzone_trailing + (j - o.redzone_trailing)}
              (omega arith)
            ∙ s₂.0 (from.0 e).1 (j - o.redzone_trailing) (omega arith);
      },
      λ g. from.1 (
        s₁.1 (λ j h.
            ap m {x = base + o.redzone_leading + j} {y = base + j} (omega (arith, p.leading))
            ∙ g.before j (omega arith)),
        s₂.1 (λ j h.
            ap m {x = base + o.redzone_trailing + j} {y = base + (o.redzone_trailing + j)}
              (omega arith)
            ∙ g.after (o.redzone_trailing + j) (omega arith) (omega (arith, p.guard_after))),
      ),
    )

-- For a payload and an alignment that `size_t` holds, a block size that is not below the payload and
-- a block that is not null,
-- `verifyGuards` holds exactly if every byte before the payload, and every byte from the end of the
-- payload to the metadata, is the redzone's.
pub normal_verify_guards_iff :
    (m : Memory) (base payload align : ℕ)
    → base ≢ 0
    → IsAlignment align
    → payload < 2 ^ 64
    → payload ≤ block_size payload align
    → (verify_guards m base (offsets payload align) ≡ true)
      ↔ IsGuarded m base (offsets payload align)
normal_verify_guards_iff m base payload align nz w small passed =
    parts-guards m base (offsets payload align) nz (normal_sizes payload align w small passed)

-- What `place` leaves in memory: intact guards, cleared metadata, and no other byte changed.
pub record NormalPlaced (m : Memory) (base payload align : ℕ) (r : Offsets × Memory) : Type 0 where
  pub guarded : verify_guards r.1 base r.0 ≡ true
  pub cleared : (j : ℕ) → r.0.meta_data ≤ j → j < r.0.meta_data + meta_size → r.1 (base + j) ≡ 0
  pub payload_kept :
      (j : ℕ) → r.0.user_data ≤ j → j < r.0.user_data + payload → r.1 (base + j) ≡ m (base + j)
  pub outside_kept : (i : ℕ) → (i < base) ⊎ (base + block_size payload align ≤ i) → r.1 i ≡ m i

-- For a payload and an alignment that `size_t` holds, a block size that is not below the payload and
-- a block that is not null: after
-- `place`, `verifyGuards` holds, the metadata is cleared, and the payload and the memory outside the
-- block are as they were.
pub place-NormalPlaced :
    (m : Memory) (base payload align : ℕ)
    → base ≢ 0
    → IsAlignment align
    → payload < 2 ^ 64
    → payload ≤ block_size payload align
    → NormalPlaced m base payload align (place m base payload align)
unfolding place
place-NormalPlaced m base payload align nz w small passed =
    let p = normal_sizes payload align w small passed in
    let o = offsets payload align in
    let l₂ : sub_word o.meta_data o.redzone_trailing ≡ o.meta_data - o.redzone_trailing =
      omega (arith, p.after_payload, p.guard_after, p.whole, p.in_word) in
    let ordered = p.guard_after in
    let end = p.whole in
    let middle = p.after_payload in
    record {
      guarded =
          (parts-guards (place m base payload align).1 base o nz p).1
            (record { before = λ j h. ground arith; after = λ j h k. ground arith });
      cleared = λ j h k. ground arith;
      payload_kept = λ j h k. ground arith;
      outside_kept = λ i h. elim h [ inl k ↦ ground arith | inr k ↦ ground arith ];
    }

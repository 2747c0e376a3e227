-- ===== src/Layout/EnhancedLaws.antt =====
-- `EnhancedLayout::place` against `EnhancedLayout::verifyGuards`.
use kerbecs.Common.{
  ℕ, ◌+◌, ◌-◌, ◌^◌, ◌%◌, ◌≤◌, ◌<◌, ◌≡◌, ◌≢◌, ◌⊎◌, inl, inr, refl, ◌∙◌, arith, sub_word, true,
}
use kerbecs.Layout.Pattern.{
  Memory, redzone, canary_byte, memset, stamp_canary, verify_redzone, verify_canaries,
}
use kerbecs.Layout.Guards.{verify_redzone_iff}
use kerbecs.Layout.Canary.{stamp_canary-outside, stamp_canary-inside, verify_canaries-hold}
use kerbecs.Layout.Enhanced.{Offsets, offsets, block_size, place, verify_guards}
use kerbecs.Memory.Align.{IsAlignment}
use kerbecs.Layout.Sizes.{EnhancedParts, enhanced_sizes}

-- The stores of `place`, with the metadata at `a` and `b`, the payload at `u`, and its end at `t`.
module _ (m : Memory) (base a u t b : ℕ) (before : a + 72 ≤ u) (payload_there : u ≤ t)
    (after : t + 8 ≤ b) where
  abbrev first : Memory
  first = memset m base redzone a

  abbrev second : Memory
  second = memset first (base + a) 0 48

  abbrev third : Memory
  third = stamp_canary second (base + (a + 64)) (u - (a + 64))

  abbrev fourth : Memory
  fourth = stamp_canary third (base + t) (b - t)

  abbrev fifth : Memory
  fifth = memset fourth (base + b) 0 48

  abbrev final : Memory
  final = memset fifth (base + (b + 64)) redzone 16

  final-fourth : (p : ℕ) → p < base + b → final p ≡ fourth p
  final-fourth p h = ground arith

  final-third : (p : ℕ) → p < base + t → final p ≡ third p
  final-third p h =
      final-fourth p (omega arith) ∙ stamp_canary-outside third (base + t) (b - t) p (inl h)

  final-second : (p : ℕ) → p < base + (a + 64) → final p ≡ second p
  final-second p h =
      final-third p (omega arith)
      ∙ stamp_canary-outside second (base + (a + 64)) (u - (a + 64)) p (inl h)

  redzone_before : (j : ℕ) → j < a → final (base + j) ≡ redzone
  redzone_before j h = final-second (base + j) (omega arith) ∙ ground arith

  canary_before : (j : ℕ) → j < u - (a + 64) → final (base + (a + 64) + j) ≡ canary_byte (j % 8)
  canary_before j h =
      final-third (base + (a + 64) + j) (omega arith)
      ∙ stamp_canary-inside second (base + (a + 64)) (u - (a + 64)) j h

  canary_after : (j : ℕ) → j < b - t → final (base + t + j) ≡ canary_byte (j % 8)
  canary_after j h =
      final-fourth (base + t + j) (omega arith) ∙ stamp_canary-inside third (base + t) (b - t) j h

  redzone_after : (j : ℕ) → j < 16 → final (base + (b + 64) + j) ≡ redzone
  redzone_after j h = ground arith

  payload_same : (j : ℕ) → u ≤ j → j < t → final (base + j) ≡ m (base + j)
  payload_same j l h =
      final-third (base + j) (omega arith)
      ∙ stamp_canary-outside second (base + (a + 64)) (u - (a + 64)) (base + j) (inr (omega arith))
      ∙ ground arith

  outside_same : (p : ℕ) → (p < base) ⊎ (base + (b + 80) ≤ p) → final p ≡ m p
  outside_same p out = elim out [
    | inl l ↦ final-second p (omega arith) ∙ ground arith
    | inr r ↦
        (let e : final p ≡ fourth p = ground arith in e)
        ∙ stamp_canary-outside third (base + t) (b - t) p (inr (omega arith))
        ∙ stamp_canary-outside second (base + (a + 64)) (u - (a + 64)) p (inr (omega arith))
        ∙ ground arith
  ]

-- What `place` leaves in memory: intact guards, and no byte changed in the payload or outside the
-- block.
pub record EnhancedPlaced (m : Memory) (base payload align : ℕ) (r : Offsets × Memory)
    : Type 0 where
  pub guarded : verify_guards r.1 base r.0 (block_size payload align) ≡ true
  pub payload_kept :
      (j : ℕ) → r.0.user_data ≤ j → j < r.0.user_data + payload → r.1 (base + j) ≡ m (base + j)
  pub outside_kept : (i : ℕ) → (i < base) ⊎ (base + block_size payload align ≤ i) → r.1 i ≡ m i

place-offsets :
    (m : Memory) (base size payload align : ℕ)
    → (place m base size payload align).0 ≡ offsets payload align
unfolding place
place-offsets m base size payload align = refl

guards_hold :
    (m : Memory) (base : ℕ) (o : Offsets) (size : ℕ)
    → base ≢ 0
    → verify_redzone m (base + o.redzone_leading) (sub_word o.meta_data_leading o.redzone_leading)
      ≡ true
    → verify_canaries m (base + o.canary_leading) (sub_word o.user_data o.canary_leading) ≡ true
    → verify_canaries m (base + o.canary_trailing) (sub_word o.meta_data_trailing o.canary_trailing)
      ≡ true
    → verify_redzone m (base + o.redzone_trailing) (sub_word size o.redzone_trailing) ≡ true
    → verify_guards m base o size ≡ true
unfolding verify_guards
guards_hold m base o size nz a b c d = ground arith

-- The lengths that `place` and `verifyGuards` compute, as differences that do not wrap.
module _ {payload align size : ℕ} (o : Offsets) (p : EnhancedParts payload align size o) where
  in_order :
      (o.meta_data_leading + 72 ≤ o.user_data)
      × (o.user_data ≤ o.canary_trailing)
      × (o.canary_trailing + 8 ≤ o.meta_data_trailing)
  in_order =
      (omega (arith, p.meta_before, p.canary_before), omega (arith, p.canary_after), p.meta_after)

  lengths :
      (sub_word o.meta_data_leading o.redzone_leading ≡ o.meta_data_leading)
      × (sub_word o.user_data o.canary_leading ≡ o.user_data - (o.meta_data_leading + 64))
      × (sub_word o.meta_data_trailing o.canary_trailing ≡ o.meta_data_trailing - o.canary_trailing)
      × (sub_word size o.redzone_trailing ≡ 16)
  lengths =
      let (x, y, z) = in_order in
      (
        omega (arith, p.leading, p.guard_after, p.whole, p.in_word),
        omega (arith, p.meta_before, p.guard_after, p.whole, p.in_word),
        omega (arith, p.guard_after, p.whole, p.in_word),
        omega (arith, p.whole, p.in_word),
      )

  place-final :
      (m : Memory) (base : ℕ)
      → o ≡ offsets payload align
      → (place m base size payload align).1
        ≡ final m base o.meta_data_leading o.user_data o.canary_trailing o.meta_data_trailing
            in_order.0 in_order.1 in_order.2
  unfolding place
  place-final m base same =
      let (l₀, l₁, l₂, l₃) = lengths in rw (← same, l₁, l₂, l₃, p.meta_before, p.guard_after) refl

  final-guarded :
      (m : Memory) (base : ℕ)
      → base ≢ 0
      → verify_guards
          (final m base o.meta_data_leading o.user_data o.canary_trailing o.meta_data_trailing
            in_order.0 in_order.1 in_order.2)
          base
          o
          size
        ≡ true
  final-guarded m base nz =
      let a = o.meta_data_leading in
      let u = o.user_data in
      let t = o.canary_trailing in
      let b = o.meta_data_trailing in
      let (x, y, z) = in_order in
      let (l₀, l₁, l₂, l₃) = lengths in
      let f = final m base a u t b x y z in
      let a₀ : base + o.redzone_leading ≡ base = omega (arith, p.leading) in
      guards_hold f base o size nz
        (rw (l₀, a₀) ((verify_redzone_iff f base a nz).1 (redzone_before m base a u t b x y z)))
        (rw (l₁, p.meta_before)
          (verify_canaries-hold f (base + (a + 64)) (u - (a + 64)) (λ e. nz (omega arith))
            (canary_before m base a u t b x y z)))
        (rw l₂ (
          verify_canaries-hold f (base + t) (b - t) (λ e. nz (omega arith))
            (canary_after m base a u t b x y z)))
        (rw (l₃, p.guard_after)
          ((verify_redzone_iff f (base + (b + 64)) 16 (λ e. nz (omega arith))).1
            (redzone_after m base a u t b x y z)))

-- For a payload and an alignment that `size_t` holds, a block size of `EnhancedLayout` that is not
-- below the payload and a block that is not null: after `place`, `verifyGuards` holds, redzones and
-- canaries, and the payload and the memory outside the block are as they were.
pub place-EnhancedPlaced :
    (m : Memory) (base payload align : ℕ)
    → base ≢ 0
    → IsAlignment align
    → payload < 2 ^ 64
    → payload ≤ block_size payload align
    → EnhancedPlaced m base payload align (place m base (block_size payload align) payload align)
place-EnhancedPlaced m base payload align nz w small passed =
    let size = block_size payload align in
    let o = offsets payload align in
    let p = enhanced_sizes payload align w small passed in
    let (x, y, z) = in_order o p in
    let stores = place-final o p m base refl in
    let where_from = place-offsets m base size payload align in
    let whole : o.meta_data_trailing + 80 ≡ size = omega (arith, p.guard_after, p.whole) in
    record {
      guarded = rw (stores, where_from) (final-guarded o p m base nz);
      payload_kept = λ j l h. rw stores (
          payload_same m base o.meta_data_leading o.user_data o.canary_trailing o.meta_data_trailing
            x y z j (rw where_from at l) (omega (arith, p.canary_after, (rw where_from at h))));
      outside_kept = λ i out. rw stores (
          outside_same m base o.meta_data_leading o.user_data o.canary_trailing o.meta_data_trailing
            x y z i (elim out [ inl l ↦ inl l | inr h ↦ inr (omega arith) ]));
    }

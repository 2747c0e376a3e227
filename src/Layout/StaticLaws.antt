-- ===== src/Layout/StaticLaws.antt =====
-- `StaticLayout::place` against `StaticLayout::verifyGuards`.
use kerbecs.Common.{
  ℕ, ◌+◌, ◌-◌, ◌^◌, ◌%◌, ◌≤◌, ◌<◌, ◌≡◌, ◌≢◌, ◌⊎◌, inl, inr, refl, ◌∙◌, arith, sub_word, true,
}
use kerbecs.Layout.Pattern.{
  Memory, redzone, canary_byte, memset, stamp_canary, verify_redzone, verify_canaries,
}
use kerbecs.Layout.Guards.{verify_redzone_iff}
use kerbecs.Layout.Canary.{stamp_canary-outside, stamp_canary-inside, verify_canaries-hold}
use kerbecs.Layout.Static.{Offsets, offsets, block_size, place, verify_guards}
use kerbecs.Memory.Align.{IsAlignment}
use kerbecs.Layout.Sizes.{StaticParts, static_sizes}

-- What `place` writes: a redzone, `before` bytes of canary, the payload left as it is, and the
-- guards behind it.
abbrev written : Memory → ℕ → ℕ → ℕ → Memory
written m base user payload =
    let m₁ = memset m base redzone 16 in
    let m₂ = stamp_canary m₁ (base + 16) (user - 16) in
    let m₃ = stamp_canary m₂ (base + (user + payload)) 8 in
    memset m₃ (base + (user + payload + 8)) redzone 16

module _ (m : Memory) (base user payload : ℕ) (room : 24 ≤ user) where
  abbrev first : Memory
  first = memset m base redzone 16

  abbrev second : Memory
  second = stamp_canary first (base + 16) (user - 16)

  abbrev third : Memory
  third = stamp_canary second (base + (user + payload)) 8

  abbrev final : Memory
  final = written m base user payload

  final-third : (a : ℕ) → a < base + (user + payload + 8) → final a ≡ third a
  final-third a h = ground arith

  final-second : (a : ℕ) → a < base + (user + payload) → final a ≡ second a
  final-second a h =
      final-third a (omega arith)
      ∙ stamp_canary-outside second (base + (user + payload)) 8 a (inl h)

  redzone_before : (j : ℕ) → j < 16 → final (base + j) ≡ redzone
  redzone_before j h =
      final-second (base + j) (omega arith)
      ∙ stamp_canary-outside first (base + 16) (user - 16) (base + j) (inl (omega arith))
      ∙ ground arith

  canary_before : (j : ℕ) → j < user - 16 → final (base + 16 + j) ≡ canary_byte (j % 8)
  canary_before j h =
      final-second (base + 16 + j) (omega arith)
      ∙ stamp_canary-inside first (base + 16) (user - 16) j h

  canary_after : (j : ℕ) → j < 8 → final (base + (user + payload) + j) ≡ canary_byte (j % 8)
  canary_after j h =
      final-third (base + (user + payload) + j) (omega arith)
      ∙ stamp_canary-inside second (base + (user + payload)) 8 j h

  redzone_after : (j : ℕ) → j < 16 → final (base + (user + payload + 8) + j) ≡ redzone
  redzone_after j h = ground arith

  payload_same : (j : ℕ) → user ≤ j → j < user + payload → final (base + j) ≡ m (base + j)
  payload_same j l h =
      final-second (base + j) (omega arith)
      ∙ stamp_canary-outside first (base + 16) (user - 16) (base + j) (inr (omega arith))
      ∙ ground arith

  outside_same : (a : ℕ) → (a < base) ⊎ (base + (user + payload + 24) ≤ a) → final a ≡ m a
  outside_same a out = elim out [
    | inl l ↦
        final-second a (omega arith)
        ∙ stamp_canary-outside first (base + 16) (user - 16) a (inl (omega arith))
        ∙ ground arith
    | inr r ↦
        (let e : final a ≡ third a = ground arith in e)
        ∙ stamp_canary-outside second (base + (user + payload)) 8 a (inr (omega arith))
        ∙ stamp_canary-outside first (base + 16) (user - 16) a (inr (omega arith))
        ∙ ground arith
  ]

-- What `place` leaves in memory: intact guards, and no byte changed in the payload or outside the
-- block.
pub record StaticPlaced (m : Memory) (base payload align : ℕ) (r : Offsets × Memory) : Type 0 where
  pub guarded : verify_guards r.1 base r.0 (block_size payload align) ≡ true
  pub payload_kept :
      (j : ℕ) → r.0.user_data ≤ j → j < r.0.user_data + payload → r.1 (base + j) ≡ m (base + j)
  pub outside_kept : (i : ℕ) → (i < base) ⊎ (base + block_size payload align ≤ i) → r.1 i ≡ m i

place-written :
    {payload align size : ℕ}
    → (m : Memory) (base : ℕ) → StaticParts payload align size (offsets payload align)
    → (place m base size payload align).1 ≡ written m base (offsets payload align).user_data payload
unfolding place
place-written {payload} {align} {size} m base p =
    let o = offsets payload align in
    let l₁ : o.canary_leading ≡ 16 = p.guard_before in
    let l₂ : sub_word o.user_data o.canary_leading ≡ o.user_data - 16 =
      omega (
        arith, p.guard_before, p.canary_before, p.canary_after, p.guard_after, p.whole, p.in_word,
      ) in
    let l₃ : sub_word o.redzone_trailing o.canary_trailing ≡ 8 =
      omega (arith, p.canary_after, p.guard_after, p.whole, p.in_word) in
    let l₄ : sub_word size o.redzone_trailing ≡ 16 =
      omega (arith, p.guard_after, p.whole, p.in_word) in
    let l₅ : o.canary_trailing ≡ o.user_data + payload = p.canary_after in
    let l₆ : o.redzone_trailing ≡ o.user_data + payload + 8 =
      omega (arith, p.canary_after, p.guard_after) in
    rw (l₂, l₃, l₄, l₁, l₆, l₅) refl

place-offsets :
    (m : Memory) (base size payload align : ℕ)
    → (place m base size payload align).0 ≡ offsets payload align
unfolding place
place-offsets m base size payload align = refl

guards_hold :
    (m : Memory) (base : ℕ) (o : Offsets) (size : ℕ)
    → base ≢ 0
    → verify_redzone m (base + o.redzone_leading) (sub_word o.canary_leading o.redzone_leading)
      ≡ true
    → verify_canaries m (base + o.canary_leading) (sub_word o.user_data o.canary_leading) ≡ true
    → verify_canaries m (base + o.canary_trailing) (sub_word o.redzone_trailing o.canary_trailing)
      ≡ true
    → verify_redzone m (base + o.redzone_trailing) (sub_word size o.redzone_trailing) ≡ true
    → verify_guards m base o size ≡ true
unfolding verify_guards
guards_hold m base o size nz a b c d = ground arith

written-guarded :
    {payload align size : ℕ}
    → (m : Memory) (base : ℕ) (o : Offsets) → base ≢ 0
    → StaticParts payload align size o
    → verify_guards (written m base o.user_data payload) base o size ≡ true
written-guarded {payload} {align} {size} m base o nz p =
    let user = o.user_data in
    let f = written m base user payload in
    let room : 24 ≤ user = omega (arith, p.guard_before, p.canary_before) in
    let l₀ : sub_word o.canary_leading o.redzone_leading ≡ 16 =
      omega (arith, p.guard_before, p.leading) in
    let l₁ : sub_word user o.canary_leading ≡ user - 16 =
      omega (
        arith, p.guard_before, p.canary_before, p.canary_after, p.guard_after, p.whole, p.in_word,
      ) in
    let l₂ : sub_word o.redzone_trailing o.canary_trailing ≡ 8 =
      omega (arith, p.canary_after, p.guard_after, p.whole, p.in_word) in
    let l₃ : sub_word size o.redzone_trailing ≡ 16 =
      omega (arith, p.guard_after, p.whole, p.in_word) in
    let a₀ : base + o.redzone_leading ≡ base = omega (arith, p.leading) in
    let a₁ : base + o.canary_leading ≡ base + 16 = omega (arith, p.guard_before) in
    let a₂ : base + o.canary_trailing ≡ base + (user + payload) = omega (arith, p.canary_after) in
    let a₃ : base + o.redzone_trailing ≡ base + (user + payload + 8) =
      omega (arith, p.canary_after, p.guard_after) in
    guards_hold f base o size nz
      (rw (l₀, a₀) ((verify_redzone_iff f base 16 nz).1 (redzone_before m base user payload room)))
      (rw (l₁, a₁)
        (verify_canaries-hold f (base + 16) (user - 16) (λ z. nz (omega arith))
          (canary_before m base user payload room)))
      (rw (l₂, a₂)
        (verify_canaries-hold f (base + (user + payload)) 8 (λ z. nz (omega arith))
          (canary_after m base user payload room)))
      (rw (l₃, a₃)
        ((verify_redzone_iff f (base + (user + payload + 8)) 16 (λ z. nz (omega arith))).1
          (redzone_after m base user payload room)))

-- For a payload and an alignment that `size_t` holds, a block size of `StaticLayout` that is not
-- below the payload and a block that is not null: after `place`, `verifyGuards` holds, redzones and
-- canaries, and the payload and the memory outside the block are as they were.
pub place-StaticPlaced :
    (m : Memory) (base payload align : ℕ)
    → base ≢ 0
    → IsAlignment align
    → payload < 2 ^ 64
    → payload ≤ block_size payload align
    → StaticPlaced m base payload align (place m base (block_size payload align) payload align)
place-StaticPlaced m base payload align nz w small passed =
    let size = block_size payload align in
    let o = offsets payload align in
    let p = static_sizes payload align w small passed in
    let room : 24 ≤ o.user_data = omega (arith, p.guard_before, p.canary_before) in
    let stores = place-written m base p in
    let where_from = place-offsets m base size payload align in
    record {
      guarded = rw (stores, where_from) (written-guarded m base o nz p);
      payload_kept = λ j l h. rw stores (
          payload_same m base o.user_data payload room j (rw where_from at l) (rw where_from at h));
      outside_kept = λ i out. rw stores (
          outside_same m base o.user_data payload room i (elim out [
            | inl l ↦ inl l
            | inr h ↦ inr (omega (arith, p.canary_after, p.guard_after, p.whole))
          ]));
    }

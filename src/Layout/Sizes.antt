-- ===== src/Layout/Sizes.antt =====
-- The check `blockSize < userSize` of `Region::allocate` against the sizes and offsets of the layouts.
use kerbecs.Common.{ℕ, ◌+◌, ◌^◌, ◌%◌, ◌≤◌, ◌<◌, ◌≡◌, ◌⊎◌, inl, inr, refl, arith, add_word}
use native.Mathlib.Decide.{dec_le}
use kerbecs.Memory.{align_up}
use kerbecs.Memory.Align.{IsAlignment, alignment_le, RoundsUp, align_up-RoundsUp}
use kerbecs.Layout.Pattern.{redzone_size, canary_size}
use kerbecs.Layout.Normal
use kerbecs.Layout.Static
use kerbecs.Layout.Enhanced

-- Rounding a small size up to an alignment never wraps.
round_small : (v a : ℕ) → IsAlignment a → v ≤ 2 ^ 62 → RoundsUp v a (align_up v a)
round_small v a w small = (align_up-RoundsUp v a w (omega arith)).0 (omega (arith, alignment_le w))

is_32 : IsAlignment 32
is_32 = (5, omega arith, refl)

is_64 : IsAlignment 64
is_64 = (6, omega arith, refl)

-- The parts of a block of `NormalLayout`: they follow each other, the payload and the metadata
-- are aligned to their alignments, and the metadata ends the block.
pub record NormalParts (payload align size : ℕ) (o : Normal.Offsets) : Type 0 where
  pub leading : o.redzone_leading ≡ 0
  pub guard_before : redzone_size ≤ o.user_data
  pub user_aligned : o.user_data % align ≡ 0
  pub after_payload : o.redzone_trailing ≡ o.user_data + payload
  pub guard_after : o.redzone_trailing + redzone_size ≤ o.meta_data
  pub meta_aligned : o.meta_data % Normal.meta_align ≡ 0
  pub whole : o.meta_data + Normal.meta_size ≡ size
  pub in_word : size < 2 ^ 64

-- `align_up` of a size, whether it wraps or not.
round_any :
    (v a : ℕ)
    → IsAlignment a
    → v < 2 ^ 64
    → RoundsUp v a (align_up v a) ⊎ ((2 ^ 64 < v + a) × (align_up v a ≡ 0))
round_any v a w h = elim (dec_le (v + a) (2 ^ 64)) [
  | yes fits ↦ inl ((align_up-RoundsUp v a w h).0 fits)
  | no over ↦ inr (omega arith, (align_up-RoundsUp v a w h).1 (omega arith))
]

-- For every payload and alignment that `size_t` holds: a block size of `NormalLayout` that is not
-- below the payload has not wrapped, and the offsets cut the block into its parts in order.
pub normal_sizes :
    (payload align : ℕ)
    → IsAlignment align
    → payload < 2 ^ 64
    → payload ≤ Normal.block_size payload align
    → NormalParts payload align (Normal.block_size payload align) (Normal.offsets payload align)
unfolding Normal.block_size Normal.offsets
normal_sizes payload align w small passed =
    let user = align_up redzone_size align in
    let first = round_small redzone_size align w (omega arith) in
    let low : user ≤ 2 ^ 63 + 16 = omega (arith, first.upper, alignment_le w) in
    let above : 16 ≤ user = first.lower in
    let after = add_word (add_word user payload) redzone_size in
    elim (round_any after 32 is_32 (omega arith)) [
      | inl second ↦
          let b₁ : after ≤ align_up after 32 = second.lower in
          let b₂ : align_up after 32 < after + 32 = second.upper in
          record {
            leading = refl;
            guard_before = above;
            user_aligned = first.multiple;
            after_payload = omega arith;
            guard_after = omega arith;
            meta_aligned = second.multiple;
            whole = omega arith;
            in_word = omega arith;
          }
      | inr (over, wrapped) ↦ absurd (omega arith)
    ]

-- The parts of a block of `StaticLayout`.
pub record StaticParts (payload align size : ℕ) (o : Static.Offsets) : Type 0 where
  pub leading : o.redzone_leading ≡ 0
  pub guard_before : o.canary_leading ≡ redzone_size
  pub canary_before : o.canary_leading + canary_size ≤ o.user_data
  pub user_aligned : o.user_data % align ≡ 0
  pub canary_after : o.canary_trailing ≡ o.user_data + payload
  pub guard_after : o.redzone_trailing ≡ o.canary_trailing + canary_size
  pub whole : o.redzone_trailing + redzone_size ≡ size
  pub in_word : size < 2 ^ 64

-- For every payload and alignment that `size_t` holds: a block size of `StaticLayout` that is not
-- below the payload has not wrapped, and the offsets cut the block into its parts in order.
pub static_sizes :
    (payload align : ℕ)
    → IsAlignment align
    → payload < 2 ^ 64
    → payload ≤ Static.block_size payload align
    → StaticParts payload align (Static.block_size payload align) (Static.offsets payload align)
unfolding Static.block_size Static.offsets
static_sizes payload align w small passed =
    let first = round_small 24 align w (omega arith) in
    let low : align_up 24 align < 24 + align = first.upper in
    let above : 24 ≤ align_up 24 align = first.lower in
    let bound = alignment_le w in
    record {
      leading = refl;
      guard_before = refl;
      canary_before = above;
      user_aligned = first.multiple;
      canary_after = omega arith;
      guard_after = omega arith;
      whole = omega arith;
      in_word = omega arith;
    }

-- The parts of a block of `EnhancedLayout`.
pub record EnhancedParts (payload align size : ℕ) (o : Enhanced.Offsets) : Type 0 where
  pub leading : o.redzone_leading ≡ 0
  pub guard_before : redzone_size ≤ o.meta_data_leading
  pub meta_before_aligned : o.meta_data_leading % Enhanced.meta_align ≡ 0
  pub meta_before : o.canary_leading ≡ o.meta_data_leading + Enhanced.meta_size
  pub canary_before : o.canary_leading + canary_size ≤ o.user_data
  pub user_aligned : o.user_data % align ≡ 0
  pub canary_after : o.canary_trailing ≡ o.user_data + payload
  pub meta_after : o.canary_trailing + canary_size ≤ o.meta_data_trailing
  pub meta_after_aligned : o.meta_data_trailing % Enhanced.meta_align ≡ 0
  pub guard_after : o.redzone_trailing ≡ o.meta_data_trailing + Enhanced.meta_size
  pub whole : o.redzone_trailing + redzone_size ≡ size
  pub in_word : size < 2 ^ 64

-- For every payload and alignment that `size_t` holds: a block size of `EnhancedLayout` that is not
-- below the payload has not wrapped, and the offsets cut the block into its parts in order.
pub enhanced_sizes :
    (payload align : ℕ)
    → IsAlignment align
    → payload < 2 ^ 64
    → payload ≤ Enhanced.block_size payload align
    → EnhancedParts payload align
        (Enhanced.block_size payload align)
        (Enhanced.offsets payload align)
unfolding Enhanced.block_size Enhanced.offsets
enhanced_sizes payload align w small passed =
    let zeroth = round_small redzone_size 64 is_64 (omega arith) in
    let z₁ : 16 ≤ align_up 16 64 = zeroth.lower in
    let z₂ : align_up 16 64 < 16 + 64 = zeroth.upper in
    let v = add_word (add_word (align_up 16 64) 64) 8 in
    let first = round_small v align w (omega arith) in
    let low : align_up v align < v + align = first.upper in
    let above : v ≤ align_up v align = first.lower in
    let bound = alignment_le w in
    let after = add_word (add_word (align_up v align) payload) 8 in
    elim (round_any after 64 is_64 (omega arith)) [
      | inl second ↦
          let b₁ : after ≤ align_up after 64 = second.lower in
          let b₂ : align_up after 64 < after + 64 = second.upper in
          record {
            leading = refl;
            guard_before = z₁;
            meta_before_aligned = zeroth.multiple;
            meta_before = omega arith;
            canary_before = omega arith;
            user_aligned = first.multiple;
            canary_after = omega arith;
            meta_after = omega arith;
            meta_after_aligned = second.multiple;
            guard_after = omega arith;
            whole = omega arith;
            in_word = omega arith;
          }
      | inr (over, wrapped) ↦ absurd (omega arith)
    ]

-- ===== src/Layout/Enhanced.antt =====
-- `EnhancedLayout` of src/Public/MemoryLayouts.h.
use kerbecs.Common.{ℕ, ◌+◌, Bool, true, false, not, if◌then◌else◌, ◌==◌, add_word, sub_word}
use kerbecs.Memory.{align_up}
use kerbecs.Layout.Pattern.{
  Memory, redzone, redzone_size, canary_size, memset, stamp_canary, verify_redzone, verify_canaries,
}

-- `EnhancedMetaData` has six words and is `alignas(64)`.
abbrev pub meta_size : ℕ
meta_size = 64

abbrev pub meta_align : ℕ
meta_align = 64

abbrev pub meta_words_size : ℕ
meta_words_size = 48

pub record Offsets : Type 0 where
  pub redzone_leading : ℕ
  pub meta_data_leading : ℕ
  pub canary_leading : ℕ
  pub user_data : ℕ
  pub canary_trailing : ℕ
  pub meta_data_trailing : ℕ
  pub redzone_trailing : ℕ

unfoldable pub block_size : ℕ → ℕ → ℕ
block_size payload align =
    let c₁ = align_up redzone_size meta_align in
    let c₂ = add_word (add_word c₁ meta_size) canary_size in
    let c₃ = align_up c₂ align in
    let c₄ = add_word (add_word c₃ payload) canary_size in
    let c₅ = align_up c₄ meta_align in add_word (add_word c₅ meta_size) redzone_size

unfoldable pub offsets : ℕ → ℕ → Offsets
offsets payload align =
    let meta_leading = align_up redzone_size meta_align in
    let canary_leading = add_word meta_leading meta_size in
    let user = align_up (add_word canary_leading canary_size) align in
    let canary_trailing = add_word user payload in
    let meta_trailing = align_up (add_word canary_trailing canary_size) meta_align in
    record {
      redzone_leading = 0;
      meta_data_leading = meta_leading;
      canary_leading = canary_leading;
      user_data = user;
      canary_trailing = canary_trailing;
      meta_data_trailing = meta_trailing;
      redzone_trailing = add_word meta_trailing meta_size;
    }

-- The stores of `place`; the words of each metadata are cleared, not the padding behind them.
unfoldable pub place : Memory → ℕ → ℕ → ℕ → ℕ → Offsets × Memory
place m base size payload align =
    let o = offsets payload align in
    let m₁ = memset m base redzone o.meta_data_leading in
    let m₂ = memset m₁ (base + o.meta_data_leading) 0 meta_words_size in
    let m₃ = stamp_canary m₂ (base + o.canary_leading) (sub_word o.user_data o.canary_leading) in
    let m₄ =
      stamp_canary m₃ (base + o.canary_trailing)
        (sub_word o.meta_data_trailing o.canary_trailing) in
    let m₅ = memset m₄ (base + o.meta_data_trailing) 0 meta_words_size in
    let m₆ = memset m₅ (base + o.redzone_trailing) redzone (sub_word size o.redzone_trailing) in
    (o, m₆)

unfoldable pub verify_guards : Memory → ℕ → Offsets → ℕ → Bool
verify_guards m base o size =
    if base == 0
    then false
    else if not (
        verify_redzone m (base + o.redzone_leading)
          (sub_word o.meta_data_leading o.redzone_leading))
    then false
    else if not
        (verify_canaries m (base + o.canary_leading) (sub_word o.user_data o.canary_leading))
    then false
    else if not (
        verify_canaries m (base + o.canary_trailing)
          (sub_word o.meta_data_trailing o.canary_trailing))
    then false
    else if not (verify_redzone m (base + o.redzone_trailing) (sub_word size o.redzone_trailing))
    then false
    else true

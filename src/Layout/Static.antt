-- ===== src/Layout/Static.antt =====
-- `StaticLayout` of src/Public/MemoryLayouts.h.
use kerbecs.Common.{ℕ, ◌+◌, Bool, true, false, not, if◌then◌else◌, ◌==◌, add_word, sub_word}
use kerbecs.Memory.{align_up}
use kerbecs.Layout.Pattern.{
  Memory, redzone, redzone_size, canary_size, memset, stamp_canary, verify_redzone, verify_canaries,
}

pub record Offsets : Type 0 where
  pub redzone_leading : ℕ
  pub canary_leading : ℕ
  pub user_data : ℕ
  pub canary_trailing : ℕ
  pub redzone_trailing : ℕ

unfoldable pub block_size : ℕ → ℕ → ℕ
block_size payload align =
    let user = align_up (add_word redzone_size canary_size) align in
    add_word (add_word (add_word user payload) canary_size) redzone_size

unfoldable pub offsets : ℕ → ℕ → Offsets
offsets payload align =
    let user = align_up (add_word redzone_size canary_size) align in
    let trailing = add_word user payload in
    record {
      redzone_leading = 0;
      canary_leading = redzone_size;
      user_data = user;
      canary_trailing = trailing;
      redzone_trailing = add_word trailing canary_size;
    }

unfoldable pub place : Memory → ℕ → ℕ → ℕ → ℕ → Offsets × Memory
place m base size payload align =
    let o = offsets payload align in
    let m₁ = memset m base redzone o.canary_leading in
    let m₂ = stamp_canary m₁ (base + o.canary_leading) (sub_word o.user_data o.canary_leading) in
    let m₃ =
      stamp_canary m₂ (base + o.canary_trailing) (sub_word o.redzone_trailing o.canary_trailing) in
    let m₄ = memset m₃ (base + o.redzone_trailing) redzone (sub_word size o.redzone_trailing) in
    (o, m₄)

unfoldable pub verify_guards : Memory → ℕ → Offsets → ℕ → Bool
verify_guards m base o size =
    if base == 0
    then false
    else if not
        (verify_redzone m (base + o.redzone_leading) (sub_word o.canary_leading o.redzone_leading))
    then false
    else if not
        (verify_canaries m (base + o.canary_leading) (sub_word o.user_data o.canary_leading))
    then false
    else if not (
        verify_canaries m (base + o.canary_trailing)
          (sub_word o.redzone_trailing o.canary_trailing))
    then false
    else if not (verify_redzone m (base + o.redzone_trailing) (sub_word size o.redzone_trailing))
    then false
    else true

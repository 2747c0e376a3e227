-- ===== src/Layout/Normal.antt =====
-- `NormalLayout` of src/Public/MemoryLayouts.h.
use kerbecs.Common.{ℕ, ◌+◌, Bool, true, false, not, if◌then◌else◌, ◌==◌, add_word, sub_word}
use kerbecs.Memory.{align_up}
use kerbecs.Layout.Pattern.{Memory, redzone, redzone_size, memset, verify_redzone}

-- `sizeof` and `alignof` of `NormalMetaData`: four words, `alignas(32)`.
abbrev pub meta_size : ℕ
meta_size = 32

abbrev pub meta_align : ℕ
meta_align = 32

pub record Offsets : Type 0 where
  pub redzone_leading : ℕ
  pub user_data : ℕ
  pub redzone_trailing : ℕ
  pub meta_data : ℕ

unfoldable pub block_size : ℕ → ℕ → ℕ
block_size payload align =
    let after_leading = align_up redzone_size align in
    let after_payload = add_word (add_word after_leading payload) redzone_size in
    let after_trailing = align_up after_payload meta_align in add_word after_trailing meta_size

unfoldable pub offsets : ℕ → ℕ → Offsets
offsets payload align =
    let user = align_up redzone_size align in
    let trailing = add_word user payload in
    record {
      redzone_leading = 0;
      user_data = user;
      redzone_trailing = trailing;
      meta_data = align_up (add_word trailing redzone_size) meta_align;
    }

-- The stores of `place`; the four words of the metadata are cleared.
unfoldable pub place : Memory → ℕ → ℕ → ℕ → Offsets × Memory
place m base payload align =
    let o = offsets payload align in
    let m₁ = memset m base redzone o.user_data in
    let m₂ =
      memset m₁ (base + o.redzone_trailing) redzone (sub_word o.meta_data o.redzone_trailing) in
    let m₃ = memset m₂ (base + o.meta_data) 0 meta_size in (o, m₃)

unfoldable pub verify_guards : Memory → ℕ → Offsets → Bool
verify_guards m base o =
    if base == 0
    then false
    else if not
        (verify_redzone m (base + o.redzone_leading) (sub_word o.user_data o.redzone_leading))
    then false
    else if not
        (verify_redzone m (base + o.redzone_trailing) (sub_word o.meta_data o.redzone_trailing))
    then false
    else true

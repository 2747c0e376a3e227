-- ===== src/Layout/Policy.antt =====
-- What `Region` uses of a layout, and that the layouts provide it.
use kerbecs.Common.{ℕ, ◌+◌, ◌^◌, ◌%◌, ◌≤◌, ◌<◌, ◌≡◌, ◌≢◌, ◌⊎◌}
use kerbecs.Layout.Pattern.{Memory}
use kerbecs.Memory.Align.{IsAlignment}
use kerbecs.Layout.Normal as Normal
use kerbecs.Layout.Static as Static
use kerbecs.Layout.Enhanced as Enhanced

-- `blockSize`, and `place` with the offset of the payload: `m_UserDataOffset`.
pub record LayoutPolicy : Type 0 where
  pub block_size : ℕ → ℕ → ℕ
  pub place : Memory → ℕ → ℕ → ℕ → ℕ → ℕ × Memory

-- A payload placed in a block of `size` bytes at `base`: it lies in the block, aligned from the
-- block's start, and `place` wrote neither to it nor outside the block.
pub record Placed (m : Memory) (base size payload align : ℕ) (r : ℕ × Memory) : Type 0 where
  pub inside : r.0 + payload ≤ size
  pub in_word : size < 2 ^ 64
  pub aligned : r.0 % align ≡ 0
  pub payload_kept : (j : ℕ) → r.0 ≤ j → j < r.0 + payload → r.1 (base + j) ≡ m (base + j)
  pub outside_kept : (i : ℕ) → (i < base) ⊎ (base + size ≤ i) → r.1 i ≡ m i

pub record IsLayout (l : LayoutPolicy) : Type 0 where
  pub places :
      (m : Memory) (base payload align : ℕ)
      → base ≢ 0
      → IsAlignment align
      → payload < 2 ^ 64
      → payload ≤ l.block_size payload align
      → Placed m base
          (l.block_size payload align)
          payload
          align
          (l.place m base (l.block_size payload align) payload align)

abbrev pub normal_layout : LayoutPolicy
normal_layout = record {
  block_size = Normal.block_size;
  place = λ m base size payload align.
      let r = Normal.place m base payload align in (r.0.user_data, r.1);
}

abbrev pub static_layout : LayoutPolicy
static_layout = record {
  block_size = Static.block_size;
  place = λ m base size payload align.
      let r = Static.place m base size payload align in (r.0.user_data, r.1);
}

abbrev pub enhanced_layout : LayoutPolicy
enhanced_layout = record {
  block_size = Enhanced.block_size;
  place = λ m base size payload align.
      let r = Enhanced.place m base size payload align in (r.0.user_data, r.1);
}

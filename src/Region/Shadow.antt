-- ===== src/Region/Shadow.antt =====
-- `_contains` and `_setShadow` of src/Public/Region.h: one bit of the shadow map for each byte of the
-- region. The shadow map is memory of its own; a byte of it is a number below 256.
pub mod Bits
pub mod Marks
pub mod Loop
pub mod Poison
pub mod Map
use kerbecs.Common.{
  ℕ, zero, suc, ◌+◌, ◌-◌, ◌*◌, ◌/◌, ◌%◌, ◌^◌, min, Bool, true, false, not, ◌&&◌, ◌||◌,
  if◌then◌else◌, ltb, leb, ◌==◌, Option, none, some, bit_and, bit_or, sub_word,
}
use kerbecs.Layout.Pattern.{Memory}
use kerbecs.Memory.Pages.{System, commit_page_if_needed, is_committed}

abbrev pub shadow_scale : ℕ
shadow_scale = 3

-- `address - base` is read only where `base ≤ address`.
unfoldable pub contains : ℕ → ℕ → ℕ → ℕ → Bool
contains base region_size address size =
    if (base == 0) || (address == 0) || (size == 0)
    then false
    else leb base address
      && (leb (address - base) region_size && leb size (region_size - (address - base)))

-- Bit `bit` of a shadow byte, set or cleared.
unfoldable pub mark_bit : Bool → ℕ → ℕ → ℕ
mark_bit true byte bit = bit_or byte (2 ^ bit % 256)
mark_bit false byte bit = bit_and byte (255 - 2 ^ bit % 256)

-- The loop over the bits of one shadow byte.
unfoldable pub mark_bits : Bool → ℕ → ℕ → ℕ → ℕ
unfolding mark_bit
mark_bits poisoned byte bit zero = byte
mark_bits poisoned byte bit (suc left) =
    mark_bits poisoned (mark_bit poisoned byte bit) (bit + 1) left

abbrev pub store : Memory → ℕ → ℕ → Memory
store m p byte a = if a == p then byte else m a

module _ {S : Type 0} (sys : System S) where
  -- The rest of a round that poisons, from the answer of `commitPageIfNeeded` on.
  unfoldable pub after_commit :
      Option (Bool × S) → Memory → (S → Option (Bool × S × Memory)) → Option (Bool × S × Memory)
  after_commit none m next = none
  after_commit (some (false, s)) m next = some (false, s, m)
  after_commit (some (true, s)) m next = next s

  -- The loop at `user_offset`, with `remaining` bytes to go and at most `fuel` rounds.
  unfoldable pub set_shadow_loop : ℕ → Bool → ℕ → ℕ → ℕ → S → Memory → Option (Bool × S × Memory)
  unfolding mark_bits after_commit
  set_shadow_loop zero poisoned base offset remaining s m =
      if remaining == 0 then some (true, s, m) else none
  set_shadow_loop (suc fuel) poisoned base offset remaining s m =
      let byte = base + offset / 2 ^ shadow_scale in
      let bit = offset % 2 ^ shadow_scale in
      let span = min remaining (2 ^ shadow_scale - bit) in
      let marked = store m byte (mark_bits poisoned (m byte) bit span) in
      let next = λ (s' : S) (m' : Memory).
        set_shadow_loop fuel poisoned base (offset + span) (remaining - span) s' m' in
      let round =
        if poisoned
        then after_commit (commit_page_if_needed sys s byte) m (λ s'. next s' marked)
        else if is_committed sys s byte
        then next s marked
        else next s m in
      if remaining == 0 then some (true, s, m) else round

  -- `_setShadow` of a region's base and size, with its shadow map at `shadow_base`.
  unfoldable pub set_shadow : ℕ → ℕ → ℕ → ℕ → ℕ → Bool → S → Memory → Option (Bool × S × Memory)
  unfolding contains set_shadow_loop
  set_shadow region_base region_size shadow_base address size poisoned s m =
      if not (contains region_base region_size address size) || (shadow_base == 0)
      then some (false, s, m)
      else set_shadow_loop size poisoned shadow_base (address - region_base) size s m

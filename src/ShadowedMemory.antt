-- ===== src/ShadowedMemory.antt =====
-- The handle `ShadowedMemory<T>` of src/Public/ShadowedMemory.h. Addresses are numbers, 0 for null;
-- `AccessInfo` (src/Public/KerbecsRuntime.h) is read through a function of its address, memory
-- through a function of bytes. The thread's id and time stamp of a violation are arguments.
pub mod Access
pub mod States
use kerbecs.Common.{
  ℕ, zero, suc, ◌+◌, ◌-◌, ◌*◌, ◌^◌, Bool, true, false, not, ◌&&◌, ◌||◌, if◌then◌else◌, ltb, ◌==◌,
  add_word, sub_word, ℤ, pos, negsuc,
}
use kerbecs.Stats.{KerbecsStats, stats_on_violation}
use kerbecs.Violation.{
  ViolationKind, use_after_free, buffer_overflow, ViolationStack, push_violation, make_violation,
}
use kerbecs.Layout.Pattern.{Memory, poisoned, verify_tombstone}

pub record AccessInfo : Type 0 where
  pub user_size : ℕ
  pub generation : ℕ

pub record Handle : Type 0 where
  pub meta_ptr : ℕ
  pub payload_ptr : ℕ
  pub shadow_ptr : ℕ
  pub generation : ℕ

abbrev pub null_handle : Handle
null_handle = record { meta_ptr = 0; payload_ptr = 0; shadow_ptr = 0; generation = 0 }

-- What a failed check writes: the runtime's statistics and the thread's stack of violations.
pub record Monitor : Type 0 where
  pub stats : KerbecsStats
  pub violations : ViolationStack

pub record Clock : Type 0 where
  pub thread : ℕ
  pub stamp : ℕ

unfoldable pub report : ViolationKind → ℕ → ℕ → ℕ → Clock → Monitor → Monitor
report kind address base size c m = record {
  stats = stats_on_violation m.stats;
  violations = push_violation m.violations (make_violation kind address base size c.thread c.stamp);
}

-- `operator==`
unfoldable pub same_handle : Handle → Handle → Bool
same_handle a b = (a.payload_ptr == b.payload_ptr) && (a.generation == b.generation)

-- `_check`, which runs before every dereference: true where it goes on, false where it traps.
unfoldable pub check : (ℕ → AccessInfo) → Handle → Clock → Monitor → Bool × Monitor
unfolding report
check infos h c m =
    if (h.payload_ptr == 0) || (h.meta_ptr == 0)
    then (true, m)
    else if not ((infos h.meta_ptr).generation == h.generation)
    then (false, report use_after_free h.payload_ptr h.payload_ptr 0 c m)
    else (true, m)

-- `operator+` by a byte offset that is not negative.
unfoldable pub offset_up : ℕ → AccessInfo → Handle → ℕ → Clock → Monitor → Handle × Monitor
unfolding report
offset_up type_size info h bytes c m =
    if ltb info.user_size (bytes + type_size)
    then (
      null_handle,
      report buffer_overflow (add_word h.payload_ptr bytes) h.payload_ptr info.user_size c m,
    )
    else (record h { payload_ptr = add_word h.payload_ptr bytes }, m)

-- `operator+`, for products that `ptrdiff_t` holds: signed overflow is undefined in the source.
unfoldable pub offset : ℕ → (ℕ → AccessInfo) → Handle → ℤ → Clock → Monitor → Handle × Monitor
unfolding report offset_up
offset type_size infos h (pos n) c m =
    if (h.payload_ptr == 0) || (h.meta_ptr == 0)
    then (null_handle, m)
    else offset_up type_size (infos h.meta_ptr) h (n * type_size) c m
offset type_size infos h (negsuc n) c m =
    if (h.payload_ptr == 0) || (h.meta_ptr == 0) then (null_handle, m) else (
      null_handle,
      report buffer_overflow (sub_word h.payload_ptr (suc n * type_size)) h.payload_ptr
          (infos h.meta_ptr).user_size c m,
    )

pub data MemoryState : Type 0 where
  uninitialized constructed destroyed corrupted : MemoryState

-- The loop of `shadowStateOf` at byte `i`, with `left` bytes to go.
unfoldable pub count_poisoned : Memory → ℕ → ℕ → ℕ → ℕ
count_poisoned mem p i zero = 0
count_poisoned mem p i (suc left) =
    let rest = count_poisoned mem p (i + 1) left in
    if mem (p + i) == poisoned then suc rest else rest

unfoldable pub shadow_state_of : Memory → Handle → ℕ → MemoryState
unfolding count_poisoned
shadow_state_of mem h size =
    let n = count_poisoned mem h.payload_ptr 0 size in
    if h.payload_ptr == 0
    then corrupted
    else if n == size
    then uninitialized
    else if ltb 0 n && ltb n size
    then corrupted
    else if verify_tombstone mem h.payload_ptr size
    then destroyed
    else constructed

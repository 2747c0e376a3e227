-- ===== src/Violation.antt =====
-- src/Public/Violation.h and src/Private/Violation.cpp: the thread-local stack of violations.
-- An address or a name is a number, 0 for the null pointer. The thread's id and the time stamp
-- that `makeViolation` reads from the machine are arguments.
pub mod Stack
use kerbecs.Common.{
  ℕ, ◌+◌, ◌-◌, ◌%◌, Bool, true, false, List, get_or, set, replicate, if◌then◌else◌, ltb, ◌==◌,
}

pub data ViolationKind : Type 0 where
  double_free use_after_free use_before_init buffer_overflow overlap_detected : ViolationKind
  leak_detected metadata_corruption alignment_violation size_overflow wild_pointer : ViolationKind
  thread_ownership quarantine_saturation retired_boundary_violation : ViolationKind
  undefined_wild_pointer_access engine_memory_access_violation no_violation : ViolationKind

pub record Violation : Type 0 where
  pub kind : ViolationKind
  pub name : ℕ
  pub address : ℕ
  pub block_base : ℕ
  pub block_size : ℕ
  pub timestamp : ℕ
  pub thread_id : ℕ

abbrev pub blank_violation : Violation
blank_violation = record {
  kind = no_violation;
  name = 0;
  address = 0;
  block_base = 0;
  block_size = 0;
  timestamp = 0;
  thread_id = 0;
}

abbrev pub violation_stack_capacity : ℕ
violation_stack_capacity = 32

-- `this_thread::ViolationStack`; the array has `violation_stack_capacity` entries.
pub record ViolationStack : Type 0 where
  pub entries : List Violation
  pub top : ℕ
  pub count : ℕ

unfoldable pub empty_stack : ViolationStack
empty_stack = record {
  entries = replicate violation_stack_capacity blank_violation;
  top = 0;
  count = 0;
}

unfoldable pub push_violation : ViolationStack → Violation → ViolationStack
push_violation s v = record {
  entries = set s.entries s.top v;
  top = (s.top + 1) % violation_stack_capacity;
  count = if ltb s.count violation_stack_capacity then s.count + 1 else s.count;
}

-- The result, what `r_Out` holds afterwards, and the stack.
unfoldable pub pop_violation : ViolationStack → Violation → Bool × Violation × ViolationStack
pop_violation s out =
    let top = (s.top + violation_stack_capacity - 1) % violation_stack_capacity in
    if s.count == 0
    then (false, out, s)
    else (true, get_or s.entries top blank_violation, record s { top = top; count = s.count - 1 })

-- `v_Kind`, `p_Address`, `p_BlockBase`, `v_BlockSize`, then the thread's id and `__rdtsc()`.
unfoldable pub make_violation : ViolationKind → ℕ → ℕ → ℕ → ℕ → ℕ → Violation
make_violation kind address block_base block_size thread_id timestamp = record {
  kind = kind;
  name = 0;
  address = address;
  block_base = block_base;
  block_size = block_size;
  timestamp = timestamp;
  thread_id = thread_id;
}

-- ===== src/Registry/Node.antt =====
-- src/Public/RegistryUtils.h: a node of the registry, its states and its lock.
use kerbecs.Common.{ℕ, ◌*◌, ◌%◌, ◌/◌, ◌^◌, Bool, true, false, not, Option, none}

pub data AllocationState : Type 0 where
  empty live retiring quarantine dead : AllocationState

abbrev pub state_eq : AllocationState → AllocationState → Bool
state_eq AllocationState.empty AllocationState.empty = true
state_eq AllocationState.live AllocationState.live = true
state_eq AllocationState.retiring AllocationState.retiring = true
state_eq AllocationState.quarantine AllocationState.quarantine = true
state_eq AllocationState.dead AllocationState.dead = true
state_eq _ _ = false

-- What the loops of `find` ask: the state is neither `Dead` nor `Empty`.
abbrev pub is_tracked : AllocationState → Bool
is_tracked AllocationState.empty = false
is_tracked AllocationState.dead = false
is_tracked AllocationState.live = true
is_tracked AllocationState.retiring = true
is_tracked AllocationState.quarantine = true

-- `Shadow::Utils::ThreadPolicy`
pub data ThreadPolicy : Type 0 where
  strict flexible : ThreadPolicy

abbrev pub is_strict : ThreadPolicy → Bool
is_strict strict = true
is_strict flexible = false

-- A `SpinLock` is its flag. `tryLock` gives whether the lock was taken, and the flag.
abbrev pub try_lock : Bool → Bool × Bool
try_lock flag = (not flag, true)

abbrev pub unlock : Bool → Bool
unlock flag = false

pub record RegistryNode : Type 0 where
  pub block_base : ℕ
  pub user_ptr : ℕ
  pub block_size : ℕ
  pub user_size : ℕ
  pub allocator_id : ℕ
  pub name : ℕ
  pub thread_id : ℕ
  pub state : AllocationState
  pub live_count : ℕ
  pub dtor_lock : Bool
  pub next : Option ℕ
  pub generation : ℕ

-- A node as `memset` leaves it.
abbrev pub blank_node : RegistryNode
blank_node = record {
  block_base = 0;
  user_ptr = 0;
  block_size = 0;
  user_size = 0;
  allocator_id = 0;
  name = 0;
  thread_id = 0;
  state = AllocationState.empty;
  live_count = 0;
  dtor_lock = false;
  next = none;
  generation = 0;
}

-- `currentThreadID`, from the address of the thread's anchor.
unfoldable pub current_thread_id : ℕ → ℕ
current_thread_id anchor = anchor * 0x9e3779b97f4a7c15 % 2 ^ 64 / 2 ^ 32 % 2 ^ 32

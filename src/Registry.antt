-- ===== src/Registry.antt =====
-- src/Public/RegistryUtils.h, src/Public/AllocationRegistry.h and
-- src/Private/AllocationRegistry.cpp: the registry of one region's blocks.
-- A node is named by its index in the pool, and `none` is the null pointer between nodes. A bucket
-- lock is free again when its operation returns; one operation is one step of the model.
pub mod Node
pub mod Chain
pub mod Find
pub mod Invariant
pub mod Lookup
pub mod Retiring
pub mod Link
pub mod Insert
pub mod Outcome
pub mod Generation
pub mod Edges
pub mod History
pub mod Exclusion
pub mod Destruction
use kerbecs.Common.{
  ℕ, zero, suc, ◌+◌, ◌-◌, ◌*◌, ◌/◌, ◌^◌, ◌>>>◌, bit_and, Bool, true, false, not, ◌&&◌, ◌||◌, Option,
  none, some, List, [], ◌∷◌, get_or, set, replicate, if◌then◌else◌, ltb, leb, ◌==◌, add_word,
  sub_word, mul_word,
}
use kerbecs.Stats.{KerbecsStats, stats_on_init}
use Node.{
  AllocationState, RegistryNode, blank_node, state_eq, is_tracked, try_lock, unlock, ThreadPolicy,
  is_strict,
}

abbrev pub bucket_count : ℕ
bucket_count = 2048

-- An empty `node_pool` is the null `m_NodePool`.
pub record AllocationRegistry : Type 0 where
  pub buckets : ℕ → Option ℕ
  pub node_capacity : ℕ
  pub node_cursor : ℕ
  pub count : ℕ
  pub node_pool : List RegistryNode

abbrev pub node_at : List RegistryNode → ℕ → RegistryNode
node_at pool i = get_or pool i blank_node

-- `_index`
unfoldable pub bucket_index : ℕ → ℕ
bucket_index p = bit_and (mul_word (p >>> 6) 0x9e3779b97f4a7c15) (bucket_count - 1)

abbrev pub create : ℕ → AllocationRegistry
create capacity = record {
  buckets = λ _. none;
  node_capacity = capacity;
  node_cursor = 0;
  count = 0;
  node_pool = [];
}

-- `sizeof(RegistryNode)`: two lines of 128 bytes.
abbrev pub node_bytes : ℕ
node_bytes = 256

-- `granted` says whether `Memory::allocate` gave the pool. The bytes that are asked for wrap to `size_t`; the pool
-- is the nodes that lie whole in them, whatever the capacity says.
unfoldable pub init : Bool → AllocationRegistry → Bool × AllocationRegistry
init granted r =
    if r.node_capacity == 0
    then (false, r)
    else if granted
    then (
      true,
      record r {
        node_pool = replicate (mul_word r.node_capacity node_bytes / node_bytes) blank_node;
        node_cursor = 0;
        count = 0;
      },
    )
    else (false, record r { node_pool = [] })

unfoldable pub shutdown : AllocationRegistry → AllocationRegistry
shutdown r = record r { node_pool = []; node_cursor = 0; count = 0 }

-- `_allocateNode`: the cursor moves also where the pool is used up.
unfoldable pub allocate_node : AllocationRegistry → Option ℕ × AllocationRegistry
allocate_node r =
    let moved = record r { node_cursor = add_word r.node_cursor 1 } in
    if leb r.node_capacity r.node_cursor then (none, moved) else (some r.node_cursor, moved)

-- The nodes that a `while (node)` loop visits from `cur` on, in order. The fuel is the number of
-- nodes in the pool.
unfoldable pub chain : List RegistryNode → ℕ → Option ℕ → List ℕ
chain pool fuel none = []
chain pool zero (some i) = []
chain pool (suc fuel) (some i) = i ∷ chain pool fuel (node_at pool i).next

abbrev pub chain_of : AllocationRegistry → ℕ → List ℕ
chain_of r p = chain r.node_pool r.node_capacity (r.buckets (bucket_index p))

-- The first loop of `insert`: `none` where the base is taken, else the next generation.
unfoldable pub next_generation : List RegistryNode → ℕ → List ℕ → ℕ → Option ℕ
next_generation pool base [] generation = some generation
next_generation pool base (i ∷ is) generation =
    let node = node_at pool i in
    let bumped = add_word node.generation 1 in
    let rest =
      next_generation pool base is
        (if (node.block_base == base) && ltb generation bumped then bumped else generation) in
    if (node.block_base == base) && not (state_eq node.state AllocationState.dead)
    then none
    else rest

-- The parameters of `insert`.
pub record Allocation : Type 0 where
  pub block_base : ℕ
  pub user_ptr : ℕ
  pub block_size : ℕ
  pub user_size : ℕ
  pub allocator_id : ℕ
  pub thread_id : ℕ
  pub name : ℕ
  pub object_count : ℕ

-- The stores into the new node; the lock is not touched.
abbrev pub filled : RegistryNode → Allocation → ℕ → Option ℕ → RegistryNode
filled node a generation next = record node {
  generation = generation;
  block_base = a.block_base;
  user_ptr = a.user_ptr;
  block_size = a.block_size;
  user_size = a.user_size;
  allocator_id = a.allocator_id;
  thread_id = a.thread_id;
  name = a.name;
  live_count = a.object_count;
  state = AllocationState.live;
  next = next;
}

abbrev pub set_bucket : (ℕ → Option ℕ) → ℕ → Option ℕ → ℕ → Option ℕ
set_bucket buckets b head c = if b == c then head else buckets c

-- The part of `insert` behind the scan: take a node, fill it, and push it on the bucket.
unfoldable pub link_node :
    Allocation → ℕ → Option ℕ × AllocationRegistry → Bool × AllocationRegistry
link_node a generation (none, r) = (false, r)
link_node a generation (some i, r) =
    let b = bucket_index a.block_base in
    (
      true,
      record r {
        node_pool = set r.node_pool i (filled (node_at r.node_pool i) a generation (r.buckets b));
        buckets = set_bucket r.buckets b (some i);
        count = add_word r.count 1;
      },
    )

unfoldable pub link : AllocationRegistry → Allocation → ℕ → Bool × AllocationRegistry
unfolding link_node
link r a generation = link_node a generation (allocate_node r)

-- A block that was linked is reported to the counters.
unfoldable pub report_insert :
    Allocation → KerbecsStats → Bool × AllocationRegistry → Bool × AllocationRegistry × KerbecsStats
report_insert a st (true, r) = (true, r, stats_on_init a.block_size st)
report_insert a st (false, r) = (false, r, st)

unfoldable pub insert_scanned :
    AllocationRegistry
    → KerbecsStats
    → Allocation
    → Option ℕ
    → Bool × AllocationRegistry × KerbecsStats
unfolding report_insert
insert_scanned r st a none = (false, r, st)
insert_scanned r st a (some generation) = report_insert a st (link r a generation)

unfoldable pub insert :
    AllocationRegistry → KerbecsStats → Allocation → Bool × AllocationRegistry × KerbecsStats
unfolding insert_scanned
insert r st a =
    if a.block_base == 0
    then (false, r, st)
    else insert_scanned r st a
        (next_generation r.node_pool a.block_base (chain_of r a.block_base) 1)

unfoldable pub find_in : List RegistryNode → ℕ → List ℕ → Option ℕ
find_in pool base [] = none
find_in pool base (i ∷ is) =
    let node = node_at pool i in
    let rest = find_in pool base is in
    if is_tracked node.state && (node.block_base == base) then some i else rest

unfoldable pub find : AllocationRegistry → ℕ → Option ℕ
find r base = if base == 0 then none else find_in r.node_pool base (chain_of r base)

unfoldable pub find_range_in : List RegistryNode → ℕ → ℕ → List ℕ → Option ℕ
find_range_in pool base addr [] = none
find_range_in pool base addr (i ∷ is) =
    let node = node_at pool i in
    let rest = find_range_in pool base addr is in
    if is_tracked node.state
      && (node.block_base == base)
      && (leb node.user_ptr addr && ltb (addr - node.user_ptr) node.user_size)
    then some i
    else rest

-- `addr - start` is taken only where `start ≤ addr`, so it does not wrap.
unfoldable pub find_range : AllocationRegistry → ℕ → ℕ → Option ℕ
find_range r base addr =
    if (base == 0) || (addr == 0)
    then none
    else find_range_in r.node_pool base addr (chain_of r base)

abbrev pub modify : AllocationRegistry → ℕ → RegistryNode → AllocationRegistry
modify r i node = record r { node_pool = set r.node_pool i node }

-- `m_LiveCount.fetch_sub(1)` of a caller of `beginRetiring`, on its node.
abbrev pub drop_object : AllocationRegistry → ℕ → AllocationRegistry
drop_object reg i =
    let node = node_at reg.node_pool i in
    modify reg i (record node { live_count = sub_word node.live_count 1 })

-- What `beginRetiring` does to the node that it found: whether the caller may destroy, and the node.
unfoldable pub begin_node : RegistryNode → ℕ → ThreadPolicy → Bool × RegistryNode
begin_node node caller policy =
    let (acquired, flag) = try_lock node.dtor_lock in
    if is_strict policy && not (caller == node.thread_id)
    then (false, node)
    else if not acquired
    then (false, record node { dtor_lock = flag })
    else if state_eq node.state AllocationState.live
    then (true, record node { dtor_lock = flag; state = AllocationState.retiring })
    else (false, record node { dtor_lock = unlock flag })

unfoldable pub begin_retiring :
    AllocationRegistry → ℕ → ℕ → ThreadPolicy → Option ℕ × AllocationRegistry
begin_retiring r base caller policy = elim (find r base) [
  | none ↦ (none, r)
  | some i ↦
      let (done, node) = begin_node (node_at r.node_pool i) caller policy in
      (if done then some i else none, modify r i node)
]

-- What `endRetiring` does to the node that it found: whether the block is to enter the quarantine,
-- and the node.
unfoldable pub settle_node : RegistryNode → Bool × RegistryNode
settle_node node =
    let retiring = state_eq node.state AllocationState.retiring in
    if ltb 0 node.live_count
    then (
      false,
      record node {
        state = if retiring then AllocationState.live else node.state;
        dtor_lock = unlock node.dtor_lock;
      },
    )
    else if retiring
    then (
      true,
      record node { state = AllocationState.quarantine; dtor_lock = unlock node.dtor_lock },
    )
    else (false, record node { dtor_lock = unlock node.dtor_lock })

-- `endRetiring` up to its call of the quarantine: the node to enqueue, if there is one.
unfoldable pub settle : AllocationRegistry → ℕ → Option ℕ × AllocationRegistry
settle r base = elim (find r base) [
  | none ↦ (none, r)
  | some i ↦
      let (entered, node) = settle_node (node_at r.node_pool i) in
      (
        if entered then some i else none,
        record (modify r i node) { count = if entered then sub_word r.count 1 else r.count },
      )
]

unfoldable pub retire_node : RegistryNode → Bool × RegistryNode
retire_node node =
    if state_eq node.state AllocationState.quarantine
    then (true, record node { state = AllocationState.dead })
    else (false, node)

unfoldable pub retire : AllocationRegistry → ℕ → Bool × AllocationRegistry
retire r base = elim (find r base) [
  | none ↦ (false, r)
  | some i ↦ let (done, node) = retire_node (node_at r.node_pool i) in (done, modify r i node)
]

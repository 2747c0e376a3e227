-- ===== src/Registry/Link.antt =====
-- A registry that `init` has just filled, and the step of `insert` that links a node.
use kerbecs.Common.{
  ℕ, zero, suc, ◌-◌, ◌≤◌, ◌<◌, ◌^◌, min, ◌≡◌, refl, sym, ap, ◌∙◌, arith, true, false, none, some,
  List, ◌∷◌, set, get_or-replicate, length-replicate, replicate, ◌==◌, leb, add_word, mul_word, ◌/◌,
}
use kerbecs.Registry.{
  AllocationRegistry, Allocation, node_at, chain, bucket_index, node_bytes, create, init,
  allocate_node, filled, set_bucket, link_node, link,
}
use kerbecs.Registry.Node.{RegistryNode, AllocationState, state_eq, blank_node}
use kerbecs.Registry.Invariant.{IsValid, live_nodes, used}

live_nodes-replicate : (n : ℕ) → live_nodes (replicate n blank_node) ≡ 0
live_nodes-replicate zero = refl
live_nodes-replicate (suc n) = omega (arith, live_nodes-replicate n)

granted-IsValid :
    (capacity n : ℕ)
    → n ≡ capacity
    → capacity < 2 ^ 56
    → IsValid (record (create capacity) {
      node_pool = replicate n blank_node;
      node_cursor = 0;
      count = 0;
    })
granted-IsValid capacity n whole small = record {
  storage = length-replicate n blank_node ∙ whole;
  capacity_in = omega arith;
  heads = λ b i e. absurd (cc);
  nexts = λ i j l e. absurd (omega arith);
  linked = λ i l. absurd (omega arith);
  fresh = λ i l. get_or-replicate n blank_node i;
  superseded = λ i j l m e. absurd (omega arith);
  small = λ i l. absurd (omega arith);
  present = λ i l. absurd (omega arith);
  locks = λ i.
      ap (λ (x : RegistryNode). x.dtor_lock) (get_or-replicate n blank_node i)
      ∙ sym (
          ap (λ (x : RegistryNode). state_eq x.state AllocationState.retiring)
            (get_or-replicate n blank_node i));
  counted = sym (live_nodes-replicate n);
}

-- A registry whose pool was granted starts well-formed and empty, where the pool's bytes do not wrap.
pub init-IsValid :
    (capacity : ℕ)
    → 0 < capacity
    → capacity < 2 ^ 56
    → ((init true (create capacity)).0 ≡ true) × IsValid (init true (create capacity)).1
unfolding init
init-IsValid capacity pos small =
    let nonzero : (capacity == 0) ≡ false = ground arith in
    rw nonzero (
      refl,
      granted-IsValid capacity (mul_word capacity node_bytes / node_bytes) (omega arith) small,
    )

-- The registry once node `node_cursor` is filled and pushed on its bucket.
abbrev pub linked_to : AllocationRegistry → Allocation → ℕ → AllocationRegistry
linked_to r a g =
    let k = r.node_cursor in
    let b = bucket_index a.block_base in
    record r {
      node_pool = set r.node_pool k (filled (node_at r.node_pool k) a g (r.buckets b));
      buckets = set_bucket r.buckets b (some k);
      node_cursor = add_word k 1;
      count = add_word r.count 1;
    }

allocate_node-room :
    (r : AllocationRegistry)
    → r.node_cursor < r.node_capacity
    → allocate_node r ≡ (some r.node_cursor, record r { node_cursor = add_word r.node_cursor 1 })
unfolding allocate_node
allocate_node-room r h = rw has_room
  where
    has_room : leb r.node_capacity r.node_cursor ≡ false
    has_room = ground arith

allocate_node_full :
    (r : AllocationRegistry)
    → r.node_capacity ≤ r.node_cursor
    → allocate_node r ≡ (none, record r { node_cursor = add_word r.node_cursor 1 })
unfolding allocate_node
allocate_node_full r h = rw no_room
  where
    no_room : leb r.node_capacity r.node_cursor ≡ true
    no_room = ground arith

pub link-linked_to :
    (r : AllocationRegistry) (a : Allocation) (g : ℕ)
    → r.node_cursor < r.node_capacity
    → link r a g ≡ (true, linked_to r a g)
unfolding link
link-linked_to r a g h = ap (link_node a g) (allocate_node-room r h)

pub link_full :
    (r : AllocationRegistry) (a : Allocation) (g : ℕ)
    → r.node_capacity ≤ r.node_cursor
    → link r a g ≡ (false, record r { node_cursor = add_word r.node_cursor 1 })
unfolding link
link_full r a g h = ap (link_node a g) (allocate_node_full r h)

pub cursor-IsValid :
    (r : AllocationRegistry) (c : ℕ)
    → IsValid r
    → r.node_capacity ≤ r.node_cursor
    → r.node_capacity ≤ c
    → IsValid (record r { node_cursor = c })
cursor-IsValid r c w h l =
    let same : min c r.node_capacity ≡ used r = omega arith in
    record {
      storage = w.storage;
      capacity_in = w.capacity_in;
      heads = λ b i e. rw same (w.heads b i e);
      nexts = λ i j u e. w.nexts i j (omega arith) e;
      linked = λ i u. w.linked i (omega arith);
      fresh = λ i u. w.fresh i (omega arith);
      superseded = λ i j u v e. w.superseded i j u (omega arith) e;
      small = λ i u. w.small i (omega arith);
      present = λ i u. w.present i (omega arith);
      locks = w.locks;
      counted = w.counted;
    }

pub chain-some :
    (pool : List RegistryNode) (f k : ℕ)
    → 0 < f
    → chain pool f (some k) ≡ k ∷ chain pool (f - 1) (node_at pool k).next
unfolding chain
chain-some pool zero k h = absurd (omega arith)
chain-some pool (suc f) k h =
    ap (λ (t : ℕ). k ∷ chain pool t (node_at pool k).next) {x = f} {y = suc f - 1} (omega arith)

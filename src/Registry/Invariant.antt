-- ===== src/Registry/Invariant.antt =====
-- When a registry is well-formed, and that a change of one node's state keeps it so.
use mathlib.Core.Path.{subst}
use kerbecs.Common.{
  ℕ, zero, suc, ◌+◌, ◌≤◌, ◌<◌, ◌^◌, min, ◌≡◌, sym, ◌∙◌, ◌≢◌, arith, true, false, some, List, [],
  ◌∷◌, length, set, length-set, get_or-set_self, get_or-set_ne,
}
use native.Mathlib.Decide.{ℕ_discrete}
use kerbecs.Registry.{AllocationRegistry, node_at, chain_of, modify, bucket_index}
use kerbecs.Registry.Node.{RegistryNode, AllocationState, blank_node, state_eq}
use kerbecs.Registry.Chain.{field-set, chain-set_next}
use kerbecs.Common.{IsIn}

-- What a node adds to `m_Count`.
abbrev pub weight : AllocationState → ℕ
weight AllocationState.empty = 0
weight AllocationState.live = 1
weight AllocationState.retiring = 1
weight AllocationState.quarantine = 0
weight AllocationState.dead = 0

abbrev pub live_nodes : List RegistryNode → ℕ
live_nodes [] = 0
live_nodes (n ∷ ns) = weight n.state + live_nodes ns

pub live_nodes-set :
    (pool : List RegistryNode) (i : ℕ) (v : RegistryNode)
    → i < length pool
    → live_nodes (set pool i v) + weight (node_at pool i).state ≡ live_nodes pool + weight v.state
live_nodes-set [] i v h = absurd (omega arith)
live_nodes-set (n ∷ ns) zero v h = omega arith
live_nodes-set (n ∷ ns) (suc i) v h = omega (arith, live_nodes-set ns i v (omega arith))

-- The nodes that were handed out.
abbrev pub used : AllocationRegistry → ℕ
used r = min r.node_cursor r.node_capacity

abbrev pub base_of : AllocationRegistry → ℕ → ℕ
base_of r i = (node_at r.node_pool i).block_base

abbrev pub state_of : AllocationRegistry → ℕ → AllocationState
state_of r i = (node_at r.node_pool i).state

abbrev pub generation_of : AllocationRegistry → ℕ → ℕ
generation_of r i = (node_at r.node_pool i).generation

pub record IsValid (r : AllocationRegistry) : Type 0 where
  pub storage : length r.node_pool ≡ r.node_capacity
  pub capacity_in : r.node_capacity < 2 ^ 63
  -- The lists of the buckets go down through the nodes in use, and hold each of them.
  pub heads : (b i : ℕ) → r.buckets b ≡ some i → (i < used r) × (bucket_index (base_of r i) ≡ b)
  pub nexts :
      (i j : ℕ)
      → i < used r
      → (node_at r.node_pool i).next ≡ some j
      → (j < i) × (bucket_index (base_of r j) ≡ bucket_index (base_of r i))
  pub linked : (i : ℕ) → i < used r → IsIn i (chain_of r (base_of r i))
  pub fresh : (i : ℕ) → used r ≤ i → node_at r.node_pool i ≡ blank_node
  -- An older node of the same block is dead, and of a smaller generation.
  pub superseded :
      (i j : ℕ)
      → i < j
      → j < used r
      → base_of r i ≡ base_of r j
      → (state_eq (state_of r i) AllocationState.dead ≡ true)
        × (generation_of r i < generation_of r j)
  pub small : (i : ℕ) → i < used r → generation_of r i ≤ i + 1
  pub present :
      (i : ℕ)
      → i < used r
      → (state_eq (state_of r i) AllocationState.empty ≡ false) × (base_of r i ≢ 0)
  -- The destructor's lock is held while a node is retiring, and only then.
  pub locks :
      (i : ℕ) → (node_at r.node_pool i).dtor_lock ≡ state_eq (state_of r i) AllocationState.retiring
  pub counted : r.count ≡ live_nodes r.node_pool

-- What may change in a node: the state, but not out of `Dead` nor into `Empty`, with its lock.
pub record Keeps (old new : RegistryNode) : Type 0 where
  pub base : new.block_base ≡ old.block_base
  pub generation : new.generation ≡ old.generation
  pub next : new.next ≡ old.next
  pub dead :
      state_eq old.state AllocationState.dead ≡ true
      → state_eq new.state AllocationState.dead ≡ true
  pub filled : state_eq new.state AllocationState.empty ≡ false
  pub lock : new.dtor_lock ≡ state_eq new.state AllocationState.retiring

abbrev IsDead : RegistryNode → Type 0
IsDead n = state_eq n.state AllocationState.dead ≡ true

module _ (r : AllocationRegistry) (i : ℕ) (v : RegistryNode) (w : IsValid r) (h : i < used r)
    (k : Keeps (node_at r.node_pool i) v) where
  bases : (j : ℕ) → base_of (modify r i v) j ≡ base_of r j
  bases = field-set (λ n. n.block_base) r.node_pool i v k.base

  generations : (j : ℕ) → generation_of (modify r i v) j ≡ generation_of r j
  generations = field-set (λ n. n.generation) r.node_pool i v k.generation

  next_fields : (j : ℕ) → (node_at (set r.node_pool i v) j).next ≡ (node_at r.node_pool j).next
  next_fields = field-set (λ n. n.next) r.node_pool i v k.next

  at_self : node_at (set r.node_pool i v) i ≡ v
  at_self = get_or-set_self r.node_pool i v blank_node (omega (arith, w.storage))

  at_other : (j : ℕ) → i ≢ j → node_at (set r.node_pool i v) j ≡ node_at r.node_pool j
  at_other j ne = get_or-set_ne r.node_pool i j v blank_node ne

  -- A property of nodes that the new one has too holds of all of them.
  everywhere {ℓ} :
      (P : RegistryNode → Type ℓ)
      → P v
      → (j : ℕ) → P (node_at r.node_pool j)
      → P (node_at (set r.node_pool i v) j)
  everywhere P new j old = elim (ℕ_discrete i j) [
    | yes e ↦ rw (← e, at_self) new
    | no ne ↦ rw (at_other j ne) old
  ]

  stays_dead :
      (j : ℕ)
      → state_eq (state_of r j) AllocationState.dead ≡ true
      → state_eq (state_of (modify r i v) j) AllocationState.dead ≡ true
  stays_dead j d = elim (ℕ_discrete i j) [
    | yes e ↦
        subst (λ (x : ℕ). IsDead (node_at (set r.node_pool i v) x)) e
          (subst IsDead (sym at_self)
            (k.dead (subst (λ (x : ℕ). IsDead (node_at r.node_pool x)) (sym e) d)))
    | no ne ↦ subst IsDead (sym (at_other j ne)) d
  ]

  pub modify-IsValid :
      (c : ℕ)
      → c + weight (state_of r i) ≡ r.count + weight v.state
      → IsValid (record (modify r i v) { count = c })
  modify-IsValid c total = record {
    storage = length-set r.node_pool i v ∙ w.storage;
    capacity_in = w.capacity_in;
    heads = λ b j e. rw (bases j) (w.heads b j e);
    nexts = λ a j l e. rw (bases a, bases j) (w.nexts a j l (sym (next_fields a) ∙ e));
    linked = λ j l. rw (bases j, chain-set_next r.node_pool i v k.next) (w.linked j l);
    fresh = λ j l. at_other j (λ e. omega arith) ∙ w.fresh j l;
    superseded = λ a j l m e.
        let (d, g) = w.superseded a j l m (sym (bases a) ∙ e ∙ bases j) in
        (stays_dead a d, rw (generations a, generations j) g);
    small = λ j l. rw (generations j) (w.small j l);
    present = λ j l. (
      everywhere (λ n. state_eq n.state AllocationState.empty ≡ false) k.filled j (w.present j l).0,
      rw (bases j) (w.present j l).1,
    );
    locks = λ j.
        everywhere (λ n. n.dtor_lock ≡ state_eq n.state AllocationState.retiring) k.lock j
          (w.locks j);
    counted =
        omega (arith, total, w.counted, live_nodes-set r.node_pool i v (omega (arith, w.storage)));
  }

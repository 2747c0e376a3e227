-- ===== src/Registry/Retiring.antt =====
-- `beginRetiring`, `endRetiring` and `retire`: the states that a node goes through, and that the
-- registry stays well-formed.
use kerbecs.Common.{
  ℕ, zero, suc, ◌+◌, ◌≤◌, ◌<◌, ◌≡◌, ◌⊎◌, inl, inr, ◌↔◌, arith, true, some, List, [], ◌∷◌,
  Option-cases, length, if◌then◌else◌, sub_word,
}
use kerbecs.Registry.{
  AllocationRegistry, node_at, find, begin_node, begin_retiring, settle_node, settle, retire_node,
  retire,
}
use kerbecs.Registry.Node.{
  RegistryNode, AllocationState, ThreadPolicy, flexible, is_tracked, state_eq,
}
use kerbecs.Registry.Invariant.{IsValid, Keeps, weight, live_nodes, used, state_of, modify-IsValid}
use kerbecs.Registry.Lookup.{find_iff}

-- The life of a block.
pub data Edge (s t : AllocationState) : Type 0 where
  stay : s ≡ t → Edge s t
  birth : s ≡ AllocationState.empty → t ≡ AllocationState.live → Edge s t
  begin : s ≡ AllocationState.live → t ≡ AllocationState.retiring → Edge s t
  survive : s ≡ AllocationState.retiring → t ≡ AllocationState.live → Edge s t
  enter : s ≡ AllocationState.retiring → t ≡ AllocationState.quarantine → Edge s t
  die : s ≡ AllocationState.quarantine → t ≡ AllocationState.dead → Edge s t

abbrev pub IsTracked : RegistryNode → Type 0
IsTracked n =
    (is_tracked n.state ≡ true) × (n.dtor_lock ≡ state_eq n.state AllocationState.retiring)

begin_node-Keeps :
    (n : RegistryNode) (caller : ℕ) (policy : ThreadPolicy)
    → IsTracked n
    → Keeps n (begin_node n caller policy).1
unfolding begin_node
begin_node-Keeps n caller policy t = ground arith

begin_node-weight :
    (n : RegistryNode) (caller : ℕ) (policy : ThreadPolicy)
    → weight (begin_node n caller policy).1.state ≡ weight n.state
unfolding begin_node
begin_node-weight n caller policy = ground arith

begin_node-Edge :
    (n : RegistryNode) (caller : ℕ) (policy : ThreadPolicy)
    → ((begin_node n caller policy).1.state ≡ n.state)
      ⊎ ((n.state ≡ AllocationState.live)
          × ((begin_node n caller policy).1.state ≡ AllocationState.retiring))
unfolding begin_node
begin_node-Edge n caller policy = ground arith

settle_node-Keeps : (n : RegistryNode) → IsTracked n → Keeps n (settle_node n).1
unfolding settle_node
settle_node-Keeps n t = ground arith

settle_node-weight :
    (n : RegistryNode)
    → weight n.state ≡ weight (settle_node n).1.state + (if (settle_node n).0 then 1 else 0)
unfolding settle_node
settle_node-weight n = ground arith

retire_node-Keeps : (n : RegistryNode) → IsTracked n → Keeps n (retire_node n).1
unfolding retire_node
retire_node-Keeps n t = ground arith

retire_node-weight : (n : RegistryNode) → weight (retire_node n).1.state ≡ weight n.state
unfolding retire_node
retire_node-weight n = ground arith

-- The node that `find` gives is in use, tracked, and locked exactly if it is retiring.
pub found-IsTracked :
    (r : AllocationRegistry) (w : IsValid r) (base i : ℕ)
    → find r base ≡ some i
    → (i < used r) × IsTracked (node_at r.node_pool i)
found-IsTracked r w base i e = let (_, l, t, _) = (find_iff r w base i).0 e in (l, (t, w.locks i))

-- `beginRetiring` keeps a registry well-formed.
pub begin_retiring-IsValid :
    (r : AllocationRegistry) (base caller : ℕ) (policy : ThreadPolicy)
    → IsValid r
    → IsValid (begin_retiring r base caller policy).1
unfolding begin_retiring
begin_retiring-IsValid r base caller policy w = elim (Option-cases (find r base)) [
  | inl e ↦ rw (e, begin_retiring) w
  | inr (i, e) ↦
      let (l, t) = found-IsTracked r w base i e in
      let n = node_at r.node_pool i in
      rw (e, begin_retiring)
        (modify-IsValid r i (begin_node n caller policy).1 w l (begin_node-Keeps n caller policy t)
          r.count (omega (arith, begin_node-weight n caller policy)))
]

-- The live nodes are at least the one that is counted.
counted_one :
    (pool : List RegistryNode) (i : ℕ)
    → i < length pool
    → weight (node_at pool i).state ≤ live_nodes pool
counted_one [] i h = absurd (omega arith)
counted_one (n ∷ ns) zero h = omega arith
counted_one (n ∷ ns) (suc i) h = omega (arith, counted_one ns i (omega arith))

pub live_nodes-le-length : (pool : List RegistryNode) → live_nodes pool ≤ length pool
live_nodes-le-length [] = omega arith
live_nodes-le-length (n ∷ ns) = omega (arith, live_nodes-le-length ns, weight-le n.state)
  where
    weight-le : (s : AllocationState) → weight s ≤ 1
    weight-le s = ground arith

-- `endRetiring`, up to its call of the quarantine, keeps a registry well-formed.
pub settle-IsValid : (r : AllocationRegistry) (base : ℕ) → IsValid r → IsValid (settle r base).1
unfolding settle
settle-IsValid r base w = elim (Option-cases (find r base)) [
  | inl e ↦ rw (e, settle) w
  | inr (i, e) ↦
      let (l, t) = found-IsTracked r w base i e in
      let n = node_at r.node_pool i in
      rw (e, settle)
        (modify-IsValid r i (settle_node n).1 w l (settle_node-Keeps n t)
          (if (settle_node n).0 then sub_word r.count 1 else r.count)
          (ground (
            arith,
            settle_node-weight n,
            w.counted,
            w.storage,
            w.capacity_in,
            counted_one r.node_pool i,
            live_nodes-le-length r.node_pool,
          )))
]

-- `retire` keeps a registry well-formed.
pub retire-IsValid : (r : AllocationRegistry) (base : ℕ) → IsValid r → IsValid (retire r base).1
unfolding retire
retire-IsValid r base w = elim (Option-cases (find r base)) [
  | inl e ↦ rw (e, retire) w
  | inr (i, e) ↦
      let (l, t) = found-IsTracked r w base i e in
      let n = node_at r.node_pool i in
      rw (e, retire)
        (modify-IsValid r i (retire_node n).1 w l (retire_node-Keeps n t) r.count
          (omega (arith, retire_node-weight n)))
]

begin_node_iff :
    (n : RegistryNode) (caller : ℕ) (policy : ThreadPolicy)
    → IsTracked n
    → ((begin_node n caller policy).0 ≡ true)
      ↔ ((n.state ≡ AllocationState.live) × ((policy ≡ flexible) ⊎ (caller ≡ n.thread_id)))
unfolding begin_node
begin_node_iff n caller policy t = ground arith

-- In a well-formed registry `beginRetiring` succeeds exactly on the block's tracked node when it is live and the policy is
-- flexible or the caller allocated the block.
pub begin_retiring_iff :
    (r : AllocationRegistry) (base caller : ℕ) (policy : ThreadPolicy) (i : ℕ)
    → IsValid r
    → ((begin_retiring r base caller policy).0 ≡ some i) ↔ (
        (find r base ≡ some i)
        × (state_of r i ≡ AllocationState.live)
        × ((policy ≡ flexible) ⊎ (caller ≡ (node_at r.node_pool i).thread_id)))
unfolding begin_retiring
begin_retiring_iff r base caller policy i w = elim (Option-cases (find r base)) [
  | inl e ↦ rw (e, begin_retiring) ((λ p. cc), (λ p. absurd (cc)))
  | inr (j, e) ↦
      let (l, t) = found-IsTracked r w base j e in
      rw (e, begin_retiring)
        (ground (arith, begin_node_iff (node_at r.node_pool j) caller policy t))
]

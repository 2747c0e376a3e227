-- ===== src/Registry/Insert.antt =====
-- The registry after `insert` has linked a node.
use native.Mathlib.Decide.{ℕ_discrete, dec_lt}
use mathlib.Core.Path.{subst}
use kerbecs.Common.{
  ℕ, ◌+◌, ◌-◌, ◌≤◌, ◌<◌, ◌≡◌, refl, sym, ap, ◌∙◌, inl, inr, ◌≢◌, arith, true, false, some, ◌∷◌, set,
  length-set, get_or-set_self, get_or-set_ne, ◌==◌, add_word,
}
use kerbecs.Registry.{
  AllocationRegistry, Allocation, node_at, chain, chain_of, bucket_index, next_generation, filled,
}
use kerbecs.Registry.Node.{RegistryNode, AllocationState, blank_node, state_eq}
use kerbecs.Registry.Chain.{Below, Below-intro, Descends, chain_fuel, chain-set_above}
use kerbecs.Common.{IsIn}
use kerbecs.Registry.Find.{scan_dead, scan_upper}
use kerbecs.Registry.Invariant.{
  IsValid, weight, live_nodes, live_nodes-set, used, base_of, state_of, generation_of,
}
use kerbecs.Registry.Lookup.{visited}
use kerbecs.Registry.Retiring.{live_nodes-le-length}
use kerbecs.Registry.Link.{linked_to, chain-some}

module _ (r : AllocationRegistry) (a : Allocation) (g : ℕ) (w : IsValid r)
    (room : r.node_cursor < r.node_capacity) (nonnull : a.block_base ≢ 0)
    (scanned : next_generation r.node_pool a.block_base (chain_of r a.block_base) 1 ≡ some g) where
  abbrev pub slot : ℕ
  slot = r.node_cursor

  abbrev pub bucket : ℕ
  bucket = bucket_index a.block_base

  abbrev pub new_node : RegistryNode
  new_node = filled (node_at r.node_pool slot) a g (r.buckets bucket)

  pub at_slot : node_at (set r.node_pool slot new_node) slot ≡ new_node
  at_slot = get_or-set_self r.node_pool slot new_node blank_node (omega (arith, w.storage))

  below_slot :
      (i : ℕ) → i < slot → node_at (set r.node_pool slot new_node) i ≡ node_at r.node_pool i
  below_slot i l = get_or-set_ne r.node_pool slot i new_node blank_node (λ e. omega arith)

  used-slot : used r ≡ slot
  used-slot = omega arith

  descends : Descends r.node_pool slot
  descends i l = Below-intro i (node_at r.node_pool i).next (λ j e. (w.nexts i j (omega arith) e).0)

  head-Below : (b n : ℕ) → slot ≤ n → Below n (r.buckets b)
  head-Below b n l = Below-intro n (r.buckets b) (λ j e. omega (arith, (w.heads b j e).0))

  same_bucket :
      (p : ℕ) → bucket_index p ≡ bucket → chain_of (linked_to r a g) p ≡ slot ∷ chain_of r p
  same_bucket p e =
      rw (e, bucket_refl bucket)
        (chain-some (set r.node_pool slot new_node) r.node_capacity slot (omega arith)
          ∙ ap
              (λ (n : RegistryNode).
                slot ∷ chain (set r.node_pool slot new_node) (r.node_capacity - 1) n.next)
              at_slot
          ∙ ap (◌∷◌ slot) (
              chain-set_above r.node_pool slot new_node descends (r.node_capacity - 1)
                (r.buckets bucket) (head-Below bucket slot (omega arith))
              ∙ chain_fuel r.node_pool slot (r.node_capacity - 1) r.node_capacity (r.buckets bucket)
                  descends (head-Below bucket slot (omega arith))
                  (head-Below bucket (r.node_capacity - 1) (omega arith))
                  (head-Below bucket r.node_capacity (omega arith))))
    where
      bucket_refl : (b : ℕ) → (b == b) ≡ true
      bucket_refl b = ground arith

  other_bucket : (p : ℕ) → bucket_index p ≢ bucket → chain_of (linked_to r a g) p ≡ chain_of r p
  other_bucket p ne = rw differs (
      chain-set_above r.node_pool slot new_node descends r.node_capacity
        (r.buckets (bucket_index p)) (head-Below (bucket_index p) slot (omega arith)))
    where
      differs : (bucket == bucket_index p) ≡ false
      differs = ground arith

  chain_grows : (p i : ℕ) → IsIn i (chain_of r p) → IsIn i (chain_of (linked_to r a g) p)
  chain_grows p i m = elim (ℕ_discrete (bucket_index p) bucket) [
    | yes e ↦ rw (same_bucket p e) (inr m)
    | no ne ↦ rw (other_bucket p ne) m
  ]

  pub base_at_slot : base_of (linked_to r a g) slot ≡ a.block_base
  base_at_slot = ap (λ (n : RegistryNode). n.block_base) at_slot

  base_below : (i : ℕ) → i < slot → base_of (linked_to r a g) i ≡ base_of r i
  base_below i l = ap (λ (n : RegistryNode). n.block_base) (below_slot i l)

  -- A statement about a node in use holds of the new registry if it does of the new node, and of
  -- the nodes that were in use.
  split_slot {ℓ} :
      (P : ℕ → Type ℓ) → P slot → ((i : ℕ) → i < slot → P i) → (i : ℕ) → i < slot + 1 → P i
  split_slot P new old i l = elim (dec_lt i slot) [
    | yes b ↦ old i b
    | no nb ↦ subst P (let e : slot ≡ i = omega arith in e) new
  ]

  generation_bound : g ≤ slot + 1
  generation_bound =
      scan_upper r.node_pool a.block_base (chain_of r a.block_base) 1 g (slot + 1) scanned
        (λ i m. let l = (visited r w a.block_base i m).0 in omega (arith, w.small i l))
        (omega arith)

  older :
      (i : ℕ)
      → i < slot
      → base_of r i ≡ a.block_base
      → (state_eq (state_of r i) AllocationState.dead ≡ true) × (generation_of r i < g)
  older i l e =
      let m : IsIn i (chain_of r a.block_base) = rw e at (w.linked i (omega arith)) in
      scan_dead r.node_pool a.block_base (chain_of r a.block_base) 1 g scanned i m e
        (omega (arith, w.small i (omega arith), w.capacity_in))

  generation_at_slot : generation_of (linked_to r a g) slot ≡ g
  generation_at_slot = ap (λ (n : RegistryNode). n.generation) at_slot

  generation_below : (i : ℕ) → i < slot → generation_of (linked_to r a g) i ≡ generation_of r i
  generation_below i l = ap (λ (n : RegistryNode). n.generation) (below_slot i l)

  slot_heads :
      (b i : ℕ)
      → (linked_to r a g).buckets b ≡ some i
      → (i < used (linked_to r a g)) × (bucket_index (base_of (linked_to r a g) i) ≡ b)
  slot_heads b i e = elim (ℕ_discrete bucket b) [
    | yes q ↦
        let same : slot ≡ i = ground arith in
        subst (λ x. (x < used (linked_to r a g)) × (bucket_index (base_of (linked_to r a g) x) ≡ b))
          same (omega (arith, w.capacity_in), ap bucket_index base_at_slot ∙ q)
    | no ne ↦
        let old : r.buckets b ≡ some i = ground arith in
        let (l, h) = w.heads b i old in
        (omega (arith, w.capacity_in), ap bucket_index (base_below i (omega arith)) ∙ h)
  ]

  slot_nexts :
      (i : ℕ)
      → i < slot + 1
      → (j : ℕ) → (node_at (set r.node_pool slot new_node) i).next ≡ some j
      → (j < i)
        × (bucket_index (base_of (linked_to r a g) j) ≡ bucket_index (base_of (linked_to r a g) i))
  slot_nexts =
      split_slot
        (λ i.
          (j : ℕ)
          → (node_at (set r.node_pool slot new_node) i).next ≡ some j
          → (j < i)
            × (bucket_index (base_of (linked_to r a g) j)
                ≡ bucket_index (base_of (linked_to r a g) i)))
        (λ j e.
          let (l, h) = w.heads bucket j (sym (ap (λ (n : RegistryNode). n.next) at_slot) ∙ e) in
          let b : j < slot = omega arith in
          (b, ap bucket_index (base_below j b) ∙ h ∙ sym (ap bucket_index base_at_slot)))
        (λ i b j e.
          let (l, h) =
            w.nexts i j (omega arith)
              (sym (ap (λ (n : RegistryNode). n.next) (below_slot i b)) ∙ e) in
          (
            l,
            ap bucket_index (base_below j (omega arith))
                ∙ h
                ∙ sym (ap bucket_index (base_below i b)),
          ))

  slot_superseded :
      (i j : ℕ)
      → i < j
      → j < slot + 1
      → base_of (linked_to r a g) i ≡ base_of (linked_to r a g) j
      → (state_eq (state_of (linked_to r a g) i) AllocationState.dead ≡ true)
        × (generation_of (linked_to r a g) i < generation_of (linked_to r a g) j)
  slot_superseded i j l m e =
      let bi : i < slot = omega arith in
      let dead =
        ap (λ (n : RegistryNode). state_eq n.state AllocationState.dead) (below_slot i bi) in
      elim (dec_lt j slot) [
        | yes bj ↦
            let (d, h) =
              w.superseded i j l (omega arith) (sym (base_below i bi) ∙ e ∙ base_below j bj) in
            (dead ∙ d, omega (arith, generation_below i bi, generation_below j bj))
        | no nb ↦
            let s : j ≡ slot = omega arith in
            let at : generation_of (linked_to r a g) j ≡ g =
              ap (generation_of (linked_to r a g)) s ∙ generation_at_slot in
            let (d, h) =
              older i bi
                (sym (base_below i bi) ∙ e ∙ ap (base_of (linked_to r a g)) s ∙ base_at_slot) in
            (dead ∙ d, omega (arith, generation_below i bi, at))
      ]

  abbrev IsLocked : ℕ → Type 0
  IsLocked i =
      (node_at (set r.node_pool slot new_node) i).dtor_lock
      ≡ state_eq (state_of (linked_to r a g) i) AllocationState.retiring

  slot_locks :
      (i : ℕ)
      → (node_at (set r.node_pool slot new_node) i).dtor_lock
        ≡ state_eq (state_of (linked_to r a g) i) AllocationState.retiring
  slot_locks i = elim (ℕ_discrete slot i) [
    | yes e ↦ subst IsLocked e (
        ap (λ (n : RegistryNode). n.dtor_lock) at_slot
        ∙ ap (λ (n : RegistryNode). n.dtor_lock) (w.fresh slot (omega arith))
        ∙ sym (ap (λ (n : RegistryNode). state_eq n.state AllocationState.retiring) at_slot))
    | no ne ↦
        let same = get_or-set_ne r.node_pool slot i new_node blank_node ne in
        ap (λ (n : RegistryNode). n.dtor_lock) same
        ∙ w.locks i
        ∙ sym (ap (λ (n : RegistryNode). state_eq n.state AllocationState.retiring) same)
  ]

  slot_counted : add_word r.count 1 ≡ live_nodes (set r.node_pool slot new_node)
  slot_counted = omega (
    arith,
    live_nodes-set r.node_pool slot new_node (omega (arith, w.storage)),
    ap (λ (n : RegistryNode). weight n.state) (w.fresh slot (omega arith)),
    w.counted,
    w.storage,
    w.capacity_in,
    live_nodes-le-length r.node_pool,
  )

  pub linked_to-IsValid : IsValid (linked_to r a g)
  linked_to-IsValid = record {
    storage = length-set r.node_pool slot new_node ∙ w.storage;
    capacity_in = w.capacity_in;
    heads = slot_heads;
    nexts = λ i j l e. slot_nexts i (omega (arith, w.capacity_in)) j e;
    linked = λ i l.
        split_slot (λ i. IsIn i (chain_of (linked_to r a g) (base_of (linked_to r a g) i)))
          (rw (base_at_slot, same_bucket a.block_base refl) (inl refl))
          (λ i b. rw (base_below i b) (chain_grows (base_of r i) i (w.linked i (omega arith)))) i
          (omega (arith, w.capacity_in));
    fresh = λ i l.
        get_or-set_ne r.node_pool slot i new_node blank_node (λ e. omega (arith, w.capacity_in))
        ∙ w.fresh i (omega (arith, w.capacity_in));
    superseded = λ i j l m e. slot_superseded i j l (omega (arith, w.capacity_in)) e;
    small = λ i l.
        split_slot (λ i. generation_of (linked_to r a g) i ≤ i + 1)
          (omega (arith, generation_at_slot, generation_bound))
          (λ i b. omega (arith, generation_below i b, w.small i (omega arith))) i
          (omega (arith, w.capacity_in));
    present = λ i l.
        split_slot
          (λ i.
            (state_eq (state_of (linked_to r a g) i) AllocationState.empty ≡ false)
            × (base_of (linked_to r a g) i ≢ 0))
          (
            ap (λ (n : RegistryNode). state_eq n.state AllocationState.empty) at_slot,
            rw base_at_slot nonnull,
          )
          (λ i b.
            let (p, q) = w.present i (omega arith) in
            (
              ap (λ (n : RegistryNode). state_eq n.state AllocationState.empty) (below_slot i b)
                  ∙ p,
              rw (base_below i b) q,
            ))
          i (omega (arith, w.capacity_in));
    locks = slot_locks;
    counted = slot_counted;
  }

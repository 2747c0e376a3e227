-- ===== src/Registry/Generation.antt =====
-- The generation of a node that `insert` has just linked.
use kerbecs.Common.{
  ℕ, ◌≤◌, ◌≡◌, ap, arith, true, not, ◌&&◌, if◌then◌else◌, ltb, ◌==◌, some, List, [], ◌∷◌,
  Bool-cases, inl, inr, add_word,
}
use kerbecs.Stats.{KerbecsStats}
use kerbecs.Registry.{AllocationRegistry, Allocation, node_at, next_generation, insert, chain_of}
use kerbecs.Registry.Node.{RegistryNode, AllocationState, state_eq}
use kerbecs.Registry.Invariant.{IsValid, generation_of}
use kerbecs.Registry.Insert.{at_slot}
use kerbecs.Registry.Outcome.{insert_iff, insert_fresh}

le-next_generation :
    (pool : List RegistryNode) (base : ℕ) (is : List ℕ) (g k : ℕ)
    → next_generation pool base is g ≡ some k
    → g ≤ k
unfolding next_generation
le-next_generation pool base [] g k e = ground arith
le-next_generation pool base (i ∷ is) g k e =
    let node = node_at pool i in
    let bumped = add_word node.generation 1 in
    let raised = if (node.block_base == base) && ltb g bumped then bumped else g in
    let up : g ≤ raised = ground arith in
    elim (Bool-cases
      ((node.block_base == base) && not (state_eq node.state AllocationState.dead))) [
        | inl taken ↦ absurd (cc (rw taken at e))
        | inr free ↦
            let rest = le-next_generation pool base is raised k (rw free at e) in omega arith
      ]

module _ (r : AllocationRegistry) (w : IsValid r) (a : Allocation) (st : KerbecsStats)
    (done : (insert r st a).0 ≡ true) where
  -- A node that was just linked has a generation of its own, never 0.
  pub insert-generation : 1 ≤ generation_of (insert r st a).1 r.node_cursor
  insert-generation =
      let (nz, missing, room) = (insert_iff r w a st).0 done in
      let (g, s, h) = insert_fresh r w a st missing nz room in
      let at = ap (λ (n : RegistryNode). n.generation) (at_slot r a g w room nz s) in
      let low = le-next_generation r.node_pool a.block_base (chain_of r a.block_base) 1 g s in
      rw h (omega (arith, at, low))

  -- It belongs to the thread of the call.
  pub insert-thread : (node_at (insert r st a).1.node_pool r.node_cursor).thread_id ≡ a.thread_id
  insert-thread =
      let (nz, missing, room) = (insert_iff r w a st).0 done in
      let (g, s, h) = insert_fresh r w a st missing nz room in
      let at = ap (λ (n : RegistryNode). n.thread_id) (at_slot r a g w room nz s) in rw h at

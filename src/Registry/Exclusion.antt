-- ===== src/Registry/Exclusion.antt =====
-- Between `beginRetiring` and `endRetiring` of a block no second destruction of it begins.
use kerbecs.Common.{
  ℕ, ◌≡◌, sym, ap, ◌∙◌, arith, Bool, true, Option, none, some, Option-cases, inl, inr,
  if◌then◌else◌, get_or-set_self,
}
use kerbecs.Registry.{AllocationRegistry, node_at, modify, find, begin_node, begin_retiring}
use kerbecs.Registry.Node.{RegistryNode, AllocationState, ThreadPolicy, blank_node, is_tracked}
use kerbecs.Registry.Invariant.{IsValid, state_of}
use kerbecs.Registry.Lookup.{find_iff}
use kerbecs.Registry.Retiring.{begin_retiring_iff, begin_retiring-IsValid}

begin_node_done :
    (n : RegistryNode) (caller : ℕ) (policy : ThreadPolicy)
    → (begin_node n caller policy).0 ≡ true
    → ((begin_node n caller policy).1.state ≡ AllocationState.retiring)
      × ((begin_node n caller policy).1.block_base ≡ n.block_base)
unfolding begin_node
begin_node_done n caller policy e = ground arith

begin_retiring-found :
    (r : AllocationRegistry) (base caller : ℕ) (policy : ThreadPolicy) (i : ℕ)
    → find r base ≡ some i
    → let (done, n) = begin_node (node_at r.node_pool i) caller policy in
      begin_retiring r base caller policy ≡ (if done then some i else none, modify r i n)
unfolding begin_retiring
begin_retiring-found r base caller policy i e = rw (e, begin_retiring)

some_if : (b : Bool) (i : ℕ) → (if b then some i else none) ≡ some i → b ≡ true
some_if b i e = ground arith

module _ (r : AllocationRegistry) (w : IsValid r) (base caller : ℕ) (policy : ThreadPolicy) (i : ℕ)
    (done : (begin_retiring r base caller policy).0 ≡ some i) where
  abbrev after : AllocationRegistry
  after = (begin_retiring r base caller policy).1

  pub after-modify :
      (after ≡ modify r i (begin_node (node_at r.node_pool i) caller policy).1)
      × ((begin_node (node_at r.node_pool i) caller policy).0 ≡ true)
  after-modify =
      let e =
        begin_retiring-found r base caller policy i
          ((begin_retiring_iff r base caller policy i w).0 done).0 in
      (
        ap (λ (p : Option ℕ × AllocationRegistry). p.1) e,
        some_if (begin_node (node_at r.node_pool i) caller policy).0 i
            (ap (λ (p : Option ℕ × AllocationRegistry). p.0) (sym e) ∙ done),
      )

  -- A successful `beginRetiring` leaves its block's node retiring, and still to be found.
  pub begin_retiring_holds :
      (state_of after i ≡ AllocationState.retiring) × (find after base ≡ some i)
  begin_retiring_holds =
      let (e, ok) = after-modify in
      let (nz, l, t, b) =
        (find_iff r w base i).0 ((begin_retiring_iff r base caller policy i w).0 done).0 in
      let n = node_at r.node_pool i in
      let (s, same) = begin_node_done n caller policy ok in
      let at : node_at after.node_pool i ≡ (begin_node n caller policy).1 =
        ap (λ (q : AllocationRegistry). node_at q.node_pool i) e
        ∙ get_or-set_self r.node_pool i (begin_node n caller policy).1 blank_node
            (omega (arith, w.storage)) in
      let state : state_of after i ≡ AllocationState.retiring =
        ap (λ (n : RegistryNode). n.state) at ∙ s in
      (
        state,
        (find_iff after (begin_retiring-IsValid r base caller policy w) base i).1 (
          nz,
          rw e l,
          ap is_tracked state,
          ap (λ (n : RegistryNode). n.block_base) at ∙ same ∙ b,
        ),
      )

  -- In a well-formed registry: after a `beginRetiring` of the block that succeeded, a second one
  -- fails, on any thread and with either policy.
  pub begin_retiring_excludes :
      (caller' : ℕ) (policy' : ThreadPolicy) → (begin_retiring after base caller' policy').0 ≡ none
  begin_retiring_excludes caller' policy' =
      elim (Option-cases (begin_retiring after base caller' policy').0) [
        | inl e ↦ e
        | inr (j, e) ↦
            let v = begin_retiring-IsValid r base caller policy w in
            let (f, l, _) = (begin_retiring_iff after base caller' policy' j v).0 e in
            let (s, g) = begin_retiring_holds in absurd (ground (arith, f, l, s, g))
      ]

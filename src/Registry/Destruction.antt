-- ===== src/Registry/Destruction.antt =====
-- One object's destruction, from a `beginRetiring` that succeeded over the drop of the count to
-- `endRetiring`, as the registry sees it.
use kerbecs.Common.{
  ℕ, ◌^◌, ◌<◌, ◌≡◌, refl, ap, ◌∙◌, arith, Bool, true, false, if◌then◌else◌, ◌==◌, Option, none,
  some, Option-cases, inl, inr, get_or-set_self, sub_word,
}
use kerbecs.Registry.{
  AllocationRegistry, node_at, modify, drop_object, find, begin_node, begin_retiring, settle_node,
  settle,
}
use kerbecs.Registry.Node.{
  RegistryNode, AllocationState, ThreadPolicy, blank_node, is_tracked, state_eq,
}
use kerbecs.Registry.Invariant.{IsValid, Keeps, state_of, modify-IsValid}
use kerbecs.Registry.Chain.{field-set}
use kerbecs.Registry.Lookup.{find_iff}
use kerbecs.Registry.Retiring.{
  begin_retiring_iff, begin_retiring-IsValid, settle-IsValid, found-IsTracked,
}
use kerbecs.Registry.Exclusion.{after-modify, begin_retiring_holds}

-- Node `i` of the block, after one of its objects was destroyed.
pub record Destroyed (r : AllocationRegistry) (base i : ℕ) (r' : AllocationRegistry) : Type 0 where
  pub valid : IsValid r'
  pub found : find r' base ≡ some i
  pub state : state_of r' i ≡ (
      if (node_at r.node_pool i).live_count == 1
      then AllocationState.quarantine
      else AllocationState.live)
  pub objects : (node_at r'.node_pool i).live_count ≡ sub_word (node_at r.node_pool i).live_count 1
  pub capacity : r'.node_capacity ≡ r.node_capacity
  pub size : (node_at r'.node_pool i).block_size ≡ (node_at r.node_pool i).block_size

-- A node that is still tracked after a change is still the one that `find` gives.
module _ (r : AllocationRegistry) (base i : ℕ) (v : RegistryNode) (w : IsValid r)
    (f : find r base ≡ some i) where
  node-modify : node_at (modify r i v).node_pool i ≡ v
  node-modify =
      let (l, _) = found-IsTracked r w base i f in
      get_or-set_self r.node_pool i v blank_node (omega (arith, w.storage))

  find-modify :
      (r' : AllocationRegistry)
      → IsValid r'
      → r'.node_pool ≡ (modify r i v).node_pool
      → r'.node_cursor ≡ r.node_cursor
      → r'.node_capacity ≡ r.node_capacity
      → v.block_base ≡ (node_at r.node_pool i).block_base
      → is_tracked v.state ≡ true
      → find r' base ≡ some i
  find-modify r' w' pool cursor capacity same tracked =
      let (nz, l, t, b) = (find_iff r w base i).0 f in
      let at = ap (λ p. node_at p i) pool ∙ node-modify in
      (find_iff r' w' base i).1 (
        nz,
        omega (arith, cursor, capacity),
        ap (λ (n : RegistryNode). is_tracked n.state) at ∙ tracked,
        ap (λ (n : RegistryNode). n.block_base) at ∙ same ∙ b,
      )

begin_node_rest :
    (n : RegistryNode) (caller : ℕ) (policy : ThreadPolicy)
    → ((begin_node n caller policy).1.live_count ≡ n.live_count)
      × ((begin_node n caller policy).1.block_size ≡ n.block_size)
unfolding begin_node
begin_node_rest n caller policy = ground arith

settle_node_outcome :
    (n : RegistryNode) (total : ℕ)
    → n.state ≡ AllocationState.retiring
    → n.live_count ≡ sub_word total 1
    → total < 2 ^ 64
    → ((settle_node n).0 ≡ (total == 1))
      × ((settle_node n).1.state
          ≡ (if total == 1 then AllocationState.quarantine else AllocationState.live))
      × ((settle_node n).1.live_count ≡ n.live_count)
      × ((settle_node n).1.block_size ≡ n.block_size)
      × ((settle_node n).1.block_base ≡ n.block_base)
      × (is_tracked (settle_node n).1.state ≡ true)
unfolding settle_node
settle_node_outcome n total s c small = ground arith

dropped-Keeps :
    (n : RegistryNode) (left : ℕ)
    → state_eq n.state AllocationState.empty ≡ false
    → n.dtor_lock ≡ state_eq n.state AllocationState.retiring
    → Keeps n (record n { live_count = left })
dropped-Keeps n left there locked = record {
  base = refl;
  generation = refl;
  next = refl;
  dead = λ e. e;
  filled = there;
  lock = locked;
}

dropped-IsValid :
    (r : AllocationRegistry) (base i : ℕ)
    → IsValid r
    → find r base ≡ some i
    → IsValid (drop_object r i) × (find (drop_object r i) base ≡ some i)
dropped-IsValid r base i w f =
    let n = node_at r.node_pool i in
    let v = record n { live_count = sub_word n.live_count 1 } in
    let (l, (t, locked)) = found-IsTracked r w base i f in
    let valid =
      modify-IsValid r i v w l (dropped-Keeps n (sub_word n.live_count 1) (w.present i l).0 locked)
        r.count refl in
    (valid, find-modify r base i v w f (drop_object r i) valid refl refl refl refl t)

settle-found :
    (r : AllocationRegistry) (base i : ℕ)
    → find r base ≡ some i
    → let (entered, n) = settle_node (node_at r.node_pool i) in
      settle r base ≡ (
        if entered then some i else none,
        record (modify r i n) { count = if entered then sub_word r.count 1 else r.count },
      )
unfolding settle
settle-found r base i e = rw (e, settle) refl

-- After a `beginRetiring` that gave node `i` of a block with `total` objects, dropping one object and
-- settling leave the registry well-formed and the block's node where it was; the node enters the
-- quarantine, and is handed on for it, exactly if it was the last object, and else is live again.
module _ (r : AllocationRegistry) (w : IsValid r) (base caller : ℕ) (policy : ThreadPolicy) (i : ℕ)
    (done : (begin_retiring r base caller policy).0 ≡ some i)
    (small : (node_at r.node_pool i).live_count < 2 ^ 64) where
  abbrev begun : AllocationRegistry
  begun = (begin_retiring r base caller policy).1

  pub begun_node :
      ((node_at begun.node_pool i).live_count ≡ (node_at r.node_pool i).live_count)
      × ((node_at begun.node_pool i).block_size ≡ (node_at r.node_pool i).block_size)
  begun_node =
      let (e, _) = after-modify r w base caller policy i done in
      let f = ((begin_retiring_iff r base caller policy i w).0 done).0 in
      let n = node_at r.node_pool i in
      let at : node_at begun.node_pool i ≡ (begin_node n caller policy).1 =
        ap (λ (q : AllocationRegistry). node_at q.node_pool i) e
        ∙ node-modify r base i (begin_node n caller policy).1 w f in
      let (objects, size) = begin_node_rest n caller policy in
      (
        ap (λ (n : RegistryNode). n.live_count) at ∙ objects,
        ap (λ (n : RegistryNode). n.block_size) at ∙ size,
      )

  pub destruction :
      ((settle (drop_object begun i) base).0
        ≡ (if (node_at r.node_pool i).live_count == 1 then some i else none))
      × Destroyed r base i (settle (drop_object begun i) base).1
  destruction =
      let total = (node_at r.node_pool i).live_count in
      let (retiring, f1) = begin_retiring_holds r w base caller policy i done in
      let w1 = begin_retiring-IsValid r base caller policy w in
      let r2 = drop_object begun i in
      let (w2, f2) = dropped-IsValid begun base i w1 f1 in
      let n1 = node_at begun.node_pool i in
      let at2 : node_at r2.node_pool i ≡ record n1 { live_count = sub_word n1.live_count 1 } =
        node-modify begun base i (record n1 { live_count = sub_word n1.live_count 1 }) w1 f1 in
      let n2 = node_at r2.node_pool i in
      let objects2 : n2.live_count ≡ sub_word total 1 =
        ap (λ (n : RegistryNode). n.live_count) at2 ∙ ap (λ n. sub_word n 1) begun_node.0 in
      let (e, state, objects, size, same, tracked) =
        settle_node_outcome n2 total (ap (λ (n : RegistryNode). n.state) at2 ∙ retiring) objects2
          small in
      let s = settle-found r2 base i f2 in
      let out = (settle r2 base).1 in
      let valid = settle-IsValid r2 base w2 in
      let count = if (settle_node n2).0 then sub_word r2.count 1 else r2.count in
      let form : out ≡ record (modify r2 i (settle_node n2).1) { count = count } =
        ap (λ (p : Option ℕ × AllocationRegistry). p.1) s in
      let at3 : node_at out.node_pool i ≡ (settle_node n2).1 =
        ap (λ (q : AllocationRegistry). node_at q.node_pool i) form
        ∙ node-modify r2 base i (settle_node n2).1 w2 f2 in
      (
        ap (λ (p : Option ℕ × AllocationRegistry). p.0) s
            ∙ ap (λ (b : Bool). if b then some i else none) e,
        record {
          valid = valid;
          found =
              find-modify r2 base i (settle_node n2).1 w2 f2 out valid
                (ap (λ (q : AllocationRegistry). q.node_pool) form)
                (ap (λ (q : AllocationRegistry). q.node_cursor) form)
                (ap (λ (q : AllocationRegistry). q.node_capacity) form) same tracked;
          state = ap (λ (n : RegistryNode). n.state) at3 ∙ state;
          objects = ap (λ (n : RegistryNode). n.live_count) at3 ∙ objects ∙ objects2;
          capacity =
              ap (λ (q : AllocationRegistry). q.node_capacity) form
              ∙ ap (λ (q : AllocationRegistry). q.node_capacity)
                  (after-modify r w base caller policy i done).0;
          size =
              ap (λ (n : RegistryNode). n.block_size) at3
              ∙ size
              ∙ ap (λ (n : RegistryNode). n.block_size) at2
              ∙ begun_node.1;
        },
      )

begin_node_base :
    (n : RegistryNode) (caller : ℕ) (policy : ThreadPolicy)
    → (begin_node n caller policy).1.block_base ≡ n.block_base
unfolding begin_node
begin_node_base n caller policy = ground arith

-- `beginRetiring` leaves each node's block where it is.
pub base-begin_retiring :
    (r : AllocationRegistry) (base caller : ℕ) (policy : ThreadPolicy) (j : ℕ)
    → (node_at (begin_retiring r base caller policy).1.node_pool j).block_base
      ≡ (node_at r.node_pool j).block_base
unfolding begin_retiring
base-begin_retiring r base caller policy j = elim (Option-cases (find r base)) [
  | inl e ↦ rw (e, begin_retiring) refl
  | inr (i, e) ↦
      let n = node_at r.node_pool i in
      rw (e, begin_retiring)
        (field-set (λ n. n.block_base) r.node_pool i (begin_node n caller policy).1
          (begin_node_base n caller policy) j)
]

begin_node_quarantine :
    (n : RegistryNode) (caller : ℕ) (policy : ThreadPolicy)
    → n.state ≡ AllocationState.quarantine
    → (begin_node n caller policy).1.state ≡ AllocationState.quarantine
unfolding begin_node
begin_node_quarantine n caller policy e = ground arith

-- A node in the quarantine that `find` gives stays there under `beginRetiring`.
pub state-begin_retiring :
    (r : AllocationRegistry) (base caller : ℕ) (policy : ThreadPolicy) (i : ℕ)
    → IsValid r
    → find r base ≡ some i
    → state_of r i ≡ AllocationState.quarantine
    → state_of (begin_retiring r base caller policy).1 i ≡ AllocationState.quarantine
unfolding begin_retiring
state-begin_retiring r base caller policy i w f e =
    let n = node_at r.node_pool i in
    let v = (begin_node n caller policy).1 in
    rw (f, begin_retiring)
      (ap (λ (n : RegistryNode). n.state) (node-modify r base i v w f)
        ∙ begin_node_quarantine n caller policy e)

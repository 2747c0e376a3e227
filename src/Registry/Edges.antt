-- ===== src/Registry/Edges.antt =====
-- Each call moves a node's state along one edge of a block's life: from empty to live, retiring,
-- quarantine and dead, and from retiring back to live.
use native.Mathlib.Decide.{ℕ_discrete, dec_lt}
use mathlib.Core.Path.{subst}
use kerbecs.Common.{
  ℕ, ◌+◌, ◌≤◌, ◌<◌, ◌≡◌, refl, sym, ap, ◌∙◌, inl, inr, arith, length, set, get_or-set_self,
  get_or-set_ne, get_or_past, length-set, if◌then◌else◌, sub_word, Option-cases,
}
use kerbecs.Stats.{KerbecsStats}
use kerbecs.Registry.{
  AllocationRegistry, Allocation, node_at, modify, insert, find, begin_node, begin_retiring,
  settle_node, settle, retire_node, retire,
}
use kerbecs.Registry.Node.{RegistryNode, ThreadPolicy, blank_node}
use kerbecs.Registry.Invariant.{IsValid, state_of}
use kerbecs.Registry.Retiring.{Edge, stay, birth, begin, survive, enter, die}
use kerbecs.Registry.Link.{linked_to}
use kerbecs.Registry.Outcome.{insert_null, insert_taken, insert_full, insert_fresh}

-- Each node's state moves along one edge of a block's life, or stays.
abbrev pub Follows : AllocationRegistry → AllocationRegistry → Type 0
Follows r r' = (i : ℕ) → Edge (state_of r i) (state_of r' i)

modify-Follows :
    (r : AllocationRegistry) (i c : ℕ) (v : RegistryNode)
    → Edge (state_of r i) v.state
    → Follows r (record (modify r i v) { count = c })
modify-Follows r i c v e j = elim (ℕ_discrete i j) [
  | no ne ↦
      stay
        (ap (λ (n : RegistryNode). n.state) (sym (get_or-set_ne r.node_pool i j v blank_node ne)))
  | yes same ↦ elim (dec_lt i (length r.node_pool)) [
    | yes lt ↦
        subst (λ (x : ℕ). Edge (state_of r x) (state_of (modify r i v) x)) same
          (subst (Edge (state_of r i))
            (ap (λ (n : RegistryNode). n.state)
              (sym (get_or-set_self r.node_pool i v blank_node lt)))
            e)
    | no ge ↦ stay (
        ap (λ (n : RegistryNode). n.state)
          (get_or_past r.node_pool j blank_node (omega arith)
            ∙ sym (
                get_or_past (set r.node_pool i v) j blank_node
                  (omega (arith, length-set r.node_pool i v)))))
  ]
]

begin_node-Edge :
    (n : RegistryNode) (caller : ℕ) (policy : ThreadPolicy)
    → Edge n.state (begin_node n caller policy).1.state
unfolding begin_node
begin_node-Edge n caller policy = grind (arith, stay, begin)

settle_node-Edge : (n : RegistryNode) → Edge n.state (settle_node n).1.state
unfolding settle_node
settle_node-Edge n = grind (arith, stay, survive, enter)

retire_node-Edge : (n : RegistryNode) → Edge n.state (retire_node n).1.state
unfolding retire_node
retire_node-Edge n = grind (arith, stay, die)

pub begin_retiring-Follows :
    (r : AllocationRegistry) (base caller : ℕ) (policy : ThreadPolicy)
    → Follows r (begin_retiring r base caller policy).1
unfolding begin_retiring
begin_retiring-Follows r base caller policy = elim (Option-cases (find r base)) [
  | inl e ↦ rw (e, begin_retiring) (λ i. stay refl)
  | inr (i, e) ↦
      rw (e, begin_retiring)
        (modify-Follows r i r.count (begin_node (node_at r.node_pool i) caller policy).1
          (begin_node-Edge (node_at r.node_pool i) caller policy))
]

pub settle-Follows : (r : AllocationRegistry) (base : ℕ) → Follows r (settle r base).1
unfolding settle
settle-Follows r base = elim (Option-cases (find r base)) [
  | inl e ↦ rw (e, settle) (λ i. stay refl)
  | inr (i, e) ↦
      rw (e, settle)
        (modify-Follows r i
          (if (settle_node (node_at r.node_pool i)).0 then sub_word r.count 1 else r.count)
          (settle_node (node_at r.node_pool i)).1 (settle_node-Edge (node_at r.node_pool i)))
]

pub retire-Follows : (r : AllocationRegistry) (base : ℕ) → Follows r (retire r base).1
unfolding retire
retire-Follows r base = elim (Option-cases (find r base)) [
  | inl e ↦ rw (e, retire) (λ i. stay refl)
  | inr (i, e) ↦
      rw (e, retire)
        (modify-Follows r i r.count (retire_node (node_at r.node_pool i)).1
          (retire_node-Edge (node_at r.node_pool i)))
]

linked_to-Follows :
    (r : AllocationRegistry) (a : Allocation) (g : ℕ)
    → IsValid r
    → r.node_cursor < r.node_capacity
    → Follows r (linked_to r a g)
linked_to-Follows r a g w room j =
    modify-Follows r r.node_cursor r.count _
      (birth (ap (λ (n : RegistryNode). n.state) (w.fresh r.node_cursor (omega arith))) refl) j

pub insert-Follows :
    (r : AllocationRegistry) (st : KerbecsStats) (a : Allocation)
    → IsValid r
    → Follows r (insert r st a).1
insert-Follows r st a w = elim (ℕ_discrete a.block_base 0) [
  | yes z ↦ rw (insert_null r w a st z) (λ i. stay refl)
  | no nz ↦ elim (Option-cases (find r a.block_base)) [
    | inr (i, e) ↦ rw (insert_taken r w a st i e) (λ i. stay refl)
    | inl e ↦ elim (dec_lt r.node_cursor r.node_capacity) [
      | no full ↦ rw (insert_full r w a st e nz (omega arith)) (λ i. stay refl)
      | yes room ↦
          let (g, s, h) = insert_fresh r w a st e nz room in rw h (linked_to-Follows r a g w room)
    ]
  ]
]

pub cursor-insert :
    (r : AllocationRegistry) (st : KerbecsStats) (a : Allocation)
    → IsValid r
    → (insert r st a).1.node_cursor ≤ r.node_cursor + 1
cursor-insert r st a w = elim (ℕ_discrete a.block_base 0) [
  | yes z ↦ rw (insert_null r w a st z) (omega arith)
  | no nz ↦ elim (Option-cases (find r a.block_base)) [
    | inr (i, e) ↦ rw (insert_taken r w a st i e) (omega arith)
    | inl e ↦ elim (dec_lt r.node_cursor r.node_capacity) [
      | no full ↦ rw (insert_full r w a st e nz (omega arith)) (omega arith)
      | yes room ↦ let (g, s, h) = insert_fresh r w a st e nz room in rw h (omega arith)
    ]
  ]
]

pub cursor-begin_retiring :
    (r : AllocationRegistry) (base caller : ℕ) (policy : ThreadPolicy)
    → (begin_retiring r base caller policy).1.node_cursor ≡ r.node_cursor
unfolding begin_retiring
cursor-begin_retiring r base caller policy = ground arith

pub cursor-settle :
    (r : AllocationRegistry) (base : ℕ) → (settle r base).1.node_cursor ≡ r.node_cursor
unfolding settle
cursor-settle r base = ground arith

pub cursor-retire :
    (r : AllocationRegistry) (base : ℕ) → (retire r base).1.node_cursor ≡ r.node_cursor
unfolding retire
cursor-retire r base = ground arith

-- ===== src/Registry/Chain.antt =====
-- The walk along a bucket's list, its fuel, and what a store into the pool leaves of it. In a list of the registry each node's `next` has a smaller index than the node.
use kerbecs.Common.{
  IsIn, ℕ, zero, suc, ◌≤◌, ◌<◌, ◌≡◌, refl, sym, ap, inl, inr, ◌∙◌, arith, Option, none, some, List,
  ◌∷◌, length, set, get_or-set_self, get_or-set_ne, get_or_past, length-set,
}
use native.Mathlib.Decide.{ℕ_discrete, dec_lt}
use kerbecs.Registry.{node_at, chain}
use kerbecs.Registry.Node.{RegistryNode, blank_node}

abbrev pub Below : ℕ → Option ℕ → Type 0
Below n none = Unit {0}
Below n (some i) = i < n

Below-mono : (m n : ℕ) (c : Option ℕ) → m ≤ n → Below m c → Below n c
Below-mono m n none h b = tt
Below-mono m n (some i) h b = omega arith

pub Below-intro : (n : ℕ) (c : Option ℕ) → ((i : ℕ) → c ≡ some i → i < n) → Below n c
Below-intro n none h = tt
Below-intro n (some i) h = h i refl

abbrev pub Descends : List RegistryNode → ℕ → Type 0
Descends pool n = (i : ℕ) → i < n → Below i (node_at pool i).next

-- Any two fuels that exceed the index of the first node give the same walk.
pub chain_fuel :
    (pool : List RegistryNode) (n f g : ℕ) (c : Option ℕ)
    → Descends pool n
    → Below n c
    → Below f c
    → Below g c
    → chain pool f c ≡ chain pool g c
unfolding chain
chain_fuel pool n f g none d p q r = refl
chain_fuel pool n zero g (some i) d p q r = absurd (omega arith)
chain_fuel pool n (suc f) zero (some i) d p q r = absurd (omega arith)
chain_fuel pool n (suc f) (suc g) (some i) d p q r =
    let next = (node_at pool i).next in
    ap (◌∷◌ i) (
      chain_fuel pool n f g next d (Below-mono i n next (omega arith) (d i p))
        (Below-mono i f next (omega arith) (d i p)) (Below-mono i g next (omega arith) (d i p)))

-- What a field reads after a store.
pub field-set {ℓ} :
    {A : Type ℓ} (field : RegistryNode → A) (pool : List RegistryNode) (i : ℕ) (v : RegistryNode)
    → field v ≡ field (node_at pool i)
    → (j : ℕ) → field (node_at (set pool i v) j) ≡ field (node_at pool j)
field-set field pool i v e j = elim (ℕ_discrete i j) [
  | no ne ↦ ap field (get_or-set_ne pool i j v blank_node ne)
  | yes same ↦ elim (dec_lt i (length pool)) [
    | yes lt ↦ rw (← same, get_or-set_self pool i v blank_node lt) e
    | no ge ↦ ap field (
        get_or_past (set pool i v) j blank_node (omega (arith, length-set pool i v))
        ∙ sym (get_or_past pool j blank_node (omega arith)))
  ]
]

-- A store that keeps `next` keeps every walk.
pub chain-set_next :
    (pool : List RegistryNode) (i : ℕ) (v : RegistryNode)
    → v.next ≡ (node_at pool i).next
    → (f : ℕ) (c : Option ℕ) → chain (set pool i v) f c ≡ chain pool f c
unfolding chain
chain-set_next pool i v e zero none = refl
chain-set_next pool i v e (suc f) none = refl
chain-set_next pool i v e zero (some j) = refl
chain-set_next pool i v e (suc f) (some j) = ap (◌∷◌ j) (
    ap (chain (set pool i v) f) (field-set (λ n. n.next) pool i v e j)
    ∙ chain-set_next pool i v e f (node_at pool j).next)

-- A store into a node above a walk keeps the walk.
pub chain-set_above :
    (pool : List RegistryNode) (k : ℕ) (v : RegistryNode)
    → Descends pool k
    → (f : ℕ) (c : Option ℕ) → Below k c
    → chain (set pool k v) f c ≡ chain pool f c
unfolding chain
chain-set_above pool k v d zero none b = refl
chain-set_above pool k v d (suc f) none b = refl
chain-set_above pool k v d zero (some j) b = refl
chain-set_above pool k v d (suc f) (some j) b = ap (◌∷◌ j) (
    ap (λ (n : RegistryNode). chain (set pool k v) f n.next)
      (get_or-set_ne pool k j v blank_node (λ e. omega arith))
    ∙ chain-set_above pool k v d f (node_at pool j).next
        (Below-mono j k (node_at pool j).next (omega arith) (d j b)))

-- A property that passes along `next` holds of all that a walk visits.
pub chain_members {ℓ} :
    (P : ℕ → Type ℓ) (pool : List RegistryNode)
    → ((i j : ℕ) → P i → (node_at pool i).next ≡ some j → P j)
    → (f : ℕ) (c : Option ℕ) → ((i : ℕ) → c ≡ some i → P i)
    → (i : ℕ) → IsIn i (chain pool f c)
    → P i
unfolding chain
chain_members P pool step zero none start i m = elim m [ ]
chain_members P pool step (suc f) none start i m = elim m [ ]
chain_members P pool step zero (some j) start i m = elim m [ ]
chain_members P pool step (suc f) (some j) start i (inl e) = start i (ap some (sym e))
chain_members P pool step (suc f) (some j) start i (inr m) =
    chain_members P pool step f (node_at pool j).next (λ k e. step j k (start j refl) e) i m

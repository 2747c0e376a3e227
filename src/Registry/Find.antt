-- ===== src/Registry/Find.antt =====
-- `find`, the scan of `insert` and `findRange`, over the list of nodes that a walk visits.
use kerbecs.Common.{
  ℕ, ◌+◌, ◌≤◌, ◌<◌, ◌^◌, ◌≡◌, refl, inl, inr, arith, true, false, none, some, List, [], ◌∷◌,
  Bool-cases, ◌==◌, ltb, leb, ◌-◌, ◌&&◌, if◌then◌else◌, add_word,
}
use kerbecs.Registry.{node_at, find_in, find_range_in, next_generation}
use kerbecs.Registry.Node.{RegistryNode, AllocationState, is_tracked, state_eq}
use kerbecs.Common.{IsIn}

-- The node holds the block `base`, and is neither dead nor empty.
abbrev pub Holds : List RegistryNode → ℕ → ℕ → Type 0
Holds pool base i =
    (is_tracked (node_at pool i).state ≡ true) × ((node_at pool i).block_base ≡ base)

pub find_in-some :
    (pool : List RegistryNode) (base : ℕ) (is : List ℕ) (i : ℕ)
    → find_in pool base is ≡ some i
    → IsIn i is × Holds pool base i
unfolding find_in
find_in-some pool base [] i e = absurd (cc)
find_in-some pool base (j ∷ is) i e = ground (arith, find_in-some pool base is i)

pub find_in_finds :
    (pool : List RegistryNode) (base : ℕ) (is : List ℕ) (i : ℕ)
    → IsIn i is
    → Holds pool base i
    → (j : ℕ) × (find_in pool base is ≡ some j)
unfolding find_in
find_in_finds pool base [] i m h = elim m [ ]
find_in_finds pool base (j ∷ is) i (inl e) h = (j, ground arith)
find_in_finds pool base (j ∷ is) i (inr m) h =
    let (k, found) = find_in_finds pool base is i m h in
    elim (Bool-cases (is_tracked (node_at pool j).state && ((node_at pool j).block_base == base))) [
      | inl hit ↦ (j, rw hit)
      | inr miss ↦ (k, rw miss found)
    ]

-- The node holds the block, and `addr` lies in the block's payload.
abbrev pub Spans : List RegistryNode → ℕ → ℕ → ℕ → Type 0
Spans pool base addr i =
    Holds pool base i
    × ((node_at pool i).user_ptr ≤ addr)
    × (addr < (node_at pool i).user_ptr + (node_at pool i).user_size)

pub find_range_in-some :
    (pool : List RegistryNode) (base addr : ℕ) (is : List ℕ) (i : ℕ)
    → find_range_in pool base addr is ≡ some i
    → IsIn i is × Spans pool base addr i
unfolding find_range_in
find_range_in-some pool base addr [] i e = absurd (cc)
find_range_in-some pool base addr (j ∷ is) i e =
    ground (arith, find_range_in-some pool base addr is i)

pub find_range_in_finds :
    (pool : List RegistryNode) (base addr : ℕ) (is : List ℕ) (i : ℕ)
    → IsIn i is
    → Spans pool base addr i
    → (j : ℕ) × (find_range_in pool base addr is ≡ some j)
unfolding find_range_in
find_range_in_finds pool base addr [] i m h = elim m [ ]
find_range_in_finds pool base addr (j ∷ is) i (inl e) h = (j, ground arith)
find_range_in_finds pool base addr (j ∷ is) i (inr m) h =
    let (k, found) = find_range_in_finds pool base addr is i m h in
    let n = node_at pool j in
    elim (Bool-cases (
      is_tracked n.state
      && (n.block_base == base)
      && (leb n.user_ptr addr && ltb (addr - n.user_ptr) n.user_size))) [
        | inl hit ↦ (j, rw hit)
        | inr miss ↦ (k, rw miss found)
      ]

-- The next generation as the scan passes a node.
abbrev passed : List RegistryNode → ℕ → ℕ → ℕ → ℕ
passed pool base i g =
    let bumped = add_word (node_at pool i).generation 1 in
    if ((node_at pool i).block_base == base) && ltb g bumped then bumped else g

pub scan_lower :
    (pool : List RegistryNode) (base : ℕ) (is : List ℕ) (g h : ℕ)
    → next_generation pool base is g ≡ some h
    → g ≤ h
unfolding next_generation
scan_lower pool base [] g h e = ground arith
scan_lower pool base (j ∷ is) g h e =
    ground (arith, scan_lower pool base is (passed pool base j g) h)

-- A scan that gets through passed only dead nodes of the base, and its result is above the
-- generation of each of them.
pub scan_dead :
    (pool : List RegistryNode) (base : ℕ) (is : List ℕ) (g h : ℕ)
    → next_generation pool base is g ≡ some h
    → (i : ℕ) → IsIn i is
    → (node_at pool i).block_base ≡ base
    → (node_at pool i).generation + 1 < 2 ^ 64
    → (state_eq (node_at pool i).state AllocationState.dead ≡ true)
      × ((node_at pool i).generation < h)
unfolding next_generation
scan_dead pool base [] g h e i m b w = elim m [ ]
scan_dead pool base (j ∷ is) g h e i (inl same) b w =
    let same_base : (node_at pool j).block_base ≡ base = rw (← same) b in
    let small : (node_at pool j).generation + 1 < 2 ^ 64 = rw (← same) w in
    rw same (ground (arith, scan_lower pool base is (passed pool base j g) h))
scan_dead pool base (j ∷ is) g h e i (inr m) b w = ground (
  arith,
  scan_dead pool base is (passed pool base j g) h,
  scan_dead pool base is (passed pool base j g) h (rest e) i m b w,
)
  where
    rest :
        next_generation pool base (j ∷ is) g ≡ some h
        → next_generation pool base is (passed pool base j g) ≡ some h
    rest e = ground arith

pub scan_upper :
    (pool : List RegistryNode) (base : ℕ) (is : List ℕ) (g h n : ℕ)
    → next_generation pool base is g ≡ some h
    → ((i : ℕ) → IsIn i is → (node_at pool i).generation < n)
    → g ≤ n
    → h ≤ n
unfolding next_generation
scan_upper pool base [] g h n e below le = ground arith
scan_upper pool base (j ∷ is) g h n e below le = ground (
  arith,
  below j (inl refl),
  scan_upper pool base is (passed pool base j g) h n (rest e) (λ i m. below i (inr m)),
)
  where
    rest :
        next_generation pool base (j ∷ is) g ≡ some h
        → next_generation pool base is (passed pool base j g) ≡ some h
    rest e = ground arith

-- The scan gets through where every node of the base is dead.
pub scan_free :
    (pool : List RegistryNode) (base : ℕ) (is : List ℕ) (g : ℕ)
    → ((i : ℕ)
        → IsIn i is
        → (node_at pool i).block_base ≡ base
        → state_eq (node_at pool i).state AllocationState.dead ≡ true)
    → (h : ℕ) × (next_generation pool base is g ≡ some h)
unfolding next_generation
scan_free pool base [] g dead = (g, refl)
scan_free pool base (j ∷ is) g dead =
    let (h, e) = scan_free pool base is (passed pool base j g) (λ i m. dead i (inr m)) in
    (h, ground (arith, dead j (inl refl)))

-- It stops where a node of the base is not dead.
pub scan_taken :
    (pool : List RegistryNode) (base : ℕ) (is : List ℕ) (g i : ℕ)
    → IsIn i is
    → (node_at pool i).block_base ≡ base
    → state_eq (node_at pool i).state AllocationState.dead ≡ false
    → next_generation pool base is g ≡ none
unfolding next_generation
scan_taken pool base [] g i m b s = elim m [ ]
scan_taken pool base (j ∷ is) g i (inl e) b s = ground arith
scan_taken pool base (j ∷ is) g i (inr m) b s =
    ground (arith, scan_taken pool base is (passed pool base j g) i m)

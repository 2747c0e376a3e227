-- ===== src/Registry/Lookup.antt =====
-- `AllocationRegistry::find`: which node it gives, in a well-formed registry.
use native.Mathlib.Decide.{dec_lt}
use kerbecs.Common.{
  ℕ, ◌+◌, ◌≤◌, ◌<◌, ◌≡◌, refl, sym, ◌∙◌, inl, inr, ◌≢◌, ◌↔◌, arith, true, false, none, some,
  Bool-cases, ◌==◌, ==_iff, ◌||◌,
}
use kerbecs.Registry.{
  AllocationRegistry, node_at, chain_of, bucket_index, find, find_in, find_range, find_range_in,
}
use kerbecs.Registry.Node.{AllocationState, is_tracked, state_eq}
use kerbecs.Registry.Chain.{chain_members}
use kerbecs.Common.{IsIn}
use kerbecs.Registry.Find.{
  Holds, find_in-some, find_in_finds, find_range_in-some, find_range_in_finds,
}
use kerbecs.Registry.Invariant.{IsValid, used, base_of, state_of}

dead-not-tracked :
    (s : AllocationState) → state_eq s AllocationState.dead ≡ true → is_tracked s ≡ false
dead-not-tracked AllocationState.dead e = refl
dead-not-tracked AllocationState.empty e = refl
dead-not-tracked AllocationState.live e = cc
dead-not-tracked AllocationState.retiring e = cc
dead-not-tracked AllocationState.quarantine e = cc

module _ (r : AllocationRegistry) (w : IsValid r) where
  -- All that a bucket's walk visits is in use, and hashes to the bucket.
  pub visited :
      (base i : ℕ)
      → IsIn i (chain_of r base)
      → (i < used r) × (bucket_index (base_of r i) ≡ bucket_index base)
  visited base =
      chain_members (λ i. (i < used r) × (bucket_index (base_of r i) ≡ bucket_index base))
        r.node_pool (λ i j p e. let (lower, same) = w.nexts i j p.0 e in (omega arith, same ∙ p.1))
        r.node_capacity (r.buckets (bucket_index base)) (w.heads (bucket_index base))

  older_dead :
      (i j : ℕ) → i < j → j < used r → base_of r i ≡ base_of r j → is_tracked (state_of r i) ≡ false
  older_dead i j l m e = dead-not-tracked (state_of r i) (w.superseded i j l m e).0

  -- No two nodes hold one block.
  pub holder_unique :
      (base i j : ℕ)
      → i < used r
      → j < used r
      → Holds r.node_pool base i
      → Holds r.node_pool base j
      → i ≡ j
  holder_unique base i j hi hj p q = elim (dec_lt i j) [
    | yes l ↦ cc (older_dead i j l hj (p.1 ∙ sym q.1), p.0)
    | no ge ↦ elim (dec_lt j i) [
      | yes l ↦ cc (older_dead j i l hi (q.1 ∙ sym p.1), q.0)
      | no le ↦ omega arith
    ]
  ]

  find-in_use :
      (base i : ℕ) → find r base ≡ some i → (base ≢ 0) × (i < used r) × Holds r.node_pool base i
  unfolding find
  find-in_use base i e = elim (Bool-cases (base == 0)) [
    | inl z ↦ absurd (cc (refused z, e))
    | inr nz ↦
        let found : find_in r.node_pool base (chain_of r base) ≡ some i = rw nz at e in
        let (m, h) = find_in-some r.node_pool base (chain_of r base) i found in
        (λ z. cc ((==_iff base 0).1 z, nz), (visited base i m).0, h)
  ]
    where
      refused : (base == 0) ≡ true → find r base ≡ none
      refused z = rw z

  finds-holder :
      (base i : ℕ) → base ≢ 0 → i < used r → Holds r.node_pool base i → find r base ≡ some i
  unfolding find
  finds-holder base i nz l h =
      let m : IsIn i (chain_of r base) = rw h.1 at (w.linked i l) in
      let (j, e) = find_in_finds r.node_pool base (chain_of r base) i m h in
      let (mj, hj) = find_in-some r.node_pool base (chain_of r base) j e in
      let same = holder_unique base j i (visited base j mj).0 l hj h in ground (arith, e, same)

  -- In a well-formed registry `find` gives a node exactly when the address is not null and the node
  -- is one in use that holds the block and is neither dead nor empty.
  pub find_iff :
      (base i : ℕ)
      → (find r base ≡ some i)
        ↔ ((base ≢ 0) × (i < used r) × (is_tracked (state_of r i) ≡ true) × (base_of r i ≡ base))
  find_iff base i = (
    λ e. let (nz, l, h) = find-in_use base i e in (nz, l, h.0, h.1),
    λ p. finds-holder base i p.0 p.1 (p.2, p.3),
  )

  range_unlocked : (base addr : ℕ) → base ≢ 0 → addr ≢ 0 → ((base == 0) || (addr == 0)) ≡ false
  range_unlocked base addr p q = ground arith

  -- In a well-formed registry `findRange` gives a node exactly when the address inside the block is
  -- not null, `find` gives the node for the block, and the
  -- address lies in the payload that the node records.
  pub find_range_iff :
      (base addr i : ℕ)
      → (find_range r base addr ≡ some i) ↔ (
          (addr ≢ 0)
          × (find r base ≡ some i)
          × ((node_at r.node_pool i).user_ptr ≤ addr)
          × (addr < (node_at r.node_pool i).user_ptr + (node_at r.node_pool i).user_size))
  unfolding find_range
  find_range_iff base addr i = (forward, backward)
    where
      forward :
          find_range r base addr ≡ some i
          → (addr ≢ 0)
            × (find r base ≡ some i)
            × ((node_at r.node_pool i).user_ptr ≤ addr)
            × (addr < (node_at r.node_pool i).user_ptr + (node_at r.node_pool i).user_size)
      forward e = elim (Bool-cases ((base == 0) || (addr == 0))) [
        | inl z ↦ absurd (let refused : find_range r base addr ≡ none = rw z in cc (refused, e))
        | inr nz ↦
            let found : find_range_in r.node_pool base addr (chain_of r base) ≡ some i =
              rw nz at e in
            let (m, (h, lo, hi)) =
              find_range_in-some r.node_pool base addr (chain_of r base) i found in
            let base_nz : base ≢ 0 = λ z. absurd (ground arith) in
            (
              λ z. absurd (ground arith),
              (find_iff base i).1 (base_nz, (visited base i m).0, h.0, h.1),
              lo,
              hi,
            )
      ]

      backward :
          (addr ≢ 0)
            × (find r base ≡ some i)
            × ((node_at r.node_pool i).user_ptr ≤ addr)
            × (addr < (node_at r.node_pool i).user_ptr + (node_at r.node_pool i).user_size)
          → find_range r base addr ≡ some i
      backward (az, f, lo, hi) =
          let (nz, l, t, b) = (find_iff base i).0 f in
          let m : IsIn i (chain_of r base) = rw b at (w.linked i l) in
          let (j, e) =
            find_range_in_finds r.node_pool base addr (chain_of r base) i m ((t, b), lo, hi) in
          let (mj, (hj, _, _)) = find_range_in-some r.node_pool base addr (chain_of r base) j e in
          let same = holder_unique base j i (visited base j mj).0 l hj (t, b) in
          rw (range_unlocked base addr nz az) (ground (arith, e, same))

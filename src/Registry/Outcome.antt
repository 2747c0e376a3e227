-- ===== src/Registry/Outcome.antt =====
-- What `insert` answers, and what `find` then gives.
use kerbecs.Common.{
  ℕ, ◌+◌, ◌≤◌, ◌<◌, ◌^◌, ◌≡◌, refl, sym, ap, ◌∙◌, inl, inr, ◌≢◌, ◌↔◌, arith, true, false, Option,
  none, some, Bool-cases, Option-cases, ◌==◌, ==_iff, add_word,
}
use native.Mathlib.Decide.{ℕ_discrete, dec_lt}
use kerbecs.Stats.{KerbecsStats, stats_on_init}
use kerbecs.Registry.{
  AllocationRegistry, Allocation, node_at, chain_of, next_generation, insert, insert_scanned,
  report_insert, find,
}
use kerbecs.Registry.Node.{RegistryNode, AllocationState, is_tracked, state_eq}
use kerbecs.Registry.Find.{scan_free, scan_taken}
use kerbecs.Registry.Invariant.{IsValid, used, base_of, state_of, generation_of}
use kerbecs.Registry.Lookup.{find_iff, visited}
use kerbecs.Registry.Link.{linked_to, link-linked_to, link_full, cursor-IsValid}
use kerbecs.Registry.Insert.{linked_to-IsValid, at_slot, base_at_slot}

untracked_dead :
    (s : AllocationState)
    → is_tracked s ≡ false
    → state_eq s AllocationState.empty ≡ false
    → state_eq s AllocationState.dead ≡ true
untracked_dead s t e = ground arith

tracked-ne-dead :
    (s : AllocationState) → is_tracked s ≡ true → state_eq s AllocationState.dead ≡ false
tracked-ne-dead s t = ground arith

-- Node `k` was just handed out for the allocation.
pub record Inserted (r : AllocationRegistry) (k : ℕ) (a : Allocation) : Type 0 where
  pub found : find r a.block_base ≡ some k
  pub live : state_of r k ≡ AllocationState.live
  pub objects : (node_at r.node_pool k).live_count ≡ a.object_count
  pub older :
      (i : ℕ)
      → i < k
      → base_of r i ≡ a.block_base
      → (state_eq (state_of r i) AllocationState.dead ≡ true)
        × (generation_of r i < generation_of r k)

nonnull : {n : ℕ} → n ≢ 0 → (n == 0) ≡ false
nonnull h = ground arith

module _ (r : AllocationRegistry) (w : IsValid r) (a : Allocation) where
  abbrev scan : Option ℕ
  scan = next_generation r.node_pool a.block_base (chain_of r a.block_base) 1

  -- With no tracked node of the block, each node that the scan meets is dead.
  scan_passes : find r a.block_base ≡ none → a.block_base ≢ 0 → (g : ℕ) × (scan ≡ some g)
  scan_passes missing nz = scan_free r.node_pool a.block_base (chain_of r a.block_base) 1 λ i m e.
      let l = (visited r w a.block_base i m).0 in
      untracked_dead (state_of r i) (untracked i l e) (w.present i l).0
    where
      untracked :
          (i : ℕ) → i < used r → base_of r i ≡ a.block_base → is_tracked (state_of r i) ≡ false
      untracked i l e = elim (Bool-cases (is_tracked (state_of r i))) [
        | inl t ↦ absurd (cc (missing, (find_iff r w a.block_base i).1 (nz, l, t, e)))
        | inr f ↦ f
      ]

  scan_stops : (i : ℕ) → find r a.block_base ≡ some i → scan ≡ none
  scan_stops i e =
      let (nz, l, t, b) = (find_iff r w a.block_base i).0 e in
      scan_taken r.node_pool a.block_base (chain_of r a.block_base) 1 i (rw b at (w.linked i l)) b
        (tracked-ne-dead (state_of r i) t)

  -- A block that is still tracked is refused, and nothing changes.
  pub insert_taken :
      (st : KerbecsStats) (i : ℕ) → find r a.block_base ≡ some i → insert r st a ≡ (false, r, st)
  unfolding insert insert_scanned report_insert
  insert_taken st i e =
      rw (nonnull ((find_iff r w a.block_base i).0 e).0)
        (ap (insert_scanned r st a) (scan_stops i e))

  -- With the pool used up, `insert` fails and changes the cursor only.
  pub insert_full :
      (st : KerbecsStats)
      → find r a.block_base ≡ none
      → a.block_base ≢ 0
      → r.node_capacity ≤ r.node_cursor
      → insert r st a ≡ (false, record r { node_cursor = add_word r.node_cursor 1 }, st)
  unfolding insert insert_scanned report_insert
  insert_full st missing nz full =
      let (g, e) = scan_passes missing nz in
      rw (nonnull nz)
        (ap (insert_scanned r st a) e ∙ ap (report_insert a st) (link_full r a g full))

  pub insert_fresh :
      (st : KerbecsStats)
      → find r a.block_base ≡ none
      → a.block_base ≢ 0
      → r.node_cursor < r.node_capacity
      → (g : ℕ) × (scan ≡ some g)
        × (insert r st a ≡ (true, linked_to r a g, stats_on_init a.block_size st))
  unfolding insert insert_scanned report_insert
  insert_fresh st missing nz room =
      let (g, e) = scan_passes missing nz in
      (
        g,
        e,
        rw (nonnull nz)
            (ap (insert_scanned r st a) e ∙ ap (report_insert a st) (link-linked_to r a g room)),
      )

  pub insert_null : (st : KerbecsStats) → a.block_base ≡ 0 → insert r st a ≡ (false, r, st)
  unfolding insert insert_scanned report_insert
  insert_null st z = rw ((==_iff a.block_base 0).1 z)

  -- Whatever it answers, `insert` keeps a registry well-formed, unless the cursor wraps at 2 ^ 64.
  pub insert-IsValid : (st : KerbecsStats) → r.node_cursor + 1 < 2 ^ 64 → IsValid (insert r st a).1
  insert-IsValid st small = elim (ℕ_discrete a.block_base 0) [
    | yes z ↦ rw (insert_null st z) w
    | no nz ↦ elim (Option-cases (find r a.block_base)) [
      | inr (i, e) ↦ rw (insert_taken st i e) w
      | inl e ↦ elim (dec_lt r.node_cursor r.node_capacity) [
        | no full ↦
            rw (insert_full st e nz (omega arith))
              (cursor-IsValid r (add_word r.node_cursor 1) w (omega arith) (omega arith))
        | yes room ↦
            let (g, s, h) = insert_fresh st e nz room in rw h (linked_to-IsValid r a g w room nz s)
      ]
    ]
  ]

  -- In a well-formed registry `insert` succeeds exactly on a block that is not null and that no tracked node holds, while the
  -- pool has room.
  pub insert_iff :
      (st : KerbecsStats)
      → ((insert r st a).0 ≡ true)
        ↔ ((a.block_base ≢ 0) × (find r a.block_base ≡ none) × (r.node_cursor < r.node_capacity))
  insert_iff st = elim (ℕ_discrete a.block_base 0) [
    | yes z ↦ rw (insert_null st z) ((λ e. absurd (cc)), (λ p. absurd (p.0 z)))
    | no nz ↦ elim (Option-cases (find r a.block_base)) [
      | inr (i, e) ↦ rw (insert_taken st i e) ((λ c. absurd (cc)), (λ p. cc))
      | inl e ↦ elim (dec_lt r.node_cursor r.node_capacity) [
        | no full ↦
            rw (insert_full st e nz (omega arith)) ((λ c. absurd (cc)), (λ p. absurd (full p.2)))
        | yes room ↦
            let (g, s, h) = insert_fresh st e nz room in rw h ((λ c. (nz, e, room)), (λ p. refl))
      ]
    ]
  ]

  linked_to-Inserted :
      (g : ℕ)
      → a.block_base ≢ 0
      → r.node_cursor < r.node_capacity
      → scan ≡ some g
      → Inserted (linked_to r a g) r.node_cursor a
  linked_to-Inserted g nz room s =
      let v = linked_to-IsValid r a g w room nz s in
      let at = at_slot r a g w room nz s in
      let base = base_at_slot r a g w room nz s in
      let last : r.node_cursor < used (linked_to r a g) = omega (arith, w.capacity_in) in
      record {
        found =
            (find_iff (linked_to r a g) v a.block_base r.node_cursor).1
              (nz, last, ap (λ (n : RegistryNode). is_tracked n.state) at, base);
        live = ap (λ (n : RegistryNode). n.state) at;
        objects = ap (λ (n : RegistryNode). n.live_count) at;
        older = λ i l e. v.superseded i r.node_cursor l last (e ∙ sym base);
      }

  -- After a success in a well-formed registry `find` gives the new node, which is live and has the caller's count of objects,
  -- and whose generation is above that of each earlier node of the block, all of them dead.
  pub insert-Inserted :
      (st : KerbecsStats) → (insert r st a).0 ≡ true → Inserted (insert r st a).1 r.node_cursor a
  insert-Inserted st done =
      let (nz, missing, room) = (insert_iff st).0 done in
      let (g, s, h) = insert_fresh st missing nz room in rw h (linked_to-Inserted g nz room s)

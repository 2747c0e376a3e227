-- ===== src/Region/Answers.antt =====
-- `allocate` answers, whatever the allocator, the registry and the map say.
use native.Mathlib.Decide.{ℕ_discrete}
use kerbecs.Common.{
  ℕ, ◌+◌, ◌-◌, ◌*◌, ◌/◌, ◌^◌, max, ◌≤◌, ◌<◌, ◌≡◌, ◌⊎◌, refl, sym, ap, ◌∙◌, Bool, true, false, not,
  ◌||◌, ltb, ◌==◌, Bool-cases, inl, inr, Option, some,
}
use kerbecs.Memory.Pages.{System, IsSystem, AreMapped}
use kerbecs.Memory.Align.{IsAlignment}
use kerbecs.Layout.Pattern.{Memory}
use kerbecs.Layout.Policy.{LayoutPolicy, IsLayout}
use kerbecs.Stats.{KerbecsStats}
use kerbecs.Violation.{overlap_detected}
use kerbecs.Registry.{AllocationRegistry, insert, find}
use kerbecs.Registry.Invariant as Registry
use kerbecs.Registry.Outcome.{insert-Inserted}
use kerbecs.ShadowedMemory.{Handle}
use kerbecs.Region.{
  MemorySupport, Region, World, Caller, registry_of, with_registry, with_counters, report_violation,
}
use kerbecs.Region.Shadow.{contains, set_shadow}
use kerbecs.Region.Shadow.Marks.{AreBytes}
use kerbecs.Region.Shadow.Map.{
  set_shadow_answers, clearing_answers, set_shadow-runs, set_shadow-poisons,
}
use kerbecs.Region.Allocate.{
  Request, Place, allocation_of, publish, after_unshade, after_insert, after_shade, shade,
  after_block, take_block, allocate,
}
use kerbecs.Region.Granted.{place_of, placed_world}
use kerbecs.Region.Allocated.{IsSupport, Allocated, allocate-Allocated}

module _ {A S : Type 0} (support : MemorySupport A) (sys : System S) (layout : LayoutPolicy)
    (r : Region) (c : Caller) (law : IsSystem sys) where
  abbrev Answers : Option (Handle × World A S) → Type 0
  Answers o = (x : Handle × World A S) × (o ≡ some x)

  unshade-Answers :
      (q : Request) (p : Place) (w : World A S) (o : Option (Bool × S × Memory))
      (t : Bool × S × Memory)
      → o ≡ some t
      → Answers (after_unshade support sys layout r c q p w o)
  unfolding after_unshade
  unshade-Answers q p w o t e = rw e (_, refl)

  insert-Answers :
      (q : Request) (p : Place) (w : World A S) (t : Bool × AllocationRegistry × KerbecsStats)
      → Registry.IsValid (registry_of r w)
      → AreBytes w.shadow
      → insert (registry_of r w) w.shared.ledger.stats (allocation_of support sys layout r c q p)
        ≡ t
      → Answers (after_insert support sys layout r c q p w t)
  unfolding after_insert publish report_violation
  insert-Answers q p w (false, reg, st) v b e =
      let u =
        report_violation overlap_detected p.payload p.block q.block_size c
          (with_counters st (with_registry r reg w)) in
      let (t, cleared) =
        clearing_answers sys r.region_base r.size r.shadow_blob p.payload q.user_size u.pages
          u.shadow b in
      unshade-Answers q p u
        (set_shadow sys r.region_base r.size r.shadow_blob p.payload q.user_size false u.pages
          u.shadow)
        t cleared
  insert-Answers q p w (true, reg, st) v b e =
      let a = allocation_of support sys layout r c q p in
      let done : (insert (registry_of r w) w.shared.ledger.stats a).0 ≡ true =
        ap (λ (x : Bool × AllocationRegistry × KerbecsStats). x.0) e in
      let found = (insert-Inserted (registry_of r w) v a w.shared.ledger.stats done).found in
      let there : find reg p.block ≡ some (registry_of r w).node_cursor =
        ap (λ (x : Bool × AllocationRegistry × KerbecsStats). find x.1 p.block) (sym e) ∙ found in
      rw there (_, refl)

  shade-Answers :
      (q : Request) (p : Place) (w : World A S)
      → AreMapped sys w.pages r.shadow_blob r.size
      → Registry.IsValid (registry_of r w)
      → AreBytes w.shadow
      → Answers (after_shade support sys layout r c q p w (shade support sys layout r c q p w))
  unfolding after_shade shade
  shade-Answers q p w zone v b =
      elim (Bool-cases (contains r.region_base r.size p.payload q.user_size)) [
        | inr out ↦ rw out (_, refl)
        | inl within ↦
            let (t, e) =
              set_shadow_answers sys r.region_base r.size r.shadow_blob p.payload q.user_size
                w.pages w.shadow law zone in
            rw (within, e) (shaded q p w t v b e)
      ]
    where
      shaded :
          (q : Request) (p : Place) (w : World A S) (t : Bool × S × Memory)
          → Registry.IsValid (registry_of r w)
          → AreBytes w.shadow
          → set_shadow sys r.region_base r.size r.shadow_blob p.payload q.user_size true w.pages
              w.shadow
            ≡ some t
          → Answers (after_shade support sys layout r c q p w (some t))
      shaded q p w (false, pages, shadow) v b e = (_, refl)
      shaded q p w (true, pages, shadow) v b e =
          let u = record w { pages = pages; shadow = shadow } in
          let (inside, map) =
            set_shadow-runs sys r.region_base r.size r.shadow_blob p.payload q.user_size w.pages
              w.shadow true pages shadow e in
          let bytes =
            (set_shadow-poisons sys r.region_base r.size r.shadow_blob p.payload q.user_size w.pages
              w.shadow (true, pages, shadow) b inside map e).marked.bytes in
          insert-Answers q p u
            (insert (registry_of r u) u.shared.ledger.stats
              (allocation_of support sys layout r c q p))
            v bytes refl

  allocate-Answers :
      (type_size type_align count align : ℕ) (w : World A S)
      → AreMapped sys w.pages r.shadow_blob r.size
      → Registry.IsValid (registry_of r w)
      → AreBytes w.shadow
      → Answers (allocate support sys layout r c type_size type_align count align w)
  unfolding allocate take_block after_block
  allocate-Answers type_size type_align count align w zone v b =
      elim (Bool-cases (not r.initialized || (r.region_base == 0) || (count == 0))) [
        | inl refused ↦ rw refused (_, refl)
        | inr goes ↦ elim (Bool-cases (ltb ((2 ^ 64 - 1) / type_size) count)) [
          | inl many ↦ rw (goes, many) (_, refl)
          | inr few ↦
              let bytes = count * type_size in
              let block_size = layout.block_size bytes (max align type_align) in
              let q : Request = record {
                count = count;
                user_size = bytes;
                alignment = max align type_align;
                block_size = block_size;
              } in
              let taken = support.allocate w.allocator block_size (max align type_align) in
              elim (Bool-cases (ltb block_size bytes)) [
                | inl over ↦ rw (goes, few, over) (_, refl)
                | inr fits ↦ elim (Bool-cases (taken.0 == 0)) [
                  | inl null ↦ rw (goes, few, fits, null) (_, refl)
                  | inr there ↦
                      let u = record w { allocator = taken.1 } in
                      rw (goes, few, fits, there)
                        (shade-Answers q (place_of support sys layout r c q u taken.0)
                          (placed_world support sys layout r c q u taken.0) zone v b)
                ]
              ]
        ]
      ]

  -- For objects of one byte or more and a power of two as the larger alignment, over a layout that keeps its
  -- laws, a shadow map of bytes whose addresses the system calls reserved or committed in the state of the call,
  -- a system whose `protect` unmaps none, an allocator whose blocks end inside the address space, and a
  -- well-formed registry whose cursor does not wrap: `allocate` answers, and gives a null handle or one that is as `Allocated` describes, for
  -- `count` objects of the thread.
  pub allocate-Outcome :
      IsLayout layout
      → IsSupport support
      → (type_size type_align count align : ℕ) (w : World A S) → 1 ≤ type_size
      → IsAlignment (max align type_align)
      → AreMapped sys w.pages r.shadow_blob r.size
      → Registry.IsValid (registry_of r w)
      → (registry_of r w).node_cursor + 1 < 2 ^ 64
      → AreBytes w.shadow
      → (h : Handle) × (w' : World A S) × (allocate support sys layout r c type_size type_align
            count align w
          ≡ some (h, w'))
        × ((h.payload_ptr ≡ 0)
            ⊎ Allocated r c.thread
                (count * type_size)
                (layout.block_size (count * type_size) (max align type_align))
                (max align type_align)
                count
                w.memory
                w.shadow
                h
                w')
  allocate-Outcome places ok type_size type_align count align w sized al zone v room b =
      let ((h, w'), e) = allocate-Answers type_size type_align count align w zone v b in
      elim (ℕ_discrete h.payload_ptr 0) [
        | yes null ↦ (h, w', e, inl null)
        | no there ↦ (
          h,
          w',
          e,
          inr (
              allocate-Allocated support sys layout r c places ok type_size type_align count align w
                h w' sized al v room b e there),
        )
      ]

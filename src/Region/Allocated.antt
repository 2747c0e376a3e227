-- ===== src/Region/Allocated.antt =====
-- What a handle of `Region::allocate` stands for.
use mathlib.Core.Path.{subst}
use native.Mathlib.Nat.{le-div_iff_mul-le}
use kerbecs.Common.{
  ℕ, ◌+◌, ◌-◌, ◌*◌, ◌/◌, ◌%◌, ◌^◌, max, ◌≤◌, ◌<◌, ◌≡◌, ◌≢◌, refl, sym, ap, ◌∙◌, arith, Bool, true,
  false, not, ◌||◌, ltb, ◌==◌, ==_iff, Bool-cases, inl, inr, some,
}
use kerbecs.Memory.Align.{IsAlignment}
use kerbecs.Stats.{KerbecsStats}
use kerbecs.Violation.{size_overflow}
use kerbecs.Registry.{AllocationRegistry, node_at, insert, find}
use kerbecs.Registry.Node.{AllocationState}
use kerbecs.Registry.Invariant.{state_of, generation_of}
use kerbecs.Registry.Invariant as Registry
use kerbecs.Registry.Outcome.{Inserted, insert-Inserted, insert-IsValid}
use kerbecs.Registry.Generation.{insert-generation, insert-thread}
use kerbecs.Layout.Pattern.{Memory}
use kerbecs.Layout.Policy.{LayoutPolicy, IsLayout, Placed}
use kerbecs.Memory.Pages.{System}
use kerbecs.ShadowedMemory.{AccessInfo, Handle}
use kerbecs.Region.{
  MemorySupport, Region, World, Caller, access_info_size, registry_of, report_violation, set_info,
}
use kerbecs.Region.Shadow.Marks.{AreBytes, Marked}
use kerbecs.Region.Shadow.Map.{IsInside, set_shadow-runs, set_shadow-poisons}
use kerbecs.Region.Allocate.{Request, allocation_of, take_block, allocate}
use kerbecs.Region.Granted.{
  registry_of-with_registry, place_of, placed_world, Granted, after_block-Granted, null_answer,
}

-- What a region relies on of its allocator: a block that it gives ends inside the address space.
pub record IsSupport {A : Type 0} (support : MemorySupport A) : Type 0 where
  pub in_space :
      (a : A) (bytes align : ℕ)
      → (support.allocate a bytes align).0 ≢ 0
      → (support.allocate a bytes align).0 + bytes ≤ 2 ^ 64

-- A handle over `user_size` bytes for `count` objects, as `allocate` leaves the region: the payload
-- lies inside the region and its block, aligned from the block's start, poisoned and not written to;
-- the registry tracks the block as live with all its objects, as the thread's; the access info is the one of the
-- block's slot and agrees with the handle, whose generation is not 0.
pub record Allocated {A S : Type 0} (r : Region) (thread user_size block_size align count : ℕ)
    (memory shadow : Memory) (h : Handle) (w' : World A S) : Type 0 where
  pub block : ℕ
  pub inside : IsInside r.region_base r.size h.payload_ptr user_size
  pub lower : block ≤ h.payload_ptr
  pub upper : h.payload_ptr + user_size ≤ block + block_size
  pub aligned : (h.payload_ptr - block) % align ≡ 0
  pub slot : ℕ
  pub slot_info : h.meta_ptr ≡ r.metadata_base + slot * access_info_size
  pub valid : Registry.IsValid (registry_of r w')
  pub found : find (registry_of r w') block ≡ some slot
  pub live : state_of (registry_of r w') slot ≡ AllocationState.live
  pub owner : (node_at (registry_of r w').node_pool slot).thread_id ≡ thread
  pub objects : (node_at (registry_of r w').node_pool slot).live_count ≡ count
  pub info_size : (w'.infos h.meta_ptr).user_size ≡ user_size
  pub info_generation : (w'.infos h.meta_ptr).generation ≡ h.generation
  pub generation_there : 1 ≤ h.generation
  pub poisoned :
      Marked true
        (λ a. false)
        r.shadow_blob
        (h.payload_ptr - r.region_base)
        (h.payload_ptr - r.region_base + user_size)
        shadow
        w'.shadow
  pub payload_kept :
      (j : ℕ) → j < user_size → w'.memory (h.payload_ptr + j) ≡ memory (h.payload_ptr + j)

abbrev request_of : LayoutPolicy → ℕ → ℕ → ℕ → ℕ → Request
request_of layout type_size type_align count align = record {
  count = count;
  user_size = count * type_size;
  alignment = max align type_align;
  block_size = layout.block_size (count * type_size) (max align type_align);
}

set_info-own : (infos : ℕ → AccessInfo) (p : ℕ) (info : AccessInfo) → set_info infos p info p ≡ info
set_info-own infos p info = let same = (==_iff p p).1 refl in rw same refl

module _ {A S : Type 0} (support : MemorySupport A) (sys : System S) (layout : LayoutPolicy)
    (r : Region) (c : Caller) (places : IsLayout layout) where
  granted-Allocated :
      (q : Request) (w : World A S) (block : ℕ) (h : Handle) (w' : World A S)
      → q.block_size ≡ layout.block_size q.user_size q.alignment
      → IsAlignment q.alignment
      → q.user_size < 2 ^ 64
      → q.user_size ≤ q.block_size
      → block + q.block_size ≤ 2 ^ 64
      → Registry.IsValid (registry_of r w)
      → (registry_of r w).node_cursor + 1 < 2 ^ 64
      → AreBytes w.shadow
      → Granted support sys layout r c q w block h w'
      → Allocated r c.thread q.user_size q.block_size q.alignment q.count w.memory w.shadow h w'
  granted-Allocated q w block h w' sized al small passed space v room bytes g =
      let k = g.published in
      let p = place_of support sys layout r c q w block in
      let a = allocation_of support sys layout r c q p in
      let reg = registry_of r w in
      let st = w.shared.ledger.stats in
      let placed =
        subst
          (λ (n : ℕ).
            Placed w.memory block n q.user_size q.alignment
              (layout.place w.memory block n q.user_size q.alignment))
          (sym sized)
          (places.places w.memory block q.user_size q.alignment g.block_there al small
            (rw sized at passed)) in
      let ws = record (placed_world support sys layout r c q w block) {
        pages = g.pages;
        shadow = g.shadow;
      } in
      let here : registry_of r w' ≡ k.reg =
        ap (λ (x : World A S). registry_of r x) k.world ∙ registry_of-with_registry r k.reg ws in
      let done : (insert reg st a).0 ≡ true =
        ap (λ (x : Bool × AllocationRegistry × KerbecsStats). x.0) k.inserted in
      let there : (insert reg st a).1 ≡ registry_of r w' =
        ap (λ (x : Bool × AllocationRegistry × KerbecsStats). x.1) k.inserted ∙ sym here in
      let ins =
        subst (λ (z : AllocationRegistry). Inserted z reg.node_cursor a) there
          (insert-Inserted reg v a st done) in
      let found_here : find (registry_of r w') block ≡ some k.slot =
        ap (λ (z : AllocationRegistry). find z block) here ∙ k.found in
      let same : k.slot ≡ reg.node_cursor = cc (found_here, ins.found) in
      let raised =
        subst (λ (z : AllocationRegistry). 1 ≤ generation_of z reg.node_cursor) there
          (insert-generation reg v a st done) in
      let gen : h.generation ≡ generation_of (registry_of r w') reg.node_cursor =
        ap (λ (x : Handle). x.generation) k.handle
        ∙ ap (λ (n : ℕ). generation_of k.reg n) same
        ∙ ap (λ (z : AllocationRegistry). generation_of z reg.node_cursor) (sym here) in
      let payload : h.payload_ptr ≡ p.payload = ap (λ (x : Handle). x.payload_ptr) k.handle in
      let (inside, map_there) =
        set_shadow-runs sys r.region_base r.size r.shadow_blob p.payload q.user_size w.pages
          w.shadow true g.pages g.shadow g.shaded in
      let marks =
        set_shadow-poisons sys r.region_base r.size r.shadow_blob p.payload q.user_size w.pages
          w.shadow (true, g.pages, g.shadow) bytes inside map_there g.shaded in
      let off = (layout.place w.memory block q.block_size q.user_size q.alignment).0 in
      let at : h.payload_ptr ≡ block + off =
        payload ∙ omega (arith, placed.inside, inside.some_bytes, space) in
      let stored = ap (λ (x : World A S). x.infos h.meta_ptr) k.world in
      let info : w'.infos h.meta_ptr ≡ (record {
        user_size = q.user_size;
        generation = (node_at k.reg.node_pool k.slot).generation;
      }) =
        stored
        ∙ set_info-own w.infos h.meta_ptr (record {
          user_size = q.user_size;
          generation = (node_at k.reg.node_pool k.slot).generation;
        }) in
      let poison =
        subst
          (λ (n : ℕ).
            Marked true (λ a. false) r.shadow_blob (p.payload - r.region_base) n w.shadow g.shadow)
          (marks.complete refl) marks.marked in
      let poison_at =
        subst
          (λ (n : ℕ).
            Marked true (λ a. false) r.shadow_blob (n - r.region_base)
              (n - r.region_base + q.user_size) w.shadow g.shadow)
          (sym payload) poison in
      record {
        block = block;
        inside =
            subst (λ (n : ℕ). IsInside r.region_base r.size n q.user_size) (sym payload) inside;
        lower = omega (arith, at);
        upper = omega (arith, at, placed.inside);
        aligned = (rw at (ap (λ (n : ℕ). n % q.alignment) (omega arith) ∙ placed.aligned));
        slot = reg.node_cursor;
        slot_info =
            ap (λ (x : Handle). x.meta_ptr) k.handle
            ∙ ap (λ (n : ℕ). r.metadata_base + n * access_info_size) same;
        valid =
            subst (λ (z : AllocationRegistry). Registry.IsValid z) there
              (insert-IsValid reg v a st room);
        found = ins.found;
        live = ins.live;
        owner =
            subst
              (λ (z : AllocationRegistry).
                (node_at z.node_pool reg.node_cursor).thread_id ≡ c.thread)
              there (insert-thread reg v a st done);
        objects = ins.objects;
        info_size = ap (λ (x : AccessInfo). x.user_size) info;
        info_generation =
            ap (λ (x : AccessInfo). x.generation) info
            ∙ sym (ap (λ (x : Handle). x.generation) k.handle);
        generation_there = omega (arith, gen, raised);
        poisoned =
            subst
              (λ (m : Memory).
                Marked true (λ a. false) r.shadow_blob (h.payload_ptr - r.region_base)
                  (h.payload_ptr - r.region_base + q.user_size) w.shadow m)
              (sym (ap (λ (x : World A S). x.shadow) k.world)) poison_at;
        payload_kept = λ j l.
            ap (λ (x : World A S). x.memory (h.payload_ptr + j)) k.world
            ∙ ap (placed_world support sys layout r c q w block).memory
                (ap (λ (n : ℕ). n + j) at ∙ omega arith)
            ∙ placed.payload_kept (off + j) (omega arith) (omega arith)
            ∙ ap w.memory (sym (ap (λ (n : ℕ). n + j) at ∙ omega arith));
      }

  taken-Granted :
      (q : Request) (w : World A S) (h : Handle) (w' : World A S)
      → take_block support sys layout r c q w ≡ some (h, w')
      → h.payload_ptr ≢ 0
      → let taken = support.allocate w.allocator q.block_size q.alignment in
        (q.user_size ≤ q.block_size)
        × Granted support sys layout r c q (record w { allocator = taken.1 }) taken.0 h w'
  unfolding take_block
  taken-Granted q w h w' e nz = elim (Bool-cases (ltb q.block_size q.user_size)) [
    | inl over ↦ absurd (
        nz (
          null_answer support sys layout r c (report_violation size_overflow 0 0 q.user_size c w) h
            w' (rw over at e)))
    | inr fits ↦
        let taken = support.allocate w.allocator q.block_size q.alignment in
        (
          ground arith,
          after_block-Granted support sys layout r c q (record w { allocator = taken.1 }) taken.0 h
              w' (rw fits at e) nz,
        )
  ]

  -- A handle of `allocate` that is not null, for objects of one byte or more and a power of two as the
  -- larger alignment, over a layout that keeps its laws, an allocator whose blocks end
  -- inside the address space, a well-formed registry whose cursor does not wrap and a shadow map of
  -- bytes, is the handle that `Allocated` describes, for `count` objects.
  pub allocate-Allocated :
      IsSupport support
      → (type_size type_align count align : ℕ) (w : World A S) (h : Handle) (w' : World A S)
      → 1 ≤ type_size
      → IsAlignment (max align type_align)
      → Registry.IsValid (registry_of r w)
      → (registry_of r w).node_cursor + 1 < 2 ^ 64
      → AreBytes w.shadow
      → allocate support sys layout r c type_size type_align count align w ≡ some (h, w')
      → h.payload_ptr ≢ 0
      → Allocated r c.thread
          (count * type_size)
          (layout.block_size (count * type_size) (max align type_align))
          (max align type_align)
          count
          w.memory
          w.shadow
          h
          w'
  unfolding allocate
  allocate-Allocated ok type_size type_align count align w h w' sized al v room bytes e nz =
      elim (Bool-cases (not r.initialized || (r.region_base == 0) || (count == 0))) [
        | inl refused ↦ absurd (nz (null_answer support sys layout r c w h w' (rw refused at e)))
        | inr goes ↦ elim (Bool-cases (ltb ((2 ^ 64 - 1) / type_size) count)) [
          | inl many ↦ absurd (
              nz (
                null_answer support sys layout r c (report_violation size_overflow 0 0 count c w) h
                  w' (rw many at (rw goes at e))))
          | inr few ↦
              let q = request_of layout type_size type_align count align in
              let taken = support.allocate w.allocator q.block_size q.alignment in
              let (passed, g) = taken-Granted q w h w' (rw few at (rw goes at e)) nz in
              let small : count * type_size ≤ 2 ^ 64 - 1 =
                (le-div_iff_mul-le sized).0 (ground arith) in
              granted-Allocated q (record w { allocator = taken.1 }) taken.0 h w' refl al
                (omega arith) passed
                (ok.in_space w.allocator q.block_size q.alignment g.block_there) v room bytes g
        ]
      ]

-- ===== src/Region/Granted.antt =====
-- What a `Region::allocate` that gives a handle has gone through.
use kerbecs.Common.{
  ℕ, ◌≡◌, ◌≢◌, refl, sym, ap, ◌∙◌, arith, Bool, true, false, ◌==◌, ==_iff, Bool-cases, inl, inr,
  Option, none, some, add_word,
}
use kerbecs.Stats.{KerbecsStats}
use kerbecs.Violation.{overlap_detected, wild_pointer}
use kerbecs.Registry.{AllocationRegistry, node_at, insert, find}
use kerbecs.Layout.Pattern.{Memory}
use kerbecs.Layout.Policy.{LayoutPolicy}
use kerbecs.Memory.Pages.{System}
use kerbecs.ShadowedMemory.{Handle, null_handle}
use kerbecs.Region.{
  MemorySupport, Region, World, Caller, registry_of, with_registry, with_counters, report_violation,
  set_info,
}
use kerbecs.Region.Shadow.{contains, set_shadow}
use kerbecs.Region.Allocate.{
  Request, Place, allocation_of, handle_of, give_back, publish, after_unshade, after_insert,
  after_shade, shade, after_block,
}

pub registry_of-with_registry :
    {A S : Type 0} (r : Region) (reg : AllocationRegistry) (w : World A S)
    → registry_of r (with_registry r reg w) ≡ reg
registry_of-with_registry r reg w =
    let same = (==_iff r.registry_ptr r.registry_ptr).1 refl in rw same refl

module _ {A S : Type 0} (support : MemorySupport A) (sys : System S) (layout : LayoutPolicy)
    (r : Region) (c : Caller) where
  abbrev pub place_of : Request → World A S → ℕ → Place
  place_of q w block = record {
    block = block;
    payload = add_word block (layout.place w.memory block q.block_size q.user_size q.alignment).0;
  }

  abbrev pub placed_world : Request → World A S → ℕ → World A S
  placed_world q w block = record w {
    memory = (layout.place w.memory block q.block_size q.user_size q.alignment).1;
  }

  -- The path from the insertion on.
  pub record Published (q : Request) (p : Place) (w : World A S) (h : Handle) (w' : World A S)
      : Type 0 where
    pub reg : AllocationRegistry
    pub st : KerbecsStats
    pub slot : ℕ
    pub inserted :
        insert (registry_of r w) w.shared.ledger.stats (allocation_of support sys layout r c q p)
        ≡ (true, reg, st)
    pub found : find reg p.block ≡ some slot
    pub handle : h ≡ handle_of support sys layout r c p slot (node_at reg.node_pool slot).generation
    pub world : w' ≡ record (with_counters st (with_registry r reg w)) {
      infos = set_info w.infos h.meta_ptr (record {
        user_size = q.user_size;
        generation = (node_at reg.node_pool slot).generation;
      });
    }

  publish-inverts :
      (q : Request) (p : Place) (w : World A S) (o : Option ℕ) (h : Handle) (w' : World A S)
      → publish support sys layout r c q p w o ≡ some (h, w')
      → (slot : ℕ) × (o ≡ some slot)
        × (h
            ≡ handle_of support sys layout r c p slot
                (node_at (registry_of r w).node_pool slot).generation)
        × (w' ≡ record w {
          infos = set_info w.infos h.meta_ptr (record {
            user_size = q.user_size;
            generation = (node_at (registry_of r w).node_pool slot).generation;
          });
        })
  unfolding publish
  publish-inverts q p w none h w' e = absurd (cc)
  publish-inverts q p w (some slot) h w' e =
      let g = (node_at (registry_of r w).node_pool slot).generation in
      let k = handle_of support sys layout r c p slot g in
      let pair : ◌≡◌ {A = Handle × World A S}
          (
            k,
            record w {
              infos =
                  set_info w.infos k.meta_ptr (record { user_size = q.user_size; generation = g });
            },
          )
          (h, w') =
        cc in
      let same : k ≡ h = ap (λ (x : Handle × World A S). x.0) pair in
      (
        slot,
        refl,
        sym same,
        sym (ap (λ (x : Handle × World A S). x.1) pair)
            ∙ ap
                (λ (x : Handle). record w {
                  infos =
                      set_info w.infos x.meta_ptr
                        (record { user_size = q.user_size; generation = g });
                })
                same,
      )

  -- A stage that answers with the null handle grants nothing.
  pub null_answer :
      (u : World A S) (h : Handle) (w' : World A S)
      → ◌≡◌ {A = Option (Handle × World A S)} (some (null_handle, u)) (some (h, w'))
      → h.payload_ptr ≡ 0
  null_answer u h w' e =
      let pair : ◌≡◌ {A = Handle × World A S} (null_handle, u) (h, w') = cc in
      ap (λ (x : Handle × World A S). (x.0).payload_ptr) (sym pair)

  unshade-null :
      (q : Request) (p : Place) (w : World A S) (o : Option (Bool × S × Memory)) (h : Handle)
      (w' : World A S)
      → after_unshade support sys layout r c q p w o ≡ some (h, w')
      → h.payload_ptr ≡ 0
  unfolding after_unshade
  unshade-null q p w none h w' e = absurd (cc)
  unshade-null q p w (some (done, pages, shadow)) h w' e =
      null_answer
        (give_back support sys layout r c q p (record w { pages = pages; shadow = shadow })) h w' e

  after_insert-inverts :
      (q : Request) (p : Place) (w : World A S) (t : Bool × AllocationRegistry × KerbecsStats)
      (h : Handle) (w' : World A S)
      → insert (registry_of r w) w.shared.ledger.stats (allocation_of support sys layout r c q p)
        ≡ t
      → after_insert support sys layout r c q p w t ≡ some (h, w')
      → h.payload_ptr ≢ 0
      → Published q p w h w'
  unfolding after_insert
  after_insert-inverts q p w (false, reg, st) h w' i e nz = absurd (
      nz (
        unshade-null q p
          (report_violation overlap_detected p.payload p.block q.block_size c
            (with_counters st (with_registry r reg w)))
          (set_shadow sys r.region_base r.size r.shadow_blob p.payload q.user_size false
            (report_violation overlap_detected p.payload p.block q.block_size c
              (with_counters st (with_registry r reg w))).pages
            (report_violation overlap_detected p.payload p.block q.block_size c
              (with_counters st (with_registry r reg w))).shadow)
          h w' e))
  after_insert-inverts q p w (true, reg, st) h w' i e nz =
      let u = with_counters st (with_registry r reg w) in
      let same : registry_of r u ≡ reg = registry_of-with_registry r reg w in
      let generation = λ (z : AllocationRegistry) (k : ℕ). (node_at z.node_pool k).generation in
      let (slot, f, k, v) = publish-inverts q p u (find reg p.block) h w' e in
      record {
        reg = reg;
        st = st;
        slot = slot;
        inserted = i;
        found = f;
        handle =
            k
            ∙ ap
                (λ (z : AllocationRegistry).
                  handle_of support sys layout r c p slot (generation z slot))
                same;
        world =
            v
            ∙ ap
                (λ (z : AllocationRegistry). record u {
                  infos =
                      set_info w.infos h.meta_ptr
                        (record { user_size = q.user_size; generation = generation z slot });
                })
                same;
      }

  -- The whole path of a block, from the allocator's answer on.
  pub record Granted (q : Request) (w : World A S) (block : ℕ) (h : Handle) (w' : World A S)
      : Type 0 where
    pub block_there : block ≢ 0
    pub within : contains r.region_base r.size (place_of q w block).payload q.user_size ≡ true
    pub pages : S
    pub shadow : Memory
    pub shaded :
        set_shadow sys r.region_base r.size r.shadow_blob
          (place_of q w block).payload
          q.user_size
          true
          w.pages
          w.shadow
        ≡ some (true, pages, shadow)
    pub published :
        Published q
          (place_of q w block)
          (record (placed_world q w block) { pages = pages; shadow = shadow })
          h
          w'

  after_shade-inverts :
      (q : Request) (p : Place) (w : World A S) (o : Option (Bool × S × Memory)) (h : Handle)
      (w' : World A S)
      → after_shade support sys layout r c q p w o ≡ some (h, w')
      → h.payload_ptr ≢ 0
      → (pages : S) × (shadow : Memory) × (o ≡ some (true, pages, shadow))
        × Published q p (record w { pages = pages; shadow = shadow }) h w'
  unfolding after_shade
  after_shade-inverts q p w none h w' e nz = absurd (cc)
  after_shade-inverts q p w (some (false, pages, shadow)) h w' e nz = absurd (
      nz (
        null_answer
          (give_back support sys layout r c q p (
            report_violation wild_pointer p.payload p.block q.block_size c
              (record w { pages = pages; shadow = shadow })))
          h w' e))
  after_shade-inverts q p w (some (true, pages, shadow)) h w' e nz =
      let u = record w { pages = pages; shadow = shadow } in
      (
        pages,
        shadow,
        refl,
        after_insert-inverts q p u
            (insert (registry_of r u) u.shared.ledger.stats
              (allocation_of support sys layout r c q p))
            h w' refl e nz,
      )

  shade-inverts :
      (q : Request) (p : Place) (w : World A S) (pages : S) (shadow : Memory)
      → shade support sys layout r c q p w ≡ some (true, pages, shadow)
      → (contains r.region_base r.size p.payload q.user_size ≡ true)
        × (set_shadow sys r.region_base r.size r.shadow_blob p.payload q.user_size true w.pages
              w.shadow
            ≡ some (true, pages, shadow))
  unfolding shade
  shade-inverts q p w pages shadow e =
      elim (Bool-cases (contains r.region_base r.size p.payload q.user_size)) [
        | inl t ↦ (t, rw t at e)
        | inr f ↦
            let wrong : ◌≡◌ {A = Option (Bool × S × Memory)} (some (false, w.pages, w.shadow))
                (some (true, pages, shadow)) =
              rw f at e in
            absurd (cc)
      ]

  pub after_block-Granted :
      (q : Request) (w : World A S) (block : ℕ) (h : Handle) (w' : World A S)
      → after_block support sys layout r c q w block ≡ some (h, w')
      → h.payload_ptr ≢ 0
      → Granted q w block h w'
  unfolding after_block
  after_block-Granted q w block h w' e nz = elim (Bool-cases (block == 0)) [
    | inl null ↦ absurd (nz (null_answer w h w' (rw null at e)))
    | inr there ↦
        let p = place_of q w block in
        let u = placed_world q w block in
        let (pages, shadow, o, rest) =
          after_shade-inverts q p u (shade support sys layout r c q p u) h w' (rw there at e) nz in
        let (within, set) = shade-inverts q p u pages shadow o in
        record {
          block_there = λ z. absurd (ground arith);
          within = within;
          pages = pages;
          shadow = shadow;
          shaded = set;
          published = rest;
        }
  ]

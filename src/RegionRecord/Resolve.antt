-- ===== src/RegionRecord/Resolve.antt =====
-- What `resolveRegion` finds, and what registering a region changes of it.
use kerbecs.Common.{
  ℕ, zero, suc, ◌+◌, ◌≤◌, ◌<◌, ◌≡◌, ◌≢◌, ◌↔◌, refl, sym, ap, ◌∙◌, arith, Bool, true, false,
  if◌then◌else◌, ◌==◌, Option, none, some, List, get_or, set, replicate, length, length-set,
  length-replicate, get_or-set_self, get_or-set_ne, Bool-cases, inl, inr,
}
use native.Mathlib.Decide.{ℕ_discrete, dec_lt}
use kerbecs.RegionRecord.{
  RegionRecord, blank_record, RegionTable, init_region_table, register_region_record, holds,
  resolve_in, resolve_region,
}

-- A record that holds an address: the address lies in its region.
pub holds_iff :
    (r : RegionRecord) (addr : ℕ)
    → (holds r addr ≡ true)
      ↔ ((r.region_base ≢ 0) × (r.region_base ≤ addr) × (addr < r.region_base + r.region_size))
unfolding holds
holds_iff r addr = ground arith

-- The first of the records from `i` on, `left` of them, that holds the address.
pub record IsFirst (rs : List RegionRecord) (addr i left : ℕ) (r : RegionRecord) : Type 0 where
  pub place : ℕ
  pub from : i ≤ place
  pub below : place < i + left
  pub there : get_or rs place blank_record ≡ r
  pub found : holds r addr ≡ true
  pub first : (j : ℕ) → i ≤ j → j < place → holds (get_or rs j blank_record) addr ≡ false

resolve_in-IsFirst :
    (rs : List RegionRecord) (addr i left : ℕ) (r : RegionRecord)
    → resolve_in rs addr i left ≡ some r
    → IsFirst rs addr i left r
unfolding resolve_in
resolve_in-IsFirst rs addr i zero r e = absurd (ground arith)
resolve_in-IsFirst rs addr i (suc left) r e =
    elim (Bool-cases (holds (get_or rs i blank_record) addr)) [
      | inl hit ↦
          let same : get_or rs i blank_record ≡ r = ground arith in
          record {
            place = i;
            from = omega arith;
            below = omega arith;
            there = same;
            found = ap (λ (x : RegionRecord). holds x addr) (sym same) ∙ hit;
            first = λ j l u. absurd (omega arith);
          }
      | inr miss ↦
          let w = resolve_in-IsFirst rs addr (i + 1) left r (ground arith) in
          record {
            place = w.place;
            from = omega (arith, w.from);
            below = omega (arith, w.below);
            there = w.there;
            found = w.found;
            first = λ j l u. elim (ℕ_discrete j i) [
              | yes same ↦ ap (λ (x : ℕ). holds (get_or rs x blank_record) addr) same ∙ miss
              | no ne ↦ w.first j (omega arith) u
            ];
          }
    ]

IsFirst-resolve_in :
    (rs : List RegionRecord) (addr i left : ℕ) (r : RegionRecord)
    → IsFirst rs addr i left r
    → resolve_in rs addr i left ≡ some r
unfolding resolve_in
IsFirst-resolve_in rs addr i zero r w = absurd (omega (arith, w.from, w.below))
IsFirst-resolve_in rs addr i (suc left) r w = elim (ℕ_discrete w.place i) [
  | yes same ↦
      let here : get_or rs i blank_record ≡ r =
        ap (λ (x : ℕ). get_or rs x blank_record) (sym same) ∙ w.there in
      rw (here, w.found) refl
  | no ne ↦ rw (w.first i (omega arith) (omega (arith, w.from))) (
      IsFirst-resolve_in rs addr (i + 1) left r (record {
        place = w.place;
        from = omega (arith, w.from);
        below = omega (arith, w.below);
        there = w.there;
        found = w.found;
        first = λ j l u. w.first j (omega arith) u;
      }))
]

-- `resolveRegion` gives a record exactly if the address is not null and the record is the first of
-- the registered ones whose region the address lies in.
pub resolve_region_iff :
    (rs : List RegionRecord) (count addr : ℕ) (r : RegionRecord)
    → (resolve_region (record { records = some rs; count = count }) addr ≡ some r)
      ↔ ((addr ≢ 0) × IsFirst rs addr 0 count r)
unfolding resolve_region
resolve_region_iff rs count addr r = elim (ℕ_discrete addr 0) [
  | yes z ↦ (λ e. absurd (ground arith), λ w. absurd (w.0 z))
  | no nz ↦ (
    λ e. (nz, resolve_in-IsFirst rs addr 0 count r (ground arith)),
    λ w. let e = IsFirst-resolve_in rs addr 0 count r w.1 in ground arith,
  )
]

-- The part of the loop below the new record does not see it.
resolve_in-set :
    (rs : List RegionRecord) (addr i left k : ℕ) (r : RegionRecord)
    → i + left ≤ k
    → resolve_in (set rs k r) addr i left ≡ resolve_in rs addr i left
unfolding resolve_in
resolve_in-set rs addr i zero k r h = refl
resolve_in-set rs addr i (suc left) k r h =
    rw
      (
        resolve_in-set rs addr (i + 1) left k r (omega arith),
        get_or-set_ne rs k i r blank_record (λ e. omega arith),
      )
      refl

-- One record more in the loop is looked at last.
unfoldable pub or_else : Option RegionRecord → RegionRecord → ℕ → Option RegionRecord
or_else (some x) r addr = some x
or_else none r addr = if holds r addr then some r else none

resolve_in-last :
    (rs : List RegionRecord) (addr i left k : ℕ) (r : RegionRecord)
    → k ≡ i + left
    → k < length rs
    → resolve_in (set rs k r) addr i (suc left) ≡ or_else (resolve_in rs addr i left) r addr
unfolding resolve_in or_else
resolve_in-last rs addr i zero k r e room =
    let at : get_or (set rs k r) i blank_record ≡ r =
      ap (λ (t : ℕ). get_or (set rs k r) t blank_record) {x = i} {y = k} (omega arith)
      ∙ get_or-set_self rs k r blank_record room in
    rw at refl
resolve_in-last rs addr i (suc left) k r e room =
    let ih = resolve_in-last rs addr (i + 1) left k r (omega arith) room in
    let at = get_or-set_ne rs k i r blank_record (λ q. omega arith) in
    elim (Bool-cases (holds (get_or rs i blank_record) addr)) [
      | inl hit ↦ rw (at, hit) refl
      | inr miss ↦ rw (at, miss) ih
    ]

-- The table is there, with room for `capacity` records.
pub record IsTable (capacity : ℕ) (t : RegionTable) : Type 0 where
  pub slots : List RegionRecord
  pub there : t.records ≡ some slots
  pub room : length slots ≡ capacity
  pub counted : t.count ≤ capacity

-- `initRegionTable` gives a table where there is memory.
pub init_region_table-IsTable :
    (capacity : ℕ) (t : RegionTable)
    → t.records ≡ none
    → IsTable capacity (init_region_table capacity true t).1
unfolding init_region_table
init_region_table-IsTable capacity t e = rw e (record {
  slots = replicate capacity blank_record;
  there = refl;
  room = length-replicate capacity blank_record;
  counted = omega arith;
})

-- What `registerRegionRecord` does to a table that is there, and to what is found in it.
pub record Registered (capacity : ℕ) (t : RegionTable) (r : RegionRecord) (p : Bool × RegionTable)
    : Type 0 where
  pub accepted_iff : (p.0 ≡ true) ↔ ((r.region_ptr ≢ 0) × (t.count < capacity))
  pub table : IsTable capacity p.1
  pub on_refusal : p.0 ≡ false → p.1 ≡ t
  pub on_success :
      p.0 ≡ true
      → (addr : ℕ) → addr ≢ 0
      → resolve_region p.1 addr ≡ or_else (resolve_region t addr) r addr

-- In a table that is there, registering succeeds exactly if the region is not null and the table has room, and else changes
-- nothing; after it every address resolves as before, and one that resolved to no record resolves
-- to the new one if its region holds the address.
pub register_region_record-Registered :
    (capacity : ℕ) (t : RegionTable) (r : RegionRecord)
    → IsTable capacity t
    → Registered capacity t r (register_region_record capacity t r)
unfolding register_region_record resolve_region
register_region_record-Registered capacity t r w = elim (ℕ_discrete r.region_ptr 0) [
  | yes z ↦
      let e : register_region_record capacity t r ≡ (false, t) = rw w.there (ground arith) in
      rw e (record {
        accepted_iff = (λ h. absurd (ground arith), λ h. absurd (h.0 z));
        table = w;
        on_refusal = λ h. refl;
        on_success = λ h. absurd (ground arith);
      })
  | no nz ↦ elim (dec_lt t.count capacity) [
    | no full ↦
        let e : register_region_record capacity t r ≡ (false, t) = rw w.there (ground arith) in
        rw e (record {
          accepted_iff = (λ h. absurd (ground arith), λ h. absurd (full h.1));
          table = w;
          on_refusal = λ h. refl;
          on_success = λ h. absurd (ground arith);
        })
    | yes space ↦
        let e : register_region_record capacity t r
            ≡ (true, record { records = some (set w.slots t.count r); count = t.count + 1 }) =
          rw w.there (ground arith) in
        rw e (record {
          accepted_iff = (λ h. (nz, space), λ h. refl);
          table = record {
            slots = set w.slots t.count r;
            there = refl;
            room = length-set w.slots t.count r ∙ w.room;
            counted = omega arith;
          };
          on_refusal = λ h. absurd (ground arith);
          on_success = λ h addr nz. rw w.there (
              let test : (addr == 0) ≡ false = ground arith in
              let same : t.count + 1 ≡ suc t.count = omega arith in
              rw (test, same)
                (resolve_in-last w.slots addr 0 t.count t.count r (omega arith)
                  (omega (arith, w.room))));
        })
  ]
]

-- ===== src/RegionRecord.antt =====
-- The table of regions of src/Private/RegionRecord.cpp: `resolveRegion` finds the region that an
-- address lies in. Addresses are numbers, 0 for null; the memory of the table is a list of
-- `capacity` records, none where the table is not there.
pub mod Resolve
use kerbecs.Common.{
  ℕ, zero, suc, ◌+◌, ◌-◌, ◌*◌, Bool, true, false, not, ◌&&◌, ◌||◌, if◌then◌else◌, ltb, leb, ◌==◌,
  Option, none, some, List, [], ◌∷◌, get_or, set, replicate,
}

pub record RegionRecord : Type 0 where
  pub region_ptr : ℕ
  pub shadow_map_base : ℕ
  pub metadata_map_base : ℕ
  pub region_base : ℕ
  pub region_size : ℕ

abbrev pub blank_record : RegionRecord
blank_record = record {
  region_ptr = 0;
  shadow_map_base = 0;
  metadata_map_base = 0;
  region_base = 0;
  region_size = 0;
}

pub record RegionTable : Type 0 where
  pub records : Option (List RegionRecord)
  pub count : ℕ

-- `initRegionTable`; `granted` says whether `Memory::allocate` gave memory.
unfoldable pub init_region_table : ℕ → Bool → RegionTable → Bool × RegionTable
init_region_table capacity granted t = elim t.records [
  | some rs ↦ (true, t)
  | none ↦
      if granted
      then (true, record { records = some (replicate capacity blank_record); count = 0 })
      else (false, t)
]

unfoldable pub shutdown_region_table : RegionTable → RegionTable
shutdown_region_table t = record { records = none; count = 0 }

-- `registerRegionRecord`, which holds its lock from the check to the new count.
unfoldable pub register_region_record : ℕ → RegionTable → RegionRecord → Bool × RegionTable
register_region_record capacity t r = elim t.records [
  | none ↦ (false, t)
  | some rs ↦
      if r.region_ptr == 0
      then (false, t)
      else if leb capacity t.count
      then (false, t)
      else (true, record { records = some (set rs t.count r); count = t.count + 1 })
]

-- The test of the loop of `resolveRegion`.
unfoldable pub holds : RegionRecord → ℕ → Bool
holds r addr =
    if r.region_base == 0
    then false
    else leb r.region_base addr && ltb (addr - r.region_base) r.region_size

-- The loop of `resolveRegion` at record `i`, with `left` records to go.
unfoldable pub resolve_in : List RegionRecord → ℕ → ℕ → ℕ → Option RegionRecord
unfolding holds
resolve_in rs addr i zero = none
resolve_in rs addr i (suc left) =
    let rest = resolve_in rs addr (i + 1) left in
    let r = get_or rs i blank_record in if holds r addr then some r else rest

unfoldable pub resolve_region : RegionTable → ℕ → Option RegionRecord
unfolding resolve_in
resolve_region t addr = elim t.records [
  | none ↦ none
  | some rs ↦ if addr == 0 then none else resolve_in rs addr 0 t.count
]

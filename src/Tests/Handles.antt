-- ===== src/Tests/Handles.antt =====
-- A handle of 64 bytes, the metadata of its block, and a table of regions.
use kerbecs.Common.{ℕ, ◌+◌, ◌≡◌, ◌≢◌, ◌↔◌, refl, arith, true, none, some, [], ◌∷◌, pos}
use kerbecs.Stats.{zero_stats}
use kerbecs.Violation.{empty_stack}
use kerbecs.Violation.Stack.{empty_stack-IsValid}
use kerbecs.Layout.Pattern.{Memory}
use kerbecs.Hash.{WyHash64, wy_seed, split_mix_64}
use kerbecs.Registry.Node.{strict}
use kerbecs.Checksums.{NormalMetaData, EnhancedMetaData, verify_enhanced_metadata}
use kerbecs.Checksums.Verify.{IsIntact, verify_enhanced_metadata_iff}
use kerbecs.ShadowedMemory.{AccessInfo, Handle, Monitor, Clock, offset}
use kerbecs.ShadowedMemory.Access.{Offset, shifted, offset-Offset, offset-offset}
use kerbecs.ShadowedMemory.States.{States, shadow_state_of-States}
use kerbecs.RegionRecord.{
  RegionRecord, RegionTable, init_region_table, register_region_record, resolve_region,
}
use kerbecs.RegionRecord.Resolve.{
  IsFirst, Registered, init_region_table-IsTable, resolve_region_iff,
  register_region_record-Registered,
}

abbrev blank : EnhancedMetaData
blank = record {
  total_size = 0;
  total_committed = 0;
  total_poisoned = 0;
  allocator_hash = 0;
  thread_hash = 0;
  checksum = 0;
}

abbrev fresh : WyHash64
fresh = record { state = 0; seed = wy_seed }

abbrev used_before : WyHash64
used_before = record { state = 12345; seed = wy_seed }

verify_enhanced_metadata_iff_example :
    (verify_enhanced_metadata split_mix_64
        (some (record { state = 0 }))
        (some blank)
        (some blank)
        256
        7
        1
        4096
        strict
      ≡ true)
    ↔ IsIntact split_mix_64 (record { state = 0 }) blank 256 7 1 4096 strict
verify_enhanced_metadata_iff_example =
    verify_enhanced_metadata_iff split_mix_64 (record { state = 0 }) blank blank 256 7 1 4096 strict

abbrev blank_normal : NormalMetaData
blank_normal = record {
  total_size = 0;
  total_committed = 0;
  total_poisoned = 0;
  allocator_hash = 0;
}

abbrev size_a : ℕ
size_a = 128

abbrev size_b : ℕ
size_b = 256

abbrev owner : ℕ
owner = 7

abbrev infos : ℕ → AccessInfo
infos p = record { user_size = 64; generation = 2 }

-- The slot has moved on to its second block.
abbrev stale : Handle
stale = record { meta_ptr = 512; payload_ptr = 4112; shadow_ptr = 0; generation = 1 }

abbrev current : Handle
current = record stale { generation = 2 }

abbrev clock : Clock
clock = record { thread = 1; stamp = 77 }

abbrev monitor : Monitor
monitor = record { stats = zero_stats; violations = empty_stack }

offset-Offset_example :
    Offset 8 infos current 9 clock monitor (offset 8 infos current (pos 9) clock monitor)
offset-Offset_example =
    offset-Offset 8 infos current 9 clock monitor (empty_stack-IsValid.0)
      (λ e. absurd (omega arith)) (λ e. absurd (omega arith)) (omega arith)

-- Both moves are inside 64 bytes, and their sum ends 56 bytes behind them.
offset-offset_example :
    (let first = offset 8 infos current (pos 7) clock monitor in
      offset 8 infos first.0 (pos 7) clock first.1)
    ≡ (shifted 8 current (7 + 7), monitor)
offset-offset_example =
    offset-offset 8 infos current 7 7 clock monitor (empty_stack-IsValid.0)
      (λ e. absurd (omega arith)) (λ e. absurd (omega arith)) (omega arith) (omega arith)
      (omega arith)

abbrev cleared : Memory
cleared = λ a. 0

shadow_state_of-States_example : States cleared current 64
shadow_state_of-States_example =
    shadow_state_of-States cleared current 64 (λ e. absurd (omega arith)) (omega arith)

abbrev region : RegionRecord
region = record {
  region_ptr = 9;
  shadow_map_base = 0;
  metadata_map_base = 0;
  region_base = 65536;
  region_size = 8192;
}

abbrev probe : ℕ
probe = 65600

abbrev no_table : RegionTable
no_table = record { records = none; count = 0 }

register_region_record-Registered_example :
    Registered 2
      (init_region_table 2 true no_table).1
      region
      (register_region_record 2 (init_region_table 2 true no_table).1 region)
register_region_record-Registered_example =
    register_region_record-Registered 2 (init_region_table 2 true no_table).1 region
      (init_region_table-IsTable 2 no_table refl)

resolve_region_iff_example :
    (resolve_region (record { records = some (region ∷ []); count = 1 }) probe ≡ some region)
    ↔ ((probe ≢ 0) × IsFirst (region ∷ []) probe 0 1 region)
resolve_region_iff_example = resolve_region_iff (region ∷ []) 1 probe region

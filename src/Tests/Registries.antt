-- ===== src/Tests/Registries.antt =====
-- Registries of four nodes.
use kerbecs.Common.{
  ℕ, ◌+◌, ◌≤◌, ◌<◌, ◌≡◌, ◌≢◌, ◌↔◌, ◌⊎◌, refl, arith, true, none, some, List, [], ◌∷◌,
}
use kerbecs.Stats.{zero_stats}
use kerbecs.Registry.{
  AllocationRegistry, Allocation, node_at, create, init, insert, insert_scanned, report_insert,
  link, link_node, allocate_node, next_generation, chain, bucket_index, find, find_in, find_range,
  begin_node, begin_retiring,
}
use kerbecs.Registry.Node.{AllocationState, strict, flexible, is_tracked}
use kerbecs.Registry.Invariant.{IsValid, used, base_of, state_of}
use kerbecs.Registry.Lookup.{find_iff, find_range_iff}
use kerbecs.Registry.Outcome.{insert_iff, insert-Inserted, Inserted}
use kerbecs.Registry.Retiring.{begin_retiring_iff}
use kerbecs.Registry.Edges.{Follows}
use kerbecs.Registry.History.{
  Call, inserts, begins, settles, retires, step, run, step-Follows, run-init-IsValid,
}
use kerbecs.Registry.Exclusion.{begin_retiring_excludes}

abbrev allocation : ℕ → Allocation
allocation base = record {
  block_base = base;
  user_ptr = base + 16;
  block_size = 128;
  user_size = 64;
  allocator_id = 7;
  thread_id = 1;
  name = 0;
  object_count = 1;
}

abbrev first_base : ℕ
first_base = 4096

abbrev second_base : ℕ
second_base = 8192

abbrev third_base : ℕ
third_base = 12288

abbrev inside : ℕ
inside = 4112

abbrev after_calls : List Call → AllocationRegistry
after_calls cs = (run ((init true (create 4)).1, zero_stats) cs).0

-- Two blocks, then the first again after its life has ended.
abbrev two_blocks : List Call
two_blocks = inserts (allocation first_base) ∷ inserts (allocation second_base) ∷ []

abbrev reused : List Call
reused =
    inserts (allocation first_base)
    ∷ begins first_base 1 strict
    ∷ settles first_base
    ∷ retires first_base
    ∷ inserts (allocation second_base)
    ∷ inserts (allocation first_base)
    ∷ []

two_blocks-IsValid : IsValid (after_calls two_blocks)
two_blocks-IsValid = run-init-IsValid 4 two_blocks (omega arith) (omega arith) (omega arith)

run-init-IsValid_example : IsValid (after_calls reused)
run-init-IsValid_example = run-init-IsValid 4 reused (omega arith) (omega arith) (omega arith)

insert_iff_example :
    ((insert (after_calls two_blocks) zero_stats (allocation third_base)).0 ≡ true) ↔ (
      (third_base ≢ 0)
      × (find (after_calls two_blocks) third_base ≡ none)
      × ((after_calls two_blocks).node_cursor < (after_calls two_blocks).node_capacity))
insert_iff_example =
    insert_iff (after_calls two_blocks) two_blocks-IsValid (allocation third_base) zero_stats

insert-Inserted_example :
    Inserted
      (insert (after_calls two_blocks) zero_stats (allocation third_base)).1
      (after_calls two_blocks).node_cursor
      (allocation third_base)
unfolding step run insert insert_scanned report_insert link link_node allocate_node next_generation
    chain bucket_index init find find_in begin_retiring
insert-Inserted_example =
    insert-Inserted (after_calls two_blocks) two_blocks-IsValid (allocation third_base) zero_stats
      refl

find_iff_example : (find (after_calls two_blocks) first_base ≡ some 0) ↔ (
    (first_base ≢ 0)
    × (0 < used (after_calls two_blocks))
    × (is_tracked (state_of (after_calls two_blocks) 0) ≡ true)
    × (base_of (after_calls two_blocks) 0 ≡ first_base))
find_iff_example = find_iff (after_calls two_blocks) two_blocks-IsValid first_base 0

find_range_iff_example : (find_range (after_calls two_blocks) first_base inside ≡ some 0) ↔ (
    (inside ≢ 0)
    × (find (after_calls two_blocks) first_base ≡ some 0)
    × ((node_at (after_calls two_blocks).node_pool 0).user_ptr ≤ inside)
    × (inside
        < (node_at (after_calls two_blocks).node_pool 0).user_ptr
          + (node_at (after_calls two_blocks).node_pool 0).user_size))
find_range_iff_example =
    find_range_iff (after_calls two_blocks) two_blocks-IsValid first_base inside 0

begin_retiring_iff_example :
    ((begin_retiring (after_calls two_blocks) first_base 1 strict).0 ≡ some 0) ↔ (
      (find (after_calls two_blocks) first_base ≡ some 0)
      × (state_of (after_calls two_blocks) 0 ≡ AllocationState.live)
      × ((strict ≡ flexible) ⊎ (1 ≡ (node_at (after_calls two_blocks).node_pool 0).thread_id)))
begin_retiring_iff_example =
    begin_retiring_iff (after_calls two_blocks) first_base 1 strict 0 two_blocks-IsValid

begin_retiring_excludes_example :
    (begin_retiring
      (begin_retiring (after_calls two_blocks) first_base 1 strict).1
      first_base
      2
      flexible).0
    ≡ none
unfolding begin_retiring begin_node find find_in insert insert_scanned report_insert link link_node
    allocate_node next_generation chain bucket_index step run init
begin_retiring_excludes_example =
    begin_retiring_excludes (after_calls two_blocks) two_blocks-IsValid first_base 1 strict 0 refl 2
      flexible

step-Follows_example :
    Follows
      (after_calls two_blocks)
      (step (after_calls two_blocks, zero_stats) (begins first_base 1 strict)).0
step-Follows_example =
    step-Follows (after_calls two_blocks) zero_stats (begins first_base 1 strict) two_blocks-IsValid

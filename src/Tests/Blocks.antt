-- ===== src/Tests/Blocks.antt =====
-- A block of 100 bytes in each layout, an arena of 8192 bytes, and sizes.
use kerbecs.Common.{
  ℕ, none, some, ◌⊎◌, add_word, sub_word, ◌+◌, ◌-◌, ◌%◌, ◌≤◌, ◌<◌, ◌^◌, ◌≡◌, ◌↔◌, refl, arith, true,
  List, [], ◌∷◌, IsIn,
}
use kerbecs.Memory.{align_up, page_size}
use kerbecs.Memory.Align.{IsAlignment}
use kerbecs.Layout.Pattern.{Memory}
use kerbecs.Layout.Normal as Normal
use kerbecs.Layout.Static as Static
use kerbecs.Layout.Enhanced as Enhanced
use kerbecs.Layout.StaticLaws.{StaticPlaced, place-StaticPlaced}
use kerbecs.Layout.EnhancedLaws.{EnhancedPlaced, place-EnhancedPlaced}
use kerbecs.Layout.NormalLaws.{
  IsGuarded, NormalPlaced, normal_verify_guards_iff, place-NormalPlaced,
}
use kerbecs.Allocators.{BumpAllocator, taken, attempt, pages, page_of, committed_pages}
use kerbecs.Allocators.Reserve.{IsValid, IsRequest, Outcome, attempt-Outcome, attempt_wraps}
use kerbecs.Allocators.Commit.{committed_pages_iff}
use kerbecs.Allocators.Rounds.{Round, AreRounds, Apart, play, play-Apart}

is_16 : IsAlignment 16
is_16 = (4, omega arith, refl)

abbrev memory : Memory
memory = λ a. 0

normal_fits : 100 ≤ Normal.block_size 100 16
unfolding Normal.block_size align_up
normal_fits = omega arith

static_fits : 100 ≤ Static.block_size 100 16
unfolding Static.block_size align_up
static_fits = omega arith

enhanced_fits : 100 ≤ Enhanced.block_size 100 16
unfolding Enhanced.block_size align_up
enhanced_fits = omega arith

normal_verify_guards_iff_example :
    (Normal.verify_guards memory 4096 (Normal.offsets 100 16) ≡ true)
    ↔ IsGuarded memory 4096 (Normal.offsets 100 16)
normal_verify_guards_iff_example =
    normal_verify_guards_iff memory 4096 100 16 (λ e. absurd (omega arith)) is_16 (omega arith)
      normal_fits

place-NormalPlaced_example : NormalPlaced memory 4096 100 16 (Normal.place memory 4096 100 16)
place-NormalPlaced_example =
    place-NormalPlaced memory 4096 100 16 (λ e. absurd (omega arith)) is_16 (omega arith)
      normal_fits

place-StaticPlaced_example :
    StaticPlaced memory 4096 100 16 (Static.place memory 4096 (Static.block_size 100 16) 100 16)
place-StaticPlaced_example =
    place-StaticPlaced memory 4096 100 16 (λ e. absurd (omega arith)) is_16 (omega arith)
      static_fits

place-EnhancedPlaced_example :
    EnhancedPlaced memory 4096 100 16
      (Enhanced.place memory 4096 (Enhanced.block_size 100 16) 100 16)
place-EnhancedPlaced_example =
    place-EnhancedPlaced memory 4096 100 16 (λ e. absurd (omega arith)) is_16 (omega arith)
      enhanced_fits

abbrev arena : BumpAllocator
arena = record { base = 65536; size = 8192; bump = 40 }

arena-IsValid : IsValid arena
arena-IsValid = record {
  exists = λ e. absurd (omega arith);
  in_space = omega arith;
  inside = omega arith;
}

request : IsRequest 8192 100 16
request = record { some_bytes = omega arith; alignment = is_16; no_wrap = omega arith }

attempt-Outcome_example : Outcome arena 100 16 40 (attempt arena 100 16 40)
attempt-Outcome_example = attempt-Outcome arena 100 16 40 arena-IsValid request (omega arith)

attempt_wraps_example :
    attempt arena (2 ^ 64 - 8) 1 arena.bump
    ≡ taken
        (arena.base + arena.bump)
        (record { base = arena.base; size = arena.size; bump = arena.bump - 8 })
attempt_wraps_example =
    attempt_wraps arena 8 arena-IsValid (omega arith) (omega arith) (omega arith)

-- The second thread has read the offset before the first moved it, and tries again.
abbrev rounds : List Round
rounds =
    record { bytes = 100; align = 16; current = 40 }
    ∷ record { bytes = 100; align = 16; current = 40 }
    ∷ record { bytes = 100; align = 16; current = 148 }
    ∷ []

rounds-AreRounds : AreRounds 8192 rounds
unfolding AreRounds
rounds-AreRounds = (request, omega arith, (request, omega arith, (request, omega arith, tt)))

play-Apart_example :
    Apart arena.base (arena.base + arena.bump) (arena.base + arena.size) (play arena rounds)
play-Apart_example = play-Apart arena rounds arena-IsValid rounds-AreRounds

committed_pages_iff_example :
    ((4000 + 5000 ≤ 2 ^ 64 - page_size)
      × (l : List ℕ) × (committed_pages 4000 5000 ≡ some l)
      × ((p : ℕ) → IsIn p l ↔ ((p % page_size ≡ 0) × (p < 4000 + 5000) × (4000 < p + page_size))))
    ⊎ ((2 ^ 64 - page_size < 4000 + 5000)
        × ((fuel : ℕ)
            → pages fuel (page_of 4000) (page_of (sub_word (add_word 4000 5000) 1)) ≡ none))
committed_pages_iff_example = committed_pages_iff 4000 5000 (omega arith) (omega arith)

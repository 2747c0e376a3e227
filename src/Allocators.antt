-- ===== src/Allocators.antt =====
-- The bump allocators of src/Private/KerbecsAllocators.cpp. An arena is an address, a size and the
-- offset of the first free byte. Blocks are never given back: `deallocate` does nothing.
pub mod Reserve
pub mod Rounds
pub mod Commit
use kerbecs.Common.{
  ℕ, zero, suc, ◌+◌, ◌-◌, ◌*◌, ◌/◌, ◌^◌, bit_and, Bool, true, false, ◌||◌, if◌then◌else◌, ltb, leb,
  ◌==◌, Option, none, some, List, [], ◌∷◌, add_word, sub_word, not_word,
}
use kerbecs.Memory.{align_up, page_size}

pub record BumpAllocator : Type 0 where
  pub base : ℕ
  pub size : ℕ
  pub bump : ℕ

unfoldable pub init : ℕ → ℕ → BumpAllocator
init base size = record { base = base; size = size; bump = 0 }

-- How one round of the loop of `_bumpReserve` ends.
pub data Attempt : Type 0 where
  refused : Attempt
  retry : (current : ℕ) → Attempt
  taken : (ptr : ℕ) (after : BumpAllocator) → Attempt

-- A round with the value `current` that the thread has read of `m_Bump`. Another thread may have
-- moved the offset since: then the exchange fails and gives the offset's value.
unfoldable pub attempt : BumpAllocator → ℕ → ℕ → ℕ → Attempt
attempt a bytes align current =
    if (a.base == 0) || (bytes == 0) || (align == 0)
    then refused
    else (let aligned = align_up current align in
        let next = add_word aligned bytes in
        if ltb a.size next
        then refused
        else if a.bump == current
        then taken (add_word a.base aligned) (record { base = a.base; size = a.size; bump = next })
        else retry a.bump)

-- `_bumpReserve` where no other thread moves the offset between the load and the exchange: the
-- first round ends it.
unfoldable pub bump_reserve : BumpAllocator → ℕ → ℕ → Attempt
unfolding attempt
bump_reserve a bytes align = attempt a bytes align a.bump

-- The page that an address lies in.
unfoldable pub page_of : ℕ → ℕ
page_of p = bit_and p (not_word (page_size - 1))

abbrev pub with_page : ℕ → Option (List ℕ) → Option (List ℕ)
with_page page none = none
with_page page (some rest) = some (page ∷ rest)

-- The pages that the loop of `allocate` commits, from `page` to `last`; the next page wraps to a word.
-- `none`: the loop has not ended after `fuel` tests of its condition.
unfoldable pub pages : ℕ → ℕ → ℕ → Option (List ℕ)
pages zero page last = none
pages (suc fuel) page last =
    let rest = pages fuel (add_word page page_size) last in
    if leb page last then with_page page rest else some []

-- The pages that `allocate` commits for a block; a loop that does not wrap ends within
-- `bytes / page_size + 3` tests, and `none` is a loop that has not.
unfoldable pub committed_pages : ℕ → ℕ → Option (List ℕ)
unfolding page_of pages
committed_pages ptr bytes =
    pages (bytes / page_size + 3) (page_of ptr) (page_of (sub_word (add_word ptr bytes) 1))

-- `BumpAllocatorBase::allocate`: the attempt, and the pages committed with it.
unfoldable pub allocate : BumpAllocator → ℕ → ℕ → Attempt × Option (List ℕ)
unfolding bump_reserve committed_pages
allocate a bytes align = elim (bump_reserve a bytes align) [
  | refused ↦ (refused, some [])
  | retry current ↦ (retry current, some [])
  | taken ptr after ↦ (taken ptr after, committed_pages ptr bytes)
]

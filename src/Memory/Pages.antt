-- ===== src/Memory/Pages.antt =====
-- `commit` and `commitPageIfNeeded` of src/Private/KerbecsMemory.cpp. What the operating system
-- answers is the interface `System`, over any type of states; only its own calls move the state, so that a
-- store that makes a page resident is not modelled.
use kerbecs.Common.{
  ℕ, ◌+◌, ◌-◌, ◌/◌, ◌<◌, ◌≡◌, ◌⊎◌, Bool, true, false, ◌||◌, if◌then◌else◌, ◌==◌, Option, none, some,
  bit_and, not_word,
}
use kerbecs.Memory.{page_size, PageState}

pub record System (S : Type 0) : Type 0 where
  pub query_page : S → ℕ → PageState
  -- `mprotect` or `VirtualAlloc` of some bytes from an address on: the answer, and what it leaves.
  pub protect : S → ℕ → ℕ → Bool × S

-- The page that an address lies in.
unfoldable pub page_base : ℕ → ℕ
page_base p = bit_and p (not_word (page_size - 1))

-- An address in a range that the system has reserved, whether its page is resident yet or not.
abbrev pub IsMapped : {S : Type 0} → System S → S → ℕ → Type 0
IsMapped sys s q =
    (sys.query_page s q ≡ PageState.committed) ⊎ (sys.query_page s q ≡ PageState.reserved)

-- The addresses of a shadow map at `shadow_base`, an eighth of a region of `size` bytes, in state `s`.
abbrev pub AreMapped : {S : Type 0} → System S → S → ℕ → ℕ → Type 0
AreMapped sys s shadow_base size = (i : ℕ) → i < size → IsMapped sys s (shadow_base + i / 8)

-- What the systems say of `mprotect` and of `VirtualAlloc` with MEM_COMMIT: they unmap no address. No more is
-- asked for: on Linux a page may well read as reserved after a call that succeeds, until it is touched.
pub record IsSystem {S : Type 0} (sys : System S) : Type 0 where
  pub keeps : (s : S) (p n q : ℕ) → IsMapped sys s q → IsMapped sys (sys.protect s p n).1 q

module _ {S : Type 0} (sys : System S) where
  unfoldable pub commit : S → ℕ → ℕ → ℕ → Bool × S
  commit s base bytes offset =
      if (base == 0) || (bytes == 0) then (false, s) else sys.protect s (base + offset) bytes

  unfoldable pub commit_in_state : S → ℕ → PageState → Option (Bool × S)
  unfolding commit
  commit_in_state s address PageState.committed = some (true, s)
  commit_in_state s address PageState.reserved = some (commit s (page_base address) page_size 0)
  commit_in_state s address PageState.free = none
  commit_in_state s address PageState.unknown = none

  -- `none` is `KERBECS_UNREACHABLE`.
  unfoldable pub commit_page_if_needed : S → ℕ → Option (Bool × S)
  unfolding commit_in_state
  commit_page_if_needed s address =
      if address == 0 then some (false, s) else commit_in_state s address (sys.query_page s address)

  unfoldable pub is_committed : S → ℕ → Bool
  is_committed s address = elim (sys.query_page s address) [
    | PageState.committed ↦ true
    | _ ↦ false
  ]

-- ===== src/Layout/Pattern.antt =====
-- Filling memory with a byte or with the canary, and the checks of src/Private/ShadowUtils.cpp.
use kerbecs.Common.{
  ℕ, zero, suc, ◌+◌, ◌-◌, ◌*◌, ◌/◌, ◌%◌, ◌^◌, Bool, true, false, not, ◌&&◌, if◌then◌else◌, ltb, leb,
  ◌==◌,
}

abbrev pub Memory : Type 0
Memory = ℕ → ℕ

-- `Runtime::REDZONE`, `TOMBSTONE`, `POISONED`, `GUARD_CANARY` and the sizes of the guards
abbrev pub redzone : ℕ
redzone = 0xFE

abbrev pub tombstone : ℕ
tombstone = 0xDD

abbrev pub poisoned : ℕ
poisoned = 0xFA

abbrev pub guard_canary : ℕ
guard_canary = 0xDEADBEEFCAFEBABE

abbrev pub redzone_size : ℕ
redzone_size = 16

abbrev pub canary_size : ℕ
canary_size = 8

-- `memset`
abbrev pub memset : Memory → ℕ → ℕ → ℕ → Memory
memset m p byte n a = if leb p a && ltb a (p + n) then byte else m a

-- Byte `i` of the canary as it lies in memory.
unfoldable pub canary_byte : ℕ → ℕ
canary_byte i = guard_canary / 256 ^ i % 256

-- `memcpy(p, &GUARD_CANARY, n)`, for at most 8 bytes
abbrev pub copy_canary : Memory → ℕ → ℕ → Memory
copy_canary m p n a = if leb p a && ltb a (p + n) then canary_byte (a - p) else m a

-- The loop of `_stampCanary` at word `i`, with `left` words to go.
unfoldable pub stamp_words : Memory → ℕ → ℕ → ℕ → Memory
stamp_words m p i zero = m
stamp_words m p i (suc left) = stamp_words (copy_canary m (p + i * 8) 8) p (i + 1) left

unfoldable pub stamp_canary : Memory → ℕ → ℕ → Memory
unfolding stamp_words
stamp_canary m p length =
    let words = length / 8 in
    let tail = length % 8 in
    let stamped = stamp_words m p 0 words in
    if ltb 0 tail then copy_canary stamped (p + words * 8) tail else stamped

-- The loops of `verifyTombstone` and `verifyRedzone` at index `i`, with `left` bytes to go.
unfoldable pub all_bytes : Memory → ℕ → ℕ → ℕ → ℕ → Bool
all_bytes m p byte i zero = true
all_bytes m p byte i (suc left) =
    let rest = all_bytes m p byte (i + 1) left in if m (p + i) == byte then rest else false

unfoldable pub verify_bytes : Memory → ℕ → ℕ → ℕ → Bool
unfolding all_bytes
verify_bytes m p byte length =
    if length == 0 then true else if p == 0 then false else all_bytes m p byte 0 length

unfoldable pub verify_tombstone : Memory → ℕ → ℕ → Bool
unfolding verify_bytes
verify_tombstone m p length = verify_bytes m p tombstone length

unfoldable pub verify_redzone : Memory → ℕ → ℕ → Bool
unfolding verify_bytes
verify_redzone m p length = verify_bytes m p redzone length

-- The word at `p`.
unfoldable pub load_word : Memory → ℕ → ℕ
load_word m p =
    m p
    + 256
      * (m (p + 1)
          + 256
            * (m (p + 2)
                + 256
                  * (m (p + 3)
                      + 256
                        * (m (p + 4) + 256 * (m (p + 5) + 256 * (m (p + 6) + 256 * m (p + 7)))))))

unfoldable pub all_words : Memory → ℕ → ℕ → ℕ → Bool
unfolding load_word
all_words m p i zero = true
all_words m p i (suc left) =
    let rest = all_words m p (i + 1) left in
    if load_word m (p + i * 8) == guard_canary then rest else false

-- `memcmp(p, &GUARD_CANARY, n) == 0`, from byte `i` on.
unfoldable pub equals_canary : Memory → ℕ → ℕ → ℕ → Bool
unfolding canary_byte
equals_canary m p i zero = true
equals_canary m p i (suc left) =
    let rest = equals_canary m p (i + 1) left in if m (p + i) == canary_byte i then rest else false

unfoldable pub verify_canaries : Memory → ℕ → ℕ → Bool
unfolding all_words equals_canary
verify_canaries m p length =
    let words = length / 8 in
    let tail = length % 8 in
    if length == 0
    then true
    else if p == 0
    then false
    else if not (all_words m p 0 words)
    then false
    else if ltb 0 tail
    then equals_canary m (p + words * 8) 0 tail
    else true

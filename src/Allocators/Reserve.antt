-- ===== src/Allocators/Reserve.antt =====
-- The blocks that the bump allocators give out, and their order.
use kerbecs.Common.{
  ℕ, ◌+◌, ◌-◌, ◌^◌, ◌%◌, ◌≤◌, ◌<◌, ◌≡◌, ◌≢◌, refl, sym, arith, add_word, false, ◌||◌, ◌==◌,
}
use native.Mathlib.Decide.{dec_lt, ℕ_discrete}
use kerbecs.Memory.{align_up}
use kerbecs.Memory.Align.{IsAlignment, alignment_pos, align_up-RoundsUp}
use kerbecs.Allocators.{BumpAllocator, Attempt, refused, retry, taken, attempt}

-- The arena lies in the address space, and the offset inside the arena.
pub record IsValid (a : BumpAllocator) : Type 0 where
  pub exists : a.base ≢ 0
  pub in_space : a.base + a.size ≤ 2 ^ 64
  pub inside : a.bump ≤ a.size

-- The requests whose sum with the arena's size does not wrap.
pub record IsRequest (size bytes align : ℕ) : Type 0 where
  pub some_bytes : 1 ≤ bytes
  pub alignment : IsAlignment align
  pub no_wrap : size + align + bytes ≤ 2 ^ 64

-- A block at `ptr`, taken from the free part of `a`, that leaves `b`.
pub record Taken (a : BumpAllocator) (bytes align ptr : ℕ) (b : BumpAllocator) : Type 0 where
  pub above : a.base + a.bump ≤ ptr
  pub end : ptr + bytes ≡ b.base + b.bump
  pub aligned : (ptr - a.base) % align ≡ 0
  pub same_base : b.base ≡ a.base
  pub same_size : b.size ≡ a.size
  pub gap : ptr < a.base + a.bump + align
  pub after-IsValid : IsValid b

unfoldable pub Outcome : BumpAllocator → ℕ → ℕ → ℕ → Attempt → Type 0
Outcome a bytes align current refused = a.size < align_up current align + bytes
Outcome a bytes align current (retry c) =
    (c ≡ a.bump) × (c ≢ current) × (align_up current align + bytes ≤ a.size)
Outcome a bytes align current (taken ptr b) = (current ≡ a.bump) × Taken a bytes align ptr b

-- In a well-formed arena, a round of `_bumpReserve` with any value up to the arena's size read of the offset, for a request that does not wrap:
-- it refuses exactly where the aligned request passes the arena's end; where it does not, it fails and
-- gives the offset exactly where the offset has moved, and else gives an aligned block in the free part of the arena that ends at the
-- new offset, with less than an alignment of space in front of it.
pub attempt-Outcome :
    (a : BumpAllocator) (bytes align current : ℕ)
    → IsValid a
    → IsRequest a.size bytes align
    → current ≤ a.size
    → Outcome a bytes align current (attempt a bytes align current)
unfolding attempt Outcome
attempt-Outcome a bytes align current v q low =
    let up =
      (align_up-RoundsUp current align q.alignment
          (omega (arith, q.no_wrap, q.some_bytes, alignment_pos q.alignment))).0
        (omega (arith, q.no_wrap)) in
    let next : add_word (align_up current align) bytes ≡ align_up current align + bytes =
      omega (arith, up.upper, q.no_wrap) in
    let pass = tests_pass a bytes align v q in
    elim (dec_lt a.size (align_up current align + bytes)) [
      | yes over ↦ let e : attempt a bytes align current ≡ refused = ground arith in rw e over
      | no fits ↦ elim (ℕ_discrete a.bump current) [
        | no moved ↦
            let e : attempt a bytes align current ≡ retry a.bump = ground arith in
            rw e (refl, moved, omega arith)
        | yes same ↦
            let e : attempt a bytes align current
                ≡ taken (add_word a.base (align_up current align)) (record {
                  base = a.base;
                  size = a.size;
                  bump = add_word (align_up current align) bytes;
                }) =
              ground arith in
            let ptr : add_word a.base (align_up current align) ≡ a.base + align_up current align =
              omega (arith, v.in_space, q.some_bytes) in
            let off : add_word a.base (align_up current align) - a.base ≡ align_up current align =
              omega (arith, v.exists) in
            rw e (
              sym same,
              record {
                above = omega (arith, up.lower);
                end = omega arith;
                aligned = rw off up.multiple;
                same_base = refl;
                same_size = refl;
                gap = omega (arith, up.upper);
                after-IsValid = record {
                  exists = v.exists;
                  in_space = v.in_space;
                  inside = omega arith;
                };
              },
            )
      ]
    ]
  where
    tests_pass :
        (a : BumpAllocator) (bytes align : ℕ)
        → IsValid a
        → IsRequest a.size bytes align
        → ((a.base == 0) || (bytes == 0) || (align == 0)) ≡ false
    tests_pass a bytes align v q = ground (arith, v.exists, q.some_bytes, alignment_pos q.alignment)

-- In a well-formed arena a request that wraps is not refused: a size `k` below 2 ^ 64, with `k` at most the offset of the
-- first free byte, which lies inside the arena, gives a block there and moves the offset back by `k`.
pub attempt_wraps :
    (a : BumpAllocator) (k : ℕ)
    → IsValid a
    → 1 ≤ k
    → k ≤ a.bump
    → a.bump < a.size
    → attempt a (2 ^ 64 - k) 1 a.bump
      ≡ taken (a.base + a.bump) (record { base = a.base; size = a.size; bump = a.bump - k })
unfolding attempt
attempt_wraps a k v pos low room =
    let up =
      (align_up-RoundsUp a.bump 1 (0, omega arith, refl)
          (omega (arith, v.in_space, v.inside, v.exists))).0
        (omega (arith, v.in_space, v.inside, v.exists)) in
    let same : align_up a.bump 1 ≡ a.bump = omega (arith, up.lower, up.upper) in
    let next : add_word (align_up a.bump 1) (2 ^ 64 - k) ≡ a.bump - k =
      omega (arith, v.in_space, v.inside, v.exists) in
    let ptr : add_word a.base (align_up a.bump 1) ≡ a.base + a.bump = omega (arith, v.in_space) in
    ground (arith, v.exists, v.inside)

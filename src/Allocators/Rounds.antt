-- ===== src/Allocators/Rounds.antt =====
-- Rounds of `_bumpReserve` in any order, by any threads.
use kerbecs.Common.{ℕ, ◌+◌, ◌-◌, ◌%◌, ◌≤◌, ◌≡◌, refl, arith, List, [], ◌∷◌}
use kerbecs.Allocators.{BumpAllocator, Attempt, refused, retry, taken, attempt}
use kerbecs.Allocators.Reserve.{IsValid, IsRequest, Outcome, attempt-Outcome}

-- A round: the request, and the value that its thread has read of the offset.
pub record Round : Type 0 where
  pub bytes : ℕ
  pub align : ℕ
  pub current : ℕ

pub record Block : Type 0 where
  pub ptr : ℕ
  pub bytes : ℕ
  pub align : ℕ

-- The arena after a round.
unfoldable pub moved : BumpAllocator → Attempt → BumpAllocator
moved a refused = a
moved a (retry current) = a
moved a (taken ptr b) = b

unfoldable pub given : Round → Attempt → List Block → List Block
given r refused bs = bs
given r (retry current) bs = bs
given r (taken ptr b) bs = record { ptr = ptr; bytes = r.bytes; align = r.align } ∷ bs

-- The blocks that a sequence of rounds gives out.
unfoldable pub play : BumpAllocator → List Round → List Block
unfolding moved given
play a [] = []
play a (r ∷ rs) = let t = attempt a r.bytes r.align r.current in given r t (play (moved a t) rs)

-- The requests of the rounds do not wrap, and the values read are offsets inside the arena.
unfoldable pub AreRounds : ℕ → List Round → Type 0
AreRounds size [] = Unit {0}
AreRounds size (r ∷ rs) = IsRequest size r.bytes r.align × (r.current ≤ size) × AreRounds size rs

-- The blocks lie between two addresses, each behind the one before it, aligned from `base`.
pub data Apart (base : ℕ) : ℕ → ℕ → List Block → Type 0 where
  done : {lo hi : ℕ} → lo ≤ hi → Apart base lo hi []
  block :
      {lo hi : ℕ} {b : Block} {bs : List Block}
      → lo ≤ b.ptr
      → (b.ptr - base) % b.align ≡ 0
      → Apart base (b.ptr + b.bytes) hi bs
      → Apart base lo hi (b ∷ bs)

moved-IsValid :
    (a : BumpAllocator) (r : Round) (t : Attempt)
    → IsValid a
    → Outcome a r.bytes r.align r.current t
    → IsValid (moved a t) × ((moved a t).size ≡ a.size)
unfolding moved Outcome
moved-IsValid a r refused v o = (v, refl)
moved-IsValid a r (retry c) v o = (v, refl)
moved-IsValid a r (taken ptr b) v o = (o.1.after-IsValid, o.1.same_size)

given-Apart :
    (a : BumpAllocator) (r : Round) (t : Attempt) (bs : List Block)
    → Outcome a r.bytes r.align r.current t
    → (let b = moved a t in Apart b.base (b.base + b.bump) (b.base + b.size) bs)
    → Apart a.base (a.base + a.bump) (a.base + a.size) (given r t bs)
unfolding moved given Outcome
given-Apart a r refused bs o h = h
given-Apart a r (retry c) bs o h = h
given-Apart a r (taken ptr b) bs (same, t) h =
    block t.above t.aligned (rw (t.end, ← t.same_base, ← t.same_size) h)

-- In a well-formed arena, for requests that do not wrap and values read that are not above its size:
-- whatever the order of the rounds, the blocks given out lie in the free part of
-- the arena, aligned from its start, and no two of them share a byte.
pub play-Apart :
    (a : BumpAllocator) (rs : List Round)
    → IsValid a
    → AreRounds a.size rs
    → Apart a.base (a.base + a.bump) (a.base + a.size) (play a rs)
unfolding play AreRounds
play-Apart a [] v ok = done (omega (arith, v.inside))
play-Apart a (r ∷ rs) v ok =
    let t = attempt a r.bytes r.align r.current in
    let o = attempt-Outcome a r.bytes r.align r.current v ok.0 ok.1 in
    let w = moved-IsValid a r t v o in
    given-Apart a r t (play (moved a t) rs) o (play-Apart (moved a t) rs w.0 (rw w.1 ok.2))

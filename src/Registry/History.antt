-- ===== src/Registry/History.antt =====
-- Any interleaving of calls on one registry: each call runs to its end, and the calls of different
-- threads come in any order, so a destruction (`beginRetiring` to `endRetiring`) may be interrupted.
use kerbecs.Common.{ℕ, ◌+◌, ◌≤◌, ◌<◌, ◌^◌, ◌≡◌, arith, true, List, [], ◌∷◌, length}
use kerbecs.Stats.{KerbecsStats, zero_stats}
use kerbecs.Registry.{
  AllocationRegistry, Allocation, create, init, insert, begin_retiring, settle, retire,
}
use kerbecs.Registry.Node.{ThreadPolicy}
use kerbecs.Registry.Invariant.{IsValid}
use kerbecs.Registry.Retiring.{begin_retiring-IsValid, settle-IsValid, retire-IsValid}
use kerbecs.Registry.Link.{init-IsValid}
use kerbecs.Registry.Outcome.{insert-IsValid}
use kerbecs.Registry.Edges.{
  Follows, insert-Follows, begin_retiring-Follows, settle-Follows, retire-Follows, cursor-insert,
  cursor-begin_retiring, cursor-settle, cursor-retire,
}

pub data Call : Type 0 where
  inserts : Allocation → Call
  begins : ℕ → ℕ → ThreadPolicy → Call
  settles : ℕ → Call
  retires : ℕ → Call

unfoldable pub step : AllocationRegistry × KerbecsStats → Call → AllocationRegistry × KerbecsStats
step (r, st) (inserts a) = let (_, r', st') = insert r st a in (r', st')
step (r, st) (begins base caller policy) = ((begin_retiring r base caller policy).1, st)
step (r, st) (settles base) = ((settle r base).1, st)
step (r, st) (retires base) = ((retire r base).1, st)

unfoldable pub run :
    AllocationRegistry × KerbecsStats → List Call → AllocationRegistry × KerbecsStats
run s [] = s
run s (c ∷ cs) = run (step s c) cs

step-IsValid :
    (r : AllocationRegistry) (st : KerbecsStats) (c : Call)
    → IsValid r
    → r.node_cursor + 1 < 2 ^ 64
    → IsValid (step (r, st) c).0
unfolding step
step-IsValid r st (inserts a) w small = insert-IsValid r w a st small
step-IsValid r st (begins base caller policy) w small =
    begin_retiring-IsValid r base caller policy w
step-IsValid r st (settles base) w small = settle-IsValid r base w
step-IsValid r st (retires base) w small = retire-IsValid r base w

cursor-step :
    (r : AllocationRegistry) (st : KerbecsStats) (c : Call)
    → IsValid r
    → (step (r, st) c).0.node_cursor ≤ r.node_cursor + 1
unfolding step
cursor-step r st (inserts a) w = cursor-insert r st a w
cursor-step r st (begins base caller policy) w =
    omega (arith, cursor-begin_retiring r base caller policy)
cursor-step r st (settles base) w = omega (arith, cursor-settle r base)
cursor-step r st (retires base) w = omega (arith, cursor-retire r base)

-- In a well-formed registry each call moves each node's state along one edge of a block's life, or
-- leaves it.
pub step-Follows :
    (r : AllocationRegistry) (st : KerbecsStats) (c : Call)
    → IsValid r
    → Follows r (step (r, st) c).0
unfolding step
step-Follows r st (inserts a) w = insert-Follows r st a w
step-Follows r st (begins base caller policy) w = begin_retiring-Follows r base caller policy
step-Follows r st (settles base) w = settle-Follows r base
step-Follows r st (retires base) w = retire-Follows r base

run-IsValid :
    (cs : List Call) (r : AllocationRegistry) (st : KerbecsStats)
    → IsValid r
    → r.node_cursor + length cs < 2 ^ 64
    → IsValid (run (r, st) cs).0
unfolding run
run-IsValid [] r st w small = w
run-IsValid (c ∷ cs) r st w small =
    run-IsValid cs (step (r, st) c).0 (step (r, st) c).1 (step-IsValid r st c w (omega arith))
      (omega (arith, cursor-step r st c w))

-- For a registry of at least one and fewer than 2 ^ 56 nodes, so that the pool's bytes do not wrap, that was
-- initialised with its pool: after fewer than 2 ^ 64 whole calls, of any threads and in any order, each running
-- to its end before the next, the registry is well-formed: its lists end, no two tracked nodes hold one block, a node's lock is held exactly
-- while it is retiring, and the count is the number of live and retiring nodes.
pub run-init-IsValid :
    (capacity : ℕ) (cs : List Call)
    → 0 < capacity
    → capacity < 2 ^ 56
    → length cs < 2 ^ 64
    → IsValid (run ((init true (create capacity)).1, zero_stats) cs).0
run-init-IsValid capacity cs pos small short =
    run-IsValid cs (init true (create capacity)).1 zero_stats (init-IsValid capacity pos small).1
      (omega (arith, cursor-init capacity, short))
  where
    cursor-init : (capacity : ℕ) → (init true (create capacity)).1.node_cursor ≡ 0
    cursor-init capacity = unfold init in ground arith

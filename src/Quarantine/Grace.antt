-- ===== src/Quarantine/Grace.antt =====
-- What `flushEligible` promises of the blocks that it retires.
use kerbecs.Common.{
  ℕ, zero, suc, ◌-◌, ◌≤◌, ◌≡◌, refl, sym, ap, ◌∙◌, inl, inr, arith, Bool, true, false, List, [],
  ◌∷◌, ◌++◌, length, add_word, Bool-cases,
}
use kerbecs.Quarantine.{QuarantineEntry, Shared, flush_loop, flush_eligible, depth}
use kerbecs.Quarantine.Ring.{IsValid, contents, length-window}
use kerbecs.Quarantine.Enqueue.{not_null}
use kerbecs.Quarantine.Flush.{
  may_leave, leaving, remaining, retire_all, Flushed, flush_loop-Flushed,
}

abbrev pub All : (QuarantineEntry → Type 0) → List QuarantineEntry → Type 0
All P [] = Unit {0}
All P (e ∷ es) = P e × All P es

pub flush_eligible-Flushed :
    (max_count : ℕ) (force : Bool) (s : Shared)
    → IsValid s.queue
    → Flushed max_count force 0 s (flush_eligible max_count force s)
unfolding flush_eligible
flush_eligible-Flushed max_count force s v = rw (not_null s.queue v) (
    flush_loop-Flushed (s.queue.tail - s.queue.head) max_count force 0 max_count s v (omega arith)
      (omega arith))

-- On a well-formed ring the flush ends by itself within `tail - head` rounds: any more fuel gives the
-- same count, the same blocks left in quarantine and the same ledger.
pub flush_fuel :
    (fuel max_count : ℕ) (force : Bool) (s : Shared)
    → IsValid s.queue
    → s.queue.tail - s.queue.head ≤ fuel
    → let out = flush_loop fuel max_count force 0 s in
      let due = flush_eligible max_count force s in
      (out.0 ≡ due.0)
      × (contents out.1.queue ≡ contents due.1.queue)
      × (out.1.ledger ≡ due.1.ledger)
flush_fuel fuel max_count force s v enough =
    let f = flush_loop-Flushed fuel max_count force 0 max_count s v enough (omega arith) in
    let g = flush_eligible-Flushed max_count force s v in
    (f.count ∙ sym g.count, f.left ∙ sym g.left, f.ledger ∙ sym g.ledger)

pub leaving-append-remaining :
    (n : ℕ) (force : Bool) (now : ℕ) (es : List QuarantineEntry)
    → leaving n force now es ++ remaining n force now es ≡ es
unfolding leaving remaining
leaving-append-remaining zero force now es = refl
leaving-append-remaining (suc n) force now [] = refl
leaving-append-remaining (suc n) force now (e ∷ es) = elim (Bool-cases (may_leave force now e)) [
  | inl t ↦ rw t (ap (◌∷◌ e) (leaving-append-remaining n force now es))
  | inr f ↦ rw f
]

abbrev pub IsGraced : ℕ → QuarantineEntry → Type 0
IsGraced now e = add_word e.epoch 2 ≤ now

leaving-IsGraced :
    (n now : ℕ) (es : List QuarantineEntry) → All (IsGraced now) (leaving n false now es)
unfolding leaving
leaving-IsGraced zero now es = tt
leaving-IsGraced (suc n) now [] = tt
leaving-IsGraced (suc n) now (e ∷ es) = elim (Bool-cases (may_leave false now e)) [
  | inl t ↦ rw t (ground arith, leaving-IsGraced n now es)
  | inr f ↦ rw f tt
]

length-leaving :
    (n : ℕ) (force : Bool) (now : ℕ) (es : List QuarantineEntry)
    → length (leaving n force now es) ≤ n
unfolding leaving
length-leaving zero force now es = omega arith
length-leaving (suc n) force now [] = omega arith
length-leaving (suc n) force now (e ∷ es) = ground (arith, length-leaving n force now es)

-- On a well-formed ring an unforced flush retires, oldest first and each exactly once, a prefix of the blocks in
-- quarantine of at most the given length, and keeps the others in order. Every block that it
-- retires has an epoch that, with two added in 64 bits, is not above the present epoch.
pub flush_eligible-IsGraced :
    (max_count : ℕ) (s : Shared)
    → IsValid s.queue
    → let out = flush_eligible max_count false s in
      (taken : List QuarantineEntry) × (contents s.queue ≡ taken ++ contents out.1.queue)
      × (out.0 ≡ length taken)
      × (length taken ≤ max_count)
      × All (IsGraced s.epoch) taken
      × (out.1.ledger ≡ retire_all s.queue.stats_attached s.ledger taken)
      × IsValid out.1.queue
flush_eligible-IsGraced max_count s v =
    let f = flush_eligible-Flushed max_count false s v in
    let taken = leaving max_count false s.epoch (contents s.queue) in
    (
      taken,
      sym (
          ap (◌++◌ taken) f.left
          ∙ leaving-append-remaining max_count false s.epoch (contents s.queue)),
      f.count ∙ (omega arith),
      length-leaving max_count false s.epoch (contents s.queue),
      leaving-IsGraced max_count s.epoch (contents s.queue),
      f.ledger,
      f.valid,
    )

leaving_forced :
    (n now : ℕ) (es : List QuarantineEntry)
    → length es ≤ n
    → (leaving n true now es ≡ es) × (remaining n true now es ≡ [])
unfolding leaving remaining
leaving_forced zero now [] h = (refl, refl)
leaving_forced zero now (e ∷ es) h = absurd (omega arith)
leaving_forced (suc n) now [] h = (refl, refl)
leaving_forced (suc n) now (e ∷ es) h =
    let (l, r) = leaving_forced n now es (omega arith) in (ap (◌∷◌ e) l, r)

-- On a well-formed ring a forced flush with no effective limit empties the quarantine, of every registry's blocks and
-- whatever the epochs of the entries are.
pub flush_eligible_forced :
    (max_count : ℕ) (s : Shared)
    → IsValid s.queue
    → depth s.queue ≤ max_count
    → let out = flush_eligible max_count true s in
      (contents out.1.queue ≡ [])
      × (out.0 ≡ length (contents s.queue))
      × (out.1.ledger ≡ retire_all s.queue.stats_attached s.ledger (contents s.queue))
unfolding depth
flush_eligible_forced max_count s v h =
    let f = flush_eligible-Flushed max_count true s v in
    let (l, r) = leaving_forced max_count s.epoch (contents s.queue) (
      ground
        (arith, length-window s.queue s.queue.head (s.queue.tail - s.queue.head), v.ordered)) in
    (
      f.left ∙ r,
      f.count ∙ omega (arith, ap length l),
      f.ledger ∙ ap (retire_all s.queue.stats_attached s.ledger) l,
    )

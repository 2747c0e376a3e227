-- ===== src/Runtime/Drain.antt =====
-- The drain thread: blocks do not stay in the quarantine.
use kerbecs.Common.{
  ℕ, zero, suc, ◌+◌, ◌-◌, ◌^◌, ◌≤◌, ◌<◌, ◌≡◌, sym, ap, ap₂, ◌++◌, ◌∙◌, arith, true, false, List, [],
  ◌∷◌, length, add_word, Bool-cases, inl, inr,
}
use kerbecs.Quarantine.{QuarantineEntry, Shared}
use kerbecs.Quarantine.Ring.{IsValid, contents, length-window}
use kerbecs.Quarantine.Flush.{may_leave, leaving, remaining, retire_all}
use kerbecs.Quarantine.Grace.{All, leaving-append-remaining, flush_eligible-Flushed}
use kerbecs.Runtime.{drain_tick}

-- The entry was made in epoch `now` or before.
abbrev pub IsPast : ℕ → QuarantineEntry → Type 0
IsPast now e = e.epoch ≤ now

-- Blocks from two epochs ago are at the front: they all leave.
past_leave :
    (n k old now : ℕ) (es more : List QuarantineEntry)
    → now < 2 ^ 64
    → n ≡ length es + k
    → old + 2 ≤ now
    → All (IsPast old) es
    → (leaving n false now (es ++ more) ≡ es ++ leaving k false now more)
      × (remaining n false now (es ++ more) ≡ remaining k false now more)
unfolding leaving remaining
past_leave n k old now [] more small l two p =
    let same : n ≡ k = omega arith in
    (ap (λ (t : ℕ). leaving t false now more) same, ap (λ (t : ℕ). remaining t false now more) same)
past_leave zero k old now (e ∷ es) more small l two p = absurd (omega arith)
past_leave (suc n) k old now (e ∷ es) more small l two (h, p) =
    let may : may_leave false now e ≡ true = ground arith in
    let (a, b) = past_leave n k old now es more small (omega arith) two p in
    rw may (ap (◌∷◌ e) a, b)

length-remaining :
    (n now : ℕ) (es : List QuarantineEntry) → length (remaining n false now es) ≤ length es
unfolding remaining
length-remaining zero now es = omega arith
length-remaining (suc n) now [] = omega arith
length-remaining (suc n) now (e ∷ es) = elim (Bool-cases (may_leave false now e)) [
  | inl t ↦ rw t (omega (arith, length-remaining n now es))
  | inr f ↦ rw f (omega arith)
]

All-remaining :
    (P : QuarantineEntry → Type 0) (n now : ℕ) (es : List QuarantineEntry)
    → All P es
    → All P (remaining n false now es)
unfolding remaining
All-remaining P zero now es p = p
All-remaining P (suc n) now [] p = p
All-remaining P (suc n) now (e ∷ es) (h, p) = elim (Bool-cases (may_leave false now e)) [
  | inl t ↦ rw t (All-remaining P n now es p)
  | inr f ↦ rw f (h, p)
]

drain_tick-Flushed :
    (s : Shared)
    → IsValid s.queue
    → s.epoch + 1 < 2 ^ 64
    → (contents (drain_tick s).queue
        ≡ remaining (2 ^ 64 - 1) false (s.epoch + 1) (contents s.queue))
      × ((drain_tick s).ledger
          ≡ retire_all s.queue.stats_attached s.ledger
              (leaving (2 ^ 64 - 1) false (s.epoch + 1) (contents s.queue)))
unfolding drain_tick
drain_tick-Flushed s v small =
    let next : add_word s.epoch 1 ≡ s.epoch + 1 = omega arith in
    let f = flush_eligible-Flushed (2 ^ 64 - 1) false (record s { epoch = add_word s.epoch 1 }) v in
    (
      f.left ∙ ap (λ (n : ℕ). remaining (2 ^ 64 - 1) false n (contents s.queue)) next,
      f.ledger
          ∙ ap
              (λ (n : ℕ).
                retire_all s.queue.stats_attached s.ledger
                  (leaving (2 ^ 64 - 1) false n (contents s.queue)))
              next,
    )

-- Two rounds of the drain thread on well-formed rings, the second one epoch after the first, on what the
-- first left and any blocks that were added behind it; the blocks of the first ring are of its epoch or
-- before, and the epoch does not reach 2 ^ 64. Then all the first ring's blocks have left: what is in the
-- ring is an end of what was added. The second round has retired what the first left and the rest of
-- what was added, the oldest first and each once.
pub drain_twice :
    (s s' : Shared) (added : List QuarantineEntry)
    → IsValid s.queue
    → All (IsPast s.epoch) (contents s.queue)
    → s.epoch + 2 < 2 ^ 64
    → IsValid s'.queue
    → s'.epoch ≡ s.epoch + 1
    → contents s'.queue ≡ contents (drain_tick s).queue ++ added
    → (gone : List QuarantineEntry) × (added ≡ gone ++ contents (drain_tick s').queue)
      × ((drain_tick s').ledger
          ≡ retire_all s'.queue.stats_attached s'.ledger (contents (drain_tick s).queue ++ gone))
drain_twice s s' added v past small v' later shape =
    let left = contents (drain_tick s).queue in
    let n = 2 ^ 64 - 1 in
    let old : All (IsPast s.epoch) left =
      rw ((drain_tick-Flushed s v (omega arith)).0)
        (All-remaining (IsPast s.epoch) n (s.epoch + 1) (contents s.queue) past) in
    let total : length left ≤ n = omega (
      arith,
      ap length (drain_tick-Flushed s v (omega arith)).0,
      length-remaining n (s.epoch + 1) (contents s.queue),
      length-window s.queue s.queue.head (s.queue.tail - s.queue.head),
      v.tail_in,
    ) in
    let (a, b) =
      past_leave n (n - length left) s.epoch (s.epoch + 2) left added small (omega arith)
        (omega arith) old in
    let (c, d) = drain_tick-Flushed s' v' (omega arith) in
    let now : s'.epoch + 1 ≡ s.epoch + 2 = omega arith in
    let gone = leaving (n - length left) false (s.epoch + 2) added in
    (
      gone,
      sym (leaving-append-remaining (n - length left) false (s.epoch + 2) added)
          ∙ ap (◌++◌ gone) (sym (c ∙ ap₂ (remaining n false) now shape ∙ b)),
      d ∙ ap (retire_all s'.queue.stats_attached s'.ledger) (ap₂ (leaving n false) now shape ∙ a),
    )

pub epoch-drain_tick : (s : Shared) → IsValid s.queue → (drain_tick s).epoch ≡ add_word s.epoch 1
unfolding drain_tick
epoch-drain_tick s v =
    (flush_eligible-Flushed (2 ^ 64 - 1) false (record s { epoch = add_word s.epoch 1 })
      v).epoch_kept

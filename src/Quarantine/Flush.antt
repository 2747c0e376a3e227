-- ===== src/Quarantine/Flush.antt =====
-- `flushEligible`: which blocks it retires, in which order, and what is left.
use kerbecs.Common.{
  ℕ, zero, suc, ◌+◌, ◌-◌, ◌%◌, ◌≤◌, ◌<◌, ◌≡◌, refl, sym, ap, ap₂, ◌∙◌, inl, inr, arith, Bool, true,
  false, not, ◌&&◌, ◌||◌, List, [], ◌∷◌, length, get_or, set, length-set, add_word, ltb,
  if◌then◌else◌, Bool-cases,
}
use native.Mathlib.Nat.{mod-eq-sub-mod}
use native.Mathlib.Decide.{dec_lt}
use kerbecs.Quarantine.{
  QuarantineEntry, QuarantineQueue, Ledger, Shared, blank_entry, index, slot_at, retire_entry,
  retire_head, has_eligible, flush_loop,
}
use kerbecs.Quarantine.Ring.{
  IsValid, capacity_pos, index-mod, window, window_cons, window_nil, contents, window_ext,
  slot_at-write_self, slot_at-write_near,
}

-- Whether the block may leave in epoch `now`.
abbrev pub may_leave : Bool → ℕ → QuarantineEntry → Bool
may_leave force now e = force || not (ltb now (add_word e.epoch 2))

-- The specification: at most `n` blocks leave, from the front, and the first that may not leave
-- keeps those behind it.
unfoldable pub leaving : ℕ → Bool → ℕ → List QuarantineEntry → List QuarantineEntry
leaving zero force now es = []
leaving (suc n) force now [] = []
leaving (suc n) force now (e ∷ es) =
    let rest = leaving n force now es in if may_leave force now e then e ∷ rest else []

unfoldable pub remaining : ℕ → Bool → ℕ → List QuarantineEntry → List QuarantineEntry
remaining zero force now es = es
remaining (suc n) force now [] = []
remaining (suc n) force now (e ∷ es) =
    let rest = remaining n force now es in if may_leave force now e then rest else e ∷ es

unfoldable pub retire_all : Bool → Ledger → List QuarantineEntry → Ledger
retire_all attached l [] = l
retire_all attached l (e ∷ es) = retire_all attached (retire_entry attached l e) es

-- The ring without its oldest entry.
abbrev pub popped : QuarantineQueue → QuarantineQueue
popped q = record q { slots = set q.slots (index q q.head) blank_entry; head = add_word q.head 1 }

-- One round further the ring is back at the head's slot.
once_round :
    (q : QuarantineQueue) (n : ℕ) → IsValid q → n ≡ q.head + q.capacity → index q n ≡ index q q.head
once_round q n v e =
    index-mod q n v
    ∙ ap (λ (t : ℕ). t % q.capacity) e
    ∙ mod-eq-sub-mod {n = q.head + q.capacity} {m = q.capacity} (omega arith)
    ∙ ap (λ (t : ℕ). t % q.capacity) {x = q.head + q.capacity - q.capacity} {y = q.head}
        (omega arith)
    ∙ sym (index-mod q q.head v)

pub popped-IsValid : (q : QuarantineQueue) → IsValid q → q.head < q.tail → IsValid (popped q)
popped-IsValid q v h = record {
  bits = v.bits;
  power = v.power;
  storage = length-set q.slots (index q q.head) blank_entry ∙ v.storage;
  ordered = omega (arith, v.tail_in);
  fits = omega (arith, v.fits, v.tail_in);
  tail_in = v.tail_in;
  filled = λ n l u.
      rw
        (slot_at-write_near q q.head n blank_entry v (omega (arith, v.tail_in))
          (omega (arith, v.fits, v.tail_in)) (omega (arith, v.tail_in, capacity_pos q v)))
        (v.filled n (omega (arith, v.tail_in)) u);
  clear = λ n l u. elim (dec_lt n (q.head + q.capacity)) [
    | yes near ↦
        ap (λ (x : QuarantineEntry). x.block_base)
          (slot_at-write_near q q.head n blank_entry v (omega arith) near
            (omega (arith, capacity_pos q v)))
        ∙ v.clear n l near
    | no far ↦
        let e : n ≡ q.head + q.capacity = omega arith in
        ap (λ (x : QuarantineEntry). x.block_base)
          (ap (λ (t : ℕ). get_or (set q.slots (index q q.head) blank_entry) t blank_entry)
              (once_round q n v e)
            ∙ slot_at-write_self q q.head blank_entry v)
  ];
}

contents-popped :
    (q : QuarantineQueue)
    → IsValid q
    → q.head < q.tail
    → contents q ≡ slot_at q q.head ∷ contents (popped q)
contents-popped q v h =
    let n = q.tail - q.head - 1 in
    window_cons q q.head (q.tail - q.head) (omega arith)
    ∙ ap (◌∷◌ (slot_at q q.head)) (
        sym (
          window_ext (popped q) q (q.head + 1) n (λ m l u.
            slot_at-write_near q q.head m blank_entry v (omega arith) (omega (arith, v.fits))
              (omega arith)))
        ∙ ap₂ (window (popped q)) {x = q.head + 1} {y = (popped q).head} {u = n}
            {v = (popped q).tail - (popped q).head} (omega (arith, v.tail_in))
            (omega (arith, v.tail_in)))

eligible_empty :
    (force : Bool) (s : Shared) → s.queue.tail ≤ s.queue.head → has_eligible force s ≡ false
unfolding has_eligible
eligible_empty force s h = ground arith

eligible_front :
    (force : Bool) (s : Shared)
    → IsValid s.queue
    → s.queue.head < s.queue.tail
    → has_eligible force s ≡ may_leave force s.epoch (slot_at s.queue s.queue.head)
unfolding has_eligible
eligible_front force s v h = ground (arith, v.filled s.queue.head)

leaving_nil : (n : ℕ) (force : Bool) (now : ℕ) → leaving n force now [] ≡ []
unfolding leaving
leaving_nil zero force now = refl
leaving_nil (suc n) force now = refl

remaining_nil : (n : ℕ) (force : Bool) (now : ℕ) → remaining n force now [] ≡ []
unfolding remaining
remaining_nil zero force now = refl
remaining_nil (suc n) force now = refl

-- What a run of the loop leaves, started at `s` when `n` more blocks may be flushed.
pub record Flushed (n : ℕ) (force : Bool) (flushed : ℕ) (s : Shared) (out : ℕ × Shared)
    : Type 0 where
  pub count : out.0 ≡ flushed + length (leaving n force s.epoch (contents s.queue))
  pub left : contents out.1.queue ≡ remaining n force s.epoch (contents s.queue)
  pub valid : IsValid out.1.queue
  pub ledger :
      out.1.ledger
      ≡ retire_all s.queue.stats_attached s.ledger (leaving n force s.epoch (contents s.queue))
  pub epoch_kept : out.1.epoch ≡ s.epoch

stops :
    (n : ℕ) (force : Bool) (flushed : ℕ) (s : Shared)
    → IsValid s.queue
    → leaving n force s.epoch (contents s.queue) ≡ []
    → remaining n force s.epoch (contents s.queue) ≡ contents s.queue
    → Flushed n force flushed s (flushed, s)
unfolding retire_all
stops n force flushed s v l r = record {
  count = rw l (omega arith);
  left = sym r;
  valid = v;
  ledger = rw l;
  epoch_kept = refl;
}

-- One more round before a run.
steps :
    (n : ℕ) (force : Bool) (flushed : ℕ) (s : Shared) (out : ℕ × Shared)
    → IsValid s.queue
    → s.queue.head < s.queue.tail
    → may_leave force s.epoch (slot_at s.queue s.queue.head) ≡ true
    → Flushed n force (flushed + 1) (retire_head s) out
    → Flushed (suc n) force flushed s out
unfolding retire_head leaving remaining retire_all
steps n force flushed s out v h may rest =
    let e = contents-popped s.queue v h in
    record {
      count = rw (e, may) (omega (arith, rest.count));
      left = rw (e, may) rest.left;
      valid = rest.valid;
      ledger = rw (e, may) rest.ledger;
      epoch_kept = rest.epoch_kept;
    }

retire_head-queue : (s : Shared) → (retire_head s).queue ≡ popped s.queue
unfolding retire_head
retire_head-queue s = refl

popped-retire_head :
    (s : Shared) → IsValid s.queue → s.queue.head < s.queue.tail → IsValid (retire_head s).queue
popped-retire_head s v h = rw (retire_head-queue s) (popped-IsValid s.queue v h)

stops_empty :
    (n : ℕ) (force : Bool) (flushed : ℕ) (s : Shared)
    → IsValid s.queue
    → contents s.queue ≡ []
    → Flushed n force flushed s (flushed, s)
stops_empty n force flushed s v e =
    stops n force flushed s v (ap (leaving n force s.epoch) e ∙ leaving_nil n force s.epoch)
      (ap (remaining n force s.epoch) e ∙ remaining_nil n force s.epoch ∙ sym e)

stops_front :
    (n : ℕ) (force : Bool) (flushed : ℕ) (s : Shared)
    → IsValid s.queue
    → s.queue.head < s.queue.tail
    → may_leave force s.epoch (slot_at s.queue s.queue.head) ≡ false
    → Flushed (suc n) force flushed s (flushed, s)
unfolding leaving remaining
stops_front n force flushed s v h stay =
    let e = contents-popped s.queue v h in
    stops (suc n) force flushed s v (rw (e, stay)) (rw (e, stay))

passes : (a b : ℕ) (t : Bool) → a < b → t ≡ true → (ltb a b && t) ≡ true
passes a b t h e = ground arith

blocked : (a b : ℕ) (t : Bool) → t ≡ false → (ltb a b && t) ≡ false
blocked a b t e = ground arith

pub flush_loop-Flushed :
    (fuel max_count : ℕ) (force : Bool) (flushed n : ℕ) (s : Shared)
    → IsValid s.queue
    → s.queue.tail - s.queue.head ≤ fuel
    → flushed + n ≡ max_count
    → Flushed n force flushed s (flush_loop fuel max_count force flushed s)
unfolding flush_loop
flush_loop-Flushed zero max_count force flushed n s v enough m =
    let e = window_nil s.queue s.queue.head (s.queue.tail - s.queue.head) (omega arith) in
    stops_empty n force flushed s v e
flush_loop-Flushed (suc fuel) max_count force flushed zero s v enough m =
    let over : (ltb flushed max_count && has_eligible force s) ≡ false = ground arith in
    rw over (stops zero force flushed s v (unfold leaving in refl) (unfold remaining in refl))
flush_loop-Flushed (suc fuel) max_count force flushed (suc n) s v enough m =
    elim (dec_lt s.queue.head s.queue.tail) [
      | no done ↦
          let over : (ltb flushed max_count && has_eligible force s) ≡ false =
            ground (arith, eligible_empty force s) in
          let e = window_nil s.queue s.queue.head (s.queue.tail - s.queue.head) (omega arith) in
          rw over (stops_empty (suc n) force flushed s v e)
      | yes more ↦ elim (Bool-cases (may_leave force s.epoch (slot_at s.queue s.queue.head))) [
        | inl may ↦
            let on : (ltb flushed max_count && has_eligible force s) ≡ true =
              passes flushed max_count (has_eligible force s) (omega arith)
                (eligible_front force s v more ∙ may) in
            rw on (
              steps n force flushed s
                (flush_loop fuel max_count force (flushed + 1) (retire_head s)) v more may
                (flush_loop-Flushed fuel max_count force (flushed + 1) n (retire_head s)
                  (popped-retire_head s v more)
                  (omega (
                    arith,
                    enough,
                    v.tail_in,
                    ap (λ (q : QuarantineQueue). q.head) (retire_head-queue s),
                    ap (λ (q : QuarantineQueue). q.tail) (retire_head-queue s),
                  ))
                  (omega arith)))
        | inr stay ↦
            let over : (ltb flushed max_count && has_eligible force s) ≡ false =
              blocked flushed max_count (has_eligible force s)
                (eligible_front force s v more ∙ stay) in
            rw over (stops_front n force flushed s v more stay)
      ]
    ]

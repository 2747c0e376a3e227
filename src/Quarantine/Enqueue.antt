-- ===== src/Quarantine/Enqueue.antt =====
-- `enqueue`: its answer on every branch, and that it appends.
use kerbecs.Common.{
  suc, ◌+◌, ◌-◌, ◌^◌, ◌≤◌, ◌<◌, ◌≡◌, refl, ap, ap₂, ◌∙◌, ◌≢◌, ◌↔◌, ◌⊎◌, arith, Bool, true, false,
  none, some, List, [], ◌∷◌, ◌++◌, length, set, length-set, add_word, sub_word, leb, ◌||◌, ◌==◌,
}
use native.Mathlib.Decide.{dec_lt, ℕ_discrete}
use kerbecs.Stats.{KerbecsStats, with_stats, stats_on_quarantine_enqueue}
use kerbecs.Quarantine.{
  QuarantineEntry, QuarantineQueue, index, slot_at, enqueue, is_null, depth, is_full,
}
use kerbecs.Quarantine.Ring.{
  IsValid, capacity_pos, window, contents, window_ext, window_snoc, slot_at-write_self,
  slot_at-write_near,
}

-- What `enqueue` requires of its arguments.
abbrev pub IsEntry : QuarantineEntry → Type 0
IsEntry e = (e.block_base ≢ 0) × (e.owning_registry ≢ 0)

abbrev pub pushed : QuarantineQueue → QuarantineEntry → QuarantineQueue
pushed q e = record q { slots = set q.slots (index q q.tail) e; tail = add_word q.tail 1 }

pub not_null : (q : QuarantineQueue) → IsValid q → is_null q.slots ≡ false
not_null q v = of_slots q.slots (omega (arith, capacity_pos q v, v.storage))
  where
    of_slots : (es : List QuarantineEntry) → 1 ≤ length es → is_null es ≡ false
    of_slots [] h = absurd (omega arith)
    of_slots (e ∷ es) h = refl

accepted :
    (q : QuarantineQueue) (e : QuarantineEntry)
    → IsValid q
    → IsEntry e
    → (is_null q.slots || (e.block_base == 0) || (e.owning_registry == 0)) ≡ false
accepted q e v h = ground (arith, not_null q v, h)

enqueue_room :
    (q : QuarantineQueue) (st : KerbecsStats) (e : QuarantineEntry)
    → IsValid q
    → IsEntry e
    → q.tail < q.head + q.capacity
    → enqueue q st e
      ≡ some (true, pushed q e, with_stats q.stats_attached stats_on_quarantine_enqueue st)
unfolding enqueue
enqueue_room q st e v h room = rw (accepted q e v h, has_room)
  where
    has_room : leb q.capacity (sub_word q.tail q.head) ≡ false
    has_room = ground (arith, v.ordered, v.tail_in)

enqueue_saturated :
    (q : QuarantineQueue) (st : KerbecsStats) (e : QuarantineEntry)
    → IsValid q
    → IsEntry e
    → q.tail ≡ q.head + q.capacity
    → enqueue q st e ≡ none
unfolding enqueue
enqueue_saturated q st e v h full = rw (accepted q e v h, no_room)
  where
    no_room : leb q.capacity (sub_word q.tail q.head) ≡ true
    no_room = ground (arith, v.ordered, v.tail_in)

-- On a well-formed ring `enqueue` of a block with its registry aborts exactly when the ring is full.
pub enqueue-none_iff :
    (q : QuarantineQueue) (st : KerbecsStats) (e : QuarantineEntry)
    → IsValid q
    → IsEntry e
    → (enqueue q st e ≡ none) ↔ (is_full q ≡ true)
unfolding is_full depth
enqueue-none_iff q st e v h = elim (dec_lt q.tail (q.head + q.capacity)) [
  | yes room ↦
      rw (enqueue_room q st e v h room)
        ((λ c. absurd (cc)), (λ f. absurd (ground (arith, v.ordered))))
  | no full ↦
      rw (enqueue_saturated q st e v h (omega (arith, v.fits)))
        ((λ c. ground (arith, v.ordered)), (λ f. refl))
]

pub pushed-IsValid :
    (q : QuarantineQueue) (e : QuarantineEntry)
    → IsValid q
    → IsEntry e
    → q.tail < q.head + q.capacity
    → q.tail + 1 < 2 ^ 64
    → IsValid (pushed q e)
pushed-IsValid q e v h room small = record {
  bits = v.bits;
  power = v.power;
  storage = length-set q.slots (index q q.tail) e ∙ v.storage;
  ordered = omega (arith, v.ordered);
  fits = omega arith;
  tail_in = omega arith;
  filled = λ n l u. elim (ℕ_discrete n q.tail) [
    | yes same ↦ rw same (rw (slot_at-write_self q q.tail e v) h.0)
    | no ne ↦
        rw (slot_at-write_near q q.tail n e v ne (omega arith) (omega arith))
          (v.filled n l (omega arith))
  ];
  clear = λ n l u.
      ap (λ (x : QuarantineEntry). x.block_base)
        (slot_at-write_near q q.tail n e v (omega arith) (omega arith) (omega arith))
      ∙ v.clear n (omega arith) u;
}

contents-pushed :
    (q : QuarantineQueue) (e : QuarantineEntry)
    → IsValid q
    → q.tail < q.head + q.capacity
    → q.tail + 1 < 2 ^ 64
    → contents (pushed q e) ≡ contents q ++ (e ∷ [])
contents-pushed q e v room small =
    let n = q.tail - q.head in
    ap (window (pushed q e) q.head) {x = add_word q.tail 1 - q.head} {y = suc n}
      (omega (arith, v.ordered))
    ∙ window_snoc (pushed q e) q.head n
    ∙ ap₂ (λ (es : List QuarantineEntry) (x : QuarantineEntry). es ++ (x ∷ []))
        (window_ext (pushed q e) q q.head n (λ m l u.
          slot_at-write_near q q.tail m e v (omega (arith, v.ordered)) (omega (arith, v.ordered))
            (omega arith)))
        (ap (slot_at (pushed q e)) {x = q.head + n} {y = q.tail} (omega (arith, v.ordered))
          ∙ slot_at-write_self q q.tail e v)

-- On a well-formed ring with room, `enqueue` of a block with its registry succeeds, keeps the ring
-- well-formed and puts the entry behind the others, until the tail reaches 2 ^ 64.
pub enqueue_appends :
    (q : QuarantineQueue) (st : KerbecsStats) (e : QuarantineEntry)
    → IsValid q
    → IsEntry e
    → is_full q ≡ false
    → q.tail + 1 < 2 ^ 64
    → (q' : QuarantineQueue) × (enqueue q st e
        ≡ some (true, q', with_stats q.stats_attached stats_on_quarantine_enqueue st))
      × IsValid q'
      × (contents q' ≡ contents q ++ (e ∷ []))
unfolding is_full depth
enqueue_appends q st e v h open_ring small =
    let room : q.tail < q.head + q.capacity = ground (arith, v.ordered, v.fits) in
    (
      pushed q e,
      enqueue_room q st e v h room,
      pushed-IsValid q e v h room small,
      contents-pushed q e v room small,
    )

-- `enqueue` of a null block, or of one with no registry, is refused and changes nothing, on any ring.
pub enqueue_refused :
    (q : QuarantineQueue) (st : KerbecsStats) (e : QuarantineEntry)
    → (e.block_base ≡ 0) ⊎ (e.owning_registry ≡ 0)
    → enqueue q st e ≡ some (false, q, st)
unfolding enqueue
enqueue_refused q st e h = rw (refused (is_null q.slots) h)
  where
    refused :
        (b : Bool)
        → (e.block_base ≡ 0) ⊎ (e.owning_registry ≡ 0)
        → (b || (e.block_base == 0) || (e.owning_registry == 0)) ≡ true
    refused b h = ground arith

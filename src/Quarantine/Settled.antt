-- ===== src/Quarantine/Settled.antt =====
-- `endRetiring` as a whole: whether the block enters the quarantine.
use kerbecs.Common.{
  ℕ, ◌+◌, ◌<◌, ◌^◌, ◌≡◌, ◌≢◌, refl, ap, ◌∙◌, Bool, true, false, if◌then◌else◌, Option, none, some,
  [], ◌∷◌, ◌++◌, Bool-cases, inl, inr,
}
use kerbecs.Stats.{KerbecsStats}
use kerbecs.Registry.{AllocationRegistry, node_at, settle}
use kerbecs.Quarantine.{QuarantineQueue, is_full}
use kerbecs.Quarantine.Ring as Ring
use kerbecs.Quarantine.Ring.{contents}
use kerbecs.Quarantine.Enqueue.{enqueue_appends}
use kerbecs.Quarantine.Settle.{Ticket, ticket_entry, after_enqueue, after_settle, end_retiring}

-- The queue that `endRetiring` leaves, if the block entered it or not.
pub record Handed (q : QuarantineQueue) (entered : Bool) (t : Ticket) (base size : ℕ)
    (q' : QuarantineQueue) : Type 0 where
  pub valid : Ring.IsValid q'
  pub passed : entered ≡ false → q' ≡ q
  pub appended : entered ≡ true → contents q' ≡ contents q ++ (ticket_entry t base size ∷ [])

-- With a well-formed ring that has room, for a block that is not null of a registry that is not null:
-- `endRetiring` answers, with the registry of `settle`; the ring gets the block with the size of its
-- node exactly if `settle` hands it on.
pub end_retiring-Handed :
    (r : AllocationRegistry) (q : QuarantineQueue) (st : KerbecsStats) (base : ℕ) (t : Ticket)
    (entered : Bool) (i : ℕ)
    → Ring.IsValid q
    → is_full q ≡ false
    → q.tail + 1 < 2 ^ 64
    → base ≢ 0
    → t.registry ≢ 0
    → (settle r base).0 ≡ (if entered then some i else none)
    → (q' : QuarantineQueue) × (st' : KerbecsStats) × (end_retiring r q st base t
        ≡ some ((settle r base).1, q', st'))
      × Handed q entered t base (node_at (settle r base).1.node_pool i).block_size q'
unfolding end_retiring after_settle after_enqueue
end_retiring-Handed r q st base t entered i v room small nz there e = elim (Bool-cases entered) [
  | inr f ↦
      let answer : (settle r base).0 ≡ none = rw f at e in
      (
        q,
        st,
        ap (λ (o : Option ℕ). after_settle q st base t (o, (settle r base).1)) answer,
        record { valid = v; passed = λ _. refl; appended = λ c. absurd (cc) },
      )
  | inl f ↦
      let answer : (settle r base).0 ≡ some i = rw f at e in
      let entry = ticket_entry t base (node_at (settle r base).1.node_pool i).block_size in
      let (q', done, valid, more) = enqueue_appends q st entry v (nz, there) room small in
      (
        q',
        _,
        ap (λ (o : Option ℕ). after_settle q st base t (o, (settle r base).1)) answer
            ∙ ap (after_enqueue (settle r base).1) done,
        record { valid = valid; passed = λ c. absurd (cc); appended = λ _. more },
      )
]

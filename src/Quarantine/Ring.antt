-- ===== src/Quarantine/Ring.antt =====
-- When the ring of the quarantine is well-formed, and the list of entries that it holds.
use native.Mathlib.Nat.{mod-lt, mod-eq_of_lt, mod-eq-sub-mod, mod-add-mod}
use native.Mathlib.Decide.{dec_lt}
use kerbecs.Common.{
  ℕ, zero, suc, ◌+◌, ◌-◌, ◌/◌, ◌%◌, ◌^◌, ◌≤◌, ◌<◌, ◌≡◌, refl, sym, ap, ap₂, ◌∙◌, ◌≢◌, arith, true,
  false, List, [], ◌∷◌, ◌++◌, length, set, length-replicate, get_or-set_self, get_or-set_ne,
  get_or-replicate, replicate, sub_word, mul_word, bit_and, ◌==◌,
}
use native.Mathlib.Nat.{pow-le-pow_right, one-le-pow}
use kerbecs.Common.Bits.{bit_and_mask}
use kerbecs.Quarantine.{
  QuarantineEntry, QuarantineQueue, blank_entry, entry_bytes, detached_queue, init, index, slot_at,
}

pub record IsValid (q : QuarantineQueue) : Type 0 where
  pub bits : ℕ
  pub power : (q.capacity ≡ 2 ^ bits) × (bits ≤ 63)
  pub storage : length q.slots ≡ q.capacity
  pub ordered : q.head ≤ q.tail
  pub fits : q.tail ≤ q.head + q.capacity
  pub tail_in : q.tail < 2 ^ 64
  -- The slots between head and tail hold blocks, and the others are clear.
  pub filled : (n : ℕ) → q.head ≤ n → n < q.tail → (slot_at q n).block_base ≢ 0
  pub clear : (n : ℕ) → q.tail ≤ n → n < q.head + q.capacity → (slot_at q n).block_base ≡ 0

pub capacity_pos : (q : QuarantineQueue) → IsValid q → 1 ≤ q.capacity
capacity_pos q v = omega (arith, v.power, one-le-pow v.bits 2)

-- The mask of a power of two is the remainder by it.
pub index-mod : (q : QuarantineQueue) (n : ℕ) → IsValid q → index q n ≡ n % q.capacity
index-mod q n v =
    let small : 2 ^ v.bits ≤ 2 ^ 63 =
      pow-le-pow_right {n = 2} (omega arith) {i = v.bits} {j = 63} (v.power).1 in
    let mask : sub_word q.capacity 1 ≡ 2 ^ v.bits - 1 =
      omega (arith, (v.power).0, one-le-pow v.bits 2, small) in
    rw mask (bit_and_mask v.bits n ∙ ap (λ (t : ℕ). n % t) (sym (v.power).0))

-- Fewer than `size` steps round a ring do not come back to the start.
pub mod-ne : (size n d : ℕ) → 0 < d → d < size → (n + d) % size ≢ n % size
mod-ne size n d pos lt e = elim (dec_lt (n % size + d) size) [
  | yes p ↦ omega (arith, e, mod-add-mod n size d, mod-eq_of_lt {n = n % size + d} {m = size} p)
  | no p ↦ omega (
    arith,
    e,
    mod-add-mod n size d,
    mod-lt n {m = size} (omega arith),
    mod-eq-sub-mod {n = n % size + d} {m = size} (omega arith),
    mod-eq_of_lt {n = n % size + d - size} {m = size}
        (omega (arith, mod-lt n {m = size} (omega arith))),
  )
]

-- The entries at `h`, `h + 1` and on, `n` of them.
pub window : QuarantineQueue → ℕ → ℕ → List QuarantineEntry
window q h zero = []
window q h (suc n) = slot_at q h ∷ window q (h + 1) n

-- The blocks in quarantine, oldest first.
abbrev pub contents : QuarantineQueue → List QuarantineEntry
contents q = window q q.head (q.tail - q.head)

pub length-window : (q : QuarantineQueue) (h n : ℕ) → length (window q h n) ≡ n
unfolding window
length-window q h zero = refl
length-window q h (suc n) = ap suc (length-window q (h + 1) n)

pub window_ext :
    (p q : QuarantineQueue) (h n : ℕ)
    → ((m : ℕ) → h ≤ m → m < h + n → slot_at p m ≡ slot_at q m)
    → window p h n ≡ window q h n
unfolding window
window_ext p q h zero same = refl
window_ext p q h (suc n) same =
    ap₂ ◌∷◌ (same h (omega arith) (omega arith))
      (window_ext p q (h + 1) n (λ m l u. same m (omega arith) (omega arith)))

pub window_snoc :
    (q : QuarantineQueue) (h n : ℕ) → window q h (suc n) ≡ window q h n ++ (slot_at q (h + n) ∷ [])
unfolding window
window_snoc q h zero = ap (λ (t : ℕ). slot_at q t ∷ []) {x = h} {y = h + 0} (omega arith)
window_snoc q h (suc n) = ap (◌∷◌ (slot_at q h)) (
    window_snoc q (h + 1) n
    ∙ ap (λ (t : ℕ). window q (h + 1) n ++ (slot_at q t ∷ [])) {x = h + 1 + n} {y = h + suc n}
        (omega arith))

pub window_cons :
    (q : QuarantineQueue) (h n : ℕ) → 0 < n → window q h n ≡ slot_at q h ∷ window q (h + 1) (n - 1)
unfolding window
window_cons q h zero pos = absurd (omega arith)
window_cons q h (suc n) pos =
    ap (λ (t : ℕ). slot_at q h ∷ window q (h + 1) t) {x = n} {y = suc n - 1} (omega arith)

pub window_nil : (q : QuarantineQueue) (h n : ℕ) → n ≡ 0 → window q h n ≡ []
unfolding window
window_nil q h zero e = refl
window_nil q h (suc n) e = absurd (omega arith)

-- The queue with entry `k` of the ring written.
abbrev pub write : QuarantineQueue → ℕ → QuarantineEntry → QuarantineQueue
write q k e = record q { slots = set q.slots (index q k) e }

pub slot_at-write_self :
    (q : QuarantineQueue) (k : ℕ) (e : QuarantineEntry) → IsValid q → slot_at (write q k e) k ≡ e
slot_at-write_self q k e v =
    get_or-set_self q.slots (index q k) e blank_entry
      (omega (arith, index-mod q k v, mod-lt k {m = q.capacity} (capacity_pos q v), v.storage))

pub slot_at-write_ne :
    (q : QuarantineQueue) (k n : ℕ) (e : QuarantineEntry)
    → IsValid q
    → n % q.capacity ≢ k % q.capacity
    → slot_at (write q k e) n ≡ slot_at q n
slot_at-write_ne q k n e v ne =
    get_or-set_ne q.slots (index q k) (index q n) e blank_entry
      (λ same. ne (omega (arith, same, index-mod q k v, index-mod q n v)))

-- Writing entry `k` does not change another one less than a round away.
pub slot_at-write_near :
    (q : QuarantineQueue) (k n : ℕ) (e : QuarantineEntry)
    → IsValid q
    → n ≢ k
    → n < k + q.capacity
    → k < n + q.capacity
    → slot_at (write q k e) n ≡ slot_at q n
slot_at-write_near q k n e v ne below above = slot_at-write_ne q k n e v (elim (dec_lt n k) [
  | yes l ↦ λ same.
      mod-ne q.capacity n (k - n) (omega arith) (omega arith)
        (ap (λ (t : ℕ). t % q.capacity) {x = n + (k - n)} {y = k} (omega arith) ∙ sym same)
  | no g ↦ λ same.
      mod-ne q.capacity k (n - k) (omega arith) (omega arith)
        (ap (λ (t : ℕ). t % q.capacity) {x = k + (n - k)} {y = n} (omega arith) ∙ same)
])

granted-IsValid :
    (bits n : ℕ)
    → n ≡ 2 ^ bits
    → bits ≤ 57
    → IsValid (record {
      slots = replicate n blank_entry;
      capacity = 2 ^ bits;
      head = 0;
      tail = 0;
      stats_attached = true;
    })
granted-IsValid bits n whole h = record {
  bits = bits;
  power = (refl, omega arith);
  storage = length-replicate n blank_entry ∙ whole;
  ordered = omega arith;
  fits = omega arith;
  tail_in = omega arith;
  filled = λ m l u. absurd (omega arith);
  clear = λ m l u.
      ap (λ (e : QuarantineEntry). e.block_base)
        (get_or-replicate n blank_entry (bit_and m (sub_word (2 ^ bits) 1)));
}

-- `init` with a capacity 2 ^ k, k at most 57, so that the bytes do not wrap, with counters and with memory succeeds and makes a
-- well-formed, empty ring.
pub init-IsValid :
    (bits : ℕ)
    → bits ≤ 57
    → ((init (2 ^ bits) true true detached_queue).0 ≡ true)
      × IsValid (init (2 ^ bits) true true detached_queue).1
      × (contents (init (2 ^ bits) true true detached_queue).1 ≡ [])
unfolding init window
init-IsValid bits h =
    let nonzero : (2 ^ bits == 0) ≡ false = ground (arith, one-le-pow bits 2) in
    let small : 2 ^ bits ≤ 2 ^ 57 = pow-le-pow_right {n = 2} (omega arith) {i = bits} {j = 57} h in
    let whole : mul_word (2 ^ bits) entry_bytes / entry_bytes ≡ 2 ^ bits = omega arith in
    rw nonzero
      (refl, granted-IsValid bits (mul_word (2 ^ bits) entry_bytes / entry_bytes) whole h, refl)

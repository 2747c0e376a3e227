-- ===== src/Violation/Stack.antt =====
-- The ring of `pushViolation` and `popViolation` against a list, newest first.
use kerbecs.Common.{
  ℕ, zero, suc, ◌+◌, ◌-◌, ◌%◌, ◌≤◌, ◌<◌, ◌≡◌, refl, sym, ap, ap₂, ◌∙◌, arith, ◌⊎◌, inl, inr, min,
  List, [], ◌∷◌, true, false, length, get_or, set, take, length-set, length-replicate,
  get_or-set_self, get_or-set_ne,
}
use kerbecs.Violation.{
  Violation, ViolationStack, blank_violation, violation_stack_capacity, empty_stack, push_violation,
  pop_violation,
}

pub record IsValid (s : ViolationStack) : Type 0 where
  pub storage : length s.entries ≡ violation_stack_capacity
  pub top_in : s.top < violation_stack_capacity
  pub count_in : s.count ≤ violation_stack_capacity

-- The `n` entries below index `top`, newest first, going round at the capacity.
abbrev pub newest : List Violation → ℕ → ℕ → List Violation
newest entries top zero = []
newest entries top (suc n) =
    let t = (top + violation_stack_capacity - 1) % violation_stack_capacity in
    get_or entries t blank_violation ∷ newest entries t n

abbrev pub contents : ViolationStack → List Violation
contents s = newest s.entries s.top s.count

-- The empty stack, a push and a pop keep the ring well-formed.
pub empty_stack-IsValid : IsValid empty_stack × (contents empty_stack ≡ [])
unfolding empty_stack
empty_stack-IsValid = ground (arith, length-replicate 32 blank_violation)

pub push_violation-IsValid :
    {s : ViolationStack} (v : Violation) → IsValid s → IsValid (push_violation s v)
unfolding push_violation
push_violation-IsValid {s} v w = ground (arith, length-set s.entries s.top v)

pub pop_violation-IsValid :
    {s : ViolationStack} (out : Violation) → IsValid s → IsValid (pop_violation s out).2
unfolding pop_violation
pop_violation-IsValid out w = ground arith

-- A write at `i` does not show in a window that, going down from `d` places above, stops above it.
newest-set :
    (entries : List Violation) (v : Violation) (i top n d : ℕ)
    → top ≡ (i + d) % 32
    → n < d
    → d ≤ 32
    → i < 32
    → newest (set entries i v) top n ≡ newest entries top n
newest-set entries v i top zero d e h l hi = refl
newest-set entries v i top (suc n) d e h l hi =
    ap₂ ◌∷◌ (get_or-set_ne entries i ((top + 32 - 1) % 32) v blank_violation (λ c. omega arith)) (
      newest-set entries v i ((top + 32 - 1) % 32) n (d - 1) (omega arith) (omega arith)
        (omega arith) hi)

take-newest :
    (entries : List Violation) (top k n : ℕ)
    → take k (newest entries top n) ≡ newest entries top (min k n)
take-newest entries top zero n = ap (newest entries top) {x = 0} {y = min 0 n} (omega arith)
take-newest entries top (suc k) zero =
    ap (newest entries top) {x = 0} {y = min (suc k) 0} (omega arith)
take-newest entries top (suc k) (suc n) =
    ap (◌∷◌ (get_or entries ((top + 32 - 1) % 32) blank_violation))
      (take-newest entries ((top + 32 - 1) % 32) k n)
    ∙ ap (newest entries top) {x = suc (min k n)} {y = min (suc k) (suc n)} (omega arith)

pushed_newest :
    (entries : List Violation) (v : Violation) (top n : ℕ)
    → length entries ≡ 32
    → top < 32
    → n < 32
    → newest (set entries top v) ((top + 1) % 32) (suc n) ≡ v ∷ newest entries top n
pushed_newest entries v top n len t h =
    let back : ((top + 1) % 32 + 32 - 1) % 32 ≡ top = omega arith in
    rw back (
      ap₂ ◌∷◌ (get_or-set_self entries top v blank_violation (omega arith))
        (newest-set entries v top top n 32 (omega arith) h (omega arith) t))

-- On a well-formed stack a push puts the violation on top of the stack and keeps the 32 newest: past the capacity the
-- oldest entry goes.
pub contents-push_violation :
    (s : ViolationStack) (v : Violation)
    → IsValid s
    → contents (push_violation s v) ≡ take violation_stack_capacity (v ∷ contents s)
unfolding push_violation
contents-push_violation s v w =
    ap (newest (set s.entries s.top v) ((s.top + 1) % 32)) counted
    ∙ pushed_newest s.entries v s.top (min 31 s.count) w.storage w.top_in (omega arith)
    ∙ ap (◌∷◌ v) (sym (take-newest s.entries s.top 31 s.count))
  where
    counted : (push_violation s v).count ≡ suc (min 31 s.count)
    counted = ground (arith, w.count_in)

-- A pop of a well-formed stack fails on the empty stack and changes nothing; otherwise it gives the newest entry and
-- leaves the others.
pub contents-pop_violation :
    (s : ViolationStack) (out : Violation)
    → IsValid s
    → ((contents s ≡ []) × (pop_violation s out ≡ (false, out, s)))
      ⊎ ((v : Violation) × (rest : List Violation) × (contents s ≡ v ∷ rest)
          × ((pop_violation s out).0 ≡ true)
          × ((pop_violation s out).1 ≡ v)
          × (contents (pop_violation s out).2 ≡ rest))
unfolding pop_violation
contents-pop_violation s out w = by_count s.count refl
  where
    below : ℕ
    below = (s.top + 32 - 1) % 32

    by_count :
        (n : ℕ)
        → s.count ≡ n
        → ((contents s ≡ []) × (pop_violation s out ≡ (false, out, s)))
          ⊎ ((v : Violation) × (rest : List Violation) × (contents s ≡ v ∷ rest)
              × ((pop_violation s out).0 ≡ true)
              × ((pop_violation s out).1 ≡ v)
              × (contents (pop_violation s out).2 ≡ rest))
    by_count zero e = inl (ap (newest s.entries s.top) e, ground arith)
    by_count (suc n) e = inr (
      get_or s.entries below blank_violation,
      newest s.entries below n,
      ap (newest s.entries s.top) e,
      ground arith,
      ground arith,
      ground arith,
    )

-- ===== src/Region/Refused.antt =====
-- A `destroy` of a handle whose block is in the quarantine, and any number of them.
use mathlib.Core.Path.{subst}
use kerbecs.Common.{
  ℕ, ◌+◌, ◌-◌, ◌*◌, ◌/◌, ◌≤◌, ◌<◌, ◌≡◌, ◌≢◌, ◌⊎◌, refl, sym, ap, ◌∙◌, arith, true, false, not, ◌||◌,
  ◌&&◌, ◌==◌, Bool-cases, inl, inr, none, some, Option-cases, Option, List, [], ◌∷◌,
}
use kerbecs.Memory.Pages.{System}
use kerbecs.Layout.Pattern.{Memory}
use kerbecs.Violation.{ViolationKind, double_free, thread_ownership}
use kerbecs.Registry.{AllocationRegistry, node_at, find, begin_retiring}
use kerbecs.Registry.Node.{RegistryNode, AllocationState, ThreadPolicy, is_strict, state_eq}
use kerbecs.Registry.Invariant.{base_of, state_of, used}
use kerbecs.Registry.Invariant as Registry
use kerbecs.Registry.Lookup.{find_iff}
use kerbecs.Registry.Retiring.{begin_retiring_iff, begin_retiring-IsValid}
use kerbecs.Registry.Edges.{cursor-begin_retiring}
use kerbecs.Region.Granted.{registry_of-with_registry}
use kerbecs.Registry.Destruction.{base-begin_retiring, state-begin_retiring}
use kerbecs.ShadowedMemory.{AccessInfo, Handle, Monitor, Clock, check}
use kerbecs.Region.{
  Region, World, Caller, access_info_size, registry_of, with_registry, report_violation,
}
use kerbecs.Region.Destroy.{node_for, refusal_kind, after_begin, destroy_at, destroy}

-- The handle of slot `slot` leads `_nodeFor` to that slot.
pub node_for-slot :
    (r : Region) (reg : AllocationRegistry) (h : Handle) (slot : ℕ)
    → r.metadata_base ≢ 0
    → h.meta_ptr ≡ r.metadata_base + slot * access_info_size
    → slot < reg.node_capacity
    → node_for r reg h ≡ some slot
unfolding node_for
node_for-slot r reg h slot there e l =
    let same : (h.meta_ptr - r.metadata_base) / access_info_size ≡ slot = omega arith in
    rw same (ground arith)

-- A handle with a generation of its own, whose access info has lost its generation, traps.
check-expired :
    (infos : ℕ → AccessInfo) (h : Handle) (c : Clock) (m : Monitor)
    → h.payload_ptr ≢ 0
    → h.meta_ptr ≢ 0
    → 1 ≤ h.generation
    → (infos h.meta_ptr).generation ≡ 0
    → (check infos h c m).0 ≡ false
unfolding check
check-expired infos h c m payload meta gen e =
    let open_call : ((h.payload_ptr == 0) || (h.meta_ptr == 0)) ≡ false = ground arith in
    let stale : not ((infos h.meta_ptr).generation == h.generation) ≡ true = ground arith in
    rw (open_call, stale) refl

-- A violation that `destroy` reports for a block that was freed already.
abbrev pub IsRefusal : ThreadPolicy → ViolationKind → Type 0
IsRefusal policy kind =
    (kind ≡ double_free) ⊎ ((is_strict policy ≡ true) × (kind ≡ thread_ownership))

refusal_kind-IsRefusal :
    (policy : ThreadPolicy) (thread : ℕ) (node : RegistryNode)
    → state_eq node.state AllocationState.retiring ≡ false
    → IsRefusal policy (refusal_kind policy thread node)
unfolding refusal_kind
refusal_kind-IsRefusal policy thread node e =
    elim (Bool-cases (is_strict policy && not (thread == node.thread_id))) [
      | inl t ↦ rw t (inr (ground (arith, t), refl))
      | inr f ↦ rw (f, e) (inl refl)
    ]

capacity-begin_retiring :
    (reg : AllocationRegistry) (base caller : ℕ) (policy : ThreadPolicy)
    → (begin_retiring reg base caller policy).1.node_capacity ≡ reg.node_capacity
unfolding begin_retiring
capacity-begin_retiring reg base caller policy = ground arith

used-begin_retiring :
    (reg : AllocationRegistry) (base caller : ℕ) (policy : ThreadPolicy)
    → used (begin_retiring reg base caller policy).1 ≡ used reg
used-begin_retiring reg base caller policy = omega (
  arith,
  cursor-begin_retiring reg base caller policy,
  capacity-begin_retiring reg base caller policy,
)

-- A `beginRetiring` that is refused on a block in the quarantine leaves it there.
begun-found :
    (reg : AllocationRegistry) (base slot caller : ℕ) (policy : ThreadPolicy)
    → Registry.IsValid reg
    → find reg base ≡ some slot
    → state_of reg slot ≡ AllocationState.quarantine
    → find (begin_retiring reg base caller policy).1 base ≡ some slot
begun-found reg base slot caller policy v f dead =
    let (nz, l, t, b) = (find_iff reg v base slot).0 f in
    let kept = state-begin_retiring reg base caller policy slot v f dead in
    (find_iff (begin_retiring reg base caller policy).1
        (begin_retiring-IsValid reg base caller policy v) base slot).1
      (
        nz,
        rw (used-begin_retiring reg base caller policy) l,
        rw kept refl,
        base-begin_retiring reg base caller policy slot ∙ b,
      )

-- A handle on slot `slot` whose block `base` is in the quarantine, and whose access info has lost its generation.
pub record Spent {A S : Type 0} (r : Region) (h : Handle) (base slot : ℕ) (w : World A S)
    : Type 0 where
  pub valid : Registry.IsValid (registry_of r w)
  pub found : find (registry_of r w) base ≡ some slot
  pub state : state_of (registry_of r w) slot ≡ AllocationState.quarantine
  pub expired : (w.infos h.meta_ptr).generation ≡ 0

registry_of-report_violation :
    {A S : Type 0} (kind : ViolationKind) (address base size : ℕ) (r : Region) (c : Caller)
    (w : World A S)
    → registry_of r (report_violation kind address base size c w) ≡ registry_of r w
unfolding report_violation
registry_of-report_violation kind address base size r c w = refl

infos-report_violation :
    {A S : Type 0} (kind : ViolationKind) (address base size : ℕ) (c : Caller) (w : World A S)
    → (report_violation kind address base size c w).infos ≡ w.infos
unfolding report_violation
infos-report_violation kind address base size c w = refl

module _ {A S : Type 0} (sys : System S) (policy : ThreadPolicy) (r : Region)
    (destructor : Memory → ℕ → Memory) (type_size : ℕ) (h : Handle) where
  destroy-refused :
      (c : Caller) (w : World A S) (slot : ℕ)
      → let begun =
          begin_retiring (registry_of r w) (base_of (registry_of r w) slot) c.thread policy in
        node_for r (registry_of r w) h ≡ some slot
        → begun.0 ≡ none
        → destroy sys policy r c destructor type_size h w
          ≡ some (
            false,
            report_violation
                (refusal_kind policy c.thread (node_at (begun.1).node_pool slot))
                h.payload_ptr
                (base_of begun.1 slot)
                type_size
                c
                (with_registry r begun.1 w),
          )
  unfolding destroy destroy_at after_begin
  destroy-refused c w slot at none_left =
      let begun =
        begin_retiring (registry_of r w) (base_of (registry_of r w) slot) c.thread policy in
      ap (destroy_at sys policy r c destructor type_size h w) at
      ∙ ap (λ o. after_begin sys policy r c destructor type_size h slot w (o, begun.1)) none_left

  -- With a block in the quarantine, a `destroy` of it is refused as a double free, or under the
  -- strict policy as one by a thread that does not own it; the block stays where it is.
  destroy_again :
      (base slot : ℕ) (c : Caller) (w : World A S)
      → r.metadata_base ≢ 0
      → h.meta_ptr ≡ r.metadata_base + slot * access_info_size
      → Spent r h base slot w
      → (kind : ViolationKind) × (reg : AllocationRegistry) × (destroy sys policy r c destructor
            type_size h w
          ≡ some
              (false, report_violation kind h.payload_ptr base type_size c (with_registry r reg w)))
        × IsRefusal policy kind
        × Spent r h base slot
            (report_violation kind h.payload_ptr base type_size c (with_registry r reg w))
  destroy_again base slot c w meta place z =
      let reg = registry_of r w in
      let (nz, l, t, b) = (find_iff reg z.valid base slot).0 z.found in
      let at = node_for-slot r reg h slot meta place (omega (arith, l)) in
      let begun = begin_retiring reg base c.thread policy in
      let same : begin_retiring reg (base_of reg slot) c.thread policy ≡ begun =
        ap (λ n. begin_retiring reg n c.thread policy) b in
      let answer : begun.0 ≡ none = elim (Option-cases begun.0) [
        | inl e ↦ e
        | inr (j, e) ↦
            let (g, live, _) = (begin_retiring_iff reg base c.thread policy j z.valid).0 e in
            absurd (ground (arith, g, z.found, live, z.state))
      ] in
      let kept = state-begin_retiring reg base c.thread policy slot z.valid z.found z.state in
      let kind = refusal_kind policy c.thread (node_at (begun.1).node_pool slot) in
      let w' = report_violation kind h.payload_ptr base type_size c (with_registry r begun.1 w) in
      let here : registry_of r w' ≡ begun.1 =
        registry_of-report_violation kind h.payload_ptr base type_size r c
          (with_registry r begun.1 w)
        ∙ registry_of-with_registry r begun.1 w in
      (
        kind,
        begun.1,
        destroy-refused c w slot at (ap (λ x. x.0) same ∙ answer)
            ∙ ap
                (λ (x : Option ℕ × AllocationRegistry). some (
                  false,
                  report_violation (refusal_kind policy c.thread (node_at (x.1).node_pool slot))
                      h.payload_ptr (base_of x.1 slot) type_size c (with_registry r x.1 w),
                ))
                same
            ∙ ap
                (λ n. some (
                  false,
                  report_violation kind h.payload_ptr n type_size c (with_registry r begun.1 w),
                ))
                (base-begin_retiring reg base c.thread policy slot ∙ b),
        refusal_kind-IsRefusal policy c.thread (node_at (begun.1).node_pool slot)
            (ground (arith, kept)),
        record {
          valid =
              subst Registry.IsValid (sym here)
                (begin_retiring-IsValid reg base c.thread policy z.valid);
          found =
              subst (λ (x : AllocationRegistry). find x base ≡ some slot) (sym here)
                (begun-found reg base slot c.thread policy z.valid z.found z.state);
          state =
              subst (λ (x : AllocationRegistry). state_of x slot ≡ AllocationState.quarantine)
                (sym here) kept;
          expired =
              ap (λ (infos : ℕ → AccessInfo). (infos h.meta_ptr).generation)
                (infos-report_violation kind h.payload_ptr base type_size c
                  (with_registry r begun.1 w))
              ∙ z.expired;
        },
      )

  -- From `w` on, the callers of the list `destroy` the handle, one after the other: each is refused and reported,
  -- and the handle's checks trap before, between and after them.
  unfoldable pub AreRefused : ℕ → List Caller → World A S → Type 0
  AreRefused base [] w = (k : Clock) (m : Monitor) → (check w.infos h k m).0 ≡ false
  AreRefused base (c ∷ cs) w =
      ((k : Clock) (m : Monitor) → (check w.infos h k m).0 ≡ false)
      × (kind : ViolationKind) × (reg : AllocationRegistry) × (destroy sys policy r c destructor
            type_size h w
          ≡ some
              (false, report_violation kind h.payload_ptr base type_size c (with_registry r reg w)))
      × IsRefusal policy kind
      × AreRefused base cs
          (report_violation kind h.payload_ptr base type_size c (with_registry r reg w))

  pub Spent-AreRefused :
      (base slot : ℕ) (cs : List Caller) (w : World A S)
      → r.metadata_base ≢ 0
      → h.meta_ptr ≡ r.metadata_base + slot * access_info_size
      → h.payload_ptr ≢ 0
      → 1 ≤ h.generation
      → Spent r h base slot w
      → AreRefused base cs w
  unfolding AreRefused
  Spent-AreRefused base slot [] w meta place there gen z =
      λ k m. check-expired w.infos h k m there (λ e. absurd (omega (arith, place))) gen z.expired
  Spent-AreRefused base slot (c ∷ cs) w meta place there gen z =
      let (kind, reg, e, which, z') = destroy_again base slot c w meta place z in
      (
        λ k m. check-expired w.infos h k m there (λ e. absurd (omega (arith, place))) gen z.expired,
        kind,
        reg,
        e,
        which,
        Spent-AreRefused base slot cs
            (report_violation kind h.payload_ptr base type_size c (with_registry r reg w)) meta
            place there gen z',
      )

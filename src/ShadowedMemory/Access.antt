-- ===== src/ShadowedMemory/Access.antt =====
-- What `_check` and `operator+` let through.
use kerbecs.Common.{
  ℕ, suc, ◌+◌, ◌*◌, ◌^◌, ◌≤◌, ◌<◌, ◌≡◌, ◌≢◌, ◌↔◌, refl, arith, Bool, true, false, ltb, add_word,
  pos, ◌∷◌, take, ap, ◌∙◌,
}
use native.Mathlib.Decide.{ℕ_discrete}
use kerbecs.Stats.{stats_on_violation}
use kerbecs.Violation.{ViolationKind, use_after_free, buffer_overflow, make_violation}
use kerbecs.Violation.Stack.{IsValid, contents, contents-push_violation}
use kerbecs.ShadowedMemory.{
  AccessInfo, Handle, null_handle, Monitor, Clock, report, check, offset, offset_up,
}

-- What a report leaves: one violation more is counted, and it is the newest.
pub record Reported (kind : ViolationKind) (address base size : ℕ) (c : Clock) (m after : Monitor)
    : Type 0 where
  pub counted : after.stats ≡ stats_on_violation m.stats
  pub newest :
      contents after.violations
      ≡ take 32 (make_violation kind address base size c.thread c.stamp ∷ contents m.violations)

report-Reported :
    (kind : ViolationKind) (address base size : ℕ) (c : Clock) (m : Monitor)
    → IsValid m.violations
    → Reported kind address base size c m (report kind address base size c m)
unfolding report
report-Reported kind address base size c m v = record {
  counted = refl;
  newest =
      contents-push_violation m.violations (make_violation kind address base size c.thread c.stamp)
        v;
}

pub record Checked (infos : ℕ → AccessInfo) (h : Handle) (c : Clock) (m : Monitor)
    (r : Bool × Monitor) : Type 0 where
  pub traps_iff :
      (r.0 ≡ false)
      ↔ ((h.payload_ptr ≢ 0) × (h.meta_ptr ≢ 0) × ((infos h.meta_ptr).generation ≢ h.generation))
  pub on_trap : r.0 ≡ false → Reported use_after_free h.payload_ptr h.payload_ptr 0 c m r.1
  pub on_pass : r.0 ≡ true → r.1 ≡ m

-- `_check` on a well-formed stack of violations: it traps exactly if the handle is not null and the
-- generation in its slot is not the handle's; then one violation more is counted and the newest one
-- is a use after free of the handle's address, and else nothing changes.
pub check-Checked :
    (infos : ℕ → AccessInfo) (h : Handle) (c : Clock) (m : Monitor)
    → IsValid m.violations
    → Checked infos h c m (check infos h c m)
unfolding check
check-Checked infos h c m v = elim (ℕ_discrete h.payload_ptr 0) [
  | yes z ↦
      let e : check infos h c m ≡ (true, m) = ground arith in
      rw e (record {
        traps_iff = (λ q. absurd (ground arith), λ q. absurd (q.0 z));
        on_trap = λ q. absurd (ground arith);
        on_pass = λ q. refl;
      })
  | no some_payload ↦ elim (ℕ_discrete h.meta_ptr 0) [
    | yes z ↦
        let e : check infos h c m ≡ (true, m) = ground arith in
        rw e (record {
          traps_iff = (λ q. absurd (ground arith), λ q. absurd (q.1 z));
          on_trap = λ q. absurd (ground arith);
          on_pass = λ q. refl;
        })
    | no some_meta ↦ elim (ℕ_discrete (infos h.meta_ptr).generation h.generation) [
      | yes same ↦
          let e : check infos h c m ≡ (true, m) = ground arith in
          rw e (record {
            traps_iff = (λ q. absurd (ground arith), λ q. absurd (q.2 same));
            on_trap = λ q. absurd (ground arith);
            on_pass = λ q. refl;
          })
      | no stale ↦
          let e : check infos h c m
              ≡ (false, report use_after_free h.payload_ptr h.payload_ptr 0 c m) =
            ground arith in
          rw e (record {
            traps_iff = (λ q. (some_payload, some_meta, stale), λ q. refl);
            on_trap = λ q. report-Reported use_after_free h.payload_ptr h.payload_ptr 0 c m v;
            on_pass = λ q. absurd (ground arith);
          })
    ]
  ]
]

-- The handle moved by an index whose bytes do not wrap.
abbrev pub shifted : ℕ → Handle → ℕ → Handle
shifted type_size h n = record h { payload_ptr = h.payload_ptr + n * type_size }

-- What `operator+` gives for an index that is not negative.
pub record Offset (type_size : ℕ) (infos : ℕ → AccessInfo) (h : Handle) (n : ℕ) (c : Clock)
    (m : Monitor) (r : Handle × Monitor) : Type 0 where
  pub inside : suc n * type_size ≤ (infos h.meta_ptr).user_size → r ≡ (shifted type_size h n, m)
  pub outside :
      (infos h.meta_ptr).user_size < suc n * type_size
      → (r.0 ≡ null_handle)
        × Reported buffer_overflow
            (h.payload_ptr + n * type_size)
            h.payload_ptr
            (infos h.meta_ptr).user_size
            c
            m
            r.1

-- `operator+` on a handle that is not null, with an index that is not negative and an address that
-- does not wrap: where the element ends inside `m_UserSize`, counted from the handle's own address,
-- the handle moves and nothing else changes; where it does not, the result is null and a buffer
-- overflow at the element's address is reported.
pub offset-Offset :
    (type_size : ℕ) (infos : ℕ → AccessInfo) (h : Handle) (n : ℕ) (c : Clock) (m : Monitor)
    → IsValid m.violations
    → h.payload_ptr ≢ 0
    → h.meta_ptr ≢ 0
    → h.payload_ptr + n * type_size < 2 ^ 64
    → Offset type_size infos h n c m (offset type_size infos h (pos n) c m)
unfolding offset offset_up
offset-Offset type_size infos h n c m v some_payload some_meta fits =
    let address : add_word h.payload_ptr (n * type_size) ≡ h.payload_ptr + n * type_size =
      omega arith in
    let bytes : suc n * type_size ≡ n * type_size + type_size = omega arith in
    record {
      inside = λ h₁.
          let test : ltb (infos h.meta_ptr).user_size (n * type_size + type_size) ≡ false =
            ground arith in
          ground arith;
      outside = λ h₁.
          let test : ltb (infos h.meta_ptr).user_size (n * type_size + type_size) ≡ true =
            ground arith in
          let e : offset type_size infos h (pos n) c m ≡ (
            null_handle,
            report buffer_overflow (h.payload_ptr + n * type_size) h.payload_ptr
                (infos h.meta_ptr).user_size c m,
          ) =
            ground arith in
          rw e (
            refl,
            report-Reported buffer_overflow (h.payload_ptr + n * type_size) h.payload_ptr
                (infos h.meta_ptr).user_size c m v,
          );
    }

-- From a handle that is not null, with addresses that do not wrap: two moves by indices that are not
-- negative and each lie inside `m_UserSize` go through, wherever their sum ends: the
-- second is counted from the moved handle.
pub offset-offset :
    (type_size : ℕ) (infos : ℕ → AccessInfo) (h : Handle) (n k : ℕ) (c : Clock) (m : Monitor)
    → IsValid m.violations
    → h.payload_ptr ≢ 0
    → h.meta_ptr ≢ 0
    → h.payload_ptr + n * type_size + k * type_size < 2 ^ 64
    → suc n * type_size ≤ (infos h.meta_ptr).user_size
    → suc k * type_size ≤ (infos h.meta_ptr).user_size
    → (let first = offset type_size infos h (pos n) c m in
        offset type_size infos first.0 (pos k) c first.1)
      ≡ (shifted type_size h (n + k), m)
offset-offset type_size infos h n k c m v some_payload some_meta fits in_n in_k =
    let first =
      (offset-Offset type_size infos h n c m v some_payload some_meta (omega arith)).inside in_n in
    let second =
      (offset-Offset type_size infos (shifted type_size h n) k c m v
          (λ z. some_payload (omega arith)) some_meta fits).inside
        in_k in
    rw first (second ∙ ap (λ (a : ℕ). (record h { payload_ptr = a }, m)) (omega arith))

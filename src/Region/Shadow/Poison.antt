-- ===== src/Region/Shadow/Poison.antt =====
-- The loop of `_setShadow` that poisons: the pages that it asks for, its end, and the bits that it sets.
use kerbecs.Common.{
  ℕ, zero, suc, ◌+◌, ◌-◌, ◌/◌, ◌≤◌, ◌<◌, ◌≡◌, ◌≢◌, refl, sym, ap, ◌∙◌, arith, Bool, true, false,
  ◌||◌, ◌==◌, Bool-cases, inl, inr, Option, none, some, ◌⊎◌,
}
use mathlib.Core.Path.{subst}
use kerbecs.Layout.Pattern.{Memory}
use kerbecs.Memory.{PageState, page_size}
use kerbecs.Memory.Pages.{
  System, IsSystem, IsMapped, page_base, commit, commit_in_state, commit_page_if_needed,
}
use kerbecs.Region.Shadow.{after_commit, set_shadow_loop}
use kerbecs.Region.Shadow.Marks.{
  AreBytes, Marked, round_store, round_store-Marked, none-Marked, Marked-trans,
}
use kerbecs.Region.Shadow.Loop.{round_span, loop_done, loop_poisons}

-- What `commitPageIfNeeded` came to for address `a`: the page was there, the system was asked for it, or it
-- is the page of null, which is not asked for.
pub data Vouched {S : Type 0} (sys : System S) (a : ℕ) : Bool → S → S → Type 0 where
  seen : (s : S) → sys.query_page s a ≡ PageState.committed → Vouched sys a true s s
  asked :
      (s t : S) (done : Bool)
      → sys.query_page s a ≡ PageState.reserved
      → sys.protect s (page_base a) page_size ≡ (done, t)
      → Vouched sys a done s t
  null : (s : S) → (a ≡ 0) ⊎ (page_base a ≡ 0) → Vouched sys a false s s

-- The rounds over the bits from `i` to `end`, as the system sees them: each one that was done was vouched for
-- before, in the state that the rounds in front of it left, and a round that was not is the last.
pub data Rounds {S : Type 0} (sys : System S) (base : ℕ) : ℕ → ℕ → S → S → Type 0 where
  stop : (i : ℕ) (s : S) → Rounds sys base i i s s
  fail : (i : ℕ) (s t : S) → Vouched sys (base + i / 8) false s t → Rounds sys base i i s t
  round :
      (i next end : ℕ) (s t u : S)
      → i < next
      → (next - 1) / 8 ≡ i / 8
      → Vouched sys (base + i / 8) true s t
      → Rounds sys base next end t u
      → Rounds sys base i end s u

module _ {S : Type 0} (sys : System S) where
  abbrev CommitOutcome : S → ℕ → Option (Bool × S) → Type 0
  CommitOutcome s a o =
      (o ≡ none) ⊎ ((s' : S) × (done : Bool) × (o ≡ some (done, s')) × Vouched sys a done s s')

  commit_in_state-cases :
      (s : S) (a : ℕ) (p : PageState)
      → sys.query_page s a ≡ p
      → CommitOutcome s a (commit_in_state sys s a p)
  unfolding commit_in_state commit
  commit_in_state-cases s a PageState.committed e = inr (s, true, refl, seen s e)
  commit_in_state-cases s a PageState.free e = inl refl
  commit_in_state-cases s a PageState.unknown e = inl refl
  commit_in_state-cases s a PageState.reserved e =
      elim (Bool-cases ((page_base a == 0) || (page_size == 0))) [
        | inl zero_page ↦
            rw zero_page (inr (s, false, refl, null s (inr (ground (arith, zero_page)))))
        | inr more ↦
            let flat : page_base a + 0 ≡ page_base a = omega arith in
            rw (more, flat)
              (inr (
                (sys.protect s (page_base a) page_size).1,
                (sys.protect s (page_base a) page_size).0,
                refl,
                asked s (sys.protect s (page_base a) page_size).1
                    (sys.protect s (page_base a) page_size).0 e refl,
              ))
      ]

  commit-cases : (s : S) (a : ℕ) → CommitOutcome s a (commit_page_if_needed sys s a)
  unfolding commit_page_if_needed
  commit-cases s a = elim (Bool-cases (a == 0)) [
    | inl zero_page ↦ rw zero_page (inr (s, false, refl, null s (inl (ground (arith, zero_page)))))
    | inr more ↦ rw more (commit_in_state-cases s a (sys.query_page s a) refl)
  ]

  -- Poisoning marks the bits up to some point, which is the end if it succeeds, over pages that were vouched
  -- for, and asks the system for no others.
  pub record Poisoned (base offset remaining : ℕ) (s : S) (m : Memory) (r : Bool × S × Memory)
      : Type 0 where
    pub reached : ℕ
    pub from : offset ≤ reached
    pub upto : reached ≤ offset + remaining
    pub complete : r.0 ≡ true → reached ≡ offset + remaining
    pub short : r.0 ≡ false → reached < offset + remaining
    pub marked : Marked true (λ a. false) base offset reached m r.2
    pub rounds : Rounds sys base offset reached s r.1

  Poisoned-none :
      (base offset remaining : ℕ) (s : S) (m : Memory) (done : Bool) (s' : S)
      → AreBytes m
      → (done ≡ true → remaining ≡ 0)
      → (done ≡ false → 0 < remaining)
      → Rounds sys base offset offset s s'
      → Poisoned base offset remaining s m (done, s', m)
  Poisoned-none base offset remaining s m done s' b end left k = record {
    reached = offset;
    from = omega arith;
    upto = omega arith;
    complete = λ e. omega (arith, end e);
    short = λ e. omega (arith, left e);
    marked = none-Marked true (λ a. false) base offset m b;
    rounds = k;
  }

  after_commit-cases :
      (o : Option (Bool × S)) (base offset remaining : ℕ) (s : S) (m : Memory)
      (r : Bool × S × Memory) (next : S → Option (Bool × S × Memory))
      → AreBytes m
      → remaining ≢ 0
      → CommitOutcome s (base + offset / 8) o
      → after_commit sys o m next ≡ some r
      → ((s' : S)
          → next s' ≡ some r
          → Vouched sys (base + offset / 8) true s s'
          → Poisoned base offset remaining s m r)
      → Poisoned base offset remaining s m r
  unfolding after_commit
  after_commit-cases none base offset remaining s m r next b more out e go = absurd (cc)
  after_commit-cases (some (true, t)) base offset remaining s m r next b more out e go = elim out [
    | inl none_there ↦ absurd (cc)
    | inr (s', done, eq, here) ↦
        let same : t ≡ s' = cc in
        let yes_done : done ≡ true = cc in
        go s' (rw (← same) e) (subst (λ d. Vouched sys (base + offset / 8) d s s') yes_done here)
  ]
  after_commit-cases (some (false, t)) base offset remaining s m r next b more out e go = elim out [
    | inl none_there ↦ absurd (cc)
    | inr (s', done, eq, here) ↦
        let same : (false, s', m) ≡ r = cc in
        let not_done : done ≡ false = cc in
        subst (Poisoned base offset remaining s m) same (
          Poisoned-none base offset remaining s m false s' b (λ q. absurd (cc)) (λ q. omega arith)
            (fail offset s s' (subst (λ d. Vouched sys (base + offset / 8) d s s') not_done here)))
  ]

  round_then_rest :
      (base offset remaining : ℕ) (s s' : S) (m : Memory) (r : Bool × S × Memory)
      → remaining ≢ 0
      → AreBytes m
      → Vouched sys (base + offset / 8) true s s'
      → (let span = round_span offset remaining in
          Poisoned base
            (offset + span)
            (remaining - span)
            s'
            (round_store true base offset span m)
            r)
      → Poisoned base offset remaining s m r
  round_then_rest base offset remaining s s' m r more b page rest =
      let span = round_span offset remaining in
      let first = round_store-Marked true (λ a. false) base offset span m refl b (omega arith) in
      record {
        reached = rest.reached;
        from = omega (arith, rest.from);
        upto = omega (arith, rest.upto);
        complete = λ e. omega (arith, rest.complete e);
        short = λ e. omega (arith, rest.short e);
        marked = Marked-trans (omega arith) rest.from first rest.marked;
        rounds =
            round offset (offset + span) rest.reached s s' r.1 (omega arith) (omega arith) page
              rest.rounds;
      }

  pub poisons :
      (fuel base offset remaining : ℕ) (s : S) (m : Memory) (r : Bool × S × Memory)
      → remaining ≤ fuel
      → AreBytes m
      → set_shadow_loop sys fuel true base offset remaining s m ≡ some r
      → Poisoned base offset remaining s m r
  poisons zero base offset zero s m r l b e =
      let same : (true, s, m) ≡ r = cc (loop_done sys zero true base offset s m, e) in
      subst (Poisoned base offset 0 s m) same
        (Poisoned-none base offset 0 s m true s b (λ q. refl) (λ q. absurd (cc)) (stop offset s))
  poisons zero base offset (suc remaining) s m r l b e = absurd (omega arith)
  poisons (suc fuel) base offset zero s m r l b e =
      let same : (true, s, m) ≡ r = cc (loop_done sys (suc fuel) true base offset s m, e) in
      subst (Poisoned base offset 0 s m) same
        (Poisoned-none base offset 0 s m true s b (λ q. refl) (λ q. absurd (cc)) (stop offset s))
  poisons (suc fuel) base offset (suc remaining) s m r l b e =
      let span = round_span offset (suc remaining) in
      let marked = round_store true base offset span m in
      let more : suc remaining ≢ 0 = λ q. absurd (omega arith) in
      let first = round_store-Marked true (λ a. false) base offset span m refl b (omega arith) in
      after_commit-cases (commit_page_if_needed sys s (base + offset / 8)) base offset
        (suc remaining) s m r
        (λ s'. set_shadow_loop sys fuel true base (offset + span) (suc remaining - span) s' marked)
        b more (commit-cases s (base + offset / 8))
        (sym (loop_poisons sys fuel base offset (suc remaining) s m more) ∙ e)
        (λ s' e' page. round_then_rest base offset (suc remaining) s s' m r more b page (
          poisons fuel base (offset + span) (suc remaining - span) s' marked r (omega arith)
            first.bytes e'))

  commit_answers :
      (s : S) (a : ℕ)
      → IsSystem sys
      → IsMapped sys s a
      → (done : Bool) × (s' : S) × (commit_page_if_needed sys s a ≡ some (done, s'))
        × ((q : ℕ) → IsMapped sys s q → IsMapped sys s' q)
  unfolding commit_page_if_needed commit_in_state commit
  commit_answers s a law zone = elim (Bool-cases (a == 0)) [
    | inl zero_page ↦ rw zero_page (false, s, refl, λ q h. h)
    | inr more ↦ elim zone [
      | inl c ↦ rw (more, c) (true, s, refl, λ q h. h)
      | inr c ↦ elim (Bool-cases ((page_base a == 0) || (page_size == 0))) [
        | inl zero_page ↦ rw (more, c, zero_page) (false, s, refl, λ q h. h)
        | inr asks ↦
            rw (more, c, asks)
              (
                (sys.protect s (page_base a + 0) page_size).0,
                (sys.protect s (page_base a + 0) page_size).1,
                refl,
                law.keeps s (page_base a + 0) page_size,
              )
      ]
    ]
  ]

  after_answer :
      (done : Bool) (s : S) (m : Memory) (next : S → Option (Bool × S × Memory))
      → ((r : Bool × S × Memory) × (next s ≡ some r))
      → (r : Bool × S × Memory) × (after_commit sys (some (done, s)) m next ≡ some r)
  unfolding after_commit
  after_answer true s m next go = go
  after_answer false s m next go = ((false, s, m), refl)

  -- Where the part of the map is mapped, poisoning comes to an answer.
  pub poisons_returns :
      (fuel base offset remaining : ℕ) (s : S) (m : Memory)
      → IsSystem sys
      → ((i : ℕ) → offset ≤ i → i < offset + remaining → IsMapped sys s (base + i / 8))
      → remaining ≤ fuel
      → (r : Bool × S × Memory) × (set_shadow_loop sys fuel true base offset remaining s m ≡ some r)
  poisons_returns zero base offset zero s m law zone l =
      ((true, s, m), loop_done sys zero true base offset s m)
  poisons_returns zero base offset (suc remaining) s m law zone l = absurd (omega arith)
  poisons_returns (suc fuel) base offset zero s m law zone l =
      ((true, s, m), loop_done sys (suc fuel) true base offset s m)
  poisons_returns (suc fuel) base offset (suc remaining) s m law zone l =
      let span = round_span offset (suc remaining) in
      let marked = round_store true base offset span m in
      let next = λ (s' : S).
        set_shadow_loop sys fuel true base (offset + span) (suc remaining - span) s' marked in
      let (done, s', e, kept) =
        commit_answers s (base + offset / 8) law (zone offset (omega arith) (omega arith)) in
      let (r, f) = after_answer done s' m next (
        poisons_returns fuel base (offset + span) (suc remaining - span) s' marked law
          (λ i low high. kept (base + i / 8) (zone i (omega arith) (omega arith))) (omega arith)) in
      (
        r,
        loop_poisons sys fuel base offset (suc remaining) s m (λ q. absurd (omega arith))
            ∙ ap (λ (o : Option (Bool × S)). after_commit sys o m next) e
            ∙ f,
      )

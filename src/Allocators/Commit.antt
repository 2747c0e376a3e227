-- ===== src/Allocators/Commit.antt =====
-- The loop of `allocate` that commits pages: its end, and the pages that it commits.
use kerbecs.Common.{
  ℕ, zero, suc, ◌+◌, ◌-◌, ◌*◌, ◌/◌, ◌%◌, ◌^◌, ◌≤◌, ◌<◌, ◌≡◌, ◌↔◌, ◌⊎◌, ◌∙◌, inl, inr, refl, ap,
  arith, none, some, List, [], true, false, leb, add_word, sub_word, ◌∷◌,
}
use native.Mathlib.Decide.{dec_le, ℕ_discrete}
use kerbecs.Common.{IsIn}
use kerbecs.Memory.{page_size}
use kerbecs.Memory.Align.{masked}
use kerbecs.Allocators.{page_of, with_page, pages, committed_pages}

page_of_value : (p : ℕ) → p < 2 ^ 64 → page_of p ≡ p / page_size * page_size
unfolding page_of
page_of_value p h = masked p page_size (12, omega arith, refl) h

pages_more :
    (fuel page last : ℕ)
    → page ≤ last
    → pages (suc fuel) page last ≡ with_page page (pages fuel (add_word page page_size) last)
unfolding pages
pages_more fuel page last h = let e : leb page last ≡ true = ground arith in rw e refl

pages_done : (fuel page last : ℕ) → last < page → pages (suc fuel) page last ≡ some []
unfolding pages
pages_done fuel page last h = let e : leb page last ≡ false = ground arith in rw e refl

-- The addresses from `page` to `last`, a page apart.
abbrev Between : ℕ → ℕ → ℕ → Type 0
Between page last p = (page ≤ p) × (p ≤ last) × (p % page_size ≡ page % page_size)

-- Where the page behind the last one is still an address, the loop ends and commits exactly these.
pages_list :
    (fuel page last : ℕ)
    → last + page_size < 2 ^ 64
    → page ≤ last + page_size
    → last + page_size < page + fuel * page_size
    → (l : List ℕ) × (pages fuel page last ≡ some l) × ((p : ℕ) → IsIn p l ↔ Between page last p)
pages_list zero page last space low room = absurd (omega arith)
pages_list (suc fuel) page last space low room = elim (dec_le page last) [
  | no over ↦ (
    [],
    pages_done fuel page last (omega arith),
    λ p. (λ h. elim h [ ], λ h. absurd (omega (arith, h))),
  )
  | yes fits ↦
      let next : add_word page page_size ≡ page + page_size = omega arith in
      let (l, e, both) =
        pages_list fuel (page + page_size) last space (omega arith) (omega arith) in
      (
        page ∷ l,
        pages_more fuel page last fits
            ∙ ap (λ (n : ℕ). with_page page (pages fuel n last)) next
            ∙ ap (with_page page) e,
        λ p. (
          λ h. elim h [
            | inl same ↦ (omega arith, omega arith, ap (λ (t : ℕ). t % page_size) same)
            | inr later ↦
                let w = (both p).0 later in (omega (arith, w), omega (arith, w), omega (arith, w))
          ],
          λ h. elim (ℕ_discrete p page) [
            | yes same ↦ inl same
            | no ne ↦ inr ((both p).1 (omega (arith, h), omega (arith, h), omega (arith, h)))
          ],
        ),
      )
]

-- Where the last page is the last one of the address space, the next page wraps to 0, and the loop has not
-- ended after any number of tests.
pages_endless :
    (fuel page : ℕ)
    → page % page_size ≡ 0
    → page < 2 ^ 64
    → pages fuel page (2 ^ 64 - page_size) ≡ none
unfolding pages
pages_endless zero page e h = refl
pages_endless (suc fuel) page e h =
    pages_more fuel page (2 ^ 64 - page_size) (omega arith)
    ∙ ap (with_page page) (pages_endless fuel (add_word page page_size) (omega arith) (omega arith))

-- For a block that is not empty and whose end does not pass 2 ^ 64. Where it ends before the last page of the
-- address space, the loop of `allocate` ends, and an address is among those that it commits exactly if it
-- is the first of a page that holds a byte of the block. Where it reaches into that page, the loop has not
-- ended after any number of tests.
pub committed_pages_iff :
    (ptr bytes : ℕ)
    → 1 ≤ bytes
    → ptr + bytes ≤ 2 ^ 64
    → ((ptr + bytes ≤ 2 ^ 64 - page_size)
        × (l : List ℕ) × (committed_pages ptr bytes ≡ some l)
        × ((p : ℕ) → IsIn p l ↔ ((p % page_size ≡ 0) × (p < ptr + bytes) × (ptr < p + page_size))))
      ⊎ ((2 ^ 64 - page_size < ptr + bytes)
          × ((fuel : ℕ)
              → pages fuel (page_of ptr) (page_of (sub_word (add_word ptr bytes) 1)) ≡ none))
unfolding committed_pages
committed_pages_iff ptr bytes pos fits =
    let byte : sub_word (add_word ptr bytes) 1 ≡ ptr + bytes - 1 = omega arith in
    let first = page_of_value ptr (omega arith) in
    let last = ap page_of byte ∙ page_of_value (ptr + bytes - 1) (omega arith) in
    elim (dec_le (ptr + bytes) (2 ^ 64 - page_size)) [
      | yes early ↦
          let (l, e, both) =
            pages_list (bytes / page_size + 3) (page_of ptr)
              (page_of (sub_word (add_word ptr bytes) 1)) (omega arith) (omega arith)
              (omega arith) in
          inl (
            early,
            l,
            e,
            λ p. (
              λ h. let w = (both p).0 h in (omega (arith, w), omega (arith, w), omega (arith, w)),
              λ h. (both p).1 (omega (arith, h), omega (arith, h), omega (arith, h)),
            ),
          )
      | no late ↦
          let edge : page_of (sub_word (add_word ptr bytes) 1) ≡ 2 ^ 64 - page_size = omega arith in
          inr (
            omega arith,
            λ fuel.
                ap (pages fuel (page_of ptr)) edge
                ∙ pages_endless fuel (page_of ptr) (omega arith) (omega arith),
          )
    ]

-- ===== src/Trace/Spans.antt =====
-- The stack of open spans of a thread, and the ids of spans. engine/p8_trc.cpp.
use selenge_muren.Prelude.{
  ℕ, zero, suc, ◌+◌, ◌≡◌, inl, inr, refl, ap, ◌∙◌, true, false, List, [], ◌∷◌, ◌++◌, arith, length,
  drop, ◌==◌, count, Bool-cases,
}
use selenge_muren.Trace.{pop_search, pop_span}

same_number : (n : ℕ) → (n == n) ≡ true
same_number n = ground arith

differs : (x id : ℕ) (xs : List ℕ) → count id (x ∷ xs) ≡ 0 → ((x == id) ≡ false) × (count id xs ≡ 0)
differs x id xs h = elim (Bool-cases (x == id)) [
  | inl e ↦ absurd (omega (rw e at h, arith))
  | inr e ↦ (e, omega (rw e at h, arith))
]

drop_past : (n y : ℕ) (xs ys : List ℕ) → n ≡ length xs + 1 → drop n (xs ++ y ∷ ys) ≡ ys
drop_past zero y xs ys e = absurd (omega arith)
drop_past (suc n) y [] ys e = let z : n ≡ 0 = omega arith in ap (λ (k : ℕ). drop k ys) z
drop_past (suc n) y (x ∷ xs) ys e = drop_past n y xs ys (omega arith)

search_none :
    (depth id : ℕ) (below spans : List ℕ)
    → count id below ≡ 0
    → pop_search depth below id spans ≡ spans
unfolding pop_search
search_none depth id [] spans h = refl
search_none depth id (x ∷ below) spans h =
    let (differ, rest) = differs x id below h in
    rw (differ, pop_search) (search_none (depth + 1) id below spans rest)

-- The search behind `below` spans that it has passed.
search_past :
    (depth id : ℕ) (above below : List ℕ) (spans : List ℕ)
    → count id above ≡ 0
    → pop_search depth (above ++ below) id spans ≡ pop_search (depth + length above) below id spans
unfolding pop_search
search_past depth id [] below spans h = ap (λ (d : ℕ). pop_search d below id spans) (omega arith)
search_past depth id (x ∷ above) below spans h =
    let (differ, rest) = differs x id above h in
    rw (differ, pop_search)
      (search_past (depth + 1) id above below spans rest
        ∙ ap (λ (d : ℕ). pop_search d below id spans) (omega arith))

-- The end of an open span closes it with the spans that were opened inside it and missed their end,
-- and leaves open exactly the spans around it. (`above` are the inner ones, `outer` the ones around.)
pub pop_span_found :
    (id : ℕ) (above outer : List ℕ) → count id above ≡ 0 → pop_span id (above ++ id ∷ outer) ≡ outer
unfolding pop_span pop_search
pop_span_found id [] outer h = rw (same_number id)
pop_span_found id (x ∷ above) outer h =
    let (differ, rest) = differs x id above h in
    rw (differ, pop_span)
      (search_past 1 id above (id ∷ outer) (x ∷ above ++ id ∷ outer) rest
        ∙ rw (same_number id, pop_search)
            (drop_past (1 + length above + 1) id (x ∷ above) outer (omega arith)))

-- The end of a span that this thread has not open leaves its stack as it is.
pub pop_span_unknown : (id : ℕ) (spans : List ℕ) → count id spans ≡ 0 → pop_span id spans ≡ spans
unfolding pop_span pop_search
pop_span_unknown id [] h = refl
pop_span_unknown id (x ∷ below) h =
    let (differ, rest) = differs x id below h in
    rw (differ, pop_span) (search_none 1 id below (x ∷ below) rest)

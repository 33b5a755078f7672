-- ===== src/Record/Splices.antt =====
-- Stores inside a list, before and behind other bytes.
use selenge_muren.Prelude.{
  ℕ, zero, suc, ◌+◌, ◌-◌, ◌≤◌, ◌≡◌, refl, ap, ◌∙◌, List, [], ◌∷◌, ◌++◌, append_assoc, arith, length,
  length-append, length-take, length-drop, take, drop,
}
use selenge_muren.Writer.{Byte}
use selenge_muren.Record.{splice}

-- A prefix of at least `xs`.
pub take-past :
    (n : ℕ) (xs ys : List Byte) → length xs ≤ n → take n (xs ++ ys) ≡ xs ++ take (n - length xs) ys
take-past n [] ys h = ap (λ (k : ℕ). take k ys) (omega arith)
take-past zero (x ∷ xs) ys h = absurd (omega arith)
take-past (suc n) (x ∷ xs) ys h =
    let same : n - length xs ≡ suc n - length (x ∷ xs) = omega arith in
    ap (◌∷◌ x) (take-past n xs ys (omega arith) ∙ ap (λ (k : ℕ). xs ++ take k ys) same)

pub take-before : (n : ℕ) (xs ys : List Byte) → n ≤ length xs → take n (xs ++ ys) ≡ take n xs
take-before zero xs ys h = refl
take-before (suc n) [] ys h = absurd (omega arith)
take-before (suc n) (x ∷ xs) ys h = ap (◌∷◌ x) (take-before n xs ys (omega arith))

drop-before : (n : ℕ) (xs ys : List Byte) → n ≤ length xs → drop n (xs ++ ys) ≡ drop n xs ++ ys
drop-before zero xs ys h = refl
drop-before (suc n) [] ys h = absurd (omega arith)
drop-before (suc n) (x ∷ xs) ys h = drop-before n xs ys (omega arith)

-- A store inside a list that stands behind another.
pub splice-append :
    (n k : ℕ) (bytes xs ys : List Byte)
    → n ≡ length xs + k
    → splice n bytes (xs ++ ys) ≡ xs ++ splice k bytes ys
splice-append n k bytes [] ys e =
    let same : n ≡ k = omega arith in ap (λ (m : ℕ). splice m bytes ys) same
splice-append zero k bytes (x ∷ xs) ys e = absurd (omega arith)
splice-append (suc n) k bytes (x ∷ xs) ys e =
    let next : suc n + length bytes ≡ suc (n + length bytes) = omega arith in
    ap (λ (m : ℕ). (x ∷ take n (xs ++ ys)) ++ (bytes ++ drop m (x ∷ xs ++ ys))) next
    ∙ ap (◌∷◌ x) (splice-append n k bytes xs ys (omega arith))

-- A store inside a list before another.
pub splice-before :
    (k : ℕ) (bytes xs ys : List Byte)
    → k + length bytes ≤ length xs
    → splice k bytes (xs ++ ys) ≡ splice k bytes xs ++ ys
splice-before k bytes xs ys h =
    rw
      (
        take-before k xs ys (omega arith),
        drop-before (k + length bytes) xs ys h,
        append_assoc (take k xs) (bytes ++ drop (k + length bytes) xs) ys,
        append_assoc bytes (drop (k + length bytes) xs) ys,
      )
      refl

pub length-splice :
    (k : ℕ) (bytes xs : List Byte)
    → k + length bytes ≤ length xs
    → length (splice k bytes xs) ≡ length xs
length-splice k bytes xs h = omega (
  arith,
  length-append (take k xs) (bytes ++ drop (k + length bytes) xs),
  length-append bytes (drop (k + length bytes) xs),
  length-take k xs,
  length-drop (k + length bytes) xs,
)

-- ===== src/Format/Limit.antt =====
-- The limit on the number of arguments cuts the list of all arguments, and nothing else.
use selenge_muren.Prelude.{
  ℕ, zero, suc, ◌+◌, ◌-◌, ◌≤◌, ◌≡◌, refl, ap, ◌⊎◌, inl, inr, true, some, List, [], ◌∷◌, arith, leb,
  length, length-drop, take, drop, Bool-cases, sym, ◌∙◌,
}
use selenge_muren.Format.{Arg, Scan, idle, Effect, go, write, step, parse_loop, parse_format_string}

-- All arguments of a text, without a limit.
unfoldable pub scan : ℕ → Scan → List ℕ → List Arg
scan zero s text = []
scan (suc fuel) s [] = []
scan (suc fuel) s (c ∷ rest) = elim (step c rest s) [
  | go t n ↦ scan fuel t (drop n rest)
  | write arg t ↦ arg ∷ scan fuel t rest
]

abbrev pub arguments : Scan → List ℕ → List Arg
arguments s text = scan (length text) s text

pub Effect-cases :
    (e : Effect)
    → ((s : Scan) × (n : ℕ) × (e ≡ go s n)) ⊎ ((a : Arg) × (s : Scan) × (e ≡ write a s))
Effect-cases (go s n) = inl (s, n, refl)
Effect-cases (write a s) = inr (a, s, refl)

take_pred : (m n : ℕ) (a : Arg) (args : List Arg) → m ≡ suc n → take m (a ∷ args) ≡ a ∷ take n args
take_pred zero n a args e = absurd (omega arith)
take_pred (suc m) n a args e = ap (λ (k : ℕ). a ∷ take k args) (omega arith)

take_nil : (n : ℕ) → take {A = Arg} n [] ≡ []
take_nil zero = refl
take_nil (suc n) = refl

take_zero : (n : ℕ) (args : List Arg) → n ≡ 0 → [] ≡ take n args
take_zero zero args h = refl
take_zero (suc n) args h = absurd (omega arith)

-- Any two numbers of rounds that are enough give the same.
scan_same :
    (fuel more : ℕ) (s : Scan) (text : List ℕ)
    → length text ≤ fuel
    → length text ≤ more
    → scan fuel s text ≡ scan more s text
unfolding scan
scan_same zero zero s text h k = refl
scan_same zero (suc more) s [] h k = refl
scan_same zero (suc more) s (c ∷ rest) h k = absurd (omega arith)
scan_same (suc fuel) zero s [] h k = refl
scan_same (suc fuel) zero s (c ∷ rest) h k = absurd (omega arith)
scan_same (suc fuel) (suc more) s [] h k = refl
scan_same (suc fuel) (suc more) s (c ∷ rest) h k = elim (Effect-cases (step c rest s)) [
  | inl (t, n, e) ↦
      rw (e, scan)
        (scan_same fuel more t (drop n rest) (omega (arith, length-drop n rest))
          (omega (arith, length-drop n rest)))
  | inr (a, t, e) ↦
      rw (e, scan) (ap (◌∷◌ a) (scan_same fuel more t rest (omega arith) (omega arith)))
]

pub parse_loop_lem :
    (fuel max count : ℕ) (s : Scan) (text : List ℕ)
    → count ≤ max
    → parse_loop fuel max count s text ≡ take (max - count) (scan fuel s text)
unfolding parse_loop scan
parse_loop_lem zero max count s text h = sym (take_nil (max - count))
parse_loop_lem (suc fuel) max count s [] h = sym (take_nil (max - count))
parse_loop_lem (suc fuel) max count s (c ∷ rest) h = elim (Effect-cases (step c rest s)) [
  | inl (t, n, e) ↦ rw (e, parse_loop, scan) (parse_loop_lem fuel max count t (drop n rest) h)
  | inr (a, t, e) ↦ elim (Bool-cases (leb max count)) [
    | inl l ↦
        rw (e, l, parse_loop, scan) (take_zero (max - count) (a ∷ scan fuel t rest) (ground arith))
    | inr l ↦
        rw (e, l, parse_loop, scan)
          (ap (◌∷◌ a) (parse_loop_lem fuel max (count + 1) t rest (ground arith))
            ∙ sym (take_pred (max - count) (max - (count + 1)) a (scan fuel t rest) (ground arith)))
  ]
]

-- More rounds than characters change nothing.
pub scan_enough :
    (fuel : ℕ) (s : Scan) (text : List ℕ) → length text ≤ fuel → scan fuel s text ≡ arguments s text
scan_enough fuel s text h = scan_same fuel (length text) s text h (omega arith)

take_same : (m n : ℕ) (args : List Arg) → m ≡ n → take m args ≡ take n args
take_same m n args e = ap (λ (k : ℕ). take k args) e

-- From a format and an array that are there, the parser writes the first `max` of all arguments.
pub parse_format_string_lem :
    (max : ℕ) (text : List ℕ)
    → parse_format_string true max (some text) ≡ take max (arguments idle text)
unfolding parse_format_string
parse_format_string_lem zero text = refl
parse_format_string_lem (suc max) text = elim (Bool-cases (leb 1 (suc max))) [
  | inl l ↦ rw l (
      parse_loop_lem (length text) (suc max) 0 idle text (omega arith)
      ∙ take_same (suc max - 0) (suc max) (arguments idle text) (omega arith))
  | inr l ↦ absurd (ground arith)
]

-- ===== src/Format/Print.antt =====
-- Formats put together from their parts are read back as the arguments of the parts.
use selenge_muren.Prelude.{
  ℕ, ◌≤◌, ◌≡◌, refl, ap, ◌∙◌, sym, inl, inr, true, false, Option, none, some, List, [], ◌∷◌, ◌++◌,
  append_assoc, arith, ◌==◌, if◌then◌else◌, length, Bool-cases, take, drop,
}
use selenge_muren.Format.{
  Prefix, prefix_unknown, Arg, Scan, idle, Class, star, prefix_char, percent_sign, integer, string,
  pointer, floating, character, other, classify, int_arg, string_arg, pointer_arg, float_arg,
  char_arg, type_int32, go, write, step, note_digit, parse_format_string,
}
use selenge_muren.Format.Limit.{scan, arguments, scan_enough, parse_format_string_lem}
use selenge_muren.Format.Round.{
  with_upper_l, with_h, with_i, from_arg, converted, width_of, arguments-go, arguments-write,
  spelling, with_i32, eq, with_t, is_digit, closed, with_l, with_z, opened, letters, with_hh,
  with_i64, Length, with_w, is_conversion, with_j, width_after, spell, length_args, with_ll,
  Modifier, meaning, plain,
}
use selenge_muren.Format.Table.{
  letter_of, expected, Piece, text, percent_escape, directive, print, print_all, has_width,
  star_args, piece_args, all_args,
}
use selenge_muren.Format.Expected.{letter_of-classify, length_args-expected, width_after-has_width}

-- A percent sign starts afresh, so what was read before does not matter.
arguments-closed :
    (p : Prefix) (n : ℕ) (xs : List ℕ) → arguments (closed p n) xs ≡ arguments idle xs
unfolding scan step
arguments-closed p n [] = refl
arguments-closed p n (c ∷ rest) = elim (Bool-cases (c == b'%')) [
  | inl e ↦ rw (e, scan, step) refl
  | inr e ↦ rw (e, scan, step) (arguments-closed p n rest)
]

-- A round that writes its argument and completes the conversion.
arguments-written :
    (c : ℕ) (a : Arg) (p : Prefix) (n : ℕ) (rest : List ℕ)
    → step c rest (opened p n) ≡ write a (closed p n)
    → arguments (opened p n) (c ∷ rest) ≡ a ∷ arguments idle rest
arguments-written c a p n rest e =
    arguments-write c a rest (opened p n) (closed p n) e ∙ ap (◌∷◌ a) (arguments-closed p n rest)

arguments-class :
    (k : Class) (c n : ℕ) (p : Prefix) (rest : List ℕ)
    → classify c ≡ k
    → is_conversion k ≡ true
    → arguments (opened p n) (c ∷ rest) ≡ converted k c n p ++ arguments idle rest
unfolding step
arguments-class integer c n p rest e i = arguments-written c (int_arg p) p n rest (rw e refl)
arguments-class string c n p rest e i = arguments-written c (string_arg c n p) p n rest (rw e refl)
arguments-class pointer c n p rest e i = arguments-written c pointer_arg p n rest (rw e refl)
arguments-class floating c n p rest e i = arguments-written c (float_arg p) p n rest (rw e refl)
arguments-class character c n p rest e i = arguments-written c (char_arg p) p n rest (rw e refl)
arguments-class star c n p rest e i = absurd (ground arith)
arguments-class prefix_char c n p rest e i = absurd (ground arith)
arguments-class percent_sign c n p rest e i = absurd (ground arith)
arguments-class other c n p rest e i = absurd (ground arith)

arguments-conversion :
    (c n : ℕ) (p : Prefix) (rest : List ℕ)
    → is_conversion (classify c) ≡ true
    → arguments (opened p n) (c ∷ rest) ≡ converted (classify c) c n p ++ arguments idle rest
arguments-conversion c n p rest i = arguments-class (classify c) c n p rest refl i

differs :
    (c k : ℕ)
    → is_conversion (classify c) ≡ true
    → is_conversion (classify k) ≡ false
    → (c == k) ≡ false
differs c k i h = elim (Bool-cases (c == k)) [
  | inr e ↦ e
  | inl e ↦ absurd (ground (arith, eq c k e))
]

-- The rounds that a length modifier leaves are more than enough.
arguments-spelled :
    (c n k : ℕ) (more rest : List ℕ) (s u : Scan)
    → step c more s ≡ go u k
    → drop k more ≡ rest
    → length rest ≤ length more
    → arguments s (c ∷ more) ≡ arguments u rest
arguments-spelled c n k more rest s u e d h =
    arguments-go c k more s u e ∙ ap (scan (length more) u) d ∙ scan_enough (length more) u rest h

arguments-length :
    (x : Length) (c n : ℕ) (rest : List ℕ)
    → is_conversion (classify c) ≡ true
    → arguments (opened prefix_unknown n) (spelling x ++ c ∷ rest)
      ≡ arguments (opened (meaning x) (width_of x n)) (c ∷ rest)
unfolding step classify note_digit
arguments-length with_i64 c n rest conv =
    arguments-spelled b'I' n 2 (b'6' ∷ b'4' ∷ c ∷ rest) (c ∷ rest) _ _ (refl) refl (omega arith)
arguments-length with_i32 c n rest conv =
    arguments-spelled b'I' n 2 (b'3' ∷ b'2' ∷ c ∷ rest) (c ∷ rest) _ _ (refl) refl (omega arith)
arguments-length with_ll c n rest conv =
    arguments-spelled b'l' n 1 (b'l' ∷ c ∷ rest) (c ∷ rest) _ _ (refl) refl (omega arith)
arguments-length with_hh c n rest conv =
    arguments-spelled b'h' n 1 (b'h' ∷ c ∷ rest) (c ∷ rest) _ _ (refl) refl (omega arith)
arguments-length with_h c n rest conv =
    arguments-spelled b'h' n 0 (c ∷ rest) (c ∷ rest) _ _ (rw (differs c b'h' conv refl) refl) refl
      (omega arith)
arguments-length with_l c n rest conv =
    arguments-spelled b'l' n 0 (c ∷ rest) (c ∷ rest) _ _ (rw (differs c b'l' conv refl) refl) refl
      (omega arith)
arguments-length with_upper_l c n rest conv =
    arguments-spelled b'L' n 0 (c ∷ rest) (c ∷ rest) _ _ (refl) refl (omega arith)
arguments-length with_i c n rest conv =
    arguments-spelled b'I' n 0 (c ∷ rest) (c ∷ rest) _ _
      (rw (differs c b'6' conv refl, differs c b'3' conv refl) refl) refl (omega arith)
arguments-length with_z c n rest conv =
    arguments-spelled b'z' n 0 (c ∷ rest) (c ∷ rest) _ _ (refl) refl (omega arith)
arguments-length with_t c n rest conv =
    arguments-spelled b't' n 0 (c ∷ rest) (c ∷ rest) _ _ (refl) refl (omega arith)
arguments-length with_w c n rest conv =
    arguments-spelled b'w' n 0 (c ∷ rest) (c ∷ rest) _ _ (refl) refl (omega arith)
arguments-length with_j c n rest conv =
    arguments-spelled b'j' n 0 (c ∷ rest) (c ∷ rest) _ _ (refl) refl (omega arith)

arguments-plain :
    (c n : ℕ) (rest : List ℕ)
    → classify c ≡ other
    → arguments (opened prefix_unknown n) (c ∷ rest)
      ≡ arguments (opened prefix_unknown (if is_digit c then 1 else n)) rest
unfolding step note_digit scan
arguments-plain c n rest e = elim (Bool-cases (is_digit c)) [
  | inl d ↦ rw (e, d, scan, step, note_digit) refl
  | inr d ↦ rw (e, d, scan, step, note_digit) refl
]

arguments-letters :
    (ms : List Modifier) (n : ℕ) (rest : List ℕ)
    → arguments (opened prefix_unknown n) (letters ms ++ rest)
      ≡ star_args ms ++ arguments (opened prefix_unknown (width_after ms n)) rest
unfolding step classify note_digit
arguments-letters [] n rest = refl
arguments-letters (from_arg ∷ ms) n rest =
    arguments-write b'*' _ (letters ms ++ rest) (opened prefix_unknown n) (opened prefix_unknown 1)
      refl
    ∙ ap (◌∷◌ (record { type = type_int32; size = 8 })) (arguments-letters ms 1 rest)
arguments-letters (plain c e ∷ ms) n rest =
    arguments-plain c n (letters ms ++ rest) e
    ∙ arguments-letters ms (if is_digit c then 1 else n) rest

arguments-spell :
    (x : Option Length) (c n : ℕ) (rest : List ℕ)
    → is_conversion (classify c) ≡ true
    → arguments (opened prefix_unknown n) ((spell x ++ c ∷ []) ++ rest)
      ≡ length_args x c n ++ arguments idle rest
arguments-spell none c n rest conv = arguments-conversion c n prefix_unknown rest conv
arguments-spell (some x) c n rest conv =
    ap (arguments (opened prefix_unknown n)) (append_assoc (spelling x) (c ∷ []) rest)
    ∙ arguments-length x c n rest conv
    ∙ arguments-conversion c (width_of x n) (meaning x) rest conv

arguments-print :
    (p : Piece) (rest : List ℕ)
    → arguments idle (print p ++ rest) ≡ piece_args p ++ arguments idle rest
unfolding step classify
arguments-print (text c e) rest = arguments-go c 0 rest idle idle (rw (e, step) refl)
arguments-print percent_escape rest =
    arguments-go b'%' 0 (b'%' ∷ rest) idle (opened prefix_unknown 0) refl
    ∙ arguments-go b'%' 0 rest (opened prefix_unknown 0) (closed prefix_unknown 0) refl
    ∙ arguments-closed prefix_unknown 0 rest
arguments-print (directive ms x k e) rest =
    let behind = (spell x ++ letter_of k ∷ []) ++ rest in
    let one : length_args x (letter_of k) (width_after ms 0) ≡ expected x k (has_width ms) ∷ [] =
      ap (length_args x (letter_of k)) (width_after-has_width ms)
      ∙ length_args-expected x k (has_width ms) e in
    arguments-go b'%' 0 ((letters ms ++ (spell x ++ letter_of k ∷ [])) ++ rest) idle
      (opened prefix_unknown 0) refl
    ∙ ap (arguments (opened prefix_unknown 0))
        (append_assoc (letters ms) (spell x ++ letter_of k ∷ []) rest)
    ∙ arguments-letters ms 0 behind
    ∙ ap (◌++◌ (star_args ms)) (
        arguments-spell x (letter_of k) (width_after ms 0) rest (letter_of-classify k)
        ∙ ap (λ (found : List Arg). found ++ arguments idle rest) one)
    ∙ sym (append_assoc (star_args ms) (expected x k (has_width ms) ∷ []) (arguments idle rest))

pub arguments-print_all : (ps : List Piece) → arguments idle (print_all ps) ≡ all_args ps
unfolding scan
arguments-print_all [] = refl
arguments-print_all (p ∷ ps) =
    arguments-print p (print_all ps) ∙ ap (◌++◌ (piece_args p)) (arguments-print_all ps)

-- A format that is put together from text, `%%` and directives, in which no text conversion has the
-- modifier `I64` or `I32`, is read as the arguments of the table: for each star an integer and for each
-- directive the type and size of its length modifier and letter, a text with the flag whether it has a
-- width, in order and up to the limit.
pub parse_format_string-print_all :
    (max : ℕ) (ps : List Piece)
    → parse_format_string true max (some (print_all ps)) ≡ take max (all_args ps)
parse_format_string-print_all max ps =
    parse_format_string_lem max (print_all ps) ∙ ap (take max) (arguments-print_all ps)

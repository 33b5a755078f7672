-- ===== src/Format/Table.antt =====
-- The formats that a printf call may have, and what each directive says of its argument: the types of
-- `P8_LOG_ARG_TYPE_*` and the sizes of the protocol, on a host with 64-bit pointers and long integers.
use selenge_muren.Prelude.{
  ℕ, ◌≡◌, Bool, true, false, ◌||◌, Option, none, some, List, [], ◌∷◌, ◌++◌, ◌==◌, if◌then◌else◌,
}
use selenge_muren.Format.{Arg}
use selenge_muren.Format.Round.{
  Length, with_i64, with_i32, with_ll, with_hh, with_h, with_l, with_upper_l, with_i, with_z,
  with_t, with_w, with_j, Modifier, from_arg, plain, letters, spell, is_digit,
}

-- The letter that ends a directive.
pub data Conversion : Type 0 where
  letter_d letter_i letter_o letter_u letter_x letter_upper_x letter_b letter_upper_b : Conversion
  letter_s letter_upper_s letter_p letter_c letter_upper_c : Conversion
  letter_e letter_upper_e letter_f letter_upper_f : Conversion
  letter_g letter_upper_g letter_a letter_upper_a : Conversion

abbrev pub letter_of : Conversion → ℕ
letter_of letter_d = b'd'
letter_of letter_i = b'i'
letter_of letter_o = b'o'
letter_of letter_u = b'u'
letter_of letter_x = b'x'
letter_of letter_upper_x = b'X'
letter_of letter_b = b'b'
letter_of letter_upper_b = b'B'
letter_of letter_s = b's'
letter_of letter_upper_s = b'S'
letter_of letter_p = b'p'
letter_of letter_c = b'c'
letter_of letter_upper_c = b'C'
letter_of letter_e = b'e'
letter_of letter_upper_e = b'E'
letter_of letter_f = b'f'
letter_of letter_upper_f = b'F'
letter_of letter_g = b'g'
letter_of letter_upper_g = b'G'
letter_of letter_a = b'a'
letter_of letter_upper_a = b'A'

-- An integer: INT8 is 1, INT16 is 3, INT32 is 4, INT64 is 5, INTMAX is 13, and each takes 8 bytes. A `z`,
-- `t`, `I` or `l` is of 64 bits.
abbrev pub whole : Option Length → Arg
whole none = record { type = 4; size = 8 }
whole (some with_hh) = record { type = 1; size = 8 }
whole (some with_h) = record { type = 3; size = 8 }
whole (some with_i32) = record { type = 4; size = 8 }
whole (some with_w) = record { type = 4; size = 8 }
whole (some with_upper_l) = record { type = 4; size = 8 }
whole (some with_i64) = record { type = 5; size = 8 }
whole (some with_ll) = record { type = 5; size = 8 }
whole (some with_l) = record { type = 5; size = 8 }
whole (some with_i) = record { type = 5; size = 8 }
whole (some with_z) = record { type = 5; size = 8 }
whole (some with_t) = record { type = 5; size = 8 }
whole (some with_j) = record { type = 13; size = 8 }

-- A text: STRA is 9, USTR8 is 10, USTR32 is 11; the size tells whether the directive has a width.
abbrev pub narrow_text : Option Length → (has_width : Bool) → Arg
narrow_text (some with_h) has_width = record { type = 9; size = if has_width then 1 else 0 }
narrow_text (some with_l) has_width = record { type = 11; size = if has_width then 1 else 0 }
narrow_text _ has_width = record { type = 10; size = if has_width then 1 else 0 }

abbrev pub wide_text : Option Length → (has_width : Bool) → Arg
wide_text (some with_h) has_width = record { type = 9; size = if has_width then 1 else 0 }
wide_text _ has_width = record { type = 11; size = if has_width then 1 else 0 }

-- A number with a fraction: DOUBLE is 6 with 8 bytes, LDOUBLE is 14 with 16.
abbrev pub real : Option Length → Arg
real (some with_upper_l) = record { type = 14; size = 16 }
real _ = record { type = 6; size = 8 }

-- A character: CHAR is 1, CHAR32 is 12.
abbrev pub one_character : Option Length → Arg
one_character (some with_l) = record { type = 12; size = 8 }
one_character _ = record { type = 1; size = 8 }

-- The argument of a directive; PVOID is 7.
abbrev pub expected : Option Length → Conversion → (has_width : Bool) → Arg
expected x letter_s has_width = narrow_text x has_width
expected x letter_upper_s has_width = wide_text x has_width
expected x letter_p has_width = record { type = 7; size = 8 }
expected x letter_c has_width = one_character x
expected x letter_upper_c has_width = one_character x
expected x letter_d has_width = whole x
expected x letter_i has_width = whole x
expected x letter_o has_width = whole x
expected x letter_u has_width = whole x
expected x letter_x has_width = whole x
expected x letter_upper_x has_width = whole x
expected x letter_b has_width = whole x
expected x letter_upper_b has_width = whole x
expected x _ has_width = real x

-- `I64` and `I32` are for integers: no text has them.
abbrev pub suits : Option Length → Conversion → Bool
suits (some with_i64) letter_s = false
suits (some with_i64) letter_upper_s = false
suits (some with_i32) letter_s = false
suits (some with_i32) letter_upper_s = false
suits _ _ = true

-- A part of a format: a character other than the percent sign, `%%`, or a directive.
pub data Piece : Type 0 where
  text : (c : ℕ) → (c == b'%') ≡ false → Piece
  percent_escape : Piece
  directive : List Modifier → (x : Option Length) → (k : Conversion) → suits x k ≡ true → Piece

abbrev pub print : Piece → List ℕ
print (text c e) = c ∷ []
print percent_escape = b'%' ∷ b'%' ∷ []
print (directive ms x k e) = b'%' ∷ letters ms ++ (spell x ++ letter_of k ∷ [])

abbrev pub print_all : List Piece → List ℕ
print_all [] = []
print_all (p ∷ ps) = print p ++ print_all ps

-- A width is a `*` or a number.
abbrev pub gives_width : Modifier → Bool
gives_width from_arg = true
gives_width (plain c e) = is_digit c

abbrev pub has_width : List Modifier → Bool
has_width [] = false
has_width (m ∷ ms) = gives_width m || has_width ms

-- A `*` has an argument of its own, an INT32.
abbrev pub star_args : List Modifier → List Arg
star_args [] = []
star_args (from_arg ∷ ms) = record { type = 4; size = 8 } ∷ star_args ms
star_args (plain c e ∷ ms) = star_args ms

abbrev pub piece_args : Piece → List Arg
piece_args (text c e) = []
piece_args percent_escape = []
piece_args (directive ms x k e) = star_args ms ++ expected x k (has_width ms) ∷ []

abbrev pub all_args : List Piece → List Arg
all_args [] = []
all_args (p ∷ ps) = piece_args p ++ all_args ps

-- ===== src/Format/Round.antt =====
-- The parts of a format, and the rounds of the reader at their characters.
use selenge_muren.Prelude.{
  ℕ, ◌≡◌, refl, Bool, true, false, ◌&&◌, Option, none, some, List, [], ◌∷◌, arith, leb, ◌==◌,
  if◌then◌else◌, length, drop,
}
use selenge_muren.Format.{
  Prefix, prefix_i64, prefix_i32, prefix_ll, prefix_l, prefix_hh, prefix_h, prefix_i, prefix_w,
  prefix_j, prefix_upper_l, prefix_unknown, Arg, Scan, Class, integer, string, pointer, floating,
  character, other, classify, int_arg, string_arg, pointer_arg, float_arg, char_arg, go, write,
  step,
}
use selenge_muren.Format.Limit.{scan, arguments}

-- How a length modifier is written; `%I64d` is a 64-bit one.
pub data Length : Type 0 where
  with_i64 with_i32 with_ll with_hh with_h with_l with_upper_l with_i with_z with_t : Length
  with_w with_j : Length

abbrev pub spelling : Length → List ℕ
spelling with_i64 = b'I' ∷ b'6' ∷ b'4' ∷ []
spelling with_i32 = b'I' ∷ b'3' ∷ b'2' ∷ []
spelling with_ll = b'l' ∷ b'l' ∷ []
spelling with_hh = b'h' ∷ b'h' ∷ []
spelling with_h = b'h' ∷ []
spelling with_l = b'l' ∷ []
spelling with_upper_l = b'L' ∷ []
spelling with_i = b'I' ∷ []
spelling with_z = b'z' ∷ []
spelling with_t = b't' ∷ []
spelling with_w = b'w' ∷ []
spelling with_j = b'j' ∷ []

abbrev pub meaning : Length → Prefix
meaning with_i64 = prefix_i64
meaning with_i32 = prefix_i32
meaning with_ll = prefix_ll
meaning with_hh = prefix_hh
meaning with_h = prefix_h
meaning with_l = prefix_l
meaning with_upper_l = prefix_upper_l
meaning with_i = prefix_i
meaning with_z = prefix_i
meaning with_t = prefix_i
meaning with_w = prefix_w
meaning with_j = prefix_j

-- The digits of a length modifier count as a width.
abbrev pub width_of : Length → ℕ → ℕ
width_of with_i64 n = 1
width_of with_i32 n = 1
width_of _ n = n

-- What may stand between the percent sign and the length modifier: a `*`, or any character that is no
-- case of the switch, such as a flag, a digit or a point.
pub data Modifier : Type 0 where
  from_arg : Modifier
  plain : (c : ℕ) → classify c ≡ other → Modifier

abbrev pub letter : Modifier → ℕ
letter from_arg = b'*'
letter (plain c e) = c

-- The argument of a conversion, and the characters that stand for one.
abbrev pub converted : Class → ℕ → ℕ → Prefix → List Arg
converted integer c n p = int_arg p ∷ []
converted string c n p = string_arg c n p ∷ []
converted pointer c n p = pointer_arg ∷ []
converted floating c n p = float_arg p ∷ []
converted character c n p = char_arg p ∷ []
converted _ c n p = []

abbrev pub is_conversion : Class → Bool
is_conversion integer = true
is_conversion string = true
is_conversion pointer = true
is_conversion floating = true
is_conversion character = true
is_conversion _ = false

abbrev pub letters : List Modifier → List ℕ
letters [] = []
letters (m ∷ ms) = letter m ∷ letters ms

abbrev pub spell : Option Length → List ℕ
spell none = []
spell (some x) = spelling x

abbrev pub is_digit : ℕ → Bool
is_digit c = leb b'0' c && leb c b'9'

-- A modifier gives a width, or its own argument and a width, or neither.
abbrev pub width_after : List Modifier → ℕ → ℕ
width_after [] n = n
width_after (from_arg ∷ ms) n = width_after ms 1
width_after (plain c e ∷ ms) n = width_after ms (if is_digit c then 1 else n)

abbrev pub meant : Option Length → Prefix
meant none = prefix_unknown
meant (some x) = meaning x

abbrev pub widened : Option Length → ℕ → ℕ
widened none n = n
widened (some x) n = width_of x n

abbrev pub length_args : Option Length → ℕ → ℕ → List Arg
length_args x c n = converted (classify c) c (widened x n) (meant x)

-- One round of the reader.
pub arguments-go :
    (c n : ℕ) (rest : List ℕ) (s u : Scan)
    → step c rest s ≡ go u n
    → arguments s (c ∷ rest) ≡ scan (length rest) u (drop n rest)
unfolding scan
arguments-go c n rest s u e = rw (e, scan) refl

pub arguments-write :
    (c : ℕ) (a : Arg) (rest : List ℕ) (s u : Scan)
    → step c rest s ≡ write a u
    → arguments s (c ∷ rest) ≡ a ∷ arguments u rest
unfolding scan
arguments-write c a rest s u e = rw (e, scan) refl

pub eq : (c k : ℕ) → (c == k) ≡ true → c ≡ k
eq c k e = ground arith

abbrev pub opened : Prefix → ℕ → Scan
opened p n = record { percent = true; prefix = p; has_width = n }

abbrev pub closed : Prefix → ℕ → Scan
closed p n = record { percent = false; prefix = p; has_width = n }

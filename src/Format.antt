-- ===== src/Format.antt =====
-- engine/p8_log.cpp: `cp8_log::parse_format_string`, which lists the arguments of a printf format.
-- Texts are lists of character codes without the final zero. Built with GTX64 and without
-- G_OS_WINDOWS; there sizeof(long double) is 16 and sizeof(wchar_t) is 4.
pub mod Limit
pub mod Round
pub mod Table
pub mod Expected
pub mod Print
use selenge_muren.Prelude.{
  ℕ, zero, suc, ◌+◌, ◌-◌, Bool, true, false, ◌&&◌, ◌||◌, Option, none, some, List, [], ◌∷◌, leb,
  ◌==◌, if◌then◌else◌, length, drop, get_elem?,
}

pub data Prefix : Type 0 where
  prefix_i64 prefix_i32 prefix_ll prefix_l prefix_hh prefix_h prefix_i prefix_w : Prefix
  prefix_j prefix_upper_l prefix_unknown : Prefix

-- `gs_prefixes`, the longest first, without the entry that ends it.
abbrev pub prefixes : List (List ℕ × Prefix)
prefixes =
    (b'I' ∷ b'6' ∷ b'4' ∷ [], prefix_i64)
    ∷ (b'I' ∷ b'3' ∷ b'2' ∷ [], prefix_i32)
    ∷ (b'l' ∷ b'l' ∷ [], prefix_ll)
    ∷ (b'h' ∷ b'h' ∷ [], prefix_hh)
    ∷ (b'h' ∷ [], prefix_h)
    ∷ (b'l' ∷ [], prefix_l)
    ∷ (b'L' ∷ [], prefix_upper_l)
    ∷ (b'I' ∷ [], prefix_i)
    ∷ (b'z' ∷ [], prefix_i)
    ∷ (b't' ∷ [], prefix_i)
    ∷ (b'w' ∷ [], prefix_w)
    ∷ (b'j' ∷ [], prefix_j)
    ∷ []

-- `0 == strncmp(text, prefix, length of prefix)`
abbrev pub begins_with : List ℕ → List ℕ → Bool
begins_with text [] = true
begins_with [] (p ∷ prefix) = false
begins_with (c ∷ text) (p ∷ prefix) = c == p && begins_with text prefix

-- The loop of `find_prefix` over the rest of the table: the length of the prefix and its type.
abbrev pub find_in : List (List ℕ × Prefix) → List ℕ → Option (ℕ × Prefix)
find_in [] text = none
find_in ((spelling, prefix) ∷ table) text =
    if begins_with text spelling then some (length spelling, prefix) else find_in table text

abbrev pub find_prefix : List ℕ → Option (ℕ × Prefix)
find_prefix = find_in prefixes

-- s_p8_log_varg
pub record Arg : Type 0 where
  pub type : ℕ
  pub size : ℕ

-- P8_LOG_ARG_TYPE_XXX
abbrev pub type_char : ℕ
type_char = 1

abbrev pub type_int8 : ℕ
type_int8 = 1

abbrev pub type_int16 : ℕ
type_int16 = 3

abbrev pub type_int32 : ℕ
type_int32 = 4

abbrev pub type_int64 : ℕ
type_int64 = 5

abbrev pub type_double : ℕ
type_double = 6

abbrev pub type_pvoid : ℕ
type_pvoid = 7

abbrev pub type_stra : ℕ
type_stra = 9

abbrev pub type_ustr8 : ℕ
type_ustr8 = 10

abbrev pub type_ustr32 : ℕ
type_ustr32 = 11

abbrev pub type_char32 : ℕ
type_char32 = 12

abbrev pub type_intmax : ℕ
type_intmax = 13

abbrev pub type_ldouble : ℕ
type_ldouble = 14

-- P8_SIZE_OF_ARG of a type that takes `n` bytes: up to the next multiple of 8, of small sizes.
abbrev pub size_of_arg : ℕ → ℕ
size_of_arg n = if leb n 8 then 8 else 16

-- `case 'd': …`
unfoldable pub int_arg : Prefix → Arg
int_arg prefix_unknown = record { type = type_int32; size = size_of_arg 4 }
int_arg prefix_ll = record { type = type_int64; size = size_of_arg 8 }
int_arg prefix_i64 = record { type = type_int64; size = size_of_arg 8 }
int_arg prefix_h = record { type = type_int16; size = size_of_arg 2 }
int_arg prefix_hh = record { type = type_int8; size = size_of_arg 1 }
int_arg prefix_l = record { type = type_int64; size = size_of_arg 8 }
int_arg prefix_i32 = record { type = type_int32; size = size_of_arg 4 }
int_arg prefix_i = record { type = type_int64; size = size_of_arg 8 }
int_arg prefix_j = record { type = type_intmax; size = size_of_arg 8 }
int_arg prefix_w = record { type = type_int32; size = size_of_arg 4 }
int_arg prefix_upper_l = record { type = type_int32; size = size_of_arg 4 }

-- `case 's': case 'S':`, where the size says whether a width was given.
unfoldable pub string_arg : ℕ → ℕ → Prefix → Arg
string_arg c has_width prefix_h = record { type = type_stra; size = has_width }
string_arg c has_width prefix_l = record { type = type_ustr32; size = has_width }
string_arg c has_width _ = record {
  type = if c == b'S' then type_ustr32 else type_ustr8;
  size = has_width;
}

-- `case 'p':`
abbrev pub pointer_arg : Arg
pointer_arg = record { type = type_pvoid; size = size_of_arg 8 }

-- `case 'e': …`
unfoldable pub float_arg : Prefix → Arg
float_arg prefix_upper_l = record { type = type_ldouble; size = size_of_arg 16 }
float_arg _ = record { type = type_double; size = size_of_arg 8 }

-- `case 'c': case 'C':`
unfoldable pub char_arg : Prefix → Arg
char_arg prefix_l = record { type = type_char32; size = size_of_arg 4 }
char_arg _ = record { type = type_char; size = size_of_arg 1 }

-- `lb_percent`, `le_prefix` and `lu_has_width`.
pub record Scan : Type 0 where
  pub percent : Bool
  pub prefix : Prefix
  pub has_width : ℕ

abbrev pub idle : Scan
idle = record { percent = false; prefix = prefix_unknown; has_width = 0 }

-- The cases of the switch.
pub data Class : Type 0 where
  star prefix_char integer string pointer floating character percent_sign other : Class

abbrev pub is_one_of : List ℕ → ℕ → Bool
is_one_of [] c = false
is_one_of (x ∷ xs) c = c == x || is_one_of xs c

unfoldable pub classify : ℕ → Class
classify c =
    if c == b'*'
    then star
    else if is_one_of (b'I' ∷ b'l' ∷ b'h' ∷ b'w' ∷ b'z' ∷ b'j' ∷ b't' ∷ b'L' ∷ []) c
    then prefix_char
    else if is_one_of (b'd' ∷ b'i' ∷ b'o' ∷ b'u' ∷ b'x' ∷ b'X' ∷ b'b' ∷ b'B' ∷ []) c
    then integer
    else if is_one_of (b's' ∷ b'S' ∷ []) c
    then string
    else if c == b'p'
    then pointer
    else if is_one_of (b'e' ∷ b'E' ∷ b'f' ∷ b'F' ∷ b'g' ∷ b'G' ∷ b'a' ∷ b'A' ∷ []) c
    then floating
    else if is_one_of (b'c' ∷ b'C' ∷ []) c
    then character
    else if c == b'%'
    then percent_sign
    else other

-- The test behind the switch, on the character at which `lp_iter` stands then.
unfoldable pub note_digit : Option ℕ → Scan → Scan
note_digit none s = s
note_digit (some c) s =
    if s.percent && leb b'0' c && leb c b'9' then record s { has_width = 1 } else s

-- What a round does: it moves on, over so many more characters, or it wants to write an argument.
pub data Effect : Type 0 where
  go : Scan → ℕ → Effect
  write : Arg → Scan → Effect

-- A conversion is complete.
abbrev pub close : Scan → Scan
close s = record s { percent = false }

-- One round at the character `c`, with `rest` behind it.
unfoldable pub step : ℕ → List ℕ → Scan → Effect
unfolding note_digit int_arg string_arg float_arg char_arg
step c rest s =
    if s.percent
    then elim (classify c) [
      | star ↦
          write (record { type = type_int32; size = size_of_arg 4 }) (record s { has_width = 1 })
      | prefix_char ↦ elim (find_prefix (c ∷ rest)) [
        | none ↦ go (note_digit (some c) s) 0
        | some (n, prefix) ↦
            go (note_digit (get_elem? (c ∷ rest) (n - 1)) (record s { prefix = prefix })) (n - 1)
      ]
      | integer ↦ write (int_arg s.prefix) (close s)
      | string ↦ write (string_arg c s.has_width s.prefix) (close s)
      | pointer ↦ write pointer_arg (close s)
      | floating ↦ write (float_arg s.prefix) (close s)
      | character ↦ write (char_arg s.prefix) (close s)
      | percent_sign ↦ go (close s) 0
      | other ↦ go (note_digit (some c) s) 0
    ]
    else (if c == b'%'
        then go (record { percent = true; prefix = prefix_unknown; has_width = 0 }) 0
        else go s 0)

-- The loop: the arguments that it writes from `op_args[count]` on. A round uses up a character, so as
-- many rounds as there are characters are enough.
unfoldable pub parse_loop : ℕ → ℕ → ℕ → Scan → List ℕ → List Arg
parse_loop zero max count s text = []
parse_loop (suc fuel) max count s [] = []
parse_loop (suc fuel) max count s (c ∷ rest) = elim (step c rest s) [
  | go t n ↦ parse_loop fuel max count t (drop n rest)
  | write arg t ↦
      let more = parse_loop fuel max (count + 1) t rest in if leb max count then [] else arg ∷ more
]

-- `parse_format_string`; `none` is a null pointer.
unfoldable pub parse_format_string : Bool → ℕ → Option (List ℕ) → List Arg
unfolding parse_loop
parse_format_string has_args max none = []
parse_format_string has_args max (some text) =
    if has_args && leb 1 max then parse_loop (length text) max 0 idle text else []

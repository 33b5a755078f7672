-- ===== src/Format/Expected.antt =====
-- The reader takes of each directive the argument that the table has for it.
use selenge_muren.Prelude.{
  ℕ, ◌≡◌, refl, ap, inl, inr, Bool, true, false, Option, none, some, List, [], ◌∷◌, Bool-cases,
  if◌then◌else◌,
}
use selenge_muren.Format.{Arg, classify, int_arg, string_arg, float_arg, char_arg}
use selenge_muren.Format.Round.{
  Length, with_i64, with_i32, with_ll, with_hh, with_h, with_l, with_upper_l, with_i, with_z,
  with_t, with_w, with_j, Modifier, from_arg, plain, is_digit, is_conversion, length_args, meant,
  width_after,
}
use selenge_muren.Format.Table.{
  Conversion, letter_d, letter_i, letter_o, letter_u, letter_x, letter_upper_x, letter_b,
  letter_upper_b, letter_s, letter_upper_s, letter_p, letter_c, letter_upper_c, letter_e,
  letter_upper_e, letter_f, letter_upper_f, letter_g, letter_upper_g, letter_a, letter_upper_a,
  letter_of, whole, narrow_text, wide_text, real, one_character, expected, suits, has_width,
}

abbrev pub width_flag : Bool → ℕ
width_flag b = if b then 1 else 0

suits_not : false ≡ true → ⊥
suits_not e = cc e

whole_lem : (x : Option Length) → int_arg (meant x) ≡ whole x
unfolding int_arg
whole_lem none = refl
whole_lem (some with_i64) = refl
whole_lem (some with_i32) = refl
whole_lem (some with_ll) = refl
whole_lem (some with_hh) = refl
whole_lem (some with_h) = refl
whole_lem (some with_l) = refl
whole_lem (some with_upper_l) = refl
whole_lem (some with_i) = refl
whole_lem (some with_z) = refl
whole_lem (some with_t) = refl
whole_lem (some with_w) = refl
whole_lem (some with_j) = refl

real_lem : (x : Option Length) → float_arg (meant x) ≡ real x
unfolding float_arg
real_lem none = refl
real_lem (some with_i64) = refl
real_lem (some with_i32) = refl
real_lem (some with_ll) = refl
real_lem (some with_hh) = refl
real_lem (some with_h) = refl
real_lem (some with_l) = refl
real_lem (some with_upper_l) = refl
real_lem (some with_i) = refl
real_lem (some with_z) = refl
real_lem (some with_t) = refl
real_lem (some with_w) = refl
real_lem (some with_j) = refl

one_character_lem : (x : Option Length) → char_arg (meant x) ≡ one_character x
unfolding char_arg
one_character_lem none = refl
one_character_lem (some with_i64) = refl
one_character_lem (some with_i32) = refl
one_character_lem (some with_ll) = refl
one_character_lem (some with_hh) = refl
one_character_lem (some with_h) = refl
one_character_lem (some with_l) = refl
one_character_lem (some with_upper_l) = refl
one_character_lem (some with_i) = refl
one_character_lem (some with_z) = refl
one_character_lem (some with_t) = refl
one_character_lem (some with_w) = refl
one_character_lem (some with_j) = refl

narrow_text_lem :
    (x : Option Length) (b : Bool)
    → suits x letter_s ≡ true
    → length_args x b's' (width_flag b) ≡ narrow_text x b ∷ []
unfolding string_arg classify
narrow_text_lem none b e = refl
narrow_text_lem (some with_i64) b e = absurd (suits_not e)
narrow_text_lem (some with_i32) b e = absurd (suits_not e)
narrow_text_lem (some with_ll) b e = refl
narrow_text_lem (some with_hh) b e = refl
narrow_text_lem (some with_h) b e = refl
narrow_text_lem (some with_l) b e = refl
narrow_text_lem (some with_upper_l) b e = refl
narrow_text_lem (some with_i) b e = refl
narrow_text_lem (some with_z) b e = refl
narrow_text_lem (some with_t) b e = refl
narrow_text_lem (some with_w) b e = refl
narrow_text_lem (some with_j) b e = refl

wide_text_lem :
    (x : Option Length) (b : Bool)
    → suits x letter_upper_s ≡ true
    → length_args x b'S' (width_flag b) ≡ wide_text x b ∷ []
unfolding string_arg classify
wide_text_lem none b e = refl
wide_text_lem (some with_i64) b e = absurd (suits_not e)
wide_text_lem (some with_i32) b e = absurd (suits_not e)
wide_text_lem (some with_ll) b e = refl
wide_text_lem (some with_hh) b e = refl
wide_text_lem (some with_h) b e = refl
wide_text_lem (some with_l) b e = refl
wide_text_lem (some with_upper_l) b e = refl
wide_text_lem (some with_i) b e = refl
wide_text_lem (some with_z) b e = refl
wide_text_lem (some with_t) b e = refl
wide_text_lem (some with_w) b e = refl
wide_text_lem (some with_j) b e = refl

pub letter_of-classify : (k : Conversion) → is_conversion (classify (letter_of k)) ≡ true
unfolding classify
letter_of-classify letter_d = refl
letter_of-classify letter_i = refl
letter_of-classify letter_o = refl
letter_of-classify letter_u = refl
letter_of-classify letter_x = refl
letter_of-classify letter_upper_x = refl
letter_of-classify letter_b = refl
letter_of-classify letter_upper_b = refl
letter_of-classify letter_s = refl
letter_of-classify letter_upper_s = refl
letter_of-classify letter_p = refl
letter_of-classify letter_c = refl
letter_of-classify letter_upper_c = refl
letter_of-classify letter_e = refl
letter_of-classify letter_upper_e = refl
letter_of-classify letter_f = refl
letter_of-classify letter_upper_f = refl
letter_of-classify letter_g = refl
letter_of-classify letter_upper_g = refl
letter_of-classify letter_a = refl
letter_of-classify letter_upper_a = refl

pub length_args-expected :
    (x : Option Length) (k : Conversion) (b : Bool)
    → suits x k ≡ true
    → length_args x (letter_of k) (width_flag b) ≡ expected x k b ∷ []
unfolding classify
length_args-expected x letter_d b e = ap (λ (a : Arg). a ∷ []) (whole_lem x)
length_args-expected x letter_i b e = ap (λ (a : Arg). a ∷ []) (whole_lem x)
length_args-expected x letter_o b e = ap (λ (a : Arg). a ∷ []) (whole_lem x)
length_args-expected x letter_u b e = ap (λ (a : Arg). a ∷ []) (whole_lem x)
length_args-expected x letter_x b e = ap (λ (a : Arg). a ∷ []) (whole_lem x)
length_args-expected x letter_upper_x b e = ap (λ (a : Arg). a ∷ []) (whole_lem x)
length_args-expected x letter_b b e = ap (λ (a : Arg). a ∷ []) (whole_lem x)
length_args-expected x letter_upper_b b e = ap (λ (a : Arg). a ∷ []) (whole_lem x)
length_args-expected x letter_s b e = narrow_text_lem x b e
length_args-expected x letter_upper_s b e = wide_text_lem x b e
length_args-expected x letter_p b e = refl
length_args-expected x letter_c b e = ap (λ (a : Arg). a ∷ []) (one_character_lem x)
length_args-expected x letter_upper_c b e = ap (λ (a : Arg). a ∷ []) (one_character_lem x)
length_args-expected x letter_e b e = ap (λ (a : Arg). a ∷ []) (real_lem x)
length_args-expected x letter_upper_e b e = ap (λ (a : Arg). a ∷ []) (real_lem x)
length_args-expected x letter_f b e = ap (λ (a : Arg). a ∷ []) (real_lem x)
length_args-expected x letter_upper_f b e = ap (λ (a : Arg). a ∷ []) (real_lem x)
length_args-expected x letter_g b e = ap (λ (a : Arg). a ∷ []) (real_lem x)
length_args-expected x letter_upper_g b e = ap (λ (a : Arg). a ∷ []) (real_lem x)
length_args-expected x letter_a b e = ap (λ (a : Arg). a ∷ []) (real_lem x)
length_args-expected x letter_upper_a b e = ap (λ (a : Arg). a ∷ []) (real_lem x)

kept_width : (ms : List Modifier) → width_after ms 1 ≡ 1
kept_width [] = refl
kept_width (from_arg ∷ ms) = kept_width ms
kept_width (plain c e ∷ ms) = elim (Bool-cases (is_digit c)) [
  | inl d ↦ rw d (kept_width ms)
  | inr d ↦ rw d (kept_width ms)
]

pub width_after-has_width : (ms : List Modifier) → width_after ms 0 ≡ width_flag (has_width ms)
width_after-has_width [] = refl
width_after-has_width (from_arg ∷ ms) = kept_width ms
width_after-has_width (plain c e ∷ ms) = elim (Bool-cases (is_digit c)) [
  | inl d ↦ rw d (kept_width ms)
  | inr d ↦ rw d (width_after-has_width ms)
]

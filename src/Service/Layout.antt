-- ===== src/Service/Layout.antt =====
-- Strings are cut at characters, and every entry is as long as its padded size says.
use selenge_muren.Prelude.{
  ℕ, zero, suc, ◌*◌, ◌/◌, ◌≤◌, ◌<◌, ◌≡◌, ◌⊎◌, inl, inr, refl, false, Option, none, some, List, [],
  ◌∷◌, arith, ltb, length, length-append, length-take, get_elem?, Bool-cases, Option-cases, ltb→lt,
}
use selenge_muren.Format.{Arg}
use selenge_muren.Service.{is_continuation, cut_utf8, svc_str_len, sent, number_bytes, svc_header}
use selenge_muren.Service.Entries.{
  AttrDesc, attr_size, attr_entry, Module, log_mod_size, log_mod_entry, LogDesc, args_bytes,
  log_size, log_entry, MetricDesc, mtk_size, mtk_entry, str_size, str_entry, trc_entry,
}

get_elem-ne-none : (xs : List ℕ) (i : ℕ) → i < length xs → get_elem? xs i ≡ none → ⊥
get_elem-ne-none [] i h e = absurd (omega arith)
get_elem-ne-none (x ∷ xs) zero h e = ground arith
get_elem-ne-none (x ∷ xs) (suc i) h e = get_elem-ne-none xs i (omega arith) e

-- The byte at `n` continues no character, unless `n` is 0.
abbrev pub CutsAt : List ℕ → ℕ → Type 0
CutsAt str n =
    (n ≡ 0) ⊎ ((byte : ℕ) × (get_elem? str n ≡ some byte) × (is_continuation byte ≡ false))

-- In a string that is longer than the given length, the cut is not longer than that, and the byte
-- behind it continues no character, unless nothing is left.
pub cut_utf8-CutsAt :
    (str : List ℕ) (len : ℕ)
    → len < length str
    → (cut_utf8 str len ≤ len) × CutsAt str (cut_utf8 str len)
unfolding cut_utf8
cut_utf8-CutsAt str zero h = (omega arith, inl refl)
cut_utf8-CutsAt str (suc len) h = elim (Option-cases (get_elem? str (suc len))) [
  | inl e ↦ absurd (get_elem-ne-none str (suc len) h e)
  | inr (byte, e) ↦ elim (Bool-cases (is_continuation byte)) [
    | inl c ↦
        let (shorter, at) = cut_utf8-CutsAt str len (omega arith) in
        rw (e, c, cut_utf8) (omega arith, at)
    | inr c ↦ rw (e, c, cut_utf8) (omega arith, inr (byte, e, c))
  ]
]

pub svc_str_len-bounded :
    (str : List ℕ) → (svc_str_len (some str) ≤ 1024) × (svc_str_len (some str) ≤ length str)
unfolding svc_str_len
svc_str_len-bounded str = elim (Bool-cases (ltb 1024 (length str))) [
  | inl e ↦
      let long = ltb→lt 1024 (length str) e in
      let (short, at) = cut_utf8-CutsAt str 1024 long in rw (e, svc_str_len) (short, omega arith)
  | inr e ↦ rw (e, svc_str_len) (ground arith)
]

pub length-sent : (str : Option (List ℕ)) → length (sent str) ≡ svc_str_len str
unfolding sent
length-sent none = unfold svc_str_len in refl
length-sent (some str) =
    let (short, within) = svc_str_len-bounded str in
    omega (arith, within, length-take (svc_str_len (some str)) str)

length-number_bytes : (width n : ℕ) → length (number_bytes width n) ≡ width
unfolding number_bytes
length-number_bytes zero n = refl
length-number_bytes (suc width) n = omega (arith, length-number_bytes width (n / 256))

length-args_bytes : (args : List Arg) → length (args_bytes args) ≡ 2 * length args
length-args_bytes [] = omega arith
length-args_bytes (a ∷ args) = omega (arith, length-args_bytes args)

length-svc_header : (svc_type padded : ℕ) → length (svc_header svc_type padded) ≡ 4
unfolding svc_header number_bytes
length-svc_header svc_type padded = refl

ruleset lengths =
    (length-append, length-number_bytes, length-svc_header, length-sent, length-args_bytes)

pub length-attr_entry : (d : AttrDesc) → length (attr_entry d) ≤ attr_size d
unfolding attr_entry attr_size
length-attr_entry d = simp lengths (omega arith)

pub length-log_mod_entry : (m : Module) → length (log_mod_entry m) ≤ log_mod_size m
unfolding log_mod_entry log_mod_size
length-log_mod_entry m = simp lengths (omega arith)

pub length-log_entry : (d : LogDesc) → length (log_entry d) ≤ log_size d
unfolding log_entry log_size
length-log_entry d = simp lengths (omega arith)

pub length-mtk_entry :
    (d : MetricDesc) (blob : List ℕ) (count : ℕ) → length (mtk_entry d blob count) ≤ mtk_size d blob
unfolding mtk_entry mtk_size
length-mtk_entry d blob count = simp lengths (omega arith)

pub length-str_entry :
    (svc_type : ℕ) (str : Option (List ℕ)) (hash : ℕ)
    → length (str_entry svc_type str hash) ≤ str_size str
unfolding str_entry str_size
length-str_entry svc_type str hash = simp lengths (omega arith)

pub length-trc_entry :
    (hash line file func name : ℕ) → length (trc_entry hash line file func name) ≤ 40
unfolding trc_entry
length-trc_entry hash line file func name = simp lengths (omega arith)

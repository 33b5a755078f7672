-- ===== src/Log/Arguments.antt =====
-- The arguments of a log record are written as their bytes, over however many buffers they go.
use selenge_muren.Prelude.{
  ℕ, ◌%◌, ◌^◌, ◌<◌, ◌≡◌, inl, inr, refl, sym, subst, List, [], ◌∷◌, ◌++◌, append-nil, arith,
  if◌then◌else◌, length, Bool-cases, ◌==◌,
}
use selenge_muren.Format.{Arg, type_ldouble}
use selenge_muren.Writer.{
  Byte, Buffer, Writer, le_bytes, Copied, done, write_piece, copy_fragmented,
}
use selenge_muren.Writer.Ready.{IsReady, stream}
use selenge_muren.Writer.Tracked.{Since}
use selenge_muren.Record.Pieces.{
  Follows, Follows-and_then, copy_fragmented-Follows, write_piece-Follows,
}
use selenge_muren.Log.{VaArg, text_bytes, is_text, write_text, write_arg, write_args}

-- The bytes of an argument, and of all.
unfoldable pub value_bytes : Arg → VaArg → List Byte
unfolding le_bytes text_bytes
value_bytes a v =
    if is_text a.type
    then le_bytes 2 (length (text_bytes a.type v.text)) ++ text_bytes a.type v.text
    else if a.size == 8
    then le_bytes 8 v.number
    else if a.type == type_ldouble
    then le_bytes 16 v.number
    else []

unfoldable pub values_bytes : List (Arg × VaArg) → List Byte
unfolding value_bytes
values_bytes [] = []
values_bytes ((a, v) ∷ rest) = value_bytes a v ++ values_bytes rest

-- Both sides of a round choose by the same tests.
abbrev chosen {ℓ} : {A : Type ℓ} → Arg → A → A → A → A → A
chosen a text word wide other =
    if is_text a.type
    then text
    else if a.size == 8
    then word
    else if a.type == type_ldouble
    then wide
    else other

arg_lem :
    (a : Arg) (x : VaArg) (dst written : ℕ) (v : Writer)
    → ◌≡◌ {A = List Byte × Copied}
        (value_bytes a x, write_arg a x dst written v)
        (chosen a
          (
            le_bytes 2 (length (text_bytes a.type x.text)) ++ text_bytes a.type x.text,
            write_text (text_bytes a.type x.text) dst written v,
          )
          (le_bytes 8 x.number, write_piece (le_bytes 8 x.number) dst written v)
          (le_bytes 16 x.number, write_piece (le_bytes 16 x.number) dst written v)
          ([], done dst written v))
unfolding value_bytes write_arg
arg_lem a x dst written v = elim (Bool-cases (is_text a.type)) [
  | inl e ↦ rw (e, value_bytes, write_arg) refl
  | inr e ↦ elim (Bool-cases (a.size == 8)) [
    | inl f ↦ rw (e, f, value_bytes, write_arg) refl
    | inr f ↦ elim (Bool-cases (a.type == type_ldouble)) [
      | inl g ↦ rw (e, f, g, value_bytes, write_arg) refl
      | inr g ↦ rw (e, f, g, value_bytes, write_arg) refl
    ]
  ]
]

module _ (w : Writer) (b : Buffer) (start : ℕ) (small : w.buf_seq < 2 ^ 32)
    (aligned : w.cap % 8 ≡ 0) where
  nothing-Follows :
      (dst written : ℕ) (v : Writer)
      → IsReady v dst
      → v.cap ≡ w.cap
      → Since w b start v dst
      → Follows w b start small aligned v dst written [] (done dst written v)
  nothing-Follows dst written v r c s = (
    record {
      ready = r;
      since = s;
      same_cap = c;
      grown = sym (append-nil (stream v dst));
      moved = omega arith;
    },
    omega arith,
  )

  write_text-Follows :
      (bytes : List Byte) (dst written : ℕ) (v : Writer)
      → IsReady v dst
      → v.cap ≡ w.cap
      → Since w b start v dst
      → Follows w b start small aligned v dst written
          (le_bytes 2 (length bytes) ++ bytes)
          (write_text bytes dst written v)
  unfolding write_text
  write_text-Follows bytes dst written v r c s =
      Follows-and_then w b start small aligned v dst written (le_bytes 2 (length bytes)) bytes
        (write_piece (le_bytes 2 (length bytes)) dst written v)
        (λ d n u. copy_fragmented bytes d n u)
        (write_piece-Follows w b start small aligned (le_bytes 2 (length bytes)) dst written v r c
          s)
        λ d n u q.
          copy_fragmented-Follows w b start small aligned bytes d n u q.ready q.same_cap q.since

  write_arg-Follows :
      (a : Arg) (x : VaArg) (dst written : ℕ) (v : Writer)
      → IsReady v dst
      → v.cap ≡ w.cap
      → Since w b start v dst
      → Follows w b start small aligned v dst written
          (value_bytes a x)
          (write_arg a x dst written v)
  write_arg-Follows a x dst written v r c s =
      subst (λ p. Follows w b start small aligned v dst written p.0 p.1)
        (sym (arg_lem a x dst written v))
        (elim (Bool-cases (is_text a.type)) [
          | inl e ↦ rw e (write_text-Follows (text_bytes a.type x.text) dst written v r c s)
          | inr e ↦ elim (Bool-cases (a.size == 8)) [
            | inl f ↦
                rw (e, f)
                  (write_piece-Follows w b start small aligned (le_bytes 8 x.number) dst written v r
                    c s)
            | inr f ↦ elim (Bool-cases (a.type == type_ldouble)) [
              | inl g ↦
                  rw (e, f, g)
                    (write_piece-Follows w b start small aligned (le_bytes 16 x.number) dst written
                      v r c s)
              | inr g ↦ rw (e, f, g) (nothing-Follows dst written v r c s)
            ]
          ]
        ])

  pub write_args-Follows :
      (args : List (Arg × VaArg)) (dst written : ℕ) (v : Writer)
      → IsReady v dst
      → v.cap ≡ w.cap
      → Since w b start v dst
      → Follows w b start small aligned v dst written
          (values_bytes args)
          (write_args args dst written v)
  unfolding write_args values_bytes
  write_args-Follows [] dst written v r c s = nothing-Follows dst written v r c s
  write_args-Follows ((a, x) ∷ rest) dst written v r c s =
      Follows-and_then w b start small aligned v dst written (value_bytes a x) (values_bytes rest)
        (write_arg a x dst written v) (λ d n u. write_args rest d n u)
        (write_arg-Follows a x dst written v r c s)
        λ d n u q. write_args-Follows rest d n u q.ready q.same_cap q.since

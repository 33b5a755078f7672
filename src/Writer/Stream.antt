-- ===== src/Writer/Stream.antt =====
-- What a copy puts into the stream of a writer, over however many buffers it goes.
use selenge_muren.Prelude.{
  ℕ, zero, suc, ◌+◌, ◌-◌, ◌≤◌, ◌≡◌, ◌⊎◌, inl, inr, refl, sym, ap, ◌∙◌, subst, List, [], ◌∷◌, ◌++◌,
  append_assoc, append-nil, arith, leb, length, length-take, length-drop, take, drop,
  take-append-drop, Bool-cases,
}
use selenge_muren.Writer.{
  Byte, Writer, Copied, done, failed, no_fuel, Space, room, no_room, make_space, put_current,
  fitting, copy_loop, copy_fragmented, write_piece,
}
use selenge_muren.Writer.Ready.{
  IsReady, fewer, make_space-Roomy, fitting_bounds, put_current-IsReady, Roomy, stream,
}

-- What a copy of `src` promises from a writer `w` whose write offset is `dst`: it does not run out of
-- rounds, and if it succeeds the stream has grown by `src`.
abbrev pub Appends : Writer → ℕ → ℕ → List Byte → Copied → Type 0
Appends w dst written src no_fuel = ⊥
Appends w dst written src (failed v) = Unit {0}
Appends w dst written src (done d n v) =
    IsReady v d × (stream v d ≡ stream w dst ++ src) × (n ≡ written + length src) × (v.cap ≡ w.cap)

copy_round :
    (n : ℕ) (src : List Byte) (d written dst : ℕ) (v w : Writer) (r : Copied)
    → n ≤ length src
    → d + n ≤ v.cap
    → IsReady v d
    → stream v d ≡ stream w dst
    → v.cap ≡ w.cap
    → Appends (put_current v d (take n src)) (d + n) (written + n) (drop n src) r
    → Appends w dst written src r
copy_round n src d written dst v w no_fuel h k ready e c a = a
copy_round n src d written dst v w (failed u) h k ready e c a = tt
copy_round n src d written dst v w (done d' m u) h k ready e c (ready', e', m', c') =
    let (_, put_stream, put_cap) = put_current-IsReady d (take n src) v ready fits in
    let n_taken : length (take n src) ≡ n = taken in
    (
      ready',
      e'
          ∙ ap (λ (t : ℕ). stream (put_current v d (take n src)) (d + t) ++ drop n src)
              (sym n_taken)
          ∙ ap (λ (bs : List Byte). bs ++ drop n src) put_stream
          ∙ append_assoc (stream v d) (take n src) (drop n src)
          ∙ ap (◌++◌ (stream v d)) (take-append-drop n src)
          ∙ ap (λ (bs : List Byte). bs ++ src) e,
      omega (arith, length-drop n src),
      c' ∙ put_cap ∙ c,
    )
  where
    taken : length (take n src) ≡ n
    taken = omega (arith, length-take n src)

    fits : d + length (take n src) ≤ v.cap
    fits = omega (arith, taken)

pub put_taken-IsReady :
    (n : ℕ) (src : List Byte) (d : ℕ) (v : Writer)
    → n ≤ length src
    → d + n ≤ v.cap
    → IsReady v d
    → IsReady (put_current v d (take n src)) (d + n)
put_taken-IsReady n src d v h k r =
    subst (λ t. IsReady (put_current v d (take n src)) (d + t)) taken
      (put_current-IsReady d (take n src) v r (omega (arith, taken))).0
  where
    taken : length (take n src) ≡ n
    taken = omega (arith, length-take n src)

pub Space-cases :
    (s : Space) → ((v : Writer) × (s ≡ no_room v)) ⊎ ((d : ℕ) × (v : Writer) × (s ≡ room d v))
Space-cases (no_room v) = inl (v, refl)
Space-cases (room d v) = inr (d, v, refl)

copy_loop-Appends :
    (fuel : ℕ) (src : List Byte) (dst written : ℕ) (w : Writer)
    → IsReady w dst
    → length src ≤ fuel
    → Appends w dst written src (copy_loop fuel src dst written w)
unfolding copy_loop
copy_loop-Appends fuel [] dst written w r h =
    (r, sym (append-nil (stream w dst)), omega arith, refl)
copy_loop-Appends zero (x ∷ src) dst written w r h = absurd (omega arith)
copy_loop-Appends (suc fuel) (x ∷ src) dst written w r h = elim (Space-cases (make_space dst w)) [
  | inl (v, e) ↦ rw (e, Appends) tt
  | inr (d, v, e) ↦
      let (ready, same, cap, free) = rw (e, Roomy) at (make_space-Roomy dst w r) in
      let (in_space, in_src) = fitting_bounds (x ∷ src) (v.cap - d) in
      let n = fitting (x ∷ src) (v.cap - d) in
      rw (e, Appends)
        (copy_round n (x ∷ src) d written dst v w
          (copy_loop fuel (drop n (x ∷ src)) (d + n) (written + n)
            (put_current v d (take n (x ∷ src))))
          in_src (omega arith) ready same cap
          (copy_loop-Appends fuel (drop n (x ∷ src)) (d + n) (written + n)
            (put_current v d (take n (x ∷ src)))
            (put_taken-IsReady n (x ∷ src) d v in_src (omega arith) ready)
            (fewer fuel (x ∷ src) (v.cap - d) h (omega arith) (omega arith))))
]

-- From a buffer at hand with the write offset in range, `copy_fragmented` ends, and if the pool gave
-- it the buffers that it asked for, then it appended exactly its source to the stream.
pub copy_fragmented-Appends :
    (src : List Byte) (dst written : ℕ) (w : Writer)
    → IsReady w dst
    → Appends w dst written src (copy_fragmented src dst written w)
unfolding copy_fragmented
copy_fragmented-Appends src dst written w r =
    copy_loop-Appends (length src) src dst written w r (omega arith)

-- From a buffer at hand with the write offset in range, P8_WRITE_PIECE ends on both of its branches,
-- and unless the pool refuses a buffer it appended exactly its source to the stream.
pub write_piece-Appends :
    (src : List Byte) (dst written : ℕ) (w : Writer)
    → IsReady w dst
    → Appends w dst written src (write_piece src dst written w)
unfolding write_piece
write_piece-Appends src dst written w r = elim (Bool-cases (leb (dst + length src) w.cap)) [
  | inl e ↦
      let (ready, same, cap) = put_current-IsReady dst src w r (ground arith) in
      rw (e, Appends) (ready, same, refl, cap)
  | inr e ↦ rw e (copy_fragmented-Appends src dst written w r)
]

-- ===== src/Writer/Success.antt =====
-- A copy succeeds when the pool has the buffers for it.
use selenge_muren.Prelude.{
  subst, ℕ, zero, suc, ◌+◌, ◌-◌, ◌≤◌, ◌≡◌, inl, inr, refl, some, List, [], ◌∷◌, ◌++◌, arith, length,
  take, drop, ◌==◌, Bool-cases, Option-cases,
}
use selenge_muren.Writer.{
  Byte, Writer, Reply, Copied, done, failed, no_fuel, Space, room, no_room, make_space,
  start_buffer, fitting, put_current, copy_loop, copy_fragmented,
}
use selenge_muren.Writer.Ready.{
  IsReady, stream, next_answer, after_rotation, make_space_lem, Roomy, make_space-Roomy,
  fitting_bounds, fewer,
}
use selenge_muren.Writer.Stream.{put_taken-IsReady, Space-cases, Appends, copy_fragmented-Appends}

-- The pool answers the next `n` acquires with a buffer.
abbrev pub Grants : ℕ → List Reply → Type 0
Grants zero rs = Unit
Grants (suc n) [] = ⊥
Grants (suc n) (r ∷ rs) = ((addr : ℕ) × (r.answer ≡ some addr)) × Grants n rs

pub Grants-mono : (m n : ℕ) (rs : List Reply) → m ≤ n → Grants n rs → Grants m rs
Grants-mono zero n rs h g = tt
Grants-mono (suc m) zero rs h g = absurd (omega arith)
Grants-mono (suc m) (suc n) [] h g = g
Grants-mono (suc m) (suc n) (r ∷ rs) h (a, g) = (a, Grants-mono m n rs (omega arith) g)

Grants-next :
    (n : ℕ) (rs : List Reply)
    → Grants (suc n) rs
    → ((addr : ℕ) × (next_answer rs ≡ some addr)) × Grants n (drop 1 rs)
Grants-next n [] g = absurd g
Grants-next n (r ∷ rs) g = g

-- A round has room, and the pool still has buffers for the rounds behind it.
abbrev pub Lends : ℕ → Space → Type 0
Lends n (no_room v) = ⊥
Lends n (room d v) = Grants n v.replies

after_rotation-Lends :
    (n dst : ℕ) (w : Writer) (r : IsReady w dst)
    → Grants (suc n) w.replies
    → Lends n (after_rotation r.buffer dst w)
after_rotation-Lends n dst w r g =
    let ((addr, e), rest) = Grants-next n w.replies g in
    rw (e, after_rotation, Lends) (unfold start_buffer in rest)

make_space-Lends :
    (n dst : ℕ) (w : Writer) → IsReady w dst → Grants (suc n) w.replies → Lends n (make_space dst w)
make_space-Lends n dst w r g = elim (Bool-cases (w.cap - dst == 0)) [
  | inl e ↦ rw (make_space_lem dst w r.buffer r.at_hand, e) (after_rotation-Lends n dst w r g)
  | inr e ↦
      rw (make_space_lem dst w r.buffer r.at_hand, e)
        (Grants-mono n (suc n) w.replies (omega arith) g)
]

put_current-replies :
    (dst : ℕ) (bytes : List Byte) (w : Writer) → (put_current w dst bytes).replies ≡ w.replies
unfolding put_current
put_current-replies dst bytes w = elim (Option-cases w.current) [
  | inl e ↦ rw (e, put_current) refl
  | inr (b, e) ↦ rw (e, put_current) refl
]

abbrev pub Succeeds : Copied → Type 0
Succeeds (done d n v) = Unit
Succeeds (failed v) = ⊥
Succeeds no_fuel = ⊥

copy_loop-Succeeds :
    (fuel : ℕ) (src : List Byte) (dst written : ℕ) (w : Writer)
    → IsReady w dst
    → length src ≤ fuel
    → Grants (length src) w.replies
    → Succeeds (copy_loop fuel src dst written w)
unfolding copy_loop
copy_loop-Succeeds fuel [] dst written w r h g = tt
copy_loop-Succeeds zero (x ∷ src) dst written w r h g = absurd (omega arith)
copy_loop-Succeeds (suc fuel) (x ∷ src) dst written w r h g =
    elim (Space-cases (make_space dst w)) [
      | inl (v, e) ↦ absurd (subst (Lends (length src)) e (make_space-Lends (length src) dst w r g))
      | inr (d, v, e) ↦
          let (ready, same, cap, free) = rw (e, Roomy) at (make_space-Roomy dst w r) in
          let granted : Grants (length src) v.replies =
            subst (Lends (length src)) e (make_space-Lends (length src) dst w r g) in
          let (in_space, in_src) = fitting_bounds (x ∷ src) (v.cap - d) in
          let n = fitting (x ∷ src) (v.cap - d) in
          let less =
            fewer (length src) (x ∷ src) (v.cap - d) (omega arith) (omega arith) (omega arith) in
          let u : Writer = put_current v d (take n (x ∷ src)) in
          rw (e, Succeeds)
            (copy_loop-Succeeds fuel (drop n (x ∷ src)) (d + n) (written + n) u
              (put_taken-IsReady n (x ∷ src) d v in_src (omega arith) ready) (omega arith)
              (Grants-mono (length (drop n (x ∷ src))) (length src) u.replies less
                (rw (put_current-replies d (take n (x ∷ src)) v) granted)))
    ]

succeeded :
    (src : List Byte) (dst written : ℕ) (w : Writer) (r : Copied)
    → Succeeds r
    → Appends w dst written src r
    → (d : ℕ) × (n : ℕ) × (v : Writer) × (r ≡ done d n v)
      × (stream v d ≡ stream w dst ++ src)
      × (n ≡ written + length src)
succeeded src dst written w (failed v) s a = absurd s
succeeded src dst written w no_fuel s a = absurd s
succeeded src dst written w (done d n v) s (ready, e, m, c) = (d, n, v, refl, e, m)

-- From a buffer at hand with the write offset in range, and a pool that answers as many acquires as
-- there are bytes, `copy_fragmented` succeeds: it appends exactly its source, and counts it.
pub copy_fragmented-done :
    (src : List Byte) (dst written : ℕ) (w : Writer)
    → IsReady w dst
    → Grants (length src) w.replies
    → (d : ℕ) × (n : ℕ) × (v : Writer) × (copy_fragmented src dst written w ≡ done d n v)
      × (stream v d ≡ stream w dst ++ src)
      × (n ≡ written + length src)
copy_fragmented-done src dst written w r g =
    succeeded src dst written w (copy_fragmented src dst written w)
      (unfold copy_fragmented in
        copy_loop-Succeeds (length src) src dst written w r (omega arith) g)
      (copy_fragmented-Appends src dst written w r)

-- ===== src/Record/Pieces.antt =====
-- What one piece of a record after another leaves, or the rollback finds.
use selenge_muren.Prelude.{
  ℕ, zero, suc, ◌+◌, ◌-◌, ◌%◌, ◌^◌, ◌<◌, ◌≡◌, inl, inr, refl, sym, ap, ◌∙◌, List, [], ◌∷◌, ◌++◌,
  append_assoc, append-nil, arith, leb, ◌==◌, length, length-append, length-drop, take, drop,
  concat, Bool-cases, Option-cases,
}
use selenge_muren.Writer.{
  Byte, Buffer, Writer, Copied, done, failed, no_fuel, Space, room, no_room, make_space, fitting,
  put_current, copy_loop, copy_fragmented, write_piece,
}
use selenge_muren.Writer.Ready.{
  IsReady, stream, Roomy, make_space_lem, make_space-Roomy, after_rotation, next_answer,
  fitting_bounds, put_current-IsReady,
}
use selenge_muren.Writer.Stream.{
  Appends, put_taken-IsReady, Space-cases, copy_fragmented-Appends, write_piece-Appends,
}
use selenge_muren.Writer.Tracked.{
  Since, Stuck, Tracks, put_current-Since, copy_fragmented-Tracks, write_piece-Tracks,
}
use selenge_muren.Record.{and_then, copy_pieces, write_attr}

-- In buffers of a size divisible by 8, a copy moves the write offset by its bytes, modulo 8.
abbrev pub Moves : ℕ → Copied → Type 0
Moves n (done d m v) = d % 8 ≡ n % 8
Moves n (failed v) = Unit
Moves n no_fuel = Unit

abbrev MovesSpace : ℕ → Space → Type 0
MovesSpace n (room d v) = d % 8 ≡ n % 8
MovesSpace n (no_room v) = Unit

make_space-Moves :
    (dst : ℕ) (w : Writer) → IsReady w dst → w.cap % 8 ≡ 0 → MovesSpace dst (make_space dst w)
make_space-Moves dst w r aligned =
    rw (make_space_lem dst w r.buffer r.at_hand, MovesSpace)
      (elim (Bool-cases (w.cap - dst == 0)) [
        | inr e ↦ rw (e, MovesSpace) refl
        | inl e ↦
            rw (e, MovesSpace)
              (elim (Option-cases (next_answer w.replies)) [
                | inl a ↦ rw (a, after_rotation, MovesSpace) tt
                | inr (addr, a) ↦ rw (a, after_rotation, MovesSpace) (ground arith)
              ])
      ])

same-Moves : (m n : ℕ) (r : Copied) → m % 8 ≡ n % 8 → Moves m r → Moves n r
same-Moves m n (done d k v) e h = h ∙ e
same-Moves m n (failed v) e h = tt
same-Moves m n no_fuel e h = tt

pub cap-put_current :
    (dst : ℕ) (bytes : List Byte) (w : Writer) → (put_current w dst bytes).cap ≡ w.cap
unfolding put_current
cap-put_current dst bytes w = ground arith

copy_loop-Moves :
    (fuel : ℕ) (src : List Byte) (dst written : ℕ) (w : Writer)
    → IsReady w dst
    → w.cap % 8 ≡ 0
    → Moves (dst + length src) (copy_loop fuel src dst written w)
unfolding copy_loop
copy_loop-Moves fuel [] dst written w r aligned = omega arith
copy_loop-Moves zero (x ∷ src) dst written w r aligned = tt
copy_loop-Moves (suc fuel) (x ∷ src) dst written w r aligned =
    elim (Space-cases (make_space dst w)) [
      | inl (v, e) ↦ rw (e, Moves) tt
      | inr (d, v, e) ↦
          let (ready, _, cap, free) = rw (e, Roomy) at (make_space-Roomy dst w r) in
          let moved = rw (e, MovesSpace) at (make_space-Moves dst w r aligned) in
          let (in_space, in_src) = fitting_bounds (x ∷ src) (v.cap - d) in
          let n = fitting (x ∷ src) (v.cap - d) in
          rw (e, Moves)
            (same-Moves (d + n + length (drop n (x ∷ src))) (dst + length (x ∷ src)) _
              (omega (arith, length-drop n (x ∷ src)))
              (copy_loop-Moves fuel (drop n (x ∷ src)) (d + n) (written + n)
                (put_current v d (take n (x ∷ src)))
                (put_taken-IsReady n (x ∷ src) d v in_src (omega arith) ready)
                (rw (cap-put_current d (take n (x ∷ src)) v, cap) aligned)))
    ]

-- A record began in the buffer `b` of `w` at `start`. From the writer `v` with the write offset `dst`,
-- it went on by `bytes`, or is stuck.
module _ (w : Writer) (b : Buffer) (start : ℕ) (small : w.buf_seq < 2 ^ 32)
    (aligned : w.cap % 8 ≡ 0) where
  pub record Reaches (v : Writer) (dst : ℕ) (bytes : List Byte) (u : Writer) (d : ℕ) : Type 0 where
    pub ready : IsReady u d
    pub since : Since w b start u d
    pub same_cap : u.cap ≡ w.cap
    pub grown : stream u d ≡ stream v dst ++ bytes
    pub moved : d % 8 ≡ (dst + length bytes) % 8

  abbrev pub Follows : Writer → ℕ → ℕ → List Byte → Copied → Type 0
  Follows v dst written bytes (done d n u) = Reaches v dst bytes u d × (n ≡ written + length bytes)
  Follows v dst written bytes (failed u) = Stuck w b start u
  Follows v dst written bytes no_fuel = ⊥

  -- A copy of which the three parts are known.
  joined :
      (v : Writer) (dst written : ℕ) (bytes : List Byte) (r : Copied)
      → v.cap ≡ w.cap
      → Appends v dst written bytes r
      → Tracks w b start r
      → Moves (dst + length bytes) r
      → Follows v dst written bytes r
  joined v dst written bytes (done d n u) c (ready, grown, count, cap) t m =
      (record { ready = ready; since = t; same_cap = cap ∙ c; grown = grown; moved = m }, count)
  joined v dst written bytes (failed u) c a t m = t
  joined v dst written bytes no_fuel c a t m = a

  pub copy_fragmented-Follows :
      (src : List Byte) (dst written : ℕ) (v : Writer)
      → IsReady v dst
      → v.cap ≡ w.cap
      → Since w b start v dst
      → Follows v dst written src (copy_fragmented src dst written v)
  copy_fragmented-Follows src dst written v r c s =
      joined v dst written src (copy_fragmented src dst written v) c
        (copy_fragmented-Appends src dst written v r)
        (copy_fragmented-Tracks w b start small src dst written v r s)
        (unfold copy_fragmented in copy_loop-Moves (length src) src dst written v r (rw c aligned))

  pub write_piece-Follows :
      (src : List Byte) (dst written : ℕ) (v : Writer)
      → IsReady v dst
      → v.cap ≡ w.cap
      → Since w b start v dst
      → Follows v dst written src (write_piece src dst written v)
  write_piece-Follows src dst written v r c s =
      joined v dst written src (write_piece src dst written v) c
        (write_piece-Appends src dst written v r)
        (write_piece-Tracks w b start small src dst written v r s)
        (unfold write_piece in
          elim (Bool-cases (leb (dst + length src) v.cap)) [
            | inl e ↦ rw (e, Moves) refl
            | inr e ↦
                rw (e, Moves)
                  (unfold copy_fragmented in
                    copy_loop-Moves (length src) src dst written v r (rw c aligned))
          ])

  -- Bytes behind others.
  pub Reaches-append :
      (v u x : Writer) (dst d e : ℕ) (xs ys : List Byte)
      → Reaches v dst xs u d
      → Reaches u d ys x e
      → Reaches v dst (xs ++ ys) x e
  Reaches-append v u x dst d e xs ys p q = record {
    ready = q.ready;
    since = q.since;
    same_cap = q.same_cap;
    grown = q.grown ∙ ap (λ (l : List Byte). l ++ ys) p.grown ∙ append_assoc (stream v dst) xs ys;
    moved = omega (arith, q.moved, p.moved, length-append xs ys);
  }

  -- A piece behind others.
  shifted :
      (v u : Writer) (dst d written n : ℕ) (xs ys : List Byte) (r : Copied)
      → Reaches v dst xs u d
      → n ≡ written + length xs
      → Follows u d n ys r
      → Follows v dst written (xs ++ ys) r
  shifted v u dst d written n xs ys (done e m x) p c (q, k) =
      (Reaches-append v u x dst d e xs ys p q, omega (arith, length-append xs ys))
  shifted v u dst d written n xs ys (failed x) p c q = q
  shifted v u dst d written n xs ys no_fuel p c q = q

  pub Follows-and_then :
      (v : Writer) (dst written : ℕ) (xs ys : List Byte) (r : Copied)
      (next : ℕ → ℕ → Writer → Copied)
      → Follows v dst written xs r
      → ((d n : ℕ) (u : Writer) → Reaches v dst xs u d → Follows u d n ys (next d n u))
      → Follows v dst written (xs ++ ys) (and_then r next)
  Follows-and_then v dst written xs ys (done d n u) next (p, c) k =
      shifted v u dst d written n xs ys (next d n u) p c (k d n u p)
  Follows-and_then v dst written xs ys (failed u) next f k = f
  Follows-and_then v dst written xs ys no_fuel next f k = f

  pub copy_pieces-Follows :
      (pieces : List (List Byte)) (dst written : ℕ) (v : Writer)
      → IsReady v dst
      → v.cap ≡ w.cap
      → Since w b start v dst
      → Follows v dst written (concat pieces) (copy_pieces pieces dst written v)
  unfolding copy_pieces
  copy_pieces-Follows [] dst written v r c s = (
    record {
      ready = r;
      since = s;
      same_cap = c;
      grown = sym (append-nil (stream v dst));
      moved = omega arith;
    },
    omega arith,
  )
  copy_pieces-Follows (p ∷ ps) dst written v r c s =
      Follows-and_then v dst written p (concat ps) (copy_fragmented p dst written v)
        (λ d n u. copy_pieces ps d n u) (copy_fragmented-Follows p dst written v r c s)
        λ d n u q. copy_pieces-Follows ps d n u q.ready q.same_cap q.since

  pub write_attr-Follows :
      (pieces : List (List Byte)) (dst : ℕ) (v : Writer)
      → IsReady v dst
      → v.cap ≡ w.cap
      → Since w b start v dst
      → Follows v dst 0 (concat pieces) (write_attr pieces dst v)
  unfolding write_attr
  write_attr-Follows pieces dst v r c s =
      elim (Bool-cases (leb (length (concat pieces)) (v.cap - dst))) [
        | inr e ↦ rw (e, write_attr) (copy_pieces-Follows pieces dst 0 v r c s)
        | inl e ↦
            let (ready, grown, cap) = put_current-IsReady dst (concat pieces) v r (ground arith) in
            rw (e, write_attr)
              (
                record {
                  ready = ready;
                  since =
                      put_current-Since w b start small v dst (dst + length (concat pieces))
                        (concat pieces) (omega arith) s;
                  same_cap = cap ∙ c;
                  grown = grown;
                  moved = refl;
                },
                omega arith,
              )
      ]

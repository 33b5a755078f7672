-- ===== src/Writer/Tracked.antt =====
-- How far a record that began in a buffer has gone on in others, or where it found none.
use selenge_muren.Prelude.{
  ℕ, zero, suc, ◌+◌, ◌-◌, ◌%◌, ◌^◌, ◌≤◌, ◌<◌, ◌≡◌, inl, inr, refl, sym, ◌∙◌, subst, none, some,
  List, [], ◌∷◌, ◌++◌, append_assoc, arith, leb, ◌==◌, length, length-append, length-take, take,
  drop, take-take-append, Bool-cases, Option-cases,
}
use selenge_muren.Writer.{
  Byte, Buffer, Writer, Copied, done, failed, no_fuel, Space, room, no_room, make_space, put,
  put_current, start_buffer, fitting, copy_loop, copy_fragmented, write_piece,
}
use selenge_muren.Writer.Ready.{
  Roomy, make_space-Roomy, fitting_bounds, IsReady, make_space_lem, after_rotation, next_answer,
  as_fragment, parked_writer,
}
use selenge_muren.Writer.Stream.{put_taken-IsReady, Space-cases}

-- The header's fixed fields and the bytes before `start` are those of `b`.
pub record SameStart (start : ℕ) (b c : Buffer) : Type 0 where
  pub addr : c.addr ≡ b.addr
  pub packet_type : c.packet_type ≡ b.packet_type
  pub thread_id : c.thread_id ≡ b.thread_id
  pub writer_id : c.writer_id ≡ b.writer_id
  pub buf_seq : c.buf_seq ≡ b.buf_seq
  pub bytes : take (start - 16) c.body ≡ take (start - 16) b.body
  pub long : start ≤ 16 + length c.body

-- What no step of a record touches.
pub record SameHistory (w v : Writer) : Type 0 where
  pub delivered : v.delivered ≡ w.delivered
  pub released : v.released ≡ w.released
  pub cap : v.cap ≡ w.cap
  pub thread_id : v.thread_id ≡ w.thread_id
  pub writer_id : v.writer_id ≡ w.writer_id
  pub dropped_logs : v.dropped_logs ≡ w.dropped_logs
  pub dropped_metrics : v.dropped_metrics ≡ w.dropped_metrics
  pub dropped_traces : v.dropped_traces ≡ w.dropped_traces

-- A record began in the buffer `b` of the writer `w` at the offset `start`.
module _ (w : Writer) (b : Buffer) (start : ℕ) where
  -- It is still in that buffer, or has gone on behind it in more.
  pub data Since (v : Writer) (dst : ℕ) : Type 0 where
    unrotated :
        (c : Buffer)
        → v.current ≡ some c
        → SameStart start b c
        → c.flags ≡ 0
        → v.fragments ≡ w.fragments
        → v.buf_seq ≡ w.buf_seq
        → start ≤ dst
        → SameHistory w v
        → Since v dst
    rotated :
        (first : Buffer) (extra : List Buffer) (c : Buffer)
        → v.current ≡ some c
        → SameStart start b first
        → first.flags ≡ 1
        → start ≤ first.size
        → v.fragments ≡ w.fragments ++ first ∷ extra
        → v.buf_seq ≡ (w.buf_seq + length extra + 1) % 2 ^ 32
        → SameHistory w v
        → Since v dst

  -- It found no buffer behind the last one that it filled.
  pub data Stuck (v : Writer) : Type 0 where
    stuck :
        (first : Buffer) (extra : List Buffer)
        → v.current ≡ none
        → SameStart start b first
        → first.flags ≡ 1
        → start ≤ first.size
        → v.fragments ≡ w.fragments ++ first ∷ extra
        → v.buf_seq ≡ (w.buf_seq + length extra) % 2 ^ 32
        → SameHistory w v
        → Stuck v

  abbrev pub Tracks : Copied → Type 0
  Tracks (done d n v) = Since v d
  Tracks (failed v) = Stuck v
  Tracks no_fuel = Unit

  abbrev TracksSpace : Space → Type 0
  TracksSpace (room d v) = Since v d
  TracksSpace (no_room v) = Stuck v

-- A copy behind `start` keeps what stands before it.
put-SameStart :
    (start dst : ℕ) (bytes : List Byte) (b c : Buffer)
    → start ≤ dst
    → SameStart start b c
    → SameStart start b (put c dst bytes)
unfolding put
put-SameStart start dst bytes b c h same = record {
  addr = same.addr;
  packet_type = same.packet_type;
  thread_id = same.thread_id;
  writer_id = same.writer_id;
  buf_seq = same.buf_seq;
  bytes =
      take-take-append (start - 16) (dst - 16) c.body bytes (omega arith) (omega arith)
      ∙ same.bytes;
  long = omega (arith, length-append (take (dst - 16) c.body) bytes, length-take (dst - 16) c.body);
}

fragment-SameStart :
    (start dst : ℕ) (b c : Buffer) → SameStart start b c → SameStart start b (as_fragment c dst)
fragment-SameStart start dst b c same = record {
  addr = same.addr;
  packet_type = same.packet_type;
  thread_id = same.thread_id;
  writer_id = same.writer_id;
  buf_seq = same.buf_seq;
  bytes = same.bytes;
  long = same.long;
}

fragment-flags : (c : Buffer) (dst : ℕ) → c.flags ≡ 0 → (as_fragment c dst).flags ≡ 1
fragment-flags c dst e = rw e

module _ (w : Writer) (b : Buffer) (start : ℕ) (small : w.buf_seq < 2 ^ 32) where
  pub put_current-Since :
      (v : Writer) (dst n : ℕ) (bytes : List Byte)
      → dst ≤ n
      → Since w b start v dst
      → Since w b start (put_current v dst bytes) n
  unfolding put_current
  put_current-Since v dst n bytes h (unrotated c at same clean frags seq later hist) =
      rw (at, put_current)
        (unrotated (put c dst bytes) refl (put-SameStart start dst bytes b c later same)
          (unfold put in clean) frags seq (omega arith) (ground arith))
  put_current-Since v dst n bytes h (rotated first extra c at same flag sized frags seq hist) =
      rw (at, put_current)
        (rotated first extra (put c dst bytes) refl same flag sized frags seq (ground arith))

  parked-Stuck :
      (v : Writer) (dst : ℕ) (c : Buffer)
      → v.current ≡ some c
      → c.flags ≡ 0
      → dst < 2 ^ 16
      → Since w b start v dst
      → Stuck w b start (parked_writer c dst v)
  parked-Stuck v dst c at f fits (unrotated d at' same clean frags seq later hist) =
      let e : c ≡ d = cc in
      stuck (as_fragment c dst) [] refl
        (fragment-SameStart start dst b c (subst (SameStart start b) (sym e) same))
        (fragment-flags c dst f) (omega arith) (rw frags) (omega arith) (ground arith)
  parked-Stuck v dst c at f fits (rotated first extra d at' same flag sized frags seq hist) =
      stuck first (extra ++ as_fragment c dst ∷ []) refl same flag sized
        (rw frags (append_assoc w.fragments (first ∷ extra) (as_fragment c dst ∷ [])))
        (omega (arith, length-append extra (as_fragment c dst ∷ []))) (ground arith)

  start_buffer-Since :
      (v : Writer) (addr packet_type : ℕ)
      → Stuck w b start v
      → Since w b start (start_buffer addr packet_type v) 16
  unfolding start_buffer
  start_buffer-Since v addr packet_type (stuck first extra none_at same flag sized frags seq hist) =
      rotated first extra _ refl same flag sized frags (omega arith) (ground arith)

  after_rotation-Tracks :
      (v : Writer) (dst : ℕ) (c : Buffer)
      → v.current ≡ some c
      → c.flags ≡ 0
      → dst < 2 ^ 16
      → Since w b start v dst
      → TracksSpace w b start (after_rotation c dst v)
  after_rotation-Tracks v dst c at f fits s = elim (Option-cases (next_answer v.replies)) [
    | inl e ↦ rw (e, after_rotation, TracksSpace) (parked-Stuck v dst c at f fits s)
    | inr (addr, e) ↦
        rw (e, after_rotation, TracksSpace)
          (start_buffer-Since (parked_writer c dst v) addr c.packet_type
            (parked-Stuck v dst c at f fits s))
  ]

  make_space-Tracks :
      (v : Writer) (dst : ℕ)
      → IsReady v dst
      → Since w b start v dst
      → TracksSpace w b start (make_space dst v)
  make_space-Tracks v dst r s =
      rw (make_space_lem dst v r.buffer r.at_hand, TracksSpace)
        (elim (Bool-cases (v.cap - dst == 0)) [
          | inl e ↦
              rw (e, TracksSpace)
                (after_rotation-Tracks v dst r.buffer r.at_hand r.clean (omega arith) s)
          | inr e ↦ rw (e, TracksSpace) s
        ])

  copy_loop-Tracks :
      (fuel : ℕ) (src : List Byte) (dst written : ℕ) (v : Writer)
      → IsReady v dst
      → Since w b start v dst
      → Tracks w b start (copy_loop fuel src dst written v)
  unfolding copy_loop
  copy_loop-Tracks fuel [] dst written v r s = s
  copy_loop-Tracks zero (x ∷ src) dst written v r s = tt
  copy_loop-Tracks (suc fuel) (x ∷ src) dst written v r s =
      let tracked = make_space-Tracks v dst r s in
      elim (Space-cases (make_space dst v)) [
        | inl (u, e) ↦ rw (e, Tracks) (rw (e, TracksSpace) at tracked)
        | inr (d, u, e) ↦
            let (ready, _, cap, free) = rw (e, Roomy) at (make_space-Roomy dst v r) in
            let (in_space, in_src) = fitting_bounds (x ∷ src) (u.cap - d) in
            let n = fitting (x ∷ src) (u.cap - d) in
            rw (e, Tracks)
              (copy_loop-Tracks fuel (drop n (x ∷ src)) (d + n) (written + n)
                (put_current u d (take n (x ∷ src)))
                (put_taken-IsReady n (x ∷ src) d u in_src (omega arith) ready)
                (put_current-Since u d (d + n) (take n (x ∷ src)) (omega arith)
                  (rw (e, TracksSpace) at tracked)))
      ]

  pub copy_fragmented-Tracks :
      (src : List Byte) (dst written : ℕ) (v : Writer)
      → IsReady v dst
      → Since w b start v dst
      → Tracks w b start (copy_fragmented src dst written v)
  unfolding copy_fragmented
  copy_fragmented-Tracks src dst written v r s = copy_loop-Tracks (length src) src dst written v r s

  pub write_piece-Tracks :
      (src : List Byte) (dst written : ℕ) (v : Writer)
      → IsReady v dst
      → Since w b start v dst
      → Tracks w b start (write_piece src dst written v)
  unfolding write_piece
  write_piece-Tracks src dst written v r s = elim (Bool-cases (leb (dst + length src) v.cap)) [
    | inl e ↦ rw (e, Tracks) (put_current-Since v dst (dst + length src) src (omega arith) s)
    | inr e ↦ rw e (copy_fragmented-Tracks src dst written v r s)
  ]

-- The addresses of buffers, the last one first.

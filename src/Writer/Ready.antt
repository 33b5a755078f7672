-- ===== src/Writer/Ready.antt =====
-- A writer with a buffer at hand, the stream that it holds, and one round of a copy.
use selenge_muren.Prelude.{
  ℕ, suc, bit_or, ◌+◌, ◌-◌, ◌%◌, ◌^◌, ◌≤◌, ◌<◌, ◌≡◌, inl, inr, refl, sym, Option, none, some, List,
  [], ◌∷◌, ◌++◌, append_assoc, append-nil, arith, ◌==◌, if◌then◌else◌, length, length-append,
  length-take, length-drop, take, drop, take-length_self, Option-cases,
}
use selenge_muren.Writer.{
  Reply, fragment_flag, Byte, Buffer, Writer, Space, room, no_room, rotate_from, make_space,
  acquire, start_buffer, put, put_current, fitting,
}

-- The bytes of a buffer that its header's size covers.
abbrev pub content : Buffer → List Byte
content b = take (b.size - 16) b.body

abbrev pub contents : List Buffer → List Byte
contents [] = []
contents (b ∷ bs) = content b ++ contents bs

-- The bytes of the buffer at hand, up to the write offset.
abbrev pub written_to : Option Buffer → ℕ → List Byte
written_to none dst = []
written_to (some b) dst = take (dst - 16) b.body

-- What the writer holds: the parked buffers, then the one at hand up to the write offset.
abbrev pub stream : Writer → ℕ → List Byte
stream w dst = contents w.fragments ++ written_to w.current dst

-- A buffer of at most 65535 bytes is at hand, and its bytes up to the write offset are there.
pub record IsReady (w : Writer) (dst : ℕ) : Type 0 where
  pub buffer : Buffer
  pub at_hand : w.current ≡ some buffer
  pub clean : buffer.flags ≡ 0
  pub low : 16 ≤ dst
  pub high : dst ≤ w.cap
  pub filled : dst ≤ 16 + length buffer.body
  pub cap_low : 16 < w.cap
  pub cap_high : w.cap < 2 ^ 16

pub contents-append : (xs ys : List Buffer) → contents (xs ++ ys) ≡ contents xs ++ contents ys
contents-append [] ys = refl
contents-append (x ∷ xs) ys =
    rw (contents-append xs ys) (sym (append_assoc (content x) (contents xs) (contents ys)))

abbrev pub next_answer : List Reply → Option ℕ
next_answer [] = none
next_answer (r ∷ rest) = r.answer

pub acquire_lem :
    (w : Writer) → acquire w ≡ (next_answer w.replies, record w { replies = drop 1 w.replies })
unfolding acquire
acquire_lem w = ground arith

-- The buffer that `rotate_fragment_buffer` parks.
abbrev pub as_fragment : Buffer → ℕ → Buffer
as_fragment b dst = record b { flags = bit_or b.flags fragment_flag; size = dst % 2 ^ 16 }

abbrev pub parked_writer : Buffer → ℕ → Writer → Writer
parked_writer b dst w = record w {
  used = dst;
  fragments = w.fragments ++ as_fragment b dst ∷ [];
  current = none;
  replies = drop 1 w.replies;
}

abbrev pub after_rotation : Buffer → ℕ → Writer → Space
after_rotation b dst w = elim (next_answer w.replies) [
  | none ↦ no_room (parked_writer b dst w)
  | some addr ↦ room 16 (start_buffer addr b.packet_type (parked_writer b dst w))
]

-- The two cases of a round.
pub make_space_lem :
    (dst : ℕ) (w : Writer) (b : Buffer)
    → w.current ≡ some b
    → make_space dst w ≡ (if w.cap - dst == 0 then after_rotation b dst w else room dst w)
unfolding make_space rotate_from start_buffer
make_space_lem dst w b e =
    rw (e, make_space)
      (ground (
        arith,
        acquire_lem (record w {
          used = dst;
          fragments = w.fragments ++ as_fragment b dst ∷ [];
          current = none;
        }),
      ))

-- A `memcpy` that stays in the buffer appends to the stream.
pub put_current-IsReady :
    (dst : ℕ) (bytes : List Byte) (w : Writer)
    → IsReady w dst
    → dst + length bytes ≤ w.cap
    → IsReady (put_current w dst bytes) (dst + length bytes)
      × (stream (put_current w dst bytes) (dst + length bytes) ≡ stream w dst ++ bytes)
      × ((put_current w dst bytes).cap ≡ w.cap)
unfolding put_current put
put_current-IsReady dst bytes w r h =
    rw (r.at_hand, put_current)
      (
        record {
          buffer = put r.buffer dst bytes;
          at_hand = refl;
          clean = r.clean;
          low = omega arith;
          high = h;
          filled = omega (arith, length-append kept bytes, length-take (dst - 16) r.buffer.body);
          cap_low = r.cap_low;
          cap_high = r.cap_high;
        },
        rw (take-length_self (kept ++ bytes) (dst + length bytes - 16) within)
            (sym (append_assoc (contents w.fragments) kept bytes)),
        refl,
      )
  where
    kept : List Byte
    kept = take (dst - 16) r.buffer.body

    within : length (kept ++ bytes) ≤ dst + length bytes - 16
    within = omega (arith, length-append kept bytes, length-take (dst - 16) r.buffer.body)

abbrev pub Roomy : List Byte → ℕ → Space → Type 0
Roomy bytes c (no_room v) = Unit {0}
Roomy bytes c (room d v) = IsReady v d × (stream v d ≡ bytes) × (v.cap ≡ c) × (d < v.cap)

after_rotation-Roomy :
    (dst : ℕ) (w : Writer) (r : IsReady w dst)
    → w.cap ≤ dst
    → Roomy (stream w dst) w.cap (after_rotation r.buffer dst w)
after_rotation-Roomy dst w r h = elim (Option-cases (next_answer w.replies)) [
  | inl e ↦ rw (e, after_rotation, Roomy) tt
  | inr (addr, e) ↦
      rw (e, after_rotation, Roomy)
        (unfold start_buffer in
          (
            record {
              buffer = _;
              at_hand = refl;
              clean = refl;
              low = omega arith;
              high = omega arith;
              filled = omega arith;
              cap_low = r.cap_low;
              cap_high = r.cap_high;
            },
            moved,
            refl,
            r.cap_low,
          ))
]
  where
    size_kept : dst % 2 ^ 16 ≡ dst
    size_kept = omega arith

    moved : contents (w.fragments ++ as_fragment r.buffer dst ∷ []) ++ [] ≡ stream w dst
    moved = rw (
      append-nil,
      contents-append w.fragments (as_fragment r.buffer dst ∷ []),
      append-nil,
      r.at_hand,
      size_kept,
    )

-- A round that finds room has not changed the stream, whether it had to rotate or not.
pub make_space-Roomy :
    (dst : ℕ) (w : Writer) → IsReady w dst → Roomy (stream w dst) w.cap (make_space dst w)
make_space-Roomy dst w r =
    rw (make_space_lem dst w r.buffer r.at_hand) (ground (arith, after_rotation-Roomy dst w r))

pub fitting_bounds :
    (src : List Byte) (space : ℕ) → (fitting src space ≤ space) × (fitting src space ≤ length src)
fitting_bounds src space = ground arith

-- A round leaves fewer bytes, where there is room and something to copy.
pub fewer :
    (fuel : ℕ) (src : List Byte) (space : ℕ)
    → length src ≤ suc fuel
    → 0 < space
    → 0 < length src
    → length (drop (fitting src space) src) ≤ fuel
fewer fuel src space h s l = ground (arith, length-drop (fitting src space) src)

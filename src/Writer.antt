-- ===== src/Writer.antt =====
-- engine/p8_tls_writer.hpp and .cpp: a thread's writer, which cuts its records into pool buffers.
-- A buffer is its header (api/p8_protocol.h, s_p8_data_buf_hdr, 16 bytes) and the bytes behind it; a
-- byte is `none` where the code leaves what stood there. Other threads share the pool and the worker
-- pulls, so the pool's answers are inputs; what is handed over or given back is kept in order.
pub mod Ready
pub mod Stream
pub mod Success
pub mod Tracked
pub mod Rollback
pub mod Sequence
pub mod Numbered
pub mod Output
use selenge_muren.Prelude.{
  ℕ, zero, suc, ◌+◌, ◌-◌, ◌/◌, ◌%◌, ◌^◌, Bool, true, false, Option, none, some, List, [], ◌∷◌, ◌++◌,
  map, ltb, leb, ◌==◌, if◌then◌else◌, length, take, drop, to_list, bit_or, bit_and,
}

abbrev pub Byte : Type 0
Byte = Option ℕ

-- A pool buffer: its address, the fields of `s_p8_data_buf_hdr`, and the bytes from offset 16 on.
pub record Buffer : Type 0 where
  pub addr : ℕ
  pub packet_type : ℕ
  pub flags : ℕ
  pub size : ℕ
  pub thread_id : ℕ
  pub writer_id : ℕ
  pub buf_seq : ℕ
  pub body : List Byte

-- What the pool answers to one acquire, and whether the worker pulls while a blocking acquire waits
-- without the writer's lock.
pub record Reply : Type 0 where
  pub answer : Option ℕ
  pub pulled : Bool

-- `mz_buf_used` is `used`, `mz_buf_max` is `cap`. `replies` are the pool's answers to come (none once
-- they are used up), `released` the buffers given back, `delivered` the ones handed to the core.
pub record Writer : Type 0 where
  pub fragments : List Buffer
  pub current : Option Buffer
  pub used : ℕ
  pub cap : ℕ
  pub thread_id : ℕ
  pub writer_id : ℕ
  pub buf_seq : ℕ
  pub dropped_logs : ℕ
  pub dropped_metrics : ℕ
  pub dropped_traces : ℕ
  pub replies : List Reply
  pub released : List ℕ
  pub delivered : List Buffer

-- The bytes of a number of the given width, lowest first, as a little-endian host stores it.
unfoldable pub le_bytes : ℕ → ℕ → List Byte
le_bytes zero n = []
le_bytes (suc width) n = some (n % 256) ∷ le_bytes width (n / 256)

-- sizeof(s_p8_data_buf_hdr)
abbrev pub header_size : ℕ
header_size = 16

-- P8_DATA_FLAG_FRAGMENT
abbrev pub fragment_flag : ℕ
fragment_flag = 1

-- A 32-bit number, one up and one down.
abbrev pub next_seq : ℕ → ℕ
next_seq n = (n + 1) % 2 ^ 32

abbrev pub prev_seq : ℕ → ℕ
prev_seq n = (n + 2 ^ 32 - 1) % 2 ^ 32

-- The buffers of a writer, in the order in which it took them.
abbrev pub pending : Writer → List Buffer
pending w = w.fragments ++ to_list w.current

-- `pull`, which the worker runs under the writer's lock.
unfoldable pub pull : Writer → Writer
pull w = elim w.current [
  | none ↦ record w { delivered = w.delivered ++ w.fragments; fragments = [] }
  | some b ↦ record w {
    delivered = (w.delivered ++ w.fragments) ++ b ∷ [];
    fragments = [];
    current = none;
    used = 0;
  }
]

-- `core_push`: the chain or the single buffer is submitted.
unfoldable pub core_push : Writer → Writer
core_push w =
    if ltb 0 (length w.fragments)
    then record w {
      delivered = w.delivered ++ (w.fragments ++ to_list w.current);
      fragments = [];
      current = none;
      used = 0;
    }
    else elim w.current [
      | some b ↦ record w { delivered = w.delivered ++ b ∷ []; current = none; used = 0 }
      | none ↦ record w { used = 0 }
    ]

-- s_p8_drop_stats, without `mu_svc`, which a writer always leaves at 0.
pub record DropStats : Type 0 where
  pub logs : ℕ
  pub metrics : ℕ
  pub traces : ℕ

unfoldable pub pull_dropped : Writer → DropStats × Writer
pull_dropped w = (
  record { logs = w.dropped_logs; metrics = w.dropped_metrics; traces = w.dropped_traces },
  record w { dropped_logs = 0; dropped_metrics = 0; dropped_traces = 0 },
)

-- `acquire_buffer(false)`: the lock is held, so nobody pulls.
unfoldable pub acquire : Writer → Option ℕ × Writer
acquire w = elim w.replies [ [] ↦ (none, w) | r ∷ rest ↦ (r.answer, record w { replies = rest }) ]

-- The unlocked `acquire_buffer(true)` of the record writers.
unfoldable pub acquire_wait : Writer → Option ℕ × Writer
unfolding pull
acquire_wait w = elim w.replies [
  | [] ↦ (none, w)
  | r ∷ rest ↦ (
    r.answer,
    if r.pulled then pull (record w { replies = rest }) else record w { replies = rest },
  )
]

-- `release_buffer`
unfoldable pub release : ℕ → Writer → Writer
release addr w = record w { released = w.released ++ addr ∷ [] }

-- The lines that start a buffer: its header, its number, and `mz_buf_used`.
unfoldable pub start_buffer : ℕ → ℕ → Writer → Writer
start_buffer addr packet_type w = record w {
  current = some (record {
    addr = addr;
    packet_type = packet_type;
    flags = 0;
    size = header_size;
    thread_id = w.thread_id;
    writer_id = w.writer_id;
    buf_seq = w.buf_seq;
    body = [];
  });
  buf_seq = next_seq w.buf_seq;
  used = header_size;
}

-- `rotate_fragment_buffer`, for a writer with a buffer; its first line reads the packet type there.
unfoldable pub rotate_from : Buffer → Writer → Bool × Writer
unfolding acquire start_buffer
rotate_from b w =
    let parked : Writer = record w {
      fragments =
          w.fragments
          ++ record b { flags = bit_or b.flags fragment_flag; size = w.used % 2 ^ 16 } ∷ [];
      current = none;
    } in
    let (answer, v) = acquire parked in
    elim answer [ none ↦ (false, v) | some addr ↦ (true, start_buffer addr b.packet_type v) ]

-- A buffer without room is parked: `mo_fragments.push_last(mp_buffer); mp_buffer = nullptr`.
unfoldable pub park : Writer → Writer
park w = elim w.current [
  | none ↦ w
  | some b ↦ record w { fragments = w.fragments ++ b ∷ []; current = none }
]

-- The lines by which the three record writers get a buffer when they have none: the blocking acquire
-- with the lock released, then the header. False on shutdown only.
unfoldable pub open_buffer : ℕ → Writer → Bool × Writer
unfolding acquire_wait start_buffer
open_buffer packet_type w =
    let (answer, v) = acquire_wait w in
    elim answer [ none ↦ (false, v) | some addr ↦ (true, start_buffer addr packet_type v) ]

-- The end of a record: `mz_buf_used` is the write offset, and so is the size in the buffer's header.
unfoldable pub commit_size : ℕ → Writer → Writer
commit_size dst w = elim w.current [
  | none ↦ record w { used = dst }
  | some b ↦ record w { used = dst; current = some (record b { size = dst % 2 ^ 16 }) }
]

-- `memcpy` to offset `dst` of a buffer. What stood behind it is no longer known.
unfoldable pub put : Buffer → ℕ → List Byte → Buffer
put b dst bytes = record b { body = take (dst - header_size) b.body ++ bytes }

unfoldable pub put_current : Writer → ℕ → List Byte → Writer
unfolding put
put_current w dst bytes = elim w.current [
  | none ↦ w
  | some b ↦ record w { current = some (put b dst bytes) }
]

-- How a copy ends: the write offset and the bytes written so far, or no buffer to go on in.
pub data Copied : Type 0 where
  done : ℕ → ℕ → Writer → Copied
  failed : Writer → Copied
  no_fuel : Copied

-- One round of `copy_fragmented` has room: it copies as much as fits.
abbrev pub fitting : List Byte → ℕ → ℕ
fitting src space = if ltb (length src) space then length src else space

-- The test at the head of a round: `cap - dst` is `io_buf_end - io_dst`, as `io_buf_end` is always
-- `mp_buffer + mz_buf_max`. A full buffer is rotated.
pub data Space : Type 0 where
  room : ℕ → Writer → Space
  no_room : Writer → Space

unfoldable pub make_space : ℕ → Writer → Space
unfolding rotate_from
make_space dst w =
    if w.cap - dst == 0
    then elim w.current [
      | none ↦ no_room w
      | some b ↦
          let (rotated, v) = rotate_from b (record w { used = dst }) in
          if rotated then room v.used v else no_room v
    ]
    else room dst w

-- The loop of `copy_fragmented`. Each round copies a byte at least where `cap` exceeds the header, so
-- as many rounds as there are bytes are enough.
unfoldable pub copy_loop : ℕ → List Byte → ℕ → ℕ → Writer → Copied
copy_loop fuel [] dst written w = done dst written w
copy_loop zero (x ∷ src) dst written w = no_fuel
copy_loop (suc fuel) (x ∷ src) dst written w = elim (make_space dst w) [
  | no_room v ↦ failed v
  | room d v ↦
      let n = fitting (x ∷ src) (v.cap - d) in
      copy_loop fuel (drop n (x ∷ src)) (d + n) (written + n) (put_current v d (take n (x ∷ src)))
]

unfoldable pub copy_fragmented : List Byte → ℕ → ℕ → Writer → Copied
unfolding copy_loop
copy_fragmented src dst written w = copy_loop (length src) src dst written w

-- P8_WRITE_PIECE
unfoldable pub write_piece : List Byte → ℕ → ℕ → Writer → Copied
write_piece src dst written w =
    if leb (dst + length src) w.cap
    then done (dst + length src) (written + length src) (put_current w dst src)
    else copy_fragmented src dst written w

-- The loop at `lbl_discard` of `cp8_log::send` and `cp8_trc::write_begin`, over the buffers behind the
-- one in which the record began, the last one first.
unfoldable pub release_last : List Buffer → Writer → Writer
unfolding release
release_last [] w = w
release_last (b ∷ rest) w =
    let v = release_last rest w in record (release b.addr v) { buf_seq = prev_seq v.buf_seq }

-- The rest of `lbl_discard`, where `b` is what `pull_last` takes off the list: cut the buffer at
-- `start`, or give it back when the record was its first.
unfoldable pub cut_back : ℕ → Buffer → Writer → Writer
unfolding release
cut_back start b w =
    if start == header_size
    then record (release b.addr w) { current = none; used = 0; buf_seq = prev_seq w.buf_seq }
    else record w {
      current = some (record b { flags = bit_and b.flags 0xfe; size = start % 2 ^ 16 });
      used = start;
    }

-- `lbl_discard` without the drop counter: `commit` is `lz_frag_commit`, `start` is `lp_hdr - mp_buffer`.
unfoldable pub discard : ℕ → ℕ → Writer → Writer
unfolding release_last cut_back
discard commit start w =
    let kept : Writer = record w { fragments = take commit w.fragments } in
    elim (drop commit w.fragments) [
      | [] ↦ kept
      | b ∷ extra ↦ cut_back start b (release_last extra kept)
    ]

-- ===== src/Metric.antt =====
-- engine/p8_mtk.cpp: `cp8_mtk::emit`, which puts one sample into a thread's stream. The registry's
-- count and the clock are arguments; a metric id and a double are their bit patterns.
pub mod Emit
use selenge_muren.Prelude.{
  ℕ, ◌+◌, ◌%◌, ◌^◌, Bool, true, false, not, ◌||◌, Option, none, some, List, [], ◌∷◌, ◌++◌, ltb, leb,
  if◌then◌else◌, sub_size, is_some,
}
use selenge_muren.Writer.{Byte, Writer, le_bytes, park, open_buffer, put_current, commit_size}

-- sizeof(s_p8_mtk_item_dat)
abbrev pub sample_size : ℕ
sample_size = 24

-- P8_PACKET_METRICS
abbrev pub packet_metrics : ℕ
packet_metrics = 3

-- s_p8_mtk_item_dat as it lies in the buffer.
unfoldable pub sample_bytes : (timestamp value id : ℕ) → List Byte
unfolding le_bytes
sample_bytes timestamp value id =
    le_bytes 8 timestamp
    ++ (le_bytes 8 value
        ++ (le_bytes 4 id ++ (le_bytes 2 sample_size ++ (le_bytes 1 0 ++ le_bytes 1 0))))

-- `ih_id < 0 || ih_id >= get_mtk_count()`, of a 32-bit id.
unfoldable pub is_unknown : (count id : ℕ) → Bool
is_unknown count id = leb (2 ^ 31) id || leb count id

-- A buffer without room for a sample is parked; `mz_buf_used` stays as it is.
unfoldable pub park_full : Writer → Writer
unfolding park
park_full w = if ltb (sub_size w.cap w.used) sample_size then park w else w

-- Behind the lock: write the sample into the buffer at hand, and park the buffer if it is then full.
unfoldable pub write_sample : (timestamp value id : ℕ) → Writer → Writer
unfolding put_current commit_size park
write_sample timestamp value id w =
    let v =
      commit_size (w.used + sample_size) (put_current w w.used (sample_bytes timestamp value id)) in
    if ltb (sub_size v.cap v.used) sample_size then record (park v) { used = 0 } else v

unfoldable pub emit : (has_core : Bool) (count timestamp value id : ℕ) → Writer → Bool × Writer
unfolding is_unknown park_full open_buffer write_sample
emit has_core count timestamp value id w =
    if not has_core || is_unknown count id
    then (false, w)
    else let v = park_full w in
      let (opened, u) = if is_some v.current then (true, v) else open_buffer packet_metrics v in
      if opened
      then (true, write_sample timestamp value id u)
      else (false, record u { dropped_metrics = (u.dropped_metrics + 1) % 2 ^ 64 })

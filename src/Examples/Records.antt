-- ===== src/Examples/Records.antt =====
-- The writers: runs, and their theorems at inputs that meet the hypotheses.
use selenge_muren.Prelude.{
  ℕ, ◌+◌, replicate, ◌≡◌, refl, true, false, none, some, [], ◌∷◌, ◌++◌, arith, if◌then◌else◌,
}
use selenge_muren.Writer.{Buffer, Writer, done, copy_fragmented}
use selenge_muren.Writer.Success.{copy_fragmented-done}
use selenge_muren.Writer.Ready.{stream, IsReady}
use selenge_muren.Writer.Sequence.{IsSequenced}
use selenge_muren.Writer.Output.{IsHealthy, output}
use selenge_muren.Metric.{sample_bytes, emit}
use selenge_muren.Metric.Emit.{emit_lem}

-- A writer of 64-byte buffers, for which the pool has one buffer at hand.
abbrev pub idle : Writer
idle = record {
  fragments = [];
  current = none;
  used = 0;
  cap = 64;
  thread_id = 5;
  writer_id = 1;
  buf_seq = 0;
  dropped_logs = 0;
  dropped_metrics = 0;
  dropped_traces = 0;
  replies = record { answer = some 32; pulled = false } ∷ [];
  released = [];
  delivered = [];
}

abbrev pub first_buffer : Buffer
first_buffer = record {
  addr = 16;
  packet_type = 1;
  flags = 0;
  size = 16;
  thread_id = 5;
  writer_id = 1;
  buf_seq = 0;
  body = [];
}

-- It has taken its first buffer.
abbrev pub opened : Writer
opened = record idle { current = some first_buffer; used = 16; buf_seq = 1 }

-- A full buffer, so that the first byte needs the next one.
abbrev full_buffer : Buffer
full_buffer = record first_buffer { body = replicate 48 none; size = 64 }

abbrev full : Writer
full = record opened { current = some full_buffer; used = 64 }

full-IsReady : IsReady full 64
full-IsReady = record {
  buffer = full_buffer;
  at_hand = refl;
  clean = refl;
  low = omega arith;
  high = omega arith;
  filled = omega arith;
  cap_low = omega arith;
  cap_high = omega arith;
}

copy_fragmented-done_example :
    (d : ℕ) × (n : ℕ) × (v : Writer) × (copy_fragmented (some 9 ∷ []) 64 0 full ≡ done d n v)
    × (stream v d ≡ stream full 64 ++ some 9 ∷ [])
    × (n ≡ 0 + 1)
copy_fragmented-done_example =
    copy_fragmented-done (some 9 ∷ []) 64 0 full full-IsReady ((32, refl), tt)

idle-IsHealthy : IsHealthy idle
idle-IsHealthy = record { tail = tt; cap_low = omega arith; cap_high = omega arith }

idle-IsSequenced : IsSequenced idle
idle-IsSequenced = record { total = 0; numbers = refl; next = refl }

emit_lem_example :
    IsHealthy (emit true 3 1000 42 2 idle).1
    × (output (emit true 3 1000 42 2 idle).1
        ≡ output idle ++ (if (emit true 3 1000 42 2 idle).0 then sample_bytes 1000 42 2 else []))
emit_lem_example = emit_lem true 3 1000 42 2 idle idle-IsHealthy

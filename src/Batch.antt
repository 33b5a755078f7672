-- ===== src/Batch.antt =====
-- engine/p8_core.cpp: `flush_ready`, with which the worker makes a batch of the buffers that it has
-- collected. The sink gets the batch and its buffers, and these are then recycled.
pub mod Numbered
use selenge_muren.Prelude.{
  ℕ, ◌+◌, ◌%◌, ◌^◌, Bool, ◌&&◌, Option, none, some, List, [], ◌∷◌, ◌++◌, ltb, ◌==◌, if◌then◌else◌,
  length, sub_size, to_list,
}

-- s_p8_batch and the buffers that are written with it.
pub record Batch : Type 0 where
  pub number : ℕ
  pub count : ℕ
  pub timestamp : ℕ
  pub buffers : List ℕ

-- `mu_batch_index`, `mu_batch_last_ts`, `mb_batch_with_data` and the two intervals.
pub record Batcher : Type 0 where
  pub index : ℕ
  pub last_ts : ℕ
  pub with_data : Bool
  pub tail_ticks : ℕ
  pub idle_ticks : ℕ

unfoldable pub flush_ready : List ℕ → ℕ → Batcher → Option Batch × Batcher
flush_ready ready ts b =
    if length ready == 0
      && ltb (sub_size ts b.last_ts) (if b.with_data then b.tail_ticks else b.idle_ticks)
    then (none, b)
    else (
      some (record {
        number = b.index;
        count = length ready % 2 ^ 32;
        timestamp = ts;
        buffers = ready;
      }),
      record b {
        index = (b.index + 1) % 2 ^ 16;
        last_ts = ts;
        with_data = ltb 0 (length ready % 2 ^ 32);
      },
    )

-- The batches of a series of calls, each with its buffers and its time.
unfoldable pub flush_all : List (List ℕ × ℕ) → Batcher → List Batch
flush_all [] b = []
flush_all ((ready, ts) ∷ calls) b =
    let (batch, c) = flush_ready ready ts b in to_list batch ++ flush_all calls c

-- ===== src/Worker.antt =====
-- engine/p8_core.cpp: a round of `worker_main`, which takes what the threads have left, gives it to the
-- sink, and gives the buffers back to the pool. The clock is an argument; the other threads run before
-- the round and between its two collections, where their steps are arguments too.
pub mod Delivered
use selenge_muren.Prelude.{
  ℕ, ◌&&◌, Option, none, some, List, [], ◌∷◌, ◌++◌, Bool, true, false, ltb, leb, if◌then◌else◌,
  sub_size,
}
use selenge_muren.Pool
use selenge_muren.Writer.{Buffer}
use selenge_muren.Service.{SvcBuffer, Service}
use selenge_muren.Batch.{Batch, Batcher, flush_ready}
use selenge_muren.Drain.{Core, release_buffer, release_buffers, collect_batch, poll_dropped_stats}

-- What the worker shares with the other threads.
pub record Shared : Type 0 where
  pub core : Core
  pub service : Service
  pub pool : Pool.Pool

-- What only the worker has: the batch that it collects, and the cadence of the drop counters.
pub record Worker : Type 0 where
  pub margin : ℕ
  pub ready : List Buffer
  pub batcher : Batcher
  pub poll_ticks : ℕ
  pub last_ticks : ℕ

-- What a round gets: what the other threads do while the worker waits, the two readings of the clock,
-- and what they do between the collection and the service buffers.
pub record Round : Type 0 where
  pub before : Shared → Shared
  pub now : ℕ
  pub ticks : ℕ
  pub meanwhile : Shared → Shared

-- The calls that the sink gets.
pub data Call : Type 0 where
  write_service : List SvcBuffer → Call
  write_data : Batch → Call
  flush : Call

-- The sink gets the service buffers only when there are some.
abbrev pub service_calls : List SvcBuffer → List Call
service_calls [] = []
service_calls (b ∷ bs) = write_service (b ∷ bs) ∷ []

-- `lo_bufs.clear`, which gives every service buffer back.
unfoldable pub release_service : List SvcBuffer → Core → Pool.Pool → Core × Pool.Pool
unfolding release_buffer
release_service [] c p = (c, p)
release_service (b ∷ bs) c p =
    let (d, q) = release_buffer (some b.addr) c p in release_service bs d q

-- The poll of the drop counters, at its cadence.
unfoldable pub poll_at : ℕ → Worker → Core → Worker × Core
unfolding poll_dropped_stats
poll_at ticks w c =
    if ltb 0 w.poll_ticks && leb w.poll_ticks (sub_size ticks w.last_ticks)
    then (record w { last_ticks = ticks }, poll_dropped_stats c)
    else (w, c)

abbrev pub buffer_addrs : List Buffer → List ℕ
buffer_addrs [] = []
buffer_addrs (b ∷ bs) = b.addr ∷ buffer_addrs bs

-- `flush_ready` with its effects: the batch that the sink gets, and its buffers given back.
unfoldable pub flush_batch : ℕ → Worker → Core → Pool.Pool → List Call × Worker × Core × Pool.Pool
unfolding flush_ready release_buffers
flush_batch ts w c p =
    let (batch, b) = flush_ready (buffer_addrs w.ready) ts w.batcher in
    elim batch [
      | none ↦ ([], record w { batcher = b }, c, p)
      | some x ↦
          let left : List Buffer = if c.initialized then [] else w.ready in
          let (d, q) = release_buffers w.ready c p in
          (write_data x ∷ [], record w { batcher = b; ready = left }, d, q)
    ]

-- A round of the loop.
unfoldable pub worker_round : Round → Worker → Shared → List Call × Worker × Shared
unfolding collect_batch release_service poll_at flush_batch
worker_round i w s0 =
    let s = i.before s0 in
    let (ts, ready, c) = collect_batch w.margin i.now w.ready s.core in
    let t = i.meanwhile (record s { core = c }) in
    let bufs = t.service.buffers in
    let (d, p) = release_service bufs t.core t.pool in
    let (v, e) = poll_at i.ticks w d in
    let (calls, u, f, q) =
      flush_batch ts (record v { ready = ready }) (record e { wake_pending = false }) p in
    (
      service_calls bufs ++ (calls ++ flush ∷ []),
      u,
      record { core = f; service = record t.service { buffers = [] }; pool = q },
    )

-- The loop: a round for each wake, the last one for the stop.
unfoldable pub worker_main : List Round → Worker → Shared → List Call × Worker × Shared
unfolding worker_round
worker_main [] w s = ([], w, s)
worker_main (i ∷ rounds) w s =
    let (calls, v, t) = worker_round i w s in
    let rest = worker_main rounds v t in (calls ++ rest.0, rest.1, rest.2)

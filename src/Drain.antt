-- ===== src/Drain.antt =====
-- engine/p8_core.cpp: how buffers go between the writers, the core and the pool. Each call under a mutex is
-- one step; the data pool is the pool of `Pool`, and the writers stand in the order of their list.
pub mod Collected
pub mod Drops
pub mod Ended
use selenge_muren.Prelude.{
  ℕ, ◌+◌, ◌-◌, ◌*◌, ◌/◌, ◌%◌, ◌^◌, Bool, true, false, not, ◌&&◌, Option, none, some, List, [], ◌∷◌,
  ◌++◌, ltb, ◌==◌, if◌then◌else◌, length,
}
use selenge_muren.Pool
use selenge_muren.Pool.{Acquired, returned, acquire_no_lock, stat, recycle, recycle_all}
use selenge_muren.Writer.{Writer, Buffer, DropStats, pending, pull, pull_dropped}

-- The parts of cp8_core that the buffers go through: `mp_writers_head` as the list of the writers,
-- `mo_ready_queue`, the totals of the drop counters, and how often the worker was woken.
pub record Core : Type 0 where
  pub initialized : Bool
  pub writers : List Writer
  pub writers_seq : ℕ
  pub ready : List Buffer
  pub dropped : DropStats
  pub wake_pending : Bool
  pub wakes : ℕ
  pub outstanding : ℕ

-- `register_writer`: the newest writer comes first, with the next id.
unfoldable pub register_writer : Writer → Core → Core
register_writer w c =
    let id = (c.writers_seq + 1) % 2 ^ 32 in
    record c { writers_seq = id; writers = record w { writer_id = id } ∷ c.writers }

-- `unregister_writer`; a writer is told by its id, which no other one has.
abbrev pub unlink : ℕ → List Writer → List Writer
unlink id [] = []
unlink id (w ∷ ws) = if w.writer_id == id then ws else w ∷ unlink id ws

unfoldable pub unregister_writer : ℕ → Core → Core
unregister_writer id c = record c { writers = unlink id c.writers }

-- `notify`, and `notify_pressure`, which does not wake a worker that has been woken for it before.
abbrev pub notify : Core → Core
notify c = record c { wakes = c.wakes + 1 }

unfoldable pub notify_pressure : Core → Core
notify_pressure c = if c.wake_pending then c else notify (record c { wake_pending = true })

-- `ls_stat.mz_free_size * 100 / ls_stat.mz_max_size < P8_CORE_FREE_MEM_PERCENT`
unfoldable pub is_pressed : Pool.Pool → Bool
unfolding stat
is_pressed p =
    let s = stat p in ltb 0 s.max_size && ltb (s.free_size * 100 % 2 ^ 64 / s.max_size) 75

-- `acquire_buffer`, for a thread; the two memories are what `new` gives to the two tries.
unfoldable pub acquire_buffer :
    (wait : Bool) (thread : ℕ)
    → Option ℕ
    → Option ℕ
    → Core
    → Pool.Pool
    → Acquired × Core × Pool.Pool
unfolding acquire_no_lock Pool.acquire_wait notify_pressure is_pressed
acquire_buffer wait thread memory memory_later c p =
    if not c.initialized
    then (returned none, c, p)
    else let (buffer, q) = acquire_no_lock memory p in
      elim buffer [
        | some b ↦ (returned (some b), if is_pressed q then notify_pressure c else c, q)
        | none ↦
            if wait
            then (let (answer, r) = Pool.acquire_wait thread memory_later q in
                (answer, notify_pressure c, r))
            else (returned none, c, q)
      ]

-- `release_buffer`, which also counts down `mu_outstanding_buffers`; the shard to notify is left out.
unfoldable pub release_buffer : Option ℕ → Core → Pool.Pool → Core × Pool.Pool
unfolding recycle
release_buffer none c p = (c, p)
release_buffer (some b) c p =
    if c.initialized
    then (record c { outstanding = (c.outstanding + 2 ^ 64 - 1) % 2 ^ 64 }, (recycle (some b) p).1)
    else (c, p)

abbrev pub addresses : List Buffer → List (Option ℕ)
addresses [] = []
addresses (b ∷ bs) = some b.addr ∷ addresses bs

unfoldable pub release_buffers : List Buffer → Core → Pool.Pool → Core × Pool.Pool
unfolding recycle_all
release_buffers [] c p = (c, p)
release_buffers (b ∷ bs) c p =
    if c.initialized
    then (
      record c { outstanding = (c.outstanding + 2 ^ 64 - length (b ∷ bs) % 2 ^ 64) % 2 ^ 64 },
      recycle_all (addresses (b ∷ bs)) p,
    )
    else (c, p)

-- `submit_buffer`; `none` is a null pointer.
unfoldable pub submit_buffer : Option Buffer → Core → Core
submit_buffer none c = c
submit_buffer (some b) c =
    if c.initialized then notify (record c { ready = c.ready ++ b ∷ [] }) else c

unfoldable pub submit_chain : List Buffer → Core → Core
submit_chain [] c = c
submit_chain (b ∷ bs) c =
    if c.initialized then notify (record c { ready = c.ready ++ b ∷ bs }) else c

-- The loop of `drain_writers`: what the writers gave, and the writers behind it.
unfoldable pub pull_all : List Writer → List Buffer × List Writer
unfolding pull
pull_all [] = ([], [])
pull_all (w ∷ ws) = let rest = pull_all ws in (pending w ++ rest.0, pull w ∷ rest.1)

unfoldable pub drain_writers : List Buffer → Core → List Buffer × Core
unfolding pull_all
drain_writers io_data c =
    if c.initialized
    then (io_data ++ (pull_all c.writers).0, record c { writers = (pull_all c.writers).1 })
    else (io_data, c)

-- `collect_batch`: the batch's time, the buffers, and the core.
unfoldable pub collect_batch : (margin now : ℕ) → List Buffer → Core → ℕ × List Buffer × Core
unfolding drain_writers
collect_batch margin now io_data c =
    let (drained, d) = drain_writers io_data c in
    (if ltb margin now then now - margin else 0, drained ++ d.ready, record d { ready = [] })

-- The sums are 64-bit numbers.
abbrev pub add_stats : DropStats → DropStats → DropStats
add_stats a b = record {
  logs = (a.logs + b.logs) % 2 ^ 64;
  metrics = (a.metrics + b.metrics) % 2 ^ 64;
  traces = (a.traces + b.traces) % 2 ^ 64;
}

-- The loop of `poll_dropped_stats`: the sum so far, and the writers behind it.
unfoldable pub poll_all : DropStats → List Writer → DropStats × List Writer
unfolding pull_dropped
poll_all sum [] = (sum, [])
poll_all sum (w ∷ ws) =
    let (stats, v) = pull_dropped w in
    let rest = poll_all (add_stats sum stats) ws in (rest.0, v ∷ rest.1)

-- `accumulate_dropped`
unfoldable pub accumulate_dropped : DropStats → Core → Core
accumulate_dropped stats c = record c { dropped = add_stats c.dropped stats }

unfoldable pub poll_dropped_stats : Core → Core
unfolding poll_all accumulate_dropped
poll_dropped_stats c =
    let (sum, writers) = poll_all (record { logs = 0; metrics = 0; traces = 0 }) c.writers in
    accumulate_dropped sum (record c { writers = writers })

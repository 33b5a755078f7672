-- ===== src/Drain/Drops.antt =====
-- No drop is lost or counted twice when the worker polls the counters.
use selenge_muren.Prelude.{ℕ, ◌+◌, ◌%◌, ◌^◌, ◌≡◌, refl, List, [], ◌∷◌, arith}
use selenge_muren.Writer.{Writer, DropStats, pull_dropped}
use selenge_muren.Drain.{Core, add_stats, poll_all, accumulate_dropped, poll_dropped_stats}

-- The drops that the writers have counted and nobody has polled.
abbrev pub logs_of : List Writer → ℕ
logs_of [] = 0
logs_of (w ∷ ws) = w.dropped_logs + logs_of ws

abbrev pub metrics_of : List Writer → ℕ
metrics_of [] = 0
metrics_of (w ∷ ws) = w.dropped_metrics + metrics_of ws

abbrev pub traces_of : List Writer → ℕ
traces_of [] = 0
traces_of (w ∷ ws) = w.dropped_traces + traces_of ws

record Polls (sum : DropStats) (ws : List Writer) (r : DropStats × List Writer) : Type 0 where
  logs : r.0.logs % 2 ^ 64 ≡ (sum.logs + logs_of ws) % 2 ^ 64
  metrics : r.0.metrics % 2 ^ 64 ≡ (sum.metrics + metrics_of ws) % 2 ^ 64
  traces : r.0.traces % 2 ^ 64 ≡ (sum.traces + traces_of ws) % 2 ^ 64
  no_logs : logs_of r.1 ≡ 0
  no_metrics : metrics_of r.1 ≡ 0
  no_traces : traces_of r.1 ≡ 0

poll_all-Polls : (sum : DropStats) (ws : List Writer) → Polls sum ws (poll_all sum ws)
unfolding poll_all pull_dropped
poll_all-Polls sum [] = record {
  logs = omega arith;
  metrics = omega arith;
  traces = omega arith;
  no_logs = refl;
  no_metrics = refl;
  no_traces = refl;
}
poll_all-Polls sum (w ∷ ws) =
    let stats = (pull_dropped w).0 in
    let p = poll_all-Polls (add_stats sum stats) ws in
    record {
      logs = omega (arith, p.logs);
      metrics = omega (arith, p.metrics);
      traces = omega (arith, p.traces);
      no_logs = omega (arith, p.no_logs);
      no_metrics = omega (arith, p.no_metrics);
      no_traces = omega (arith, p.no_traces);
    }

-- Whatever the writers have counted, `poll_dropped_stats` moves it into the totals of the core: of logs,
-- metrics and traces, the total and the writers' counters have the same sum as before, on 64 bits, and
-- the counters of the writers are at 0.
pub poll_dropped_stats_lem :
    (c : Core)
    → let d = poll_dropped_stats c in
      (d.dropped.logs % 2 ^ 64 ≡ (c.dropped.logs + logs_of c.writers) % 2 ^ 64)
      × (d.dropped.metrics % 2 ^ 64 ≡ (c.dropped.metrics + metrics_of c.writers) % 2 ^ 64)
      × (d.dropped.traces % 2 ^ 64 ≡ (c.dropped.traces + traces_of c.writers) % 2 ^ 64)
      × (logs_of d.writers ≡ 0)
      × (metrics_of d.writers ≡ 0)
      × (traces_of d.writers ≡ 0)
unfolding poll_dropped_stats accumulate_dropped
poll_dropped_stats_lem c =
    let p = poll_all-Polls (record { logs = 0; metrics = 0; traces = 0 }) c.writers in
    (
      omega (arith, p.logs),
      omega (arith, p.metrics),
      omega (arith, p.traces),
      p.no_logs,
      p.no_metrics,
      p.no_traces,
    )

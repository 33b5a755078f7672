-- ===== src/Examples/Core.antt =====
-- The core: its theorems at inputs that meet the hypotheses.
use selenge_muren.Prelude.{
  ℕ, ◌+◌, ◌%◌, ◌^◌, ◌≡◌, ◌≤◌, refl, Bool, true, false, none, some, [], ◌∷◌, ◌++◌, ◌==◌,
}
use selenge_muren.Service.{Service}
use selenge_muren.Writer.{pending}
use selenge_muren.Drain.{Core, collect_batch, poll_dropped_stats}
use selenge_muren.Drain.Collected.{held, collect_batch_lem}
use selenge_muren.Drain.Drops.{logs_of, metrics_of, traces_of, poll_dropped_stats_lem}
use selenge_muren.Drain.Ended.{destroy_writer, destroy_writer_lem}
use selenge_muren.Metrics.{MetricBase, MetricRegistry, metric_id, Allocations, mtk_named}
use selenge_muren.Metrics.Again.{mtk_named-again}
use selenge_muren.Examples.Records.{idle, opened, first_buffer}

-- Two writers, one of which has dropped three logs, and a buffer that was submitted.
abbrev pub core : Core
core = record {
  initialized = true;
  writers = opened ∷ record idle { dropped_logs = 3 } ∷ [];
  writers_seq = 2;
  ready = record first_buffer { addr = 32 } ∷ [];
  dropped = record { logs = 1; metrics = 0; traces = 0 };
  wake_pending = false;
  wakes = 0;
  outstanding = 0;
}

collect_batch_lem_example :
    let (time, batch, d) = collect_batch 10 1000 [] core in
    (time ≤ 1000)
    × (batch ≡ held core.writers ++ core.ready)
    × (held d.writers ≡ [])
    × (d.ready ≡ [])
collect_batch_lem_example = collect_batch_lem 10 1000 [] core refl

poll_dropped_stats_lem_example :
    let d = poll_dropped_stats core in
    (d.dropped.logs % 2 ^ 64 ≡ (1 + logs_of core.writers) % 2 ^ 64)
    × (d.dropped.metrics % 2 ^ 64 ≡ (0 + metrics_of core.writers) % 2 ^ 64)
    × (d.dropped.traces % 2 ^ 64 ≡ (0 + traces_of core.writers) % 2 ^ 64)
    × (logs_of d.writers ≡ 0)
    × (metrics_of d.writers ≡ 0)
    × (traces_of d.writers ≡ 0)
poll_dropped_stats_lem_example = poll_dropped_stats_lem core

-- The first of the two writers ends.
destroy_writer_lem_example :
    let d = destroy_writer opened.writer_id core in
    (d.writers ≡ record idle { dropped_logs = 3 } ∷ [])
    × (d.ready ≡ core.ready ++ pending opened)
    × ((d.dropped.logs + logs_of d.writers) % 2 ^ 64 ≡ (1 + logs_of core.writers) % 2 ^ 64)
    × ((d.dropped.metrics + metrics_of d.writers) % 2 ^ 64 ≡ (0 + metrics_of core.writers) % 2 ^ 64)
    × ((d.dropped.traces + traces_of d.writers) % 2 ^ 64 ≡ (0 + traces_of core.writers) % 2 ^ 64)
destroy_writer_lem_example =
    destroy_writer_lem opened.writer_id [] (record idle { dropped_logs = 3 } ∷ []) opened core refl
      refl tt refl

abbrev pub same_double : ℕ → ℕ → Bool
same_double a b = a == b

abbrev pub all_given : Allocations
all_given = record { name_made = true; descr_made = true; unit_made = true; desc_made = true }

abbrev pub load : MetricBase
load = record {
  name = some (99 ∷ []);
  description = none;
  unit = some (37 ∷ []);
  on = true;
  min_bits = 0;
  max_bits = 100;
  attrs = [];
}

abbrev pub no_metrics : MetricRegistry
no_metrics = record { initialized = true; descs = []; name_map = []; mtk_count = 0 }

abbrev pub no_service : Service
no_service = record { capacity = 4096; buffers = []; replies = []; dropped = 0 }

registered :
    (mtk_named same_double all_given [] (99 ∷ []) load no_metrics no_service).0 ≡ metric_id 0
unfolding mtk_named
registered = refl

mtk_named-again_example :
    let (result, after, t) =
      mtk_named same_double all_given [] (99 ∷ []) load no_metrics no_service in
    mtk_named same_double all_given [] (99 ∷ []) load after t ≡ (result, after, t)
mtk_named-again_example =
    mtk_named-again same_double all_given all_given [] [] (99 ∷ []) load no_metrics no_service 0
      refl refl registered

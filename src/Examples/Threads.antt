-- ===== src/Examples/Threads.antt =====
-- A thread that logs, traces and samples, with pulls of the worker between its calls.
use selenge_muren.Prelude.{true, false, none, some, List, [], ◌∷◌}
use selenge_muren.Thread.{
  Context, Tls, Op, log_sent, trc_begin, trc_end, mtk_emit, worker_pulls, run,
}
use selenge_muren.Thread.Journal.{journal, entries, IsSound}
use selenge_muren.Thread.Refines.{ServesRun, run_refines}
use selenge_muren.Thread.Numbered.{AreNumbered, ReturnsNumbered, run-ReturnsNumbered}
use selenge_muren.Examples.Spans.{attrs, site}
use selenge_muren.Examples.Logs.{call}

abbrev context : Context
context = record {
  has_core = true;
  thread_id = 5;
  log_id = 1;
  trace_id = 2;
  metric_id = 3;
  log_replies = record { answer = some 8; pulled = false } ∷ [];
  trace_replies = record { answer = some 16; pulled = true } ∷ [];
  metric_replies = [];
}

abbrev no_writers : Tls
no_writers = record { log = none; trace = none; metric = none }

abbrev ops : List Op
ops = trc_begin site attrs ∷ log_sent call ∷ worker_pulls ∷ mtk_emit 1 9 0 0 ∷ trc_end 1001 1 ∷ []

no_writers-IsSound : IsSound no_writers
no_writers-IsSound = record { log_ready = tt; trace_ready = tt; metric_ready = tt }

run_refines_example :
    ServesRun (journal no_writers) (entries context ops no_writers) (run context ops no_writers)
run_refines_example = run_refines context ops no_writers no_writers-IsSound

no_writers-AreNumbered : AreNumbered no_writers
no_writers-AreNumbered = record { logs = tt; traces = tt; metrics = tt }

run-ReturnsNumbered_example : ReturnsNumbered (run context ops no_writers)
run-ReturnsNumbered_example =
    run-ReturnsNumbered context ops no_writers no_writers-IsSound no_writers-AreNumbered

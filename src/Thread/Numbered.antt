-- ===== src/Thread/Numbered.antt =====
-- A thread keeps the numbering of the buffers of its three writers.
use selenge_muren.Prelude.{
  ℕ, ◌==◌, inl, inr, refl, Bool, Option, none, some, List, [], ◌∷◌, Bool-cases, Option-cases,
}
use selenge_muren.Writer.{Writer, Reply}
use selenge_muren.Writer.Sequence.{IsSequenced, pull-IsSequenced}
use selenge_muren.Log.{Log, send}
use selenge_muren.Log.Numbered.{NumberedLog, send-IsSequenced}
use selenge_muren.Trace.{Trace, begin, begin_async, invalid_span, item_begin_async}
use selenge_muren.Trace.Numbered.{
  NumberedTrace, write_begin-IsSequenced, begin-IsSequenced, end-IsSequenced,
}
use selenge_muren.Metric.Emit.{emit-IsSequenced}
use selenge_muren.Thread.Journal.{Journal, Entry, journal, entries, IsSound}
use selenge_muren.Thread.Refines.{ServesRun, run_refines}
use selenge_muren.Thread.{
  Context, Tls, create_writer, get_tls_log, get_tls_trc, get_tls_mtk, Answer, Op, log_sent,
  trc_begin, trc_begin_async, trc_end, mtk_emit, worker_pulls, step, run, p8_log_sent, p8_trc_begin,
  p8_trc_begin_async, p8_trc_end, p8_mtk_emit, pull_writers,
}

abbrev LogNumbered : Option (Bool × Log) → Type 0
LogNumbered none = Unit
LogNumbered (some (core, l)) = IsSequenced l.writer

abbrev TraceNumbered : Option (Bool × Trace) → Type 0
TraceNumbered none = Unit
TraceNumbered (some (core, r)) = IsSequenced r.writer

abbrev MetricNumbered : Option (Bool × Writer) → Type 0
MetricNumbered none = Unit
MetricNumbered (some (core, w)) = IsSequenced w

-- The buffers of each writer of a thread are numbered from 0 on, in the order of their handing over.
pub record AreNumbered (t : Tls) : Type 0 where
  pub logs : LogNumbered t.log
  pub traces : TraceNumbered t.trace
  pub metrics : MetricNumbered t.metric

created :
    (core : Bool) (thread id : ℕ) (replies : List Reply)
    → IsSequenced (create_writer core thread id replies)
unfolding create_writer
created core thread id replies = record { total = 0; numbers = refl; next = refl }

got_log : (x : Context) (t : Tls) → AreNumbered t → IsSequenced (get_tls_log x t).1.writer
unfolding get_tls_log
got_log x t s = elim (Option-cases t.log) [
  | inl e ↦ rw (e, get_tls_log) (created x.has_core x.thread_id x.log_id x.log_replies)
  | inr (l, e) ↦ rw (e, get_tls_log) (rw (e, LogNumbered) at s.logs)
]

got_trc : (x : Context) (t : Tls) → AreNumbered t → IsSequenced (get_tls_trc x t).1.writer
unfolding get_tls_trc
got_trc x t s = elim (Option-cases t.trace) [
  | inl e ↦ rw (e, get_tls_trc) (created x.has_core x.thread_id x.trace_id x.trace_replies)
  | inr (r, e) ↦ rw (e, get_tls_trc) (rw (e, TraceNumbered) at s.traces)
]

got_mtk : (x : Context) (t : Tls) → AreNumbered t → IsSequenced (get_tls_mtk x t).1
unfolding get_tls_mtk
got_mtk x t s = elim (Option-cases t.metric) [
  | inl e ↦ rw (e, get_tls_mtk) (created x.has_core x.thread_id x.metric_id x.metric_replies)
  | inr (w, e) ↦ rw (e, get_tls_mtk) (rw (e, MetricNumbered) at s.metrics)
]

pulled : (t : Tls) → AreNumbered t → AreNumbered (pull_writers t)
unfolding pull_writers
pulled t s = record {
  logs = elim (Option-cases t.log) [
    | inl e ↦ rw e tt
    | inr ((c, l), e) ↦ rw e (pull-IsSequenced l.writer (rw (e, LogNumbered) at s.logs))
  ];
  traces = elim (Option-cases t.trace) [
    | inl e ↦ rw e tt
    | inr ((c, r), e) ↦ rw e (pull-IsSequenced r.writer (rw (e, TraceNumbered) at s.traces))
  ];
  metrics = elim (Option-cases t.metric) [
    | inl e ↦ rw e tt
    | inr ((c, w), e) ↦ rw e (pull-IsSequenced w (rw (e, MetricNumbered) at s.metrics))
  ];
}

abbrev EndsNumbered {ℓ} : {A : Type ℓ} → Option (A × Tls) → Type 0
EndsNumbered none = Unit
EndsNumbered (some (a, t)) = AreNumbered t

after_log :
    (t : Tls) (core : Bool) (r : Option (Bool × Log))
    → AreNumbered t
    → NumberedLog r
    → EndsNumbered (elim r [
      | none ↦ none
      | some r ↦ some (Answer.sent r.0, record t { log = some (core, r.1) })
    ])
after_log t core none s h = tt
after_log t core (some (b, l)) s h = record { logs = h; traces = s.traces; metrics = s.metrics }

after_begin :
    (t : Tls) (core : Bool) (r : Option (ℕ × Trace))
    → AreNumbered t
    → NumberedTrace r
    → EndsNumbered (elim r [
      | none ↦ none
      | some b ↦ some (Answer.span b.0, record t { trace = some (core, b.1) })
    ])
after_begin t core none s h = tt
after_begin t core (some (id, r)) s h = record { logs = s.logs; traces = h; metrics = s.metrics }

step-EndsNumbered : (x : Context) (op : Op) (t : Tls) → AreNumbered t → EndsNumbered (step x op t)
unfolding step p8_log_sent p8_trc_begin p8_trc_begin_async p8_trc_end p8_mtk_emit begin_async
step-EndsNumbered x (log_sent c) t s =
    let (core, l) = get_tls_log x t in
    after_log t core (send core c l) s (send-IsSequenced core c l (got_log x t s))
step-EndsNumbered x (trc_begin site attrs) t s =
    let (core, r) = get_tls_trc x t in
    after_begin t core (begin core site attrs r) s
      (begin-IsSequenced core site attrs r (got_trc x t s))
step-EndsNumbered x (trc_begin_async parent site attrs) t s =
    let (core, r) = get_tls_trc x t in
    after_begin t core (begin_async core parent site attrs r) s
      (write_begin-IsSequenced core item_begin_async parent site attrs r (got_trc x t s))
step-EndsNumbered x (trc_end ticks id) t s = elim (Bool-cases (id == invalid_span)) [
  | inl e ↦ rw (e, p8_trc_end) s
  | inr e ↦
      let (core, r) = get_tls_trc x t in
      rw (e, p8_trc_end)
        (record {
          logs = s.logs;
          traces = end-IsSequenced core ticks id r (got_trc x t s);
          metrics = s.metrics;
        })
]
step-EndsNumbered x (mtk_emit count ticks value id) t s =
    let (core, w) = get_tls_mtk x t in
    record {
      logs = s.logs;
      traces = s.traces;
      metrics = emit-IsSequenced ticks value id core count w (got_mtk x t s);
    }
step-EndsNumbered x worker_pulls t s = pulled t s

run-EndsNumbered :
    (x : Context) (ops : List Op) (t : Tls) → AreNumbered t → EndsNumbered (run x ops t)
unfolding run
run-EndsNumbered x [] t s = s
run-EndsNumbered x (op ∷ ops) t s =
    let there = step-EndsNumbered x op t s in
    elim (Option-cases (step x op t)) [
      | inl e ↦ rw (e, run) tt
      | inr ((a, u), e) ↦
          let rest = run-EndsNumbered x ops u (rw (e, EndsNumbered) at there) in
          elim (Option-cases (run x ops u)) [
            | inl f ↦ rw (e, run, f) tt
            | inr ((rest_answers, v), f) ↦ rw (e, run, f) (rw (f, EndsNumbered) at rest)
          ]
    ]

abbrev pub ReturnsNumbered : Option (List Answer × Tls) → Type 0
ReturnsNumbered none = ⊥
ReturnsNumbered (some (answers, t)) = AreNumbered t

returned :
    (j : Journal) (es : List Entry) (r : Option (List Answer × Tls))
    → ServesRun j es r
    → EndsNumbered r
    → ReturnsNumbered r
returned j es none f s = elim f [ ]
returned j es (some (answers, t)) f s = s

-- From sound writers with numbered buffers, such as a thread without any, whatever calls a thread makes and
-- whatever the worker pulls and the pool answers meanwhile: every call returns, and the buffers of each
-- writer that were handed over, parked or are at hand are numbered from 0 on, modulo 2 ^ 32, in that
-- order, also behind records that were taken back.
pub run-ReturnsNumbered :
    (x : Context) (ops : List Op) (t : Tls)
    → IsSound t
    → AreNumbered t
    → ReturnsNumbered (run x ops t)
run-ReturnsNumbered x ops t sound s =
    returned (journal t) (entries x ops t) (run x ops t) (run_refines x ops t sound)
      (run-EndsNumbered x ops t s)

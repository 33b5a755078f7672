-- ===== src/Thread.antt =====
-- engine/p8_tls_writer.cpp, p8_log.cpp, p8_trc.cpp, p8_mtk.cpp: a thread of the program with its three
-- writers, each made at the first call that needs it, and the C functions that go through them. What
-- `get_global_core` finds, the thread's id and the pool's answers are inputs.
pub mod Journal
pub mod Writers
pub mod Calls
pub mod Refines
pub mod Numbered
use selenge_muren.Prelude.{
  ℕ, Bool, true, false, Option, none, some, List, [], ◌∷◌, ◌==◌, if◌then◌else◌,
}
use selenge_muren.Setup.{data_buffer_size}
use selenge_muren.Writer.{Writer, Reply, pull}
use selenge_muren.Record.{AttrValue}
use selenge_muren.Log.{Log, LogCall, send}
use selenge_muren.Trace.{Trace, Site, begin, begin_async, end, invalid_span}
use selenge_muren.Metric.{emit}

-- What the thread meets: whether there is a core, the thread's id, the ids that `register_writer` gives
-- to its writers, and the answers of the pool to each of them.
pub record Context : Type 0 where
  pub has_core : Bool
  pub thread_id : ℕ
  pub log_id : ℕ
  pub trace_id : ℕ
  pub metric_id : ℕ
  pub log_replies : List Reply
  pub trace_replies : List Reply
  pub metric_replies : List Reply

-- A thread's writers with their `mp_core`.
pub record Tls : Type 0 where
  pub log : Option (Bool × Log)
  pub trace : Option (Bool × Trace)
  pub metric : Option (Bool × Writer)

-- The constructor of `cp8_tls_writer`.
unfoldable pub create_writer : (has_core : Bool) (thread_id id : ℕ) → List Reply → Writer
create_writer has_core thread_id id replies = record {
  fragments = [];
  current = none;
  used = 0;
  cap = if has_core then data_buffer_size else 0;
  thread_id = thread_id;
  writer_id = if has_core then id else 0;
  buf_seq = 0;
  dropped_logs = 0;
  dropped_metrics = 0;
  dropped_traces = 0;
  replies = replies;
  released = [];
  delivered = [];
}

-- `get_tls_log`, `get_tls_trc`, `get_tls_mtk`
unfoldable pub get_tls_log : Context → Tls → Bool × Log
unfolding create_writer
get_tls_log x t = elim t.log [
  | some l ↦ l
  | none ↦ (
    x.has_core,
    record {
      writer = create_writer x.has_core x.thread_id x.log_id x.log_replies;
      desc_map = [];
      cache = [];
    },
  )
]

unfoldable pub get_tls_trc : Context → Tls → Bool × Trace
unfolding create_writer
get_tls_trc x t = elim t.trace [
  | some r ↦ r
  | none ↦ (
    x.has_core,
    record {
      writer = create_writer x.has_core x.thread_id x.trace_id x.trace_replies;
      descs = [];
      open_spans = [];
      next_span_id = 0;
      end_span_id = 0;
      cache = [];
    },
  )
]

unfoldable pub get_tls_mtk : Context → Tls → Bool × Writer
unfolding create_writer
get_tls_mtk x t = elim t.metric [
  | some w ↦ w
  | none ↦ (x.has_core, create_writer x.has_core x.thread_id x.metric_id x.metric_replies)
]

-- What the calls return; `ended` is nothing.
pub data Answer : Type 0 where
  sent : Bool → Answer
  span : ℕ → Answer
  ended : Answer

unfoldable pub p8_log_sent : Context → LogCall → Tls → Option (Answer × Tls)
unfolding get_tls_log send
p8_log_sent x c t =
    let (core, l) = get_tls_log x t in
    elim (send core c l) [
      | none ↦ none
      | some r ↦ some (sent r.0, record t { log = some (core, r.1) })
    ]

-- The same, with the values in a list of the caller's.
abbrev pub p8_log_sent_emb : Context → LogCall → Tls → Option (Answer × Tls)
p8_log_sent_emb x c t = p8_log_sent x c t

unfoldable pub p8_trc_begin : Context → Site → List AttrValue → Tls → Option (Answer × Tls)
unfolding get_tls_trc begin
p8_trc_begin x site attrs t =
    let (core, r) = get_tls_trc x t in
    elim (begin core site attrs r) [
      | none ↦ none
      | some b ↦ some (span b.0, record t { trace = some (core, b.1) })
    ]

unfoldable pub p8_trc_begin_async :
    Context → (parent : ℕ) → Site → List AttrValue → Tls → Option (Answer × Tls)
unfolding get_tls_trc begin_async
p8_trc_begin_async x parent site attrs t =
    let (core, r) = get_tls_trc x t in
    elim (begin_async core parent site attrs r) [
      | none ↦ none
      | some b ↦ some (span b.0, record t { trace = some (core, b.1) })
    ]

-- A span that failed to begin makes no writer.
unfoldable pub p8_trc_end : Context → (ticks id : ℕ) → Tls → Option (Answer × Tls)
unfolding get_tls_trc
p8_trc_end x ticks id t =
    if id == invalid_span
    then some (ended, t)
    else let (core, r) = get_tls_trc x t in
      some (ended, record t { trace = some (core, end core ticks id r) })

unfoldable pub p8_mtk_emit : Context → (count ticks value id : ℕ) → Tls → Option (Answer × Tls)
unfolding get_tls_mtk emit
p8_mtk_emit x count ticks value id t =
    let (core, w) = get_tls_mtk x t in
    let r = emit core count ticks value id w in
    some (sent r.0, record t { metric = some (core, r.1) })

-- The worker pulls the buffers of the thread's writers.
unfoldable pub pull_writers : Tls → Tls
unfolding pull
pull_writers t = record {
  log = elim t.log [ none ↦ none | some (c, l) ↦ some (c, record l { writer = pull l.writer }) ];
  trace = elim t.trace [
    | none ↦ none
    | some (c, r) ↦ some (c, record r { writer = pull r.writer })
  ];
  metric = elim t.metric [ none ↦ none | some (c, w) ↦ some (c, pull w) ];
}

-- A call of the thread, or a pull of the worker between two of them.
pub data Op : Type 0 where
  log_sent : LogCall → Op
  trc_begin : Site → List AttrValue → Op
  trc_begin_async : ℕ → Site → List AttrValue → Op
  trc_end : (ticks id : ℕ) → Op
  mtk_emit : (count ticks value id : ℕ) → Op
  worker_pulls : Op

unfoldable pub step : Context → Op → Tls → Option (Answer × Tls)
unfolding p8_log_sent p8_trc_begin p8_trc_begin_async p8_trc_end p8_mtk_emit pull_writers
step x (log_sent c) t = p8_log_sent x c t
step x (trc_begin site attrs) t = p8_trc_begin x site attrs t
step x (trc_begin_async parent site attrs) t = p8_trc_begin_async x parent site attrs t
step x (trc_end ticks id) t = p8_trc_end x ticks id t
step x (mtk_emit count ticks value id) t = p8_mtk_emit x count ticks value id t
step x worker_pulls t = some (ended, pull_writers t)

-- A run of the thread with the answers that it got.
unfoldable pub run : Context → List Op → Tls → Option (List Answer × Tls)
unfolding step
run x [] t = some ([], t)
run x (op ∷ ops) t = elim (step x op t) [
  | none ↦ none
  | some (a, u) ↦ elim (run x ops u) [ none ↦ none | some (rest, v) ↦ some (a ∷ rest, v) ]
]

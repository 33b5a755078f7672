-- ===== src/Thread/Journal.antt =====
-- A thread's calls against a journal of whole records: whatever buffers the records go through, the
-- three outputs grow by nothing but the records of the calls, in their order.
use selenge_muren.Prelude.{
  ℕ, ◌≡◌, Bool, true, false, Option, none, some, List, [], ◌∷◌, ◌++◌, ◌==◌, if◌then◌else◌,
}
use selenge_muren.Writer.{Byte, Writer}
use selenge_muren.Writer.Output.{output, IsHealthy}
use selenge_muren.Record.Steady.{IsSteady}
use selenge_muren.Log.{Log}
use selenge_muren.Log.Sends.{send_text}
use selenge_muren.Trace.{
  Trace, take_id, end_bytes, invalid_span, item_begin, item_begin_async, top_span,
}
use selenge_muren.Trace.Calls.{begin_text}
use selenge_muren.Metric.{sample_bytes}
use selenge_muren.Thread.{
  Context, Tls, get_tls_log, get_tls_trc, Answer, sent, span, ended, Op, log_sent, trc_begin,
  trc_begin_async, trc_end, mtk_emit, worker_pulls, step,
}

-- The abstract state: all records of a thread so far, by kind.
pub record Journal : Type 0 where
  pub logs : List Byte
  pub traces : List Byte
  pub metrics : List Byte

-- A call with the whole record that it is about, and for a begin the id of its span.
pub data Entry : Type 0 where
  log_entry : List Byte → Entry
  begin_entry : ℕ → List Byte → Entry
  end_entry : List Byte → Entry
  sample_entry : List Byte → Entry
  no_entry : Entry

-- What a journal may do with an entry, and what it answers: all of the record or nothing.
pub data Serves (j : Journal) : Entry → Answer → Journal → Type 0 where
  log_kept :
      (text : List Byte)
      → Serves j (log_entry text) (sent true) (record j { logs = j.logs ++ text })
  log_dropped : (text : List Byte) → Serves j (log_entry text) (sent false) j
  begin_kept :
      (id : ℕ) (text : List Byte)
      → Serves j (begin_entry id text) (span id) (record j { traces = j.traces ++ text })
  begin_dropped : (id : ℕ) (text : List Byte) → Serves j (begin_entry id text) (span invalid_span) j
  end_kept :
      (text : List Byte) → Serves j (end_entry text) ended (record j { traces = j.traces ++ text })
  end_dropped : (text : List Byte) → Serves j (end_entry text) ended j
  sample_kept :
      (text : List Byte)
      → Serves j (sample_entry text) (sent true) (record j { metrics = j.metrics ++ text })
  sample_dropped : (text : List Byte) → Serves j (sample_entry text) (sent false) j
  nothing : Serves j no_entry ended j

-- A run of the journal.
pub data ServesAll : Journal → List Entry → List Answer → Journal → Type 0 where
  stop : {j : Journal} → ServesAll j [] [] j
  next :
      {j k l : Journal} {e : Entry} {a : Answer} {es : List Entry} {answers : List Answer}
      → Serves j e a k
      → ServesAll k es answers l
      → ServesAll j (e ∷ es) (a ∷ answers) l

-- The journal that a thread stands for. A writer that is not made yet has no output.
abbrev pub log_output : Option (Bool × Log) → List Byte
log_output none = []
log_output (some l) = output l.1.writer

abbrev pub trace_output : Option (Bool × Trace) → List Byte
trace_output none = []
trace_output (some t) = output t.1.writer

abbrev pub metric_output : Option (Bool × Writer) → List Byte
metric_output none = []
metric_output (some w) = output w.1

abbrev pub journal : Tls → Journal
journal t = record {
  logs = log_output t.log;
  traces = trace_output t.trace;
  metrics = metric_output t.metric;
}

-- The entry of a call in the state in which it is made.
unfoldable pub entry : Context → Op → Tls → Entry
unfolding get_tls_log get_tls_trc take_id
entry x (log_sent c) t = log_entry (send_text c (get_tls_log x t).1)
entry x (trc_begin site attrs) t =
    let r = (get_tls_trc x t).1 in
    let id = (take_id item_begin site.block r).0 in
    begin_entry id
      (begin_text id item_begin (top_span r.open_spans) r.writer.thread_id site attrs r.cache)
entry x (trc_begin_async parent site attrs) t =
    let r = (get_tls_trc x t).1 in
    let id = (take_id item_begin_async site.block r).0 in
    begin_entry id (begin_text id item_begin_async parent r.writer.thread_id site attrs r.cache)
entry x (trc_end ticks id) t =
    if id == invalid_span
    then no_entry
    else end_entry (end_bytes ticks id (get_tls_trc x t).1.writer.thread_id)
entry x (mtk_emit count ticks value id) t = sample_entry (sample_bytes ticks value id)
entry x worker_pulls t = no_entry

unfoldable pub entries : Context → List Op → Tls → List Entry
unfolding entry
entries x [] t = []
entries x (op ∷ ops) t =
    entry x op t ∷ elim (step x op t) [ none ↦ [] | some r ↦ entries x ops r.1 ]

-- A writer with a core is steady; one without never gets a buffer.
abbrev pub IsReady : Bool → Writer → Type 0
IsReady core w = core ≡ true → IsSteady w

abbrev pub LogIsReady : Option (Bool × Log) → Type 0
LogIsReady none = Unit
LogIsReady (some l) = IsReady l.0 l.1.writer

abbrev pub TraceIsReady : Option (Bool × Trace) → Type 0
TraceIsReady none = Unit
TraceIsReady (some r) = IsReady r.0 r.1.writer

abbrev pub MetricIsReady : Option (Bool × Writer) → Type 0
MetricIsReady none = Unit
MetricIsReady (some w) = w.0 ≡ true → IsHealthy w.1

pub record IsSound (t : Tls) : Type 0 where
  pub log_ready : LogIsReady t.log
  pub trace_ready : TraceIsReady t.trace
  pub metric_ready : MetricIsReady t.metric

-- ===== src/Thread/Writers.antt =====
-- The writers that a thread's calls get, and its log calls against the journal.
use selenge_muren.Prelude.{
  ℕ, ◌≡◌, inl, inr, refl, sym, ap, ◌∙◌, subst, Bool, true, false, ◌||◌, Option, none, some, List,
  [], ◌++◌, append-nil, arith, ltb, if◌then◌else◌, Option-cases,
}
use selenge_muren.Writer.{Byte, Reply}
use selenge_muren.Writer.Output.{output, IsHealthy}
use selenge_muren.Log.{Log, LogCall, send, min_level}
use selenge_muren.Log.Sends.{Sends, send_text, send-Sends}
use selenge_muren.Thread.{
  Context, Tls, create_writer, get_tls_log, get_tls_trc, get_tls_mtk, Answer, sent,
}
use selenge_muren.Thread.Journal.{
  Journal, Entry, log_entry, Serves, log_kept, log_dropped, log_output, trace_output, metric_output,
  journal, IsReady, LogIsReady, TraceIsReady, MetricIsReady, IsSound,
}

created :
    (core : Bool) (thread id : ℕ) (replies : List Reply)
    → IsReady core (create_writer core thread id replies)
      × (output (create_writer core thread id replies) ≡ [])
unfolding create_writer
created false thread id replies = (λ e. cc e, refl)
created true thread id replies = (
  λ e. record {
    healthy = record { tail = tt; cap_low = omega arith; cap_high = omega arith };
    used_aligned = refl;
    cap_aligned = refl;
    seq_small = omega arith;
  },
  refl,
)

-- The writer that a call gets, made now or before, is ready and has the output of the journal.
pub got_log :
    (x : Context) (t : Tls)
    → IsSound t
    → IsReady (get_tls_log x t).0 (get_tls_log x t).1.writer
      × (output (get_tls_log x t).1.writer ≡ log_output t.log)
unfolding get_tls_log
got_log x t s = elim (Option-cases t.log) [
  | inl e ↦ rw (e, get_tls_log) (created x.has_core x.thread_id x.log_id x.log_replies)
  | inr (l, e) ↦ rw (e, get_tls_log) (rw (e, LogIsReady) at s.log_ready, refl)
]

pub got_trc :
    (x : Context) (t : Tls)
    → IsSound t
    → IsReady (get_tls_trc x t).0 (get_tls_trc x t).1.writer
      × (output (get_tls_trc x t).1.writer ≡ trace_output t.trace)
unfolding get_tls_trc
got_trc x t s = elim (Option-cases t.trace) [
  | inl e ↦ rw (e, get_tls_trc) (created x.has_core x.thread_id x.trace_id x.trace_replies)
  | inr (r, e) ↦ rw (e, get_tls_trc) (rw (e, TraceIsReady) at s.trace_ready, refl)
]

pub got_mtk :
    (x : Context) (t : Tls)
    → IsSound t
    → ((get_tls_mtk x t).0 ≡ true → IsHealthy (get_tls_mtk x t).1)
      × (output (get_tls_mtk x t).1 ≡ metric_output t.metric)
unfolding get_tls_mtk
got_mtk x t s = elim (Option-cases t.metric) [
  | inl e ↦
      let (ready, empty) = created x.has_core x.thread_id x.metric_id x.metric_replies in
      rw (e, get_tls_mtk) (λ c. (ready c).healthy, empty)
  | inr (w, e) ↦ rw (e, get_tls_mtk) (rw (e, MetricIsReady) at s.metric_ready, refl)
]

-- A call that ends, in a sound state, with what the journal answers.
abbrev pub Delivers : Journal → Entry → Option (Answer × Tls) → Type 0
Delivers j e none = ⊥
Delivers j e (some r) = IsSound r.1 × Serves j e r.0 (journal r.1)

-- As `Sends`, of a writer that may have no core.
abbrev pub SendsReady : Bool → Log → List Byte → Option (Bool × Log) → Type 0
SendsReady core l text none = ⊥
SendsReady core l text (some r) =
    IsReady core r.1.writer × (output r.1.writer ≡ output l.writer ++ (if r.0 then text else []))

Sends-SendsReady :
    (l : Log) (text : List Byte) (r : Option (Bool × Log))
    → Sends l text r
    → SendsReady true l text r
Sends-SendsReady l text none f = elim f [ ]
Sends-SendsReady l text (some r) (steady, grown) = (λ e. steady, grown)

pub or_true : (b : Bool) → (b || true) ≡ true
or_true true = refl
or_true false = refl

pub send-SendsReady :
    (core : Bool) (c : LogCall) (l : Log)
    → IsReady core l.writer
    → SendsReady core l (send_text c l) (send core c l)
unfolding send
send-SendsReady true c l ready =
    Sends-SendsReady l (send_text c l) (send true c l) (send-Sends true c l (ready refl))
send-SendsReady false c l ready =
    rw (or_true (ltb c.level (min_level false c)), send) (ready, sym (append-nil (output l.writer)))

pub log-Delivers :
    (t : Tls) (core : Bool) (l : Log) (text : List Byte) (r : Option (Bool × Log))
    → IsSound t
    → output l.writer ≡ log_output t.log
    → SendsReady core l text r
    → Delivers
        (journal t)
        (log_entry text)
        (elim r [ none ↦ none | some r ↦ some (sent r.0, record t { log = some (core, r.1) }) ])
log-Delivers t core l text none s same f = elim f [ ]
log-Delivers t core l text (some (true, m)) s same (ready, grown) = (
  record { log_ready = ready; trace_ready = s.trace_ready; metric_ready = s.metric_ready },
  subst (λ bs. Serves (journal t) (log_entry text) (sent true) (record (journal t) { logs = bs }))
      (sym (grown ∙ ap (λ (bs : List Byte). bs ++ text) same)) (log_kept text),
)
log-Delivers t core l text (some (false, m)) s same (ready, grown) = (
  record { log_ready = ready; trace_ready = s.trace_ready; metric_ready = s.metric_ready },
  subst (λ bs. Serves (journal t) (log_entry text) (sent false) (record (journal t) { logs = bs }))
      (sym (grown ∙ append-nil (output l.writer) ∙ same)) (log_dropped text),
)

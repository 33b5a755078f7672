-- ===== src/Thread/Refines.antt =====
-- A thread refines its journal: no sequence of calls and pulls tells it from an atomic record store.
use selenge_muren.Prelude.{
  ℕ, ◌%◌, ◌≡◌, ◌≢◌, inl, inr, refl, sym, subst, Bool, false, Option, none, some, List, [], ◌∷◌,
  arith, ◌==◌, Bool-cases, Option-cases,
}
use selenge_muren.Writer.{Writer, pull}
use selenge_muren.Writer.Output.{output-pull, pull-IsHealthy, cap-pull}
use selenge_muren.Record.Steady.{IsSteady}
use selenge_muren.Log.{Log, send}
use selenge_muren.Log.Sends.{send_text}
use selenge_muren.Trace.{Trace, begin, begin_async, end, end_bytes, invalid_span, item_begin_async}
use selenge_muren.Metric.{emit, sample_bytes}
use selenge_muren.Thread.{
  Context, Tls, get_tls_log, get_tls_trc, get_tls_mtk, Answer, ended, Op, log_sent, trc_begin,
  trc_begin_async, trc_end, mtk_emit, worker_pulls, step, run, p8_trc_end, pull_writers,
}
use selenge_muren.Thread.Journal.{
  Journal, Entry, end_entry, no_entry, Serves, nothing, ServesAll, stop, next, log_output,
  trace_output, metric_output, journal, entry, entries, LogIsReady, TraceIsReady, MetricIsReady,
  IsSound,
}
use selenge_muren.Thread.Writers.{
  got_log, got_trc, got_mtk, Delivers, send-SendsReady, log-Delivers,
}
use selenge_muren.Thread.Calls.{
  write_begin-BeginsReady, begin-BeginsReady, begin-Delivers, end_ready, end-Delivers, emit_ready,
  sample-Delivers,
}

pull_numbers :
    (w : Writer) → ((pull w).buf_seq ≡ w.buf_seq) × (w.used % 8 ≡ 0 → (pull w).used % 8 ≡ 0)
unfolding pull
pull_numbers w = elim (Option-cases w.current) [
  | inl e ↦ rw (e, pull) (refl, λ h. h)
  | inr (b, e) ↦ rw (e, pull) (refl, λ h. refl)
]

pull-IsSteady : (w : Writer) → IsSteady w → IsSteady (pull w)
pull-IsSteady w s =
    let (seq, aligned) = pull_numbers w in
    record {
      healthy = pull-IsHealthy w s.healthy;
      used_aligned = aligned s.used_aligned;
      cap_aligned = omega (arith, cap-pull w, s.cap_aligned);
      seq_small = omega (arith, seq, s.seq_small);
    }

pulled_log :
    (o : Option (Bool × Log))
    → LogIsReady o
    → let p : Option (Bool × Log) = elim o [
      | none ↦ none
      | some (c, l) ↦ some (c, record l { writer = pull l.writer })
    ] in
      LogIsReady p × (log_output p ≡ log_output o)
pulled_log none h = (h, refl)
pulled_log (some (c, l)) h = (λ e. pull-IsSteady l.writer (h e), output-pull l.writer)

pulled_trace :
    (o : Option (Bool × Trace))
    → TraceIsReady o
    → let p : Option (Bool × Trace) = elim o [
      | none ↦ none
      | some (c, r) ↦ some (c, record r { writer = pull r.writer })
    ] in
      TraceIsReady p × (trace_output p ≡ trace_output o)
pulled_trace none h = (h, refl)
pulled_trace (some (c, r)) h = (λ e. pull-IsSteady r.writer (h e), output-pull r.writer)

pulled_metric :
    (o : Option (Bool × Writer))
    → MetricIsReady o
    → let p : Option (Bool × Writer) = elim o [ none ↦ none | some (c, w) ↦ some (c, pull w) ] in
      MetricIsReady p × (metric_output p ≡ metric_output o)
pulled_metric none h = (h, refl)
pulled_metric (some (c, w)) h = (λ e. pull-IsHealthy w (h e), output-pull w)

-- The worker's pull between two calls changes no output.
pulled : (t : Tls) → IsSound t → IsSound (pull_writers t) × (journal (pull_writers t) ≡ journal t)
unfolding pull_writers
pulled t s =
    let (log_ready, logs) = pulled_log t.log s.log_ready in
    let (trace_ready, traces) = pulled_trace t.trace s.trace_ready in
    let (metric_ready, metrics) = pulled_metric t.metric s.metric_ready in
    (
      record { log_ready = log_ready; trace_ready = trace_ready; metric_ready = metric_ready },
      λ i. record { logs = logs i; traces = traces i; metrics = metrics i },
    )

end_call :
    (x : Context) (ticks id : ℕ) (t : Tls)
    → (id == invalid_span) ≡ false
    → p8_trc_end x ticks id t
      ≡ some (
        ended,
        record t {
          trace = some ((get_tls_trc x t).0, end (get_tls_trc x t).0 ticks id (get_tls_trc x t).1);
        },
      )
unfolding p8_trc_end
end_call x ticks id t e = rw (e, p8_trc_end) refl

end_entered :
    (x : Context) (ticks id : ℕ) (t : Tls)
    → (id == invalid_span) ≡ false
    → entry x (trc_end ticks id) t
      ≡ end_entry (end_bytes ticks id (get_tls_trc x t).1.writer.thread_id)
unfolding entry
end_entered x ticks id t e = rw (e, entry) refl

step-Delivers :
    (x : Context) (op : Op) (t : Tls)
    → IsSound t
    → Delivers (journal t) (entry x op t) (step x op t)
unfolding step entry
step-Delivers x (log_sent c) t s =
    let (ready, same) = got_log x t s in
    let (core, l) = get_tls_log x t in
    log-Delivers t core l (send_text c l) (send core c l) s same (send-SendsReady core c l ready)
step-Delivers x (trc_begin site attrs) t s =
    let (ready, same) = got_trc x t s in
    let (core, r) = get_tls_trc x t in
    begin-Delivers t core r _ _ (begin core site attrs r) s same
      (begin-BeginsReady core site attrs r ready)
step-Delivers x (trc_begin_async parent site attrs) t s =
    let (ready, same) = got_trc x t s in
    let (core, r) = get_tls_trc x t in
    begin-Delivers t core r _ _ (begin_async core parent site attrs r) s same
      (write_begin-BeginsReady core item_begin_async parent site attrs r ready)
step-Delivers x (trc_end ticks id) t s = elim (Bool-cases (id == invalid_span)) [
  | inl e ↦ rw (e, entry, step) (s, nothing)
  | inr e ↦
      let (ready, same) = got_trc x t s in
      let (core, r) = get_tls_trc x t in
      let valid : id ≢ invalid_span = ground arith in
      let (fine, grown) = end_ready core ticks id r valid ready in
      subst (λ k. Delivers (journal t) k (step x (trc_end ticks id) t))
        (sym (end_entered x ticks id t e))
        (subst (Delivers (journal t) (end_entry (end_bytes ticks id r.writer.thread_id)))
          (sym (end_call x ticks id t e))
          (end-Delivers t core r (end core ticks id r) (end_bytes ticks id r.writer.thread_id) s
            same fine grown))
]
step-Delivers x (mtk_emit count ticks value id) t s =
    let (ready, same) = got_mtk x t s in
    let (core, w) = get_tls_mtk x t in
    let (good, grown) = emit_ready core count ticks value id w ready in
    sample-Delivers t core w (sample_bytes ticks value id) (emit core count ticks value id w) s same
      good grown
step-Delivers x worker_pulls t s =
    let (sound, same) = pulled t s in
    (sound, subst (Serves (journal t) no_entry ended) (sym same) nothing)

-- A run that ends, in a sound state, as a run of the journal.
abbrev pub ServesRun : Journal → List Entry → Option (List Answer × Tls) → Type 0
ServesRun j es none = ⊥
ServesRun j es (some r) = IsSound r.1 × ServesAll j es r.0 (journal r.1)

later :
    (j : Journal) (e : Entry) (es : List Entry) (a : Answer) (u : Tls)
    (r : Option (List Answer × Tls))
    → Serves j e a (journal u)
    → ServesRun (journal u) es r
    → ServesRun j (e ∷ es) (elim r [ none ↦ none | some (rest, v) ↦ some (a ∷ rest, v) ])
later j e es a u none first f = elim f [ ]
later j e es a u (some (rest, v)) first (sound, all) = (sound, next first all)

-- Whatever calls a thread makes, with whatever arguments, and whatever the worker pulls and the pool
-- answers meanwhile: every call returns, and the thread behaves as a journal that takes of each call its
-- whole record or nothing, in order. Of logs and samples it takes the record exactly when the call
-- returns true; of a begin it takes it and the answer is the id, or not and it is P8_INVALID_SPAN.
pub run_refines :
    (x : Context) (ops : List Op) (t : Tls)
    → IsSound t
    → ServesRun (journal t) (entries x ops t) (run x ops t)
unfolding run entries
run_refines x [] t s = (s, stop)
run_refines x (op ∷ ops) t s =
    let served = step-Delivers x op t s in
    elim (Option-cases (step x op t)) [
      | inl e ↦ absurd (subst (Delivers (journal t) (entry x op t)) e served)
      | inr ((a, u), e) ↦
          let (sound, first) = subst (Delivers (journal t) (entry x op t)) e served in
          rw (e, run, entries)
            (later (journal t) (entry x op t) (entries x ops u) a u (run x ops u) first
              (run_refines x ops u sound))
    ]

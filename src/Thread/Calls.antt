-- ===== src/Thread/Calls.antt =====
-- Begins, ends and samples against the journal.
use selenge_muren.Prelude.{
  ℕ, ◌≡◌, ◌≢◌, ◌⊎◌, inl, inr, refl, sym, ap, ◌∙◌, subst, Bool, true, false, Option, none, some,
  List, [], ◌∷◌, ◌++◌, append-nil, ◌==◌, if◌then◌else◌, Option-cases, Bool-cases,
}
use selenge_muren.Writer.{Byte, Writer}
use selenge_muren.Writer.Output.{output, IsHealthy}
use selenge_muren.Record.{AttrValue}
use selenge_muren.Trace.{
  Trace, Site, take_id, write_begin, begin, end, end_bytes, invalid_span, item_begin, top_span,
}
use selenge_muren.Trace.Calls.{begin_text, has_buffer, end_lem}
use selenge_muren.Trace.Locked.{Begins}
use selenge_muren.Trace.Begins.{write_begin-Begins}
use selenge_muren.Metric.{emit, sample_bytes}
use selenge_muren.Metric.Emit.{emit_lem}
use selenge_muren.Thread.{Tls, sent, span, ended}
use selenge_muren.Thread.Journal.{
  begin_entry, end_entry, sample_entry, Serves, begin_kept, begin_dropped, end_kept, end_dropped,
  sample_kept, sample_dropped, trace_output, metric_output, journal, IsReady, IsSound,
}
use selenge_muren.Thread.Writers.{Delivers, or_true}

abbrev pub BeginsReady : Bool → Trace → ℕ → List Byte → Option (ℕ × Trace) → Type 0
BeginsReady core t id text none = ⊥
BeginsReady core t id text (some r) =
    IsReady core r.1.writer
    × (((r.0 ≡ id) × (output r.1.writer ≡ output t.writer ++ text))
        ⊎ ((r.0 ≡ invalid_span) × (output r.1.writer ≡ output t.writer)))

Begins-BeginsReady :
    (t : Trace) (id : ℕ) (text : List Byte) (r : Option (ℕ × Trace))
    → Begins t id text r
    → BeginsReady true t id text r
Begins-BeginsReady t id text none f = elim f [ ]
Begins-BeginsReady t id text (some r) (steady, grown, spans) = (λ e. steady, grown)

pub write_begin-BeginsReady :
    (core : Bool) (type parent : ℕ) (site : Site) (attrs : List AttrValue) (t : Trace)
    → IsReady core t.writer
    → let id = (take_id type site.block t).0 in
      BeginsReady core t id
        (begin_text id type parent t.writer.thread_id site attrs t.cache)
        (write_begin core type parent site attrs t)
unfolding write_begin
write_begin-BeginsReady true type parent site attrs t ready =
    let id = (take_id type site.block t).0 in
    Begins-BeginsReady t id (begin_text id type parent t.writer.thread_id site attrs t.cache)
      (write_begin true type parent site attrs t)
      (write_begin-Begins true type parent site attrs t (ready refl))
write_begin-BeginsReady false type parent site attrs t ready = (ready, inr (refl, refl))

pushed_too :
    (b : Bool) (core : Bool) (t : Trace) (id i : ℕ) (text : List Byte) (v : Trace)
    → BeginsReady core t id text (some (i, v))
    → BeginsReady core t id text
        (some (i, if b then v else record v { open_spans = i ∷ v.open_spans }))
pushed_too true core t id i text v h = h
pushed_too false core t id i text v h = h

pub begin-BeginsReady :
    (core : Bool) (site : Site) (attrs : List AttrValue) (t : Trace)
    → IsReady core t.writer
    → let id = (take_id item_begin site.block t).0 in
      BeginsReady core t id
        (begin_text id item_begin (top_span t.open_spans) t.writer.thread_id site attrs t.cache)
        (begin core site attrs t)
unfolding begin
begin-BeginsReady core site attrs t ready =
    let parent = top_span t.open_spans in
    let id = (take_id item_begin site.block t).0 in
    let begun = write_begin-BeginsReady core item_begin parent site attrs t ready in
    elim (Option-cases (write_begin core item_begin parent site attrs t)) [
      | inl f ↦ absurd (rw (f, BeginsReady) at begun)
      | inr ((i, v), f) ↦
          rw (f, begin)
            (pushed_too (i == invalid_span) core t id i
              (begin_text id item_begin parent t.writer.thread_id site attrs t.cache) v
              (subst
                (BeginsReady core t id
                  (begin_text id item_begin parent t.writer.thread_id site attrs t.cache))
                f begun))
    ]

pub begin-Delivers :
    (t : Tls) (core : Bool) (r : Trace) (id : ℕ) (text : List Byte) (b : Option (ℕ × Trace))
    → IsSound t
    → output r.writer ≡ trace_output t.trace
    → BeginsReady core r id text b
    → Delivers
        (journal t)
        (begin_entry id text)
        (elim b [ none ↦ none | some b ↦ some (span b.0, record t { trace = some (core, b.1) }) ])
begin-Delivers t core r id text none s same f = elim f [ ]
begin-Delivers t core r id text (some (i, m)) s same (ready, inl (e, grown)) = (
  record { log_ready = s.log_ready; trace_ready = ready; metric_ready = s.metric_ready },
  subst
      (λ (k : ℕ).
        Serves (journal t) (begin_entry id text) (span k)
          (record (journal t) { traces = output m.writer }))
      (sym e)
      (subst
        (λ bs.
          Serves (journal t) (begin_entry id text) (span id) (record (journal t) { traces = bs }))
        (sym (grown ∙ ap (λ (bs : List Byte). bs ++ text) same)) (begin_kept id text)),
)
begin-Delivers t core r id text (some (i, m)) s same (ready, inr (e, kept)) = (
  record { log_ready = s.log_ready; trace_ready = ready; metric_ready = s.metric_ready },
  subst
      (λ (k : ℕ).
        Serves (journal t) (begin_entry id text) (span k)
          (record (journal t) { traces = output m.writer }))
      (sym e)
      (subst
        (λ bs.
          Serves (journal t) (begin_entry id text) (span invalid_span)
            (record (journal t) { traces = bs }))
        (sym (kept ∙ same)) (begin_dropped id text)),
)

pub end_ready :
    (core : Bool) (ticks id : ℕ) (r : Trace)
    → id ≢ invalid_span
    → IsReady core r.writer
    → let u = end core ticks id r in
      IsReady core u.writer
      × ((output u.writer ≡ output r.writer ++ end_bytes ticks id r.writer.thread_id)
          ⊎ (output u.writer ≡ output r.writer))
unfolding end
end_ready true ticks id r valid ready =
    let (steady, grown, spans) = end_lem ticks id r valid (ready refl) in
    (
      λ e. steady,
      elim (Bool-cases (has_buffer 24 r.writer)) [
        | inl f ↦ inl (rw f at grown)
        | inr f ↦ inr (rw f at grown ∙ append-nil (output r.writer))
      ],
    )
end_ready false ticks id r valid ready = rw (or_true (id == invalid_span), end) (ready, inr refl)

pub end-Delivers :
    (t : Tls) (core : Bool) (r u : Trace) (text : List Byte)
    → IsSound t
    → output r.writer ≡ trace_output t.trace
    → IsReady core u.writer
    → (output u.writer ≡ output r.writer ++ text) ⊎ (output u.writer ≡ output r.writer)
    → Delivers (journal t) (end_entry text) (some (ended, record t { trace = some (core, u) }))
end-Delivers t core r u text s same ready (inl grown) = (
  record { log_ready = s.log_ready; trace_ready = ready; metric_ready = s.metric_ready },
  subst (λ bs. Serves (journal t) (end_entry text) ended (record (journal t) { traces = bs }))
      (sym (grown ∙ ap (λ (bs : List Byte). bs ++ text) same)) (end_kept text),
)
end-Delivers t core r u text s same ready (inr kept) = (
  record { log_ready = s.log_ready; trace_ready = ready; metric_ready = s.metric_ready },
  subst (λ bs. Serves (journal t) (end_entry text) ended (record (journal t) { traces = bs }))
      (sym (kept ∙ same)) (end_dropped text),
)

pub emit_ready :
    (core : Bool) (count ticks value id : ℕ) (w : Writer)
    → (core ≡ true → IsHealthy w)
    → let r = emit core count ticks value id w in
      (core ≡ true → IsHealthy r.1)
      × (output r.1 ≡ output w ++ (if r.0 then sample_bytes ticks value id else []))
unfolding emit
emit_ready true count ticks value id w ready =
    let (healthy, grown) = emit_lem true count ticks value id w (ready refl) in
    (λ e. healthy, grown)
emit_ready false count ticks value id w ready = (ready, sym (append-nil (output w)))

pub sample-Delivers :
    (t : Tls) (core : Bool) (w : Writer) (text : List Byte) (r : Bool × Writer)
    → IsSound t
    → output w ≡ metric_output t.metric
    → (core ≡ true → IsHealthy r.1)
    → output r.1 ≡ output w ++ (if r.0 then text else [])
    → Delivers
        (journal t)
        (sample_entry text)
        (some (sent r.0, record t { metric = some (core, r.1) }))
sample-Delivers t core w text (true, v) s same ready grown = (
  record { log_ready = s.log_ready; trace_ready = s.trace_ready; metric_ready = ready },
  subst
      (λ bs.
        Serves (journal t) (sample_entry text) (sent true) (record (journal t) { metrics = bs }))
      (sym (grown ∙ ap (λ (bs : List Byte). bs ++ text) same)) (sample_kept text),
)
sample-Delivers t core w text (false, v) s same ready grown = (
  record { log_ready = s.log_ready; trace_ready = s.trace_ready; metric_ready = ready },
  subst
      (λ bs.
        Serves (journal t) (sample_entry text) (sent false) (record (journal t) { metrics = bs }))
      (sym (grown ∙ append-nil (output w) ∙ same)) (sample_dropped text),
)

-- ===== src/Trace/Locked.antt =====
-- The begin of a span with a known call site, under the lock.
use selenge_muren.Prelude.{
  Bool, true, false, ℕ, ◌+◌, ◌-◌, ◌≡◌, ◌⊎◌, inl, inr, refl, sym, ap, ◌∙◌, subst, Option, none, some,
  List, ◌++◌, append-nil, arith, length, replicate, Bool-cases, Option-cases,
}
use mathlib.Core.Path.{ap₂}
use selenge_muren.Service.{align_up_8}
use selenge_muren.Writer.{Byte, Writer}
use selenge_muren.Writer.Output.{output}
use selenge_muren.Registry.{Attr}
use selenge_muren.Record.{AttrValue}
use selenge_muren.Record.Attrs.{Encoded, encode_attrs}
use selenge_muren.Record.Steady.{IsSteady}
use selenge_muren.Trace.{
  Trace, Site, ensure_buffer, begin_bytes, write_span, write_locked, answer_begin, drop_trace,
  invalid_span,
}
use selenge_muren.Trace.Records.{span_text, SpanOutcome, write_span-SpanOutcome}
use selenge_muren.Trace.Calls.{
  ensure_buffer-Ensured, begin_text, patched, length-begin_bytes, drop-IsSteady,
}

-- The answer `id` with the record in the output, or P8_INVALID_SPAN and the output as it was. The
-- spans that are open do not change.
abbrev pub Begins : Trace → (id : ℕ) → List Byte → Option (ℕ × Trace) → Type 0
Begins t id text none = ⊥
Begins t id text (some r) =
    IsSteady r.1.writer
    × (((r.0 ≡ id) × (output r.1.writer ≡ output t.writer ++ text))
        ⊎ ((r.0 ≡ invalid_span) × (output r.1.writer ≡ output t.writer)))
    × (r.1.open_spans ≡ t.open_spans)

answer_begin-Begins :
    (t : Trace) (id : ℕ) (w : Writer) (header text : List Byte) (e : Encoded)
    (r : Option (Bool × List Attr × Writer))
    → output w ≡ output t.writer
    → span_text header e.count e.bytes ≡ text
    → SpanOutcome w header e r
    → Begins t id text (answer_begin id t r)
unfolding answer_begin
answer_begin-Begins t id w header text e none same full o = o
answer_begin-Begins t id w header text e (some (true, cache, v)) same full (done, c) =
    (done.steady, inl (refl, done.grown ∙ ap₂ ◌++◌ same full), refl)
answer_begin-Begins t id w header text e (some (false, cache, v)) same full (done, c) =
    (drop-IsSteady v done.steady, inr (refl, done.grown ∙ append-nil (output w) ∙ same), refl)

-- With a buffer, and without one.
locked_with :
    (id type parent : ℕ) (site : Site) (attrs : List AttrValue) (t : Trace)
    → (ensure_buffer 40 t.writer).0 ≡ true
    → let w = (ensure_buffer 40 t.writer).1 in
      write_locked id type parent site attrs t
      ≡ answer_begin id t (
          write_span
            (begin_bytes site.ticks id 40 type 0 w.thread_id site.hash parent)
            site.registry
            attrs
            t.cache
            w)
unfolding write_locked
locked_with id type parent site attrs t f = rw (f, write_locked) refl

locked_without :
    (id type parent : ℕ) (site : Site) (attrs : List AttrValue) (t : Trace)
    → (ensure_buffer 40 t.writer).0 ≡ false
    → write_locked id type parent site attrs t
      ≡ some (invalid_span, record t { writer = drop_trace (ensure_buffer 40 t.writer).1 })
unfolding write_locked
locked_without id type parent site attrs t f = rw (f, write_locked) refl

pub write_locked-Begins :
    (id type parent : ℕ) (site : Site) (attrs : List AttrValue) (t : Trace)
    → IsSteady t.writer
    → Begins t id
        (begin_text id type parent t.writer.thread_id site attrs t.cache)
        (write_locked id type parent site attrs t)
write_locked-Begins id type parent site attrs t s =
    let e = ensure_buffer-Ensured 40 t.writer (omega arith) s in
    let w = (ensure_buffer 40 t.writer).1 in
    let text = begin_text id type parent t.writer.thread_id site attrs t.cache in
    elim (Bool-cases (ensure_buffer 40 t.writer).0) [
      | inr f ↦
          subst (Begins t id text) (sym (locked_without id type parent site attrs t f))
            (drop-IsSteady w e.steady, inr (refl, e.same_output), refl)
      | inl f ↦ elim (Option-cases w.current) [
        | inl n ↦ absurd (e.at_hand f n)
        | inr (b, n) ↦
            let header = begin_bytes site.ticks id 40 type 0 w.thread_id site.hash parent in
            let enc = encode_attrs site.registry 0 40 attrs 0 t.cache in
            subst (Begins t id text) (sym (locked_with id type parent site attrs t f)) (
              answer_begin-Begins t id w header text enc
                (write_span header site.registry attrs t.cache w) e.same_output
                (ap (λ (bs : List Byte). bs ++ padded_tail enc)
                    (patched site.ticks id (40 + length enc.bytes) type enc.count w.thread_id
                      site.hash parent)
                  ∙ ap
                      (λ (n : ℕ).
                        begin_bytes site.ticks id (align_up_8 (40 + length enc.bytes)) type
                          enc.count n site.hash parent
                        ++ padded_tail enc)
                      e.same_thread)
                (write_span-SpanOutcome w b header e.steady n
                  (length-begin_bytes site.ticks id 40 type 0 w.thread_id site.hash parent)
                  (e.room f) site.registry attrs t.cache))
      ]
    ]
  where
    padded_tail : Encoded → List Byte
    padded_tail e =
        e.bytes ++ replicate (align_up_8 (40 + length e.bytes) - (40 + length e.bytes)) none

pub same_Begins :
    (t u : Trace) (id id' : ℕ) (text text' : List Byte) (r : Option (ℕ × Trace))
    → id' ≡ id
    → u.writer ≡ t.writer
    → u.open_spans ≡ t.open_spans
    → text' ≡ text
    → Begins u id' text' r
    → Begins t id text r
same_Begins t u id id' text text' none e f g h b = b
same_Begins t u id id' text text' (some (i, v)) e f g h (s, inl (i', grown), spans) =
    (s, inl (i' ∙ e, grown ∙ ap₂ ◌++◌ (ap output f) h), spans ∙ g)
same_Begins t u id id' text text' (some (i, v)) e f g h (s, inr (i', grown), spans) =
    (s, inr (i', grown ∙ ap output f), spans ∙ g)

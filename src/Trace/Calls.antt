-- ===== src/Trace/Calls.antt =====
-- The calls of `cp8_trc` as the stream of its writer shows them.
use selenge_muren.Prelude.{
  Bool, true, false, append-nil, ℕ, ◌+◌, ◌-◌, ◌%◌, ◌^◌, ◌≤◌, ◌<◌, ◌≡◌, ◌≢◌, inl, inr, refl, sym, ap,
  ◌∙◌, subst, none, some, List, ◌++◌, arith, ltb, if◌then◌else◌, sub_size, length, replicate,
  Bool-cases, Option-cases, ◌==◌, is_some, leb, ◌&&◌, ◌||◌, List-cases, [], ◌∷◌,
}
use selenge_muren.Service.{align_up_8}
use selenge_muren.Writer.{
  Byte, Buffer, Reply, Writer, acquire_wait, start_buffer, le_bytes, put_current, commit_size, park,
  open_buffer,
}
use selenge_muren.Writer.Output.{
  output, IsHealthy, IsTail, output-park, park_gone, put_record, put_commit_lem,
}
use selenge_muren.Registry.{Attr}
use selenge_muren.Record.{AttrValue}
use selenge_muren.Record.Attrs.{encode_attrs}
use selenge_muren.Record.Steady.{IsSteady, park-IsSteady, open_buffer-Opens}
use selenge_muren.Record.Poked.{splices}
use selenge_muren.Trace.{
  Trace, Site, ensure_buffer, park_short, packet_traces, begin_bytes, end_bytes, write_end,
  drop_trace, invalid_span, end, is_async, pop_span,
}
use selenge_muren.Trace.Records.{patches}

-- The pool's answer to the next acquire.
abbrev pub lends : List Reply → Bool
lends [] = false
lends (r ∷ replies) = is_some r.answer

-- Whether there is a buffer for a record: the one at hand has room, or the pool has one.
abbrev pub has_buffer : (needed : ℕ) → Writer → Bool
has_buffer needed w = is_some w.current && leb (w.used + needed) w.cap || lends w.replies

no_room :
    (max used needed : ℕ)
    → used ≤ max
    → max < 2 ^ 16
    → ltb (sub_size max used) needed ≡ true
    → leb (used + needed) max ≡ false
no_room max used needed h c f = ground arith

fits_in : (max used needed : ℕ) → used + needed ≤ max → leb (used + needed) max ≡ true
fits_in max used needed h = ground arith

-- What `ensure_buffer` promises.
pub record Ensured (needed : ℕ) (w : Writer) (found : Bool) (v : Writer) : Type 0 where
  pub steady : IsSteady v
  pub same_output : output v ≡ output w
  pub same_thread : v.thread_id ≡ w.thread_id
  pub as_told : found ≡ has_buffer needed w
  pub room : found ≡ true → v.used + needed ≤ v.cap
  pub at_hand : found ≡ true → v.current ≢ none

open_buffer-lends : (packet_type : ℕ) (w : Writer) → (open_buffer packet_type w).0 ≡ lends w.replies
unfolding open_buffer acquire_wait start_buffer
open_buffer-lends packet_type w = ground (arith, List-cases w.replies)

replies-park : (w : Writer) → (park w).replies ≡ w.replies
unfolding park
replies-park w = ground arith

opened :
    (needed : ℕ) (w : Writer)
    → needed ≤ 48
    → w.current ≡ none
    → IsSteady w
    → Ensured needed w (open_buffer packet_traces w).0 (open_buffer packet_traces w).1
opened needed w l gone s =
    let o = open_buffer-Opens packet_traces w gone s in
    record {
      steady = o.steady;
      same_output = o.same_output;
      same_thread = o.same_thread;
      as_told = open_buffer-lends packet_traces w ∙ rw gone refl;
      room = λ t. omega (arith, o.room t);
      at_hand = o.at_hand;
    }

thread-park : (w : Writer) → (park w).thread_id ≡ w.thread_id
unfolding park
thread-park w = ground arith

-- The three ways of `ensure_buffer`.
ensure_without :
    (needed : ℕ) (w : Writer)
    → w.current ≡ none
    → ensure_buffer needed w ≡ open_buffer packet_traces w
unfolding ensure_buffer park_short
ensure_without needed w e = ground arith

ensure_short :
    (needed : ℕ) (w : Writer) (b : Buffer)
    → w.current ≡ some b
    → ltb (sub_size w.cap w.used) needed ≡ true
    → ensure_buffer needed w ≡ open_buffer packet_traces (record (park w) { used = 0 })
unfolding ensure_buffer park_short
ensure_short needed w b e f = let gone = park_gone w in ground arith

ensure_ready :
    (needed : ℕ) (w : Writer) (b : Buffer)
    → w.current ≡ some b
    → ltb (sub_size w.cap w.used) needed ≡ false
    → ensure_buffer needed w ≡ (true, w)
unfolding ensure_buffer park_short
ensure_ready needed w b e f = ground arith

room_for :
    (max used needed : ℕ)
    → used ≤ max
    → max < 2 ^ 16
    → ltb (sub_size max used) needed ≡ false
    → used + needed ≤ max
room_for max used needed h c f = ground arith

-- `ensure_buffer` with a record of at most 48 bytes.
pub ensure_buffer-Ensured :
    (needed : ℕ) (w : Writer)
    → needed ≤ 48
    → IsSteady w
    → Ensured needed w (ensure_buffer needed w).0 (ensure_buffer needed w).1
ensure_buffer-Ensured needed w l s = elim (Option-cases w.current) [
  | inl e ↦
      subst (λ r. Ensured needed w r.0 r.1) (sym (ensure_without needed w e))
        (opened needed w l e s)
  | inr (b, e) ↦ elim (Bool-cases (ltb (sub_size w.cap w.used) needed)) [
    | inl f ↦
        let (_, _, low, high, _) = rw (e, IsTail) at s.healthy.tail in
        let p : Writer = record (park w) { used = 0 } in
        let o = opened needed p l (park_gone w) (park-IsSteady w s) in
        subst (λ r. Ensured needed w r.0 r.1) (sym (ensure_short needed w b e f))
          (record {
            steady = o.steady;
            same_output = o.same_output ∙ output-park w;
            same_thread = o.same_thread ∙ thread-park w;
            as_told =
                open_buffer-lends packet_traces p
                ∙ ap lends (replies-park w)
                ∙ rw (e, no_room w.cap w.used needed high s.healthy.cap_high f) refl;
            room = o.room;
            at_hand = o.at_hand;
          })
    | inr f ↦
        let (_, _, low, high, _) = rw (e, IsTail) at s.healthy.tail in
        subst (λ r. Ensured needed w r.0 r.1) (sym (ensure_ready needed w b e f))
          (record {
            steady = s;
            same_output = refl;
            same_thread = refl;
            as_told =
                rw
                  (
                    e,
                    fits_in w.cap w.used needed
                        (room_for w.cap w.used needed high s.healthy.cap_high f),
                  )
                  refl;
            room = λ t. room_for w.cap w.used needed high s.healthy.cap_high f;
            at_hand = λ t n. cc (e, n);
          })
  ]
]

-- The record of a begin: its header with the number of attributes and the padded size, the attributes
-- as the encoder gives them behind a header of 40 bytes, and the padding.
abbrev pub begin_text : (id type parent thread : ℕ) → Site → List AttrValue → List Attr → List Byte
begin_text id type parent thread site attrs cache =
    let e = encode_attrs site.registry 0 40 attrs 0 cache in
    let size = 40 + length e.bytes in
    begin_bytes site.ticks id (align_up_8 size) type e.count thread site.hash parent
    ++ (e.bytes ++ replicate (align_up_8 size - size) none)

pub patched :
    (ticks id size type count thread hash parent : ℕ)
    → splices (patches count size) (begin_bytes ticks id 40 type 0 thread hash parent)
      ≡ begin_bytes ticks id (align_up_8 size) type count thread hash parent
unfolding begin_bytes le_bytes
patched ticks id size type count thread hash parent = refl

pub length-begin_bytes :
    (ticks id size type count thread hash parent : ℕ)
    → length (begin_bytes ticks id size type count thread hash parent) ≡ 40
unfolding begin_bytes le_bytes
length-begin_bytes ticks id size type count thread hash parent = refl

pub length-end_bytes : (ticks id thread : ℕ) → length (end_bytes ticks id thread) ≡ 24
unfolding end_bytes le_bytes
length-end_bytes ticks id thread = refl

-- The record of the end of a span.
write_end-Writes :
    (ticks id : ℕ) (v : Writer) (b : Buffer)
    → IsSteady v
    → v.current ≡ some b
    → v.used + 24 ≤ v.cap
    → let u = commit_size (v.used + 24) (put_current v v.used (end_bytes ticks id v.thread_id)) in
      IsSteady u × (output u ≡ output v ++ end_bytes ticks id v.thread_id)
write_end-Writes ticks id v b s at fits =
    let bytes = end_bytes ticks id v.thread_id in
    let n : length bytes ≡ 24 = length-end_bytes ticks id v.thread_id in
    let (healthy, grown) =
      subst
        (λ k.
          IsHealthy (commit_size (v.used + k) (put_current v v.used bytes))
          × (output (commit_size (v.used + k) (put_current v v.used bytes)) ≡ output v ++ bytes))
        n (put_record bytes v b s.healthy at (omega (arith, n))) in
    let fields = put_commit_lem v.used (v.used + 24) bytes v b at in
    (
      record {
        healthy = healthy;
        used_aligned = ap (λ u. u.used % 8) fields ∙ omega (arith, s.used_aligned);
        cap_aligned = ap (λ u. u.cap % 8) fields ∙ s.cap_aligned;
        seq_small = subst (λ u. u.buf_seq < 2 ^ 32) (sym fields) s.seq_small;
      },
      grown,
    )

-- A dropped trace counts, and changes nothing else.
pub drop-IsSteady : (w : Writer) → IsSteady w → IsSteady (drop_trace w)
drop-IsSteady w s = record {
  healthy = record {
    tail = s.healthy.tail;
    cap_low = s.healthy.cap_low;
    cap_high = s.healthy.cap_high;
  };
  used_aligned = s.used_aligned;
  cap_aligned = s.cap_aligned;
  seq_small = s.seq_small;
}

-- `end` of a valid id on a steady writer: if the buffer at hand has room for the 24 bytes of a record,
-- or else the pool has a buffer, then the output grows by the record of the end, and otherwise it is as it
-- was. The writer is steady, and the span is closed in both cases, unless it is an async one.
pub end_lem :
    (ticks id : ℕ) (t : Trace)
    → id ≢ invalid_span
    → IsSteady t.writer
    → let u = end true ticks id t in
      IsSteady u.writer
      × (output u.writer
          ≡ output t.writer
            ++ (if has_buffer 24 t.writer then end_bytes ticks id t.writer.thread_id else []))
      × (u.open_spans ≡ (if is_async id then t.open_spans else pop_span id t.open_spans))
unfolding end write_end
end_lem ticks id t valid s =
    let e = ensure_buffer-Ensured 24 t.writer (omega arith) s in
    let v = (ensure_buffer 24 t.writer).1 in
    let there : (id == invalid_span) ≡ false = ground arith in
    elim (Bool-cases (ensure_buffer 24 t.writer).0) [
      | inr f ↦
          let told : has_buffer 24 t.writer ≡ false = sym e.as_told ∙ f in
          rw (there, f, end)
            (
              drop-IsSteady v e.steady,
              subst
                  (λ (k : Bool).
                    output v
                    ≡ output t.writer ++ (if k then end_bytes ticks id t.writer.thread_id else []))
                  (sym told) (e.same_output ∙ sym (append-nil (output t.writer))),
              refl,
            )
      | inl f ↦ elim (Option-cases v.current) [
        | inl n ↦ absurd (e.at_hand f n)
        | inr (b, n) ↦
            let (steady, grown) = write_end-Writes ticks id v b e.steady n (e.room f) in
            rw (there, f, end)
              (
                steady,
                subst
                    (λ (k : Bool).
                      output (
                        commit_size (v.used + 24)
                          (put_current v v.used (end_bytes ticks id v.thread_id)))
                      ≡ output t.writer
                        ++ (if k then end_bytes ticks id t.writer.thread_id else []))
                    (sym (sym e.as_told ∙ f))
                    (grown
                      ∙ ap (λ (k : ℕ). output v ++ end_bytes ticks id k) e.same_thread
                      ∙ ap (λ (xs : List Byte). xs ++ end_bytes ticks id t.writer.thread_id)
                          e.same_output),
                refl,
              )
      ]
    ]

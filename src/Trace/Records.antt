-- ===== src/Trace/Records.antt =====
-- A begun span goes into the stream whole, or not at all, whatever buffers its attributes take; so does
-- the end of a span. engine/p8_trc.cpp: `write_begin`, `write_end`.
use selenge_muren.Prelude.{
  Bool, true, ℕ, ◌+◌, ◌-◌, ◌≤◌, ◌≡◌, inl, inr, refl, sym, ap, ◌∙◌, subst, Option, none, some, List,
  [], ◌∷◌, ◌++◌, arith, if◌then◌else◌, length, replicate,
}
use selenge_muren.Service.{align_up_8}
use selenge_muren.Writer.{Byte, Buffer, Writer, le_bytes, put}
use selenge_muren.Registry.{Attr, AttrRegistry}
use selenge_muren.Record.{AttrValue, attrs_done, serialize_attrs, pad_commit}
use selenge_muren.Record.Attrs.{Encoded, encode_attrs, Encodes, serialize_attrs-encode_attrs}
use selenge_muren.Record.Steady.{IsSteady}
use selenge_muren.Record.Poked.{pokes, splices}
use selenge_muren.Record.Whole.{
  undone, Serialized-cases, Finished, finished_lem, headed, headed_lem, header-IsReady,
  header-Since,
}
use selenge_muren.Trace.{close_span, finish_begin, write_span}

-- The two stores into the header of a record whose size before padding is given.
abbrev pub patches : (count size : ℕ) → List (ℕ × List Byte)
patches count size = (19, le_bytes 1 count) ∷ (16, le_bytes 2 (align_up_8 size)) ∷ []

-- A record with its header's count and size filled in, and its padding.
abbrev pub span_text : (header : List Byte) → (count : ℕ) → List Byte → List Byte
span_text header count bytes =
    splices (patches count (40 + length bytes)) header
    ++ (bytes ++ replicate (align_up_8 (40 + length bytes) - (40 + length bytes)) none)

abbrev pub SpanOutcome : Writer → List Byte → Encoded → Option (Bool × List Attr × Writer) → Type 0
SpanOutcome w header e none = ⊥
SpanOutcome w header e (some r) =
    Finished w (if r.0 then span_text header e.count e.bytes else []) r.2
    × (r.0 ≡ true → r.1 ≡ e.cache)

finish_begin_lem :
    (commit start count size dst : ℕ) (w : Writer)
    → finish_begin commit start count size dst w
      ≡ pad_commit dst size (pokes commit start (patches count size) w)
unfolding finish_begin
finish_begin_lem commit start count size dst w = refl

module _ (w : Writer) (b : Buffer) (header : List Byte) (s : IsSteady w) (at : w.current ≡ some b)
    (forty : length header ≡ 40) (fits : w.used + 40 ≤ w.cap) where
  -- The record that went on behind its header.
  done_span :
      (e : Encoded) (count bytes d : ℕ) (cache : List Attr) (v : Writer)
      → Encodes
          (headed w b header)
          (put b w.used header)
          (w.used + length header)
          s.seq_small
          s.cap_aligned
          (headed w b header)
          (w.used + length header)
          0
          e
          (attrs_done count bytes d cache v)
      → SpanOutcome w header e (close_span w (attrs_done count bytes d cache v))
  unfolding close_span le_bytes
  done_span e count bytes d cache v (reaches, same_count, same_bytes, same_cache) =
      let ps = patches e.count (40 + length e.bytes) in
      let done =
        finished_lem w b header s at ps e.bytes s.seq_small s.cap_aligned v d
          (omega (arith, forty), (omega (arith, forty), tt)) reaches in
      let size : 40 + bytes ≡ 40 + length e.bytes = omega (arith, same_bytes) in
      (
        subst (λ x. Finished w (span_text header e.count e.bytes) x)
            (sym (finish_begin_lem (length w.fragments) w.used e.count (40 + length e.bytes) d v)
              ∙ ap (λ (c : ℕ). finish_begin (length w.fragments) w.used c (40 + length e.bytes) d v)
                  (sym same_count)
              ∙ ap (λ (n : ℕ). finish_begin (length w.fragments) w.used count n d v) (sym size))
            (subst
              (λ n.
                Finished w
                  (splices ps header
                    ++ (e.bytes
                        ++ replicate (align_up_8 (n + length e.bytes) - (n + length e.bytes)) none))
                  (pad_commit d (n + length e.bytes) (pokes (length w.fragments) w.used ps v)))
              forty done),
        λ t. same_cache,
      )

  -- `write_begin` with a buffer that has room for the header, whatever the attributes, the sizes of the
  -- buffers and the pool's answers: either the output grows by the header with the count of the
  -- attributes and the size of the record in it, the bytes that the encoder gives, and padding; or the
  -- output is as it was. The writer is steady in both cases, and the copy never runs out of rounds.
  pub write_span-SpanOutcome :
      (registry : ℕ → AttrRegistry) (attrs : List AttrValue) (cache : List Attr)
      → SpanOutcome w header
          (encode_attrs registry 0 40 attrs 0 cache)
          (write_span header registry attrs cache w)
  unfolding write_span
  write_span-SpanOutcome registry attrs cache =
      let u = headed w b header in
      let e = encode_attrs registry 0 40 attrs 0 cache in
      let start = w.used + length header in
      let room : start ≤ w.cap = omega (arith, forty, fits) in
      let ready = header-IsReady w b header s at room in
      let (before, behind) = header-Since w b header s at room in
      let early =
        serialize_attrs-encode_attrs w b w.used s.seq_small s.cap_aligned registry 40 attrs start
          cache u ready refl before in
      let late =
        serialize_attrs-encode_attrs u (put b w.used header) start s.seq_small s.cap_aligned
          registry 40 attrs start cache u ready refl behind in
      subst
        (λ v.
          SpanOutcome w header e
            (close_span w (serialize_attrs registry 40 attrs (w.used + 40) cache v)))
        (sym (headed_lem w b header at))
        (subst
          (λ n.
            SpanOutcome w header e
              (close_span w (serialize_attrs registry 40 attrs (w.used + n) cache u)))
          forty
          (elim (Serialized-cases (serialize_attrs registry 40 attrs start cache u)) [
            | inl (count, bytes, d, c, v, f) ↦ rw f (done_span e count bytes d c v (rw f at late))
            | inr (inl (c, v, f)) ↦
                rw (f, SpanOutcome) (undone w b s at v (rw (f, Encodes) at early), λ t. cc t)
            | inr (inr f) ↦ absurd (rw (f, Encodes) at early)
          ]))

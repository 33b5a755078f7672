-- ===== src/Trace/Numbered.antt =====
-- Begins and ends of spans keep the numbering of the buffers of their writer.
use selenge_muren.Prelude.{
  ℕ, ◌+◌, inl, inr, refl, Bool, true, false, not, ◌||◌, ◌&&◌, Option, none, some, List, ◌∷◌, ltb,
  ◌==◌, sub_size, length, is_some, if◌then◌else◌, Bool-cases, Option-cases,
}
use selenge_muren.Registry.{Attr, AttrRegistry}
use selenge_muren.Service.{align_up_8}
use selenge_muren.Writer.{Byte, Writer, le_bytes, put_current, park}
use selenge_muren.Writer.Sequence.{
  IsSequenced, same_history, park-IsSequenced, put_current-IsSequenced, put_size-IsSequenced,
  open_buffer-IsSequenced,
}
use selenge_muren.Writer.Numbered.{discard-IsSequenced}
use selenge_muren.Record.{
  AttrValue, poke, Serialized, attrs_done, attrs_failed, attrs_no_fuel, serialize_attrs,
}
use selenge_muren.Record.Numbered.{
  poke-IsSequenced, pad_commit-IsSequenced, NumberedAttrs, NumberedItem, serialize_attrs-Numbered,
}
use selenge_muren.Trace.{
  Trace, Site, contains, park_short, ensure_buffer, packet_traces, begin_bytes, end_bytes, take_id,
  finish_begin, close_span, write_span, drop_trace, answer_begin, write_locked, know, write_begin,
  top_span, begin, write_end, end, invalid_span, item_begin,
}

park_short-IsSequenced :
    (needed : ℕ) (w : Writer) → IsSequenced w → IsSequenced (park_short needed w)
unfolding park_short
park_short-IsSequenced needed w s =
    elim (Bool-cases (is_some w.current && ltb (sub_size w.cap w.used) needed)) [
      | inl e ↦ rw (e, park_short) (same_history (park w) _ refl refl (park-IsSequenced w s))
      | inr e ↦ rw (e, park_short) s
    ]

ensure_buffer-IsSequenced :
    (needed : ℕ) (w : Writer) → IsSequenced w → IsSequenced (ensure_buffer needed w).1
unfolding ensure_buffer
ensure_buffer-IsSequenced needed w s =
    let v = park_short needed w in
    let there = park_short-IsSequenced needed w s in
    elim (Option-cases v.current) [
      | inl e ↦ rw (e, ensure_buffer) (open_buffer-IsSequenced packet_traces v e there)
      | inr (b, e) ↦ rw (e, ensure_buffer) there
    ]

drop-IsSequenced : (w : Writer) → IsSequenced w → IsSequenced (drop_trace w)
drop-IsSequenced w s = same_history w (drop_trace w) refl refl s

close_span-Numbered :
    (w : Writer) (r : Serialized) → NumberedAttrs r → NumberedItem (close_span w r)
unfolding close_span finish_begin
close_span-Numbered w (attrs_done count bytes d c v) s =
    let size = 40 + bytes in
    let commit = length w.fragments in
    let u = poke commit (w.used + 19) (le_bytes 1 count) v in
    pad_commit-IsSequenced d size (poke commit (w.used + 16) (le_bytes 2 (align_up_8 size)) u) (
      poke-IsSequenced commit (w.used + 16) (le_bytes 2 (align_up_8 size)) u
        (poke-IsSequenced commit (w.used + 19) (le_bytes 1 count) v s))
close_span-Numbered w (attrs_failed c v) (s, gone) =
    discard-IsSequenced (length w.fragments) w.used v gone s
close_span-Numbered w attrs_no_fuel s = tt

write_span-Numbered :
    (header : List Byte) (registry : ℕ → AttrRegistry) (attrs : List AttrValue) (cache : List Attr)
    (w : Writer)
    → IsSequenced w
    → NumberedItem (write_span header registry attrs cache w)
unfolding write_span
write_span-Numbered header registry attrs cache w s =
    let v = put_current w w.used header in
    close_span-Numbered w (serialize_attrs registry 40 attrs (w.used + 40) cache v) (
      serialize_attrs-Numbered registry 40 attrs (w.used + 40) cache v
        (put_current-IsSequenced w w.used header s))

-- The outcome of a begin leaves a writer with its buffers numbered.
abbrev pub NumberedTrace : Option (ℕ × Trace) → Type 0
NumberedTrace none = Unit
NumberedTrace (some (id, t)) = IsSequenced t.writer

answer_begin-Numbered :
    (id : ℕ) (t : Trace) (r : Option (Bool × List Attr × Writer))
    → NumberedItem r
    → NumberedTrace (answer_begin id t r)
unfolding answer_begin
answer_begin-Numbered id t none s = tt
answer_begin-Numbered id t (some (true, cache, v)) s = s
answer_begin-Numbered id t (some (false, cache, v)) s = drop-IsSequenced v s

write_locked-Numbered :
    (id type parent : ℕ) (site : Site) (attrs : List AttrValue) (t : Trace)
    → IsSequenced t.writer
    → NumberedTrace (write_locked id type parent site attrs t)
unfolding write_locked
write_locked-Numbered id type parent site attrs t s =
    let w = (ensure_buffer 40 t.writer).1 in
    let there = ensure_buffer-IsSequenced 40 t.writer s in
    elim (Bool-cases (ensure_buffer 40 t.writer).0) [
      | inr e ↦ rw (e, write_locked) (drop-IsSequenced w there)
      | inl e ↦
          let header = begin_bytes site.ticks id 40 type 0 w.thread_id site.hash parent in
          rw (e, write_locked)
            (answer_begin-Numbered id t (write_span header site.registry attrs t.cache w)
              (write_span-Numbered header site.registry attrs t.cache w there))
    ]

pub write_begin-IsSequenced :
    (has_core : Bool) (type parent : ℕ) (site : Site) (attrs : List AttrValue) (t : Trace)
    → IsSequenced t.writer
    → NumberedTrace (write_begin has_core type parent site attrs t)
unfolding write_begin take_id
write_begin-IsSequenced false type parent site attrs t s = s
write_begin-IsSequenced true type parent site attrs t s =
    elim (Bool-cases (not (contains site.hash t.descs) && not site.resolved)) [
      | inl e ↦ rw (e, write_begin) (drop-IsSequenced t.writer s)
      | inr e ↦
          let r = take_id type site.block (know site t) in
          rw (e, write_begin) (write_locked-Numbered r.0 type parent site attrs r.1 s)
    ]

opened_too :
    (b : Bool) (id : ℕ) (t : Trace)
    → IsSequenced t.writer
    → NumberedTrace (some (id, if b then t else record t { open_spans = id ∷ t.open_spans }))
opened_too true id t s = s
opened_too false id t s = s

pub begin-IsSequenced :
    (has_core : Bool) (site : Site) (attrs : List AttrValue) (t : Trace)
    → IsSequenced t.writer
    → NumberedTrace (begin has_core site attrs t)
unfolding begin
begin-IsSequenced has_core site attrs t s =
    let r = write_begin has_core item_begin (top_span t.open_spans) site attrs t in
    let there =
      write_begin-IsSequenced has_core item_begin (top_span t.open_spans) site attrs t s in
    elim (Option-cases r) [
      | inl e ↦ rw (e, begin) tt
      | inr ((id, u), e) ↦
          rw (e, begin) (opened_too (id == invalid_span) id u (rw (e, NumberedTrace) at there))
    ]

write_end-IsSequenced :
    (ticks id : ℕ) (w : Writer) → IsSequenced w → IsSequenced (write_end ticks id w)
unfolding write_end
write_end-IsSequenced ticks id w s =
    let v = (ensure_buffer 24 w).1 in
    let there = ensure_buffer-IsSequenced 24 w s in
    elim (Bool-cases (ensure_buffer 24 w).0) [
      | inl e ↦
          rw (e, write_end)
            (put_size-IsSequenced v.used (v.used + 24) (end_bytes ticks id v.thread_id) v there)
      | inr e ↦ rw (e, write_end) (drop-IsSequenced v there)
    ]

pub end-IsSequenced :
    (has_core : Bool) (ticks id : ℕ) (t : Trace)
    → IsSequenced t.writer
    → IsSequenced (end has_core ticks id t).writer
unfolding end
end-IsSequenced has_core ticks id t s = elim (Bool-cases (id == invalid_span || not has_core)) [
  | inl e ↦ rw (e, end) s
  | inr e ↦ rw (e, end) (write_end-IsSequenced ticks id t.writer s)
]

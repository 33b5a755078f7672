-- ===== src/Log/Numbered.antt =====
-- `send` keeps the numbering of the buffers of its writer.
use selenge_muren.Prelude.{
  ℕ, ◌+◌, inl, inr, refl, Bool, true, false, not, ◌||◌, ◌&&◌, Option, none, some, List, [], ◌∷◌,
  ltb, ◌==◌, sub_size, length, is_some, Bool-cases, Option-cases, subst, sym,
}
use selenge_muren.Registry.{Attr, AttrRegistry}
use selenge_muren.Service.{align_up_8}
use selenge_muren.Service.Entries.{LogDesc}
use selenge_muren.Format.{Arg, type_ldouble}
use selenge_muren.Writer.{
  Byte, Writer, Copied, done, failed, no_fuel, le_bytes, put_current, copy_fragmented, write_piece,
  park,
}
use selenge_muren.Writer.Sequence.{
  IsSequenced, same_history, park-IsSequenced, put_current-IsSequenced, open_buffer-IsSequenced,
}
use selenge_muren.Writer.Numbered.{
  Numbered, copy_fragmented-Numbered, write_piece-Numbered, discard-IsSequenced,
}
use selenge_muren.Record.{
  AttrValue, poke, Serialized, attrs_done, attrs_failed, attrs_no_fuel, serialize_attrs,
}
use selenge_muren.Record.Numbered.{
  NumberedItem, poke-IsSequenced, pad_commit-IsSequenced, and_then-Numbered, NumberedAttrs,
  serialize_attrs-Numbered,
}
use selenge_muren.Log.Sends.{Keeps, lookup-Keeps}
use selenge_muren.Log.{
  VaArg, is_text, text_bytes, write_text, write_arg, write_args, item_bytes, finish_item,
  close_item, write_attrs, write_item, min_buffer_space, packet_logs, park_short_item, item_buffer,
  park_done, Log, LogCall, min_level, mod_id, zip_args, drop_log, answer_send, send_locked, lookup,
  send_with, send,
}

write_text-Numbered :
    (bytes : List Byte) (dst written : ℕ) (w : Writer)
    → IsSequenced w
    → Numbered (write_text bytes dst written w)
unfolding write_text
write_text-Numbered bytes dst written w s =
    and_then-Numbered (write_piece (le_bytes 2 (length bytes)) dst written w)
      (λ d n u. copy_fragmented bytes d n u)
      (write_piece-Numbered (le_bytes 2 (length bytes)) dst written w s)
      (λ d n v t. copy_fragmented-Numbered bytes d n v t)

write_arg-Numbered :
    (a : Arg) (v : VaArg) (dst written : ℕ) (w : Writer)
    → IsSequenced w
    → Numbered (write_arg a v dst written w)
unfolding write_arg
write_arg-Numbered a v dst written w s = elim (Bool-cases (is_text a.type)) [
  | inl e ↦ rw (e, write_arg) (write_text-Numbered (text_bytes a.type v.text) dst written w s)
  | inr e ↦ elim (Bool-cases (a.size == 8)) [
    | inl f ↦ rw (e, write_arg, f) (write_piece-Numbered (le_bytes 8 v.number) dst written w s)
    | inr f ↦ elim (Bool-cases (a.type == type_ldouble)) [
      | inl g ↦
          rw (e, write_arg, f, g) (write_piece-Numbered (le_bytes 16 v.number) dst written w s)
      | inr g ↦ rw (e, write_arg, f, g) s
    ]
  ]
]

write_args-Numbered :
    (args : List (Arg × VaArg)) (dst written : ℕ) (w : Writer)
    → IsSequenced w
    → Numbered (write_args args dst written w)
unfolding write_args
write_args-Numbered [] dst written w s = s
write_args-Numbered ((a, v) ∷ rest) dst written w s =
    and_then-Numbered (write_arg a v dst written w) (λ d n u. write_args rest d n u)
      (write_arg-Numbered a v dst written w s) (λ d n u t. write_args-Numbered rest d n u t)

close_item-Numbered :
    (w : Writer) (args_size : ℕ) (r : Serialized)
    → NumberedAttrs r
    → NumberedItem (close_item w args_size r)
unfolding close_item finish_item
close_item-Numbered w args_size (attrs_done count bytes d c v) s =
    let size = 40 + (args_size + bytes) in
    let commit = length w.fragments in
    let u1 = poke commit (w.used + 30) (le_bytes 2 args_size) v in
    let u2 = poke commit (w.used + 36) (le_bytes 1 count) u1 in
    pad_commit-IsSequenced d size (poke commit (w.used + 32) (le_bytes 2 (align_up_8 size)) u2) (
      poke-IsSequenced commit (w.used + 32) (le_bytes 2 (align_up_8 size)) u2 (
        poke-IsSequenced commit (w.used + 36) (le_bytes 1 count) u1
          (poke-IsSequenced commit (w.used + 30) (le_bytes 2 args_size) v s)))
close_item-Numbered w args_size (attrs_failed c v) (s, gone) =
    discard-IsSequenced (length w.fragments) w.used v gone s
close_item-Numbered w args_size attrs_no_fuel s = tt

write_attrs-Numbered :
    (w : Writer) (registry : ℕ → AttrRegistry) (attrs : List AttrValue) (cache : List Attr)
    (r : Copied)
    → Numbered r
    → NumberedItem (write_attrs w registry attrs cache r)
unfolding write_attrs
write_attrs-Numbered w registry attrs cache (done d n v) s =
    close_item-Numbered w n (serialize_attrs registry (40 + n) attrs d cache v)
      (serialize_attrs-Numbered registry (40 + n) attrs d cache v s)
write_attrs-Numbered w registry attrs cache (failed v) (s, gone) =
    discard-IsSequenced (length w.fragments) w.used v gone s
write_attrs-Numbered w registry attrs cache no_fuel s = tt

write_item-Numbered :
    (header : List Byte) (args : List (Arg × VaArg)) (registry : ℕ → AttrRegistry)
    (attrs : List AttrValue) (cache : List Attr) (w : Writer)
    → IsSequenced w
    → NumberedItem (write_item header args registry attrs cache w)
unfolding write_item
write_item-Numbered header args registry attrs cache w s =
    let v = put_current w w.used header in
    write_attrs-Numbered w registry attrs cache (write_args args (w.used + 40) 0 v)
      (write_args-Numbered args (w.used + 40) 0 v (put_current-IsSequenced w w.used header s))

park_short-IsSequenced : (w : Writer) → IsSequenced w → IsSequenced (park_short_item w)
unfolding park_short_item
park_short-IsSequenced w s =
    elim (Bool-cases (is_some w.current && ltb (sub_size w.cap w.used) (min_buffer_space + 40))) [
      | inl e ↦ rw (e, park_short_item) (park-IsSequenced w s)
      | inr e ↦ rw (e, park_short_item) s
    ]

item_buffer-IsSequenced : (w : Writer) → IsSequenced w → IsSequenced (item_buffer w).1
unfolding item_buffer
item_buffer-IsSequenced w s =
    let v = park_short_item w in
    let there = park_short-IsSequenced w s in
    elim (Option-cases v.current) [
      | inl e ↦ rw (e, item_buffer) (open_buffer-IsSequenced packet_logs v e there)
      | inr (b, e) ↦ rw (e, item_buffer) there
    ]

park_done-IsSequenced : (w : Writer) → IsSequenced w → IsSequenced (park_done w)
unfolding park_done
park_done-IsSequenced w s = elim (Bool-cases (ltb (sub_size w.cap w.used) min_buffer_space)) [
  | inl e ↦ rw (e, park_done) (same_history (park w) _ refl refl (park-IsSequenced w s))
  | inr e ↦ rw (e, park_done) s
]

drop-IsSequenced : (w : Writer) → IsSequenced w → IsSequenced (drop_log w)
drop-IsSequenced w s = same_history w (drop_log w) refl refl s

-- The outcome of a call leaves a writer with its buffers numbered.
abbrev pub NumberedLog : Option (Bool × Log) → Type 0
NumberedLog none = Unit
NumberedLog (some (sent, l)) = IsSequenced l.writer

answer_send-Numbered :
    (l : Log) (r : Option (Bool × List Attr × Writer))
    → NumberedItem r
    → NumberedLog (answer_send l r)
unfolding answer_send
answer_send-Numbered l none s = tt
answer_send-Numbered l (some (true, cache, v)) s = park_done-IsSequenced v s
answer_send-Numbered l (some (false, cache, v)) s = drop-IsSequenced v s

send_locked-Numbered :
    (desc : LogDesc) (c : LogCall) (l : Log)
    → IsSequenced l.writer
    → NumberedLog (send_locked desc c l)
unfolding send_locked
send_locked-Numbered desc c l s =
    let w = (item_buffer l.writer).1 in
    let there = item_buffer-IsSequenced l.writer s in
    elim (Bool-cases (item_buffer l.writer).0) [
      | inr e ↦ rw (e, send_locked) (drop-IsSequenced w there)
      | inl e ↦
          let header = item_bytes desc.hash c.ticks c.trace_id w.thread_id c.level (mod_id c) in
          let args = zip_args desc.args c.values in
          rw (e, send_locked)
            (answer_send-Numbered l (write_item header args c.registry c.attrs l.cache w)
              (write_item-Numbered header args c.registry c.attrs l.cache w there))
    ]

send_with-Numbered :
    (found : Option (LogDesc × Log)) (c : LogCall) (l : Log)
    → Keeps l found
    → IsSequenced l.writer
    → NumberedLog (send_with found c l)
unfolding send_with
send_with-Numbered none c l e s = drop-IsSequenced l.writer s
send_with-Numbered (some (desc, known)) c l (e, f) s =
    send_locked-Numbered desc c known (subst IsSequenced (sym e) s)

-- Whatever the call, the pool's answers and the pulls of the worker: `send` keeps the numbers of the buffers of
-- its writer, those that were handed over, parked and at hand; a record that is taken back gives the
-- numbers of its buffers back.
pub send-IsSequenced :
    (has_core : Bool) (c : LogCall) (l : Log)
    → IsSequenced l.writer
    → NumberedLog (send has_core c l)
unfolding send
send-IsSequenced has_core c l s =
    elim (Bool-cases (ltb c.level (min_level has_core c) || not has_core)) [
      | inl e ↦ rw (e, send) s
      | inr e ↦ rw (e, send) (send_with-Numbered (lookup c l) c l (lookup-Keeps c l) s)
    ]

-- ===== src/Log/Sends.antt =====
-- `send`, from the verbosity of the module to the record in the stream.
use selenge_muren.Prelude.{
  Bool, true, false, not, ◌||◌, ℕ, ◌+◌, ◌≤◌, ◌≡◌, inl, inr, refl, sym, ap, ◌∙◌, subst, Option, none,
  some, List, [], ◌∷◌, ◌++◌, append-nil, ltb, if◌then◌else◌, sub_size, length, Bool-cases,
  Option-cases, ltb→le,
}
use selenge_muren.Service.Entries.{LogDesc}
use selenge_muren.Writer.{Byte, Writer, le_bytes}
use selenge_muren.Writer.Output.{output, output-park}
use selenge_muren.Registry.{Attr}
use selenge_muren.Record.Attrs.{encode_attrs}
use selenge_muren.Record.Steady.{IsSteady, park-IsSteady}
use selenge_muren.Log.{
  Log, LogCall, item_bytes, item_buffer, min_buffer_space, park_done, drop_log, answer_send,
  write_item, send_locked, lookup, send_with, send, find_desc, min_level, mod_id, zip_args,
}
use selenge_muren.Log.Arguments.{values_bytes}
use selenge_muren.Log.Items.{item_text, ItemOutcome, write_item-ItemOutcome}
use selenge_muren.Log.Found.{item_buffer-Found}

-- The record of a call, for the writer's thread and cache.
abbrev pub call_text : LogDesc → LogCall → (thread : ℕ) → List Attr → List Byte
call_text desc c thread cache =
    let xs = values_bytes (zip_args desc.args c.values) in
    item_text (item_bytes desc.hash c.ticks c.trace_id thread c.level (mod_id c)) xs
      (encode_attrs c.registry 0 (40 + length xs) c.attrs 0 cache)

-- True, with the record in the output, or false and the output as it was.
abbrev pub Sends : Log → List Byte → Option (Bool × Log) → Type 0
Sends l text none = ⊥
Sends l text (some r) =
    IsSteady r.1.writer × (output r.1.writer ≡ output l.writer ++ (if r.0 then text else []))

length-item_bytes :
    (hash timestamp trace thread level module_id : ℕ)
    → length (item_bytes hash timestamp trace thread level module_id) ≡ 40
unfolding item_bytes le_bytes
length-item_bytes hash timestamp trace thread level module_id = refl

park_done-IsSteady :
    (w : Writer) → IsSteady w → IsSteady (park_done w) × (output (park_done w) ≡ output w)
unfolding park_done
park_done-IsSteady w s = elim (Bool-cases (ltb (sub_size w.cap w.used) min_buffer_space)) [
  | inl e ↦ rw (e, park_done) (park-IsSteady w s, output-park w)
  | inr e ↦ rw (e, park_done) (s, refl)
]

drop-IsSteady : (w : Writer) → IsSteady w → IsSteady (drop_log w)
drop-IsSteady w s = record {
  healthy = record {
    tail = s.healthy.tail;
    cap_low = s.healthy.cap_low;
    cap_high = s.healthy.cap_high;
  };
  used_aligned = s.used_aligned;
  cap_aligned = s.cap_aligned;
  seq_small = s.seq_small;
}

answer_send-Sends :
    (l : Log) (w : Writer) (text : List Byte) (r : Option (Bool × List Attr × Writer))
    → output w ≡ output l.writer
    → ItemOutcome w text r
    → Sends l text (answer_send l r)
unfolding answer_send
answer_send-Sends l w text none same o = o
answer_send-Sends l w text (some (true, cache, v)) same o =
    let (steady, parked) = park_done-IsSteady v o.steady in
    (steady, parked ∙ o.grown ∙ ap (λ (xs : List Byte). xs ++ text) same)
answer_send-Sends l w text (some (false, cache, v)) same o =
    (drop-IsSteady v o.steady, o.grown ∙ ap (λ (xs : List Byte). xs ++ []) same)

locked_with :
    (desc : LogDesc) (c : LogCall) (l : Log)
    → (item_buffer l.writer).0 ≡ true
    → let w = (item_buffer l.writer).1 in
      send_locked desc c l
      ≡ answer_send l (
          write_item
            (item_bytes desc.hash c.ticks c.trace_id w.thread_id c.level (mod_id c))
            (zip_args desc.args c.values)
            c.registry
            c.attrs
            l.cache
            w)
unfolding send_locked
locked_with desc c l f = rw (f, send_locked) refl

locked_without :
    (desc : LogDesc) (c : LogCall) (l : Log)
    → (item_buffer l.writer).0 ≡ false
    → send_locked desc c l ≡ some (false, record l { writer = drop_log (item_buffer l.writer).1 })
unfolding send_locked
locked_without desc c l f = rw (f, send_locked) refl

send_locked-Sends :
    (desc : LogDesc) (c : LogCall) (l : Log)
    → IsSteady l.writer
    → Sends l (call_text desc c l.writer.thread_id l.cache) (send_locked desc c l)
send_locked-Sends desc c l s =
    let e = item_buffer-Found l.writer s in
    let w = (item_buffer l.writer).1 in
    let text = call_text desc c l.writer.thread_id l.cache in
    elim (Bool-cases (item_buffer l.writer).0) [
      | inr f ↦
          subst (Sends l text) (sym (locked_without desc c l f))
            (drop-IsSteady w e.steady, e.same_output ∙ sym (append-nil (output l.writer)))
      | inl f ↦ elim (Option-cases w.current) [
        | inl n ↦ absurd (e.at_hand f n)
        | inr (b, n) ↦ subst (Sends l text) (sym (locked_with desc c l f)) (
            subst
              (λ k. Sends l (call_text desc c k l.cache) (
                answer_send l (
                  write_item
                    (item_bytes desc.hash c.ticks c.trace_id w.thread_id c.level (mod_id c))
                    (zip_args desc.args c.values) c.registry c.attrs l.cache w)))
              e.same_thread
              (answer_send-Sends l w (call_text desc c w.thread_id l.cache) _ e.same_output (
                write_item-ItemOutcome w b
                  (item_bytes desc.hash c.ticks c.trace_id w.thread_id c.level (mod_id c)) e.steady
                  n (length-item_bytes desc.hash c.ticks c.trace_id w.thread_id c.level (mod_id c))
                  (zip_args desc.args c.values) c.registry c.attrs l.cache (e.room f))))
      ]
    ]

abbrev pub looked_up : Option (LogDesc × Log) → LogCall → Log → List Byte
looked_up none c l = []
looked_up (some r) c l = call_text r.0 c l.writer.thread_id l.cache

-- The record of a call with the descriptor that the writer or the core knows.
abbrev pub send_text : LogCall → Log → List Byte
send_text c l = looked_up (lookup c l) c l

abbrev pub Keeps : Log → Option (LogDesc × Log) → Type 0
Keeps l none = Unit
Keeps l (some r) = (r.1.writer ≡ l.writer) × (r.1.cache ≡ l.cache)

pub lookup-Keeps : (c : LogCall) (l : Log) → Keeps l (lookup c l)
unfolding lookup
lookup-Keeps c l = by_cases (find_desc c.hash l.desc_map) c.resolved
  where
    by_cases :
        (found resolved : Option LogDesc)
        → Keeps l (elim found [
          | some desc ↦ some (desc, l)
          | none ↦ elim resolved [
            | none ↦ none
            | some desc ↦ some (desc, record l { desc_map = (c.hash, desc) ∷ l.desc_map })
          ]
        ])
    by_cases (some desc) resolved = (refl, refl)
    by_cases none none = tt
    by_cases none (some desc) = (refl, refl)

same_Sends :
    (l k : Log) (desc : LogDesc) (c : LogCall) (r : Option (Bool × Log))
    → k.writer ≡ l.writer
    → k.cache ≡ l.cache
    → Sends k (call_text desc c k.writer.thread_id k.cache) r
    → Sends l (call_text desc c l.writer.thread_id l.cache) r
same_Sends l k desc c none e f h = h
same_Sends l k desc c (some r) e f (steady, grown) = (
  steady,
  subst
      (λ w.
        output r.1.writer ≡ output w ++ (if r.0 then call_text desc c w.thread_id l.cache else []))
      e
      (subst
        (λ cache.
          output r.1.writer
          ≡ output k.writer ++ (if r.0 then call_text desc c k.writer.thread_id cache else []))
        f grown),
)

send_with-Sends :
    (c : LogCall) (l : Log) (found : Option (LogDesc × Log))
    → IsSteady l.writer
    → Keeps l found
    → Sends l (looked_up found c l) (send_with found c l)
unfolding send_with
send_with-Sends c l none s k = (drop-IsSteady l.writer s, sym (append-nil (output l.writer)))
send_with-Sends c l (some (desc, known)) s (e, f) =
    same_Sends l known desc c (send_locked desc c known) e f
      (send_locked-Sends desc c known (subst IsSteady (sym e) s))

-- Whatever the level, the arguments, the attributes, the sizes of the buffers, the pool's answers and the
-- pulls of the worker while the writer waits: `send` on a steady writer either returns true, and the
-- output has grown by the whole record of the call; or it returns false, and the output is as it was. It
-- never runs out of rounds, and the writer stays steady.
pub send-Sends :
    (has_core : Bool) (c : LogCall) (l : Log)
    → IsSteady l.writer
    → Sends l (send_text c l) (send has_core c l)
unfolding send
send-Sends has_core c l s = elim (Bool-cases (ltb c.level (min_level has_core c) || not has_core)) [
  | inl e ↦ rw (e, send) (s, sym (append-nil (output l.writer)))
  | inr e ↦ rw (e, send) (send_with-Sends c l (lookup c l) s (lookup-Keeps c l))
]

abbrev sent_flag : Option (Bool × Log) → Bool
sent_flag none = false
sent_flag (some r) = r.0

not_sent : false ≡ true → ⊥
not_sent e = cc e

neither : (p q : Bool) → (p || not q) ≡ false → (p ≡ false) × (q ≡ true)
neither true q e = cc e
neither false true e = (refl, refl)
neither false false e = cc e

-- A record that `send` reports as sent has a level that is not below the verbosity of its module, or the
-- default one without a module, and there is a core.
pub send_level :
    (has_core : Bool) (c : LogCall) (l v : Log)
    → send has_core c l ≡ some (true, v)
    → (min_level has_core c ≤ c.level) × (has_core ≡ true)
unfolding send
send_level has_core c l v e =
    elim (Bool-cases (ltb c.level (min_level has_core c) || not has_core)) [
      | inl f ↦ absurd (not_sent (ap sent_flag (rw (f, send) at e)))
      | inr f ↦
          let (level, core) = neither (ltb c.level (min_level has_core c)) has_core f in
          (ltb→le c.level (min_level has_core c) level, core)
    ]

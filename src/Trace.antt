-- ===== src/Trace.antt =====
-- engine/p8_trc.hpp and .cpp: a thread's trace writer with its stack of open spans. The hash of a call
-- site, the clock, and what the core answers are inputs.
pub mod Spans
pub mod Records
pub mod Calls
pub mod Locked
pub mod Begins
pub mod Numbered
use selenge_muren.Prelude.{
  ℕ, zero, suc, ◌+◌, ◌-◌, ◌%◌, ◌^◌, Bool, true, false, not, ◌&&◌, ◌||◌, Option, none, some, List,
  [], ◌∷◌, ◌++◌, ltb, leb, ◌==◌, if◌then◌else◌, length, drop, bit_or, sub_size, is_some,
}
use selenge_muren.Writer.{
  Byte, Writer, le_bytes, park, open_buffer, put_current, commit_size, discard,
}
use selenge_muren.Service.{align_up_8}
use selenge_muren.Registry.{Attr, AttrRegistry}
use selenge_muren.Record.{
  AttrValue, poke, pad_commit, Serialized, attrs_done, attrs_failed, attrs_no_fuel, serialize_attrs,
}

-- P8_INVALID_SPAN and P8_NO_PARENT_SPAN
abbrev pub invalid_span : ℕ
invalid_span = 0

-- P8_ASYNC_SPAN_BIT
abbrev pub async_bit : ℕ
async_bit = 2 ^ 63

-- P8_CORE_SPAN_ID_BLOCK
abbrev pub span_id_block : ℕ
span_id_block = 65536

-- P8_PACKET_TRACES
abbrev pub packet_traces : ℕ
packet_traces = 2

-- P8_TRC_ITEM_BEGIN, P8_TRC_ITEM_BEGIN_ASYNC, P8_TRC_ITEM_END
abbrev pub item_begin : ℕ
item_begin = 1

abbrev pub item_begin_async : ℕ
item_begin_async = 2

abbrev pub item_end : ℕ
item_end = 3

-- cp8_trc. `descs` is a set; `open_spans` has the innermost span first; `cache` is the writer's copy of
-- the attribute descriptors.
pub record Trace : Type 0 where
  pub writer : Writer
  pub descs : List ℕ
  pub open_spans : List ℕ
  pub next_span_id : ℕ
  pub end_span_id : ℕ
  pub cache : List Attr

-- What comes from outside for one begin: `P8_GET_LOG_HASH`, the answers of `resolve_trc_desc` and
-- `reserve_span_ids` if they are asked, the clock, and the attribute registry at each of its lookups.
pub record Site : Type 0 where
  pub hash : ℕ
  pub resolved : Bool
  pub block : ℕ
  pub ticks : ℕ
  pub registry : ℕ → AttrRegistry

abbrev pub contains : ℕ → List ℕ → Bool
contains x [] = false
contains x (y ∷ ys) = if y == x then true else contains x ys

-- P8_IS_ASYNC_SPAN, of a 64-bit id
abbrev pub is_async : ℕ → Bool
is_async id = leb async_bit id

-- The loop of `pop_span`, which is `depth` spans below the top.
unfoldable pub pop_search : (depth : ℕ) → List ℕ → ℕ → List ℕ → List ℕ
pop_search depth [] id spans = spans
pop_search depth (x ∷ below) id spans =
    let rest = pop_search (depth + 1) below id spans in
    if x == id then drop (depth + 1) spans else rest

unfoldable pub pop_span : ℕ → List ℕ → List ℕ
unfolding pop_search
pop_span id [] = []
pop_span id (top ∷ below) = if top == id then below else pop_search 1 below id (top ∷ below)

-- The first lines of `ensure_buffer`.
unfoldable pub park_short : ℕ → Writer → Writer
unfolding park
park_short needed w =
    if is_some w.current && ltb (sub_size w.cap w.used) needed
    then record (park w) { used = 0 }
    else w

unfoldable pub ensure_buffer : ℕ → Writer → Bool × Writer
unfolding park_short open_buffer
ensure_buffer needed w =
    let v = park_short needed w in
    if is_some v.current then (true, v) else open_buffer packet_traces v

-- s_p8_trc_begin_dat
unfoldable pub begin_bytes :
    (timestamp span size type attrs_count thread hash parent : ℕ) → List Byte
unfolding le_bytes
begin_bytes timestamp span size type attrs_count thread hash parent =
    (le_bytes 8 timestamp ++ le_bytes 8 span)
    ++ (le_bytes 2 size
        ++ (le_bytes 1 type
            ++ (le_bytes 1 attrs_count
                ++ (le_bytes 4 thread ++ (le_bytes 8 hash ++ le_bytes 8 parent)))))

-- s_p8_trc_end_dat
unfoldable pub end_bytes : (timestamp span thread : ℕ) → List Byte
unfolding le_bytes
end_bytes timestamp span thread =
    le_bytes 8 timestamp
    ++ (le_bytes 8 span
        ++ (le_bytes 2 24 ++ (le_bytes 1 item_end ++ (le_bytes 1 0 ++ le_bytes 4 thread))))

-- The id of the next span, from a new block when the old one is used up.
unfoldable pub take_id : (type block : ℕ) → Trace → ℕ × Trace
take_id type block t =
    let empty = t.next_span_id == t.end_span_id in
    let id = if empty then block else t.next_span_id in
    (
      if type == item_begin_async then bit_or id async_bit else id,
      record t {
        next_span_id = (id + 1) % 2 ^ 64;
        end_span_id = if empty then (block + span_id_block) % 2 ^ 64 else t.end_span_id;
      },
    )

-- The end of `write_begin`: the count and the padded size go into the header of the record, which
-- began at `start`; `size` is the size before padding.
unfoldable pub finish_begin : (commit start count size dst : ℕ) → Writer → Writer
unfolding poke pad_commit le_bytes
finish_begin commit start count size dst w = pad_commit dst size (
    poke commit (start + 16) (le_bytes 2 (align_up_8 size))
      (poke commit (start + 19) (le_bytes 1 count) w))

-- What `write_begin` does with what `serialize_attrs` returned, for a record that began in `w`: whether
-- it was written, the cache and the writer; `none` would be a copy out of rounds.
unfoldable pub close_span : Writer → Serialized → Option (Bool × List Attr × Writer)
unfolding finish_begin discard
close_span w (attrs_done count bytes dst synced v) =
    some (true, synced, finish_begin (length w.fragments) w.used count (40 + bytes) dst v)
close_span w (attrs_failed synced v) = some (false, synced, discard (length w.fragments) w.used v)
close_span w attrs_no_fuel = none

-- The lines of `write_begin` with a buffer at hand.
unfoldable pub write_span :
    (header : List Byte)
    → (ℕ → AttrRegistry)
    → List AttrValue
    → List Attr
    → Writer
    → Option (Bool × List Attr × Writer)
unfolding put_current serialize_attrs close_span
write_span header registry attrs cache w =
    close_span w
      (serialize_attrs registry 40 attrs (w.used + 40) cache (put_current w w.used header))

-- `mu_dropped_traces.fetch_add(1)`
abbrev pub drop_trace : Writer → Writer
drop_trace w = record w { dropped_traces = (w.dropped_traces + 1) % 2 ^ 64 }

-- What `write_begin` answers for the record `id` that was written or not.
unfoldable pub answer_begin :
    (id : ℕ) → Trace → Option (Bool × List Attr × Writer) → Option (ℕ × Trace)
answer_begin id t none = none
answer_begin id t (some (true, cache, v)) = some (id, record t { cache = cache; writer = v })
answer_begin id t (some (false, cache, v)) =
    some (invalid_span, record t { cache = cache; writer = drop_trace v })

-- The lines of `write_begin` behind the id.
unfoldable pub write_locked :
    (id type parent : ℕ) → Site → List AttrValue → Trace → Option (ℕ × Trace)
unfolding ensure_buffer begin_bytes write_span answer_begin
write_locked id type parent site attrs t =
    let (found, w) = ensure_buffer 40 t.writer in
    if found
    then answer_begin id t (
        write_span (begin_bytes site.ticks id 40 type 0 w.thread_id site.hash parent) site.registry
          attrs t.cache w)
    else some (invalid_span, record t { writer = drop_trace w })

-- `mo_descs.insert`, of a site that is not known yet.
abbrev pub know : Site → Trace → Trace
know site t = record t {
  descs = if contains site.hash t.descs then t.descs else site.hash ∷ t.descs;
}

unfoldable pub write_begin :
    (has_core : Bool) (type parent : ℕ) → Site → List AttrValue → Trace → Option (ℕ × Trace)
unfolding take_id write_locked
write_begin has_core type parent site attrs t =
    if not has_core
    then some (invalid_span, t)
    else if not (contains site.hash t.descs) && not site.resolved
    then some (invalid_span, record t { writer = drop_trace t.writer })
    else let (id, u) = take_id type site.block (know site t) in
      write_locked id type parent site attrs u

-- The innermost open span, or P8_NO_PARENT_SPAN.
abbrev pub top_span : List ℕ → ℕ
top_span [] = invalid_span
top_span (x ∷ xs) = x

unfoldable pub begin : (has_core : Bool) → Site → List AttrValue → Trace → Option (ℕ × Trace)
unfolding write_begin
begin has_core site attrs t =
    elim (write_begin has_core item_begin (top_span t.open_spans) site attrs t) [
      | none ↦ none
      | some r ↦
          let (id, u) = r in
          some (id, if id == invalid_span then u else record u { open_spans = id ∷ u.open_spans })
    ]

unfoldable pub begin_async :
    (has_core : Bool) (parent : ℕ) → Site → List AttrValue → Trace → Option (ℕ × Trace)
unfolding write_begin
begin_async has_core parent site attrs t = write_begin has_core item_begin_async parent site attrs t

unfoldable pub write_end : (ticks id : ℕ) → Writer → Writer
unfolding ensure_buffer put_current commit_size end_bytes
write_end ticks id w =
    let (found, v) = ensure_buffer 24 w in
    if found
    then commit_size (v.used + 24) (put_current v v.used (end_bytes ticks id v.thread_id))
    else drop_trace v

-- `end`, and `p8_trc_end`, which makes the first test once more.
unfoldable pub end : (has_core : Bool) (ticks id : ℕ) → Trace → Trace
unfolding pop_span write_end
end has_core ticks id t = if id == invalid_span || not has_core then t else record t {
  open_spans = if is_async id then t.open_spans else pop_span id t.open_spans;
  writer = write_end ticks id t.writer;
}

-- `reserve_span_ids`: the first id of the block, and the core's next one.
unfoldable pub reserve_span_ids : ℕ → ℕ × ℕ
reserve_span_ids seq = (seq, (seq + span_id_block) % 2 ^ 64)

-- ===== src/Log.antt =====
-- engine/p8_log.hpp and .cpp: `cp8_log::send`, which puts one log record into its thread's stream. The
-- hash of a call site, the clock, the values behind the format, and what the core answers are inputs.
pub mod Arguments
pub mod Items
pub mod Found
pub mod Sends
pub mod Undone
pub mod Numbered
use selenge_muren.Prelude.{
  ℕ, zero, suc, ◌+◌, ◌-◌, ◌*◌, ◌%◌, ◌^◌, Bool, true, false, not, ◌&&◌, ◌||◌, Option, none, some,
  List, [], ◌∷◌, ◌++◌, ltb, ◌==◌, if◌then◌else◌, length, take, sub_size, is_some,
}
use selenge_muren.Writer.{
  Byte, Writer, le_bytes, Copied, done, failed, no_fuel, park, open_buffer, put_current,
  copy_fragmented, write_piece, discard,
}
use selenge_muren.Format.{Arg, type_double, type_stra, type_ustr8, type_ustr32, type_ldouble}
use selenge_muren.Service.{align_up_8}
use selenge_muren.Service.Entries.{LogDesc}
use selenge_muren.Registry.{Attr, AttrRegistry, LogModule}
use selenge_muren.Record.{
  and_then, AttrValue, poke, pad_commit, Serialized, attrs_done, attrs_failed, attrs_no_fuel,
  serialize_attrs,
}

-- P8_LOG_MIN_BUFFER_SPACE
abbrev pub min_buffer_space : ℕ
min_buffer_space = 32

-- P8_PACKET_LOGS
abbrev pub packet_logs : ℕ
packet_logs = 1

-- P8_LOG_ARG_TYPE_USTR16
abbrev pub type_ustr16 : ℕ
type_ustr16 = 8

-- What `va_arg` gives for an argument: the bits of a number, or the units of a text before its zero
-- (`none` for a null pointer).
pub record VaArg : Type 0 where
  pub number : ℕ
  pub text : Option (List ℕ)

-- The bytes of a text whose units have the given width.
abbrev pub unit_bytes : ℕ → List ℕ → List Byte
unit_bytes width [] = []
unit_bytes width (u ∷ us) = le_bytes width u ++ unit_bytes width us

-- The width of a unit: wchar_t has 4 bytes on Linux.
abbrev pub unit_width : ℕ → ℕ
unit_width type = if type == type_ustr16 then 2 else if type == type_ustr32 then 4 else 1

-- The text that is sent, cut at UINT16_MAX bytes.
unfoldable pub text_bytes : ℕ → Option (List ℕ) → List Byte
text_bytes type none = []
text_bytes type (some units) =
    let bytes = unit_bytes (unit_width type) units in
    if ltb 65535 (length bytes) then take 65535 bytes else bytes

abbrev pub is_text : ℕ → Bool
is_text type = type == type_ustr8 || type == type_stra || type == type_ustr16 || type == type_ustr32

-- A text: its length in 16 bits, and its bytes.
unfoldable pub write_text : List Byte → (dst written : ℕ) → Writer → Copied
unfolding le_bytes write_piece copy_fragmented
write_text bytes dst written w =
    and_then (write_piece (le_bytes 2 (length bytes)) dst written w)
      λ d n u. copy_fragmented bytes d n u

-- One round of the loop over the arguments, on a host of 64 bits.
unfoldable pub write_arg : Arg → VaArg → (dst written : ℕ) → Writer → Copied
unfolding le_bytes text_bytes write_text write_piece
write_arg a v dst written w =
    if is_text a.type
    then write_text (text_bytes a.type v.text) dst written w
    else if a.size == 8
    then write_piece (le_bytes 8 v.number) dst written w
    else if a.type == type_ldouble
    then write_piece (le_bytes 16 v.number) dst written w
    else done dst written w

-- The loop over the arguments with their values.
unfoldable pub write_args : List (Arg × VaArg) → (dst written : ℕ) → Writer → Copied
unfolding write_arg
write_args [] dst written w = done dst written w
write_args ((a, v) ∷ rest) dst written w =
    and_then (write_arg a v dst written w) λ d n u. write_args rest d n u

-- s_p8_log_item_dat: the size of the arguments and of the record are not known yet, and the two bytes at
-- the end are padding of the structure.
unfoldable pub item_bytes : (hash timestamp trace thread level module_id : ℕ) → List Byte
unfolding le_bytes
item_bytes hash timestamp trace thread level module_id =
    le_bytes 8 hash
    ++ (le_bytes 8 timestamp
        ++ (le_bytes 8 trace
            ++ (le_bytes 4 thread
                ++ (le_bytes 1 level
                    ++ (le_bytes 1 0
                        ++ (none ∷ none ∷ none ∷ none ∷ []
                            ++ (le_bytes 2 module_id
                                ++ (le_bytes 1 0 ++ (le_bytes 1 0 ++ none ∷ none ∷ [])))))))))

-- The end of a record. The size of the arguments is stored here with the other two numbers: nothing
-- reads it before, and the attributes do not touch the header.
unfoldable pub finish_item : (commit start args_size count size dst : ℕ) → Writer → Writer
unfolding poke pad_commit le_bytes
finish_item commit start args_size count size dst w = pad_commit dst size (
    poke commit (start + 32) (le_bytes 2 (align_up_8 size)) (
      poke commit (start + 36) (le_bytes 1 count)
        (poke commit (start + 30) (le_bytes 2 args_size) w)))

-- How a record ends that began in `w`: whether it was written, the cache and the writer; `none` would be
-- a copy out of rounds.
unfoldable pub close_item :
    Writer → (args_size : ℕ) → Serialized → Option (Bool × List Attr × Writer)
unfolding finish_item discard
close_item w args_size (attrs_done count bytes dst synced v) = some (
  true,
  synced,
  finish_item (length w.fragments) w.used args_size count (40 + (args_size + bytes)) dst v,
)
close_item w args_size (attrs_failed synced v) =
    some (false, synced, discard (length w.fragments) w.used v)
close_item w args_size attrs_no_fuel = none

unfoldable pub write_attrs :
    Writer
    → (ℕ → AttrRegistry)
    → List AttrValue
    → List Attr
    → Copied
    → Option (Bool × List Attr × Writer)
unfolding serialize_attrs close_item discard
write_attrs w registry attrs cache (done dst n v) =
    close_item w n (serialize_attrs registry (40 + n) attrs dst cache v)
write_attrs w registry attrs cache (failed v) =
    some (false, cache, discard (length w.fragments) w.used v)
write_attrs w registry attrs cache no_fuel = none

-- The lines of `send` between the header and the padding, with `lbl_discard`.
unfoldable pub write_item :
    (header : List Byte)
    → List (Arg × VaArg)
    → (ℕ → AttrRegistry)
    → List AttrValue
    → List Attr
    → Writer
    → Option (Bool × List Attr × Writer)
unfolding put_current write_args write_attrs
write_item header args registry attrs cache w =
    write_attrs w registry attrs cache
      (write_args args (w.used + 40) 0 (put_current w w.used header))

-- A buffer without room for an item is parked; `mz_buf_used` stays as it is.
unfoldable pub park_short_item : Writer → Writer
unfolding park
park_short_item w =
    if is_some w.current && ltb (sub_size w.cap w.used) (min_buffer_space + 40) then park w else w

unfoldable pub item_buffer : Writer → Bool × Writer
unfolding park_short_item open_buffer
item_buffer w =
    let v = park_short_item w in if is_some v.current then (true, v) else open_buffer packet_logs v

-- Behind a record: a buffer with hardly any room is parked.
unfoldable pub park_done : Writer → Writer
unfolding park
park_done w =
    if ltb (sub_size w.cap w.used) min_buffer_space then record (park w) { used = 0 } else w

-- cp8_log, with the writer's copy of the attribute descriptors.
pub record Log : Type 0 where
  pub writer : Writer
  pub desc_map : List (ℕ × LogDesc)
  pub cache : List Attr

-- One call: what the caller passes, `P8_GET_LOG_HASH`, the core's default verbosity and its answer to
-- `resolve_log_desc`, the clock, and the attribute registry at each of its lookups.
pub record LogCall : Type 0 where
  pub level : ℕ
  pub log_module : Option LogModule
  pub trace_id : ℕ
  pub hash : ℕ
  pub values : List VaArg
  pub attrs : List AttrValue
  pub default_verbosity : ℕ
  pub resolved : Option LogDesc
  pub ticks : ℕ
  pub registry : ℕ → AttrRegistry

abbrev pub find_desc : ℕ → List (ℕ × LogDesc) → Option LogDesc
find_desc hash [] = none
find_desc hash ((key, desc) ∷ map) = if key == hash then some desc else find_desc hash map

-- `le_min`
abbrev pub min_level : (has_core : Bool) → LogCall → ℕ
min_level has_core c = elim c.log_module [
  | some m ↦ m.verbosity
  | none ↦ if has_core then c.default_verbosity else 0
]

-- `lu_mod_id`
abbrev pub mod_id : LogCall → ℕ
mod_id c = elim c.log_module [ some m ↦ m.id | none ↦ 65535 ]

-- The arguments with their values; `va_arg` behind the last value is undefined behaviour.
abbrev pub zip_args : List Arg → List VaArg → List (Arg × VaArg)
zip_args [] values = []
zip_args (a ∷ args) [] = []
zip_args (a ∷ args) (v ∷ values) = (a, v) ∷ zip_args args values

-- `mu_dropped_logs.fetch_add(1)`
abbrev pub drop_log : Writer → Writer
drop_log w = record w { dropped_logs = (w.dropped_logs + 1) % 2 ^ 64 }

unfoldable pub answer_send : Log → Option (Bool × List Attr × Writer) → Option (Bool × Log)
unfolding park_done
answer_send l none = none
answer_send l (some (true, cache, v)) =
    some (true, record l { cache = cache; writer = park_done v })
answer_send l (some (false, cache, v)) =
    some (false, record l { cache = cache; writer = drop_log v })

-- The lines of `send` behind the descriptor.
unfoldable pub send_locked : LogDesc → LogCall → Log → Option (Bool × Log)
unfolding item_buffer item_bytes write_item answer_send
send_locked desc c l =
    let (found, w) = item_buffer l.writer in
    if found
    then answer_send l (
        write_item (item_bytes desc.hash c.ticks c.trace_id w.thread_id c.level (mod_id c))
          (zip_args desc.args c.values) c.registry c.attrs l.cache w)
    else some (false, record l { writer = drop_log w })

-- The descriptor of a call, which the writer knows, or which it gets from the core and keeps.
unfoldable pub lookup : LogCall → Log → Option (LogDesc × Log)
lookup c l = elim (find_desc c.hash l.desc_map) [
  | some desc ↦ some (desc, l)
  | none ↦ elim c.resolved [
    | none ↦ none
    | some desc ↦ some (desc, record l { desc_map = (c.hash, desc) ∷ l.desc_map })
  ]
]

unfoldable pub send_with : Option (LogDesc × Log) → LogCall → Log → Option (Bool × Log)
unfolding send_locked
send_with none c l = some (false, record l { writer = drop_log l.writer })
send_with (some (desc, known)) c l = send_locked desc c known

unfoldable pub send : (has_core : Bool) → LogCall → Log → Option (Bool × Log)
unfolding lookup send_with
send has_core c l =
    if ltb c.level (min_level has_core c) || not has_core
    then some (false, l)
    else send_with (lookup c l) c l

-- ===== src/Record.antt =====
-- What the log and the trace writer share: a record is a header at the write offset and pieces behind
-- it, which may go on in the next buffers; the header's sizes are filled in at the end, wherever the
-- buffer in which the record began stands by then. engine/p8_tls_writer.cpp, p8_log.cpp, p8_trc.cpp.
pub mod Pieces
pub mod Attrs
pub mod Limits
pub mod Splices
pub mod Placed
pub mod Steady
pub mod Finished
pub mod Poked
pub mod Whole
pub mod Numbered
use selenge_muren.Prelude.{
  ℕ, zero, suc, ◌+◌, ◌-◌, ◌*◌, ◌/◌, ◌%◌, ◌^◌, Bool, true, false, Option, none, some, List, [], ◌∷◌,
  ◌++◌, map, ltb, leb, ◌==◌, if◌then◌else◌, length, take, drop, replicate, get_elem?, concat,
  is_some,
}
use selenge_muren.Writer.{
  Byte, Buffer, Writer, le_bytes, Copied, done, failed, no_fuel, put_current, copy_fragmented,
  commit_size,
}
use selenge_muren.Service.{align_up_8, cut_utf8}
use selenge_muren.Registry.{Attr, AttrRegistry, sync_attr_cache}

-- One piece after the other; the first that finds no buffer ends the record.
abbrev pub and_then : Copied → (ℕ → ℕ → Writer → Copied) → Copied
and_then (done dst written w) next = next dst written w
and_then (failed w) next = failed w
and_then no_fuel next = no_fuel

-- A store over the bytes from `k` on.
abbrev pub splice : ℕ → List Byte → List Byte → List Byte
splice k bytes xs = take k xs ++ (bytes ++ drop (k + length bytes) xs)

abbrev pub poke_buffer : ℕ → List Byte → Buffer → Buffer
poke_buffer offset bytes b = record b { body = splice (offset - 16) bytes b.body }

abbrev pub poke_nth : ℕ → ℕ → List Byte → List Buffer → List Buffer
poke_nth i offset bytes [] = []
poke_nth zero offset bytes (b ∷ bs) = poke_buffer offset bytes b ∷ bs
poke_nth (suc i) offset bytes (b ∷ bs) = b ∷ poke_nth i offset bytes bs

-- A store through `lp_hdr`, at `offset` of the buffer in which the record began: it is number `commit`
-- (`lz_frag_commit`) among the parked ones if the record went on behind it, else the one at hand.
unfoldable pub poke : (commit offset : ℕ) → List Byte → Writer → Writer
poke commit offset bytes w =
    if ltb commit (length w.fragments)
    then record w { fragments = poke_nth commit offset bytes w.fragments }
    else elim w.current [
      | none ↦ w
      | some b ↦ record w { current = some (poke_buffer offset bytes b) }
    ]

-- The end of a record of `size` bytes: its padding keeps what stood there, and the write offset and the
-- size in the buffer's header move behind it.
unfoldable pub pad_commit : (dst size : ℕ) → Writer → Writer
unfolding put_current commit_size
pad_commit dst size w =
    let pad = align_up_8 size - size in
    commit_size (dst + pad) (put_current w dst (replicate pad none))

-- s_p8_attr_val: the id, a 32-bit pattern, and both views of its union, as bits of a number and as the
-- text that a pointer leads to (`none` for a null pointer).
pub record AttrValue : Type 0 where
  pub id : ℕ
  pub number : ℕ
  pub str : Option (List ℕ)

-- P8_MAX_RECORD_SIZE
abbrev pub max_record_size : ℕ
max_record_size = 65528

-- `lz_room`, behind `used` bytes of a record.
abbrev pub room_left : ℕ → ℕ
room_left used = if ltb used max_record_size then max_record_size - used else 0

-- The bytes of a text that fit into `room` with its id and its length.
unfoldable pub cut_text : ℕ → Option (List ℕ) → List ℕ
unfolding cut_utf8
cut_text room none = []
cut_text room (some str) =
    if ltb (room - 6) (length str) then take (cut_utf8 str (room - 6)) str else str

-- What is written of an attribute of the given type (0 is e_p8_attr_str), or `none` without room.
unfoldable pub attr_pieces : (room type : ℕ) → AttrValue → Option (List (List Byte))
unfolding cut_text le_bytes
attr_pieces room type a =
    if type == 0
    then (if ltb room 6
        then none
        else some (
            le_bytes 4 a.id
            ∷ le_bytes 2 (length (cut_text room a.str))
            ∷ map some (cut_text room a.str)
            ∷ []))
    else if ltb room 12
    then none
    else some (le_bytes 4 a.id ∷ le_bytes 8 a.number ∷ [])

-- The descriptor of an id, and the cache, synchronized when the id is not in it.
unfoldable pub find_attr : AttrRegistry → List Attr → ℕ → Option Attr × List Attr
unfolding sync_attr_cache
find_attr registry cache id =
    let synced = if is_some (get_elem? cache id) then cache else sync_attr_cache cache registry in
    (get_elem? synced id, synced)

-- One round up to the copies: the new cache, and the pieces to write if the attribute is not skipped.
unfoldable pub pick_attr :
    AttrRegistry → List Attr → ℕ → AttrValue → Option (List (List Byte)) × List Attr
unfolding find_attr attr_pieces
pick_attr registry cache room a =
    if leb (2 ^ 31) a.id
    then (none, cache)
    else (let (found, synced) = find_attr registry cache a.id in
        elim found [ none ↦ (none, synced) | some desc ↦ (attr_pieces room desc.type a, synced) ])

unfoldable pub copy_pieces : List (List Byte) → ℕ → ℕ → Writer → Copied
copy_pieces [] dst written w = done dst written w
copy_pieces (p ∷ ps) dst written w =
    and_then (copy_fragmented p dst written w) λ d n v. copy_pieces ps d n v

-- An attribute that fits into the buffer at hand is stored at once, else piece by piece.
unfoldable pub write_attr : List (List Byte) → ℕ → Writer → Copied
write_attr pieces dst w =
    if leb (length (concat pieces)) (w.cap - dst)
    then done (dst + length (concat pieces)) (length (concat pieces))
        (put_current w dst (concat pieces))
    else copy_pieces pieces dst 0 w

-- `s_p8_attrs_result` with `mb_done`, the writer's cache and where the record stands, or a record that
-- found no buffer.
pub data Serialized : Type 0 where
  attrs_done : (count bytes dst : ℕ) → List Attr → Writer → Serialized
  attrs_failed : List Attr → Writer → Serialized
  attrs_no_fuel : Serialized

-- The loop of `serialize_attrs`; `registry i` is the core's registry when round `i` looks up its id.
unfoldable pub attrs_loop :
    (ℕ → AttrRegistry)
    → (i size : ℕ) → List AttrValue
    → (count bytes dst : ℕ) → List Attr
    → Writer
    → Serialized
attrs_loop registry i size [] count bytes dst cache w = attrs_done count bytes dst cache w
attrs_loop registry i size (a ∷ rest) count bytes dst cache w = elim (ltb count 255) [
  | false ↦ attrs_done count bytes dst cache w
  | true ↦ elim (pick_attr (registry i) cache (room_left (size + bytes)) a).0 [
    | none ↦
        attrs_loop registry (i + 1) size rest count bytes dst
          (pick_attr (registry i) cache (room_left (size + bytes)) a).1 w
    | some pieces ↦ elim (write_attr pieces dst w) [
      | done d n v ↦
          attrs_loop registry (i + 1) size rest (count + 1) (bytes + length (concat pieces)) d
            (pick_attr (registry i) cache (room_left (size + bytes)) a).1 v
      | failed v ↦ attrs_failed (pick_attr (registry i) cache (room_left (size + bytes)) a).1 v
      | no_fuel ↦ attrs_no_fuel
    ]
  ]
]

-- `serialize_attrs` behind `size` bytes of a record; no attributes for a null pointer.
unfoldable pub serialize_attrs :
    (ℕ → AttrRegistry) → (size : ℕ) → List AttrValue → (dst : ℕ) → List Attr → Writer → Serialized
serialize_attrs registry size attrs dst cache w = attrs_loop registry 0 size attrs 0 0 dst cache w

-- ===== src/Record/Limits.antt =====
-- How large the attributes make a record. engine/p8_tls_writer.cpp: `serialize_attrs`.
use selenge_muren.Prelude.{
  ℕ, ◌+◌, ◌-◌, ◌^◌, ◌≤◌, ◌≡◌, inl, inr, refl, Option, none, some, List, [], ◌∷◌, arith, ltb, leb,
  ◌==◌, length, length-append, length-take, map, concat, Bool-cases, Option-cases, ltb→lt, ltb→le,
}
use selenge_muren.Writer.{Byte, Writer, le_bytes}
use selenge_muren.Service.{cut_utf8}
use selenge_muren.Service.Layout.{cut_utf8-CutsAt}
use selenge_muren.Registry.{Attr, AttrRegistry}
use selenge_muren.Record.{
  AttrValue, max_record_size, room_left, cut_text, attr_pieces, find_attr, pick_attr, Serialized,
  attrs_done, attrs_failed, attrs_no_fuel, attrs_loop, serialize_attrs, write_attr,
}
use selenge_muren.Record.Attrs.{Copied-cases}

length-cut_text : (room : ℕ) (str : Option (List ℕ)) → length (cut_text room str) ≤ room - 6
unfolding cut_text
length-cut_text room none = omega arith
length-cut_text room (some str) = elim (Bool-cases (ltb (room - 6) (length str))) [
  | inl e ↦
      let (short, _) = cut_utf8-CutsAt str (room - 6) (ltb→lt (room - 6) (length str) e) in
      rw (e, cut_text) (omega (arith, length-take (cut_utf8 str (room - 6)) str))
  | inr e ↦ rw (e, cut_text) (ltb→le (room - 6) (length str) e)
]

length-some : (xs : List ℕ) → length (map some xs) ≡ length xs
length-some [] = refl
length-some (x ∷ xs) = omega (arith, length-some xs)

-- An attribute takes no more than the room.
abbrev Fits : ℕ → Option (List (List Byte)) → Type 0
Fits room none = Unit
Fits room (some pieces) = length (concat pieces) ≤ room

attr_pieces-Fits : (room type : ℕ) (a : AttrValue) → Fits room (attr_pieces room type a)
unfolding attr_pieces le_bytes
attr_pieces-Fits room type a = elim (Bool-cases (type == 0)) [
  | inl e ↦ elim (Bool-cases (ltb room 6)) [
    | inl f ↦ rw (e, f, Fits) tt
    | inr f ↦
        rw (e, f, Fits)
          (omega (
            arith,
            ltb→le room 6 f,
            length-cut_text room a.str,
            length-some (cut_text room a.str),
            length-append (map some (cut_text room a.str)) [],
          ))
  ]
  | inr e ↦ elim (Bool-cases (ltb room 12)) [
    | inl f ↦ rw (e, f, Fits) tt
    | inr f ↦ rw (e, f, Fits) (ltb→le room 12 f)
  ]
]

pick_attr-Fits :
    (registry : AttrRegistry) (cache : List Attr) (room : ℕ) (a : AttrValue)
    → Fits room (pick_attr registry cache room a).0
unfolding pick_attr
pick_attr-Fits registry cache room a = elim (Bool-cases (leb (2 ^ 31) a.id)) [
  | inl e ↦ rw (e, Fits) tt
  | inr e ↦ elim (Option-cases (find_attr registry cache a.id).0) [
    | inl f ↦ rw (e, f, Fits) tt
    | inr (desc, f) ↦ rw (e, f) (attr_pieces-Fits room desc.type a)
  ]
]

room_left-bound :
    (used n : ℕ) → used ≤ max_record_size → n ≤ room_left used → used + n ≤ max_record_size
room_left-bound used n h l = ground arith

-- What `serialize_attrs` returns for a record of `size` bytes.
abbrev pub FitsRecord : ℕ → Serialized → Type 0
FitsRecord size (attrs_done count bytes dst cache w) =
    (size + bytes ≤ max_record_size) × (count ≤ 255)
FitsRecord size (attrs_failed cache w) = Unit
FitsRecord size attrs_no_fuel = Unit

attrs_loop-FitsRecord :
    (registry : ℕ → AttrRegistry) (i size : ℕ) (attrs : List AttrValue) (count bytes dst : ℕ)
    (cache : List Attr) (w : Writer)
    → size + bytes ≤ max_record_size
    → count ≤ 255
    → FitsRecord size (attrs_loop registry i size attrs count bytes dst cache w)
unfolding attrs_loop
attrs_loop-FitsRecord registry i size [] count bytes dst cache w h l = (h, l)
attrs_loop-FitsRecord registry i size (a ∷ rest) count bytes dst cache w h l =
    elim (Bool-cases (ltb count 255)) [
      | inr e ↦ rw (e, attrs_loop) (h, l)
      | inl e ↦
          let under : count + 1 ≤ 255 = omega (arith, ltb→lt count 255 e) in
          let room = room_left (size + bytes) in
          let fits = pick_attr-Fits (registry i) cache room a in
          let synced = (pick_attr (registry i) cache room a).1 in
          elim (Option-cases (pick_attr (registry i) cache room a).0) [
            | inl f ↦
                rw (e, f, attrs_loop)
                  (attrs_loop-FitsRecord registry (i + 1) size rest count bytes dst synced w h l)
            | inr (pieces, f) ↦
                let bound =
                  room_left-bound (size + bytes) (length (concat pieces)) h
                    (rw (f, Fits) at fits) in
                let more : size + (bytes + length (concat pieces)) ≤ max_record_size =
                  omega (arith, bound) in
                elim (Copied-cases (write_attr pieces dst w)) [
                  | inl (d, n, v, g) ↦
                      rw (e, f, g, attrs_loop)
                        (attrs_loop-FitsRecord registry (i + 1) size rest (count + 1)
                          (bytes + length (concat pieces)) d synced v more under)
                  | inr (inl (v, g)) ↦ rw (e, f, g, attrs_loop) tt
                  | inr (inr g) ↦ rw (e, f, g, attrs_loop) tt
                ]
          ]
    ]

-- Behind a record of at most 65528 bytes, whatever the attributes, their texts and the writer are:
-- where `serialize_attrs` succeeds, the record with its attributes has at most 65528 bytes, so that its
-- padded size fits into 16 bits, and at most 255 attributes, so that their number fits into a byte.
pub serialize_attrs-FitsRecord :
    (registry : ℕ → AttrRegistry) (size : ℕ) (attrs : List AttrValue) (dst : ℕ) (cache : List Attr)
    (w : Writer)
    → size ≤ max_record_size
    → FitsRecord size (serialize_attrs registry size attrs dst cache w)
unfolding serialize_attrs
serialize_attrs-FitsRecord registry size attrs dst cache w h =
    attrs_loop-FitsRecord registry 0 size attrs 0 0 dst cache w (omega arith) (omega arith)

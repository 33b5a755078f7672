-- ===== src/Record/Attrs.antt =====
-- `serialize_attrs` against an encoder that knows of no buffers, and the limits of a record.
use selenge_muren.Prelude.{
  true, false, subst, ℕ, ◌+◌, ◌%◌, ◌^◌, ◌<◌, ◌≡◌, ◌⊎◌, inl, inr, refl, sym, none, some, List, [],
  ◌∷◌, ◌++◌, append-nil, arith, ltb, length, length-append, concat, Bool-cases, Option-cases,
}
use selenge_muren.Writer.{Byte, Buffer, Writer, Copied, done, failed, no_fuel}
use selenge_muren.Writer.Ready.{IsReady, stream}
use selenge_muren.Writer.Tracked.{Since, Stuck}
use selenge_muren.Registry.{Attr, AttrRegistry}
use selenge_muren.Record.{
  AttrValue, room_left, pick_attr, write_attr, Serialized, attrs_done, attrs_failed, attrs_no_fuel,
  attrs_loop, serialize_attrs,
}
use selenge_muren.Record.Pieces.{Reaches-append, Reaches, Follows, write_attr-Follows}

-- The attributes of a record in memory.
pub record Encoded : Type 0 where
  pub count : ℕ
  pub bytes : List Byte
  pub cache : List Attr

-- The attributes one after the other: an unknown one, and one without room, is left out, and nothing
-- comes behind 255 of them. `used` bytes of the record stand before.
unfoldable pub encode_attrs :
    (ℕ → AttrRegistry) → (i used : ℕ) → List AttrValue → (count : ℕ) → List Attr → Encoded
encode_attrs registry i used [] count cache = record { count = count; bytes = []; cache = cache }
encode_attrs registry i used (a ∷ rest) count cache = elim (ltb count 255) [
  | false ↦ record { count = count; bytes = []; cache = cache }
  | true ↦ elim (pick_attr (registry i) cache (room_left used) a).0 [
    | none ↦
        encode_attrs registry (i + 1) used rest count
          (pick_attr (registry i) cache (room_left used) a).1
    | some pieces ↦
        (let e =
            encode_attrs registry (i + 1) (used + length (concat pieces)) rest (count + 1)
              (pick_attr (registry i) cache (room_left used) a).1 in
          record e { bytes = concat pieces ++ e.bytes })
  ]
]

pub Copied-cases :
    (r : Copied)
    → ((d : ℕ) × (n : ℕ) × (v : Writer) × (r ≡ done d n v))
      ⊎ (((v : Writer) × (r ≡ failed v)) ⊎ (r ≡ no_fuel))
Copied-cases (done d n v) = inl (d, n, v, refl)
Copied-cases (failed v) = inr (inl (v, refl))
Copied-cases no_fuel = inr (inr refl)

module _ (w : Writer) (b : Buffer) (start : ℕ) (small : w.buf_seq < 2 ^ 32)
    (aligned : w.cap % 8 ≡ 0) where
  -- The loop wrote what the encoder gives, counted it, and left its cache; or it is stuck.
  abbrev pub Encodes : Writer → (dst before : ℕ) → Encoded → Serialized → Type 0
  Encodes v dst before e (attrs_done count bytes d cache u) =
      Reaches w b start small aligned v dst e.bytes u d
      × (count ≡ e.count)
      × (bytes ≡ before + length e.bytes)
      × (cache ≡ e.cache)
  Encodes v dst before e (attrs_failed cache u) = Stuck w b start u
  Encodes v dst before e attrs_no_fuel = ⊥

  nothing_more :
      (v : Writer) (dst : ℕ)
      → IsReady v dst
      → v.cap ≡ w.cap
      → Since w b start v dst
      → Reaches w b start small aligned v dst [] v dst
  nothing_more v dst r c s = record {
    ready = r;
    since = s;
    same_cap = c;
    grown = sym (append-nil (stream v dst));
    moved = omega arith;
  }

  one_more :
      (v u : Writer) (dst d before : ℕ) (xs : List Byte) (e : Encoded) (r : Serialized)
      → Reaches w b start small aligned v dst xs u d
      → Encodes u d (before + length xs) e r
      → Encodes v dst before (record e { bytes = xs ++ e.bytes }) r
  one_more v u dst d before xs e (attrs_done count bytes d' cache t) p (q, n, m, c) = (
    Reaches-append w b start small aligned v u t dst d d' xs e.bytes p q,
    n,
    omega (arith, length-append xs e.bytes),
    c,
  )
  one_more v u dst d before xs e (attrs_failed cache t) p q = q
  one_more v u dst d before xs e attrs_no_fuel p q = q

  attrs_loop-Encodes :
      (registry : ℕ → AttrRegistry) (i size : ℕ) (attrs : List AttrValue) (count bytes dst : ℕ)
      (cache : List Attr) (v : Writer)
      → IsReady v dst
      → v.cap ≡ w.cap
      → Since w b start v dst
      → Encodes v dst bytes
          (encode_attrs registry i (size + bytes) attrs count cache)
          (attrs_loop registry i size attrs count bytes dst cache v)
  unfolding attrs_loop encode_attrs
  attrs_loop-Encodes registry i size [] count bytes dst cache v r c s =
      (nothing_more v dst r c s, refl, omega arith, refl)
  attrs_loop-Encodes registry i size (a ∷ rest) count bytes dst cache v r c s =
      elim (Bool-cases (ltb count 255)) [
        | inr e ↦
            rw (e, encode_attrs, attrs_loop) ((nothing_more v dst r c s, refl, omega arith, refl))
        | inl e ↦
            elim (Option-cases (pick_attr (registry i) cache (room_left (size + bytes)) a).0) [
              | inl f ↦
                  rw (e, f, encode_attrs, attrs_loop)
                    (attrs_loop-Encodes registry (i + 1) size rest count bytes dst
                      (pick_attr (registry i) cache (room_left (size + bytes)) a).1 v r c s)
              | inr (pieces, f) ↦
                  let sent = write_attr-Follows w b start small aligned pieces dst v r c s in
                  elim (Copied-cases (write_attr pieces dst v)) [
                    | inl (d, n, u, g) ↦
                        let (p, _) = rw (g, Follows) at sent in
                        let same_place : size + (bytes + length (concat pieces))
                            ≡ size + bytes + length (concat pieces) =
                          omega arith in
                        rw (e, f, g, encode_attrs, attrs_loop)
                          (one_more v u dst d bytes (concat pieces) _ _ p (
                            subst
                              (λ t.
                                Encodes u d (bytes + length (concat pieces))
                                  (encode_attrs registry (i + 1) t rest (count + 1)
                                    (pick_attr (registry i) cache (room_left (size + bytes)) a).1)
                                  (attrs_loop registry (i + 1) size rest (count + 1)
                                    (bytes + length (concat pieces)) d
                                    (pick_attr (registry i) cache (room_left (size + bytes)) a).1
                                    u))
                              same_place
                              (attrs_loop-Encodes registry (i + 1) size rest (count + 1)
                                (bytes + length (concat pieces)) d
                                (pick_attr (registry i) cache (room_left (size + bytes)) a).1 u
                                p.ready p.same_cap p.since)))
                    | inr (inl (u, g)) ↦
                        rw (e, f, g, encode_attrs, attrs_loop, Encodes) (rw (g, Follows) at sent)
                    | inr (inr g) ↦ absurd (rw (g, Follows) at sent)
                  ]
            ]
      ]

  -- Whatever the sizes of the buffers and wherever the record stands in its first one: if the writer is
  -- ready at `dst`, behind `size` bytes of a record that began at `start` of the buffer `b`, then
  -- `serialize_attrs` either appends to the stream the bytes that the encoder gives in memory, and
  -- returns its count, its number of bytes and its cache; or it leaves a record that `lbl_discard` can
  -- take back. It never runs out of rounds.
  pub serialize_attrs-encode_attrs :
      (registry : ℕ → AttrRegistry) (size : ℕ) (attrs : List AttrValue) (dst : ℕ)
      (cache : List Attr) (v : Writer)
      → IsReady v dst
      → v.cap ≡ w.cap
      → Since w b start v dst
      → Encodes v dst 0
          (encode_attrs registry 0 size attrs 0 cache)
          (serialize_attrs registry size attrs dst cache v)
  unfolding serialize_attrs
  serialize_attrs-encode_attrs registry size attrs dst cache v r c s =
      subst
        (λ t.
          Encodes v dst 0 (encode_attrs registry 0 t attrs 0 cache)
            (serialize_attrs registry size attrs dst cache v))
        (omega arith) (attrs_loop-Encodes registry 0 size attrs 0 0 dst cache v r c s)

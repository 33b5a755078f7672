-- ===== src/Record/Numbered.antt =====
-- The attributes of a record and the stores into its header keep the numbering of the buffers.
use selenge_muren.Prelude.{
  ℕ, zero, suc, ◌+◌, ◌-◌, ◌≡◌, Bool, inl, inr, refl, ap, Option, none, some, List, [], ◌∷◌, ltb,
  leb, length, concat, replicate, Bool-cases, Option-cases,
}
use selenge_muren.Registry.{Attr, AttrRegistry}
use selenge_muren.Service.{align_up_8}
use selenge_muren.Writer.{Byte, Buffer, Writer, Copied, done, failed, no_fuel, copy_fragmented}
use selenge_muren.Writer.Sequence.{
  IsSequenced, seqs, seqs-append, same_history, put_current-IsSequenced, put_size-IsSequenced,
}
use selenge_muren.Writer.Numbered.{Numbered, copy_fragmented-Numbered}
use selenge_muren.Record.Attrs.{Copied-cases}
use selenge_muren.Record.{
  and_then, poke, poke_nth, pad_commit, AttrValue, pick_attr, room_left, copy_pieces, write_attr,
  Serialized, attrs_done, attrs_failed, attrs_no_fuel, attrs_loop, serialize_attrs,
}

seqs-poke_nth :
    (i offset : ℕ) (bytes : List Byte) (bs : List Buffer)
    → seqs (poke_nth i offset bytes bs) ≡ seqs bs
seqs-poke_nth i offset bytes [] = refl
seqs-poke_nth zero offset bytes (b ∷ bs) = refl
seqs-poke_nth (suc i) offset bytes (b ∷ bs) = ap (◌∷◌ b.buf_seq) (seqs-poke_nth i offset bytes bs)

pub poke-IsSequenced :
    (commit offset : ℕ) (bytes : List Byte) (w : Writer)
    → IsSequenced w
    → IsSequenced (poke commit offset bytes w)
unfolding poke
poke-IsSequenced commit offset bytes w s = elim (Bool-cases (ltb commit (length w.fragments))) [
  | inl e ↦
      rw (e, poke)
        (same_history w _ (simp (seqs-append, seqs-poke_nth commit offset bytes w.fragments)) refl
          s)
  | inr e ↦ elim (Option-cases w.current) [
    | inl n ↦ rw (e, poke, n) s
    | inr (b, n) ↦ rw (e, poke, n) (same_history w _ (simp (n, seqs-append)) refl s)
  ]
]

pub pad_commit-IsSequenced :
    (dst size : ℕ) (w : Writer) → IsSequenced w → IsSequenced (pad_commit dst size w)
unfolding pad_commit
pad_commit-IsSequenced dst size w s =
    let pad = align_up_8 size - size in
    put_size-IsSequenced dst (dst + pad) (replicate pad none) w s

-- A copy that goes on where another one ended.
pub and_then-Numbered :
    (r : Copied) (next : ℕ → ℕ → Writer → Copied)
    → Numbered r
    → ((d n : ℕ) (v : Writer) → IsSequenced v → Numbered (next d n v))
    → Numbered (and_then r next)
and_then-Numbered (done d n v) next h k = k d n v h
and_then-Numbered (failed v) next h k = h
and_then-Numbered no_fuel next h k = tt

copy_pieces-Numbered :
    (ps : List (List Byte)) (dst written : ℕ) (w : Writer)
    → IsSequenced w
    → Numbered (copy_pieces ps dst written w)
unfolding copy_pieces
copy_pieces-Numbered [] dst written w s = s
copy_pieces-Numbered (p ∷ ps) dst written w s =
    and_then-Numbered (copy_fragmented p dst written w) (λ d n v. copy_pieces ps d n v)
      (copy_fragmented-Numbered p dst written w s) (λ d n v t. copy_pieces-Numbered ps d n v t)

write_attr-Numbered :
    (pieces : List (List Byte)) (dst : ℕ) (w : Writer)
    → IsSequenced w
    → Numbered (write_attr pieces dst w)
unfolding write_attr
write_attr-Numbered pieces dst w s =
    elim (Bool-cases (leb (length (concat pieces)) (w.cap - dst))) [
      | inl e ↦ rw (e, write_attr) (put_current-IsSequenced w dst (concat pieces) s)
      | inr e ↦ rw (e, write_attr) (copy_pieces-Numbered pieces dst 0 w s)
    ]

abbrev pub NumberedAttrs : Serialized → Type 0
NumberedAttrs (attrs_done count bytes d c v) = IsSequenced v
NumberedAttrs (attrs_failed c v) = IsSequenced v × (v.current ≡ none)
NumberedAttrs attrs_no_fuel = Unit

-- A record that ended, written or not.
abbrev pub NumberedItem : Option (Bool × List Attr × Writer) → Type 0
NumberedItem none = Unit
NumberedItem (some (written, cache, v)) = IsSequenced v

attrs_loop-Numbered :
    (registry : ℕ → AttrRegistry) (i size : ℕ) (attrs : List AttrValue) (count bytes dst : ℕ)
    (cache : List Attr) (w : Writer)
    → IsSequenced w
    → NumberedAttrs (attrs_loop registry i size attrs count bytes dst cache w)
unfolding attrs_loop
attrs_loop-Numbered registry i size [] count bytes dst cache w s = s
attrs_loop-Numbered registry i size (a ∷ rest) count bytes dst cache w s =
    let picked = pick_attr (registry i) cache (room_left (size + bytes)) a in
    elim (Bool-cases (ltb count 255)) [
      | inr e ↦ rw (e, attrs_loop) s
      | inl e ↦ elim (Option-cases picked.0) [
        | inl f ↦
            rw (e, attrs_loop, f)
              (attrs_loop-Numbered registry (i + 1) size rest count bytes dst picked.1 w s)
        | inr (pieces, f) ↦
            let there = write_attr-Numbered pieces dst w s in
            elim (Copied-cases (write_attr pieces dst w)) [
              | inl (d, n, v, g) ↦
                  rw (e, attrs_loop, f, g)
                    (attrs_loop-Numbered registry (i + 1) size rest (count + 1)
                      (bytes + length (concat pieces)) d picked.1 v (rw (g, Numbered) at there))
              | inr (inl (v, g)) ↦ rw (e, attrs_loop, f, g) (rw (g, Numbered) at there)
              | inr (inr g) ↦ rw (e, attrs_loop, f, g) tt
            ]
      ]
    ]

pub serialize_attrs-Numbered :
    (registry : ℕ → AttrRegistry) (size : ℕ) (attrs : List AttrValue) (dst : ℕ) (cache : List Attr)
    (w : Writer)
    → IsSequenced w
    → NumberedAttrs (serialize_attrs registry size attrs dst cache w)
unfolding serialize_attrs
serialize_attrs-Numbered registry size attrs dst cache w s =
    attrs_loop-Numbered registry 0 size attrs 0 0 dst cache w s

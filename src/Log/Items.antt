-- ===== src/Log/Items.antt =====
-- A log record goes into the stream whole, or not at all, whatever buffers its arguments and attributes
-- take.
use selenge_muren.Prelude.{
  Bool, ℕ, ◌+◌, ◌-◌, ◌≤◌, ◌≡◌, inl, inr, refl, sym, ap, ◌∙◌, subst, Option, none, some, List, [],
  ◌∷◌, ◌++◌, length-append, arith, if◌then◌else◌, length, replicate,
}
use selenge_muren.Service.{align_up_8}
use selenge_muren.Format.{Arg}
use selenge_muren.Writer.{Byte, Buffer, Writer, le_bytes, put}
use selenge_muren.Registry.{Attr, AttrRegistry}
use selenge_muren.Record.{AttrValue, attrs_done, serialize_attrs, pad_commit}
use selenge_muren.Record.Pieces.{Reaches, Reaches-append, Follows}
use selenge_muren.Record.Attrs.{
  Copied-cases, Encoded, encode_attrs, Encodes, serialize_attrs-encode_attrs,
}
use selenge_muren.Record.Steady.{IsSteady}
use selenge_muren.Record.Poked.{pokes, splices}
use selenge_muren.Record.Whole.{
  Finished, finished_lem, headed, headed_lem, header-IsReady, header-Since, undone,
  Serialized-cases,
}
use selenge_muren.Log.{VaArg, write_args, finish_item, close_item, write_attrs, write_item}
use selenge_muren.Log.Arguments.{write_args-Follows, values_bytes}

-- The three stores into the header of a record whose size before padding is given.
abbrev pub patches : (args_size count size : ℕ) → List (ℕ × List Byte)
patches args_size count size =
    (30, le_bytes 2 args_size) ∷ (36, le_bytes 1 count) ∷ (32, le_bytes 2 (align_up_8 size)) ∷ []

-- A record: its header with the sizes and the count filled in, its arguments, its attributes, and its
-- padding.
abbrev pub item_text : (header args : List Byte) → Encoded → List Byte
item_text header args e =
    let size = 40 + length (args ++ e.bytes) in
    splices (patches (length args) e.count size) header
    ++ ((args ++ e.bytes) ++ replicate (align_up_8 size - size) none)

abbrev pub ItemOutcome : Writer → List Byte → Option (Bool × List Attr × Writer) → Type 0
ItemOutcome w text none = ⊥
ItemOutcome w text (some r) = Finished w (if r.0 then text else []) r.2

finish_item_lem :
    (commit start args_size count size dst : ℕ) (w : Writer)
    → finish_item commit start args_size count size dst w
      ≡ pad_commit dst size (pokes commit start (patches args_size count size) w)
unfolding finish_item
finish_item_lem commit start args_size count size dst w = refl

module _ (w : Writer) (b : Buffer) (header : List Byte) (s : IsSteady w) (at : w.current ≡ some b)
    (forty : length header ≡ 40) where
  -- The record that went on behind its header.
  done_item :
      (xs : List Byte) (e : Encoded) (n count bytes d : ℕ) (cache : List Attr) (v : Writer)
      → n ≡ length xs
      → count ≡ e.count
      → bytes ≡ length e.bytes
      → Reaches
          (headed w b header)
          (put b w.used header)
          (w.used + length header)
          s.seq_small
          s.cap_aligned
          (headed w b header)
          (w.used + length header)
          (xs ++ e.bytes)
          v
          d
      → ItemOutcome w (item_text header xs e) (close_item w n (attrs_done count bytes d cache v))
  unfolding close_item le_bytes
  done_item xs e n count bytes d cache v same_n same_count same_bytes reaches =
      let whole = length (xs ++ e.bytes) in
      let ps = patches (length xs) e.count (40 + whole) in
      let done =
        finished_lem w b header s at ps (xs ++ e.bytes) s.seq_small s.cap_aligned v d
          (omega (arith, forty), (omega (arith, forty), (omega (arith, forty), tt))) reaches in
      let size : 40 + (n + bytes) ≡ 40 + whole =
        omega (arith, same_n, same_bytes, length-append xs e.bytes) in
      let commit = length w.fragments in
      subst (λ x. Finished w (item_text header xs e) x)
        (sym (finish_item_lem commit w.used (length xs) e.count (40 + whole) d v)
          ∙ ap (λ (k : ℕ). finish_item commit w.used k e.count (40 + whole) d v) (sym same_n)
          ∙ ap (λ (k : ℕ). finish_item commit w.used n k (40 + whole) d v) (sym same_count)
          ∙ ap (λ (k : ℕ). finish_item commit w.used n count k d v) (sym size))
        (subst
          (λ k.
            Finished w
              (splices ps header
                ++ ((xs ++ e.bytes) ++ replicate (align_up_8 (k + whole) - (k + whole)) none))
              (pad_commit d (k + whole) (pokes commit w.used ps v)))
          forty done)

  -- The attributes behind the arguments.
  close_item-ItemOutcome :
      (xs : List Byte) (registry : ℕ → AttrRegistry) (attrs : List AttrValue) (cache : List Attr)
      (n d : ℕ) (u : Writer)
      → n ≡ 0 + length xs
      → let start = w.used + length header in
        Reaches w b w.used s.seq_small s.cap_aligned (headed w b header) start xs u d
        → Reaches
            (headed w b header)
            (put b w.used header)
            start
            s.seq_small
            s.cap_aligned
            (headed w b header)
            start
            xs
            u
            d
        → ItemOutcome w
            (item_text header xs (encode_attrs registry 0 (40 + length xs) attrs 0 cache))
            (close_item w n (serialize_attrs registry (40 + n) attrs d cache u))
  unfolding close_item
  close_item-ItemOutcome xs registry attrs cache n d u same_n p q =
      let v0 = headed w b header in
      let start = w.used + length header in
      let e = encode_attrs registry 0 (40 + n) attrs 0 cache in
      let same : n ≡ length xs = omega arith in
      let early =
        serialize_attrs-encode_attrs w b w.used s.seq_small s.cap_aligned registry (40 + n) attrs d
          cache u p.ready p.same_cap p.since in
      let late =
        serialize_attrs-encode_attrs v0 (put b w.used header) start s.seq_small s.cap_aligned
          registry (40 + n) attrs d cache u q.ready q.same_cap q.since in
      subst
        (λ k.
          ItemOutcome w (item_text header xs (encode_attrs registry 0 (40 + k) attrs 0 cache))
            (close_item w n (serialize_attrs registry (40 + n) attrs d cache u)))
        same
        (elim (Serialized-cases (serialize_attrs registry (40 + n) attrs d cache u)) [
          | inl (count, bytes, d', c, v, f) ↦
              let (r, same_count, same_bytes, _) = rw (f, Encodes) at late in
              rw f (
                done_item xs e n count bytes d' c v same same_count (omega (arith, same_bytes)) (
                  Reaches-append v0 (put b w.used header) start s.seq_small s.cap_aligned v0 u v
                    start d d' xs e.bytes q r))
          | inr (inl (c, v, f)) ↦ rw (f, ItemOutcome) (undone w b s at v (rw (f, Encodes) at early))
          | inr (inr f) ↦ absurd (rw (f, Encodes) at early)
        ])

  -- `send` with a buffer that has room for the header, whatever the arguments, the attributes, the sizes
  -- of the buffers and the pool's answers: either the output grows by the whole record, or it is as it
  -- was. The writer is steady in both cases, and the copy never runs out of rounds.
  pub write_item-ItemOutcome :
      (args : List (Arg × VaArg)) (registry : ℕ → AttrRegistry) (attrs : List AttrValue)
      (cache : List Attr)
      → w.used + 40 ≤ w.cap
      → let xs = values_bytes args in
        ItemOutcome w
          (item_text header xs (encode_attrs registry 0 (40 + length xs) attrs 0 cache))
          (write_item header args registry attrs cache w)
  unfolding write_item write_attrs
  write_item-ItemOutcome args registry attrs cache fits =
      let u = headed w b header in
      let xs = values_bytes args in
      let text = item_text header xs (encode_attrs registry 0 (40 + length xs) attrs 0 cache) in
      let start = w.used + length header in
      let room : start ≤ w.cap = omega (arith, forty, fits) in
      let ready = header-IsReady w b header s at room in
      let (before, behind) = header-Since w b header s at room in
      let early =
        write_args-Follows w b w.used s.seq_small s.cap_aligned args start 0 u ready refl before in
      let late =
        write_args-Follows u (put b w.used header) start s.seq_small s.cap_aligned args start 0 u
          ready refl behind in
      subst
        (λ v.
          ItemOutcome w text
            (write_attrs w registry attrs cache (write_args args (w.used + 40) 0 v)))
        (sym (headed_lem w b header at))
        (subst
          (λ k.
            ItemOutcome w text
              (write_attrs w registry attrs cache (write_args args (w.used + k) 0 u)))
          forty
          (elim (Copied-cases (write_args args start 0 u)) [
            | inl (d, n, v, f) ↦
                let (p, count) = rw (f, Follows) at early in
                let (q, _) = rw (f, Follows) at late in
                rw f (close_item-ItemOutcome xs registry attrs cache n d v count p q)
            | inr (inl (v, f)) ↦ rw f (undone w b s at v (rw (f, Follows) at early))
            | inr (inr f) ↦ absurd (rw (f, Follows) at early)
          ]))

-- ===== src/Record/Finished.antt =====
-- The end of a record: padding, the size in the buffer's header, and what the writer then holds.
use selenge_muren.Prelude.{
  ℕ, ◌+◌, ◌-◌, ◌%◌, ◌^◌, ◌≤◌, ◌<◌, ◌≡◌, refl, sym, ap, ◌∙◌, Option, none, List, [], ◌∷◌, ◌++◌,
  append_assoc, append-nil, arith, length, length-append, length-take, take, replicate,
  length-replicate, take-append_length,
}
use selenge_muren.Service.{align_up_8}
use selenge_muren.Writer.{Byte, Buffer, Writer}
use selenge_muren.Writer.Output.{output, IsHealthy, put_commit_lem, all_of}
use selenge_muren.Writer.Ready.{IsReady, content, contents, contents-append, written_to}
use selenge_muren.Record.{pad_commit}
use selenge_muren.Record.Splices.{take-past}
use selenge_muren.Record.Placed.{split_contents, Placed}

-- P8_ALIGN_UP_8 fills up to the next offset divisible by 8 where the record began at one.
pub padding_fits :
    (start size dst cap : ℕ)
    → dst % 8 ≡ (start + size) % 8
    → start % 8 ≡ 0
    → cap % 8 ≡ 0
    → dst ≤ cap
    → dst + (align_up_8 size - size) ≤ cap
padding_fits start size dst cap e s c h = omega arith

abbrev unknown : Byte
unknown = none

pub padding_ends :
    (start size dst : ℕ)
    → dst % 8 ≡ (start + size) % 8
    → start % 8 ≡ 0
    → (dst + (align_up_8 size - size)) % 8 ≡ 0
padding_ends start size dst e s = omega arith

-- The last buffer, as `pad_commit` leaves it.
abbrev padded : Buffer → (dst pad : ℕ) → Buffer
padded b dst pad = record b {
  size = (dst + pad) % 2 ^ 16;
  body = take (dst - 16) b.body ++ replicate pad none;
}

content-padded :
    (b : Buffer) (dst pad : ℕ)
    → 16 ≤ dst
    → dst + pad < 2 ^ 16
    → content (padded b dst pad) ≡ take (dst - 16) b.body ++ replicate pad none
content-padded b dst pad l h = all_of (take (dst - 16) b.body ++ replicate pad none) (dst + pad) h (
    omega (
      arith,
      length-append (take (dst - 16) b.body) (replicate pad none),
      length-take (dst - 16) b.body,
      length-replicate pad unknown,
    ))

-- What the parked buffers and the last one hold.
Placed-contents :
    (fragments : List Buffer) (before header tail : List Byte) (u : Writer) (d : ℕ)
    → Placed fragments before header tail u d
    → contents u.fragments ++ written_to u.current d
      ≡ contents fragments ++ (before ++ (header ++ tail))
Placed-contents fragments before header tail u d (Placed.here c junk at_f at_c body long) =
    ap (λ (fs : List Buffer). contents fs ++ written_to u.current d) at_f
    ∙ ap (λ (o : Option Buffer). contents fragments ++ written_to o d) at_c
    ∙ ap (◌++◌ (contents fragments)) (
        ap (take (d - 16)) (
          body
          ∙ ap (◌++◌ before) (sym (append_assoc header tail junk))
          ∙ sym (append_assoc before (header ++ tail) junk))
        ∙ take-append_length (before ++ (header ++ tail)) junk (d - 16)
            (omega (arith, long, length-append before (header ++ tail), length-append header tail)))
Placed-contents fragments before header tail u d (Placed.behind first extra rest at_f body long t) =
    let last = contents extra ++ written_to u.current d in
    let shown = take (first.size - 16 - length before - length header) rest in
    let text : content first ≡ before ++ (header ++ shown) =
      ap (take (first.size - 16)) body
      ∙ take-past (first.size - 16) before (header ++ rest) (omega (arith, long))
      ∙ ap (◌++◌ before)
          (take-past (first.size - 16 - length before) header rest (omega (arith, long))) in
    ap (λ (fs : List Buffer). contents fs ++ written_to u.current d) at_f
    ∙ split_contents fragments extra first (written_to u.current d)
    ∙ ap (◌++◌ (contents fragments)) (
        ap (λ (xs : List Byte). xs ++ last) text
        ∙ append_assoc before (header ++ shown) last
        ∙ ap (◌++◌ before) (append_assoc header shown last ∙ ap (◌++◌ header) t))

pub pad_commit_lem :
    (fragments : List Buffer) (before header tail : List Byte) (u : Writer) (d size : ℕ)
    → Placed fragments before header tail u d
    → IsReady u d
    → 64 ≤ u.cap
    → d + (align_up_8 size - size) ≤ u.cap
    → let v = pad_commit d size u in
      IsHealthy v
      × (output v
          ≡ contents u.delivered
            ++ (contents fragments
                ++ (before ++ (header ++ (tail ++ replicate (align_up_8 size - size) none)))))
      × (v.used ≡ d + (align_up_8 size - size))
unfolding pad_commit
pad_commit_lem fragments before header tail u d size p r low fits =
    let pad = align_up_8 size - size in
    let shown = content-padded r.buffer d pad r.low (omega (arith, r.cap_high)) in
    rw (put_commit_lem d (d + pad) (replicate pad none) u r.buffer r.at_hand) (
      record {
        tail = (
          omega (arith, r.cap_high),
          r.clean,
          omega (arith, r.low),
          fits,
          omega (
            arith,
            length-append (take (d - 16) r.buffer.body) (replicate pad none),
            length-take (d - 16) r.buffer.body,
            length-replicate pad unknown,
            r.filled,
          ),
        );
        cap_low = low;
        cap_high = r.cap_high;
      },
      parts (take (d - 16) r.buffer.body) pad (padded r.buffer d pad) shown (
          ap (λ (o : Option Buffer). contents u.fragments ++ written_to o d) (sym r.at_hand)
          ∙ Placed-contents fragments before header tail u d p),
      refl,
    )
  where
    parts :
        (last : List Byte) (pad : ℕ) (b : Buffer)
        → content b ≡ last ++ replicate pad none
        → contents u.fragments ++ last ≡ contents fragments ++ (before ++ (header ++ tail))
        → contents (u.delivered ++ (u.fragments ++ b ∷ []))
          ≡ contents u.delivered
            ++ (contents fragments ++ (before ++ (header ++ (tail ++ replicate pad none))))
    parts last pad b e f =
        let text = replicate pad unknown in
        contents-append u.delivered (u.fragments ++ b ∷ [])
        ∙ ap (◌++◌ (contents u.delivered)) (
            contents-append u.fragments (b ∷ [])
            ∙ ap (◌++◌ (contents u.fragments)) (append-nil (content b) ∙ e)
            ∙ sym (append_assoc (contents u.fragments) last text)
            ∙ ap (λ (xs : List Byte). xs ++ text) f
            ∙ append_assoc (contents fragments) (before ++ (header ++ tail)) text
            ∙ ap (◌++◌ (contents fragments)) (
                append_assoc before (header ++ tail) text
                ∙ ap (◌++◌ before) (append_assoc header tail text)))

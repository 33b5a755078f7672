-- ===== src/Record/Placed.antt =====
-- Where the header of a record stands while the record goes on: in the buffer at hand, or in one of
-- the parked buffers. The stores through `lp_hdr` change it there, and nothing else.
use selenge_muren.Prelude.{
  true, false, ℕ, ◌+◌, ◌-◌, ◌≤◌, ◌≡◌, refl, sym, ap, ◌∙◌, subst, Option, some, List, [], ◌∷◌, ◌++◌,
  append_assoc, arith, ltb, length, length-append, length-take, length-drop, take, drop,
  take-append-drop, take-length_self, lt→ltb, le→ltb,
}
use mathlib.Core.List.{append_cancel_left}
use selenge_muren.Writer.{Byte, Buffer, Writer}
use selenge_muren.Writer.Ready.{IsReady, content, contents, contents-append, written_to, stream}
use selenge_muren.Writer.Tracked.{Since}
use selenge_muren.Record.{splice, poke_buffer, poke_nth, poke}
use selenge_muren.Record.Splices.{length-splice, splice-append, splice-before, take-past}

-- Of the writer `u` with the write offset `d`: behind the parked buffers `fragments` stands the buffer
-- in which the record began, with `before` and then the record's `header`; and behind that the record
-- goes on with `tail` up to the write offset.
pub data Placed (fragments : List Buffer) (before header tail : List Byte) (u : Writer) (d : ℕ)
    : Type 0 where
  here :
      (c : Buffer) (junk : List Byte)
      → u.fragments ≡ fragments
      → u.current ≡ some c
      → c.body ≡ before ++ (header ++ (tail ++ junk))
      → d - 16 ≡ length before + (length header + length tail)
      → Placed fragments before header tail u d
  behind :
      (first : Buffer) (extra : List Buffer) (rest : List Byte)
      → u.fragments ≡ fragments ++ first ∷ extra
      → first.body ≡ before ++ (header ++ rest)
      → length before + length header ≤ first.size - 16
      → take (first.size - 16 - length before - length header) rest
          ++ (contents extra ++ written_to u.current d)
        ≡ tail
      → Placed fragments before header tail u d

-- A store of `bytes` at `k` inside the header.
abbrev pub at_header : List Byte → ℕ → ℕ
at_header before k = 16 + (length before + k)

splice_header :
    (k : ℕ) (bytes before header rest : List Byte)
    → k + length bytes ≤ length header
    → splice (at_header before k - 16) bytes (before ++ (header ++ rest))
      ≡ before ++ (splice k bytes header ++ rest)
splice_header k bytes before header rest h =
    splice-append (at_header before k - 16) k bytes before (header ++ rest) (omega arith)
    ∙ ap (◌++◌ before) (splice-before k bytes header rest h)

poke_nth-append :
    (offset : ℕ) (bytes : List Byte) (xs ys : List Buffer) (b : Buffer)
    → poke_nth (length xs) offset bytes (xs ++ b ∷ ys) ≡ xs ++ poke_buffer offset bytes b ∷ ys
poke_nth-append offset bytes [] ys b = refl
poke_nth-append offset bytes (x ∷ xs) ys b = ap (◌∷◌ x) (poke_nth-append offset bytes xs ys b)

pub same_buffer : (b c : Buffer) → some b ≡ some c → b ≡ c
same_buffer b c e = cc e

-- A store in the header leaves everything else.
pub poke-Placed :
    (fragments : List Buffer) (before header tail : List Byte) (u : Writer) (d k : ℕ)
    (bytes : List Byte)
    → k + length bytes ≤ length header
    → Placed fragments before header tail u d
    → Placed fragments before
        (splice k bytes header)
        tail
        (poke (length fragments) (at_header before k) bytes u)
        d
unfolding poke
poke-Placed fragments before header tail u d k bytes h (here c junk at_f at_c body long) =
    let same = length-splice k bytes header h in
    let no : ltb (length fragments) (length u.fragments) ≡ false =
      le→ltb (length fragments) (length u.fragments) (omega (arith, ap length at_f)) in
    rw (no, at_c, poke)
      (here (poke_buffer (at_header before k) bytes c) junk at_f refl
        (ap (splice (at_header before k - 16) bytes) body
          ∙ splice_header k bytes before header (tail ++ junk) h)
        (omega (arith, long, same)))
poke-Placed fragments before header tail u d k bytes h (behind first extra rest at_f body long t) =
    let same = length-splice k bytes header h in
    let yes : ltb (length fragments) (length u.fragments) ≡ true =
      lt→ltb (length fragments) (length u.fragments)
        (omega (arith, ap length at_f, length-append fragments (first ∷ extra))) in
    rw (yes, poke)
      (behind (poke_buffer (at_header before k) bytes first) extra rest
        (ap (poke_nth (length fragments) (at_header before k) bytes) at_f
          ∙ poke_nth-append (at_header before k) bytes fragments extra first)
        (ap (splice (at_header before k - 16) bytes) body
          ∙ splice_header k bytes before header rest h)
        (omega (arith, long, same))
        (ap
            (λ (n : ℕ).
              take (first.size - 16 - length before - n) rest
              ++ (contents extra ++ written_to u.current d))
            same
          ∙ t))

-- The writer is as ready as before, and what it handed over is as before.
pub poke-IsReady :
    (fragments : List Buffer) (before header tail : List Byte) (u : Writer) (d k : ℕ)
    (bytes : List Byte)
    → k + length bytes ≤ length header
    → Placed fragments before header tail u d
    → IsReady u d
    → let v = poke (length fragments) (at_header before k) bytes u in
      IsReady v d × (v.delivered ≡ u.delivered) × (v.cap ≡ u.cap)
unfolding poke
poke-IsReady fragments before header tail u d k bytes h (here c junk at_f at_c body long) r =
    let same = length-splice k bytes header h in
    let no : ltb (length fragments) (length u.fragments) ≡ false =
      le→ltb (length fragments) (length u.fragments) (omega (arith, ap length at_f)) in
    let e : r.buffer ≡ c = same_buffer r.buffer c (sym r.at_hand ∙ at_c) in
    let new = ap length (
      ap (splice (at_header before k - 16) bytes) body
      ∙ splice_header k bytes before header (tail ++ junk) h) in
    rw (no, at_c, poke)
      (
        record {
          buffer = poke_buffer (at_header before k) bytes c;
          at_hand = refl;
          clean = subst (λ b. b.flags ≡ 0) e r.clean;
          low = r.low;
          high = r.high;
          filled = omega (
            arith,
            new,
            r.low,
            long,
            same,
            length-append before (splice k bytes header ++ (tail ++ junk)),
            length-append (splice k bytes header) (tail ++ junk),
            length-append tail junk,
          );
          cap_low = r.cap_low;
          cap_high = r.cap_high;
        },
        refl,
        refl,
      )
poke-IsReady fragments before header tail u d k bytes h (behind first extra rest at_f body long t)
      r =
    let yes : ltb (length fragments) (length u.fragments) ≡ true =
      lt→ltb (length fragments) (length u.fragments)
        (omega (arith, ap length at_f, length-append fragments (first ∷ extra))) in
    rw (yes, poke)
      (
        record {
          buffer = r.buffer;
          at_hand = r.at_hand;
          clean = r.clean;
          low = r.low;
          high = r.high;
          filled = r.filled;
          cap_low = r.cap_low;
          cap_high = r.cap_high;
        },
        refl,
        refl,
      )

-- A buffer that starts like another.
same_start :
    (n : ℕ) (xs ys head : List Byte)
    → take n xs ≡ take n ys
    → ys ≡ head
    → n ≡ length head
    → xs ≡ head ++ drop n xs
same_start n xs ys head e f l =
    sym (take-append-drop n xs)
    ∙ ap (λ (zs : List Byte). zs ++ drop n xs)
        (e ∙ ap (take n) f ∙ take-length_self head n (omega arith))

-- What stands behind the same two parts.
appended :
    (xs start all head more tail : List Byte)
    → start ≡ head
    → all ≡ head ++ more
    → xs ++ all ≡ (xs ++ start) ++ tail
    → more ≡ tail
appended xs start all head more tail e f g = append_cancel_left head more tail (
    append_cancel_left xs (head ++ more) (head ++ tail) (
      ap (◌++◌ xs) (sym f)
      ∙ g
      ∙ append_assoc xs start tail
      ∙ ap (λ (ys : List Byte). xs ++ (ys ++ tail)) e))

pub split_contents :
    (xs extra : List Buffer) (first : Buffer) (last : List Byte)
    → contents (xs ++ first ∷ extra) ++ last
      ≡ contents xs ++ (content first ++ (contents extra ++ last))
split_contents xs extra first last =
    ap (λ (ys : List Byte). ys ++ last) (contents-append xs (first ∷ extra))
    ∙ append_assoc (contents xs) (content first ++ contents extra) last
    ∙ ap (◌++◌ (contents xs)) (append_assoc (content first) (contents extra) last)

head_lem :
    (n : ℕ) (b : Buffer) (head : List Byte) → b.body ≡ head → n ≡ length head → take n b.body ≡ head
head_lem n b head e l = ap (take n) e ∙ take-length_self head n (omega arith)

-- A record whose header has been copied, of `start` bytes up to its end, and that has gone on by
-- `tail` since then.
pub Since-Placed :
    (w u : Writer) (b : Buffer) (start d : ℕ) (before header tail : List Byte)
    → w.current ≡ some b
    → b.body ≡ before ++ header
    → start - 16 ≡ length before + length header
    → IsReady u d
    → Since w b start u d
    → stream u d ≡ stream w start ++ tail
    → Placed w.fragments before header tail u d
Since-Placed w u b start d before header tail at text long r
      (Since.unrotated c at_c same clean frags seq later hist) grown =
    let head = before ++ header in
    let n : start - 16 ≡ length head = long ∙ sym (length-append before header) in
    let rest = drop (start - 16) c.body in
    let body = same_start (start - 16) c.body b.body head same.bytes text n in
    let there : d ≤ 16 + length c.body =
      subst (λ x. d ≤ 16 + length x.body) (same_buffer r.buffer c (sym r.at_hand ∙ at_c))
        r.filled in
    let shown = ap (take (d - 16)) body ∙ take-past (d - 16) head rest (omega (arith, n)) in
    let same_tail =
      appended (contents w.fragments) (take (start - 16) b.body) (take (d - 16) c.body) head
        (take (d - 16 - length head) rest) tail (head_lem (start - 16) b head text n) shown
        (rw (frags, at_c, at) at grown) in
    here c (drop (d - 16 - length head) rest) frags at_c
      (body
        ∙ ap (◌++◌ head) (
            sym (take-append-drop (d - 16 - length head) rest)
            ∙ ap (λ (xs : List Byte). xs ++ drop (d - 16 - length head) rest) same_tail)
        ∙ append_assoc before header (tail ++ drop (d - 16 - length head) rest))
      (omega (
        arith,
        ap length same_tail,
        length-take (d - 16 - length head) rest,
        length-drop (start - 16) c.body,
        n,
        long,
      ))
Since-Placed w u b start d before header tail at text long r
      (Since.rotated first extra c at_c same flag sized frags seq hist) grown =
    let head = before ++ header in
    let n : start - 16 ≡ length head = long ∙ sym (length-append before header) in
    let rest = drop (start - 16) first.body in
    let body = same_start (start - 16) first.body b.body head same.bytes text n in
    let cut : first.size - 16 - length head ≡ first.size - 16 - length before - length header =
      omega (arith, length-append before header) in
    let shown =
      ap (take (first.size - 16)) body ∙ take-past (first.size - 16) head rest (omega (arith, n)) in
    let later = contents extra ++ written_to u.current d in
    behind first extra rest frags (body ∙ append_assoc before header rest) (omega (arith, long)) (
      ap (λ (k : ℕ). take k rest ++ later) (sym cut)
      ∙ appended (contents w.fragments) (take (start - 16) b.body) (content first ++ later) head
          (take (first.size - 16 - length head) rest ++ later) tail
          (head_lem (start - 16) b head text n)
          (ap (λ (xs : List Byte). xs ++ later) shown
            ∙ append_assoc head (take (first.size - 16 - length head) rest) later)
          (sym (split_contents w.fragments extra first (written_to u.current d))
            ∙ ap (λ (fs : List Buffer). contents fs ++ written_to u.current d) (sym frags)
            ∙ grown
            ∙ ap (λ (o : Option Buffer). (contents w.fragments ++ written_to o start) ++ tail) at))

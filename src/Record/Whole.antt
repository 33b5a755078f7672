-- ===== src/Record/Whole.antt =====
-- A record that found its buffers, as a whole: its header with the numbers stored into it later, its
-- pieces, and the padding.
use selenge_muren.Prelude.{
  ◌⊎◌, inl, inr, ℕ, ◌+◌, ◌-◌, ◌%◌, ◌^◌, ◌≤◌, ◌<◌, ◌≡◌, refl, sym, ap, ◌∙◌, subst, Option, none,
  some, List, [], ◌∷◌, ◌++◌, append_assoc, append-nil, arith, length, length-append, length-take,
  take, to_list, replicate, inl, inr,
}
use selenge_muren.Service.{align_up_8}
use selenge_muren.Registry.{Attr}
use selenge_muren.Writer.{discard, Byte, Buffer, Writer, put, put_current}
use selenge_muren.Writer.Output.{output, IsTail}
use selenge_muren.Writer.Ready.{IsReady, content, contents, contents-append}
use selenge_muren.Writer.Tracked.{Stuck, Since, SameHistory, put_current-Since}
use selenge_muren.Writer.Rollback.{discard-Restored, begins}
use selenge_muren.Record.{Serialized, attrs_done, attrs_failed, attrs_no_fuel, pad_commit}
use selenge_muren.Record.Pieces.{Reaches}
use selenge_muren.Record.Placed.{same_buffer, Since-Placed}
use selenge_muren.Record.Finished.{padding_fits, padding_ends, pad_commit_lem}
use selenge_muren.Record.Steady.{IsSteady, Restored-IsSteady, discard_kept}
use selenge_muren.Record.Poked.{splices, AllFit, pad_commit_numbers, pokes, pokes-Poked}

-- The writer in which a record begins.
pub steady-IsReady : (w : Writer) (b : Buffer) → IsSteady w → w.current ≡ some b → IsReady w w.used
steady-IsReady w b s at =
    let (size, clean, low, high, long) = rw (at, IsTail) at s.healthy.tail in
    record {
      buffer = b;
      at_hand = at;
      clean = clean;
      low = low;
      high = high;
      filled = long;
      cap_low = omega (arith, s.healthy.cap_low);
      cap_high = s.healthy.cap_high;
    }

steady-Since :
    (w : Writer) (b : Buffer) → IsSteady w → w.current ≡ some b → Since w b w.used w w.used
steady-Since w b s at =
    let r = steady-IsReady w b s at in
    subst (λ c. Since w c w.used w w.used) (same_buffer r.buffer b (sym r.at_hand ∙ at))
      (begins w w.used r)

put_current_lem :
    (w : Writer) (b : Buffer) (dst : ℕ) (bytes : List Byte)
    → w.current ≡ some b
    → put_current w dst bytes ≡ record w { current = some (put b dst bytes) }
unfolding put_current
put_current_lem w b dst bytes e = rw (e, put_current) refl

-- The writer behind the header.
abbrev pub headed : Writer → Buffer → List Byte → Writer
headed w b header = record w { current = some (put b w.used header) }

pub headed_lem :
    (w : Writer) (b : Buffer) (header : List Byte)
    → w.current ≡ some b
    → put_current w w.used header ≡ headed w b header
headed_lem w b header e = put_current_lem w b w.used header e

pub header-IsReady :
    (w : Writer) (b : Buffer) (header : List Byte)
    → IsSteady w
    → w.current ≡ some b
    → w.used + length header ≤ w.cap
    → IsReady (headed w b header) (w.used + length header)
unfolding put
header-IsReady w b header s at fits =
    let (_, clean, low, _, long) = rw (at, IsTail) at s.healthy.tail in
    record {
      buffer = put b w.used header;
      at_hand = refl;
      clean = clean;
      low = omega (arith, low);
      high = fits;
      filled = omega (
        arith,
        long,
        low,
        length-append (take (w.used - 16) b.body) header,
        length-take (w.used - 16) b.body,
      );
      cap_low = omega (arith, s.healthy.cap_low);
      cap_high = s.healthy.cap_high;
    }

-- Behind the header the record is one that began before it, and one that begins behind it.
pub header-Since :
    (w : Writer) (b : Buffer) (header : List Byte)
    → IsSteady w
    → w.current ≡ some b
    → w.used + length header ≤ w.cap
    → let start = w.used + length header in
      Since w b w.used (headed w b header) start
      × Since (headed w b header) (put b w.used header) start (headed w b header) start
header-Since w b header s at fits =
    let start = w.used + length header in
    let r = header-IsReady w b header s at fits in
    (
      subst (λ v. Since w b w.used v start) (headed_lem w b header at)
          (put_current-Since w b w.used s.seq_small w w.used start header (omega arith)
            (steady-Since w b s at)),
      subst (λ c. Since (headed w b header) c start (headed w b header) start)
          (same_buffer r.buffer (put b w.used header) (sym r.at_hand ∙ refl))
          (begins (headed w b header) start r),
    )

Since-history :
    (w : Writer) (b : Buffer) (start : ℕ) (v : Writer) (d : ℕ)
    → w.buf_seq < 2 ^ 32
    → Since w b start v d
    → SameHistory w v × (v.buf_seq < 2 ^ 32)
Since-history w b start v d l (Since.unrotated c at same clean frags seq later hist) =
    (hist, omega (arith, seq))
Since-history w b start v d l (Since.rotated first extra c at same flag sized frags seq hist) =
    (hist, omega (arith, seq))

regroup : (a b c d : List Byte) → a ++ (b ++ (c ++ d)) ≡ (a ++ (b ++ c)) ++ d
regroup a b c d = sym (append_assoc a (b ++ c) d ∙ ap (◌++◌ a) (append_assoc b c d))

-- The record that went on behind its header, up to the last store.
pub record Finished (w : Writer) (text : List Byte) (v : Writer) : Type 0 where
  pub steady : IsSteady v
  pub grown : output v ≡ output w ++ text
  pub cap : v.cap ≡ w.cap
  pub thread_id : v.thread_id ≡ w.thread_id

module _ (w : Writer) (b : Buffer) (header : List Byte) (s : IsSteady w)
    (at : w.current ≡ some b) where
  before : List Byte
  before = take (w.used - 16) b.body

  length-before : w.used ≡ 16 + length before
  unfolding before
  length-before =
      let (_, _, low, _, long) = rw (at, IsTail) at s.healthy.tail in
      omega (arith, low, long, length-take (w.used - 16) b.body)

  output-before : output w ≡ contents w.delivered ++ (contents w.fragments ++ before)
  unfolding before
  output-before =
      let (size, _, _, _, _) = rw (at, IsTail) at s.healthy.tail in
      ap (λ (o : Option Buffer). contents (w.delivered ++ (w.fragments ++ to_list o))) at
      ∙ contents-append w.delivered (w.fragments ++ b ∷ [])
      ∙ ap (◌++◌ (contents w.delivered)) (
          contents-append w.fragments (b ∷ [])
          ∙ ap (◌++◌ (contents w.fragments))
              (append-nil (content b) ∙ ap (λ (n : ℕ). take (n - 16) b.body) size))

  pub finished_lem :
      (ps : List (ℕ × List Byte)) (bytes : List Byte) (small : w.buf_seq < 2 ^ 32)
      (aligned : w.cap % 8 ≡ 0) (u : Writer) (d : ℕ)
      → AllFit (length header) ps
      → let start = w.used + length header in
        Reaches
          (headed w b header)
          (put b w.used header)
          start
          small
          aligned
          (headed w b header)
          start
          bytes
          u
          d
        → let size = length header + length bytes in
          Finished w
            (splices ps header ++ (bytes ++ replicate (align_up_8 size - size) none))
            (pad_commit d size (pokes (length w.fragments) w.used ps u))
  unfolding put before
  finished_lem ps bytes small aligned u d fit q =
      let start = w.used + length header in
      let size = length header + length bytes in
      let (hist, seq_u) =
        Since-history (headed w b header) (put b w.used header) start u d small q.since in
      let placed =
        Since-Placed (headed w b header) u (put b w.used header) start d before header bytes refl
          refl (omega (arith, length-before)) q.ready q.since q.grown in
      let p =
        pokes-Poked w.fragments before bytes d w.used ps header u length-before fit placed
          q.ready in
      let v = pokes (length w.fragments) w.used ps u in
      let moved : d % 8 ≡ (w.used + size) % 8 = omega (arith, q.moved) in
      let room : d + (align_up_8 size - size) ≤ w.cap =
        padding_fits w.used size d w.cap moved s.used_aligned aligned
          (omega (arith, q.ready.high, q.same_cap)) in
      let (healthy, grown, used) =
        pad_commit_lem w.fragments before (splices ps header) bytes v d size p.placed p.ready
          (omega (arith, p.cap, q.same_cap, s.healthy.cap_low))
          (omega (arith, p.cap, q.same_cap, room)) in
      let (seq, thread, cap) = pad_commit_numbers d size v in
      record {
        steady = record {
          healthy = healthy;
          used_aligned =
              ap (λ (n : ℕ). n % 8) used ∙ padding_ends w.used size d moved s.used_aligned;
          cap_aligned = omega (arith, cap, p.cap, q.same_cap, aligned);
          seq_small = omega (arith, seq, p.buf_seq, seq_u);
        };
        grown =
            grown
            ∙ ap
                (λ (bs : List Buffer).
                  contents bs
                  ++ (contents w.fragments
                      ++ (before
                          ++ (splices ps header
                              ++ (bytes ++ replicate (align_up_8 size - size) none)))))
                (p.delivered ∙ hist.delivered)
            ∙ regroup (contents w.delivered) (contents w.fragments) before
                (splices ps header ++ (bytes ++ replicate (align_up_8 size - size) none))
            ∙ ap
                (λ (bs : List Byte).
                  bs ++ (splices ps header ++ (bytes ++ replicate (align_up_8 size - size) none)))
                (sym output-before);
        cap = cap ∙ p.cap ∙ q.same_cap;
        thread_id = thread ∙ p.thread_id ∙ hist.thread_id;
      }

-- The record that found no buffer, once it is discarded.
pub undone :
    (w : Writer) (b : Buffer)
    → IsSteady w
    → w.current ≡ some b
    → (v : Writer) → Stuck w b w.used v
    → Finished w [] (discard (length w.fragments) w.used v)
undone w b s at v (Stuck.stuck first extra gone same flag sized frags seq hist) =
    let st = Stuck.stuck first extra gone same flag sized frags seq hist in
    let (_, _, low, high, _) = rw (at, IsTail) at s.healthy.tail in
    let restored =
      discard-Restored w b w.used v s.seq_small low (omega (arith, high, s.healthy.cap_high)) st in
    let (cap, thread) = discard_kept (length w.fragments) w.used v in
    let (steady, unchanged) =
      Restored-IsSteady w (discard (length w.fragments) w.used v) b s at restored
        (cap ∙ hist.cap) in
    record {
      steady = steady;
      grown = unchanged ∙ sym (append-nil (output w));
      cap = cap ∙ hist.cap;
      thread_id = thread ∙ hist.thread_id;
    }

pub Serialized-cases :
    (r : Serialized)
    → ((count : ℕ) × (bytes : ℕ) × (d : ℕ) × (c : List Attr) × (v : Writer) × (r
          ≡ attrs_done count bytes d c v))
      ⊎ (((c : List Attr) × (v : Writer) × (r ≡ attrs_failed c v)) ⊎ (r ≡ attrs_no_fuel))
Serialized-cases (attrs_done count bytes d c v) = inl (count, bytes, d, c, v, refl)
Serialized-cases (attrs_failed c v) = inr (inl (c, v, refl))
Serialized-cases attrs_no_fuel = inr (inr refl)

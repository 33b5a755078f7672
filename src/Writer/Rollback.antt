-- ===== src/Writer/Rollback.antt =====
-- A record that finds no buffer to go on in leaves no trace in the stream.
use selenge_muren.Prelude.{
  ℕ, ◌+◌, ◌%◌, ◌^◌, ◌≤◌, ◌<◌, ◌≡◌, inl, inr, refl, sym, subst, false, none, some, List, [], ◌∷◌,
  ◌++◌, append_assoc, append-nil, arith, ltb, ◌==◌, if◌then◌else◌, length, take-append_length,
  drop-append_length, ltb→lt, bit_and, Bool-cases,
}
use native.Mathlib.Nat.{mod-eq_of_lt}
use selenge_muren.Writer.{Buffer, Writer, prev_seq, release, release_last, cut_back, discard}
use selenge_muren.Writer.Ready.{IsReady}
use selenge_muren.Writer.Tracked.{SameStart, unrotated, Stuck, stuck, SameHistory, Since}

abbrev pub addrs_back : List Buffer → List ℕ
addrs_back [] = []
addrs_back (b ∷ bs) = addrs_back bs ++ b.addr ∷ []

-- The loop of the rollback gives every buffer back, and its number with it.
pub release_last_lem :
    (extra : List Buffer) (v : Writer) (n : ℕ)
    → v.buf_seq ≡ (n + length extra) % 2 ^ 32
    → release_last extra v
      ≡ record v { released = v.released ++ addrs_back extra; buf_seq = n % 2 ^ 32 }
unfolding release_last release
release_last_lem [] v n e = ground (arith, append-nil v.released)
release_last_lem (b ∷ rest) v n e =
    rw (release_last_lem rest v (n + 1) (omega arith))
      (ground (arith, append_assoc v.released (addrs_back rest) (b.addr ∷ [])))

-- What a rollback restores: the parked buffers, their numbers and the bytes before the record; the
-- buffers that the record took are given back.
pub record Restored (w : Writer) (b : Buffer) (start : ℕ) (v : Writer) : Type 0 where
  pub fragments : v.fragments ≡ w.fragments
  pub delivered : v.delivered ≡ w.delivered
  pub at_hand :
      16 < start
      → (c : Buffer) × (v.current ≡ some c) × SameStart start b c × (c.flags ≡ 0) × (c.size ≡ start)
  pub used : 16 < start → (v.used ≡ start) × (v.buf_seq ≡ w.buf_seq)
  pub first : start ≡ 16 → (v.current ≡ none) × (v.used ≡ 0) × (v.buf_seq ≡ prev_seq w.buf_seq)
  pub given_back :
      (extra : List Buffer) × (v.released
        ≡ w.released ++ addrs_back extra ++ (if start == 16 then b.addr ∷ [] else []))

-- The two ways in which a record can have begun.
cut_back_first :
    (w v : Writer) (b first : Buffer) (extra : List Buffer)
    → SameStart 16 b first
    → SameHistory w v
    → Restored w b 16 (
        cut_back 16 first (record v {
          fragments = w.fragments;
          released = v.released ++ addrs_back extra;
          buf_seq = w.buf_seq;
        }))
unfolding cut_back release
cut_back_first w v b first extra same hist = record {
  fragments = refl;
  delivered = hist.delivered;
  at_hand = λ h. absurd (omega arith);
  used = λ h. absurd (omega arith);
  first = λ h. (refl, refl, refl);
  given_back = (extra, ground arith);
}

cut_back_later :
    (w v : Writer) (b first : Buffer) (start : ℕ) (extra : List Buffer)
    → 16 < start
    → start < 2 ^ 16
    → SameStart start b first
    → first.flags ≡ 1
    → SameHistory w v
    → Restored w b start (
        cut_back start first (record v {
          fragments = w.fragments;
          released = v.released ++ addrs_back extra;
          buf_seq = w.buf_seq;
        }))
unfolding cut_back release
cut_back_later w v b first start extra low high same flag hist =
    let later : (start == 16) ≡ false = ground arith in
    rw (later, cut_back)
      (record {
        fragments = refl;
        delivered = hist.delivered;
        at_hand = λ h. (
          record first { flags = bit_and first.flags 0xfe; size = start % 2 ^ 16 },
          refl,
          record {
            addr = same.addr;
            packet_type = same.packet_type;
            thread_id = same.thread_id;
            writer_id = same.writer_id;
            buf_seq = same.buf_seq;
            bytes = same.bytes;
            long = same.long;
          },
          rw flag,
          omega arith,
        );
        used = λ h. (refl, refl);
        first = λ h. absurd (omega arith);
        given_back = (extra, ground (arith, append-nil (w.released ++ addrs_back extra)));
      })

discard_lem :
    (xs extra : List Buffer) (first : Buffer) (start : ℕ) (v : Writer)
    → v.fragments ≡ xs ++ first ∷ extra
    → discard (length xs) start v
      ≡ cut_back start first (release_last extra (record v { fragments = xs }))
unfolding discard
discard_lem xs extra first start v e = ground (
  arith,
  take-append_length xs (first ∷ extra) (length xs) refl,
  drop-append_length xs (first ∷ extra) (length xs) refl,
)

-- Of a record that began in the buffer `b` at hand, at offset `start`, and got stuck: `lbl_discard`
-- leaves the parked buffers, what was delivered and the bytes before `start` as they were before the
-- record. The buffers that the record took are given back, with their numbers; `b` itself too, if
-- the record was its first.
pub discard-Restored :
    (w : Writer) (b : Buffer) (start : ℕ) (v : Writer)
    → w.buf_seq < 2 ^ 32
    → 16 ≤ start
    → start < 2 ^ 16
    → Stuck w b start v
    → Restored w b start (discard (length w.fragments) start v)
discard-Restored w b start v small low high
      (stuck first extra gone same flag sized frags seq hist) =
    let back = release_last_lem extra (record v { fragments = w.fragments }) w.buf_seq seq in
    rw (discard_lem w.fragments extra first start v frags, back, mod-eq_of_lt small)
      (elim (Bool-cases (ltb 16 start)) [
        | inl h ↦ cut_back_later w v b first start extra (ltb→lt 16 start h) high same flag hist
        | inr h ↦
            let e : 16 ≡ start = ground arith in
            subst
              (λ s. Restored w b s (
                cut_back s first (record v {
                  fragments = w.fragments;
                  released = v.released ++ addrs_back extra;
                  buf_seq = w.buf_seq;
                })))
              e
              (cut_back_first w v b first extra (subst (λ s. SameStart s b first) (sym e) same)
                hist)
      ])

pub begins : (w : Writer) (start : ℕ) (r : IsReady w start) → Since w r.buffer start w start
begins w start r =
    unrotated r.buffer r.at_hand
      (record {
        addr = refl;
        packet_type = refl;
        thread_id = refl;
        writer_id = refl;
        buf_seq = refl;
        bytes = refl;
        long = r.filled;
      })
      r.clean refl refl (omega arith)
      (record {
        delivered = refl;
        released = refl;
        cap = refl;
        thread_id = refl;
        writer_id = refl;
        dropped_logs = refl;
        dropped_metrics = refl;
        dropped_traces = refl;
      })

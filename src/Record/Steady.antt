-- ===== src/Record/Steady.antt =====
-- Between two records a writer is healthy, its write offset is a multiple of 8, and so is the size of
-- its buffers; what a rollback restores is as steady as what it found.
use selenge_muren.Prelude.{
  Bool, true, ℕ, ◌+◌, ◌-◌, ◌%◌, ◌^◌, ◌≤◌, ◌<◌, ◌≡◌, ◌≢◌, inl, inr, refl, sym, ap, ◌∙◌, subst, none,
  some, List, [], ◌∷◌, ◌++◌, arith, ltb, take, drop, Bool-cases, Option-cases, List-cases, ltb→lt,
}
use selenge_muren.Writer.{
  release, Buffer, Writer, pull, acquire_wait, start_buffer, open_buffer, park, release_last,
  cut_back, discard,
}
use selenge_muren.Writer.Output.{output, IsHealthy, IsTail, open_buffer_lem}
use selenge_muren.Writer.Ready.{content, contents, contents-append}
use selenge_muren.Writer.Rollback.{Restored}

pub record IsSteady (w : Writer) : Type 0 where
  pub healthy : IsHealthy w
  pub used_aligned : w.used % 8 ≡ 0
  pub cap_aligned : w.cap % 8 ≡ 0
  pub seq_small : w.buf_seq < 2 ^ 32

release_last_kept :
    (bs : List Buffer) (w : Writer)
    → ((release_last bs w).cap ≡ w.cap) × ((release_last bs w).thread_id ≡ w.thread_id)
unfolding release_last release
release_last_kept [] w = (refl, refl)
release_last_kept (b ∷ bs) w = release_last_kept bs w

cut_back_kept :
    (start : ℕ) (b : Buffer) (w : Writer)
    → ((cut_back start b w).cap ≡ w.cap) × ((cut_back start b w).thread_id ≡ w.thread_id)
unfolding cut_back release
cut_back_kept start b w = ground arith

pub discard_kept :
    (commit start : ℕ) (w : Writer)
    → ((discard commit start w).cap ≡ w.cap) × ((discard commit start w).thread_id ≡ w.thread_id)
unfolding discard
discard_kept commit start w = elim (List-cases (drop commit w.fragments)) [
  | inl e ↦ rw (e, discard) (refl, refl)
  | inr (b, extra, e) ↦
      let kept : Writer = record w { fragments = take commit w.fragments } in
      let (cap, thread) = release_last_kept extra kept in
      let (cap', thread') = cut_back_kept start b (release_last extra kept) in
      rw (e, discard) (cap' ∙ cap, thread' ∙ thread)
]

-- The last buffer may change where its content stays, and may go where it has none.
same_last :
    (xs ys : List Buffer) (b c : Buffer)
    → content c ≡ content b
    → contents (xs ++ (ys ++ c ∷ [])) ≡ contents (xs ++ (ys ++ b ∷ []))
same_last xs ys b c e = simp (contents-append, e)

no_last :
    (xs ys : List Buffer) (b : Buffer)
    → content b ≡ []
    → contents (xs ++ (ys ++ [])) ≡ contents (xs ++ (ys ++ b ∷ []))
no_last xs ys b e = simp (contents-append, e)

-- What a rollback leaves is as steady as the writer in which the record began, with its output.
pub Restored-IsSteady :
    (w v : Writer) (b : Buffer)
    → IsSteady w
    → w.current ≡ some b
    → Restored w b w.used v
    → v.cap ≡ w.cap
    → IsSteady v × (output v ≡ output w)
Restored-IsSteady w v b s at r c =
    let (size, clean, low, high, long) = rw (at, IsTail) at s.healthy.tail in
    elim (Bool-cases (ltb 16 w.used)) [
      | inl h ↦
          let more : 16 < w.used = ltb→lt 16 w.used h in
          let (d, at_d, same, clean', size') = r.at_hand more in
          let (used, seq) = r.used more in
          (
            record {
              healthy = record {
                tail =
                    subst (IsTail v.used v.cap) (sym at_d) (
                      size' ∙ sym used,
                      clean',
                      omega arith,
                      omega arith,
                      omega (arith, same.long),
                    );
                cap_low = omega (arith, s.healthy.cap_low);
                cap_high = omega (arith, s.healthy.cap_high);
              };
              used_aligned = omega (arith, s.used_aligned);
              cap_aligned = omega (arith, s.cap_aligned);
              seq_small = omega (arith, s.seq_small);
            },
            rw (r.delivered, r.fragments, at_d, at)
                (same_last w.delivered w.fragments b d (
                  ap (λ (n : ℕ). take (n - 16) d.body) size'
                  ∙ same.bytes
                  ∙ ap (λ (n : ℕ). take (n - 16) b.body) (sym size))),
          )
      | inr h ↦
          let at_first : w.used ≡ 16 = ground arith in
          let (gone, used, seq) = r.first at_first in
          (
            record {
              healthy = record {
                tail = subst (IsTail v.used v.cap) (sym gone) tt;
                cap_low = omega (arith, s.healthy.cap_low);
                cap_high = omega (arith, s.healthy.cap_high);
              };
              used_aligned = omega arith;
              cap_aligned = omega (arith, s.cap_aligned);
              seq_small = omega arith;
            },
            rw (r.delivered, r.fragments, gone, at)
                (no_last w.delivered w.fragments b
                  (ap (λ (n : ℕ). take (n - 16) b.body) (size ∙ at_first))),
          )
    ]

-- The writer is steady again once it has a new buffer, or none.
pub emptied :
    (w v : Writer)
    → IsSteady w
    → IsHealthy v
    → v.used % 8 ≡ 0
    → v.cap ≡ w.cap
    → v.buf_seq < 2 ^ 32
    → IsSteady v
emptied w v s h u c q = record {
  healthy = h;
  used_aligned = u;
  cap_aligned = omega (arith, s.cap_aligned);
  seq_small = q;
}

-- Waiting for a buffer changes no number of a buffer, and leaves the write offset, or resets it.
acquire_wait_numbers :
    (w : Writer)
    → ((acquire_wait w).1.buf_seq ≡ w.buf_seq)
      × ((acquire_wait w).1.thread_id ≡ w.thread_id)
      × (w.used % 8 ≡ 0 → (acquire_wait w).1.used % 8 ≡ 0)
unfolding acquire_wait pull
acquire_wait_numbers w = elim (List-cases w.replies) [
  | inl e ↦ rw (e, acquire_wait) (refl, refl, λ h. h)
  | inr (r, rest, e) ↦ elim (Bool-cases r.pulled) [
    | inr p ↦ rw (e, acquire_wait, p) (refl, refl, λ h. h)
    | inl p ↦ elim (Option-cases w.current) [
      | inl o ↦ rw (e, acquire_wait, p, o) (refl, refl, λ h. h)
      | inr (b, o) ↦ rw (e, acquire_wait, p, o) (refl, refl, λ h. refl)
    ]
  ]
]

-- A buffer that is opened.
pub record Opens (w : Writer) (opened : Bool) (v : Writer) : Type 0 where
  pub steady : IsSteady v
  pub same_output : output v ≡ output w
  pub same_cap : v.cap ≡ w.cap
  pub same_thread : v.thread_id ≡ w.thread_id
  pub room : opened ≡ true → v.used + 48 ≤ v.cap
  pub at_hand : opened ≡ true → v.current ≢ none

open_buffer_numbers :
    (packet_type : ℕ) (w : Writer)
    → w.buf_seq < 2 ^ 32
    → w.used % 8 ≡ 0
    → let v = (open_buffer packet_type w).1 in
      (v.buf_seq < 2 ^ 32) × (v.used % 8 ≡ 0) × (v.thread_id ≡ w.thread_id)
unfolding open_buffer start_buffer
open_buffer_numbers packet_type w l u =
    let (seq, thread, aligned) = acquire_wait_numbers w in
    elim (Option-cases (acquire_wait w).0) [
      | inl e ↦ rw (e, open_buffer) (omega (arith, seq), aligned u, thread)
      | inr (addr, e) ↦ rw (e, open_buffer) (omega arith, refl, thread)
    ]

pub open_buffer-Opens :
    (packet_type : ℕ) (w : Writer)
    → w.current ≡ none
    → IsSteady w
    → Opens w (open_buffer packet_type w).0 (open_buffer packet_type w).1
open_buffer-Opens packet_type w gone s =
    let (same, cap, healthy, used, there) =
      open_buffer_lem packet_type w gone s.healthy.cap_low s.healthy.cap_high in
    let (seq, aligned, thread) = open_buffer_numbers packet_type w s.seq_small s.used_aligned in
    record {
      steady = emptied w (open_buffer packet_type w).1 s healthy aligned cap seq;
      same_output = same;
      same_cap = cap;
      same_thread = thread;
      room = λ t. omega (arith, used t, cap, s.healthy.cap_low);
      at_hand = there;
    }

pub park-IsSteady : (w : Writer) → IsSteady w → IsSteady (record (park w) { used = 0 })
unfolding park
park-IsSteady w s = elim (Option-cases w.current) [
  | inl e ↦
      rw (e, park)
        (emptied w _ s
          (record {
            tail = subst (IsTail 0 w.cap) (sym e) tt;
            cap_low = s.healthy.cap_low;
            cap_high = s.healthy.cap_high;
          })
          refl refl s.seq_small)
  | inr (b, e) ↦
      rw (e, park)
        (emptied w _ s
          (record { tail = tt; cap_low = s.healthy.cap_low; cap_high = s.healthy.cap_high }) refl
          refl s.seq_small)
]

-- ===== src/Writer/Output.antt =====
-- All bytes that a writer has put behind the headers of its buffers, in order, and how the shared
-- steps of its records change them.
use selenge_muren.Prelude.{
  subst, sym, ℕ, zero, suc, ◌+◌, ◌-◌, ◌/◌, ◌≢◌, ◌%◌, ◌^◌, ◌≤◌, ◌<◌, ◌≡◌, inl, inr, refl, true,
  Option, none, some, List, ◌++◌, append_assoc, append-nil, arith, length, length-append,
  length-take, take, to_list, take-length_self, Bool-cases, Option-cases, List-cases,
}
use selenge_muren.Writer.{
  Byte, Buffer, Writer, le_bytes, pull, acquire_wait, start_buffer, put, put_current, park,
  open_buffer, commit_size,
}
use selenge_muren.Writer.Sequence.{current-pull}
use selenge_muren.Writer.Ready.{contents, contents-append}

abbrev pub output : Writer → List Byte
output w = contents (w.delivered ++ (w.fragments ++ to_list w.current))

-- Between two records the header of the buffer at hand covers its bytes up to `mz_buf_used`.
abbrev pub IsTail : ℕ → ℕ → Option Buffer → Type 0
IsTail used cap none = Unit {0}
IsTail used cap (some b) =
    (b.size ≡ used) × (b.flags ≡ 0) × (16 ≤ used) × (used ≤ cap) × (used ≤ 16 + length b.body)

pub record IsHealthy (w : Writer) : Type 0 where
  pub tail : IsTail w.used w.cap w.current
  pub cap_low : 64 ≤ w.cap
  pub cap_high : w.cap < 2 ^ 16

pub length-le_bytes : (width n : ℕ) → length (le_bytes width n) ≡ width
unfolding le_bytes
length-le_bytes zero n = refl
length-le_bytes (suc width) n = omega (arith, length-le_bytes width (n / 256))

pub output-pull : (w : Writer) → output (pull w) ≡ output w
unfolding pull
output-pull w = elim (Option-cases w.current) [
  | inl e ↦ rw (e, pull) (simp (e, append-nil))
  | inr (b, e) ↦ rw (e, pull) (simp (append-nil, append_assoc))
]

pub cap-pull : (w : Writer) → (pull w).cap ≡ w.cap
unfolding pull
cap-pull w = ground arith

pub pull-IsHealthy : (w : Writer) → IsHealthy w → IsHealthy (pull w)
unfolding pull
pull-IsHealthy w h = elim (Option-cases w.current) [
  | inl e ↦ rw (e, pull) (record { tail = rw e tt; cap_low = h.cap_low; cap_high = h.cap_high })
  | inr (b, e) ↦ rw (e, pull) (record { tail = tt; cap_low = h.cap_low; cap_high = h.cap_high })
]

pub park_gone : (w : Writer) → (park w).current ≡ none
unfolding park
park_gone w = elim (Option-cases w.current) [ inl e ↦ rw (e, park) e | inr (b, e) ↦ rw (e, park) ]

pub park-IsHealthy : (w : Writer) → IsHealthy w → IsHealthy (park w)
unfolding park
park-IsHealthy w h = elim (Option-cases w.current) [
  | inl e ↦ rw (e, park) h
  | inr (b, e) ↦ rw (e, park) (record { tail = tt; cap_low = h.cap_low; cap_high = h.cap_high })
]

pub output-park : (w : Writer) → output (park w) ≡ output w
unfolding park
output-park w = elim (Option-cases w.current) [
  | inl e ↦ rw (e, park) (simp e)
  | inr (b, e) ↦ rw (e, park) (simp append-nil)
]

pub acquire_wait_keeps :
    (w : Writer)
    → w.current ≡ none
    → (output (acquire_wait w).1 ≡ output w)
      × ((acquire_wait w).1.current ≡ none)
      × ((acquire_wait w).1.cap ≡ w.cap)
unfolding acquire_wait
acquire_wait_keeps w e = elim (List-cases w.replies) [
  | inl n ↦ rw (n, acquire_wait) (refl, e, refl)
  | inr (r, rest, n) ↦ elim (Bool-cases r.pulled) [
    | inl p ↦
        let v : Writer = record w { replies = rest } in
        rw (n, acquire_wait, p) (output-pull v, current-pull v, cap-pull v)
    | inr p ↦ rw (n, acquire_wait, p) (refl, e, refl)
  ]
]

-- A new buffer adds nothing to the output.
pub open_buffer_lem :
    (packet_type : ℕ) (w : Writer)
    → w.current ≡ none
    → 64 ≤ w.cap
    → w.cap < 2 ^ 16
    → (output (open_buffer packet_type w).1 ≡ output w)
      × ((open_buffer packet_type w).1.cap ≡ w.cap)
      × IsHealthy (open_buffer packet_type w).1
      × ((open_buffer packet_type w).0 ≡ true → (open_buffer packet_type w).1.used ≡ 16)
      × ((open_buffer packet_type w).0 ≡ true → (open_buffer packet_type w).1.current ≢ none)
unfolding open_buffer start_buffer
open_buffer_lem packet_type w e l h =
    let (same, gone, cap) = acquire_wait_keeps w e in
    elim (Option-cases (acquire_wait w).0) [
      | inl o ↦
          rw (o, open_buffer)
            (
              same,
              cap,
              record {
                tail = subst (IsTail (acquire_wait w).1.used (acquire_wait w).1.cap) (sym gone) tt;
                cap_low = omega (arith, cap);
                cap_high = omega (arith, cap);
              },
              λ t. cc t,
              λ t. cc t,
            )
      | inr (addr, o) ↦
          rw (o, open_buffer)
            (
              simp (contents-append, append-nil) (simp (gone, contents-append, append-nil) at same),
              cap,
              record {
                tail = (refl, refl, omega arith, omega (arith, cap), omega arith);
                cap_low = omega (arith, cap);
                cap_high = omega (arith, cap);
              },
              λ t. refl,
              λ t n. cc n,
            )
    ]

pub all_of :
    (body : List Byte) (n : ℕ)
    → n < 2 ^ 16
    → length body + 16 ≤ n
    → take (n % 2 ^ 16 - 16) body ≡ body
all_of body n h l = take-length_self body (n % 2 ^ 16 - 16) (omega arith)

pub put_commit_lem :
    (dst n : ℕ) (bytes : List Byte) (w : Writer) (b : Buffer)
    → w.current ≡ some b
    → commit_size n (put_current w dst bytes) ≡ record w {
      used = n;
      current = some (record b { size = n % 2 ^ 16; body = take (dst - 16) b.body ++ bytes });
    }
unfolding commit_size put_current put
put_commit_lem dst n bytes w b e = ground arith

-- A record that stays in the buffer at hand, from `mz_buf_used` on, is what the output grows by.
pub put_record :
    (bytes : List Byte) (w : Writer) (b : Buffer)
    → IsHealthy w
    → w.current ≡ some b
    → w.used + length bytes ≤ w.cap
    → IsHealthy (commit_size (w.used + length bytes) (put_current w w.used bytes))
      × (output (commit_size (w.used + length bytes) (put_current w w.used bytes))
          ≡ output w ++ bytes)
put_record bytes w b h e fits =
    let (size, clean, low, high, long) = rw (e, IsTail) at h.tail in
    let kept : List Byte = take (w.used - 16) b.body in
    let n : length kept ≡ w.used - 16 = omega (arith, length-take (w.used - 16) b.body) in
    rw (put_commit_lem w.used (w.used + length bytes) bytes w b e) (
      record {
        tail = (omega arith, clean, omega arith, fits, omega (arith, n, length-append kept bytes));
        cap_low = h.cap_low;
        cap_high = h.cap_high;
      },
      simp (contents-append, append-nil, e)
          (rw
            (
              all_of (kept ++ bytes) (w.used + length bytes) (omega arith)
                  (omega (arith, n, length-append kept bytes)),
              size,
            )
            (simp append_assoc)),
    )

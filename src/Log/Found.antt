-- ===== src/Log/Found.antt =====
-- The buffer in which a log record begins.
use selenge_muren.Prelude.{
  Bool, true, false, ℕ, ◌+◌, ◌^◌, ◌≤◌, ◌<◌, ◌≡◌, ◌≢◌, inl, inr, refl, sym, ◌∙◌, subst, none, some,
  arith, ltb, sub_size, Bool-cases, Option-cases,
}
use selenge_muren.Writer.{Buffer, Writer, park, open_buffer}
use selenge_muren.Writer.Output.{output, IsTail, output-park, park_gone, park-IsHealthy}
use selenge_muren.Record.Steady.{IsSteady, open_buffer-Opens, emptied}
use selenge_muren.Log.{item_buffer, park_short_item, packet_logs}

-- A buffer with room for a header and 32 bytes more, or none.
pub record Found (w : Writer) (found : Bool) (v : Writer) : Type 0 where
  pub steady : IsSteady v
  pub same_output : output v ≡ output w
  pub same_thread : v.thread_id ≡ w.thread_id
  pub room : found ≡ true → v.used + 40 ≤ v.cap
  pub at_hand : found ≡ true → v.current ≢ none

opened :
    (w : Writer)
    → w.current ≡ none
    → IsSteady w
    → Found w (open_buffer packet_logs w).0 (open_buffer packet_logs w).1
opened w gone s =
    let o = open_buffer-Opens packet_logs w gone s in
    record {
      steady = o.steady;
      same_output = o.same_output;
      same_thread = o.same_thread;
      room = λ t. omega (arith, o.room t);
      at_hand = o.at_hand;
    }

parked_fields :
    (w : Writer)
    → ((park w).thread_id ≡ w.thread_id)
      × ((park w).used ≡ w.used)
      × ((park w).cap ≡ w.cap)
      × ((park w).buf_seq ≡ w.buf_seq)
unfolding park
parked_fields w = ground arith

-- The three ways to a buffer.
buffer_without : (w : Writer) → w.current ≡ none → item_buffer w ≡ open_buffer packet_logs w
unfolding item_buffer park_short_item
buffer_without w e = ground arith

buffer_short :
    (w : Writer) (b : Buffer)
    → w.current ≡ some b
    → ltb (sub_size w.cap w.used) 72 ≡ true
    → item_buffer w ≡ open_buffer packet_logs (park w)
unfolding item_buffer park_short_item
buffer_short w b e f = let gone = park_gone w in ground arith

buffer_ready :
    (w : Writer) (b : Buffer)
    → w.current ≡ some b
    → ltb (sub_size w.cap w.used) 72 ≡ false
    → item_buffer w ≡ (true, w)
unfolding item_buffer park_short_item
buffer_ready w b e f = ground arith

room_for :
    (max used : ℕ)
    → used ≤ max
    → max < 2 ^ 16
    → ltb (sub_size max used) 72 ≡ false
    → used + 40 ≤ max
room_for max used h c f = ground arith

pub item_buffer-Found : (w : Writer) → IsSteady w → Found w (item_buffer w).0 (item_buffer w).1
item_buffer-Found w s = elim (Option-cases w.current) [
  | inl e ↦ subst (λ r. Found w r.0 r.1) (sym (buffer_without w e)) (opened w e s)
  | inr (b, e) ↦ elim (Bool-cases (ltb (sub_size w.cap w.used) 72)) [
    | inl f ↦
        let (thread, used, cap, seq) = parked_fields w in
        let p =
          emptied w (park w) s (park-IsHealthy w s.healthy) (omega (arith, used, s.used_aligned))
            cap (omega (arith, seq, s.seq_small)) in
        let o = opened (park w) (park_gone w) p in
        subst (λ r. Found w r.0 r.1) (sym (buffer_short w b e f))
          (record {
            steady = o.steady;
            same_output = o.same_output ∙ output-park w;
            same_thread = o.same_thread ∙ thread;
            room = o.room;
            at_hand = o.at_hand;
          })
    | inr f ↦
        let (_, _, low, high, _) = rw (e, IsTail) at s.healthy.tail in
        subst (λ r. Found w r.0 r.1) (sym (buffer_ready w b e f))
          (record {
            steady = s;
            same_output = refl;
            same_thread = refl;
            room = λ t. room_for w.cap w.used high s.healthy.cap_high f;
            at_hand = λ t n. cc (e, n);
          })
  ]
]

-- ===== src/Metric/Emit.antt =====
-- A sample goes into the stream whole, or not at all.
use selenge_muren.Prelude.{
  ℕ, ◌+◌, ◌^◌, ◌≤◌, ◌<◌, ◌≡◌, ◌≢◌, inl, inr, refl, ◌∙◌, sym, ap, subst, Bool, not, ◌||◌, none, List,
  [], ◌++◌, arith, ltb, if◌then◌else◌, sub_size, length, Bool-cases, Option-cases, append-nil,
}
use selenge_muren.Writer.{Byte, Writer, le_bytes, park, open_buffer, put_current, commit_size}
use selenge_muren.Writer.Output.{
  output, IsHealthy, IsTail, output-park, park_gone, park-IsHealthy, open_buffer_lem, put_record,
}
use selenge_muren.Writer.Sequence.{
  IsSequenced, same_history, park-IsSequenced, open_buffer-IsSequenced, put_size-IsSequenced,
}
use selenge_muren.Metric.{packet_metrics, sample_bytes, is_unknown, park_full, write_sample, emit}

pub length-sample_bytes : (timestamp value id : ℕ) → length (sample_bytes timestamp value id) ≡ 24
unfolding sample_bytes le_bytes
length-sample_bytes timestamp value id = refl

cap-park : (w : Writer) → (park w).cap ≡ w.cap
unfolding park
cap-park w = ground arith

-- The test for a full buffer, where nothing wraps.
full_iff :
    (cap used : ℕ) → used ≤ cap → cap < 2 ^ 16 → ltb (sub_size cap used) 24 ≡ ltb cap (used + 24)
full_iff cap used h l = ground arith

used-le : (w : Writer) → IsHealthy w → w.current ≢ none → w.used ≤ w.cap
used-le w h e = elim (Option-cases w.current) [
  | inl n ↦ absurd (e n)
  | inr (b, s) ↦ (rw (s, IsTail) at h.tail).3
]

-- Without a buffer `mz_buf_used` is of no account.
reset_used : (w : Writer) → w.current ≡ none → IsHealthy w → IsHealthy (record w { used = 0 })
reset_used w e h = record {
  tail = subst (IsTail 0 w.cap) (sym e) tt;
  cap_low = h.cap_low;
  cap_high = h.cap_high;
}

-- A buffer that is left at hand has room for a sample.
park_full_lem :
    (w : Writer)
    → IsHealthy w
    → IsHealthy (park_full w)
      × (output (park_full w) ≡ output w)
      × ((park_full w).current ≢ none → (park_full w).used + 24 ≤ (park_full w).cap)
unfolding park_full
park_full_lem w h = elim (Bool-cases (ltb (sub_size w.cap w.used) 24)) [
  | inl e ↦ rw (e, park_full) (park-IsHealthy w h, output-park w, λ n. absurd (n (park_gone w)))
  | inr e ↦
      rw (e, park_full)
        (h, refl, λ n. ground (arith, full_iff w.cap w.used (used-le w h n) h.cap_high))
]

write_sample_lem :
    (timestamp value id : ℕ) (w : Writer)
    → IsHealthy w
    → w.current ≢ none
    → w.used + 24 ≤ w.cap
    → IsHealthy (write_sample timestamp value id w)
      × (output (write_sample timestamp value id w) ≡ output w ++ sample_bytes timestamp value id)
unfolding write_sample
write_sample_lem timestamp value id w h e fits = elim (Option-cases w.current) [
  | inl n ↦ absurd (e n)
  | inr (b, s) ↦
      let bytes : List Byte = sample_bytes timestamp value id in
      let n : length bytes ≡ 24 = length-sample_bytes timestamp value id in
      let (healthy, grown) =
        subst
          (λ k.
            IsHealthy (commit_size (w.used + k) (put_current w w.used bytes))
            × (output (commit_size (w.used + k) (put_current w w.used bytes)) ≡ output w ++ bytes))
          n (put_record bytes w b h s (omega (arith, n))) in
      let v : Writer = commit_size (w.used + 24) (put_current w w.used bytes) in
      elim (Bool-cases (ltb (sub_size v.cap v.used) 24)) [
        | inl t ↦
            rw (t, write_sample)
              (reset_used (park v) (park_gone v) (park-IsHealthy v healthy), output-park v ∙ grown)
        | inr t ↦ rw (t, write_sample) (healthy, grown)
      ]
]

-- `emit` on a healthy writer, on every path: the writer stays healthy, and its output has grown by
-- the sample if it returns true, and is as it was if it returns false.
pub emit_lem :
    (has_core : Bool) (count timestamp value id : ℕ) (w : Writer)
    → IsHealthy w
    → let (sent, v) = emit has_core count timestamp value id w in
      IsHealthy v × (output v ≡ output w ++ (if sent then sample_bytes timestamp value id else []))
unfolding emit
emit_lem has_core count timestamp value id w h =
    let v : Writer = park_full w in
    let (healthy, same, room) = park_full_lem w h in
    elim (Bool-cases (not has_core || is_unknown count id)) [
      | inl r ↦ rw (r, emit) (h, sym (append-nil (output w)))
      | inr r ↦ elim (Option-cases v.current) [
        | inr (b, s) ↦
            let there : v.current ≢ none = λ n. cc (s, n) in
            let (good, grown) = write_sample_lem timestamp value id v healthy there (room there) in
            rw (r, s, emit)
              (good, grown ∙ ap (λ (bs : List Byte). bs ++ sample_bytes timestamp value id) same)
        | inl s ↦
            let (kept, cap, good, start, there) =
              open_buffer_lem packet_metrics v s healthy.cap_low healthy.cap_high in
            let u : Writer = (open_buffer packet_metrics v).1 in
            elim (Bool-cases (open_buffer packet_metrics v).0) [
              | inl t ↦
                  let (fine, grown) =
                    write_sample_lem timestamp value id u good (there t)
                      (omega (arith, start t, cap, healthy.cap_low)) in
                  rw (r, s, emit, t)
                    (
                      fine,
                      grown
                          ∙ ap (λ (bs : List Byte). bs ++ sample_bytes timestamp value id)
                              (kept ∙ same),
                    )
              | inr t ↦
                  rw (r, s, emit, t)
                    (
                      record { tail = good.tail; cap_low = good.cap_low; cap_high = good.cap_high },
                      kept ∙ same ∙ sym (append-nil (output w)),
                    )
            ]
      ]
    ]

module _ (timestamp value id : ℕ) where
  park_full-IsSequenced : (w : Writer) → IsSequenced w → IsSequenced (park_full w)
  unfolding park_full
  park_full-IsSequenced w s = elim (Bool-cases (ltb (sub_size w.cap w.used) 24)) [
    | inl e ↦ rw (e, park_full) (park-IsSequenced w s)
    | inr e ↦ rw (e, park_full) s
  ]

  write_sample-IsSequenced :
      (w : Writer) → IsSequenced w → IsSequenced (write_sample timestamp value id w)
  unfolding write_sample
  write_sample-IsSequenced w s =
      let bytes : List Byte = sample_bytes timestamp value id in
      let v : Writer = commit_size (w.used + 24) (put_current w w.used bytes) in
      let s' = put_size-IsSequenced w.used (w.used + 24) bytes w s in
      elim (Bool-cases (ltb (sub_size v.cap v.used) 24)) [
        | inl t ↦ rw (t, write_sample) (same_history (park v) _ refl refl (park-IsSequenced v s'))
        | inr t ↦ rw (t, write_sample) s'
      ]

  -- On every path `emit` keeps the numbering of the writer's buffers, also when the worker pulls
  -- while it waits.
  pub emit-IsSequenced :
      (has_core : Bool) (count : ℕ) (w : Writer)
      → IsSequenced w
      → IsSequenced (emit has_core count timestamp value id w).1
  unfolding emit
  emit-IsSequenced has_core count w s =
      let v : Writer = park_full w in
      let sv = park_full-IsSequenced w s in
      elim (Bool-cases (not has_core || is_unknown count id)) [
        | inl r ↦ rw (r, emit) s
        | inr r ↦ elim (Option-cases v.current) [
          | inr (b, e) ↦ rw (r, e, emit) (write_sample-IsSequenced v sv)
          | inl e ↦
              let u : Writer = (open_buffer packet_metrics v).1 in
              let su = open_buffer-IsSequenced packet_metrics v e sv in
              elim (Bool-cases (open_buffer packet_metrics v).0) [
                | inl t ↦ rw (r, e, emit, t) (write_sample-IsSequenced u su)
                | inr t ↦ rw (r, e, emit, t) (same_history u _ refl refl su)
              ]
        ]
      ]

-- ===== src/Writer/Numbered.antt =====
-- The numbering of the buffers of a writer under the copies of a record and under its rollback.
use selenge_muren.Prelude.{
  ℕ, zero, suc, ◌+◌, ◌-◌, ◌%◌, ◌^◌, ◌≤◌, ◌≡◌, ◌⊎◌, inl, inr, refl, sym, ap, ◌∙◌, subst, Option,
  none, some, List, [], ◌∷◌, ◌++◌, append_assoc, append-nil, arith, leb, ◌==◌, length,
  length-append, take, drop, to_list, take-length_self, take-take-append, take-append_length,
  take-append-drop, Bool-cases, Option-cases, List-cases, false, bit_or,
}
use selenge_muren.Writer.{
  Byte, Buffer, Writer, Copied, done, failed, no_fuel, Space, room, no_room, acquire, rotate_from,
  make_space, fitting, put_current, copy_loop, copy_fragmented, write_piece, cut_back, discard,
  release,
}
use selenge_muren.Writer.Sequence.{
  IsSequenced, seqs, count_up, seqs-append, same_history, start_buffer-IsSequenced,
  put_current-IsSequenced,
}
use selenge_muren.Writer.Rollback.{addrs_back, release_last_lem}

-- How a copy leaves the numbering, also where it found no buffer.
abbrev pub Numbered : Copied → Type 0
Numbered (done d n v) = IsSequenced v
Numbered (failed v) = IsSequenced v × (v.current ≡ none)
Numbered no_fuel = Unit

abbrev NumberedSpace : Space → Type 0
NumberedSpace (room d v) = IsSequenced v
NumberedSpace (no_room v) = IsSequenced v × (v.current ≡ none)

acquire_lem :
    (w : Writer)
    → w.current ≡ none
    → IsSequenced w
    → IsSequenced (acquire w).1 × ((acquire w).1.current ≡ none)
unfolding acquire
acquire_lem w e s = elim (List-cases w.replies) [
  | inl f ↦ rw (f, acquire) (s, e)
  | inr (r, rest, f) ↦ rw (f, acquire) (same_history w (record w { replies = rest }) refl refl s, e)
]

-- The buffer that is parked keeps its number, and the new one gets the next.
rotate_from-Numbered :
    (b : Buffer) (w : Writer)
    → w.current ≡ some b
    → IsSequenced w
    → let r = rotate_from b w in IsSequenced r.1 × (r.0 ≡ false → r.1.current ≡ none)
unfolding rotate_from
rotate_from-Numbered b w n s =
    let parked : Writer = record w {
      fragments = w.fragments ++ record b { flags = bit_or b.flags 1; size = w.used % 2 ^ 16 } ∷ [];
      current = none;
    } in
    let (kept, gone) =
      acquire_lem parked refl (same_history w parked (simp (n, seqs-append, append-nil)) refl s) in
    elim (Option-cases (acquire parked).0) [
      | inl e ↦ rw (e, rotate_from) (kept, λ f. gone)
      | inr (addr, e) ↦
          rw (e, rotate_from)
            (start_buffer-IsSequenced addr b.packet_type (acquire parked).1 gone kept, λ f. cc f)
    ]

make_space-Numbered : (dst : ℕ) (w : Writer) → IsSequenced w → NumberedSpace (make_space dst w)
unfolding make_space
make_space-Numbered dst w s = elim (Bool-cases (w.cap - dst == 0)) [
  | inr e ↦ rw (e, make_space) s
  | inl e ↦ elim (Option-cases w.current) [
    | inl n ↦ rw (e, make_space, n) (s, n)
    | inr (b, n) ↦
        let v : Writer = record w { used = dst } in
        let (kept, gone) = rotate_from-Numbered b v n (same_history w v refl refl s) in
        elim (Bool-cases (rotate_from b v).0) [
          | inl f ↦ rw (e, make_space, n, f) kept
          | inr f ↦ rw (e, make_space, n, f) (kept, gone f)
        ]
  ]
]

Space-split :
    (r : Space) → ((d : ℕ) × (v : Writer) × (r ≡ room d v)) ⊎ ((v : Writer) × (r ≡ no_room v))
Space-split (room d v) = inl (d, v, refl)
Space-split (no_room v) = inr (v, refl)

copy_loop-Numbered :
    (fuel : ℕ) (src : List Byte) (dst written : ℕ) (w : Writer)
    → IsSequenced w
    → Numbered (copy_loop fuel src dst written w)
unfolding copy_loop
copy_loop-Numbered fuel [] dst written w s = s
copy_loop-Numbered zero (x ∷ src) dst written w s = tt
copy_loop-Numbered (suc fuel) (x ∷ src) dst written w s =
    let there = make_space-Numbered dst w s in
    elim (Space-split (make_space dst w)) [
      | inr (v, e) ↦ rw (e, copy_loop) (rw (e, NumberedSpace) at there)
      | inl (d, v, e) ↦
          let n = fitting (x ∷ src) (v.cap - d) in
          rw (e, copy_loop)
            (copy_loop-Numbered fuel (drop n (x ∷ src)) (d + n) (written + n)
              (put_current v d (take n (x ∷ src)))
              (put_current-IsSequenced v d (take n (x ∷ src)) (rw (e, NumberedSpace) at there)))
    ]

pub copy_fragmented-Numbered :
    (src : List Byte) (dst written : ℕ) (w : Writer)
    → IsSequenced w
    → Numbered (copy_fragmented src dst written w)
unfolding copy_fragmented
copy_fragmented-Numbered src dst written w s = copy_loop-Numbered (length src) src dst written w s

pub write_piece-Numbered :
    (src : List Byte) (dst written : ℕ) (w : Writer)
    → IsSequenced w
    → Numbered (write_piece src dst written w)
unfolding write_piece
write_piece-Numbered src dst written w s = elim (Bool-cases (leb (dst + length src) w.cap)) [
  | inl e ↦ rw (e, Numbered) (put_current-IsSequenced w dst src s)
  | inr e ↦ rw e (copy_fragmented-Numbered src dst written w s)
]

length-count_up : (n : ℕ) → length (count_up n) ≡ n
length-count_up zero = refl
length-count_up (suc n) =
    length-append (count_up n) (n % 2 ^ 32 ∷ []) ∙ omega (arith, length-count_up n)

length-seqs : (bs : List Buffer) → length (seqs bs) ≡ length bs
length-seqs [] = refl
length-seqs (b ∷ bs) = omega (arith, length-seqs bs)

take-count_up : (k n : ℕ) → k ≤ n → take k (count_up n) ≡ count_up k
take-count_up k zero h =
    let none_left : k ≡ 0 = omega arith in
    subst (λ (j : ℕ). take j [] ≡ count_up j) (sym none_left) refl
take-count_up k (suc n) h = elim (Bool-cases (leb k n)) [
  | inl e ↦
      let short : k ≤ n = ground arith in
      let full = take-length_self (count_up n) n (omega (arith, length-count_up n)) in
      ap (λ (xs : List ℕ). take k (xs ++ n % 2 ^ 32 ∷ [])) (sym full)
      ∙ take-take-append k n (count_up n) (n % 2 ^ 32 ∷ []) short (omega (arith, length-count_up n))
      ∙ take-count_up k n short
  | inr e ↦
      let all : suc n ≡ k = ground arith in
      subst (λ (j : ℕ). take j (count_up (suc n)) ≡ count_up j) all
        (take-length_self (count_up (suc n)) (suc n) (omega (arith, length-count_up (suc n))))
]

-- What stands before the last numbers is counted up itself.
prefix_lem :
    (total : ℕ) (xs ys : List ℕ)
    → xs ++ ys ≡ count_up total
    → (xs ≡ count_up (length xs)) × (total ≡ length xs + length ys)
prefix_lem total xs ys e =
    let sizes : total ≡ length xs + length ys =
      sym (length-count_up total) ∙ sym (ap length e) ∙ length-append xs ys in
    (
      sym (take-append_length xs ys (length xs) refl)
          ∙ ap (take (length xs)) e
          ∙ take-count_up (length xs) total (omega arith),
      sizes,
    )

-- The rest of the rollback, with the numbers up to the buffer that it cuts.
cut_back-IsSequenced :
    (start : ℕ) (b : Buffer) (w : Writer) (n : ℕ)
    → w.current ≡ none
    → seqs (w.delivered ++ w.fragments) ≡ count_up n
    → seqs (w.delivered ++ w.fragments) ++ b.buf_seq ∷ [] ≡ count_up (suc n)
    → w.buf_seq ≡ suc n % 2 ^ 32
    → IsSequenced (cut_back start b w)
unfolding cut_back release
cut_back-IsSequenced start b w n gone before upto next = elim (Bool-cases (start == 16)) [
  | inl e ↦
      rw (e, cut_back)
        (record {
          total = n;
          numbers =
              ap (λ (bs : List Buffer). seqs (w.delivered ++ bs)) (append-nil w.fragments) ∙ before;
          next = omega (arith, next);
        })
  | inr e ↦
      rw (e, cut_back)
        (record {
          total = suc n;
          numbers =
              ap seqs (sym (append_assoc w.delivered w.fragments _))
              ∙ seqs-append (w.delivered ++ w.fragments) _
              ∙ upto;
          next = next;
        })
]

-- `lbl_discard` behind a copy that found no buffer: the buffers that are left keep their numbers, and the
-- next one gets the number that follows.
pub discard-IsSequenced :
    (commit start : ℕ) (w : Writer)
    → w.current ≡ none
    → IsSequenced w
    → IsSequenced (discard commit start w)
unfolding discard
discard-IsSequenced commit start w gone s =
    let kept : Writer = record w { fragments = take commit w.fragments } in
    let joined = take-append-drop commit w.fragments in
    elim (List-cases (drop commit w.fragments)) [
      | inl e ↦
          let same : take commit w.fragments ≡ w.fragments =
            sym (append-nil (take commit w.fragments))
            ∙ ap (λ (bs : List Buffer). take commit w.fragments ++ bs) (sym e)
            ∙ joined in
          rw (e, discard)
            (same_history w kept
              (ap (λ (bs : List Buffer). seqs (w.delivered ++ (bs ++ to_list w.current))) same) refl
              s)
      | inr (b, extra, e) ↦
          let base = seqs (w.delivered ++ take commit w.fragments) in
          let split : base ++ b.buf_seq ∷ seqs extra ≡ count_up s.total =
            sym (seqs-append (w.delivered ++ take commit w.fragments) (b ∷ extra))
            ∙ ap seqs (append_assoc w.delivered (take commit w.fragments) (b ∷ extra))
            ∙ ap (λ (bs : List Buffer). seqs (w.delivered ++ bs))
                (ap (λ (bs : List Buffer). take commit w.fragments ++ bs) (sym e) ∙ joined)
            ∙ ap (λ (bs : List Buffer). seqs (w.delivered ++ bs)) (sym (append-nil w.fragments))
            ∙ ap (λ (o : Option Buffer). seqs (w.delivered ++ (w.fragments ++ to_list o)))
                (sym gone)
            ∙ s.numbers in
          let (before, sizes) = prefix_lem s.total base (b.buf_seq ∷ seqs extra) split in
          let (upto, _) =
            prefix_lem s.total (base ++ b.buf_seq ∷ []) (seqs extra)
              (append_assoc base (b.buf_seq ∷ []) (seqs extra) ∙ split) in
          let long : length (base ++ b.buf_seq ∷ []) ≡ suc (length base) =
            length-append base (b.buf_seq ∷ []) ∙ omega arith in
          let back =
            release_last_lem extra kept (suc (length base))
              (omega (arith, s.next, sizes, length-seqs extra)) in
          rw (e, discard)
            (subst (λ (v : Writer). IsSequenced (cut_back start b v)) (sym back)
              (cut_back-IsSequenced start b
                (record kept {
                  released = w.released ++ addrs_back extra;
                  buf_seq = suc (length base) % 2 ^ 32;
                })
                (length base) gone before (upto ∙ ap count_up long) refl))
    ]

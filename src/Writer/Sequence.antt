-- ===== src/Writer/Sequence.antt =====
-- The buffers of a writer are numbered 0, 1, 2, … in the order in which they are handed over.
use selenge_muren.Prelude.{
  ℕ, zero, suc, ◌%◌, ◌^◌, ◌≡◌, inl, inr, refl, sym, ap, ◌∙◌, none, List, [], ◌∷◌, ◌++◌,
  append_assoc, append-nil, arith, ltb, length, to_list, Bool-cases, Option-cases, List-cases,
}
use mathlib.Core.Path.{ap₂}
use selenge_muren.Writer.{
  Byte, Buffer, Writer, pull, core_push, acquire_wait, start_buffer, put, put_current, park,
  open_buffer, commit_size,
}

abbrev pub seqs : List Buffer → List ℕ
seqs [] = []
seqs (b ∷ bs) = b.buf_seq ∷ seqs bs

-- All buffers that the writer has numbered and not taken back, in the order of their handing over.
abbrev pub history : Writer → List ℕ
history w = seqs (w.delivered ++ (w.fragments ++ to_list w.current))

abbrev pub count_up : ℕ → List ℕ
count_up zero = []
count_up (suc n) = count_up n ++ n % 2 ^ 32 ∷ []

-- The numbers are those from 0 on, modulo 2 ^ 32, and the next buffer gets the next one.
pub record IsSequenced (w : Writer) : Type 0 where
  pub total : ℕ
  pub numbers : history w ≡ count_up total
  pub next : w.buf_seq ≡ total % 2 ^ 32

pub seqs-append : (xs ys : List Buffer) → seqs (xs ++ ys) ≡ seqs xs ++ seqs ys
seqs-append [] ys = refl
seqs-append (x ∷ xs) ys = ap (◌∷◌ x.buf_seq) (seqs-append xs ys)

-- An operation that keeps the history and the number of the next buffer keeps the numbering.
pub same_history :
    (w v : Writer) → history v ≡ history w → v.buf_seq ≡ w.buf_seq → IsSequenced w → IsSequenced v
same_history w v h e s = record { total = s.total; numbers = h ∙ s.numbers; next = e ∙ s.next }

history-pull : (w : Writer) → (history (pull w) ≡ history w) × ((pull w).buf_seq ≡ w.buf_seq)
unfolding pull
history-pull w = elim (Option-cases w.current) [
  | inl e ↦ rw (e, pull) (ap seqs (simp (e, append-nil)), refl)
  | inr (b, e) ↦ rw (e, pull) (ap seqs (simp (append-nil, append_assoc)), refl)
]

history-core_push :
    (w : Writer) → (history (core_push w) ≡ history w) × ((core_push w).buf_seq ≡ w.buf_seq)
unfolding core_push
history-core_push w = elim (Bool-cases (ltb 0 (length w.fragments))) [
  | inl t ↦
      rw (t, core_push)
        (ap seqs (append-nil (w.delivered ++ (w.fragments ++ to_list w.current))), refl)
  | inr t ↦ elim (List-cases w.fragments) [
    | inr (f, rest, e) ↦ absurd (ground arith)
    | inl e ↦ elim (Option-cases w.current) [
      | inl o ↦ rw (t, o, core_push) (ap seqs (simp o), refl)
      | inr (b, o) ↦ rw (t, o, core_push) (ap seqs (simp (e, append-nil)), refl)
    ]
  ]
]

-- What the worker pulls keeps the numbering.
pub pull-IsSequenced : (w : Writer) → IsSequenced w → IsSequenced (pull w)
pull-IsSequenced w = same_history w (pull w) (history-pull w).0 (history-pull w).1

pub core_push-IsSequenced : (w : Writer) → IsSequenced w → IsSequenced (core_push w)
core_push-IsSequenced w =
    same_history w (core_push w) (history-core_push w).0 (history-core_push w).1

pub acquire_wait-IsSequenced : (w : Writer) → IsSequenced w → IsSequenced (acquire_wait w).1
unfolding acquire_wait
acquire_wait-IsSequenced w s = elim (List-cases w.replies) [
  | inl e ↦ rw (e, acquire_wait) s
  | inr (r, rest, e) ↦ elim (Bool-cases r.pulled) [
    | inl p ↦
        rw (e, acquire_wait, p)
          (pull-IsSequenced (record w { replies = rest })
            (same_history w (record w { replies = rest }) refl refl s))
    | inr p ↦ rw (e, acquire_wait, p) (same_history w (record w { replies = rest }) refl refl s)
  ]
]

pub current-pull : (w : Writer) → (pull w).current ≡ none
unfolding pull
current-pull w = ground arith

pub current-acquire_wait : (w : Writer) → w.current ≡ none → (acquire_wait w).1.current ≡ none
unfolding acquire_wait
current-acquire_wait w e = grind (arith, current-pull)

pub put_current-IsSequenced :
    (w : Writer) (dst : ℕ) (bytes : List Byte)
    → IsSequenced w
    → IsSequenced (put_current w dst bytes)
unfolding put_current put
put_current-IsSequenced w dst bytes s = elim (Option-cases w.current) [
  | inl e ↦ rw (e, put_current) s
  | inr (b, e) ↦ rw (e, put_current) (same_history w _ (simp (e, seqs-append)) refl s)
]

pub start_buffer-IsSequenced :
    (addr packet_type : ℕ) (w : Writer)
    → w.current ≡ none
    → IsSequenced w
    → IsSequenced (start_buffer addr packet_type w)
unfolding start_buffer
start_buffer-IsSequenced addr packet_type w e s = record {
  total = suc s.total;
  numbers =
      ap seqs (sym (append_assoc w.delivered w.fragments _))
      ∙ seqs-append (w.delivered ++ w.fragments) _
      ∙ ap₂ (λ (xs : List ℕ) (n : ℕ). xs ++ n ∷ []) (simp (e, append-nil) at s.numbers) s.next;
  next = omega (arith, s.next);
}

history-park : (w : Writer) → (history (park w) ≡ history w) × ((park w).buf_seq ≡ w.buf_seq)
unfolding park
history-park w = elim (Option-cases w.current) [
  | inl e ↦ rw (e, park) (ap seqs (simp e), refl)
  | inr (b, e) ↦ rw (e, park) (ap seqs (simp append-nil), refl)
]

pub park-IsSequenced : (w : Writer) → IsSequenced w → IsSequenced (park w)
park-IsSequenced w = same_history w (park w) (history-park w).0 (history-park w).1

-- A buffer that arrives, or not, for a writer without one.
pub open_buffer-IsSequenced :
    (packet_type : ℕ) (w : Writer)
    → w.current ≡ none
    → IsSequenced w
    → IsSequenced (open_buffer packet_type w).1
unfolding open_buffer
open_buffer-IsSequenced packet_type w e s =
    let waited = acquire_wait-IsSequenced w s in
    elim (Option-cases (acquire_wait w).0) [
      | inl o ↦ rw (o, open_buffer) waited
      | inr (addr, o) ↦
          rw (o, open_buffer)
            (start_buffer-IsSequenced addr packet_type (acquire_wait w).1 (current-acquire_wait w e)
              waited)
    ]

pub put_size-IsSequenced :
    (dst n : ℕ) (bytes : List Byte) (w : Writer)
    → IsSequenced w
    → IsSequenced (commit_size n (put_current w dst bytes))
unfolding commit_size
put_size-IsSequenced dst n bytes w s =
    let s' = put_current-IsSequenced w dst bytes s in
    elim (Option-cases (put_current w dst bytes).current) [
      | inl e ↦ rw (e, commit_size) (same_history (put_current w dst bytes) _ (simp e) refl s')
      | inr (b, e) ↦
          rw (e, commit_size)
            (same_history (put_current w dst bytes) _ (simp (e, seqs-append)) refl s')
    ]

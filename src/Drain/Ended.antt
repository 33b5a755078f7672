-- ===== src/Drain/Ended.antt =====
-- engine/p8_tls_writer.cpp: the destructor of a writer against the core: its buffers, its drop counters and
-- its place in the list.
use selenge_muren.Prelude.{
  ℕ, ◌+◌, ◌%◌, ◌^◌, ◌≡◌, refl, sym, ap, ◌∙◌, true, false, Option, none, some, List, [], ◌∷◌, ◌++◌,
  ◌==◌, if◌then◌else◌, arith, append-nil, inl, inr, Option-cases, List-cases, to_list,
}
use selenge_muren.Writer.{Writer, DropStats, pending, pull_dropped}
use selenge_muren.Drain.{
  Core, submit_buffer, submit_chain, accumulate_dropped, unlink, unregister_writer,
}
use selenge_muren.Drain.Drops.{logs_of, metrics_of, traces_of}

-- `core_push`, as the core sees it.
unfoldable pub push_writer : Writer → Core → Core
unfolding submit_buffer submit_chain
push_writer w c = elim w.fragments [
  | [] ↦ submit_buffer w.current c
  | b ∷ bs ↦ submit_chain (b ∷ (bs ++ to_list w.current)) c
]

abbrev pub find_writer : ℕ → List Writer → Option Writer
find_writer id [] = none
find_writer id (w ∷ ws) = let rest = find_writer id ws in if w.writer_id == id then some w else rest

-- `~cp8_tls_writer` of the writer with the given id, up to the release of the core.
unfoldable pub destroy_writer : ℕ → Core → Core
unfolding push_writer accumulate_dropped unregister_writer pull_dropped
destroy_writer id c = elim (find_writer id c.writers) [
  | none ↦ c
  | some w ↦ unregister_writer id (accumulate_dropped (pull_dropped w).0 (push_writer w c))
]

-- No writer of a list has the id.
abbrev pub Lacks : ℕ → List Writer → Type 0
Lacks id [] = Unit
Lacks id (w ∷ ws) = ((w.writer_id == id) ≡ false) × Lacks id ws

found_lem :
    (id : ℕ) (xs ys : List Writer) (w : Writer)
    → Lacks id xs
    → (w.writer_id == id) ≡ true
    → (find_writer id (xs ++ w ∷ ys) ≡ some w) × (unlink id (xs ++ w ∷ ys) ≡ xs ++ ys)
found_lem id [] ys w l e = rw e (refl, refl)
found_lem id (x ∷ xs) ys w (n, l) e =
    let (found, left) = found_lem id xs ys w l e in rw n (found, ap (◌∷◌ x) left)

-- What leaves the list is what the writer had counted.
counted_lem :
    (xs ys : List Writer) (w : Writer)
    → (logs_of (xs ++ w ∷ ys) ≡ w.dropped_logs + logs_of (xs ++ ys))
      × (metrics_of (xs ++ w ∷ ys) ≡ w.dropped_metrics + metrics_of (xs ++ ys))
      × (traces_of (xs ++ w ∷ ys) ≡ w.dropped_traces + traces_of (xs ++ ys))
counted_lem [] ys w = (refl, refl, refl)
counted_lem (x ∷ xs) ys w =
    let (l, m, t) = counted_lem xs ys w in (omega (arith, l), omega (arith, m), omega (arith, t))

-- The buffers go behind those that were submitted before, and nothing else of the core changes but the
-- number of wakes.
push_writer_lem :
    (w : Writer) (c : Core)
    → c.initialized ≡ true
    → let d = push_writer w c in
      (d.ready ≡ c.ready ++ pending w) × (d.writers ≡ c.writers) × (d.dropped ≡ c.dropped)
unfolding push_writer submit_buffer submit_chain
push_writer_lem w c e = elim (List-cases w.fragments) [
  | inr (b, bs, f) ↦ rw (f, push_writer, e) (refl, refl, refl)
  | inl f ↦ elim (Option-cases w.current) [
    | inl g ↦ rw (f, push_writer, g) (sym (append-nil c.ready), refl, refl)
    | inr (b, g) ↦ rw (f, push_writer, g, e) (refl, refl, refl)
  ]
]

-- When a writer that stands in the list of an initialized core ends, all buffers that it holds are submitted,
-- in order, behind the others; its drops are in the totals, so that the totals and the counters of the
-- writers have the same sums as before, on 64 bits; and the list keeps every other writer as it was.
pub destroy_writer_lem :
    (id : ℕ) (xs ys : List Writer) (w : Writer) (c : Core)
    → c.initialized ≡ true
    → c.writers ≡ xs ++ w ∷ ys
    → Lacks id xs
    → w.writer_id ≡ id
    → let d = destroy_writer id c in
      (d.writers ≡ xs ++ ys)
      × (d.ready ≡ c.ready ++ pending w)
      × ((d.dropped.logs + logs_of d.writers) % 2 ^ 64
          ≡ (c.dropped.logs + logs_of c.writers) % 2 ^ 64)
      × ((d.dropped.metrics + metrics_of d.writers) % 2 ^ 64
          ≡ (c.dropped.metrics + metrics_of c.writers) % 2 ^ 64)
      × ((d.dropped.traces + traces_of d.writers) % 2 ^ 64
          ≡ (c.dropped.traces + traces_of c.writers) % 2 ^ 64)
unfolding destroy_writer accumulate_dropped unregister_writer pull_dropped
destroy_writer_lem id xs ys w c up at lacks same =
    let here : (w.writer_id == id) ≡ true = ground arith in
    let (found, left) = found_lem id xs ys w lacks here in
    let (ready, writers, dropped) = push_writer_lem w c up in
    let (l, m, t) = counted_lem xs ys w in
    let found' : find_writer id c.writers ≡ some w = ap (find_writer id) at ∙ found in
    let left' : unlink id (push_writer w c).writers ≡ xs ++ ys =
      ap (unlink id) (writers ∙ at) ∙ left in
    rw (found', destroy_writer)
      (
        left',
        ready,
        omega (arith, l, ap logs_of left', ap logs_of at, ap (λ (s : DropStats). s.logs) dropped),
        omega (
          arith,
          m,
          ap metrics_of left',
          ap metrics_of at,
          ap (λ (s : DropStats). s.metrics) dropped,
        ),
        omega (
          arith,
          t,
          ap traces_of left',
          ap traces_of at,
          ap (λ (s : DropStats). s.traces) dropped,
        ),
      )

-- ===== src/Batch/Numbered.antt =====
-- The batches of the worker carry all its buffers, and their numbers have no gap.
use selenge_muren.Prelude.{
  ℕ, ◌+◌, ◌%◌, ◌^◌, ◌≡◌, refl, ◌⊎◌, ap, inl, inr, none, some, List, [], ◌∷◌, ◌++◌, arith, length,
}
use selenge_muren.Batch.{Batch, Batcher, flush_ready, flush_all}

abbrev pub collected : List (List ℕ × ℕ) → List ℕ
collected [] = []
collected ((ready, ts) ∷ calls) = ready ++ collected calls

abbrev pub carried : List Batch → List ℕ
carried [] = []
carried (b ∷ bs) = b.buffers ++ carried bs

-- The numbers from `index` on, modulo 2 ^ 16, and each batch with the count of its buffers.
abbrev pub AllNumbered : ℕ → List Batch → Type 0
AllNumbered index [] = Unit
AllNumbered index (b ∷ bs) =
    (b.number ≡ index)
    × (b.count ≡ length b.buffers % 2 ^ 32)
    × AllNumbered ((index + 1) % 2 ^ 16) bs

-- The two ways in which a call ends: nothing to send yet, or a batch with all that it got.
pub flush_ready_lem :
    (ready : List ℕ) (ts : ℕ) (b : Batcher)
    → ((ready ≡ []) × (flush_ready ready ts b ≡ (none, b)))
      ⊎ (((flush_ready ready ts b).0
            ≡ some (record {
              number = b.index;
              count = length ready % 2 ^ 32;
              timestamp = ts;
              buffers = ready;
            }))
          × ((flush_ready ready ts b).1.index ≡ (b.index + 1) % 2 ^ 16))
unfolding flush_ready
flush_ready_lem [] ts b = ground arith
flush_ready_lem (x ∷ ready) ts b = ground arith

-- Whatever the worker collects and whenever it calls, its batches carry exactly the buffers collected,
-- in order, with their counts, and are numbered without a gap modulo 2 ^ 16.
pub flush_all-AllNumbered :
    (calls : List (List ℕ × ℕ)) (b : Batcher)
    → (carried (flush_all calls b) ≡ collected calls) × AllNumbered b.index (flush_all calls b)
unfolding flush_all
flush_all-AllNumbered [] b = (refl, tt)
flush_all-AllNumbered ((ready, ts) ∷ calls) b =
    let (same, numbered) = flush_all-AllNumbered calls (flush_ready ready ts b).1 in
    elim (flush_ready_lem ready ts b) [
      | inl (e, f) ↦ rw (f, e, flush_all) (flush_all-AllNumbered calls b)
      | inr (f, i) ↦ rw (f, flush_all) (ap (◌++◌ ready) same, (refl, refl, rw⁻¹ i numbered))
    ]

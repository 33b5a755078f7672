-- ===== src/Drain/Collected.antt =====
-- A batch takes all that the writers and the core hold, in order.
use selenge_muren.Prelude.{
  ℕ, ◌-◌, ◌≤◌, ◌≡◌, inl, inr, refl, ap, ◌∙◌, true, Option, List, [], ◌∷◌, ◌++◌, append_assoc, arith,
  to_list, if◌then◌else◌, ltb, Option-cases,
}
use selenge_muren.Writer.{Writer, Buffer, pending, pull}
use selenge_muren.Drain.{Core, pull_all, drain_writers, collect_batch}

-- What the writers hold, writer by writer.
abbrev pub held : List Writer → List Buffer
held [] = []
held (w ∷ ws) = pending w ++ held ws

pending-pull : (w : Writer) → pending (pull w) ≡ []
unfolding pull
pending-pull w = elim (Option-cases w.current) [
  | inl e ↦ rw (e, pull) (ap (λ (o : Option Buffer). to_list o) e)
  | inr (b, e) ↦ rw (e, pull) refl
]

pull_all_lem : (ws : List Writer) → ((pull_all ws).0 ≡ held ws) × (held (pull_all ws).1 ≡ [])
unfolding pull_all
pull_all_lem [] = (refl, refl)
pull_all_lem (w ∷ ws) =
    let (taken, empty) = pull_all_lem ws in
    (
      ap (◌++◌ (pending w)) taken,
      ap (λ (bs : List Buffer). bs ++ held (pull_all ws).1) (pending-pull w) ∙ empty,
    )

not_after : (margin now : ℕ) → (if ltb margin now then now - margin else 0) ≤ now
not_after margin now = ground arith

-- `collect_batch` on an initialized core: the batch is what was collected before, then all that the
-- writers hold, writer by writer and in their order, then the buffers that were submitted; afterwards
-- neither a writer nor the queue holds any, and the time of the batch is not after the clock's.
pub collect_batch_lem :
    (margin now : ℕ) (io_data : List Buffer) (c : Core)
    → c.initialized ≡ true
    → let (time, batch, d) = collect_batch margin now io_data c in
      (time ≤ now)
      × (batch ≡ io_data ++ (held c.writers ++ c.ready))
      × (held d.writers ≡ [])
      × (d.ready ≡ [])
unfolding collect_batch drain_writers
collect_batch_lem margin now io_data c e =
    let (taken, empty) = pull_all_lem c.writers in
    rw (e, drain_writers)
      (
        not_after margin now,
        ap (λ (bs : List Buffer). (io_data ++ bs) ++ c.ready) taken
            ∙ append_assoc io_data (held c.writers) c.ready,
        empty,
        refl,
      )

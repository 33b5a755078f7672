-- ===== src/Record/Poked.antt =====
-- What the stores into the header of a record leave of its writer.
use selenge_muren.Prelude.{
  inl, inr, ℕ, ◌+◌, ◌≤◌, ◌≡◌, refl, sym, ◌∙◌, subst, List, [], ◌∷◌, arith, length, Option-cases,
  inl, inr,
}
use selenge_muren.Writer.{Byte, Buffer, Writer, put_current, commit_size}
use selenge_muren.Writer.Ready.{IsReady}
use selenge_muren.Record.{splice, poke, pad_commit}
use selenge_muren.Record.Splices.{length-splice}
use selenge_muren.Record.Placed.{Placed, at_header, poke-Placed, poke-IsReady}

-- Stores into the header, the first one first.
abbrev pub pokes : (commit start : ℕ) → List (ℕ × List Byte) → Writer → Writer
pokes commit start [] w = w
pokes commit start ((k, bytes) ∷ ps) w = pokes commit start ps (poke commit (start + k) bytes w)

abbrev pub splices : List (ℕ × List Byte) → List Byte → List Byte
splices [] header = header
splices ((k, bytes) ∷ ps) header = splices ps (splice k bytes header)

abbrev pub AllFit : ℕ → List (ℕ × List Byte) → Type 0
AllFit n [] = Unit {0}
AllFit n ((k, bytes) ∷ ps) = (k + length bytes ≤ n) × AllFit n ps

poke_numbers :
    (commit offset : ℕ) (bytes : List Byte) (w : Writer)
    → ((poke commit offset bytes w).buf_seq ≡ w.buf_seq)
      × ((poke commit offset bytes w).thread_id ≡ w.thread_id)
unfolding poke
poke_numbers commit offset bytes w = ground arith

pub pad_commit_numbers :
    (dst size : ℕ) (w : Writer)
    → ((pad_commit dst size w).buf_seq ≡ w.buf_seq)
      × ((pad_commit dst size w).thread_id ≡ w.thread_id)
      × ((pad_commit dst size w).cap ≡ w.cap)
unfolding pad_commit put_current commit_size
pad_commit_numbers dst size w = elim (Option-cases w.current) [
  | inl e ↦ rw (e, pad_commit) (refl, refl, refl)
  | inr (b, e) ↦ rw (e, pad_commit) (refl, refl, refl)
]

-- What the stores leave.
pub record Poked (fragments : List Buffer) (before header tail : List Byte) (u v : Writer) (d : ℕ)
    : Type 0 where
  pub placed : Placed fragments before header tail v d
  pub ready : IsReady v d
  pub delivered : v.delivered ≡ u.delivered
  pub cap : v.cap ≡ u.cap
  pub buf_seq : v.buf_seq ≡ u.buf_seq
  pub thread_id : v.thread_id ≡ u.thread_id

pub pokes-Poked :
    (fragments : List Buffer) (before tail : List Byte) (d start : ℕ) (ps : List (ℕ × List Byte))
    (header : List Byte) (u : Writer)
    → start ≡ 16 + length before
    → AllFit (length header) ps
    → Placed fragments before header tail u d
    → IsReady u d
    → Poked fragments before (splices ps header) tail u (pokes (length fragments) start ps u) d
pokes-Poked fragments before tail d start [] header u e fit p r = record {
  placed = p;
  ready = r;
  delivered = refl;
  cap = refl;
  buf_seq = refl;
  thread_id = refl;
}
pokes-Poked fragments before tail d start ((k, bytes) ∷ ps) header u e (fits, fit) p r =
    let place : at_header before k ≡ start + k = omega arith in
    let v = poke (length fragments) (start + k) bytes u in
    let p' =
      subst
        (λ o.
          Placed fragments before (splice k bytes header) tail (poke (length fragments) o bytes u)
            d)
        place (poke-Placed fragments before header tail u d k bytes fits p) in
    let (r', delivered, cap) =
      subst
        (λ o.
          IsReady (poke (length fragments) o bytes u) d
          × ((poke (length fragments) o bytes u).delivered ≡ u.delivered)
          × ((poke (length fragments) o bytes u).cap ≡ u.cap))
        place (poke-IsReady fragments before header tail u d k bytes fits p r) in
    let (seq, thread) = poke_numbers (length fragments) (start + k) bytes u in
    let q =
      pokes-Poked fragments before tail d start ps (splice k bytes header) v e
        (subst (λ n. AllFit n ps) (sym (length-splice k bytes header fits)) fit) p' r' in
    record {
      placed = q.placed;
      ready = q.ready;
      delivered = q.delivered ∙ delivered;
      cap = q.cap ∙ cap;
      buf_seq = q.buf_seq ∙ seq;
      thread_id = q.thread_id ∙ thread;
    }

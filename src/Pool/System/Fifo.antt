-- ===== src/Pool/System/Fifo.antt =====
-- Blocked threads are answered in the order of their arrival, by the nodes that the calls mark done.
use selenge_muren.Prelude.{
  ℕ, ◌%◌, ◌≡◌, inl, inr, refl, sym, ap, Option, some, List, [], ◌∷◌, ◌++◌, append_assoc, append-nil,
  ◌∙◌, arith, List-cases, map, length, drop, drop-append_length,
}
use selenge_muren.Budget.{Budget}
use selenge_muren.Pool.{
  Pool, Waiter, create, acquire_wait, enqueue, resume, Served, recycle_buffer, stop_waiters,
  no_buffer,
}
use selenge_muren.Pool.Invariant.{
  IsValid, acquire_no_lock-SameQueue, recycle_buffer_idle, recycle_buffer_waited,
}
use selenge_muren.Pool.System.{
  System, Step, acquires, waits, resumes, recycles, stops, Reach, here, next, start, threads,
  arrival, served_threads, done,
}
use selenge_muren.Pool.System.Conserved.{Reach-IsValid}

-- The arrivals are the answered threads, then those that still wait, each in order.
abbrev pub InOrder : System → Type 0
InOrder s = s.arrived ≡ s.answered ++ threads s.pool.waiters

threads-append : (xs ys : List Waiter) → threads (xs ++ ys) ≡ threads xs ++ threads ys
threads-append [] ys = refl
threads-append (x ∷ xs) ys = ap (◌∷◌ x.thread) (threads-append xs ys)

acquire_wait-threads :
    (thread : ℕ) (m : Option ℕ) (p : Pool)
    → threads (acquire_wait thread m p).1.waiters
      ≡ threads p.waiters ++ arrival (acquire_wait thread m p).0 thread
unfolding acquire_wait enqueue
acquire_wait-threads thread m p = ground (
  arith,
  acquire_no_lock-SameQueue m p,
  append-nil (threads p.waiters),
  threads-append p.waiters (record { thread = thread; shard = p.cv_next % 64 } ∷ []),
)

served_threads-no_buffer : (ws : List Waiter) → served_threads (map no_buffer ws) ≡ threads ws
unfolding no_buffer
served_threads-no_buffer [] = refl
served_threads-no_buffer (w ∷ ws) = ap (◌∷◌ w.thread) (served_threads-no_buffer ws)

drop-length : (xs : List Served) → drop (length xs) xs ≡ []
drop-length [] = refl
drop-length (x ∷ xs) = drop-length xs

recycle_buffer-threads :
    (b : ℕ) (p : Pool)
    → IsValid p
    → done p (recycle_buffer b p).1 ++ threads (recycle_buffer b p).1.waiters ≡ threads p.waiters
recycle_buffer-threads b p v = elim (List-cases p.waiters) [
  | inl e ↦ rw (recycle_buffer_idle b p v e, e, drop-length p.served) refl
  | inr (w, rest, e) ↦
      rw
        (
          recycle_buffer_waited b p w rest v e,
          e,
          drop-append_length p.served (record { thread = w.thread; buffer = some b } ∷ [])
              (length p.served) refl,
        )
        refl
]

stop_waiters-threads :
    (p : Pool) → done p (stop_waiters p).1 ++ threads (stop_waiters p).1.waiters ≡ threads p.waiters
unfolding stop_waiters
stop_waiters-threads p =
    append-nil (served_threads (drop (length p.served) (p.served ++ map no_buffer p.waiters)))
    ∙ ap served_threads
        (drop-append_length p.served (map no_buffer p.waiters) (length p.served) refl)
    ∙ served_threads-no_buffer p.waiters

Step-InOrder : {s t : System} → IsValid s.pool → Step s t → InOrder s → InOrder t
Step-InOrder {s} v (acquires m f) o = ground (arith, acquire_no_lock-SameQueue m s.pool)
Step-InOrder {s} v (waits thread m f h) o =
    rw (o, acquire_wait-threads thread m s.pool)
      (append_assoc s.answered (threads s.pool.waiters)
        (arrival (acquire_wait thread m s.pool).0 thread))
Step-InOrder {s} v (resumes before after node e) o = unfold resume in o
Step-InOrder {s} v (recycles xs ys buffer e) o =
    rw (o, append_assoc) (ap (◌++◌ s.answered) (sym (recycle_buffer-threads buffer s.pool v)))
Step-InOrder {s} v stops o =
    rw (o, append_assoc) (ap (◌++◌ s.answered) (sym (stop_waiters-threads s.pool)))

-- From a new pool, whatever the clients do in whatever order: the threads in whose nodes `recycle` and
-- `stop_waiters` set `mb_done`, with a buffer or with none, are those that parked, strictly in the order
-- in which they did, and the threads still to come are the ones in the queue.
pub Reach-InOrder : (size : ℕ) (b : Option Budget) {s : System} → Reach (start size b) s → InOrder s
unfolding start create
Reach-InOrder size b here = refl
Reach-InOrder size b (next r st) = Step-InOrder (Reach-IsValid size b r) st (Reach-InOrder size b r)

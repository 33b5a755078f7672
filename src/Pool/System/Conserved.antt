-- ===== src/Pool/System/Conserved.antt =====
-- No buffer is lost, and none is in two hands.
use selenge_muren.Prelude.{
  ℕ, ◌+◌, ◌≤◌, ◌≡◌, inl, inr, refl, Option, none, some, List, [], ◌∷◌, ◌++◌, map, arith, count,
  count-append, to_list, List-cases, sym, append_assoc,
}
use selenge_muren.Budget.{Budget}
use selenge_muren.Pool.{
  Pool, Waiter, Served, create, acquire_no_lock, acquire_wait, enqueue, resume, recycle_buffer,
  stop_waiters, no_buffer,
}
use selenge_muren.Pool.Invariant.{
  IsValid, create-IsValid, acquire_no_lock-IsValid, acquire_wait-IsValid, recycle_buffer-IsValid,
  stop_waiters-IsValid, resume-IsValid, acquire_no_lock-Acquires, acquire_no_lock-SameQueue,
  recycle_buffer_idle, recycle_buffer_waited,
}
use selenge_muren.Pool.System.{
  System, Step, acquires, waits, resumes, recycles, stops, Reach, here, next, start, IsFresh, given,
}

-- The buffers in the nodes of threads that were woken and have not returned.
abbrev pub in_nodes : List Served → List ℕ
in_nodes [] = []
in_nodes (n ∷ ns) = to_list n.buffer ++ in_nodes ns

-- The buffer `a`: as often allocated as it is free, on its way to a waiter or held; once at most.
pub record Conserves (a : ℕ) (s : System) : Type 0 where
  pub total :
      count a s.pool.all ≡ count a s.pool.free + count a s.held + count a (in_nodes s.pool.served)
  pub once : count a s.pool.all ≤ 1

in_nodes-append : (xs ys : List Served) → in_nodes (xs ++ ys) ≡ in_nodes xs ++ in_nodes ys
in_nodes-append [] ys = refl
in_nodes-append (x ∷ xs) ys =
    rw (in_nodes-append xs ys) (sym (append_assoc (to_list x.buffer) (in_nodes xs) (in_nodes ys)))

in_nodes-map : (ws : List Waiter) → in_nodes (map no_buffer ws) ≡ []
unfolding no_buffer
in_nodes-map [] = refl
in_nodes-map (w ∷ ws) = in_nodes-map ws

module _ (a : ℕ) where
  acquire_no_lock-count :
      (m : Option ℕ) (p : Pool)
      → IsFresh m p
      → count a p.all ≤ 1
      → (count a (acquire_no_lock m p).1.all + count a p.free
          ≡ count a p.all
            + count a (acquire_no_lock m p).1.free
            + count a (to_list (acquire_no_lock m p).0))
        × (count a (acquire_no_lock m p).1.all ≤ 1)
  acquire_no_lock-count none p f o = ground (arith, acquire_no_lock-Acquires none p)
  acquire_no_lock-count (some x) p f o =
      ground (arith, acquire_no_lock-Acquires (some x) p, count-append a p.all (x ∷ []))

  acquire_wait-count :
      (thread : ℕ) (m : Option ℕ) (p : Pool)
      → ((acquire_wait thread m p).1.all ≡ (acquire_no_lock m p).1.all)
        × ((acquire_wait thread m p).1.free ≡ (acquire_no_lock m p).1.free)
        × ((acquire_wait thread m p).1.served ≡ p.served)
        × (given (acquire_wait thread m p).0 ≡ to_list (acquire_no_lock m p).0)
  unfolding acquire_wait enqueue
  acquire_wait-count thread m p = ground (arith, acquire_no_lock-SameQueue m p)

  recycle_buffer-count :
      (b : ℕ) (p : Pool)
      → IsValid p
      → (count a (recycle_buffer b p).1.free + count a (in_nodes (recycle_buffer b p).1.served)
          ≡ count a p.free + count a (in_nodes p.served) + count a (b ∷ []))
        × ((recycle_buffer b p).1.all ≡ p.all)
  recycle_buffer-count b p v = elim (List-cases p.waiters) [
    | inl e ↦ rw (recycle_buffer_idle b p v e) (omega (arith, count-append a p.free (b ∷ [])), refl)
    | inr (w, rest, e) ↦ rw (recycle_buffer_waited b p w rest v e) (
      ground (
        arith,
        in_nodes-append p.served (record { thread = w.thread; buffer = some b } ∷ []),
        count-append a (in_nodes p.served) (b ∷ []),
      ),
      refl,
    )
  ]

  Step-Conserves : {s t : System} → IsValid s.pool → Step s t → Conserves a s → Conserves a t
  Step-Conserves {s} v (acquires m f) c = ground (
    arith,
    acquire_no_lock-count m s.pool f c.once,
    acquire_no_lock-SameQueue m s.pool,
    count-append a (to_list (acquire_no_lock m s.pool).0) s.held,
  )
  Step-Conserves {s} v (waits thread m f h) c = ground (
    arith,
    acquire_no_lock-count m s.pool f c.once,
    acquire_wait-count thread m s.pool,
    count-append a (given (acquire_wait thread m s.pool).0) s.held,
  )
  Step-Conserves {s} v (resumes before after node e) c =
      unfold resume in
      ground (
        arith,
        count-append a (to_list node.buffer) s.held,
        in_nodes-append before (node ∷ after),
        in_nodes-append before after,
        count-append a (in_nodes before) (to_list node.buffer ++ in_nodes after),
        count-append a (to_list node.buffer) (in_nodes after),
        count-append a (in_nodes before) (in_nodes after),
      )
  Step-Conserves {s} v (recycles xs ys buffer e) c = ground (
    arith,
    recycle_buffer-count buffer s.pool v,
    count-append a xs (buffer ∷ ys),
    count-append a xs ys,
  )
  Step-Conserves {s} v stops c =
      unfold stop_waiters in
      ground (
        arith,
        in_nodes-append s.pool.served (map no_buffer s.pool.waiters),
        in_nodes-map s.pool.waiters,
        count-append a (in_nodes s.pool.served) [],
      )

-- The bookkeeping stays consistent along every step.
pub Step-IsValid : {s t : System} → Step s t → IsValid s.pool → IsValid t.pool
Step-IsValid {s} (acquires m f) v = acquire_no_lock-IsValid m s.pool v
Step-IsValid {s} (waits thread m f h) v = acquire_wait-IsValid thread m s.pool h v
Step-IsValid {s} (resumes before after node e) v = resume-IsValid before after node s.pool e v
Step-IsValid {s} (recycles xs ys buffer e) v = recycle_buffer-IsValid buffer s.pool v
Step-IsValid {s} stops v = stop_waiters-IsValid s.pool v

-- From a new pool, whatever the clients do in whatever order: nobody waits while a buffer is free,
-- the counters are the lengths of their queues, and nobody waits once `stop_waiters` has run.
pub Reach-IsValid :
    (size : ℕ) (b : Option Budget) {s : System} → Reach (start size b) s → IsValid s.pool
unfolding start
Reach-IsValid size b here = create-IsValid size b
Reach-IsValid size b (next r st) = Step-IsValid st (Reach-IsValid size b r)

-- From a new pool, whatever the clients do in whatever order: a buffer is in one place at a time,
-- in the free list, with a client or in the node of a woken thread, and never leaves the pool.
pub Reach-Conserves :
    (size : ℕ) (b : Option Budget) (a : ℕ) {s : System} → Reach (start size b) s → Conserves a s
unfolding start create
Reach-Conserves size b a here = record { total = refl; once = omega arith }
Reach-Conserves size b a (next r st) =
    Step-Conserves a (Reach-IsValid size b r) st (Reach-Conserves size b a r)

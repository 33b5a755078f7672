-- ===== src/Pool/System.antt =====
-- The pool with its clients, under every order of their calls. The clients' own buffers and the
-- arrival order, which the code does not store, are kept beside it.
pub mod Conserved
pub mod Fifo
pub mod Memory
use selenge_muren.Prelude.{
  ℕ, suc, ◌+◌, ◌^◌, ◌≤◌, ◌<◌, ◌≡◌, Option, none, some, List, [], ◌∷◌, ◌++◌, map, count, to_list,
  length, drop,
}
use selenge_muren.Budget.{Budget}
use selenge_muren.Pool.{
  Pool, Waiter, Served, Acquired, returned, parked, create, acquire_no_lock, acquire_wait, resume,
  recycle_buffer, stop_waiters,
}

pub record System : Type 0 where
  pub pool : Pool
  pub held : List ℕ
  pub arrived : List ℕ
  pub answered : List ℕ

-- What `new` returns is none of the buffers that the pool still has.
abbrev pub IsFresh : Option ℕ → Pool → Type 0
IsFresh none p = Unit {0}
IsFresh (some x) p = count x p.all ≡ 0

abbrev pub threads : List Waiter → List ℕ
threads [] = []
threads (w ∷ ws) = w.thread ∷ threads ws

abbrev pub served_threads : List Served → List ℕ
served_threads [] = []
served_threads (node ∷ nodes) = node.thread ∷ served_threads nodes

-- The threads in whose nodes a call from `p` to `q` has set `mb_done`: it appends them.
abbrev pub done : Pool → Pool → List ℕ
done p q = served_threads (drop (length p.served) q.served)

abbrev pub given : Acquired → List ℕ
given (returned b) = to_list b
given parked = []

abbrev pub arrival : Acquired → ℕ → List ℕ
arrival parked thread = thread ∷ []
arrival (returned b) thread = []

-- A call of a client, or the return of a woken thread. A client recycles what it holds, and there
-- are fewer than 2 ^ 32 blocked threads.
pub data Step (s : System) : System → Type 0 where
  acquires :
      (memory : Option ℕ)
      → IsFresh memory s.pool
      → Step s (record s {
        pool = (acquire_no_lock memory s.pool).1;
        held = to_list (acquire_no_lock memory s.pool).0 ++ s.held;
      })
  waits :
      (thread : ℕ) (memory : Option ℕ)
      → IsFresh memory s.pool
      → s.pool.inflight + 1 < 2 ^ 32
      → Step s (record s {
        pool = (acquire_wait thread memory s.pool).1;
        held = given (acquire_wait thread memory s.pool).0 ++ s.held;
        arrived = s.arrived ++ arrival (acquire_wait thread memory s.pool).0 thread;
      })
  resumes :
      (before after : List Served) (node : Served)
      → s.pool.served ≡ before ++ node ∷ after
      → Step s (record s {
        pool = (resume before node after s.pool).1;
        held = to_list (resume before node after s.pool).0 ++ s.held;
      })
  recycles :
      (xs ys : List ℕ) (buffer : ℕ)
      → s.held ≡ xs ++ buffer ∷ ys
      → Step s (record s {
        pool = (recycle_buffer buffer s.pool).1;
        held = xs ++ ys;
        answered = s.answered ++ done s.pool (recycle_buffer buffer s.pool).1;
      })
  stops : Step s (record s {
    pool = (stop_waiters s.pool).1;
    answered = s.answered ++ done s.pool (stop_waiters s.pool).1;
  })

pub data Reach (s : System) : System → Type 0 where
  here : Reach s s
  next : {t u : System} → Reach s t → Step t u → Reach s u

-- A new pool, of which nobody has a buffer.
unfoldable pub start : ℕ → Option Budget → System
start size b = record { pool = create size b; held = []; arrived = []; answered = [] }

-- ===== src/Pool/Invariant.antt =====
-- The bookkeeping of the pool is consistent after every operation.
use selenge_muren.Prelude.{
  ℕ, ◌+◌, ◌%◌, ◌^◌, ◌<◌, ◌≡◌, ◌⊎◌, ◌≢◌, append-nil, inl, inr, refl, Bool, true, false, Option, none,
  some, List, [], ◌∷◌, ◌++◌, map, arith, length, length-append, to_list, List-cases, ap,
}
use selenge_muren.Budget.{Budget}
use selenge_muren.Pool.{
  Pool, Waiter, Served, reserve, unreserve, pull_first, create, grow, acquire_no_lock, enqueue,
  acquire_wait, resume, recycle_buffer, recycle, recycle_all, stop_waiters, no_buffer,
}

-- Nobody waits while a buffer is free; the counters are the lengths of their queues; nobody waits
-- behind a shutdown.
pub record IsValid (p : Pool) : Type 0 where
  pub no_idle : (length p.waiters ≡ 0) ⊎ (length p.free ≡ 0)
  pub counted : p.wait_count ≡ length p.waiters
  pub pending : p.inflight ≡ length p.waiters + length p.served
  pub small : p.inflight < 2 ^ 32
  pub stopped : p.stopping ≡ true → length p.waiters ≡ 0

length-map : (ws : List Waiter) → length (map no_buffer ws) ≡ length ws
length-map [] = refl
length-map (w ∷ ws) = omega (arith, length-map ws)

pub create-IsValid : (size : ℕ) (b : Option Budget) → IsValid (create size b)
unfolding create
create-IsValid size b = record {
  no_idle = inl refl;
  counted = refl;
  pending = refl;
  small = omega arith;
  stopped = λ e. refl;
}

-- The fields that reserving, growing and taking a buffer leave alone.
pub record SameQueue (p q : Pool) : Type 0 where
  pub waiters : q.waiters ≡ p.waiters
  pub wait_count : q.wait_count ≡ p.wait_count
  pub served : q.served ≡ p.served
  pub inflight : q.inflight ≡ p.inflight
  pub stopping : q.stopping ≡ p.stopping

abbrev pub added : Bool → Option ℕ → List ℕ
added false m = []
added true m = to_list m

reserve-SameQueue :
    (p : Pool)
    → SameQueue p (reserve p).1
      × ((reserve p).1.free ≡ p.free)
      × ((reserve p).1.all ≡ p.all)
      × ((reserve p).1.buffer_size ≡ p.buffer_size)
unfolding reserve
reserve-SameQueue p = ground arith

unreserve-SameQueue :
    (p : Pool) (n : ℕ)
    → SameQueue p (unreserve p n) × ((unreserve p n).free ≡ p.free) × ((unreserve p n).all ≡ p.all)
unfolding unreserve
unreserve-SameQueue p n = ground arith

pub grow-SameQueue :
    (p : Pool) (m : Option ℕ)
    → SameQueue p (grow p m).1
      × ((grow p m).1.free ≡ p.free ++ added (grow p m).0 m)
      × ((grow p m).1.all ≡ p.all ++ added (grow p m).0 m)
      × ((grow p m).0 ≡ true → m ≢ none)
unfolding grow
grow-SameQueue p m = ground (
  arith,
  reserve-SameQueue p,
  unreserve-SameQueue (reserve p).1 (reserve p).1.buffer_size,
  append-nil p.free,
  append-nil p.all,
)

-- The three ways in which an acquire ends: a free buffer, a new one, or none although none is free.
abbrev pub Acquires : Option ℕ → Pool → Option ℕ × Pool → Type 0
Acquires m p r =
    ((x : ℕ) × (p.free ≡ x ∷ r.1.free) × (r.0 ≡ some x) × (r.1.all ≡ p.all))
    ⊎ (((x : ℕ) × (p.free ≡ [])
          × (m ≡ some x)
          × (r.0 ≡ some x)
          × (r.1.free ≡ [])
          × (r.1.all ≡ p.all ++ x ∷ []))
        ⊎ ((p.free ≡ []) × (r.0 ≡ none) × (r.1.free ≡ []) × (r.1.all ≡ p.all)))

acquire_no_lock_free :
    (m : Option ℕ) (p : Pool) (x : ℕ) (rest : List ℕ)
    → p.free ≡ x ∷ rest
    → acquire_no_lock m p ≡ (some x, record p { free = rest })
unfolding acquire_no_lock
acquire_no_lock_free m p x rest e = ground arith

pub acquire_no_lock-SameQueue : (m : Option ℕ) (p : Pool) → SameQueue p (acquire_no_lock m p).1
unfolding acquire_no_lock pull_first
acquire_no_lock-SameQueue m p = ground (arith, grow-SameQueue p m)

acquire_no_lock_empty : (m : Option ℕ) (p : Pool) → p.free ≡ [] → Acquires m p (acquire_no_lock m p)
unfolding acquire_no_lock pull_first
acquire_no_lock_empty none p e = ground (arith, grow-SameQueue p none, append-nil p.all)
acquire_no_lock_empty (some x) p e = ground (arith, grow-SameQueue p (some x), append-nil p.all)

-- `acquire_no_lock` takes the first free buffer, or else the new one that was allocated, or fails with
-- no buffer free and none added.
pub acquire_no_lock-Acquires : (m : Option ℕ) (p : Pool) → Acquires m p (acquire_no_lock m p)
acquire_no_lock-Acquires m p = elim (List-cases p.free) [
  | inl e ↦ acquire_no_lock_empty m p e
  | inr (x, rest, e) ↦ rw (acquire_no_lock_free m p x rest e) (inl (x, e, refl, refl))
]

pub acquire_no_lock-IsValid :
    (m : Option ℕ) (p : Pool) → IsValid p → IsValid (acquire_no_lock m p).1
acquire_no_lock-IsValid m p v =
    ground (arith, acquire_no_lock-SameQueue m p, acquire_no_lock-Acquires m p)

pub acquire_wait-IsValid :
    (thread : ℕ) (m : Option ℕ) (p : Pool)
    → p.inflight + 1 < 2 ^ 32
    → IsValid p
    → IsValid (acquire_wait thread m p).1
unfolding acquire_wait enqueue
acquire_wait-IsValid thread m p h v = ground (
  arith,
  acquire_no_lock-SameQueue m p,
  acquire_no_lock-Acquires m p,
  length-append p.waiters (record { thread = thread; shard = p.cv_next % 64 } ∷ []),
)

-- With nobody waiting a recycled buffer joins the free list.
pub recycle_buffer_idle :
    (b : ℕ) (p : Pool)
    → IsValid p
    → p.waiters ≡ []
    → recycle_buffer b p ≡ (none, record p { free = p.free ++ b ∷ [] })
unfolding recycle_buffer
recycle_buffer_idle b p v e = ground arith

-- In a consistent pool with a waiter a recycled buffer goes to the oldest waiter, whose shard is
-- notified; the free list stays as it is.
pub recycle_buffer_waited :
    (b : ℕ) (p : Pool) (w : Waiter) (rest : List Waiter)
    → IsValid p
    → p.waiters ≡ w ∷ rest
    → recycle_buffer b p ≡ (
      some w.shard,
      record p {
        waiters = rest;
        wait_count = length rest;
        served = p.served ++ record { thread = w.thread; buffer = some b } ∷ [];
      },
    )
unfolding recycle_buffer
recycle_buffer_waited b p w rest v e = ground arith

pub recycle_buffer-IsValid : (b : ℕ) (p : Pool) → IsValid p → IsValid (recycle_buffer b p).1
recycle_buffer-IsValid b p v = elim (List-cases p.waiters) [
  | inl e ↦ rw (recycle_buffer_idle b p v e) (ground arith)
  | inr (w, rest, e) ↦
      rw (recycle_buffer_waited b p w rest v e) (
        ground (arith, length-append p.served (record { thread = w.thread; buffer = some b } ∷ [])))
]

pub recycle-IsValid : (b : Option ℕ) (p : Pool) → IsValid p → IsValid (recycle b p).1
unfolding recycle
recycle-IsValid none p v = v
recycle-IsValid (some b) p v = recycle_buffer-IsValid b p v

pub recycle_all-IsValid : (bs : List (Option ℕ)) (p : Pool) → IsValid p → IsValid (recycle_all bs p)
unfolding recycle_all
recycle_all-IsValid [] p v = v
recycle_all-IsValid (b ∷ bs) p v = recycle_all-IsValid bs (recycle b p).1 (recycle-IsValid b p v)

pub stop_waiters-IsValid : (p : Pool) → IsValid p → IsValid (stop_waiters p).1
unfolding stop_waiters
stop_waiters-IsValid p v =
    ground (arith, length-append p.served (map no_buffer p.waiters), length-map p.waiters)

pub resume-IsValid :
    (before after : List Served) (n : Served) (p : Pool)
    → p.served ≡ before ++ n ∷ after
    → IsValid p
    → IsValid (resume before n after p).1
unfolding resume
resume-IsValid before after n p e v =
    ground (arith, ap length e, length-append before (n ∷ after), length-append before after)

-- ===== src/Pool.antt =====
-- engine/p8_buffer_pool.hpp and .cpp: the pool of equal buffers with its FIFO of blocked acquirers.
-- Every function here runs under `mo_mutex`, so a call is one step. A buffer is known by its address,
-- and what `new (std::nothrow)` returns is an argument. `mo_wait_cvs` is its shard indices; the
-- counters `mu_wait_count`, `mu_inflight` and `mu_cv_next` wrap at 2 ^ 32.
pub mod Invariant
pub mod System
use selenge_muren.Prelude.{
  ℕ, zero, suc, ◌+◌, ◌-◌, ◌*◌, ◌%◌, ◌^◌, Bool, true, false, Option, none, some, List, [], ◌∷◌, ◌++◌,
  map, ltb, ◌==◌, if◌then◌else◌, length,
}
use selenge_muren.Budget
use selenge_muren.Budget.{Budget}

-- `s_waiter`, while it is linked into the queue: the blocked thread and the shard of `mp_cv`.
pub record Waiter : Type 0 where
  pub thread : ℕ
  pub shard : ℕ

-- `s_waiter` with `mb_done` set: `buffer` is `mp_buf`, and its thread has not returned yet.
pub record Served : Type 0 where
  pub thread : ℕ
  pub buffer : Option ℕ

pub record Pool : Type 0 where
  pub buffer_size : ℕ
  pub budget : Option Budget
  pub free : List ℕ
  pub all : List ℕ
  pub waiters : List Waiter
  pub wait_count : ℕ
  pub served : List Served
  pub inflight : ℕ
  pub cv_next : ℕ
  pub stopping : Bool

-- `mz_wait_cv_count`
abbrev pub wait_cv_count : ℕ
wait_cv_count = 64

-- The constructor.
unfoldable pub create : ℕ → Option Budget → Pool
create buffer_size budget = record {
  buffer_size = buffer_size;
  budget = budget;
  free = [];
  all = [];
  waiters = [];
  wait_count = 0;
  served = [];
  inflight = 0;
  cv_next = 0;
  stopping = false;
}

-- `!mp_budget || mp_budget->try_reserve(mz_buffer_size)`
unfoldable pub reserve : Pool → Bool × Pool
reserve p = elim p.budget [
  | none ↦ (true, p)
  | some b ↦
      let (fits, b') = Budget.try_reserve b p.buffer_size in (fits, record p { budget = some b' })
]

-- `if(mp_budget) mp_budget->release(bytes)`
unfoldable pub unreserve : Pool → ℕ → Pool
unreserve p bytes = elim p.budget [
  | none ↦ p
  | some b ↦ record p { budget = some (Budget.release b bytes) }
]

-- The lines that `init` and `acquire_no_lock` share: reserve, allocate, link into both lists.
unfoldable pub grow : Pool → Option ℕ → Bool × Pool
unfolding reserve unreserve
grow p memory =
    let (fits, q) = reserve p in
    if fits
    then elim memory [
      | none ↦ (false, unreserve q q.buffer_size)
      | some buffer ↦ (true, record q { all = q.all ++ buffer ∷ []; free = q.free ++ buffer ∷ [] })
    ]
    else (false, q)

-- The loop of `init`, `left` rounds from its end; `memory i` is what `new` returns in round `i`.
unfoldable pub init_loop : ℕ → ℕ → (ℕ → Option ℕ) → Pool → ℕ × Pool
init_loop zero allocated memory p = (allocated, p)
init_loop (suc left) allocated memory p =
    let (grown, q) = grow p (memory allocated) in
    let rest = init_loop left (allocated + 1) memory q in if grown then rest else (allocated, q)

unfoldable pub init : ℕ → (ℕ → Option ℕ) → Pool → ℕ × Pool
unfolding init_loop
init initial_count memory p =
    if initial_count == 0 then (0, p) else init_loop initial_count 0 memory p

-- `mo_free.pull_first()`
unfoldable pub pull_first : Pool → Option ℕ × Pool
pull_first p = elim p.free [
  | [] ↦ (none, p)
  | buffer ∷ rest ↦ (some buffer, record p { free = rest })
]

unfoldable pub acquire_no_lock : Option ℕ → Pool → Option ℕ × Pool
unfolding grow pull_first
acquire_no_lock memory p =
    if length p.free == 0
    then (let (grown, q) = grow p memory in if grown then pull_first q else (none, q))
    else pull_first p

-- `s_stat`
pub record Stat : Type 0 where
  pub buffer_size : ℕ
  pub free_size : ℕ
  pub max_size : ℕ

unfoldable pub stat : Pool → Stat
stat p =
    let outstanding = (length p.all + 2 ^ 64 - length p.free) % 2 ^ 64 * p.buffer_size % 2 ^ 64 in
    let max_size : ℕ = elim p.budget [
      | none ↦ length p.all * p.buffer_size % 2 ^ 64
      | some b ↦ b.max
    ] in
    record {
      buffer_size = p.buffer_size;
      free_size = if ltb outstanding max_size then max_size - outstanding else 0;
      max_size = max_size;
    }

-- `acquire_wait` up to its return or to the wait on the condition variable.
pub data Acquired : Type 0 where
  returned : Option ℕ → Acquired
  parked : Acquired

-- The part of `acquire_wait` that links the node of a thread into the queue.
unfoldable pub enqueue : ℕ → Pool → Pool
enqueue thread p = record p {
  waiters = p.waiters ++ record { thread = thread; shard = p.cv_next % wait_cv_count } ∷ [];
  cv_next = (p.cv_next + 1) % 2 ^ 32;
  wait_count = (p.wait_count + 1) % 2 ^ 32;
  inflight = (p.inflight + 1) % 2 ^ 32;
}

unfoldable pub acquire_wait : ℕ → Option ℕ → Pool → Acquired × Pool
unfolding acquire_no_lock enqueue
acquire_wait thread memory p =
    let (buffer, q) = acquire_no_lock memory p in
    elim buffer [
      | some b ↦ (returned (some b), q)
      | none ↦ if q.stopping then (returned none, q) else (parked, enqueue thread q)
    ]

-- The rest of `acquire_wait` once `mb_done` is set, for the node that stands first in `before ++ …`:
-- the thread takes `mp_buf` and leaves.
unfoldable pub resume : List Served → Served → List Served → Pool → Option ℕ × Pool
resume before node after p = (
  node.buffer,
  record p { served = before ++ after; inflight = (p.inflight + 2 ^ 32 - 1) % 2 ^ 32 },
)

-- `try_handoff_no_lock`: the shard to notify, `none` for -1. A count above zero with an empty queue
-- would be a read through a null pointer; the invariant below excludes it.
unfoldable pub try_handoff : ℕ → Pool → Option ℕ × Pool
try_handoff buffer p = if p.wait_count == 0 then (none, p) else elim p.waiters [
  | [] ↦ (none, p)
  | w ∷ rest ↦ (
    some w.shard,
    record p {
      waiters = rest;
      wait_count = (p.wait_count + 2 ^ 32 - 1) % 2 ^ 32;
      served = p.served ++ record { thread = w.thread; buffer = some buffer } ∷ [];
    },
  )
]

-- `recycle` of one buffer that is not null: the shard that is notified, if any.
unfoldable pub recycle_buffer : ℕ → Pool → Option ℕ × Pool
unfolding try_handoff
recycle_buffer buffer p =
    let (shard, q) = try_handoff buffer p in
    elim shard [ some i ↦ (some i, q) | none ↦ (none, record q { free = q.free ++ buffer ∷ [] }) ]

-- `recycle(uint8_t *)`; `none` is the null pointer.
unfoldable pub recycle : Option ℕ → Pool → Option ℕ × Pool
unfolding recycle_buffer
recycle none p = (none, p)
recycle (some buffer) p = recycle_buffer buffer p

-- `recycle(kit::c_lst<uint8_t *> &)`: the state after the batch, which leaves the list empty.
unfoldable pub recycle_all : List (Option ℕ) → Pool → Pool
recycle_all [] p = p
recycle_all (b ∷ batch) p = recycle_all batch (recycle b p).1

-- The sentinel that `stop_waiters` leaves in a node.
unfoldable pub no_buffer : Waiter → Served
no_buffer w = record { thread = w.thread; buffer = none }

-- `stop_waiters`; the Boolean is `lb_woke`.
unfoldable pub stop_waiters : Pool → Bool × Pool
stop_waiters p = (
  ltb 0 (length p.waiters),
  record p {
    stopping = true;
    waiters = [];
    wait_count = 0;
    served = p.served ++ map no_buffer p.waiters;
  },
)

-- The destructor's part behind the barrier `mu_inflight == 0`: what it gives back to the budget.
unfoldable pub destroy : Pool → Pool
unfolding stop_waiters unreserve
destroy p =
    let q = (stop_waiters p).1 in
    let reserved = length q.all * q.buffer_size % 2 ^ 64 in
    let cleared : Pool = record q { all = []; free = [] } in
    if ltb 0 reserved then unreserve cleared reserved else cleared

-- `get_free_count`
unfoldable pub get_free_count : Pool → ℕ
get_free_count p = length p.free

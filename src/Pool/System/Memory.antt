-- ===== src/Pool/System/Memory.antt =====
-- The pool takes from its budget what its buffers take, and stays within it.
use selenge_muren.Prelude.{
  ℕ, ◌+◌, ◌*◌, ◌^◌, ◌≤◌, ◌<◌, ◌≡◌, refl, Option, none, some, List, arith, length, length-append,
  ◌==◌, ◌∙◌, ap, Option-cases, List-cases, Bool-cases, inl, inr,
}
use selenge_muren.Budget.{Budget, init}
use selenge_muren.Budget.Bounds.{IsValid, try_reserve_lem, release-try_reserve}
use selenge_muren.Pool.Invariant
use selenge_muren.Pool.Invariant.{added, grow-SameQueue, recycle_buffer_idle, recycle_buffer_waited}
use selenge_muren.Pool.{
  Pool, create, reserve, unreserve, grow, pull_first, acquire_no_lock, acquire_wait, enqueue,
  resume, recycle_buffer, stop_waiters,
}
use selenge_muren.Pool.System.{
  System, Step, acquires, waits, resumes, recycles, stops, Reach, here, next, start,
}
use selenge_muren.Pool.System.Conserved.{Reach-IsValid}

-- The budget's counter is the memory of the buffers that were allocated, and within the limit.
abbrev pub IsFunded : (size max : ℕ) → Pool → Type 0
IsFunded size max p =
    (p.buffer_size ≡ size)
    × (b : Budget) × (p.budget ≡ some b)
    × (b.max ≡ max)
    × (b.used ≡ length p.all * size)
    × (b.used ≤ max)

grow-budget :
    (p : Pool) (m : Option ℕ) (b : Budget)
    → p.budget ≡ some b
    → IsValid b
    → let spent = b.used + length (added (grow p m).0 m) * p.buffer_size in
      ((grow p m).1.budget ≡ some (record b { used = spent }))
      × (spent ≤ b.max)
      × ((grow p m).1.buffer_size ≡ p.buffer_size)
unfolding grow reserve unreserve
grow-budget p none b e v =
    ground (arith, try_reserve_lem b p.buffer_size v, release-try_reserve b p.buffer_size v)
grow-budget p (some a) b e v = ground (arith, try_reserve_lem b p.buffer_size v)

module _ (size max : ℕ) (limit : max < 2 ^ 64) where
  grow-IsFunded : (p : Pool) (m : Option ℕ) → IsFunded size max p → IsFunded size max (grow p m).1
  grow-IsFunded p m (s, b, e, x, u, w) =
      let (budget, room, same) =
        grow-budget p m b e (record { within = omega arith; size = omega arith }) in
      (
        same ∙ s,
        record b { used = b.used + length (added (grow p m).0 m) * p.buffer_size },
        budget,
        x,
        omega (
          arith,
          ap (λ (xs : List ℕ). length xs * size) (grow-SameQueue p m).2,
          ap (λ (t : ℕ). t * size) (length-append p.all (added (grow p m).0 m)),
          ap (λ (t : ℕ). length (added (grow p m).0 m) * t) s,
        ),
        omega arith,
      )

  pull_first-IsFunded : (p : Pool) → IsFunded size max p → IsFunded size max (pull_first p).1
  unfolding pull_first
  pull_first-IsFunded p f = elim (List-cases p.free) [
    | inl e ↦ rw (e, pull_first) f
    | inr (y, rest, e) ↦ rw (e, pull_first) f
  ]

  acquire_no_lock-IsFunded :
      (m : Option ℕ) (p : Pool) → IsFunded size max p → IsFunded size max (acquire_no_lock m p).1
  unfolding acquire_no_lock
  acquire_no_lock-IsFunded m p f = elim (Bool-cases (length p.free == 0)) [
    | inr e ↦ rw e (pull_first-IsFunded p f)
    | inl e ↦ elim (Bool-cases (grow p m).0) [
      | inl g ↦ rw (e, g) (pull_first-IsFunded (grow p m).1 (grow-IsFunded p m f))
      | inr g ↦ rw (e, g) (grow-IsFunded p m f)
    ]
  ]

  acquire_wait-IsFunded :
      (thread : ℕ) (m : Option ℕ) (p : Pool)
      → IsFunded size max p
      → IsFunded size max (acquire_wait thread m p).1
  unfolding acquire_wait enqueue
  acquire_wait-IsFunded thread m p f =
      let q : Option ℕ × Pool = acquire_no_lock m p in
      elim (Option-cases (acquire_no_lock m p).0) [
        | inr (x, e) ↦ rw (e, acquire_wait) (acquire_no_lock-IsFunded m p f)
        | inl e ↦ elim (Bool-cases (acquire_no_lock m p).1.stopping) [
          | inl g ↦ rw (e, acquire_wait, g) (acquire_no_lock-IsFunded m p f)
          | inr g ↦ rw (e, acquire_wait, g) (acquire_no_lock-IsFunded m p f)
        ]
      ]

  recycle_buffer-IsFunded :
      (b : ℕ) (p : Pool)
      → Invariant.IsValid p
      → IsFunded size max p
      → IsFunded size max (recycle_buffer b p).1
  recycle_buffer-IsFunded b p v f = elim (List-cases p.waiters) [
    | inl e ↦ rw (recycle_buffer_idle b p v e) f
    | inr (w, rest, e) ↦ rw (recycle_buffer_waited b p w rest v e) f
  ]

  Step-IsFunded :
      {s t : System}
      → Invariant.IsValid s.pool
      → Step s t
      → IsFunded size max s.pool
      → IsFunded size max t.pool
  Step-IsFunded {s} v (acquires m x) f = acquire_no_lock-IsFunded m s.pool f
  Step-IsFunded {s} v (waits thread m x h) f = acquire_wait-IsFunded thread m s.pool f
  Step-IsFunded {s} v (resumes before after node e) f = unfold resume in f
  Step-IsFunded {s} v (recycles xs ys buffer e) f = recycle_buffer-IsFunded buffer s.pool v f
  Step-IsFunded {s} v stops f = unfold stop_waiters in f

  -- A pool that alone draws from a budget of `max` bytes, a `size_t`, counts there exactly the
  -- memory of its buffers, and never takes more than `max`, whatever the clients do.
  pub Reach-IsFunded :
      {s : System} → Reach (start size (some (init max))) s → IsFunded size max s.pool
  unfolding start create init
  Reach-IsFunded here = (refl, record { used = 0; max = max }, refl, refl, omega arith, omega arith)
  Reach-IsFunded (next r st) =
      Step-IsFunded (Reach-IsValid size (some (init max)) r) st (Reach-IsFunded r)

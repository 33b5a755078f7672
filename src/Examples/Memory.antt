-- ===== src/Examples/Memory.antt =====
-- The budget and the pool: runs, and their theorems at inputs that meet the hypotheses.
use selenge_muren.Prelude.{
  ◌≡◌, ◌≢◌, refl, true, false, Option, some, [], ◌∷◌, arith, if◌then◌else◌, leb,
}
use selenge_muren.Budget.{Budget, won, again, rounds, round, init, try_reserve}
use selenge_muren.Budget.Bounds
use selenge_muren.Budget.Bounds.{try_reserve_lem, release-try_reserve}
use selenge_muren.Budget.Interleaved.{
  Ledger, reserves, Reach, here, next, start, Accounted, Reach-Accounted, rounds-ne-again,
}
use selenge_muren.Pool.{create, acquire_no_lock, acquire_wait, recycle_buffer}
use selenge_muren.Pool.Invariant
use selenge_muren.Pool.Invariant.{
  create-IsValid, recycle_buffer_waited, acquire_no_lock-Acquires, Acquires,
}
use selenge_muren.Pool.System
use selenge_muren.Pool.System.{System, acquires, waits, recycles, stops}
use selenge_muren.Pool.System.Conserved.{Conserves, Reach-IsValid, Reach-Conserves}
use selenge_muren.Pool.System.Fifo.{InOrder, Reach-InOrder}
use selenge_muren.Pool.System.Memory.{IsFunded, Reach-IsFunded}

abbrev small : Budget
small = record { used = 60; max = 100 }

small-IsValid : Bounds.IsValid small
small-IsValid = omega arith

-- A full schedule: the first exchange fails spuriously, the second loses to another thread.
rounds_run : rounds 100 0 30 ((0, true) ∷ (10, false) ∷ (10, false) ∷ []) ≡ won 40
unfolding rounds
rounds_run = refl

try_reserve_lem_example :
    try_reserve small 40
    ≡ (if leb 100 100 then (true, record small { used = 100 }) else (false, small))
try_reserve_lem_example = try_reserve_lem small 40 small-IsValid

rounds-ne-again_example : rounds 100 0 30 ((10, false) ∷ (10, false) ∷ []) ≢ again 10
rounds-ne-again_example = rounds-ne-again 100 0 30 10 10 []

abbrev thirty : Ledger
thirty = record { budget = record { used = 30; max = 100 }; held = 30 ∷ [] }

thirty_reached : Reach (start 100) thirty
unfolding round
thirty_reached = next here (reserves (start 100) 0 30 30 false refl)

Reach-Accounted_example : Accounted 100 thirty
Reach-Accounted_example = Reach-Accounted 100 (omega arith) thirty_reached

-- One buffer of 64 bytes in a budget of 100: the second acquirer waits for the first one's buffer.
abbrev fund : Option Budget
fund = some (init 100)

abbrev taken : System
taken = record (System.start 64 fund) {
  pool = (acquire_no_lock (some 7) (System.start 64 fund).pool).1;
  held = 7 ∷ [];
}

abbrev waiting : System
waiting = record taken { pool = (acquire_wait 1 (some 8) taken.pool).1; arrived = 1 ∷ [] }

abbrev served : System
served = record waiting { pool = (recycle_buffer 7 waiting.pool).1; held = []; answered = 1 ∷ [] }

taken_reached : System.Reach (System.start 64 fund) taken
unfolding System.start create acquire_no_lock init try_reserve
taken_reached = System.next System.here (acquires (some 7) refl)

waiting_reached : System.Reach (System.start 64 fund) waiting
unfolding System.start create acquire_no_lock acquire_wait init try_reserve
waiting_reached = System.next taken_reached (waits 1 (some 8) refl (omega arith))

served_reached : System.Reach (System.start 64 fund) served
unfolding System.start create acquire_no_lock acquire_wait recycle_buffer init try_reserve
served_reached = System.next waiting_reached (recycles [] [] 7 refl)

served_run : served.pool.served ≡ record { thread = 1; buffer = some 7 } ∷ []
unfolding System.start create acquire_no_lock acquire_wait recycle_buffer init try_reserve
served_run = refl

Reach-IsValid_example : Invariant.IsValid served.pool
Reach-IsValid_example = Reach-IsValid 64 fund served_reached

Reach-Conserves_example : Conserves 7 served
Reach-Conserves_example = Reach-Conserves 64 fund 7 served_reached

Reach-InOrder_example : InOrder served
Reach-InOrder_example = Reach-InOrder 64 fund served_reached

Reach-IsFunded_example : IsFunded 64 100 served.pool
Reach-IsFunded_example = Reach-IsFunded 64 100 (omega arith) served_reached

-- ===== src/Budget/Interleaved.antt =====
-- The budget under any interleaving of its threads: `current` is whatever the winning thread last
-- loaded, so each step may come after any steps of other threads.
use selenge_muren.Prelude.{
  ◌≢◌, false, ℕ, ◌+◌, ◌^◌, ◌≤◌, ◌<◌, ◌≡◌, refl, Bool, List, [], ◌∷◌, ◌++◌, arith, sum, ◌∙◌, ap,
}
use selenge_muren.Budget.{Budget, won, round, again, rounds, release}

sum-append : (xs ys : List ℕ) → sum (xs ++ ys) ≡ sum xs + sum ys
sum-append [] ys = omega arith
sum-append (x ∷ xs) ys = omega (arith, sum-append xs ys)

-- The counter with the reservations that are held, which the code does not store.
pub record Ledger : Type 0 where
  pub budget : Budget
  pub held : List ℕ

-- A thread wins its exchange, or gives back one of the reservations.
pub data Step : Ledger → Ledger → Type 0 where
  reserves :
      (l : Ledger) (current bytes new : ℕ) (spurious : Bool)
      → round l.budget.max current bytes l.budget.used spurious ≡ won new
      → Step l (record { budget = record l.budget { used = new }; held = bytes ∷ l.held })
  releases :
      (l : Ledger) (xs ys : List ℕ) (bytes : ℕ)
      → l.held ≡ xs ++ bytes ∷ ys
      → Step l (record { budget = release l.budget bytes; held = xs ++ ys })

pub data Reach (s : Ledger) : Ledger → Type 0 where
  here : Reach s s
  next : {t u : Ledger} → Reach s t → Step t u → Reach s u

abbrev pub start : ℕ → Ledger
start max = record { budget = record { used = 0; max = max }; held = [] }

-- The counter is the sum of the reservations held, and within the limit.
pub record Accounted (max : ℕ) (l : Ledger) : Type 0 where
  pub fixed : l.budget.max ≡ max
  pub exact : l.budget.used ≡ sum l.held
  pub within : l.budget.used ≤ max

round-won :
    (max current bytes used new : ℕ) (spurious : Bool)
    → max < 2 ^ 64
    → round max current bytes used spurious ≡ won new
    → (new ≡ used + bytes) × (used + bytes ≤ max)
unfolding round
round-won max current bytes used new spurious h e = ground arith

pub Step-Accounted :
    {max : ℕ} {l m : Ledger} → max < 2 ^ 64 → Step l m → Accounted max l → Accounted max m
Step-Accounted h (reserves l current bytes new spurious e) a =
    let (x, y) = round-won l.budget.max current bytes l.budget.used new spurious (omega arith) e in
    record { fixed = a.fixed; exact = omega arith; within = omega arith }
Step-Accounted h (releases l xs ys bytes e) a =
    unfold release in
    let s : sum l.held ≡ sum xs + (bytes + sum ys) = ap sum e ∙ sum-append xs (bytes ∷ ys) in
    record { fixed = a.fixed; exact = omega (arith, sum-append xs ys); within = omega arith }

-- From an empty budget whose limit is a `size_t`, whatever the threads do in whatever order, the
-- counter is the sum of the reservations that are held, and never passes the limit.
pub Reach-Accounted : (max : ℕ) {l : Ledger} → max < 2 ^ 64 → Reach (start max) l → Accounted max l
Reach-Accounted max h here = record { fixed = refl; exact = refl; within = omega arith }
Reach-Accounted max h (next r st) = Step-Accounted h st (Reach-Accounted max h r)

-- Whatever the other threads do between its rounds, a call that wins adds its request to a counter
-- that it read in one exchange, and stays within the limit.
pub rounds-won :
    (max current bytes new : ℕ) (schedule : List (ℕ × Bool))
    → max < 2 ^ 64
    → rounds max current bytes schedule ≡ won new
    → (bytes ≤ new) × (new ≤ max)
unfolding rounds
rounds-won max current bytes new [] h e = cc
rounds-won max current bytes new ((used, spurious) ∷ schedule) h e = ground (
  arith,
  round-won max current bytes used new spurious h,
  rounds-won max used bytes new schedule h,
)

-- Without interference the loop ends: two rounds that see the same counter and no spurious failure
-- settle the call.
pub rounds-ne-again :
    (max current bytes used seen : ℕ) (schedule : List (ℕ × Bool))
    → rounds max current bytes ((used, false) ∷ (used, false) ∷ schedule) ≢ again seen
unfolding rounds
rounds-ne-again max current bytes used seen schedule e = ground arith

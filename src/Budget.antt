-- ===== src/Budget.antt =====
-- engine/p8_memory_budget.hpp and .cpp: the shared limit on the memory of the buffer pools.
-- A `size_t` keeps its wrap-around at 2 ^ 64. The compare-and-swap loop takes, for each round, what
-- the counter holds when the round exchanges and whether the weak exchange fails spuriously.
pub mod Bounds
pub mod Interleaved
use selenge_muren.Prelude.{
  ℕ, ◌+◌, ◌-◌, ◌%◌, ◌^◌, Bool, true, false, not, ◌&&◌, ◌||◌, Option, none, some, List, [], ◌∷◌, ltb,
  ◌==◌, if◌then◌else◌,
}

pub record Budget : Type 0 where
  pub used : ℕ
  pub max : ℕ

-- The constructor.
unfoldable pub init : ℕ → Budget
init max_bytes = record { used = 0; max = max_bytes }

-- What one round of the loop in `try_reserve` ends with: no headroom, the new value of the counter,
-- or another round from the value that the failed exchange loaded.
pub data Outcome : Type 0 where
  refused : Outcome
  won : ℕ → Outcome
  again : ℕ → Outcome

unfoldable pub round : (max current bytes used : ℕ) → Bool → Outcome
round max current bytes used spurious =
    if ltb max current || ltb (max - current) bytes
    then refused
    else if used == current && not spurious
    then won ((current + bytes) % 2 ^ 64)
    else again used

-- The rounds that the schedule holds; none is left over when the loop ends by itself.
unfoldable pub rounds : (max current bytes : ℕ) → List (ℕ × Bool) → Outcome
unfolding round
rounds max current bytes [] = again current
rounds max current bytes ((used, spurious) ∷ schedule) =
    elim (round max current bytes used spurious) [
      | refused ↦ refused
      | won new ↦ won new
      | again seen ↦ rounds max seen bytes schedule
    ]

-- `try_reserve` with no other thread and no spurious failure: one round.
unfoldable pub try_reserve : Budget → ℕ → Bool × Budget
unfolding round
try_reserve b bytes = elim (round b.max b.used bytes b.used false) [
  | won new ↦ (true, record b { used = new })
  | _ ↦ (false, b)
]

-- `fetch_sub` on a `size_t`.
unfoldable pub release : Budget → ℕ → Budget
release b bytes = record b { used = (b.used + 2 ^ 64 - bytes) % 2 ^ 64 }

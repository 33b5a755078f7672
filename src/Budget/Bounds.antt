-- ===== src/Budget/Bounds.antt =====
-- What one call of the budget promises.
use selenge_muren.Prelude.{ℕ, ◌+◌, ◌^◌, ◌≤◌, ◌<◌, ◌≡◌, true, false, arith, leb, if◌then◌else◌}
use selenge_muren.Budget.{Budget, try_reserve, release}

-- The counter is within the limit, and the limit is a `size_t`.
pub record IsValid (b : Budget) : Type 0 where
  pub within : b.used ≤ b.max
  pub size : b.max < 2 ^ 64

-- On a valid budget `try_reserve` succeeds exactly when the request fits into what the limit leaves.
-- Then the counter grows by the request and stays valid; else nothing changes.
pub try_reserve_lem :
    (b : Budget) (bytes : ℕ)
    → IsValid b
    → try_reserve b bytes ≡ (
        if leb (b.used + bytes) b.max
        then (true, record b { used = b.used + bytes })
        else (false, b))
unfolding try_reserve
try_reserve_lem b bytes v = ground arith

pub try_reserve-IsValid : (b : Budget) (bytes : ℕ) → IsValid b → IsValid (try_reserve b bytes).1
try_reserve-IsValid b bytes v = rw (try_reserve_lem b bytes v) (ground arith)

pub release-IsValid :
    (b : Budget) (bytes : ℕ) → bytes ≤ b.used → IsValid b → IsValid (release b bytes)
unfolding release
release-IsValid b bytes h v = omega arith

-- On a valid budget `release` undoes a successful `try_reserve` of the same bytes.
pub release-try_reserve :
    (b : Budget) (bytes : ℕ)
    → IsValid b
    → (try_reserve b bytes).0 ≡ true
    → release (try_reserve b bytes).1 bytes ≡ b
unfolding release
release-try_reserve b bytes v h = ground (arith, try_reserve_lem b bytes v)

-- ===== src/Lifecycle/Initialized.antt =====
-- `p8_initialize` on every path.
use selenge_muren.Prelude.{
  ℕ, ◌≡◌, refl, Bool, true, false, Option, none, some, is_some, sym, subst, ◌⊎◌, inl, inr,
  Bool-cases, arith, ◌==◌, ap,
}
use selenge_muren.Lifecycle.{Cores, store, Instance, SharedMemory, p8_initialize}
use selenge_muren.Lifecycle.Owned.{died_lem, some-ne-none}

-- What a call leaves: it returns true exactly with an instance; a failure leaves all as it was, the core
-- that it made included; a success leaves no core of its own but the instance.
abbrev pub Leaves : Instance → Cores → Bool × Instance × Cores → Type 0
Leaves g cores (done, h, after) =
    (done ≡ is_some h.core)
    × (done ≡ false → h ≡ g)
    × ((b : ℕ) → h.core ≡ some b → (after b ≡ cores b) ⊎ ((cores b ≡ 0) × (after b ≡ 1)))
    × ((b : ℕ) → ¬ (h.core ≡ some b) → after b ≡ cores b)

same_address : (a b : ℕ) → ◌≡◌ {A = Option ℕ} (some a) (some b) → a ≡ b
same_address a b f = cc f

own :
    (a b : ℕ) (cores : Cores)
    → cores a ≡ 0
    → ◌≡◌ {A = Option ℕ} (some a) (some b)
    → (cores b ≡ 0) × (store a 1 cores b ≡ 1)
unfolding store
own a b cores e f = let same = same_address a b f in (subst (λ k. cores k ≡ 0) same e, ground arith)

other :
    (a b : ℕ) (cores : Cores)
    → ¬ (◌≡◌ {A = Option ℕ} (some a) (some b))
    → store a 1 cores b ≡ cores b
unfolding store
other a b cores f = elim (Bool-cases (b == a)) [
  | inl e ↦ let same : a ≡ b = ground arith in absurd (f (ap (λ (k : ℕ). some k) same))
  | inr e ↦ rw e refl
]

made_core :
    (good : Bool) (a : ℕ) (created reread handle : Option ℕ) (cores : Cores)
    → cores a ≡ 0
    → Leaves
        (record { core = none; shm_handle = handle })
        cores
        (p8_initialize true
          (record { address = some a; initialized = good })
          (record { published = none; created = created; reread = reread })
          (record { core = none; shm_handle = handle })
          cores)
unfolding p8_initialize
made_core false a created reread handle cores e =
    (refl, λ f. refl, λ b f. absurd (some-ne-none b (sym f)), λ b f. died_lem a b cores e)
made_core true a none none handle cores e =
    (refl, λ f. refl, λ b f. absurd (some-ne-none b (sym f)), λ b f. died_lem a b cores e)
made_core true a none (some other) handle cores e =
    (refl, λ f. cc f, λ b f. inl (died_lem a b cores e), λ b f. died_lem a b cores e)
made_core true a (some h) reread handle cores e =
    (refl, λ f. cc f, λ b f. inr (own a b cores e f), λ b f. other a b cores f)

-- Whatever the configuration, the shared memory and the allocator give, where a new core gets an
-- address without one: `p8_initialize` returns true exactly if the instance is set then. A failure leaves
-- the instance and all cores as they were, so the core that it made is deleted again; a success leaves all
-- cores but the instance as they were, and the instance as it was or with one reference.
pub p8_initialize_lem :
    (has_config : Bool) (address : Option ℕ) (good : Bool) (shm : SharedMemory) (g : Instance)
    (cores : Cores)
    → ((a : ℕ) → address ≡ some a → cores a ≡ 0)
    → Leaves g cores
        (p8_initialize has_config (record { address = address; initialized = good }) shm g cores)
unfolding p8_initialize
p8_initialize_lem has_config address good shm g cores fresh =
    by_parts has_config address g.core shm.published fresh
  where
    by_parts :
        (has_config : Bool) (address core published : Option ℕ)
        → ((a : ℕ) → address ≡ some a → cores a ≡ 0)
        → let h : Instance = record { core = core; shm_handle = g.shm_handle } in
          Leaves h cores (
            p8_initialize has_config
              (record { address = address; initialized = good })
              (record { published = published; created = shm.created; reread = shm.reread })
              h
              cores)
    by_parts has_config address (some a) published fresh =
        (refl, λ f. refl, λ b f. inl refl, λ b f. refl)
    by_parts has_config address none (some a) fresh =
        (refl, λ f. cc f, λ b f. inl refl, λ b f. refl)
    by_parts false address none none fresh = (refl, λ f. refl, λ b f. inl refl, λ b f. refl)
    by_parts true none none none fresh = (refl, λ f. refl, λ b f. inl refl, λ b f. refl)
    by_parts true (some a) none none fresh =
        made_core good a shm.created shm.reread g.shm_handle cores (fresh a refl)

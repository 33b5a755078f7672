-- ===== src/Lifecycle.antt =====
-- engine/p8_core.cpp: `p8_initialize`, `p8_release`, `get_global_core`, and the reference count of the
-- core; with engine/p8_tls_writer.cpp for the writers that hold a core. `c_shared` is third-party: what
-- its calls return are arguments.
pub mod Process
pub mod Owned
pub mod Initialized
use selenge_muren.Prelude.{
  ℕ, zero, suc, ◌+◌, ◌-◌, ◌/◌, ◌%◌, ◌^◌, Bool, true, false, Option, none, some, List, [], ◌∷◌, ◌==◌,
  if◌then◌else◌, take,
}

-- The cores that exist: of each address the `mu_ref_count`, and 0 where there is no core.
abbrev pub Cores : Type 0
Cores = ℕ → ℕ

unfoldable pub store : ℕ → ℕ → Cores → Cores
store a n cores b = if b == a then n else cores b

-- `addref`
unfoldable pub addref : ℕ → Cores → Cores
unfolding store
addref a cores = store a ((cores a + 1) % 2 ^ 32) cores

-- `release`, which deletes the core with the last reference.
unfoldable pub release_ref : ℕ → Cores → Cores
unfolding store
release_ref a cores =
    if cores a == 1 then store a 0 cores else store a ((cores a + 2 ^ 32 - 1) % 2 ^ 32) cores

-- `gp_instance` and `gp_shm_handle`
pub record Instance : Type 0 where
  pub core : Option ℕ
  pub shm_handle : Option ℕ

-- What `new(std::nothrow) cp8_core` gives: an address or none, and whether the core is initialized.
pub record Made : Type 0 where
  pub address : Option ℕ
  pub initialized : Bool

-- What the shared memory answers: the pointer that is published, the handle if the new pointer could
-- be published, and the pointer that is read under the lock.
pub record SharedMemory : Type 0 where
  pub published : Option ℕ
  pub created : Option ℕ
  pub reread : Option ℕ

-- `p8_initialize`
unfoldable pub p8_initialize :
    (has_config : Bool) → Made → SharedMemory → Instance → Cores → Bool × Instance × Cores
unfolding store
p8_initialize has_config made shm g cores = elim g.core [
  | some a ↦ (true, g, cores)
  | none ↦ elim shm.published [
    | some a ↦ (true, record g { core = some a }, cores)
    | none ↦
        if has_config
        then (elim made.address [
          | none ↦ (false, g, cores)
          | some a ↦
              let born = store a 1 cores in
              let died = store a 0 born in
              if made.initialized
              then (elim shm.created [
                | some handle ↦ (true, record { core = some a; shm_handle = some handle }, born)
                | none ↦ elim shm.reread [
                  | some other ↦ (true, record g { core = some other }, died)
                  | none ↦ (false, g, died)
                ]
              ])
              else (false, g, died)
        ])
        else (false, g, cores)
  ]
]

-- `p8_release`; the Boolean says whether the shared memory is unlinked.
unfoldable pub p8_release : Instance → Cores → Bool × Instance × Cores
p8_release g cores = elim g.core [
  | none ↦ (false, g, cores)
  | some a ↦ (true, record { core = none; shm_handle = none }, release_ref a cores)
]

-- The rounds of `get_global_core`, with what each reads under the lock.
unfoldable pub poll_instance : List (Option ℕ) → Option ℕ
poll_instance [] = none
poll_instance (none ∷ reads) = poll_instance reads
poll_instance (some a ∷ reads) = some a

-- `get_global_core`, which waits 10 ms a round, for `timeout` ms.
unfoldable pub get_global_core : (timeout : ℕ) → List (Option ℕ) → Instance → Option ℕ × Instance
unfolding poll_instance
get_global_core timeout reads g = elim g.core [
  | some a ↦ (some a, g)
  | none ↦ elim (poll_instance (take ((timeout + 9) / 10) reads)) [
    | some a ↦ (some a, record g { core = some a })
    | none ↦ (none, g)
  ]
]

-- P8_CORE_ACQUIRE_TIMEOUT_MS
abbrev pub acquire_timeout : ℕ
acquire_timeout = 100

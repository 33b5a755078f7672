-- ===== src/Lifecycle/Process.antt =====
-- A process with one copy of the engine: the calls of its threads and the lives of their writers, in any
-- order. The shared memory keeps a pointer until it is unlinked, and publishes no second one.
use selenge_muren.Prelude.{
  ℕ, ◌+◌, ◌^◌, ◌<◌, ◌≡◌, Bool, Option, none, some, List, [], ◌∷◌, ◌==◌, if◌then◌else◌, is_some,
  length, count, replicate,
}
use selenge_muren.Lifecycle.{
  Cores, addref, release_ref, Instance, Made, SharedMemory, p8_initialize, p8_release,
  get_global_core, acquire_timeout,
}

-- The instance, what is published, the cores, and the `mp_core` of every writer that lives.
pub record Process : Type 0 where
  pub global : Instance
  pub published : Option ℕ
  pub cores : Cores
  pub holders : List ℕ

unfoldable pub new_process : Process
new_process = record {
  global = record { core = none; shm_handle = none };
  published = none;
  cores = λ a. 0;
  holders = [];
}

unfoldable pub initialize : (has_config : Bool) → Made → (handle : ℕ) → Process → Process
unfolding p8_initialize
initialize has_config made handle s =
    let shm : SharedMemory = record {
      published = s.published;
      created = if is_some s.published then none else some handle;
      reread = s.published;
    } in
    let (done, g, cores) = p8_initialize has_config made shm s.global s.cores in
    record s {
      global = g;
      cores = cores;
      published = if is_some g.shm_handle then g.core else s.published;
    }

unfoldable pub shut_down : Process → Process
unfolding p8_release
shut_down s =
    let (unlinked, g, cores) = p8_release s.global s.cores in
    record s { global = g; cores = cores; published = if unlinked then none else s.published }

-- The constructor of a thread's writer, which keeps the core that it finds.
unfoldable pub create_holder : Process → Process
unfolding get_global_core addref
create_holder s =
    let (found, g) = get_global_core acquire_timeout (replicate 10 s.published) s.global in
    elim found [
      | none ↦ record s { global = g }
      | some a ↦ record s { global = g; cores = addref a s.cores; holders = a ∷ s.holders }
    ]

abbrev pub drop_holder : ℕ → List ℕ → List ℕ
drop_holder a [] = []
drop_holder a (b ∷ bs) = if b == a then bs else b ∷ drop_holder a bs

-- The destructor of a writer of the core at `a`.
unfoldable pub destroy_holder : ℕ → Process → Process
destroy_holder a s = record s { cores = release_ref a s.cores; holders = drop_holder a s.holders }

-- A new core has an address where there is none; fewer writers live than the counter can count.
pub data Reach : Process → Type 0 where
  begins : Reach new_process
  initializes :
      (has_config : Bool) (made : Made) (handle : ℕ) {s : Process}
      → ((a : ℕ) → made.address ≡ some a → s.cores a ≡ 0)
      → Reach s
      → Reach (initialize has_config made handle s)
  shuts_down : {s : Process} → Reach s → Reach (shut_down s)
  creates : {s : Process} → length s.holders + 2 < 2 ^ 32 → Reach s → Reach (create_holder s)
  destroys : (a : ℕ) {s : Process} → 0 < count a s.holders → Reach s → Reach (destroy_holder a s)

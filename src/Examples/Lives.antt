-- ===== src/Examples/Lives.antt =====
-- The life of a core: runs, and its theorems at inputs that meet the hypotheses.
use selenge_muren.Prelude.{◌≡◌, refl, true, none, some, arith}
use selenge_muren.Lifecycle.{
  Instance, Made, SharedMemory, p8_initialize, p8_release, get_global_core, release_ref, addref,
  store,
}
use selenge_muren.Lifecycle.Process.{
  Process, new_process, initialize, shut_down, create_holder, destroy_holder, Reach, begins,
  initializes, shuts_down, creates,
}
use selenge_muren.Lifecycle.Owned.{IsOwned, Reach-IsOwned}
use selenge_muren.Lifecycle.Initialized.{Leaves, p8_initialize_lem}

abbrev made : Made
made = record { address = some 8; initialized = true }

-- A thread writes, and the program shuts down while the thread lives.
abbrev served : Process
served = shut_down (create_holder (initialize true made 1 new_process))

served_reached : Reach served
unfolding initialize p8_initialize new_process create_holder get_global_core
served_reached = shuts_down (creates (omega arith) (initializes true made 1 (λ a e. refl) begins))

Reach-IsOwned_example : IsOwned served
Reach-IsOwned_example = Reach-IsOwned served_reached

-- The core lives on for the thread's writer, and ends with it.
served_lives : served.cores 8 ≡ 1
unfolding initialize p8_initialize new_process create_holder get_global_core shut_down p8_release
    addref release_ref store
served_lives = refl

served_ends : (destroy_holder 8 served).cores 8 ≡ 0
unfolding initialize p8_initialize new_process create_holder get_global_core shut_down p8_release
    addref release_ref store destroy_holder
served_ends = refl

abbrev nothing_yet : Instance
nothing_yet = record { core = none; shm_handle = none }

-- Another copy of the engine published its core at 16 while this one made its own at 8.
abbrev lost_race : SharedMemory
lost_race = record { published = none; created = none; reread = some 16 }

p8_initialize_lem_example :
    Leaves nothing_yet (λ a. 0) (p8_initialize true made lost_race nothing_yet (λ a. 0))
p8_initialize_lem_example =
    p8_initialize_lem true (some 8) true lost_race nothing_yet (λ a. 0) (λ a e. refl)

-- Two copies of the engine: the second one takes the published core of the first without a reference, so
-- the first one's shutdown deletes the core that the second one still has.
abbrev second_copy : Instance
second_copy =
    (p8_initialize true made (record { published = some 8; created = none; reread = none })
      nothing_yet (initialize true made 1 new_process).cores).1

second_copy_dangles :
    (second_copy.core ≡ some 8) × ((shut_down (initialize true made 1 new_process)).cores 8 ≡ 0)
unfolding initialize p8_initialize new_process shut_down p8_release release_ref store
second_copy_dangles = (refl, refl)

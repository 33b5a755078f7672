-- ===== src/Lifecycle/Owned.antt =====
-- A core lives exactly as long as something refers to it.
use selenge_muren.Prelude.{
  ℕ, ◌+◌, ◌-◌, ◌^◌, ◌<◌, ◌≤◌, ◌≡◌, refl, ap, ◌∙◌, Bool, true, false, Option, none, some, List, [],
  ◌∷◌, ◌==◌, if◌then◌else◌, length, count, to_list, arith,
}
use selenge_muren.Lifecycle.{Cores, store, addref, release_ref, poll_instance}
use selenge_muren.Lifecycle.Process.{
  Process, new_process, initialize, shut_down, create_holder, drop_holder, destroy_holder, Reach,
  begins, initializes, shuts_down, creates, destroys,
}

-- Every core is counted as often as the instance and the writers refer to it; what is published is the
-- instance, with a handle.
pub record IsOwned (s : Process) : Type 0 where
  pub counted : (a : ℕ) → s.cores a ≡ count a s.holders + count a (to_list s.global.core)
  pub shown : s.published ≡ s.global.core
  pub few : length s.holders + 2 ≤ 2 ^ 32

count-le : (a : ℕ) (xs : List ℕ) → count a xs ≤ length xs
count-le a [] = omega arith
count-le a (x ∷ xs) = ground (arith, count-le a xs)

counted_instance : (a : ℕ) (o : Option ℕ) → count a (to_list o) ≤ 1
counted_instance a none = omega arith
counted_instance a (some b) = ground arith

start-IsOwned : IsOwned new_process
unfolding new_process
start-IsOwned = record { counted = λ a. refl; shown = refl; few = omega arith }

-- The count of every core stays in 32 bits.
below : (s : Process) (a : ℕ) → IsOwned s → s.cores a < 2 ^ 32
below s a o =
    omega (arith, o.counted a, count-le a s.holders, counted_instance a s.global.core, o.few)

release_ref_lem :
    (a b : ℕ) (cores : Cores)
    → 0 < cores a
    → cores a < 2 ^ 32
    → release_ref a cores b ≡ (if b == a then cores a - 1 else cores b)
unfolding release_ref store
release_ref_lem a b cores low high = ground arith

addref_lem :
    (a b : ℕ) (cores : Cores)
    → cores a + 1 < 2 ^ 32
    → addref a cores b ≡ (if b == a then cores a + 1 else cores b)
unfolding addref store
addref_lem a b cores high = ground arith

-- A core that is made where there was none, and one that is deleted there again.
born_lem : (a b : ℕ) (cores : Cores) → cores a ≡ 0 → store a 1 cores b ≡ cores b + count b (a ∷ [])
unfolding store
born_lem a b cores e = ground (arith, ap cores)

pub died_lem : (a b : ℕ) (cores : Cores) → cores a ≡ 0 → store a 0 (store a 1 cores) b ≡ cores b
unfolding store
died_lem a b cores e = ground (arith, ap cores)

pub some-ne-none : (a : ℕ) → ◌≡◌ {A = Option ℕ} (some a) none → ⊥
some-ne-none a e = cc e

-- A process by its parts, to split on the instance.
abbrev process : (core handle published : Option ℕ) → Cores → List ℕ → Process
process core handle published cores holders = record {
  global = record { core = core; shm_handle = handle };
  published = published;
  cores = cores;
  holders = holders;
}

initialized :
    (has_config : Bool) (address : Option ℕ) (good : Bool) (new_handle : ℕ)
    (core handle published : Option ℕ) (cores : Cores) (holders : List ℕ)
    → ((a : ℕ) → address ≡ some a → cores a ≡ 0)
    → IsOwned (process core handle published cores holders)
    → IsOwned (
        initialize has_config
          (record { address = address; initialized = good })
          new_handle
          (process core handle published cores holders))
unfolding initialize
initialized has_config address good new_handle (some a) none published cores holders fresh o = o
initialized has_config address good new_handle (some a) (some h) published cores holders fresh o =
    record { counted = o.counted; shown = refl; few = o.few }
initialized has_config address good new_handle none handle (some p) cores holders fresh o =
    absurd (some-ne-none p o.shown)
initialized false address good new_handle none none none cores holders fresh o = o
initialized false address good new_handle none (some h) none cores holders fresh o = o
initialized true none good new_handle none none none cores holders fresh o = o
initialized true none good new_handle none (some h) none cores holders fresh o = o
initialized true (some a) false new_handle none none none cores holders fresh o = record {
  counted = λ b. died_lem a b cores (fresh a refl) ∙ o.counted b;
  shown = refl;
  few = o.few;
}
initialized true (some a) false new_handle none (some h) none cores holders fresh o = record {
  counted = λ b. died_lem a b cores (fresh a refl) ∙ o.counted b;
  shown = refl;
  few = o.few;
}
initialized true (some a) true new_handle none handle none cores holders fresh o = record {
  counted = λ b. omega (arith, born_lem a b cores (fresh a refl), o.counted b);
  shown = refl;
  few = o.few;
}

released :
    (core handle published : Option ℕ) (cores : Cores) (holders : List ℕ)
    → IsOwned (process core handle published cores holders)
    → IsOwned (shut_down (process core handle published cores holders))
unfolding shut_down
released none handle published cores holders o = o
released (some a) handle published cores holders o =
    let p = process (some a) handle published cores holders in
    record {
      counted = λ b. ground (
        arith,
        release_ref_lem a b cores (ground (arith, o.counted a)) (below p a o),
        o.counted b,
        o.counted a,
      );
      shown = refl;
      few = o.few;
    }

created :
    (core handle published : Option ℕ) (cores : Cores) (holders : List ℕ)
    → length holders + 2 < 2 ^ 32
    → IsOwned (process core handle published cores holders)
    → IsOwned (create_holder (process core handle published cores holders))
unfolding create_holder poll_instance
created none handle none cores holders few o = o
created none handle (some p) cores holders few o = absurd (some-ne-none p o.shown)
created (some a) handle published cores holders few o = record {
  counted = λ b. ground (
    arith,
    addref_lem a b cores
        (omega (arith, o.counted a, count-le a holders, counted_instance a (some a))),
    o.counted b,
    o.counted a,
  );
  shown = o.shown;
  few = omega (arith, few);
}

count-drop_holder :
    (a b : ℕ) (bs : List ℕ)
    → 0 < count a bs
    → count b (drop_holder a bs) + (if b == a then 1 else 0) ≡ count b bs
count-drop_holder a b [] h = absurd (omega arith)
count-drop_holder a b (c ∷ bs) h = ground (arith, count-drop_holder a b bs)

length-drop_holder : (a : ℕ) (bs : List ℕ) → length (drop_holder a bs) ≤ length bs
length-drop_holder a [] = omega arith
length-drop_holder a (c ∷ bs) = ground (arith, length-drop_holder a bs)

destroy_holder-IsOwned :
    (a : ℕ) (s : Process) → 0 < count a s.holders → IsOwned s → IsOwned (destroy_holder a s)
unfolding destroy_holder
destroy_holder-IsOwned a s held o = record {
  counted = λ b. ground (
    arith,
    release_ref_lem a b s.cores (omega (arith, o.counted a)) (below s a o),
    count-drop_holder a b s.holders,
    o.counted b,
    o.counted a,
  );
  shown = o.shown;
  few = omega (arith, o.few, length-drop_holder a s.holders);
}

-- Whatever a process does, in whatever order its threads do it: initialize again and again, with whatever
-- outcome, shut down, and start and end the writers of its threads. Each core is counted exactly as often as
-- the instance and the writers refer to it: none that is referred to is deleted, none that is not is
-- left, and the shared memory shows the instance.
pub Reach-IsOwned : {s : Process} → Reach s → IsOwned s
Reach-IsOwned begins = start-IsOwned
Reach-IsOwned (initializes has_config made handle {s = s} fresh r) =
    initialized has_config made.address made.initialized handle s.global.core s.global.shm_handle
      s.published s.cores s.holders fresh (Reach-IsOwned r)
Reach-IsOwned (shuts_down {s = s} r) =
    released s.global.core s.global.shm_handle s.published s.cores s.holders (Reach-IsOwned r)
Reach-IsOwned (creates {s = s} few r) =
    created s.global.core s.global.shm_handle s.published s.cores s.holders few (Reach-IsOwned r)
Reach-IsOwned (destroys a {s = s} held r) = destroy_holder-IsOwned a s held (Reach-IsOwned r)

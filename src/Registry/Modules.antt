-- ===== src/Registry/Modules.antt =====
-- A handle of a log module stays valid, and carries the verbosity that was set last.
use selenge_muren.Prelude.{
  ℕ, zero, suc, ◌<◌, ◌%◌, ◌^◌, ◌≡◌, refl, ap, inl, inr, Bool, true, false, not, ◌||◌, Option, none,
  some, List, [], ◌∷◌, arith, length, length-append, get_elem?, Bool-cases, Option-cases,
}
use selenge_muren.Registry.{
  find, LogModule, ModuleRegistry, store_verbosity, set_verbosity, get_verbosity, module_create,
  register_module, find_module,
}
use selenge_muren.Registry.Attrs.{find-new, find-cases, get_at}

-- Every name in the map leads to a module.
pub record IsValid (r : ModuleRegistry) : Type 0 where
  pub in_range : (name : List ℕ) (i : ℕ) → find r.module_map name ≡ some i → i < length r.modules

length-store_verbosity :
    (handle verbosity : ℕ) (ms : List LogModule)
    → length (store_verbosity handle verbosity ms) ≡ length ms
length-store_verbosity handle verbosity [] = refl
length-store_verbosity zero verbosity (m ∷ ms) = refl
length-store_verbosity (suc handle) verbosity (m ∷ ms) =
    ap suc (length-store_verbosity handle verbosity ms)

get-store_verbosity :
    (handle verbosity : ℕ) (ms : List LogModule)
    → handle < length ms
    → (m : LogModule) × (get_elem? (store_verbosity handle verbosity ms) handle ≡ some m)
      × (m.verbosity ≡ verbosity)
get-store_verbosity handle verbosity [] h = absurd (omega arith)
get-store_verbosity zero verbosity (m ∷ ms) h = (_, refl, refl)
get-store_verbosity (suc handle) verbosity (m ∷ ms) h =
    get-store_verbosity handle verbosity ms (omega arith)

-- The verbosity that is set through a handle, or as the default, is the one that is then read there.
pub get_verbosity-set_verbosity :
    (handle : Option ℕ) (verbosity : ℕ) (r : ModuleRegistry)
    → ((i : ℕ) → handle ≡ some i → i < length r.modules)
    → get_verbosity handle (set_verbosity handle verbosity r) ≡ some verbosity
unfolding get_verbosity set_verbosity
get_verbosity-set_verbosity none verbosity r h = refl
get_verbosity-set_verbosity (some i) verbosity r h =
    let (m, at, same) = get-store_verbosity i verbosity r.modules (h i refl) in
    rw (get_verbosity, set_verbosity, at) (ap some same)

-- In a valid registry the handle that `register_module` returns is the one that `find_module` then
-- finds for the name, and it has the verbosity of the call.
pub register_module_lem :
    (made name_made entry_put has_out : Bool) (name : Option (List ℕ)) (verbosity handle : ℕ)
    (r : ModuleRegistry)
    → IsValid r
    → (register_module made name_made entry_put has_out name verbosity r).0 ≡ some handle
    → let s = (register_module made name_made entry_put has_out name verbosity r).1 in
      (find_module name s ≡ some handle) × (get_verbosity (some handle) s ≡ some verbosity)
unfolding register_module module_create find_module get_verbosity
register_module_lem made name_made entry_put has_out none verbosity handle r v e =
    absurd (ground arith)
register_module_lem made name_made entry_put has_out (some []) verbosity handle r v e =
    absurd (ground arith)
register_module_lem made name_made entry_put has_out (some (c ∷ cs)) verbosity handle r v e =
    elim (Option-cases (find r.module_map (c ∷ cs))) [
      | inl f ↦ ground (
        arith,
        find-new r.module_map (c ∷ cs) (length r.modules),
        get_at r.modules
            (record { name = c ∷ cs; id = length r.modules % 2 ^ 16; verbosity = verbosity }),
      )
      | inr (i, f) ↦
          let (m, at, same) = get-store_verbosity i verbosity r.modules (v.in_range (c ∷ cs) i f) in
          ground arith
    ]

module_added-IsValid :
    (entry_put : Bool) (name : List ℕ) (verbosity : ℕ) (r : ModuleRegistry)
    → IsValid r
    → IsValid (module_create true true entry_put name verbosity r).1
unfolding module_create
module_added-IsValid entry_put name verbosity r v = record {
  in_range = λ other i f. elim (find-cases r.module_map name other (length r.modules) i f) [
    | inl (o, h) ↦ omega (arith, h, length-append r.modules (_ ∷ []))
    | inr g ↦ omega (arith, v.in_range other i g, length-append r.modules (_ ∷ []))
  ];
}

module_create-IsValid :
    (made name_made entry_put : Bool) (name : List ℕ) (verbosity : ℕ) (r : ModuleRegistry)
    → IsValid r
    → IsValid (module_create made name_made entry_put name verbosity r).1
unfolding module_create
module_create-IsValid false name_made entry_put name verbosity r v = v
module_create-IsValid true false entry_put name verbosity r v = v
module_create-IsValid true true entry_put name verbosity r v =
    module_added-IsValid entry_put name verbosity r v

pub stored-IsValid :
    (handle verbosity : ℕ) (r : ModuleRegistry)
    → IsValid r
    → IsValid (record r { modules = store_verbosity handle verbosity r.modules })
stored-IsValid handle verbosity r v = record {
  in_range = λ name i f.
      omega (arith, v.in_range name i f, length-store_verbosity handle verbosity r.modules);
}

-- Every call of `register_module` keeps each name of the map on a module that exists.
pub register_module-IsValid :
    (made name_made entry_put has_out : Bool) (name : Option (List ℕ)) (verbosity : ℕ)
    (r : ModuleRegistry)
    → IsValid r
    → IsValid (register_module made name_made entry_put has_out name verbosity r).1
unfolding register_module
register_module-IsValid made name_made entry_put has_out none verbosity r v = v
register_module-IsValid made name_made entry_put has_out (some []) verbosity r v = v
register_module-IsValid made name_made entry_put has_out (some (c ∷ cs)) verbosity r v =
    elim (Bool-cases (not r.initialized || not has_out)) [
      | inl e ↦ simp (e, register_module) v
      | inr e ↦ elim (Option-cases (find r.module_map (c ∷ cs))) [
        | inl f ↦
            simp (e, f, register_module)
              (module_create-IsValid made name_made entry_put (c ∷ cs) verbosity r v)
        | inr (i, f) ↦ simp (e, f, register_module) (stored-IsValid i verbosity r v)
      ]
    ]

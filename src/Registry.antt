-- ===== src/Registry.antt =====
-- engine/p8_core.cpp: the registries of attributes and of log modules. Each call runs under the mutex of
-- its registry; a name is a byte list, `none` a null pointer, and the two allocations are arguments. An
-- unordered map is the list of its pairs, the newest first. Service entries are queued in order.
pub mod Attrs
pub mod Modules
use selenge_muren.Prelude.{
  ℕ, zero, suc, ◌+◌, ◌-◌, ◌%◌, ◌^◌, Bool, true, false, not, ◌&&◌, ◌||◌, Option, none, some, List,
  [], ◌∷◌, ◌++◌, ◌==◌, if◌then◌else◌, length, get_elem?, set, drop, ltb,
}

-- Equality of two byte lists.
abbrev pub same_name : List ℕ → List ℕ → Bool
same_name [] [] = true
same_name (x ∷ xs) (y ∷ ys) = x == y && same_name xs ys
same_name _ _ = false

abbrev pub find : List (List ℕ × ℕ) → List ℕ → Option ℕ
find [] name = none
find ((key, value) ∷ map) name = if same_name key name then some value else find map name

-- s_p8_attr_desc, whose `mi_id` is the 32-bit pattern of an index.
pub record Attr : Type 0 where
  pub name : List ℕ
  pub id : ℕ
  pub type : ℕ

-- `mo_attr_descs`, `mo_attr_name_map`, and the descriptors whose service entry was written.
pub record AttrRegistry : Type 0 where
  pub initialized : Bool
  pub descs : List Attr
  pub name_map : List (List ℕ × ℕ)
  pub serialized : List Attr

-- P8_ATTR_ERROR_XXX, or an id.
pub data AttrResult : Type 0 where
  attr_id : ℕ → AttrResult
  not_initialized invalid_name type_mismatch alloc_failed not_found : AttrResult

-- The type of a descriptor; past the end of the vector, and at a negative id, the code would read out of
-- bounds.
abbrev pub type_at : List Attr → ℕ → Option ℕ
type_at descs i =
    if ltb i (2 ^ 31) then elim (get_elem? descs i) [ none ↦ none | some a ↦ some a.type ] else none

abbrev pub has_type : Option ℕ → ℕ → Bool
has_type none type = false
has_type (some t) type = t == type

-- The part of `attr_register` for a name that is not registered. `entry_put` is what `svc_reserve`
-- answers in `serialize_attr_desc`, which drops the entry if it finds no buffer.
unfoldable pub attr_create :
    (desc_made name_made entry_put : Bool) → List ℕ → ℕ → AttrRegistry → AttrResult × AttrRegistry
attr_create desc_made name_made entry_put name type r =
    if not desc_made
    then (alloc_failed, r)
    else if not name_made
    then (alloc_failed, r)
    else (let id = length r.descs % 2 ^ 32 in
        let desc : Attr = record { name = name; id = id; type = type } in
        (
          attr_id id,
          record r {
            descs = r.descs ++ desc ∷ [];
            name_map = (name, id) ∷ r.name_map;
            serialized = if entry_put then r.serialized ++ desc ∷ [] else r.serialized;
          },
        ))

unfoldable pub attr_register :
    (desc_made name_made entry_put : Bool)
    → Option (List ℕ)
    → ℕ
    → AttrRegistry
    → AttrResult × AttrRegistry
attr_register desc_made name_made entry_put none type r =
    if not r.initialized then (not_initialized, r) else (invalid_name, r)
attr_register desc_made name_made entry_put (some []) type r =
    if not r.initialized then (not_initialized, r) else (invalid_name, r)
attr_register desc_made name_made entry_put (some (c ∷ cs)) type r =
    if not r.initialized then (not_initialized, r) else elim (find r.name_map (c ∷ cs)) [
      | some id ↦
          (if has_type (type_at r.descs id) type then (attr_id id, r) else (type_mismatch, r))
      | none ↦ attr_create desc_made name_made entry_put (c ∷ cs) type r
    ]

unfoldable pub attr_get : Option (List ℕ) → AttrRegistry → AttrResult
attr_get none r = if not r.initialized then not_initialized else not_found
attr_get (some []) r = if not r.initialized then not_initialized else not_found
attr_get (some (c ∷ cs)) r =
    if not r.initialized
    then not_initialized
    else elim (find r.name_map (c ∷ cs)) [ some id ↦ attr_id id | none ↦ not_found ]

-- `sync_attr_cache`: a writer's cache grows by the descriptors that it lacks.
unfoldable pub sync_attr_cache : List Attr → AttrRegistry → List Attr
sync_attr_cache cache r = cache ++ drop (length cache) r.descs

-- s_p8_log_mod, whose handle is its index in `mo_log_mods`.
pub record LogModule : Type 0 where
  pub name : List ℕ
  pub id : ℕ
  pub verbosity : ℕ

-- `mo_log_mods`, `mo_log_mod_map`, and the modules whose service entry was written.
pub record ModuleRegistry : Type 0 where
  pub initialized : Bool
  pub modules : List LogModule
  pub module_map : List (List ℕ × ℕ)
  pub default_verbosity : ℕ
  pub serialized : List LogModule

-- `mb_vervosity.store` through a handle.
abbrev pub store_verbosity : ℕ → ℕ → List LogModule → List LogModule
store_verbosity handle verbosity [] = []
store_verbosity zero verbosity (m ∷ ms) = record m { verbosity = verbosity } ∷ ms
store_verbosity (suc handle) verbosity (m ∷ ms) = m ∷ store_verbosity handle verbosity ms

-- `set_verbosity`; no handle means the default.
unfoldable pub set_verbosity : Option ℕ → ℕ → ModuleRegistry → ModuleRegistry
set_verbosity none verbosity r = record r { default_verbosity = verbosity }
set_verbosity (some handle) verbosity r = record r {
  modules = store_verbosity handle verbosity r.modules;
}

-- `get_verbosity`; `none` would be a read through a handle that was never given out.
unfoldable pub get_verbosity : Option ℕ → ModuleRegistry → Option ℕ
get_verbosity none r = some r.default_verbosity
get_verbosity (some handle) r = elim (get_elem? r.modules handle) [
  | none ↦ none
  | some m ↦ some m.verbosity
]

-- The part of `register_module` for a name that is not registered; `entry_put` is what `svc_reserve`
-- answers in `serialize_log_mod`.
unfoldable pub module_create :
    (made name_made entry_put : Bool) → List ℕ → ℕ → ModuleRegistry → Option ℕ × ModuleRegistry
module_create made name_made entry_put name verbosity r =
    if not made
    then (none, r)
    else if not name_made
    then (none, r)
    else (let m : LogModule = record {
      name = name;
      id = length r.modules % 2 ^ 16;
      verbosity = verbosity;
    } in
        (
          some (length r.modules),
          record r {
            modules = r.modules ++ m ∷ [];
            module_map = (name, length r.modules) ∷ r.module_map;
            serialized = if entry_put then r.serialized ++ m ∷ [] else r.serialized;
          },
        ))

-- `register_module`: the handle, `none` where it returns false. `has_out` says that `op_module` is there.
unfoldable pub register_module :
    (made name_made entry_put has_out : Bool)
    → Option (List ℕ)
    → ℕ
    → ModuleRegistry
    → Option ℕ × ModuleRegistry
register_module made name_made entry_put has_out none verbosity r = (none, r)
register_module made name_made entry_put has_out (some []) verbosity r = (none, r)
register_module made name_made entry_put has_out (some (c ∷ cs)) verbosity r =
    if not r.initialized || not has_out then (none, r) else elim (find r.module_map (c ∷ cs)) [
      | some handle ↦
          (some handle, record r { modules = store_verbosity handle verbosity r.modules })
      | none ↦ module_create made name_made entry_put (c ∷ cs) verbosity r
    ]

unfoldable pub find_module : Option (List ℕ) → ModuleRegistry → Option ℕ
find_module none r = none
find_module (some []) r = none
find_module (some (c ∷ cs)) r = if not r.initialized then none else find r.module_map (c ∷ cs)

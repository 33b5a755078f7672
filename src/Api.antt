-- ===== src/Api.antt =====
-- engine/p8_core.cpp, p8_log.cpp, p8_mtk.cpp: the C functions that go to the registries of the core. The
-- core is the one that `get_global_core` or `gp_instance` gives, or none.
pub mod Stable
use selenge_muren.Prelude.{ℕ, ◌-◌, ◌^◌, Bool, true, false, Option, none, some, List, [], ◌∷◌}
use selenge_muren.Service.{Service}
use selenge_muren.Registry.{
  AttrRegistry, AttrResult, not_initialized, not_found, attr_register, attr_get, ModuleRegistry,
  register_module, find_module, set_verbosity, get_verbosity,
}
use selenge_muren.Metrics.{
  MetricBase, MetricRegistry, MetricResult, mtk_not_initialized, Allocations, register_mtk,
}

-- The registries of a core, with the service buffers that descriptors go to.
pub record Registries : Type 0 where
  pub attrs : AttrRegistry
  pub modules : ModuleRegistry
  pub metrics : MetricRegistry
  pub service : Service

unfoldable pub p8_attr_register :
    (desc_made name_made entry_put : Bool)
    → Option (List ℕ)
    → ℕ
    → Option Registries
    → AttrResult × Option Registries
unfolding attr_register
p8_attr_register desc_made name_made entry_put name type none = (not_initialized, none)
p8_attr_register desc_made name_made entry_put name type (some r) =
    let (id, attrs) = attr_register desc_made name_made entry_put name type r.attrs in
    (id, some (record r { attrs = attrs }))

unfoldable pub p8_attr_get : Option (List ℕ) → Option Registries → AttrResult
unfolding attr_get
p8_attr_get name none = not_found
p8_attr_get name (some r) = attr_get name r.attrs

unfoldable pub p8_log_set_verbosity : Option ℕ → ℕ → Option Registries → Option Registries
unfolding set_verbosity
p8_log_set_verbosity handle verbosity none = none
p8_log_set_verbosity handle verbosity (some r) =
    some (record r { modules = set_verbosity handle verbosity r.modules })

-- e_p8_trace0 without a core.
unfoldable pub p8_log_get_verbosity : Option ℕ → Option Registries → Option ℕ
unfolding get_verbosity
p8_log_get_verbosity handle none = some 0
p8_log_get_verbosity handle (some r) = get_verbosity handle r.modules

unfoldable pub p8_log_register_module :
    (made name_made entry_put has_out : Bool)
    → Option (List ℕ)
    → ℕ
    → Option Registries
    → Option ℕ × Option Registries
unfolding register_module
p8_log_register_module made name_made entry_put has_out name verbosity none = (none, none)
p8_log_register_module made name_made entry_put has_out name verbosity (some r) =
    let (handle, modules) =
      register_module made name_made entry_put has_out name verbosity r.modules in
    (handle, some (record r { modules = modules }))

unfoldable pub p8_log_find_module : Option (List ℕ) → Option Registries → Option ℕ
unfolding find_module
p8_log_find_module name none = none
p8_log_find_module name (some r) = find_module name r.modules

-- `cp8_mtk::create` and `p8_mtk_create`
unfoldable pub p8_mtk_create :
    (same_double : ℕ → ℕ → Bool)
    → Allocations
    → Option MetricBase
    → Option Registries
    → MetricResult × Option Registries
unfolding register_mtk
p8_mtk_create same_double m base none = (mtk_not_initialized, none)
p8_mtk_create same_double m base (some r) =
    let (id, metrics, service) =
      register_mtk same_double m r.attrs.descs base r.metrics r.service in
    (id, some (record r { metrics = metrics; service = service }))

-- The functions that are not there yet: ids of -1, as 32-bit patterns, and refusals.
abbrev pub create_query : Option MetricBase → (interval : ℕ) → ℕ
create_query base interval = 2 ^ 32 - 1

abbrev pub create_group : Option MetricBase → (multi_thread : Bool) → ℕ
create_group base multi_thread = 2 ^ 32 - 1

abbrev pub create_group_query : Option MetricBase → (interval : ℕ) → ℕ
create_group_query base interval = 2 ^ 32 - 1

abbrev pub begin_group_emit : (group : ℕ) → Bool
begin_group_emit group = false

abbrev pub emit_group : Option (List ℕ) → (value : ℕ) → Bool
emit_group name value = false

abbrev pub end_group_emit : (group : ℕ) → Bool
end_group_emit group = false

-- A call that may change the registries.
pub data Change : Type 0 where
  registers_attr : (desc_made name_made entry_put : Bool) → Option (List ℕ) → ℕ → Change
  registers_module : (made name_made entry_put has_out : Bool) → Option (List ℕ) → ℕ → Change
  sets_verbosity : Option ℕ → ℕ → Change
  creates_metric : (same_double : ℕ → ℕ → Bool) → Allocations → Option MetricBase → Change

unfoldable pub change : Change → Option Registries → Option Registries
unfolding p8_attr_register p8_log_register_module p8_log_set_verbosity p8_mtk_create
change (registers_attr d n e name type) r = (p8_attr_register d n e name type r).1
change (registers_module m n e o name verbosity) r =
    (p8_log_register_module m n e o name verbosity r).1
change (sets_verbosity handle verbosity) r = p8_log_set_verbosity handle verbosity r
change (creates_metric same m base) r = (p8_mtk_create same m base r).1

unfoldable pub run : List Change → Option Registries → Option Registries
unfolding change
run [] r = r
run (c ∷ cs) r = run cs (change c r)

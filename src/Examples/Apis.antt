-- ===== src/Examples/Apis.antt =====
-- The registries of a core under a series of calls.
use selenge_muren.Prelude.{true, false, some, List, [], ◌∷◌}
use selenge_muren.Api.{
  Registries, Change, registers_attr, registers_module, sets_verbosity, creates_metric, run,
}
use selenge_muren.Api.Stable.{AreValid, KeepsCore, run-Keeps}
use selenge_muren.Examples.Services.{attrs, modules, attrs-IsValid, modules-IsValid}
use selenge_muren.Examples.Core.{no_metrics, no_service, load, all_given, same_double}

abbrev registries : Registries
registries = record { attrs = attrs; modules = modules; metrics = no_metrics; service = no_service }

registries-AreValid : AreValid registries
registries-AreValid = record { attrs_valid = attrs-IsValid; modules_valid = modules-IsValid }

abbrev changes : List Change
changes =
    registers_attr true true true (some (b'x' ∷ [])) 1
    ∷ registers_module true true true true (some (b'm' ∷ [])) 4
    ∷ sets_verbosity (some 0) 3
    ∷ creates_metric same_double all_given (some load)
    ∷ registers_attr true true false (some (b'y' ∷ [])) 2
    ∷ []

run-Keeps_example : KeepsCore registries (run changes (some registries))
run-Keeps_example = run-Keeps changes registries registries-AreValid

-- ===== src/Api/Stable.antt =====
-- What the registries have given out stays valid under every later call.
use selenge_muren.Prelude.{
  ℕ, ◌≡◌, refl, ◌∙◌, ap, subst, inl, inr, Bool, true, false, not, ◌||◌, Option, none, some, List,
  [], ◌∷◌, Bool-cases, Option-cases,
}
use selenge_muren.Service.{Service}
use selenge_muren.Registry.{
  find, Attr, AttrRegistry, attr_register, attr_create, ModuleRegistry, register_module,
  module_create, set_verbosity, type_at, has_type,
}
use selenge_muren.Registry.Attrs
use selenge_muren.Registry.Attrs.{find-old, attr_register-IsValid}
use selenge_muren.Registry.Modules
use selenge_muren.Registry.Modules.{register_module-IsValid, stored-IsValid}
use selenge_muren.Metrics.{
  MetricBase, MetricRegistry, Allocations, all_made, mtk_create, mtk_named, register_mtk,
}
use selenge_muren.Api.{
  Registries, Change, registers_attr, registers_module, sets_verbosity, creates_metric, change, run,
}

-- The names that a map knows keep their ids.
abbrev pub Extends : List (List ℕ × ℕ) → List (List ℕ × ℕ) → Type 0
Extends m n = (name : List ℕ) (id : ℕ) → find m name ≡ some id → find n name ≡ some id

attr_created :
    (d n p : Bool) (name : List ℕ) (type : ℕ) (r : AttrRegistry)
    → find r.name_map name ≡ none
    → Extends r.name_map (attr_create d n p name type r).1.name_map
unfolding attr_create
attr_created false n p name type r e other id f = f
attr_created true false p name type r e other id f = f
attr_created true true p name type r e other id f = find-old r.name_map name other _ id e f

attr_register-Extends :
    (d n p : Bool) (name : Option (List ℕ)) (type : ℕ) (r : AttrRegistry)
    → Extends r.name_map (attr_register d n p name type r).1.name_map
unfolding attr_register
attr_register-Extends d n p none type r = elim (Bool-cases r.initialized) [
  | inl e ↦ simp (e, attr_register) (λ other id f. f)
  | inr e ↦ simp (e, attr_register) (λ other id f. f)
]
attr_register-Extends d n p (some []) type r = elim (Bool-cases r.initialized) [
  | inl e ↦ simp (e, attr_register) (λ other id f. f)
  | inr e ↦ simp (e, attr_register) (λ other id f. f)
]
attr_register-Extends d n p (some (c ∷ cs)) type r = elim (Bool-cases r.initialized) [
  | inr e ↦ simp (e, attr_register) (λ other id f. f)
  | inl e ↦ elim (Option-cases (find r.name_map (c ∷ cs))) [
    | inl f ↦ simp (e, f, attr_register) (attr_created d n p (c ∷ cs) type r f)
    | inr (i, f) ↦ elim (Bool-cases (has_type (type_at r.descs i) type)) [
      | inl t ↦ simp (e, f, t, attr_register) (λ other id g. g)
      | inr t ↦ simp (e, f, t, attr_register) (λ other id g. g)
    ]
  ]
]

module_created :
    (m n p : Bool) (name : List ℕ) (verbosity : ℕ) (r : ModuleRegistry)
    → find r.module_map name ≡ none
    → Extends r.module_map (module_create m n p name verbosity r).1.module_map
unfolding module_create
module_created false n p name verbosity r e other id f = f
module_created true false p name verbosity r e other id f = f
module_created true true p name verbosity r e other id f = find-old r.module_map name other _ id e f

register_module-Extends :
    (m n p o : Bool) (name : Option (List ℕ)) (verbosity : ℕ) (r : ModuleRegistry)
    → Extends r.module_map (register_module m n p o name verbosity r).1.module_map
unfolding register_module
register_module-Extends m n p o none verbosity r = λ other id f. f
register_module-Extends m n p o (some []) verbosity r = λ other id f. f
register_module-Extends m n p o (some (c ∷ cs)) verbosity r =
    elim (Bool-cases (not r.initialized || not o)) [
      | inl e ↦ simp (e, register_module) (λ other id f. f)
      | inr e ↦ elim (Option-cases (find r.module_map (c ∷ cs))) [
        | inl f ↦ simp (e, f, register_module) (module_created m n p (c ∷ cs) verbosity r f)
        | inr (i, f) ↦ simp (e, f, register_module) (λ other id g. g)
      ]
    ]

set_verbosity_lem :
    (handle : Option ℕ) (verbosity : ℕ) (r : ModuleRegistry)
    → Modules.IsValid r
    → Modules.IsValid (set_verbosity handle verbosity r)
      × ((set_verbosity handle verbosity r).module_map ≡ r.module_map)
unfolding set_verbosity
set_verbosity_lem none verbosity r v = (record { in_range = v.in_range }, refl)
set_verbosity_lem (some h) verbosity r v = (stored-IsValid h verbosity r v, refl)

metric_created :
    (m : Allocations) (attrs : List Attr) (name : List ℕ) (b : MetricBase) (r : MetricRegistry)
    (s : Service)
    → find r.name_map name ≡ none
    → Extends r.name_map (mtk_create m attrs name b r s).1.name_map
unfolding mtk_create
metric_created m attrs name b r s f = elim (Bool-cases (all_made m b)) [
  | inl e ↦ simp (e, mtk_create) (λ other id g. find-old r.name_map name other _ id f g)
  | inr e ↦ simp (e, mtk_create) (λ other id g. g)
]

metric_named :
    (same : ℕ → ℕ → Bool) (m : Allocations) (attrs : List Attr) (name : List ℕ) (b : MetricBase)
    (r : MetricRegistry) (s : Service)
    → Extends r.name_map (mtk_named same m attrs name b r s).1.name_map
unfolding mtk_named
metric_named same m attrs name b r s = elim (Option-cases (find r.name_map name)) [
  | inr (i, f) ↦ simp (f, mtk_named) (λ other id g. g)
  | inl f ↦ simp (f, mtk_named) (metric_created m attrs name b r s f)
]

register_mtk-Extends :
    (same : ℕ → ℕ → Bool) (m : Allocations) (attrs : List Attr) (base : Option MetricBase)
    (r : MetricRegistry) (s : Service)
    → Extends r.name_map (register_mtk same m attrs base r s).1.name_map
unfolding register_mtk
register_mtk-Extends same m attrs base r s = elim (Bool-cases r.initialized) [
  | inr e ↦ simp (e, register_mtk) (λ other id g. g)
  | inl e ↦ with_base base e
]
  where
    with_name :
        (b : MetricBase) (name : List ℕ)
        → r.initialized ≡ true
        → b.name ≡ some name
        → Extends r.name_map (register_mtk same m attrs (some b) r s).1.name_map
    with_name b [] e f = simp (e, f, register_mtk) (λ other id g. g)
    with_name b (c ∷ cs) e f = simp (e, f, register_mtk) (metric_named same m attrs (c ∷ cs) b r s)

    with_base :
        (base : Option MetricBase)
        → r.initialized ≡ true
        → Extends r.name_map (register_mtk same m attrs base r s).1.name_map
    with_base none e = simp (e, register_mtk) (λ other id g. g)
    with_base (some b) e = elim (Option-cases b.name) [
      | inl f ↦ simp (e, f, register_mtk) (λ other id g. g)
      | inr (name, f) ↦ with_name b name e f
    ]

-- Both registries with an invariant are valid.
pub record AreValid (r : Registries) : Type 0 where
  pub attrs_valid : Attrs.IsValid r.attrs
  pub modules_valid : Modules.IsValid r.modules

-- What has been given out in `r` is there in `s`.
pub record Keeps (r s : Registries) : Type 0 where
  pub valid : AreValid s
  pub attr_ids : Extends r.attrs.name_map s.attrs.name_map
  pub module_handles : Extends r.modules.module_map s.modules.module_map
  pub metric_ids : Extends r.metrics.name_map s.metrics.name_map

abbrev pub KeepsCore : Registries → Option Registries → Type 0
KeepsCore r none = ⊥
KeepsCore r (some s) = Keeps r s

change-Keeps : (c : Change) (r : Registries) → AreValid r → KeepsCore r (change c (some r))
unfolding change
change-Keeps (registers_attr d n p name type) r v = record {
  valid = record {
    attrs_valid = (attr_register-IsValid d n p name type r.attrs v.attrs_valid).0;
    modules_valid = v.modules_valid;
  };
  attr_ids = attr_register-Extends d n p name type r.attrs;
  module_handles = λ name id f. f;
  metric_ids = λ name id f. f;
}
change-Keeps (registers_module m n p o name verbosity) r v = record {
  valid = record {
    attrs_valid = v.attrs_valid;
    modules_valid = register_module-IsValid m n p o name verbosity r.modules v.modules_valid;
  };
  attr_ids = λ name id f. f;
  module_handles = register_module-Extends m n p o name verbosity r.modules;
  metric_ids = λ name id f. f;
}
change-Keeps (sets_verbosity handle verbosity) r v =
    let (valid, same) = set_verbosity_lem handle verbosity r.modules v.modules_valid in
    record {
      valid = record { attrs_valid = v.attrs_valid; modules_valid = valid };
      attr_ids = λ name id f. f;
      module_handles = λ name id f. ap (λ m. find m name) same ∙ f;
      metric_ids = λ name id f. f;
    }
change-Keeps (creates_metric same m base) r v = record {
  valid = record { attrs_valid = v.attrs_valid; modules_valid = v.modules_valid };
  attr_ids = λ name id f. f;
  module_handles = λ name id f. f;
  metric_ids = register_mtk-Extends same m r.attrs.descs base r.metrics r.service;
}

chained : (r s : Registries) (t : Option Registries) → Keeps r s → KeepsCore s t → KeepsCore r t
chained r s none k l = l
chained r s (some t) k l = record {
  valid = l.valid;
  attr_ids = λ name id f. l.attr_ids name id (k.attr_ids name id f);
  module_handles = λ name id f. l.module_handles name id (k.module_handles name id f);
  metric_ids = λ name id f. l.metric_ids name id (k.metric_ids name id f);
}

-- Whatever calls the threads of a program make to the registries of a core, in whatever order and with
-- whatever allocations failing: the registries of attributes and modules stay valid, and every name keeps
-- the attribute id, the module handle and the metric id that it has.
pub run-Keeps : (cs : List Change) (r : Registries) → AreValid r → KeepsCore r (run cs (some r))
unfolding run
run-Keeps [] r v = record {
  valid = v;
  attr_ids = λ name id f. f;
  module_handles = λ name id f. f;
  metric_ids = λ name id f. f;
}
run-Keeps (c ∷ cs) r v = elim (Option-cases (change c (some r))) [
  | inl e ↦ absurd (subst (KeepsCore r) e (change-Keeps c r v))
  | inr (s, e) ↦
      let k = subst (KeepsCore r) e (change-Keeps c r v) in
      rw (e, run) (chained r s (run cs (some s)) k (run-Keeps cs s k.valid))
]

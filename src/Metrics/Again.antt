-- ===== src/Metrics/Again.antt =====
-- A metric is registered once.
use selenge_muren.Prelude.{
  subst, ℕ, ◌+◌, ◌%◌, ◌^◌, ◌≡◌, inl, inr, refl, sym, ap, ◌∙◌, Bool, true, false, Option, none, some,
  List, [], ◌∷◌, ◌++◌, ◌==◌, length, get_elem?, arith, Bool-cases, Option-cases,
}
use selenge_muren.Service.{Service}
use selenge_muren.Service.Entries.{MetricDesc, serialize_mtk_desc}
use selenge_muren.Registry.{Attr, find}
use selenge_muren.Registry.Attrs.{same_name_refl, find-new}
use selenge_muren.Metrics.{
  MetricBase, MetricResult, metric_id, mtk_alloc_failed, MetricRegistry, is_str_equal,
  encode_attr_blob, flags_of, same_metric, new_desc, Allocations, all_made, mtk_create, mtk_known,
  mtk_named,
}

get_elem?-append :
    {A : Type 0} (xs : List A) (x : A) → get_elem? (xs ++ x ∷ []) (length xs) ≡ some x
get_elem?-append [] x = refl
get_elem?-append (y ∷ xs) x = get_elem?-append xs x

is_str_equal_refl : (s : Option (List ℕ)) → is_str_equal s s ≡ true
unfolding is_str_equal
is_str_equal_refl none = refl
is_str_equal_refl (some s) = same_name_refl s

-- A new metric has the definition that it was registered with, where its bounds equal themselves.
same_metric-new_desc :
    (same_double : ℕ → ℕ → Bool) (id : ℕ) (name : List ℕ) (b : MetricBase)
    → same_double b.min_bits b.min_bits ≡ true
    → same_double b.max_bits b.max_bits ≡ true
    → same_metric same_double (new_desc id name b) b ≡ true
unfolding same_metric
same_metric-new_desc same_double id name b min max =
    let flags : (flags_of b == flags_of b) ≡ true = ground arith in
    rw (flags, min, max, is_str_equal_refl b.description, is_str_equal_refl b.unit) refl

known_lem :
    (same_double : ℕ → ℕ → Bool) (m : Allocations) (attrs : List Attr) (name : List ℕ)
    (b : MetricBase) (r : MetricRegistry) (s : Service) (i : ℕ)
    → find r.name_map name ≡ some i
    → mtk_named same_double m attrs name b r s
      ≡ (mtk_known same_double (get_elem? r.descs i) b, r, s)
unfolding mtk_named
known_lem same_double m attrs name b r s i e = ap (λ (o : Option ℕ). named o) e
  where
    named : Option ℕ → MetricResult × MetricRegistry × Service
    named (some id) = (mtk_known same_double (get_elem? r.descs id) b, r, s)
    named none = mtk_create m attrs name b r s

new_lem :
    (same_double : ℕ → ℕ → Bool) (m : Allocations) (attrs : List Attr) (name : List ℕ)
    (b : MetricBase) (r : MetricRegistry) (s : Service)
    → find r.name_map name ≡ none
    → mtk_named same_double m attrs name b r s ≡ mtk_create m attrs name b r s
unfolding mtk_named
new_lem same_double m attrs name b r s e = rw (e, mtk_named) refl

-- The same call once more changes nothing.
abbrev Same :
    (same_double : ℕ → ℕ → Bool) (m : Allocations) (attrs : List Attr) (name : List ℕ)
    (b : MetricBase)
    → MetricResult × MetricRegistry × Service
    → Type 0
Same same_double m attrs name b x = mtk_named same_double m attrs name b x.1 x.2 ≡ x

failed_lem :
    (m : Allocations) (attrs : List Attr) (name : List ℕ) (b : MetricBase) (r : MetricRegistry)
    (s : Service)
    → all_made m b ≡ false
    → mtk_create m attrs name b r s ≡ (mtk_alloc_failed, r, s)
unfolding mtk_create
failed_lem m attrs name b r s e = rw (e, mtk_create) refl

created_lem :
    (m : Allocations) (attrs : List Attr) (name : List ℕ) (b : MetricBase) (r : MetricRegistry)
    (s : Service)
    → all_made m b ≡ true
    → let id = length r.descs in
      mtk_create m attrs name b r s ≡ (
        metric_id id,
        record r {
          descs = r.descs ++ new_desc id name b ∷ [];
          name_map = (name, id) ∷ r.name_map;
          mtk_count = (id + 1) % 2 ^ 32;
        },
        serialize_mtk_desc
            (new_desc id name b)
            (encode_attr_blob attrs b.attrs).1
            (encode_attr_blob attrs b.attrs).0
            s,
      )
unfolding mtk_create
created_lem m attrs name b r s e = rw (e, mtk_create) refl

mtk_known-new_desc :
    (same_double : ℕ → ℕ → Bool) (id : ℕ) (name : List ℕ) (b : MetricBase)
    → same_metric same_double (new_desc id name b) b ≡ true
    → mtk_known same_double (some (new_desc id name b)) b ≡ metric_id id
unfolding mtk_known
mtk_known-new_desc same_double id name b e = rw (e, mtk_known) refl

not_failed : (id : ℕ) → mtk_alloc_failed ≡ metric_id id → ⊥
not_failed id e = cc e

-- A second registration of a metric with the same name and definition, whose bounds equal themselves (no
-- NaN), returns the same id as the first, and changes neither the registry nor the service buffers;
-- whatever is allocated, and whatever attributes are registered meanwhile.
pub mtk_named-again :
    (same_double : ℕ → ℕ → Bool) (m m' : Allocations) (attrs attrs' : List Attr) (name : List ℕ)
    (b : MetricBase) (r : MetricRegistry) (s : Service) (id : ℕ)
    → same_double b.min_bits b.min_bits ≡ true
    → same_double b.max_bits b.max_bits ≡ true
    → (mtk_named same_double m attrs name b r s).0 ≡ metric_id id
    → let (result, after, t) = mtk_named same_double m attrs name b r s in
      mtk_named same_double m' attrs' name b after t ≡ (result, after, t)
mtk_named-again same_double m m' attrs attrs' name b r s id min max e =
    elim (Option-cases (find r.name_map name)) [
      | inr (i, f) ↦
          subst (Same same_double m' attrs' name b)
            (sym (known_lem same_double m attrs name b r s i f))
            (known_lem same_double m' attrs' name b r s i f)
      | inl f ↦
          let new = new_lem same_double m attrs name b r s f in
          elim (Bool-cases (all_made m b)) [
            | inr g ↦
                absurd
                  (not_failed id (sym (ap (λ x. x.0) (new ∙ failed_lem m attrs name b r s g)) ∙ e))
            | inl g ↦
                let made = created_lem m attrs name b r s g in
                subst (Same same_double m' attrs' name b) (sym (new ∙ made)) (
                  registered (
                    serialize_mtk_desc (new_desc (length r.descs) name b)
                      (encode_attr_blob attrs b.attrs).1 (encode_attr_blob attrs b.attrs).0 s))
          ]
    ]
  where
    registered :
        (t : Service)
        → Same same_double m' attrs' name b (
          metric_id (length r.descs),
          record r {
            descs = r.descs ++ new_desc (length r.descs) name b ∷ [];
            name_map = (name, length r.descs) ∷ r.name_map;
            mtk_count = (length r.descs + 1) % 2 ^ 32;
          },
          t,
        )
    registered t =
        let desc = new_desc (length r.descs) name b in
        let after = record r {
          descs = r.descs ++ desc ∷ [];
          name_map = (name, length r.descs) ∷ r.name_map;
          mtk_count = (length r.descs + 1) % 2 ^ 32;
        } in
        known_lem same_double m' attrs' name b after t (length r.descs)
          (find-new r.name_map name (length r.descs))
        ∙ ap (λ (k : MetricResult). (k, after, t))
            (ap (λ (o : Option MetricDesc). mtk_known same_double o b)
                (get_elem?-append r.descs desc)
              ∙ mtk_known-new_desc same_double (length r.descs) name b
                  (same_metric-new_desc same_double (length r.descs) name b min max))

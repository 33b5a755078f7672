-- ===== src/Metrics.antt =====
-- engine/p8_core.cpp: the registry of metrics, `register_mtk` and `encode_attr_blob`, under the registry's
-- mutex. A double is its bit pattern; equality of doubles is an argument, as are the allocations.
pub mod Again
use selenge_muren.Prelude.{
  ℕ, ◌+◌, ◌-◌, ◌%◌, ◌^◌, Bool, true, false, not, ◌&&◌, ◌||◌, Option, none, some, List, [], ◌∷◌,
  ◌++◌, ltb, leb, ◌==◌, if◌then◌else◌, length, take, get_elem?,
}
use selenge_muren.Service.{Service, number_bytes}
use selenge_muren.Service.Entries.{MetricDesc, serialize_mtk_desc}
use selenge_muren.Registry.{Attr, find, same_name}
use selenge_muren.Record.{AttrValue}

-- s_p8_mtk_base
pub record MetricBase : Type 0 where
  pub name : Option (List ℕ)
  pub description : Option (List ℕ)
  pub unit : Option (List ℕ)
  pub on : Bool
  pub min_bits : ℕ
  pub max_bits : ℕ
  pub attrs : List AttrValue

-- P8_MTK_ERROR_XXX, or an id.
pub data MetricResult : Type 0 where
  metric_id : ℕ → MetricResult
  mtk_not_initialized mtk_invalid_name mtk_alloc_failed mtk_conflict : MetricResult

-- `mo_mtk_descs`, `mo_mtk_name_map`, `mu_mtk_count`
pub record MetricRegistry : Type 0 where
  pub initialized : Bool
  pub descs : List MetricDesc
  pub name_map : List (List ℕ × ℕ)
  pub mtk_count : ℕ

-- `is_str_equal`
unfoldable pub is_str_equal : Option (List ℕ) → Option (List ℕ) → Bool
is_str_equal none none = true
is_str_equal none (some b) = false
is_str_equal (some a) none = false
is_str_equal (some a) (some b) = same_name a b

-- The blob and the count after one more attribute.
unfoldable pub attr_blob : Attr → AttrValue → List ℕ
unfolding number_bytes
attr_blob desc a =
    number_bytes 4 a.id
    ++ (if desc.type == 0
        then (let str : List ℕ = elim a.str [ none ↦ [] | some s ↦ s ] in
            let len = if ltb 65535 (length str) then 65535 else length str in
            number_bytes 2 len ++ take len str)
        else number_bytes 8 a.number)

-- The loop of `encode_attr_blob`, `count` attributes in; the count is a byte, and 255 of them end it.
unfoldable pub blob_loop : List Attr → ℕ → List AttrValue → ℕ × List ℕ
unfolding attr_blob
blob_loop descs count [] = (count, [])
blob_loop descs count (a ∷ rest) =
    let skipped = blob_loop descs count rest in
    let more = blob_loop descs (count + 1) rest in
    if leb (2 ^ 31) a.id then skipped else elim (get_elem? descs a.id) [
      | none ↦ skipped
      | some desc ↦
          if count + 1 == 255
          then (count + 1, attr_blob desc a)
          else (more.0, attr_blob desc a ++ more.1)
    ]

unfoldable pub encode_attr_blob : List Attr → List AttrValue → ℕ × List ℕ
unfolding blob_loop
encode_attr_blob descs attrs = blob_loop descs 0 attrs

-- `lu_flags`; P8_MTK_FLAG_ON is 1.
abbrev pub flags_of : MetricBase → ℕ
flags_of b = if b.on then 1 else 0

-- The test for a metric of that name with the same definition.
unfoldable pub same_metric : (same_double : ℕ → ℕ → Bool) → MetricDesc → MetricBase → Bool
unfolding is_str_equal
same_metric same_double d b =
    (d.flags == flags_of b)
    && (same_double d.min_bits b.min_bits
        && (same_double d.max_bits b.max_bits
            && (is_str_equal d.description b.description && is_str_equal d.unit b.unit)))

-- The descriptor of a new metric.
abbrev pub new_desc : ℕ → List ℕ → MetricBase → MetricDesc
new_desc id name b = record {
  name = some name;
  description = b.description;
  unit = b.unit;
  id = id;
  min_bits = b.min_bits;
  max_bits = b.max_bits;
  flags = flags_of b;
}

-- Which of the four allocations succeed.
pub record Allocations : Type 0 where
  pub name_made : Bool
  pub descr_made : Bool
  pub unit_made : Bool
  pub desc_made : Bool

abbrev pub made : Option (List ℕ) → Bool → Bool
made none b = true
made (some s) b = b

abbrev pub all_made : Allocations → MetricBase → Bool
all_made m b =
    m.name_made && (made b.description m.descr_made && (made b.unit m.unit_made && m.desc_made))

-- The lines of `register_mtk` for a name that is not in the map.
unfoldable pub mtk_create :
    Allocations
    → List Attr
    → List ℕ
    → MetricBase
    → MetricRegistry
    → Service
    → MetricResult × MetricRegistry × Service
unfolding encode_attr_blob serialize_mtk_desc
mtk_create m attrs name b r s =
    if all_made m b
    then (let id = length r.descs in
        let (count, blob) = encode_attr_blob attrs b.attrs in
        (
          metric_id id,
          record r {
            descs = r.descs ++ new_desc id name b ∷ [];
            name_map = (name, id) ∷ r.name_map;
            mtk_count = (id + 1) % 2 ^ 32;
          },
          serialize_mtk_desc (new_desc id name b) blob count s,
        ))
    else (mtk_alloc_failed, r, s)

-- The answer for a name in the map; an index past the end would be a read out of bounds.
unfoldable pub mtk_known :
    (same_double : ℕ → ℕ → Bool) → Option MetricDesc → MetricBase → MetricResult
unfolding same_metric
mtk_known same_double none b = mtk_conflict
mtk_known same_double (some d) b =
    if same_metric same_double d b then metric_id d.id else mtk_conflict

-- The lines of `register_mtk` for a name.
unfoldable pub mtk_named :
    (same_double : ℕ → ℕ → Bool)
    → Allocations
    → List Attr
    → List ℕ
    → MetricBase
    → MetricRegistry
    → Service
    → MetricResult × MetricRegistry × Service
unfolding mtk_create mtk_known
mtk_named same_double m attrs name b r s = elim (find r.name_map name) [
  | some id ↦ (mtk_known same_double (get_elem? r.descs id) b, r, s)
  | none ↦ mtk_create m attrs name b r s
]

-- `register_mtk`; `none` is a null pointer.
unfoldable pub register_mtk :
    (same_double : ℕ → ℕ → Bool)
    → Allocations
    → List Attr
    → Option MetricBase
    → MetricRegistry
    → Service
    → MetricResult × MetricRegistry × Service
unfolding mtk_named
register_mtk same_double m attrs base r s =
    if not r.initialized then (mtk_not_initialized, r, s) else elim base [
      | none ↦ (mtk_invalid_name, r, s)
      | some b ↦ elim b.name [
        | none ↦ (mtk_invalid_name, r, s)
        | some name ↦ elim name [
          | [] ↦ (mtk_invalid_name, r, s)
          | c ∷ cs ↦ mtk_named same_double m attrs (c ∷ cs) b r s
        ]
      ]
    ]

-- `get_mtk_count`
unfoldable pub get_mtk_count : MetricRegistry → ℕ
get_mtk_count r = r.mtk_count

-- ===== src/Registry/Attrs.antt =====
-- Attribute ids are dense, stable, and belong to one name and one type.
use selenge_muren.Prelude.{
  subst, ℕ, zero, suc, ◌≡◌, ◌⊎◌, refl, sym, ap, ◌∙◌, inl, inr, Bool, true, false, Option, none,
  some, List, [], ◌∷◌, ◌++◌, arith, ◌==◌, if◌then◌else◌, length, get_elem?, Bool-cases, ◌%◌, ◌^◌,
  drop, append-nil, drop-append_length, Option-cases,
}
use selenge_muren.Registry.{
  same_name, find, Attr, AttrRegistry, attr_id, type_at, has_type, attr_create, attr_register,
  attr_get,
}

same_name-eq : (xs ys : List ℕ) → same_name xs ys ≡ true → xs ≡ ys
same_name-eq [] [] e = refl
same_name-eq [] (y ∷ ys) e = absurd (ground arith)
same_name-eq (x ∷ xs) [] e = absurd (ground arith)
same_name-eq (x ∷ xs) (y ∷ ys) e = elim (Bool-cases (x == y)) [
  | inl h ↦
      let same : x ≡ y = ground arith in
      let rest : xs ≡ ys = same_name-eq xs ys (ground arith) in cc
  | inr h ↦ absurd (ground arith)
]

pub same_name_refl : (xs : List ℕ) → same_name xs xs ≡ true
same_name_refl [] = refl
same_name_refl (x ∷ xs) = ground (arith, same_name_refl xs)

module _ {ℓ} {A : Type ℓ} where
  pub get_keep :
      (xs ys : List A) (i : ℕ) (a : A) → get_elem? xs i ≡ some a → get_elem? (xs ++ ys) i ≡ some a
  get_keep [] ys i a e = absurd (cc)
  get_keep (x ∷ xs) ys zero a e = e
  get_keep (x ∷ xs) ys (suc i) a e = get_keep xs ys i a e

  pub get_at : (xs : List A) (x : A) → get_elem? (xs ++ x ∷ []) (length xs) ≡ some x
  get_at [] x = refl
  get_at (y ∷ xs) x = get_at xs x

  pub get_split :
      (xs : List A) (x : A) (i : ℕ) (a : A)
      → get_elem? (xs ++ x ∷ []) i ≡ some a
      → (get_elem? xs i ≡ some a) ⊎ ((i ≡ length xs) × (a ≡ x))
  get_split [] x zero a e = inr (refl, cc)
  get_split [] x (suc i) a e = absurd (cc)
  get_split (y ∷ xs) x zero a e = inl e
  get_split (y ∷ xs) x (suc i) a e = elim (get_split xs x i a e) [
    | inl h ↦ inl h
    | inr (h, g) ↦ inr (ap suc h, g)
  ]

-- The part of a list in its order.
pub data IsPart : List Attr → List Attr → Type 0 where
  no_part : IsPart [] []
  with_it : {xs ys : List Attr} (a : Attr) → IsPart xs ys → IsPart (a ∷ xs) (a ∷ ys)
  without_it : {xs ys : List Attr} (a : Attr) → IsPart xs ys → IsPart xs (a ∷ ys)

IsPart-snoc : {xs ys : List Attr} (a : Attr) → IsPart xs ys → IsPart (xs ++ a ∷ []) (ys ++ a ∷ [])
IsPart-snoc a no_part = with_it a no_part
IsPart-snoc a (with_it b p) = with_it b (IsPart-snoc a p)
IsPart-snoc a (without_it b p) = without_it b (IsPart-snoc a p)

IsPart-lost : {xs ys : List Attr} (a : Attr) → IsPart xs ys → IsPart xs (ys ++ a ∷ [])
IsPart-lost a no_part = without_it a no_part
IsPart-lost a (with_it b p) = with_it b (IsPart-lost a p)
IsPart-lost a (without_it b p) = without_it b (IsPart-lost a p)

-- The descriptor with index `i` has the id `i` in 32 bits, its name leads to it, and its entry was
-- written at most once, in the order of the indices.
pub record IsValid (r : AttrRegistry) : Type 0 where
  pub dense : (i : ℕ) (a : Attr) → get_elem? r.descs i ≡ some a → a.id ≡ i % 2 ^ 32
  pub mapped :
      (i : ℕ) (a : Attr) → get_elem? r.descs i ≡ some a → find r.name_map a.name ≡ some (i % 2 ^ 32)
  pub known :
      (name : List ℕ) (id : ℕ)
      → find r.name_map name ≡ some id
      → (i : ℕ) × (a : Attr) × (id ≡ i % 2 ^ 32) × (get_elem? r.descs i ≡ some a) × (a.name ≡ name)
  pub sent : IsPart r.serialized r.descs

-- The descriptors that came to the registry `r`, if their entries were written.
abbrev pub entries : (entry_put : Bool) → (r s : AttrRegistry) → List Attr
entries entry_put r s = if entry_put then drop (length r.descs) s.descs else []

abbrev pub Registers : (entry_put : Bool) → (r s : AttrRegistry) → Type 0
Registers entry_put r s = IsValid s × (s.serialized ≡ r.serialized ++ entries entry_put r s)

-- A new name comes first in the map, and is found; the other names are found as before.
pub find-new :
    (map : List (List ℕ × ℕ)) (name : List ℕ) (n : ℕ) → find ((name, n) ∷ map) name ≡ some n
find-new map name n = rw (same_name_refl name) refl

none-ne-some : (i : ℕ) → none ≡ some i → ⊥
none-ne-some i e = cc

some-inj : (m n : ℕ) → some m ≡ some n → m ≡ n
some-inj m n e = cc

pub find-cases :
    (map : List (List ℕ × ℕ)) (name other : List ℕ) (n i : ℕ)
    → find ((name, n) ∷ map) other ≡ some i
    → ((name ≡ other) × (i ≡ n)) ⊎ (find map other ≡ some i)
find-cases map name other n i f = elim (Bool-cases (same_name name other)) [
  | inl s ↦ inl (
    same_name-eq name other s,
    sym (some-inj n i (subst (λ (b : Bool). (if b then some n else find map other) ≡ some i) s f)),
  )
  | inr s ↦ inr (subst (λ (b : Bool). (if b then some n else find map other) ≡ some i) s f)
]

pub find-old :
    (map : List (List ℕ × ℕ)) (name other : List ℕ) (n i : ℕ)
    → find map name ≡ none
    → find map other ≡ some i
    → find ((name, n) ∷ map) other ≡ some i
find-old map name other n i e f = elim (Bool-cases (same_name name other)) [
  | inl s ↦ absurd (none-ne-some i (sym e ∙ ap (find map) (same_name-eq name other s) ∙ f))
  | inr s ↦ rw s f
]

attr_added-IsValid :
    (put : Bool) (name : List ℕ) (type : ℕ) (r : AttrRegistry)
    → find r.name_map name ≡ none
    → IsValid r
    → IsValid (attr_create true true put name type r).1
unfolding attr_create
attr_added-IsValid put name type r e v =
    let id = length r.descs % 2 ^ 32 in
    let desc : Attr = record { name = name; id = id; type = type } in
    record {
      dense = λ i a g. elim (get_split r.descs _ i a g) [
        | inl h ↦ v.dense i a h
        | inr (h, same) ↦ ap (λ (x : Attr). x.id) same ∙ ap (λ (k : ℕ). k % 2 ^ 32) (sym h)
      ];
      mapped = λ i a g. elim (get_split r.descs _ i a g) [
        | inl h ↦ find-old r.name_map name a.name id (i % 2 ^ 32) e (v.mapped i a h)
        | inr (h, same) ↦
            ap (λ (x : Attr). find ((name, id) ∷ r.name_map) x.name) same
            ∙ find-new r.name_map name id
            ∙ ap (λ (k : ℕ). some (k % 2 ^ 32)) (sym h)
      ];
      known = λ other k f. elim (find-cases r.name_map name other id k f) [
        | inl (o, h) ↦ (length r.descs, desc, h, get_at r.descs desc, o)
        | inr g ↦
            let (i, a, same_id, at, same) = v.known other k g in
            (i, a, same_id, get_keep r.descs _ i a at, same)
      ];
      sent = elim (Bool-cases put) [
        | inl p ↦ rw p (IsPart-snoc desc v.sent)
        | inr p ↦ rw p (IsPart-lost desc v.sent)
      ];
    }

drop-length : (xs : List Attr) → drop (length xs) xs ≡ []
drop-length [] = refl
drop-length (x ∷ xs) = drop-length xs

unchanged : (put : Bool) (r : AttrRegistry) → IsValid r → Registers put r r
unchanged true r v =
    (v, sym (append-nil r.serialized) ∙ ap (◌++◌ r.serialized) (sym (drop-length r.descs)))
unchanged false r v = (v, sym (append-nil r.serialized))

attr_create-Registers :
    (d n put : Bool) (name : List ℕ) (type : ℕ) (r : AttrRegistry)
    → find r.name_map name ≡ none
    → IsValid r
    → Registers put r (attr_create d n put name type r).1
unfolding attr_create
attr_create-Registers false n put name type r e v = unchanged put r v
attr_create-Registers true false put name type r e v = unchanged put r v
attr_create-Registers true true true name type r e v = (
  attr_added-IsValid true name type r e v,
  ap (◌++◌ r.serialized) (sym (drop-append_length r.descs _ (length r.descs) refl)),
)
attr_create-Registers true true false name type r e v =
    (attr_added-IsValid false name type r e v, sym (append-nil r.serialized))

-- Every call of `attr_register` keeps the registry: an id is the index of its descriptor in 32 bits, the map
-- holds exactly the names of the descriptors, and the written service entries are those of some of the
-- descriptors, each at most once and in order. The call writes the entry of the descriptor that it
-- adds if the reservation finds room for it, and no other.
pub attr_register-IsValid :
    (d n put : Bool) (name : Option (List ℕ)) (type : ℕ) (r : AttrRegistry)
    → IsValid r
    → Registers put r (attr_register d n put name type r).1
unfolding attr_register
attr_register-IsValid d n put none type r v = elim (Bool-cases r.initialized) [
  | inl e ↦ simp (e, attr_register) (unchanged put r v)
  | inr e ↦ simp (e, attr_register) (unchanged put r v)
]
attr_register-IsValid d n put (some []) type r v = elim (Bool-cases r.initialized) [
  | inl e ↦ simp (e, attr_register) (unchanged put r v)
  | inr e ↦ simp (e, attr_register) (unchanged put r v)
]
attr_register-IsValid d n put (some (c ∷ cs)) type r v = elim (Bool-cases r.initialized) [
  | inr e ↦ simp (e, attr_register) (unchanged put r v)
  | inl e ↦ elim (Option-cases (find r.name_map (c ∷ cs))) [
    | inl f ↦ simp (e, f, attr_register) (attr_create-Registers d n put (c ∷ cs) type r f v)
    | inr (i, f) ↦ elim (Bool-cases (has_type (type_at r.descs i) type)) [
      | inl t ↦ simp (e, f, t, attr_register) (unchanged put r v)
      | inr t ↦ simp (e, f, t, attr_register) (unchanged put r v)
    ]
  ]
]

-- An id that `attr_register` returns is the one that `attr_get` then finds for the name.
pub attr_register-get :
    (d n put : Bool) (name : Option (List ℕ)) (type id : ℕ) (r : AttrRegistry)
    → (attr_register d n put name type r).0 ≡ attr_id id
    → attr_get name (attr_register d n put name type r).1 ≡ attr_id id
unfolding attr_register attr_get attr_create
attr_register-get d n put none type id r e = absurd (ground arith)
attr_register-get d n put (some []) type id r e = absurd (ground arith)
attr_register-get d n put (some (c ∷ cs)) type id r e =
    ground (arith, find-new r.name_map (c ∷ cs) (length r.descs % 2 ^ 32))

-- ===== src/Setup.antt =====
-- engine/p8_core.cpp: `parse_size` and `init_buffer_pool`, which read the sizes of the configuration and
-- make the data pool. `strtoull` and `strcasecmp` are the C library's, so they are arguments.
pub mod Configuration
pub mod Engine
pub mod Header
use selenge_muren.Prelude.{
  ℕ, zero, suc, ◌-◌, length, ◌*◌, ◌/◌, ◌%◌, ◌^◌, ◌≡◌, inl, inr, refl, ap, Bool, true, false, not,
  ◌||◌, Option, none, some, List, [], ◌∷◌, ltb, ◌==◌, if◌then◌else◌, Bool-cases,
}
use selenge_muren.Budget
use selenge_muren.Pool

-- The copy of a text without spaces and tabs, of at most `room` characters.
unfoldable pub copy_stripped : (room : ℕ) → List ℕ → List ℕ
copy_stripped zero text = []
copy_stripped (suc room) [] = []
copy_stripped (suc room) (c ∷ text) =
    let kept = copy_stripped room text in
    let skipped = copy_stripped (suc room) text in if c == 32 || c == 9 then skipped else c ∷ kept

-- What the C library does: the number at the start of a text and what follows it, and whether two texts
-- are equal when case is ignored.
pub record CLibrary : Type 0 where
  pub strtoull : List ℕ → ℕ × List ℕ
  pub same_text : List ℕ → List ℕ → Bool

-- "infinite", "KB", "Ki", "MB", "Mi"
abbrev pub infinite_text : List ℕ
infinite_text = 105 ∷ 110 ∷ 102 ∷ 105 ∷ 110 ∷ 105 ∷ 116 ∷ 101 ∷ []

abbrev pub unit_kb : List ℕ
unit_kb = 75 ∷ 66 ∷ []

abbrev pub unit_ki : List ℕ
unit_ki = 75 ∷ 105 ∷ []

abbrev pub unit_mb : List ℕ
unit_mb = 77 ∷ 66 ∷ []

abbrev pub unit_mi : List ℕ
unit_mi = 77 ∷ 105 ∷ []

abbrev pub is_empty : List ℕ → Bool
is_empty [] = true
is_empty (c ∷ cs) = false

-- The lines of `parse_size` behind the copy. `lp_end` is where `rest` begins.
unfoldable pub size_of : CLibrary → List ℕ → Option ℕ
size_of l buf =
    if l.same_text buf infinite_text
    then some (2 ^ 64 - 1)
    else (let (value, rest) = l.strtoull buf in
        if length rest == length buf
        then none
        else if is_empty rest
        then some value
        else if l.same_text rest unit_kb || l.same_text rest unit_ki
        then some (value * 1024 % 2 ^ 64)
        else if l.same_text rest unit_mb || l.same_text rest unit_mi
        then some (value * 1024 % 2 ^ 64 * 1024 % 2 ^ 64)
        else none)

unfoldable pub parse_size : CLibrary → List ℕ → Option ℕ
unfolding copy_stripped size_of
parse_size l text = size_of l (copy_stripped 127 text)

-- A setting, or its default where it is missing.
unfoldable pub setting : CLibrary → (default : ℕ) → Option (List ℕ) → Option ℕ
unfolding parse_size
setting l default none = some default
setting l default (some text) = parse_size l text

-- `mz_data_buffer_size`
abbrev pub data_buffer_size : ℕ
data_buffer_size = 8192

-- The rest of `init_buffer_pool`, once both sizes are known.
unfoldable pub make_pool :
    (budget_made pool_made : Bool) → (ℕ → Option ℕ) → (max initial : ℕ) → Option Pool.Pool
unfolding Pool.create Pool.init Budget.init
make_pool budget_made pool_made memory max initial =
    let smaller = if ltb max initial then max else initial in
    if not budget_made
    then none
    else if ltb (2 * 2 ^ 16) data_buffer_size
    then none
    else if not pool_made
    then none
    else some
        (Pool.init (smaller / data_buffer_size) memory
          (Pool.create data_buffer_size (some (Budget.init max)))).1

-- `init_buffer_pool`; `none` is its failure.
unfoldable pub init_buffer_pool :
    CLibrary
    → (budget_made pool_made : Bool) → (ℕ → Option ℕ)
    → Option (List ℕ)
    → Option (List ℕ)
    → Option Pool.Pool
unfolding setting make_pool
init_buffer_pool l budget_made pool_made memory max_text initial_text =
    elim (setting l (16 * (1024 * 1024)) max_text) [
      | none ↦ none
      | some max ↦ elim (setting l (1024 * 1024) initial_text) [
        | none ↦ none
        | some initial ↦ make_pool budget_made pool_made memory max initial
      ]
    ]

stripped_again :
    (room : ℕ) (text : List ℕ)
    → copy_stripped room (copy_stripped room text) ≡ copy_stripped room text
unfolding copy_stripped
stripped_again zero text = refl
stripped_again (suc room) [] = refl
stripped_again (suc room) (c ∷ text) = elim (Bool-cases (c == 32 || c == 9)) [
  | inl e ↦ rw (e, copy_stripped) (stripped_again (suc room) text)
  | inr e ↦ rw (e, copy_stripped) (rw e (ap (◌∷◌ c) (stripped_again room text)))
]

-- Blanks in a size do not matter: it reads as the copy without them.
pub parse_size_stripped :
    (l : CLibrary) (text : List ℕ) → parse_size l (copy_stripped 127 text) ≡ parse_size l text
unfolding parse_size
parse_size_stripped l text = ap (size_of l) (stripped_again 127 text)

-- ===== src/Wire/Decoded.antt =====
-- A receiver that reads each field of a record at the offset of the static checks gets what was written.
use selenge_muren.Prelude.{
  ℕ, ◌+◌, ◌*◌, ◌/◌, ◌%◌, ◌^◌, ◌<◌, ◌≡◌, zero, suc, some, [], ◌∷◌, arith, map,
}
use selenge_muren.Writer.{le_bytes}
use selenge_muren.Service.{number_bytes, svc_header}
use selenge_muren.Service.Entries.{trc_entry}
use selenge_muren.Trace.{begin_bytes, end_bytes}
use selenge_muren.Metric.{sample_bytes}
use selenge_muren.Wire.{
  trc_item_svc, trc_begin_dat, trc_end_dat, mtk_item_dat, fields, asserted_offsets, read, decode,
}

-- What is left of a number in as many bytes.
abbrev low : ℕ → ℕ → ℕ
low zero n = 0
low (suc width) n = n % 256 + 256 * low width (n / 256)

low_1 : (n : ℕ) → n < 2 ^ 8 → low 1 n ≡ n
low_1 n h = omega arith

low_2 : (n : ℕ) → n < 2 ^ 16 → low 2 n ≡ n
low_2 n h = omega arith

low_4 : (n : ℕ) → n < 2 ^ 32 → low 4 n ≡ n
low_4 n h = omega arith

low_8 : (n : ℕ) → n < 2 ^ 64 → low 8 n ≡ n
low_8 n h = omega arith

-- The header of a begin, with fields that fit: each reads back at its offset.
pub begin_bytes-decode :
    (timestamp span size type count thread hash parent : ℕ)
    → timestamp < 2 ^ 64
    → span < 2 ^ 64
    → size < 2 ^ 16
    → type < 2 ^ 8
    → count < 2 ^ 8
    → thread < 2 ^ 32
    → hash < 2 ^ 64
    → parent < 2 ^ 64
    → decode
        (fields trc_begin_dat)
        (asserted_offsets trc_begin_dat)
        (begin_bytes timestamp span size type count thread hash parent)
      ≡ some timestamp
        ∷ some span
        ∷ some size
        ∷ some type
        ∷ some count
        ∷ some thread
        ∷ some hash
        ∷ some parent
        ∷ []
unfolding decode fields asserted_offsets begin_bytes le_bytes read
begin_bytes-decode timestamp span size type count thread hash parent a b c d e f g h = λ i.
    some (low_8 timestamp a i)
    ∷ some (low_8 span b i)
    ∷ some (low_2 size c i)
    ∷ some (low_1 type d i)
    ∷ some (low_1 count e i)
    ∷ some (low_4 thread f i)
    ∷ some (low_8 hash g i)
    ∷ some (low_8 parent h i)
    ∷ []

-- The record of an end: its size is 24, its type 3, and its padding 0.
pub end_bytes-decode :
    (ticks id thread : ℕ)
    → ticks < 2 ^ 64
    → id < 2 ^ 64
    → thread < 2 ^ 32
    → decode (fields trc_end_dat) (asserted_offsets trc_end_dat) (end_bytes ticks id thread)
      ≡ some ticks ∷ some id ∷ some 24 ∷ some 3 ∷ some 0 ∷ some thread ∷ []
unfolding decode fields asserted_offsets end_bytes le_bytes read
end_bytes-decode ticks id thread a b c = λ i.
    some (low_8 ticks a i)
    ∷ some (low_8 id b i)
    ∷ some 24
    ∷ some 3
    ∷ some 0
    ∷ some (low_4 thread c i)
    ∷ []

-- A sample: its size is 24, it has no flags and no attributes.
pub sample_bytes-decode :
    (ticks value id : ℕ)
    → ticks < 2 ^ 64
    → value < 2 ^ 64
    → id < 2 ^ 32
    → decode (fields mtk_item_dat) (asserted_offsets mtk_item_dat) (sample_bytes ticks value id)
      ≡ some ticks ∷ some value ∷ some id ∷ some 24 ∷ some 0 ∷ some 0 ∷ []
unfolding decode fields asserted_offsets sample_bytes le_bytes read
sample_bytes-decode ticks value id a b c = λ i.
    some (low_8 ticks a i)
    ∷ some (low_8 value b i)
    ∷ some (low_4 id c i)
    ∷ some 24
    ∷ some 0
    ∷ some 0
    ∷ []

-- The descriptor of a span: the packet type 4, the service type 4 and the size 40 are its header.
pub trc_entry-decode :
    (hash line file func name : ℕ)
    → hash < 2 ^ 64
    → line < 2 ^ 32
    → file < 2 ^ 64
    → func < 2 ^ 64
    → name < 2 ^ 64
    → decode
        (fields trc_item_svc)
        (asserted_offsets trc_item_svc)
        (map (λ b. some b) (trc_entry hash line file func name))
      ≡ some (4 + 256 * (4 + 256 * 40))
        ∷ some line
        ∷ some hash
        ∷ some file
        ∷ some func
        ∷ some name
        ∷ []
unfolding decode fields asserted_offsets trc_entry svc_header number_bytes read
trc_entry-decode hash line file func name a b c d e = λ i.
    some (4 + 256 * (4 + 256 * 40))
    ∷ some (low_4 line b i)
    ∷ some (low_8 hash a i)
    ∷ some (low_8 file c i)
    ∷ some (low_8 func d i)
    ∷ some (low_8 name e i)
    ∷ []

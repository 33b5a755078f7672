-- ===== src/Wire.antt =====
-- api/p8_protocol.h and engine/p8_static_checks.cpp: the structures that go over the wire, how a C compiler
-- lays them out, and the offsets that the static checks fix.
pub mod Layout
pub mod Decoded
use selenge_muren.Prelude.{
  ℕ, zero, suc, ◌+◌, ◌-◌, ◌*◌, ◌/◌, ◌%◌, Bool, true, false, not, ◌&&◌, ◌||◌, ◌==◌, leb, Option,
  none, some, List, [], ◌∷◌, ltb, if◌then◌else◌, drop,
}
use selenge_muren.Writer.{Byte}

-- A field's size and alignment.
pub record Field : Type 0 where
  pub size : ℕ
  pub align : ℕ

abbrev pub number : ℕ → Field
number size = record { size = size; align = size }

abbrev pub chars : ℕ → Field
chars size = record { size = size; align = 1 }

pub data Struct : Type 0 where
  hdr svc_hdr str_svc data_buf_hdr batch log_varg log_item_svc log_item_dat : Struct
  trc_item_svc trc_begin_dat trc_end_dat mtk_svc mtk_item_dat : Struct

-- s_p8_svc_hdr as the first field of a service entry.
abbrev pub svc_field : Field
svc_field = record { size = 4; align = 2 }

-- The declarations.
abbrev pub hdr_fields : List Field
hdr_fields =
    number 1
    ∷ number 1
    ∷ number 1
    ∷ number 1
    ∷ number 4
    ∷ number 4
    ∷ number 4
    ∷ number 8
    ∷ number 8
    ∷ number 8
    ∷ number 8
    ∷ chars 256
    ∷ chars 256
    ∷ number 8
    ∷ []

abbrev pub svc_hdr_fields : List Field
svc_hdr_fields = number 1 ∷ number 1 ∷ number 2 ∷ []

abbrev pub str_svc_fields : List Field
str_svc_fields = svc_field ∷ number 2 ∷ number 2 ∷ number 8 ∷ []

abbrev pub data_buf_hdr_fields : List Field
data_buf_hdr_fields = number 1 ∷ number 1 ∷ number 2 ∷ number 4 ∷ number 4 ∷ number 4 ∷ []

abbrev pub batch_fields : List Field
batch_fields = number 1 ∷ number 1 ∷ number 2 ∷ number 4 ∷ number 8 ∷ []

abbrev pub log_varg_fields : List Field
log_varg_fields = number 1 ∷ number 1 ∷ []

abbrev pub log_item_svc_fields : List Field
log_item_svc_fields =
    svc_field ∷ number 4 ∷ number 8 ∷ number 2 ∷ number 2 ∷ number 2 ∷ number 1 ∷ []

abbrev pub log_item_dat_fields : List Field
log_item_dat_fields =
    number 8
    ∷ number 8
    ∷ number 8
    ∷ number 4
    ∷ number 1
    ∷ number 1
    ∷ number 2
    ∷ number 2
    ∷ number 2
    ∷ number 1
    ∷ number 1
    ∷ []

abbrev pub trc_item_svc_fields : List Field
trc_item_svc_fields = svc_field ∷ number 4 ∷ number 8 ∷ number 8 ∷ number 8 ∷ number 8 ∷ []

abbrev pub trc_begin_dat_fields : List Field
trc_begin_dat_fields =
    number 8 ∷ number 8 ∷ number 2 ∷ number 1 ∷ number 1 ∷ number 4 ∷ number 8 ∷ number 8 ∷ []

abbrev pub trc_end_dat_fields : List Field
trc_end_dat_fields = number 8 ∷ number 8 ∷ number 2 ∷ number 1 ∷ number 1 ∷ number 4 ∷ []

abbrev pub mtk_svc_fields : List Field
mtk_svc_fields =
    svc_field
    ∷ number 4
    ∷ number 8
    ∷ number 8
    ∷ number 1
    ∷ number 1
    ∷ number 2
    ∷ number 2
    ∷ number 2
    ∷ []

abbrev pub mtk_item_dat_fields : List Field
mtk_item_dat_fields = number 8 ∷ number 8 ∷ number 4 ∷ number 2 ∷ number 1 ∷ number 1 ∷ []

unfoldable pub fields : Struct → List Field
fields hdr = hdr_fields
fields svc_hdr = svc_hdr_fields
fields str_svc = str_svc_fields
fields data_buf_hdr = data_buf_hdr_fields
fields batch = batch_fields
fields log_varg = log_varg_fields
fields log_item_svc = log_item_svc_fields
fields log_item_dat = log_item_dat_fields
fields trc_item_svc = trc_item_svc_fields
fields trc_begin_dat = trc_begin_dat_fields
fields trc_end_dat = trc_end_dat_fields
fields mtk_svc = mtk_svc_fields
fields mtk_item_dat = mtk_item_dat_fields

-- The offsets that the static checks fix. They are silent on the module id of a log record, at 34.
unfoldable pub asserted_offsets : Struct → List ℕ
asserted_offsets hdr = 0 ∷ 1 ∷ 2 ∷ 3 ∷ 4 ∷ 8 ∷ 12 ∷ 16 ∷ 24 ∷ 32 ∷ 40 ∷ 48 ∷ 304 ∷ 560 ∷ []
asserted_offsets svc_hdr = 0 ∷ 1 ∷ 2 ∷ []
asserted_offsets str_svc = 0 ∷ 4 ∷ 6 ∷ 8 ∷ []
asserted_offsets data_buf_hdr = 0 ∷ 1 ∷ 2 ∷ 4 ∷ 8 ∷ 12 ∷ []
asserted_offsets batch = 0 ∷ 1 ∷ 2 ∷ 4 ∷ 8 ∷ []
asserted_offsets log_varg = 0 ∷ 1 ∷ []
asserted_offsets log_item_svc = 0 ∷ 4 ∷ 8 ∷ 16 ∷ 18 ∷ 20 ∷ 22 ∷ []
asserted_offsets log_item_dat = 0 ∷ 8 ∷ 16 ∷ 24 ∷ 28 ∷ 29 ∷ 30 ∷ 32 ∷ 34 ∷ 36 ∷ 37 ∷ []
asserted_offsets trc_item_svc = 0 ∷ 4 ∷ 8 ∷ 16 ∷ 24 ∷ 32 ∷ []
asserted_offsets trc_begin_dat = 0 ∷ 8 ∷ 16 ∷ 18 ∷ 19 ∷ 20 ∷ 24 ∷ 32 ∷ []
asserted_offsets trc_end_dat = 0 ∷ 8 ∷ 16 ∷ 18 ∷ 19 ∷ 20 ∷ []
asserted_offsets mtk_svc = 0 ∷ 4 ∷ 8 ∷ 16 ∷ 24 ∷ 25 ∷ 26 ∷ 28 ∷ 30 ∷ []
asserted_offsets mtk_item_dat = 0 ∷ 8 ∷ 16 ∷ 20 ∷ 22 ∷ 23 ∷ []

unfoldable pub asserted_size : Struct → ℕ
asserted_size hdr = 568
asserted_size svc_hdr = 4
asserted_size str_svc = 16
asserted_size data_buf_hdr = 16
asserted_size batch = 16
asserted_size log_varg = 2
asserted_size log_item_svc = 24
asserted_size log_item_dat = 40
asserted_size trc_item_svc = 40
asserted_size trc_begin_dat = 40
asserted_size trc_end_dat = 24
asserted_size mtk_svc = 32
asserted_size mtk_item_dat = 24

-- P8_ASSERT_PACKET_TYPE_FIRST: the structures that start with the packet type, in a byte.
unfoldable pub is_packet : Struct → Bool
is_packet hdr = true
is_packet svc_hdr = true
is_packet data_buf_hdr = true
is_packet batch = true
is_packet _ = false

-- The structures whose size has to be a multiple of 8, and those whose alignment has to be 8 at least.
unfoldable pub is_multiple : Struct → Bool
is_multiple hdr = true
is_multiple data_buf_hdr = true
is_multiple batch = true
is_multiple log_item_dat = true
is_multiple mtk_svc = true
is_multiple mtk_item_dat = true
is_multiple _ = false

unfoldable pub is_wide : Struct → Bool
is_wide hdr = true
is_wide batch = true
is_wide log_item_dat = true
is_wide mtk_svc = true
is_wide mtk_item_dat = true
is_wide _ = false

-- How a C compiler lays out a structure: each field at the next multiple of its alignment, and the size a
-- multiple of the largest one. `wide` is the alignment of a 64-bit number, 8, or 4 on i386.
unfoldable pub aligned : (align at : ℕ) → ℕ
aligned align at = (at + align - 1) / align * align

abbrev pub align_on : (wide : ℕ) → Field → ℕ
align_on wide f = if ltb wide f.align then wide else f.align

unfoldable pub layout : (wide at : ℕ) → List Field → List ℕ
unfolding aligned
layout wide at [] = []
layout wide at (f ∷ fs) =
    let start = aligned (align_on wide f) at in start ∷ layout wide (start + f.size) fs

unfoldable pub end_of : (wide at : ℕ) → List Field → ℕ
unfolding aligned
end_of wide at [] = at
end_of wide at (f ∷ fs) = end_of wide (aligned (align_on wide f) at + f.size) fs

unfoldable pub max_align : (wide : ℕ) → List Field → ℕ
max_align wide [] = 1
max_align wide (f ∷ fs) =
    let rest = max_align wide fs in if ltb rest (align_on wide f) then align_on wide f else rest

unfoldable pub sizeof : (wide : ℕ) → List Field → ℕ
unfolding end_of max_align aligned
sizeof wide fs = aligned (max_align wide fs) (end_of wide 0 fs)

abbrev pub first_size : List Field → ℕ
first_size [] = 0
first_size (f ∷ fs) = f.size

-- The static checks of a structure other than those of its layout.
unfoldable pub checks : (wide : ℕ) → Struct → Bool
unfolding fields is_packet is_multiple is_wide sizeof max_align
checks wide s =
    (not (is_packet s) || first_size (fields s) == 1)
    && ((not (is_multiple s) || sizeof wide (fields s) % 8 == 0)
        && (not (is_wide s) || leb 8 (max_align wide (fields s))))

-- e_p8_attr_type and P8_ATTR_TYPE_XXX, of a text, a double, and a signed and an unsigned integer
abbrev pub attr_types : List ℕ
attr_types = 0 ∷ 1 ∷ 2 ∷ 3 ∷ []

abbrev pub attr_codes : List ℕ
attr_codes = 0 ∷ 1 ∷ 2 ∷ 3 ∷ []

-- What a receiver reads: a number of the given width, its lowest byte first.
unfoldable pub read : (width : ℕ) → List Byte → Option ℕ
read zero bytes = some 0
read (suc width) [] = none
read (suc width) (none ∷ bytes) = none
read (suc width) (some b ∷ bytes) = elim (read width bytes) [
  | none ↦ none
  | some n ↦ some (b + 256 * n)
]

-- All fields of a structure, each at its offset.
unfoldable pub decode : List Field → List ℕ → List Byte → List (Option ℕ)
unfolding read
decode [] offsets bytes = []
decode (f ∷ fs) [] bytes = []
decode (f ∷ fs) (at ∷ offsets) bytes = read f.size (drop at bytes) ∷ decode fs offsets bytes

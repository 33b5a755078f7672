-- ===== src/Wire/Layout.antt =====
-- The declarations have the layout that the static checks fix, whatever the alignment of 64-bit numbers.
use selenge_muren.Prelude.{ℕ, ◌≡◌, refl, true}
use selenge_muren.Wire.{
  Struct, hdr, svc_hdr, str_svc, data_buf_hdr, batch, log_varg, log_item_svc, log_item_dat,
  trc_item_svc, trc_begin_dat, trc_end_dat, mtk_svc, mtk_item_dat, fields, asserted_offsets,
  asserted_size, layout, sizeof, checks, attr_types, attr_codes,
}

abbrev pub HasLayout : ℕ → Struct → Type 0
HasLayout wide s =
    (layout wide 0 (fields s) ≡ asserted_offsets s) × (sizeof wide (fields s) ≡ asserted_size s)

-- On a host where 64-bit numbers are aligned to 8 bytes every wire structure has the offsets and the size that
-- the static checks fix, and passes those on the packet type, on multiples of 8 and on alignments; on one
-- where they are aligned to 4 it has the same offsets and size.
pub layout_portable : (s : Struct) → HasLayout 8 s × (checks 8 s ≡ true) × HasLayout 4 s
unfolding fields asserted_offsets asserted_size layout sizeof checks
layout_portable hdr = ((refl, refl), refl, (refl, refl))
layout_portable svc_hdr = ((refl, refl), refl, (refl, refl))
layout_portable str_svc = ((refl, refl), refl, (refl, refl))
layout_portable data_buf_hdr = ((refl, refl), refl, (refl, refl))
layout_portable batch = ((refl, refl), refl, (refl, refl))
layout_portable log_varg = ((refl, refl), refl, (refl, refl))
layout_portable log_item_svc = ((refl, refl), refl, (refl, refl))
layout_portable log_item_dat = ((refl, refl), refl, (refl, refl))
layout_portable trc_item_svc = ((refl, refl), refl, (refl, refl))
layout_portable trc_begin_dat = ((refl, refl), refl, (refl, refl))
layout_portable trc_end_dat = ((refl, refl), refl, (refl, refl))
layout_portable mtk_svc = ((refl, refl), refl, (refl, refl))
layout_portable mtk_item_dat = ((refl, refl), refl, (refl, refl))

-- The codes of the attribute types.
types_codes : attr_types ≡ attr_codes
types_codes = refl

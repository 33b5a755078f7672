-- ===== src/Examples/Wires.antt =====
-- The wire structures: the theorems at one structure and one record.
use selenge_muren.Prelude.{◌≡◌, refl, true, false, some, [], ◌∷◌, arith}
use selenge_muren.Trace.{begin_bytes}
use selenge_muren.Wire.{trc_begin_dat, fields, asserted_offsets, checks, hdr, decode}
use selenge_muren.Wire.Layout.{HasLayout, layout_portable}
use selenge_muren.Wire.Decoded.{begin_bytes-decode}

layout_portable_example :
    HasLayout 8 trc_begin_dat × (checks 8 trc_begin_dat ≡ true) × HasLayout 4 trc_begin_dat
layout_portable_example = layout_portable trc_begin_dat

-- Where 64-bit numbers are aligned to 4 the alignment checks fail, though the layout is the same.
checks_narrow : checks 4 hdr ≡ false
unfolding checks
checks_narrow = refl

begin_bytes-decode_example :
    decode (fields trc_begin_dat) (asserted_offsets trc_begin_dat) (begin_bytes 1000 1 40 1 0 5 7 0)
    ≡ some 1000 ∷ some 1 ∷ some 40 ∷ some 1 ∷ some 0 ∷ some 5 ∷ some 7 ∷ some 0 ∷ []
begin_bytes-decode_example =
    begin_bytes-decode 1000 1 40 1 0 5 7 0 (omega arith) (omega arith) (omega arith) (omega arith)
      (omega arith) (omega arith) (omega arith) (omega arith)

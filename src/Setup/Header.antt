-- ===== src/Setup/Header.antt =====
-- engine/p8_core.cpp: `init_header`, the first packet of a stream, which is little-endian on every host.
-- How a host stores a number is given by its order of bytes; `bswap32`, `bswap64` and the hash are
-- third-party, so they are arguments.
use selenge_muren.Prelude.{
  ℕ, Bool, true, false, List, [], ◌∷◌, ◌++◌, ◌==◌, if◌then◌else◌, ◌≡◌, refl, ap, ◌∙◌,
}
use mathlib.Core.List.{reverse, reverse-reverse}
use selenge_muren.Service.{number_bytes}

-- s_p8_hdr without the constant fields; the names fill their arrays, and the offset is a 32-bit pattern.
pub record Header : Type 0 where
  pub utc_sec_offset : ℕ
  pub process_id : ℕ
  pub system_time : ℕ
  pub hires_tick : ℕ
  pub freq_numer : ℕ
  pub freq_denom : ℕ
  pub process_name : List ℕ
  pub host_name : List ℕ

-- sizeof(s_p8_hdr), P8_PACKET_MAIN, P8_PROTOCOL_VERSION
abbrev pub header_bytes : ℕ
header_bytes = 568

abbrev pub packet_main : ℕ
packet_main = 0

abbrev pub protocol_version : ℕ
protocol_version = 1

-- A number in the memory of the host.
unfoldable pub host_bytes : (big : Bool) (width : ℕ) → ℕ → List ℕ
unfolding number_bytes
host_bytes big width n = if big then reverse (number_bytes width n) else number_bytes width n

-- `*reinterpret_cast<uint8_t *>(&lu_endian) == 0`, of the 32-bit number 1
abbrev first_is_zero : List ℕ → Bool
first_is_zero [] = false
first_is_zero (b ∷ bs) = b == 0

unfoldable pub is_big_endian : (big : Bool) → ℕ
unfolding host_bytes
is_big_endian big = if first_is_zero (host_bytes big 4 1) then 1 else 0

module _ (bswap : (width : ℕ) → ℕ → ℕ) (hash : List ℕ → ℕ) where
  -- A field that is swapped on a big-endian host, in its memory.
  unfoldable pub stored : (big : Bool) (width : ℕ) → ℕ → List ℕ
  unfolding host_bytes is_big_endian
  stored big width n = host_bytes big width (if is_big_endian big == 1 then bswap width n else n)

  -- The memory of `mo_hdr` before the hash.
  unfoldable pub header_front : (big : Bool) → Header → List ℕ
  unfolding stored is_big_endian
  header_front big h =
      (packet_main ∷ protocol_version ∷ is_big_endian big ∷ 0 ∷ [])
      ++ (stored big 4 h.utc_sec_offset
          ++ (stored big 4 header_bytes
              ++ (stored big 4 h.process_id
                  ++ (stored big 8 h.system_time
                      ++ (stored big 8 h.hires_tick
                          ++ (stored big 8 h.freq_numer
                              ++ (stored big 8 h.freq_denom
                                  ++ (h.process_name ++ h.host_name))))))))

  -- The memory of `mo_hdr` after `init_header`.
  unfoldable pub init_header : (big : Bool) → Header → List ℕ
  init_header big h = header_front big h ++ stored big 8 (hash (header_front big h))

-- The header as the protocol has it: every number with its lowest byte first.
unfoldable pub wire_front : (flag : ℕ) → Header → List ℕ
unfolding number_bytes
wire_front flag h =
    (packet_main ∷ protocol_version ∷ flag ∷ 0 ∷ [])
    ++ (number_bytes 4 h.utc_sec_offset
        ++ (number_bytes 4 header_bytes
            ++ (number_bytes 4 h.process_id
                ++ (number_bytes 8 h.system_time
                    ++ (number_bytes 8 h.hires_tick
                        ++ (number_bytes 8 h.freq_numer
                            ++ (number_bytes 8 h.freq_denom
                                ++ (h.process_name ++ h.host_name))))))))

unfoldable pub wire_header : (hash : List ℕ → ℕ) (flag : ℕ) → Header → List ℕ
wire_header hash flag h = wire_front flag h ++ number_bytes 8 (hash (wire_front flag h))

big_flag : (big : Bool) → is_big_endian big ≡ (if big then 1 else 0)
unfolding is_big_endian
big_flag true = refl
big_flag false = refl

module _ (bswap : (width : ℕ) → ℕ → ℕ) (hash : List ℕ → ℕ)
    (swaps : (width n : ℕ)
      → number_bytes width (bswap width n) ≡ reverse (number_bytes width n)) where
  stored_lem : (big : Bool) (width n : ℕ) → stored bswap hash big width n ≡ number_bytes width n
  unfolding stored host_bytes
  stored_lem true width n = ap reverse (swaps width n) ∙ reverse-reverse (number_bytes width n)
  stored_lem false width n = refl

  front_lem :
      (big : Bool) (h : Header) → header_front bswap hash big h ≡ wire_front (is_big_endian big) h
  unfolding header_front wire_front
  front_lem big h = simp (stored_lem big)

  -- With a swap that reverses the bytes of a number: on a host of either order the header is the one of the
  -- protocol, its size and its hash included; only the flag tells the hosts apart.
  pub init_header-wire_header :
      (big : Bool) (h : Header)
      → init_header bswap hash big h ≡ wire_header hash (if big then 1 else 0) h
  unfolding init_header wire_header
  init_header-wire_header big h =
      ap (λ (bytes : List ℕ). bytes ++ stored bswap hash big 8 (hash bytes))
        (front_lem big h ∙ ap (λ (flag : ℕ). wire_front flag h) (big_flag big))
      ∙ ap (◌++◌ (wire_front (if big then 1 else 0) h))
          (stored_lem big 8 (hash (wire_front (if big then 1 else 0) h)))

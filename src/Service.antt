-- ===== src/Service.antt =====
-- engine/p8_core.cpp: the service buffers, into which descriptors and strings are serialized. All of it
-- runs under `mo_svc_mutex`; a waiting acquire unlocks it, and what the other threads do to the list of
-- buffers meanwhile is part of the pool's reply. Strings are byte lists, `none` is a null pointer.
pub mod Entries
pub mod Valid
pub mod Layout
pub mod Sends
use selenge_muren.Prelude.{
  ℕ, zero, suc, ◌+◌, ◌-◌, ◌*◌, ◌/◌, ◌%◌, ◌^◌, Bool, true, false, ◌&&◌, ◌||◌, Option, none, some,
  List, [], ◌∷◌, ◌++◌, map, ltb, leb, ◌==◌, if◌then◌else◌, length, take, replicate, get_elem?,
}

-- s_p8_svc_buf and the bytes of the buffer up to `mz_used`.
pub record SvcBuffer : Type 0 where
  pub addr : ℕ
  pub used : ℕ
  pub bytes : List ℕ

pub record SvcReply : Type 0 where
  pub answer : Option ℕ
  pub meanwhile : List SvcBuffer → List SvcBuffer

-- `mo_svc_buffers`, `mu_dropped_svc`, and the pool's answers to come.
pub record Service : Type 0 where
  pub capacity : ℕ
  pub buffers : List SvcBuffer
  pub dropped : ℕ
  pub replies : List SvcReply

-- P8_SVC_STR_MAX_LEN
abbrev pub str_max_len : ℕ
str_max_len = 1024

-- `0x80 == (byte & 0xC0)`, of a byte.
abbrev pub is_continuation : ℕ → Bool
is_continuation byte = byte / 64 == 2

-- `p8_cut_utf8`; `str` holds more than `len` bytes.
unfoldable pub cut_utf8 : List ℕ → ℕ → ℕ
cut_utf8 str zero = zero
cut_utf8 str (suc len) =
    let shorter = cut_utf8 str len in
    elim (get_elem? str (suc len)) [
      | none ↦ suc len
      | some byte ↦ if is_continuation byte then shorter else suc len
    ]

-- `get_svc_str_len`
unfoldable pub svc_str_len : Option (List ℕ) → ℕ
unfolding cut_utf8
svc_str_len none = 0
svc_str_len (some str) =
    let len = length str in if ltb str_max_len len then cut_utf8 str str_max_len else len

-- P8_ALIGN_UP_8
abbrev pub align_up_8 : ℕ → ℕ
align_up_8 n = (n + 7) / 8 * 8

-- `svc_acquire_new`; the Boolean `wait` says that the caller passed its lock.
unfoldable pub svc_acquire_new : Bool → Service → Bool × Service
svc_acquire_new wait s = elim s.replies [
  | [] ↦ (false, record s { dropped = (s.dropped + 1) % 2 ^ 64 })
  | r ∷ rest ↦
      let t : Service = record s {
        buffers = if wait then r.meanwhile s.buffers else s.buffers;
        replies = rest;
      } in
      elim r.answer [
        | none ↦ (false, record t { dropped = (t.dropped + 1) % 2 ^ 64 })
        | some addr ↦ (
          true,
          record t { buffers = t.buffers ++ record { addr = addr; used = 0; bytes = [] } ∷ [] },
        )
      ]
]

-- `0 == mo_svc_buffers.size() || mo_svc_buffers.back().mz_used + iz_padded > lz_capacity`
abbrev pub needs_buffer : ℕ → ℕ → List SvcBuffer → Bool
needs_buffer capacity padded [] = true
needs_buffer capacity padded (b ∷ []) = ltb capacity (b.used + padded)
needs_buffer capacity padded (b ∷ c ∷ bs) = needs_buffer capacity padded (c ∷ bs)

pub data Reserved : Type 0 where
  reserved : Service → Reserved
  refused : Service → Reserved
  no_fuel : Reserved

-- The loop of `svc_reserve`. A fresh buffer has room, so the test fails the second time at the latest.
unfoldable pub reserve_loop : ℕ → Bool → ℕ → Service → Reserved
unfolding svc_acquire_new
reserve_loop zero wait padded s = no_fuel
reserve_loop (suc fuel) wait padded s =
    let (acquired, t) = svc_acquire_new wait s in
    let rest = reserve_loop fuel wait padded t in
    if needs_buffer s.capacity padded s.buffers
    then (if acquired then rest else refused t)
    else reserved s

-- The last buffer gets an entry: `memset` of its padded size, and the bytes written over it.
abbrev pub put_last : ℕ → List ℕ → List SvcBuffer → List SvcBuffer
put_last padded entry [] = []
put_last padded entry (b ∷ []) =
    record b {
      used = b.used + padded;
      bytes = b.bytes ++ (entry ++ replicate (padded - length entry) 0);
    }
    ∷ []
put_last padded entry (b ∷ c ∷ bs) = b ∷ put_last padded entry (c ∷ bs)

-- `svc_reserve`, and the copies of the entry to the place that it returns; false for a null pointer.
unfoldable pub svc_put : Bool → ℕ → List ℕ → Service → Bool × Service
unfolding reserve_loop
svc_put wait padded entry s =
    if ltb s.capacity padded then (false, s) else elim (reserve_loop 2 wait padded s) [
      | reserved t ↦ (true, record t { buffers = put_last padded entry t.buffers })
      | refused t ↦ (false, t)
      | no_fuel ↦ (false, s)
    ]

-- The bytes of a number, the lowest first.
unfoldable pub number_bytes : ℕ → ℕ → List ℕ
number_bytes zero n = []
number_bytes (suc width) n = n % 256 ∷ number_bytes width (n / 256)

-- s_p8_svc_hdr; P8_PACKET_SERVICE is `packet_service`.
abbrev pub packet_service : ℕ
packet_service = 4

unfoldable pub svc_header : ℕ → ℕ → List ℕ
unfolding number_bytes
svc_header svc_type padded =
    number_bytes 1 packet_service ++ (number_bytes 1 svc_type ++ number_bytes 2 padded)

-- The bytes of a string that are sent.
unfoldable pub sent : Option (List ℕ) → List ℕ
unfolding svc_str_len
sent none = []
sent (some str) = take (svc_str_len (some str)) str

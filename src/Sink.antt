-- ===== src/Sink.antt =====
-- engine/p8_sink_file.cpp and engine/p8_sink_null.cpp: where the worker's batches go. What a call of the
-- file, of `realloc` or of the file system returns is an argument; a file keeps the calls of
-- `write_v` that it got. Counters are 64 bits wide.
pub mod Accounts
use selenge_muren.Prelude.{
  ℕ, zero, suc, ◌+◌, ◌-◌, ◌%◌, ◌^◌, min, Bool, true, false, not, ◌&&◌, Option, none, some, List, [],
  ◌∷◌, ◌++◌, ltb, leb, ◌==◌, if◌then◌else◌, length, take, drop, sum, map, sub_size,
}

-- kit::s_iovec
pub record Entry : Type 0 where
  pub addr : ℕ
  pub size : ℕ

-- kit::c_file, as the sink sees it.
pub record File : Type 0 where
  pub is_open : Bool
  pub calls : List (List Entry)

pub record FileSink : Type 0 where
  pub configured : Bool
  pub svc_file : File
  pub data_file : File
  pub iov_cap : ℕ
  pub bytes_written : ℕ
  pub bytes_dropped : ℕ
  pub write_errors : ℕ

abbrev pub max_iov : ℕ
max_iov = 1024

-- The sum of the sizes in a batch, which the loops keep in a `size_t`.
abbrev pub total_size : List Entry → ℕ
total_size [] = 0
total_size (e ∷ es) = e.size + total_size es

abbrev pub no_file : File
no_file = record { is_open = false; calls = [] }

-- The constructor; `out_dir` is the configured directory if the section, the key and a text that is
-- not empty are there.
unfoldable pub configure : Option ℕ → FileSink
configure out_dir = record {
  configured = (elim out_dir [ none ↦ false | some d ↦ true ]);
  svc_file = no_file;
  data_file = no_file;
  iov_cap = 0;
  bytes_written = 0;
  bytes_dropped = 0;
  write_errors = 0;
}

-- `open`, after how the directory and the two files can be created.
unfoldable pub open_files : (dir_made svc_made data_made : Bool) → FileSink → Bool × FileSink
open_files dir_made svc_made data_made s =
    if not s.configured
    then (false, s)
    else if not dir_made
    then (false, s)
    else if not svc_made
    then (false, s)
    else if not data_made
    then (false, record s { svc_file = no_file })
    else (
      true,
      record s {
        svc_file = record { is_open = true; calls = [] };
        data_file = record { is_open = true; calls = [] };
      },
    )

unfoldable pub grow_iov : Bool → ℕ → FileSink → Bool × FileSink
grow_iov grown needed s =
    if leb needed s.iov_cap
    then (true, s)
    else if grown
    then (true, record s { iov_cap = needed })
    else (false, s)

unfoldable pub drop_batch : ℕ → FileSink → Bool × FileSink
drop_batch total s = if total == 0 then (true, s) else (
  false,
  record s {
    bytes_dropped = (s.bytes_dropped + total) % 2 ^ 64;
    write_errors = (s.write_errors + 1) % 2 ^ 64;
  },
)

-- The part of a round behind `write_v`, which wrote `written` of `size` bytes.
unfoldable pub count_chunk : (written size : ℕ) → FileSink → Bool × FileSink
count_chunk written size s =
    let t : FileSink = record s { bytes_written = (s.bytes_written + written) % 2 ^ 64 } in
    if written == size then (true, t) else (
      false,
      record t {
        bytes_dropped = (t.bytes_dropped + sub_size size written) % 2 ^ 64;
        write_errors = (t.write_errors + 1) % 2 ^ 64;
      },
    )

-- The loop of `write_entries`; `write_v i chunk` is what call number `i` of the file returns. A round
-- takes an entry at least, so as many rounds as there are entries are enough.
unfoldable pub write_loop :
    (write_v : ℕ → List Entry → ℕ) (fuel : ℕ)
    → List Entry
    → Bool
    → File
    → FileSink
    → Bool × File × FileSink
write_loop write_v zero entries ok f s = (ok, f, s)
write_loop write_v (suc fuel) [] ok f s = (ok, f, s)
write_loop write_v (suc fuel) (e ∷ es) ok f s =
    let chunk = take (min max_iov (length (e ∷ es))) (e ∷ es) in
    let written = write_v (length f.calls) chunk in
    let (fine, t) = count_chunk written (total_size chunk % 2 ^ 64) s in
    write_loop write_v fuel (drop (min max_iov (length (e ∷ es))) (e ∷ es)) (ok && fine)
      (record f { calls = f.calls ++ chunk ∷ [] }) t

unfoldable pub write_entries :
    (ℕ → List Entry → ℕ) → File → List Entry → ℕ → FileSink → Bool × File × FileSink
unfolding drop_batch write_loop
write_entries write_v f entries total s =
    if total == 0
    then (true, f, s)
    else (if not f.is_open
        then (let (ok, t) = drop_batch total s in (ok, f, t))
        else write_loop write_v (length entries) entries true f s)

-- A batch for `mo_data_file` and one for `mo_svc_file`: the array is grown, or all is dropped.
unfoldable pub send_data : (ℕ → List Entry → ℕ) → Bool → List Entry → FileSink → Bool × FileSink
unfolding grow_iov drop_batch write_entries
send_data write_v grown entries s =
    let (fits, t) = grow_iov grown (length entries) s in
    if fits
    then (let (ok, f, u) =
          write_entries write_v t.data_file entries (total_size entries % 2 ^ 64) t in
        (ok, record u { data_file = f }))
    else drop_batch (total_size entries % 2 ^ 64) t

unfoldable pub send_service : (ℕ → List Entry → ℕ) → Bool → List Entry → FileSink → Bool × FileSink
unfolding grow_iov drop_batch write_entries
send_service write_v grown entries s =
    let (fits, t) = grow_iov grown (length entries) s in
    if fits
    then (let (ok, f, u) =
          write_entries write_v t.svc_file entries (total_size entries % 2 ^ 64) t in
        (ok, record u { svc_file = f }))
    else drop_batch (total_size entries % 2 ^ 64) t

-- sizeof(s_p8_batch)
abbrev pub batch_size : ℕ
batch_size = 16

-- `write_data`: the packet at address `batch`, then the buffers with the sizes in their headers.
unfoldable pub write_data :
    (ℕ → List Entry → ℕ) → Bool → ℕ → List Entry → FileSink → Bool × FileSink
unfolding send_data
write_data write_v grown batch buffers s =
    send_data write_v grown (record { addr = batch; size = batch_size } ∷ buffers) s

unfoldable pub write_service : (ℕ → List Entry → ℕ) → Bool → List Entry → FileSink → Bool × FileSink
unfolding send_service
write_service write_v grown buffers s =
    if length buffers == 0 then (true, s) else send_service write_v grown buffers s

-- `write_hello` of a header of the given size.
unfoldable pub write_hello : (ℕ → List Entry → ℕ) → Entry → FileSink → Bool × FileSink
unfolding write_entries
write_hello write_v hdr s =
    let (ok, f, t) = write_entries write_v s.data_file (hdr ∷ []) hdr.size s in
    (ok, record t { data_file = f })

-- `close`
unfoldable pub close : FileSink → FileSink
close s = record s {
  svc_file = record s.svc_file { is_open = false };
  data_file = record s.data_file { is_open = false };
}

-- sizeof(s_p8_hdr)
abbrev hdr_size : ℕ
hdr_size = 568

-- cp8_sink_null: the total of all bytes, in 64 bits, which `open` resets.
unfoldable null_open : ℕ → Bool × ℕ
null_open total = (true, 0)

unfoldable null_hello : ℕ → Bool × ℕ
null_hello total = (true, (total + hdr_size) % 2 ^ 64)

unfoldable pub null_data : List Entry → ℕ → Bool × ℕ
null_data buffers total = (true, (total + batch_size + total_size buffers) % 2 ^ 64)

unfoldable pub null_service : List Entry → ℕ → Bool × ℕ
null_service buffers total = (true, (total + total_size buffers) % 2 ^ 64)

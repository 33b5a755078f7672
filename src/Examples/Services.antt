-- ===== src/Examples/Services.antt =====
-- The format parser, the sink, the service buffers and the registries: runs, and their theorems at
-- inputs that meet the hypotheses.
use selenge_muren.Prelude.{
  false, ℕ, ◌+◌, ◌≤◌, ◌≡◌, refl, Bool, true, none, some, List, [], ◌∷◌, arith, length, take,
  if◌then◌else◌, ◌==◌,
}
use selenge_muren.Format.{
  step, classify, parse_format_string, parse_loop, note_digit, int_arg, string_arg, float_arg,
}
use selenge_muren.Format.Round.{from_arg, plain, with_ll, with_upper_l}
use selenge_muren.Format.Table.{
  Piece, text, percent_escape, directive, letter_d, letter_s, letter_f, print_all, all_args,
}
use selenge_muren.Format.Print.{parse_format_string-print_all}
use selenge_muren.Sink.{Entry, FileSink, total_size, write_data}
use selenge_muren.Sink.Accounts.{write_data-counts}
use selenge_muren.Service.{Service}
use selenge_muren.Service.Valid
use selenge_muren.Service.Valid.{Puts}
use selenge_muren.Service.Layout.{CutsAt, cut_utf8-CutsAt}
use selenge_muren.Service.{cut_utf8, svc_put}
use selenge_muren.Service.Entries.{
  LogDesc, log_size, log_entry, serialize_log_desc, serialize_str, str_size,
}
use selenge_muren.Service.Sends.{serialize_log_desc-Puts}
use selenge_muren.Registry.{
  AttrRegistry, attr_id, attr_register, attr_create, ModuleRegistry, find_module, get_verbosity,
  register_module, module_create,
}
use selenge_muren.Registry.Attrs
use selenge_muren.Registry.Attrs.{no_part, Registers, attr_register-IsValid}
use selenge_muren.Registry.Modules
use selenge_muren.Registry.Modules.{register_module_lem, register_module-IsValid}
use selenge_muren.Batch.{Batcher, flush_ready, flush_all}

-- "a%%%*lld%5s%Lf"
abbrev pieces : List Piece
pieces =
    text b'a' refl
    ∷ percent_escape
    ∷ directive (from_arg ∷ []) (some with_ll) letter_d refl
    ∷ directive (plain b'5' (unfold classify in refl) ∷ []) none letter_s refl
    ∷ directive [] (some with_upper_l) letter_f refl
    ∷ []

parse_run :
    parse_format_string true 8 (some (print_all pieces))
    ≡ record { type = 4; size = 8 }
      ∷ record { type = 5; size = 8 }
      ∷ record { type = 10; size = 1 }
      ∷ record { type = 14; size = 16 }
      ∷ []
unfolding parse_format_string parse_loop step classify note_digit int_arg string_arg float_arg
parse_run = refl

-- "%I64s": the digits of the modifier set the flag of a width.
no_width_run :
    parse_format_string true 1 (some (b'%' ∷ b'I' ∷ b'6' ∷ b'4' ∷ b's' ∷ []))
    ≡ record { type = 10; size = 1 } ∷ []
unfolding parse_format_string parse_loop step classify note_digit string_arg
no_width_run = refl

parse_format_string-print_all_example :
    parse_format_string true 3 (some (print_all pieces)) ≡ take 3 (all_args pieces)
parse_format_string-print_all_example = parse_format_string-print_all 3 pieces

-- An open sink, and a file whose second call writes nothing.
abbrev sink : FileSink
sink = record {
  configured = true;
  svc_file = record { is_open = true; calls = [] };
  data_file = record { is_open = true; calls = [] };
  iov_cap = 0;
  bytes_written = 0;
  bytes_dropped = 0;
  write_errors = 0;
}

abbrev half : ℕ → List Entry → ℕ
half i es = if i == 0 then total_size es else 0

half-honest : (i : ℕ) (es : List Entry) → half i es ≤ total_size es
half-honest i es = ground arith

abbrev one_buffer : List Entry
one_buffer = record { addr = 7; size = 40 } ∷ []

write_data-counts_example :
    let (ok, t) = write_data half true 1 one_buffer sink in
    (t.bytes_written + t.bytes_dropped ≡ 0 + 0 + 16 + 40) × (ok ≡ (t.bytes_dropped == 0))
write_data-counts_example =
    write_data-counts half half-honest true 1 one_buffer sink (omega arith) tt

-- Service buffers of 256 bytes, and two to come.
abbrev service : Service
service = record {
  capacity = 256;
  buffers = [];
  dropped = 0;
  replies =
      record { answer = some 1; meanwhile = λ bs. bs }
      ∷ record { answer = some 2; meanwhile = λ bs. [] }
      ∷ [];
}

service-IsValid : Valid.IsValid service
service-IsValid = record { whole = tt; fair = (λ bs w. w, (λ bs w. tt, tt)) }

abbrev desc : LogDesc
desc = record {
  file = some (b'a' ∷ []);
  func = none;
  format = some (b'%' ∷ b'd' ∷ []);
  line = 10;
  hash = 99;
  args = record { type = 4; size = 8 } ∷ [];
}

serialize_log_desc-Puts_example :
    Puts 256 (log_size desc) (log_entry desc) (serialize_log_desc desc service)
serialize_log_desc-Puts_example = serialize_log_desc-Puts desc service service-IsValid

abbrev put_text : Bool × ℕ × List ℕ × Service
put_text = serialize_str length 7 (some (b'a' ∷ [])) [] service

put_text_run : put_text.0 ≡ true
unfolding serialize_str svc_put str_size
put_text_run = refl

-- "aé" cut at 2 bytes: the second byte of é stands there.
cut_utf8-CutsAt_example :
    let str : List ℕ = 97 ∷ 195 ∷ 169 ∷ [] in (cut_utf8 str 2 ≤ 2) × CutsAt str (cut_utf8 str 2)
cut_utf8-CutsAt_example = cut_utf8-CutsAt (97 ∷ 195 ∷ 169 ∷ []) 2 (omega arith)

abbrev pub attrs : AttrRegistry
attrs = record { initialized = true; descs = []; name_map = []; serialized = [] }

pub attrs-IsValid : Attrs.IsValid attrs
attrs-IsValid = record {
  dense = λ i a e. absurd (cc);
  mapped = λ i a e. absurd (cc);
  known = λ name i e. absurd (cc);
  sent = no_part;
}

attr_register-IsValid_example :
    Registers true attrs (attr_register true true true (some (b'x' ∷ [])) 1 attrs).1
attr_register-IsValid_example =
    attr_register-IsValid true true true (some (b'x' ∷ [])) 1 attrs attrs-IsValid

attr_register_run : (attr_register true true false (some (b'x' ∷ [])) 1 attrs).0 ≡ attr_id 0
unfolding attr_register attr_create
attr_register_run = refl

abbrev pub modules : ModuleRegistry
modules = record {
  initialized = true;
  modules = [];
  module_map = [];
  default_verbosity = 2;
  serialized = [];
}

pub modules-IsValid : Modules.IsValid modules
modules-IsValid = record { in_range = λ name i e. absurd (cc) }

register_module_run : (register_module true true false true (some (b'm' ∷ [])) 4 modules).0 ≡ some 0
unfolding register_module module_create
register_module_run = refl

register_module_lem_example :
    let s = (register_module true true false true (some (b'm' ∷ [])) 4 modules).1 in
    (find_module (some (b'm' ∷ [])) s ≡ some 0) × (get_verbosity (some 0) s ≡ some 4)
register_module_lem_example =
    register_module_lem true true false true (some (b'm' ∷ [])) 4 0 modules modules-IsValid
      register_module_run

abbrev batcher : Batcher
batcher = record {
  index = 65535;
  last_ts = 0;
  with_data = true;
  tail_ticks = 100;
  idle_ticks = 500;
}

-- Two buffers, a call that is too early for an empty batch, and one that is not.
abbrev worker_calls : List (List ℕ × ℕ)
worker_calls = (1 ∷ 2 ∷ [], 10) ∷ ([], 50) ∷ ([], 110) ∷ []

batches_run : length (flush_all worker_calls batcher) ≡ 2
unfolding flush_all flush_ready
batches_run = refl

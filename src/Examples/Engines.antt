-- ===== src/Examples/Engines.antt =====
-- The construction of a core and its hello packet: runs, and the theorems at concrete inputs.
use selenge_muren.Prelude.{
  ℕ, zero, suc, ◌+◌, ◌*◌, ◌/◌, ◌%◌, ◌<◌, ◌≡◌, refl, sym, ap, ◌∙◌, true, false, none, some, List, [],
  ◌∷◌, ◌++◌, arith, length, length-append, replicate, subst,
}
use mathlib.Core.List.{reverse, reverse-append}
use selenge_muren.Service.{number_bytes}
use selenge_muren.Setup.{CLibrary}
use selenge_muren.Setup.Header.{Header, init_header, wire_header, init_header-wire_header}
use selenge_muren.Setup.Configuration.{
  File, Host, expected, Agrees, p8_config_read_file, p8_config_read_file-Agrees,
}
use selenge_muren.Setup.Engine.{Config, Settings, World, missing, text, construct, file_bin_text}
use selenge_muren.Setup.Engine.Built.{Builds, construct-Builds}

-- A swap of bytes, by way of the list of bytes.
from_bytes : List ℕ → ℕ
from_bytes [] = 0
from_bytes (b ∷ bs) = b + 256 * from_bytes bs

bswap : (width : ℕ) → ℕ → ℕ
unfolding from_bytes
bswap width n = from_bytes (reverse (number_bytes width n))

abbrev AllBytes : List ℕ → Type 0
AllBytes [] = Unit
AllBytes (b ∷ bs) = (b < 256) × AllBytes bs

AllBytes-append : (xs ys : List ℕ) → AllBytes xs → AllBytes ys → AllBytes (xs ++ ys)
AllBytes-append [] ys a b = b
AllBytes-append (x ∷ xs) ys (small, a) b = (small, AllBytes-append xs ys a b)

reverse-cons : (x : ℕ) (xs : List ℕ) → reverse (x ∷ xs) ≡ reverse xs ++ x ∷ []
reverse-cons x xs = reverse-append (x ∷ []) xs

AllBytes-reverse : (xs : List ℕ) → AllBytes xs → AllBytes (reverse xs)
AllBytes-reverse [] a = a
AllBytes-reverse (x ∷ xs) (small, a) =
    subst AllBytes (sym (reverse-cons x xs))
      (AllBytes-append (reverse xs) (x ∷ []) (AllBytes-reverse xs a) (small, tt))

length-reverse : (xs : List ℕ) → length (reverse xs) ≡ length xs
length-reverse [] = refl
length-reverse (x ∷ xs) =
    ap length (reverse-cons x xs)
    ∙ omega (arith, length-append (reverse xs) (x ∷ []), length-reverse xs)

number_bytes_all :
    (width n : ℕ) → AllBytes (number_bytes width n) × (length (number_bytes width n) ≡ width)
unfolding number_bytes
number_bytes_all zero n = (tt, refl)
number_bytes_all (suc width) n =
    let (all, same) = number_bytes_all width (n / 256) in
    (((omega arith), all), omega (arith, same))

number_bytes-from_bytes :
    (bs : List ℕ) → AllBytes bs → number_bytes (length bs) (from_bytes bs) ≡ bs
unfolding number_bytes from_bytes
number_bytes-from_bytes [] a = refl
number_bytes-from_bytes (b ∷ bs) (small, a) =
    let low : (b + 256 * from_bytes bs) % 256 ≡ b = omega arith in
    let high : (b + 256 * from_bytes bs) / 256 ≡ from_bytes bs = omega arith in
    rw (low, high) (ap (◌∷◌ b) (number_bytes-from_bytes bs a))

bswap_swaps : (width n : ℕ) → number_bytes width (bswap width n) ≡ reverse (number_bytes width n)
unfolding bswap
bswap_swaps width n =
    let (all, same) = number_bytes_all width n in
    let bytes : List ℕ = reverse (number_bytes width n) in
    subst (λ k. number_bytes k (from_bytes bytes) ≡ bytes)
      (length-reverse (number_bytes width n) ∙ same)
      (number_bytes-from_bytes bytes (AllBytes-reverse (number_bytes width n) all))

abbrev hello : Header
hello = record {
  utc_sec_offset = 3600;
  process_id = 77;
  system_time = 1000000;
  hires_tick = 5;
  freq_numer = 1;
  freq_denom = 1;
  process_name = replicate 256 0;
  host_name = replicate 256 0;
}

init_header-wire_header_example :
    init_header bswap from_bytes true hello ≡ wire_header from_bytes 1 hello
init_header-wire_header_example = init_header-wire_header bswap from_bytes bswap_swaps true hello

-- A configuration with a file sink that opens and does not take the hello packet.
abbrev library : CLibrary
library = record { strtoull = λ text. (0, text); same_text = λ a b. false }

abbrev settings : Settings
settings = record {
  max_memory_size = missing;
  initial_memory_size = missing;
  sink = text file_bin_text;
  file_section = false;
  out_dir = missing;
}

abbrev world : World
world = record {
  parse_json = λ json. some settings;
  c_library = library;
  system_clock = (1, 1);
  budget_made = true;
  pool_made = true;
  memory = λ i. none;
  sink_made = true;
  fallback_made = true;
  opens = λ kind. true;
  hello_stored = false;
  event_made = true;
}

abbrev config : Config
config = record { json_config = some []; timer_value = none; timer_numer = 0; timer_denom = 0 }

construct-Builds_example : Builds world config (construct world config)
construct-Builds_example = construct-Builds world config

-- A file of two bytes, read into the block at 8.
abbrev two_letters : File
two_letters = record {
  opens = true;
  seeks = true;
  end_position = some 2;
  block = some 8;
  contents = 123 ∷ 125 ∷ [];
}

abbrev idle_host : Host
idle_host = record { file_count = 0; heap = λ a. none }

p8_config_read_file-Agrees_example :
    Agrees idle_host (expected true two_letters) (p8_config_read_file true two_letters idle_host)
p8_config_read_file-Agrees_example =
    p8_config_read_file-Agrees true two_letters idle_host (λ a e. refl)

two_letters_read :
    (p8_config_read_file true two_letters idle_host).2.heap 8
    ≡ some (some 123 ∷ some 125 ∷ some 0 ∷ [])
unfolding p8_config_read_file
two_letters_read = refl

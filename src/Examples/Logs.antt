-- ===== src/Examples/Logs.antt =====
-- The log writer: runs, and its theorems at inputs that meet the hypotheses.
use selenge_muren.Prelude.{
  true, false, none, some, Bool, Option, List, [], ◌∷◌, ◌≡◌, refl, replicate,
}
use selenge_muren.Writer.{Buffer, Writer, le_bytes, make_space}
use selenge_muren.Registry.{Attr}
use selenge_muren.Service.Entries.{LogDesc}
use selenge_muren.Log.{Log, LogCall, item_bytes, write_args, write_item, send}
use selenge_muren.Log.Undone.{Undone}
use selenge_muren.Log.Sends.{Sends, send_text, send-Sends}
use selenge_muren.Examples.Records.{idle, first_buffer}
use selenge_muren.Examples.Spans.{attrs, registry, idle-IsSteady}

-- printf("%d %s", 42, "ab") with an attribute: more than a buffer of 64 bytes holds.
abbrev desc : LogDesc
desc = record {
  file = none;
  func = none;
  format = some (37 ∷ 100 ∷ 32 ∷ 37 ∷ 115 ∷ []);
  line = 10;
  hash = 7;
  args = record { type = 4; size = 8 } ∷ record { type = 9; size = 8 } ∷ [];
}

abbrev pub call : LogCall
call = record {
  level = 3;
  log_module = none;
  trace_id = 0;
  hash = 7;
  values =
      record { number = 42; text = none } ∷ record { number = 0; text = some (97 ∷ 98 ∷ []) } ∷ [];
  attrs = attrs;
  default_verbosity = 2;
  resolved = some desc;
  ticks = 1000;
  registry = registry;
}

abbrev new_log : Log
new_log = record { writer = idle; desc_map = []; cache = [] }

send-Sends_example : Sends new_log (send_text call new_log) (send true call new_log)
send-Sends_example = send-Sends true call new_log idle-IsSteady

-- A buffer with a record of 8 bytes and room for one header, and a pool without buffers.
abbrev last_buffer : Buffer
last_buffer = record first_buffer { body = replicate 8 none; size = 24 }

abbrev last : Writer
last = record idle { current = some last_buffer; used = 24; buf_seq = 1; replies = [] }

-- One number, which finds no room.
abbrev given_up : Option (Bool × List Attr × Writer)
given_up =
    write_item (item_bytes 7 1000 0 5 3 0)
      ((record { type = 4; size = 8 }, record { number = 42; text = none }) ∷ []) registry attrs []
      last

abbrev is_written : Option (Bool × List Attr × Writer) → Option Bool
is_written none = none
is_written (some r) = some r.0

given_up_run : is_written given_up ≡ some false
unfolding write_item write_args item_bytes le_bytes make_space
given_up_run = refl

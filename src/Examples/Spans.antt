-- ===== src/Examples/Spans.antt =====
-- The trace writer: runs, and its theorems at inputs that meet the hypotheses.
use selenge_muren.Prelude.{
  ℕ, ◌≡◌, refl, true, Option, none, some, List, [], ◌∷◌, ◌++◌, arith, if◌then◌else◌,
}
use selenge_muren.Writer.{le_bytes}
use selenge_muren.Writer.Output.{output}
use selenge_muren.Registry.{Attr, AttrRegistry}
use selenge_muren.Record.{AttrValue, serialize_attrs, attrs_loop}
use selenge_muren.Record.Attrs.{encode_attrs, Encodes, serialize_attrs-encode_attrs}
use selenge_muren.Record.Limits.{FitsRecord, serialize_attrs-FitsRecord}
use selenge_muren.Record.Steady.{IsSteady}
use selenge_muren.Record.Whole.{header-IsReady, header-Since, headed}
use selenge_muren.Trace.{
  Trace, Site, take_id, write_begin, begin, end, end_bytes, pop_span, is_async, end_bytes,
}
use selenge_muren.Trace.Spans.{pop_span_found}
use selenge_muren.Trace.Calls.{begin_text, end_lem}
use selenge_muren.Trace.Locked.{Begins}
use selenge_muren.Trace.Begins.{write_begin-Begins, begin-end}
use selenge_muren.Examples.Records.{idle, opened, first_buffer}

pub idle-IsSteady : IsSteady idle
idle-IsSteady = record {
  healthy = record { tail = tt; cap_low = omega arith; cap_high = omega arith };
  used_aligned = refl;
  cap_aligned = refl;
  seq_small = omega arith;
}

-- A number with the id 0, and the registry that knows it.
abbrev known_attr : Attr
known_attr = record { name = 116 ∷ []; id = 0; type = 1 }

abbrev pub registry : ℕ → AttrRegistry
registry i = record {
  initialized = true;
  descs = known_attr ∷ [];
  name_map = (116 ∷ [], 0) ∷ [];
  serialized = known_attr ∷ [];
}

abbrev pub attrs : List AttrValue
attrs = record { id = 0; number = 42; str = none } ∷ []

abbrev pub site : Site
site = record { hash = 7; resolved = true; block = 1; ticks = 1000; registry = registry }

abbrev new_trace : Trace
new_trace = record {
  writer = idle;
  descs = [];
  open_spans = [];
  next_span_id = 0;
  end_span_id = 0;
  cache = [];
}

write_begin-Begins_example :
    Begins new_trace
      (take_id 1 1 new_trace).0
      (begin_text (take_id 1 1 new_trace).0 1 0 5 site attrs [])
      (write_begin true 1 0 site attrs new_trace)
write_begin-Begins_example = write_begin-Begins true 1 0 site attrs new_trace idle-IsSteady

serialize_attrs-FitsRecord_example : FitsRecord 40 (serialize_attrs registry 40 attrs 56 [] opened)
serialize_attrs-FitsRecord_example =
    serialize_attrs-FitsRecord registry 40 attrs 56 [] opened (omega arith)

pop_span_found_example : pop_span 3 (5 ∷ 4 ∷ 3 ∷ 2 ∷ []) ≡ 2 ∷ []
pop_span_found_example = pop_span_found 3 (5 ∷ 4 ∷ []) (2 ∷ []) refl

end_lem_example :
    let u = end true 1000 9 new_trace in
    IsSteady u.writer
    × (output u.writer ≡ output idle ++ end_bytes 1000 9 5)
    × (u.open_spans ≡ (if is_async 9 then [] else pop_span 9 []))
end_lem_example = end_lem 1000 9 new_trace (λ e. omega arith) idle-IsSteady

abbrev run : Option (ℕ × Trace) → ℕ × Trace
run none = (0, new_trace)
run (some r) = r

begins_one : begin true site [] new_trace ≡ some (1, (run (begin true site [] new_trace)).1)
unfolding begin attrs_loop
begins_one = refl

begin-end_example : (end true 2000 1 (run (begin true site [] new_trace)).1).open_spans ≡ []
begin-end_example =
    begin-end site [] new_trace (run (begin true site [] new_trace)).1 2000 1 idle-IsSteady
      begins_one (λ e. omega arith) refl

opened-IsSteady : IsSteady opened
opened-IsSteady = record {
  healthy = record {
    tail = (refl, refl, omega arith, omega arith, omega arith);
    cap_low = omega arith;
    cap_high = omega arith;
  };
  used_aligned = refl;
  cap_aligned = refl;
  seq_small = omega arith;
}

-- Behind a header of 40 bytes a buffer of 64 bytes has 8 left, fewer than the attribute takes.
serialize_attrs-encode_attrs_example :
    Encodes opened first_buffer 16
      (omega arith)
      refl
      (headed opened first_buffer (le_bytes 40 0))
      56
      0
      (encode_attrs registry 0 40 attrs 0 [])
      (serialize_attrs registry 40 attrs 56 [] (headed opened first_buffer (le_bytes 40 0)))
unfolding le_bytes
serialize_attrs-encode_attrs_example =
    serialize_attrs-encode_attrs opened first_buffer 16 (omega arith) refl registry 40 attrs 56 []
      (headed opened first_buffer (le_bytes 40 0))
      (header-IsReady opened first_buffer (le_bytes 40 0) opened-IsSteady refl (omega arith)) refl
      (header-Since opened first_buffer (le_bytes 40 0) opened-IsSteady refl (omega arith)).0

-- ===== src/Resolve.antt =====
-- engine/p8_core.cpp: `resolve_log_desc` and `resolve_trc_desc`, which send a call site's descriptor
-- before its first record. Each runs under its mutex; the allocation and the hash function are arguments.
pub mod Known
use selenge_muren.Prelude.{
  ℕ, Bool, true, false, not, Option, none, some, List, [], ◌∷◌, if◌then◌else◌,
}
use selenge_muren.Format.{Arg, parse_format_string}
use selenge_muren.Service.{Service}
use selenge_muren.Service.Entries.{LogDesc, serialize_log_desc, serialize_str, serialize_trc_desc}
use selenge_muren.Log.{find_desc}
use selenge_muren.Trace.{contains}

-- `mo_log_descs`.
abbrev pub LogDescs : Type 0
LogDescs = List (ℕ × LogDesc)

-- `mo_trc_descs`, and the hashes of the strings sent so far for each kind of string.
pub record TraceDescs : Type 0 where
  pub descs : List ℕ
  pub file_names : List ℕ
  pub func_names : List ℕ
  pub span_names : List ℕ

-- P8_LOG_MAX_ARGS
abbrev pub max_args : ℕ
max_args = 32

-- A call site: the hash of its file and line, and its strings.
pub record CallSite : Type 0 where
  pub hash : ℕ
  pub file : Option (List ℕ)
  pub line : ℕ
  pub func : Option (List ℕ)
  pub text : Option (List ℕ)

-- The new descriptor. `mz_fixed_args_size`, which nothing reads, is left out.
unfoldable pub log_desc : CallSite → LogDesc
unfolding parse_format_string
log_desc c = record {
  file = c.file;
  func = c.func;
  format = c.text;
  line = c.line;
  hash = c.hash;
  args = parse_format_string true max_args c.text;
}

-- The descriptor of a log call, if there is one, the core's map, and the service buffers.
unfoldable pub resolve_log_desc :
    (desc_made : Bool) → CallSite → LogDescs → Service → Option LogDesc × LogDescs × Service
unfolding log_desc serialize_log_desc
resolve_log_desc desc_made c known s = elim (find_desc c.hash known) [
  | some desc ↦ (some desc, known, s)
  | none ↦
      if not desc_made
      then (none, known, s)
      else let (written, t) = serialize_log_desc (log_desc c) s in
        if written then (some (log_desc c), (c.hash, log_desc c) ∷ known, t) else (none, known, t)
]

-- P8_SVC_TYPE_FILE_NAME, P8_SVC_TYPE_FUNC_NAME, P8_SVC_TYPE_SPAN_NAME
abbrev pub file_name_type : ℕ
file_name_type = 7

abbrev pub func_name_type : ℕ
func_name_type = 8

abbrev pub span_name_type : ℕ
span_name_type = 9

-- `!serialize_str(…) || …`: an entry that was not sent ends the call.
abbrev pub unless_sent :
    Bool → Bool × TraceDescs × Service → Bool × TraceDescs × Service → Bool × TraceDescs × Service
unless_sent false failed rest = failed
unless_sent true failed rest = rest

-- The strings of a span and then its descriptor; the first that finds no buffer ends it.
unfoldable pub send_trc_desc :
    (List ℕ → ℕ) → CallSite → TraceDescs → Service → Bool × TraceDescs × Service
unfolding serialize_str serialize_trc_desc
send_trc_desc xxh3 c d s =
    let (file_sent, file_hash, files, s1) =
      serialize_str xxh3 file_name_type c.file d.file_names s in
    let d1 : TraceDescs = record d { file_names = files } in
    let (func_sent, func_hash, funcs, s2) =
      serialize_str xxh3 func_name_type c.func d.func_names s1 in
    let d2 : TraceDescs = record d1 { func_names = funcs } in
    let (name_sent, name_hash, names, s3) =
      serialize_str xxh3 span_name_type c.text d.span_names s2 in
    let d3 : TraceDescs = record d2 { span_names = names } in
    let (desc_sent, s4) = serialize_trc_desc c.hash c.line file_hash func_hash name_hash s3 in
    unless_sent file_sent (false, d1, s1)
      (unless_sent func_sent (false, d2, s2)
        (unless_sent name_sent (false, d3, s3) (desc_sent, d3, s4)))

unfoldable pub resolve_trc_desc :
    (List ℕ → ℕ) → CallSite → TraceDescs → Service → Bool × TraceDescs × Service
unfolding send_trc_desc
resolve_trc_desc xxh3 c d s =
    if contains c.hash d.descs
    then (true, d, s)
    else let (written, e, t) = send_trc_desc xxh3 c d s in
      if written then (true, record e { descs = c.hash ∷ e.descs }, t) else (false, e, t)

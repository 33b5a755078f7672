-- ===== src/Resolve/Known.antt =====
-- A descriptor is known from the moment its entries are written, and only then.
use selenge_muren.Prelude.{
  ℕ, ◌≡◌, inl, inr, refl, Bool, true, false, Option, none, some, List, ◌∷◌, arith, Bool-cases,
  Option-cases, ◌==◌,
}
use selenge_muren.Service.{Service}
use selenge_muren.Service.Entries.{LogDesc, serialize_log_desc, serialize_str, serialize_trc_desc}
use selenge_muren.Log.{find_desc}
use selenge_muren.Trace.{contains}
use selenge_muren.Resolve.{
  LogDescs, TraceDescs, CallSite, file_name_type, func_name_type, span_name_type, unless_sent,
  log_desc, resolve_log_desc, send_trc_desc, resolve_trc_desc,
}

-- The descriptor that was returned is in the map from now on; without one the map is as it was.
abbrev pub Answers : ℕ → LogDescs → Option LogDesc × LogDescs × Service → Type 0
Answers hash known (some desc, after, t) = find_desc hash after ≡ some desc
Answers hash known (none, after, t) = after ≡ known

find-new :
    (hash : ℕ) (desc : LogDesc) (known : LogDescs)
    → find_desc hash ((hash, desc) ∷ known) ≡ some desc
find-new hash desc known = let same : (hash == hash) ≡ true = ground arith in rw same refl

-- On every path of `resolve_log_desc`: the descriptor that it returns is the one that the core's map has
-- for the call site from then on, so that a second call returns it; and when it returns none, for want of
-- memory or of a service buffer, the map is as it was.
pub resolve_log_desc-Answers :
    (desc_made : Bool) (c : CallSite) (known : LogDescs) (s : Service)
    → Answers c.hash known (resolve_log_desc desc_made c known s)
unfolding resolve_log_desc
resolve_log_desc-Answers desc_made c known s = elim (Option-cases (find_desc c.hash known)) [
  | inr (desc, e) ↦ rw (e, resolve_log_desc) e
  | inl e ↦ elim (Bool-cases desc_made) [
    | inr f ↦ rw (e, f, resolve_log_desc) refl
    | inl f ↦ elim (Bool-cases (serialize_log_desc (log_desc c) s).0) [
      | inr g ↦ rw (e, f, g, resolve_log_desc) refl
      | inl g ↦ rw (e, f, g, resolve_log_desc) (find-new c.hash (log_desc c) known)
    ]
  ]
]

-- The known call sites.
abbrev pub Knows : ℕ → TraceDescs → Bool × TraceDescs × Service → Type 0
Knows hash d (true, e, t) = contains hash e.descs ≡ true
Knows hash d (false, e, t) = e.descs ≡ d.descs

descs-unless_sent :
    (b : Bool) (failed rest : Bool × TraceDescs × Service) (descs : List ℕ)
    → failed.1.descs ≡ descs
    → rest.1.descs ≡ descs
    → (unless_sent b failed rest).1.descs ≡ descs
descs-unless_sent true failed rest descs e f = f
descs-unless_sent false failed rest descs e f = e

descs-send_trc_desc :
    (xxh3 : List ℕ → ℕ) (c : CallSite) (d : TraceDescs) (s : Service)
    → (send_trc_desc xxh3 c d s).1.descs ≡ d.descs
unfolding send_trc_desc
descs-send_trc_desc xxh3 c d s =
    let f = serialize_str xxh3 file_name_type c.file d.file_names s in
    let g = serialize_str xxh3 func_name_type c.func d.func_names f.3 in
    let n = serialize_str xxh3 span_name_type c.text d.span_names g.3 in
    let d1 : TraceDescs = record d { file_names = f.2 } in
    let d2 : TraceDescs = record d1 { func_names = g.2 } in
    let d3 : TraceDescs = record d2 { span_names = n.2 } in
    let last = serialize_trc_desc c.hash c.line f.1 g.1 n.1 n.3 in
    let name = unless_sent n.0 (false, d3, n.3) (last.0, d3, last.1) in
    let func = unless_sent g.0 (false, d2, g.3) name in
    descs-unless_sent f.0 (false, d1, f.3) func d.descs refl
      (descs-unless_sent g.0 (false, d2, g.3) name d.descs refl
        (descs-unless_sent n.0 (false, d3, n.3) (last.0, d3, last.1) d.descs refl refl))

contains_new : (hash : ℕ) (descs : List ℕ) → contains hash (hash ∷ descs) ≡ true
contains_new hash descs = let same : (hash == hash) ≡ true = ground arith in rw same refl

-- On every path of `resolve_trc_desc`: if it returns true, then the call site is known from then on; if
-- a string or the descriptor finds no service buffer, then the known call sites are as they were.
pub resolve_trc_desc-Knows :
    (xxh3 : List ℕ → ℕ) (c : CallSite) (d : TraceDescs) (s : Service)
    → Knows c.hash d (resolve_trc_desc xxh3 c d s)
unfolding resolve_trc_desc
resolve_trc_desc-Knows xxh3 c d s = elim (Bool-cases (contains c.hash d.descs)) [
  | inl e ↦ rw (e, resolve_trc_desc) e
  | inr e ↦ elim (Bool-cases (send_trc_desc xxh3 c d s).0) [
    | inl f ↦ rw (e, f, resolve_trc_desc) (contains_new c.hash (send_trc_desc xxh3 c d s).1.descs)
    | inr f ↦ rw (e, f, resolve_trc_desc) (descs-send_trc_desc xxh3 c d s)
  ]
]

-- A call site that was resolved is not sent again: the same call then returns true, and neither the sets
-- nor the service buffers change.
pub resolve_trc_desc-again :
    (xxh3 : List ℕ → ℕ) (c : CallSite) (d : TraceDescs) (s : Service)
    → (resolve_trc_desc xxh3 c d s).0 ≡ true
    → let (ok, e, t) = resolve_trc_desc xxh3 c d s in resolve_trc_desc xxh3 c e t ≡ (true, e, t)
resolve_trc_desc-again xxh3 c d s ok =
    again (resolve_trc_desc xxh3 c d s).1 (resolve_trc_desc xxh3 c d s).2
      (known (resolve_trc_desc xxh3 c d s) ok (resolve_trc_desc-Knows xxh3 c d s))
  where
    known :
        (r : Bool × TraceDescs × Service)
        → r.0 ≡ true
        → Knows c.hash d r
        → contains c.hash r.1.descs ≡ true
    known (true, e, t) h k = k
    known (false, e, t) h k = cc h

    again :
        (e : TraceDescs) (t : Service)
        → contains c.hash e.descs ≡ true
        → resolve_trc_desc xxh3 c e t ≡ (true, e, t)
    again e t k = unfold resolve_trc_desc in rw (k, resolve_trc_desc) refl

-- ===== src/Service/Entries.antt =====
-- engine/p8_core.cpp: the functions that serialize one entry each, in the layouts of
-- api/p8_protocol.h. Padding inside a structure is zero, as `svc_reserve` clears the place.
use selenge_muren.Prelude.{
  ℕ, ◌+◌, ◌*◌, ◌%◌, Bool, true, false, ◌||◌, Option, List, [], ◌∷◌, ◌++◌, ltb, ◌==◌, if◌then◌else◌,
  length, take,
}
use selenge_muren.Format.{Arg}
use selenge_muren.Service.{
  Service, align_up_8, svc_str_len, sent, svc_put, number_bytes, svc_header,
}

-- s_p8_attr_desc
pub record AttrDesc : Type 0 where
  pub name : Option (List ℕ)
  pub id : ℕ
  pub type : ℕ

unfoldable pub attr_size : AttrDesc → ℕ
unfolding svc_str_len
attr_size d = align_up_8 (12 + svc_str_len d.name + 1)

unfoldable pub attr_entry : AttrDesc → List ℕ
unfolding svc_header number_bytes sent attr_size
attr_entry d =
    svc_header 2 (attr_size d)
    ++ (number_bytes 4 d.id ++ (number_bytes 4 (d.type % 256) ++ (sent d.name ++ 0 ∷ [])))

unfoldable pub serialize_attr_desc : AttrDesc → Service → Service
serialize_attr_desc d s = (svc_put false (attr_size d) (attr_entry d) s).1

-- s_p8_log_mod
pub record Module : Type 0 where
  pub name : Option (List ℕ)
  pub id : ℕ
  pub verbosity : ℕ

unfoldable pub log_mod_size : Module → ℕ
unfolding svc_str_len
log_mod_size m = align_up_8 (8 + svc_str_len m.name + 1)

unfoldable pub log_mod_entry : Module → List ℕ
unfolding svc_header number_bytes sent log_mod_size
log_mod_entry m =
    svc_header 6 (log_mod_size m)
    ++ (number_bytes 2 m.id ++ (number_bytes 2 (m.verbosity % 256) ++ (sent m.name ++ 0 ∷ [])))

unfoldable pub serialize_log_mod : Module → Service → Service
serialize_log_mod m s = (svc_put false (log_mod_size m) (log_mod_entry m) s).1

-- s_p8_log_desc; `args` are the first `mz_args_count` of `ma_args`.
pub record LogDesc : Type 0 where
  pub file : Option (List ℕ)
  pub func : Option (List ℕ)
  pub format : Option (List ℕ)
  pub line : ℕ
  pub hash : ℕ
  pub args : List Arg

-- At most P8_LOG_MAX_ARGS of them.
abbrev pub sent_args : LogDesc → List Arg
sent_args d = take (if ltb 32 (length d.args) then 32 else length d.args) d.args

abbrev pub args_bytes : List Arg → List ℕ
args_bytes [] = []
args_bytes (a ∷ args) = a.type % 256 ∷ (a.size % 256 ∷ args_bytes args)

unfoldable pub log_size : LogDesc → ℕ
unfolding svc_str_len
log_size d =
    align_up_8 (
      24
      + svc_str_len d.file
      + svc_str_len d.func
      + svc_str_len d.format
      + length (sent_args d) * 2)

unfoldable pub log_entry : LogDesc → List ℕ
unfolding svc_header number_bytes sent log_size
log_entry d =
    svc_header 1 (log_size d)
    ++ (number_bytes 4 d.line
        ++ (number_bytes 8 d.hash
            ++ (number_bytes 2 (svc_str_len d.format)
                ++ (number_bytes 2 (svc_str_len d.file)
                    ++ (number_bytes 2 (svc_str_len d.func)
                        ++ (number_bytes 2 (length (sent_args d))
                            ++ (sent d.file
                                ++ (sent d.func
                                    ++ (sent d.format ++ args_bytes (sent_args d))))))))))

unfoldable pub serialize_log_desc : LogDesc → Service → Bool × Service
serialize_log_desc d s = svc_put true (log_size d) (log_entry d) s

-- s_p8_mtk_desc; a double is its bit pattern.
pub record MetricDesc : Type 0 where
  pub name : Option (List ℕ)
  pub description : Option (List ℕ)
  pub unit : Option (List ℕ)
  pub id : ℕ
  pub min_bits : ℕ
  pub max_bits : ℕ
  pub flags : ℕ

unfoldable pub mtk_size : MetricDesc → List ℕ → ℕ
unfolding svc_str_len
mtk_size d blob =
    align_up_8
      (32 + svc_str_len d.name + svc_str_len d.description + svc_str_len d.unit + length blob)

unfoldable pub mtk_entry : MetricDesc → List ℕ → ℕ → List ℕ
unfolding svc_header number_bytes sent mtk_size
mtk_entry d blob count =
    svc_header 5 (mtk_size d blob)
    ++ (number_bytes 4 d.id
        ++ (number_bytes 8 d.min_bits
            ++ (number_bytes 8 d.max_bits
                ++ (number_bytes 1 d.flags
                    ++ (number_bytes 1 count
                        ++ (number_bytes 2 (svc_str_len d.name)
                            ++ (number_bytes 2 (svc_str_len d.description)
                                ++ (number_bytes 2 (svc_str_len d.unit)
                                    ++ (sent d.name
                                        ++ (sent d.description ++ (sent d.unit ++ blob)))))))))))

unfoldable pub serialize_mtk_desc : MetricDesc → List ℕ → ℕ → Service → Service
serialize_mtk_desc d blob count s = (svc_put false (mtk_size d blob) (mtk_entry d blob count) s).1

-- `serialize_str`: the hash function, which is not part of this code, and the set of the hashes sent.
-- A null string counts as the empty one.
abbrev pub is_sent : List ℕ → ℕ → Bool
is_sent [] hash = false
is_sent (h ∷ hs) hash = h == hash || is_sent hs hash

unfoldable pub str_size : Option (List ℕ) → ℕ
unfolding svc_str_len
str_size str = align_up_8 (16 + svc_str_len str)

unfoldable pub str_entry : ℕ → Option (List ℕ) → ℕ → List ℕ
unfolding svc_header number_bytes sent str_size
str_entry svc_type str hash =
    svc_header svc_type (str_size str)
    ++ (number_bytes 2 (svc_str_len str) ++ (number_bytes 2 0 ++ (number_bytes 8 hash ++ sent str)))

unfoldable pub serialize_str :
    (List ℕ → ℕ) → ℕ → Option (List ℕ) → List ℕ → Service → Bool × ℕ × List ℕ × Service
serialize_str xxh3 svc_type str hashes s =
    let hash = xxh3 (sent str) in
    if is_sent hashes hash
    then (true, hash, hashes, s)
    else (let (put, t) = svc_put true (str_size str) (str_entry svc_type str hash) s in
        if put then (true, hash, hash ∷ hashes, t) else (false, hash, hashes, t))

unfoldable pub trc_entry : (hash line file func name : ℕ) → List ℕ
unfolding svc_header number_bytes
trc_entry hash line file func name =
    svc_header 4 40
    ++ (number_bytes 4 line
        ++ (number_bytes 8 hash
            ++ (number_bytes 8 file ++ (number_bytes 8 func ++ number_bytes 8 name))))

unfoldable pub serialize_trc_desc : (hash line file func name : ℕ) → Service → Bool × Service
serialize_trc_desc hash line file func name s =
    svc_put true 40 (trc_entry hash line file func name) s

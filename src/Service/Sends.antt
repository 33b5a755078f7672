-- ===== src/Service/Sends.antt =====
-- Each serializer puts its entry whole into one service buffer, or drops it.
use selenge_muren.Prelude.{
  ℕ, ◌%◌, ◌≡◌, refl, sym, ◌∙◌, inl, inr, true, false, Option, List, ◌∷◌, arith, Bool-cases,
}
use selenge_muren.Service.{Service, align_up_8, sent, svc_put}
use selenge_muren.Service.Valid.{IsValid, Puts, svc_put-Puts}
use selenge_muren.Service.Layout.{
  length-attr_entry, length-log_mod_entry, length-log_entry, length-mtk_entry, length-trc_entry,
}
use selenge_muren.Service.Entries.{
  AttrDesc, attr_size, attr_entry, serialize_attr_desc, Module, log_mod_size, log_mod_entry,
  serialize_log_mod, LogDesc, log_size, log_entry, serialize_log_desc, MetricDesc, mtk_size,
  mtk_entry, serialize_mtk_desc, is_sent, str_size, str_entry, serialize_str, trc_entry,
  serialize_trc_desc,
}

align_up_8-aligned : (n : ℕ) → align_up_8 n % 8 ≡ 0
align_up_8-aligned n = omega arith

pub serialize_attr_desc-IsValid :
    (d : AttrDesc) (s : Service) → IsValid s → IsValid (serialize_attr_desc d s)
unfolding serialize_attr_desc
serialize_attr_desc-IsValid d s v =
    (svc_put-Puts false (attr_size d) (attr_entry d) s (length-attr_entry d)
      (unfold attr_size in align_up_8-aligned _) v).0

pub serialize_log_mod-IsValid :
    (m : Module) (s : Service) → IsValid s → IsValid (serialize_log_mod m s)
unfolding serialize_log_mod
serialize_log_mod-IsValid m s v =
    (svc_put-Puts false (log_mod_size m) (log_mod_entry m) s (length-log_mod_entry m)
      (unfold log_mod_size in align_up_8-aligned _) v).0

pub serialize_mtk_desc-IsValid :
    (d : MetricDesc) (blob : List ℕ) (count : ℕ) (s : Service)
    → IsValid s
    → IsValid (serialize_mtk_desc d blob count s)
unfolding serialize_mtk_desc
serialize_mtk_desc-IsValid d blob count s v =
    (svc_put-Puts false (mtk_size d blob) (mtk_entry d blob count) s (length-mtk_entry d blob count)
      (unfold mtk_size in align_up_8-aligned _) v).0

-- From whole buffers `serialize_log_desc` leaves whole buffers, within their size and aligned to 8, and
-- if it reports true, the entry of the descriptor with its padding is the end of the last buffer.
pub serialize_log_desc-Puts :
    (d : LogDesc) (s : Service)
    → IsValid s
    → Puts s.capacity (log_size d) (log_entry d) (serialize_log_desc d s)
unfolding serialize_log_desc
serialize_log_desc-Puts d s v =
    svc_put-Puts true (log_size d) (log_entry d) s (length-log_entry d)
      (unfold log_size in align_up_8-aligned _) v

pub serialize_trc_desc-Puts :
    (hash line file func name : ℕ) (s : Service)
    → IsValid s
    → Puts s.capacity 40
        (trc_entry hash line file func name)
        (serialize_trc_desc hash line file func name s)
unfolding serialize_trc_desc
serialize_trc_desc-Puts hash line file func name s v =
    svc_put-Puts true 40 (trc_entry hash line file func name) s
      (length-trc_entry hash line file func name) refl v

false-ne-true : false ≡ true → ⊥
false-ne-true e = ground arith

is_sent-head : (hash : ℕ) (hashes : List ℕ) → is_sent (hash ∷ hashes) hash ≡ true
is_sent-head hash hashes = ground arith

-- A string that was serialized, or had been, is not serialized again: the same call then returns true
-- and the same hash, and changes nothing.
pub serialize_str-again :
    (xxh3 : List ℕ → ℕ) (svc_type : ℕ) (str : Option (List ℕ)) (hashes : List ℕ) (s : Service)
    → (serialize_str xxh3 svc_type str hashes s).0 ≡ true
    → let (ok, hash, seen, t) = serialize_str xxh3 svc_type str hashes s in
      serialize_str xxh3 svc_type str seen t ≡ (true, hash, seen, t)
unfolding serialize_str
serialize_str-again xxh3 svc_type str hashes s e =
    let hash = xxh3 (sent str) in
    let put = svc_put true (str_size str) (str_entry svc_type str hash) s in
    elim (Bool-cases (is_sent hashes hash)) [
      | inl c ↦ rw (c, serialize_str) (rw c refl)
      | inr c ↦ elim (Bool-cases put.0) [
        | inl p ↦ rw (c, p, serialize_str) (rw (is_sent-head hash hashes) refl)
        | inr p ↦
            let f : (serialize_str xxh3 svc_type str hashes s).0 ≡ false =
              rw (c, p, serialize_str) refl in
            absurd (false-ne-true (sym f ∙ e))
      ]
    ]

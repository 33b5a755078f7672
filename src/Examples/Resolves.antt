-- ===== src/Examples/Resolves.antt =====
-- Descriptors: a theorem of their resolution at inputs that meet its hypothesis.
use selenge_muren.Prelude.{ℕ, ◌≡◌, refl, true, some, List, [], ◌∷◌, ◌+◌}
use selenge_muren.Service.{Service, svc_put}
use selenge_muren.Service.Entries.{str_size}
use selenge_muren.Resolve.{CallSite, TraceDescs, resolve_log_desc, resolve_trc_desc}
use selenge_muren.Resolve.Known.{Answers, resolve_log_desc-Answers}

abbrev no_descs : TraceDescs
no_descs = record { descs = []; file_names = []; func_names = []; span_names = [] }

-- A service whose buffer of 4096 bytes is at hand.
abbrev roomy : Service
roomy = record {
  capacity = 4096;
  buffers = record { addr = 16; used = 0; bytes = [] } ∷ [];
  replies = [];
  dropped = 0;
}

abbrev site : CallSite
site = record {
  hash = 7;
  file = some (97 ∷ []);
  line = 10;
  func = some (102 ∷ []);
  text = some (115 ∷ []);
}

abbrev xxh3 : List ℕ → ℕ
xxh3 [] = 0
xxh3 (x ∷ xs) = x + xxh3 xs

resolve_log_desc-Answers_example : Answers 7 [] (resolve_log_desc true site [] roomy)
resolve_log_desc-Answers_example = resolve_log_desc-Answers true site [] roomy

resolved : (resolve_trc_desc xxh3 site no_descs roomy).0 ≡ true
unfolding resolve_trc_desc svc_put str_size
resolved = refl

-- ===== src/Sink/Accounts.antt =====
-- Every byte that the file sink gets is counted once, as written or as dropped.
use selenge_muren.Prelude.{
  ℕ, zero, suc, ◌+◌, ◌-◌, ◌%◌, ◌^◌, ◌≤◌, ◌<◌, ◌≡◌, inl, inr, refl, sym, ap, ◌∙◌, min, Bool, true,
  false, ◌&&◌, List, [], ◌∷◌, ◌++◌, append_assoc, append-nil, arith, leb, ◌==◌, length, length-take,
  length-drop, take, drop, take-append-drop, concat, Bool-cases,
}
use selenge_muren.Sink.{
  Entry, File, FileSink, total_size, max_iov, count_chunk, drop_batch, write_loop, write_entries,
  grow_iov, send_data, batch_size, write_data,
}

total_size-take-drop :
    (n : ℕ) (es : List Entry) → total_size (take n es) + total_size (drop n es) ≡ total_size es
total_size-take-drop zero es = omega arith
total_size-take-drop (suc n) [] = omega arith
total_size-take-drop (suc n) (e ∷ es) = omega (arith, total_size-take-drop n es)

concat-append {ℓ} :
    {A : Type ℓ} (xs ys : List (List A)) → concat (xs ++ ys) ≡ concat xs ++ concat ys
concat-append [] ys = refl
concat-append (x ∷ xs) ys = rw (concat-append xs ys) (sym (append_assoc x (concat xs) (concat ys)))

-- A short write counts what is missing, and is reported.
pub count_chunk_lem :
    (written size : ℕ) (s : FileSink)
    → written ≤ size
    → s.bytes_written + s.bytes_dropped + size < 2 ^ 64
    → ((count_chunk written (size % 2 ^ 64) s).1.bytes_written ≡ s.bytes_written + written)
      × ((count_chunk written (size % 2 ^ 64) s).1.bytes_dropped
          ≡ s.bytes_dropped + (size - written))
      × ((count_chunk written (size % 2 ^ 64) s).0 ≡ (written == size))
unfolding count_chunk
count_chunk_lem written size s h k = ground arith

-- The calls of the file stay short enough for it.
abbrev pub AllShort : List (List Entry) → Type 0
AllShort [] = Unit
AllShort (c ∷ cs) = (length c ≤ 1024) × AllShort cs

AllShort-append :
    (cs : List (List Entry)) (c : List Entry)
    → AllShort cs
    → length c ≤ 1024
    → AllShort (cs ++ c ∷ [])
AllShort-append [] c a h = (h, tt)
AllShort-append (x ∷ cs) c (k, a) h = (k, AllShort-append cs c a h)

-- What sending `entries` promises: every byte is counted once, the file got all entries in order in
-- calls that are short enough, and the result is true exactly if it was and nothing was dropped.
pub record Accounted (entries : List Entry) (ok : Bool) (f : File) (s : FileSink)
    (r : Bool × File × FileSink) : Type 0 where
  pub counted :
      r.2.bytes_written + r.2.bytes_dropped ≡ s.bytes_written + s.bytes_dropped + total_size entries
  pub more : s.bytes_dropped ≤ r.2.bytes_dropped
  pub reported : r.0 ≡ (ok && r.2.bytes_dropped == s.bytes_dropped)
  pub handed : concat r.1.calls ≡ concat f.calls ++ entries
  pub short : AllShort r.1.calls

nothing_reported : (ok : Bool) (n : ℕ) → ok ≡ (ok && n == n)
nothing_reported true n = ground arith
nothing_reported false n = refl

nothing-Accounted :
    (ok : Bool) (f : File) (s : FileSink) → AllShort f.calls → Accounted [] ok f s (ok, f, s)
nothing-Accounted ok f s a = record {
  counted = omega arith;
  more = omega arith;
  reported = nothing_reported ok s.bytes_dropped;
  handed = sym (append-nil (concat f.calls));
  short = a;
}

both_reported :
    (ok fine rest : Bool) (written size before between after : ℕ)
    → between ≡ before + (size - written)
    → written ≤ size
    → between ≤ after
    → fine ≡ (written == size)
    → rest ≡ ((ok && fine) && (after == between))
    → rest ≡ (ok && after == before)
both_reported true fine rest written size before between after d h m o r = ground arith
both_reported false fine rest written size before between after d h m o r = r

-- A round, and what comes behind it.
round-Accounted :
    (chunk rest es : List Entry) (written : ℕ) (ok fine : Bool) (f : File) (s t : FileSink)
    (r : Bool × File × FileSink)
    → written ≤ total_size chunk
    → (t.bytes_written ≡ s.bytes_written + written)
      × (t.bytes_dropped ≡ s.bytes_dropped + (total_size chunk - written))
      × (fine ≡ (written == total_size chunk))
    → chunk ++ rest ≡ es
    → total_size chunk + total_size rest ≡ total_size es
    → Accounted rest (ok && fine) (record f { calls = f.calls ++ chunk ∷ [] }) t r
    → Accounted es ok f s r
round-Accounted chunk rest es written ok fine f s t r fair (w, d, o) joined sizes a = record {
  counted = omega (arith, a.counted);
  more = omega (arith, a.more);
  reported =
      both_reported ok fine r.0 written (total_size chunk) s.bytes_dropped t.bytes_dropped
        r.2.bytes_dropped d fair a.more o a.reported;
  handed =
      a.handed
      ∙ ap (λ (calls : List Entry). calls ++ rest) (concat-append f.calls (chunk ∷ []))
      ∙ append_assoc (concat f.calls) (concat (chunk ∷ [])) rest
      ∙ ap (◌++◌ (concat f.calls)) (rw (append-nil chunk) joined);
  short = a.short;
}

-- So many bytes are counted, and the result is true exactly if none of them was dropped.
abbrev pub Counts : ℕ → FileSink → Bool → FileSink → Type 0
Counts total s ok t =
    (t.bytes_written + t.bytes_dropped ≡ s.bytes_written + s.bytes_dropped + total)
    × (ok ≡ (t.bytes_dropped == s.bytes_dropped))

drop_batch-Counts :
    (total : ℕ) (s : FileSink)
    → s.bytes_written + s.bytes_dropped + total < 2 ^ 64
    → 0 < total
    → let (ok, t) = drop_batch (total % 2 ^ 64) s in Counts total s ok t
unfolding drop_batch
drop_batch-Counts total s k positive = ground arith

module _ (write_v : ℕ → List Entry → ℕ)
    (honest : (i : ℕ) (es : List Entry) → write_v i es ≤ total_size es) where
  pub write_loop-Accounted :
      (fuel : ℕ) (entries : List Entry) (ok : Bool) (f : File) (s : FileSink)
      → length entries ≤ fuel
      → s.bytes_written + s.bytes_dropped + total_size entries < 2 ^ 64
      → AllShort f.calls
      → Accounted entries ok f s (write_loop write_v fuel entries ok f s)
  unfolding write_loop
  write_loop-Accounted zero [] ok f s h k a = nothing-Accounted ok f s a
  write_loop-Accounted zero (e ∷ es) ok f s h k a = absurd (omega arith)
  write_loop-Accounted (suc fuel) [] ok f s h k a = nothing-Accounted ok f s a
  write_loop-Accounted (suc fuel) (e ∷ es) ok f s h k a =
      let n = min max_iov (length (e ∷ es)) in
      let chunk = take n (e ∷ es) in
      let rest = drop n (e ∷ es) in
      let sizes = total_size-take-drop n (e ∷ es) in
      let written = write_v (length f.calls) chunk in
      let fair = honest (length f.calls) chunk in
      let counts : Bool × FileSink = count_chunk written (total_size chunk % 2 ^ 64) s in
      let (w, d, o) = count_chunk_lem written (total_size chunk) s fair (omega arith) in
      round-Accounted chunk rest (e ∷ es) written ok counts.0 f s counts.1 _ fair (w, d, o)
        (take-append-drop n (e ∷ es)) sizes
        (write_loop-Accounted fuel rest (ok && counts.0)
          (record f { calls = f.calls ++ chunk ∷ [] }) counts.1
          (omega (arith, length-drop n (e ∷ es))) (omega arith)
          (AllShort-append f.calls chunk a (omega (arith, length-take n (e ∷ es)))))

  write_entries-Accounted :
      (entries : List Entry) (f : File) (s : FileSink)
      → s.bytes_written + s.bytes_dropped + total_size entries < 2 ^ 64
      → AllShort f.calls
      → f.is_open ≡ true
      → 0 < total_size entries
      → Accounted entries true f s (write_entries write_v f entries (total_size entries % 2 ^ 64) s)
  unfolding write_entries
  write_entries-Accounted entries f s k a o positive =
      elim (Bool-cases (total_size entries % 2 ^ 64 == 0)) [
        | inl z ↦ absurd (ground arith)
        | inr z ↦
            simp (z, o) (write_loop-Accounted (length entries) entries true f s (omega arith) k a)
      ]

  write_entries-Counts :
      (entries : List Entry) (f : File) (s : FileSink)
      → s.bytes_written + s.bytes_dropped + total_size entries < 2 ^ 64
      → AllShort f.calls
      → 0 < total_size entries
      → let r = write_entries write_v f entries (total_size entries % 2 ^ 64) s in
        Counts (total_size entries) s r.0 r.2
  unfolding write_entries
  write_entries-Counts entries f s k a positive = elim (Bool-cases f.is_open) [
    | inl o ↦
        let all = write_entries-Accounted entries f s k a o positive in (all.counted, all.reported)
    | inr o ↦ elim (Bool-cases (total_size entries % 2 ^ 64 == 0)) [
      | inl z ↦ absurd (ground arith)
      | inr z ↦ simp (z, o, write_entries) (ground arith)
    ]
  ]

  send_data-Counts :
      (grown : Bool) (entries : List Entry) (s : FileSink)
      → s.bytes_written + s.bytes_dropped + total_size entries < 2 ^ 64
      → AllShort s.data_file.calls
      → 0 < total_size entries
      → let (ok, t) = send_data write_v grown entries s in Counts (total_size entries) s ok t
  unfolding send_data grow_iov
  send_data-Counts grown entries s k a positive =
      elim (Bool-cases (leb (length entries) s.iov_cap)) [
        | inl e ↦
            rw (e, send_data, grow_iov) (write_entries-Counts entries s.data_file s k a positive)
        | inr e ↦ elim (Bool-cases grown) [
          | inl g ↦
              rw (e, g, send_data, grow_iov)
                (write_entries-Counts entries s.data_file (record s { iov_cap = length entries }) k
                  a positive)
          | inr g ↦
              rw (e, g, send_data, grow_iov)
                (drop_batch-Counts (total_size entries) s (omega arith) positive)
        ]
      ]

  -- The file writes at most what it gets, no earlier call was longer than it takes, and the counters
  -- do not overflow. Whether the array can be grown or not, and whether the file is open or not:
  -- `write_data` counts every byte of a batch and its packet as written or as dropped, and returns
  -- true exactly if it dropped none.
  pub write_data-counts :
      (grown : Bool) (batch : ℕ) (buffers : List Entry) (s : FileSink)
      → s.bytes_written + s.bytes_dropped + batch_size + total_size buffers < 2 ^ 64
      → AllShort s.data_file.calls
      → let (ok, t) = write_data write_v grown batch buffers s in
        (t.bytes_written + t.bytes_dropped
          ≡ s.bytes_written + s.bytes_dropped + batch_size + total_size buffers)
        × (ok ≡ (t.bytes_dropped == s.bytes_dropped))
  unfolding write_data
  write_data-counts grown batch buffers s k a =
      let (counted, reported) =
        send_data-Counts grown (record { addr = batch; size = batch_size } ∷ buffers) s
          (omega arith) a (omega arith) in
      (omega (arith, counted), reported)

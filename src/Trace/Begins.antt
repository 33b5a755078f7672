-- ===== src/Trace/Begins.antt =====
-- The begin of a span, from the descriptor of its call site to its record.
use selenge_muren.Prelude.{
  Bool, true, false, not, ◌&&◌, ℕ, ◌≡◌, ◌≢◌, inl, inr, refl, sym, ap, ◌∙◌, subst, Option, none,
  some, List, [], ◌∷◌, arith, if◌then◌else◌, Bool-cases, Option-cases, ◌==◌,
}
use selenge_muren.Writer.{Writer}
use selenge_muren.Registry.{Attr}
use selenge_muren.Record.{AttrValue}
use selenge_muren.Record.Steady.{IsSteady}
use selenge_muren.Trace.{
  begin, end, is_async, item_begin, top_span, pop_span, Trace, Site, take_id, write_locked,
  write_begin, know, drop_trace, contains, invalid_span,
}
use selenge_muren.Trace.Spans.{pop_span_found}
use selenge_muren.Trace.Calls.{begin_text, drop-IsSteady}
use selenge_muren.Trace.Locked.{write_locked-Begins, Begins, same_Begins}

-- A new id touches neither the writer nor the stack, and does not depend on the known sites.
take_id_kept :
    (type block : ℕ) (site : Site) (t : Trace)
    → let (id, u) = take_id type block (know site t) in
      (id ≡ (take_id type block t).0)
      × (u.writer ≡ t.writer)
      × (u.cache ≡ t.cache)
      × (u.open_spans ≡ t.open_spans)
unfolding take_id
take_id_kept type block site t = (refl, refl, refl, refl)

refused_core :
    (type parent : ℕ) (site : Site) (attrs : List AttrValue) (t : Trace)
    → write_begin false type parent site attrs t ≡ some (invalid_span, t)
unfolding write_begin
refused_core type parent site attrs t = refl

refused_site :
    (type parent : ℕ) (site : Site) (attrs : List AttrValue) (t : Trace)
    → (not (contains site.hash t.descs) && not site.resolved) ≡ true
    → write_begin true type parent site attrs t
      ≡ some (invalid_span, record t { writer = drop_trace t.writer })
unfolding write_begin
refused_site type parent site attrs t e = rw (e, write_begin) refl

accepted_site :
    (type parent : ℕ) (site : Site) (attrs : List AttrValue) (t : Trace)
    → (not (contains site.hash t.descs) && not site.resolved) ≡ false
    → write_begin true type parent site attrs t
      ≡ write_locked
          (take_id type site.block (know site t)).0
          type
          parent
          site
          attrs
          (take_id type site.block (know site t)).1
unfolding write_begin
accepted_site type parent site attrs t e = rw (e, write_begin) refl

-- Whatever the attributes, the sizes of the buffers, the pool's answers and the pulls of the worker
-- while the writer waits: a begin on a steady writer either returns the next id, and the output has
-- grown by the whole record, its header, its attributes and its padding; or it returns
-- P8_INVALID_SPAN, and the output is as it was. It never runs out of rounds, the writer stays steady,
-- and the stack of open spans is left alone.
pub write_begin-Begins :
    (has_core : Bool) (type parent : ℕ) (site : Site) (attrs : List AttrValue) (t : Trace)
    → IsSteady t.writer
    → let id = (take_id type site.block t).0 in
      Begins t id
        (begin_text id type parent t.writer.thread_id site attrs t.cache)
        (write_begin has_core type parent site attrs t)
write_begin-Begins false type parent site attrs t s =
    subst (Begins t _ _) (sym (refused_core type parent site attrs t)) (s, inr (refl, refl), refl)
write_begin-Begins true type parent site attrs t s =
    let id = (take_id type site.block t).0 in
    let text = begin_text id type parent t.writer.thread_id site attrs t.cache in
    let u = (take_id type site.block (know site t)).1 in
    let (same_id, same_writer, same_cache, same_spans) = take_id_kept type site.block site t in
    elim (Bool-cases (not (contains site.hash t.descs) && not site.resolved)) [
      | inl e ↦
          subst (Begins t id text) (sym (refused_site type parent site attrs t e))
            (drop-IsSteady t.writer s, inr (refl, refl), refl)
      | inr e ↦ subst (Begins t id text) (sym (accepted_site type parent site attrs t e)) (
          same_Begins t u id (take_id type site.block (know site t)).0 text
            (begin_text (take_id type site.block (know site t)).0 type parent u.writer.thread_id
              site attrs u.cache)
            (write_locked (take_id type site.block (know site t)).0 type parent site attrs u)
            same_id same_writer same_spans
            (text_of (take_id type site.block (know site t)).0 id u.writer t.writer u.cache t.cache
              same_id same_writer same_cache)
            (write_locked-Begins (take_id type site.block (know site t)).0 type parent site attrs u
              (subst IsSteady (sym same_writer) s)))
    ]
  where
    text_of :
        (i j : ℕ) (v w : Writer) (c d : List Attr)
        → i ≡ j
        → v ≡ w
        → c ≡ d
        → begin_text i type parent v.thread_id site attrs c
          ≡ begin_text j type parent w.thread_id site attrs d
    text_of i j v w c d e f g =
        ap (λ (k : ℕ). begin_text k type parent v.thread_id site attrs c) e
        ∙ ap (λ (x : Writer). begin_text j type parent x.thread_id site attrs c) f
        ∙ ap (begin_text j type parent w.thread_id site attrs) g

same_pair :
    (i j : ℕ) (x y : Trace)
    → ◌≡◌ {A = Option (ℕ × Trace)} (some (i, x)) (some (j, y))
    → (i ≡ j) × (x ≡ y)
same_pair i j x y e = (ap (λ r. (first r).0) e, ap (λ r. (first r).1) e)
  where
    first : Option (ℕ × Trace) → ℕ × Trace
    first none = (i, x)
    first (some r) = r

pushed :
    (i id : ℕ) (v u : Trace)
    → ◌≡◌ {A = Option (ℕ × Trace)}
        (some (i, if i == invalid_span then v else record v { open_spans = i ∷ v.open_spans }))
        (some (id, u))
    → id ≢ invalid_span
    → u.open_spans ≡ id ∷ v.open_spans
pushed i id v u e valid =
    let x = if i == invalid_span then v else record v { open_spans = i ∷ v.open_spans } in
    let (same, top) = same_pair i id x u e in
    let there : (i == invalid_span) ≡ false = ground arith in
    let there' : x ≡ record v { open_spans = i ∷ v.open_spans } = rw there refl in
    ap (λ (t : Trace). t.open_spans) (sym top ∙ there') ∙ ap (λ (k : ℕ). k ∷ v.open_spans) same

-- A begin that returns an id has pushed it, over the spans that were open.
begin_pushes :
    (site : Site) (attrs : List AttrValue) (t u : Trace) (id : ℕ)
    → begin true site attrs t ≡ some (id, u)
    → id ≢ invalid_span
    → IsSteady t.writer
    → u.open_spans ≡ id ∷ t.open_spans
unfolding begin
begin_pushes site attrs t u id e valid s =
    let parent = top_span t.open_spans in
    let begun = write_begin-Begins true item_begin parent site attrs t s in
    elim (Option-cases (write_begin true item_begin parent site attrs t)) [
      | inl f ↦ absurd (rw (f, Begins) at begun)
      | inr ((i, v), f) ↦
          let (_, _, spans) = rw (f, Begins) at begun in
          let h = rw (f, begin) at e in pushed i id v u h valid ∙ ap (◌∷◌ id) spans
    ]

end_pops :
    (ticks id : ℕ) (u : Trace)
    → id ≢ invalid_span
    → is_async id ≡ false
    → (end true ticks id u).open_spans ≡ pop_span id u.open_spans
unfolding end
end_pops ticks id u valid sync =
    let there : (id == invalid_span) ≡ false = ground arith in rw (there, sync, end) refl

-- If a begin on a steady writer returns the id of a span, not P8_INVALID_SPAN and without the bit of
-- the async spans, then the end of that span leaves open the spans that were open before the begin, and
-- no other.
pub begin-end :
    (site : Site) (attrs : List AttrValue) (t u : Trace) (ticks id : ℕ)
    → IsSteady t.writer
    → begin true site attrs t ≡ some (id, u)
    → id ≢ invalid_span
    → is_async id ≡ false
    → (end true ticks id u).open_spans ≡ t.open_spans
begin-end site attrs t u ticks id s e valid sync =
    end_pops ticks id u valid sync
    ∙ ap (pop_span id) (begin_pushes site attrs t u id e valid s)
    ∙ pop_span_found id [] t.open_spans refl

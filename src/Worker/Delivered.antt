-- ===== src/Worker/Delivered.antt =====
-- What the sink gets from the rounds of the worker: service buffers before the data, and all the data.
use selenge_muren.Prelude.{
  ℕ, ◌≡◌, refl, ap, ◌∙◌, sym, arith, inl, inr, true, false, ◌&&◌, ltb, leb, sub_size, some, List,
  [], ◌∷◌, ◌++◌, append-nil, to_list, Option-cases, Bool-cases,
}
use selenge_muren.Pool
use selenge_muren.Writer.{Buffer}
use selenge_muren.Service.{SvcBuffer}
use selenge_muren.Batch.{Batch, Batcher, flush_ready, flush_all}
use selenge_muren.Batch.Numbered.{
  AllNumbered, carried, collected, flush_ready_lem, flush_all-AllNumbered,
}
use selenge_muren.Drain.{Core, collect_batch, release_buffer, poll_dropped_stats}
use selenge_muren.Drain.Collected.{held, collect_batch_lem}
use selenge_muren.Worker.{
  Call, write_service, write_data, flush, Round, Shared, Worker, buffer_addrs, flush_batch, poll_at,
  release_service, service_calls, worker_main, worker_round,
}

abbrev pub services_of : List Call → List SvcBuffer
services_of [] = []
services_of (write_service bufs ∷ calls) = bufs ++ services_of calls
services_of (write_data batch ∷ calls) = services_of calls
services_of (flush ∷ calls) = services_of calls

abbrev pub batches_of : List Call → List Batch
batches_of [] = []
batches_of (write_service bufs ∷ calls) = batches_of calls
batches_of (write_data batch ∷ calls) = batch ∷ batches_of calls
batches_of (flush ∷ calls) = batches_of calls

-- No service buffer is sent behind a batch.
abbrev pub IsServiceFirst : List Call → Type 0
IsServiceFirst [] = Unit
IsServiceFirst (write_service bufs ∷ calls) = IsServiceFirst calls
IsServiceFirst (write_data batch ∷ calls) = services_of calls ≡ []
IsServiceFirst (flush ∷ calls) = IsServiceFirst calls

release_buffer-initialized :
    (buffer : ℕ) (c : Core) (p : Pool.Pool)
    → (release_buffer (some buffer) c p).0.initialized ≡ c.initialized
unfolding release_buffer
release_buffer-initialized buffer c p = elim (Bool-cases c.initialized) [
  | inl e ↦ rw (e, release_buffer) refl
  | inr e ↦ rw (e, release_buffer) refl
]

release_service-initialized :
    (bufs : List SvcBuffer) (c : Core) (p : Pool.Pool)
    → (release_service bufs c p).0.initialized ≡ c.initialized
unfolding release_service
release_service-initialized [] c p = refl
release_service-initialized (b ∷ bs) c p =
    release_service-initialized bs (release_buffer (some b.addr) c p).0
      (release_buffer (some b.addr) c p).1
    ∙ release_buffer-initialized b.addr c p

-- What flush_batch gives the sink is what `flush_ready` alone makes of the buffers.
flush_batch-flush_ready :
    (ts : ℕ) (w : Worker) (c : Core) (p : Pool.Pool)
    → let batch = flush_ready (buffer_addrs w.ready) ts w.batcher in
      let (calls, v, d, q) = flush_batch ts w c p in
      (batches_of calls ≡ to_list batch.0)
      × (services_of calls ≡ [])
      × (IsServiceFirst (calls ++ flush ∷ []))
      × (services_of (calls ++ flush ∷ []) ≡ [])
      × (batches_of (calls ++ flush ∷ []) ≡ to_list batch.0)
      × (v.batcher ≡ batch.1)
unfolding flush_batch
flush_batch-flush_ready ts w c p =
    elim (Option-cases (flush_ready (buffer_addrs w.ready) ts w.batcher).0) [
      | inl e ↦ rw (e, flush_batch) (refl, refl, tt, refl, refl, refl)
      | inr (x, e) ↦ rw (e, flush_batch) (refl, refl, refl, refl, refl, refl)
    ]

buffer_addrs-nil : (bs : List Buffer) → buffer_addrs bs ≡ [] → bs ≡ []
buffer_addrs-nil [] e = refl
buffer_addrs-nil (b ∷ bs) e = ground arith

flush_batch-empties :
    (ts : ℕ) (w : Worker) (c : Core) (p : Pool.Pool)
    → c.initialized ≡ true
    → let (calls, v, d, q) = flush_batch ts w c p in
      (carried (batches_of (calls ++ flush ∷ [])) ≡ buffer_addrs w.ready) × (v.ready ≡ [])
unfolding flush_batch
flush_batch-empties ts w c p on = elim (flush_ready_lem (buffer_addrs w.ready) ts w.batcher) [
  | inl (e, f) ↦ rw (f, flush_batch) (sym e, buffer_addrs-nil w.ready e)
  | inr (f, i) ↦ rw (f, flush_batch, on) (append-nil (buffer_addrs w.ready), refl)
]

service_calls_lem :
    (bufs : List SvcBuffer) (calls : List Call)
    → (services_of (service_calls bufs ++ calls) ≡ bufs ++ services_of calls)
      × (batches_of (service_calls bufs ++ calls) ≡ batches_of calls)
      × (IsServiceFirst calls → IsServiceFirst (service_calls bufs ++ calls))
service_calls_lem [] calls = (refl, refl, λ first. first)
service_calls_lem (b ∷ bs) calls = (refl, refl, λ first. first)

poll_at-keeps :
    (ticks : ℕ) (w : Worker) (c : Core)
    → let (v, d) = poll_at ticks w c in
      (v.ready ≡ w.ready) × (v.batcher ≡ w.batcher) × (d.initialized ≡ c.initialized)
unfolding poll_at poll_dropped_stats
poll_at-keeps ticks w c =
    elim (Bool-cases (ltb 0 w.poll_ticks && leb w.poll_ticks (sub_size ticks w.last_ticks))) [
      | inl e ↦ rw (e, poll_at) (refl, refl, refl)
      | inr e ↦ rw (e, poll_at) (refl, refl, refl)
    ]

-- What the worker has collected in a round, and what the others have left when it takes the service
-- buffers.
abbrev pub collected_in : Round → Worker → Shared → ℕ × List Buffer × Core
collected_in i w s = collect_batch w.margin i.now w.ready (i.before s).core

abbrev pub after_others : Round → Worker → Shared → Shared
after_others i w s = i.meanwhile (record (i.before s) { core = (collected_in i w s).2 })

-- A round of the worker on a core that stays initialized: whatever the other threads do before it and
-- between its collections, the sink gets every
-- service buffer that is there after the collection, and then, unless there is nothing to send, a batch
-- with all that the worker had, the writers held and was submitted, in this order;
-- afterwards the worker holds no data and the list of service buffers is empty.
pub worker_round_lem :
    (i : Round) (w : Worker) (s : Shared)
    → (i.before s).core.initialized ≡ true
    → (after_others i w s).core.initialized ≡ true
    → let (calls, v, u) = worker_round i w s in
      (services_of calls ≡ (after_others i w s).service.buffers)
      × (carried (batches_of calls)
          ≡ buffer_addrs (w.ready ++ (held (i.before s).core.writers ++ (i.before s).core.ready)))
      × IsServiceFirst calls
      × (v.ready ≡ [])
      × (u.service.buffers ≡ [])
unfolding worker_round
worker_round_lem i w s on on_after =
    let t = after_others i w s in
    let bufs = t.service.buffers in
    let d = (release_service bufs t.core t.pool).0 in
    let p = (release_service bufs t.core t.pool).1 in
    let (time, batch, empty, none_ready) =
      collect_batch_lem w.margin i.now w.ready (i.before s).core on in
    let (same_ready, same_batcher, same_on) = poll_at-keeps i.ticks w d in
    let v : Worker = record (poll_at i.ticks w d).0 { ready = (collected_in i w s).1 } in
    let e : Core = record (poll_at i.ticks w d).1 { wake_pending = false } in
    let ts = (collected_in i w s).0 in
    let (all, left) =
      flush_batch-empties ts v e p
        (same_on ∙ release_service-initialized bufs t.core t.pool ∙ on_after) in
    let (b1, b2, first, no_service, b5, b6) = flush_batch-flush_ready ts v e p in
    let (services, batches, keeps) =
      service_calls_lem bufs ((flush_batch ts v e p).0 ++ flush ∷ []) in
    (
      services ∙ ap (◌++◌ bufs) no_service ∙ append-nil bufs,
      ap carried batches ∙ all ∙ ap buffer_addrs batch,
      keeps first,
      left,
      refl,
    )

batches_of-append :
    (calls more : List Call) → batches_of (calls ++ more) ≡ batches_of calls ++ batches_of more
batches_of-append [] more = refl
batches_of-append (write_service bufs ∷ calls) more = batches_of-append calls more
batches_of-append (write_data batch ∷ calls) more = ap (◌∷◌ batch) (batches_of-append calls more)
batches_of-append (flush ∷ calls) more = batches_of-append calls more

-- What the worker collects, round by round, each with the time of its collection.
abbrev pub gathered : List Round → Worker → Shared → List (List ℕ × ℕ)
gathered [] w s = []
gathered (i ∷ rounds) w s =
    let (calls, v, t) = worker_round i w s in
    (buffer_addrs (collected_in i w s).1, (collected_in i w s).0) ∷ gathered rounds v t

worker_round-flush_ready :
    (i : Round) (w : Worker) (s : Shared)
    → let (ts, ready, c) = collected_in i w s in
      let (calls, v, u) = worker_round i w s in
      (batches_of calls ≡ to_list (flush_ready (buffer_addrs ready) ts w.batcher).0)
      × (v.batcher ≡ (flush_ready (buffer_addrs ready) ts w.batcher).1)
unfolding worker_round
worker_round-flush_ready i w s =
    let t = after_others i w s in
    let bufs = t.service.buffers in
    let d = (release_service bufs t.core t.pool).0 in
    let p = (release_service bufs t.core t.pool).1 in
    let (same_ready, same_batcher, same_on) = poll_at-keeps i.ticks w d in
    let v : Worker = record (poll_at i.ticks w d).0 { ready = (collected_in i w s).1 } in
    let e : Core = record (poll_at i.ticks w d).1 { wake_pending = false } in
    let ts = (collected_in i w s).0 in
    let (b1, b2, first, no_service, batches, batcher) = flush_batch-flush_ready ts v e p in
    let (services, same, keeps) = service_calls_lem bufs ((flush_batch ts v e p).0 ++ flush ∷ []) in
    let ready = buffer_addrs (collected_in i w s).1 in
    (
      same ∙ batches ∙ ap (λ (b : Batcher). to_list (flush_ready ready ts b).0) same_batcher,
      batcher ∙ ap (λ (b : Batcher). (flush_ready ready ts b).1) same_batcher,
    )

worker_main-flush_all :
    (rounds : List Round) (w : Worker) (s : Shared)
    → batches_of (worker_main rounds w s).0 ≡ flush_all (gathered rounds w s) w.batcher
unfolding worker_main flush_all
worker_main-flush_all [] w s = refl
worker_main-flush_all (i ∷ rounds) w s =
    let (calls, v, t) = worker_round i w s in
    let (batch, next) = worker_round-flush_ready i w s in
    let later = gathered rounds v t in
    let now =
      to_list
        (flush_ready (buffer_addrs (collected_in i w s).1) (collected_in i w s).0 w.batcher).0 in
    batches_of-append calls (worker_main rounds v t).0
    ∙ ap (λ (bs : List Batch). bs ++ batches_of (worker_main rounds v t).0) batch
    ∙ ap (◌++◌ now) (worker_main-flush_all rounds v t ∙ ap (flush_all later) next)

-- Whatever the other threads do before and between the rounds of the worker, the batches that the sink
-- gets from `worker_main` carry exactly what the worker collected, in order, each with the count of its
-- buffers modulo 2 ^ 32, and are numbered without a gap modulo 2 ^ 16.
pub worker_main-AllNumbered :
    (rounds : List Round) (w : Worker) (s : Shared)
    → let batches = batches_of (worker_main rounds w s).0 in
      (carried batches ≡ collected (gathered rounds w s)) × AllNumbered w.batcher.index batches
worker_main-AllNumbered rounds w s =
    rw (worker_main-flush_all rounds w s) (flush_all-AllNumbered (gathered rounds w s) w.batcher)

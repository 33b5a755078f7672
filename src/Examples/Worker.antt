-- ===== src/Examples/Worker.antt =====
-- The worker: its theorems at a round in which the other threads add a service buffer.
use selenge_muren.Prelude.{◌≡◌, refl, false, none, [], ◌∷◌, ◌++◌}
use selenge_muren.Pool
use selenge_muren.Service.{SvcBuffer}
use selenge_muren.Batch.Numbered.{AllNumbered, carried, collected}
use selenge_muren.Drain.{collect_batch, drain_writers}
use selenge_muren.Drain.Collected.{held}
use selenge_muren.Worker.{Round, Shared, Worker, buffer_addrs, worker_main, worker_round}
use selenge_muren.Worker.Delivered.{
  IsServiceFirst, batches_of, gathered, services_of, worker_main-AllNumbered, worker_round_lem,
}
use selenge_muren.Examples.Core.{core, no_service}

abbrev entry_buffer : SvcBuffer
entry_buffer = record { addr = 64; used = 8; bytes = 8 ∷ 0 ∷ 0 ∷ 0 ∷ 0 ∷ 0 ∷ 0 ∷ 0 ∷ [] }

abbrev shared : Shared
shared = record { core = core; service = no_service; pool = Pool.create 4096 none }

abbrev add_entry : Shared → Shared
add_entry s = record s { service = record s.service { buffers = entry_buffer ∷ [] } }

abbrev busy : Round
busy = record { before = λ s. s; now = 1000; ticks = 5000; meanwhile = add_entry }

abbrev worker : Worker
worker = record {
  margin = 10;
  ready = [];
  batcher = record {
    index = 65535;
    last_ts = 0;
    with_data = false;
    tail_ticks = 100;
    idle_ticks = 500;
  };
  poll_ticks = 250;
  last_ticks = 0;
}

worker_round_lem_example :
    let (calls, v, u) = worker_round busy worker shared in
    (services_of calls ≡ entry_buffer ∷ [])
    × (carried (batches_of calls) ≡ buffer_addrs (held core.writers ++ core.ready))
    × IsServiceFirst calls
    × (v.ready ≡ [])
    × (u.service.buffers ≡ [])
unfolding collect_batch drain_writers
worker_round_lem_example = worker_round_lem busy worker shared refl refl

worker_main-AllNumbered_example :
    let batches = batches_of (worker_main (busy ∷ busy ∷ []) worker shared).0 in
    (carried batches ≡ collected (gathered (busy ∷ busy ∷ []) worker shared))
    × AllNumbered 65535 batches
worker_main-AllNumbered_example = worker_main-AllNumbered (busy ∷ busy ∷ []) worker shared

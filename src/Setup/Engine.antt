-- ===== src/Setup/Engine.antt =====
-- engine/p8_core.cpp: the constructor of `cp8_core` with `create_sink` and `init_clock`, and its end. JSON is
-- read by a third-party library: how a text parses is an argument, and so is what can be allocated.
pub mod Built
use selenge_muren.Prelude.{
  ℕ, ◌*◌, ◌/◌, ◌%◌, ◌^◌, Bool, true, false, not, ◌&&◌, ◌||◌, Option, none, some, List, [], ◌∷◌,
  ◌++◌, ◌==◌, if◌then◌else◌, is_some,
}
use selenge_muren.Pool
use selenge_muren.Registry.{same_name}
use selenge_muren.Setup.{CLibrary, init_buffer_pool}

-- The value of a key of the configuration; `get<std::string>` throws at one that is no text.
pub data Field : Type 0 where
  missing : Field
  text : List ℕ → Field
  no_text : Field

pub record Settings : Type 0 where
  pub max_memory_size : Field
  pub initial_memory_size : Field
  pub sink : Field
  pub file_section : Bool
  pub out_dir : Field

-- s_p8_config; the callback is its address.
pub record Config : Type 0 where
  pub json_config : Option (List ℕ)
  pub timer_value : Option ℕ
  pub timer_numer : ℕ
  pub timer_denom : ℕ

-- A setting that is missing or empty is a null pointer; the outer `none` is the exception.
unfoldable pub text_of : Field → Option (Option (List ℕ))
text_of missing = some none
text_of (text []) = some none
text_of (text (c ∷ cs)) = some (some (c ∷ cs))
text_of no_text = none

-- The clock of the stream: the callback of the user, or none for the system's, and its ratio.
pub record Clock : Type 0 where
  pub timer_value : Option ℕ
  pub numer : ℕ
  pub denom : ℕ

unfoldable pub init_clock : (system : ℕ × ℕ) → Config → Clock
init_clock system config =
    if is_some config.timer_value
      && (not (config.timer_numer == 0) && not (config.timer_denom == 0))
    then record {
      timer_value = config.timer_value;
      numer = config.timer_numer;
      denom = config.timer_denom;
    }
    else record { timer_value = none; numer = system.0; denom = system.1 }

-- `get_ticks`
unfoldable pub get_ticks : (callback : ℕ → ℕ) (hires : ℕ) → Clock → ℕ
get_ticks callback hires clock = elim clock.timer_value [ some f ↦ callback f | none ↦ hires ]

-- A time of `ns` nanoseconds in ticks, which is 0 without a ratio.
unfoldable pub in_ticks : (ns : ℕ) → Clock → ℕ
in_ticks ns clock = if clock.numer == 0 then 0 else ns * clock.denom % 2 ^ 64 / clock.numer

-- P8_CORE_BATCH_MARGIN_US, P8_CORE_THREAD_TIMEOUT_MS, P8_CORE_IDLE_BATCH_INTERVAL_MS, in nanoseconds
abbrev pub margin_ns : ℕ
margin_ns = 10 * 1000

abbrev pub timeout_ns : ℕ
timeout_ns = 50 * 1000000

abbrev pub idle_ns : ℕ
idle_ns = 5000 * 1000000

-- The sinks; a file sink may lack its directory.
pub data SinkKind : Type 0 where
  null_sink : SinkKind
  file_sink : (configured : Bool) → SinkKind

-- "file.bin", "network.tcp", "null"
abbrev pub file_bin_text : List ℕ
file_bin_text = 102 ∷ 105 ∷ 108 ∷ 101 ∷ 46 ∷ 98 ∷ 105 ∷ 110 ∷ []

abbrev pub network_tcp_text : List ℕ
network_tcp_text = 110 ∷ 101 ∷ 116 ∷ 119 ∷ 111 ∷ 114 ∷ 107 ∷ 46 ∷ 116 ∷ 99 ∷ 112 ∷ []

abbrev pub null_text : List ℕ
null_text = 110 ∷ 117 ∷ 108 ∷ 108 ∷ []

-- The constructor of `cp8_sink_file`: whether it is configured, or an exception.
unfoldable pub file_configured : Settings → Option Bool
file_configured s =
    if s.file_section
    then (elim s.out_dir [
      | missing ↦ some false
      | text name ↦ some (not (same_name name []))
      | no_text ↦ none
    ])
    else some false

-- `create_sink`: the inner `none` is a null pointer, the outer one an exception.
unfoldable pub create_sink :
    (allocated : Bool) → Option (List ℕ) → Settings → Option (Option SinkKind)
unfolding file_configured
create_sink allocated none s = some (if allocated then some null_sink else none)
create_sink allocated (some value) s =
    if same_name value file_bin_text
    then if allocated
      then (elim (file_configured s) [ none ↦ none | some c ↦ some (some (file_sink c)) ])
      else some none
    else if same_name value network_tcp_text
    then some none
    else if same_name value null_text
    then some (if allocated then some null_sink else none)
    else some none

-- What the world gives to a constructor: the parser, the C library, the system's clock, what can be
-- allocated, whether a sink opens, and whether the worker's event can be made.
pub record World : Type 0 where
  pub parse_json : List ℕ → Option Settings
  pub c_library : CLibrary
  pub system_clock : ℕ × ℕ
  pub budget_made : Bool
  pub pool_made : Bool
  pub memory : ℕ → Option ℕ
  pub sink_made : Bool
  pub fallback_made : Bool
  pub opens : SinkKind → Bool
  pub hello_stored : Bool
  pub event_made : Bool

pub record Engine : Type 0 where
  pub initialized : Bool
  pub pool : Option Pool.Pool
  pub clock : Clock
  pub batch_margin : ℕ
  pub batch_tail : ℕ
  pub batch_idle : ℕ
  pub sink : Option SinkKind
  pub hello_written : Bool
  pub worker_running : Bool

abbrev pub no_clock : Clock
no_clock = record { timer_value = none; numer = 0; denom = 0 }

unfoldable pub bare_engine : Engine
bare_engine = record {
  initialized = false;
  pool = none;
  clock = no_clock;
  batch_margin = 0;
  batch_tail = 0;
  batch_idle = 0;
  sink = none;
  hello_written = false;
  worker_running = false;
}

-- The pool and the clock.
unfoldable pub with_clock : World → Config → Pool.Pool → Engine
unfolding bare_engine
with_clock world config pool =
    let clock = init_clock world.system_clock config in
    record bare_engine {
      pool = some pool;
      clock = clock;
      batch_margin = in_ticks margin_ns clock;
      batch_tail = in_ticks timeout_ns clock;
      batch_idle = in_ticks idle_ns clock;
    }

-- `write_hello` of a sink: the null sink takes everything.
abbrev pub hello_accepted : World → SinkKind → Bool
hello_accepted world null_sink = true
hello_accepted world (file_sink configured) = world.hello_stored

-- The last lines of the constructor, with an open sink, which goes on without the hello packet if the sink
-- refuses it; `start_worker` fails without its event.
unfoldable pub finish : World → SinkKind → Engine → Engine
finish world kind e = record e {
  sink = some kind;
  hello_written = hello_accepted world kind;
  initialized = true;
  worker_running = world.event_made;
}

-- A sink that does not open is replaced by the null sink, which always opens.
unfoldable pub open_sink : World → SinkKind → Engine → Engine
open_sink world kind e =
    if world.opens kind
    then finish world kind e
    else if world.fallback_made
    then finish world null_sink e
    else e

-- The lines of the constructor behind the pool.
unfoldable pub with_sink : World → Settings → Engine → Option Engine
with_sink world s e = elim (text_of s.sink) [
  | none ↦ none
  | some value ↦ elim (create_sink world.sink_made value s) [
    | none ↦ none
    | some made ↦ elim made [ none ↦ some e | some kind ↦ some (open_sink world kind e) ]
  ]
]

-- The lines of the constructor behind the parser.
unfoldable pub with_settings : World → Config → Settings → Option Engine
with_settings world config s = elim (text_of s.max_memory_size) [
  | none ↦ none
  | some max ↦ elim (text_of s.initial_memory_size) [
    | none ↦ none
    | some initial ↦
        elim (init_buffer_pool world.c_library world.budget_made world.pool_made world.memory max
          initial) [
            | none ↦ some bare_engine
            | some pool ↦ with_sink world s (with_clock world config pool)
          ]
  ]
]

-- The constructor; `none` is an exception that leaves it.
unfoldable pub construct : World → Config → Option Engine
construct world config = elim config.json_config [
  | none ↦ some bare_engine
  | some json ↦ elim (world.parse_json json) [
    | none ↦ some bare_engine
    | some s ↦ with_settings world config s
  ]
]

-- `stop_worker`: the threads that wait for a buffer are woken first.
unfoldable pub stop_worker : Engine → Engine
unfolding Pool.stop_waiters
stop_worker e =
    if e.worker_running
    then record e {
      pool = (elim e.pool [ none ↦ none | some p ↦ some (Pool.stop_waiters p).1 ]);
      worker_running = false;
    }
    else e

-- The destructor, as far as the engine goes: the worker, the sink, the pool.
unfoldable pub destroy_engine : Engine → Engine
unfolding stop_worker
destroy_engine e = record (stop_worker e) { sink = none; pool = none }

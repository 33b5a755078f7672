-- ===== src/Setup/Engine/Built.antt =====
-- What the constructor of the core leaves, on every path through it.
use selenge_muren.Prelude.{
  ℕ, ◌≡◌, ◌⊎◌, refl, inl, inr, Bool, true, false, Option, none, some, List, is_some, Option-cases,
  subst, if◌then◌else◌,
}
use selenge_muren.Pool
use selenge_muren.Setup.{init_buffer_pool}
use selenge_muren.Setup.Engine.{
  Config, Settings, World, Engine, SinkKind, null_sink, file_sink, text_of, init_clock, create_sink,
  bare_engine, with_clock, hello_accepted, finish, open_sink, with_sink, with_settings, construct,
}

-- The hello packet is there if the engine has a sink and the sink takes it.
abbrev pub greeting : World → Option SinkKind → Bool
greeting world none = false
greeting world (some null_sink) = true
greeting world (some (file_sink configured)) = world.hello_stored

-- An engine that is initialized has its pool, its clock, a sink, and a worker if its event could be made;
-- any other has neither a sink nor a worker.
pub record IsBuilt (world : World) (config : Config) (e : Engine) : Type 0 where
  pub pooled : e.initialized ≡ true → is_some e.pool ≡ true
  pub clocked : e.initialized ≡ true → e.clock ≡ init_clock world.system_clock config
  pub greeted : e.hello_written ≡ greeting world e.sink
  pub sunk : is_some e.sink ≡ e.initialized
  pub opened :
      (kind : SinkKind) → e.sink ≡ some kind → (kind ≡ null_sink) ⊎ (world.opens kind ≡ true)
  pub works : e.worker_running ≡ (if e.initialized then world.event_made else false)

abbrev pub Builds : World → Config → Option Engine → Type 0
Builds world config none = Unit
Builds world config (some e) = IsBuilt world config e

none-ne-some : (k : SinkKind) → ◌≡◌ {A = Option SinkKind} none (some k) → ⊥
none-ne-some k e = cc e

same_kind : (k j : SinkKind) → ◌≡◌ {A = Option SinkKind} (some k) (some j) → k ≡ j
same_kind k j e = cc e

greeted_by :
    (world : World) (kind : SinkKind) → hello_accepted world kind ≡ greeting world (some kind)
greeted_by world null_sink = refl
greeted_by world (file_sink configured) = refl

not_yet : false ≡ true → ⊥
not_yet e = cc e

bare-IsBuilt : (world : World) (config : Config) → IsBuilt world config bare_engine
unfolding bare_engine
bare-IsBuilt world config = record {
  pooled = λ e. absurd (not_yet e);
  clocked = λ e. absurd (not_yet e);
  greeted = refl;
  sunk = refl;
  opened = λ kind e. absurd (none-ne-some kind e);
  works = refl;
}

module _ (world : World) (config : Config) (pool : Pool.Pool) where
  clock-IsBuilt : IsBuilt world config (with_clock world config pool)
  unfolding with_clock bare_engine
  clock-IsBuilt = record {
    pooled = λ e. absurd (not_yet e);
    clocked = λ e. absurd (not_yet e);
    greeted = refl;
    sunk = refl;
    opened = λ kind e. absurd (none-ne-some kind e);
    works = refl;
  }

  finish-IsBuilt :
      (kind : SinkKind)
      → (kind ≡ null_sink) ⊎ (world.opens kind ≡ true)
      → IsBuilt world config (finish world kind (with_clock world config pool))
  unfolding finish with_clock
  finish-IsBuilt kind good = record {
    pooled = λ e. refl;
    clocked = λ e. refl;
    greeted = greeted_by world kind;
    sunk = refl;
    opened = λ other e.
        subst (λ k. (k ≡ null_sink) ⊎ (world.opens k ≡ true)) (same_kind kind other e) good;
    works = refl;
  }

  open_sink-IsBuilt :
      (kind : SinkKind) → IsBuilt world config (open_sink world kind (with_clock world config pool))
  unfolding open_sink
  open_sink-IsBuilt kind = by_cases (world.opens kind) world.fallback_made (λ e. e)
    where
      by_cases :
          (good fallback : Bool)
          → (good ≡ true → world.opens kind ≡ true)
          → IsBuilt world config (
              if good
              then finish world kind (with_clock world config pool)
              else if fallback
              then finish world null_sink (with_clock world config pool)
              else with_clock world config pool)
      by_cases true fallback h = finish-IsBuilt kind (inr (h refl))
      by_cases false true h = finish-IsBuilt null_sink (inl refl)
      by_cases false false h = clock-IsBuilt

  with_sink-Builds :
      (s : Settings) → Builds world config (with_sink world s (with_clock world config pool))
  unfolding with_sink
  with_sink-Builds s = elim (Option-cases (text_of s.sink)) [
    | inl e ↦ rw (e, with_sink) tt
    | inr (value, e) ↦ elim (Option-cases (create_sink world.sink_made value s)) [
      | inl f ↦ rw (e, f, with_sink) tt
      | inr (made, f) ↦ rw (e, f, with_sink) (sunk_in made)
    ]
  ]
    where
      sunk_in :
          (made : Option SinkKind)
          → Builds world config (elim made [
            | none ↦ some (with_clock world config pool)
            | some kind ↦ some (open_sink world kind (with_clock world config pool))
          ])
      sunk_in none = clock-IsBuilt
      sunk_in (some kind) = open_sink-IsBuilt kind

with_settings-Builds :
    (world : World) (config : Config) (s : Settings)
    → Builds world config (with_settings world config s)
unfolding with_settings
with_settings-Builds world config s = elim (Option-cases (text_of s.max_memory_size)) [
  | inl e ↦ rw (e, with_settings) tt
  | inr (max, e) ↦ elim (Option-cases (text_of s.initial_memory_size)) [
    | inl f ↦ rw (e, f, with_settings) tt
    | inr (initial, f) ↦
        elim (Option-cases (
          init_buffer_pool world.c_library world.budget_made world.pool_made world.memory max
            initial)) [
              | inl g ↦ rw (e, f, g, with_settings) (bare-IsBuilt world config)
              | inr (pool, g) ↦ rw (e, f, g, with_settings) (with_sink-Builds world config pool s)
            ]
  ]
]

-- The constructor, whatever the configuration, the parser, the allocator and the sinks do: unless an
-- exception leaves it, it leaves an engine that is initialized with its pool, the clock of `init_clock`, a
-- sink that opened or the null sink and, if its event could be made, a worker; or one that is not
-- initialized and has neither a sink nor a worker. The hello packet is written exactly if there is a sink
-- that takes it.
pub construct-Builds :
    (world : World) (config : Config) → Builds world config (construct world config)
unfolding construct
construct-Builds world config = by_json config.json_config
  where
    by_settings :
        (parsed : Option Settings)
        → Builds world config
            (elim parsed [ none ↦ some bare_engine | some s ↦ with_settings world config s ])
    by_settings none = bare-IsBuilt world config
    by_settings (some s) = with_settings-Builds world config s

    by_json :
        (json : Option (List ℕ))
        → Builds world config (elim json [
          | none ↦ some bare_engine
          | some j ↦ elim (world.parse_json j) [
            | none ↦ some bare_engine
            | some s ↦ with_settings world config s
          ]
        ])
    by_json none = bare-IsBuilt world config
    by_json (some j) = by_settings (world.parse_json j)

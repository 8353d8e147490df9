-- ===== src/App.antt =====
-- backend/src/main.py and api/routes/health.py: what the application holds after its start, and what it
-- says of its health. The pools, the two files and the provider's client are parameters.
pub mod Health
pub mod Admin
pub mod Started
use mathlib.Core.Option
use event_driven_ai_voice.Prelude.{Bool, Option, false, inl, inr, none, some, true, ◌⊎◌}
use event_driven_ai_voice.Router.Load.{RawConfig, Load, LoadError}
use event_driven_ai_voice.Router.Load
use event_driven_ai_voice.Router.Config.{RouterPromptConfig}
use event_driven_ai_voice.Router.Policies.{PoliciesFile, PoliciesRegistry, PoliciesError}
use event_driven_ai_voice.Router.Policies
use event_driven_ai_voice.Router.{RouterPromptBuilder}
use event_driven_ai_voice.Router

-- `app.state`, an attribute that is not set being none; a repository is the pool that it is given.
pub record AppState (Pool Redis Registry : Type 0) : Type 0 where
  pub db_pool : Option Pool
  pub redis : Option Redis
  pub registry : Option Registry
  pub policies : Option PoliciesRegistry
  pub router_prompt_builder : Option RouterPromptBuilder
  pub call_repo : Option Pool
  pub turn_repo : Option Pool
  pub agent_gen_repo : Option Pool
  pub voice_gen_repo : Option Pool
  pub models_loaded : Option Bool

-- The state of the modules beside the application's: the shared dependencies of api/routes/calls.py, and
-- whether voice_runtime/specialist_tools.py has a client.
pub record App (Pool Redis Registry : Type 0) : Type 0 where
  pub state : AppState Pool Redis Registry
  pub shared_router_prompt_builder : Option RouterPromptBuilder
  pub shared_policies : Option PoliciesRegistry
  pub specialist_configured : Bool

pub data StartError : Type 0 where
  db_error redis_error registry_error router_file_not_found : StartError
  policies_error : PoliciesError → StartError
  router_error : LoadError → StartError

-- A step of the start: it changes the state and gives a value, or raises.
abbrev pub Start : Type 0 → Type 0 → Type 0
Start S A = S → S × (StartError ⊎ A)

abbrev pub bind_result :
    {S A B : Type 0} → (A → Start S B) → S × (StartError ⊎ A) → S × (StartError ⊎ B)
bind_result f (s, inl error) = (s, inl error)
bind_result f (s, inr a) = f a s

infixl 5 ◌>>=◌
abbrev pub ◌>>=◌ : {S A B : Type 0} → Start S A → (A → Start S B) → Start S B
m >>= f = λ s. bind_result f (m s)

infixl 5 ◌>>◌
abbrev pub ◌>>◌ : {S A B : Type 0} → Start S A → Start S B → Start S B
m >> n = m >>= λ _. n

abbrev pub need : {S A : Type 0} → StartError → Option A → Start S A
need error none s = (s, inl error)
need error (some a) s = (s, inr a)

abbrev pub need_policies :
    {S : Type 0} → Policies.Policies PoliciesRegistry → Start S PoliciesRegistry
need_policies (Policies.loaded p) s = (s, inr p)
need_policies (Policies.failed error) s = (s, inl (policies_error error))

abbrev pub need_router : {S : Type 0} → Load RouterPromptBuilder → Start S RouterPromptBuilder
need_router (Load.loaded builder) s = (s, inr builder)
need_router (Load.failed error) s = (s, inl (router_error error))

abbrev pub built : Load RouterPromptConfig → Load RouterPromptBuilder
built (Load.loaded config) = Load.loaded (Router.new config)
built (Load.failed error) = Load.failed error

-- `RouterPromptBuilder(load_router_prompt(path))`
unfoldable pub load_builder : RawConfig → Load RouterPromptBuilder
unfolding Load.load_router_prompt_from_dict Router.new
load_builder raw = built (Load.load_router_prompt_from_dict raw)

module _ {Pool Redis Registry : Type 0} where
  abbrev pub set_state :
      (AppState Pool Redis Registry → AppState Pool Redis Registry)
      → Start (App Pool Redis Registry) (Unit {0})
  set_state f app = (record app { state = f app.state }, inr tt)

  unfoldable pub set_shared_dependencies :
      RouterPromptBuilder → PoliciesRegistry → Start (App Pool Redis Registry) (Unit {0})
  set_shared_dependencies builder policies app = (
    record app { shared_router_prompt_builder = some builder; shared_policies = some policies },
    inr tt,
  )

  -- `configure` of specialist_tools.py
  abbrev pub configure_specialist : Start (App Pool Redis Registry) (Unit {0})
  configure_specialist app = (record app { specialist_configured = true }, inr tt)

  -- The start of `lifespan`, on what its calls give: a call that raises is none, like a file that is not
  -- there.
  unfoldable pub start :
      Option Pool
      → Option Redis
      → Option Registry
      → Policies.Policies PoliciesRegistry
      → Option (Load RouterPromptBuilder)
      → Start (App Pool Redis Registry) (Unit {0})
  unfolding set_shared_dependencies
  start create_asyncpg_pool create_redis_pool registry policies_loaded router_loaded = do
    db_pool ← need db_error create_asyncpg_pool
    set_state λ s. record s { db_pool = some db_pool }
    redis ← need redis_error create_redis_pool
    set_state λ s. record s { redis = some redis }
    thresholds ← need registry_error registry
    set_state λ s. record s { registry = some thresholds }
    policies ← need_policies policies_loaded
    set_state λ s. record s { policies = some policies }
    read ← need router_file_not_found router_loaded
    builder ← need_router read
    set_state λ s. record s { router_prompt_builder = some builder }
    set_shared_dependencies builder policies
    set_state λ s. record s {
      call_repo = some db_pool;
      turn_repo = some db_pool;
      agent_gen_repo = some db_pool;
      voice_gen_repo = some db_pool;
    }
    configure_specialist

  unfoldable pub lifespan :
      Option Pool
      → Option Redis
      → Option Registry
      → Option PoliciesFile
      → Option RawConfig
      → Start (App Pool Redis Registry) (Unit {0})
  unfolding start load_builder Policies.load_policies
  lifespan create_asyncpg_pool create_redis_pool registry policies_file router_file =
      start create_asyncpg_pool create_redis_pool registry (Policies.load_policies policies_file)
        (Option.map load_builder router_file)

  -- `close` of specialist_tools.py
  abbrev pub close_specialist : App Pool Redis Registry → App Pool Redis Registry
  close_specialist app = record app { specialist_configured = false }

  -- The application before its start.
  unfoldable pub create_app : App Pool Redis Registry
  create_app = record {
    state = record {
      db_pool = none;
      redis = none;
      registry = none;
      policies = none;
      router_prompt_builder = none;
      call_repo = none;
      turn_repo = none;
      agent_gen_repo = none;
      voice_gen_repo = none;
      models_loaded = none;
    };
    shared_router_prompt_builder = none;
    shared_policies = none;
    specialist_configured = false;
  }

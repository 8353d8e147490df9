-- ===== src/App/Started.antt =====
-- What the start of backend/src/main.py leaves behind.
use event_driven_ai_voice.Router.{RouterPromptBuilder}
use event_driven_ai_voice.Prelude.{
  Option, Text, codes, inr, none, refl, some, ◌≡◌, ◌⊎◌, ap, arith, sym, [], lookup, ◌∙◌,
}
use mathlib.Core.Option
use event_driven_ai_voice.App.{
  start, App, AppState, StartError, lifespan, create_app, load_builder, set_shared_dependencies,
}
use event_driven_ai_voice.Router.Policies.Total.{load-get_instructions}
use event_driven_ai_voice.App.Health.{health_check}
use event_driven_ai_voice.Router.Policies
use event_driven_ai_voice.Router.Policies.{PoliciesFile, load_policies, PoliciesRegistry}
use event_driven_ai_voice.Router.Load.{RawConfig, Load}

module _ {Pool Redis Registry : Type 0} where
  models-start :
      (db_pool : Option Pool) (redis : Option Redis) (registry : Option Registry)
      (policies : Policies.Policies PoliciesRegistry) (router : Option (Load RouterPromptBuilder))
      (app : App Pool Redis Registry)
      → (start db_pool redis registry policies router app).0.state.models_loaded
        ≡ app.state.models_loaded
  unfolding start set_shared_dependencies
  models-start none redis registry policies router app = refl
  models-start (some p) none registry policies router app = refl
  models-start (some p) (some r) none policies router app = refl
  models-start (some p) (some r) (some t) (Policies.failed e) router app = refl
  models-start (some p) (some r) (some t) (Policies.loaded ps) none app = refl
  models-start (some p) (some r) (some t) (Policies.loaded ps) (some (Load.failed e)) app = refl
  models-start (some p) (some r) (some t) (Policies.loaded ps) (some (Load.loaded b)) app = refl

  -- A start that returns has everything that it needs, and shares it.
  start_returned :
      (db_pool : Option Pool) (redis : Option Redis) (registry : Option Registry)
      (policies : Policies.Policies PoliciesRegistry) (router : Option (Load RouterPromptBuilder))
      (app app' : App Pool Redis Registry)
      → start db_pool redis registry policies router app ≡ (app', inr tt)
      → (p : PoliciesRegistry) × (b : RouterPromptBuilder) × (policies ≡ Policies.loaded p)
        × (router ≡ some (Load.loaded b))
        × (app'.shared_policies ≡ some p)
        × (app'.shared_router_prompt_builder ≡ some b)
  unfolding start set_shared_dependencies
  start_returned none redis registry policies router app app' e = cc
  start_returned (some p) none registry policies router app app' e = cc
  start_returned (some p) (some r) none policies router app app' e = cc
  start_returned (some p) (some r) (some t) (Policies.failed x) router app app' e = cc
  start_returned (some p) (some r) (some t) (Policies.loaded ps) none app app' e = cc
  start_returned (some p) (some r) (some t) (Policies.loaded ps) (some (Load.failed x)) app app' e =
      cc
  start_returned (some p) (some r) (some t) (Policies.loaded ps) (some (Load.loaded b)) app app' e =
      (
        ps,
        b,
        refl,
        refl,
        ap (λ (x : App Pool Redis Registry × (StartError ⊎ Unit {0})). x.0.shared_policies) (sym e),
        ap
            (λ (x : App Pool Redis Registry × (StartError ⊎ Unit {0})).
              x.0.shared_router_prompt_builder)
            (sym e),
      )

  degraded :
      (select_1 : Pool → Option Text) (ping : Redis → Option Text)
      (state : AppState Pool Redis Registry)
      → state.models_loaded ≡ none
      → (health_check select_1 ping state).status ≡ codes "degraded"
  unfolding health_check
  degraded select_1 ping state h = ground arith

  -- After the start of the application, whether it succeeds or raises on its way, the health check
  -- reports "degraded", also where the database and Redis answer: nothing in the start tells that models
  -- were loaded.
  pub health_check-lifespan :
      (select_1 : Pool → Option Text) (ping : Redis → Option Text) (db_pool : Option Pool)
      (redis : Option Redis) (registry : Option Registry) (policies_file : Option PoliciesFile)
      (router_file : Option RawConfig)
      → (health_check select_1 ping
          (lifespan db_pool redis registry policies_file router_file create_app).0.state).status
        ≡ codes "degraded"
  unfolding create_app lifespan
  health_check-lifespan select_1 ping db_pool redis registry policies_file router_file =
      degraded select_1 ping _ (
        models-start db_pool redis registry (load_policies policies_file)
          (Option.map load_builder router_file) create_app)

  -- Once the start has returned, the calls share the router's prompts, and the policies that they share
  -- are the file's: for every policy key the instructions are those under the key in policies.yaml, so that
  -- no call meets a missing policy.
  pub get_policies-lifespan :
      (db_pool : Option Pool) (redis : Option Redis) (registry : Option Registry)
      (file : PoliciesFile) (router_file : Option RawConfig) (app : App Pool Redis Registry)
      (key : Policies.PolicyKey)
      → lifespan db_pool redis registry (some file) router_file create_app ≡ (app, inr tt)
      → ((b : RouterPromptBuilder) × (app.shared_router_prompt_builder ≡ some b))
        × ((v : Text) × (lookup (Policies.policy_value key) (Policies.raw_policies file)
              ≡ some (some v))
            × (Policies.get_instructions key (Policies.get_policies app.shared_policies) ≡ some v))
  unfolding lifespan
  get_policies-lifespan db_pool redis registry file router_file app key e =
      let (p, b, policies, router, shared, builder) =
        start_returned db_pool redis registry (load_policies (some file))
          (Option.map load_builder router_file) create_app app e in
      let (v, there, gets, _) = load-get_instructions file p key [] policies in
      (
        (b, builder),
        (v, there, ap (λ o. Policies.get_instructions key (Policies.get_policies o)) shared ∙ gets),
      )

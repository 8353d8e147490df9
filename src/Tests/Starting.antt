-- ===== src/Tests/Starting.antt =====
-- The start of the application at a concrete configuration.
use event_driven_ai_voice.Prelude.{Option, Text, codes, lookup, none, refl, some, inr, ◌≡◌}
use event_driven_ai_voice.Router.{RouterPromptBuilder}
use event_driven_ai_voice.Router.Load
use event_driven_ai_voice.Router.Policies
use event_driven_ai_voice.App.{
  App, create_app, lifespan, start, load_builder, set_shared_dependencies,
}
use event_driven_ai_voice.App.Health.{health_check}
use event_driven_ai_voice.App.Started.{get_policies-lifespan, health_check-lifespan}
use event_driven_ai_voice.Tests.Actors.{file}
use event_driven_ai_voice.Tests.Routing.{raw_config}

abbrev U : Type 0
U = Unit

abbrev answers : U → Option Text
answers _ = none

abbrev app : App U U U
app = (lifespan (some tt) (some tt) (some tt) (some file) (some raw_config) create_app).0

-- The start returns.
app-started :
    lifespan (some tt) (some tt) (some tt) (some file) (some raw_config) create_app ≡ (app, inr tt)
unfolding lifespan start load_builder set_shared_dependencies Policies.load_policies
    Load.load_router_prompt_from_dict
app-started = refl

get_policies-lifespan_example :
    ((b : RouterPromptBuilder) × (app.shared_router_prompt_builder ≡ some b))
    × ((v : Text) × (lookup (Policies.policy_value Policies.greeting) (Policies.raw_policies file)
          ≡ some (some v))
        × (Policies.get_instructions Policies.greeting (Policies.get_policies app.shared_policies)
            ≡ some v))
get_policies-lifespan_example =
    get_policies-lifespan (some tt) (some tt) (some tt) file (some raw_config) app Policies.greeting
      app-started

-- Every probe answers.
health_check-lifespan_example :
    (health_check answers answers
      (lifespan
        (some tt)
        (some tt)
        (some tt)
        (some file)
        (some raw_config)
        create_app).0.state).status
    ≡ codes "degraded"
health_check-lifespan_example =
    health_check-lifespan answers answers (some tt) (some tt) (some tt) (some file)
      (some raw_config)

-- ===== src/App/Health.antt =====
-- backend/src/api/routes/health.py.
use event_driven_ai_voice.Prelude.{
  Bool, Option, Text, codes, false, if◌then◌else◌, none, some, true, ◌&&◌,
}
use event_driven_ai_voice.App.{AppState}

-- A value of `checks`.
pub data Check : Type 0 where
  check_ok not_configured not_loaded : Check
  check_error : Text → Check

pub record Health : Type 0 where
  pub status : Text
  pub database : Check
  pub redis : Check
  pub models : Check

-- A probe that raises gives the exception's text.
abbrev pub probed : Option Text → Check
probed none = check_ok
probed (some error) = check_error error

abbrev pub check_client : {Client : Type 0} → (Client → Option Text) → Option Client → Check
check_client probe none = not_configured
check_client probe (some client) = probed (probe client)

-- `getattr(state, "models_loaded", False)`
abbrev pub check_models : Option Bool → Check
check_models (some true) = check_ok
check_models _ = not_loaded

-- `v == "ok" or v == "not_configured"`
abbrev pub passes : Check → Bool
passes check_ok = true
passes not_configured = true
passes _ = false

module _ {Pool Redis Registry : Type 0} (select_1 : Pool → Option Text)
    (ping : Redis → Option Text) where
  unfoldable pub health_check : AppState Pool Redis Registry → Health
  health_check state =
      let database = check_client select_1 state.db_pool in
      let redis = check_client ping state.redis in
      let models = check_models state.models_loaded in
      record {
        status =
            if passes database && (passes redis && passes models)
            then codes "healthy"
            else codes "degraded";
        database = database;
        redis = redis;
        models = models;
      }

-- ===== src/Tests/Access.antt =====
-- Requests with and without a key, and a process that makes its engine.
use spur_api.Base.{ℕ, ◌≡◌, refl, true, none, some, [], ◌∷◌}
use spur_api.Base.Int.{pos}
use spur_api.Settings.{Settings, default_settings}
use spur_api.Runs.Results.{failure}
use spur_api.Api.App.{Service, Call, app}
use spur_api.Api.Access.{IsTurnedAway, keyless-IsTurnedAway, reads_change_nothing}
use spur_api.Sessions.{
  Engine, SessionFactory, at_import, get_engine, get_session_factory, configures, gets_factory,
  use_all,
}
use spur_api.Sessions.Pairing.{factory_of_engine}
use spur_api.Tests.Samples.{outside, submitted, requests}

abbrev locked : Settings
locked = record default_settings { auth_enabled = true; api_keys = "k" ∷ [] }

abbrev service : Service ℕ
service = record {
  hexdigest = λ s. s;
  outside = outside;
  uuid = 30;
  now = 200;
  database_check = none;
  redis_check = none;
  validate = λ body. record { valid = true; issues = [] };
  envelope_issues = λ body. [];
  analyze = λ events spec threshold. failure "";
  catalog = 0;
}

keyless-IsTurnedAway_example :
    IsTurnedAway service locked submitted
      (app service locked none (Call.delete_project 7) submitted)
unfolding requests
keyless-IsTurnedAway_example =
    keyless-IsTurnedAway service locked none (Call.delete_project 7) submitted refl
      (λ e. absurd (cc e)) λ on p h. absurd (cc (h.2))

reads_change_nothing_example :
    (app service default_settings none
      (Call.get_run_visits 20 none none (pos 5) (pos 0))
      submitted).1
    ≡ submitted
unfolding requests
reads_change_nothing_example =
    reads_change_nothing service default_settings none
      (Call.get_run_visits 20 none none (pos 5) (pos 0)) submitted tt

factory_of_engine_example :
    let g = use_all default_settings (gets_factory ∷ configures "scratch" ∷ []) at_import in
    (engine : Engine) × (factory : SessionFactory) × ((get_session_factory default_settings g).0
      ≡ some factory)
    × ((get_engine default_settings g).0 ≡ some engine)
    × (factory.bind ≡ engine)
    × (engine.database_url ≡ "scratch")
factory_of_engine_example =
    factory_of_engine default_settings (gets_factory ∷ configures "scratch" ∷ [])

-- ===== src/Api/App.antt =====
-- `create_app` of spur_api/main.py: the routers with their dependencies, and the routes under them.
use spur_api.Base.{ℕ, String, Bool, true, false, Option, none, some, List, [], ◌∷◌, if◌then◌else◌}
use spur_api.Base.Int.{ℤ}
use spur_api.Json.{Json, Fields}
use spur_api.Database.{State, RunStatus, Issue, ValidationResult}
use spur_api.Action.{unhandled}
use spur_api.Settings.{Settings}
use spur_api.Spur.{SimEvent}
use spur_api.Projects.{ProjectCreate, Project}
use spur_api.Projects.Listing.{ProjectSummary}
use spur_api.Runs.{Run}
use spur_api.Runs.Schema.{RunCreate}
use spur_api.Runs.Submit.{Outside}
use spur_api.Runs.Results.{Analyzed, Analysis, RunSummary, Visit, Narrowing}
use spur_api.Api.{Response, sent, failed, refused}
use spur_api.Api.Auth.{Principal, principal, unauthorized, crash, current_principal}
use spur_api.Api.Health
use spur_api.Api.Health.{Checks}
use spur_api.Api.Routes
use spur_api.Api.Routes.{Handler}
use spur_api.Api.Validate.{validate_project}

pub data Router : Type 0 where
  health projects runs validate catalog : Router

-- A request, by the route that takes it, with its path, query and body
pub data Call : Type 0 where
  healthz readyz get_catalog : Call
  validate_body : Json → Call
  create_project : ProjectCreate → Option ℕ → Call
  list_projects : ℤ → ℤ → Option ℕ → Call
  get_project delete_project : ℕ → Call
  update_project : ℕ → ProjectCreate → Option String → Call
  submit_run : ℕ → RunCreate → Call
  get_run cancel_run delete_run : ℕ → Call
  list_runs : Option ℕ → Option RunStatus → Option ℕ → Call
  rename_run : ℕ → Option String → Call
  get_run_events : ℕ → Narrowing → ℤ → ℤ → Call
  get_run_summary : ℕ → ℤ → Call
  get_run_visits : ℕ → Option String → Option String → ℤ → ℤ → Call

abbrev pub router_of : Call → Router
router_of Call.healthz = health
router_of Call.readyz = health
router_of Call.get_catalog = catalog
router_of (Call.validate_body body) = validate
router_of (Call.create_project body base) = projects
router_of (Call.list_projects limit offset base) = projects
router_of (Call.get_project i) = projects
router_of (Call.delete_project i) = projects
router_of (Call.update_project i body if_match) = projects
router_of _ = runs

-- `app.include_router(...)`, with `dependencies=[Depends(current_principal)]` or without
abbrev pub needs_principal : Router → Bool
needs_principal health = false
needs_principal projects = true
needs_principal runs = true
needs_principal validate = true
needs_principal catalog = true

pub record CorsMiddleware : Type 0 where
  pub allow_origins : List String
  pub allow_methods : List String
  pub allow_headers : List String

abbrev pub cors_for : List String → Option CorsMiddleware
cors_for [] = none
cors_for (origin ∷ origins) = some record {
  allow_origins = origin ∷ origins;
  allow_methods = "*" ∷ [];
  allow_headers = "Authorization" ∷ "Content-Type" ∷ [];
}

abbrev pub middleware : Settings → Option CorsMiddleware
middleware settings = cors_for settings.cors_origins

-- What the routes take from outside for one request: a new UUID, the time, what the checks of the
-- database and of Redis raise, and the libraries
pub record Service (Catalog : Type 0) : Type 0 where
  pub hexdigest : String → String
  pub outside : Outside
  pub uuid : ℕ
  pub now : ℕ
  pub database_check : Option String
  pub redis_check : Option String
  pub validate : Json → ValidationResult
  pub envelope_issues : Fields → List Issue
  pub analyze : List SimEvent → Fields → ℤ → Analyzed Analysis
  pub catalog : Catalog

pub data Reply (Catalog : Type 0) : Type 0 where
  status : String → Reply Catalog
  checks : Checks → Reply Catalog
  of_catalog : Catalog → Reply Catalog
  validation : ValidationResult → Reply Catalog
  project : Project → Reply Catalog
  projects : List ProjectSummary → Reply Catalog
  run : Run → Reply Catalog
  runs : List Run → Reply Catalog
  events : List SimEvent → Reply Catalog
  summary : RunSummary → Reply Catalog
  visits : List Visit → Reply Catalog
  nothing : Reply Catalog

abbrev pub reply : {A B : Type 0} → (A → B) → Response A × State → Response B × State
reply f (sent code a, s) = (sent code (f a), s)
reply f (failed code e, s) = (failed code e, s)
reply f (refused code text, s) = (refused code text, s)

module _ {C : Type 0} (service : Service C) where
  -- The route's function, once its dependencies are there
  unfoldable pub dispatch : String → Call → Handler (Reply C)
  dispatch user Call.healthz s = (sent 200 (Reply.status "ok"), s)
  dispatch user Call.readyz s =
      let (code, body) = Health.readyz service.database_check service.redis_check in
      (sent code (Reply.checks body), s)
  dispatch user Call.get_catalog s = (sent 200 (Reply.of_catalog service.catalog), s)
  dispatch user (Call.validate_body body) s = (
    sent 200 (Reply.validation (validate_project service.validate service.envelope_issues body)),
    s,
  )
  dispatch user (Call.create_project body base) s =
      reply Reply.project (Routes.post_project service.uuid service.now body base user s)
  dispatch user (Call.list_projects limit offset base) s =
      reply Reply.projects (Routes.get_projects limit offset base s)
  dispatch user (Call.get_project i) s = reply Reply.project (Routes.get_one_project i s)
  dispatch user (Call.delete_project i) s =
      reply (λ done. Reply.nothing) (Routes.remove_project i s)
  dispatch user (Call.update_project i body if_match) s =
      reply Reply.project (Routes.put_project service.now i body if_match s)
  dispatch user (Call.submit_run i body) s =
      reply Reply.run (Routes.post_run service.outside i body s)
  dispatch user (Call.get_run i) s = reply Reply.run (Routes.get_one_run i s)
  dispatch user (Call.cancel_run i) s = reply Reply.run (Routes.cancel_run i s)
  dispatch user (Call.delete_run i) s = reply (λ done. Reply.nothing) (Routes.remove_run i s)
  dispatch user (Call.list_runs project_id wanted batch_id) s =
      reply Reply.runs (Routes.get_runs project_id wanted batch_id s)
  dispatch user (Call.rename_run i name) s = reply Reply.run (Routes.patch_run i name s)
  dispatch user (Call.get_run_events i q limit offset) s =
      reply Reply.events (Routes.get_events i q limit offset s)
  dispatch user (Call.get_run_summary i threshold) s =
      reply Reply.summary (Routes.get_summary service.analyze i threshold s)
  dispatch user (Call.get_run_visits i train component limit offset) s =
      reply Reply.visits (Routes.get_visits service.analyze i train component limit offset s)

  abbrev pub with_principal : Principal → Call → Handler (Reply C)
  with_principal (principal user) call s = dispatch user call s
  with_principal (unauthorized text) call s = (refused 401 text, s)
  with_principal crash call s = (failed 500 (unhandled "TypeError"), s)

  -- A request with its `Authorization` header
  unfoldable pub app : Settings → Option String → Call → Handler (Reply C)
  unfolding dispatch current_principal
  app settings authorization call s =
      if needs_principal (router_of call)
      then with_principal (current_principal service.hexdigest settings authorization) call s
      else dispatch "" call s

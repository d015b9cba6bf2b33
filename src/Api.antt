-- ===== src/Api.antt =====
-- The HTTP layer of spur_api/main.py and spur_api/routers: the answers, and the checks of the routes.
pub mod Auth
pub mod IfMatch
pub mod Routes
pub mod Health
pub mod Validate
pub mod Catalog
pub mod App
pub mod Access
pub mod Limits
use spur_api.Base.{ℕ, String, Bool, ◌&&◌, Option, none, some}
use spur_api.Database.{State}
use spur_api.Action.{
  Error, Result, ok, err, not_found, stale_project, invalid_project, project_invalid, run_not_ready,
  run_analysis, unhandled,
}

-- The exception handlers of `create_app`, by the status that they answer with; what no handler takes
-- is a 500.
abbrev pub status_of : Error → ℕ
status_of (not_found resource i) = 404
status_of (stale_project i version expected) = 412
status_of (invalid_project text) = 422
status_of (project_invalid i errors issues) = 422
status_of (run_not_ready i) = 409
status_of (run_analysis i text) = 422
status_of (unhandled text) = 500

-- An answer, a refusal by a service, or one by a route itself.
pub data Response (A : Type 0) : Type 0 where
  sent : ℕ → A → Response A
  failed : ℕ → Error → Response A
  refused : ℕ → String → Response A

-- A route with the status of its success.
abbrev pub respond : {A : Type 0} → ℕ → Result A × State → Response A × State
respond status (ok a, s) = (sent status a, s)
respond status (err e, s) = (failed (status_of e) e, s)

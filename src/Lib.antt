-- ===== src/Lib.antt =====
-- The spur-api service: projects of the railway simulator spur are stored, edited under a version
-- precondition and run in the background, and the results of the runs are read.
--
-- Parts, and the files that model them (paths from the repository's root):
--   spur_api/db/models.py: Database (the rows and the state that requests and the job share: the three
--     tables and the jobs in Redis) and Table (rows under a key: get, insert, save, remove).
--   spur_api/exceptions.py: Action. A service function is an action, State -> Result A x State; what was
--     committed before a raise stays, so that the state comes back too.
--   spur_api/services/projects_service.py: Json, Inputs (_without_nulls, _inputs_differ), Projects
--     (create_project, get_project, update_project, delete_project) and Projects/Listing (list_projects).
--   spur_api/services/runs_service.py: Runs (get_run, list_runs, rename_run, delete_run,
--     request_cancel), Runs/Submit (submit_run) and Runs/Results (get_run_events, get_run_summary,
--     get_run_visits).
--   spur_api/schemas: the records of Projects and Runs, and Runs/Schema (RunCreate, RunName).
--   spur_api/worker/runner.py: Horizon (derive_until) and Worker/Runner (SpurRunner).
--   spur_api/worker/tasks.py: Worker/Tasks (run_simulation, on_chunk, is_cancelled); a job that
--     arq stops, whose CancelledError passes by the except branch, is in Worker/Tasks/Stopped.
--   spur_api/worker/settings.py: Worker/Queue.
--   spur_api/config.py: Settings. spur_api/db/session.py: Sessions. spur_api/auth.py: Api/Auth.
--   spur_api/main.py: Api (the handlers of exceptions) and Api/App (create_app).
--   spur_api/routers: Api/Routes (projects.py, runs.py), Api/IfMatch (_version_from), Api/Validate,
--     Api/Health and Api/Catalog.
--   alembic: Migrations/Revisions (the revisions, each as the statements of its upgrade and its
--     downgrade) and Migrations/Environment (env.py); Migrations/Declared has the tables that models.py
--     declares, and Migrations/Rows its rows as columns and values.
-- Base and Text hold what they share: lists, sorting, pages, signed integers, str.strip and int.
--
-- How the parts interact: Requests has a step for each request that changes the state and for each
-- commit of a job; Consistency is the invariant of the tables. The job of Worker/Tasks runs
-- Worker/Runner with callbacks on the tables; before each check for cancellation, other requests may
-- change the tables, as a list of functions that the job is given. Its events are read back by
-- Runs/Results. A commit of the job that fails leaves its session broken, and a broken session refuses
-- the next commit, as SQLAlchemy documents. Worker/Queue takes the jobs that Runs/Submit queued, one
-- after the other. Projects/Store is what the service promises of projects, without the tables.
-- Api/App stands before all of it: the key, then the route.
--
-- The migrations act on tables, rows of columns and values, indexes and enum types.
-- Migrations/Statements says what a statement does to them in SQL, and when Postgres refuses it.
--
-- From outside, as parameters: spur's validate, its analyze and its model (Spur, with HasClock for the
-- documented behaviour of its clock and HasPauses for what pausing it relies on), Redis, UUIDs, times,
-- secrets.randbelow, spur's catalog and SHA-256.
--
-- Fuel: the loop of SpurRunner.run has one more than the distance from the clock to the target. Each
-- chunk that runs brings the clock nearer, or raises, so this is enough.
--
-- Not modelled: requests and the commits of a job are atomic steps, without two transactions that
-- overlap; an UPDATE of a row that was deleted is taken to fail also where it would change nothing;
-- what Postgres refuses of a value (column widths, a NUL in a text), but for the query of events and
-- the seeds; the limit of 4300 digits in Python's int, and digits in it that are not ASCII; the
-- order of list_runs, which the query leaves open; a deletion_time that is not an int, which is
-- refused at once here; the texts of messages; a job that arq stops at another await than a check
-- for cancellation, and how it queues a job again; the answers of the CORS middleware, of which
-- there is only the configuration; the pool of Redis connections; a body that is no JSON, which is
-- refused before the key is looked at; the offline mode of the migrations.
pub mod Base
pub mod Text
pub mod Json
pub mod Migrations
pub mod Inputs
pub mod Database
pub mod Action
pub mod Table
pub mod Settings
pub mod Sessions
pub mod Horizon
pub mod Projects
pub mod Runs
pub mod Consistency
pub mod Requests
pub mod Spur
pub mod Worker
pub mod Api
mod Tests

-- ===== src/Api/Routes.antt =====
-- The routes of spur_api/routers/projects.py and of spur_api/routers/runs.py.
use spur_api.Base.{
  ℕ, leb, Bool-cases, inl, inr, ◌≡◌, refl, String, Bool, true, false, ◌&&◌, Option, none, some,
  List, arith, ◌==◌, if◌then◌else◌,
}
use spur_api.Base.Int.{ℤ, pos, negsuc}
use spur_api.Database.{RunStatus, ProjectRow, State}
use spur_api.Action.{stale_project}
use spur_api.Spur.{SimEvent}
use spur_api.Projects.{
  ProjectCreate, Project, to_schema, find_project, save_project, saved_row, is_stale,
  update_project, create_project, get_project, delete_project,
}
use spur_api.Projects.Branches.{update_project-saves, update_project-stale}
use spur_api.Projects.Listing.{ProjectSummary, list_projects}
use spur_api.Runs.{Run, rename_run, get_run, delete_run, request_cancel, list_runs}
use spur_api.Runs.Schema.{RunCreate, read_body, run_name}
use spur_api.Runs.Submit.{Outside, Submission, submit_run}
use spur_api.Json.{Fields}
use spur_api.Runs.Results.{
  Analyzed, Analysis, RunSummary, Visit, get_run_summary, get_run_visits, Narrowing, get_run_events,
}
use spur_api.Api.{Response, sent, failed, refused, respond}
use spur_api.Api.IfMatch.{
  Version, version, bad_version, version_from, IsNumeral, value_of, quoted, version_from_lem,
}

abbrev pub Handler : Type 0 → Type 0
Handler A = State → Response A × State

abbrev pub refuse : {A : Type 0} → ℕ → String → Handler A
refuse status detail s = (refused status detail, s)

-- `Query(ge=…, le=…)` with a lower bound that is not negative
abbrev pub in_bounds : ℕ → ℕ → ℤ → Bool
in_bounds least most (pos n) = leb least n && leb n most
in_bounds least most (negsuc n) = false

abbrev pub at_most : ℕ → ℤ → Bool
at_most most (pos n) = leb n most
at_most most (negsuc n) = true

abbrev pub is_natural : ℤ → Bool
is_natural (pos n) = true
is_natural (negsuc n) = false

abbrev pub magnitude : ℤ → ℕ
magnitude (pos n) = n
magnitude (negsuc n) = 0

abbrev pub post_project : ℕ → ℕ → ProjectCreate → Option ℕ → String → Handler Project
post_project id now body base principal s =
    respond 201 (create_project id now body (some principal) base s)

unfoldable pub get_projects : ℤ → ℤ → Option ℕ → Handler (List ProjectSummary)
get_projects limit offset base s =
    if in_bounds 1 1000 limit && is_natural offset
    then respond 200 (list_projects (magnitude limit) (magnitude offset) base s)
    else refuse 422 "Input should be in bounds" s

abbrev pub get_one_project : ℕ → Handler Project
get_one_project i s = respond 200 (get_project i s)

abbrev pub with_version : ℕ → ℕ → ProjectCreate → Version → Handler Project
with_version now i body (version expected) s = respond 200 (update_project now i body expected s)
with_version now i body bad_version s = refuse 400 "If-Match must be a project version, such as 3" s

unfoldable pub put_project : ℕ → ℕ → ProjectCreate → Option String → Handler Project
put_project now i body if_match s = with_version now i body (version_from if_match) s

abbrev pub remove_project : ℕ → Handler (Unit {0})
remove_project i s = respond 204 (delete_project i s)

abbrev pub with_body : Outside → ℕ → Option Submission → Handler Run
with_body o i (some body) s = respond 202 (submit_run o i body s)
with_body o i none s = refuse 422 "Input should be in bounds" s

unfoldable pub post_run : Outside → ℕ → RunCreate → Handler Run
post_run o i body s = with_body o i (read_body body) s

abbrev pub with_name : ℕ → Option (Option String) → Handler Run
with_name i (some name) s = respond 200 (rename_run i name s)
with_name i none s = refuse 422 "String should have at most 200 characters" s

unfoldable pub patch_run : ℕ → Option String → Handler Run
patch_run i name s = with_name i (run_name name) s

abbrev pub get_one_run : ℕ → Handler Run
get_one_run i s = respond 200 (get_run i s)

abbrev pub cancel_run : ℕ → Handler Run
cancel_run i s = respond 200 (request_cancel i s)

abbrev pub remove_run : ℕ → Handler (Unit {0})
remove_run i s = respond 204 (delete_run i s)

-- `limit` has no lower bound here.
unfoldable pub get_events : ℕ → Narrowing → ℤ → ℤ → Handler (List SimEvent)
get_events i q limit offset s =
    if at_most 10000 limit && is_natural offset
    then respond 200 (get_run_events i q limit (magnitude offset) s)
    else refuse 422 "Input should be in bounds" s

abbrev pub get_runs : Option ℕ → Option RunStatus → Option ℕ → Handler (List Run)
get_runs project_id status batch_id s = respond 200 (list_runs project_id status batch_id s)

module _ (analyze : List SimEvent → Fields → ℤ → Analyzed Analysis) where
  unfoldable pub get_summary : ℕ → ℤ → Handler RunSummary
  get_summary i on_time_threshold s =
      if is_natural on_time_threshold
      then respond 200 (get_run_summary analyze i on_time_threshold s)
      else refuse 422 "Input should be in bounds" s

  unfoldable pub get_visits : ℕ → Option String → Option String → ℤ → ℤ → Handler (List Visit)
  get_visits i train_uid component_uid limit offset s =
      if in_bounds 1 10000 limit && is_natural offset
      then respond 200
          (get_run_visits analyze i train_uid component_uid (magnitude limit) (magnitude offset) s)
      else refuse 422 "Input should be in bounds" s

with_version-sent :
    (now i : ℕ) (body : ProjectCreate) (s : State) (p : ProjectRow) (v : ℕ)
    → find_project i s ≡ some p
    → let row = saved_row now body p in
      let answer : Response Project × State =
        if v == p.version
        then (sent 200 (to_schema row), save_project row s)
        else (failed 412 (stale_project i p.version (pos v)), s) in
      with_version now i body (version (some (pos v))) s ≡ answer
with_version-sent now i body s p v found = elim (Bool-cases (v == p.version)) [
  | inl current ↦
      let fine : is_stale (some (pos v)) p.version ≡ false = ground arith in
      rw (current, update_project-saves i s p found now body (some (pos v)) fine) refl
  | inr old ↦
      let stale : is_stale (some (pos v)) p.version ≡ true = ground arith in
      rw (old, update_project-stale i s p found now body (some (pos v)) stale) refl
]

-- A save of a stored project with If-Match in digits, bare or as a quoted ETag, goes ahead with a
-- 200 exactly where the number sent is the project's version, and is else refused with a 412 that
-- tells the version, and nothing is changed.
pub put_project_if_match :
    (now i : ℕ) (body : ProjectCreate) (s : State) (p : ProjectRow) (digits : String)
    → find_project i s ≡ some p
    → IsNumeral digits
    → let sent_version = value_of 0 digits in
      let row = saved_row now body p in
      let answer : Response Project × State =
        if sent_version == p.version
        then (sent 200 (to_schema row), save_project row s)
        else (failed 412 (stale_project i p.version (pos sent_version)), s) in
      (put_project now i body (some digits) s ≡ answer)
      × (put_project now i body (some (quoted digits)) s ≡ answer)
unfolding put_project
put_project_if_match now i body s p digits found numeral =
    let (bare, etag) = version_from_lem digits numeral in
    let answered = with_version-sent now i body s p (value_of 0 digits) found in
    (rw bare answered, rw etag answered)

-- ===== src/Tests/Samples.antt =====
-- A small project, a submission for it, and the states that requests lead to.
use spur_api.Base.{ℕ, ◌+◌, String, true, none, some, [], arith}
use spur_api.Base.Int.{ℤ, pos}
use spur_api.Json.{Json, Fields, null, num, str, arr, obj, nil, cons, done, field, eq_json}
use spur_api.Json.Equality.{IsDictFields}
use spur_api.Settings.{default_settings}
use spur_api.Database.{ProjectRow, SimulationRunRow, State, empty}
use spur_api.Inputs.{inputs_differ, section_differs}
use spur_api.Json.Nulls.{without_nulls}
use spur_api.Horizon.{derive_until}
use spur_api.Table
use spur_api.Projects.{
  ProjectCreate, new_row, saved_row, create_project, update_project, delete_project, get_project,
}
use spur_api.Base.Lists.{page}
use spur_api.Base.Sort.{sort_by, insert_by}
use spur_api.Projects.Listing.{
  ProjectSummary, list_projects, summaries, summary, listed, comes_before,
}
use spur_api.Runs.{get_row, delete_run, rename_run, request_cancel}
use spur_api.Runs.Submit.{
  Outside, Submission, run_row, run_rows, insert_all, record_jobs, first_seed, submit_run,
}

abbrev pub tour : ℤ → Json
tour end = obj (field "name" (str "T") (field "deletion_time" (num end 0) done))

abbrev pub spec : Json → Fields
spec capacity = field "type" (str "SpurProject") (
    field "components"
      (arr (cons (obj (field "uid" (str "A") (field "capacity" capacity done))) nil))
      (field "tours" (arr (cons (tour (pos 3600)) (cons (tour (pos 1800)) nil))) done))

abbrev pub body_of : String → Json → ProjectCreate
body_of name capacity = record { name = some name; spur_version = "1.0"; dump = spec capacity }

-- One save as an editor sends it, the same as it comes back from the API, and one with more capacity.
abbrev pub first_body : ProjectCreate
first_body = record { name = some "Line 4"; spur_version = "1.0"; dump = spec (num (pos 2) 0) }

abbrev pub null_body : ProjectCreate
null_body = record {
  name = some "Renamed";
  spur_version = "1.0";
  dump = field "routes" null (field "extensions" (obj done) (spec (num (pos 4) 1)));
}

abbrev pub changed_body : ProjectCreate
changed_body = body_of "Renamed" (num (pos 3) 0)

pub first_body-IsDict : IsDictFields first_body.dump
unfolding IsDictFields
first_body-IsDict = ground arith

pub null_body-IsDict : IsDictFields null_body.dump
unfolding IsDictFields
null_body-IsDict = ground arith

pub changed_body-IsDict : IsDictFields changed_body.dump
unfolding IsDictFields
changed_body-IsDict = ground arith

-- Every spec is valid, and every job is queued.
abbrev pub outside : Outside
outside = record {
  validate = λ spec. record { valid = true; issues = [] };
  settings = default_settings;
  run_id = λ i. 20 + i;
  batch_id = 50;
  now = 101;
  randbelow = λ n. 0;
  enqueue = λ i. some (some "job");
}

abbrev pub submission : Submission
submission = record { until = none; chunk_size = none; seed = some 41; name = none; seeds = 2 }

abbrev pub created : State
created = (create_project 7 100 first_body (some "key:1") none empty).1

abbrev pub submitted : State
submitted = (submit_run outside 7 submission created).1

abbrev pub renamed : State
renamed = (update_project 102 7 null_body (some (pos 1)) submitted).1

abbrev pub changed : State
changed = (update_project 103 7 changed_body none renamed).1

abbrev pub scenario : State
scenario = (create_project 8 104 changed_body none (some 7) changed).1

abbrev pub second_scenario : State
second_scenario = (create_project 9 105 first_body none (some 8) scenario).1

abbrev pub created_row : ProjectRow
created_row = new_row 7 100 first_body (some "key:1") none

abbrev pub renamed_row : ProjectRow
renamed_row = saved_row 102 null_body created_row

abbrev pub changed_row : ProjectRow
changed_row = saved_row 103 changed_body renamed_row

abbrev pub submitted_row : SimulationRunRow
submitted_row = record (run_row outside created_row submission (pos 3600) 41 0) {
  arq_job_id = some "job";
}

abbrev pub scenario_row : ProjectRow
scenario_row = new_row 8 104 changed_body none (some 7)

abbrev pub summary_of : ProjectRow → ProjectSummary
summary_of row = record {
  id = row.id;
  name = row.name;
  spur_version = row.spur_version;
  owner = row.owner;
  base_project_id = row.base_project_id;
  created_at = row.created_at;
  updated_at = row.updated_at;
  counts = record { components = 1; routes = 0; tours = 2; trains = 0 };
}

abbrev pub first_summary : ProjectSummary
first_summary = summary_of changed_row

abbrev pub scenario_summary : ProjectSummary
scenario_summary = summary_of scenario_row

-- A name to unfold: all that a request computes with.
unfoldable pub requests : ℕ
unfolding create_project update_project delete_project submit_run run_row run_rows insert_all
    record_jobs first_seed derive_until inputs_differ section_differs without_nulls eq_json
    Table.get Table.insert Table.save Table.remove get_row list_projects summaries summary listed
    comes_before sort_by insert_by page get_project delete_run rename_run request_cancel
requests = 0

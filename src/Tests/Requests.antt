-- ===== src/Tests/Requests.antt =====
-- Requests of the small project.
use spur_api.Base.{ℕ, ◌≤◌, ◌≡◌, refl, false, none, some, arith, ◌≢◌}
use spur_api.Base.Int.{pos}
use spur_api.Inputs.{inputs_differ}
use spur_api.Database.{ProjectRow, empty}
use spur_api.Action.{ok}
use spur_api.Projects.{find_project, update_project, to_schema, new_row}
use spur_api.Runs.{find_run}
use spur_api.Runs.Submit.{run_row}
use spur_api.Consistency.Runs.{HasNewIds}
use spur_api.Requests.{Reach, here, next, create, update, submit, empty-IsConsistent}
use spur_api.Requests.Promises.{run_up_to_date, run_of_project, scenario_of_base}
use spur_api.Requests.Locking.{save_once, at_once}
use spur_api.Tests.Samples.{
  first_body, null_body, changed_body, first_body-IsDict, null_body-IsDict, changed_body-IsDict,
  outside, submission, created, submitted, renamed, changed, scenario, second_scenario, created_row,
  renamed_row, changed_row, submitted_row, requests,
}

find_created : find_project 7 created ≡ some created_row
unfolding requests
find_created = refl

find_renamed : find_project 7 renamed ≡ some renamed_row
unfolding requests
find_renamed = refl

find_submitted : find_run 20 renamed ≡ some submitted_row
unfolding requests
find_submitted = refl

-- A rename raises the version and leaves the run up to date; more capacity makes it out of date.
versions :
    (renamed_row.version ≡ 2) × (renamed_row.inputs_version ≡ 1) × (changed_row.inputs_version ≡ 3)
unfolding requests
versions = (refl, refl, refl)

outside-HasNewIds : HasNewIds outside created
unfolding requests
outside-HasNewIds = record { distinct = λ i j e. omega arith; unused = λ i. refl }

created-Reach : Reach empty created
unfolding requests
created-Reach = next here (create 7 100 first_body (some "key:1") none first_body-IsDict refl)

renamed-Reach : Reach empty renamed
renamed-Reach =
    next (next created-Reach (submit outside 7 submission outside-HasNewIds))
      (update 102 7 null_body (some (pos 1)) null_body-IsDict)

run_up_to_date_example : inputs_differ first_body.dump null_body.dump ≡ false
unfolding run_row
run_up_to_date_example =
    run_up_to_date empty renamed empty-IsConsistent renamed-Reach 20 1 submitted_row renamed_row
      first_body.dump find_submitted find_renamed refl refl (unfold requests in omega arith)

changed-Reach : Reach empty changed
changed-Reach = next renamed-Reach (update 103 7 changed_body none changed_body-IsDict)

scenario-Reach : Reach empty scenario
unfolding requests
scenario-Reach =
    next changed-Reach (create 8 104 changed_body none (some 7) changed_body-IsDict refl)

second-Reach : Reach empty second_scenario
unfolding requests
second-Reach = next scenario-Reach (create 9 105 first_body none (some 8) first_body-IsDict refl)

run_of_project_example :
    (p : ProjectRow) × (find_project 7 renamed ≡ some p)
    × ((v : ℕ) → some 1 ≡ some v → v ≤ p.version)
unfolding run_row
run_of_project_example =
    run_of_project empty renamed empty-IsConsistent renamed-Reach 20 submitted_row find_submitted

scenario_of_base_example :
    (q : ProjectRow) × (find_project 7 second_scenario ≡ some q) × (q.base_project_id ≡ none)
unfolding requests
scenario_of_base_example =
    scenario_of_base empty second_scenario empty-IsConsistent second-Reach 9 7
      (new_row 9 105 first_body none (some 7)) refl refl

-- Two editors that loaded version 1: the second save is refused.
save_once_example :
    (update_project 103 7 changed_body (some (pos 1)) renamed).0 ≢ ok (to_schema changed_row)
unfolding requests
save_once_example =
    save_once 102 103 7 null_body changed_body (pos 1) submitted renamed (to_schema renamed_row)
      (to_schema changed_row) refl at_once

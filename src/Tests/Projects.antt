-- ===== src/Tests/Projects.antt =====
-- The theorems on projects, at the small project.
use mathlib.Core.List.{Perm}
use spur_api.Base.{◌+◌, ◌≡◌, ◌≢◌, refl, true, false, none, some, [], ◌∷◌, map, arith, All, keep_if}
use spur_api.Base.Sort.{IsSorted}
use spur_api.Base.Int.{pos}
use spur_api.Json.{Json, Fields, null, bool, num, str, obj, arr, done, field, nil, cons, eq_json}
use spur_api.Json.Equality.{IsDict, eq_json_refl, eq_json_trans}
use spur_api.Json.Nulls.{without_nulls}
use spur_api.Inputs.{inputs_differ, inputs_differ-nulls}
use spur_api.Database.{ProjectRow}
use spur_api.Action.{ok, err, not_found, project}
use spur_api.Projects.{
  to_schema, find_project, create_project, get_project, update_project, delete_project,
}
use spur_api.Projects.Effects.{
  save_lem, delete_lem, create_scenario, HasRun, IsUnder, IsCreatedFrom,
}
use spur_api.Projects.Listing.{is_listed}
use spur_api.Projects.Listing.Order.{newer, list_newest_first}
use spur_api.Projects.Listing.Pages.{list_complete, summary_id, row_id}
use spur_api.Tests.Samples.{
  first_body, null_body, changed_body, submitted, scenario, renamed_row, scenario_row,
  first_summary, scenario_summary, requests,
}

-- True == 1 == 1.0 and {"a": 1, "b": 2} == {"b": 2.0, "a": True}
abbrev one_two : Json
one_two = obj (field "a" (num (pos 1) 0) (field "b" (num (pos 2) 0) done))

abbrev two_one : Json
two_one = obj (field "b" (num (pos 4) 1) (field "a" (bool true) done))

same_dicts : (eq_json one_two two_one ≡ true) × (eq_json one_two (obj done) ≡ false)
unfolding eq_json
same_dicts = (refl, refl)

eq_json_trans_example : eq_json one_two one_two ≡ true
unfolding eq_json
eq_json_trans_example = eq_json_trans one_two two_one one_two refl refl

eq_json_refl_example : eq_json one_two one_two ≡ true
unfolding IsDict
eq_json_refl_example = eq_json_refl one_two (ground arith)

-- A null argument, two levels down, and none.
abbrev with_null : Fields
with_null =
    field "components" (arr (cons (obj (field "uid" (str "A") (field "jitter" null done))) nil))
      done

abbrev left_out : Fields
left_out = field "components" (arr (cons (obj (field "uid" (str "A") done)) nil)) done

inputs_differ-nulls_example : inputs_differ with_null left_out ≡ false
unfolding IsDict without_nulls
inputs_differ-nulls_example =
    inputs_differ-nulls with_null left_out (ground arith) (ground arith) refl

inputs_do_differ : inputs_differ null_body.dump changed_body.dump ≡ true
unfolding requests
inputs_do_differ = refl

save_lem_example :
    let t = (update_project 102 7 null_body (some (pos 1)) submitted).1 in
    (p : ProjectRow) × (find_project 7 submitted ≡ some p)
    × (get_project 7 t ≡ (ok (to_schema renamed_row), t))
    × ((to_schema renamed_row).version ≡ p.version + 1)
    × ((to_schema renamed_row).spec ≡ null_body.dump)
    × ((to_schema renamed_row).updated_at ≡ 102)
    × (inputs_differ p.spec null_body.dump ≡ true
        → (to_schema renamed_row).inputs_version ≡ (to_schema renamed_row).version)
    × (inputs_differ p.spec null_body.dump ≡ false
        → (to_schema renamed_row).inputs_version ≡ p.inputs_version)
    × ((to_schema renamed_row).owner ≡ p.owner)
    × ((to_schema renamed_row).base_project_id ≡ p.base_project_id)
    × ((to_schema renamed_row).created_at ≡ p.created_at)
    × (t.simulation_runs ≡ submitted.simulation_runs)
    × (t.run_events ≡ submitted.run_events)
unfolding requests
save_lem_example = save_lem 102 7 null_body (some (pos 1)) submitted (to_schema renamed_row) refl

delete_lem_example :
    let t = (delete_project 7 scenario).1 in
    (get_project 7 t ≡ (err (not_found project 7), t))
    × All (λ r. r.project_id ≢ 7) t.simulation_runs
    × All (HasRun t) t.run_events
    × All (λ p. p.base_project_id ≢ some 7) t.projects
unfolding requests
delete_lem_example = delete_lem 7 scenario refl

-- A scenario of a scenario of project 7, and one of that
create_scenario_example :
    let t = (create_project 9 105 first_body none (some 8) scenario).1 in
    let u = (create_project 10 106 null_body (some "key:2") (some 9) t).1 in
    (a b : ProjectRow) × (find_project 9 u ≡ some a)
    × (find_project 10 u ≡ some b)
    × (get_project 9 u ≡ (ok (to_schema a), u))
    × (get_project 10 u ≡ (ok (to_schema b), u))
    × IsUnder scenario_row a.base_project_id
    × (b.base_project_id ≡ a.base_project_id)
    × IsCreatedFrom first_body none a
    × IsCreatedFrom null_body (some "key:2") b
    × (find_project 8 u ≡ some scenario_row)
unfolding requests
create_scenario_example =
    create_scenario 9 10 105 106 8 first_body null_body none (some "key:2") scenario scenario_row
      refl refl refl (omega arith)

list_newest_first_example : IsSorted newer (scenario_summary ∷ first_summary ∷ [])
unfolding requests
list_newest_first_example =
    list_newest_first 100 0 none scenario (scenario_summary ∷ first_summary ∷ []) refl

list_complete_example :
    Perm
      (map summary_id (scenario_summary ∷ []))
      (map row_id (keep_if (is_listed (some 7)) scenario.projects))
unfolding requests
list_complete_example =
    list_complete 100 (some 7) scenario (scenario_summary ∷ []) refl (omega arith)

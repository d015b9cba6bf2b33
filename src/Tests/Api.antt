-- ===== src/Tests/Api.antt =====
-- Headers, bodies and names as clients send them.
use spur_api.Json.{Items, nil, cons}
use spur_api.Horizon.Maximum.{AllTours, AnyTour, EndsBy, EndsAt, derive_until_lem}
use spur_api.Base.{◌≢◌, ℕ, ◌≤◌, ◌<◌, ◌≡◌, refl, String, true, none, some, [], ◌∷◌, inl, inr}
use spur_api.Base.Int.{pos}
use spur_api.Settings.{Settings, default_settings}
use spur_api.Projects.{to_schema, save_project, saved_row}
use mathlib.Core.Option.{bind}
use spur_api.Text.{strip_of, is_space, read_signed, read_digits}
use spur_api.Api.{sent}
use spur_api.Api.Auth.{
  after_prefix, is_ascii, principal, crash, current_principal, HasKey, any_key, principal-HasKey,
  key_is_let_in, odd_token_crashes,
}
use spur_api.Api.IfMatch.{version_from, value_of}
use spur_api.Api.Routes.{put_project, put_project_if_match}
use spur_api.Runs.Submit.{run_row, first_seed, max_seed, Submission}
use spur_api.Runs.Schema.{RunCreate, read_body, run_name, blank_is_none}
use spur_api.Runs.Schema.Seeds.{seeds_fit_column}
use spur_api.Runs.Schema.Names.{IsName, run_name_lem}
use spur_api.Tests.Samples.{
  tour, outside, changed_body, renamed, renamed_row, created_row, requests,
}

-- A name to unfold: all that a text is read with.
unfoldable texts : ℕ
unfolding strip_of bind after_prefix is_ascii current_principal any_key version_from value_of
    read_body run_name blank_is_none is_space read_signed read_digits
texts = 0

-- The version that was loaded, and one that is not the project's.
put_project_if_match_example :
    (put_project 110 7 changed_body (some "2") renamed ≡ (
      sent 200 (to_schema (saved_row 110 changed_body renamed_row)),
      save_project (saved_row 110 changed_body renamed_row) renamed,
    ))
    × (put_project 110 7 changed_body (some "\"2\"") renamed ≡ (
      sent 200 (to_schema (saved_row 110 changed_body renamed_row)),
      save_project (saved_row 110 changed_body renamed_row) renamed,
    ))
unfolding value_of
put_project_if_match_example =
    put_project_if_match 110 7 changed_body renamed renamed_row "2" (unfold requests in refl)
      (refl, tt)

abbrev keyed : Settings
keyed = record default_settings { auth_enabled = true; api_keys = "secret" ∷ "other" ∷ [] }

abbrev hexdigest : String → String
hexdigest key = "0123456789abcdef"

principal-HasKey_example : HasKey hexdigest keyed refl (some "Bearer other") "key:0123456789ab"
unfolding texts
principal-HasKey_example =
    principal-HasKey hexdigest keyed refl (some "Bearer other") "key:0123456789ab" refl

key_is_let_in_example :
    current_principal hexdigest keyed (some "Bearer other ") ≡ principal "key:0123456789ab"
unfolding texts
key_is_let_in_example =
    key_is_let_in hexdigest keyed refl "Bearer other " "other " refl (refl, (refl, tt)) refl
      (inr (inl refl))

odd_token_crashes_example : current_principal hexdigest keyed (some "Bearer clé") ≡ crash
unfolding texts
odd_token_crashes_example =
    odd_token_crashes hexdigest keyed refl "Bearer clé" "clé" "secret" ("other" ∷ []) refl refl refl

abbrev body : RunCreate
body = record {
  until = none;
  chunk_size = none;
  seed = none;
  seeds = some (pos 3);
  name = some "  Baseline ";
}

abbrev read : Submission
read = record { until = none; chunk_size = none; seed = none; name = some "Baseline"; seeds = 3 }

seeds_fit_column_example :
    (1 ≤ 3)
    × (3 ≤ 100)
    × ((k : ℕ)
        → k < 3
        → (v : ℕ) × ((run_row outside created_row read (pos 3600) (first_seed outside read) k).seed
            ≡ some v)
          × (v ≤ max_seed))
seeds_fit_column_example =
    seeds_fit_column outside created_row body read (pos 3600) (unfold texts in refl) (λ n h. h)

run_name_lem_example :
    IsName (some "Baseline") × (run_name (some "Baseline") ≡ some (some "Baseline"))
run_name_lem_example = run_name_lem (some "  Baseline ") (some "Baseline") (unfold texts in refl)

abbrev tours : Items
tours = cons (tour (pos 3600)) (cons (tour (pos 1800)) nil)

derive_until_lem_example :
    (tours ≡ nil → pos 3600 ≡ pos 86400)
    × (tours ≢ nil → AllTours (EndsBy (pos 3600)) tours × AnyTour (EndsAt (pos 3600)) tours)
unfolding requests
derive_until_lem_example =
    derive_until_lem default_settings changed_body.dump tours (pos 3600) refl refl
